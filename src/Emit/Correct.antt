-- ===== src/Emit/Correct.antt =====
-- The code of the integer operations and the comparisons does what the source program means.
use mathlib.Core.Path.{subst}
use jkvlang.Prelude.{
  ℕ, ◌+◌, ◌-◌, ◌*◌, ◌/◌, ◌%◌, ◌<◌, ◌≡◌, refl, ap, true, List, ◌∷◌, ◌++◌, Option, none, some, arith,
}
use jkvlang.Prelude.Outcomes.{Outcome, Returns, Returns-weaken}
use jkvlang.Prelude.Int.{pos, negsuc}
use jkvlang.Token.Kind
use jkvlang.Token.Kind.{Token, is_compare}
use jkvlang.Code.Lines
use jkvlang.Code.Lines.{Mnemonic, Line, instr, label, reg, imm, label_ref, blank, rax, rbx}
use jkvlang.Code.Asm.{Asm, ax, ax_is_tos}
use jkvlang.Code.Asm.Laws.{emitted}
use jkvlang.Emit.Instr.{sp_change}
use jkvlang.Emit.Ops.{token_op, integer_code, emit_integer_op}
use jkvlang.Emit.Machine.{Machine, word, run, run_line, step}
use jkvlang.Emit.Writes.{Wrote, AllInstr, emit_all-Wrote}

-- The text behind that of `a` that takes a machine with `x` and, on top of it in rax, `y` to one
-- with `r` in rax and nothing of the two on the stack.
abbrev pub Computes : Asm → ℕ → ℕ → ℕ → Asm → Type 0
Computes a x y r b =
    (ls : List Line) × (emitted b ≡ emitted a ++ ls)
    × ((m : Machine)
        → (st : List ℕ)
        → (m' : Machine) × (run ls none (record m { a = y; stack = x ∷ st }) ≡ some m')
          × (m'.a ≡ r)
          × (m'.stack ≡ st))

-- The arithmetic of 64 bits.
abbrev pub meaning : Token → Option (ℕ → ℕ → ℕ)
meaning Kind.tok_plus = some (λ x y. (x + y) % word)
meaning Kind.tok_minus = some (λ x y. (x + (word - y)) % word)
meaning Kind.tok_mult = some (λ x y. x * y % word)
meaning _ = none

plus_code :
    (m : Machine) (x y : ℕ) (st : List ℕ)
    → (m' : Machine) × (run
          (integer_code Kind.tok_plus Lines.op_add)
          none
          (record m { a = y; stack = x ∷ st })
        ≡ some m')
      × (m'.a ≡ (x + y) % word)
      × (m'.stack ≡ st)
unfolding run run_line step integer_code
plus_code m x y st = (record m { a = (y + x) % word; c = x; stack = st }, refl, ground arith, refl)

minus_code :
    (m : Machine) (x y : ℕ) (st : List ℕ)
    → x < word
    → y < word
    → (m' : Machine) × (run
          (integer_code Kind.tok_minus Lines.op_sub)
          none
          (record m { a = y; stack = x ∷ st })
        ≡ some m')
      × (m'.a ≡ (x + (word - y)) % word)
      × (m'.stack ≡ st)
unfolding run run_line step integer_code
minus_code m x y st h k = (
  record m { a = (word - (y + (word - x)) % word) % word; c = x; stack = st },
  refl,
  omega arith,
  refl,
)

mult_code :
    (m : Machine) (x y : ℕ) (st : List ℕ)
    → (m' : Machine) × (run
          (integer_code Kind.tok_mult Lines.op_mul)
          none
          (record m { a = y; stack = x ∷ st })
        ≡ some m')
      × (m'.a ≡ x * y % word)
      × (m'.stack ≡ st)
unfolding run run_line step integer_code
mult_code m x y st =
    (record m { a = y * x % word; d = y * x / word; c = x; stack = st }, refl, ground arith, refl)

pub is_ax : (a : Asm) → a.state ≡ ax → ax_is_tos a ≡ true
unfolding ax_is_tos
is_ax a h = rw h refl

integer_op-Wrote :
    (op : Token) (i : Mnemonic) (a : Asm)
    → token_op op ≡ some i
    → AllInstr (integer_code op i)
    → a.state ≡ ax
    → a.no_code ≡ 0
    → Returns (Wrote (integer_code op i) a) (emit_integer_op op a)
unfolding emit_integer_op
integer_op-Wrote op i a e all h k = rw (is_ax a h, e) (emit_all-Wrote (integer_code op i) a all k)

abbrev function_of : Option (ℕ → ℕ → ℕ) → ℕ → ℕ → ℕ
function_of none = λ x y. 0
function_of (some f) = f

same_function :
    (g f : ℕ → ℕ → ℕ) (a : Asm) (x y : ℕ) (o : Outcome Asm)
    → some g ≡ some f
    → Returns (Computes a x y (g x y)) o
    → Returns (Computes a x y (f x y)) o
same_function g f a x y o e h = subst (λ k. Returns (Computes a x y (k x y)) o) (ap function_of e) h

-- With code generation on, the right operand in rax and the left one on the stack, both of 64
-- bits, `EmitIntegerOp` returns for +, - and *, and the code that it writes leaves the result, modulo 2 ^ 64, in rax and takes the left
-- operand off the stack.
pub emit_integer_op-Computes :
    (op : Token) (f : ℕ → ℕ → ℕ) (a : Asm) (x y : ℕ)
    → meaning op ≡ some f
    → a.state ≡ ax
    → a.no_code ≡ 0
    → x < word
    → y < word
    → Returns (Computes a x y (f x y)) (emit_integer_op op a)
unfolding token_op integer_code sp_change
emit_integer_op-Computes Kind.tok_plus f a x y e h k p q =
    same_function _ f a x y (emit_integer_op Kind.tok_plus a) e (
      Returns-weaken _ _ (emit_integer_op Kind.tok_plus a)
        (λ b w. (integer_code Kind.tok_plus Lines.op_add, w.text, λ m st. plus_code m x y st))
        (integer_op-Wrote Kind.tok_plus Lines.op_add a refl ((negsuc 0, refl), ((pos 0, refl), tt))
          h k))
emit_integer_op-Computes Kind.tok_minus f a x y e h k p q =
    same_function _ f a x y (emit_integer_op Kind.tok_minus a) e (
      Returns-weaken _ _ (emit_integer_op Kind.tok_minus a)
        (λ b w. (integer_code Kind.tok_minus Lines.op_sub, w.text, λ m st. minus_code m x y st p q))
        (integer_op-Wrote Kind.tok_minus Lines.op_sub a refl
          ((negsuc 0, refl), ((pos 0, refl), ((pos 0, refl), tt))) h k))
emit_integer_op-Computes Kind.tok_mult f a x y e h k p q =
    same_function _ f a x y (emit_integer_op Kind.tok_mult a) e (
      Returns-weaken _ _ (emit_integer_op Kind.tok_mult a)
        (λ b w. (integer_code Kind.tok_mult Lines.op_mul, w.text, λ m st. mult_code m x y st))
        (integer_op-Wrote Kind.tok_mult Lines.op_mul a refl ((negsuc 0, refl), ((pos 0, refl), tt))
          h k))
emit_integer_op-Computes _ f a x y e h k p q = cc
