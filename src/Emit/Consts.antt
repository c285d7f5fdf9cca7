-- ===== src/Emit/Consts.antt =====
-- The code of `EmitOpIntConst`, for the operations of the ring.
use mathlib.Core.Path.{subst}
use jkvlang.Prelude.{
  ℕ, ◌+◌, ◌-◌, ◌*◌, ◌%◌, ◌^◌, ◌<◌, ◌≡◌, refl, ap, ◌||◌, false, List, [], ◌∷◌, ◌++◌, Option, none,
  some, arith,
}
use jkvlang.Prelude.Outcomes.{Returns, Returns-bind}
use jkvlang.Prelude.Int.{ℤ, pos, negsuc, ltb_ℤ}
use jkvlang.Token.Kind
use jkvlang.Token.Kind.{Token}
use jkvlang.Code.Lines
use jkvlang.Code.Lines.{Line, instr, reg, imm, rax_imm, rax, blank}
use jkvlang.Code.Asm.{Asm, ax}
use jkvlang.Code.Asm.Laws.{emitted}
use jkvlang.Emit.Instr.{sp_change, emit_all}
use jkvlang.Emit.Ops.{Failable, const_code, emit_op_int_const, token_op}
use jkvlang.Emit.Machine.{Machine, word, to_word, source, run, run_line, step}
use jkvlang.Emit.Writes.{Wrote, AllInstr, emit_all-Wrote}
use jkvlang.Emit.Correct.{is_ax}

-- The text behind that of `a` that takes a machine with `y` in rax to one with `r` there and with
-- the same stack.
abbrev pub Changes : Asm → ℕ → ℕ → Asm → Type 0
Changes a y r b =
    (ls : List Line) × (emitted b ≡ emitted a ++ ls)
    × ((m : Machine)
        → (m' : Machine) × (run ls none (record m { a = y }) ≡ some m')
          × (m'.a ≡ r)
          × (m'.stack ≡ m.stack))

-- The arithmetic of 64 bits with the constant on the right, or on the left for `TOK_INV_MINUS`.
abbrev pub const_meaning : Token → Option (ℕ → ℕ → ℕ)
const_meaning Kind.tok_plus = some (λ y z. (y + z) % word)
const_meaning Kind.tok_minus = some (λ y z. (y + (word - z)) % word)
const_meaning Kind.tok_inv_minus = some (λ y z. (z + (word - y)) % word)
const_meaning Kind.tok_mult = some (λ y z. y * z % word)
const_meaning _ = none

-- A number of 32 bits with its sign, the most negative one excepted.
abbrev pub IsSmall : ℤ → Type 0
IsSmall (pos n) = n < 2 ^ 31
IsSmall (negsuc n) = n + 1 < 2 ^ 31

-- What a run of a text does to rax.
abbrev Runs : List Line → ℕ → ℕ → Type 0
Runs ls y r =
    (m : Machine)
    → (m' : Machine) × (run ls none (record m { a = y }) ≡ some m')
      × (m'.a ≡ r)
      × (m'.stack ≡ m.stack)

small_source : (z : ℤ) (m : Machine) → IsSmall z → source (imm z) m ≡ some (to_word z)
small_source (pos n) m h = ground arith
small_source (negsuc n) m h = ground arith

to_word_bound : (z : ℤ) → to_word z < word
to_word_bound (pos n) = omega arith
to_word_bound (negsuc n) = omega arith

module _ (y : ℕ) (z : ℤ) (small : IsSmall z) where
  plus-Runs : Runs (instr Lines.op_add (reg rax) (imm z) ∷ []) y ((y + to_word z) % word)
  unfolding run run_line step
  plus-Runs m = (
    record m { a = (y + to_word z) % word },
    rw (small_source z (record m { a = y }) small) refl,
    refl,
    refl,
  )

  minus-Runs : Runs (instr Lines.op_sub (reg rax) (imm z) ∷ []) y ((y + (word - to_word z)) % word)
  unfolding run run_line step
  minus-Runs m = (
    record m { a = (y + (word - to_word z)) % word },
    rw (small_source z (record m { a = y }) small) refl,
    refl,
    refl,
  )

  inv_minus-Runs :
      y < word
      → Runs
          (instr Lines.op_sub (reg rax) (imm z) ∷ instr Lines.op_neg (reg rax) blank ∷ [])
          y
          ((to_word z + (word - y)) % word)
  unfolding run run_line step
  inv_minus-Runs h m = (
    record m { a = (word - (y + (word - to_word z)) % word) % word },
    rw (small_source z (record m { a = y }) small) refl,
    omega (arith, to_word_bound z),
    refl,
  )

  mult-Runs : Runs (instr Lines.op_imul (reg rax) (rax_imm z) ∷ []) y (y * to_word z % word)
  unfolding run run_line step
  mult-Runs m = (
    record m { a = y * to_word z % word },
    rw (small_source z (record m { a = y }) small) refl,
    refl,
    refl,
  )

in_range :
    (z : ℤ) → IsSmall z → (ltb_ℤ z (negsuc 0x7FFF_FFFE) || ltb_ℤ (pos 0x7_FFFF_FFFF) z) ≡ false
in_range (pos n) h = ground arith
in_range (negsuc n) h = ground arith

-- The code of an operation that is written and run.
const_op :
    (op : Token) (z : ℤ) (ls : List Line) (a : Asm) (y r : ℕ)
    → IsSmall z
    → const_code op z ≡ some ls
    → AllInstr ls
    → Runs ls y r
    → a.state ≡ ax
    → a.no_code ≡ 0
    → Returns (λ b. (b.0 ≡ false) × Changes a y r b.1) (emit_op_int_const op z a)
unfolding emit_op_int_const
const_op op z ls a y r small e all run_ls h k =
    rw (is_ax a h, in_range z small, e)
      (Returns-bind (λ b. Wrote ls a b) _ (emit_all ls a) _ (emit_all-Wrote ls a all k)
        (λ b w. (refl, (ls, w.text, run_ls))))

abbrev function_of : Option (ℕ → ℕ → ℕ) → ℕ → ℕ → ℕ
function_of none = λ y z. 0
function_of (some f) = f

same_meaning :
    (g f : ℕ → ℕ → ℕ) (a : Asm) (y v : ℕ) (o : Failable)
    → some g ≡ some f
    → Returns (λ b. (b.0 ≡ false) × Changes a y (g y v) b.1) o
    → Returns (λ b. (b.0 ≡ false) × Changes a y (f y v) b.1) o
same_meaning g f a y v o e h =
    subst (λ k. Returns (λ b. (b.0 ≡ false) × Changes a y (k y v) b.1) o) (ap function_of e) h

-- With code generation on and an operand of 64 bits in rax, `EmitOpIntConst` returns no error for +, - either way round and *, and
-- a constant of 32 bits with its sign (the most negative one excepted); the code that it writes
-- leaves the result, modulo 2 ^ 64, in rax and the stack as it is.
pub emit_op_int_const-Changes :
    (op : Token) (f : ℕ → ℕ → ℕ) (z : ℤ) (a : Asm) (y : ℕ)
    → const_meaning op ≡ some f
    → IsSmall z
    → a.state ≡ ax
    → a.no_code ≡ 0
    → y < word
    → Returns (λ b. (b.0 ≡ false) × Changes a y (f y (to_word z)) b.1) (emit_op_int_const op z a)
unfolding const_code token_op sp_change
emit_op_int_const-Changes Kind.tok_plus f z a y e small h k lt =
    same_meaning _ f a y (to_word z) (emit_op_int_const Kind.tok_plus z a) e (
      const_op Kind.tok_plus z (instr Lines.op_add (reg rax) (imm z) ∷ []) a y _ small refl
        ((pos 0, refl), tt) (plus-Runs y z small) h k)
emit_op_int_const-Changes Kind.tok_minus f z a y e small h k lt =
    same_meaning _ f a y (to_word z) (emit_op_int_const Kind.tok_minus z a) e (
      const_op Kind.tok_minus z (instr Lines.op_sub (reg rax) (imm z) ∷ []) a y _ small refl
        ((pos 0, refl), tt) (minus-Runs y z small) h k)
emit_op_int_const-Changes Kind.tok_inv_minus f z a y e small h k lt =
    same_meaning _ f a y (to_word z) (emit_op_int_const Kind.tok_inv_minus z a) e (
      const_op Kind.tok_inv_minus z
        (instr Lines.op_sub (reg rax) (imm z) ∷ instr Lines.op_neg (reg rax) blank ∷ []) a y _ small
        refl ((pos 0, refl), ((pos 0, refl), tt)) (inv_minus-Runs y z small lt) h k)
emit_op_int_const-Changes Kind.tok_mult f z a y e small h k lt =
    same_meaning _ f a y (to_word z) (emit_op_int_const Kind.tok_mult z a) e (
      const_op Kind.tok_mult z (instr Lines.op_imul (reg rax) (rax_imm z) ∷ []) a y _ small refl
        ((pos 0, refl), tt) (mult-Runs y z small) h k)
emit_op_int_const-Changes _ f z a y e small h k lt = cc
