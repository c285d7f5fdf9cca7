-- ===== src/Emit/Machine.antt =====
-- What the processor does with the instructions of the integer operations and the comparisons, as
-- its manual has it: the specification that the code of emit_nasm.go is measured by.
use jkvlang.Prelude.{
  ℕ, ◌+◌, ◌-◌, ◌*◌, ◌/◌, ◌%◌, ◌^◌, Bool, true, false, not, List, [], ◌∷◌, Option, none, some, ltb,
  leb, ◌==◌, if◌then◌else◌,
}
use jkvlang.Prelude.Int.{ℤ, pos, negsuc}
use jkvlang.Code.Lines
use jkvlang.Code.Lines.{
  Mnemonic, Register, Operand, Line, instr, label, raw, reg, imm, rax_imm, label_ref, blank, rax,
  rbx, rcx, rdx,
}

-- Four registers of 64 bits, the stack from its top on, and the operands of the last comparison.
pub record Machine : Type 0 where
  pub a : ℕ
  pub b : ℕ
  pub c : ℕ
  pub d : ℕ
  pub stack : List ℕ
  pub compared : ℕ × ℕ

abbrev pub word : ℕ
word = 2 ^ 64

-- The 64 bits of an integer.
abbrev pub to_word : ℤ → ℕ
to_word (pos n) = n % word
to_word (negsuc n) = word - 1 - n % word

abbrev get : Register → Machine → Option ℕ
get rax m = some m.a
get rbx m = some m.b
get rcx m = some m.c
get rdx m = some m.d
get _ m = none

abbrev put : Register → ℕ → Machine → Option Machine
put rax v m = some (record m { a = v })
put rbx v m = some (record m { b = v })
put rcx v m = some (record m { c = v })
put rdx v m = some (record m { d = v })
put _ v m = none

infixl 5 ◌>>=◌
abbrev pub ◌>>=◌ : {A B : Type 0} → Option A → (A → Option B) → Option B
none >>= f = none
some x >>= f = f x

-- A source: a register, or a number that fits into 32 bits with its sign.
abbrev pub source : Operand → Machine → Option ℕ
source (reg r) m = get r m
source (imm (pos n)) m = if ltb n (2 ^ 31) then some n else none
source (imm (negsuc n)) m = if ltb n (2 ^ 31) then some (word - 1 - n) else none
source _ m = none

-- An instruction that leaves its result in its first operand.
abbrev apply : (ℕ → ℕ → ℕ) → Register → Operand → Machine → Option Machine
apply f r src m = get r m >>= λ x. source src m >>= λ y. put r (f x y) m

abbrev pop_to : Register → List ℕ → Machine → Option Machine
pop_to r [] m = none
pop_to r (v ∷ vs) m = put r v (record m { stack = vs })

-- One instruction; none where the machine has no such instruction or the stack is empty.
unfoldable pub step : Mnemonic → Operand → Operand → Machine → Option Machine
step Lines.op_push (reg r) blank m = get r m >>= λ v. some (record m { stack = v ∷ m.stack })
step Lines.op_pop (reg r) blank m = pop_to r m.stack m
-- A number of 64 bits can be moved to a register.
step Lines.op_mov (reg r) (imm z) m = put r (to_word z) m
step Lines.op_mov (reg r) (reg q) m = get q m >>= λ v. put r v m
step Lines.op_add (reg r) src m = apply (λ x y. (x + y) % word) r src m
step Lines.op_sub (reg r) src m = apply (λ x y. (x + (word - y)) % word) r src m
step Lines.op_neg (reg r) blank m = get r m >>= λ x. put r ((word - x) % word) m
step Lines.op_mul (reg r) blank m =
    get r m >>= λ x. some (record m { a = m.a * x % word; d = m.a * x / word })
step Lines.op_imul (reg r) (rax_imm z) m = source (imm z) m >>= λ y. put r (m.a * y % word) m
step Lines.op_cmp (reg r) src m =
    get r m >>= λ x. source src m >>= λ y. some (record m { compared = (x, y) })
step op dst src m = none

-- The order of the two numbers as signed ones: that of the numbers moved up by half of the range.
abbrev pub signed : ℕ → ℕ
signed x = (x + 2 ^ 63) % word

-- Whether a conditional jump jumps after a comparison.
unfoldable pub jumps : Mnemonic → ℕ → ℕ → Option Bool
jumps Lines.op_je x y = some (x == y)
jumps Lines.op_jne x y = some (not (x == y))
jumps Lines.op_ja x y = some (ltb y x)
jumps Lines.op_jbe x y = some (leb x y)
jumps Lines.op_jae x y = some (leb y x)
jumps Lines.op_jb x y = some (ltb x y)
jumps Lines.op_jg x y = some (ltb (signed y) (signed x))
jumps Lines.op_jle x y = some (leb (signed x) (signed y))
jumps Lines.op_jge x y = some (leb (signed y) (signed x))
jumps Lines.op_jl x y = some (ltb (signed x) (signed y))
jumps _ x y = none

abbrev after_jump : ℕ → Option Bool → Option (Option ℕ)
after_jump n none = none
after_jump n (some true) = some (some n)
after_jump n (some false) = some none

abbrev skips : Option ℕ → ℕ → Option ℕ
skips none n = none
skips (some k) n = if k == n then none else some k

-- A line of a text: the label that is jumped to, if one is, and the machine.
unfoldable pub run_line : Line → Option ℕ → Machine → Option (Option ℕ × Machine)
unfolding step jumps
run_line (label n) skip m = some (skips skip n, m)
run_line (raw t) skip m = some (skip, m)
run_line (instr op dst src) (some k) m = some (some k, m)
run_line (instr op (label_ref n) src) none m =
    after_jump n (jumps op m.compared.0 m.compared.1) >>= λ skip. some (skip, m)
run_line (instr op dst src) none m = step op dst src m >>= λ r. some (none, r)

-- A text that jumps forward only; a label that is not found is no result.
unfoldable pub run : List Line → Option ℕ → Machine → Option Machine
unfolding run_line
run [] none m = some m
run [] (some k) m = none
run (l ∷ ls) skip m = run_line l skip m >>= λ r. run ls r.0 r.1
