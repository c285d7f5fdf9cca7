-- ===== src/Emit/Frame.antt =====
-- The machine with the variables of a frame: what the processor does with an operand `[rbp+adr]` of
-- 64 bits.
use jkvlang.Prelude.{
  ℕ, ◌+◌, ◌-◌, ◌*◌, ◌/◌, ◌%◌, ◌^◌, Bool, ◌&&◌, false, not, List, [], ◌∷◌, Option, none, some, ltb,
  ◌==◌, if◌then◌else◌,
}
use jkvlang.Prelude.Int.{ℤ, pos, negsuc}
use jkvlang.Code.Lines
use jkvlang.Code.Lines.{Mnemonic, Operand, Line, instr, label, raw, reg, blank, bp_rel, rax, rcx}
use jkvlang.Emit.Machine.{Machine, word, step}

-- The registers and the stack, and the contents of `[rbp+z]`.
pub record Frame : Type 0 where
  pub machine : Machine
  pub slot : ℤ → ℕ

abbrev eq_ℤ : ℤ → ℤ → Bool
eq_ℤ (pos a) (pos b) = a == b
eq_ℤ (negsuc a) (negsuc b) = a == b
eq_ℤ a b = false

abbrev pub store : ℤ → ℕ → (ℤ → ℕ) → ℤ → ℕ
store adr v slot z = if eq_ℤ z adr then v else slot z

abbrev on_machine : Frame → Option Machine → Option Frame
on_machine f none = none
on_machine f (some m) = some (record f { machine = m })

-- `idiv` of a number without a sign by a positive one; none for the others.
abbrev divide : ℕ → Machine → Option Machine
divide y m =
    if m.d == 0 && (not (y == 0) && (ltb m.a (2 ^ 63) && ltb y (2 ^ 63)))
    then some (record m { a = m.a / y; d = m.a % y })
    else none

unfoldable pub frame_step : Mnemonic → Operand → Operand → Frame → Option Frame
frame_step Lines.op_mov (bp_rel z) (reg rax) f =
    some (record f { slot = store z f.machine.a f.slot })
frame_step Lines.op_add (bp_rel z) (reg rax) f =
    some (record f { slot = store z ((f.slot z + f.machine.a) % word) f.slot })
frame_step Lines.op_sub (bp_rel z) (reg rax) f =
    some (record f { slot = store z ((f.slot z + (word - f.machine.a)) % word) f.slot })
frame_step Lines.op_imul (reg rax) (bp_rel z) f =
    some (record f { machine = record (f.machine) { a = f.machine.a * f.slot z % word } })
frame_step Lines.op_mov (reg rcx) (bp_rel z) f =
    some (record f { machine = record (f.machine) { c = f.slot z } })
frame_step Lines.op_cqo blank blank f =
    let sign = if ltb f.machine.a (2 ^ 63) then 0 else word - 1 in
    some (record f { machine = record (f.machine) { d = sign } })
frame_step Lines.op_idiv (reg rcx) blank f = on_machine f (divide f.machine.c f.machine)
frame_step op dst src f = on_machine f (step op dst src f.machine)

infixl 5 ◌>>=◌
abbrev ◌>>=◌ : {A B : Type 0} → Option A → (A → Option B) → Option B
none >>= f = none
some x >>= f = f x

-- A text without labels.
unfoldable pub run_frame : List Line → Frame → Option Frame
unfolding frame_step
run_frame [] f = some f
run_frame (instr op dst src ∷ ls) f = frame_step op dst src f >>= run_frame ls
run_frame (l ∷ ls) f = none
