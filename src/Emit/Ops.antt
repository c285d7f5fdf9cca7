-- ===== src/Emit/Ops.antt =====
-- emit_nasm.go: integer operations and comparisons.
use jkvlang.Prelude.{
  ℕ, Bool, true, false, not, ◌||◌, List, [], ◌∷◌, Text, Option, none, some, if◌then◌else◌,
}
use jkvlang.Prelude.Outcomes.{Outcome, ok, panic, ◌>>=◌}
use jkvlang.Prelude.Int.{ℤ, pos, negsuc, ltb_ℤ}
use jkvlang.Token.Kind
use jkvlang.Token.Kind.{Token}
use jkvlang.Code.Lines
use jkvlang.Code.Lines.{
  Mnemonic, Operand, Line, instr, label, blank, reg, imm, rax_imm, label_ref, symbol, rax, rbx, rcx,
  rdx, cl,
}
use jkvlang.Code.Asm.{Asm, set_ax, ax_is_tos, new_label}
use jkvlang.Emit.Instr.{emit, emit_all, emit_label, emit_pop_bx}

-- `TokenOp`; no entry is the empty text.
unfoldable pub token_op : Token → Option Mnemonic
token_op Kind.tok_and = some Lines.op_and
token_op Kind.tok_or = some Lines.op_or
token_op Kind.tok_xor = some Lines.op_xor
token_op Kind.tok_plus = some Lines.op_add
token_op Kind.tok_minus = some Lines.op_sub
token_op Kind.tok_mult = some Lines.op_mul
token_op Kind.tok_div = some Lines.op_div
token_op Kind.tok_plus_assign = some Lines.op_add
token_op Kind.tok_minus_asgn = some Lines.op_sub
token_op Kind.tok_or_asgn = some Lines.op_or
token_op Kind.tok_and_asgn = some Lines.op_and
token_op Kind.tok_assign = some Lines.op_mov
token_op Kind.tok_mult_asgn = some Lines.op_imul
token_op Kind.tok_div_asgn = some Lines.op_idiv
token_op Kind.tok_shl = some Lines.op_shl
token_op Kind.tok_shr = some Lines.op_shr
token_op Kind.tok_and_not = some Lines.op_andnot
token_op Kind.tok_mod = some Lines.op_mod
token_op _ = none

abbrev pop_rcx : Line
pop_rcx = instr Lines.op_pop (reg rcx) blank

-- The conditional jump of `EmitJumpCond`, or none where it returns an error.
unfoldable pub jump_of : Token → Bool → Option Mnemonic
jump_of Kind.tok_eq u = some Lines.op_je
jump_of Kind.tok_ne u = some Lines.op_jne
jump_of Kind.tok_gt u = some (if u then Lines.op_ja else Lines.op_jg)
jump_of Kind.tok_le u = some (if u then Lines.op_jbe else Lines.op_jle)
jump_of Kind.tok_ge u = some (if u then Lines.op_jae else Lines.op_jge)
jump_of Kind.tok_lt u = some (if u then Lines.op_jb else Lines.op_jl)
jump_of _ u = none

-- Whether the code returned an error, and the writer behind it.
abbrev pub Failable : Type 0
Failable = Outcome (Bool × Asm)

-- The nil error, beside the writer.
abbrev pub no_error : Asm → Failable
no_error b = ok (false, b)

abbrev jump_with : ℕ → Option Mnemonic → Asm → Failable
jump_with n none b = ok (true, b)
jump_with n (some j) b =
    emit j (label_ref n) blank b >>= emit Lines.op_mov (reg rax) (imm (pos 0)) >>= λ c.
    ok (false, set_ax (emit_label n c))

-- `EmitJumpCond`
unfoldable pub emit_jump_cond : Token → Bool → Asm → Failable
unfolding emit emit_label jump_of new_label set_ax
emit_jump_cond op u a =
    let (n, b) = new_label a in
    emit Lines.op_mov (reg rax) (imm (pos 1)) b >>= jump_with n (jump_of op u)

-- `EmitCompareIntegers`
unfoldable pub emit_compare_integers : Token → Bool → Asm → Failable
unfolding emit emit_pop_bx emit_jump_cond
emit_compare_integers op u a =
    emit_pop_bx a >>= emit Lines.op_cmp (reg rbx) (reg rax) >>= emit_jump_cond op u

-- `EmitCompareIntConst`
unfoldable pub emit_compare_int_const : Token → ℤ → Bool → Asm → Failable
unfolding emit emit_jump_cond
emit_compare_int_const op z u a =
    if ltb_ℤ (pos 0x7FFF_FFFF) z || ltb_ℤ z (negsuc 0x7FFF_FFFE)
    then (emit Lines.op_mov (reg rbx) (imm z) a
        >>= emit Lines.op_cmp (reg rax) (reg rbx)
        >>= emit_jump_cond op u)
    else (emit Lines.op_cmp (reg rax) (imm z) a >>= emit_jump_cond op u)

-- `EmitCompareIntConst64`, of a constant that is given by its text.
unfoldable pub emit_compare_int_const64 : Token → Text → Bool → Asm → Failable
unfolding emit emit_jump_cond
emit_compare_int_const64 op value u a =
    emit Lines.op_mov (reg rbx) (symbol value) a
    >>= emit Lines.op_cmp (reg rax) (reg rbx)
    >>= emit_jump_cond op u

-- The instructions of `EmitIntegerOp`, with `i` the one of `TokenOp`.
unfoldable pub integer_code : Token → Mnemonic → List Line
integer_code Kind.tok_div i =
    pop_rcx
    ∷ instr Lines.op_xchg (reg rax) (reg rcx)
    ∷ instr Lines.op_cqo blank blank
    ∷ instr Lines.op_idiv (reg rcx) blank
    ∷ []
integer_code Kind.tok_mod i =
    pop_rcx
    ∷ instr Lines.op_xchg (reg rax) (reg rcx)
    ∷ instr Lines.op_cqo blank blank
    ∷ instr Lines.op_idiv (reg rcx) blank
    ∷ instr Lines.op_mov (reg rax) (reg rdx)
    ∷ []
integer_code Kind.tok_minus i =
    pop_rcx ∷ instr Lines.op_sub (reg rax) (reg rcx) ∷ instr Lines.op_neg (reg rax) blank ∷ []
integer_code Kind.tok_and_not i =
    pop_rcx ∷ instr Lines.op_not (reg rax) blank ∷ instr Lines.op_and (reg rax) (reg rcx) ∷ []
integer_code Kind.tok_mult i = pop_rcx ∷ instr Lines.op_mul (reg rcx) blank ∷ []
integer_code Kind.tok_shl i =
    instr Lines.op_mov (reg rcx) (reg rax)
    ∷ instr Lines.op_pop (reg rax) blank
    ∷ instr i (reg rax) (reg cl)
    ∷ []
integer_code Kind.tok_shr i =
    instr Lines.op_mov (reg rcx) (reg rax)
    ∷ instr Lines.op_pop (reg rax) blank
    ∷ instr i (reg rax) (reg cl)
    ∷ []
integer_code _ i = pop_rcx ∷ instr i (reg rax) (reg rcx) ∷ []

abbrev integer_with : Token → Option Mnemonic → Asm → Outcome Asm
integer_with op none a = panic
integer_with op (some i) a = emit_all (integer_code op i) a

-- `EmitIntegerOp`
unfoldable pub emit_integer_op : Token → Asm → Outcome Asm
unfolding emit_all token_op integer_code ax_is_tos
emit_integer_op op a = if ax_is_tos a then integer_with op (token_op op) a else panic

-- The instructions of `EmitOpIntConst`, or none where it returns an error.
unfoldable pub const_code : Token → ℤ → Option (List Line)
unfolding token_op
const_code Kind.tok_div z = some (
    instr Lines.op_cqo blank blank
    ∷ instr Lines.op_mov (reg rbx) (imm z)
    ∷ instr Lines.op_idiv (reg rbx) blank
    ∷ [])
const_code Kind.tok_inv_div z = some (
    instr Lines.op_mov (reg rbx) (imm z)
    ∷ instr Lines.op_xchg (reg rax) (reg rbx)
    ∷ instr Lines.op_cqo blank blank
    ∷ instr Lines.op_idiv (reg rbx) blank
    ∷ [])
const_code Kind.tok_mod z = some (
    instr Lines.op_mov (reg rbx) (imm z)
    ∷ instr Lines.op_cqo blank blank
    ∷ instr Lines.op_idiv (reg rbx) blank
    ∷ instr Lines.op_mov (reg rax) (reg rdx)
    ∷ [])
const_code Kind.tok_inv_mod z = some (
    instr Lines.op_mov (reg rbx) (imm z)
    ∷ instr Lines.op_xchg (reg rax) (reg rbx)
    ∷ instr Lines.op_cqo blank blank
    ∷ instr Lines.op_idiv (reg rbx) blank
    ∷ instr Lines.op_mov (reg rax) (reg rdx)
    ∷ [])
const_code Kind.tok_mult z = some (instr Lines.op_imul (reg rax) (rax_imm z) ∷ [])
const_code Kind.tok_inv_minus z =
    some (instr Lines.op_sub (reg rax) (imm z) ∷ instr Lines.op_neg (reg rax) blank ∷ [])
const_code Kind.tok_minus z = some (instr Lines.op_sub (reg rax) (imm z) ∷ [])
const_code Kind.tok_inv_shl z = some (
    instr Lines.op_mov (reg rcx) (reg rax)
    ∷ instr Lines.op_mov (reg rax) (imm z)
    ∷ instr Lines.op_shl (reg rax) (reg cl)
    ∷ [])
const_code Kind.tok_inv_shr z = some (
    instr Lines.op_mov (reg rcx) (reg rax)
    ∷ instr Lines.op_mov (reg rax) (imm z)
    ∷ instr Lines.op_shr (reg rax) (reg cl)
    ∷ [])
const_code op z = elim (token_op op) [
  | none ↦ none
  | some i ↦ some (instr i (reg rax) (imm z) ∷ [])
]

abbrev const_with : Option (List Line) → Asm → Failable
const_with none a = ok (true, a)
const_with (some ls) a = emit_all ls a >>= λ b. ok (false, b)

-- `EmitOpIntConst`
unfoldable pub emit_op_int_const : Token → ℤ → Asm → Failable
unfolding emit_all const_code ax_is_tos
emit_op_int_const op z a =
    if not (ax_is_tos a)
    then panic
    else if ltb_ℤ z (negsuc 0x7FFF_FFFE) || ltb_ℤ (pos 0x7_FFFF_FFFF) z
    then ok (true, a)
    else const_with (const_code op z) a

-- `Inverse`
unfoldable pub inverse : Token → Token
inverse Kind.tok_lt = Kind.tok_gt
inverse Kind.tok_le = Kind.tok_ge
inverse Kind.tok_gt = Kind.tok_lt
inverse Kind.tok_ge = Kind.tok_le
inverse Kind.tok_minus = Kind.tok_inv_minus
inverse Kind.tok_div = Kind.tok_inv_div
inverse Kind.tok_mod = Kind.tok_inv_mod
inverse Kind.tok_shl = Kind.tok_inv_shl
inverse Kind.tok_shr = Kind.tok_inv_shr
inverse op = op
