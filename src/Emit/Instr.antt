-- ===== src/Emit/Instr.antt =====
-- emit_nasm.go: `emit`, the operands, and the moves between the stack and rax.
use jkvlang.Prelude.{
  ℕ, zero, suc, ◌+◌, ◌*◌, ◌/◌, ◌%◌, Bool, true, false, ◌||◌, List, [], ◌∷◌, ◌++◌, Text, codes,
  Option, none, some, ltb, ◌==◌, if◌then◌else◌,
}
use jkvlang.Prelude.Outcomes.{Outcome, ok, panic, ◌>>=◌}
use jkvlang.Prelude.Int.{ℤ, pos, negsuc, ◌+ℤ◌, ◌-ℤ◌, ltb_ℤ}
use jkvlang.Code.Lines
use jkvlang.Code.Lines.{
  Mnemonic, Register, Operand, Line, instr, label, blank, reg, imm, bp_rel, sized_bp_rel, label_ref,
  literal, symbol, rax, rbx, rcx, rsp, rbp, eax, ax, al,
}
use jkvlang.Code.Asm.{Asm, set_ax, set_sp, set_undef, ax_is_tos, sp_is_tos, write}

-- `n / 8`, when it is exact.
abbrev by_8 : ℤ → Option ℤ
by_8 (pos n) = if n % 8 == 0 then some (pos (n / 8)) else none
by_8 (negsuc n) = if (n + 1) % 8 == 0 then some (negsuc (n / 8)) else none

-- What an addition to `rsp`, or with `up` a subtraction, does to `LocalSp`. A source that is no
-- decimal number is an error of `Atoi`.
unfoldable pub stack_change : Bool → Operand → Option ℤ
stack_change up (imm z) = elim (by_8 z) [
  | none ↦ none
  | some n ↦ some (if up then n else pos 0 -ℤ n)
]
stack_change up _ = none

-- The change of `LocalSp` by an instruction, or none where `emit` panics.
unfoldable pub sp_change : Mnemonic → Operand → Operand → Option ℤ
unfolding stack_change
sp_change Lines.op_push dst src = some (pos 1)
sp_change Lines.op_pop dst src = some (negsuc 0)
sp_change Lines.op_add (reg rsp) src = stack_change false src
sp_change Lines.op_sub (reg rsp) src = stack_change true src
sp_change op dst src = some (pos 0)

abbrev pub emit_with : Mnemonic → Operand → Operand → Asm → Option ℤ → Outcome Asm
emit_with op dst src a none = panic
emit_with op dst src a (some d) =
    ok (write (instr op dst src ∷ []) (record a { local_sp = a.local_sp +ℤ d }))

-- `emit`, without the comment of the line.
unfoldable pub emit : Mnemonic → Operand → Operand → Asm → Outcome Asm
unfolding sp_change
emit op dst src a = emit_with op dst src a (sp_change op dst src)

-- Calls of `emit`, one behind the other, for lines that are instructions.
unfoldable pub emit_all : List Line → Asm → Outcome Asm
unfolding emit
emit_all [] a = ok a
emit_all (instr op dst src ∷ ls) a = emit op dst src a >>= emit_all ls
emit_all (l ∷ ls) a = emit_all ls (write (l ∷ []) a)

unfoldable pub emit_label : ℕ → Asm → Asm
unfolding write
emit_label n a = write (label n ∷ []) a

unfoldable pub emit_jump : ℕ → Asm → Outcome Asm
unfolding emit
emit_jump n a = emit Lines.op_jmp (label_ref n) blank a

unfoldable pub emit_push_ax : Asm → Outcome Asm
unfolding emit
emit_push_ax a = emit Lines.op_push (reg rax) blank a

unfoldable pub emit_pop_ax : Asm → Outcome Asm
unfolding emit
emit_pop_ax a = emit Lines.op_pop (reg rax) blank a

unfoldable pub emit_pop_bx : Asm → Outcome Asm
unfolding emit
emit_pop_bx a = emit Lines.op_pop (reg rbx) blank a

-- `EmitPushTos`
unfoldable pub emit_push_tos : Asm → Outcome Asm
unfolding emit ax_is_tos set_sp
emit_push_tos a =
    if ax_is_tos a then (emit Lines.op_push (reg rax) blank a >>= λ b. ok (set_sp b)) else ok a

unfoldable pub emit_flush_rax : Asm → Outcome Asm
unfolding emit ax_is_tos set_undef
emit_flush_rax a =
    if ax_is_tos a then (emit Lines.op_push (reg rax) blank a >>= λ b. ok (set_undef b)) else ok a

unfoldable pub emit_assert_tos_in_rax : Asm → Outcome Asm
unfolding emit sp_is_tos set_ax
emit_assert_tos_in_rax a =
    if sp_is_tos a then emit Lines.op_pop (reg rax) blank (set_ax a) else ok a

-- `EmitCall`, without the comment that it writes first.
unfoldable pub emit_call : Text → ℕ → Bool → Asm → Outcome Asm
unfolding emit ax_is_tos
emit_call id n builtin a =
    let name = if builtin then codes "_" ++ id else id in
    let pushed = emit Lines.op_push (reg rax) blank a in
    let start = if ltb 0 n then (if ax_is_tos a then pushed else ok a) else ok a in
    start
    >>= (λ b.
        if ltb 0 n
        then emit Lines.op_mov (reg rbx) (imm (pos (n * 8))) b
        else emit Lines.op_xor (reg rbx) (reg rbx) b)
    >>= emit Lines.op_call (symbol name) blank

-- `EmitAddToSp`
unfoldable pub emit_add_to_sp : ℤ → Asm → Outcome Asm
unfolding emit
emit_add_to_sp (pos zero) a = ok a
emit_add_to_sp (pos (suc n)) a = emit Lines.op_sub (reg rsp) (imm (pos ((n + 1) * 8))) a
emit_add_to_sp (negsuc n) a = emit Lines.op_add (reg rsp) (imm (pos ((n + 1) * 8))) a

abbrev pub is_size : ℕ → ℤ → Bool
is_size n (pos m) = m == n
is_size n (negsuc m) = false

unfoldable pub ax_name : ℤ → Outcome Register
ax_name size =
    if is_size 1 size
    then ok al
    else if is_size 2 size
    then ok ax
    else if is_size 4 size
    then ok eax
    else if is_size 8 size
    then ok rax
    else panic

-- `BpRel`; an offset from 0 to 15 is a panic.
unfoldable pub bp_relative : ℤ → Outcome Operand
bp_relative z = if ltb_ℤ z (pos 0) || ltb_ℤ (pos 15) z then ok (bp_rel z) else panic

unfoldable pub mov_opcode : ℤ → Mnemonic
mov_opcode size =
    if ltb_ℤ (pos 7) size
    then Lines.op_mov
    else if is_size 1 size
    then Lines.op_movzx
    else if ltb_ℤ size (pos 0)
    then Lines.op_movzx
    else Lines.op_movsx

-- `EmitLoad`
unfoldable pub emit_load : ℤ → ℤ → Asm → Outcome Asm
unfolding emit emit_flush_rax mov_opcode bp_relative set_ax
emit_load size adr a = do
  b ← emit_flush_rax a
  at ← bp_relative adr
  c ← emit (mov_opcode size) (reg rax) (sized_bp_rel size adr) b
  ok (set_ax c)

-- `EmitJumpFalse` and `EmitJumpTrue`
unfoldable pub emit_jump_false : Register → ℕ → Asm → Outcome Asm
unfolding emit set_undef
emit_jump_false r n a =
    emit Lines.op_or (reg r) (reg r) a >>= emit Lines.op_jz (label_ref n) blank >>= λ b.
    ok (set_undef b)

unfoldable pub emit_jump_true : Register → ℕ → Asm → Outcome Asm
unfolding emit set_undef
emit_jump_true r n a =
    emit Lines.op_or (reg r) (reg r) a >>= emit Lines.op_jnz (label_ref n) blank >>= λ b.
    ok (set_undef b)

-- `EmitAllocLocalVar`
unfoldable pub emit_alloc_local_var : Asm → Outcome Asm
unfolding emit
emit_alloc_local_var a =
    emit Lines.op_xor (reg rax) (reg rax) a >>= emit Lines.op_push (reg rax) blank

-- `EmitPushStringLit`
unfoldable pub emit_push_string_lit : ℕ → Asm → Outcome Asm
unfolding emit emit_flush_rax set_ax
emit_push_string_lit n a =
    emit_flush_rax a >>= λ b. emit Lines.op_mov (reg rax) (literal (codes "str") n) (set_ax b)

abbrev load_const : ℤ → Asm → Outcome Asm
load_const (pos zero) b = emit Lines.op_xor (reg rax) (reg rax) b
load_const z b = emit Lines.op_mov (reg rax) (imm z) b

-- `EmitPushConst`
unfoldable pub emit_push_const : ℤ → Asm → Outcome Asm
unfolding emit emit_flush_rax set_ax
emit_push_const z a = emit_flush_rax a >>= λ b. load_const z (set_ax b)
