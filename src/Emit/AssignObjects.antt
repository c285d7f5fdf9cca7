-- ===== src/Emit/AssignObjects.antt =====
-- emit_nasm.go: assignments of strings, slices and structs.
use jkvlang.Prelude.{ℕ, false, [], ◌∷◌, codes}
use jkvlang.Prelude.Outcomes.{Outcome, ok, ◌>>=◌}
use jkvlang.Prelude.Int.{ℤ, pos}
use jkvlang.Code.Lines
use jkvlang.Code.Lines.{
  Mnemonic, Register, Operand, Line, instr, label, blank, reg, imm, xmm, bp_rel, sized_bp_rel, at,
  label_ref, literal, literal_at, dword_literal_at, symbol, rax, rbx, rcx, rdx, rsp, rbp, rsi, rdi,
  r12, r13, r14, r15, eax, ebx, ecx, ax, al, cl, r12d, r14d,
}
use jkvlang.Code.Asm.{Asm, set_ax, set_undef, new_label}
use jkvlang.Emit.Instr.{emit_all, emit_assert_tos_in_rax, bp_relative}
use jkvlang.Emit.Ops.{Failable}

unfoldable pub emit_assign_indirect_const_str_str : ℕ → Asm → Failable
unfolding emit_all new_label
emit_assign_indirect_const_str_str lit a = do
  b ← emit_all (instr Lines.op_pop (reg rax) blank ∷ []) a
  let (lbl, c) = new_label b
  d ←
      emit_all
        (instr Lines.op_mov (reg rbx) (at (pos 0) rax (pos 0))
          ∷ instr Lines.op_mov (reg r14) (reg rax)
          ∷ instr Lines.op_or (reg rbx) (reg rbx)
          ∷ instr Lines.op_jz (label_ref lbl) blank
          ∷ instr Lines.op_mov (reg rbx) (at (pos 0) rbx (pos 0))
          ∷ instr Lines.op_shr (reg rbx) (imm (pos 32))
          ∷ instr Lines.op_or (reg rbx) (reg rbx)
          ∷ instr Lines.op_jz (label_ref lbl) blank
          ∷ instr Lines.op_mov (reg rax) (at (pos 0) rax (pos 0))
          ∷ instr Lines.op_call (symbol (codes "_free_string")) blank
          ∷ label lbl
          ∷ instr Lines.op_mov (reg rbx) (literal (codes "str") lit)
          ∷ instr Lines.op_mov (at (pos 0) r14 (pos 0)) (reg rbx)
          ∷ [])
        c
  ok (false, d)

unfoldable pub emit_assign_variable_const_str_str : ℤ → ℕ → Asm → Failable
unfolding emit_all bp_relative set_ax
emit_assign_variable_const_str_str adr lit a = do
  v ← bp_relative adr
  b ←
      emit_all
        (instr Lines.op_mov (reg rax) v
          ∷ instr Lines.op_call (symbol (codes "_free_string")) blank
          ∷ instr Lines.op_mov (reg rax) (literal (codes "str") lit)
          ∷ instr Lines.op_mov v (reg rax)
          ∷ [])
        (set_ax a)
  ok (false, b)

unfoldable pub emit_assign_indirect_expression_str_str : Asm → Failable
unfolding emit_all new_label
emit_assign_indirect_expression_str_str a = do
  b ← emit_all (instr Lines.op_mov (reg r12) (reg rax) ∷ []) a
  let (lbl, c) = new_label b
  d ←
      emit_all
        (instr Lines.op_mov (reg rbx) (at (pos 0) rdi (pos 0))
          ∷ instr Lines.op_or (reg rbx) (reg rbx)
          ∷ instr Lines.op_jz (label_ref lbl) blank
          ∷ instr Lines.op_mov (reg rcx) (at (pos 0) rbx (pos 0))
          ∷ instr Lines.op_shr (reg rcx) (imm (pos 32))
          ∷ instr Lines.op_or (reg rcx) (reg rcx)
          ∷ instr Lines.op_jz (label_ref lbl) blank
          ∷ instr Lines.op_mov (reg rax) (at (pos 0) rdi (pos 0))
          ∷ instr Lines.op_call (symbol (codes "_free_string")) blank
          ∷ label lbl
          ∷ instr Lines.op_mov (at (pos 8) rdi (pos 0)) (reg r12)
          ∷ [])
        c
  ok (false, d)

unfoldable pub emit_assign_variable_expression_str_str : ℤ → Asm → Failable
unfolding emit_all new_label emit_assert_tos_in_rax bp_relative
emit_assign_variable_expression_str_str adr a = do
  let (lbl, b) = new_label a
  c ← emit_assert_tos_in_rax b
  v ← bp_relative adr
  d ←
      emit_all
        (instr Lines.op_mov (reg rbx) v
          ∷ instr Lines.op_mov (reg rdi) (reg rbx)
          ∷ instr Lines.op_or (reg rbx) (reg rbx)
          ∷ instr Lines.op_jz (label_ref lbl) blank
          ∷ instr Lines.op_mov (reg rbx) (at (pos 0) rbx (pos 0))
          ∷ instr Lines.op_shr (reg rbx) (imm (pos 32))
          ∷ instr Lines.op_or (reg rbx) (reg rbx)
          ∷ instr Lines.op_jz (label_ref lbl) blank
          ∷ instr Lines.op_push (reg rax) blank
          ∷ instr Lines.op_mov (reg rax) (reg rdi)
          ∷ instr Lines.op_call (symbol (codes "_free_string")) blank
          ∷ instr Lines.op_pop (reg rax) blank
          ∷ label lbl
          ∷ instr Lines.op_mov v (reg rax)
          ∷ [])
        c
  ok (false, d)

unfoldable pub emit_assign_variable_expression_slice : ℤ → Asm → Failable
unfolding emit_all emit_assert_tos_in_rax bp_relative
emit_assign_variable_expression_slice adr a = do
  b ← emit_assert_tos_in_rax a
  v ← bp_relative adr
  c ← emit_all (instr Lines.op_mov v (reg rax) ∷ []) b
  ok (false, c)

-- `EmitCheckForOldStruct`, which returns the label.
unfoldable pub emit_check_for_old_struct : ℤ → Asm → Outcome (ℕ × Asm)
unfolding emit_all bp_relative new_label
emit_check_for_old_struct adr a = do
  v ← bp_relative adr
  b ← emit_all (instr Lines.op_mov (reg rax) v ∷ instr Lines.op_or (reg rax) (reg rax) ∷ []) a
  let (lbl, c) = new_label b
  d ← emit_all (instr Lines.op_jz (label_ref lbl) blank ∷ []) c
  ok (lbl, d)

unfoldable pub emit_assign_variable_expression_struct : ℤ → Asm → Failable
unfolding emit_all bp_relative set_undef
emit_assign_variable_expression_struct adr a = do
  v ← bp_relative adr
  b ← emit_all (instr Lines.op_pop (reg rax) blank ∷ instr Lines.op_mov v (reg rax) ∷ []) a
  ok (false, set_undef b)

unfoldable pub emit_assign_indirect_expression_slice : Asm → Failable
unfolding emit_all emit_assert_tos_in_rax
emit_assign_indirect_expression_slice a = do
  b ← emit_assert_tos_in_rax a
  c ← emit_all (instr Lines.op_mov (at (pos 8) rdi (pos 0)) (reg rax) ∷ []) b
  ok (false, c)

unfoldable pub emit_assign_indirect_expression_struct : Asm → Failable
unfolding emit_all emit_assert_tos_in_rax
emit_assign_indirect_expression_struct a = do
  b ← emit_assert_tos_in_rax a
  c ← emit_all (instr Lines.op_mov (at (pos 8) rdi (pos 0)) (reg rax) ∷ []) b
  ok (false, c)
