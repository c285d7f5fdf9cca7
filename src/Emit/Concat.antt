-- ===== src/Emit/Concat.antt =====
-- emit_nasm.go: strings that are made longer.
use jkvlang.Prelude.{ℕ, ◌+◌, Bool, true, false, List, [], ◌∷◌, codes}
use jkvlang.Prelude.Outcomes.{Outcome, ok, ◌>>=◌}
use jkvlang.Prelude.Int.{pos}
use jkvlang.Code.Lines
use jkvlang.Code.Lines.{
  Mnemonic, Register, Operand, Line, instr, label, blank, reg, imm, xmm, bp_rel, sized_bp_rel, at,
  label_ref, literal, literal_at, dword_literal_at, symbol, rax, rbx, rcx, rdx, rsp, rbp, rsi, rdi,
  r12, r13, r14, r15, eax, ebx, ecx, ax, al, cl, r12d, r14d,
}
use jkvlang.Code.Asm.{Asm, new_label}
use jkvlang.Emit.Instr.{emit_all, emit_pop_ax, emit_assert_tos_in_rax}

-- The part of `EmitConcat` that frees the string in a register.
abbrev pub free_part_code : Register → ℕ → List Line
free_part_code r lbl =
    instr Lines.op_mov (reg rax) (at (pos 0) r (pos 0))
    ∷ instr Lines.op_shr (reg rax) (imm (pos 32))
    ∷ instr Lines.op_or (reg rax) (reg rax)
    ∷ instr Lines.op_jz (label_ref lbl) blank
    ∷ instr Lines.op_mov (reg rax) (reg r)
    ∷ instr Lines.op_call (symbol (codes "_free_string")) blank
    ∷ label lbl
    ∷ []

unfoldable pub free_part : Bool → Register → Asm → Outcome Asm
unfolding emit_all new_label
free_part false r a = ok a
free_part true r a = let (lbl, b) = new_label a in emit_all (free_part_code r lbl) b

abbrev pub concat_code : List Line
concat_code =
    instr Lines.op_mov (reg rdx) (at (pos 0) rsp (pos 0))
    ∷ instr Lines.op_mov (reg rbx) (reg rdx)
    ∷ instr Lines.op_mov (reg r14d) (at (pos 4) rdx (pos 0))
    ∷ instr Lines.op_mov (reg r12d) (at (pos 4) rax (pos 0))
    ∷ instr Lines.op_mov (reg r13) (reg rax)
    ∷ instr Lines.op_mov (reg rax) (reg r12)
    ∷ instr Lines.op_add (reg rax) (reg r14)
    ∷ instr Lines.op_add (reg rax) (imm (pos 40))
    ∷ instr Lines.op_call (symbol (codes "_alloc")) blank
    ∷ instr Lines.op_mov (reg rdi) (reg rax)
    ∷ instr Lines.op_push (reg rax) blank
    ∷ instr Lines.op_mov (reg rsi) (reg r12)
    ∷ instr Lines.op_add (reg rsi) (reg r14)
    ∷ instr Lines.op_mov (reg rax) (reg rsi)
    ∷ instr Lines.op_add (reg rsi) (imm (pos 32))
    ∷ instr Lines.op_shl (reg rsi) (imm (pos 32))
    ∷ instr Lines.op_or (reg rax) (reg rsi)
    ∷ instr Lines.op_mov (at (pos 0) rdi (pos 0)) (reg rax)
    ∷ instr Lines.op_add (reg rdi) (imm (pos 8))
    ∷ instr Lines.op_mov (reg rsi) (reg rbx)
    ∷ instr Lines.op_add (reg rsi) (imm (pos 8))
    ∷ instr Lines.op_mov (reg rcx) (reg r14)
    ∷ instr Lines.op_cld blank blank
    ∷ instr Lines.op_rep (symbol (codes "movsb")) blank
    ∷ instr Lines.op_mov (reg rsi) (reg r13)
    ∷ instr Lines.op_add (reg rsi) (imm (pos 8))
    ∷ instr Lines.op_mov (reg rcx) (reg r12)
    ∷ instr Lines.op_rep (symbol (codes "movsb")) blank
    ∷ []

abbrev pub drop_code : List Line
drop_code = instr Lines.op_add (reg rsp) (imm (pos 8)) ∷ []

unfoldable pub emit_concat : Bool → Bool → Asm → Outcome Asm
unfolding emit_all emit_assert_tos_in_rax emit_pop_ax free_part
emit_concat free1 free2 a = do
  b ← emit_assert_tos_in_rax a
  c ← emit_all concat_code b
  d ← free_part free1 rbx c
  e ← free_part free2 r13 d
  f ← emit_pop_ax e
  emit_all drop_code f

unfoldable pub extend_string_capacity : ℕ → Asm → Outcome Asm
unfolding emit_all new_label
extend_string_capacity extra a =
    let (lbl1, b) = new_label a in
    let (lbl2, c) = new_label b in
    let (lbl3, d) = new_label c in
    emit_all
      (instr Lines.op_mov (reg rdx) (reg rsi)
        ∷ instr Lines.op_mov (reg rax) (reg rbx)
        ∷ instr Lines.op_or (reg rsi) (reg rsi)
        ∷ instr Lines.op_jz (label_ref lbl2) blank
        ∷ instr Lines.op_mov (reg rax) (at (pos 0) rsi (pos 0))
        ∷ instr Lines.op_mov (reg rcx) (reg rax)
        ∷ instr Lines.op_shr (reg rcx) (imm (pos 32))
        ∷ instr Lines.op_mov (reg eax) (reg eax)
        ∷ instr Lines.op_mov (reg rdi) (reg rsi)
        ∷ instr Lines.op_add (reg rdi) (reg rax)
        ∷ instr Lines.op_add (reg rdi) (imm (pos 8))
        ∷ instr Lines.op_add (reg rax) (reg rbx)
        ∷ instr Lines.op_cmp (reg rax) (reg rcx)
        ∷ instr Lines.op_jb (label_ref lbl1) blank
        ∷ label lbl2
        ∷ instr Lines.op_add (reg rax) (imm (pos (extra + 4)))
        ∷ instr Lines.op_mov (reg r12) (reg rax)
        ∷ instr Lines.op_shl (reg r12) (imm (pos 32))
        ∷ instr Lines.op_add (reg rax) (imm (pos 8))
        ∷ instr Lines.op_call (symbol (codes "_alloc")) blank
        ∷ instr Lines.op_mov (reg rdi) (reg rax)
        ∷ instr Lines.op_mov (reg rdx) (reg rax)
        ∷ instr Lines.op_xor (reg rcx) (reg rcx)
        ∷ instr Lines.op_add (reg rdi) (imm (pos 8))
        ∷ instr Lines.op_or (reg rsi) (reg rsi)
        ∷ instr Lines.op_jz (label_ref lbl3) blank
        ∷ instr Lines.op_mov (reg rcx) (at (pos 0) rsi (pos 0))
        ∷ label lbl3
        ∷ instr Lines.op_mov (reg ecx) (reg ecx)
        ∷ instr Lines.op_add (reg r12) (reg rcx)
        ∷ instr Lines.op_mov (reg rbx) (reg rsi)
        ∷ instr Lines.op_add (reg rsi) (imm (pos 8))
        ∷ instr Lines.op_cld blank blank
        ∷ instr Lines.op_rep (symbol (codes "movsb")) blank
        ∷ instr Lines.op_mov (at (pos 0) rdx (pos 0)) (reg r12)
        ∷ instr Lines.op_mov (reg rsi) (reg rdx)
        ∷ instr Lines.op_mov (reg rax) (reg rbx)
        ∷ instr Lines.op_push (reg rdx) blank
        ∷ instr Lines.op_call (symbol (codes "_free_string")) blank
        ∷ instr Lines.op_pop (reg rdx) blank
        ∷ label lbl1
        ∷ [])
      d
