-- ===== src/Emit/Objects.antt =====
-- emit_nasm.go: new strings, structs and slices, fields, and slices that grow.
use jkvlang.Prelude.{ℕ, Bool, [], ◌∷◌, codes, ◌==◌, if◌then◌else◌}
use jkvlang.Prelude.Outcomes.{Outcome, ok, ◌>>=◌}
use jkvlang.Prelude.Int.{ℤ, pos}
use jkvlang.Code.Lines
use jkvlang.Code.Lines.{
  Mnemonic, Register, Operand, Line, instr, label, blank, reg, imm, xmm, bp_rel, sized_bp_rel, at,
  label_ref, literal, literal_at, dword_literal_at, symbol, rax, rbx, rcx, rdx, rsp, rbp, rsi, rdi,
  r12, r13, r14, r15, eax, ebx, ecx, ax, al, cl, r12d, r14d,
}
use jkvlang.Code.Asm.{Asm, set_ax, set_undef, new_label}
use jkvlang.Emit.Instr.{
  emit_all, emit_push_ax, emit_flush_rax, emit_assert_tos_in_rax, ax_name, bp_relative,
}
use jkvlang.Emit.Concat.{extend_string_capacity}

-- `EmitSetStringLen`
unfoldable pub emit_set_string_len : Asm → Outcome Asm
unfolding emit_all emit_assert_tos_in_rax extend_string_capacity
emit_set_string_len a = do
  b ← emit_assert_tos_in_rax a
  c ←
      emit_all
        (instr Lines.op_mov (reg rbx) (reg rax)
          ∷ instr Lines.op_mov (reg r14) (reg rax)
          ∷ instr Lines.op_mov (reg rsi) (at (pos 0) rsp (pos 0))
          ∷ instr Lines.op_mov (reg rax) (at (pos 0) rsi (pos 0))
          ∷ instr Lines.op_shr (reg rax) (imm (pos 32))
          ∷ instr Lines.op_shl (reg rax) (imm (pos 32))
          ∷ instr Lines.op_mov (at (pos 0) rsi (pos 0)) (reg rax)
          ∷ [])
        b
  d ← extend_string_capacity 8 c
  emit_all
      (instr Lines.op_mov (reg rax) (at (pos 0) rsi (pos 0))
        ∷ instr Lines.op_add (reg rax) (reg r14)
        ∷ instr Lines.op_mov (at (pos 0) rsi (pos 0)) (reg rax)
        ∷ [])
      d

unfoldable pub emit_new_string : Asm → Outcome Asm
unfolding emit_all emit_assert_tos_in_rax set_ax
emit_new_string a = do
  b ← emit_assert_tos_in_rax a
  c ←
      emit_all
        (instr Lines.op_mov (reg r12) (reg rax)
          ∷ instr Lines.op_add (reg rax) (imm (pos 8))
          ∷ instr Lines.op_call (symbol (codes "_alloc")) blank
          ∷ instr Lines.op_mov (reg rsi) (reg rax)
          ∷ instr Lines.op_mov (reg rdi) (reg rax)
          ∷ instr Lines.op_xor (reg rax) (reg rax)
          ∷ instr Lines.op_mov (reg rcx) (reg r12)
          ∷ instr Lines.op_add (reg rcx) (imm (pos 8))
          ∷ instr Lines.op_cld blank blank
          ∷ instr Lines.op_rep (symbol (codes "stosb")) blank
          ∷ instr Lines.op_shl (reg r12) (imm (pos 32))
          ∷ instr Lines.op_mov (at (pos 0) rsi (pos 0)) (reg r12)
          ∷ [])
        b
  emit_all (instr Lines.op_mov (reg rax) (reg rsi) ∷ []) (set_ax c)

-- `EmitNewStruct`, of a type with the given size.
unfoldable pub emit_new_struct : ℕ → Asm → Outcome Asm
unfolding emit_all emit_flush_rax set_ax
emit_new_struct size a = emit_flush_rax a >>= λ b.
    emit_all
      (instr Lines.op_mov (reg rax) (imm (pos size))
        ∷ instr Lines.op_call (symbol (codes "_alloc")) blank
        ∷ instr Lines.op_mov (reg rdx) (reg rax)
        ∷ instr Lines.op_mov (reg rdi) (reg rax)
        ∷ instr Lines.op_push (reg rax) blank
        ∷ instr Lines.op_mov (reg rcx) (imm (pos size))
        ∷ instr Lines.op_cld blank blank
        ∷ instr Lines.op_xor (reg rax) (reg rax)
        ∷ instr Lines.op_rep (symbol (codes "stosb")) blank
        ∷ instr Lines.op_mov (reg rax) (reg rdx)
        ∷ [])
      (set_ax b)

unfoldable pub emit_new_slice : ℕ → Asm → Outcome Asm
unfolding emit_all emit_assert_tos_in_rax set_ax
emit_new_slice element_size a = do
  b ← emit_assert_tos_in_rax a
  c ←
      emit_all
        (instr Lines.op_mov (reg r12) (reg rax)
          ∷ instr Lines.op_imul (reg rax) (imm (pos element_size))
          ∷ instr Lines.op_add (reg rax) (imm (pos 8))
          ∷ instr Lines.op_mov (reg r14) (reg rax)
          ∷ instr Lines.op_call (symbol (codes "_alloc")) blank
          ∷ instr Lines.op_mov (reg r13) (reg rax)
          ∷ instr Lines.op_mov (reg rdi) (reg rax)
          ∷ instr Lines.op_xor (reg rax) (reg rax)
          ∷ instr Lines.op_mov (reg rcx) (reg r14)
          ∷ instr Lines.op_cld blank blank
          ∷ instr Lines.op_rep (symbol (codes "stosb")) blank
          ∷ instr Lines.op_shl (reg r12) (imm (pos 32))
          ∷ instr Lines.op_mov (at (pos 0) r13 (pos 0)) (reg r12)
          ∷ [])
        b
  emit_all (instr Lines.op_mov (reg rax) (reg r13) ∷ []) (set_ax c)

unfoldable pub emit_copy_string_to_ram : Asm → Outcome Asm
unfolding emit_all new_label
emit_copy_string_to_ram a =
    let (lbl, b) = new_label a in
    emit_all
      (instr Lines.op_mov (reg rdx) (reg rax)
        ∷ instr Lines.op_mov (reg rdx) (at (pos 0) rdx (pos 0))
        ∷ instr Lines.op_shr (reg rdx) (imm (pos 32))
        ∷ instr Lines.op_or (reg rdx) (reg rdx)
        ∷ instr Lines.op_jnz (label_ref lbl) blank
        ∷ instr Lines.op_mov (reg r13) (reg rax)
        ∷ instr Lines.op_mov (reg rax) (at (pos 0) r13 (pos 0))
        ∷ instr Lines.op_add (reg rax) (imm (pos 32))
        ∷ instr Lines.op_mov (reg r12) (reg rax)
        ∷ instr Lines.op_sub (reg r12) (imm (pos 8))
        ∷ instr Lines.op_shl (reg r12) (imm (pos 32))
        ∷ instr Lines.op_call (symbol (codes "_alloc")) blank
        ∷ instr Lines.op_mov (reg rdi) (reg rax)
        ∷ instr Lines.op_add (reg rdi) (imm (pos 8))
        ∷ instr Lines.op_mov (reg r14) (reg rax)
        ∷ instr Lines.op_add (reg r12) (at (pos 0) r13 (pos 0))
        ∷ instr Lines.op_mov (reg rsi) (reg r13)
        ∷ instr Lines.op_mov (reg rcx) (at (pos 0) rsi (pos 0))
        ∷ instr Lines.op_add (reg rsi) (imm (pos 8))
        ∷ instr Lines.op_cld blank blank
        ∷ instr Lines.op_rep (symbol (codes "movsb")) blank
        ∷ instr Lines.op_mov (at (pos 0) r14 (pos 0)) (reg r12)
        ∷ instr Lines.op_mov (reg rax) (reg r14)
        ∷ label lbl
        ∷ [])
      b

unfoldable pub emit_load_field : ℤ → Bool → ℕ → Asm → Outcome Asm
unfolding emit_all emit_flush_rax bp_relative set_ax
emit_load_field adr indirect offset a = do
  let loaded =
      (emit_flush_rax a >>= λ b.
      bp_relative adr >>= λ v. emit_all (instr Lines.op_mov (reg rax) v ∷ []) b)
  c ← if indirect then ok a else loaded
  let added = emit_all (instr Lines.op_add (reg rax) (imm (pos offset)) ∷ []) c
  d ← if offset == 0 then ok c else added
  ok (set_ax d)

unfoldable pub emit_load_with_offset : ℕ → Asm → Outcome Asm
unfolding emit_all emit_push_ax set_ax
emit_load_with_offset offset a = do
  b ← emit_push_ax a
  c ← emit_all (instr Lines.op_mov (reg rax) (at (pos 0) rax (pos offset)) ∷ []) b
  ok (set_ax c)

unfoldable pub emit_start_append : ℕ → Asm → Outcome Asm
unfolding emit_all set_undef
emit_start_append size a =
    emit_all
      (instr Lines.op_mov (reg rsi) (at (pos 0) rax (pos 0))
        ∷ instr Lines.op_mov (reg r12) (reg rsi)
        ∷ instr Lines.op_mov (reg eax) (at (pos 0) rsi (pos 0))
        ∷ instr Lines.op_imul (reg rax) (imm (pos size))
        ∷ instr Lines.op_add (reg rsi) (reg rax)
        ∷ instr Lines.op_add (reg rsi) (imm (pos 8))
        ∷ instr Lines.op_mov (reg r13) (reg rsi)
        ∷ [])
      a
    >>= λ b. ok (set_undef b)

unfoldable pub emit_do_append : ℤ → Asm → Outcome Asm
unfolding emit_all ax_name set_undef
emit_do_append size a = do
  r ← ax_name size
  b ←
      emit_all
        (instr Lines.op_mov (at size r13 (pos 0)) (reg r)
          ∷ instr Lines.op_add (reg r13) (imm size)
          ∷ [])
        a
  ok (set_undef b)

unfoldable pub emit_update_append_length : ℤ → Asm → Outcome Asm
unfolding emit_all
emit_update_append_length n a =
    emit_all
      (instr Lines.op_mov (reg rdi) (reg r12)
        ∷ instr Lines.op_mov (reg rax) (at (pos 0) rdi (pos 0))
        ∷ instr Lines.op_add (reg rax) (imm n)
        ∷ instr Lines.op_mov (at (pos 0) rdi (pos 0)) (reg rax)
        ∷ [])
      a
