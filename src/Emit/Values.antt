-- ===== src/Emit/Values.antt =====
-- emit_nasm.go: values that are loaded and changed in rax, and the error in r15.
use jkvlang.Prelude.{ℕ, ◌+◌, ◌*◌, [], ◌∷◌, ◌++◌, Text, codes, text_eq, ◌==◌, if◌then◌else◌}
use jkvlang.Prelude.Outcomes.{Outcome, ok, panic, ◌>>=◌}
use jkvlang.Prelude.Int.{ℤ, pos, negsuc}
use jkvlang.Code.Lines
use jkvlang.Code.Lines.{
  Mnemonic, Register, Operand, Line, instr, label, blank, reg, imm, xmm, bp_rel, sized_bp_rel, at,
  label_ref, literal, literal_at, dword_literal_at, symbol, rax, rbx, rcx, rdx, rsp, rbp, rsi, rdi,
  r12, r13, r14, r15, eax, ebx, ecx, ax, al, cl, r12d, r14d,
}
use jkvlang.Code.Asm.{Asm, set_ax, ax_is_tos, new_label}
use jkvlang.Emit.Instr.{
  emit, emit_all, emit_flush_rax, emit_assert_tos_in_rax, bp_relative, mov_opcode,
}

unfoldable pub emit_push_const_string : ℕ → Asm → Outcome Asm
unfolding emit_all emit_flush_rax set_ax
emit_push_const_string lit a = emit_flush_rax a >>= λ b.
    emit_all (instr Lines.op_mov (reg rax) (literal (codes "str") lit) ∷ []) (set_ax b)

unfoldable pub emit_load_err : Asm → Outcome Asm
unfolding emit_all emit_flush_rax set_ax
emit_load_err a =
    emit_flush_rax a >>= λ b. emit_all (instr Lines.op_mov (reg rax) (reg r15) ∷ []) (set_ax b)

-- The bytes of that many words.
abbrev words : ℤ → ℤ
words (pos n) = pos (n * 8)
words (negsuc n) = negsuc (n * 8 + 7)

unfoldable pub emit_store_bp_ofs : ℤ → Asm → Outcome Asm
unfolding emit bp_relative
emit_store_bp_ofs ofs a = bp_relative (words ofs) >>= λ v. emit Lines.op_mov v (reg rax) a

unfoldable pub emit_store_err : ℤ → Asm → Outcome Asm
unfolding emit_all
emit_store_err err a = emit_all (instr Lines.op_mov (reg r15) (imm err) ∷ []) a

unfoldable pub emit_get_addr_of_local : ℤ → Asm → Outcome Asm
unfolding emit_all bp_relative
emit_get_addr_of_local adr a = bp_relative adr >>= λ v.
    emit_all (instr Lines.op_lea (reg rax) v ∷ instr Lines.op_push (reg rax) blank ∷ []) a

unfoldable pub emit_lea : ℤ → Asm → Outcome Asm
unfolding emit_all bp_relative
emit_lea adr a = bp_relative adr >>= λ v.
    emit_all (instr Lines.op_lea (reg rsi) v ∷ instr Lines.op_push (reg rsi) blank ∷ []) a

unfoldable pub emit_not : Asm → Outcome Asm
unfolding emit_all emit_assert_tos_in_rax
emit_not a = emit_assert_tos_in_rax a >>= emit_all (instr Lines.op_xor (reg rax) (imm (pos 1)) ∷ [])

unfoldable pub emit_jump_on_error : ℕ → Asm → Outcome Asm
unfolding emit_all
emit_jump_on_error lbl a =
    emit_all (instr Lines.op_or (reg r15) (reg r15) ∷ instr Lines.op_jz (label_ref lbl) blank ∷ [])
      a

unfoldable pub emit_clear_break_err : Asm → Outcome Asm
unfolding emit_all
emit_clear_break_err a =
    emit_all
      (instr Lines.op_mov (reg rax) (reg r15)
        ∷ instr Lines.op_dec (reg rax) blank
        ∷ instr Lines.op_or (reg rax) (reg rax)
        ∷ instr Lines.op_cmovz (reg r15) (reg rax)
        ∷ [])
      a

unfoldable pub emit_negate_f64 : Asm → Outcome Asm
unfolding emit_all
emit_negate_f64 a =
    emit_all
      (instr Lines.op_mov (reg rcx) (symbol (codes "[f64sign_mask]"))
        ∷ instr Lines.op_xor (reg rax) (reg rcx)
        ∷ [])
      a

unfoldable pub emit_negate_f32 : Asm → Outcome Asm
unfolding emit_all
emit_negate_f32 a =
    emit_all
      (instr Lines.op_mov (reg rcx) (symbol (codes "[f32sign_mask]"))
        ∷ instr Lines.op_xor (reg rax) (reg rcx)
        ∷ [])
      a

unfoldable pub emit_negate : Asm → Outcome Asm
unfolding emit_all emit_assert_tos_in_rax
emit_negate a = emit_assert_tos_in_rax a >>= emit_all (instr Lines.op_neg (reg rax) blank ∷ [])

unfoldable pub emit_load_global_const : Text → Asm → Outcome Asm
unfolding emit emit_flush_rax set_ax
emit_load_global_const name a =
    emit_flush_rax a >>= emit Lines.op_mov (reg rax) (symbol name) >>= λ b. ok (set_ax b)

unfoldable pub emit_convert_f32_to_f64 : Asm → Outcome Asm
unfolding emit_all ax_is_tos
emit_convert_f32_to_f64 a =
    let from = if ax_is_tos a then reg eax else at (pos 4) rsp (pos 0) in
    emit_all
      (instr Lines.op_cvtss2sd (xmm 0) from
        ∷ instr Lines.op_movq (reg rax) (xmm 0)
        ∷ instr Lines.op_mov (at (pos 0) rsp (pos 0)) (reg rax)
        ∷ [])
      a

unfoldable pub emit_load_tos_indirect : ℤ → Asm → Outcome Asm
unfolding emit mov_opcode set_ax
emit_load_tos_indirect size a = emit (mov_opcode size) (reg rax) (at size rax (pos 0)) (set_ax a)

unfoldable pub emit_skip_len_cap_for_print : Asm → Outcome Asm
unfolding emit_all new_label
emit_skip_len_cap_for_print a = do
  b ←
      emit_all
        (instr Lines.op_mov (reg rax) (at (pos 0) rsp (pos 0))
          ∷ instr Lines.op_or (reg rax) (reg rax)
          ∷ [])
        a
  let (lbl, c) = new_label b
  emit_all
      (instr Lines.op_jnz (label_ref lbl) blank
        ∷ instr Lines.op_mov (at (pos 8) rsp (pos 0)) (literal (codes "str") 0)
        ∷ label lbl
        ∷ instr Lines.op_add (at (pos 4) rsp (pos 0)) (imm (pos 8))
        ∷ [])
      c

unfoldable pub emit_load_bool : Text → Asm → Outcome Asm
unfolding emit set_ax
emit_load_bool value a =
    let zeroed = emit Lines.op_xor (reg rax) (reg rax) a in
    let one = emit Lines.op_mov (reg rax) (imm (pos 1)) a in
    (if text_eq value (codes "0") then zeroed else one) >>= λ b. ok (set_ax b)

-- `[id]`
abbrev pub bracket : Text → Text
bracket id = codes "[" ++ id ++ codes "]"

-- `EmitLoadGlobalVar`, of a type with the given size.
unfoldable pub emit_load_global_var : Text → ℕ → Asm → Outcome Asm
unfolding emit set_ax
emit_load_global_var name size a =
    let wide = emit Lines.op_mov (reg rax) (symbol (bracket name)) a in
    let narrow = emit Lines.op_mov (reg eax) (symbol (codes "dword " ++ bracket name)) a in
    (if size == 8 then wide else if size == 4 then narrow else panic) >>= λ b. ok (set_ax b)

unfoldable pub emit_return_if_err2 : ℕ → Asm → Outcome Asm
unfolding emit_all new_label
emit_return_if_err2 exit_lbl a =
    let (lbl, b) = new_label a in
    emit_all
      (instr Lines.op_mov (reg rax) (reg r15)
        ∷ instr Lines.op_sub (reg rax) (imm (pos 2))
        ∷ instr Lines.op_jnz (label_ref lbl) blank
        ∷ instr Lines.op_xor (reg r15) (reg r15)
        ∷ instr Lines.op_jmp (label_ref exit_lbl) blank
        ∷ label lbl
        ∷ [])
      b

-- `EmitEpilogue`
unfoldable pub emit_epilogue : Text → Asm → Outcome Asm
unfolding emit_all new_label
emit_epilogue name a =
    let (ok_label, b) = new_label a in
    let (error_label, c) = new_label b in
    let main =
      emit_all
        (instr Lines.op_call (symbol (codes "_get_ticks")) blank
          ∷ instr Lines.op_mov (reg rbx) (imm (pos 10000))
          ∷ instr Lines.op_xor (reg rdx) (reg rdx)
          ∷ instr Lines.op_div (reg rbx) blank
          ∷ instr Lines.op_push (reg rdx) blank
          ∷ instr Lines.op_push (reg rax) blank
          ∷ instr Lines.op_mov (reg rax) (symbol (codes "time_used_str+8"))
          ∷ instr Lines.op_push (reg rax) blank
          ∷ instr Lines.op_mov (reg rbx) (imm (pos 32))
          ∷ instr Lines.op_call (symbol (codes "_printf")) blank
          ∷ instr Lines.op_call (symbol (codes "_fflush")) blank
          ∷ instr Lines.op_add (reg rsp) (imm (pos 24))
          ∷ instr Lines.op_or (reg r15) (reg r15)
          ∷ instr Lines.op_jnz (label_ref error_label) blank
          ∷ instr Lines.op_mov (reg rax) (symbol (codes "[allocation_count]"))
          ∷ instr Lines.op_or (reg rax) (reg rax)
          ∷ instr Lines.op_jz (label_ref ok_label) blank
          ∷ label error_label
          ∷ instr Lines.op_push (reg r15) blank
          ∷ instr Lines.op_mov (reg rax) (symbol (codes "[allocation_count]"))
          ∷ instr Lines.op_push (reg rax) blank
          ∷ instr Lines.op_mov (reg rax) (symbol (codes "alloc_size_str+8"))
          ∷ instr Lines.op_push (reg rax) blank
          ∷ instr Lines.op_mov (reg rbx) (imm (pos 24))
          ∷ instr Lines.op_call (symbol (codes "_printf")) blank
          ∷ instr Lines.op_call (symbol (codes "_fflush")) blank
          ∷ instr Lines.op_add (reg rsp) (imm (pos 24))
          ∷ label ok_label
          ∷ instr Lines.op_mov (reg rax) (symbol (codes "[allocation_count]"))
          ∷ instr Lines.op_or (reg rax) (reg rax)
          ∷ instr Lines.op_jz (symbol (codes ".L9999")) blank
          ∷ instr Lines.op_mov (reg r15) (imm (pos 97))
          ∷ label 9999
          ∷ instr Lines.op_mov (reg rax) (reg r15)
          ∷ instr Lines.op_call (symbol (codes "_exit")) blank
          ∷ [])
        c in
    if text_eq name (codes "main")
    then main
    else emit_all (instr Lines.op_leave blank blank ∷ instr Lines.op_ret blank blank ∷ []) a
