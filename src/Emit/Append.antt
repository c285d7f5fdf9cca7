-- ===== src/Emit/Append.antt =====
-- emit_nasm.go: strings and characters appended to a string, in a variable or behind a pointer.
use jkvlang.Prelude.{ℕ, Bool, true, false, [], ◌∷◌, codes, if◌then◌else◌}
use jkvlang.Prelude.Outcomes.{ok, ◌>>=◌}
use jkvlang.Prelude.Int.{ℤ, pos, ltb_ℤ}
use jkvlang.Token.Kind
use jkvlang.Token.Kind.{Token}
use jkvlang.Code.Lines
use jkvlang.Code.Lines.{
  Mnemonic, Register, Operand, Line, instr, label, blank, reg, imm, xmm, bp_rel, sized_bp_rel, at,
  label_ref, literal, literal_at, dword_literal_at, symbol, rax, rbx, rcx, rdx, rsp, rbp, rsi, rdi,
  r12, r13, r14, r15, eax, ebx, ecx, ax, al, cl, r12d, r14d,
}
use jkvlang.Code.Asm.{Asm, set_sp}
use jkvlang.Emit.Instr.{emit_all, emit_assert_tos_in_rax, bp_relative}
use jkvlang.Emit.Ops.{Failable}
use jkvlang.Emit.Concat.{extend_string_capacity, emit_concat}

unfoldable pub emit_append_variable_expression_str_str : ℤ → Asm → Failable
unfolding emit_all extend_string_capacity bp_relative
emit_append_variable_expression_str_str adr a = do
  v ← bp_relative adr
  b ←
      emit_all
        (instr Lines.op_mov (reg rbx) v
          ∷ instr Lines.op_push (reg rbx) blank
          ∷ instr Lines.op_mov (reg r13) (reg rax)
          ∷ instr Lines.op_mov (reg rbx) (at (pos 0) r13 (pos 0))
          ∷ instr Lines.op_mov (reg ebx) (reg ebx)
          ∷ instr Lines.op_mov (reg r14) (reg rbx)
          ∷ instr Lines.op_mov (reg rsi) (at (pos 0) rsp (pos 0))
          ∷ [])
        a
  c ← extend_string_capacity 4 b
  d ←
      emit_all
        (instr Lines.op_add (at (pos 0) rdx (pos 0)) (reg r14)
          ∷ instr Lines.op_mov (reg rcx) (reg r14)
          ∷ instr Lines.op_mov (reg ecx) (reg ecx)
          ∷ instr Lines.op_mov (reg rsi) (reg r13)
          ∷ instr Lines.op_add (reg rsi) (imm (pos 8))
          ∷ instr Lines.op_rep (symbol (codes "movsb")) blank
          ∷ instr Lines.op_mov v (reg rdx)
          ∷ instr Lines.op_pop (reg rax) blank
          ∷ [])
        c
  ok (false, d)

unfoldable pub emit_append_indirect_expression_str_str : Asm → Failable
unfolding emit_all extend_string_capacity emit_assert_tos_in_rax
emit_append_indirect_expression_str_str a = do
  b ← emit_assert_tos_in_rax a
  c ←
      emit_all
        (instr Lines.op_push (reg rdi) blank
          ∷ instr Lines.op_mov (reg rdi) (at (pos 0) rdi (pos 0))
          ∷ instr Lines.op_mov (reg rsi) (reg rdi)
          ∷ instr Lines.op_mov (reg r13) (reg rax)
          ∷ instr Lines.op_mov (reg rbx) (at (pos 0) r13 (pos 0))
          ∷ instr Lines.op_mov (reg ebx) (reg ebx)
          ∷ instr Lines.op_mov (reg r14) (reg rbx)
          ∷ [])
        b
  d ← extend_string_capacity 4 c
  e ←
      emit_all
        (instr Lines.op_add (at (pos 0) rdx (pos 0)) (reg r14)
          ∷ instr Lines.op_mov (reg rcx) (reg r14)
          ∷ instr Lines.op_mov (reg ecx) (reg ecx)
          ∷ instr Lines.op_mov (reg rsi) (reg r13)
          ∷ instr Lines.op_add (reg rsi) (imm (pos 8))
          ∷ instr Lines.op_cld blank blank
          ∷ instr Lines.op_rep (symbol (codes "movsb")) blank
          ∷ instr Lines.op_pop (reg rdi) blank
          ∷ instr Lines.op_mov (at (pos 8) rdi (pos 0)) (reg rdx)
          ∷ [])
        d
  ok (false, e)

unfoldable pub emit_append_indirect_const_str_str : ℕ → Asm → Failable
unfolding emit_all extend_string_capacity
emit_append_indirect_const_str_str lit a = do
  b ←
      emit_all
        (instr Lines.op_mov (reg rsi) (at (pos 0) rsp (pos 0))
          ∷ instr Lines.op_mov (reg rsi) (at (pos 0) rsi (pos 0))
          ∷ instr Lines.op_mov (reg rax) (literal (codes "str") lit)
          ∷ instr Lines.op_mov (reg rbx) (at (pos 0) rax (pos 0))
          ∷ instr Lines.op_mov (reg ebx) (reg ebx)
          ∷ instr Lines.op_mov (reg r14) (reg rbx)
          ∷ [])
        a
  c ← extend_string_capacity 4 b
  d ←
      emit_all
        (instr Lines.op_add (at (pos 0) rdx (pos 0)) (reg r14)
          ∷ instr Lines.op_mov (reg rcx) (reg r14)
          ∷ instr Lines.op_mov (reg ecx) (reg ecx)
          ∷ instr Lines.op_mov (reg rsi) (literal (codes "str") lit)
          ∷ instr Lines.op_add (reg rsi) (imm (pos 8))
          ∷ instr Lines.op_rep (symbol (codes "movsb")) blank
          ∷ instr Lines.op_mov (reg rdi) (at (pos 0) rsp (pos 0))
          ∷ instr Lines.op_mov (at (pos 8) rdi (pos 0)) (reg rdx)
          ∷ instr Lines.op_pop (reg rax) blank
          ∷ [])
        c
  ok (false, d)

unfoldable pub emit_append_variable_const_str_str : ℤ → ℕ → Asm → Failable
unfolding emit_all emit_concat bp_relative set_sp
emit_append_variable_const_str_str adr lit a = do
  v ← bp_relative adr
  b ←
      emit_all
        (instr Lines.op_mov (reg rax) v
          ∷ instr Lines.op_push (reg rax) blank
          ∷ instr Lines.op_mov (reg rax) (literal (codes "str") lit)
          ∷ instr Lines.op_push (reg rax) blank
          ∷ [])
        a
  c ← emit_concat true false (set_sp b)
  d ← emit_all (instr Lines.op_mov v (reg rax) ∷ []) c
  ok (false, d)

-- The test of a constant character; `none` is the error.
abbrev if_ascii : ℤ → Failable → Asm → Failable
if_ascii value m a = if ltb_ℤ (pos 128) value then ok (true, a) else m

-- Its code for a character below 129.
unfoldable append_const_char : ℤ → Asm → Failable
unfolding emit_all extend_string_capacity
append_const_char value a = do
  b ←
      emit_all
        (instr Lines.op_mov (reg rsi) (at (pos 0) rsp (pos 0))
          ∷ instr Lines.op_mov (reg rsi) (at (pos 0) rsi (pos 0))
          ∷ instr Lines.op_mov (reg rbx) (imm (pos 1))
          ∷ [])
        a
  c ← extend_string_capacity 4 b
  d ←
      emit_all
        (instr Lines.op_inc (at (pos 4) rdx (pos 0)) blank
          ∷ instr Lines.op_mov (at (pos 1) rdi (pos 0)) (imm value)
          ∷ instr Lines.op_mov (reg rdi) (at (pos 0) rsp (pos 0))
          ∷ instr Lines.op_mov (at (pos 8) rdi (pos 0)) (reg rdx)
          ∷ instr Lines.op_pop (reg rax) blank
          ∷ [])
        c
  ok (false, d)

unfoldable pub emit_append_indirect_const_str_char : ℤ → Asm → Failable
unfolding emit_all extend_string_capacity append_const_char
emit_append_indirect_const_str_char value a = if_ascii value (append_const_char value a) a

unfoldable pub emit_append_indirect_expression_str_char : Asm → Failable
unfolding emit_all extend_string_capacity emit_assert_tos_in_rax
emit_append_indirect_expression_str_char a = do
  b ← emit_assert_tos_in_rax a
  c ←
      emit_all
        (instr Lines.op_mov (reg r14) (reg rax)
          ∷ instr Lines.op_mov (reg r13) (reg rdi)
          ∷ instr Lines.op_mov (reg rsi) (at (pos 0) rdi (pos 0))
          ∷ instr Lines.op_mov (reg rbx) (imm (pos 1))
          ∷ [])
        b
  d ← extend_string_capacity 4 c
  e ←
      emit_all
        (instr Lines.op_inc (at (pos 4) rdx (pos 0)) blank
          ∷ instr Lines.op_mov (reg rax) (reg r14)
          ∷ instr Lines.op_mov (at (pos 1) rdi (pos 0)) (reg al)
          ∷ instr Lines.op_mov (at (pos 8) r13 (pos 0)) (reg rdx)
          ∷ [])
        d
  ok (false, e)

abbrev is_plus_assign : Token → Bool
is_plus_assign Kind.tok_plus_assign = true
is_plus_assign op = false

-- Its code for `+=` with a character below 129.
unfoldable append_char_to_variable : ℤ → ℤ → Asm → Failable
unfolding emit_all extend_string_capacity bp_relative
append_char_to_variable adr value a = do
  v ← bp_relative adr
  b ←
      emit_all
        (instr Lines.op_mov (reg rdi) v
          ∷ instr Lines.op_mov (reg rsi) (reg rdi)
          ∷ instr Lines.op_mov (reg rbx) (imm (pos 1))
          ∷ [])
        a
  c ← extend_string_capacity 4 b
  d ←
      emit_all
        (instr Lines.op_inc (at (pos 4) rdx (pos 0)) blank
          ∷ instr Lines.op_mov (at (pos 1) rdi (pos 0)) (imm value)
          ∷ instr Lines.op_mov v (reg rdx)
          ∷ [])
        c
  ok (false, d)

unfoldable pub emit_assign_variable_const_str_char : Token → ℤ → ℤ → Asm → Failable
unfolding emit_all extend_string_capacity bp_relative append_char_to_variable
emit_assign_variable_const_str_char op adr value a =
    if_ascii value
      (if is_plus_assign op then (append_char_to_variable adr value a) else ok (true, a)) a

unfoldable pub emit_append_variable_expression_str_char : ℤ → Asm → Failable
unfolding emit_all extend_string_capacity emit_assert_tos_in_rax bp_relative
emit_append_variable_expression_str_char adr a = do
  b ← emit_assert_tos_in_rax a
  v ← bp_relative adr
  c ←
      emit_all
        (instr Lines.op_mov (reg r14) (reg rax)
          ∷ instr Lines.op_mov (reg rbx) (imm (pos 1))
          ∷ instr Lines.op_mov (reg rsi) v
          ∷ [])
        b
  d ← extend_string_capacity 4 c
  e ←
      emit_all
        (instr Lines.op_inc (at (pos 4) rdx (pos 0)) blank
          ∷ instr Lines.op_mov (reg rax) (reg r14)
          ∷ instr Lines.op_mov (at (pos 1) rdi (pos 0)) (reg al)
          ∷ instr Lines.op_mov v (reg rdx)
          ∷ [])
        d
  ok (false, e)
