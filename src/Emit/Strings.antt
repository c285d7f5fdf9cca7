-- ===== src/Emit/Strings.antt =====
-- emit_nasm.go: comparison of strings, and what frees an object.
use jkvlang.Prelude.{ℕ, Bool, true, false, List, [], ◌∷◌, Text, codes, byte_length, if◌then◌else◌}
use jkvlang.Prelude.Outcomes.{Outcome, ok, ◌>>=◌}
use jkvlang.Prelude.Int.{pos}
use jkvlang.Token.Kind
use jkvlang.Token.Kind.{Token}
use jkvlang.Code.Lines
use jkvlang.Code.Lines.{
  Mnemonic, Register, Operand, Line, instr, label, blank, reg, imm, xmm, bp_rel, sized_bp_rel, at,
  label_ref, literal, literal_at, dword_literal_at, symbol, rax, rbx, rcx, rdx, rsp, rbp, rsi, rdi,
  r12, r13, r14, r15, eax, ebx, ecx, ax, al, cl, r12d, r14d,
}
use jkvlang.Code.Asm.{Asm, set_undef, new_label}
use jkvlang.Emit.Instr.{emit_all, emit_assert_tos_in_rax}
use jkvlang.Emit.Ops.{Failable, no_error}

-- The part of `EmitCompareStrToLit` that frees the string of a temporary object.
unfoldable pub free_compared : Bool → Asm → Outcome Asm
unfolding emit_all new_label
free_compared false a = ok a
free_compared true a =
    emit_all
      (instr Lines.op_mov (reg rbx) (at (pos 0) r14 (pos 0))
        ∷ instr Lines.op_shr (reg rbx) (imm (pos 32))
        ∷ instr Lines.op_or (reg rbx) (reg rbx)
        ∷ [])
      a
    >>= λ b.
        let (lb, c) = new_label b in
        emit_all
          (instr Lines.op_jz (label_ref lb) blank
            ∷ instr Lines.op_mov (reg rax) (reg r14)
            ∷ instr Lines.op_call (symbol (codes "_free_string")) blank
            ∷ label lb
            ∷ [])
          c

-- `EmitCompareStrToLit`, where the operator is `==`, or else `!=`.
unfoldable pub compare_to_literal : Bool → Text → ℕ → Bool → Asm → Outcome Asm
unfolding emit_all emit_assert_tos_in_rax new_label free_compared byte_length
compare_to_literal equal text lit temp a = do
  b ← emit_assert_tos_in_rax a
  let (lbl, c) = new_label b
  d ←
      emit_all
        (instr Lines.op_mov (reg r13) (imm (pos 0))
          ∷ instr Lines.op_mov (reg rdi) (reg rax)
          ∷ instr Lines.op_mov (reg r14) (reg rax)
          ∷ instr Lines.op_or (reg rax) (reg rax)
          ∷ instr Lines.op_jz (label_ref lbl) blank
          ∷ instr Lines.op_mov (reg eax) (at (pos 0) rax (pos 0))
          ∷ instr Lines.op_cmp (reg eax) (imm (pos (byte_length text)))
          ∷ instr Lines.op_jne (label_ref lbl) blank
          ∷ instr Lines.op_mov (reg ecx) (reg eax)
          ∷ instr Lines.op_mov (reg rsi) (literal (codes "str") lit)
          ∷ instr Lines.op_add (reg rsi) (imm (pos 8))
          ∷ instr Lines.op_add (reg rdi) (imm (pos 8))
          ∷ instr Lines.op_cld blank blank
          ∷ instr Lines.op_repe (symbol (codes "cmpsb")) blank
          ∷ instr Lines.op_jne (label_ref lbl) blank
          ∷ instr Lines.op_mov (reg r13) (imm (pos 1))
          ∷ label lbl
          ∷ [])
        c
  e ← free_compared temp d
  f ← emit_all (instr Lines.op_mov (reg rax) (reg r13) ∷ []) e
  if equal then ok f else emit_all (instr Lines.op_xor (reg rax) (imm (pos 1)) ∷ []) f

unfoldable pub emit_compare_str_to_lit : Token → Text → ℕ → Bool → Asm → Failable
unfolding compare_to_literal emit_assert_tos_in_rax
emit_compare_str_to_lit Kind.tok_eq text lit temp a =
    compare_to_literal true text lit temp a >>= no_error
emit_compare_str_to_lit Kind.tok_ne text lit temp a =
    compare_to_literal false text lit temp a >>= no_error
emit_compare_str_to_lit op text lit temp a = emit_assert_tos_in_rax a >>= λ b. ok (true, b)

abbrev pub compare_string_code : ℕ → List Line
compare_string_code lbl =
    instr Lines.op_jne (label_ref lbl) blank
    ∷ instr Lines.op_mov (reg ecx) (at (pos 0) rax (pos 0))
    ∷ instr Lines.op_add (reg rsi) (imm (pos 4))
    ∷ instr Lines.op_add (reg rdi) (imm (pos 4))
    ∷ instr Lines.op_cld blank blank
    ∷ instr Lines.op_repe (symbol (codes "cmpsb")) blank
    ∷ instr Lines.op_jne (label_ref lbl) blank
    ∷ []

-- `emitCompareString`, which returns the label.
unfoldable pub emit_compare_string : Asm → Outcome (ℕ × Asm)
unfolding emit_all new_label
emit_compare_string a =
    let (lbl, b) = new_label a in emit_all (compare_string_code lbl) b >>= λ c. ok (lbl, c)

-- The two calls that free the temporary strings.
abbrev pub free_if_code : Register → List Line
free_if_code r =
    instr Lines.op_mov (reg rax) (reg r)
    ∷ instr Lines.op_call (symbol (codes "_free_string")) blank
    ∷ []

unfoldable pub free_if : Bool → Register → Asm → Outcome Asm
unfolding emit_all
free_if false r a = ok a
free_if true r a = emit_all (free_if_code r) a

abbrev pub first_code : ℕ → List Line
first_code different =
    instr Lines.op_mov (reg rdi) (reg rax)
    ∷ instr Lines.op_mov (reg rsi) (at (pos 0) rsp (pos 0))
    ∷ instr Lines.op_mov (reg rcx) (imm (pos 4))
    ∷ instr Lines.op_cld blank blank
    ∷ instr Lines.op_repe (symbol (codes "cmpsb")) blank
    ∷ instr Lines.op_pop (reg rax) blank
    ∷ instr Lines.op_mov (reg rbx) (imm (pos different))
    ∷ []

abbrev pub same_code : ℕ → ℕ → List Line
same_code same lbl = instr Lines.op_mov (reg rbx) (imm (pos same)) ∷ label lbl ∷ []

abbrev pub result_code : List Line
result_code = instr Lines.op_mov (reg rax) (reg rbx) ∷ []

-- `EmitCompareStringsEq` with `different` 0 and `same` 1, `EmitCompareStringsNe` with 1 and 0.
unfoldable pub compare_strings : ℕ → ℕ → Bool → Bool → Asm → Outcome Asm
unfolding emit_all emit_assert_tos_in_rax emit_compare_string free_if
compare_strings different same temp1 temp2 a = do
  b ← emit_assert_tos_in_rax a
  c ← emit_all (first_code different) b
  r ← emit_compare_string c
  e ← emit_all (same_code same r.0) r.1
  f ← free_if temp1 rsi e
  g ← free_if temp2 rdi f
  emit_all result_code g

unfoldable pub emit_compare_strings_eq : Bool → Bool → Asm → Outcome Asm
unfolding compare_strings
emit_compare_strings_eq temp1 temp2 a = compare_strings 0 1 temp1 temp2 a

unfoldable pub emit_compare_strings_ne : Bool → Bool → Asm → Outcome Asm
unfolding compare_strings
emit_compare_strings_ne temp1 temp2 a = compare_strings 1 0 temp1 temp2 a

unfoldable pub emit_free_string : Asm → Outcome Asm
unfolding emit_all new_label set_undef
emit_free_string a =
    let (lbl, b) = new_label a in
    emit_all
      (instr Lines.op_or (reg rax) (reg rax)
        ∷ instr Lines.op_jz (label_ref lbl) blank
        ∷ instr Lines.op_mov (reg rbx) (at (pos 0) rax (pos 0))
        ∷ instr Lines.op_shr (reg rbx) (imm (pos 32))
        ∷ instr Lines.op_or (reg rbx) (reg rbx)
        ∷ instr Lines.op_jz (label_ref lbl) blank
        ∷ instr Lines.op_call (symbol (codes "_free_string")) blank
        ∷ label lbl
        ∷ [])
      b
    >>= λ c. ok (set_undef c)

unfoldable pub emit_free_struct : ℕ → Asm → Outcome Asm
unfolding emit_all set_undef
emit_free_struct size a =
    emit_all
      (instr Lines.op_mov (reg rcx) (imm (pos size))
        ∷ instr Lines.op_call (symbol (codes "_free_struct")) blank
        ∷ [])
      a
    >>= λ b. ok (set_undef b)

-- `EmitFreeSlice`, of a slice whose elements have the given size.
unfoldable pub emit_free_slice : ℕ → Asm → Outcome Asm
unfolding emit_all set_undef
emit_free_slice element_size a =
    emit_all
      (instr Lines.op_mov (reg rcx) (imm (pos element_size))
        ∷ instr Lines.op_call (symbol (codes "_free_slice")) blank
        ∷ [])
      a
    >>= λ b. ok (set_undef b)
