-- ===== src/Emit/Floats.antt =====
-- emit_nasm.go: operations on floats. A constant goes to the table of its literals first.
use jkvlang.Prelude.{ℕ, Bool, true, false, List, [], ◌∷◌, codes, Option, none, some, if◌then◌else◌}
use jkvlang.Prelude.Outcomes.{Outcome, ok, ◌>>=◌}
use jkvlang.Prelude.Int.{ℤ, pos}
use jkvlang.Token.Kind
use jkvlang.Token.Kind.{Token}
use jkvlang.Code.Lines
use jkvlang.Code.Lines.{
  Mnemonic, Register, Operand, Line, instr, label, blank, reg, imm, xmm, bp_rel, sized_bp_rel, at,
  label_ref, literal, literal_at, dword_literal_at, symbol, rax, rbx, rcx, rdx, rsp, rbp, rsi, rdi,
  r12, r13, r14, r15, eax, ebx, ecx, ax, al, cl, r12d, r14d,
}
use jkvlang.Code.Asm.{Asm, set_ax, set_sp}
use jkvlang.Emit.Instr.{
  emit, emit_all, emit_flush_rax, emit_assert_tos_in_rax, bp_relative, is_size,
}
use jkvlang.Emit.Ops.{Failable, emit_jump_cond}
use jkvlang.Prelude.Floats.{Floats}
use jkvlang.Code.Types
use jkvlang.Code.Types.{PrimaryType, is_integer}
use jkvlang.Values.Literals.{Literals, add_f64_lit, add_f32_lit}

-- The writer and the tables of literals.
pub record Gen (F : Type 0) : Type 0 where
  pub asm : Asm
  pub lits : Literals F

-- Whether the code returned an error, and the state behind it.
abbrev pub Generated : Type 0 → Type 0
Generated F = Outcome (Bool × Gen F)

-- A piece of code that does not use the tables.
abbrev pub lift : {F : Type 0} → (Asm → Failable) → Gen F → Generated F
lift m g = m g.asm >>= λ r. ok (r.0, record g { asm = r.1 })

-- The same for code without errors.
abbrev pub lift_ok : {F : Type 0} → (Asm → Outcome Asm) → Gen F → Generated F
lift_ok m g = m g.asm >>= λ b. ok (false, record g { asm = b })

-- The instructions of `emitFloatOp`, or none where it returns an error.
unfoldable pub float_code : Token → ℕ → Option (List Line)
float_code Kind.tok_plus size = some (instr (Lines.op_fadd size) (xmm 1) (xmm 2) ∷ [])
float_code Kind.tok_plus_assign size = some (instr (Lines.op_fadd size) (xmm 1) (xmm 2) ∷ [])
float_code Kind.tok_minus size = some (instr (Lines.op_fsub size) (xmm 1) (xmm 2) ∷ [])
float_code Kind.tok_minus_asgn size = some (instr (Lines.op_fsub size) (xmm 1) (xmm 2) ∷ [])
float_code Kind.tok_inv_minus size =
    some (instr (Lines.op_fsub size) (xmm 2) (xmm 1) ∷ instr Lines.op_movq (xmm 1) (xmm 2) ∷ [])
float_code Kind.tok_mult size = some (instr (Lines.op_fmul size) (xmm 1) (xmm 2) ∷ [])
float_code Kind.tok_mult_asgn size = some (instr (Lines.op_fmul size) (xmm 1) (xmm 2) ∷ [])
float_code Kind.tok_div size = some (instr (Lines.op_fdiv size) (xmm 1) (xmm 2) ∷ [])
float_code Kind.tok_div_asgn size = some (instr (Lines.op_fdiv size) (xmm 1) (xmm 2) ∷ [])
float_code Kind.tok_inv_div size =
    some (instr (Lines.op_fdiv size) (xmm 2) (xmm 1) ∷ instr Lines.op_movq (xmm 1) (xmm 2) ∷ [])
float_code op size = none

abbrev float_with : Option (List Line) → Asm → Failable
float_with none a = ok (true, a)
float_with (some ls) a = emit_all ls a >>= λ b. ok (false, set_ax b)

unfoldable pub emit_float_op : Token → ℕ → Asm → Failable
unfolding emit_all float_code set_ax
emit_float_op op size a = float_with (float_code op size) a

-- An operation, and the result of it moved from xmm1.
unfoldable pub op_then : Token → ℕ → List Line → Asm → Failable
unfolding emit_all emit_float_op
op_then op size ls a = emit_float_op op size a >>= λ r. emit_all ls r.1 >>= λ b. ok (r.0, b)

-- The first operand of `EmitF64Op`, converted into a register, or none where it returns an error.
unfoldable pub to_f64 : PrimaryType → ℕ → Option Line
unfolding is_integer
to_f64 t n = if is_integer t then some (instr Lines.op_cvtsi2sd (xmm n) (reg rax)) else (elim t [
  | Types.typ_f32 ↦ some (instr Lines.op_cvtss2sd (xmm n) (reg rax))
  | Types.typ_f64 ↦ some (instr Lines.op_movq (xmm n) (reg rax))
  | _ ↦ none
])

unfoldable pub to_f32 : PrimaryType → ℕ → Option Line
unfolding is_integer
to_f32 t n =
    if is_integer t
    then some (instr Lines.op_cvtsi2ss (xmm n) (reg rax))
    else (elim t [ Types.typ_f32 ↦ some (instr Lines.op_movd (xmm n) (reg eax)) | _ ↦ none ])

-- The two conversions with the pop between them, and the operation.
unfoldable pub convert_and_op : Token → ℕ → Option Line → Option Line → Asm → Failable
unfolding emit_all op_then
convert_and_op op size none second a = ok (true, a)
convert_and_op op size (some l) none a =
    emit_all (l ∷ instr Lines.op_pop (reg rax) blank ∷ []) a >>= λ b. ok (true, b)
convert_and_op op size (some l) (some k) a =
    emit_all (l ∷ instr Lines.op_pop (reg rax) blank ∷ k ∷ []) a
    >>= op_then op size (instr Lines.op_movq (reg rax) (xmm 1) ∷ [])

unfoldable pub emit_f64_op : Token → PrimaryType → PrimaryType → Asm → Failable
unfolding convert_and_op to_f64
emit_f64_op op typ1 typ2 a = convert_and_op op 64 (to_f64 typ2 2) (to_f64 typ1 1) a

unfoldable pub emit_f32_op : Token → PrimaryType → PrimaryType → Asm → Failable
unfolding convert_and_op to_f32
emit_f32_op op typ1 typ2 a = convert_and_op op 32 (to_f32 typ1 2) (to_f32 typ2 1) a

unfoldable pub emit_compare_f64 : Token → Asm → Failable
unfolding emit_all emit_jump_cond
emit_compare_f64 op a =
    emit_all
      (instr Lines.op_movq (xmm 2) (reg rax)
        ∷ instr Lines.op_pop (reg rax) blank
        ∷ instr Lines.op_movq (xmm 1) (reg rax)
        ∷ instr Lines.op_ucomisd (xmm 1) (xmm 2)
        ∷ [])
      a
    >>= emit_jump_cond op true

unfoldable pub emit_compare_f32 : Token → Asm → Failable
unfolding emit_all emit_jump_cond
emit_compare_f32 op a =
    emit_all
      (instr Lines.op_movd (xmm 2) (reg eax)
        ∷ instr Lines.op_pop (reg rax) blank
        ∷ instr Lines.op_movd (xmm 1) (reg eax)
        ∷ instr Lines.op_ucomiss (xmm 1) (xmm 2)
        ∷ [])
      a
    >>= emit_jump_cond op true

-- `EmitLoadFloat`; a size other than 4 and 8 loads nothing.
unfoldable pub emit_load_float : ℤ → ℤ → Asm → Outcome Asm
unfolding emit emit_flush_rax bp_relative set_ax
emit_load_float size adr a = do
  b ← emit_flush_rax a
  let wide = (bp_relative adr >>= λ v. emit Lines.op_mov (reg rax) v (set_ax b))
  let narrow =
      (bp_relative adr >>= λ v. emit Lines.op_mov (reg eax) (sized_bp_rel (pos 4) adr) (set_ax b))
  if is_size 8 size then wide else if is_size 4 size then narrow else ok (set_ax b)

-- The code of `EmitOpF32Const`; it sets the state again before the result is moved.
unfoldable op_f32_code : Token → ℕ → Asm → Failable
unfolding emit_all emit_assert_tos_in_rax emit_float_op set_ax
op_f32_code op lit a = do
  b ← emit_assert_tos_in_rax a
  c ←
      emit_all
        (instr Lines.op_movd (xmm 1) (reg eax)
          ∷ instr Lines.op_mov (reg eax) (literal_at (codes "f32_") lit)
          ∷ instr Lines.op_movd (xmm 2) (reg eax)
          ∷ [])
        b
  r ← emit_float_op op 32 c
  d ← emit_all (instr Lines.op_movd (reg eax) (xmm 1) ∷ []) (set_ax r.1)
  ok (r.0, d)

module _ (fl : Floats) where
  open fl use {F, eq}

  -- `AddF64Lit` and `AddF32Lit` on the state; the number goes to the code.
  unfoldable pub with_f64 : F → (ℕ → Asm → Failable) → Gen F → Generated F
  unfolding add_f64_lit
  with_f64 x m g =
      let (t, lit) = add_f64_lit eq x g.lits.f64_literal_defs in
      lift (m lit) (record g { lits = record (g.lits) { f64_literal_defs = t } })

  unfoldable pub with_f32 : F → (ℕ → Asm → Failable) → Gen F → Generated F
  unfolding add_f32_lit
  with_f32 x m g =
      let (t, lit) = add_f32_lit eq x g.lits.f32_literal_defs in
      lift (m lit) (record g { lits = record (g.lits) { f32_literal_defs = t } })

  unfoldable pub emit_push_f64_lit : F → Gen F → Generated F
  unfolding with_f64 emit_all set_sp
  emit_push_f64_lit x g =
      with_f64 x
        (λ lit a.
          emit_all
            (instr Lines.op_mov (reg rax) (literal_at (codes "f64_") lit)
              ∷ instr Lines.op_push (reg rax) blank
              ∷ [])
            a
          >>= λ b. ok (false, set_sp b))
        g

  unfoldable pub emit_push_f32_lit : F → Gen F → Generated F
  unfolding with_f32 emit_all set_sp
  emit_push_f32_lit x g =
      with_f32 x
        (λ lit a.
          emit_all
            (instr Lines.op_mov (reg eax) (dword_literal_at (codes "f32_") lit)
              ∷ instr Lines.op_push (reg rax) blank
              ∷ [])
            a
          >>= λ b. ok (false, set_sp b))
        g

  unfoldable pub emit_op_f64_const : Token → F → Gen F → Generated F
  unfolding with_f64 emit_all emit_assert_tos_in_rax op_then
  emit_op_f64_const op x g = emit_assert_tos_in_rax g.asm >>= λ b.
      with_f64 x
        (λ lit a.
          emit_all
            (instr Lines.op_movq (xmm 1) (reg rax)
              ∷ instr Lines.op_mov (reg rax) (literal_at (codes "f64_") lit)
              ∷ instr Lines.op_movq (xmm 2) (reg rax)
              ∷ [])
            a
          >>= op_then op 64 (instr Lines.op_movq (reg rax) (xmm 1) ∷ []))
        (record g { asm = b })

  unfoldable pub emit_op_f32_const : Token → F → Gen F → Generated F
  unfolding with_f32 op_f32_code
  emit_op_f32_const op x g = with_f32 x (op_f32_code op) g

  unfoldable pub emit_compare_f64_const : Token → F → Gen F → Generated F
  unfolding with_f64 emit_all emit_jump_cond
  emit_compare_f64_const op x g =
      with_f64 x
        (λ lit a.
          emit_all
            (instr Lines.op_movq (xmm 1) (reg rax)
              ∷ instr Lines.op_mov (reg rax) (literal_at (codes "f64_") lit)
              ∷ instr Lines.op_movq (xmm 2) (reg rax)
              ∷ instr Lines.op_ucomisd (xmm 1) (xmm 2)
              ∷ [])
            a
          >>= emit_jump_cond op true)
        g

  unfoldable pub emit_compare_f32_const : Token → F → Gen F → Generated F
  unfolding with_f32 emit_all emit_jump_cond
  emit_compare_f32_const op x g =
      with_f32 x
        (λ lit a.
          emit_all
            (instr Lines.op_movd (xmm 1) (reg eax)
              ∷ instr Lines.op_mov (reg eax) (literal_at (codes "f32_") lit)
              ∷ instr Lines.op_movd (xmm 2) (reg eax)
              ∷ instr Lines.op_ucomiss (xmm 1) (xmm 2)
              ∷ [])
            a
          >>= emit_jump_cond op true)
        g
