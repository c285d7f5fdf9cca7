-- ===== src/Emit/AssignFloats.antt =====
-- emit_nasm.go: assignments of floats, to a variable and behind a pointer.
use jkvlang.Prelude.{ℕ, Bool, true, false, [], ◌∷◌, codes, if◌then◌else◌}
use jkvlang.Prelude.Outcomes.{ok, ◌>>=◌}
use jkvlang.Prelude.Int.{ℤ, pos}
use jkvlang.Token.Kind
use jkvlang.Token.Kind.{Token}
use jkvlang.Code.Lines
use jkvlang.Code.Lines.{
  Mnemonic, Register, Operand, Line, instr, label, blank, reg, imm, xmm, bp_rel, sized_bp_rel, at,
  label_ref, literal, literal_at, dword_literal_at, symbol, rax, rbx, rcx, rdx, rsp, rbp, rsi, rdi,
  r12, r13, r14, r15, eax, ebx, ecx, ax, al, cl, r12d, r14d,
}
use jkvlang.Code.Asm.{Asm, set_ax, set_undef}
use jkvlang.Emit.Instr.{emit_all, emit_assert_tos_in_rax, bp_relative}
use jkvlang.Emit.Ops.{Failable, no_error}
use jkvlang.Prelude.Floats.{Floats}
use jkvlang.Emit.Floats.{Gen, Generated, with_f64, with_f32, op_then}

-- The tests of the operator: `=`, and `+=`, `-=`, `/=` or `*=`.
pub data FloatAssign : Type 0 where
  sets modifies refuses : FloatAssign

abbrev pub float_assign : Token → FloatAssign
float_assign Kind.tok_assign = sets
float_assign Kind.tok_plus_assign = modifies
float_assign Kind.tok_minus_asgn = modifies
float_assign Kind.tok_div_asgn = modifies
float_assign Kind.tok_mult_asgn = modifies
float_assign op = refuses

abbrev sets_only : Token → Bool
sets_only Kind.tok_assign = true
sets_only op = false

unfoldable pub emit_assign_variable_expression_f64 : Token → ℤ → Asm → Failable
unfolding emit_all emit_assert_tos_in_rax bp_relative op_then
emit_assign_variable_expression_f64 op adr a = bp_relative adr >>= λ v.
    let stored =
      emit_assert_tos_in_rax a >>= emit_all (instr Lines.op_mov v (reg rax) ∷ []) >>= no_error in
    if sets_only op
    then stored
    else (emit_all
          (instr Lines.op_movq (xmm 2) (reg rax)
            ∷ instr Lines.op_mov (reg rax) v
            ∷ instr Lines.op_movq (xmm 1) (reg rax)
            ∷ [])
          a
        >>= op_then op 64
            (instr Lines.op_movq (reg rax) (xmm 1) ∷ instr Lines.op_mov v (reg rax) ∷ []))

unfoldable pub emit_assign_variable_expression_f32 : Token → ℤ → Asm → Failable
unfolding emit_all emit_assert_tos_in_rax bp_relative op_then
emit_assign_variable_expression_f32 op adr a = bp_relative adr >>= λ v.
    let stored =
      emit_assert_tos_in_rax a >>= emit_all (instr Lines.op_mov v (reg eax) ∷ []) >>= no_error in
    if sets_only op
    then stored
    else (emit_all
          (instr Lines.op_movd (xmm 2) (reg eax)
            ∷ instr Lines.op_mov (reg eax) v
            ∷ instr Lines.op_movd (xmm 1) (reg eax)
            ∷ [])
          a
        >>= op_then op 32
            (instr Lines.op_movd (reg eax) (xmm 1) ∷ instr Lines.op_mov v (reg eax) ∷ []))

abbrev f64_indirect_with : Token → FloatAssign → Asm → Failable
f64_indirect_with op sets a =
    emit_all (instr Lines.op_mov (at (pos 0) rdi (pos 0)) (reg rax) ∷ []) (set_undef a) >>= no_error
f64_indirect_with op modifies a =
    emit_all
      (instr Lines.op_movq (xmm 2) (reg rax)
        ∷ instr Lines.op_mov (reg rax) (at (pos 0) rdi (pos 0))
        ∷ instr Lines.op_movq (xmm 1) (reg rax)
        ∷ [])
      a
    >>= op_then op 64 (
        instr Lines.op_movq (reg rax) (xmm 1)
        ∷ instr Lines.op_mov (at (pos 0) rdi (pos 0)) (reg rax)
        ∷ [])
f64_indirect_with op refuses a = ok (true, a)

unfoldable pub emit_assign_indirect_expression_f64 : Token → Asm → Failable
unfolding emit_all op_then set_undef
emit_assign_indirect_expression_f64 op a = f64_indirect_with op (float_assign op) a

abbrev f32_indirect_with : Token → FloatAssign → Asm → Failable
f32_indirect_with op sets a =
    emit_all (instr Lines.op_mov (at (pos 4) rdi (pos 0)) (reg eax) ∷ []) (set_undef a) >>= no_error
f32_indirect_with op modifies a =
    emit_all
      (instr Lines.op_movd (xmm 2) (reg eax)
        ∷ instr Lines.op_mov (reg eax) (at (pos 4) rdi (pos 0))
        ∷ instr Lines.op_movd (xmm 1) (reg eax)
        ∷ [])
      a
    >>= op_then op 32 (
        instr Lines.op_movd (reg eax) (xmm 1)
        ∷ instr Lines.op_mov (at (pos 0) rdi (pos 0)) (reg rax)
        ∷ [])
f32_indirect_with op refuses a = ok (true, a)

unfoldable pub emit_assign_indirect_expression_f32 : Token → Asm → Failable
unfolding emit_all op_then set_undef
emit_assign_indirect_expression_f32 op a = f32_indirect_with op (float_assign op) a

abbrev f32_const_with : Token → FloatAssign → Asm → Failable
f32_const_with op sets a =
    emit_all (instr Lines.op_mov (at (pos 4) rdi (pos 0)) (reg eax) ∷ []) (set_undef a) >>= no_error
f32_const_with op modifies a =
    emit_all
      (instr Lines.op_movd (xmm 2) (reg eax)
        ∷ instr Lines.op_mov (reg eax) (at (pos 4) rdi (pos 0))
        ∷ instr Lines.op_movd (xmm 1) (reg eax)
        ∷ [])
      a
    >>= op_then op 32 (
        instr Lines.op_movd (reg eax) (xmm 1)
        ∷ instr Lines.op_mov (at (pos 4) rdi (pos 0)) (reg eax)
        ∷ [])
f32_const_with op refuses a = ok (true, a)

abbrev f64_variable_with : Token → ℤ → ℕ → FloatAssign → Asm → Failable
f64_variable_with op adr lit sets a = do
  b ← emit_all (instr Lines.op_mov (reg rax) (literal_at (codes "f64_") lit) ∷ []) (set_ax a)
  v ← bp_relative adr
  c ← emit_all (instr Lines.op_mov v (reg rax) ∷ []) (set_undef b)
  ok (false, c)
f64_variable_with op adr lit modifies a = do
  v ← bp_relative adr
  b ←
      emit_all
        (instr Lines.op_mov (reg rax) v
          ∷ instr Lines.op_movq (xmm 1) (reg rax)
          ∷ instr Lines.op_mov (reg rax) (literal_at (codes "f64_") lit)
          ∷ instr Lines.op_movq (xmm 2) (reg rax)
          ∷ [])
        (set_ax a)
  op_then op 64 (instr Lines.op_movq (reg rax) (xmm 1) ∷ instr Lines.op_mov v (reg rax) ∷ []) b
f64_variable_with op adr lit refuses a = ok (true, a)

abbrev f32_variable_with : Token → ℤ → ℕ → FloatAssign → Asm → Failable
f32_variable_with op adr lit sets a = do
  b ← emit_all (instr Lines.op_mov (reg rax) (literal_at (codes "f32_") lit) ∷ []) (set_ax a)
  v ← bp_relative adr
  c ← emit_all (instr Lines.op_mov v (reg rax) ∷ []) (set_undef b)
  ok (false, c)
f32_variable_with op adr lit modifies a = do
  v ← bp_relative adr
  b ←
      emit_all
        (instr Lines.op_mov (reg eax) (sized_bp_rel (pos 4) adr)
          ∷ instr Lines.op_movd (xmm 1) (reg eax)
          ∷ instr Lines.op_mov (reg eax) (dword_literal_at (codes "f32_") lit)
          ∷ instr Lines.op_movd (xmm 2) (reg eax)
          ∷ [])
        (set_ax a)
  op_then op 32
      (instr Lines.op_movd (reg eax) (xmm 1)
        ∷ instr Lines.op_mov (sized_bp_rel (pos 4) adr) (reg eax)
        ∷ [])
      b
f32_variable_with op adr lit refuses a = ok (true, a)

abbrev is_refused : FloatAssign → Bool
is_refused refuses = true
is_refused k = false

module _ (fl : Floats) where
  open fl use {F}

  unfoldable pub emit_op_assign_indirect_const_f32 : Token → F → Gen F → Generated F
  unfolding with_f32 emit_all op_then set_undef
  emit_op_assign_indirect_const_f32 op x g =
      with_f32 fl x
        (λ lit a.
          emit_all
            (instr Lines.op_pop (reg rdi) blank
              ∷ instr Lines.op_mov (reg eax) (dword_literal_at (codes "f32_") lit)
              ∷ [])
            a
          >>= f32_const_with op (float_assign op))
        g

  unfoldable pub emit_op_assign_indirect_const_f64 : Token → F → Gen F → Generated F
  unfolding with_f64 emit_all set_ax emit_assign_indirect_expression_f64
  emit_op_assign_indirect_const_f64 op x g =
      with_f64 fl x
        (λ lit a.
          emit_all
            (instr Lines.op_pop (reg rdi) blank
              ∷ instr Lines.op_mov (reg rax) (literal_at (codes "f64_") lit)
              ∷ [])
            (set_ax a)
          >>= emit_assign_indirect_expression_f64 op)
        g

  -- An operator that is refused adds no literal.
  unfoldable pub emit_assign_variable_const_f64 : Token → ℤ → F → Gen F → Generated F
  unfolding with_f64 emit_all bp_relative op_then set_ax set_undef
  emit_assign_variable_const_f64 op adr x g =
      if is_refused (float_assign op)
      then ok (true, g)
      else with_f64 fl x (λ lit a. f64_variable_with op adr lit (float_assign op) a) g

  unfoldable pub emit_assign_variable_const_f32 : Token → ℤ → F → Gen F → Generated F
  unfolding with_f32 emit_all bp_relative op_then set_ax set_undef
  emit_assign_variable_const_f32 op adr x g =
      if is_refused (float_assign op)
      then ok (true, g)
      else with_f32 fl x (λ lit a. f32_variable_with op adr lit (float_assign op) a) g
