-- ===== src/Emit/AssignInts.antt =====
-- emit_nasm.go: assignments of integers, to a variable and behind a pointer.
use jkvlang.Prelude.{
  ℕ, ◌/◌, ◌%◌, ◌^◌, Bool, true, false, ◌||◌, List, [], ◌∷◌, Option, none, some, ltb, if◌then◌else◌,
}
use jkvlang.Prelude.Outcomes.{Outcome, ok, ◌>>=◌}
use jkvlang.Prelude.Int.{ℤ, pos, ◌+ℤ◌, ltb_ℤ}
use jkvlang.Token.Kind
use jkvlang.Token.Kind.{Token}
use jkvlang.Code.Lines
use jkvlang.Code.Lines.{
  Mnemonic, Register, Operand, Line, instr, label, blank, reg, imm, xmm, bp_rel, sized_bp_rel, at,
  label_ref, literal, literal_at, dword_literal_at, symbol, rax, rbx, rcx, rdx, rsp, rbp, rsi, rdi,
  r12, r13, r14, r15, eax, ebx, ecx, ax, al, cl, r12d, r14d,
}
use jkvlang.Code.Asm.{Asm, set_sp}
use jkvlang.Emit.Instr.{
  emit, emit_all, emit_flush_rax, emit_assert_tos_in_rax, ax_name, bp_relative, is_size,
}
use jkvlang.Emit.Ops.{token_op, Failable, no_error}

-- `emit` with the instruction of `TokenOp`; a token without one has the empty text.
abbrev emit_token : Option Mnemonic → Operand → Operand → Asm → Outcome Asm
emit_token none dst src a = emit Lines.op_empty dst src a
emit_token (some op) dst src a = emit op dst src a

-- The instructions of `*=` and `/=` on the variable `v`.
unfoldable pub variable_code : Token → Operand → Option (List Line)
variable_code Kind.tok_mult_asgn v =
    some (instr Lines.op_imul (reg rax) v ∷ instr Lines.op_mov v (reg rax) ∷ [])
variable_code Kind.tok_div_asgn v = some (
    instr Lines.op_mov (reg rcx) v
    ∷ instr Lines.op_cqo blank blank
    ∷ instr Lines.op_idiv (reg rcx) blank
    ∷ instr Lines.op_mov v (reg rax)
    ∷ [])
variable_code op v = none

abbrev variable_with : Token → ℤ → Operand → Asm → Option (List Line) → Failable
variable_with op size v a (some ls) = emit_all ls a >>= no_error
variable_with op size v a none = do
  b ← emit_assert_tos_in_rax a
  r ← ax_name size
  c ← emit_token (token_op op) v (reg r) b
  ok (false, set_sp c)

unfoldable pub emit_assign_variable_expression_int : Token → ℤ → ℤ → Asm → Failable
unfolding emit emit_all emit_assert_tos_in_rax ax_name bp_relative token_op variable_code set_sp
emit_assign_variable_expression_int op size adr a =
    bp_relative adr >>= λ v. variable_with op size v a (variable_code op v)

-- The instructions of `*=` and `/=` behind a pointer in rdi.
unfoldable pub indirect_code : Token → Option (List Line)
indirect_code Kind.tok_mult_asgn = some (
    instr Lines.op_imul (reg rax) (at (pos 0) rdi (pos 0))
    ∷ instr Lines.op_mov (at (pos 0) rdi (pos 0)) (reg rax)
    ∷ [])
indirect_code Kind.tok_div_asgn = some (
    instr Lines.op_mov (reg rcx) (reg rax)
    ∷ instr Lines.op_mov (reg rax) (at (pos 0) rdi (pos 0))
    ∷ instr Lines.op_cqo blank blank
    ∷ instr Lines.op_idiv (reg rcx) blank
    ∷ instr Lines.op_mov (at (pos 0) rdi (pos 0)) (reg rax)
    ∷ [])
indirect_code op = none

abbrev indirect_with : Token → ℤ → Asm → Option (List Line) → Failable
indirect_with op size a (some ls) = emit_all ls a >>= no_error
indirect_with op size a none = do
  r ← ax_name size
  b ← emit_token (token_op op) (at size rdi (pos 0)) (reg r) a
  ok (false, b)

unfoldable pub emit_assign_indirect_expression_int : Token → ℤ → Asm → Failable
unfolding emit emit_all ax_name token_op indirect_code
emit_assign_indirect_expression_int op size a = indirect_with op size a (indirect_code op)

unfoldable pub emit_load_indirect_ax : Register → ℤ → Asm → Failable
unfolding emit
emit_load_indirect_ax r size a =
    let short = emit Lines.op_movzx (reg rax) (at size r (pos 0)) a >>= no_error in
    if is_size 1 size || is_size 2 size
    then short
    else if is_size 4 size
    then (emit Lines.op_mov (reg eax) (at size r (pos 0)) a >>= no_error)
    else if is_size 8 size
    then (emit Lines.op_mov (reg rax) (at size r (pos 0)) a >>= no_error)
    else ok (true, a)

abbrev is_assign : Token → Bool
is_assign Kind.tok_assign = true
is_assign op = false

abbrev is_idiv : Mnemonic → Bool
is_idiv Lines.op_idiv = true
is_idiv op = false

abbrev is_imul : Mnemonic → Bool
is_imul Lines.op_imul = true
is_imul op = false

abbrev is_mov : Mnemonic → Bool
is_mov Lines.op_mov = true
is_mov op = false

-- The end of `EmitAssignIndirectConstInt`: what `EmitLoadIndirectAx` returned is its error.
abbrev store_indirect : ℤ → Bool → Asm → Failable
store_indirect size err a = do
  r ← ax_name size
  b ← emit Lines.op_mov (at (pos 0) rdi (pos 0)) (reg r) a
  ok (err, b)

-- The operation on the value behind the pointer.
unfoldable pub modify_indirect : Mnemonic → ℤ → ℤ → Asm → Failable
unfolding emit emit_all emit_load_indirect_ax ax_name
modify_indirect op size value a = do
  r ← emit_load_indirect_ax rdi size a
  let divide = emit Lines.op_mov (reg rcx) (imm value) (r.1)
  if is_idiv op
      then (if is_size 4 size
          then (divide
              >>= emit_all
                  (instr Lines.op_cqo blank blank ∷ instr Lines.op_idiv (reg rcx) blank ∷ [])
              >>= store_indirect size (r.0))
          else (divide >>= λ b. ok (true, b)))
      else (emit op (reg rax) (imm value) (r.1) >>= store_indirect size (r.0))

abbrev assign_indirect : Token → ℤ → ℤ → Asm → Option Mnemonic → Failable
assign_indirect op size value a none = ok (true, a)
assign_indirect op size value a (some i) =
    if is_assign op
    then (emit Lines.op_mov (at size rdi (pos 0)) (imm value) a >>= no_error)
    else modify_indirect i size value a

unfoldable pub emit_assign_indirect_const_int : Token → ℤ → ℤ → Asm → Failable
unfolding emit emit_flush_rax token_op modify_indirect
emit_assign_indirect_const_int op size value a = do
  b ← emit_flush_rax a
  c ← emit Lines.op_pop (reg rdi) blank b
  assign_indirect op size value c (token_op op)

-- The division or the multiplication of a variable by a constant, which is moved to `q`.
unfoldable pub modify_variable : List Line → Register → ℤ → ℤ → ℕ → Asm → Failable
unfolding emit emit_all ax_name bp_relative
modify_variable code q size adr value a = do
  b ← emit Lines.op_mov (reg q) (imm (pos value)) a
  let cleared = emit Lines.op_xor (reg rax) (reg rax) b
  c ← if ltb_ℤ size (pos 4) then cleared else ok b
  r ← ax_name size
  v ← bp_relative adr
  d ← emit Lines.op_mov (reg r) (sized_bp_rel size adr) c
  e ← emit_all code d
  f ← emit Lines.op_mov (sized_bp_rel size adr) (reg r) e
  ok (false, f)

-- A number that needs more than 31 bits, moved in two halves.
unfoldable set_halves : Mnemonic → ℤ → ℕ → Asm → Failable
unfolding emit bp_relative
set_halves op adr value a = do
  v ← bp_relative adr
  b ← emit op (sized_bp_rel (pos 4) adr) (imm (pos (value % 2 ^ 32))) a
  w ← bp_relative (adr +ℤ pos 4)
  c ← emit op (sized_bp_rel (pos 4) (adr +ℤ pos 4)) (imm (pos (value / 2 ^ 32 % 2 ^ 32))) b
  ok (false, c)

-- The other operations.
unfoldable pub set_variable : Mnemonic → ℤ → ℤ → ℕ → Asm → Failable
unfolding emit bp_relative set_halves
set_variable op size adr value a =
    if ltb 0x7FFF_FFFF value
    then (if is_mov op then (set_halves op adr value a) else ok (true, a))
    else (bp_relative adr >>= λ v. emit op (sized_bp_rel size adr) (imm (pos value)) a >>= no_error)

abbrev assign_variable : ℤ → ℤ → ℕ → Asm → Option Mnemonic → Failable
assign_variable adr size value a none = ok (true, a)
assign_variable adr size value a (some i) =
    if is_idiv i
    then modify_variable (instr Lines.op_cqo blank blank ∷ instr Lines.op_idiv (reg rcx) blank ∷ [])
        rcx size adr value a
    else if is_imul i
    then modify_variable (instr Lines.op_imul (reg rbx) blank ∷ []) rbx size adr value a
    else set_variable i size adr value a

-- `EmitAssignVariableConstInt`; the value is a `uint64`.
unfoldable pub emit_assign_variable_const_int : Token → ℤ → ℤ → ℕ → Asm → Failable
unfolding token_op modify_variable set_variable
emit_assign_variable_const_int op adr size value a = assign_variable adr size value a (token_op op)
