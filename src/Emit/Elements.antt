-- ===== src/Emit/Elements.antt =====
-- emit_nasm.go: addresses of characters and elements that are changed, and elements that are loaded.
use jkvlang.Prelude.{
  ℕ, ◌+◌, ◌*◌, Bool, true, false, ◌||◌, [], ◌∷◌, Text, codes, text_eq, ltb, ◌==◌, if◌then◌else◌,
}
use jkvlang.Prelude.Outcomes.{Outcome, ok, panic, ◌>>=◌}
use jkvlang.Prelude.Int.{ℤ, pos, negsuc, ◌+ℤ◌, neg_ℕ}
use jkvlang.Code.Lines
use jkvlang.Code.Lines.{
  Mnemonic, Register, Operand, Line, instr, label, blank, reg, imm, xmm, bp_rel, sized_bp_rel, at,
  label_ref, literal, literal_at, dword_literal_at, symbol, rax, rbx, rcx, rdx, rsp, rbp, rsi, rdi,
  r12, r13, r14, r15, eax, ebx, ecx, ax, al, cl, r12d, r14d,
}
use jkvlang.Code.Asm.{Asm, set_ax, new_label}
use jkvlang.Emit.Instr.{emit, emit_all, emit_flush_rax, emit_assert_tos_in_rax, bp_relative}
use jkvlang.Emit.AssignInts.{emit_load_indirect_ax}
use jkvlang.Emit.Objects.{emit_copy_string_to_ram}
use jkvlang.Emit.Values.{bracket}

unfoldable pub emit_modify_const_indexed_char_indirect : ℤ → Asm → Outcome Asm
unfolding emit_all emit_copy_string_to_ram
emit_modify_const_indexed_char_indirect offset a = do
  b ←
      emit_all
        (instr Lines.op_push (reg rax) blank
          ∷ instr Lines.op_mov (reg rax) (at (pos 0) rax (pos 0))
          ∷ [])
        a
  c ← emit_copy_string_to_ram b
  emit_all
      (instr Lines.op_pop (reg rdi) blank
        ∷ instr Lines.op_mov (at (pos 0) rdi (pos 0)) (reg rax)
        ∷ instr Lines.op_add (reg rax) (imm offset)
        ∷ instr Lines.op_add (reg rax) (imm (pos 8))
        ∷ [])
      c

unfoldable pub emit_modify_const_indexed_char : ℤ → ℤ → Asm → Outcome Asm
unfolding emit_all emit_flush_rax emit_copy_string_to_ram bp_relative set_ax
emit_modify_const_indexed_char adr offset a = do
  b ← emit_flush_rax a
  v ← bp_relative adr
  c ← emit_all (instr Lines.op_mov (reg rax) v ∷ []) b
  d ← emit_copy_string_to_ram c
  e ←
      emit_all
        (instr Lines.op_mov v (reg rax) ∷ instr Lines.op_add (reg rax) (imm (offset +ℤ pos 8)) ∷ [])
        d
  ok (set_ax e)

unfoldable pub emit_modify_indexed_char_indirect : Asm → Outcome Asm
unfolding emit_all emit_flush_rax emit_copy_string_to_ram
emit_modify_indexed_char_indirect a = do
  b ← emit_flush_rax a
  c ←
      emit_all
        (instr Lines.op_mov (reg rax) (at (pos 0) rsp (pos 8))
          ∷ instr Lines.op_mov (reg rax) (at (pos 0) rax (pos 0))
          ∷ [])
        b
  d ← emit_copy_string_to_ram c
  emit_all
      (instr Lines.op_mov (reg rbx) (at (pos 0) rsp (pos 8))
        ∷ instr Lines.op_mov (at (pos 0) rbx (pos 0)) (reg rax)
        ∷ instr Lines.op_add (reg rax) (at (pos 0) rsp (pos 0))
        ∷ instr Lines.op_add (reg rax) (imm (pos 8))
        ∷ instr Lines.op_add (reg rsp) (imm (pos 8))
        ∷ instr Lines.op_mov (at (pos 0) rsp (pos 0)) (reg rax)
        ∷ [])
      d

unfoldable pub emit_modify_indexed_char : ℤ → Asm → Outcome Asm
unfolding emit_all emit_copy_string_to_ram bp_relative
emit_modify_indexed_char adr a = do
  v ← bp_relative adr
  b ← emit_all (instr Lines.op_push (reg rax) blank ∷ instr Lines.op_mov (reg rax) v ∷ []) a
  c ← emit_copy_string_to_ram b
  emit_all
      (instr Lines.op_mov v (reg rax)
        ∷ instr Lines.op_pop (reg rbx) blank
        ∷ instr Lines.op_add (reg rax) (reg rbx)
        ∷ instr Lines.op_add (reg rax) (imm (pos 8))
        ∷ [])
      c

-- The offset of an element behind the length and the capacity.
abbrev pub element_offset : ℤ → ℕ → ℤ
element_offset (pos n) size = pos (n * size + 8)
element_offset (negsuc n) size = neg_ℕ ((n + 1) * size) +ℤ pos 8

unfoldable pub emit_modify_const_indexed_slice : ℤ → ℕ → ℕ → Asm → Outcome Asm
unfolding emit_all new_label
emit_modify_const_indexed_slice offset size return_lbl a = do
  b ←
      emit_all
        (instr Lines.op_mov (reg rsi) (at (pos 0) rax (pos 0))
          ∷ instr Lines.op_mov (reg eax) (at (pos 4) rsi (pos 0))
          ∷ instr Lines.op_cmp (reg eax) (imm offset)
          ∷ [])
        a
  let (lbl, c) = new_label b
  emit_all
      (instr Lines.op_jg (label_ref lbl) blank
        ∷ instr Lines.op_mov (reg r15) (imm (pos 96))
        ∷ instr Lines.op_jmp (label_ref return_lbl) blank
        ∷ label lbl
        ∷ instr Lines.op_add (reg rsi) (imm (element_offset offset size))
        ∷ instr Lines.op_mov (reg rax) (reg rsi)
        ∷ [])
      c

-- `ShiftFromSize`, of expression.go.
unfoldable pub shift_from_size : ℕ → Outcome ℕ
shift_from_size size =
    if size == 1
    then ok 0
    else if size == 2
    then ok 1
    else if size == 4
    then ok 2
    else if size == 8
    then ok 3
    else panic

unfoldable pub emit_modify_indexed_slice : ℕ → Asm → Outcome Asm
unfolding emit_all shift_from_size
emit_modify_indexed_slice size a = do
  n ← shift_from_size size
  emit_all
      (instr Lines.op_mov (reg rax) (at (pos 0) rax (pos 0))
        ∷ instr Lines.op_add (reg rax) (imm (pos 8))
        ∷ instr Lines.op_pop (reg rbx) blank
        ∷ instr Lines.op_shl (reg rbx) (imm (pos n))
        ∷ instr Lines.op_add (reg rax) (reg rbx)
        ∷ [])
      a

-- The two global variables that hold a pointer to the heap.
abbrev is_allocated : Text → Bool
is_allocated id = text_eq id (codes "args") || text_eq id (codes "envs")

abbrev base_of : Text → Operand
base_of id = if is_allocated id then symbol (bracket id) else symbol id

unfoldable pub emit_global_indexed_by_const_value : Text → ℕ → ℤ → Asm → Outcome Asm
unfolding emit emit_load_indirect_ax set_ax
emit_global_indexed_by_const_value id size index a = do
  b ← emit Lines.op_mov (reg rax) (base_of id) a
  c ← emit Lines.op_add (reg rax) (imm (element_offset index size)) b
  r ← emit_load_indirect_ax rax (pos size) c
  ok (set_ax r.1)

-- The index in rax, times the size of an element.
unfoldable scale : ℕ → Asm → Outcome Asm
unfolding emit
scale size a =
    let scaled = emit Lines.op_imul (reg rax) (imm (pos size)) a in
    if ltb 1 size then scaled else ok a

unfoldable pub emit_global_indexed_tos_value : Text → ℕ → Asm → Outcome Asm
unfolding emit emit_assert_tos_in_rax emit_load_indirect_ax scale set_ax
emit_global_indexed_tos_value id size a = do
  b ← emit_assert_tos_in_rax a
  c ← scale size b
  d ← emit Lines.op_add (reg rax) (imm (pos 8)) c
  e ← emit Lines.op_add (reg rax) (base_of id) d
  r ← emit_load_indirect_ax rax (pos size) e
  ok (set_ax r.1)

-- The four cases of `LoadIndexedValue`: an index on the stack or a constant one, into a local
-- variable or behind a pointer.
unfoldable pub index_code : Bool → Bool → ℤ → ℤ → ℕ → Asm → Outcome Asm
unfolding emit_all emit_assert_tos_in_rax bp_relative new_label scale
index_code false false adr index size a = do
  b ← emit_assert_tos_in_rax a
  v ← bp_relative adr
  c ← emit_all (instr Lines.op_mov (reg rbx) v ∷ []) b
  d ← scale size c
  emit_all
      (instr Lines.op_add (reg rax) (imm (pos 8)) ∷ instr Lines.op_add (reg rax) (reg rbx) ∷ []) d
index_code false true adr index size a = do
  v ← bp_relative adr
  emit_all
      (instr Lines.op_mov (reg rax) v
        ∷ instr Lines.op_add (reg rax) (imm (element_offset index size))
        ∷ [])
      a
index_code true false adr index size a = do
  b ← emit_assert_tos_in_rax a
  c ← emit_all (instr Lines.op_pop (reg rbx) blank ∷ instr Lines.op_or (reg rbx) (reg rbx) ∷ []) b
  let (lbl, d) = new_label c
  e ←
      emit_all
        (instr Lines.op_jnz (label_ref lbl) blank
          ∷ instr Lines.op_mov (reg r15) (imm (pos 105))
          ∷ label lbl
          ∷ [])
        d
  f ← scale size e
  emit_all
      (instr Lines.op_add (reg rax) (imm (pos 8)) ∷ instr Lines.op_add (reg rax) (reg rbx) ∷ []) f
index_code true true adr index size a = do
  b ← emit_assert_tos_in_rax a
  v ← bp_relative adr
  emit_all
      (instr Lines.op_mov (reg rbx) v
        ∷ instr Lines.op_add (reg rax) (imm (element_offset index size))
        ∷ [])
      b

unfoldable pub load_indexed_value : Bool → Bool → ℤ → ℤ → ℕ → Asm → Outcome Asm
unfolding index_code emit_load_indirect_ax set_ax
load_indexed_value is_indirect is_const adr index size a = do
  b ← index_code is_indirect is_const adr index size a
  r ← emit_load_indirect_ax rax (pos size) (set_ax b)
  ok r.1
