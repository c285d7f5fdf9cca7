-- ===== src/Code/Lines.antt =====
-- The lines of assembly that the compiler writes. A line stands for its text: `emit` formats an
-- instruction, with a comment that the model drops.
use jkvlang.Prelude.{ℕ, Text}
use jkvlang.Prelude.Int.{ℤ}

pub data Mnemonic : Type 0 where
  op_push op_pop op_mov op_movzx op_movsx op_lea op_xchg : Mnemonic
  op_add op_sub op_mul op_imul op_div op_idiv op_cqo op_neg op_dec op_mod : Mnemonic
  op_and op_or op_xor op_not op_andnot op_shl op_shr op_cmp : Mnemonic
  op_jmp op_jz op_jnz op_je op_jne op_ja op_jbe op_jae op_jb op_jg op_jle op_jge op_jl : Mnemonic
  op_call op_leave op_ret op_cld op_repe op_rep op_cmovz : Mnemonic
  op_movq op_movd op_inc : Mnemonic
  -- The empty text.
  op_empty : Mnemonic
  -- `adds`, `subs`, `muls`, `divs`, with the size of the operands in bits.
  op_fadd op_fsub op_fmul op_fdiv : ℕ → Mnemonic
  op_ucomisd op_ucomiss op_cvtsi2sd op_cvtss2sd op_cvtsi2ss : Mnemonic

pub data Register : Type 0 where
  rax rbx rcx rdx rsp rbp rsi rdi r12 r13 r14 r15 : Register
  eax ebx ecx ax al cl r12d r14d : Register

pub data Operand : Type 0 where
  blank : Operand
  reg : Register → Operand
  xmm : ℕ → Operand
  -- A decimal number.
  imm : ℤ → Operand
  -- `rax, 5`
  rax_imm : ℤ → Operand
  -- `[rbp-8]`, and the same behind the name of a data type of that many bytes.
  bp_rel : ℤ → Operand
  sized_bp_rel : ℤ → ℤ → Operand
  -- `[rdi+8]`, behind the name of a data type of that many bytes, or none for 0.
  at : ℤ → Register → ℤ → Operand
  -- `.L5`
  label_ref : ℕ → Operand
  -- The label of a literal, such as `str3`, and its contents, `[f64_3]`.
  literal literal_at dword_literal_at : Text → ℕ → Operand
  -- Any other text.
  symbol : Text → Operand

pub data Line : Type 0 where
  instr : Mnemonic → Operand → Operand → Line
  label : ℕ → Line
  raw : Text → Line
