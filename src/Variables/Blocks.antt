-- ===== src/Variables/Blocks.antt =====
-- `FreeBlockVarsNoDelete`: a jump out of a block takes its variables off the stack of the program,
-- and the compiler still counts them.
use jkvlang.Prelude.{ℕ, zero, suc, ◌+◌, ◌*◌, ◌≡◌, refl, some, arith}
use jkvlang.Prelude.Outcomes.{Returns, Returns-bind}
use jkvlang.Prelude.Int.{ℤ, pos, negsuc, ◌+ℤ◌, ◌-ℤ◌, int_laws}
use jkvlang.Code.Lines
use jkvlang.Code.Lines.{reg, imm, rsp}
use jkvlang.Code.Asm.{Asm}
use jkvlang.Emit.Instr.{sp_change, stack_change, emit_add_to_sp}
use jkvlang.Emit.Balance.{Moved, Moves, emit-Moves}
use jkvlang.Variables.Defs.{VarTable, count_level}
use jkvlang.Variables.Free.{no_delete, free_block_vars_no_delete}

words_by_8 :
    (k : ℕ)
    → sp_change Lines.op_add (reg rsp) (imm (pos ((k + 1) * 8))) ≡ some (pos 0 -ℤ pos (k + 1))
unfolding sp_change stack_change
words_by_8 k = ground arith

drop-Moves : (k : ℕ) → Moves (pos 0 -ℤ pos (k + 1)) (emit_add_to_sp (negsuc k))
unfolding emit_add_to_sp
drop-Moves k = emit-Moves Lines.op_add (reg rsp) (imm (pos ((k + 1) * 8))) _ (words_by_8 k)

put_back : (x : ℤ) (k : ℕ) → (x +ℤ (pos 0 -ℤ pos (k + 1))) +ℤ pos (suc k) ≡ x
put_back x k = grind int_laws

-- `FreeBlockVarsNoDelete` returns, for every level, and leaves the table of variables and `LocalSp`
-- as they are.
pub free_block_vars_no_delete-same :
    (level : ℕ) (vars : VarTable) (a : Asm)
    → Returns
        (λ s. (s.0 ≡ vars) × (s.1.local_sp ≡ a.local_sp))
        (free_block_vars_no_delete level (vars, a))
unfolding free_block_vars_no_delete
free_block_vars_no_delete-same level vars a = by_count (count_level level vars)
  where
    by_count :
        (n : ℕ) → Returns (λ s. (s.0 ≡ vars) × (s.1.local_sp ≡ a.local_sp)) (no_delete n vars a)
    by_count zero = (refl, refl)
    by_count (suc k) =
        Returns-bind (Moved (pos 0 -ℤ pos (k + 1)) a) _ (emit_add_to_sp (negsuc k) a) _
          (drop-Moves k a) (λ b h. (refl, rw h (put_back a.local_sp k)))
