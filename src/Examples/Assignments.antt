-- ===== src/Examples/Assignments.antt =====
-- The theorems on variables and assignments, at concrete inputs.
use jkvlang.Prelude.{◌+◌, ◌%◌, ◌≡◌, refl, true, false, codes, none, some, arith, text_eq}
use jkvlang.Prelude.Outcomes.{ok, Returns}
use jkvlang.Prelude.Int.{pos, negsuc, ◌-ℤ◌, ◌*ℤ◌}
use jkvlang.Token.Kind
use jkvlang.Code.Types.{type_eq, type_index, is_integer}
use jkvlang.Code.Lines.{bp_rel}
use jkvlang.TypeDefs.Defs.{pt, i32_type, i64_type, u8_type}
use jkvlang.TypeDefs.Assign.{can_assign, widens, str_to_const, contains, has_prefix}
use jkvlang.Values.Defs.{ValueDef, value_of}
use jkvlang.Emit.Instr.{bp_relative}
use jkvlang.Emit.Machine.{word}
use jkvlang.Emit.AssignInts.{emit_assign_variable_expression_int}
use jkvlang.Emit.Stores.{
  Stores, Divides, emit_assign_variable_expression_int-Stores,
  emit_assign_variable_expression_int-reversed,
}
use jkvlang.Variables.Defs.{
  VarDef, VarTable, var_of, init_var_defs, find_var, set_var, add_local_var, local_offset,
}
use jkvlang.Variables.Table.{start, then_var, then_change, Reachable-found}
use jkvlang.Variables.Assign.{generate_assignment}
use jkvlang.Variables.Free.{free_block_vars_no_delete}
use jkvlang.Variables.Blocks.{free_block_vars_no_delete-same}
use jkvlang.Variables.Checked.{generate_assignment-refuses, generate_assignment-Stores}
use jkvlang.Examples.Go.{int_floats, int_floats-ReadsIntegers}
use jkvlang.Examples.Operations.{in_rax, state, constant}

emit_assign_variable_expression_int-Stores_example :
    Returns
      (λ r. (r.0 ≡ false) × Stores in_rax (negsuc 7) (λ x y. (x + y) % word) 9 r.1)
      (emit_assign_variable_expression_int Kind.tok_plus_assign (pos 8) (negsuc 7) in_rax)
unfolding bp_relative
emit_assign_variable_expression_int-Stores_example =
    emit_assign_variable_expression_int-Stores Kind.tok_plus_assign (λ x y. (x + y) % word) in_rax
      (negsuc 7) 9 refl refl refl refl

emit_assign_variable_expression_int-reversed_example :
    Returns
      (λ r. (r.0 ≡ false) × Divides in_rax (negsuc 7) 100 7 r.1)
      (emit_assign_variable_expression_int Kind.tok_div_asgn (pos 8) (negsuc 7) in_rax)
unfolding bp_relative
emit_assign_variable_expression_int-reversed_example =
    emit_assign_variable_expression_int-reversed in_rax (negsuc 7) 100 7 refl refl (omega arith)
      (omega arith) (omega arith)

abbrev counter : VarTable
counter = (add_local_var 1 (pos 0) (codes "n") none init_var_defs).1

abbrev placed : VarDef
placed = record (var_of (codes "n") (some i64_type)) { block_level = 1; offset = negsuc 7 }

abbrev untyped : VarDef
untyped = record placed { typ = none }

-- The variable is added without a type, and gets it later.
abbrev typed_counter : VarTable
typed_counter = set_var (codes "n") placed counter

Reachable-found_example : bp_relative placed.offset ≡ ok (bp_rel placed.offset)
unfolding add_local_var init_var_defs find_var set_var local_offset ◌-ℤ◌ ◌*ℤ◌ text_eq
Reachable-found_example =
    Reachable-found typed_counter (codes "n") placed
      (then_change (codes "n") {v = untyped} placed (then_var (codes "n") none 1 (pos 0) start refl)
        refl refl refl)
      refl refl

abbrev byte_var : VarDef
byte_var = record (var_of (codes "b") (some u8_type)) { offset = negsuc 7 }

abbrev large : ValueDef
large = record (constant (codes "256")) { typ = some i32_type }

generate_assignment-refuses_example :
    Returns
      (λ r. (r.failed ≡ true) × (r.gen ≡ state))
      (generate_assignment int_floats Kind.tok_assign byte_var large state)
unfolding type_eq type_index pt str_to_const contains has_prefix
generate_assignment-refuses_example =
    generate_assignment-refuses int_floats int_floats-ReadsIntegers Kind.tok_assign byte_var large
      u8_type i32_type state (pos 256) (pos 0) (pos 255) refl refl refl refl refl
      (omega arith, omega arith) refl refl

generate_assignment-Stores_example :
    Returns
      (λ r. (r.failed ≡ false) × Stores state.asm (negsuc 7) (λ x y. (x + y) % word) 9 r.gen.asm)
      (generate_assignment int_floats Kind.tok_plus_assign placed (value_of (some i32_type)) state)
unfolding can_assign widens type_eq type_index is_integer pt bp_relative
generate_assignment-Stores_example =
    generate_assignment-Stores int_floats Kind.tok_plus_assign (λ x y. (x + y) % word) placed
      (value_of (some i32_type)) i32_type state 9 refl refl refl refl refl refl refl refl refl

free_block_vars_no_delete-same_example :
    Returns
      (λ s. (s.0 ≡ counter) × (s.1.local_sp ≡ in_rax.local_sp))
      (free_block_vars_no_delete 1 (counter, in_rax))
free_block_vars_no_delete-same_example = free_block_vars_no_delete-same 1 counter in_rax
