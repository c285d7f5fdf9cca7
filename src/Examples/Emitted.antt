-- ===== src/Examples/Emitted.antt =====
-- The tables of types and literals, the emitter, the loops and the layouts, at concrete inputs.
use mathlib.Core.List.{Perm}
use mathlib.Core.List.Perm
use jkvlang.Prelude.{
  ◌+◌, ◌-◌, ◌%◌, ◌↔◌, ℕ, ◌≡◌, ◌≤◌, refl, true, false, List, [], ◌∷◌, map, Text, codes, none, some,
  if◌then◌else◌, get_elem?, arith, ◌<◌, ◌&&◌,
}
use jkvlang.Prelude.Outcomes.{Returns}
use jkvlang.Prelude.Int.{pos, negsuc, leb_ℤ}
use jkvlang.Token.Kind.{tok_eof}
use jkvlang.Code.Types
use jkvlang.Code.Asm.{Asm, undef, write, cons_arg_code, output_cleanup_code, concat, backwards}
use jkvlang.TypeDefs.Defs.{pt, TypeDef, i32_type, u8_type}
use jkvlang.TypeDefs.Assign.{can_assign, str_to_const}
use jkvlang.TypeDefs.Assign.Laws.{var_assignable, can_assign-const_range, can_assign-var_assignable}
use jkvlang.Values.Defs.{ValueDef, value_of}
use jkvlang.Values.Literals.{add_literal}
use jkvlang.Values.Literals.Laws.{add_literal_lem}
use jkvlang.Token.Kind
use jkvlang.Token.Kind.{is_compare, token_eq, token_index}
use jkvlang.Code.Asm
use jkvlang.Emit.Ops.{emit_integer_op, emit_compare_integers, inverse}
use jkvlang.Emit.Machine.{word}
use jkvlang.Emit.Correct.{Computes, emit_integer_op-Computes}
use jkvlang.Emit.Compare.{ordered, holds, emit_compare_integers-Computes, inverse-holds}
use jkvlang.Emit.Ops.{emit_op_int_const}
use jkvlang.Emit.Machine.{to_word}
use jkvlang.Emit.Consts.{Changes, emit_op_int_const-Changes}
use jkvlang.Loops.{
  push_loop_block, loop_level, get_loop_start_label, get_loop_exit_label, get_loop_break_label,
}
use jkvlang.Loops.Nesting
use jkvlang.Loops.Nesting.{Nested, push_loop, Reachable-Nested, Reachable-zero}
use jkvlang.Compare.{equal, files_are_equal}
use jkvlang.Compare.Correct.{lines, files_are_equal-lines}
use jkvlang.Structs.{lay_out}
use jkvlang.Structs.Fields.{field}
use jkvlang.Structs.Layout.{IsMultiple, Packed, lay_out-Packed}
use jkvlang.Examples.Go.{int_floats, int_floats-ReadsIntegers}
use jkvlang.Examples.Runs.{two_args}

abbrev const_200 : ValueDef
const_200 = record (value_of (some i32_type)) { is_const = true; string_value = codes "200" }

can_assign-const_range_example :
    can_assign int_floats Types.typ_u8 Types.typ_i32 const_200
    ≡ (leb_ℤ (pos 0) (pos 200) && leb_ℤ (pos 200) (pos 255))
unfolding Types.type_eq str_to_const
can_assign-const_range_example =
    can_assign-const_range int_floats int_floats-ReadsIntegers Types.typ_u8 Types.typ_i32 const_200
      (pos 200) (pos 0) (pos 255) refl refl refl (omega arith, omega arith) refl

can_assign-var_assignable_example :
    can_assign int_floats Types.typ_u8 Types.typ_i64 (value_of none)
    ≡ var_assignable Types.typ_u8 Types.typ_i64
can_assign-var_assignable_example =
    can_assign-var_assignable int_floats int_floats-ReadsIntegers Types.typ_u8 Types.typ_i64
      (value_of none) refl refl

abbrev table : List Text
table = codes "a" ∷ codes "b" ∷ []

add_literal_lem_example :
    (get_elem? (add_literal (codes "b") table).0 (add_literal (codes "b") table).1
      ≡ some (codes "b"))
    × ((i : ℕ) (w : Text)
        → get_elem? table i ≡ some w
        → get_elem? (add_literal (codes "b") table).0 i ≡ some w)
    × (add_literal (codes "b") (add_literal (codes "b") table).0 ≡ add_literal (codes "b") table)
add_literal_lem_example = add_literal_lem (codes "b") table

abbrev two_numbers : Asm
two_numbers = record two_args { state = Asm.ax }

emit_integer_op-Computes_example :
    Returns
      (Computes two_numbers 7 9 ((7 + (word - 9)) % word))
      (emit_integer_op Kind.tok_minus two_numbers)
emit_integer_op-Computes_example =
    emit_integer_op-Computes Kind.tok_minus (λ x y. (x + (word - y)) % word) two_numbers 7 9 refl
      refl refl (omega arith) (omega arith)

emit_compare_integers-Computes_example :
    Returns
      (λ r.
        (r.0 ≡ false)
        × Computes two_numbers 7 9
            (if holds Kind.tok_lt (ordered false 7) (ordered false 9) then 1 else 0)
            r.1)
      (emit_compare_integers Kind.tok_lt false two_numbers)
unfolding is_compare token_eq token_index
emit_compare_integers-Computes_example =
    emit_compare_integers-Computes Kind.tok_lt false two_numbers 7 9 refl refl (omega arith)
      (omega arith)

inverse-holds_example :
    (is_compare (inverse Kind.tok_le) ≡ true)
    × (holds (inverse Kind.tok_le) 9 7 ≡ holds Kind.tok_le 7 9)
unfolding is_compare token_eq token_index
inverse-holds_example = inverse-holds Kind.tok_le 7 9 refl

emit_op_int_const-Changes_example :
    Returns
      (λ b. (b.0 ≡ false) × Changes two_numbers 7 ((to_word (negsuc 4) + (word - 7)) % word) b.1)
      (emit_op_int_const Kind.tok_inv_minus (negsuc 4) two_numbers)
emit_op_int_const-Changes_example =
    emit_op_int_const-Changes Kind.tok_inv_minus (λ y z. (z + (word - y)) % word) (negsuc 4)
      two_numbers 7 refl (omega arith) refl refl (omega arith)

in_loop : Nesting.Reachable (push_loop_block [] two_numbers).0 (push_loop_block [] two_numbers).1
in_loop = push_loop [] two_numbers (Nesting.start two_numbers)

Reachable-Nested_example :
    Nested (push_loop_block [] two_numbers).1.label_no (push_loop_block [] two_numbers).0
Reachable-Nested_example =
    Reachable-Nested (push_loop_block [] two_numbers).0 (push_loop_block [] two_numbers).1 in_loop

Reachable-zero_example :
    ((loop_level (push_loop_block [] two_numbers).0 ≡ 0)
      ↔ (get_loop_start_label (push_loop_block [] two_numbers).0 ≡ 0))
    × ((loop_level (push_loop_block [] two_numbers).0 ≡ 0)
        ↔ (get_loop_exit_label (push_loop_block [] two_numbers).0 ≡ 0))
    × ((loop_level (push_loop_block [] two_numbers).0 ≡ 0)
        ↔ (get_loop_break_label (push_loop_block [] two_numbers).0 ≡ 0))
Reachable-zero_example =
    Reachable-zero (push_loop_block [] two_numbers).0 (push_loop_block [] two_numbers).1 in_loop

files_are_equal-lines_example :
    Returns
      (λ v. (v ≡ equal) ↔ (lines (97 ∷ 10 ∷ 98 ∷ []) ≡ lines (97 ∷ 10 ∷ 99 ∷ [])))
      (files_are_equal (some (97 ∷ 10 ∷ 98 ∷ [])) (some (97 ∷ 10 ∷ 99 ∷ [])))
files_are_equal-lines_example = files_are_equal-lines (97 ∷ 10 ∷ 98 ∷ []) (97 ∷ 10 ∷ 99 ∷ [])

abbrev two_fields : List (Text × TypeDef)
two_fields = (codes "c", u8_type) ∷ (codes "x", i32_type) ∷ []

-- The order of the other loops.
abbrev exchanged : List (Text × TypeDef)
exchanged = (codes "x", i32_type) ∷ (codes "c", u8_type) ∷ []

lay_out-Packed_example :
    Perm (map field (lay_out two_fields exchanged two_fields two_fields).0) two_fields
    × ((last : ℕ) × Packed 0 last (lay_out two_fields exchanged two_fields two_fields).0
        × IsMultiple 8 (lay_out two_fields exchanged two_fields two_fields).1
        × (last ≤ (lay_out two_fields exchanged two_fields two_fields).1)
        × ((lay_out two_fields exchanged two_fields two_fields).1 < last + 8))
unfolding Types.type_size pt
lay_out-Packed_example =
    lay_out-Packed two_fields two_fields exchanged two_fields two_fields (Perm.refl two_fields)
      (Perm.swap (codes "c", u8_type) (codes "x", i32_type) []) (Perm.refl two_fields)
      (Perm.refl two_fields) (λ e. omega arith, (λ e. omega arith, tt)) (omega arith)
