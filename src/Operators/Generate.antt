-- ===== src/Operators/Generate.antt =====
-- ops.go: operations with an operand on the stack, and `GenerateOp`, which tells the four cases
-- apart.
use jkvlang.Prelude.{Bool, true, false, not, ◌&&◌, ◌||◌, Option, none, some, if◌then◌else◌}
use jkvlang.Prelude.Outcomes.{Outcome, ok, panic, ◌>>=◌}
use jkvlang.Prelude.Int.{ℤ, pos, negsuc, ◌+ℤ◌, ltb_ℤ}
use jkvlang.Prelude.Int64.{wrap_int}
use jkvlang.Prelude.Floats.{Floats}
use jkvlang.Token.Kind
use jkvlang.Token.Kind.{Token, is_compare, is_arithmetic}
use jkvlang.Code.Types
use jkvlang.Code.Types.{PrimaryType, type_eq, is_integer, is_number}
use jkvlang.TypeDefs.Defs.{TypeDef, pt, builtin, bool_type, f32_type}
use jkvlang.TypeDefs.Assign.{str_to_const, or_zero}
use jkvlang.Values.Defs.{ValueDef, value_of, no_value}
use jkvlang.Emit.Instr.{emit_assert_tos_in_rax, emit_push_const}
use jkvlang.Emit.Ops.{
  emit_compare_integers, emit_compare_int_const, emit_compare_int_const64, emit_integer_op,
  emit_op_int_const, inverse,
}
use jkvlang.Emit.Strings.{emit_compare_str_to_lit, emit_compare_strings_eq, emit_compare_strings_ne}
use jkvlang.Emit.Concat.{emit_concat}
use jkvlang.Emit.Floats.{
  Gen, Generated, lift, lift_ok, emit_f64_op, emit_f32_op, emit_compare_f64, emit_compare_f32,
  emit_op_f64_const, emit_op_f32_const, emit_compare_f64_const, emit_compare_f32_const,
}
use jkvlang.Operators.Folding.{Operation, type_from_const_value, generate_const_op_const}

abbrev is_plus : Token → Bool
is_plus Kind.tok_plus = true
is_plus op = false

-- Both types are the given one.
abbrev both : PrimaryType → PrimaryType → PrimaryType → Bool
both t p q = type_eq p t && type_eq q t

-- An operation, and the state behind it.
abbrev pub Result : Type 0 → Type 0
Result F = Outcome (Operation × Gen F)

abbrev bool_result : Option ValueDef
bool_result = some (value_of (some bool_type))

-- The value that a float operation returns is the operand of the wider type.
abbrev float_result : PrimaryType → PrimaryType → ValueDef → ValueDef → ValueDef
float_result p q v w =
    if type_eq p Types.typ_f64
    then v
    else if type_eq q Types.typ_f64
    then w
    else if type_eq p Types.typ_f32
    then v
    else if type_eq q Types.typ_f32
    then w
    else v

-- The operands in the other order.
abbrev pub exchanged : Operation → Operation
exchanged r = record r { left = r.right; right = r.left }

module _ {F : Type 0} where
  -- The return of a value, with the error of the code before it.
  abbrev pub return_with : ValueDef → ValueDef → Option ValueDef → Generated F → Result F
  return_with v w r m = m >>= λ s. ok (record { value = r; failed = s.0; left = v; right = w }, s.1)

  -- The return of an error.
  abbrev refuse : ValueDef → ValueDef → Option ValueDef → Gen F → Result F
  refuse v w r g = ok (record { value = r; failed = true; left = v; right = w }, g)

  unfoldable pub compare_strings : Token → ValueDef → ValueDef → Gen F → Result F
  compare_strings Kind.tok_eq v w g =
      return_with v w bool_result (lift_ok (emit_compare_strings_eq v.is_temp_obj w.is_temp_obj) g)
  compare_strings Kind.tok_ne v w g =
      return_with v w bool_result (lift_ok (emit_compare_strings_ne v.is_temp_obj w.is_temp_obj) g)
  compare_strings op v w g = refuse v w none g

  -- A comparison of the two entries, of the types `p` and `q`.
  unfoldable pub compare_entries :
      Token → ValueDef → ValueDef → PrimaryType → PrimaryType → Gen F → Result F
  compare_entries op v w p q g =
      if is_integer p && is_integer q
      then return_with v w bool_result (lift (emit_compare_integers op false) g)
      else if both Types.typ_f64 p q
      then return_with v w bool_result (lift (emit_compare_f64 op) g)
      else if both Types.typ_f32 p q
      then return_with v w bool_result (lift (emit_compare_f32 op) g)
      else if both Types.typ_string p q
      then compare_strings op v w g
      else refuse v w none g

  unfoldable pub return_float :
      PrimaryType → PrimaryType → ValueDef → ValueDef → Bool × Gen F → Result F
  return_float p q v w (true, g) = refuse v w none g
  return_float p q v w (false, g) =
      ok (record { value = some (float_result p q v w); failed = false; left = v; right = w }, g)

  unfoldable pub combine_entries :
      Token → ValueDef → ValueDef → PrimaryType → PrimaryType → Gen F → Result F
  combine_entries op v w p q g =
      if is_integer p && (is_integer q || type_eq q Types.typ_bool)
      then return_with v w (some v) (lift_ok (emit_integer_op op) g)
      else if both Types.typ_string p q && is_plus op
      then return_with v w (some v) (lift_ok (emit_concat v.is_temp_obj w.is_temp_obj) g)
      else if type_eq p Types.typ_f64 || type_eq q Types.typ_f64
      then (lift (emit_f64_op op p q) g >>= return_float p q v w)
      else if type_eq p Types.typ_f32 || type_eq q Types.typ_f32
      then (lift (emit_f32_op op p q) g >>= return_float p q v w)
      else refuse v w none g

  unfoldable pub tos_op_nos_typed :
      Token → ValueDef → ValueDef → Option TypeDef → Option TypeDef → Gen F → Result F
  tos_op_nos_typed op v w (some t) (some u) g =
      if is_compare op
      then compare_entries op v w (pt t) (pt u) g
      else if is_arithmetic op
      then combine_entries op v w (pt t) (pt u) g
      else refuse v w none g
  tos_op_nos_typed op v w t u g = refuse v w (some no_value) g

  unfoldable pub generate_tos_op_nos : Token → ValueDef → ValueDef → Gen F → Result F
  generate_tos_op_nos op v w g = emit_assert_tos_in_rax g.asm >>= λ b.
      tos_op_nos_typed op v w v.typ w.typ (record g { asm = b })

module _ (fl : Floats) where
  open fl use {F, plus, to_f32, to_int}

  -- The code that loads the top of the stack before a float is compared.
  unfoldable pub loaded : (Gen F → Generated F) → Gen F → Generated F
  loaded m g = lift_ok emit_assert_tos_in_rax g >>= λ s. m s.1

  -- A comparison of an entry of type `p` with a constant of type `q` and value `f2`.
  unfoldable pub compare_constant :
      Token → ValueDef → ValueDef → PrimaryType → PrimaryType → F → Gen F → Generated F
  compare_constant op v w p q f2 g =
      if both Types.typ_u64 p q || type_eq q Types.typ_i64
      then lift (emit_compare_int_const64 op w.string_value true) g
      else if is_integer p && is_integer q
      then lift (emit_compare_int_const op (to_int f2) false) g
      else if both Types.typ_f64 p q
      then loaded (emit_compare_f64_const fl op f2) g
      else if both Types.typ_f32 p q
      then loaded (emit_compare_f32_const fl op (to_f32 f2)) g
      else if type_eq p Types.typ_f32 && type_eq q Types.typ_f64
      then loaded (emit_compare_f32_const fl op (to_f32 f2)) g
      else if both Types.typ_string p q
      then lift (emit_compare_str_to_lit op w.string_value w.string_lit_no v.is_temp_obj) g
      else if both Types.typ_bool p q
      then lift (emit_compare_int_const op (to_int f2) false) g
      else ok (true, g)

  -- A constant that needs more than 31 bits goes to the stack.
  unfoldable pub large_constant : Token → ℤ → ValueDef → ValueDef → Gen F → Result F
  large_constant op x v w g = lift_ok (emit_push_const x) g >>= λ s.
      generate_tos_op_nos op w w s.1 >>= λ r.
      ok (record { value = some (value_of w.typ); failed = r.0.failed; left = v; right = w }, r.1)

  unfoldable pub number_constant : Token → PrimaryType → F → Gen F → Generated F
  number_constant op p f g =
      if type_eq p Types.typ_f64
      then emit_op_f64_const fl op f g
      else if type_eq p Types.typ_f32
      then emit_op_f32_const fl op (to_f32 f) g
      else ok (false, g)

  unfoldable pub combine_constant :
      Token → ValueDef → ValueDef → PrimaryType → PrimaryType → F → F → Gen F → Result F
  combine_constant op v w p q f1 f2 g =
      let x = wrap_int (to_int f2 +ℤ to_int f1) in
      if is_integer p && is_integer q
      then (if ltb_ℤ (pos 0x7FFF_FFFF) x || ltb_ℤ x (negsuc 0x7FFF_FFFE)
          then large_constant op x v w g
          else return_with v w (some (value_of v.typ)) (lift (emit_op_int_const op x) g))
      else if is_number p && is_number q
      then return_with v w (some (value_of v.typ)) (number_constant op p (plus f1 f2) g)
      else refuse v w none g

  unfoldable pub constant_typed :
      Token → ValueDef → ValueDef → F → F → PrimaryType → Option TypeDef → Gen F → Result F
  constant_typed op v w f1 f2 p none g = refuse v w (some no_value) g
  constant_typed op v w f1 f2 p (some u) g =
      let w' = record w { typ = some u } in
      if is_compare op
      then return_with v w' bool_result (compare_constant op v w' p (pt u) f2 g)
      else if is_arithmetic op
      then combine_constant op v w' p (pt u) f1 f2 g
      else refuse v w' (some no_value) g

  unfoldable pub known_type : ValueDef → Option TypeDef → Outcome (Option TypeDef)
  known_type w (some u) = ok (some u)
  known_type w none = type_from_const_value fl w

  unfoldable pub tos_op_const_typed :
      Token → ValueDef → ValueDef → F → F → Option TypeDef → Gen F → Result F
  tos_op_const_typed op v w f1 f2 none g = refuse v w (some no_value) g
  tos_op_const_typed op v w f1 f2 (some t) g =
      known_type w w.typ >>= λ u. constant_typed op v w f1 f2 (pt t) u g

  -- `generateTosOpConst`: `w` is the constant.
  unfoldable pub generate_tos_op_const : Token → ValueDef → ValueDef → Gen F → Result F
  generate_tos_op_const op v w g =
      tos_op_const_typed (if v.is_const then inverse op else op) v w
        (or_zero fl (str_to_const fl v.string_value)) (or_zero fl (str_to_const fl w.string_value))
        v.typ g

  -- `val2.Typ` of a constant of type F64 beside an F32 operand.
  unfoldable pub narrowed : TypeDef → Option TypeDef → Outcome (Option TypeDef)
  narrowed t none = if type_eq (pt t) Types.typ_f32 then panic else ok none
  narrowed t (some u) =
      ok (
        some (if type_eq (pt t) Types.typ_f32 && type_eq (pt u) Types.typ_f64 then f32_type else u))

  unfoldable pub second_type : TypeDef → ValueDef → Option TypeDef → Outcome (Option TypeDef)
  second_type t w (some u) = ok (some u)
  second_type t w none = type_from_const_value fl w >>= narrowed t

  -- The four cases, with the top of the stack in rax for three of them.
  unfoldable pub dispatch : Token → ValueDef → ValueDef → Gen F → Result F
  dispatch op v w g =
      let loaded_gen = lift_ok emit_assert_tos_in_rax g in
      if v.is_const && w.is_const
      then (generate_const_op_const fl op v w >>= λ r. ok (r, g))
      else if w.is_const
      then (loaded_gen >>= λ s. generate_tos_op_const op v w s.1)
      else if v.is_const
      then (loaded_gen >>= (λ s. generate_tos_op_const (inverse op) w v s.1) >>= λ r.
          ok (exchanged r.0, r.1))
      else (loaded_gen >>= λ s. generate_tos_op_nos op v w s.1)

  -- `same` is the equality of pointers to types.
  module _ (same : TypeDef → TypeDef → Bool) where
    unfoldable pub op_typed :
        Token → ValueDef → ValueDef → TypeDef → Option TypeDef → Gen F → Result F
    op_typed op v w t none g = refuse v w (some no_value) g
    op_typed op v w t (some u) g =
        let w' = record w { typ = some u } in
        if not (builtin t) && not (builtin u) && not (same t u)
        then refuse v w' (some no_value) g
        else dispatch op v w' g

    unfoldable pub op_first : Token → ValueDef → ValueDef → Option TypeDef → Gen F → Result F
    op_first op v w none g = refuse v w (some no_value) g
    op_first op v w (some t) g =
        second_type t w w.typ >>= λ u. op_typed op (record v { typ = some t }) w t u g

    -- `GenerateOp`
    unfoldable pub generate_op : Token → ValueDef → ValueDef → Gen F → Result F
    generate_op op v w g = known_type v v.typ >>= λ t. op_first op v w t g
