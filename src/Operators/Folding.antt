-- ===== src/Operators/Folding.antt =====
-- expression.go: `TypeFromConstValue` and `UpdateType`; ops.go: an operation on two constants.
use jkvlang.Prelude.{
  ℕ, Bool, true, false, ◌&&◌, ◌||◌, [], ◌∷◌, Text, codes, Option, none, some, ltb, leb,
  if◌then◌else◌,
}
use jkvlang.Prelude.Outcomes.{Outcome, ok, panic, ◌>>=◌}
use jkvlang.Prelude.Int.{ℤ, pos}
use jkvlang.Prelude.Int64.{
  quotient, remainder, int_and, int_and_not, int_or, int_xor, shift_left, shift_right,
}
use jkvlang.Prelude.Floats.{Floats}
use jkvlang.Token.Kind
use jkvlang.Token.Kind.{Token}
use jkvlang.Code.Types
use jkvlang.Code.Types.{type_eq, is_integer}
use jkvlang.TypeDefs.Defs.{
  TypeDef, pt, bool_type, string_type, i32_type, i64_type, u64_type, f64_type,
}
use jkvlang.TypeDefs.Assign.{contains, str_to_const, or_zero}
use jkvlang.Values.Defs.{ValueDef, value_of, no_value, bool_value, set_bool_value, widest}

-- The type of a constant with that many in its decimal digits.
abbrev type_of_uint : Option ℕ → Option TypeDef
type_of_uint none = none
type_of_uint (some x) =
    if ltb 0x7FFF_FFFF_FFFF_FFFF x
    then some u64_type
    else if ltb 0xFFFF_FFFF x
    then some i64_type
    else some i32_type

abbrev is_decimal_digit : ℕ → Bool
is_decimal_digit c = leb 48 c && leb c 57

-- A value without a text: its own type counts, and there must be one.
abbrev type_without_text : Option TypeDef → Outcome (Option TypeDef)
type_without_text none = panic
type_without_text (some t) = ok (if type_eq (pt t) Types.typ_bool then some bool_type else none)

-- What an operation returns: a value, or nil, whether there is an error, and the two operands, whose types it
-- may have set.
pub record Operation : Type 0 where
  pub value : Option ValueDef
  pub failed : Bool
  pub left : ValueDef
  pub right : ValueDef

module _ (fl : Floats) where
  open fl use {
    F, le, lt, plus, minus, times, over, abs, tiny, narrow, larger, of_int, to_int, to_uint, format,
    format_int, parse_uint,
  }

  -- `TypeFromConstValue`; `none` is an error.
  unfoldable pub type_from_const_value : ValueDef → Outcome (Option TypeDef)
  unfolding contains type_eq pt
  type_from_const_value v = elim (v.string_value) [
    | [] ↦ type_without_text v.typ
    | c ∷ cs ↦
        if contains (c ∷ cs) (codes ".")
        then ok (some f64_type)
        else if is_decimal_digit c
        then ok (type_of_uint (parse_uint (c ∷ cs)))
        else ok (some string_type)
  ]

  -- `UpdateType`: whether there is an error, and the value.
  unfoldable pub update_type : ValueDef → Outcome (Bool × ValueDef)
  unfolding type_from_const_value
  update_type v = elim (v.typ) [
    | some t ↦ ok (false, v)
    | none ↦
        type_from_const_value v
        >>= (λ t. elim t [ none ↦ ok (true, v) | some u ↦ ok (false, record v { typ = some u }) ])
  ]

  -- The result of a comparison or a logic operation.
  abbrev boolean : Bool → ValueDef → ValueDef
  boolean b r = set_bool_value b (record r { typ = some bool_type })

  abbrev number : Text → ValueDef → ValueDef
  number s r = record r { string_value = s }

  abbrev pub integer : Option ℤ → ValueDef → Outcome (Option ValueDef)
  integer none r = panic
  integer (some z) r = ok (some (number (format (of_int z)) r))

  abbrev pub divided : Option ℤ → ValueDef → Outcome (Option ValueDef)
  divided none r = panic
  divided (some z) r = ok (some (number (format_int z) r))

  abbrev pub shifted : Option ℕ → ValueDef → Outcome (Option ValueDef)
  shifted none r = panic
  shifted (some n) r = ok (some (number (format (of_int (pos n))) r))

  -- The relative difference of `==` and `!=`.
  abbrev difference : F → F → F
  difference f1 f2 = over (abs (minus f1 f2)) (larger (larger f1 f2) tiny)

  -- The switch of `generateConstOpConst`, with `r` the result so far, of type `t`; `none` is an
  -- operation that is refused.
  unfoldable pub fold_with :
      Token → TypeDef → ValueDef → ValueDef → F → F → ValueDef → Outcome (Option ValueDef)
  unfolding is_integer pt quotient remainder int_and int_and_not int_or int_xor shift_left
      shift_right bool_value set_bool_value
  fold_with Kind.tok_plus t v w f1 f2 r = ok (some (number (format (plus f1 f2)) r))
  fold_with Kind.tok_minus t v w f1 f2 r = ok (some (number (format (minus f1 f2)) r))
  fold_with Kind.tok_mult t v w f1 f2 r = ok (some (number (format (times f1 f2)) r))
  fold_with Kind.tok_div t v w f1 f2 r =
      if is_integer (pt t)
      then divided (quotient (to_int f1) (to_int f2)) r
      else ok (some (number (format (over f1 f2)) r))
  fold_with Kind.tok_mod t v w f1 f2 r = integer (remainder (to_int f1) (to_int f2)) r
  fold_with Kind.tok_and t v w f1 f2 r = integer (some (int_and (to_int f1) (to_int f2))) r
  fold_with Kind.tok_and_not t v w f1 f2 r = integer (some (int_and_not (to_int f1) (to_int f2))) r
  fold_with Kind.tok_or t v w f1 f2 r = integer (some (int_or (to_int f1) (to_int f2))) r
  fold_with Kind.tok_xor t v w f1 f2 r = integer (some (int_xor (to_int f1) (to_int f2))) r
  fold_with Kind.tok_shl t v w f1 f2 r = shifted (shift_left (to_uint f1) (to_int f2)) r
  fold_with Kind.tok_shr t v w f1 f2 r = integer (shift_right (to_int f1) (to_int f2)) r
  fold_with Kind.tok_log_or t v w f1 f2 r = ok (some (boolean (bool_value v || bool_value w) r))
  fold_with Kind.tok_log_and t v w f1 f2 r = ok (some (boolean (bool_value v && bool_value w) r))
  fold_with Kind.tok_eq t v w f1 f2 r = ok (some (boolean (lt (difference f1 f2) narrow) r))
  fold_with Kind.tok_ne t v w f1 f2 r = ok (some (boolean (lt narrow (difference f1 f2)) r))
  fold_with Kind.tok_lt t v w f1 f2 r = ok (some (boolean (lt f1 f2) r))
  fold_with Kind.tok_le t v w f1 f2 r = ok (some (boolean (le f1 f2) r))
  fold_with Kind.tok_gt t v w f1 f2 r = ok (some (boolean (lt f2 f1) r))
  fold_with Kind.tok_ge t v w f1 f2 r = ok (some (boolean (le f2 f1) r))
  fold_with op t v w f1 f2 r = ok none

  abbrev pub folded : ValueDef → ValueDef → Option ValueDef → Operation
  folded v w none = record { value = some no_value; failed = true; left = v; right = w }
  folded v w (some r) = record { value = some r; failed = false; left = v; right = w }

  -- The operands with the types found for them. A type that is missing is a nil pointer of
  -- `widest`.
  abbrev fold_typed :
      Token → ValueDef → ValueDef → F → F → Option TypeDef → Option TypeDef → Outcome Operation
  fold_typed op v w f1 f2 (some t) (some u) =
      let v' = record v { typ = some t } in
      let w' = record w { typ = some u } in
      let wide = (widest (v', t) (w', u)).1 in
      fold_with op wide v' w' f1 f2 (record (value_of (some wide)) { is_const = true }) >>= λ r.
      ok (folded v' w' r)
  fold_typed op v w f1 f2 t u = panic

  abbrev fold_parsed : Token → ValueDef → ValueDef → Option F → Outcome Operation
  fold_parsed op v w none = ok (record { value = none; failed = true; left = v; right = w })
  fold_parsed op v w (some f1) = do
    t ← type_from_const_value v
    u ← type_from_const_value w
    fold_typed op v w f1 (or_zero fl (str_to_const fl w.string_value)) t u

  -- `generateConstOpConst`. The error of the second operand's text is overwritten by that of its
  -- type.
  unfoldable pub generate_const_op_const : Token → ValueDef → ValueDef → Outcome Operation
  unfolding str_to_const type_from_const_value fold_with widest
  generate_const_op_const op v w = fold_parsed op v w (str_to_const fl v.string_value)
