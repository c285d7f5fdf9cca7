-- ===== src/TypeDefs/Assign.antt =====
-- types.go: `CanAssign`; expression.go: `StrToConst`.
pub mod Laws
use jkvlang.Prelude.{
  ℕ, Bool, true, false, not, ◌&&◌, ◌||◌, List, [], ◌∷◌, Text, codes, text_eq, Option, none, some,
  ltb, ◌==◌, if◌then◌else◌,
}
use jkvlang.Prelude.Outcomes.{Outcome, ok, panic}
use jkvlang.Prelude.Int.{ℤ, pos, neg_ℕ}
use jkvlang.Prelude.Floats.{Floats}
use jkvlang.Code.Types
use jkvlang.Code.Types.{PrimaryType, type_eq, type_index, is_integer}
use jkvlang.TypeDefs.Defs.{TypeDef, pt}
use jkvlang.Values.Defs.{ValueDef}

-- `strings.HasPrefix` and `strings.Contains`
unfoldable pub has_prefix : Text → Text → Bool
has_prefix s [] = true
has_prefix [] (y ∷ ys) = false
has_prefix (x ∷ xs) (y ∷ ys) = x == y && has_prefix xs ys

unfoldable pub contains : Text → Text → Bool
unfolding has_prefix
contains [] sub = has_prefix [] sub
contains (x ∷ xs) sub = has_prefix (x ∷ xs) sub || contains xs sub

module _ (fl : Floats) where
  open fl use {F, le, of_int, parse_uint, parse_float}

  -- `StrToConst`: `none` is its error.
  unfoldable pub str_to_const : Text → Option F
  unfolding contains
  str_to_const s =
      if contains s (codes "0x")
      then (elim (parse_uint s) [ none ↦ none | some n ↦ some (of_int (pos n)) ])
      else parse_float s

  -- `f >= lo && f <= hi`
  unfoldable pub within : ℤ → ℤ → F → Bool
  within lo hi f = le (of_int lo) f && le f (of_int hi)

  -- The ranges of a constant `f` of type `src`.
  unfoldable pub can_assign_const : PrimaryType → PrimaryType → F → Bool
  unfolding type_eq
  can_assign_const dst src f =
      (type_eq dst Types.typ_u8 && within (pos 0) (pos 255) f)
      || (type_eq dst Types.typ_f32 && type_eq src Types.typ_f64)
      || (type_eq dst Types.typ_i16 && within (neg_ℕ 32768) (pos 32767) f)
      || (type_eq dst Types.typ_u16 && within (neg_ℕ 65535) (pos 65535) f)
      || (type_eq dst Types.typ_i32 && within (neg_ℕ 2147483648) (pos 2147483647) f)
      || (type_eq dst Types.typ_u32 && within (pos 0) (pos 4294967296) f)
      || (type_eq dst Types.typ_i64
          && within (neg_ℕ 9223372036854775808) (pos 9223372036854775807) f)
      || (type_eq dst Types.typ_u64 && within (pos 0) (pos 18446744073709551615) f)
      || (type_eq dst Types.typ_string && within (pos 0) (pos 255) f)

  -- The widenings of a value that is no constant.
  unfoldable pub widens : PrimaryType → PrimaryType → Bool
  unfolding type_eq is_integer
  widens dst src =
      (is_integer src && type_eq dst Types.typ_string)
      || (type_eq src Types.typ_ptr && type_eq dst Types.typ_i64)
      || (type_eq dst Types.typ_i16 && (type_eq src Types.typ_i16 || type_eq src Types.typ_u8))
      || (type_eq dst Types.typ_i32
          && (type_eq src Types.typ_i16 || type_eq src Types.typ_u8 || type_eq src Types.typ_u16))
      || (type_eq dst Types.typ_i64
          && (type_eq src Types.typ_i32
              || type_eq src Types.typ_u32
              || type_eq src Types.typ_u16
              || type_eq src Types.typ_i16
              || type_eq src Types.typ_u8))
      || (type_eq dst Types.typ_u16 && type_eq src Types.typ_u8)
      || (type_eq dst Types.typ_u32 && (type_eq src Types.typ_u16 || type_eq src Types.typ_u8))
      || (type_eq dst Types.typ_u64
          && (type_eq src Types.typ_u32 || type_eq src Types.typ_u16 || type_eq src Types.typ_u8))
      || (type_eq dst Types.typ_f64 && type_eq src Types.typ_f32)

  -- The tests behind the widenings, with `f` the parsed text of the value, or 0 if it has none.
  unfoldable pub can_assign_rest : PrimaryType → PrimaryType → F → Bool
  unfolding type_eq type_index
  can_assign_rest dst src f =
      if type_eq src Types.typ_u8 && type_eq dst Types.typ_string
      then true
      else if type_eq dst src
      then true
      else if type_eq dst Types.typ_f64
      then true
      else if type_eq dst Types.typ_f32
      then true
      else if ltb (type_index dst) (type_index Types.typ_u8)
          || ltb (type_index Types.typ_f64) (type_index dst)
      then false
      else if type_eq src Types.typ_bool
      then true
      else type_eq dst Types.typ_i64
        || (type_eq dst Types.typ_u8 && within (pos 0) (pos 255) f)
        || (type_eq dst Types.typ_i16 && within (neg_ℕ 32768) (pos 32767) f)
        || (type_eq dst Types.typ_u16 && within (neg_ℕ 65535) (pos 65535) f)
        || (type_eq dst Types.typ_i32 && within (neg_ℕ 2147483648) (pos 2147483647) f)
        || (type_eq dst Types.typ_u32 && within (pos 0) (pos 4294967296) f)

  abbrev pub or_zero : Option F → F
  or_zero none = of_int (pos 0)
  or_zero (some f) = f

  abbrev if_const : PrimaryType → PrimaryType → Option F → Bool
  if_const dst src none = false
  if_const dst src (some f) = can_assign_const dst src f

  -- `CanAssign`, of a value with the type `src`.
  unfoldable pub can_assign : PrimaryType → PrimaryType → ValueDef → Bool
  unfolding type_eq
  can_assign dst src v =
      if type_eq src dst
      then true
      else if v.is_const
      then if_const dst src (str_to_const v.string_value)
      else if widens dst src
      then true
      else can_assign_rest dst src (or_zero (str_to_const v.string_value))
