-- ===== src/TypeDefs/Assign/Laws.antt =====
-- What `CanAssign` accepts, of constants and of variables.
use jkvlang.Prelude.{
  ◌≡◌, refl, ◌∙◌, Bool, true, false, ◌&&◌, ◌||◌, Option, none, some, arith, [], if◌then◌else◌,
}
use jkvlang.Prelude.Int.{ℤ, pos, neg_ℕ, leb_ℤ}
use jkvlang.Prelude.Floats.{Floats, IsExact, ReadsIntegers}
use jkvlang.Code.Types
use jkvlang.Code.Types.{PrimaryType, type_eq, type_index, is_integer}
use jkvlang.TypeDefs.Assign.{
  str_to_const, within, can_assign_const, widens, can_assign_rest, can_assign, contains,
}
use jkvlang.Values.Defs.{ValueDef}

-- The constants that `CanAssign` accepts for the integer types of at most 32 bits.
abbrev pub const_range : PrimaryType → Option (ℤ × ℤ)
const_range Types.typ_u8 = some (pos 0, pos 255)
const_range Types.typ_i16 = some (neg_ℕ 32768, pos 32767)
const_range Types.typ_u16 = some (neg_ℕ 65535, pos 65535)
const_range Types.typ_i32 = some (neg_ℕ 2147483648, pos 2147483647)
const_range Types.typ_u32 = some (pos 0, pos 4294967296)
const_range _ = none

-- What `CanAssign` says of a value that is no constant and has no text.
abbrev pub var_assignable : PrimaryType → PrimaryType → Bool
var_assignable Types.typ_u8 src = true
var_assignable Types.typ_i16 src = true
var_assignable Types.typ_u16 src = true
var_assignable Types.typ_i32 src = true
var_assignable Types.typ_u32 src = true
var_assignable Types.typ_i64 src = true
var_assignable Types.typ_f32 src = true
var_assignable Types.typ_f64 src = true
var_assignable Types.typ_rune src = type_eq src Types.typ_rune || type_eq src Types.typ_bool
var_assignable Types.typ_u64 src =
    type_eq src Types.typ_u64
    || type_eq src Types.typ_u32
    || type_eq src Types.typ_u16
    || type_eq src Types.typ_u8
    || type_eq src Types.typ_bool
var_assignable Types.typ_string src = type_eq src Types.typ_string || is_integer src
var_assignable dst src = type_eq src dst

module _ (fl : Floats) (laws : ReadsIntegers fl) where
  within-of_int :
      (lo hi z : ℤ)
      → IsExact lo
      → IsExact hi
      → IsExact z
      → within fl lo hi (fl.of_int z) ≡ (leb_ℤ lo z && leb_ℤ z hi)
  unfolding within
  within-of_int lo hi z a b c = rw (laws.le_of_int lo z a c, laws.le_of_int z hi c b)

  const_case :
      (dst src : PrimaryType) (f : fl.F) (lo hi : ℤ)
      → const_range dst ≡ some (lo, hi)
      → can_assign_const fl dst src f ≡ within fl lo hi f
  unfolding can_assign_const
  const_case Types.typ_u8 src f lo hi e = ground arith
  const_case Types.typ_i16 src f lo hi e = ground arith
  const_case Types.typ_u16 src f lo hi e = ground arith
  const_case Types.typ_i32 src f lo hi e = ground arith
  const_case Types.typ_u32 src f lo hi e = ground arith
  const_case _ src f lo hi e = cc

  IsExact-range :
      (dst : PrimaryType) {lo hi : ℤ} → const_range dst ≡ some (lo, hi) → IsExact lo × IsExact hi
  IsExact-range Types.typ_u8 e = ground arith
  IsExact-range Types.typ_i16 e = ground arith
  IsExact-range Types.typ_u16 e = ground arith
  IsExact-range Types.typ_i32 e = ground arith
  IsExact-range Types.typ_u32 e = ground arith
  IsExact-range _ e = cc

  -- If the floats order the integers of at most 53 bits as they are, then a constant of another type
  -- that stands for such an integer `z` can be assigned to an integer type
  -- of at most 32 bits exactly if it lies in the type's range of `const_range`. For `U16` that
  -- range has negative numbers, and for `U32` it ends at 2 ^ 32.
  pub can_assign-const_range :
      (dst src : PrimaryType) (v : ValueDef) (z lo hi : ℤ)
      → type_eq src dst ≡ false
      → v.is_const ≡ true
      → str_to_const fl v.string_value ≡ some (fl.of_int z)
      → IsExact z
      → const_range dst ≡ some (lo, hi)
      → can_assign fl dst src v ≡ (leb_ℤ lo z && leb_ℤ z hi)
  unfolding can_assign
  can_assign-const_range dst src v z lo hi ne const read exact range =
      rw (ne, const, read)
        (let (a, b) = IsExact-range dst range in
          const_case dst src (fl.of_int z) lo hi range ∙ within-of_int lo hi z a b exact)

  no_text : str_to_const fl [] ≡ none
  unfolding str_to_const contains
  no_text = laws.no_float

  zero_within :
      (lo hi : ℤ)
      → IsExact lo
      → IsExact hi
      → (leb_ℤ lo (pos 0) && leb_ℤ (pos 0) hi) ≡ true
      → within fl lo hi (fl.of_int (pos 0)) ≡ true
  zero_within lo hi a b h = within-of_int lo hi (pos 0) a b (omega arith, omega arith) ∙ h

  var_case :
      (dst src : PrimaryType)
      → (if type_eq src dst
          then true
          else if widens fl dst src
          then true
          else can_assign_rest fl dst src (fl.of_int (pos 0)))
        ≡ var_assignable dst src
  unfolding widens can_assign_rest
  var_case Types.typ_u8 src =
      ground (arith, zero_within (pos 0) (pos 255) (omega arith) (omega arith) refl)
  var_case Types.typ_i16 src =
      ground (arith, zero_within (neg_ℕ 32768) (pos 32767) (omega arith) (omega arith) refl)
  var_case Types.typ_u16 src =
      ground (arith, zero_within (neg_ℕ 65535) (pos 65535) (omega arith) (omega arith) refl)
  var_case Types.typ_i32 src =
      ground
        (arith, zero_within (neg_ℕ 2147483648) (pos 2147483647) (omega arith) (omega arith) refl)
  var_case Types.typ_u32 src =
      ground (arith, zero_within (pos 0) (pos 4294967296) (omega arith) (omega arith) refl)
  var_case _ src = ground arith

  -- If the floats order these integers as they are, and the parsers refuse the empty text, then a
  -- value that is no constant and has no text, as a variable, can be assigned to every integer
  -- type of at most 32 bits, to `I64` and to the float types, whatever its own type; for the other
  -- types `var_assignable` says which types are accepted.
  pub can_assign-var_assignable :
      (dst src : PrimaryType) (v : ValueDef)
      → v.is_const ≡ false
      → v.string_value ≡ []
      → can_assign fl dst src v ≡ var_assignable dst src
  unfolding can_assign
  can_assign-var_assignable dst src v var empty = rw (var, empty, no_text) (var_case dst src)
