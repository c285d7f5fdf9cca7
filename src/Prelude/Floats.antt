-- ===== src/Prelude/Floats.antt =====
-- Go's `float64`, which the compiler computes constants with, as a parameter; and the parsers of
-- `strconv` that make one.
use Prim.Native.Nat.{ℕ, ◌^◌, ◌≤◌}
use mathlib.Core.Path.{◌≡◌}
use mathlib.Core.Bool.{Bool}
use mathlib.Core.Logic.{◌≢◌, ◌⊎◌}
use mathlib.Core.List.{[]}
use mathlib.Core.Option.{Option, none}
use jkvlang.Prelude.Texts.{Text}
use jkvlang.Prelude.Int.{ℤ, pos, ◌+ℤ◌, ◌-ℤ◌, ◌*ℤ◌, pos_part, neg_part, leb_ℤ, ltb_ℤ}

pub record Floats : Type 1 where
  pub F : Type 0
  -- `<=`, `<`, and the equality of the tables of literals.
  pub le : F → F → Bool
  pub lt : F → F → Bool
  pub eq : F → F → Bool
  pub plus : F → F → F
  pub minus : F → F → F
  pub times : F → F → F
  pub over : F → F → F
  -- `math.Abs`, and the constants 1e-30 and 1e-7.
  pub abs : F → F
  pub tiny : F
  pub narrow : F
  -- The conversion to a float32, as a float64 again.
  pub to_f32 : F → F
  -- `max`
  pub larger : F → F → F
  -- `int64(f)`, `uint64(f)` and `strconv.FormatFloat(f, 'f', -1, 64)`.
  pub to_int : F → ℤ
  pub to_uint : F → ℕ
  pub format : F → Text
  -- `strconv.FormatInt(n, 10)` and `strconv.ParseInt(s, 0, 64)`.
  pub format_int : ℤ → Text
  pub parse_int : Text → Option ℤ
  -- The float64 of an integer constant.
  pub of_int : ℤ → F
  -- `strconv.ParseUint(s, 0, 64)` and `strconv.ParseFloat(s, 64)`, with `none` for an error.
  pub parse_uint : Text → Option ℕ
  pub parse_float : Text → Option F

-- An integer that a float64 holds exactly.
abbrev pub IsExact : ℤ → Type 0
IsExact a = (pos_part a ≤ 2 ^ 53) × (neg_part a ≤ 2 ^ 53)

-- The order of the floats agrees with that of the integers of at most 53 bits, and the parsers
-- refuse the empty text.
pub record ReadsIntegers (fl : Floats) : Type 0 where
  pub le_of_int : (a b : ℤ) → IsExact a → IsExact b → fl.le (fl.of_int a) (fl.of_int b) ≡ leb_ℤ a b
  pub no_uint : fl.parse_uint [] ≡ none
  pub no_float : fl.parse_float [] ≡ none

-- The product of the integers is not 0, or neither of them is negative: a float64 product of 0 and a
-- negative number is a negative zero, which is another float64 and is written "-0".
abbrev pub NoMinusZero : ℤ → ℤ → Type 0
NoMinusZero a b = (a *ℤ b ≢ pos 0) ⊎ ((neg_part a ≡ 0) × (neg_part b ≡ 0))

-- Sums, differences and products of exact integers are exact where a float64 holds them and the
-- product is not a negative zero, and an exact integer is converted and written as it is.
pub record ComputesIntegers (fl : Floats) : Type 0 where
  pub plus_of_int :
      (a b : ℤ)
      → IsExact a
      → IsExact b
      → IsExact (a +ℤ b)
      → fl.plus (fl.of_int a) (fl.of_int b) ≡ fl.of_int (a +ℤ b)
  pub minus_of_int :
      (a b : ℤ)
      → IsExact a
      → IsExact b
      → IsExact (a -ℤ b)
      → fl.minus (fl.of_int a) (fl.of_int b) ≡ fl.of_int (a -ℤ b)
  pub times_of_int :
      (a b : ℤ)
      → IsExact a
      → IsExact b
      → IsExact (a *ℤ b)
      → NoMinusZero a b
      → fl.times (fl.of_int a) (fl.of_int b) ≡ fl.of_int (a *ℤ b)
  pub to_int_of_int : (a : ℤ) → IsExact a → fl.to_int (fl.of_int a) ≡ a
  pub format_of_int : (a : ℤ) → IsExact a → fl.format (fl.of_int a) ≡ fl.format_int a
  pub lt_of_int : (a b : ℤ) → IsExact a → IsExact b → fl.lt (fl.of_int a) (fl.of_int b) ≡ ltb_ℤ a b
