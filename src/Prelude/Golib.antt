-- ===== src/Prelude/Golib.antt =====
-- What the compiler takes from Go's standard library, as parameters, with the documented behaviour
-- that the theorems rely on.
use Prim.Native.Nat.{ℕ, ◌≤◌, ◌<◌}
use mathlib.Core.Path.{◌≡◌}
use mathlib.Core.List.{List, [], ◌∷◌}
use mathlib.Core.Bool.{Bool}
use jkvlang.Prelude.Lists.{length, All}
use jkvlang.Prelude.Texts.{Text}

pub record Golib : Type 0 where
  -- `utf8.DecodeRune`: the first code point of the bytes and its width.
  pub decode_rune : List ℕ → ℕ × ℕ
  -- `strconv.Itoa`, of a number that is not negative.
  pub itoa : ℕ → Text
  -- `unicode.IsUpper`
  pub is_upper : ℕ → Bool

-- `DecodeRune` of no bytes has width 0; otherwise the width is positive and stays within them.
pub record DecodesRunes (go : Golib) : Type 0 where
  pub none_left : go.decode_rune [] ≡ (0xFFFD, 0)
  pub width_pos : (b : ℕ) (bs : List ℕ) → 0 < (go.decode_rune (b ∷ bs)).1
  pub width_le : (b : ℕ) (bs : List ℕ) → (go.decode_rune (b ∷ bs)).1 ≤ length (b ∷ bs)
  -- A byte below 0x80 stands for itself.
  pub ascii : (b : ℕ) (bs : List ℕ) → b < 0x80 → go.decode_rune (b ∷ bs) ≡ (b, 1)

-- `Itoa` writes decimal digits, different ones for different numbers.
pub record WritesDecimals (go : Golib) : Type 0 where
  pub digits : (n : ℕ) → All (λ c. (48 ≤ c) × (c ≤ 57)) (go.itoa n)
  pub injective : (m n : ℕ) → go.itoa m ≡ go.itoa n → m ≡ n
