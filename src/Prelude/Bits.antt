-- ===== src/Prelude/Bits.antt =====
-- Facts about `bit_and` and `bit_or` at variables, from their digit recursion.
use Prim.Native.Nat.{
  ℕ, zero, suc, ◌+◌, ◌*◌, ◌/◌, ◌%◌, ◌≤◌, ◌<◌, max, bit_and, bit_or, digits, bit_or-bitwise,
}
use mathlib.Core.Path.{◌≡◌, refl, ap}
use mathlib.Core.Bool.{true}
use native.Mathlib.Omega.{arith}
use jkvlang.Prelude.Tests.{◌==◌, ==_iff, holds_below, at_below}

abbrev or_digits : ℕ → ℕ → ℕ → ℕ
or_digits fuel = digits (λ y. y) max fuel

-- No binary digit of `x` meets one of `a`, whatever the fuel.
abbrev Disjoint : ℕ → ℕ → Type 0
Disjoint a x = (fuel : ℕ) → a ≤ fuel → or_digits fuel a x ≡ a + x

no_digits : (x : ℕ) → Disjoint 0 x
no_digits x zero h = omega arith
no_digits x (suc fuel) h = omega arith

-- A digit more at the end of both, where `a` has none.
one_more : (c x a : ℕ) → a ≡ c * 2 → Disjoint c (x / 2) → Disjoint a x
one_more c x zero e h fuel le = no_digits x fuel le
one_more c x (suc a) e h zero le = absurd (omega arith)
one_more c x (suc a) e h (suc rest) le =
    let half : suc a / 2 ≡ c = omega arith in
    omega (arith, h rest (omega arith), ap (λ (t : ℕ). or_digits rest t (x / 2)) half)

above_zero : (fuel a : ℕ) → a ≤ fuel → or_digits fuel a 0 ≡ a
above_zero zero a h = omega arith
above_zero (suc fuel) zero h = refl
above_zero (suc fuel) (suc a) h = omega (arith, above_zero fuel (suc a / 2) (omega arith))

nothing_left : (c y : ℕ) → y ≡ 0 → Disjoint c y
nothing_left c y e = λ fuel le. omega (arith, above_zero fuel c le, ap (or_digits fuel c) e)

double : (c x : ℕ) → Disjoint c (x / 2) → Disjoint (c * 2) x
double c x = one_more c x (c * 2) refl

-- Six digits appended below `c`.
pub bit_or_six : (c x : ℕ) → x < 64 → bit_or (c * 64) x ≡ c * 64 + x
bit_or_six c x h =
    let top = nothing_left c (x / 2 / 2 / 2 / 2 / 2 / 2) (omega arith) in
    let three =
      double (c * 2 * 2) (x / 2 / 2 / 2)
        (double (c * 2) (x / 2 / 2 / 2 / 2) (double c (x / 2 / 2 / 2 / 2 / 2) top)) in
    let five = double (c * 2 * 2 * 2 * 2) (x / 2) (double (c * 2 * 2 * 2) (x / 2 / 2) three) in
    omega (
      arith,
      bit_or-bitwise (c * 64) x,
      one_more (c * 2 * 2 * 2 * 2 * 2) x (c * 64) (omega arith) five (c * 64) (omega arith),
    )

low_six_table : holds_below (λ b. bit_and b 0x3f == b % 64) 256 ≡ true
unfolding holds_below
low_six_table = refl

-- The mask 0x3f keeps the six low digits of a byte.
pub bit_and_low_six : (b : ℕ) → b < 256 → bit_and b 0x3f ≡ b % 64
bit_and_low_six b h = (==_iff (bit_and b 0x3f) (b % 64)).0 (at_below _ 256 b h low_six_table)
