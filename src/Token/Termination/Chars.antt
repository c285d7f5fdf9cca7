-- ===== src/Token/Termination/Chars.antt =====
-- `nextChar` returns, and leaves less to be read.
use jkvlang.Prelude.{
  ℕ, zero, suc, ◌+◌, ◌-◌, ◌*◌, ◌≤◌, ◌<◌, ◌≡◌, ◌≢◌, refl, ap, ◌⊎◌, inl, inr, List, [], ◌∷◌, length,
  length-drop, drop, leb, ◌==◌, if◌then◌else◌, Bool-cases, arith,
}
use jkvlang.Prelude.Outcomes.{Returns, Returns-bind, Returns-weaken}
use jkvlang.Prelude.Golib.{Golib, DecodesRunes}
use jkvlang.Token.Scanner.{State, fuel, skip_cr, shift, next_char}

-- The place in the text is inside it, or at its end.
abbrev pub Fits : State → Type 0
Fits s = s.p ≤ length s.text

-- What is left to be read: two for each byte, one for a character in `ch2`.
unfoldable pub left : State → ℕ
left s = 2 * (length s.text - s.p) + (if s.ch2 == 0 then 0 else 1)

-- A later state of the scan of the same text.
pub record Follows (s t : State) : Type 0 where
  pub fits : t.p ≤ length t.text
  pub text_same : t.text ≡ s.text
  pub left_le : left t ≤ left s

pub record Steps (s t : State) : Type 0 where
  pub fits : t.p ≤ length t.text
  pub text_same : t.text ≡ s.text
  pub left_le : left t ≤ left s
  pub left_lt : 0 < left s → left t < left s
  pub moved : t.ch1 ≡ s.ch2

fuel-enough : (s : State) (n c : ℕ) → length s.text - n + (if c == 13 then 1 else 0) < fuel s
unfolding fuel
fuel-enough s n c = ground arith

-- The turns of a loop that ends at a NUL in `ch1`.
unfoldable pub turns : State → ℕ
unfolding left
turns s = left s + (if s.ch1 == 0 then 0 else 1)

pub turns-Steps : {s t : State} → Steps s t → turns t ≤ left s
unfolding turns
turns-Steps {s} {t} h = ground arith

pub left_pos : (s : State) → s.ch2 ≢ 0 → 0 < left s
unfolding left
left_pos s h = ground arith

pub turns-lt-fuel : (s : State) → turns s < fuel s
unfolding turns fuel
turns-lt-fuel s = ground arith

pub left-lt-fuel : (s : State) → left s < fuel s
unfolding left fuel
left-lt-fuel s = ground arith

module _ (go : Golib) (laws : DecodesRunes go) where
  decode_width :
      (bs : List ℕ)
      → ((go.decode_rune bs).1 ≤ length bs)
        × ((bs ≡ []) × ((go.decode_rune bs).0 ≡ 0xFFFD) ⊎ (0 < (go.decode_rune bs).1))
  decode_width [] = (rw laws.none_left (omega arith), inl (refl, rw laws.none_left))
  decode_width (b ∷ bs) = (laws.width_le b bs, inr (laws.width_pos b bs))

  -- Where the scan goes from `p`.
  decode_place :
      (text : List ℕ) (p : ℕ)
      → p ≤ length text
      → (p + (go.decode_rune (drop p text)).1 ≤ length text)
        × ((p ≡ length text) × ((go.decode_rune (drop p text)).0 ≡ 0xFFFD)
            ⊎ (p < p + (go.decode_rune (drop p text)).1))
  decode_place text p h =
      let (fits, moves) = decode_width (drop p text) in
      (
        omega (arith, length-drop p text),
        elim moves [
          | inl (none, bad) ↦ inl (omega (arith, length-drop p text, ap length none), bad)
          | inr pos ↦ inr (omega arith)
        ],
      )

  skip_cr-Returns :
      (f : ℕ) (text : List ℕ) (ch p : ℕ)
      → p ≤ length text
      → length text - p + (if ch == 13 then 1 else 0) < f
      → Returns (λ r. (p ≤ r.1) × (r.1 ≤ length text)) (skip_cr go f text ch p)
  unfolding skip_cr
  skip_cr-Returns zero text ch p h m = absurd (omega arith)
  skip_cr-Returns (suc f) text ch p h m = elim (Bool-cases (ch == 13)) [
    | inr other ↦ rw other (omega arith, h)
    | inl again ↦ rw again (
        let d = go.decode_rune (drop p text) in
        let (fits, moves) = decode_place text p h in
        Returns-weaken (λ r. (p + d.1 ≤ r.1) × (r.1 ≤ length text))
          (λ r. (p ≤ r.1) × (r.1 ≤ length text)) (skip_cr go f text d.0 (p + d.1))
          (λ r (lo, hi). (omega arith, hi))
          (skip_cr-Returns f text d.0 (p + d.1) fits (ground arith)))
  ]

  pub next_char-Returns : (s : State) → Fits s → Returns (Steps s) (next_char go s)
  unfolding next_char shift left
  next_char-Returns s h = elim (Bool-cases (leb (length s.text) s.p)) [
    | inl end ↦ rw end (record {
      fits = h;
      text_same = refl;
      left_le = ground arith;
      left_lt = ground arith;
      moved = refl;
    })
    | inr more ↦ rw more (
        let d = go.decode_rune (drop s.p s.text) in
        let (fits, moves) = decode_place s.text s.p h in
        Returns-bind (λ r. (s.p + d.1 ≤ r.1) × (r.1 ≤ length s.text)) (Steps s)
          (skip_cr go (fuel s) s.text d.0 (s.p + d.1)) _
          (skip_cr-Returns (fuel s) s.text d.0 (s.p + d.1) fits (fuel-enough s (s.p + d.1) d.0))
          λ r (lo, hi). record {
            fits = hi;
            text_same = refl;
            left_le = ground arith;
            left_lt = ground arith;
            moved = refl;
          })
  ]
