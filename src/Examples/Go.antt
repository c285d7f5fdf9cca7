-- ===== src/Examples/Go.antt =====
-- A library and floats to run the compiler's parts with: a decoder of ASCII, decimal numbers, and
-- the integers in place of the floats.
use jkvlang.Prelude.{
  ℕ, zero, suc, ◌+◌, ◌-◌, ◌*◌, ◌/◌, ◌%◌, ◌≤◌, ◌≡◌, refl, sym, ap, ◌∙◌, inl, inr, ◌&&◌, Bool-cases,
  List, [], ◌∷◌, ◌++◌, Text, Option, none, some, ltb, leb, ◌==◌, if◌then◌else◌, All, All-append,
  arith,
}
use jkvlang.Prelude.Int.{ℤ, ◌+ℤ◌, ◌-ℤ◌, ◌*ℤ◌, pos_part, neg_part, neg_ℕ, leb_ℤ, ltb_ℤ}
use jkvlang.Prelude.Golib.{Golib, DecodesRunes, WritesDecimals}
use jkvlang.Prelude.Floats.{Floats, ReadsIntegers, ComputesIntegers}

abbrev decode_ascii : List ℕ → ℕ × ℕ
decode_ascii [] = (0xFFFD, 0)
decode_ascii (b ∷ bs) = (b, 1)

abbrev decimal : ℕ → ℕ → Text
decimal zero n = (48 + n % 10) ∷ []
decimal (suc f) n =
    let rest = decimal f (n / 10) in
    if ltb n 10 then (48 + n % 10) ∷ [] else rest ++ (48 + n % 10) ∷ []

abbrev pub ascii_go : Golib
ascii_go = record {
  decode_rune = decode_ascii;
  itoa = λ n. decimal n n;
  is_upper = λ c. leb 65 c && leb c 90;
}

abbrev value : ℕ → Text → ℕ
value acc [] = acc
value acc (c ∷ cs) = value (acc * 10 + (c - 48)) cs

value-append : (acc c : ℕ) (s : Text) → value acc (s ++ c ∷ []) ≡ value acc s * 10 + (c - 48)
value-append acc c [] = refl
value-append acc c (d ∷ s) = value-append (acc * 10 + (d - 48)) c s

value-decimal : (f n : ℕ) → n ≤ f → value 0 (decimal f n) ≡ n
value-decimal zero n h = omega arith
value-decimal (suc f) n h = elim (Bool-cases (ltb n 10)) [
  | inl e ↦ rw e (ground arith)
  | inr e ↦
      rw
        (
          e,
          value-append 0 (48 + n % 10) (decimal f (n / 10)),
          value-decimal f (n / 10) (omega arith),
        )
        (omega arith)
]

decimal-digits : (f n : ℕ) → All (λ c. (48 ≤ c) × (c ≤ 57)) (decimal f n)
decimal-digits zero n = ((omega arith, omega arith), tt)
decimal-digits (suc f) n = elim (Bool-cases (ltb n 10)) [
  | inl e ↦ rw e ((omega arith, omega arith), tt)
  | inr e ↦ rw e (
      All-append (λ c. (48 ≤ c) × (c ≤ 57)) (decimal f (n / 10)) ((48 + n % 10) ∷ [])
        (decimal-digits f (n / 10)) ((omega arith, omega arith), tt))
]

pub ascii_go-DecodesRunes : DecodesRunes ascii_go
ascii_go-DecodesRunes = record {
  none_left = refl;
  width_pos = λ b bs. omega arith;
  width_le = λ b bs. omega arith;
  ascii = λ b bs h. refl;
}

pub ascii_go-WritesDecimals : WritesDecimals ascii_go
ascii_go-WritesDecimals = record {
  digits = λ n. decimal-digits n n;
  injective = λ m n e.
      sym (value-decimal m m (omega arith))
      ∙ ap (λ s. value 0 s) e
      ∙ value-decimal n n (omega arith);
}

-- Decimal digits alone, or behind a minus.
abbrev parse_digits : Text → Option ℤ
parse_digits [] = none
parse_digits (c ∷ cs) = some (if c == 45 then neg_ℕ (value 0 cs) else ℤ.pos (value 0 (c ∷ cs)))

abbrev format_digits : ℤ → Text
format_digits (ℤ.pos n) = decimal n n
format_digits (ℤ.negsuc n) = 45 ∷ decimal (n + 1) (n + 1)

abbrev parse_natural : Text → Option ℕ
parse_natural [] = none
parse_natural (c ∷ cs) = some (value 0 (c ∷ cs))

abbrev pub int_floats : Floats
int_floats = record {
  F = ℤ;
  le = leb_ℤ;
  of_int = λ z. z;
  parse_uint = parse_natural;
  parse_float = parse_digits;
  lt = ltb_ℤ;
  eq = λ a b. leb_ℤ a b && leb_ℤ b a;
  plus = λ a b. a +ℤ b;
  minus = λ a b. a -ℤ b;
  times = λ a b. a *ℤ b;
  over = λ a b. a;
  abs = λ a. ℤ.pos (pos_part a + neg_part a);
  tiny = ℤ.pos 0;
  narrow = ℤ.pos 0;
  to_f32 = λ a. a;
  larger = λ a b. if leb_ℤ a b then b else a;
  to_int = λ a. a;
  to_uint = pos_part;
  format = format_digits;
  format_int = format_digits;
  parse_int = parse_digits;
}

pub int_floats-ComputesIntegers : ComputesIntegers int_floats
int_floats-ComputesIntegers = record {
  plus_of_int = λ a b h k l. refl;
  minus_of_int = λ a b h k l. refl;
  times_of_int = λ a b h k l z. refl;
  to_int_of_int = λ a h. refl;
  format_of_int = λ a h. refl;
  lt_of_int = λ a b h k. refl;
}

pub int_floats-ReadsIntegers : ReadsIntegers int_floats
int_floats-ReadsIntegers = record { le_of_int = λ a b h k. refl; no_uint = refl; no_float = refl }
