-- ===== src/Utf8/Sequences.antt =====
-- The UTF-8 form of a scalar value, which `Encode` writes and `decode_at` reads.
use Prim.Native.Nat.{bit_or}
use jkvlang.Prelude.{
  ℕ, ◌+◌, ◌*◌, ◌/◌, ◌%◌, ◌^◌, ◌<◌, ◌≡◌, ◌≢◌, refl, ap, ◌∙◌, ◌⊎◌, inl, inr, true, List, [], ◌∷◌,
  ◌++◌, some, ltb, ◌==◌, ==_iff, if◌then◌else◌, Bool-cases, arith, length, holds_below, at_below,
}
use jkvlang.Prelude.Bits.{bit_or_six, bit_and_low_six}
use jkvlang.Utf8.Codec.{decode_loop, decode_at, tail_byte, store_all, encode}
use jkvlang.Utf8.Transitions.{
  within, target_of, lead_state, lead_payload, decode_loop_inner, decode_loop_lead,
}

-- The UTF-8 form of a scalar value, by division.
unfoldable pub encoding : ℕ → List ℕ
encoding r =
    if ltb r 0x80
    then r ∷ []
    else if ltb r 0x800
    then (0xC0 + r / 64) ∷ (0x80 + r % 64) ∷ []
    else if ltb r 0x1_0000
    then (0xE0 + r / 4096) ∷ (0x80 + r / 64 % 64) ∷ (0x80 + r % 64) ∷ []
    else (0xF0 + r / 0x4_0000)
      ∷ (0x80 + r / 4096 % 64)
      ∷ (0x80 + r / 64 % 64)
      ∷ (0x80 + r % 64)
      ∷ []

-- A scalar value below U+10FFFF, which `Encode` refuses.
abbrev pub IsEncodable : ℕ → Type 0
IsEncodable r = (r < 0xD800) ⊎ (0xDFFF < r) × (r < 0x10_FFFF)

no_surrogate : (r : ℕ) → IsEncodable r → (r / 4096 ≢ 13) ⊎ (r / 64 % 64 < 32)
no_surrogate r h = elim (Bool-cases (r / 4096 == 13)) [
  | inl high ↦ inr (ground arith)
  | inr low ↦ inl (ground arith)
]

-- The four ranges, one for each length.
width-cases :
    (r : ℕ)
    → IsEncodable r
    → (r < 0x80)
      ⊎ ((0x7F < r) × (r < 0x800)
          ⊎ ((0x7FF < r) × (r < 0x1_0000) × ((r / 4096 ≢ 13) ⊎ (r / 64 % 64 < 32))
              ⊎ (0xFFFF < r) × (r < 0x10_FFFF)))
width-cases r h = elim (Bool-cases (ltb r 0x80)) [
  | inl one ↦ inl (ground arith)
  | inr long ↦ inr (elim (Bool-cases (ltb r 0x800)) [
    | inl two ↦ inl (ground arith, ground arith)
    | inr longer ↦ inr (elim (Bool-cases (ltb r 0x1_0000)) [
      | inl three ↦ inl (ground arith, ground arith, no_surrogate r h)
      | inr four ↦ inr (ground arith, ground arith)
    ])
  ])
]

pub tail_byte_lem : (r k : ℕ) → tail_byte r k ≡ 0x80 + r / 2 ^ k % 64
unfolding tail_byte
tail_byte_lem r k =
    let m = r / 2 ^ k % 256 in
    ap (bit_or 0x80) (bit_and_low_six m (omega arith))
    ∙ bit_or_six 2 (m % 64) (omega arith)
    ∙ omega arith

lead_c0_table : holds_below (λ x. bit_or 0xC0 x == 0xC0 + x) 32 ≡ true
unfolding holds_below
lead_c0_table = refl

lead_e0_table : holds_below (λ x. bit_or 0xE0 x == 0xE0 + x) 16 ≡ true
unfolding holds_below
lead_e0_table = refl

lead_f0_table : holds_below (λ x. bit_or 0xF0 x == 0xF0 + x) 8 ≡ true
unfolding holds_below
lead_f0_table = refl

lead_c0 : (x : ℕ) → x < 32 → bit_or 0xC0 x ≡ 0xC0 + x
lead_c0 x h = (==_iff (bit_or 0xC0 x) (0xC0 + x)).0 (at_below _ 32 x h lead_c0_table)

pub lead_e0 : (x : ℕ) → x < 16 → bit_or 0xE0 x ≡ 0xE0 + x
lead_e0 x h = (==_iff (bit_or 0xE0 x) (0xE0 + x)).0 (at_below _ 16 x h lead_e0_table)

lead_f0 : (x : ℕ) → x < 8 → bit_or 0xF0 x ≡ 0xF0 + x
lead_f0 x h = (==_iff (bit_or 0xF0 x) (0xF0 + x)).0 (at_below _ 8 x h lead_f0_table)

pub encode-encoding :
    (p : List ℕ) (i r : ℕ) → IsEncodable r → encode p i r ≡ store_all p i (encoding r)
unfolding encode encoding
encode-encoding p i r h = elim (width-cases r h) [
  | inl one ↦ ground arith
  | inr (inl two) ↦ ground (arith, lead_c0 (r / 64 % 256), tail_byte_lem r 0)
  | inr (inr (inl three)) ↦
      ground (arith, lead_e0 (r / 4096 % 256), tail_byte_lem r 6, tail_byte_lem r 0)
  | inr (inr (inr four)) ↦ ground (
    arith,
    lead_f0 (r / 0x4_0000 % 256),
    tail_byte_lem r 12,
    tail_byte_lem r 6,
    tail_byte_lem r 0,
  )
]

-- The first byte, one more accepted byte, and the last one.
open_sequence :
    (i b c state : ℕ) (bs : List ℕ)
    → within 0xC2 0xF4 b ≡ true
    → lead_payload b ≡ c
    → lead_state b ≡ state
    → decode_loop 0 0 i (b ∷ bs) ≡ decode_loop c state (i + 1) bs
open_sequence i b c state bs h p q = rw (← p, ← q) (decode_loop_lead i b bs h)

accept :
    (state target c i x : ℕ) (bs : List ℕ)
    → 1 < state
    → state < 9
    → x < 64
    → target_of state (0x80 + x) ≡ target
    → 1 < target
    → decode_loop c state i ((0x80 + x) ∷ bs) ≡ decode_loop (c * 64 + x) target (i + 1) bs
accept state target c i x bs lo hi h t n =
    decode_loop_inner state c i (0x80 + x) bs lo hi (omega arith) ∙ ground arith

finish :
    (c i x : ℕ) (bs : List ℕ)
    → x < 64
    → decode_loop c 2 i ((0x80 + x) ∷ bs) ≡ some (c * 64 + x, i + 1)
finish c i x bs h =
    decode_loop_inner 2 c i (0x80 + x) bs (omega arith) (omega arith) (omega arith) ∙ ground arith

module _ (r i : ℕ) (rest : List ℕ) where
  decode_two :
      0x7F < r
      → r < 0x800
      → decode_loop 0 0 i ((0xC0 + r / 64) ∷ (0x80 + r % 64) ∷ rest) ≡ some (r, i + 2)
  decode_two lo hi =
      open_sequence i (0xC0 + r / 64) (r / 64) 2 _ (ground arith) (ground arith) (ground arith)
      ∙ finish (r / 64) (i + 1) (r % 64) rest (omega arith)
      ∙ ground arith

  decode_three :
      0x7FF < r
      → r < 0x1_0000
      → ((r / 4096 ≢ 13) ⊎ (r / 64 % 64 < 32))
      → decode_loop 0 0 i ((0xE0 + r / 4096) ∷ (0x80 + r / 64 % 64) ∷ (0x80 + r % 64) ∷ rest)
        ≡ some (r, i + 3)
  decode_three lo hi s =
      open_sequence i (0xE0 + r / 4096) (r / 4096) (lead_state (0xE0 + r / 4096)) _ (ground arith)
        (ground arith) refl
      ∙ accept (lead_state (0xE0 + r / 4096)) 2 (r / 4096) (i + 1) (r / 64 % 64) _ (ground arith)
          (ground arith) (omega arith) (ground arith) (omega arith)
      ∙ finish (r / 4096 * 64 + r / 64 % 64) (i + 1 + 1) (r % 64) rest (omega arith)
      ∙ ground arith

  decode_four :
      0xFFFF < r
      → r < 0x10_FFFF
      → decode_loop 0 0 i (
          (0xF0 + r / 0x4_0000)
          ∷ (0x80 + r / 4096 % 64)
          ∷ (0x80 + r / 64 % 64)
          ∷ (0x80 + r % 64)
          ∷ rest)
        ≡ some (r, i + 4)
  decode_four lo hi =
      open_sequence i (0xF0 + r / 0x4_0000) (r / 0x4_0000) (lead_state (0xF0 + r / 0x4_0000)) _
        (ground arith) (ground arith) refl
      ∙ accept (lead_state (0xF0 + r / 0x4_0000)) 3 (r / 0x4_0000) (i + 1) (r / 4096 % 64) _
          (ground arith) (ground arith) (omega arith) (ground arith) (omega arith)
      ∙ accept 3 2 (r / 0x4_0000 * 64 + r / 4096 % 64) (i + 1 + 1) (r / 64 % 64) _ (omega arith)
          (omega arith) (omega arith) (ground arith) (omega arith)
      ∙ finish ((r / 0x4_0000 * 64 + r / 4096 % 64) * 64 + r / 64 % 64) (i + 1 + 1 + 1) (r % 64)
          rest (omega arith)
      ∙ ground arith

pub decode_at-encoding :
    (r i : ℕ) (rest : List ℕ)
    → IsEncodable r
    → decode_at i (encoding r ++ rest) ≡ some (r, i + length (encoding r))
unfolding decode_at encoding
decode_at-encoding r i rest h = elim (width-cases r h) [
  | inl one ↦ ground arith
  | inr (inl two) ↦ ground (arith, decode_two r i rest)
  | inr (inr (inl three)) ↦ ground (arith, decode_three r i rest)
  | inr (inr (inr four)) ↦ ground (arith, decode_four r i rest)
]
