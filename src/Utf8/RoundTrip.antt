-- ===== src/Utf8/RoundTrip.antt =====
-- `Encode` writes the UTF-8 form of a scalar value, and `decode` reads it back.
use mathlib.Core.List.{append_assoc}
use native.Mathlib.Nat.{add_comm, add-zero}
use native.Mathlib.Numerals.{add-one}
use jkvlang.Prelude.{
  ℕ, zero, suc, ◌+◌, ◌≤◌, ◌<◌, ◌≡◌, refl, ap, ◌∙◌, ◌⊎◌, List, [], ◌∷◌, ◌++◌, some, lt→ltb, arith,
  length, drop, take, set, length-set, length-append, length-drop, take-append-drop,
  take-take_append, drop-take_append, drop-length_append, length-take,
}
use jkvlang.Utf8.Codec.{decode_at, decode, store, store_all, encode}
use jkvlang.Utf8.Sequences.{
  encoding, IsEncodable, tail_byte_lem, lead_e0, encode-encoding, decode_at-encoding,
}

-- A buffer with `bs` written at `i`.
abbrev pub splice : List ℕ → ℕ → List ℕ → List ℕ
splice p i bs = take i p ++ (bs ++ drop (i + length bs) p)

take-set : (p : List ℕ) (i v : ℕ) → i < length p → take (suc i) (set p i v) ≡ take i p ++ v ∷ []
take-set [] i v h = elim h [ ]
take-set (x ∷ p) zero v h = refl
take-set (x ∷ p) (suc i) v h = ap (◌∷◌ x) (take-set p i v (omega arith))

drop-set : (p : List ℕ) (i j v : ℕ) → i < j → drop j (set p i v) ≡ drop j p
drop-set p i zero v h = elim h [ ]
drop-set [] i (suc j) v h = refl
drop-set (x ∷ p) zero (suc j) v h = refl
drop-set (x ∷ p) (suc i) (suc j) v h = drop-set p i j v (omega arith)

splice-set :
    (p : List ℕ) (i v : ℕ) (vs : List ℕ)
    → i < length p
    → splice (set p i v) (suc i) vs ≡ splice p i (v ∷ vs)
splice-set p i v vs h =
    rw (take-set p i v h, drop-set p i (suc i + length vs) v (omega arith), append_assoc)
      (ap (λ (n : ℕ). take i p ++ (v ∷ (vs ++ drop n p))) (omega arith))

splice-nil : (p : List ℕ) (i : ℕ) → splice p i [] ≡ p
splice-nil p i = rw add-zero (take-append-drop i p)

store_lem : (p : List ℕ) (i v : ℕ) → i < length p → store p i v ≡ some (set p i v)
unfolding store
store_lem p i v h = rw (lt→ltb i (length p) h)

store_all-splice :
    (vs p : List ℕ) (i : ℕ)
    → i + length vs ≤ length p
    → store_all p i vs ≡ some (splice p i vs, i + length vs)
unfolding store_all
store_all-splice [] p i h = rw (splice-nil p i) (ground arith)
store_all-splice (v ∷ vs) p i h =
    rw (store_lem p i v (omega arith), add-one)
      (store_all-splice vs (set p i v) (suc i) (omega (arith, length-set p i v))
        ∙ rw (splice-set p i v vs (omega arith)) (ground arith))

length-encoding : (r : ℕ) → length (encoding r) ≤ 4
unfolding encoding
length-encoding r = ground arith

decode-splice :
    (p bs : List ℕ) (i : ℕ)
    → i < length p
    → length (splice p i bs) ≡ length p
    → decode (splice p i bs) i ≡ decode_at i (bs ++ drop (i + length bs) p)
unfolding decode
decode-splice p bs i h e =
    let tail = bs ++ drop (i + length bs) p in
    ground (
      arith,
      drop-take_append i 0 p tail (omega arith),
      ap (λ (k : ℕ). drop k (splice p i bs)) (let e : 0 + i ≡ i = omega arith in e),
    )

length-splice :
    (p bs : List ℕ) (i : ℕ) → i + length bs ≤ length p → length (splice p i bs) ≡ length p
length-splice p bs i h = omega (
  arith,
  length-append (take i p) (bs ++ drop (i + length bs) p),
  length-append bs (drop (i + length bs) p),
  length-take i p (omega arith),
  length-drop (i + length bs) p,
)

-- Inside a buffer with room for four bytes, `Encode` writes some bytes at `i` and nothing else, and
-- `decode` at `i` reads the code point back and stops where `Encode` stopped. This holds for every
-- scalar value but U+10FFFF.
pub decode-encode :
    (p : List ℕ) (i r : ℕ)
    → IsEncodable r
    → i + 4 ≤ length p
    → (q : List ℕ) × (j : ℕ) × (encode p i r ≡ some (q, j))
      × (decode q i ≡ some (r, j))
      × (length q ≡ length p)
      × (take i q ≡ take i p)
      × (drop j q ≡ drop j p)
decode-encode p i r h room =
    let bs = encoding r in
    let fits : i + length bs ≤ length p = omega (arith, length-encoding r) in
    let rest = drop (i + length bs) p in
    (
      splice p i bs,
      i + length bs,
      encode-encoding p i r h ∙ store_all-splice bs p i fits,
      decode-splice p bs i (omega arith) (length-splice p bs i fits)
          ∙ decode_at-encoding r i rest h,
      length-splice p bs i fits,
      take-take_append i p (bs ++ rest) (omega arith),
      ap (λ (k : ℕ). drop k (splice p i bs)) (add_comm i (length bs))
          ∙ drop-take_append i (length bs) p (bs ++ rest) (omega arith)
          ∙ drop-length_append bs rest,
    )

-- A surrogate, and every positive number from U+10FFFF on, is written as the three bytes of the
-- replacement character U+FFFD.
pub encode_replacement :
    (p : List ℕ) (i r : ℕ)
    → ((0xD7FF < r) × (r < 0xE000)) ⊎ ((0x10_FFFE < r) × (r < 0x8000_0000))
    → encode p i r ≡ encode p i 0xFFFD
unfolding encode
encode_replacement p i r h =
    ground (arith, lead_e0 15, tail_byte_lem 0xFFFD 6, tail_byte_lem 0xFFFD 0)
