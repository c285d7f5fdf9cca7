-- ===== src/Utf8/Sound.antt =====
-- What `decode` can return on arbitrary bytes.
use jkvlang.Prelude.{
  ℕ, zero, suc, ◌+◌, ◌*◌, ◌%◌, ◌≤◌, ◌<◌, ◌≡◌, ◌⊎◌, inl, inr, Bool, true, ◌&&◌, not, List, [], ◌∷◌,
  Option, none, some, ltb, leb, ◌==◌, if◌then◌else◌, Bool-cases, arith, length, drop, length-drop,
}
use jkvlang.Utf8.Codec.{decode_loop, decode_at, decode}
use jkvlang.Utf8.Transitions.{
  within, target_of, lead_state, lead_payload, decode_loop_inner, decode_loop_lead,
  decode_loop_stray,
}

abbrev pub AllBytes : List ℕ → Type 0
AllBytes [] = Unit
AllBytes (b ∷ bs) = (b < 256) × AllBytes bs

-- A Unicode scalar value: at most U+10FFFF and no surrogate.
abbrev pub IsScalar : ℕ → Type 0
IsScalar c = (c < 0xD800) ⊎ (0xDFFF < c) × (c < 0x11_0000)

-- What the decoder has collected in each state inside a sequence.
abbrev good : ℕ → ℕ → Bool
good state c =
    if state == 2
    then leb 2 c && ltb c 0x4400 && not (within 0x360 0x37F c)
    else if state == 3
    then leb 1 c && ltb c 0x110 && not (c == 13)
    else if state == 4
    then c == 0
    else if state == 5
    then c == 13
    else if state == 6
    then c == 0
    else if state == 7
    then leb 1 c && leb c 3
    else c == 4

good_finish :
    (c b state : ℕ)
    → 1 < state
    → state < 9
    → good state c ≡ true
    → target_of state b ≡ 0
    → IsScalar (c * 64 + b % 64)
good_finish c b state lo hi g t = elim (Bool-cases (ltb c 0x360)) [
  | inl below ↦ inl (ground arith)
  | inr above ↦ inr (ground arith, ground arith)
]

good_next :
    (c b state : ℕ)
    → 1 < state
    → state < 9
    → good state c ≡ true
    → 1 < target_of state b
    → b < 256
    → (good (target_of state b) (c * 64 + b % 64) ≡ true) × (target_of state b < 9)
good_next c b state lo hi g t h = ground arith

good_lead :
    (b : ℕ)
    → within 0xC2 0xF4 b ≡ true
    → (good (lead_state b) (lead_payload b) ≡ true) × (1 < lead_state b) × (lead_state b < 9)
good_lead b h = ground arith

-- What a result says: a scalar value, and an end inside the input.
abbrev Sound : ℕ → ℕ → Option (ℕ × ℕ) → Type 0
Sound i n none = Unit
Sound i n (some (c, j)) = IsScalar c × (i < j) × (j ≤ i + n)

Sound-weaken : (i n : ℕ) (o : Option (ℕ × ℕ)) → Sound (i + 1) n o → Sound i (suc n) o
Sound-weaken i n none h = tt
Sound-weaken i n (some (c, j)) (s, a, b) = (s, omega arith, omega arith)

replacement : (i n : ℕ) → Sound i (suc n) (some (0xFFFD, i + 1))
replacement i n = (inr (omega arith, omega arith), omega arith, omega arith)

decode_loop-Sound :
    (bs : List ℕ) (c state i : ℕ)
    → 1 < state
    → state < 9
    → good state c ≡ true
    → AllBytes bs
    → Sound i (length bs) (decode_loop c state i bs)
unfolding decode_loop
decode_loop-Sound [] c state i lo hi g h = tt
decode_loop-Sound (b ∷ bs) c state i lo hi g h =
    rw (decode_loop_inner state c i b bs lo hi h.0) (elim (Bool-cases (target_of state b == 0)) [
      | inl done ↦ rw done (good_finish c b state lo hi g (ground arith), omega arith, omega arith)
      | inr more ↦ rw more (elim (Bool-cases (target_of state b == 1)) [
        | inl bad ↦ rw bad (replacement i (length bs))
        | inr next ↦ rw next (
            let (g', hi') = good_next c b state lo hi g (ground arith) h.0 in
            Sound-weaken i (length bs)
              (decode_loop (c * 64 + b % 64) (target_of state b) (i + 1) bs)
              (decode_loop-Sound bs (c * 64 + b % 64) (target_of state b) (i + 1) (ground arith) hi'
                g' h.1))
      ])
    ])

decode_wide-Sound :
    (b : ℕ) (bs : List ℕ) (i : ℕ)
    → AllBytes (b ∷ bs)
    → 0x7F < b
    → Sound i (suc (length bs)) (decode_loop 0 0 i (b ∷ bs))
decode_wide-Sound b bs i h wide = elim (Bool-cases (within 0xC2 0xF4 b)) [
  | inl opens ↦ rw (decode_loop_lead i b bs opens) (
      let (g, lo, hi) = good_lead b opens in
      Sound-weaken i (length bs) (decode_loop (lead_payload b) (lead_state b) (i + 1) bs)
        (decode_loop-Sound bs (lead_payload b) (lead_state b) (i + 1) lo hi g h.1))
  | inr stray ↦ rw (decode_loop_stray i b bs wide h.0 stray) (replacement i (length bs))
]

decode_at-Sound : (bs : List ℕ) (i : ℕ) → AllBytes bs → Sound i (length bs) (decode_at i bs)
unfolding decode_at
decode_at-Sound [] i h = tt
decode_at-Sound (b ∷ bs) i h = elim (Bool-cases (leb b 0x7F)) [
  | inl ascii ↦ rw ascii (inl (ground arith), omega arith, omega arith)
  | inr long ↦ rw long (decode_wide-Sound b bs i h (ground arith))
]

AllBytes-drop : (n : ℕ) (bs : List ℕ) → AllBytes bs → AllBytes (drop n bs)
AllBytes-drop zero bs h = h
AllBytes-drop (suc n) [] h = tt
AllBytes-drop (suc n) (b ∷ bs) h = AllBytes-drop n bs h.1

Sound-eq :
    (i n : ℕ) {o : Option (ℕ × ℕ)} {c j : ℕ}
    → Sound i n o
    → o ≡ some (c, j)
    → IsScalar c × (i < j) × (j ≤ i + n)
Sound-eq i n h e = rw e at h

inside :
    (s : List ℕ) (i : ℕ) {o : Option (ℕ × ℕ)}
    → i < length s
    → decode s i ≡ o
    → decode_at i (drop i s) ≡ o
unfolding decode
inside s i lt e = ground arith

-- Whatever bytes it reads, a result of `decode` inside the input is a Unicode scalar value (no
-- surrogate, nothing above U+10FFFF), and it consumes at least one byte and none behind the end.
pub decode-IsScalar :
    (s : List ℕ) (i : ℕ) {c j : ℕ}
    → AllBytes s
    → i < length s
    → decode s i ≡ some (c, j)
    → IsScalar c × (i < j) × (j ≤ length s)
unfolding decode
decode-IsScalar s i h lt e =
    let found =
      Sound-eq i (length (drop i s)) (decode_at-Sound (drop i s) i (AllBytes-drop i s h))
        (inside s i lt e) in
    (found.0, found.1, omega (arith, length-drop i s))
