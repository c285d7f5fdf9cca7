-- ===== src/Utf8/Transitions.antt =====
-- The decoder's tables, read as the ranges of bytes that each state accepts.
use jkvlang.Prelude.{
  ℕ, ◌+◌, ◌*◌, ◌%◌, ◌<◌, ◌≡◌, refl, Bool, true, false, ◌&&◌, List, ◌∷◌, Option, none, some, ltb,
  leb, ◌==◌, ==_iff, lt→ltb, if◌then◌else◌, arith, holds_below, at_below,
}
use mathlib.Core.Bool.{and-eq-true_iff}
use jkvlang.Prelude.Bits.{bit_or_six, bit_and_low_six}
use jkvlang.Utf8.Tables.{utf8d, next_state}
use jkvlang.Utf8.Codec.{transition, collect, decode_loop}

abbrev pub within : ℕ → ℕ → ℕ → Bool
within lo hi b = leb lo b && leb b hi

-- The bytes that a state inside a sequence accepts, and the state that they lead to.
abbrev pub accepts : ℕ → ℕ → ℕ → ℕ → ℕ
accepts lo hi target b = if within lo hi b then target else 1

abbrev pub target_of : ℕ → ℕ → ℕ
target_of state b =
    if state == 2
    then accepts 0x80 0xBF 0 b
    else if state == 3
    then accepts 0x80 0xBF 2 b
    else if state == 4
    then accepts 0xA0 0xBF 2 b
    else if state == 5
    then accepts 0x80 0x9F 2 b
    else if state == 6
    then accepts 0x90 0xBF 3 b
    else if state == 7
    then accepts 0x80 0xBF 3 b
    else accepts 0x80 0x8F 3 b

-- The state after the first byte of a sequence.
abbrev pub lead_state : ℕ → ℕ
lead_state b =
    if ltb b 0x80
    then 0
    else if ltb b 0xC2
    then 1
    else if ltb b 0xE0
    then 2
    else if b == 0xE0
    then 4
    else if b == 0xED
    then 5
    else if ltb b 0xF0
    then 3
    else if b == 0xF0
    then 6
    else if ltb b 0xF4
    then 7
    else if b == 0xF4
    then 8
    else 1

-- The payload of the first byte of a sequence.
abbrev pub lead_payload : ℕ → ℕ
lead_payload b = if ltb b 0xE0 then b % 32 else if ltb b 0xF0 then b % 16 else b % 8

goes_to : Option (ℕ × ℕ) → ℕ → Bool
goes_to none n = false
goes_to (some (k, t)) n = t == n

goes_to_sound : (o : Option (ℕ × ℕ)) (n : ℕ) → goes_to o n ≡ true → (k : ℕ) × (o ≡ some (k, n))
unfolding goes_to
goes_to_sound none n h = cc
goes_to_sound (some (k, t)) n h = (k, ground (arith, ==_iff t n))

leads : ℕ → Option (ℕ × ℕ) → Bool
leads b none = false
leads b (some (k, t)) = t == lead_state b && collect 0 0 k b == lead_payload b

leads_sound :
    (b : ℕ) (o : Option (ℕ × ℕ))
    → leads b o ≡ true
    → (k : ℕ) × (o ≡ some (k, lead_state b)) × (collect 0 0 k b ≡ lead_payload b)
unfolding leads
leads_sound b none h = cc
leads_sound b (some (k, t)) h =
    let g = (and-eq-true_iff (t == lead_state b) (collect 0 0 k b == lead_payload b)).0 h in
    (k, rw ((==_iff t (lead_state b)).0 g.0), (==_iff (collect 0 0 k b) (lead_payload b)).0 g.1)

lead_agrees : ℕ → Bool
lead_agrees b =
    if within 0xC2 0xF4 b then leads b (transition 0 b) else goes_to (transition 0 b) (lead_state b)

inner_agrees : ℕ → Bool
inner_agrees b =
    holds_below (λ s. if ltb 1 s then goes_to (transition s b) (target_of s b) else true) 9

lead_table : holds_below lead_agrees 256 ≡ true
unfolding holds_below lead_agrees leads goes_to transition collect utf8d next_state
lead_table = refl

inner_table : holds_below inner_agrees 256 ≡ true
unfolding holds_below inner_agrees goes_to transition utf8d next_state
inner_table = refl

inner :
    (state b : ℕ)
    → 1 < state
    → state < 9
    → b < 256
    → (k : ℕ) × (transition state b ≡ some (k, target_of state b))
unfolding inner_agrees
inner state b lo hi h =
    let all = at_below _ 9 state hi (at_below _ 256 b h inner_table) in
    goes_to_sound (transition state b) (target_of state b) (rw (lt→ltb 1 state lo) at all)

lead :
    (b : ℕ)
    → within 0xC2 0xF4 b ≡ true
    → (k : ℕ) × (transition 0 b ≡ some (k, lead_state b)) × (collect 0 0 k b ≡ lead_payload b)
unfolding lead_agrees
lead b h =
    leads_sound b (transition 0 b) (rw h at (at_below lead_agrees 256 b (ground arith) lead_table))

stray :
    (b : ℕ)
    → b < 256
    → within 0xC2 0xF4 b ≡ false
    → (k : ℕ) × (transition 0 b ≡ some (k, lead_state b))
unfolding lead_agrees
stray b q h =
    goes_to_sound (transition 0 b) (lead_state b)
      (rw h at (at_below lead_agrees 256 b q lead_table))

collect_inner : (state c k b : ℕ) → 0 < state → b < 256 → collect state c k b ≡ c * 64 + b % 64
unfolding collect
collect_inner state c k b s h =
    ground (arith, bit_and_low_six b h, bit_or_six c (b % 64) (omega arith))

-- One turn of the loop after the first byte.
pub decode_loop_inner :
    (state c i b : ℕ) (bs : List ℕ)
    → 1 < state
    → state < 9
    → b < 256
    → decode_loop c state i (b ∷ bs) ≡ (
        if target_of state b == 0
        then some (c * 64 + b % 64, i + 1)
        else if target_of state b == 1
        then some (0xFFFD, i + 1)
        else decode_loop (c * 64 + b % 64) (target_of state b) (i + 1) bs)
unfolding decode_loop
decode_loop_inner state c i b bs lo hi h =
    let (k, e) = inner state b lo hi h in rw (e, collect_inner state c k b (omega arith) h)

-- The turn at the first byte of a sequence, and at a byte that starts none.
pub decode_loop_lead :
    (i b : ℕ) (bs : List ℕ)
    → within 0xC2 0xF4 b ≡ true
    → decode_loop 0 0 i (b ∷ bs) ≡ decode_loop (lead_payload b) (lead_state b) (i + 1) bs
unfolding decode_loop
decode_loop_lead i b bs h = let (k, e, c) = lead b h in rw (e, c) (ground arith)

pub decode_loop_stray :
    (i b : ℕ) (bs : List ℕ)
    → 0x7F < b
    → b < 256
    → within 0xC2 0xF4 b ≡ false
    → decode_loop 0 0 i (b ∷ bs) ≡ some (0xFFFD, i + 1)
unfolding decode_loop
decode_loop_stray i b bs p q h = let (k, e) = stray b q h in rw e (ground arith)
