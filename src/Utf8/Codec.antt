-- ===== src/Utf8/Codec.antt =====
-- utf8.go: the table-driven decoder `decode` and the encoder `Encode`, over bytes as numbers below
-- 256. `none` is the run-time panic of an index out of range.
use Prim.Native.Nat.{bit_and, bit_or}
use jkvlang.Prelude.{
  ℕ, ◌+◌, ◌*◌, ◌/◌, ◌%◌, ◌^◌, Bool, ◌&&◌, ◌||◌, List, [], ◌∷◌, Option, none, some, ltb, leb, ◌==◌,
  if◌then◌else◌, get_elem?, set, length, drop,
}
use jkvlang.Utf8.Tables.{utf8d, next_state}

infixl 5 ◌>>=◌
abbrev pub ◌>>=◌ : {A B : Type 0} → Option A → (A → Option B) → Option B
none >>= f = none
some a >>= f = f a

-- `kind := utf8d[b]; state = nextState[state*16+kind]`, with the index computed in a byte.
unfoldable pub transition : ℕ → ℕ → Option (ℕ × ℕ)
transition state b = do
  kind ← get_elem? utf8d b
  state' ← get_elem? next_state ((state * 16 + kind) % 256)
  some (kind, state')

-- The code point collected so far, with the payload of one more byte.
unfoldable pub collect : ℕ → ℕ → ℕ → ℕ → ℕ
collect state codep kind b =
    if state == 0 then bit_and (0xff / 2 ^ kind) b else bit_or (codep * 2 ^ 6) (bit_and b 0x3f)

-- The `for` loop; the list holds the bytes of `s` from index `i` on.
unfoldable pub decode_loop : ℕ → ℕ → ℕ → List ℕ → Option (ℕ × ℕ)
decode_loop codep state i [] = none
decode_loop codep state i (b ∷ bs) = transition state b >>= λ t.
    let codep' = collect state codep t.0 b in
    let rest = decode_loop codep' t.1 (i + 1) bs in
    if t.1 == 0 then some (codep', i + 1) else if t.1 == 1 then some (0xFFFD, i + 1) else rest

-- `b := s[i]`, the test for ASCII, and the loop.
unfoldable pub decode_at : ℕ → List ℕ → Option (ℕ × ℕ)
decode_at i [] = none
decode_at i (b ∷ bs) = if leb b 0x7F then some (b, i + 1) else decode_loop 0 0 i (b ∷ bs)

unfoldable pub decode : List ℕ → ℕ → Option (ℕ × ℕ)
unfolding decode_at
decode s i = if leb (length s) i then some (0, i + 1) else decode_at i (drop i s)

-- An `int32` is its bit pattern; the order of signed numbers is that of the shifted patterns.
abbrev biased : ℕ → ℕ
biased r = (r + 0x8000_0000) % 0x1_0000_0000

unfoldable pub int32_lt : ℕ → ℕ → Bool
int32_lt a b = ltb (biased a) (biased b)

unfoldable pub int32_le : ℕ → ℕ → Bool
int32_le a b = leb (biased a) (biased b)

-- `p[i] = v`
unfoldable pub store : List ℕ → ℕ → ℕ → Option (List ℕ)
store p i v = if ltb i (length p) then some (set p i v) else none

-- `byte(r >> k)`
abbrev byte_at : ℕ → ℕ → ℕ
byte_at r k = r / 2 ^ k % 256

-- `tx | byte(r>>k)&maskx`
unfoldable pub tail_byte : ℕ → ℕ → ℕ
tail_byte r k = bit_or 0x80 (bit_and (byte_at r k) 0x3F)

-- A run of the assignments `p[i+0] = …; p[i+1] = …`, and the index behind them.
unfoldable pub store_all : List ℕ → ℕ → List ℕ → Option (List ℕ × ℕ)
unfolding store
store_all p i [] = some (p, i)
store_all p i (v ∷ vs) = store p i v >>= λ q. store_all q (i + 1) vs

unfoldable pub encode : List ℕ → ℕ → ℕ → Option (List ℕ × ℕ)
unfolding int32_lt int32_le
encode p i r =
    if leb r 0x7F
    then store_all p i (byte_at r 0 ∷ [])
    else if int32_lt 0 r && int32_le r 0x7FF
    then store_all p i (bit_or 0xC0 (byte_at r 6) ∷ tail_byte r 0 ∷ [])
    else if int32_lt r 0xD800 || (int32_lt 0xDFFF r && int32_le r 0xFFFF)
    then store_all p i (bit_or 0xE0 (byte_at r 12) ∷ tail_byte r 6 ∷ tail_byte r 0 ∷ [])
    else if int32_lt 0xFFFF r && int32_lt r 0x10FFFF
    then store_all p i
        (bit_or 0xF0 (byte_at r 18) ∷ tail_byte r 12 ∷ tail_byte r 6 ∷ tail_byte r 0 ∷ [])
    else store_all p i (0xEF ∷ 0xBF ∷ 0xBD ∷ [])
