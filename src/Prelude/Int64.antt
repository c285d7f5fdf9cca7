-- ===== src/Prelude/Int64.antt =====
-- Go's `int64` and `uint64`: 64 bits, read as an integer with or without a sign.
use Prim.Native.Nat.{ℕ, zero, suc, ◌-◌, ◌*◌, ◌/◌, ◌%◌, ◌^◌, bit_and, bit_or, bit_xor}
use mathlib.Core.Option.{Option, none, some}
use jkvlang.Prelude.Tests.{ltb, leb, if◌then◌else◌}
use jkvlang.Prelude.Int.{ℤ, pos, negsuc, neg_ℕ}

-- The 64 bits of an integer, and the integer of 64 bits.
abbrev pub bits_of : ℤ → ℕ
bits_of (pos n) = n % 2 ^ 64
bits_of (negsuc n) = 2 ^ 64 - 1 - n % 2 ^ 64

abbrev pub signed_of : ℕ → ℤ
signed_of w = if ltb w (2 ^ 63) then pos w else negsuc (2 ^ 64 - 1 - w)

-- The `int64` of an integer.
abbrev pub wrap_int : ℤ → ℤ
wrap_int z = signed_of (bits_of z)

-- Go's `/` and `%` round to zero; `none` is the panic of a division by zero.
unfoldable pub quotient : ℤ → ℤ → Option ℤ
quotient a (pos zero) = none
quotient (pos a) (pos (suc b)) = some (pos (a / suc b))
quotient (pos a) (negsuc b) = some (wrap_int (neg_ℕ (a / suc b)))
quotient (negsuc a) (pos (suc b)) = some (neg_ℕ (suc a / suc b))
quotient (negsuc a) (negsuc b) = some (wrap_int (pos (suc a / suc b)))

unfoldable pub remainder : ℤ → ℤ → Option ℤ
remainder a (pos zero) = none
remainder (pos a) (pos (suc b)) = some (pos (a % suc b))
remainder (pos a) (negsuc b) = some (pos (a % suc b))
remainder (negsuc a) (pos (suc b)) = some (neg_ℕ (suc a % suc b))
remainder (negsuc a) (negsuc b) = some (neg_ℕ (suc a % suc b))

-- `&`, `&^`, `|` and `^`.
unfoldable pub int_and : ℤ → ℤ → ℤ
int_and a b = signed_of (bit_and (bits_of a) (bits_of b))

unfoldable pub int_and_not : ℤ → ℤ → ℤ
int_and_not a b = signed_of (bit_and (bits_of a) (2 ^ 64 - 1 - bits_of b))

unfoldable pub int_or : ℤ → ℤ → ℤ
int_or a b = signed_of (bit_or (bits_of a) (bits_of b))

unfoldable pub int_xor : ℤ → ℤ → ℤ
int_xor a b = signed_of (bit_xor (bits_of a) (bits_of b))

-- `u << n` of a `uint64`, and `a >> n` of an `int64`; `none` is the panic of a negative count.
unfoldable pub shift_left : ℕ → ℤ → Option ℕ
shift_left u (pos n) = some (if leb 64 n then 0 else u * 2 ^ n % 2 ^ 64)
shift_left u (negsuc n) = none

unfoldable pub shift_right : ℤ → ℤ → Option ℤ
shift_right (pos a) (pos n) = some (pos (a / 2 ^ n))
shift_right (negsuc a) (pos n) = some (negsuc (a / 2 ^ n))
shift_right a (negsuc n) = none
