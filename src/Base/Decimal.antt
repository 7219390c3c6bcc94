-- ===== src/Base/Decimal.antt =====
-- Go's strconv for decimal integers: Itoa, and ParseInt with base 10.
use dataprotection.Base.Tests.{ltb, leb, ◌==◌, if◌then◌else◌}
use dataprotection.Base.Strings.{Text}
use dataprotection.Base.Int.{ℤ, pos, negsuc}
use Prim.Native.Nat.{ℕ, zero, suc, ◌+◌, ◌-◌, ◌*◌, ◌/◌, ◌%◌, ◌^◌}
use mathlib.Core.Bool.{Bool, true, false, ◌&&◌}
use mathlib.Core.List.{[], ◌∷◌}
use mathlib.Core.Option.{Option, none, some}

-- The digits of n in front of those already written. The fuel is at least the number of digits.
unfoldable pub digits_loop : ℕ → ℕ → Text → Text
digits_loop zero n written = written
digits_loop (suc fuel) n written =
    let written' = (b'0' + n % 10) ∷ written in
    let rest = digits_loop fuel (n / 10) written' in if ltb n 10 then written' else rest

-- A number n has at most n + 1 digits.
unfoldable pub decimal : ℕ → Text
unfolding digits_loop
decimal n = digits_loop (suc n) n []

unfoldable pub itoa : ℤ → Text
unfolding decimal
itoa (pos n) = decimal n
itoa (negsuc n) = b'-' ∷ decimal (suc n)

unfoldable pub digits_value : ℕ → Text → Option ℕ
digits_value acc [] = some acc
digits_value acc (c ∷ s) =
    if leb b'0' c && leb c b'9' then digits_value (acc * 10 + (c - b'0')) s else none

-- A magnitude with its sign, where it fits in the given number of bits.
unfoldable pub ranged : ℕ → Bool → Option ℕ → Option ℤ
ranged bits negative none = none
ranged bits false (some n) = if ltb n (2 ^ (bits - 1)) then some (pos n) else none
ranged bits true (some zero) = some (pos 0)
ranged bits true (some (suc n)) = if ltb n (2 ^ (bits - 1)) then some (negsuc n) else none

unfoldable pub magnitude : Text → Option ℕ
unfolding digits_value
magnitude [] = none
magnitude (c ∷ s) = digits_value 0 (c ∷ s)

-- strconv.ParseInt(s, 10, bits); an error is `none`.
unfoldable pub parse_int : ℕ → Text → Option ℤ
unfolding ranged magnitude
parse_int bits [] = none
parse_int bits (c ∷ s) =
    if c == b'-'
    then ranged bits true (magnitude s)
    else if c == b'+'
    then ranged bits false (magnitude s)
    else ranged bits false (magnitude (c ∷ s))
