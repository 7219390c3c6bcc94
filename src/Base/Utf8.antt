-- ===== src/Base/Utf8.antt =====
-- The bytes of a Go string: len(s) and s[:n]. A rune that s[:n] cuts leaves bytes that are no
-- UTF-8; such a byte is the element 0x110000 + byte of a text, one byte long.
use Prim.Native.Nat.{ℕ, zero, suc, ◌+◌, ◌-◌, ◌/◌, ◌%◌, ◌≤◌, ◌<◌}
use mathlib.Core.Path.{◌≡◌, refl}
use mathlib.Core.List.{List, [], ◌∷◌, ◌++◌, map}
use mathlib.Core.Logic.{inl, inr}
use native.Mathlib.Omega.{arith}
use dataprotection.Base.Tests.{ltb, leb, if◌then◌else◌, Bool-cases, leb→le}
use dataprotection.Base.Lists.{length, take, All}
use dataprotection.Base.Strings.{Text}

abbrev pub broken : ℕ → ℕ
broken b = 0x110000 + b

unfoldable pub encode_rune : ℕ → List ℕ
encode_rune c =
    if ltb c 0x80
    then c ∷ []
    else if ltb c 0x800
    then (0xc0 + c / 64) ∷ (0x80 + c % 64) ∷ []
    else if ltb c 0x10000
    then (0xe0 + c / 4096) ∷ (0x80 + c / 64 % 64) ∷ (0x80 + c % 64) ∷ []
    else if ltb c 0x110000
    then (0xf0 + c / 262144) ∷ (0x80 + c / 4096 % 64) ∷ (0x80 + c / 64 % 64) ∷ (0x80 + c % 64) ∷ []
    else (c - 0x110000) ∷ []

unfoldable pub width : ℕ → ℕ
unfolding encode_rune
width c = length (encode_rune c)

-- len(s)
unfoldable pub len : Text → ℕ
unfolding width
len [] = 0
len (c ∷ s) = width c + len s

-- s[:n], for n at most len(s)
unfoldable pub slice_to : ℕ → Text → Text
unfolding width encode_rune
slice_to n [] = []
slice_to n (c ∷ s) =
    let rest = slice_to (n - width c) s in
    if leb (width c) n then c ∷ rest else map broken (take n (encode_rune c))

width-broken : (b : ℕ) → width (broken b) ≡ 1
unfolding width
width-broken b = ground arith

len-map-broken-take : (n : ℕ) (bs : List ℕ) → len (map broken (take n bs)) ≤ n
unfolding len
len-map-broken-take zero bs = omega arith
len-map-broken-take (suc n) [] = omega arith
len-map-broken-take (suc n) (b ∷ bs) = omega (arith, width-broken b, len-map-broken-take n bs)

pub len-slice_to-le : (n : ℕ) (s : Text) → len (slice_to n s) ≤ n
unfolding len slice_to
len-slice_to-le n [] = omega arith
len-slice_to-le n (c ∷ s) = elim (Bool-cases (leb (width c) n)) [
  | inl h ↦ rw h (omega (arith, len-slice_to-le (n - width c) s, leb→le (width c) n h))
  | inr h ↦ rw h (len-map-broken-take n (encode_rune c))
]

pub len-append : (s t : Text) → len (s ++ t) ≡ len s + len t
unfolding len
len-append [] t = omega arith
len-append (c ∷ s) t = omega (arith, len-append s t)

abbrev pub IsAscii : ℕ → Type 0
IsAscii c = c < 128

width_ascii : (c : ℕ) → IsAscii c → width c ≡ 1
unfolding width
width_ascii c h = ground arith

-- In a text of ASCII characters bytes and characters are one.
pub len-eq-length : (s : Text) → All IsAscii s → len s ≡ length s
unfolding len
len-eq-length [] h = refl
len-eq-length (c ∷ s) h = omega (arith, width_ascii c h.0, len-eq-length s h.1)

pub slice_to-eq-take : (n : ℕ) (s : Text) → All IsAscii s → slice_to n s ≡ take n s
unfolding slice_to
slice_to-eq-take zero [] h = refl
slice_to-eq-take (suc n) [] h = refl
slice_to-eq-take zero (c ∷ s) h = ground (arith, width_ascii c h.0)
slice_to-eq-take (suc n) (c ∷ s) h = ground (arith, width_ascii c h.0, slice_to-eq-take n s h.1)
