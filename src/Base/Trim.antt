-- ===== src/Base/Trim.antt =====
-- What `trim` leaves: nothing longer, the same characters, and no trimmed character at an end.
use Prim.Native.Nat.{ℕ, ◌≤◌}
use mathlib.Core.Path.{◌≡◌, refl}
use mathlib.Core.Logic.{inl, inr}
use mathlib.Core.Bool.{Bool, false}
use mathlib.Core.List.{List, [], ◌∷◌, ◌++◌, reverse, reverse-append, reverse-reverse}
use native.Mathlib.Omega.{arith}
use dataprotection.Base.Tests.{Bool-cases}
use dataprotection.Base.Lists.{All, All-append}
use dataprotection.Base.Strings.{Text, trim_left, trim}
use dataprotection.Base.Utf8.{len, len-append}

pub reverse-cons {ℓ} : {A : Type ℓ} (c : A) (s : List A) → reverse (c ∷ s) ≡ reverse s ++ c ∷ []
reverse-cons c s = reverse-append (c ∷ []) s

pub All-reverse {ℓ κ} : {A : Type ℓ} (P : A → Type κ) (s : List A) → All P s → All P (reverse s)
All-reverse P [] h = tt
All-reverse P (c ∷ s) h =
    rw reverse-cons (All-append P (reverse s) (c ∷ []) (All-reverse P s h.1) (h.0, tt))

pub len-reverse : (s : Text) → len (reverse s) ≡ len s
unfolding len
len-reverse [] = refl
len-reverse (c ∷ s) =
    rw (reverse-cons c s) (omega (arith, len-append (reverse s) (c ∷ []), len-reverse s))

-- The text is empty or begins with a character that fails the test.
abbrev pub Leads : (ℕ → Bool) → Text → Type 0
Leads p [] = Unit
Leads p (c ∷ s) = p c ≡ false

module _ (p : ℕ → Bool) where
  trim_left-Leads : (s : Text) → Leads p (trim_left p s)
  unfolding trim_left
  trim_left-Leads [] = tt
  trim_left-Leads (c ∷ s) = elim (Bool-cases (p c)) [
    | inl h ↦ rw h (trim_left-Leads s)
    | inr h ↦ rw h h
  ]

  trim_left-All {κ} : (P : ℕ → Type κ) (s : Text) → All P s → All P (trim_left p s)
  unfolding trim_left
  trim_left-All P [] h = tt
  trim_left-All P (c ∷ s) h = elim (Bool-cases (p c)) [
    | inl e ↦ rw e (trim_left-All P s h.1)
    | inr e ↦ rw e h
  ]

  len-trim_left-le : (s : Text) → len (trim_left p s) ≤ len s
  unfolding trim_left len
  len-trim_left-le [] = omega arith
  len-trim_left-le (c ∷ s) = elim (Bool-cases (p c)) [
    | inl h ↦ rw h (omega (arith, len-trim_left-le s))
    | inr h ↦ rw h (omega arith)
  ]

  -- A character that stays stops the trimming.
  trim_left-append :
      (s : Text) (c : ℕ) → p c ≡ false → trim_left p (s ++ c ∷ []) ≡ trim_left p s ++ c ∷ []
  unfolding trim_left
  trim_left-append [] c h = rw h
  trim_left-append (d ∷ s) c h = elim (Bool-cases (p d)) [
    | inl e ↦ rw (e, trim_left-append s c h)
    | inr e ↦ rw e
  ]

  trim_left_id : (s : Text) → Leads p s → trim_left p s ≡ s
  unfolding trim_left
  trim_left_id [] h = refl
  trim_left_id (c ∷ s) h = rw h

  -- The part of `trim` that works on the end.
  trim_right : Text → Text
  trim_right s = reverse (trim_left p (reverse s))

  trim_right-cons : (c : ℕ) (s : Text) → p c ≡ false → trim_right (c ∷ s) ≡ c ∷ trim_right s
  unfolding trim_right
  trim_right-cons c s h = rw (reverse-cons, trim_left-append (reverse s) c h, reverse-append) refl

  trim_right-Leads : (s : Text) → Leads p s → Leads p (trim_right s)
  trim_right-Leads [] h = unfold trim_right trim_left in tt
  trim_right-Leads (c ∷ s) h = rw (trim_right-cons c s h) h

  pub trim-Leads : (s : Text) → Leads p (trim p s)
  unfolding trim trim_right
  trim-Leads s = trim_right-Leads (trim_left p s) (trim_left-Leads s)

  -- A text with no trimmed character at an end stays as it is.
  trim_fixed : (t : Text) → Leads p t → Leads p (reverse t) → trim p t ≡ t
  unfolding trim
  trim_fixed t h k = rw (trim_left_id t h, trim_left_id (reverse t) k, reverse-reverse) refl

  pub trim-Leads_reverse : (s : Text) → Leads p (reverse (trim p s))
  unfolding trim
  trim-Leads_reverse s = rw reverse-reverse (trim_left-Leads (reverse (trim_left p s)))

  pub trim-All {κ} : (P : ℕ → Type κ) (s : Text) → All P s → All P (trim p s)
  unfolding trim
  trim-All P s h = All-reverse P _ (trim_left-All P _ (All-reverse P _ (trim_left-All P s h)))

  pub len-trim-le : (s : Text) → len (trim p s) ≤ len s
  unfolding trim
  len-trim-le s = omega (
    arith,
    len-reverse (trim_left p (reverse (trim_left p s))),
    len-trim_left-le (reverse (trim_left p s)),
    len-reverse (trim_left p s),
    len-trim_left-le s,
  )

  -- A text whose ends stay is its own trim.
  pub trim_id : (s : Text) → Leads p s → Leads p (reverse s) → trim p s ≡ s
  unfolding trim
  trim_id s h k = rw (trim_left_id s h, trim_left_id (reverse s) k) (reverse-reverse s)

  pub trim_idem : (s : Text) → trim p (trim p s) ≡ trim p s
  trim_idem s = trim_id (trim p s) (trim-Leads s) (trim-Leads_reverse s)

  pub trim-trim : (s : Text) → trim p (trim p s) ≡ trim p s
  trim-trim s = trim_fixed (trim p s) (trim-Leads s) (trim-Leads_reverse s)
