-- ===== src/Naming/Label.antt =====
-- A built name is a DNS label: small letters, digits and inner hyphens.
use dataprotection.Base.{
  ℕ, ◌≡◌, refl, List, [], ◌∷◌, ◌++◌, map, reverse, Text, Bool, true, false, not, ◌||◌, inl, inr,
  arith, Bool-cases, if◌then◌else◌, is_empty, is_space, codes, append_assoc, All, All-append, trim,
  trim_space, join, reverse-append, select,
}
use dataprotection.Base.Utf8.{IsAscii}
use dataprotection.Base.Trim.{Leads, trim-Leads, trim-Leads_reverse, trim-All, reverse-cons}
use dataprotection.Platform.{Unicode, IsStandard, ascii_lower, ascii_digit}
use dataprotection.Naming.{
  is_hyphen, trim_hyphens, or_default, default_name, sanitize_step, sanitize_loop, sanitize_name,
  full_name,
}

-- A character that a label may hold.
abbrev pub is_label_char : ℕ → Bool
is_label_char c = ascii_lower c || ascii_digit c || is_hyphen c

abbrev pub IsLabelChar : ℕ → Type 0
IsLabelChar c = is_label_char c ≡ true

-- RFC 1123: not empty, of the allowed characters, with no hyphen at either end.
pub record IsLabel (s : Text) : Type 0 where
  pub chars : All IsLabelChar s
  pub nonempty : is_empty s ≡ false
  pub first : Leads is_hyphen s
  pub last : Leads is_hyphen (reverse s)

default_name-IsLabel : IsLabel default_name
default_name-IsLabel = record {
  chars = (refl, (refl, tt));
  nonempty = refl;
  first = refl;
  last = refl;
}

-- Trimming hyphens off allowed characters gives a label, or nothing, which is replaced.
pub or_default-IsLabel : (s : Text) → All IsLabelChar s → IsLabel (or_default (trim_hyphens s))
unfolding trim_hyphens
or_default-IsLabel s h = elim (Bool-cases (is_empty (trim is_hyphen s))) [
  | inl e ↦ rw e default_name-IsLabel
  | inr e ↦ rw e (record {
    chars = trim-All is_hyphen IsLabelChar s h;
    nonempty = e;
    first = trim-Leads is_hyphen s;
    last = trim-Leads_reverse is_hyphen s;
  })
]

Leads-append : (s t : Text) → is_empty s ≡ false → Leads is_hyphen s → Leads is_hyphen (s ++ t)
Leads-append [] t e h = cc
Leads-append (c ∷ s) t e h = h

is_empty-reverse : (s : Text) → is_empty s ≡ false → is_empty (reverse s) ≡ false
is_empty-reverse [] h = cc
is_empty-reverse (c ∷ s) h = rw (reverse-cons c s) (go (reverse s))
  where
    go : (t : Text) → is_empty (t ++ c ∷ []) ≡ false
    go [] = refl
    go (d ∷ t) = refl

is_empty-append : (s t : Text) → is_empty s ≡ false → is_empty (s ++ t) ≡ false
is_empty-append [] t h = cc
is_empty-append (c ∷ s) t h = refl

-- Two labels joined by a hyphen are a label.
pub IsLabel-join : (s t : Text) → IsLabel s → IsLabel t → IsLabel (s ++ b'-' ∷ t)
IsLabel-join s t a b = record {
  chars = All-append IsLabelChar s (b'-' ∷ t) a.chars (refl, b.chars);
  nonempty = is_empty-append s (b'-' ∷ t) a.nonempty;
  first = Leads-append s (b'-' ∷ t) a.nonempty a.first;
  last =
      rw (reverse-append s (b'-' ∷ t), reverse-cons b'-' t)
        (Leads-append (reverse t ++ b'-' ∷ []) (reverse s)
          (is_empty-append (reverse t) (b'-' ∷ []) (is_empty-reverse t b.nonempty))
          (Leads-append (reverse t) (b'-' ∷ []) (is_empty-reverse t b.nonempty) b.last));
}

join-IsLabel :
    (s : Text) (ps : List Text) → IsLabel s → All IsLabel ps → IsLabel (join (s ∷ ps) (codes "-"))
unfolding join
join-IsLabel s [] h k = h
join-IsLabel s (t ∷ ps) h k =
    rw (append_assoc s (b'-' ∷ []) (join (t ∷ ps) (codes "-")))
      (IsLabel-join s (join (t ∷ ps) (codes "-")) h (join-IsLabel t ps k.0 k.1))

All-select : (p : Text → Bool) (ps : List Text) → All IsLabel ps → All IsLabel (select p ps)
All-select p [] h = tt
All-select p (s ∷ ps) h = elim (Bool-cases (p s)) [
  | inl e ↦ rw e (h.0, All-select p ps h.1)
  | inr e ↦ rw e (All-select p ps h.1)
]

joined_parts-IsLabel :
    (ps : List Text)
    → All IsLabel ps
    → IsLabel (join (if is_empty ps then default_name ∷ [] else ps) (codes "-"))
joined_parts-IsLabel [] h = join-IsLabel default_name [] default_name-IsLabel tt
joined_parts-IsLabel (s ∷ ps) h = join-IsLabel s ps h.0 h.1

module _ (u : Unicode) (std : IsStandard u) where
  to_lower-IsAscii : (c : ℕ) → IsAscii c → IsAscii (u.to_lower c)
  to_lower-IsAscii c h = ground (arith, std.to_lower_ascii c h)

  map-to_lower-IsAscii : (s : Text) → All IsAscii s → All IsAscii (map u.to_lower s)
  map-to_lower-IsAscii [] h = tt
  map-to_lower-IsAscii (c ∷ s) h = (to_lower-IsAscii c h.0, map-to_lower-IsAscii s h.1)

  kept-IsLabelChar : (c : ℕ) → IsAscii c → (u.is_lower c || u.is_digit c) ≡ true → IsLabelChar c
  kept-IsLabelChar c h k = ground (arith, std.is_lower_ascii c h, std.is_digit_ascii c h)

  sanitize_step-IsLabelChar :
      (r : ℕ) (last_hyphen : Bool) (out : Text)
      → IsAscii r
      → All IsLabelChar out
      → All IsLabelChar (sanitize_step u r last_hyphen out).1
  unfolding sanitize_step
  sanitize_step-IsLabelChar r last_hyphen out h k = ground (
    arith,
    λ (e : (u.is_lower r || u.is_digit r) ≡ true).
        All-append IsLabelChar out (r ∷ []) k (kept-IsLabelChar r h e, tt),
    All-append IsLabelChar out (b'-' ∷ []) k (refl, tt),
  )

  sanitize_loop-IsLabelChar :
      (s : Text) (last_hyphen : Bool) (out : Text)
      → All IsAscii s
      → All IsLabelChar out
      → All IsLabelChar (sanitize_loop u s last_hyphen out)
  unfolding sanitize_loop
  sanitize_loop-IsLabelChar [] last_hyphen out h k = k
  sanitize_loop-IsLabelChar (r ∷ s) last_hyphen out h k =
      sanitize_loop-IsLabelChar s (sanitize_step u r last_hyphen out).0
        (sanitize_step u r last_hyphen out).1 h.1
        (sanitize_step-IsLabelChar r last_hyphen out h.0 k)

  -- The name of an ASCII text is a label, also where the text is blank or has no allowed character.
  pub sanitize_name-IsLabel : (s : Text) → All IsAscii s → IsLabel (sanitize_name u s)
  unfolding sanitize_name trim_space
  sanitize_name-IsLabel s h =
      let trimmed = trim is_space (map u.to_lower s) in
      elim (Bool-cases (is_empty trimmed)) [
        | inl e ↦ rw e default_name-IsLabel
        | inr e ↦ rw e (
            or_default-IsLabel (sanitize_loop u trimmed false []) (
              sanitize_loop-IsLabelChar trimmed false []
                (trim-All is_space IsAscii (map u.to_lower s) (map-to_lower-IsAscii s h)) tt))
      ]

  map-sanitize_name-IsLabel :
      (parts : List Text) → All (All IsAscii) parts → All IsLabel (map (sanitize_name u) parts)
  map-sanitize_name-IsLabel [] h = tt
  map-sanitize_name-IsLabel (s ∷ parts) h =
      (sanitize_name-IsLabel s h.0, map-sanitize_name-IsLabel parts h.1)

  -- The joined names of ASCII parts are a label, before the length is looked at.
  pub full_name-IsLabel :
      (parts : List Text) → All (All IsAscii) parts → IsLabel (full_name u parts)
  unfolding full_name
  full_name-IsLabel parts h =
      joined_parts-IsLabel (select (λ part. not (is_empty part)) (map (sanitize_name u) parts))
        (All-select _ (map (sanitize_name u) parts) (map-sanitize_name-IsLabel parts h))
