-- ===== src/Naming/Hash.antt =====
-- The shortened form of a name that is too long: a label as well.
use dataprotection.Base.{
  ℕ, zero, suc, ◌+◌, ◌-◌, ◌/◌, ◌%◌, ◌≤◌, ◌<◌, ◌≡◌, refl, List, [], ◌∷◌, ◌++◌, reverse, Text, true,
  false, inl, inr, arith, leb, ltb, Bool-cases, is_empty, length, take, All, All-map,
}
use dataprotection.Base.Utf8.{
  IsAscii, len, slice_to, slice_to-eq-take, len-slice_to-le, len-append, width,
}
use dataprotection.Base.Trim.{Leads, All-reverse, len-trim-le}
use dataprotection.Platform.{Unicode, IsStandard}
use dataprotection.Naming.{
  is_hyphen, trim_hyphens, or_default, encode_to_string, hex_digit, short_hash, hashed_name,
  full_name, build_dns_label_name,
}
use dataprotection.Naming.Label.{
  IsLabelChar, IsLabel, or_default-IsLabel, IsLabel-join, full_name-IsLabel,
}

-- A digit or a small letter of ASCII.
abbrev IsHexChar : ℕ → Type 0
IsHexChar c = IsLabelChar c × (is_hyphen c ≡ false) × IsAscii c

hex_digit-IsHexChar : (d : ℕ) → d < 16 → IsHexChar (hex_digit d)
hex_digit-IsHexChar d h = ground arith

encode_to_string-IsHexChar :
    (bs : List ℕ) → All (λ b. b < 256) bs → All IsHexChar (encode_to_string bs)
unfolding encode_to_string
encode_to_string-IsHexChar [] h = tt
encode_to_string-IsHexChar (b ∷ bs) h = (
  hex_digit-IsHexChar (b / 16) (omega (arith, h.0)),
  (hex_digit-IsHexChar (b % 16) (omega arith), encode_to_string-IsHexChar bs h.1),
)

All-take {κ} : (P : ℕ → Type κ) (n : ℕ) (s : Text) → All P s → All P (take n s)
All-take P zero s h = tt
All-take P (suc n) [] h = tt
All-take P (suc n) (c ∷ s) h = (h.0, All-take P n s h.1)

no_hyphens-Leads : (s : Text) → All (λ c. is_hyphen c ≡ false) s → Leads is_hyphen s
no_hyphens-Leads [] h = tt
no_hyphens-Leads (c ∷ s) h = h.0

hex-IsLabel : (s : Text) → is_empty s ≡ false → All IsHexChar s → IsLabel s
hex-IsLabel s e h = record {
  chars = All-map (λ c p. p.0) s h;
  nonempty = e;
  first = no_hyphens-Leads s (All-map (λ c p. p.1) s h);
  last = no_hyphens-Leads (reverse s) (All-reverse _ s (All-map (λ c p. p.1) s h));
}

take_encoded-nonempty :
    (bs : List ℕ) → length bs ≡ 20 → is_empty (take 8 (encode_to_string bs)) ≡ false
unfolding encode_to_string
take_encoded-nonempty [] h = absurd (omega arith)
take_encoded-nonempty (b ∷ bs) h = refl

pub label-IsAscii : (s : Text) → All IsLabelChar s → All IsAscii s
label-IsAscii s h = All-map (λ c p. label_char c p) s h
  where
    label_char : (c : ℕ) → IsLabelChar c → IsAscii c
    label_char c p = ground arith

slice_to-IsLabelChar : (n : ℕ) (s : Text) → All IsLabelChar s → All IsLabelChar (slice_to n s)
slice_to-IsLabelChar n s h =
    rw (slice_to-eq-take n s (label-IsAscii s h)) (All-take IsLabelChar n s h)

len-or_default-le : (n : ℕ) (s : Text) → 2 ≤ n → len s ≤ n → len (or_default (trim_hyphens s)) ≤ n
unfolding trim_hyphens len
len-or_default-le n s h k = ground (arith, len-trim-le is_hyphen s)

too_short : (max_length n : ℕ) → 11 ≤ max_length → n ≤ 8 → ltb max_length (n + 2) ≡ false
too_short max_length n h k = ground arith

pub le→leb : (a b : ℕ) → a ≤ b → leb a b ≡ true
le→leb a b h = ground arith

module _ (u : Unicode) (std : IsStandard u) where
  short_hash-IsLabel : (s : Text) → IsLabel (short_hash u s)
  unfolding short_hash
  short_hash-IsLabel s =
      let hex = encode_to_string-IsHexChar (u.sha1 s) (std.sha1_bytes s) in
      rw (slice_to-eq-take 8 (encode_to_string (u.sha1 s)) (All-map (λ c p. p.2) _ hex)) (
        hex-IsLabel (take 8 (encode_to_string (u.sha1 s)))
          (take_encoded-nonempty (u.sha1 s) (std.length-sha1 s)) (All-take IsHexChar 8 _ hex))

  hashed_name-IsLabel :
      (max_length : ℕ) (hash name : Text)
      → 11 ≤ max_length
      → len hash ≤ 8
      → IsLabel hash
      → All IsLabelChar name
      → IsLabel (hashed_name u max_length hash name)
  unfolding hashed_name
  hashed_name-IsLabel max_length hash name h k l m =
      let cut = slice_to (max_length - len hash - 1) name in
      let prefix = or_default (trim_hyphens cut) in
      let whole =
        IsLabel-join prefix hash
          (or_default-IsLabel cut (slice_to-IsLabelChar (max_length - len hash - 1) name m)) l in
      let short = prefix ++ b'-' ∷ hash in
      let room : len prefix ≤ max_length - len hash - 1 =
        len-or_default-le (max_length - len hash - 1) cut (omega (arith, h, k))
          (len-slice_to-le (max_length - len hash - 1) name) in
      let fits : len short ≤ max_length =
        unfold len width in omega (arith, room, h, k, len-append prefix (b'-' ∷ hash)) in
      rw (too_short max_length (len hash) h k, le→leb (len short) max_length fits) whole

  -- Built from ASCII parts for a limit of at least 11 bytes, a name is a DNS label.
  pub build_dns_label_name-IsLabel :
      (max_length : ℕ) (parts : List Text)
      → 11 ≤ max_length
      → All (All IsAscii) parts
      → IsLabel (build_dns_label_name u max_length parts)
  unfolding build_dns_label_name
  build_dns_label_name-IsLabel max_length parts h k =
      let name = full_name u parts in
      elim (Bool-cases (leb (len name) max_length)) [
        | inl e ↦ rw e (full_name-IsLabel u std parts k)
        | inr e ↦ rw e (
            hashed_name-IsLabel max_length (short_hash u name) name h
              (unfold short_hash in len-slice_to-le 8 (encode_to_string (u.sha1 name)))
              (short_hash-IsLabel name) (full_name-IsLabel u std parts k).chars)
      ]
