-- ===== src/Naming/Fixed.antt =====
-- Which names a label value carries unchanged. The job observer looks resources up by the label
-- values that `buildBackupJobSpec` wrote, so that it finds them exactly where this holds.
use dataprotection.Base.{
  ℕ, ◌≤◌, ◌≡◌, refl, sym, ◌∙◌, [], ◌∷◌, ◌++◌, map, reverse, append_assoc, append-nil, Text, Bool,
  true, false, inl, inr, arith, Bool-cases, is_empty, is_space, trim_space, All, join,
}
use dataprotection.Base.Utf8.{len}
use dataprotection.Base.Trim.{Leads, All-reverse, trim_id}
use dataprotection.Platform.{Unicode, IsStandard}
use dataprotection.Naming.{
  is_hyphen, trim_hyphens, sanitize_step, sanitize_loop, sanitize_name, full_name,
  build_dns_label_name, build_label_value, max_label_value_length,
}
use dataprotection.Naming.Label.{IsLabelChar, IsLabel}
use dataprotection.Naming.Hash.{le→leb}

-- No hyphen follows a hyphen.
abbrev pub NoDouble : Text → Type 0
NoDouble [] = Unit
NoDouble (c ∷ s) = (is_hyphen c ≡ true → Leads is_hyphen s) × NoDouble s

label_char_no_space : (c : ℕ) → IsLabelChar c → is_space c ≡ false
unfolding is_space
label_char_no_space c h = ground arith

no_space-Leads : (s : Text) → All IsLabelChar s → Leads is_space s
no_space-Leads [] h = tt
no_space-Leads (c ∷ s) h = label_char_no_space c h.0

trim_space-label : (s : Text) → All IsLabelChar s → trim_space s ≡ s
unfolding trim_space
trim_space-label s h =
    trim_id is_space s (no_space-Leads s h)
      (no_space-Leads (reverse s) (All-reverse IsLabelChar s h))

is_empty-concat : (s : Text) (c : ℕ) → is_empty (s ++ c ∷ []) ≡ false
is_empty-concat [] c = refl
is_empty-concat (d ∷ s) c = refl

refuted : (b : Bool) {x : Bool} → (b ≡ true → x ≡ false) → x ≡ true → b ≡ false
refuted true h e = cc (h refl)
refuted false h e = refl

module _ (u : Unicode) (std : IsStandard u) where
  to_lower_fixed : (c : ℕ) → IsLabelChar c → u.to_lower c ≡ c
  to_lower_fixed c h = ground (arith, std.to_lower_ascii c)

  map-to_lower_fixed : (s : Text) → All IsLabelChar s → map u.to_lower s ≡ s
  map-to_lower_fixed [] h = refl
  map-to_lower_fixed (c ∷ s) h = rw (to_lower_fixed c h.0, map-to_lower_fixed s h.1)

  sanitize_step_kept :
      (r : ℕ) (last_hyphen : Bool) (out : Text)
      → IsLabelChar r
      → is_hyphen r ≡ false
      → sanitize_step u r last_hyphen out ≡ (false, out ++ r ∷ [])
  unfolding sanitize_step
  sanitize_step_kept r last_hyphen out h k =
      ground (arith, std.is_lower_ascii r, std.is_digit_ascii r)

  sanitize_step_hyphen :
      (r : ℕ) (out : Text)
      → is_hyphen r ≡ true
      → is_empty out ≡ false
      → sanitize_step u r false out ≡ (true, out ++ r ∷ [])
  unfolding sanitize_step
  sanitize_step_hyphen r out h k = ground (arith, std.is_lower_ascii r, std.is_digit_ascii r)

  sanitize_loop_fixed :
      (s : Text) (last_hyphen : Bool) (out : Text)
      → All IsLabelChar s
      → NoDouble s
      → (last_hyphen ≡ true → Leads is_hyphen s)
      → (is_empty out ≡ true → Leads is_hyphen s)
      → sanitize_loop u s last_hyphen out ≡ out ++ s
  unfolding sanitize_loop
  sanitize_loop_fixed [] last_hyphen out h d k l = sym (append-nil out)
  sanitize_loop_fixed (r ∷ s) last_hyphen out h d k l = elim (Bool-cases (is_hyphen r)) [
    | inr e ↦ rw (sanitize_step_kept r last_hyphen out h.0 e) (
        sanitize_loop_fixed s false (out ++ r ∷ []) h.1 d.1 (λ x. cc)
          (λ x. cc (is_empty-concat out r))
        ∙ append_assoc out (r ∷ []) s)
    | inl e ↦
        rw (refuted last_hyphen k e, sanitize_step_hyphen r out e (refuted (is_empty out) l e))
          (sanitize_loop_fixed s true (out ++ r ∷ []) h.1 d.1 (λ x. d.0 e)
              (λ x. cc (is_empty-concat out r))
            ∙ append_assoc out (r ∷ []) s)
  ]

  -- A label with no two hyphens in a row is its own sanitized name.
  pub sanitize_name_fixed : (s : Text) → IsLabel s → NoDouble s → sanitize_name u s ≡ s
  unfolding sanitize_name trim_hyphens
  sanitize_name_fixed s h d =
      rw
        (
          map-to_lower_fixed s h.chars,
          trim_space-label s h.chars,
          h.nonempty,
          sanitize_loop_fixed s false [] h.chars d (λ x. cc) (λ x. h.first),
          trim_id is_hyphen s h.first h.last,
          h.nonempty,
        )
        refl

  full_name_fixed : (s : Text) → IsLabel s → NoDouble s → full_name u (s ∷ []) ≡ s
  unfolding full_name join
  full_name_fixed s h d = rw (sanitize_name_fixed s h d, h.nonempty) refl

  -- A name that is a label of at most 63 bytes with no two hyphens in a row is its own label value,
  -- so that looking it up by the label finds it.
  pub build_label_value_fixed :
      (s : Text) → IsLabel s → NoDouble s → len s ≤ 63 → build_label_value u (s ∷ []) ≡ s
  unfolding build_label_value build_dns_label_name
  build_label_value_fixed s h d k =
      rw (full_name_fixed s h d, le→leb (len s) max_label_value_length k) refl
