-- ===== src/Naming/Bounds.antt =====
-- The length of a built name.
use dataprotection.Base.{
  ℕ, ◌-◌, ◌≤◌, List, ◌∷◌, ◌++◌, Text, inl, inr, arith, leb, leb→le, Bool-cases,
}
use dataprotection.Base.Utf8.{len, slice_to, len-slice_to-le}
use dataprotection.Base.Trim.{len-trim-le}
use dataprotection.Platform.{Unicode}
use dataprotection.Naming.{
  is_hyphen, trim_hyphens, or_default, short_hash, hashed_name, full_name, build_dns_label_name,
}

len-trim_hyphens-le : (s : Text) → len (trim_hyphens s) ≤ len s
unfolding trim_hyphens
len-trim_hyphens-le s = len-trim-le is_hyphen s

module _ (u : Unicode) where
  len-hashed_name-le :
      (max_length : ℕ) (hash name : Text) → len (hashed_name u max_length hash name) ≤ max_length
  unfolding hashed_name
  len-hashed_name-le max_length hash name =
      let prefix = or_default (trim_hyphens (slice_to (max_length - len hash - 1) name)) in
      let short = prefix ++ b'-' ∷ hash in
      ground (
        arith,
        len-slice_to-le max_length hash,
        len-slice_to-le (max_length - 1) hash,
        len-slice_to-le max_length short,
        len-trim_hyphens-le (slice_to max_length short),
      )

  -- Whatever the parts hold, the built name has at most the allowed number of bytes.
  pub len-build_dns_label_name-le :
      (max_length : ℕ) (parts : List Text)
      → len (build_dns_label_name u max_length parts) ≤ max_length
  unfolding build_dns_label_name
  len-build_dns_label_name-le max_length parts =
      let name = full_name u parts in
      elim (Bool-cases (leb (len name) max_length)) [
        | inl h ↦ rw h (leb→le _ _ h)
        | inr h ↦ rw h (len-hashed_name-le max_length (short_hash u name) name)
      ]
