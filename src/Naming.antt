-- ===== src/Naming.antt =====
-- api/v1alpha1/naming.go: names of Kubernetes objects and label values from free text. The proofs
-- are in the modules below this one.
pub mod Bounds
pub mod Label
pub mod Hash
pub mod Fixed
use dataprotection.Base.{
  ℕ, ◌+◌, ◌-◌, ◌/◌, ◌%◌, List, [], ◌∷◌, ◌++◌, map, Bool, true, false, not, ◌&&◌, ◌||◌, Text, codes,
  ltb, leb, ◌==◌, if◌then◌else◌, is_empty, is_space, trim, trim_space, join, select,
}
use dataprotection.Base.Utf8.{len, slice_to}
use dataprotection.Platform.{Unicode}

abbrev pub max_cron_job_name_length : ℕ
max_cron_job_name_length = 52

abbrev pub max_job_name_length : ℕ
max_job_name_length = 63

abbrev pub max_label_value_length : ℕ
max_label_value_length = 63

abbrev pub max_snapshot_name_length : ℕ
max_snapshot_name_length = 63

abbrev pub is_hyphen : ℕ → Bool
is_hyphen c = c == b'-'

-- strings.Trim(s, "-")
unfoldable pub trim_hyphens : Text → Text
trim_hyphens s = trim is_hyphen s

-- The fallback of an empty name.
abbrev pub default_name : Text
default_name = codes "dp"

-- hex.EncodeToString
abbrev pub hex_digit : ℕ → ℕ
hex_digit d = if ltb d 10 then b'0' + d else b'a' + (d - 10)

unfoldable pub encode_to_string : List ℕ → Text
encode_to_string [] = []
encode_to_string (b ∷ bs) = hex_digit (b / 16) ∷ hex_digit (b % 16) ∷ encode_to_string bs

-- What replaces a result that turned out empty.
abbrev pub or_default : Text → Text
or_default s = if is_empty s then default_name else s

module _ (u : Unicode) where
  -- One round of the loop of `sanitizeName` over `lastHyphen` and the builder.
  unfoldable pub sanitize_step : ℕ → Bool → Text → Bool × Text
  sanitize_step r last_hyphen out =
      if u.is_lower r || u.is_digit r
      then (false, out ++ r ∷ [])
      else if (r == b'-') || (r == b'_') || (r == b'.') || (r == b'/') || is_space r
      then (if not last_hyphen && not (is_empty out)
          then (true, out ++ b'-' ∷ [])
          else (last_hyphen, out))
      else (if not last_hyphen && not (is_empty out)
          then (true, out ++ b'-' ∷ [])
          else (last_hyphen, out))

  unfoldable pub sanitize_loop : Text → Bool → Text → Text
  sanitize_loop [] last_hyphen out = out
  sanitize_loop (r ∷ s) last_hyphen out =
      let (last_hyphen', out') = sanitize_step r last_hyphen out in
      sanitize_loop s last_hyphen' out'

  unfoldable pub sanitize_name : Text → Text
  unfolding sanitize_loop trim_hyphens
  sanitize_name value =
      let trimmed = trim_space (map u.to_lower value) in
      if is_empty trimmed
      then default_name
      else or_default (trim_hyphens (sanitize_loop trimmed false []))

  unfoldable pub short_hash : Text → Text
  unfolding encode_to_string
  short_hash value = slice_to 8 (encode_to_string (u.sha1 value))

  -- Steps 4 to 7 of `buildDNSLabelName`, for a name that is too long.
  unfoldable pub hashed_name : ℕ → Text → Text → Text
  unfolding trim_hyphens
  hashed_name max_length hash name =
      if ltb max_length (len hash + 2)
      then (if leb max_length (len hash)
          then slice_to max_length hash
          else slice_to (max_length - 1) hash)
      else let prefix = or_default (trim_hyphens (slice_to (max_length - len hash - 1) name)) in
        let short = prefix ++ b'-' ∷ hash in
        if leb (len short) max_length then short else trim_hyphens (slice_to max_length short)

  -- The sanitized parts, joined.
  unfoldable pub full_name : List Text → Text
  unfolding sanitize_name
  full_name parts =
      let sanitized = select (λ part. not (is_empty part)) (map sanitize_name parts) in
      join (if is_empty sanitized then default_name ∷ [] else sanitized) (codes "-")

  unfoldable pub build_dns_label_name : ℕ → List Text → Text
  unfolding full_name hashed_name short_hash
  build_dns_label_name max_length parts =
      let name = full_name parts in
      if leb (len name) max_length then name else hashed_name max_length (short_hash name) name

  unfoldable pub build_cron_job_name : List Text → Text
  build_cron_job_name parts = build_dns_label_name max_cron_job_name_length parts

  unfoldable pub build_job_name : List Text → Text
  build_job_name parts = build_dns_label_name max_job_name_length parts

  unfoldable pub build_label_value : List Text → Text
  build_label_value parts = build_dns_label_name max_label_value_length parts

  unfoldable pub build_snapshot_name : List Text → Text
  build_snapshot_name parts = build_dns_label_name max_snapshot_name_length parts
