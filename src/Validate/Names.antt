-- ===== src/Validate/Names.antt =====
-- The loop that the four `hasDuplicate...` functions of validation.go share, over the names of what
-- they are given, and what it decides.
use dataprotection.Base.{
  List, [], ◌∷◌, Bool, true, false, ◌||◌, Text, text_eq, text_eq_iff, has_text, if◌then◌else◌,
  is_empty, trim_space, All, ◌≡◌, ◌≢◌, refl, sym, ◌↔◌, arith, inl, inr, Bool-cases,
}

-- `seen` is the map of the loop.
unfoldable pub duplicate_loop : List Text → List Text → Bool
duplicate_loop seen [] = false
duplicate_loop seen (raw ∷ refs) =
    let name = trim_space raw in
    let skip = duplicate_loop seen refs in
    let next = duplicate_loop (name ∷ seen) refs in
    if is_empty name then skip else if has_text name seen then true else next

unfoldable pub has_duplicate_names : List Text → Bool
unfolding duplicate_loop
has_duplicate_names refs = duplicate_loop [] refs

-- The names that count: trimmed, and not blank.
pub distinct_names : List Text → List Text
distinct_names [] = []
distinct_names (raw ∷ refs) =
    let name = trim_space raw in
    let rest = distinct_names refs in if is_empty name then rest else name ∷ rest

-- No name stands twice.
abbrev pub Distinct : List Text → Type 0
Distinct [] = Unit
Distinct (n ∷ ns) = All (λ m. n ≢ m) ns × Distinct ns

-- A name is none of those seen.
abbrev Fresh : List Text → Text → Type 0
Fresh seen m = has_text m seen ≡ false

has_text-cons :
    (m n : Text) (seen : List Text) → has_text m (n ∷ seen) ≡ (text_eq m n || has_text m seen)
unfolding has_text
has_text-cons m n seen = refl

Fresh-weaken : (n : Text) (seen ms : List Text) → All (Fresh (n ∷ seen)) ms → All (Fresh seen) ms
Fresh-weaken n seen [] h = tt
Fresh-weaken n seen (m ∷ ms) h =
    (ground (arith, has_text-cons m n seen, h.0), Fresh-weaken n seen ms h.1)

Fresh-ne : (n : Text) (seen ms : List Text) → All (Fresh (n ∷ seen)) ms → All (λ m. n ≢ m) ms
Fresh-ne n seen [] h = tt
Fresh-ne n seen (m ∷ ms) h = (
  λ e. ground (arith, has_text-cons m n seen, h.0, (text_eq_iff m n).1 (sym e)),
  Fresh-ne n seen ms h.1,
)

Fresh-add :
    (n : Text) (seen ms : List Text)
    → All (Fresh seen) ms
    → All (λ m. n ≢ m) ms
    → All (Fresh (n ∷ seen)) ms
Fresh-add n seen [] h k = tt
Fresh-add n seen (m ∷ ms) h k =
    (ground (arith, has_text-cons m n seen, h.0, k.0, text_eq_iff m n), Fresh-add n seen ms h.1 k.1)

duplicate_loop_sound :
    (seen refs : List Text)
    → duplicate_loop seen refs ≡ false
    → All (Fresh seen) (distinct_names refs) × Distinct (distinct_names refs)
unfolding duplicate_loop distinct_names
duplicate_loop_sound seen [] h = (tt, tt)
duplicate_loop_sound seen (raw ∷ refs) h = elim (Bool-cases (is_empty (trim_space raw))) [
  | inl e ↦ rw e (duplicate_loop_sound seen refs (rw e at h))
  | inr e ↦ elim (Bool-cases (has_text (trim_space raw) seen)) [
    | inl d ↦ cc (rw (e, d) at h)
    | inr d ↦
        let (fresh, distinct) =
          duplicate_loop_sound (trim_space raw ∷ seen) refs (rw (e, d) at h) in
        rw e (
          (d, Fresh-weaken (trim_space raw) seen _ fresh),
          (Fresh-ne (trim_space raw) seen _ fresh, distinct),
        )
  ]
]

duplicate_loop_complete :
    (seen refs : List Text)
    → All (Fresh seen) (distinct_names refs)
    → Distinct (distinct_names refs)
    → duplicate_loop seen refs ≡ false
unfolding duplicate_loop distinct_names
duplicate_loop_complete seen [] h k = refl
duplicate_loop_complete seen (raw ∷ refs) h k = elim (Bool-cases (is_empty (trim_space raw))) [
  | inl e ↦ rw e (duplicate_loop_complete seen refs (rw e at h) (rw e at k))
  | inr e ↦
      let h' : Fresh seen (trim_space raw) × All (Fresh seen) (distinct_names refs) = rw e at h in
      let k' : All (λ m. trim_space raw ≢ m) (distinct_names refs)
          × Distinct (distinct_names refs) =
        rw e at k in
      rw (e, h'.0)
        (duplicate_loop_complete (trim_space raw ∷ seen) refs
          (Fresh-add (trim_space raw) seen _ h'.1 k'.0) k'.1)
]

Fresh-nil : (ms : List Text) → All (Fresh []) ms
unfolding has_text
Fresh-nil [] = tt
Fresh-nil (m ∷ ms) = (refl, Fresh-nil ms)

-- The duplicate check is silent exactly when the names, trimmed and without the blank ones, are
-- pairwise different.
pub has_duplicate_names_iff :
    (refs : List Text) → (has_duplicate_names refs ≡ false) ↔ Distinct (distinct_names refs)
unfolding has_duplicate_names
has_duplicate_names_iff refs = (
  λ h. (duplicate_loop_sound [] refs h).1,
  λ h. duplicate_loop_complete [] refs (Fresh-nil (distinct_names refs)) h,
)
