-- ===== src/Controllers/JobObserver/Annotation.antt =====
-- The annotation with the names of the notification endpoints, as it is written and read back.
use dataprotection.Base.{
  ℕ, List, [], ◌∷◌, ◌++◌, true, false, not, Text, codes, text_lt, is_empty, trim_space, split, join,
  map, select, is_space, All, All-map, ◌==◌, ◌≡◌, refl, ap, ◌∙◌, Bool-cases, inl, inr, append_assoc,
}
use dataprotection.Base.Sort.{sort, sort-All}
use dataprotection.Base.Trim.{trim-All, trim-trim}
use dataprotection.Kube.Core.{LocalObjectReference}
use dataprotection.Runtime.Labels.{notification_ref_names}
use dataprotection.Controllers.JobObserver.{parse_notification_annotation}

abbrev comma : ℕ
comma = b','

-- A text without a comma.
abbrev pub HasNoComma : Text → Type 0
HasNoComma s = All (λ c. (c == comma) ≡ false) s

-- A part of the annotation: no comma in it, no space around it, and not empty.
abbrev IsPart : Text → Type 0
IsPart s = HasNoComma s × (trim_space s ≡ s) × (not (is_empty s) ≡ true)

split_one : (s : Text) → HasNoComma s → split s comma ≡ s ∷ []
unfolding split
split_one [] h = refl
split_one (c ∷ s) h = rw (h.0, split_one s h.1) refl

split_more : (s t : Text) → HasNoComma s → split (s ++ comma ∷ t) comma ≡ s ∷ split t comma
unfolding split
split_more [] t h = refl
split_more (c ∷ s) t h = rw (h.0, split_more s t h.1) refl

join-one : (p : Text) → join (p ∷ []) (codes ",") ≡ p
unfolding join
join-one p = refl

join-more :
    (p q : Text) (ps : List Text)
    → join (p ∷ q ∷ ps) (codes ",") ≡ p ++ comma ∷ join (q ∷ ps) (codes ",")
unfolding join
join-more p q ps = append_assoc p (codes ",") (join (q ∷ ps) (codes ","))

-- The parts of a list that is not empty.
split-join :
    (p : Text) (ps : List Text)
    → All HasNoComma (p ∷ ps)
    → split (join (p ∷ ps) (codes ",")) comma ≡ p ∷ ps
split-join p [] h = ap (λ t. split t comma) (join-one p) ∙ split_one p h.0
split-join p (q ∷ ps) h =
    ap (λ t. split t comma) (join-more p q ps)
    ∙ split_more p (join (q ∷ ps) (codes ",")) h.0
    ∙ ap (λ qs. p ∷ qs) (split-join q ps h.1)

kept :
    (names : List Text)
    → All IsPart names
    → select (λ name. not (is_empty name)) (map trim_space names) ≡ names
kept [] h = refl
kept (n ∷ names) h = rw (h.0.1, h.0.2) (ap (λ ns. n ∷ ns) (kept names h.1))

-- The annotation without names has one part, which is empty.
parse-nothing : parse_notification_annotation [] ≡ []
unfolding parse_notification_annotation split trim_space
parse-nothing = refl

parse-join :
    (names : List Text)
    → All IsPart names
    → parse_notification_annotation (join names (codes ",")) ≡ names
unfolding parse_notification_annotation join
parse-join [] h = parse-nothing
parse-join (n ∷ names) h =
    ap (λ ps. select (λ name. not (is_empty name)) (map trim_space ps))
      (split-join n names (All-map (λ s part. part.0) (n ∷ names) h))
    ∙ kept (n ∷ names) h

-- The names of the references, trimmed, and without the blank ones.
abbrev pub endpoint_names : List LocalObjectReference → List Text
endpoint_names refs = select (λ name. not (is_empty name)) (map (λ ref. trim_space ref.name) refs)

trim_space-no_comma : (s : Text) → HasNoComma s → HasNoComma (trim_space s)
unfolding trim_space
trim_space-no_comma s h = trim-All is_space (λ c. (c == comma) ≡ false) s h

trim_space_twice : (s : Text) → trim_space (trim_space s) ≡ trim_space s
unfolding trim_space
trim_space_twice s = trim-trim is_space s

endpoint_names-IsPart :
    (refs : List LocalObjectReference)
    → All (λ ref. HasNoComma ref.name) refs
    → All IsPart (endpoint_names refs)
endpoint_names-IsPart [] h = tt
endpoint_names-IsPart (ref ∷ refs) h = elim (Bool-cases (not (is_empty (trim_space ref.name)))) [
  | inl e ↦ rw e (
    (trim_space-no_comma ref.name h.0, trim_space_twice ref.name, e),
    endpoint_names-IsPart refs h.1,
  )
  | inr e ↦ rw e (endpoint_names-IsPart refs h.1)
]

-- The job observer reads from the annotation of a native job the sorted names of the endpoints that the
-- references had when the annotation was written, trimmed and without the blank ones, where no name holds
-- a comma.
pub parse-notification_ref_names :
    (refs : List LocalObjectReference)
    → All (λ ref. HasNoComma ref.name) refs
    → parse_notification_annotation (notification_ref_names refs)
      ≡ sort text_lt (endpoint_names refs)
unfolding notification_ref_names
parse-notification_ref_names refs h =
    parse-join (sort text_lt (endpoint_names refs))
      (sort-All text_lt IsPart (endpoint_names refs) (endpoint_names-IsPart refs h))
