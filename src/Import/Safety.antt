-- ===== src/Import/Safety.antt =====
-- A validated import path stays below the root of its storage.
use dataprotection.Base.{
  ℕ, List, [], ◌∷◌, ◌++◌, reverse, reverse-append, append-nil, append_assoc, none, some, true,
  false, ◌||◌, Text, codes, text_eq, text_eq_iff, ◌==◌, if◌then◌else◌, is_empty, trim_prefix,
  has_prefix, split, push, join, All, ◌≡◌, refl, sym, ap, ◌∙◌, subst, inl, inr, ◌⊎◌, arith,
  Bool-cases,
}
use dataprotection.Base.FilePath.{
  clean, clean_loop, clean_step, back_up, or_dot, is_abs, is_slash, dot, dot_dot, slash,
}
use dataprotection.Base.Trim.{All-reverse}
use dataprotection.Platform.{Unicode}
use dataprotection.Api.Execution.{RestoreImportSource}
use dataprotection.Import.{raw_path, below_root, normalized_path, validate_import}

abbrev NoSlash : Text → Type 0
NoSlash = All (λ c. is_slash c ≡ false)

-- A name that leads one level down: not empty, no `.`, no `..`, and with no slash in it.
pub record IsPlainName (name : Text) : Type 0 where
  pub nonempty : is_empty name ≡ false
  pub no_dot : text_eq name dot ≡ false
  pub no_dot_dot : text_eq name dot_dot ≡ false
  pub no_slash : NoSlash name

abbrev IsDotDot : Text → Type 0
IsDotDot name = name ≡ dot_dot

-- What `clean_loop` keeps of a relative path: names above parent references, the last first.
record IsKept (kept : List Text) : Type 0 where
  names : List Text
  parents : List Text
  shape : kept ≡ names ++ parents
  plain : All IsPlainName names
  dots : All IsDotDot parents

push-NoSlash :
    (c : ℕ) (ps : List Text) → is_slash c ≡ false → All NoSlash ps → All NoSlash (push c ps)
push-NoSlash c [] h k = ((h, tt), tt)
push-NoSlash c (p ∷ ps) h k = ((h, k.0), k.1)

split-NoSlash : (s : Text) → All NoSlash (split s b'/')
unfolding split
split-NoSlash [] = (tt, tt)
split-NoSlash (c ∷ s) = elim (Bool-cases (c == b'/')) [
  | inl e ↦ rw e (tt, split-NoSlash s)
  | inr e ↦ rw e (push-NoSlash c (split s b'/') e (split-NoSlash s))
]

parent-kept :
    (parents : List Text) → All IsDotDot parents → back_up false parents ≡ dot_dot ∷ parents
unfolding back_up
parent-kept [] h = refl
parent-kept (p ∷ ps) h = rw (h.0, (text_eq_iff dot_dot dot_dot).1 refl)

back_up-IsKept : (kept : List Text) → IsKept kept → IsKept (back_up false kept)
unfolding back_up
back_up-IsKept kept k = go k.names k.parents k.shape k.plain k.dots
  where
    go :
        (names parents : List Text)
        → kept ≡ names ++ parents
        → All IsPlainName names
        → All IsDotDot parents
        → IsKept (back_up false kept)
    go [] parents e p d =
        rw (e, parent-kept parents d)
          (record {
            names = [];
            parents = dot_dot ∷ parents;
            shape = refl;
            plain = tt;
            dots = (refl, d);
          })
    go (n ∷ names) parents e p d =
        rw (e, back_up, p.0.no_dot_dot)
          (record { names = names; parents = parents; shape = refl; plain = p.1; dots = d })

clean_step-IsKept :
    (kept : List Text) (name : Text)
    → NoSlash name
    → IsKept kept
    → IsKept (clean_step false kept name)
unfolding clean_step
clean_step-IsKept kept name h k = elim (Bool-cases (is_empty name || text_eq name dot)) [
  | inl e ↦ rw e k
  | inr e ↦ elim (Bool-cases (text_eq name dot_dot)) [
    | inl d ↦ rw (e, d) (back_up-IsKept kept k)
    | inr d ↦
        rw (e, d)
          (record {
            names = name ∷ k.names;
            parents = k.parents;
            shape = ap (λ ns. name ∷ ns) k.shape;
            plain = (
              record {
                nonempty = ground arith;
                no_dot = ground arith;
                no_dot_dot = d;
                no_slash = h;
              },
              k.plain,
            );
            dots = k.dots;
          })
  ]
]

clean_loop-IsKept :
    (kept names : List Text)
    → All NoSlash names
    → IsKept kept
    → IsKept (clean_loop false kept names)
unfolding clean_loop
clean_loop-IsKept kept [] h k = k
clean_loop-IsKept kept (name ∷ names) h k =
    clean_loop-IsKept (clean_step false kept name) names h.1 (clean_step-IsKept kept name h.0 k)

-- The names of a cleaned relative path, in order: parent references first.
clean_names : Text → List Text
clean_names s = reverse (clean_loop false [] (split s b'/'))

dots-cases :
    (ds : List Text) → All IsDotDot ds → (ds ≡ []) ⊎ ((rest : List Text) × (ds ≡ dot_dot ∷ rest))
dots-cases [] h = inl refl
dots-cases (d ∷ ds) h = inr (ds, ap (λ x. x ∷ ds) h.0)

-- Either every name of the cleaned path is plain, or the first one is `..`.
clean_names-cases :
    (s : Text)
    → All IsPlainName (clean_names s) ⊎ ((rest : List Text) × (clean_names s ≡ dot_dot ∷ rest))
unfolding clean_names
clean_names-cases s =
    let kept : IsKept (clean_loop false [] (split s b'/')) =
      clean_loop-IsKept [] (split s b'/') (split-NoSlash s)
        (record { names = []; parents = []; shape = refl; plain = tt; dots = tt }) in
    let plain = All-reverse IsPlainName kept.names kept.plain in
    rw (kept.shape, reverse-append kept.names kept.parents)
      (elim (dots-cases (reverse kept.parents) (All-reverse IsDotDot kept.parents kept.dots)) [
        | inl e ↦ inl (rw e plain)
        | inr (rest, e) ↦ inr (rest ++ reverse kept.names, rw e)
      ])

-- A joined path begins with its first name.
join-cons : (n : Text) (ns : List Text) → (t : Text) × (join (n ∷ ns) slash ≡ n ++ t)
unfolding join
join-cons n [] = ([], sym (append-nil n))
join-cons n (m ∷ ns) = (slash ++ join (m ∷ ns) slash, append_assoc n slash (join (m ∷ ns) slash))

plain-no_prefix : (n t : Text) → IsPlainName n → has_prefix (n ++ t) (codes "./") ≡ false
unfolding has_prefix text_eq
plain-no_prefix [] t h = cc (h.nonempty)
plain-no_prefix (c ∷ []) t h = ground (arith, h.no_dot)
plain-no_prefix (c ∷ d ∷ n) t h = ground (arith, h.no_slash)

plain-below_root :
    (n : Text) (ns : List Text)
    → IsPlainName n
    → is_empty (below_root (join (n ∷ ns) slash)) ≡ false
    → below_root (join (n ∷ ns) slash) ≡ join (n ∷ ns) slash
unfolding trim_prefix
plain-below_root n ns h k = elim (Bool-cases (text_eq (join (n ∷ ns) slash) dot)) [
  | inl e ↦ cc (
      subst
        (λ b. is_empty (if b then [] else trim_prefix (join (n ∷ ns) slash) (codes "./")) ≡ false) e
        k)
  | inr e ↦ let (t, j) = join-cons n ns in rw e (rw j (rw (plain-no_prefix n t h) refl))
]

-- What a nil error says of the path.
record IsAccepted (s : RestoreImportSource) : Type 0 where
  some_path : is_empty (raw_path s) ≡ false
  relative : is_abs (raw_path s) ≡ false
  not_root : is_empty (normalized_path (some s)) ≡ false
  not_parent : text_eq (normalized_path (some s)) dot_dot ≡ false
  not_above : has_prefix (normalized_path (some s)) (codes "../") ≡ false

validate_import-IsAccepted :
    (u : Unicode) (s : RestoreImportSource) (field : Text)
    → validate_import u (some s) field ≡ none
    → IsAccepted s
unfolding validate_import
validate_import-IsAccepted u s field h = ground arith

normalized_path_lem :
    (s : RestoreImportSource)
    → is_empty (raw_path s) ≡ false
    → is_abs (raw_path s) ≡ false
    → normalized_path (some s) ≡ below_root (or_dot (join (clean_names (raw_path s)) slash))
unfolding normalized_path clean clean_names
normalized_path_lem s e a = rw (e, a) refl

-- A parent reference at the front survives in the normalized path, where the validator refuses it.
parent-refused :
    (rest : List Text)
    → let p = below_root (or_dot (join (dot_dot ∷ rest) slash)) in
      text_eq p dot_dot ≡ false → has_prefix p (codes "../") ≡ false → ⊥
unfolding text_eq has_prefix join trim_prefix
parent-refused [] h k = cc
parent-refused (n ∷ ns) h k = cc

is_empty-join-plain :
    (n : Text) (ns : List Text) → IsPlainName n → is_empty (join (n ∷ ns) slash) ≡ false
is_empty-join-plain [] ns h = cc (h.nonempty)
is_empty-join-plain (c ∷ n) ns h = let (t, j) = join-cons (c ∷ n) ns in rw j refl

root-empty : is_empty (below_root (or_dot (join [] slash))) ≡ true
unfolding join text_eq
root-empty = refl

plain-kept :
    (s : RestoreImportSource) (n : Text) (ns : List Text)
    → normalized_path (some s) ≡ below_root (or_dot (join (n ∷ ns) slash))
    → is_empty (normalized_path (some s)) ≡ false
    → IsPlainName n
    → normalized_path (some s) ≡ join (n ∷ ns) slash
plain-kept s n ns e k p =
    let e' : normalized_path (some s) ≡ below_root (join (n ∷ ns) slash) =
      rw (is_empty-join-plain n ns p) at e in
    e' ∙ plain-below_root n ns p (rw e' at k)

-- The path of an import source that the validator accepts is one or more plain names joined by
-- slashes: below the storage root, and without a parent reference, however it was written.
pub validate_import_safe :
    (u : Unicode) (s : RestoreImportSource) (field : Text)
    → validate_import u (some s) field ≡ none
    → (names : List Text) × (is_empty names ≡ false)
      × All IsPlainName names
      × (normalized_path (some s) ≡ join names slash)
validate_import_safe u s field h =
    let ok = validate_import-IsAccepted u s field h in
    go (clean_names (raw_path s)) (normalized_path_lem s ok.some_path ok.relative) ok
      (clean_names-cases (raw_path s))
  where
    go :
        (names : List Text)
        → normalized_path (some s) ≡ below_root (or_dot (join names slash))
        → IsAccepted s
        → All IsPlainName names ⊎ ((rest : List Text) × (names ≡ dot_dot ∷ rest))
        → (ms : List Text) × (is_empty ms ≡ false)
          × All IsPlainName ms
          × (normalized_path (some s) ≡ join ms slash)
    go [] e ok (inl p) = cc (ok.not_root, ap is_empty e, root-empty)
    go (n ∷ ns) e ok (inl p) = (n ∷ ns, refl, p, plain-kept s n ns e ok.not_root p.0)
    go names e ok (inr (rest, q)) =
        absurd (parent-refused rest (rw (e, q) at ok.not_parent) (rw (e, q) at ok.not_above))
