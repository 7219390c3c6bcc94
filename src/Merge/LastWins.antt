-- ===== src/Merge/LastWins.antt =====
-- A merged list, read as Kubernetes reads environment variables: the last item of a name counts.
use dataprotection.Base.{
  ℕ, zero, suc, ◌+◌, List, [], ◌∷◌, ◌++◌, map, Option, none, some, Text, text_eq, text_eq_iff,
  if◌then◌else◌, length, All, All-append, ◌≡◌, ◌≢◌, refl, sym, ap, subst, ◌∙◌, arith, inl, inr,
  Bool-cases, Option-cases,
}
use dataprotection.Merge.{
  Index, find, set, index_loop, overlay_step, overlay_loop, overlays_loop, merge,
}
use dataprotection.Validate.Names.{Distinct}

-- The second value, if there is one.
abbrev pub preferring {ℓ} : {A : Type ℓ} → Option A → Option A → Option A
preferring old none = old
preferring old (some new) = some new

-- One more name that none of the others is.
Distinct-append :
    (ns : List Text) (n : Text) → Distinct ns → All (λ m. m ≢ n) ns → Distinct (ns ++ n ∷ [])
Distinct-append [] n d h = (tt, tt)
Distinct-append (m ∷ ns) n d h =
    (All-append (λ k. m ≢ k) ns (n ∷ []) d.0 (h.0, tt), Distinct-append ns n d.1 h.1)

module _ {ℓ} {A : Type ℓ} (key : A → Text) where
  -- The last item of a name: an independent description of what a merge has to preserve.
  pub last_of : Text → List A → Option A
  last_of k [] = none
  last_of k (x ∷ xs) = preferring (if text_eq (key x) k then some x else none) (last_of k xs)

  last_index : Text → List A → Option ℕ
  last_index k [] = none
  last_index k (x ∷ xs) = elim (last_index k xs) [
    | some i ↦ some (suc i)
    | none ↦ if text_eq (key x) k then some 0 else none
  ]

  -- The index knows the last position of every name.
  abbrev Indexes : Index → List A → Type 0
  Indexes index xs = (k : Text) → find k index ≡ last_index k xs

  last_index-append :
      (k : Text) (xs : List A) (y : A)
      → last_index k (xs ++ y ∷ [])
        ≡ (if text_eq (key y) k then some (length xs) else last_index k xs)
  unfolding last_index
  last_index-append k [] y = refl
  last_index-append k (x ∷ xs) y = ground (arith, last_index-append k xs y)

  last_of-append :
      (k : Text) (xs : List A) (y : A)
      → last_of k (xs ++ y ∷ []) ≡ (if text_eq (key y) k then some y else last_of k xs)
  unfolding last_of
  last_of-append k [] y = refl
  last_of-append k (x ∷ xs) y = ground (arith, last_of-append k xs y)

  at_head :
      (k : Text) (x : A) (xs : List A)
      → last_index k (x ∷ xs) ≡ some 0
      → (last_index k xs ≡ none) × (key x ≡ k)
  unfolding last_index
  at_head k x xs h = (ground arith, ground (arith, text_eq_iff (key x) k))

  -- Writing over the last item of a name keeps every position.
  last_index-set :
      (k : Text) (xs : List A) (i : ℕ) (y : A)
      → last_index (key y) xs ≡ some i
      → last_index k (set xs i y) ≡ last_index k xs
  unfolding last_index set
  last_index-set k [] i y h = refl
  last_index-set k (x ∷ xs) zero y h =
      let (e, q) = at_head (key y) x xs h in
      ground (arith, e, q, text_eq_iff (key x) k, text_eq_iff (key y) k)
  last_index-set k (x ∷ xs) (suc i) y h = ground (arith, last_index-set k xs i y)

  last_of-none : (k : Text) (xs : List A) → last_index k xs ≡ none → last_of k xs ≡ none
  unfolding last_index last_of
  last_of-none k [] h = refl
  last_of-none k (x ∷ xs) h = ground (arith, last_of-none k xs)

  last_of-set :
      (k : Text) (xs : List A) (i : ℕ) (y : A)
      → last_index (key y) xs ≡ some i
      → last_of k (set xs i y) ≡ (if text_eq (key y) k then some y else last_of k xs)
  unfolding last_index last_of set
  last_of-set k [] i y h = cc
  last_of-set k (x ∷ xs) zero y h =
      let (e, q) = at_head (key y) x xs h in
      rw q (elim (Bool-cases (text_eq (key y) k)) [
        | inl d ↦ rw (
          d,
          last_of-none k xs (subst (λ t. last_index t xs ≡ none) ((text_eq_iff (key y) k).0 d) e),
        )
        | inr d ↦ rw d
      ])
  last_of-set k (x ∷ xs) (suc i) y h = ground (arith, last_of-set k xs i y)

  index_loop_lem :
      (k : Text) (n : ℕ) (index : Index) (xs : List A)
      → find k (index_loop key n index xs)
        ≡ (elim (last_index k xs) [ some i ↦ some (n + i) | none ↦ find k index ])
  unfolding index_loop last_index find
  index_loop_lem k n index [] = refl
  index_loop_lem k n index (x ∷ xs) =
      ground (arith, index_loop_lem k (suc n) ((key x, n) ∷ index) xs)

  index_loop-Indexes : (xs : List A) → Indexes (index_loop key 0 [] xs) xs
  index_loop-Indexes xs k = unfold find in ground (arith, index_loop_lem k 0 [] xs)

  overlay_step-Indexes :
      (xs : List A) (index : Index) (y : A)
      → Indexes index xs
      → Indexes (overlay_step key xs index y).1 (overlay_step key xs index y).0
  overlay_step-Indexes xs index y h k = elim (Option-cases (find (key y) index)) [
    | inl e ↦
        unfold overlay_step in rw e (unfold find in ground (arith, last_index-append k xs y, h k))
    | inr (i, e) ↦
        unfold overlay_step in rw e (h k ∙ sym (last_index-set k xs i y (sym (h (key y)) ∙ e)))
  ]

  last_of-overlay_step :
      (k : Text) (xs : List A) (index : Index) (y : A)
      → Indexes index xs
      → last_of k (overlay_step key xs index y).0
        ≡ (if text_eq (key y) k then some y else last_of k xs)
  last_of-overlay_step k xs index y h = elim (Option-cases (find (key y) index)) [
    | inl e ↦ unfold overlay_step in rw e (last_of-append k xs y)
    | inr (i, e) ↦ unfold overlay_step in rw e (last_of-set k xs i y (sym (h (key y)) ∙ e))
  ]

  pub last_of-++ :
      (k : Text) (xs ys : List A) → last_of k (xs ++ ys) ≡ preferring (last_of k xs) (last_of k ys)
  unfolding last_of
  last_of-++ k [] ys = ground arith
  last_of-++ k (x ∷ xs) ys = ground (arith, last_of-++ k xs ys)

  overlay_loop-Indexes :
      (xs : List A) (index : Index) (ys : List A)
      → Indexes index xs
      → Indexes (overlay_loop key xs index ys).1 (overlay_loop key xs index ys).0
  unfolding overlay_loop
  overlay_loop-Indexes xs index [] h = h
  overlay_loop-Indexes xs index (y ∷ ys) h =
      overlay_loop-Indexes (overlay_step key xs index y).0 (overlay_step key xs index y).1 ys
        (overlay_step-Indexes xs index y h)

  last_of-overlay_loop :
      (k : Text) (xs : List A) (index : Index) (ys : List A)
      → Indexes index xs
      → last_of k (overlay_loop key xs index ys).0 ≡ preferring (last_of k xs) (last_of k ys)
  unfolding overlay_loop
  last_of-overlay_loop k xs index [] h = unfold last_of in refl
  last_of-overlay_loop k xs index (y ∷ ys) h =
      last_of-overlay_loop k (overlay_step key xs index y).0 (overlay_step key xs index y).1 ys
        (overlay_step-Indexes xs index y h)
      ∙ rw (last_of-overlay_step k xs index y h) (unfold last_of in ground arith)

  -- All overlays behind one another.
  pub concatenated : List (List A) → List A
  concatenated [] = []
  concatenated (o ∷ os) = o ++ concatenated os

  last_of-overlays_loop :
      (k : Text) (xs : List A) (index : Index) (os : List (List A))
      → Indexes index xs
      → last_of k (overlays_loop key xs index os)
        ≡ preferring (last_of k xs) (last_of k (concatenated os))
  unfolding overlays_loop concatenated
  last_of-overlays_loop k xs index [] h = unfold last_of in refl
  last_of-overlays_loop k xs index (o ∷ os) h =
      last_of-overlays_loop k (overlay_loop key xs index o).0 (overlay_loop key xs index o).1 os
        (overlay_loop-Indexes xs index o h)
      ∙ rw (last_of-overlay_loop k xs index o h, last_of-++ k o (concatenated os)) (ground arith)

  -- The merged list gives every name the item that the base followed by the overlays gives it: the
  -- last one wins.
  pub last_of-merge :
      (k : Text) (base : List A) (overlays : List (List A))
      → last_of k (merge key base overlays) ≡ last_of k (base ++ concatenated overlays)
  unfolding merge
  last_of-merge k base overlays =
      last_of-overlays_loop k base (index_loop key 0 [] base) overlays (index_loop-Indexes base)
      ∙ sym (last_of-++ k base (concatenated overlays))

  map-key-set :
      (xs : List A) (i : ℕ) (y : A)
      → last_index (key y) xs ≡ some i
      → map key (set xs i y) ≡ map key xs
  unfolding set last_index
  map-key-set [] i y h = refl
  map-key-set (x ∷ xs) zero y h = rw ((at_head (key y) x xs h).1) refl
  map-key-set (x ∷ xs) (suc i) y h = ap (λ ks. key x ∷ ks) (map-key-set xs i y (ground arith))

  missing-ne : (k : Text) (xs : List A) → last_index k xs ≡ none → All (λ m. m ≢ k) (map key xs)
  unfolding last_index
  missing-ne k [] h = tt
  missing-ne k (x ∷ xs) h = (ground (arith, text_eq_iff (key x) k), missing-ne k xs (ground arith))

  map-key-append : (xs : List A) (y : A) → map key (xs ++ y ∷ []) ≡ map key xs ++ key y ∷ []
  map-key-append [] y = refl
  map-key-append (x ∷ xs) y = ap (λ ks. key x ∷ ks) (map-key-append xs y)

  overlay_step-Distinct :
      (xs : List A) (index : Index) (y : A)
      → Indexes index xs
      → Distinct (map key xs)
      → Distinct (map key (overlay_step key xs index y).0)
  overlay_step-Distinct xs index y h d = elim (Option-cases (find (key y) index)) [
    | inl e ↦
        unfold overlay_step in
        rw (e, map-key-append xs y)
          (Distinct-append (map key xs) (key y) d (missing-ne (key y) xs (sym (h (key y)) ∙ e)))
    | inr (i, e) ↦ unfold overlay_step in rw (e, map-key-set xs i y (sym (h (key y)) ∙ e)) d
  ]

  overlay_loop-Distinct :
      (xs : List A) (index : Index) (ys : List A)
      → Indexes index xs
      → Distinct (map key xs)
      → Distinct (map key (overlay_loop key xs index ys).0)
  unfolding overlay_loop
  overlay_loop-Distinct xs index [] h d = d
  overlay_loop-Distinct xs index (y ∷ ys) h d =
      overlay_loop-Distinct (overlay_step key xs index y).0 (overlay_step key xs index y).1 ys
        (overlay_step-Indexes xs index y h) (overlay_step-Distinct xs index y h d)

  overlays_loop-Distinct :
      (xs : List A) (index : Index) (os : List (List A))
      → Indexes index xs
      → Distinct (map key xs)
      → Distinct (map key (overlays_loop key xs index os))
  unfolding overlays_loop
  overlays_loop-Distinct xs index [] h d = d
  overlays_loop-Distinct xs index (o ∷ os) h d =
      overlays_loop-Distinct (overlay_loop key xs index o).0 (overlay_loop key xs index o).1 os
        (overlay_loop-Indexes xs index o h) (overlay_loop-Distinct xs index o h d)

  -- If no name stands twice in the base, none stands twice in the merged list, whatever the overlays.
  pub merge-Distinct :
      (base : List A) (overlays : List (List A))
      → Distinct (map key base)
      → Distinct (map key (merge key base overlays))
  unfolding merge
  merge-Distinct base overlays d =
      overlays_loop-Distinct base (index_loop key 0 [] base) overlays (index_loop-Indexes base) d
