-- ===== src/Retention/Refinement.antt =====
-- The reconciliation of a series against a store: it leaves what the abstract retention says.
use dataprotection.Base.{
  ℕ, zero, suc, ◌<◌, ◌≤◌, ◌+◌, ◌^◌, List, [], ◌∷◌, Option, none, some, Bool, true, false, ◌&&◌,
  ◌||◌, Text, text_eq, text_eq_iff, pos, ltb_ℤ, leb_ℤ, int32, int32-eq-pos, select, length, take,
  drop, All, if◌then◌else◌, ◌≡◌, refl, sym, ap, ◌∙◌, subst, inl, inr, arith, Bool-cases,
}
use dataprotection.Base.Sort.{sort-All}
use dataprotection.Api.Execution.{Snapshot}
use dataprotection.Kube.Meta.{Time}
use dataprotection.Effects.{Reply, ok, Prog, ◌>>=◌, try}
use dataprotection.Effects.Run.{Oracle}
use dataprotection.Retention.{
  same_bool, in_series, is_newer, sort_snapshots_newest_first, unless_gone, delete_quietly,
  set_latest, series_loop, reconcile_snapshot_series,
}
use dataprotection.Retention.Safety.{series_of, newest_first, newest_first-Arranges}
use dataprotection.Retention.Order.{Arranges}
use dataprotection.Retention.Store.{Store, put, deleted, if_there, exec}
use dataprotection.Retention.Marks.{
  once, has_name, marked, retained, marked_twice, deleted_twice, IsReady, after_mark, Leaves,
  All-IsReady, mark_step,
}

is_past :
    (k index : ℕ)
    → 0 < k
    → k ≤ index
    → index < 2 ^ 31
    → (ltb_ℤ (pos 0) (pos k) && leb_ℤ (pos k) (int32 index)) ≡ true
is_past k index h0 h hi =
    subst (λ i. (ltb_ℤ (pos 0) (pos k) && leb_ℤ (pos k) i) ≡ true) (sym (int32-eq-pos index hi))
      (past k index h0 h)
  where
    past :
        (k index : ℕ)
        → 0 < k
        → k ≤ index
        → (ltb_ℤ (pos 0) (pos k) && leb_ℤ (pos k) (pos index)) ≡ true
    past k index h0 h = ground arith

is_kept :
    (k index : ℕ)
    → index < k
    → index < 2 ^ 31
    → (ltb_ℤ (pos 0) (pos k) && leb_ℤ (pos k) (int32 index)) ≡ false
is_kept k index h hi =
    subst (λ i. (ltb_ℤ (pos 0) (pos k) && leb_ℤ (pos k) i) ≡ false) (sym (int32-eq-pos index hi))
      (kept k index h)
  where
    kept : (k index : ℕ) → index < k → (ltb_ℤ (pos 0) (pos k) && leb_ℤ (pos k) (pos index)) ≡ false
    kept k index h = ground arith

module _ (items : List Snapshot) (t : Time) (o : Oracle) (ns latest_name : Text) (k : ℕ)
    (h0 : 0 < k) where
  gone_anyway :
      (rest : Prog (Reply Unit)) (v : Option Snapshot) → unless_gone rest (if_there v) ≡ rest
  unfolding unless_gone
  gone_anyway rest none = refl
  gone_anyway rest (some s) = refl

  abbrev without : List Snapshot → Store → Store
  without rest store n = if has_name rest n then deleted t (store n) else store n

  -- The store after the deletion of one snapshot.
  without_step :
      (s : Snapshot) (rest : List Snapshot) (store : Store) (n : Text)
      → without rest (put s.name (deleted t (store s.name)) store) n ≡ without (s ∷ rest) store n
  without_step s rest store n = elim (Bool-cases (text_eq s.name n)) [
    | inl e ↦ rw e (
        subst
          (λ m.
            (if has_name rest n
              then deleted t (deleted t (store s.name))
              else deleted t (store s.name))
            ≡ deleted t (store m))
          ((text_eq_iff s.name n).0 e) (again (has_name rest n) (store s.name)))
    | inr e ↦ rw e refl
  ]
    where
      again :
          (b : Bool) (v : Option Snapshot)
          → (if b then deleted t (deleted t v) else deleted t v) ≡ deleted t v
      again true v = deleted_twice t v
      again false v = refl

  delete_step :
      (s : Snapshot) (store : Store) (rest : Prog (Reply Unit)) (spec : Store)
      → Leaves items t o (put s.name (deleted t (store s.name)) store) rest spec
      → Leaves items t o store (delete_quietly s rest) spec
  unfolding delete_quietly ◌>>=◌
  delete_step s store rest spec h =
      subst (λ m. Leaves items t o (put s.name (deleted t (store s.name)) store) m spec)
        (sym (gone_anyway rest (store s.name))) h

  past_loop :
      (index : ℕ) (s : Snapshot) (rest : List Snapshot) (store spec : Store)
      → (ltb_ℤ (pos 0) (pos k) && leb_ℤ (pos k) (int32 index)) ≡ true
      → Leaves items t o store
          (delete_quietly s (series_loop once ns (pos k) latest_name (suc index) rest))
          spec
      → Leaves items t o store (series_loop once ns (pos k) latest_name index (s ∷ rest)) spec
  unfolding series_loop
  past_loop index s rest store spec e h = rw e h

  ended_loop :
      (index : ℕ) (store : Store)
      → Leaves items t o store (series_loop once ns (pos k) latest_name index []) store
  unfolding series_loop
  ended_loop index store = (store, refl, λ n. refl)

  delete_phase :
      (index : ℕ) (rest : List Snapshot) (store : Store)
      → k ≤ index
      → index + length rest < 2 ^ 31
      → Leaves items t o store
          (series_loop once ns (pos k) latest_name index rest)
          (without rest store)
  delete_phase index [] store h hi = ended_loop index store
  delete_phase index (s ∷ rest) store h hi =
      let next =
        delete_phase (suc index) rest (put s.name (deleted t (store s.name)) store) (omega arith)
          (omega arith) in
      past_loop index s rest store _ (is_past k index h0 h (omega arith))
        (delete_step s store _ _ (next.0, next.1, λ n. next.2 n ∙ without_step s rest store n))

  retained_step :
      (left : ℕ) (s : Snapshot) (rest : List Snapshot) (store next : Store)
      → ((n : Text) → next n ≡ after_mark latest_name s store n)
      → (n : Text)
      → retained left t latest_name rest next n
        ≡ retained (suc left) t latest_name (s ∷ rest) store n
  retained_step left s rest store next e n =
      ap
        (λ v.
          let kept = if has_name (take left rest) n then marked (text_eq n latest_name) v else v in
          if has_name (drop left rest) n then deleted t kept else kept)
        (e n)
      ∙ ap (λ v. if has_name (drop left rest) n then deleted t v else v)
          (stepped (text_eq n latest_name) (has_name (take left rest) n) (text_eq s.name n)
            (store n))
    where
      stepped :
          (l b c : Bool) (v : Option Snapshot)
          → (if b then marked l (if c then marked l v else v) else (if c then marked l v else v))
            ≡ (if c || b then marked l v else v)
      stepped l true true v = marked_twice l v
      stepped l true false v = refl
      stepped l false true v = refl
      stepped l false false v = refl

  kept_loop :
      (index : ℕ) (s : Snapshot) (rest : List Snapshot) (store spec : Store)
      → (ltb_ℤ (pos 0) (pos k) && leb_ℤ (pos k) (int32 index)) ≡ false
      → Leaves items t o store
          (if same_bool s.status.latest (text_eq s.name latest_name)
            then series_loop once ns (pos k) latest_name (suc index) rest
            else try
                (once (set_latest ns s.name (text_eq s.name latest_name)))
                (λ u. series_loop once ns (pos k) latest_name (suc index) rest))
          spec
      → Leaves items t o store (series_loop once ns (pos k) latest_name index (s ∷ rest)) spec
  unfolding series_loop
  kept_loop index s rest store spec e h = rw e h

  mark_phase :
      (left index : ℕ) (rest : List Snapshot) (store : Store)
      → index + left ≡ k
      → index + length rest < 2 ^ 31
      → All (IsReady latest_name store) rest
      → Leaves items t o store
          (series_loop once ns (pos k) latest_name index rest)
          (retained left t latest_name rest store)
  mark_phase zero index rest store e hi ready = delete_phase index rest store (omega arith) hi
  mark_phase (suc left) index [] store e hi ready = ended_loop index store
  mark_phase (suc left) index (s ∷ rest) store e hi ready =
      let left_of = mark_phase left (suc index) rest in
      let r =
        mark_step latest_name items t o ns s store
          (series_loop once ns (pos k) latest_name (suc index) rest)
          (retained (suc left) t latest_name (s ∷ rest) store) ready.0
          (λ next same.
            let tail =
              left_of next (omega arith) (omega arith)
                (All-IsReady latest_name s rest store next same ready.1) in
            (tail.0, tail.1, λ n. tail.2 n ∙ retained_step left s rest store next same n)) in
      kept_loop index s rest store _ (is_kept k index (omega arith) (omega arith)) r

  select-All :
      {A : Type 0} (P : A → Type 0) (test : A → Bool) (xs : List A)
      → All P xs
      → All P (select test xs)
  select-All P test [] h = tt
  select-All P test (x ∷ xs) h = elim (Bool-cases (test x)) [
    | inl e ↦ rw e (h.0, select-All P test xs h.1)
    | inr e ↦ rw e (select-All P test xs h.1)
  ]

  listed-IsReady :
      (xs : List Snapshot) (store : Store)
      → All (λ s. store s.name ≡ some s) xs
      → All (IsReady latest_name store) xs
  listed-IsReady [] store h = tt
  listed-IsReady (s ∷ xs) store h = ((s, h.0, refl, inl refl), listed-IsReady xs store h.1)

  newest-IsReady :
      (series : Text) (store : Store)
      → All (λ s. store s.name ≡ some s) items
      → All (IsReady latest_name store) (newest_first series items)
  unfolding sort_snapshots_newest_first
  newest-IsReady series store h = listed-IsReady (newest_first series items) store (
      sort-All is_newer (λ s. store s.name ≡ some s) (select (in_series series) items)
        (select-All (λ s. store s.name ≡ some s) (in_series series) items h))

-- Against a store that lists what it holds, keeps a deleted snapshot as long as it has a finalizer, and has no
-- other writer, the reconciliation of a series ends well and leaves what the abstract retention says. There
-- is an arrangement of the series by completion (start, creation) time and then name, the newest first, such
-- that each of its first k snapshots has the mark exactly if it has the given name; of those behind, one
-- without finalizers is gone and one with finalizers has the time of its deletion; and nothing else differs.
-- This holds for every k above 0 and fewer than 2 ^ 31 snapshots.
pub reconcile_snapshot_series_refines :
    (items : List Snapshot) (t : Time) (o : Oracle) (ns series latest_name : Text) (k : ℕ)
    (store : Store)
    → 0 < k
    → length (newest_first series items) < 2 ^ 31
    → All (λ s. store s.name ≡ some s) items
    → (order : List Snapshot) × Arranges (series_of series items) order
      × (final : Store) × (exec items t o store
            (reconcile_snapshot_series once ns series (pos k) latest_name)
          ≡ some (ok tt, final))
      × ((n : Text) → final n ≡ retained k t latest_name order store n)
unfolding reconcile_snapshot_series ◌>>=◌
reconcile_snapshot_series_refines items t o ns series latest_name k store h0 hi h =
    let run =
      mark_phase items t o ns latest_name k h0 k 0 (newest_first series items) store (omega arith)
        (omega arith) (newest-IsReady items t o ns latest_name k h0 series store h) in
    (newest_first series items, newest_first-Arranges series items, run.0, run.1, run.2)
