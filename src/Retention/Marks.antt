-- ===== src/Retention/Marks.antt =====
-- One step of the retention against a store: a snapshot that is kept gets its mark.
use dataprotection.Base.{
  ℕ, List, [], ◌∷◌, Option, none, some, Bool, true, false, Text, text_eq, text_eq_iff, take, drop,
  any, All, if◌then◌else◌, ◌≡◌, refl, sym, ap, ◌∙◌, subst, ◌⊎◌, inl, inr, Bool-cases,
}
use dataprotection.Api.Execution.{Snapshot}
use dataprotection.Kube.Meta.{Time}
use dataprotection.Effects.{Reply, ok, update_snapshot_status, Prog, request, ◌>>=◌, after, try}
use dataprotection.Effects.Run.{Oracle}
use dataprotection.Retention.{same_bool, set_latest}
use dataprotection.Retention.Store.{
  Store, put, found, stamped, terminated, deleted, if_there, with_status_of, exec,
}

-- The body is called once where no other writer interferes.
abbrev pub once : Prog (Reply Unit) → Prog (Reply Unit)
once m = m

abbrev pub has_name : List Snapshot → Text → Bool
has_name items n = any (λ s. text_eq s.name n) items

abbrev pub marked : Bool → Option Snapshot → Option Snapshot
marked b none = none
marked b (some s) = some (record s { status = record s.status { latest = b } })

-- Of the snapshots in their order, the first k have the mark if and only if they have the name, and those behind
-- are deleted at the given time; any other snapshot is as it was.
abbrev pub retained : ℕ → Time → Text → List Snapshot → Store → Store
retained k t latest_name order store n =
    let kept =
      if has_name (take k order) n then marked (text_eq n latest_name) (store n) else store n in
    if has_name (drop k order) n then deleted t kept else kept

pub deleted_twice : (t : Time) (v : Option Snapshot) → deleted t (deleted t v) ≡ deleted t v
deleted_twice t none = refl
deleted_twice t (some s) = twice s.finalizers refl
  where
    stamped_twice : (d : Option Time) → stamped t (stamped t d) ≡ stamped t d
    stamped_twice none = refl
    stamped_twice (some u) = refl

    twice : (fs : List Text) → s.finalizers ≡ fs → deleted t (terminated t s fs) ≡ terminated t s fs
    twice [] e = refl
    twice (f ∷ fs) e = rw (e, stamped_twice s.deletion_timestamp) refl

pub marked_twice : (b : Bool) (o : Option Snapshot) → marked b (marked b o) ≡ marked b o
marked_twice b none = refl
marked_twice b (some s) = refl

marked_same : (b : Bool) (s : Snapshot) → s.status.latest ≡ b → marked b (some s) ≡ some s
marked_same b s e = subst (λ c. marked c (some s) ≡ some s) e refl

-- A snapshot of the list is there, and its mark is the listed one or the one it is to have.
abbrev pub IsReady : Text → Store → Snapshot → Type 0
IsReady latest_name store s =
    (c : Snapshot) × (store s.name ≡ some c)
    × (c.name ≡ s.name)
    × ((c.status.latest ≡ s.status.latest) ⊎ (c.status.latest ≡ text_eq s.name latest_name))

-- The store in which a snapshot is marked.
abbrev pub after_mark : Text → Snapshot → Store → Store
after_mark latest_name s store n =
    if text_eq s.name n then marked (text_eq n latest_name) (store n) else store n

-- A run that ends well in a store that is as given at every name.
abbrev pub Leaves : List Snapshot → Time → Oracle → Store → Prog (Reply Unit) → Store → Type 0
Leaves items t o store m spec =
    (final : Store) × (exec items t o store m ≡ some (ok tt, final))
    × ((n : Text) → final n ≡ spec n)

module _ (latest_name : Text) where
  IsReady-after_mark :
      (s t : Snapshot) (store next : Store)
      → ((n : Text) → next n ≡ after_mark latest_name s store n)
      → IsReady latest_name store t
      → IsReady latest_name next t
  IsReady-after_mark s t store next e (c, f, g, h) = elim (Bool-cases (text_eq s.name t.name)) [
    | inl b ↦ (
      record c { status = record c.status { latest = text_eq t.name latest_name } },
      e t.name ∙ rw (b, f) refl,
      g,
      inr refl,
    )
    | inr b ↦ (c, e t.name ∙ rw (b, f) refl, g, h)
  ]

  pub All-IsReady :
      (s : Snapshot) (ts : List Snapshot) (store next : Store)
      → ((n : Text) → next n ≡ after_mark latest_name s store n)
      → All (IsReady latest_name store) ts
      → All (IsReady latest_name next) ts
  All-IsReady s [] store next e h = tt
  All-IsReady s (t ∷ ts) store next e h =
      (IsReady-after_mark s t store next e h.0, All-IsReady s ts store next e h.1)

  same_bool_eq : (a b : Bool) → same_bool a b ≡ true → a ≡ b
  same_bool_eq true true h = refl
  same_bool_eq true false h = cc
  same_bool_eq false true h = cc
  same_bool_eq false false h = refl

  -- A snapshot whose mark is right already stays as it is.
  skipped :
      (s : Snapshot) (store : Store)
      → IsReady latest_name store s
      → s.status.latest ≡ text_eq s.name latest_name
      → (n : Text) → store n ≡ after_mark latest_name s store n
  skipped s store (c, f, g, h) e n = elim (Bool-cases (text_eq s.name n)) [
    | inl b ↦ rw b (
        subst (λ m. store m ≡ marked (text_eq m latest_name) (store m)) ((text_eq_iff s.name n).0 b)
          (rw f (sym (marked_same (text_eq s.name latest_name) c (right h)))))
    | inr b ↦ rw b refl
  ]
    where
      right :
          (c.status.latest ≡ s.status.latest) ⊎ (c.status.latest ≡ text_eq s.name latest_name)
          → c.status.latest ≡ text_eq s.name latest_name
      right (inl i) = i ∙ e
      right (inr i) = i

  -- The store that the marking leaves.
  written :
      (s c : Snapshot) (store : Store)
      → store s.name ≡ some c
      → c.name ≡ s.name
      → (n : Text)
      → put c.name
          (some (record c { status = record c.status { latest = text_eq s.name latest_name } }))
          store
          n
        ≡ after_mark latest_name s store n
  written s c store f g n =
      let new : Option Snapshot = marked (text_eq s.name latest_name) (some c) in
      ap (λ a. put a new store n) g ∙ elim (Bool-cases (text_eq s.name n)) [
        | inl b ↦ rw b (
            subst
              (λ m.
                marked (text_eq s.name latest_name) (some c)
                ≡ marked (text_eq m latest_name) (store m))
              ((text_eq_iff s.name n).0 b) (rw f refl))
        | inr b ↦ rw b refl
      ]

  module _ (items : List Snapshot) (t : Time) (o : Oracle) (ns : Text) where
    abbrev relabelled : Snapshot → Bool → Snapshot
    relabelled c b = record c { status = record c.status { latest = b } }

    -- The marking, with the answer to its reading.
    abbrev marking : Snapshot → Prog (Reply Unit) → Option Snapshot → Prog (Reply Unit)
    marking s m v =
        after
          (λ current.
            request (update_snapshot_status (relabelled current (text_eq s.name latest_name))))
          (found v)
        >>= after (λ u. m)

    -- The writing of a status, where the object is there.
    update_step :
        (c new : Snapshot) (store : Store) (m : Prog (Reply Unit)) (spec : Store)
        → store new.name ≡ some c
        → Leaves items t o (put new.name (some (record c { status = new.status })) store) m spec
        → Leaves items t o store (request (update_snapshot_status new) >>= after (λ u. m)) spec
    unfolding ◌>>=◌
    update_step c new store m spec e h =
        subst
          (λ v.
            Leaves items t o (put new.name (with_status_of new v) store)
              (after (λ u. m) (if_there v)) spec)
          (sym e) h

    -- One snapshot that is kept: the run goes on in a store in which it is marked.
    pub mark_step :
        (s : Snapshot) (store : Store) (m : Prog (Reply Unit)) (spec : Store)
        → IsReady latest_name store s
        → ((next : Store)
            → ((n : Text) → next n ≡ after_mark latest_name s store n)
            → Leaves items t o next m spec)
        → Leaves items t o store
            (if same_bool s.status.latest (text_eq s.name latest_name)
              then m
              else try (once (set_latest ns s.name (text_eq s.name latest_name))) (λ u. m))
            spec
    unfolding set_latest ◌>>=◌
    mark_step s store m spec ready k =
        elim (Bool-cases (same_bool s.status.latest (text_eq s.name latest_name))) [
          | inl b ↦ rw b (
              k store (
                skipped s store ready
                  (same_bool_eq s.status.latest (text_eq s.name latest_name) b)))
          | inr b ↦ rw b (
              subst (λ v. Leaves items t o store (marking s m v) spec) (sym ready.1)
                (update_step ready.0 (relabelled ready.0 (text_eq s.name latest_name)) store m spec
                  (ap store ready.2 ∙ ready.1) (k _ (written s ready.0 store ready.1 ready.2))))
        ]
