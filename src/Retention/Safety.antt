-- ===== src/Retention/Safety.antt =====
-- What the retention of a series may do.
use dataprotection.Base.{
  ℕ, suc, ◌<◌, ◌≤◌, ◌+◌, ◌^◌, List, [], ◌∷◌, Bool, true, ◌&&◌, Text, text_eq, pos, ltb_ℤ, leb_ℤ,
  int32, int32-eq-pos, select, length, drop, Among, drop-suc, drop-Among, ◌≡◌, refl, sym, ap, ◌∙◌,
  subst, arith,
}
use dataprotection.Api.Execution.{Snapshot}
use dataprotection.Effects.{
  not_found, already_exists, conflict, other, Reply, ok, err, Request, get_snapshot, list_snapshots,
  update_snapshot_status, delete_snapshot, Prog, request, ◌>>=◌, try,
}
use dataprotection.Effects.Obeys.{Rely, Obeys, Obeys-weaken, Obeys-if, Obeys-try, Good}
use dataprotection.Retention.Order.{Arranges, sort_snapshots_newest_first-Arranges}
use dataprotection.Retention.{
  sort_snapshots_newest_first, in_series, same_bool, unless_gone, delete_quietly, set_latest,
  series_loop, reconcile_snapshot_series,
}

-- What RetryOnConflict keeps: it calls its body, perhaps several times, and nothing else, and it
-- returns what a call of the body returned.
pub record IsRetry (retry : Prog (Reply Unit) → Prog (Reply Unit)) : Type 1 where
  pub keeps :
      (R : Rely) (G : Request → Type 0) (Q : Reply Unit → Type 0) (m : Prog (Reply Unit))
      → Obeys R G Q m
      → Obeys R G Q (retry m)

-- The list of snapshots is what `items` says, and a snapshot that is read has the name asked for and is one of
-- `Stored`.
abbrev pub Lists : List Snapshot → (Snapshot → Type 0) → Rely
Lists items Stored (list_snapshots m) x = x ≡ ok items
Lists items Stored (get_snapshot m name) (ok s) = (s.name ≡ name) × Stored s
Lists items Stored r x = Unit

-- The snapshots of a series, in the order of the list.
abbrev pub series_of : Text → List Snapshot → List Snapshot
series_of series items = select (λ s. text_eq s.spec.series series) items

-- The snapshots of a series, as the code sorts them.
abbrev pub newest_first : Text → List Snapshot → List Snapshot
newest_first series items = sort_snapshots_newest_first (select (in_series series) items)

-- The snapshot stands behind the first k of the series where that is arranged with the newest first.
abbrev pub IsPastNewest : ℕ → Text → List Snapshot → Snapshot → Type 0
IsPastNewest k series items s =
    (order : List Snapshot) × Arranges (series_of series items) order × Among s (drop k order)

-- The new object is a stored one, of which nothing is changed but whether it is the latest: it is exactly if it
-- has the given name.
abbrev pub IsMarkedFrom : (Snapshot → Type 0) → Text → Snapshot → Type 0
IsMarkedFrom Stored latest_name new =
    (c : Snapshot) × Stored c
    × (new ≡ record c { status = record c.status { latest = text_eq c.name latest_name } })

-- Reading in the namespace, deleting a snapshot behind the k newest of its series, and marking.
abbrev pub Retains : ℕ → Text → Text → Text → List Snapshot → (Snapshot → Type 0) → Request → Type 0
Retains k ns series latest_name items Stored (list_snapshots m) = m ≡ ns
Retains k ns series latest_name items Stored (get_snapshot m name) = m ≡ ns
Retains k ns series latest_name items Stored (delete_snapshot s) = IsPastNewest k series items s
Retains k ns series latest_name items Stored (update_snapshot_status s) =
    IsMarkedFrom Stored latest_name s
Retains k ns series latest_name items Stored _ = ⊥

pub newest_first-Arranges :
    (series : Text) (items : List Snapshot)
    → Arranges (series_of series items) (newest_first series items)
unfolding in_series
newest_first-Arranges series items = sort_snapshots_newest_first-Arranges (series_of series items)

abbrev pub AnyReply : Reply Unit → Type 0
AnyReply r = Unit

any-Good : (r : Reply Unit) → AnyReply r → Good (λ u. Unit) r
any-Good (ok u) h = tt
any-Good (err e) h = tt

past_pos : (k index : ℕ) → (ltb_ℤ (pos 0) (pos k) && leb_ℤ (pos k) (pos index)) ≡ true → k ≤ index
past_pos k index h = ground arith

past_keep :
    (k index : ℕ)
    → index < 2 ^ 31
    → (ltb_ℤ (pos 0) (pos k) && leb_ℤ (pos k) (int32 index)) ≡ true
    → k ≤ index
past_keep k index hi h =
    past_pos k index
      (subst (λ i. (ltb_ℤ (pos 0) (pos k) && leb_ℤ (pos k) i) ≡ true) (int32-eq-pos index hi) h)

module _ (retry : Prog (Reply Unit) → Prog (Reply Unit)) (is_retry : IsRetry retry) (k : ℕ)
    (ns series latest_name : Text) (items : List Snapshot) (Stored : Snapshot → Type 0) where
  -- The programs here that keep to the guarantee.
  abbrev Keeps : Prog (Reply Unit) → Type 0
  Keeps m = Obeys (Lists items Stored) (Retains k ns series latest_name items Stored) AnyReply m

  unless_gone-Keeps :
      (rest : Prog (Reply Unit)) (x : Reply Unit) → Keeps rest → Keeps (unless_gone rest x)
  unfolding unless_gone
  unless_gone-Keeps rest (ok u) h = h
  unless_gone-Keeps rest (err (not_found m)) h = h
  unless_gone-Keeps rest (err (already_exists m)) h = tt
  unless_gone-Keeps rest (err (conflict m)) h = tt
  unless_gone-Keeps rest (err (other m)) h = tt

  delete_quietly-Keeps :
      (s : Snapshot) (rest : Prog (Reply Unit))
      → Among s (drop k (newest_first series items))
      → Keeps rest
      → Keeps (delete_quietly s rest)
  unfolding delete_quietly ◌>>=◌
  delete_quietly-Keeps s rest among h = (
    (newest_first series items, newest_first-Arranges series items, among),
    λ x rx. unless_gone-Keeps rest x h,
  )

  after_get :
      (name : Text) (x : Reply Snapshot)
      → Lists items Stored (get_snapshot ns name) x
      → Good (λ s. (s.name ≡ name) × Stored s) x
  after_get name (ok s) h = h
  after_get name (err e) h = tt

  abbrev marked_as : Snapshot → Bool → Snapshot
  marked_as s b = record s { status = record s.status { latest = b } }

  set_latest-Keeps :
      (name : Text) (latest : Bool)
      → latest ≡ text_eq name latest_name
      → Keeps (set_latest ns name latest)
  unfolding set_latest
  set_latest-Keeps name latest e =
      Obeys-try (Lists items Stored) (Retains k ns series latest_name items Stored)
        (λ s. (s.name ≡ name) × Stored s) AnyReply (request (get_snapshot ns name)) _
        (refl, after_get name)
        (λ s read. (
          (s, read.1, ap (marked_as s) (e ∙ sym (ap (λ n. text_eq n latest_name) read.0))),
          λ y ry. tt,
        ))
        (λ m. tt)

  abbrev marking : Snapshot → Prog (Reply Unit)
  marking s = set_latest ns s.name (text_eq s.name latest_name)

  abbrev retried : ℕ → Snapshot → List Snapshot → Prog (Reply Unit)
  retried index s rest =
      try (retry (marking s)) (λ u. series_loop retry ns (pos k) latest_name index rest)

  series_loop-Keeps :
      (index : ℕ) (rest : List Snapshot)
      → 0 < k
      → index + length rest < 2 ^ 31
      → drop index (newest_first series items) ≡ rest
      → Keeps (series_loop retry ns (pos k) latest_name index rest)
  unfolding series_loop
  series_loop-Keeps index [] h0 hi e = tt
  series_loop-Keeps index (s ∷ rest) h0 hi e =
      let next =
        series_loop-Keeps (suc index) rest h0 (omega arith)
          (drop-suc index (newest_first series items) s rest e) in
      Obeys-if (Lists items Stored) (Retains k ns series latest_name items Stored) AnyReply _ _ _
        (λ h.
          delete_quietly-Keeps s _
            (drop-Among k index (newest_first series items) s rest e
              (past_keep k index (omega arith) h))
            next)
        (λ h.
          Obeys-if (Lists items Stored) (Retains k ns series latest_name items Stored) AnyReply
            (same_bool s.status.latest (text_eq s.name latest_name)) _ (retried (suc index) s rest)
            (λ same. next)
            (λ differs.
              Obeys-try (Lists items Stored) (Retains k ns series latest_name items Stored)
                (λ u. Unit) AnyReply (retry (marking s)) _
                (is_retry.keeps _ _ _ (marking s) (
                  Obeys-weaken _ _ AnyReply (Good (λ u. Unit)) (marking s) any-Good
                    (set_latest-Keeps s.name _ refl)))
                (λ u v. next) (λ m. tt)))

  -- Of a series whose snapshots are listed as `items`, and of which k are kept, the reconciliation
  -- deletes only snapshots that stand behind the first k of the series where that is arranged by completion (start,
  -- creation) time and then name, the newest first. What it writes is a snapshot that it has read, with nothing
  -- changed but its mark, which says that it is the latest exactly if it has the given name. It reads in the
  -- given namespace, and does nothing else. This holds for every k above 0, fewer than 2 ^ 31 snapshots, any
  -- retrying and any answers of the server, as long as the list is `items` and a snapshot that is read has the
  -- name asked for.
  pub reconcile_snapshot_series-Retains :
      0 < k
      → length (newest_first series items) < 2 ^ 31
      → Keeps (reconcile_snapshot_series retry ns series (pos k) latest_name)
  unfolding reconcile_snapshot_series
  reconcile_snapshot_series-Retains h0 h =
      Obeys-try (Lists items Stored) (Retains k ns series latest_name items Stored)
        (λ xs. xs ≡ items) AnyReply (request (list_snapshots ns)) _ (refl, listed)
        (λ xs same.
          rw (same) (series_loop-Keeps 0 (newest_first series items) h0 (omega arith) refl))
        (λ m. tt)
    where
      listed : (x : Reply (List Snapshot)) → x ≡ ok items → Good (λ xs. xs ≡ items) x
      listed (ok xs) e = cc
      listed (err m) e = tt
