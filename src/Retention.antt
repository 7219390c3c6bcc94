-- ===== src/Retention.antt =====
-- How many snapshots a series keeps, and which: `effectiveSuccessfulKeepLast`,
-- `effectiveFailedKeepLast` and the sort of controllers/common.go, `reconcileSnapshotSeries` of
-- controllers/execution_helpers.go. The proofs are in the modules below this one.
pub mod Order
pub mod Safety
pub mod Store
pub mod Marks
pub mod Refinement
use dataprotection.Base.{
  ℕ, zero, suc, List, [], ◌∷◌, Option, none, some, Bool, true, false, ◌&&◌, Text, text_eq, text_lt,
  ltb, ◌==◌, if◌then◌else◌, ℤ, pos, ltb_ℤ, leb_ℤ, int32, select,
}
use dataprotection.Base.Sort.{sort}
use dataprotection.Kube.Meta.{Time}
use dataprotection.Api.Config.{RetentionPolicy}
use dataprotection.Api.Execution.{Snapshot}
use dataprotection.Effects.{
  ApiError, not_found, Reply, ok, err, get_snapshot, list_snapshots, update_snapshot_status,
  delete_snapshot, Prog, ret, request, ◌>>=◌, try,
}

-- The number that is configured, where it is positive.
abbrev pub positive_or : ℤ → ℤ → ℤ
positive_or fallback n = if ltb_ℤ (pos 0) n then n else fallback

unfoldable pub effective_successful_keep_last : Option RetentionPolicy → ℤ
effective_successful_keep_last none = pos 3
effective_successful_keep_last (some policy) =
    positive_or (pos 3) policy.spec.successful_snapshots.keep_last

unfoldable pub effective_failed_keep_last : Option RetentionPolicy → ℤ
effective_failed_keep_last none = pos 1
effective_failed_keep_last (some policy) =
    positive_or (pos 1) policy.spec.failed_executions.keep_last

-- The first time that is set.
abbrev pub first_time : Option Time → Time → Time
first_time (some t) _ = t
first_time none t = t

unfoldable pub snapshot_sort_time : Snapshot → Time
snapshot_sort_time s =
    first_time s.status.completed_at (first_time s.status.started_at s.creation_timestamp)

-- The order of `sortSnapshotsNewestFirst`: the later time first, and for equal times the greater
-- name first.
unfoldable pub is_newer : Snapshot → Snapshot → Bool
unfolding snapshot_sort_time
is_newer i j =
    let left = snapshot_sort_time i in
    let right = snapshot_sort_time j in
    if left == right then text_lt j.name i.name else ltb right left

unfoldable pub sort_snapshots_newest_first : List Snapshot → List Snapshot
sort_snapshots_newest_first items = sort is_newer items

unfoldable pub in_series : Text → Snapshot → Bool
in_series series s = text_eq s.spec.series series

abbrev pub same_bool : Bool → Bool → Bool
same_bool true b = b
same_bool false true = false
same_bool false false = true

-- The deletion of `deleteInBackground`, whose answer "not found" is no failure.
unfoldable pub unless_gone : Prog (Reply Unit) → Reply Unit → Prog (Reply Unit)
unless_gone rest (ok _) = rest
unless_gone rest (err (not_found m)) = rest
unless_gone rest (err e) = ret (err e)

unfoldable pub delete_quietly : Snapshot → Prog (Reply Unit) → Prog (Reply Unit)
unfolding ◌>>=◌
delete_quietly s rest = request (delete_snapshot s) >>= unless_gone rest

-- The body that is retried: mark the snapshot as the latest, or as not the latest.
unfoldable pub set_latest : Text → Text → Bool → Prog (Reply Unit)
unfolding ◌>>=◌
set_latest namespace name latest = try (request (get_snapshot namespace name)) λ current.
    request (
      update_snapshot_status
        (record current { status = record current.status { latest = latest } }))

-- `retry` is RetryOnConflict with the default backoff.
module _ (retry : Prog (Reply Unit) → Prog (Reply Unit)) where
  -- The loop over the sorted snapshots from `index` on.
  unfoldable pub series_loop : Text → ℤ → Text → ℕ → List Snapshot → Prog (Reply Unit)
  unfolding delete_quietly set_latest ◌>>=◌
  series_loop namespace keep_last latest_name index [] = ret (ok tt)
  series_loop namespace keep_last latest_name index (s ∷ rest) =
      let next = series_loop namespace keep_last latest_name (suc index) rest in
      let expected_latest = text_eq s.name latest_name in
      if ltb_ℤ (pos 0) keep_last && leb_ℤ keep_last (int32 index)
      then delete_quietly s next
      else if same_bool s.status.latest expected_latest
      then next
      else try (retry (set_latest namespace s.name expected_latest)) (λ _. next)

  unfoldable pub reconcile_snapshot_series : Text → Text → ℤ → Text → Prog (Reply Unit)
  unfolding series_loop ◌>>=◌
  reconcile_snapshot_series namespace series keep_last latest_name =
      try (request (list_snapshots namespace)) λ items.
        series_loop namespace keep_last latest_name 0
          (sort_snapshots_newest_first (select (in_series series) items))
