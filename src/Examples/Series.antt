-- ===== src/Examples/Series.antt =====
-- The retention of a series against a store of two snapshots.
use dataprotection.Base.{List, [], ◌∷◌, none, some, Text, codes, text_eq, pos, ◌≡◌, refl, arith}
use dataprotection.Base.Sort.{sort}
use dataprotection.Api.Execution.{Snapshot}
use dataprotection.Effects.{ok}
use dataprotection.Retention.{
  sort_snapshots_newest_first, in_series, is_newer, reconcile_snapshot_series,
}
use dataprotection.Retention.Order.{Arranges}
use dataprotection.Retention.Safety.{series_of}
use dataprotection.Retention.Store.{Store, put, exec}
use dataprotection.Retention.Marks.{once, retained}
use dataprotection.Retention.Refinement.{reconcile_snapshot_series_refines}
use dataprotection.Controllers.Snapshots.{snapshot_storage_cleanup_finalizer}
use dataprotection.Examples.Data.{snapshot}
use dataprotection.Examples.Cluster.{network}

-- A snapshot with the finalizer of its cleanup.
abbrev guarded : Snapshot
guarded = record (snapshot (codes "a") 10) {
  metadata = record (snapshot (codes "a") 10).metadata {
    finalizers = snapshot_storage_cleanup_finalizer ∷ [];
  };
}

abbrev series : List Snapshot
series = guarded ∷ snapshot (codes "b") 20 ∷ []

abbrev two_stored : Store
two_stored =
    put (codes "a") (some guarded) (put (codes "b") (some (snapshot (codes "b") 20)) (λ n. none))

reconcile_snapshot_series_refines_example :
    (order : List Snapshot) × Arranges (series_of (codes "s") series) order
    × (final : Store) × (exec series 50 network two_stored
          (reconcile_snapshot_series once (codes "prod") (codes "s") (pos 1) (codes "b"))
        ≡ some (ok tt, final))
    × ((n : Text) → final n ≡ retained 1 50 (codes "b") order two_stored n)
unfolding sort_snapshots_newest_first sort in_series text_eq is_newer
reconcile_snapshot_series_refines_example =
    reconcile_snapshot_series_refines series 50 network (codes "prod") (codes "s") (codes "b") 1
      two_stored (omega arith) (omega arith) (refl, (refl, tt))
