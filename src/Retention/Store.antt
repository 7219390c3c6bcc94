-- ===== src/Retention/Store.antt =====
-- A store of snapshots that answers the requests of the retention, and runs against it.
use dataprotection.Base.{List, [], ◌∷◌, Option, none, some, Text, text_eq, if◌then◌else◌}
use dataprotection.Kube.Meta.{Time}
use dataprotection.Api.Execution.{Snapshot}
use dataprotection.Effects.{
  not_found, Reply, ok, err, Request, Response, get_snapshot, list_snapshots,
  update_snapshot_status, delete_snapshot, Prog, ret, panic, call,
}
use dataprotection.Effects.Run.{Oracle}

-- The snapshots of a namespace by name.
abbrev pub Store : Type 0
Store = Text → Option Snapshot

abbrev pub put : Text → Option Snapshot → Store → Store
put name v store n = if text_eq name n then v else store n

abbrev pub found : Option Snapshot → Reply Snapshot
found none = err (not_found [])
found (some s) = ok s

-- The time of the deletion, where the object has none yet.
abbrev pub stamped : Time → Option Time → Option Time
stamped t none = some t
stamped t (some u) = some u

-- A deleted object goes at once if it has no finalizer; else it stays and has the time of its deletion.
abbrev pub terminated : Time → Snapshot → List Text → Option Snapshot
terminated t s [] = none
terminated t s (f ∷ fs) = some (record s {
  metadata = record s.metadata { deletion_timestamp = stamped t s.deletion_timestamp };
})

abbrev pub deleted : Time → Option Snapshot → Option Snapshot
deleted t none = none
deleted t (some s) = terminated t s s.finalizers

-- The answer to a request that writes an object.
abbrev pub if_there : Option Snapshot → Reply Unit
if_there none = err (not_found [])
if_there (some s) = ok tt

-- An update of the status writes nothing but the status of the object that is there.
abbrev pub with_status_of : Snapshot → Option Snapshot → Option Snapshot
with_status_of new none = none
with_status_of new (some s) = some (record s { status = new.status })

-- The store lists `items` and answers by itself what concerns single snapshots, where `t` is the time of
-- deletions; the oracle answers the rest.
abbrev pub serve : List Snapshot → Time → Oracle → Store → (r : Request) → Response r × Store
serve items t o store (list_snapshots ns) = (ok items, store)
serve items t o store (get_snapshot ns name) = (found (store name), store)
serve items t o store (update_snapshot_status s) =
    (if_there (store s.name), put s.name (with_status_of s (store s.name)) store)
serve items t o store (delete_snapshot s) =
    (if_there (store s.name), put s.name (deleted t (store s.name)) store)
serve items t o store r = (o r, store)

abbrev pub exec : {A : Type 0} → List Snapshot → Time → Oracle → Store → Prog A → Option (A × Store)
exec items t o store (ret a) = some (a, store)
exec items t o store panic = none
exec items t o store (call r k) =
    exec items t o (serve items t o store r).1 (k (serve items t o store r).0)
