-- ===== src/Controllers/Configuration/Verdicts.antt =====
-- What the reconcilers of the configuration report, and that they report it.
use dataprotection.Base.{
  List, [], ◌∷◌, ◌++◌, ap, Option, none, some, Bool, true, false, Text, codes, ◌≡◌, refl, ◌↔◌,
}
use dataprotection.Kube.Meta.{Time}
use dataprotection.Api.Common.{ResourcePhase}
use dataprotection.Api.Config.{
  BackupAddon, BackupSource, BackupStorage, RetentionPolicy, NotificationEndpoint,
}
use dataprotection.Platform.{Platform}
use dataprotection.Validate.{
  validate_addon, validate_source, validate_storage, validate_retention, validate_endpoint,
}
use dataprotection.Validate.Specs.{HasBackend, validate_storage_iff}
use dataprotection.Effects.{
  Reply, ok, err, Request, now, get_addon, get_source, get_storage, get_retention, get_endpoint,
  patch_addon_status, patch_source_status, patch_storage_status, patch_retention_status,
  patch_endpoint_status, ◌>>=◌, trace,
}
use dataprotection.Effects.Run.{Oracle}
use dataprotection.Execution.{mark_condition}
use dataprotection.Controllers.Configuration.{
  verdict_of, source_verdict, judge_source, report_source, with_addon, reconcile_addon, with_source,
  reconcile_source, with_storage, reconcile_storage, with_endpoint, reconcile_endpoint,
  with_retention, reconcile_retention,
}

-- The phase of a specification, by its validation.
abbrev Verdicts : ResourcePhase → Option Text → Type 0
Verdicts phase v = (phase ≡ ResourcePhase.configured) ↔ (v ≡ none)

verdict_of-Verdicts :
    (configured : Text) (v : Option Text) → Verdicts (verdict_of configured v).phase v
unfolding verdict_of
verdict_of-Verdicts configured none = ((λ e. refl), λ e. refl)
verdict_of-Verdicts configured (some m) = ((λ e. cc), λ e. cc)

-- Whether an answer has what was asked for.
abbrev pub IsThere : {A : Type 0} → Reply A → Type 0
IsThere (ok a) = Unit
IsThere (err e) = ⊥

-- The addon is asked for only where the specification validates.
abbrev pub addon_requests : BackupSource → Option Text → List Request
addon_requests base none = get_addon base.spec.addon_ref.name ∷ []
addon_requests base (some message) = []

-- A source that may be backed up.
abbrev pub IsUsable : Oracle → BackupSource → Option Text → Type 0
IsUsable o base v =
    (v ≡ none) × IsThere (o (get_addon base.spec.addon_ref.name)) × (base.spec.paused ≡ false)

source_verdict_iff :
    (paused : Bool) (x : Reply BackupAddon)
    → ((source_verdict paused x).phase ≡ ResourcePhase.configured) ↔ (IsThere x × (paused ≡ false))
unfolding source_verdict
source_verdict_iff paused (err e) = ((λ h. cc), λ h. elim h.0 [ ])
source_verdict_iff true (ok addon) = ((λ h. cc), λ h. cc)
source_verdict_iff false (ok addon) = ((λ h. (tt, refl)), λ h. refl)

module _ (p : Platform) (quote : Text → Text) (parse_request_uri : Text → Option Text)
    (o : Oracle) where
  -- The reconciler of a storage that is there makes one write, to the status of that storage: the phase is
  -- `Configured` exactly when the storage has the block of its type with its required fields, the observed
  -- generation is that of the storage, and its specification and metadata stay as they are.
  pub reconcile_storage-Reports :
      (namespace name : Text) (base : BackupStorage)
      → o (get_storage namespace name) ≡ ok base
      → (new : BackupStorage) × (trace o
            (reconcile_storage p quote parse_request_uri namespace name)
          ≡ get_storage namespace name ∷ now ∷ patch_storage_status base new ∷ [])
        × ((new.status.phase ≡ ResourcePhase.configured) ↔ HasBackend base.spec base.spec.type)
        × (new.status.observed_generation ≡ base.generation)
        × (new.spec ≡ base.spec)
        × (new.metadata ≡ base.metadata)
  unfolding reconcile_storage with_storage mark_condition ◌>>=◌
  reconcile_storage-Reports namespace name base e =
      rw e (_, refl, storage_iff base, refl, refl, refl)
    where
      storage_iff :
          (b : BackupStorage)
          → ((verdict_of
                (codes
                  "storage backend is configured; connectivity is checked before each execution")
                (validate_storage quote b.spec)).phase
              ≡ ResourcePhase.configured)
            ↔ HasBackend b.spec b.spec.type
      storage_iff b = (
        (λ h.
            (validate_storage_iff quote b.spec).0
              ((verdict_of-Verdicts _ (validate_storage quote b.spec)).0 h)),
        λ h.
            (verdict_of-Verdicts _ (validate_storage quote b.spec)).1
              ((validate_storage_iff quote b.spec).1 h),
      )

  report_source-Reports :
      (base : BackupSource) (t : Time) (v : Option Text)
      → (new : BackupSource) × (trace o
            (judge_source base v >>= report_source p quote parse_request_uri base t)
          ≡ addon_requests base v ++ now ∷ patch_source_status base new ∷ [])
        × ((new.status.phase ≡ ResourcePhase.configured) ↔ IsUsable o base v)
        × (new.status.observed_generation ≡ base.generation)
        × (new.status.last_validated_time ≡ some t)
        × (new.spec ≡ base.spec)
        × (new.metadata ≡ base.metadata)
  unfolding judge_source report_source mark_condition ◌>>=◌
  report_source-Reports base t (some m) = (_, refl, ((λ h. cc), λ h. cc), refl, refl, refl, refl)
  report_source-Reports base t none = (
    _,
    refl,
    (
      (λ h. (refl, (usable h).0, (usable h).1)),
      λ h. (source_verdict_iff base.spec.paused answer).1 (h.1, h.2),
    ),
    refl,
    refl,
    refl,
    refl,
  )
    where
      answer : Reply BackupAddon
      answer = o (get_addon base.spec.addon_ref.name)

      usable :
          (source_verdict base.spec.paused (o (get_addon base.spec.addon_ref.name))).phase
            ≡ ResourcePhase.configured
          → IsThere (o (get_addon base.spec.addon_ref.name)) × (base.spec.paused ≡ false)
      usable = (source_verdict_iff base.spec.paused (o (get_addon base.spec.addon_ref.name))).0

  -- The reconciler of a source that is there makes one write, to the status of that source: the phase is
  -- `Configured` exactly when the specification validates, its addon is there and it is not paused; the
  -- addon is asked for only after the validation, the observed generation is that of the source, the time
  -- of validation is the present, and the specification and metadata stay as they are.
  pub reconcile_source-Reports :
      (namespace name : Text) (base : BackupSource)
      → o (get_source namespace name) ≡ ok base
      → (new : BackupSource) × (trace o (reconcile_source p quote parse_request_uri namespace name)
          ≡ get_source namespace name
            ∷ now
            ∷ (addon_requests base (validate_source base.spec)
                ++ now ∷ patch_source_status base new ∷ []))
        × ((new.status.phase ≡ ResourcePhase.configured)
            ↔ IsUsable o base (validate_source base.spec))
        × (new.status.observed_generation ≡ base.generation)
        × (new.status.last_validated_time ≡ some (o now))
        × (new.spec ≡ base.spec)
        × (new.metadata ≡ base.metadata)
  unfolding reconcile_source with_source ◌>>=◌
  reconcile_source-Reports namespace name base e =
      let r = report_source-Reports base (o now) (validate_source base.spec) in
      rw e (r.0, ap (λ t. get_source namespace name ∷ now ∷ t) r.1, r.2, r.3, r.4, r.5, r.6)

  -- The reconcilers of an addon, of a notification endpoint and of a retention policy that are there make one
  -- write each, to the status of that resource: the phase is `Configured` exactly when the specification
  -- validates, the observed generation is that of the resource, and its specification stays as it is.
  pub reconcile_configuration-Reports :
      (namespace name : Text) (addon : BackupAddon) (endpoint : NotificationEndpoint)
      (retention : RetentionPolicy)
      → o (get_addon name) ≡ ok addon
      → o (get_endpoint namespace name) ≡ ok endpoint
      → o (get_retention namespace name) ≡ ok retention
      → ((new : BackupAddon) × (trace o (reconcile_addon p quote parse_request_uri name)
            ≡ get_addon name ∷ now ∷ patch_addon_status addon new ∷ [])
          × ((new.status.phase ≡ ResourcePhase.configured) ↔ (validate_addon addon.spec ≡ none))
          × (new.status.observed_generation ≡ addon.generation)
          × (new.spec ≡ addon.spec))
        × ((new : NotificationEndpoint) × (trace o
                (reconcile_endpoint p quote parse_request_uri namespace name)
              ≡ get_endpoint namespace name ∷ now ∷ patch_endpoint_status endpoint new ∷ [])
            × ((new.status.phase ≡ ResourcePhase.configured)
                ↔ (validate_endpoint parse_request_uri endpoint.spec ≡ none))
            × (new.status.observed_generation ≡ endpoint.generation)
            × (new.spec ≡ endpoint.spec))
        × ((new : RetentionPolicy) × (trace o
                (reconcile_retention p quote parse_request_uri namespace name)
              ≡ get_retention namespace name ∷ now ∷ patch_retention_status retention new ∷ [])
            × ((new.status.phase ≡ ResourcePhase.configured)
                ↔ (validate_retention retention.spec ≡ none))
            × (new.status.observed_generation ≡ retention.generation)
            × (new.spec ≡ retention.spec))
  unfolding reconcile_addon with_addon reconcile_endpoint with_endpoint reconcile_retention
      with_retention mark_condition ◌>>=◌
  reconcile_configuration-Reports namespace name addon endpoint retention e f g = (
    rw e (_, refl, verdict_of-Verdicts _ (validate_addon addon.spec), refl, refl),
    rw f (
      _,
      refl,
      verdict_of-Verdicts _ (validate_endpoint parse_request_uri endpoint.spec),
      refl,
      refl,
    ),
    rw g (_, refl, verdict_of-Verdicts _ (validate_retention retention.spec), refl, refl),
  )
