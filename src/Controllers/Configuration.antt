-- ===== src/Controllers/Configuration.antt =====
-- controllers/backupaddon_controller.go, backupsource_controller.go, backupstorage_controller.go,
-- notificationendpoint_controller.go and retentionpolicy_controller.go: the reconcilers that validate a
-- resource and report the verdict in its status. The proofs are in the modules below this one.
pub mod Verdicts
use dataprotection.Base.{Option, none, some, Bool, true, false, Text, codes}
use dataprotection.Kube.Meta.{Time, ConditionStatus, condition_true, condition_false, Condition}
use dataprotection.Api.Common.{ResourcePhase, ProbeResult}
use dataprotection.Api.Config.{
  BackupAddon, BackupSource, BackupStorage, RetentionPolicy, NotificationEndpoint,
}
use dataprotection.Platform.{Platform}
use dataprotection.Validate.{
  validate_addon, validate_source, validate_storage, validate_retention, validate_endpoint,
}
use dataprotection.Effects.{
  error_text, Reply, ok, err, now, get_addon, get_source, get_storage, get_retention, get_endpoint,
  patch_addon_status, patch_source_status, patch_storage_status, patch_retention_status,
  patch_endpoint_status, Prog, ret, request, ◌>>=◌, Outcome, done, unless_failed, ignore_not_found,
}
use dataprotection.Execution.{mark_condition}

-- The phase, the message and the condition of a status.
pub record Verdict : Type 0 where
  pub phase : ResourcePhase
  pub status : ConditionStatus
  pub reason : Text
  pub message : Text

abbrev pub failed_verdict : Text → Text → Verdict
failed_verdict reason message = record {
  phase = ResourcePhase.failed;
  status = condition_false;
  reason = reason;
  message = message;
}

abbrev pub configured_verdict : Text → Verdict
configured_verdict message = record {
  phase = ResourcePhase.configured;
  status = condition_true;
  reason = codes "Configured";
  message = message;
}

-- The verdict on a specification, by its validation.
unfoldable pub verdict_of : Text → Option Text → Verdict
verdict_of configured (some message) = failed_verdict (codes "InvalidSpec") message
verdict_of configured none = configured_verdict configured

-- An addon that is there, and whether the source is paused.
unfoldable pub source_verdict : Bool → Reply BackupAddon → Verdict
source_verdict paused (err e) = failed_verdict (codes "AddonNotFound") (error_text e)
source_verdict true (ok addon) = record {
  phase = ResourcePhase.paused;
  status = condition_false;
  reason = codes "Paused";
  message = codes "backup source is paused";
}
source_verdict false (ok addon) = configured_verdict (codes "backup source configuration is valid")

-- The addon is asked for only where the specification validates.
unfoldable pub judge_source : BackupSource → Option Text → Prog Verdict
unfolding source_verdict ◌>>=◌
judge_source source (some message) = ret (failed_verdict (codes "InvalidSpec") message)
judge_source source none = request (get_addon source.spec.addon_ref.name) >>= λ x.
    ret (source_verdict source.spec.paused x)

-- A storage that was never probed has the result `Unknown`.
unfoldable pub probed : ProbeResult → ProbeResult
probed ProbeResult.unset = ProbeResult.unknown
probed result = result

-- `quote` is the format verb %q, and `parse_request_uri` is url.ParseRequestURI.
module _ (p : Platform) (quote : Text → Text) (parse_request_uri : Text → Option Text) where
  unfoldable pub with_addon : Reply BackupAddon → Prog Outcome
  unfolding mark_condition verdict_of ◌>>=◌
  with_addon (err e) = ret (ignore_not_found e)
  with_addon (ok base) =
      let v = verdict_of (codes "addon template is configured") (validate_addon base.spec) in
      mark_condition p base.status.conditions v.status v.reason v.message base.generation
      >>= λ conditions.
          request (
            patch_addon_status base (record base {
              status = record base.status {
                phase = v.phase;
                observed_generation = base.generation;
                message = v.message;
                conditions = conditions;
              };
            }))
          >>= λ r. ret (unless_failed r done)

  unfoldable pub reconcile_addon : Text → Prog Outcome
  unfolding with_addon ◌>>=◌
  reconcile_addon name = request (get_addon name) >>= with_addon

  -- The verdict, written to the status of the source.
  unfoldable pub report_source : BackupSource → Time → Verdict → Prog Outcome
  unfolding mark_condition ◌>>=◌
  report_source base t v =
      mark_condition p base.status.conditions v.status v.reason v.message base.generation
      >>= λ conditions.
          request (
            patch_source_status base (record base {
              status = record {
                phase = v.phase;
                observed_generation = base.generation;
                last_validated_time = some t;
                message = v.message;
                conditions = conditions;
              };
            }))
          >>= λ r. ret (unless_failed r done)

  unfoldable pub with_source : Reply BackupSource → Prog Outcome
  unfolding judge_source report_source ◌>>=◌
  with_source (err e) = ret (ignore_not_found e)
  with_source (ok base) =
      request now >>= λ t. judge_source base (validate_source base.spec) >>= report_source base t

  unfoldable pub reconcile_source : Text → Text → Prog Outcome
  unfolding with_source ◌>>=◌
  reconcile_source namespace name = request (get_source namespace name) >>= with_source

  unfoldable pub with_storage : Reply BackupStorage → Prog Outcome
  unfolding mark_condition verdict_of probed ◌>>=◌
  with_storage (err e) = ret (ignore_not_found e)
  with_storage (ok base) =
      let v =
        verdict_of
          (codes "storage backend is configured; connectivity is checked before each execution")
          (validate_storage quote base.spec) in
      mark_condition p base.status.conditions v.status v.reason v.message base.generation
      >>= λ conditions.
          request (
            patch_storage_status base (record base {
              status = record base.status {
                phase = v.phase;
                observed_generation = base.generation;
                last_probe_result = probed base.status.last_probe_result;
                message = v.message;
                conditions = conditions;
              };
            }))
          >>= λ r. ret (unless_failed r done)

  unfoldable pub reconcile_storage : Text → Text → Prog Outcome
  unfolding with_storage ◌>>=◌
  reconcile_storage namespace name = request (get_storage namespace name) >>= with_storage

  unfoldable pub with_endpoint : Reply NotificationEndpoint → Prog Outcome
  unfolding mark_condition verdict_of ◌>>=◌
  with_endpoint (err e) = ret (ignore_not_found e)
  with_endpoint (ok base) =
      let v =
        verdict_of (codes "notification endpoint is configured")
          (validate_endpoint parse_request_uri base.spec) in
      mark_condition p base.status.conditions v.status v.reason v.message base.generation
      >>= λ conditions.
          request (
            patch_endpoint_status base (record base {
              status = record {
                phase = v.phase;
                observed_generation = base.generation;
                message = v.message;
                conditions = conditions;
              };
            }))
          >>= λ r. ret (unless_failed r done)

  unfoldable pub reconcile_endpoint : Text → Text → Prog Outcome
  unfolding with_endpoint ◌>>=◌
  reconcile_endpoint namespace name = request (get_endpoint namespace name) >>= with_endpoint

  unfoldable pub with_retention : Reply RetentionPolicy → Prog Outcome
  unfolding mark_condition verdict_of ◌>>=◌
  with_retention (err e) = ret (ignore_not_found e)
  with_retention (ok base) =
      let v = verdict_of (codes "retention policy is configured") (validate_retention base.spec) in
      mark_condition p base.status.conditions v.status v.reason v.message base.generation
      >>= λ conditions.
          request (
            patch_retention_status base (record base {
              status = record {
                phase = v.phase;
                observed_generation = base.generation;
                message = v.message;
                conditions = conditions;
              };
            }))
          >>= λ r. ret (unless_failed r done)

  unfoldable pub reconcile_retention : Text → Text → Prog Outcome
  unfolding with_retention ◌>>=◌
  reconcile_retention namespace name = request (get_retention namespace name) >>= with_retention
