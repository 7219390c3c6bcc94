-- ===== src/Summary.antt =====
-- controllers/common.go: what a container reports in its termination message.
use dataprotection.Base.{Option, Text, ℤ}
use dataprotection.Api.Common.{ProbeResult}

pub record StorageProbeSummary : Type 0 where
  pub result : ProbeResult
  pub message : Text

pub record ArtifactSummary : Type 0 where
  pub snapshot : Text
  pub backend_path : Text
  pub checksum : Text
  pub size : ℤ
  pub completed_at : Text

pub record PodExecutionSummary : Type 0 where
  pub storage_probe : Option StorageProbeSummary
  pub artifact : Option ArtifactSummary
  pub message : Text
