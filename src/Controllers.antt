-- ===== src/Controllers.antt =====
-- controllers/*_controller.go: the reconcilers, as programs of requests.
pub mod Snapshots
pub mod RestoreJobs
pub mod BackupJobs
pub mod Configuration
pub mod Policies
pub mod JobObserver
