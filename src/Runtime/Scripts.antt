-- ===== src/Runtime/Scripts.antt =====
-- controllers/runtime_helpers.go and snapshot_controller.go: the shell scripts of the containers
-- that work on the storage.
mod Report
mod Nfs
mod Minio
pub mod Package
pub use Report.*
unfoldable pub use Nfs.*
unfoldable pub use Minio.*
