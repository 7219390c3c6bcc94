-- ===== src/Kube.antt =====
-- The Kubernetes types that the repository's own types and controllers use, with the fields that
-- the code reads or writes: metav1 (times, conditions, object metadata), corev1 and batchv1.
pub mod Meta
pub mod Core
pub mod Batch
