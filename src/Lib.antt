-- ===== src/Lib.antt =====
-- A verification library for the data-protection operator, a Kubernetes controller that backs up
-- sources to storages, keeps snapshots under retention policies and restores from them.
--
-- How the program works. An administrator writes addons, sources, storages, policies and retention
-- policies (api/v1alpha1). A backup job or a policy's cron job becomes a native Kubernetes job whose
-- pod checks the storage, runs the addon, packs its output and uploads it; a restore job becomes one
-- that downloads an artifact and runs the addon. The controllers (controllers/) watch these jobs, read
-- the summaries that the containers leave, and register snapshots.
--
-- Which file models which part:
--   Base        texts as lists of code points, the native integers, Go's strings, path, sort and
--               strconv packages as far as the program uses them
--   Kube        the types of corev1, batchv1 and metav1 that the program reads and writes
--   Api         the resource types of api/v1alpha1/*_types.go, field by field
--   Naming      api/v1alpha1/naming.go
--   Import      the methods of RestoreImportSource in api/v1alpha1/restorejob_types.go and its
--               validation in api/v1alpha1/validation.go
--   Validate    the other functions of api/v1alpha1/validation.go
--   Shell       shellQuote, shellCommand, addonWrappedCommand of controllers/runtime_helpers.go
--   Merge       mergeEnvVars and mergeRestoreSecretRefs of controllers/runtime_helpers.go
--   Defaults    controllers/defaults.go
--   Summary     the summary of a pod, from controllers/common.go
--   Runtime     the rest of controllers/runtime_helpers.go: labels, environment, scripts, pods, jobs;
--               the cleanup job of controllers/snapshot_controller.go
--   Execution   controllers/execution_helpers.go and common.go: what jobs and pods report
--   Retention   sortSnapshotsNewestFirst of controllers/common.go and reconcileSnapshotSeries of
--               controllers/execution_helpers.go
--   Messages    the JSON messages of controllers/notifications.go, and what its HTTP requests carry
--   Notifications  the rest of controllers/notifications.go
--   Gateway     notification_gateway.go: the handler of /dispatch
--   Controllers controllers/*_controller.go: Snapshots, RestoreJobs, BackupJobs, Policies, JobObserver,
--               and Configuration for the addon, source, storage, endpoint and retention reconcilers,
--               with the resolution of dependencies of controllers/runtime_helpers.go
--   Platform    what the program does not implement, as parameters
--   Effects     requests to the API server, the clock and the network, and programs of such requests
--   Examples    the theorems at concrete inputs
--
-- Representation. A string is the list of its code points, and its length in bytes is that of its
-- UTF-8 encoding; invalid UTF-8 is not modelled. A nil pointer is `none`, an error of a validation is
-- its message, and `none` is a nil error. A nil map and an empty map are one list. An int32 or int64 of
-- a resource is an integer; the conversion int32(index) keeps its wrap-around. A dereferenced nil
-- pointer is `none` in a function and `panic` in a program. A reconciler is a program of requests: a
-- theorem about it holds for every answer of the server that its rely condition allows, and thus for
-- every interleaving with other writers between two requests.
--
-- Fuel. All loops are structural, over lists. Only the printing of a decimal number has fuel, one more
-- than the number itself, which exceeds the number of its digits.
--
-- Not modelled: generated deep copies, the registration of the scheme, flags and wiring in main.go, the
-- HTTP server of the gateway, and the helpers that no file above names. An HTTP request is one request of
-- a program: what keeps it from being sent or answered is one error, and the JSON of its answer is decoded.
-- CreateOrUpdate is one request that carries the mutation; that it reads, mutates and writes is the library's.
-- The scripts of the storage containers are modelled as texts, without a semantics of the shell beyond
-- the splitting of a command line into words.
pub mod Base
pub mod Kube
pub mod Api
pub mod Platform
pub mod Naming
pub mod Import
pub mod Validate
pub mod Shell
pub mod Merge
pub mod Effects
pub mod Retention
pub mod Summary
pub mod Defaults
pub mod Runtime
pub mod Execution
pub mod Controllers
pub mod Messages
pub mod Notifications
pub mod Gateway
mod Examples
