-- ===== src/Runtime/Pods.antt =====
-- controllers/runtime_helpers.go and snapshot_controller.go: the containers and pods of native jobs. A
-- dereferenced nil pointer is `none`.
use dataprotection.Base.{List, [], ◌∷◌, Option, none, some, Text, codes}
use dataprotection.Kube.Core.{
  EnvVar, ResourceRequirements, VolumeMount, empty_dir, nfs_volume, Volume, Container, PodSpec,
}
use dataprotection.Api.Common.{
  StorageType, nfs, minio, other, AddonTemplateSpec, JobRuntimeSpec, NfsStorageSpec,
}
use dataprotection.Api.Config.{BackupAddon, BackupSource, BackupStorage}
use dataprotection.Platform.{Platform}
use dataprotection.Defaults.{
  default_utility_image, default_minio_helper_image, default_image_pull_policy,
  effective_pull_policy,
}
use dataprotection.Shell.{addon_wrapped_command}
use dataprotection.Runtime.Env.{merge_env_vars, build_storage_env, build_addon_parameter_env}
use dataprotection.Runtime.Origin.{ResolvedRestoreExecution, artifact_path, artifact_format}
use dataprotection.Runtime.Scripts.{
  build_nfs_backup_preflight_script, build_nfs_restore_preflight_script, build_nfs_upload_script,
  build_nfs_download_script, build_minio_backup_preflight_script,
  build_minio_restore_preflight_script, build_minio_upload_script, build_minio_download_script,
}
use dataprotection.Runtime.Scripts.Package.{package_script}

abbrev pub mount : Text → Text → VolumeMount
mount name path = record { name = name; mount_path = path }

abbrev pub workspace_status : VolumeMount
workspace_status = mount (codes "workspace-status") (codes "/workspace/status")

abbrev pub workspace_output : VolumeMount
workspace_output = mount (codes "workspace-output") (codes "/workspace/output")

abbrev pub workspace_input : VolumeMount
workspace_input = mount (codes "workspace-input") (codes "/workspace/input")

abbrev pub no_resources : ResourceRequirements
no_resources = record { requests = none; limits = none }

abbrev pub shell_entry : List Text
shell_entry = codes "/bin/sh" ∷ codes "-ceu" ∷ []

unfoldable pub mounts_of : StorageType → List VolumeMount
mounts_of nfs = mount (codes "backend-storage") (codes "/backend") ∷ []
mounts_of minio = []
mounts_of (other type) = []

unfoldable pub storage_volume_mounts : BackupStorage → List VolumeMount
unfolding mounts_of
storage_volume_mounts storage = mounts_of storage.spec.type

-- The volume of the backend, for an NFS storage.
unfoldable pub volumes_of : StorageType → Option NfsStorageSpec → Option (List Volume)
volumes_of nfs (some n) =
    some (record { name = codes "backend-storage"; source = nfs_volume n.server n.path } ∷ [])
volumes_of nfs none = none
volumes_of minio n = some []
volumes_of (other type) n = some []

unfoldable pub backend_volumes : BackupStorage → Option (List Volume)
unfolding volumes_of
backend_volumes storage = volumes_of storage.spec.type storage.spec.nfs

-- What a container that works on the storage runs: the script for NFS, or the one for MinIO.
unfoldable pub by_type {ℓ} : {A : Type ℓ} → StorageType → A → A → A
by_type nfs for_nfs for_minio = for_nfs
by_type minio for_nfs for_minio = for_minio
by_type (other type) for_nfs for_minio = for_nfs

abbrev pub scratch : Text → Volume
scratch name = record { name = name; source = empty_dir }

module _ (p : Platform) where
  unfoldable pub storage_container : Text → Text → Text → List EnvVar → List VolumeMount → Container
  storage_container name image script env mounts = record {
    name = name;
    image = image;
    image_pull_policy = default_image_pull_policy (image ∷ []);
    command = shell_entry;
    args = script ∷ [];
    env = env;
    working_dir = codes "";
    volume_mounts = mounts;
    resources = no_resources;
  }

  abbrev pub helper_image : BackupStorage → Text
  helper_image storage =
      by_type storage.spec.type (default_utility_image p) (default_minio_helper_image p)

  unfoldable pub build_backup_storage_preflight_container : BackupStorage → List EnvVar → Container
  unfolding by_type storage_container storage_volume_mounts
  build_backup_storage_preflight_container storage env =
      storage_container (codes "storage-preflight") (helper_image storage)
        (by_type storage.spec.type (build_nfs_backup_preflight_script p)
          (build_minio_backup_preflight_script p))
        env (storage_volume_mounts storage)

  unfoldable pub build_restore_storage_preflight_container : BackupStorage → List EnvVar → Container
  unfolding by_type storage_container storage_volume_mounts
  build_restore_storage_preflight_container storage env =
      storage_container (codes "storage-preflight") (helper_image storage)
        (by_type storage.spec.type (build_nfs_restore_preflight_script p)
          (build_minio_restore_preflight_script p))
        env (storage_volume_mounts storage)

  unfoldable pub build_artifact_package_container : List EnvVar → Container
  unfolding storage_container
  build_artifact_package_container env =
      storage_container (codes "artifact-package") (default_utility_image p) package_script env
        (workspace_output ∷ workspace_status ∷ [])

  unfoldable pub build_artifact_upload_container : BackupStorage → List EnvVar → Container
  unfolding by_type storage_container storage_volume_mounts
  build_artifact_upload_container storage env =
      storage_container (codes "artifact-upload") (helper_image storage)
        (by_type storage.spec.type build_nfs_upload_script build_minio_upload_script) env
        (workspace_status ∷ storage_volume_mounts storage)

  unfoldable pub build_artifact_download_container :
      ResolvedRestoreExecution → List EnvVar → Container
  unfolding by_type storage_container storage_volume_mounts
  build_artifact_download_container r env =
      let path = artifact_path r in
      let format = artifact_format p.unicode r in
      storage_container (codes "artifact-download") (helper_image r.storage)
        (by_type r.storage.spec.type (build_nfs_download_script p path format)
          (build_minio_download_script p path format))
        env (workspace_input ∷ workspace_status ∷ storage_volume_mounts r.storage)

  -- The container that runs an addon's template between its two marker files.
  unfoldable pub addon_container :
      Text
      → AddonTemplateSpec
      → Text
      → Text
      → JobRuntimeSpec
      → List EnvVar
      → VolumeMount
      → Container
  addon_container name template done_file failed_file runtime env workspace = record {
    name = name;
    image = template.image;
    image_pull_policy = effective_pull_policy runtime.image_pull_policy template.image;
    command = shell_entry;
    args =
        addon_wrapped_command template.command template.args template.working_dir done_file
          failed_file
        ∷ [];
    env = merge_env_vars env (template.env ∷ []);
    working_dir = template.working_dir;
    volume_mounts = workspace ∷ workspace_status ∷ [];
    resources = runtime.resources;
  }

  unfoldable pub build_addon_backup_container :
      BackupAddon → JobRuntimeSpec → List EnvVar → Container
  unfolding addon_container
  build_addon_backup_container addon runtime env =
      addon_container (codes "addon-backup") addon.spec.backup_template
        (codes "/workspace/status/plugin.done") (codes "/workspace/status/plugin.failed") runtime
        env workspace_output

  abbrev pub pod_spec : JobRuntimeSpec → List Volume → List Container → List Container → PodSpec
  pod_spec runtime volumes init_containers containers = record {
    restart_policy = codes "Never";
    service_account_name = runtime.service_account_name;
    priority_class_name = runtime.priority_class_name;
    node_selector = runtime.node_selector;
    tolerations = runtime.tolerations;
    volumes = volumes;
    init_containers = init_containers;
    containers = containers;
  }

  -- The pod of a backup, from the environment and the volumes of its storage.
  unfoldable pub backup_pod_of :
      JobRuntimeSpec
      → BackupAddon
      → BackupStorage
      → List EnvVar
      → Option (List EnvVar)
      → Option (List Volume)
      → Option PodSpec
  unfolding build_backup_storage_preflight_container build_addon_backup_container
  backup_pod_of runtime addon storage env none backend = none
  backup_pod_of runtime addon storage env (some base) none = none
  backup_pod_of runtime addon storage env (some base) (some backend) =
      let storage_env = merge_env_vars base (env ∷ []) in
      some (
        pod_spec runtime
          (scratch (codes "workspace-output") ∷ scratch (codes "workspace-status") ∷ backend)
          (build_backup_storage_preflight_container storage storage_env ∷ [])
          (build_addon_backup_container addon runtime env
            ∷ build_artifact_package_container env
            ∷ build_artifact_upload_container storage storage_env
            ∷ []))

  unfoldable pub build_backup_pod_spec :
      JobRuntimeSpec → BackupSource → BackupAddon → BackupStorage → List EnvVar → Option PodSpec
  unfolding backup_pod_of
  build_backup_pod_spec runtime source addon storage env0 =
      backup_pod_of runtime addon storage
        (merge_env_vars env0 (build_addon_parameter_env p.unicode source ∷ []))
        (build_storage_env storage) (backend_volumes storage)

  -- The template of a restore: that of the addon for restores, or the one for backups.
  unfoldable pub restore_template_of : BackupAddon → AddonTemplateSpec
  restore_template_of addon = elim addon.spec.restore_template [
    | some template ↦ template
    | none ↦ addon.spec.backup_template
  ]

  unfoldable pub build_restore_pod_spec :
      JobRuntimeSpec → ResolvedRestoreExecution → List EnvVar → Option PodSpec
  unfolding build_restore_storage_preflight_container addon_container restore_template_of
  build_restore_pod_spec runtime r env = elim (build_storage_env r.storage) [
    | none ↦ none
    | some base ↦ elim (backend_volumes r.storage) [
      | none ↦ none
      | some backend ↦
          let storage_env = merge_env_vars base (env ∷ []) in
          some (
            pod_spec runtime
              (scratch (codes "workspace-input") ∷ scratch (codes "workspace-status") ∷ backend)
              (build_restore_storage_preflight_container r.storage storage_env
                ∷ build_artifact_download_container r storage_env
                ∷ [])
              (addon_container (codes "addon-restore") (restore_template_of r.addon)
                  (codes "/workspace/status/restore.done")
                  (codes "/workspace/status/restore.failed") runtime env workspace_input
                ∷ []))
    ]
  ]
