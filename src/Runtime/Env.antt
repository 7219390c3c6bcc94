-- ===== src/Runtime/Env.antt =====
-- controllers/runtime_helpers.go: the environment variables of the containers.
use dataprotection.Base.{
  ℕ, List, [], ◌∷◌, ◌++◌, map, Option, none, some, Bool, true, false, ◌||◌, Text, codes, text_lt,
  ◌==◌, if◌then◌else◌, is_empty, is_blank, trim, trim_space, trim_suffix, has_suffix,
}
use dataprotection.Base.Sort.{sort}
use dataprotection.Base.Decimal.{itoa}
use dataprotection.Kube.Meta.{TextMap, lookup}
use dataprotection.Kube.Core.{EnvVar}
use dataprotection.Api.Common.{
  StorageType, nfs, minio, other, SecretKeyReference, SecretParameterReference, ServiceReference,
  NamespacedObjectReference, EndpointSpec, MinIoStorageSpec, NfsStorageSpec,
}
use dataprotection.Api.Config.{BackupSource, BackupStorage}
use dataprotection.Platform.{Unicode, ascii_upper, ascii_digit}
use dataprotection.Merge.{merge}
use dataprotection.Runtime.{bool_string}

-- corev1.EnvVar{Name: name, Value: value}
abbrev pub env_var : Text → Text → EnvVar
env_var name value = record { name = name; value = value; secret_key_ref = none }

abbrev pub underscore : Text
underscore = codes "_"

abbrev pub is_underscore : ℕ → Bool
is_underscore c = c == b'_'

-- The loop of `envKey` over `lastUnderscore`: what it writes behind the prefix.
unfoldable pub env_key_loop : Bool → Text → Text
env_key_loop last_underscore [] = []
env_key_loop last_underscore (r ∷ raw) =
    if ascii_upper r || ascii_digit r
    then r ∷ env_key_loop false raw
    else if last_underscore
    then env_key_loop true raw
    else b'_' ∷ env_key_loop true raw

abbrev pub or_prefix : Text → Text → Text
or_prefix prefix result = if is_empty result then trim_suffix prefix underscore else result

unfoldable pub env_key : Unicode → Text → Text → Text
unfolding env_key_loop
env_key u prefix raw =
    let upper = map u.to_upper (trim_space raw) in
    if is_empty upper
    then trim_suffix prefix underscore
    else or_prefix prefix
        (trim is_underscore (prefix ++ env_key_loop (has_suffix prefix underscore) upper))

unfoldable pub append_secret_env_var : List EnvVar → Text → Option SecretKeyReference → List EnvVar
append_secret_env_var env name none = env
append_secret_env_var env name (some ref) =
    if is_blank ref.name || is_blank ref.key
    then env
    else env
      ++ record {
        name = name;
        value = [];
        secret_key_ref = some (record { name = ref.name; key = ref.key });
      }
        ∷ []

unfoldable pub merge_env_vars : List EnvVar → List (List EnvVar) → List EnvVar
merge_env_vars base overlays = merge (λ e. e.name) base overlays

unfoldable pub nfs_env : NfsStorageSpec → List EnvVar
nfs_env n =
    env_var (codes "DP_STORAGE_TYPE") (codes "nfs")
    ∷ env_var (codes "DP_NFS_SERVER") n.server
    ∷ env_var (codes "DP_NFS_PATH") n.path
    ∷ []

unfoldable pub minio_env : MinIoStorageSpec → List EnvVar
unfolding append_secret_env_var bool_string
minio_env m =
    let env =
      env_var (codes "DP_STORAGE_TYPE") (codes "minio")
      ∷ env_var (codes "DP_MINIO_ENDPOINT") m.endpoint
      ∷ env_var (codes "DP_MINIO_BUCKET") m.bucket
      ∷ env_var (codes "DP_MINIO_PREFIX") m.prefix
      ∷ env_var (codes "DP_MINIO_REGION") m.region
      ∷ env_var (codes "DP_MINIO_INSECURE") (bool_string m.insecure)
      ∷ env_var (codes "DP_MINIO_AUTO_CREATE_BUCKET") (bool_string m.auto_create_bucket)
      ∷ [] in
    append_secret_env_var
      (append_secret_env_var env (codes "DP_MINIO_ACCESS_KEY") m.access_key_from)
      (codes "DP_MINIO_SECRET_KEY") m.secret_key_from

-- The variables of the block that the type calls for; a missing block is a nil pointer.
unfoldable pub storage_env_of :
    StorageType → Option NfsStorageSpec → Option MinIoStorageSpec → Option (List EnvVar)
unfolding nfs_env minio_env
storage_env_of nfs (some n) m = some (nfs_env n)
storage_env_of nfs none m = none
storage_env_of minio n (some m) = some (minio_env m)
storage_env_of minio n none = none
storage_env_of (other type) n m = some (env_var (codes "DP_STORAGE_TYPE") type ∷ [])

unfoldable pub build_storage_env : BackupStorage → Option (List EnvVar)
unfolding storage_env_of
build_storage_env storage = storage_env_of storage.spec.type storage.spec.nfs storage.spec.minio

unfoldable pub service_env : Option ServiceReference → List EnvVar
service_env none = []
service_env (some ref) =
    env_var (codes "DP_SOURCE_SERVICE_NAME") ref.name
    ∷ env_var (codes "DP_SOURCE_SERVICE_NAMESPACE") ref.namespace
    ∷ env_var (codes "DP_SOURCE_SERVICE_PORT") (itoa ref.port)
    ∷ []

-- The loop over the secret references.
unfoldable pub secret_refs_env : Unicode → List EnvVar → List SecretParameterReference → List EnvVar
unfolding env_key append_secret_env_var
secret_refs_env u env [] = env
secret_refs_env u env (ref ∷ refs) =
    secret_refs_env u
      (append_secret_env_var env (env_key u (codes "DP_SECRET_") ref.name)
        (some ref.secret_key_ref))
      refs

unfoldable pub build_source_env_with_secret_refs :
    Unicode → EndpointSpec → List SecretParameterReference → List EnvVar
unfolding service_env append_secret_env_var secret_refs_env
build_source_env_with_secret_refs u endpoint secret_refs =
    let env =
      (env_var (codes "DP_SOURCE_HOST") endpoint.host
        ∷ env_var (codes "DP_SOURCE_PORT") (itoa endpoint.port)
        ∷ env_var (codes "DP_SOURCE_SCHEME") endpoint.scheme
        ∷ env_var (codes "DP_SOURCE_USERNAME") endpoint.username
        ∷ [])
      ++ service_env endpoint.service_ref in
    let env' =
      append_secret_env_var env (codes "DP_SOURCE_USERNAME_FROM_SECRET") endpoint.username_from in
    secret_refs_env u
      (append_secret_env_var env' (codes "DP_SOURCE_PASSWORD") endpoint.password_from) secret_refs

unfoldable pub build_target_env : Option NamespacedObjectReference → List EnvVar
build_target_env none = []
build_target_env (some target) =
    env_var (codes "DP_TARGET_API_VERSION") target.api_version
    ∷ env_var (codes "DP_TARGET_KIND") target.kind
    ∷ env_var (codes "DP_TARGET_NAMESPACE") target.namespace
    ∷ env_var (codes "DP_TARGET_NAME") target.name
    ∷ []

unfoldable pub build_source_env : Unicode → BackupSource → List EnvVar
unfolding build_source_env_with_secret_refs build_target_env
build_source_env u source =
    build_source_env_with_secret_refs u source.spec.endpoint source.spec.secret_refs
    ++ build_target_env source.spec.target_ref

unfoldable pub build_addon_parameter_env_from_map : Unicode → TextMap → List EnvVar
unfolding env_key
build_addon_parameter_env_from_map u parameters =
    map (λ key. env_var (env_key u (codes "DP_PARAM_") key) (lookup key parameters))
      (sort text_lt (map (λ entry. entry.0) parameters))

unfoldable pub build_addon_parameter_env : Unicode → BackupSource → List EnvVar
unfolding build_addon_parameter_env_from_map
build_addon_parameter_env u source = build_addon_parameter_env_from_map u source.spec.parameters
