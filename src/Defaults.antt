-- ===== src/Defaults.antt =====
-- controllers/defaults.go: images, limits and pull policies, from the environment or from constants.
use dataprotection.Base.{
  ℕ, suc, List, [], ◌∷◌, Option, none, some, Bool, true, false, ◌||◌, Text, codes, text_eq, leb,
  ◌==◌, if◌then◌else◌, is_empty, trim_space, contains, any, drop, ℤ, pos,
}
use dataprotection.Base.Decimal.{parse_int}
use dataprotection.Platform.{Platform}

abbrev pub pull_always : Text
pull_always = codes "Always"

abbrev pub pull_if_not_present : Text
pull_if_not_present = codes "IfNotPresent"

-- strings.LastIndex(s, c) + 1
unfoldable pub last_position : ℕ → Text → ℕ
last_position c [] = 0
last_position c (d ∷ s) =
    let behind = last_position c s in if leb 1 behind then suc behind else if c == d then 1 else 0

-- What imageUsesMutableTag does with the trimmed image: no tag, an empty one or `latest`.
unfoldable pub has_mutable_tag : Text → Bool
unfolding last_position
has_mutable_tag image =
    let last_slash = last_position b'/' image in
    let last_colon = last_position b':' image in
    let tag = trim_space (drop last_colon image) in
    if leb last_colon last_slash then true else is_empty tag || text_eq tag (codes "latest")

unfoldable pub image_uses_mutable_tag : Text → Bool
unfolding has_mutable_tag
image_uses_mutable_tag raw =
    let image = trim_space raw in
    if is_empty image
    then false
    else if contains image (codes "@sha256:")
    then false
    else has_mutable_tag image

unfoldable pub default_image_pull_policy : List Text → Text
default_image_pull_policy images =
    if any image_uses_mutable_tag images then pull_always else pull_if_not_present

unfoldable pub effective_pull_policy : Text → Text → Text
effective_pull_policy requested image =
    if is_empty requested then default_image_pull_policy (image ∷ []) else requested

-- The value parsed, where there is one.
unfoldable pub or_fallback : ℤ → Option ℤ → ℤ
or_fallback fallback none = fallback
or_fallback fallback (some n) = n

module _ (p : Platform) where
  unfoldable pub env_or_default : Text → Text → Text
  env_or_default key fallback =
      let value = trim_space (p.getenv key) in if is_empty value then fallback else value

  -- envOrDefaultInt32 and envOrDefaultInt64: `bits` is 32 or 64.
  unfoldable pub env_or_default_int : ℕ → Text → ℤ → ℤ
  env_or_default_int bits key fallback =
      let value = trim_space (p.getenv key) in
      if is_empty value then fallback else or_fallback fallback (parse_int bits value)

  unfoldable pub default_utility_image : Text
  default_utility_image =
      env_or_default (codes "DP_DEFAULT_UTILITY_IMAGE")
        (codes "registry.cn-beijing.aliyuncs.com/kube4/busybox:v1")

  unfoldable pub default_minio_helper_image : Text
  default_minio_helper_image =
      env_or_default (codes "DP_DEFAULT_MINIO_HELPER_IMAGE") (codes "minio/mc:latest")

  unfoldable pub default_notification_gateway_url : Text
  default_notification_gateway_url = env_or_default (codes "DP_NOTIFICATION_GATEWAY_URL") (
      codes
        "http://data-protection-notification-gateway.data-protection-system.svc.cluster.local:8090")

  unfoldable pub default_notification_gateway_listen_address : Text
  default_notification_gateway_listen_address =
      env_or_default (codes "DP_NOTIFICATION_GATEWAY_LISTEN_ADDRESS") (codes ":8090")

  unfoldable pub default_controller_image : Text
  default_controller_image =
      env_or_default (codes "DP_DEFAULT_CONTROLLER_IMAGE")
        (codes "sealos.hub:5000/kube4/dataprotection-operator:latest")

  unfoldable pub default_job_ttl_seconds : ℤ
  default_job_ttl_seconds = env_or_default_int 32 (codes "DP_DEFAULT_JOB_TTL_SECONDS") (pos 86400)

  unfoldable pub default_job_active_deadline_seconds : ℤ
  default_job_active_deadline_seconds =
      env_or_default_int 64 (codes "DP_DEFAULT_JOB_ACTIVE_DEADLINE_SECONDS") (pos 1800)

  unfoldable pub default_job_backoff_limit : ℤ
  default_job_backoff_limit = env_or_default_int 32 (codes "DP_DEFAULT_JOB_BACKOFF_LIMIT") (pos 0)

  unfoldable pub default_cron_job_successful_history_limit : ℤ
  default_cron_job_successful_history_limit =
      env_or_default_int 32 (codes "DP_DEFAULT_CRONJOB_SUCCESS_HISTORY") (pos 1)

  unfoldable pub default_cron_job_failed_history_limit : ℤ
  default_cron_job_failed_history_limit =
      env_or_default_int 32 (codes "DP_DEFAULT_CRONJOB_FAILED_HISTORY") (pos 1)
