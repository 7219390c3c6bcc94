-- ===== src/Runtime/Scripts/Minio.antt =====
-- controllers/runtime_helpers.go and snapshot_controller.go: the scripts of the containers that move
-- artifacts to and from a MinIO bucket, line by line.
use dataprotection.Base.{[], ◌∷◌, ◌++◌, Text, codes, trim_space, join}
use dataprotection.Shell.{shell_quote, newline}
use dataprotection.Platform.{Platform}
use dataprotection.Runtime.Scripts.Report.{report}

unfoldable pub build_minio_backup_preflight_script : Platform → Text
build_minio_backup_preflight_script p =
    join
      (codes "set -eu"
        ∷ codes "mc_cmd() {"
        ∷ codes "  if [ \"${DP_MINIO_INSECURE:-false}\" = \"true\" ]; then"
        ∷ codes "    mc --insecure \"$@\""
        ∷ codes "  else"
        ∷ codes "    mc \"$@\""
        ∷ codes "  fi"
        ∷ codes "}"
        ∷ codes "remote=\"backup/${DP_MINIO_BUCKET}\""
        ∷ codes
            "if [ -n \"${DP_MINIO_PREFIX:-}\" ]; then remote=\"${remote}/${DP_MINIO_PREFIX}\"; fi"
        ∷ codes
            "mc_cmd alias set backup \"${DP_MINIO_ENDPOINT}\" \"${DP_MINIO_ACCESS_KEY}\" \"${DP_MINIO_SECRET_KEY}\" >/dev/null"
        ∷ codes "if ! mc_cmd stat \"backup/${DP_MINIO_BUCKET}\" >/dev/null 2>&1; then"
        ∷ codes "  if [ \"${DP_MINIO_AUTO_CREATE_BUCKET:-false}\" = \"true\" ]; then"
        ∷ codes "    mc_cmd mb \"backup/${DP_MINIO_BUCKET}\" >/dev/null"
        ∷ codes "  else"
        ∷ codes "    echo '[ERROR] minio bucket does not exist and autoCreateBucket=false'"
        ∷ codes "    exit 1"
        ∷ codes "  fi"
        ∷ codes "fi"
        ∷ codes "probe=\"${remote}/.probe-$(date +%s)\""
        ∷ codes "printf 'ok' > /tmp/dp-probe"
        ∷ codes "mc_cmd cp /tmp/dp-probe \"${probe}\" >/dev/null"
        ∷ codes "mc_cmd rm \"${probe}\" >/dev/null"
        ∷ report p (codes "minio backend is reachable")
        ∷ [])
      newline

unfoldable pub build_minio_restore_preflight_script : Platform → Text
build_minio_restore_preflight_script p =
    join
      (codes "set -eu"
        ∷ codes "mc_cmd() {"
        ∷ codes "  if [ \"${DP_MINIO_INSECURE:-false}\" = \"true\" ]; then"
        ∷ codes "    mc --insecure \"$@\""
        ∷ codes "  else"
        ∷ codes "    mc \"$@\""
        ∷ codes "  fi"
        ∷ codes "}"
        ∷ codes "remote=\"backup/${DP_MINIO_BUCKET}\""
        ∷ codes
            "if [ -n \"${DP_MINIO_PREFIX:-}\" ]; then remote=\"${remote}/${DP_MINIO_PREFIX}\"; fi"
        ∷ codes "remote=\"${remote}/${DP_ARTIFACT_PATH}\""
        ∷ codes
            "mc_cmd alias set backup \"${DP_MINIO_ENDPOINT}\" \"${DP_MINIO_ACCESS_KEY}\" \"${DP_MINIO_SECRET_KEY}\" >/dev/null"
        ∷ codes
            "if ! mc_cmd stat \"$remote\" >/dev/null 2>&1 && ! mc_cmd ls \"$remote\" >/dev/null 2>&1; then"
        ∷ codes "  echo '[ERROR] restore artifact path not found on minio backend'"
        ∷ codes "  exit 1"
        ∷ codes "fi"
        ∷ report p (codes "minio restore artifact is reachable")
        ∷ [])
      newline

unfoldable pub build_minio_upload_script : Text
build_minio_upload_script =
    join
      (codes "set -eu"
        ∷ codes "mc_cmd() {"
        ∷ codes "  if [ \"${DP_MINIO_INSECURE:-false}\" = \"true\" ]; then"
        ∷ codes "    mc --insecure \"$@\""
        ∷ codes "  else"
        ∷ codes "    mc \"$@\""
        ∷ codes "  fi"
        ∷ codes "}"
        ∷ codes "while [ ! -f /workspace/status/package.done ]; do"
        ∷ codes
            "  if [ -f /workspace/status/package.failed ]; then echo '[ERROR] package stage failed'; exit 1; fi"
        ∷ codes "  sleep 2"
        ∷ codes "done"
        ∷ codes "snapshot=\"$(cat /workspace/status/current-snapshot)\""
        ∷ codes "remote_base=\"backup/${DP_MINIO_BUCKET}\""
        ∷ codes
            "if [ -n \"${DP_MINIO_PREFIX:-}\" ]; then remote_base=\"${remote_base}/${DP_MINIO_PREFIX}\"; fi"
        ∷ codes "remote_base=\"${remote_base}/${DP_BACKEND_PATH}\""
        ∷ codes
            "mc_cmd alias set backup \"${DP_MINIO_ENDPOINT}\" \"${DP_MINIO_ACCESS_KEY}\" \"${DP_MINIO_SECRET_KEY}\" >/dev/null"
        ∷ codes "if ! mc_cmd stat \"backup/${DP_MINIO_BUCKET}\" >/dev/null 2>&1; then"
        ∷ codes "  if [ \"${DP_MINIO_AUTO_CREATE_BUCKET:-false}\" = \"true\" ]; then"
        ∷ codes "    mc_cmd mb \"backup/${DP_MINIO_BUCKET}\" >/dev/null"
        ∷ codes "  else"
        ∷ codes "    echo '[ERROR] minio bucket does not exist and autoCreateBucket=false'"
        ∷ codes "    exit 1"
        ∷ codes "  fi"
        ∷ codes "fi"
        ∷ codes
            "mc_cmd cp \"/workspace/status/package/${snapshot}.tgz\" \"${remote_base}/snapshots/${snapshot}.tgz\" >/dev/null"
        ∷ codes
            "mc_cmd cp \"/workspace/status/package/${snapshot}.tgz.sha256\" \"${remote_base}/snapshots/${snapshot}.tgz.sha256\" >/dev/null"
        ∷ codes
            "mc_cmd cp \"/workspace/status/package/${snapshot}.metadata.json\" \"${remote_base}/snapshots/${snapshot}.metadata.json\" >/dev/null"
        ∷ codes
            "mc_cmd cp \"/workspace/status/package/${snapshot}.metadata.json\" \"${remote_base}/latest.json\" >/dev/null"
        ∷ codes "mc_cmd stat \"${remote_base}/snapshots/${snapshot}.tgz\" >/dev/null"
        ∷ codes "keep_last=\"${DP_KEEP_LAST:-3}\""
        ∷ codes "if [ \"$keep_last\" -gt 0 ]; then"
        ∷ codes "  count=0"
        ∷ codes
            "  for file in $(mc_cmd ls \"${remote_base}/snapshots\" | awk '{print $NF}' | sed 's#/$##' | grep '\\.tgz$' | sort -r); do"
        ∷ codes "    count=$((count + 1))"
        ∷ codes "    if [ \"$count\" -le \"$keep_last\" ]; then continue; fi"
        ∷ codes "    name=\"${file%.tgz}\""
        ∷ codes "    mc_cmd rm --force \"${remote_base}/snapshots/${name}.tgz\" >/dev/null || true"
        ∷ codes
            "    mc_cmd rm --force \"${remote_base}/snapshots/${name}.tgz.sha256\" >/dev/null || true"
        ∷ codes
            "    mc_cmd rm --force \"${remote_base}/snapshots/${name}.metadata.json\" >/dev/null || true"
        ∷ codes "  done"
        ∷ codes "fi"
        ∷ codes "checksum=\"$(cat \"/workspace/status/package/${snapshot}.tgz.sha256\")\""
        ∷ codes "size=\"$(wc -c < \"/workspace/status/package/${snapshot}.tgz\" | tr -d ' ')\""
        ∷ codes "cat > /dev/termination-log <<EOF"
        ∷ codes
            "{\"storageProbe\":{\"result\":\"Succeeded\",\"message\":\"artifact uploaded to minio\"},\"artifact\":{\"snapshot\":\"${snapshot}\",\"backendPath\":\"${DP_BACKEND_PATH}\",\"checksum\":\"${checksum}\",\"size\":${size},\"completedAt\":\"$(date -u +%Y-%m-%dT%H:%M:%SZ)\"}}"
        ∷ codes "EOF"
        ∷ [])
      newline

unfoldable pub build_minio_download_script : Platform → Text → Text → Text
build_minio_download_script p path format =
    join
      (codes "set -eu"
        ∷ codes "mc_cmd() {"
        ∷ codes "  if [ \"${DP_MINIO_INSECURE:-false}\" = \"true\" ]; then"
        ∷ codes "    mc --insecure \"$@\""
        ∷ codes "  else"
        ∷ codes "    mc \"$@\""
        ∷ codes "  fi"
        ∷ codes "}"
        ∷ (codes "artifact_path=" ++ shell_quote path)
        ∷ (codes "artifact_format=" ++ shell_quote (trim_space format))
        ∷ codes "remote_base=\"backup/${DP_MINIO_BUCKET}\""
        ∷ codes
            "if [ -n \"${DP_MINIO_PREFIX:-}\" ]; then remote_base=\"${remote_base}/${DP_MINIO_PREFIX}\"; fi"
        ∷ codes "artifact=\"${remote_base}/${artifact_path}\""
        ∷ codes
            "mc_cmd alias set backup \"${DP_MINIO_ENDPOINT}\" \"${DP_MINIO_ACCESS_KEY}\" \"${DP_MINIO_SECRET_KEY}\" >/dev/null"
        ∷ codes "mkdir -p /workspace/input /workspace/status/restore"
        ∷ codes "if [ \"${artifact_format}\" = \"auto\" ]; then"
        ∷ codes "  case \"$artifact_path\" in"
        ∷ codes "    *.tgz|*.tar.gz|*.tar) artifact_format='archive' ;;"
        ∷ codes "    *) artifact_format='filesystem' ;;"
        ∷ codes "  esac"
        ∷ codes "fi"
        ∷ codes "if [ \"${artifact_format}\" = \"filesystem\" ]; then"
        ∷ codes "  if mc_cmd stat \"$artifact\" >/dev/null 2>&1; then"
        ∷ codes "    file_name=\"$(basename \"$artifact_path\")\""
        ∷ codes "    mc_cmd cp \"$artifact\" \"/workspace/input/${file_name}\" >/dev/null"
        ∷ codes "  elif mc_cmd ls \"$artifact\" >/dev/null 2>&1; then"
        ∷ codes "    mc_cmd mirror --overwrite \"$artifact\" /workspace/input >/dev/null"
        ∷ codes "  else"
        ∷ codes "    echo '[ERROR] restore artifact path not found on minio backend'"
        ∷ codes "    exit 1"
        ∷ codes "  fi"
        ∷ codes "else"
        ∷ codes "  mc_cmd cp \"$artifact\" /workspace/status/restore/source.tgz >/dev/null"
        ∷ codes "  tar -xzf /workspace/status/restore/source.tgz -C /workspace/input"
        ∷ codes "fi"
        ∷ report p (codes "artifact downloaded from minio")
        ∷ [])
      newline

unfoldable pub build_minio_cleanup_script : Platform → Text
build_minio_cleanup_script p =
    join
      (codes "set -eu"
        ∷ codes "mc_cmd() {"
        ∷ codes "  if [ \"${DP_MINIO_INSECURE:-false}\" = \"true\" ]; then"
        ∷ codes "    mc --insecure \"$@\""
        ∷ codes "  else"
        ∷ codes "    mc \"$@\""
        ∷ codes "  fi"
        ∷ codes "}"
        ∷ codes "snapshot=\"${DP_SNAPSHOT}\""
        ∷ codes "remote_base=\"backup/${DP_MINIO_BUCKET}\""
        ∷ codes
            "if [ -n \"${DP_MINIO_PREFIX:-}\" ]; then remote_base=\"${remote_base}/${DP_MINIO_PREFIX}\"; fi"
        ∷ codes "remote_base=\"${remote_base}/${DP_BACKEND_PATH}\""
        ∷ codes
            "mc_cmd alias set backup \"${DP_MINIO_ENDPOINT}\" \"${DP_MINIO_ACCESS_KEY}\" \"${DP_MINIO_SECRET_KEY}\" >/dev/null"
        ∷ codes "if ! mc_cmd stat \"backup/${DP_MINIO_BUCKET}\" >/dev/null 2>&1; then"
        ∷ (codes "  " ++ report p (codes "minio bucket already missing; cleanup skipped"))
        ∷ codes "  exit 0"
        ∷ codes "fi"
        ∷ codes "mc_cmd rm --force \"${remote_base}/snapshots/${snapshot}.tgz\" >/dev/null || true"
        ∷ codes
            "mc_cmd rm --force \"${remote_base}/snapshots/${snapshot}.tgz.sha256\" >/dev/null || true"
        ∷ codes
            "mc_cmd rm --force \"${remote_base}/snapshots/${snapshot}.metadata.json\" >/dev/null || true"
        ∷ codes
            "latest_source=\"$(mc_cmd ls \"${remote_base}/snapshots\" 2>/dev/null | awk '{print $NF}' | sed 's#/$##' | grep '\\.metadata\\.json$' | grep -v \"^${snapshot}\\.metadata\\.json$\" | sort -r | head -n 1 || true)\""
        ∷ codes "if [ -n \"${latest_source}\" ]; then"
        ∷ codes
            "  mc_cmd cp \"${remote_base}/snapshots/${latest_source}\" \"${remote_base}/latest.json\" >/dev/null"
        ∷ codes "else"
        ∷ codes "  mc_cmd rm --force \"${remote_base}/latest.json\" >/dev/null || true"
        ∷ codes "fi"
        ∷ report p (codes "snapshot artifacts removed from minio")
        ∷ [])
      newline
