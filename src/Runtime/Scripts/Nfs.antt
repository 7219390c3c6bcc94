-- ===== src/Runtime/Scripts/Nfs.antt =====
-- controllers/runtime_helpers.go and snapshot_controller.go: the scripts of the containers that move
-- artifacts to and from an NFS share, line by line.
use dataprotection.Base.{[], ◌∷◌, ◌++◌, Text, codes, trim_space, join}
use dataprotection.Shell.{shell_quote, newline}
use dataprotection.Platform.{Platform}
use dataprotection.Runtime.Scripts.Report.{report}

unfoldable pub build_nfs_backup_preflight_script : Platform → Text
build_nfs_backup_preflight_script p =
    join
      (codes "set -eu"
        ∷ codes "base=\"/backend/${DP_BACKEND_PATH}\""
        ∷ codes "mkdir -p \"${base}/snapshots\""
        ∷ codes "probe=\"${base}/.probe-$$\""
        ∷ codes "touch \"$probe\""
        ∷ codes "rm -f \"$probe\""
        ∷ report p (codes "nfs backend is writable")
        ∷ [])
      newline

unfoldable pub build_nfs_restore_preflight_script : Platform → Text
build_nfs_restore_preflight_script p =
    join
      (codes "set -eu"
        ∷ codes "artifact=\"/backend/${DP_ARTIFACT_PATH}\""
        ∷ codes
            "[ -e \"$artifact\" ] || { echo '[ERROR] restore artifact path not found on nfs backend'; exit 1; }"
        ∷ report p (codes "nfs restore artifact is reachable")
        ∷ [])
      newline

unfoldable pub build_nfs_upload_script : Text
build_nfs_upload_script =
    join
      (codes "set -eu"
        ∷ codes "while [ ! -f /workspace/status/package.done ]; do"
        ∷ codes
            "  if [ -f /workspace/status/package.failed ]; then echo '[ERROR] package stage failed'; exit 1; fi"
        ∷ codes "  sleep 2"
        ∷ codes "done"
        ∷ codes "snapshot=\"$(cat /workspace/status/current-snapshot)\""
        ∷ codes "base=\"/backend/${DP_BACKEND_PATH}\""
        ∷ codes "mkdir -p \"${base}/snapshots\""
        ∷ codes
            "cp \"/workspace/status/package/${snapshot}.tgz\" \"${base}/snapshots/${snapshot}.tgz\""
        ∷ codes
            "cp \"/workspace/status/package/${snapshot}.tgz.sha256\" \"${base}/snapshots/${snapshot}.tgz.sha256\""
        ∷ codes
            "cp \"/workspace/status/package/${snapshot}.metadata.json\" \"${base}/snapshots/${snapshot}.metadata.json\""
        ∷ codes "cp \"/workspace/status/package/${snapshot}.metadata.json\" \"${base}/latest.json\""
        ∷ codes
            "[ -f \"${base}/snapshots/${snapshot}.tgz\" ] || { echo '[ERROR] uploaded snapshot not found on nfs backend'; exit 1; }"
        ∷ codes "keep_last=\"${DP_KEEP_LAST:-3}\""
        ∷ codes "if [ \"$keep_last\" -gt 0 ]; then"
        ∷ codes "  count=0"
        ∷ codes
            "  for file in $(find \"${base}/snapshots\" -maxdepth 1 -type f -name '*.tgz' -printf '%f\n' | sort -r); do"
        ∷ codes "    count=$((count + 1))"
        ∷ codes "    if [ \"$count\" -le \"$keep_last\" ]; then continue; fi"
        ∷ codes "    name=\"${file%.tgz}\""
        ∷ codes
            "    rm -f \"${base}/snapshots/${name}.tgz\" \"${base}/snapshots/${name}.tgz.sha256\" \"${base}/snapshots/${name}.metadata.json\""
        ∷ codes "  done"
        ∷ codes "fi"
        ∷ codes "checksum=\"$(cat \"/workspace/status/package/${snapshot}.tgz.sha256\")\""
        ∷ codes "size=\"$(wc -c < \"/workspace/status/package/${snapshot}.tgz\" | tr -d ' ')\""
        ∷ codes "cat > /dev/termination-log <<EOF"
        ∷ codes
            "{\"storageProbe\":{\"result\":\"Succeeded\",\"message\":\"artifact uploaded to nfs\"},\"artifact\":{\"snapshot\":\"${snapshot}\",\"backendPath\":\"${DP_BACKEND_PATH}\",\"checksum\":\"${checksum}\",\"size\":${size},\"completedAt\":\"$(date -u +%Y-%m-%dT%H:%M:%SZ)\"}}"
        ∷ codes "EOF"
        ∷ [])
      newline

unfoldable pub build_nfs_download_script : Platform → Text → Text → Text
build_nfs_download_script p path format =
    join
      (codes "set -eu"
        ∷ (codes "artifact_path=" ++ shell_quote path)
        ∷ (codes "artifact_format=" ++ shell_quote (trim_space format))
        ∷ codes "mkdir -p /workspace/input /workspace/status/restore"
        ∷ codes "artifact=\"/backend/${artifact_path}\""
        ∷ codes "if [ \"${artifact_format}\" = \"auto\" ]; then"
        ∷ codes "  case \"$artifact_path\" in"
        ∷ codes "    *.tgz|*.tar.gz|*.tar) artifact_format='archive' ;;"
        ∷ codes "    *) artifact_format='filesystem' ;;"
        ∷ codes "  esac"
        ∷ codes "fi"
        ∷ codes "if [ \"${artifact_format}\" = \"filesystem\" ]; then"
        ∷ codes "  if [ -d \"$artifact\" ]; then"
        ∷ codes "    cp -a \"$artifact\"/. /workspace/input/"
        ∷ codes "  elif [ -f \"$artifact\" ]; then"
        ∷ codes "    cp \"$artifact\" \"/workspace/input/$(basename \"$artifact\")\""
        ∷ codes "  else"
        ∷ codes "    echo '[ERROR] restore artifact path not found on nfs backend'"
        ∷ codes "    exit 1"
        ∷ codes "  fi"
        ∷ codes "else"
        ∷ codes
            "  [ -f \"$artifact\" ] || { echo '[ERROR] restore archive not found on nfs backend'; exit 1; }"
        ∷ codes "  cp \"$artifact\" /workspace/status/restore/source.tgz"
        ∷ codes "  tar -xzf /workspace/status/restore/source.tgz -C /workspace/input"
        ∷ codes "fi"
        ∷ report p (codes "artifact downloaded from nfs")
        ∷ [])
      newline

unfoldable pub build_nfs_cleanup_script : Platform → Text
build_nfs_cleanup_script p =
    join
      (codes "set -eu"
        ∷ codes "snapshot=\"${DP_SNAPSHOT}\""
        ∷ codes "base=\"/backend/${DP_BACKEND_PATH}\""
        ∷ codes "mkdir -p \"${base}/snapshots\""
        ∷ codes
            "rm -f \"${base}/snapshots/${snapshot}.tgz\" \"${base}/snapshots/${snapshot}.tgz.sha256\" \"${base}/snapshots/${snapshot}.metadata.json\""
        ∷ codes
            "latest_source=\"$(find \"${base}/snapshots\" -maxdepth 1 -type f -name '*.metadata.json' | sed 's#.*/##' | grep -v \"^${snapshot}\\.metadata\\.json$\" | sort -r | head -n 1 || true)\""
        ∷ codes "if [ -n \"${latest_source}\" ]; then"
        ∷ codes "  cp \"${base}/snapshots/${latest_source}\" \"${base}/latest.json\""
        ∷ codes "else"
        ∷ codes "  rm -f \"${base}/latest.json\""
        ∷ codes "fi"
        ∷ report p (codes "snapshot artifacts removed from nfs")
        ∷ [])
      newline
