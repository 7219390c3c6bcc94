-- ===== src/Runtime/Scripts/Package.antt =====
-- controllers/runtime_helpers.go: the script of the container that packs the output of an addon.
use dataprotection.Base.{[], ◌∷◌, Text, codes, join}
use dataprotection.Shell.{newline}

unfoldable pub package_script : Text
package_script =
    join
      (codes "set -eu"
        ∷ codes "trap 'touch /workspace/status/package.failed' ERR"
        ∷ codes "while [ ! -f /workspace/status/plugin.done ]; do"
        ∷ codes "  if [ -f /workspace/status/plugin.failed ]; then"
        ∷ codes "    echo '[ERROR] addon backup failed'"
        ∷ codes "    touch /workspace/status/package.failed"
        ∷ codes "    exit 1"
        ∷ codes "  fi"
        ∷ codes "  sleep 2"
        ∷ codes "done"
        ∷ codes "snapshot_suffix=\"${DP_EXECUTION_SLUG}\""
        ∷ codes "if [ -n \"${DP_REQUESTED_SNAPSHOT:-}\" ]; then"
        ∷ codes
            "  snapshot_suffix=\"$(echo \"$DP_REQUESTED_SNAPSHOT\" | tr '[:upper:]' '[:lower:]' | sed 's/[^a-z0-9]/-/g')\""
        ∷ codes "fi"
        ∷ codes "snapshot=\"$(date -u +%Y%m%dT%H%M%SZ)-${snapshot_suffix}\""
        ∷ codes "mkdir -p /workspace/status/package"
        ∷ codes "tar -czf \"/workspace/status/package/${snapshot}.tgz\" -C /workspace/output ."
        ∷ codes
            "checksum=\"$(sha256sum \"/workspace/status/package/${snapshot}.tgz\" | awk '{print $1}')\""
        ∷ codes "size=\"$(wc -c < \"/workspace/status/package/${snapshot}.tgz\" | tr -d ' ')\""
        ∷ codes "printf '%s' \"$checksum\" > \"/workspace/status/package/${snapshot}.tgz.sha256\""
        ∷ codes "cat > \"/workspace/status/package/${snapshot}.metadata.json\" <<EOF"
        ∷ codes
            "{\"series\":\"${DP_SERIES}\",\"snapshot\":\"${snapshot}\",\"checksum\":\"${checksum}\",\"size\":${size},\"completedAt\":\"$(date -u +%Y-%m-%dT%H:%M:%SZ)\"}"
        ∷ codes "EOF"
        ∷ codes "printf '%s' \"$snapshot\" > /workspace/status/current-snapshot"
        ∷ codes "touch /workspace/status/package.done"
        ∷ [])
      newline
