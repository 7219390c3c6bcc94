-- ===== src/Runtime/Scripts/Report.antt =====
-- controllers/runtime_helpers.go: `marshalTerminationSummary`, and the command that leaves a summary
-- for the controller.
use dataprotection.Base.{◌++◌, Option, none, some, Text, codes}
use dataprotection.Api.Common.{ProbeResult}
use dataprotection.Platform.{Platform}
use dataprotection.Summary.{PodExecutionSummary}

unfoldable pub or_unable : Option Text → Text
or_unable (some payload) = payload
or_unable none = codes "{\"message\":\"unable to encode termination summary\"}"

unfoldable pub marshal_termination_summary : Platform → PodExecutionSummary → Text
unfolding or_unable
marshal_termination_summary p summary = or_unable (p.marshal summary)

-- A probe that succeeded.
abbrev pub probe_success : Text → PodExecutionSummary
probe_success message = record {
  storage_probe = some (record { result = ProbeResult.succeeded; message = message });
  artifact = none;
  message = codes "";
}

unfoldable pub report : Platform → Text → Text
unfolding marshal_termination_summary
report p message =
    codes "printf '%s' '"
    ++ marshal_termination_summary p (probe_success message)
    ++ codes "' > /dev/termination-log"
