-- ===== src/Server/MetricsRoute.antt =====
-- `render_metrics` of src/lib.rs: /metrics, behind a token if one is configured.
use realm_guard_server.Prelude.{String, Bool, false, Option, none, some, str_eq, if◌then◌else◌}
use realm_guard_server.Prelude.Text.{strip_prefix}
use realm_guard_server.Result.{Result, ok, err, StatusCode, unauthorized}
use realm_guard_server.Auth.Sessions.{and_then}

-- `provided == Some(expected)`
abbrev is_text : String → Option String → Bool
is_text expected none = false
is_text expected (some provided) = str_eq provided expected

-- `rendered` is what the recorder renders; `authorization` the text of that header.
unfoldable pub render_metrics : String → Option String → Option String → Result StatusCode String
render_metrics rendered none authorization = ok rendered
render_metrics rendered (some expected) authorization =
    if is_text expected (and_then authorization (strip_prefix "Bearer "))
    then ok rendered
    else err unauthorized
