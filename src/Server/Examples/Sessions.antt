-- ===== src/Server/Examples/Sessions.antt =====
-- A session through a request and seven days, on the sample platform.
use Prim.Native.String
use realm_guard_server.Prelude.{◌≡◌, refl, ap, sym, ◌∙◌, ◌+◌, some, [], arith, ltb, if◌then◌else◌}
use realm_guard_server.Platform.Sample.{sample}
use realm_guard_server.Result.{ok, err, unauthorized}
use realm_guard_server.World.{World}
use realm_guard_server.World.Sample.{serving}
use realm_guard_server.Auth.Sessions.{create_session, session_ttl_secs}
use realm_guard_server.Auth.Tokens.{next_token}
use realm_guard_server.Auth.Api.{from_request_parts}
use realm_guard_server.Server.App.{respond}
use realm_guard_server.Server.Sessions.{AreUnique, asked, passed, born, after, session_lasts}
use realm_guard_server.Server.Examples.{framework, calm, entered, pushing}

sample-AreUnique : AreUnique sample
unfolding sample
sample-AreUnique m n h =
    let same : some (m + 1) ≡ some (n + 1) =
      sym (sample.parse_uuid-uuid_text (m + 1))
      ∙ ap sample.parse_uuid h
      ∙ sample.parse_uuid-uuid_text (n + 1) in
    ground arith

-- The account pushes a delta, and the session's last second passes.
abbrev ended : World sample
ended = record (respond framework pushing entered).1 {
  now = (respond framework pushing entered).1.now + 604800;
  schedule = [];
}

made : (create_session 1 calm).0 ≡ ok (next_token 1 calm)
unfolding create_session serving
made = refl

session_lasts_example :
    (from_request_parts (some (String.◌++◌ "Bearer " (next_token 1 calm))) ended).0
    ≡ (if ltb ended.now (calm.now + session_ttl_secs) then ok 1 else err unauthorized)
session_lasts_example =
    session_lasts framework 1 calm ended (next_token 1 calm) sample-AreUnique made
      (after (after born (asked pushing)) (passed 604800 [])) refl
