-- ===== src/Server/Examples/Logins.antt =====
-- A login with a wrong password, and what is recorded of it, on the sample platform.
use realm_guard_server.Prelude.{
  ℕ, ◌≡◌, ◌≢◌, ◌⊎◌, ◌≤◌, refl, String, some, none, [], str_eq, if◌then◌else◌, false, arith,
}
use realm_guard_server.Platform.Sample.{sample}
use realm_guard_server.Result.{ok, err}
use realm_guard_server.Metrics.{record_request}
use realm_guard_server.World.{World, redis}
use realm_guard_server.World.Sample.{serving, tables}
use realm_guard_server.Auth.Sessions.{login_key, take_login_flow}
use realm_guard_server.Auth.RateLimit.{key, locked_for, record_failure}
use realm_guard_server.Auth.Api.{
  decode, open_flow, start_flow, login_start, refuse_login, login_finish,
}
use realm_guard_server.Server.Routes.{Route}
use realm_guard_server.Server.Routes
use realm_guard_server.Server.App.{Request, Framework, respond}
use realm_guard_server.Server.Tally.{tally}
use realm_guard_server.Server.Tallied.{judged, IsCountedLogin, respond-tallied}
use realm_guard_server.Server.Examples.{framework}

-- A framework that knows the path of the end of a login, and takes the body as the finalization.
abbrev finishing : Framework
finishing = record framework {
  matched =
      λ path. if str_eq path "/auth/login/finish" then some ("/auth/login/finish", "") else none;
  login_finish_req = λ b. ok (record { flow_id = "aa"; finalization = b });
}

-- A flow of "ann" waits under the id "aa".
abbrev waiting : World sample
waiting = (login_start (record { username = "ann"; request = "ab" }) (serving [] tables)).1

abbrev wrong : Request
wrong = record {
  method = Routes.post;
  path = "/auth/login/finish";
  query = "";
  authorization = none;
  body = "aab";
}

abbrev finish_route : Route
finish_route = record {
  pattern = "/auth/login/finish";
  on_get = none;
  on_post = some Routes.login_finish;
  on_put = none;
  on_patch = none;
  on_delete = none;
}

opened : Unit {0}
unfolding sample serving redis login_key take_login_flow key locked_for record_failure decode
    open_flow start_flow login_start refuse_login login_finish respond
opened = tt

wrong_test : judged finishing wrong waiting ≡ some false
unfolding opened
wrong_test = refl

status_test : (respond finishing wrong waiting).0.status ≡ 401
unfolding opened
status_test = refl

refusals : (text : String) (s : ℕ) → finishing.register_finish_req text ≡ err s → 400 ≤ s
refusals text s h = ground arith

respond-tallied_example :
    let (r, w) = respond finishing wrong waiting in
    let recorded = record_request "POST" "/auth/login/finish" r.status in
    ((Routes.login_finish ≢ Routes.login_finish)
      × (w.metrics ≡ recorded (tally Routes.login_finish r waiting.metrics)))
    ⊎ ((Routes.login_finish ≡ Routes.login_finish)
        × IsCountedLogin finishing wrong waiting r w.metrics recorded)
respond-tallied_example =
    respond-tallied finishing wrong waiting "/auth/login/finish" "" finish_route Routes.login_finish
      refl refl refl refusals
