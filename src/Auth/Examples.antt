-- ===== src/Auth/Examples.antt =====
-- Runs of registration and login on the sample platform, and the theorems at such runs.
use realm_guard_server.Prelude.{
  ℕ, ◌≡◌, ◌≢◌, refl, true, none, some, List, [], ◌∷◌, arith, ◌-◌, ltb, leb, ◌&&◌, if◌then◌else◌,
}
use Prim.Native.String
use realm_guard_server.Platform.{Bytes}
use realm_guard_server.Platform.Sample.{sample}
use realm_guard_server.Database.{migrated}
use realm_guard_server.Result.{ok, err, created, unauthorized}
use realm_guard_server.World.{World, redis}
use realm_guard_server.World.Sample.{serving, tables}
use realm_guard_server.Auth.Accounts.{account_of, insert_row}
use realm_guard_server.Auth.Sessions.{login_key, session_key, take_login_flow, create_session}
use realm_guard_server.Auth.RateLimit.{
  key, lock_decision, locked_for, record_failure, max_failures, window_secs,
}
use realm_guard_server.Auth.Api.{
  RegisterFinishReq, LoginStartReq, too_many_requests, LoginFinishReq, decode, register_finish,
  open_flow, start_flow, login_start, open_session, refuse_login, login_finish, from_request_parts,
}
use realm_guard_server.Auth.Lockout.{tick, failures, lockout}
use realm_guard_server.Auth.Login.{login_flow_once, locked_alike}
use realm_guard_server.Auth.Tokens.{next_token, session_lifetime}
use realm_guard_server.Auth.Grants.{login_vouched}
use realm_guard_server.Auth.Sessions.{session_ttl_secs}
use realm_guard_server.Prelude.Utf8.{as_bytes}
use realm_guard_server.Prelude.{◌+◌}
use realm_guard_server.Database.{AccountRow}
use realm_guard_server.Auth.Api.{LoginStartResp, started}
use realm_guard_server.Auth.Registration.{registered_once}

-- Opens the service.
opened : Unit {0}
unfolding sample serving redis insert_row login_key session_key take_login_flow create_session key
    lock_decision locked_for record_failure decode register_finish open_flow start_flow login_start
    open_session refuse_login login_finish from_request_parts failures
opened = tt

abbrev calm : World sample
calm = serving [] tables

-- After a first failure, nine more, each a second after the one before.
abbrev nine : List ℕ
nine = 1 ∷ 1 ∷ 1 ∷ 1 ∷ 1 ∷ 1 ∷ 1 ∷ 1 ∷ 1 ∷ []

calm-connected : calm.connected ≡ true
unfolding serving
calm-connected = refl

calm-up : calm.schedule ≡ []
unfolding serving
calm-up = refl

no_failure : sample.redis.entry calm.cache (key "ann") ≡ none
unfolding opened
no_failure = refl

lockout_example :
    (locked_for "ann" (tick 60 (failures sample "ann" (0 ∷ nine) calm))).0
    ≡ ok (if ltb 60 window_secs && leb max_failures 10 then some (window_secs - 60) else none)
lockout_example = lockout sample "ann" calm nine 60 calm-up no_failure (ground arith) (omega arith)

abbrev locked_out : World sample
locked_out = failures sample "ann" (0 ∷ nine) calm

abbrev anns_start : LoginStartReq
anns_start = record { username = "ann"; request = "ab" }

start_test : (login_start anns_start locked_out).0 ≡ ok (too_many_requests 900)
unfolding opened
start_test = refl

locked_alike_example :
    (login_start anns_start (record locked_out { db = migrated })).0 ≡ ok (too_many_requests 900)
locked_alike_example = locked_alike anns_start locked_out 900 migrated start_test

-- A flow of "ann", which waits under the id "aa".
abbrev waiting : World sample
waiting = (login_start anns_start calm).1

abbrev good : LoginFinishReq
good = record { flow_id = "aa"; finalization = "aaaaab" }

finish_test : (login_finish good waiting).0 ≡ ok (record { session_token = "aaa" })
unfolding opened
finish_test = refl

abbrev finished : World sample
finished = (login_finish good waiting).1

again_test : (login_finish good finished).0 ≡ err unauthorized
unfolding opened
again_test = refl

waiting-up : waiting.schedule ≡ []
unfolding opened
waiting-up = refl

waiting-connected : waiting.connected ≡ true
unfolding opened
waiting-connected = refl

finished-up : finished.schedule ≡ []
unfolding opened
finished-up = refl

finished-connected : finished.connected ≡ true
unfolding opened
finished-connected = refl

decodes : decode sample "aaaaab" ≡ ok (5 ∷ [])
unfolding opened
decodes = refl

login_flow_once_example : (login_finish good finished).0 ≡ err unauthorized
login_flow_once_example =
    login_flow_once sample good good waiting finished (5 ∷ []) (5 ∷ []) waiting-up waiting-connected
      decodes refl finished-up finished-connected refl decodes

session_lifetime_test :
    (from_request_parts
      (some (String.◌++◌ "Bearer " (next_token 1 calm)))
      (tick 604800 (create_session 1 calm).1)).0
    ≡ err unauthorized
session_lifetime_test = session_lifetime 1 calm 604800 calm-up calm-connected

abbrev later : World sample
later = record calm { draws = 5 }

abbrev carols : RegisterFinishReq
carols = record { username = "carol"; upload = "aab" }

abbrev enrolled : World sample
enrolled = (register_finish carols later).1

carol_test : (register_finish carols later).0 ≡ ok created
unfolding opened
carol_test = refl

abbrev thief : RegisterFinishReq
thief = record { username = "carol"; upload = "ab" }

registered_once_test :
    (upload : Bytes) × (file : Bytes) × (decode sample "aab" ≡ ok upload)
    × (sample.server_register_finish upload ≡ some file)
    × (account_of "carol" enrolled.db.accounts
        ≡ some
            (record { id = sample.new_v4 later.draws; username = "carol"; password_file = file }))
    × ((register_finish thief enrolled).0 ≢ ok created)
    × ((register_finish thief enrolled).1.db.accounts ≡ enrolled.db.accounts)
registered_once_test = registered_once carols thief later enrolled carol_test refl refl

abbrev begun : LoginStartResp
begun = record { response = "ab"; flow_id = "aa" }

begun_test : (login_start anns_start calm).0 ≡ ok (started begun)
unfolding opened
begun_test = refl

login_vouched_example :
    (a : AccountRow) × (request : Bytes) × (seed : ℕ) × (state : Bytes) × (answer : Bytes)
    × (finalization : Bytes) × (account_of "ann" calm.db.accounts ≡ some a)
    × (decode sample "ab" ≡ ok request)
    × (sample.server_login_start seed calm.opaque_setup
          (some a.password_file)
          request
          (as_bytes "ann")
        ≡ some (state, answer))
    × (decode sample "aaaaab" ≡ ok finalization)
    × (sample.server_login_finish state finalization ≡ true)
    × (sample.redis.entry finished.cache (session_key "aaa")
        ≡ some (record {
          value = sample.redis.of_text (sample.uuid_text a.id);
          expires = some (waiting.now + session_ttl_secs);
        }))
login_vouched_example =
    login_vouched anns_start good calm waiting begun (record { session_token = "aaa" }) begun_test
      refl refl finish_test
