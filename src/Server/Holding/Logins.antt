-- ===== src/Server/Holding/Logins.antt =====
-- What the handlers of a login of src/auth_api.rs do to the session of one token in Redis: nothing,
-- unless they draw that token anew.
use realm_guard_server.Prelude.{String, inl, inr, Option, Option-cases, none, some, suc, arith}
use realm_guard_server.Prelude.Utf8.{as_bytes}
use realm_guard_server.Platform.{Platform, Bytes, Uuid, LoginFlow}
use realm_guard_server.Result.{Result-cases}
use realm_guard_server.World.{World, redis}
use realm_guard_server.Cache.{incremented}
use realm_guard_server.Auth.Accounts.{account_credentials}
use realm_guard_server.Auth.Sessions.{
  login_key, session_key, take_login_flow, create_session, session_ttl_secs, login_flow_ttl_secs,
}
use realm_guard_server.Auth.RateLimit.{key, locked_for, record_failure, reset, window_secs}
use realm_guard_server.Auth.Keys.{login-ne-session, counter-ne-session}
use realm_guard_server.Auth.Api as Auth
use realm_guard_server.Server.Holding.{
  IsOther, IsFresh, HasKept, del_keeps, set_keeps, expire_keeps, incr_keeps, redis-HasKept,
}

module _ (p : Platform) (token : String) where
  module _ (w : World p) where
    take-HasKept : (flow_id : String) → HasKept p token w (take_login_flow flow_id w).1
    unfolding take_login_flow
    take-HasKept flow_id =
        ground
          (arith, del_keeps p token w.cache (login_key flow_id) (login-ne-session flow_id token))

    locked_for-HasKept : (username : String) → HasKept p token w (locked_for username w).1
    unfolding locked_for
    locked_for-HasKept username = ground arith

    record_failure-HasKept : (username : String) → HasKept p token w (record_failure username w).1
    unfolding record_failure
    record_failure-HasKept username =
        let other = counter-ne-session username token in
        ground (
          arith,
          incr_keeps p token w.cache w.now (key username) other,
          expire_keeps p token (incremented w.cache (p.redis.incr w.cache w.now (key username))).1
              w.now (key username) window_secs other,
        )

    reset-HasKept : (username : String) → HasKept p token w (reset username w).1
    unfolding reset
    reset-HasKept username =
        ground (arith, del_keeps p token w.cache (key username) (counter-ne-session username token))

    create_session-HasKept :
        (account : Uuid) → IsOther p token w.draws → HasKept p token w (create_session account w).1
    unfolding create_session
    create_session-HasKept account h = ground (
      arith,
      set_keeps p token w.cache w.now (session_key (p.uuid_simple (p.new_v4 w.draws)))
          (p.redis.of_text (p.uuid_text account)) session_ttl_secs h,
    )

    open_session-HasKept :
        (flow : LoginFlow)
        → IsOther p token w.draws
        → HasKept p token w (Auth.open_session flow w).1
    unfolding Auth.open_session
    open_session-HasKept flow h = elim (Option-cases flow.account_id) [
      | inl e ↦ ground arith
      | inr (account, e) ↦ ground (
        arith,
        del_keeps p token w.cache (key flow.username) (counter-ne-session flow.username token),
        set_keeps p token (p.redis.del w.cache (key flow.username)) w.now
            (session_key (p.uuid_simple (p.new_v4 w.draws))) (p.redis.of_text (p.uuid_text account))
            session_ttl_secs h,
      )
    ]

    refuse_login-HasKept : (flow : LoginFlow) → HasKept p token w (Auth.refuse_login flow w).1
    unfolding Auth.refuse_login record_failure
    refuse_login-HasKept flow =
        let other = counter-ne-session flow.username token in
        ground (
          arith,
          incr_keeps p token w.cache w.now (key flow.username) other,
          expire_keeps p token
              (incremented w.cache (p.redis.incr w.cache w.now (key flow.username))).1 w.now
              (key flow.username) window_secs other,
        )

    opened-HasKept :
        (username : String) (request : Bytes) (credentials : Option (Uuid × Bytes))
        → HasKept p token w (Auth.open_flow username request credentials w).1
    unfolding Auth.open_flow
    opened-HasKept username request credentials =
        let flow_id = p.uuid_simple (p.new_v4 (suc w.draws)) in
        let other = login-ne-session flow_id token in
        elim (Option-cases (
          p.server_login_start w.draws w.opaque_setup (Auth.file_of credentials) request
            (as_bytes username))) [
              | inl e ↦ ground arith
              | inr (answer, e) ↦
                  elim (Option-cases (
                    p.encode_flow (record {
                      state = answer.0;
                      account_id = Auth.id_of credentials;
                      username = username;
                    }))) [
                      | inl bad ↦ ground arith
                      | inr (blob, good) ↦ ground (
                        arith,
                        set_keeps p token w.cache w.now (login_key flow_id) (p.redis.of_bytes blob)
                            login_flow_ttl_secs other,
                      )
                    ]
            ]

  start_flow-HasKept :
      (username : String) (request : Bytes) (w : World p)
      → HasKept p token w (Auth.start_flow username request w).1
  unfolding Auth.start_flow
  start_flow-HasKept username request w = elim (Result-cases (account_credentials username w).0) [
    | inr (e, down) ↦ ground arith
    | inl (credentials, up) ↦
        ground
          (arith, opened-HasKept (account_credentials username w).1 username request credentials)
  ]

  pub login_start-HasKept :
      (body : Auth.LoginStartReq) (w : World p) → HasKept p token w (Auth.login_start body w).1
  unfolding Auth.login_start
  login_start-HasKept body w =
      let u = (redis w).1 in
      let connecting = redis-HasKept p token w in
      let asking = locked_for-HasKept u body.username in
      elim (Result-cases (Auth.decode p body.request)) [
        | inr (e, bad) ↦ ground arith
        | inl (request, good) ↦
            let flow = start_flow-HasKept body.username request (locked_for body.username u).1 in
            ground arith
      ]

  pub login_finish-HasKept :
      (body : Auth.LoginFinishReq) (w : World p)
      → IsFresh p token w
      → HasKept p token w (Auth.login_finish body w).1
  unfolding Auth.login_finish
  login_finish-HasKept body w h =
      let u = (redis w).1 in
      let v = (take_login_flow body.flow_id u).1 in
      let connecting = redis-HasKept p token w in
      let taking = take-HasKept u body.flow_id in
      elim (Result-cases (take_login_flow body.flow_id u).0) [
        | inr (e, bad) ↦ ground arith
        | inl (none, absent) ↦ ground arith
        | inl (some blob, present) ↦ elim (Option-cases (p.decode_flow blob)) [
          | inl bad ↦ ground arith
          | inr (flow, decoded) ↦
              let opening = open_session-HasKept v flow (h v.draws (ground arith)) in
              let refusing = refuse_login-HasKept v flow in ground arith
        ]
      ]
