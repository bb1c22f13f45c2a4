-- ===== src/Auth/Flows.antt =====
-- What `login_start` of src/auth_api.rs leaves in Redis for a flow that it opened.
use mathlib.Core.Option
use realm_guard_server.Prelude.{
  ℕ, suc, ◌+◌, ◌≡◌, sym, ap, ◌∙◌, ◌≢◌, inl, inr, String, Option, none, some, Option-cases, arith,
  str_eq_refl,
}
use realm_guard_server.Prelude.Utf8.{as_bytes}
use realm_guard_server.Platform.{Platform, Bytes, Uuid}
use realm_guard_server.Result.{ok, Result-cases}
use realm_guard_server.World.{World, redis, Outcome-cases, first, later, served}
use realm_guard_server.Auth.Accounts.{account_of}
use realm_guard_server.Auth.Sessions.{login_key, login_flow_ttl_secs}
use realm_guard_server.Auth.RateLimit.{locked_for}
use realm_guard_server.Auth.Api.{
  LoginStartReq, LoginStartResp, LoginStartReply, started, decode, open_flow, start_flow,
  login_start, file_of, id_of,
}

-- What a flow that was opened for some credentials leaves in Redis.
pub record IsOpened (p : Platform) (username : String) (request : Bytes)
    (credentials : Option (Uuid × Bytes)) (setup : Bytes) (now : ℕ) (flow_id : String)
    (cache : p.redis.Store) : Type 0 where
  pub seed : ℕ
  pub state : Bytes
  pub answer : Bytes
  pub begun :
      p.server_login_start seed setup (file_of credentials) request (as_bytes username)
      ≡ some (state, answer)
  pub blob : Bytes
  pub encoded :
      p.encode_flow (record { state = state; account_id = id_of credentials; username = username })
      ≡ some blob
  pub waiting :
      p.redis.entry cache (login_key flow_id)
      ≡ some (record { value = p.redis.of_bytes blob; expires = some (now + login_flow_ttl_secs) })

IsOpened-same :
    {p : Platform} {username flow_id : String} {request setup setup' : Bytes}
    {c c' : Option (Uuid × Bytes)} {now now' : ℕ} {cache cache' : p.redis.Store}
    → c ≡ c'
    → setup ≡ setup'
    → now ≡ now'
    → cache ≡ cache'
    → IsOpened p username request c setup now flow_id cache
    → IsOpened p username request c' setup' now' flow_id cache'
IsOpened-same a b d e o = rw (← a, ← b, ← d, ← e) o

module _ {p : Platform} (username : String) (request : Bytes) where
  open_flow-IsOpened :
      (credentials : Option (Uuid × Bytes)) (w : World p) (r : LoginStartResp)
      → (open_flow username request credentials w).0 ≡ ok (started r)
      → IsOpened p username request credentials w.opaque_setup w.now r.flow_id
          (open_flow username request credentials w).1.cache
  unfolding open_flow
  open_flow-IsOpened credentials w r h =
      elim (Option-cases (
        p.server_login_start w.draws w.opaque_setup (file_of credentials) request
          (as_bytes username))) [
            | inl e ↦ absurd (ground arith)
            | inr ((state, answer), begun) ↦
                elim (Option-cases (
                  p.encode_flow (record {
                    state = state;
                    account_id = id_of credentials;
                    username = username;
                  }))) [
                    | inl e ↦ absurd (ground arith)
                    | inr (blob, encoded) ↦ elim (Outcome-cases (first w.schedule)) [
                      | inl e ↦ absurd (ground arith)
                      | inr (inr e) ↦ absurd (ground arith)
                      | inr (inl e) ↦ record {
                        seed = w.draws;
                        state = state;
                        answer = answer;
                        begun = begun;
                        blob = blob;
                        encoded = encoded;
                        waiting =
                            let flow_id = p.uuid_simple (p.new_v4 (suc w.draws)) in
                            let same : r.flow_id ≡ flow_id = ground arith in
                            rw same (
                              ground (
                                arith,
                                p.redis.entry-set_ex w.cache w.now (login_key flow_id)
                                    (p.redis.of_bytes blob) login_flow_ttl_secs (login_key flow_id),
                                str_eq_refl (login_key flow_id),
                              ));
                      }
                    ]
                  ]
          ]

  -- The credentials that a username has.
  abbrev pub credentials_of : World p → Option (Uuid × Bytes)
  credentials_of w = Option.map (λ a. (a.id, a.password_file)) (account_of username w.db.accounts)

  start_flow-served :
      (w : World p)
      → first w.schedule ≡ served
      → start_flow username request w
        ≡ open_flow username request (credentials_of w) (record w { schedule = later w.schedule })
  unfolding start_flow
  start_flow-served w h = ground arith

  start_flow-failed :
      (w : World p) (r : LoginStartReply)
      → first w.schedule ≢ served
      → (start_flow username request w).0 ≢ ok r
  unfolding start_flow
  start_flow-failed w r h = ground arith

  start_flow-IsOpened :
      (w : World p) (r : LoginStartResp)
      → (start_flow username request w).0 ≡ ok (started r)
      → IsOpened p username request
          (credentials_of w)
          w.opaque_setup
          w.now
          r.flow_id
          (start_flow username request w).1.cache
  start_flow-IsOpened w r h = elim (Outcome-cases (first w.schedule)) [
    | inl e ↦ absurd (start_flow-failed w (started r) (λ k. ground arith) h)
    | inr (inr e) ↦ absurd (start_flow-failed w (started r) (λ k. ground arith) h)
    | inr (inl e) ↦
        let same = start_flow-served w e in
        let w' = record w { schedule = later w.schedule } in
        rw same (open_flow-IsOpened (credentials_of w) w' r (rw same at h))
  ]

  locked_for-keeps :
      (w : World p)
      → ((locked_for username w).1.db ≡ w.db)
        × ((locked_for username w).1.now ≡ w.now)
        × ((locked_for username w).1.opaque_setup ≡ w.opaque_setup)
  unfolding locked_for
  locked_for-keeps w = (ground arith, ground arith, ground arith)

redis-keeps :
    {p : Platform} (w : World p)
    → ((redis w).1.db ≡ w.db)
      × ((redis w).1.now ≡ w.now)
      × ((redis w).1.opaque_setup ≡ w.opaque_setup)
unfolding redis
redis-keeps w = (ground arith, ground arith, ground arith)

-- A start that opened a flow: its request decodes, and the flow is the one of the username's
-- credentials at that moment.
module _ {p : Platform} (body : LoginStartReq) (w : World p) (r : LoginStartResp) where
  pub login_start-IsOpened :
      (login_start body w).0 ≡ ok (started r)
      → (request : Bytes) × (decode p body.request ≡ ok request)
        × IsOpened p body.username request
            (credentials_of body.username request w)
            w.opaque_setup
            w.now
            r.flow_id
            (login_start body w).1.cache
  unfolding login_start
  login_start-IsOpened h = elim (Result-cases (decode p body.request)) [
    | inr (e, bad) ↦ absurd (ground arith)
    | inl (request, good) ↦ elim (Result-cases (redis w).0) [
      | inr (e, bad) ↦ absurd (ground arith)
      | inl (_, up) ↦ elim (Result-cases (locked_for body.username (redis w).1).0) [
        | inr (e, bad) ↦ absurd (ground arith)
        | inl (some retry, locked) ↦ absurd (ground arith)
        | inl (none, free) ↦
            let u = (locked_for body.username (redis w).1).1 in
            let same : login_start body w ≡ start_flow body.username request u = ground arith in
            let o = start_flow-IsOpened body.username request u r (rw same at h) in
            let k = locked_for-keeps body.username request (redis w).1 in
            let k' = redis-keeps w in
            (
              request,
              good,
              IsOpened-same
                  (ap
                    (λ db.
                      Option.map (λ a. (a.id, a.password_file))
                        (account_of body.username db.accounts))
                    (k.0 ∙ k'.0))
                  (k.2 ∙ k'.2) (k.1 ∙ k'.1) (ap (λ x. x.1.cache) (sym same)) o,
            )
      ]
    ]
  ]
