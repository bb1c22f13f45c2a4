-- ===== src/Auth/Grants.antt =====
-- Theorems on `login_start` and then `login_finish` of src/auth_api.rs: what a session rests on.
use realm_guard_server.Prelude.{
  ℕ, ◌+◌, ◌≡◌, sym, ap, ◌∙◌, ◌≢◌, inl, inr, String, true, none, some, Option-cases, Bool-cases,
  arith, str_eq_refl,
}
use realm_guard_server.Prelude.Utf8.{as_bytes}
use realm_guard_server.Platform.{Platform, Bytes, Uuid, LoginFlow, live}
use realm_guard_server.Database.{AccountRow}
use realm_guard_server.Result.{ok, Result-cases}
use realm_guard_server.World.{World, redis}
use realm_guard_server.Cache.{converted}
use realm_guard_server.Auth.Accounts.{account_of}
use realm_guard_server.Auth.Sessions.{
  login_key, session_key, session_ttl_secs, take_login_flow, login_flow_ttl_secs,
}
use realm_guard_server.Auth.RateLimit.{key}
use realm_guard_server.Auth.Api.{
  LoginStartReq, LoginStartResp, started, LoginFinishReq, LoginFinishResp, decode, login_start,
  login_finish, open_session, refuse_login, id_of,
}
use realm_guard_server.Auth.Flows.{credentials_of, login_start-IsOpened}

-- What a session rests on: a flow that waited, whose state OPAQUE accepted the finalization for, and
-- an account that the flow was opened for; the session is that account's.
pub record IsGranted {p : Platform} (body : LoginFinishReq) (w : World p) (r : LoginFinishResp)
    : Type 0 where
  pub finalization : Bytes
  pub decoded : decode p body.finalization ≡ ok finalization
  pub blob : Bytes
  pub waiting :
      converted p.redis.to_bytes (live w.now (p.redis.entry w.cache (login_key body.flow_id)))
      ≡ ok (some blob)
  pub flow : LoginFlow
  pub kept : p.decode_flow blob ≡ some flow
  pub accepted : p.server_login_finish flow.state finalization ≡ true
  pub account : Uuid
  pub owned : flow.account_id ≡ some account
  pub session :
      p.redis.entry (login_finish body w).1.cache (session_key r.session_token)
      ≡ some (record {
        value = p.redis.of_text (p.uuid_text account);
        expires = some (w.now + session_ttl_secs);
      })

module _ {p : Platform} where
  take-keeps :
      (flow_id : String) (w : World p) (blob : Bytes)
      → (take_login_flow flow_id w).0 ≡ ok (some blob)
      → (converted p.redis.to_bytes (live w.now (p.redis.entry w.cache (login_key flow_id)))
          ≡ ok (some blob))
        × ((take_login_flow flow_id w).1.now ≡ w.now)
  unfolding take_login_flow
  take-keeps flow_id w blob h = (ground arith, ground arith)

  session-open_session :
      (flow : LoginFlow) (w : World p) (r : LoginFinishResp)
      → (open_session flow w).0 ≡ ok r
      → (account : Uuid) × (flow.account_id ≡ some account)
        × (p.redis.entry (open_session flow w).1.cache (session_key r.session_token)
            ≡ some (record {
              value = p.redis.of_text (p.uuid_text account);
              expires = some (w.now + session_ttl_secs);
            }))
  unfolding open_session
  session-open_session flow w r h = elim (Option-cases flow.account_id) [
    | inl e ↦ absurd (ground arith)
    | inr (account, e) ↦
        let token = p.uuid_simple (p.new_v4 w.draws) in
        let same : r.session_token ≡ token = ground arith in
        (
          account,
          e,
          rw same (
              ground (
                arith,
                str_eq_refl (session_key token),
                p.redis.entry-set_ex (p.redis.del w.cache (key flow.username)) w.now
                    (session_key token) (p.redis.of_text (p.uuid_text account)) session_ttl_secs
                    (session_key token),
              )),
        )
  ]

  refuse_login-failed :
      (flow : LoginFlow) (w : World p) (r : LoginFinishResp) → (refuse_login flow w).0 ≢ ok r
  unfolding refuse_login
  refuse_login-failed flow w r = ground arith

  redis-cache : (w : World p) → ((redis w).1.cache ≡ w.cache) × ((redis w).1.now ≡ w.now)
  unfolding redis
  redis-cache w = (ground arith, ground arith)

  login_finish-IsGranted :
      (body : LoginFinishReq) (w : World p) (r : LoginFinishResp)
      → (login_finish body w).0 ≡ ok r
      → IsGranted body w r
  unfolding login_finish
  login_finish-IsGranted body w r h = elim (Result-cases (decode p body.finalization)) [
    | inr (e, bad) ↦ absurd (ground arith)
    | inl (finalization, decoded) ↦ elim (Result-cases (redis w).0) [
      | inr (e, bad) ↦ absurd (ground arith)
      | inl (_, up) ↦
          let u = (redis w).1 in
          elim (Result-cases (take_login_flow body.flow_id u).0) [
            | inr (e, bad) ↦ absurd (ground arith)
            | inl (none, absent) ↦ absurd (ground arith)
            | inl (some blob, taken) ↦ elim (Option-cases (p.decode_flow blob)) [
              | inl bad ↦ absurd (ground arith)
              | inr (flow, kept) ↦
                  elim (Bool-cases (p.server_login_finish flow.state finalization)) [
                    | inr bad ↦ absurd (
                        ground
                          (arith, refuse_login-failed flow (take_login_flow body.flow_id u).1 r))
                    | inl accepted ↦
                        let v = (take_login_flow body.flow_id u).1 in
                        let (account, owned, session) =
                          session-open_session flow v r (ground arith) in
                        record {
                          finalization = finalization;
                          decoded = decoded;
                          blob = blob;
                          waiting =
                              ground (arith, redis-cache w, take-keeps body.flow_id u blob taken);
                          flow = flow;
                          kept = kept;
                          accepted = accepted;
                          account = account;
                          owned = owned;
                          session =
                              ground (
                                arith,
                                session,
                                redis-cache w,
                                take-keeps body.flow_id u blob taken,
                              );
                        }
                  ]
            ]
          ]
    ]
  ]

-- A blob that was stored is the one that is taken.
blob_lem :
    (p : Platform) (now t : ℕ) (b b' : Bytes)
    → converted p.redis.to_bytes
        (live now (some (record { value = p.redis.of_bytes b; expires = some t })))
      ≡ ok (some b')
    → b' ≡ b
blob_lem p now t b b' h = ground (arith, p.redis.to_bytes-of_bytes b)

flow_lem :
    (p : Platform) (f g : LoginFlow) (b : Bytes)
    → p.decode_flow b ≡ some f
    → p.decode_flow b ≡ some g
    → g ≡ f
flow_lem p f g b h k = ground arith

-- Whatever the services answer: where a login started for a username and the flow that it left in Redis
-- is the one that a later finish finds, a session is opened only if the username had an account at the
-- start, whose password file OPAQUE started from and whose finalization OPAQUE accepts; the session
-- is that account's, for seven days.
pub login_vouched :
    {p : Platform} (body : LoginStartReq) (fin : LoginFinishReq) (w u : World p)
    (s : LoginStartResp) (r : LoginFinishResp)
    → (login_start body w).0 ≡ ok (started s)
    → fin.flow_id ≡ s.flow_id
    → p.redis.entry u.cache (login_key s.flow_id)
      ≡ p.redis.entry (login_start body w).1.cache (login_key s.flow_id)
    → (login_finish fin u).0 ≡ ok r
    → (a : AccountRow) × (request : Bytes) × (seed : ℕ) × (state : Bytes) × (answer : Bytes)
      × (finalization : Bytes) × (account_of body.username w.db.accounts ≡ some a)
      × (decode p body.request ≡ ok request)
      × (p.server_login_start seed w.opaque_setup
            (some a.password_file)
            request
            (as_bytes body.username)
          ≡ some (state, answer))
      × (decode p fin.finalization ≡ ok finalization)
      × (p.server_login_finish state finalization ≡ true)
      × (p.redis.entry (login_finish fin u).1.cache (session_key r.session_token)
          ≡ some (record {
            value = p.redis.of_text (p.uuid_text a.id);
            expires = some (u.now + session_ttl_secs);
          }))
login_vouched {p} body fin w u s r began flow cache ended =
    let (request, good, o) = login_start-IsOpened body w s began in
    let g = login_finish-IsGranted fin u r ended in
    let opened : LoginFlow = record {
      state = o.state;
      account_id = id_of (credentials_of body.username request w);
      username = body.username;
    } in
    let found = rw (flow, cache, o.waiting) at g.waiting in
    let blob = blob_lem p u.now (w.now + login_flow_ttl_secs) o.blob g.blob found in
    let same : g.flow ≡ opened =
      flow_lem p opened g.flow o.blob (p.decode_flow-encode_flow opened o.blob o.encoded)
        (rw blob at g.kept) in
    let owned : id_of (credentials_of body.username request w) ≡ some g.account =
      ap (λ f. f.account_id) (sym same) ∙ g.owned in
    elim (Option-cases (account_of body.username w.db.accounts)) [
      | inl e ↦ absurd (ground (arith, owned))
      | inr (a, e) ↦
          let mine : a.id ≡ g.account = ground (arith, owned) in
          (
            a,
            request,
            o.seed,
            o.state,
            o.answer,
            g.finalization,
            e,
            good,
            ground (arith, o.begun),
            g.decoded,
            rw same at g.accepted,
            rw mine g.session,
          )
    ]
