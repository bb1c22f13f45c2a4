-- ===== src/Auth/Login.antt =====
-- Theorems on `login_start` and `login_finish` of src/auth_api.rs: login flows and the lock.
use realm_guard_server.Prelude.{
  ℕ, ◌≡◌, ◌≢◌, refl, ◌∙◌, String, true, Option, none, some, [], arith, str_eq_refl, inl, inr,
  Option-cases,
}
use realm_guard_server.Platform.{Platform, Bytes, LoginFlow, Entry}
use realm_guard_server.Database.{Database}
use realm_guard_server.Result.{ok, err, Result-cases, unauthorized}
use realm_guard_server.World.{World, redis}
use realm_guard_server.Cache.{incremented}
use realm_guard_server.Auth.Sessions.{login_key, session_key, session_ttl_secs, take_login_flow}
use realm_guard_server.Auth.RateLimit.{key, window_secs, locked_for}
use realm_guard_server.Auth.Api.{
  LoginStartReq, too_many_requests, LoginFinishReq, decode, open_flow, start_flow, login_start,
  login_finish, open_session, refuse_login,
}
use realm_guard_server.Auth.Keys.{session-ne-login, counter-ne-login}

module _ {p : Platform} (w : World p) (db : Database) where
  abbrev with_db : World p → World p
  with_db v = record v { db = db }

  redis_alike :
      ((redis (with_db w)).0 ≡ (redis w).0) × ((redis (with_db w)).1 ≡ with_db (redis w).1)
  unfolding redis
  redis_alike = (ground arith, ground arith)

  locked_for_alike :
      (username : String) → (locked_for username (with_db w)).0 ≡ (locked_for username w).0
  unfolding locked_for
  locked_for_alike username = ground arith

start_flow-ne-locked :
    {p : Platform} (username : String) (request : Bytes) (w : World p) (retry : ℕ)
    → (start_flow username request w).0 ≢ ok (too_many_requests retry)
unfolding start_flow open_flow
start_flow-ne-locked username request w retry = ground arith

-- While a username is locked, `login/start` answers 429 with the same delay whatever the database
-- holds, an account of that name or none: the lock tells nothing about which accounts exist.
pub locked_alike :
    {p : Platform} (body : LoginStartReq) (w : World p) (retry : ℕ) (db : Database)
    → (login_start body w).0 ≡ ok (too_many_requests retry)
    → (login_start body (record w { db = db })).0 ≡ ok (too_many_requests retry)
unfolding login_start
locked_alike {p} body w retry db h = elim (Result-cases (decode p body.request)) [
  | inr (e, bad) ↦ absurd (ground arith)
  | inl (request, good) ↦ elim (Result-cases (redis w).0) [
    | inr (e, bad) ↦ absurd (ground arith)
    | inl (_, up) ↦ elim (Result-cases (locked_for body.username (redis w).1).0) [
      | inr (e, bad) ↦ absurd (ground arith)
      | inl (none, free) ↦ absurd (
          start_flow-ne-locked body.username request (locked_for body.username (redis w).1).1 retry
            (ground arith))
      | inl (some r, locked) ↦
          ground (arith, redis_alike w db, locked_for_alike (redis w).1 db body.username)
    ]
  ]
]

module _ (p : Platform) (flow_id : String) where
  -- The entry under which a flow waits.
  abbrev waiting : World p → Option (Entry p.redis.Value)
  waiting w = p.redis.entry w.cache (login_key flow_id)

  incremented_keeps :
      (username : String) (w : World p)
      → p.redis.entry
          (incremented w.cache (p.redis.incr w.cache w.now (key username))).1
          (login_key flow_id)
        ≡ waiting w
  incremented_keeps username w = elim (Option-cases (p.redis.incr w.cache w.now (key username))) [
    | inl e ↦ rw e refl
    | inr (s, e) ↦ rw e (
        p.redis.entry-incr_ne w.cache s w.now (key username) (login_key flow_id) e
          (counter-ne-login username flow_id))
  ]

  expire_keeps :
      (username : String) (s : p.redis.Store) (now : ℕ)
      → p.redis.entry (p.redis.expire s now (key username) window_secs) (login_key flow_id)
        ≡ p.redis.entry s (login_key flow_id)
  expire_keeps username s now =
      p.redis.entry-expire s now (key username) window_secs (login_key flow_id)
      ∙ rw (counter-ne-login username flow_id) refl

  reset_keeps :
      (username : String) (s : p.redis.Store)
      → p.redis.entry (p.redis.del s (key username)) (login_key flow_id)
        ≡ p.redis.entry s (login_key flow_id)
  reset_keeps username s =
      p.redis.entry-del s (key username) (login_key flow_id)
      ∙ rw (counter-ne-login username flow_id) refl

  session_keeps :
      (token : String) (s : p.redis.Store) (now : ℕ) (v : p.redis.Value)
      → p.redis.entry
          (p.redis.set_ex s now (session_key token) v session_ttl_secs)
          (login_key flow_id)
        ≡ p.redis.entry s (login_key flow_id)
  session_keeps token s now v =
      p.redis.entry-set_ex s now (session_key token) v session_ttl_secs (login_key flow_id)
      ∙ rw (session-ne-login token flow_id) refl

  waiting-refuse_login :
      (flow : LoginFlow) (w : World p) → waiting (refuse_login flow w).1 ≡ waiting w
  unfolding refuse_login
  waiting-refuse_login flow w = ground (
    arith,
    incremented_keeps flow.username w,
    expire_keeps flow.username
        (incremented w.cache (p.redis.incr w.cache w.now (key flow.username))).1 w.now,
  )

  waiting-open_session :
      (flow : LoginFlow) (w : World p) → waiting (open_session flow w).1 ≡ waiting w
  unfolding open_session
  waiting-open_session flow w = elim (Option-cases flow.account_id) [
    | inl e ↦ ground arith
    | inr (account, e) ↦ ground (
      arith,
      reset_keeps flow.username w.cache,
      session_keeps (p.uuid_simple (p.new_v4 w.draws)) (p.redis.del w.cache (key flow.username))
          w.now (p.redis.of_text (p.uuid_text account)),
    )
  ]

  module _ (w : World p) (up : w.schedule ≡ []) where
    taken_gone : waiting (take_login_flow flow_id w).1 ≡ none
    unfolding take_login_flow
    taken_gone = ground (
      arith,
      p.redis.entry-del w.cache (login_key flow_id) (login_key flow_id),
      str_eq_refl (login_key flow_id),
    )

    module _ (finalization : String) (bytes : Bytes) (good : decode p finalization ≡ ok bytes)
        (connected : w.connected ≡ true) where
      -- A finish that reached Redis has taken the flow, whatever it answers.
      finished_gone :
          waiting (login_finish (record { flow_id = flow_id; finalization = finalization }) w).1
          ≡ none
      unfolding login_finish
      finished_gone = elim (Result-cases (take_login_flow flow_id w).0) [
        | inr (e, bad) ↦ ground (arith, taken_gone)
        | inl (none, absent) ↦ ground (arith, taken_gone)
        | inl (some blob, present) ↦ elim (Option-cases (p.decode_flow blob)) [
          | inl bad ↦ ground (arith, taken_gone)
          | inr (flow, decoded) ↦ ground (
            arith,
            taken_gone,
            waiting-open_session flow (take_login_flow flow_id w).1,
            waiting-refuse_login flow (take_login_flow flow_id w).1,
          )
        ]
      ]

  -- A finish for which no flow waits is refused.
  unknown_flow :
      (w : World p) (finalization : String) (bytes : Bytes)
      → w.schedule ≡ []
      → w.connected ≡ true
      → decode p finalization ≡ ok bytes
      → waiting w ≡ none
      → (login_finish (record { flow_id = flow_id; finalization = finalization }) w).0
        ≡ err unauthorized
  unfolding login_finish take_login_flow
  unknown_flow w finalization bytes up connected good gone = ground arith

-- With the services up and Redis connected, a login flow serves one attempt: once a finish with a
-- finalization that decodes was answered, accepted or not, every later finish of the same flow
-- with a finalization that decodes is refused with 401 until Redis changes, whatever the state of
-- the rest of the server.
pub login_flow_once :
    (p : Platform) (first second : LoginFinishReq) (w u : World p) (a b : Bytes)
    → w.schedule ≡ []
    → w.connected ≡ true
    → decode p first.finalization ≡ ok a
    → u.cache ≡ (login_finish first w).1.cache
    → u.schedule ≡ []
    → u.connected ≡ true
    → second.flow_id ≡ first.flow_id
    → decode p second.finalization ≡ ok b
    → (login_finish second u).0 ≡ err unauthorized
login_flow_once p first second w u a b up connected good same up' connected' flow good' =
    unknown_flow p second.flow_id u second.finalization b up' connected' good'
      (rw (same, flow) (finished_gone p first.flow_id w up first.finalization a good connected))
