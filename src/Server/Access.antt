-- ===== src/Server/Access.antt =====
-- Theorems on the application (`build_app` of src/lib.rs) and the extractor `AuthAccount` of
-- src/auth_api.rs: requests with no session.
use realm_guard_server.Prelude.{
  ◌≡◌, ◌≢◌, Bool-cases, refl, ap, ◌∙◌, ◌⊎◌, inl, inr, String, Bool, true, false, Option, none, some,
  Option-cases, arith,
}
use realm_guard_server.Prelude.Text.{strip_prefix}
use realm_guard_server.Platform.{Platform, live}
use realm_guard_server.Result.{
  Failure, err, StatusCode, unauthorized, internal_server_error, Result-cases,
}
use realm_guard_server.World.{World, redis, first, later, served, Outcome-cases}
use realm_guard_server.Auth.Sessions.{session_key, and_then}
use realm_guard_server.Auth.Api.{from_request_parts}
use realm_guard_server.Server.Routes.{Method, Endpoint, Route, on_method, route_of}
use realm_guard_server.Server.Routes
use realm_guard_server.Server.App.{code, Request, empty, Framework, serve, respond}

-- The endpoints that anyone may use: those of the server itself, registering, logging in, the login of
-- a device, and fetching a pairing by its id.
abbrev pub is_public : Endpoint → Bool
is_public Routes.healthz = true
is_public Routes.readyz = true
is_public Routes.metrics = true
is_public Routes.register_start = true
is_public Routes.register_finish = true
is_public Routes.login_start = true
is_public Routes.login_finish = true
is_public Routes.pairing_fetch = true
is_public Routes.device_challenge = true
is_public Routes.device_verify = true
is_public _ = false

redis-cache :
    {p : Platform} (w : World p) → ((redis w).1.cache ≡ w.cache) × ((redis w).1.now ≡ w.now)
unfolding redis
redis-cache w = (ground arith, ground arith)

redis-err :
    {p : Platform} (w : World p) (e : Failure) → (redis w).0 ≡ err e → first w.schedule ≢ served
unfolding redis
redis-err w e h k = ground arith

redis-late :
    {p : Platform} (w : World p)
    → first (redis w).1.schedule ≢ served
    → (first w.schedule ≢ served) ⊎ ((w.connected ≡ false) × (first (later w.schedule) ≢ served))
unfolding redis
redis-late w h = elim (Bool-cases w.connected) [
  | inl e ↦ inl (λ k. h (ground arith))
  | inr e ↦ elim (Outcome-cases (first w.schedule)) [
    | inl o ↦ inl (λ k. ground arith)
    | inr (inr o) ↦ inl (λ k. ground arith)
    | inr (inl o) ↦ inr (e, λ k. h (ground arith))
  ]
]

module _ {p : Platform} (authorization : Option String) (w : World p) where
  -- The request names no session that Redis still holds.
  abbrev pub IsAnonymous : Type 0
  IsAnonymous =
      (token : String)
      → and_then authorization (strip_prefix "Bearer ") ≡ some token
      → live w.now (p.redis.entry w.cache (session_key token)) ≡ none

  -- What the extractor leaves alone.
  pub record IsUntouched (u : World p) : Type 0 where
    pub db : u.db ≡ w.db
    pub cache : u.cache ≡ w.cache
    pub published : u.published ≡ w.published

  -- A call of Redis failed: the one that the extractor makes first, or the one after it where it had to
  -- connect.
  abbrev pub HasRedisFailed : Type 0
  HasRedisFailed =
      (first w.schedule ≢ served) ⊎ ((w.connected ≡ false) × (first (later w.schedule) ≢ served))

  extractor-IsUntouched : IsUntouched (from_request_parts authorization w).1
  unfolding from_request_parts
  extractor-IsUntouched = record {
    db = ground arith;
    cache = ground arith;
    published = ground arith;
  }

  extractor_refuses :
      IsAnonymous
      → (c : StatusCode) × ((from_request_parts authorization w).0 ≡ err c)
        × ((c ≡ unauthorized) ⊎ ((c ≡ internal_server_error) × HasRedisFailed))
  unfolding from_request_parts
  extractor_refuses h = elim (Option-cases (and_then authorization (strip_prefix "Bearer "))) [
    | inl e ↦ (unauthorized, ground arith, inl refl)
    | inr (token, e) ↦
        let gone = h token e in
        elim (Result-cases (redis w).0) [
          | inr (f, down) ↦
              (internal_server_error, ground arith, inr (refl, inl (redis-err w f down)))
          | inl (_, up) ↦ elim (Outcome-cases (first (redis w).1.schedule)) [
            | inl o ↦
                (internal_server_error, ground arith, inr (refl, redis-late w (λ e. ground arith)))
            | inr (inr o) ↦
                (internal_server_error, ground arith, inr (refl, redis-late w (λ e. ground arith)))
            | inr (inl o) ↦ (unauthorized, ground (arith, redis-cache w), inl refl)
          ]
        ]
  ]

module _ {p : Platform} (fw : Framework) where
  serve-refused :
      (e : Endpoint) (id : String) (req : Request) (w : World p) (c : StatusCode)
      → is_public e ≡ false
      → (from_request_parts req.authorization w).0 ≡ err c
      → serve fw e id req w ≡ (err (code c), (from_request_parts req.authorization w).1)
  unfolding serve
  serve-refused Routes.me id req w c h r = ground arith
  serve-refused Routes.pairing_deposit id req w c h r = ground arith
  serve-refused Routes.vault_store id req w c h r = ground arith
  serve-refused Routes.vault_fetch id req w c h r = ground arith
  serve-refused Routes.device_list id req w c h r = ground arith
  serve-refused Routes.device_register id req w c h r = ground arith
  serve-refused Routes.device_revoke id req w c h r = ground arith
  serve-refused Routes.device_rename id req w c h r = ground arith
  serve-refused Routes.sync_push id req w c h r = ground arith
  serve-refused Routes.sync_pull id req w c h r = ground arith
  serve-refused Routes.snapshot_put id req w c h r = ground arith
  serve-refused Routes.snapshot_get id req w c h r = ground arith
  serve-refused Routes.sync_ws id req w c h r = ground arith
  serve-refused Routes.healthz id req w c h r = cc
  serve-refused Routes.readyz id req w c h r = cc
  serve-refused Routes.metrics id req w c h r = cc
  serve-refused Routes.register_start id req w c h r = cc
  serve-refused Routes.register_finish id req w c h r = cc
  serve-refused Routes.login_start id req w c h r = cc
  serve-refused Routes.login_finish id req w c h r = cc
  serve-refused Routes.pairing_fetch id req w c h r = cc
  serve-refused Routes.device_challenge id req w c h r = cc
  serve-refused Routes.device_verify id req w c h r = cc

  respond-refused :
      (req : Request) (w : World p) (pattern id : String) (route : Route) (e : Endpoint)
      (c : StatusCode)
      → fw.matched req.path ≡ some (pattern, id)
      → route_of pattern ≡ some route
      → on_method req.method route ≡ some e
      → serve fw e id req w ≡ (err (code c), (from_request_parts req.authorization w).1)
      → ((respond fw req w).0 ≡ record { status = code c; content = empty })
        × IsUntouched req.authorization w (respond fw req w).1
  unfolding respond
  respond-refused req w pattern id route e c path known method refused =
      let u = extractor-IsUntouched req.authorization w in
      (
        ground arith,
        record {
          db = ground (arith, u.db);
          cache = ground (arith, u.cache);
          published = ground (arith, u.published);
        },
      )

-- Every endpoint but the public ones wants a session. Whatever the services answer: a request to any
-- other endpoint, by whatever path and method, whose Authorization header names no session that
-- Redis still holds, is answered with 401 and no content; or with 500 and no content, and then a call
-- of Redis failed, which was its first one, or the second where it had to connect first. The tables,
-- Redis and the channels are as before.
pub anonymous_refused :
    {p : Platform} (fw : Framework) (req : Request) (w : World p) (pattern id : String)
    (route : Route) (e : Endpoint)
    → fw.matched req.path ≡ some (pattern, id)
    → route_of pattern ≡ some route
    → on_method req.method route ≡ some e
    → is_public e ≡ false
    → IsAnonymous req.authorization w
    → (((respond fw req w).0 ≡ record { status = 401; content = empty })
        ⊎ (((respond fw req w).0 ≡ record { status = 500; content = empty })
            × HasRedisFailed req.authorization w))
      × IsUntouched req.authorization w (respond fw req w).1
anonymous_refused fw req w pattern id route e path known method guarded nobody =
    let (c, refused, which) = extractor_refuses req.authorization w nobody in
    let (answer, kept) =
      respond-refused fw req w pattern id route e c path known method
        (serve-refused fw e id req w c guarded refused) in
    (
      elim which [
        | inl k ↦ inl (answer ∙ ap (λ x. record { status = code x; content = empty }) k)
        | inr (k, down) ↦
            inr (answer ∙ ap (λ x. record { status = code x; content = empty }) k, down)
      ],
      kept,
    )
