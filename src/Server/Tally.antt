-- ===== src/Server/Tally.antt =====
-- What /metrics can tell of an answer of the application (src/lib.rs, src/observability.rs): how each
-- answer is counted, and that this holds of what the endpoints are composed of.
use realm_guard_server.Prelude.{
  ℕ, ◌≡◌, refl, sym, inl, inr, String, Bool, true, false, Option, length, arith, ◌==◌,
  if◌then◌else◌,
}
use realm_guard_server.Platform.{Platform, Uuid}
use realm_guard_server.Result.{Result, ok, err, StatusCode, Result-cases}
use realm_guard_server.Metrics.{
  Metrics, record_delta_pushed, record_deltas_pulled, record_snapshot_created, record_registration,
  record_login, record_login_lockout,
}
use realm_guard_server.World.{World, Exec, pure, lift, map_err, ◌>>=◌}
use realm_guard_server.Auth.Api as Auth
use realm_guard_server.Server.Counts
use realm_guard_server.Server.Counts.{on_success}
use realm_guard_server.Server.Routes.{Method, Endpoint, Route, on_method, route_of}
use realm_guard_server.Server.Routes
use realm_guard_server.Server.App
use realm_guard_server.Server.App.{
  code, Request, Content, Response, Framework, reply, into_response, authenticated, serve, respond,
}

-- What an answer's content is counted as.
abbrev pub content_tally : Content → Metrics → Metrics
content_tally (App.pushed r) m = record_delta_pushed m
content_tally (App.pulled r) m = record_deltas_pulled (length r.deltas) m
content_tally (App.published r) m = record_snapshot_created m
content_tally (App.retry_after seconds) m = record_login_lockout m
content_tally (App.session r) m = record_login true m
content_tally _ m = m

-- What an answer is counted as: a registration answers with no content.
abbrev pub tally : Endpoint → Response → Metrics → Metrics
tally Routes.register_finish r m = if r.status == 201 then record_registration m else m
tally _ r m = content_tally r.content m

abbrev pub is_by_content : Endpoint → Bool
is_by_content Routes.register_finish = false
is_by_content Routes.login_finish = false
is_by_content _ = true

module _ {p : Platform} where
  -- The counters move as the answer says.
  unfoldable pub IsTallied : (Response → Metrics → Metrics) → Exec p ℕ Response → Type 0
  IsTallied f m = (w : World p) → (m w).1.metrics ≡ f (into_response (m w).0) w.metrics

  module _ (f : Response → Metrics → Metrics)
      (refused : (s : ℕ) (m : Metrics) → f (reply s App.empty) m ≡ m) where
    pub IsTallied-authenticated :
        (fw : Framework) (authorization : Option String) (k : Uuid → Exec p ℕ Response)
        → ((account : Uuid) → IsTallied f (k account))
        → IsTallied f (authenticated fw authorization k)
    unfolding IsTallied
    IsTallied-authenticated fw authorization k h w =
        let u = (Auth.from_request_parts authorization w).1 in
        let before = Counts.metrics-from_request_parts w authorization in
        elim (Result-cases (Auth.from_request_parts authorization w).0) [
          | inl (account, e) ↦ let after = h account u in ground (arith, after)
          | inr (c, e) ↦ let same = refused (code c) w.metrics in ground arith
        ]

    pub IsTallied-lift :
        {B : Type 0} (r : Result ℕ B) (k : B → Exec p ℕ Response)
        → ((b : B) → IsTallied f (k b))
        → IsTallied f (lift r >>= k)
    unfolding IsTallied
    IsTallied-lift (ok b) k h w = h b w
    IsTallied-lift (err s) k h w = sym (refused s w.metrics)

    IsTallied-handler :
        {A : Type 0} (c : A → Metrics → Metrics) (g : A → Response) (h : Exec p StatusCode A)
        → ((w : World p) → (h w).1.metrics ≡ on_success c (h w).0 w.metrics)
        → ((a : A) (m : Metrics) → f (g a) m ≡ c a m)
        → IsTallied f (map_err code h >>= λ a. pure (g a))
    unfolding IsTallied
    IsTallied-handler c g h counts says w = elim (Result-cases (h w).0) [
      | inl (a, e) ↦ ground (arith, counts w, says a w.metrics)
      | inr (s, e) ↦ ground (arith, counts w, refused (code s) w.metrics)
    ]

abbrev pub by_content : Response → Metrics → Metrics
by_content r m = content_tally r.content m

-- An endpoint whose answers are counted by their content, as the handler counts its success.
module _ {p : Platform} (fw : Framework) {A : Type 0} (c : A → Metrics → Metrics) (g : A → Response)
    (says : (a : A) (m : Metrics) → content_tally (g a).content m ≡ c a m) where
  pub open_endpoint :
      (h : Exec p StatusCode A)
      → ((w : World p) → (h w).1.metrics ≡ on_success c (h w).0 w.metrics)
      → IsTallied by_content (map_err code h >>= λ a. pure (g a))
  open_endpoint h counts = IsTallied-handler by_content (λ s m. refl) c g h counts says

  pub open_body :
      {B : Type 0} (r : Result ℕ B) (h : B → Exec p StatusCode A)
      → ((b : B) (w : World p) → (h b w).1.metrics ≡ on_success c (h b w).0 w.metrics)
      → IsTallied by_content (lift r >>= λ b. map_err code (h b) >>= λ a. pure (g a))
  open_body r h counts =
      IsTallied-lift by_content (λ s m. refl) r _ (λ b. open_endpoint (h b) (counts b))

  pub own_endpoint :
      (authorization : Option String) (h : Uuid → Exec p StatusCode A)
      → ((account : Uuid) (w : World p)
          → (h account w).1.metrics ≡ on_success c (h account w).0 w.metrics)
      → IsTallied by_content
          (authenticated fw authorization λ account. map_err code (h account) >>= λ a. pure (g a))
  own_endpoint authorization h counts =
      IsTallied-authenticated by_content (λ s m. refl) fw authorization _
        (λ account. open_endpoint (h account) (counts account))

  pub own_body :
      {B : Type 0} (authorization : Option String) (r : Result ℕ B)
      (h : Uuid → B → Exec p StatusCode A)
      → ((account : Uuid) (b : B) (w : World p)
          → (h account b w).1.metrics ≡ on_success c (h account b w).0 w.metrics)
      → IsTallied by_content (
          authenticated fw authorization
            λ account. lift r >>= λ b. map_err code (h account b) >>= λ a. pure (g a))
  own_body authorization r h counts =
      IsTallied-authenticated by_content (λ s m. refl) fw authorization _
        (λ account. open_body r (h account) (counts account))

-- What a handler with no counter leaves.
pub uncounted :
    {p : Platform} {A : Type 0} (h : Exec p StatusCode A)
    → ((w : World p) → (h w).1.metrics ≡ w.metrics)
    → (w : World p) → (h w).1.metrics ≡ on_success (λ a m. m) (h w).0 w.metrics
uncounted h same w = elim (Result-cases (h w).0) [
  | inl (a, e) ↦ ground (arith, same w)
  | inr (c, e) ↦ ground (arith, same w)
]
