-- ===== src/Server/Sessions.antt =====
-- Theorems on a session of src/sessions.rs in the life of the whole application of src/lib.rs.
use Prim.Native.String
use realm_guard_server.Prelude.{
  ℕ, String, ◌≡◌, ◌<◌, refl, ap, sym, ◌∙◌, inl, inr, Bool-cases, some, List, [], ◌+◌, arith, ltb,
  str_eq, str_eq_iff, str_eq_refl, if◌then◌else◌,
}
use realm_guard_server.Prelude.Text.{strip_prefix}
use realm_guard_server.Platform.{Platform, Uuid}
use realm_guard_server.Result.{ok, err, unauthorized}
use realm_guard_server.World.{World, Outcome}
use realm_guard_server.Auth.Sessions.{session_key, session_ttl_secs, create_session}
use realm_guard_server.Auth.Tokens.{strip_prefix-append}
use realm_guard_server.Auth.Api.{from_request_parts}
use realm_guard_server.Server.App.{Request, Framework, respond}
use realm_guard_server.Server.Holding.{IsFresh}
use realm_guard_server.Server.Held.{IsFresh-HasKept, respond-HasKept}

-- The application is asked something; or time passes, and the services change what they are going to
-- answer.
pub data Turn {p : Platform} (fw : Framework) (w : World p) : World p → Type 0 where
  asked : (req : Request) → Turn fw w (respond fw req w).1
  passed : (t : ℕ) (os : List Outcome) → Turn fw w (record w { now = w.now + t; schedule = os })

pub data Life {p : Platform} (fw : Framework) (w : World p) : World p → Type 0 where
  born : Life fw w w
  after : {u v : World p} → Life fw w u → Turn fw u v → Life fw w v

-- No two draws give the same identifier.
abbrev pub AreUnique : Platform → Type 0
AreUnique p = (m n : ℕ) → p.uuid_simple (p.new_v4 m) ≡ p.uuid_simple (p.new_v4 n) → m ≡ n

session_key-injective : (s t : String) → session_key s ≡ session_key t → some s ≡ some t
unfolding session_key
session_key-injective s t h =
    sym (strip_prefix-append "session:" s)
    ∙ ap (strip_prefix "session:") h
    ∙ strip_prefix-append "session:" t

-- The tokens of later draws are others.
drawn-IsFresh :
    (p : Platform) (m : ℕ) (w : World p)
    → AreUnique p
    → m < w.draws
    → IsFresh p (p.uuid_simple (p.new_v4 m)) w
drawn-IsFresh p m w unique before n le =
    let token = λ (k : ℕ). p.uuid_simple (p.new_v4 k) in
    elim (Bool-cases (str_eq (session_key (token n)) (session_key (token m)))) [
      | inr other ↦ other
      | inl same ↦
          let e = session_key-injective (token n) (token m) ((str_eq_iff _ _).0 same) in
          let k : n ≡ m = unique n m (ground (arith, e)) in absurd (omega arith)
    ]

module _ {p : Platform} (fw : Framework) (token : String) where
  -- What a session keeps through the life of the application.
  record IsLasting (w v : World p) : Type 0 where
    entry : p.redis.entry v.cache (session_key token) ≡ p.redis.entry w.cache (session_key token)
    fresh : IsFresh p token v

  Life-IsLasting : {w v : World p} → Life fw w v → IsFresh p token w → IsLasting w v
  Life-IsLasting born h = record { entry = refl; fresh = h }
  Life-IsLasting (after {u} l (asked req)) h =
      let before = Life-IsLasting l h in
      let kept = respond-HasKept p token fw req u before.fresh in
      record {
        entry = kept.0 ∙ before.entry;
        fresh = IsFresh-HasKept p token u (respond fw req u).1 before.fresh kept;
      }
  Life-IsLasting (after {u} l (passed t os)) h =
      let before = Life-IsLasting l h in record { entry = before.entry; fresh = before.fresh }

module _ {p : Platform} (account : Uuid) (w : World p) where
  abbrev IsStored : String → World p → Type 0
  IsStored token v =
      p.redis.entry v.cache (session_key token)
      ≡ some (record {
        value = p.redis.of_text (p.uuid_text account);
        expires = some (w.now + session_ttl_secs);
      })

  created_session :
      (token : String)
      → (create_session account w).0 ≡ ok token
      → (token ≡ p.uuid_simple (p.new_v4 w.draws))
        × (w.draws < (create_session account w).1.draws)
        × IsStored token (create_session account w).1
  unfolding create_session
  created_session token h = (
    ground arith,
    ground arith,
    ground (
      arith,
      str_eq_refl (session_key token),
      p.redis.entry-set_ex w.cache w.now (session_key (p.uuid_simple (p.new_v4 w.draws)))
          (p.redis.of_text (p.uuid_text account)) session_ttl_secs (session_key token),
    ),
  )

  vouched :
      (token : String) (v : World p)
      → v.schedule ≡ []
      → IsStored token v
      → (from_request_parts (some (String.◌++◌ "Bearer " token)) v).0
        ≡ (if ltb v.now (w.now + session_ttl_secs) then ok account else err unauthorized)
  unfolding from_request_parts
  vouched token v up h = ground (
    arith,
    strip_prefix-append "Bearer " token,
    p.redis.to_text-of_text (p.uuid_text account),
    p.parse_uuid-uuid_text account,
  )

-- A session lives exactly for its seven days, whatever is asked of the server meanwhile. Where no
-- two draws give the same identifier: once a session was created with an answer, after any requests
-- by anyone to any path, however the services answered them, and after any time, the extractor
-- finds its account under the token, the services being up again, up to the second at which the
-- seven days are over, and from then on refuses it. No request ends a session earlier or prolongs it.
pub session_lasts :
    {p : Platform} (fw : Framework) (account : Uuid) (w v : World p) (token : String)
    → AreUnique p
    → (create_session account w).0 ≡ ok token
    → Life fw (create_session account w).1 v
    → v.schedule ≡ []
    → (from_request_parts (some (String.◌++◌ "Bearer " token)) v).0
      ≡ (if ltb v.now (w.now + session_ttl_secs) then ok account else err unauthorized)
session_lasts {p} fw account w v token unique made life up =
    let (named, drawn, kept) = created_session account w token made in
    let u = (create_session account w).1 in
    let fresh : IsFresh p token u = rw named (drawn-IsFresh p w.draws u unique drawn) in
    vouched account w token v up ((Life-IsLasting fw token life fresh).entry ∙ kept)
