-- ===== src/World.antt =====
-- The state that a handler runs in, and the monad of the handlers (src/state.rs and the calls of
-- Postgres and Redis). A handler runs at one instant. Every call of a service takes its outcome
-- from a schedule that the environment chose: served, refused before it had an effect, or served
-- with the answer lost, so that the caller sees an error though the effect took place.
pub mod Sample
use realm_guard_server.Prelude.{
  ℕ, suc, ◌≡◌, refl, ◌⊎◌, inl, inr, String, Bool, true, List, [], ◌∷◌, ℤ, if◌then◌else◌,
}
use realm_guard_server.Platform.{Platform, Bytes}
use realm_guard_server.Database.{Database}
use realm_guard_server.Metrics.{Metrics}
use realm_guard_server.Result.{Result, ok, err, Failure, unavailable}

pub data Outcome : Type 0 where
  served refused lost : Outcome

-- Refused, or carried out with its answer given or lost.
pub Outcome-cases : (o : Outcome) → (o ≡ refused) ⊎ ((o ≡ served) ⊎ (o ≡ lost))
Outcome-cases served = inr (inl refl)
Outcome-cases refused = inl refl
Outcome-cases lost = inr (inr refl)

abbrev pub first : List Outcome → Outcome
first [] = served
first (o ∷ _) = o

abbrev pub later : List Outcome → List Outcome
later [] = []
later (_ ∷ os) = os

-- `AppState`, with the services behind it and what the process draws and counts.
pub record World (p : Platform) : Type 0 where
  pub db : Database
  pub cache : p.redis.Store
  -- the shared Redis connection has been opened (the `OnceCell`)
  pub connected : Bool
  pub opaque_setup : Bytes
  pub now : ℕ
  pub draws : ℕ
  pub schedule : List Outcome
  pub metrics : Metrics
  -- messages handed to Redis PUBLISH: channel and seq
  pub published : List (String × ℤ)

abbrev pub Exec : Platform → Type 0 → Type 0 → Type 0
Exec p E A = World p → Result E A × World p

module _ {p : Platform} {E A : Type 0} where
  abbrev pub pure : A → Exec p E A
  pure a w = (ok a, w)

  abbrev pub fail : E → Exec p E A
  fail e w = (err e, w)

  abbrev pub lift : Result E A → Exec p E A
  lift r w = (r, w)

  abbrev pub gets : (World p → A) → Exec p E A
  gets f w = (ok (f w), w)

module _ {p : Platform} {E A B : Type 0} where
  abbrev pub continue : Result E A → (A → Exec p E B) → Exec p E B
  continue (ok a) f w = f a w
  continue (err e) f w = (err e, w)

  infixl 5 ◌>>=◌ ◌>>◌
  abbrev pub ◌>>=◌ : Exec p E A → (A → Exec p E B) → Exec p E B
  ◌>>=◌ m f w = let (r, w') = m w in continue r f w'

  abbrev pub ◌>>◌ : Exec p E A → Exec p E B → Exec p E B
  m >> k = m >>= λ _. k

-- `Result::map_err`
abbrev pub map_error : {E F A : Type 0} → (E → F) → Result E A → Result F A
map_error f (ok a) = ok a
map_error f (err e) = err (f e)

abbrev pub map_err : {p : Platform} {E F A : Type 0} → (E → F) → Exec p E A → Exec p F A
map_err f m w = let (r, w') = m w in (map_error f r, w')

-- One call of a service.
abbrev pub answer : {S A : Type 0} → Outcome → (S → Result Failure A × S) → S → Result Failure A × S
answer served f s = f s
answer refused f s = (err unavailable, s)
answer lost f s = (err unavailable, (f s).1)

module _ {p : Platform} {A : Type 0} where
  -- one statement
  unfoldable pub postgres : (Database → Result Failure A × Database) → Exec p Failure A
  postgres f w =
      let (r, db') = answer (first w.schedule) f w.db in
      (r, record w { db = db'; schedule = later w.schedule })

  -- one command
  unfoldable pub command : (p.redis.Store → Result Failure A × p.redis.Store) → Exec p Failure A
  command f w =
      let (r, cache') = answer (first w.schedule) f w.cache in
      (r, record w { cache = cache'; schedule = later w.schedule })

module _ {p : Platform} {E : Type 0} where
  abbrev pub count : (Metrics → Metrics) → Exec p E (Unit {0})
  count f w = (ok tt, record w { metrics = f w.metrics })

  abbrev pub draw : Exec p E ℕ
  draw w = (ok w.draws, record w { draws = suc w.draws })

-- `AppState::redis`: opened at the first demand, then shared.
unfoldable pub redis : {p : Platform} → Exec p Failure (Unit {0})
redis w = if w.connected then (ok tt, w) else elim (first w.schedule) [
  | served ↦ (ok tt, record w { connected = true; schedule = later w.schedule })
  | _ ↦ (err unavailable, record w { schedule = later w.schedule })
]
