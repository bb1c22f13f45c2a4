-- ===== src/Result.antt =====
-- Errors as values: the status codes of the handlers, the failures of a service call, and results.
use realm_guard_server.Prelude.{◌≡◌, refl, ◌⊎◌, inl, inr, Option, none, some}

-- `StatusCode`: those that the handlers answer with.
pub data StatusCode : Type 0 where
  ok_200 created no_content : StatusCode
  bad_request unauthorized not_found conflict gone too_many_requests : StatusCode
  internal_server_error service_unavailable : StatusCode

-- What a call of Postgres, Redis or a codec may fail with (`anyhow::Error` in the source, which
-- the handlers never look into).
pub data Failure : Type 0 where
  unavailable : Failure
  unique_violation foreign_key_violation : Failure
  sequence_exhausted : Failure
  wrong_type negative_limit : Failure

pub data Result {ℓ} (E : Type 0) (A : Type ℓ) : Type ℓ where
  ok : A → Result E A
  err : E → Result E A

-- `Option::ok_or`
abbrev pub ok_or {ℓ} : {E : Type 0} {A : Type ℓ} → E → Option A → Result E A
ok_or e none = err e
ok_or e (some a) = ok a

-- `fn internal<E>(_error: E) -> StatusCode`
abbrev pub internal : Failure → StatusCode
internal _ = internal_server_error

infixl 5 ◌>>=◌
abbrev pub ◌>>=◌ {ℓ κ} :
    {E : Type 0} {A : Type ℓ} {B : Type κ} → Result E A → (A → Result E B) → Result E B
ok a >>= f = f a
err e >>= f = err e

pub Result-cases {ℓ} :
    {E : Type 0} {A : Type ℓ} (r : Result E A) → ((a : A) × (r ≡ ok a)) ⊎ ((e : E) × (r ≡ err e))
Result-cases (ok a) = inl (a, refl)
Result-cases (err e) = inr (e, refl)
