-- ===== src/Auth/Keys.antt =====
-- The key spaces of Redis: the prefixes of src/sessions.rs, src/rate_limit.rs,
-- src/device_auth_api.rs.
use Prim.Native.Char.{Char, code}
use Prim.Native.String
use text.Mathlib.TextLemmas.{head-eq_of_cons-eq, cons-append}
use realm_guard_server.Prelude.{
  String, ◌≡◌, ap, ◌≢◌, false, arith, str_eq, str_eq_iff, Bool-cases, inl, inr,
}
use realm_guard_server.Platform.{Platform, Bytes}
use realm_guard_server.Auth.Sessions.{login_key, session_key}
use realm_guard_server.Auth.RateLimit.{key}
use realm_guard_server.Devices.AuthApi.{challenge_key}
use realm_guard_server.Relay.Pairing.{redis_key}
use realm_guard_server.Result.{ok}

-- Texts with different first characters are different.
str_eq-of_heads :
    (c d : Char) (s t : String) → code c ≢ code d → str_eq (String.◌∷◌ c s) (String.◌∷◌ d t) ≡ false
str_eq-of_heads c d s t h = elim (Bool-cases (str_eq (String.◌∷◌ c s) (String.◌∷◌ d t))) [
  | inl e ↦ absurd (h (ap code (head-eq_of_cons-eq ((str_eq_iff _ _).0 e))))
  | inr e ↦ e
]

str_eq-of_prefixes :
    (c d : Char) (a b s t : String)
    → code c ≢ code d
    → str_eq (String.◌++◌ (String.◌∷◌ c a) s) (String.◌++◌ (String.◌∷◌ d b) t) ≡ false
str_eq-of_prefixes c d a b s t h =
    rw (cons-append c a s, cons-append d b t)
      (str_eq-of_heads c d (String.◌++◌ a s) (String.◌++◌ b t) h)

pub session-ne-login : (t f : String) → str_eq (session_key t) (login_key f) ≡ false
unfolding login_key session_key
session-ne-login t f = str_eq-of_prefixes "s" "l" "ession:" "ogin:" t f (omega arith)

pub counter-ne-login : (u f : String) → str_eq (key u) (login_key f) ≡ false
unfolding login_key key
counter-ne-login u f = str_eq-of_prefixes "r" "l" "l:login:" "ogin:" u f (omega arith)

pub session-ne-counter : (t u : String) → str_eq (session_key t) (key u) ≡ false
unfolding session_key key
session-ne-counter t u = str_eq-of_prefixes "s" "r" "ession:" "l:login:" t u (omega arith)

pub session-ne-challenge :
    (t : String) (p : Platform) (pk : Bytes) → str_eq (session_key t) (challenge_key p pk) ≡ false
unfolding session_key challenge_key
session-ne-challenge t p pk =
    str_eq-of_prefixes "s" "d" "ession:" "evauth:" t (p.encode64 pk) (omega arith)

pub login-ne-session : (f t : String) → str_eq (login_key f) (session_key t) ≡ false
unfolding login_key session_key
login-ne-session f t = str_eq-of_prefixes "l" "s" "ogin:" "ession:" f t (omega arith)

pub counter-ne-session : (u t : String) → str_eq (key u) (session_key t) ≡ false
unfolding session_key key
counter-ne-session u t = str_eq-of_prefixes "r" "s" "l:login:" "ession:" u t (omega arith)

pub challenge-ne-session :
    (p : Platform) (pk : Bytes) (t : String) → str_eq (challenge_key p pk) (session_key t) ≡ false
unfolding session_key challenge_key
challenge-ne-session p pk t =
    str_eq-of_prefixes "d" "s" "evauth:" "ession:" (p.encode64 pk) t (omega arith)

pub pairing-ne-session : (id k t : String) → redis_key id ≡ ok k → str_eq k (session_key t) ≡ false
unfolding session_key redis_key
pairing-ne-session id k t h =
    let e : k ≡ String.◌++◌ "pairing:" id = ground arith in
    rw e (str_eq-of_prefixes "p" "s" "airing:" "ession:" id t (omega arith))
