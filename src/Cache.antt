-- ===== src/Cache.antt =====
-- The Redis commands that the source sends, as the client library types them: a command's answer is
-- converted to the type that the caller asks for, and a value of another kind is an error.
use realm_guard_server.Prelude.{ℕ, ◌-◌, String, Option, none, some, ℤ, pos, negsuc}
use realm_guard_server.Platform.{Platform, Entry, live}
use realm_guard_server.Result.{Result, ok, err, Failure, wrong_type}
use realm_guard_server.World.{Exec, command}

-- `FromRedisValue for Option<T>`
abbrev pub converted :
    {V A : Type 0} → (V → Option A) → Option (Entry V) → Result Failure (Option A)
converted to none = ok none
converted to (some e) = elim (to e.value) [ none ↦ err wrong_type | some a ↦ ok (some a) ]

-- TTL: -2 of an absent key, -1 of a key that never expires
abbrev pub remaining : {V : Type 0} → ℕ → Option (Entry V) → ℤ
remaining now none = negsuc 1
remaining now (some e) = elim e.expires [ none ↦ negsuc 0 | some t ↦ pos (t - now) ]

-- INCR of a value that is no number is an error.
abbrev pub incremented : {S : Type 0} → S → Option S → Result Failure (Unit {0}) × S
incremented s none = (err wrong_type, s)
incremented s (some s') = (ok tt, s')

module _ {p : Platform} where
  unfoldable pub set_ex : String → p.redis.Value → ℕ → Exec p Failure (Unit {0})
  unfolding command
  set_ex key value seconds w = command (λ s. (ok tt, p.redis.set_ex s w.now key value seconds)) w

  unfoldable pub get :
      {A : Type 0} → (p.redis.Value → Option A) → String → Exec p Failure (Option A)
  unfolding command
  get to key w = command (λ s. (converted to (live w.now (p.redis.entry s key)), s)) w

  unfoldable pub get_del :
      {A : Type 0} → (p.redis.Value → Option A) → String → Exec p Failure (Option A)
  unfolding command
  get_del to key w =
      command (λ s. (converted to (live w.now (p.redis.entry s key)), p.redis.del s key)) w

  unfoldable pub del : String → Exec p Failure (Unit {0})
  unfolding command
  del key = command λ s. (ok tt, p.redis.del s key)

  unfoldable pub incr : String → Exec p Failure (Unit {0})
  unfolding command
  incr key w = command (λ s. incremented s (p.redis.incr s w.now key)) w

  unfoldable pub expire : String → ℕ → Exec p Failure (Unit {0})
  unfolding command
  expire key seconds w = command (λ s. (ok tt, p.redis.expire s w.now key seconds)) w

  unfoldable pub ttl : String → Exec p Failure ℤ
  unfolding command
  ttl key w = command (λ s. (ok (remaining w.now (live w.now (p.redis.entry s key))), s)) w
