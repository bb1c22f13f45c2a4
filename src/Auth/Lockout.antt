-- ===== src/Auth/Lockout.antt =====
-- The lock of src/rate_limit.rs in time: failed logins of a username, each some seconds after the
-- one before it, and what `locked_for` answers afterwards. The services answer.
use native.Mathlib.Nat.{add-zero}
use realm_guard_server.Prelude.{
  ℕ, ◌+◌, ◌-◌, ◌^◌, ◌≤◌, ◌<◌, ◌≡◌, refl, ap, ◌∙◌, String, ◌&&◌, Option, none, some, List, [], ◌∷◌,
  arith, ltb, leb, str_eq_refl, All, length, if◌then◌else◌,
}
use realm_guard_server.Platform.{Platform, Entry, live}
use realm_guard_server.Result.{ok}
use realm_guard_server.World.{World}
use realm_guard_server.Auth.RateLimit.{key, locked_for, record_failure, window_secs, max_failures}

-- Time passes.
abbrev pub tick : {p : Platform} → ℕ → World p → World p
tick d w = record w { now = w.now + d }

-- An entry lives until the second of its expiry.
live-of_lt :
    {A : Type 0} (e : Entry A) (t now : ℕ)
    → e.expires ≡ some t
    → now < t
    → live now (some e) ≡ some e
live-of_lt e t now h k = ground arith

module _ (p : Platform) (username : String) where
  -- Failed logins, each that many seconds after the one before.
  unfoldable pub failures : List ℕ → World p → World p
  failures [] w = w
  failures (d ∷ ds) w = failures ds (record_failure username (tick d w)).1

  abbrev counter : World p → Option (Entry p.redis.Value)
  counter w = p.redis.entry w.cache (key username)

  -- `n` failures are counted, the last of them now.
  record IsCounted (n : ℕ) (w : World p) : Type 0 where
    up : w.schedule ≡ []
    entry :
        counter w
        ≡ some (record { value = p.redis.of_number n; expires = some (w.now + window_secs) })

  -- What one failure leaves, given the store that INCR gives.
  record_failure_lem :
      (w : World p) (s : p.redis.Store)
      → w.schedule ≡ []
      → p.redis.incr w.cache w.now (key username) ≡ some s
      → ((record_failure username w).1.schedule ≡ [])
        × ((record_failure username w).1.now ≡ w.now)
        × ((record_failure username w).1.cache ≡ p.redis.expire s w.now (key username) window_secs)
  unfolding record_failure
  record_failure_lem w s up done = (ground arith, ground arith, ground arith)

  -- EXPIRE after an INCR that left `e`, alive.
  entry-expire_live :
      (s : p.redis.Store) (now : ℕ) (e : Entry p.redis.Value)
      → p.redis.entry s (key username) ≡ some e
      → live now (some e) ≡ some e
      → p.redis.entry (p.redis.expire s now (key username) window_secs) (key username)
        ≡ some (record { value = e.value; expires = some (now + window_secs) })
  entry-expire_live s now e h alive =
      rw
        (
          p.redis.entry-expire s now (key username) window_secs (key username),
          str_eq_refl (key username),
          h,
          alive,
        )
        refl

  module _ (w : World p) (up : w.schedule ≡ []) where
    counted :
        (s : p.redis.Store) (e : Entry p.redis.Value) (n : ℕ)
        → p.redis.incr w.cache w.now (key username) ≡ some s
        → p.redis.entry s (key username) ≡ some e
        → live w.now (some e) ≡ some e
        → e.value ≡ p.redis.of_number n
        → IsCounted n (record_failure username w).1
    counted s e n done h alive v =
        let (up', now', cache') = record_failure_lem w s up done in
        record { up = up'; entry = cc (cache', now', v, entry-expire_live s w.now e h alive) }

    first_failure : counter w ≡ none → IsCounted 1 (record_failure username w).1
    first_failure h =
        let (s, done, law) = p.redis.incr_absent w.cache w.now (key username) (ap (live w.now) h) in
        counted s (record { value = p.redis.of_number 1; expires = none }) 1 done
          (law (key username) ∙ rw (str_eq_refl (key username)) refl) refl refl

    next_failure :
        (n t : ℕ)
        → counter w ≡ some (record { value = p.redis.of_number n; expires = some t })
        → w.now < t
        → n + 1 < 2 ^ 63
        → IsCounted (n + 1) (record_failure username w).1
    next_failure n t h alive small =
        let e : Entry p.redis.Value = record { value = p.redis.of_number n; expires = some t } in
        let (s, done, law) =
          p.redis.incr_present w.cache w.now (key username) e n
            (ap (live w.now) h ∙ live-of_lt e t w.now refl alive) refl small in
        counted s (record { value = p.redis.of_number (n + 1); expires = some t }) (n + 1) done
          (law (key username) ∙ rw (str_eq_refl (key username)) refl)
          (live-of_lt _ t w.now refl alive) refl

  -- Failures that follow one another within the window all count.
  module _ (few : ℕ) (small : few < 2 ^ 62) where
    failures-IsCounted :
        (ds : List ℕ) (n : ℕ) (w : World p)
        → IsCounted n w
        → All (λ d. d < window_secs) ds
        → n + length ds ≤ few
        → IsCounted (n + length ds) (failures ds w)
    unfolding failures
    failures-IsCounted [] n w h k fits = rw add-zero h
    failures-IsCounted (d ∷ ds) n w h k fits =
        let step =
          next_failure (tick d w) h.up n (w.now + window_secs) h.entry (omega (arith, k.0))
            (omega (arith, small)) in
        let rest =
          failures-IsCounted ds (n + 1) (record_failure username (tick d w)).1 step k.1
            (omega (arith)) in
        let same : n + length (d ∷ ds) ≡ (n + 1) + length ds = omega arith in rw same rest

  -- What `locked_for` makes of a counter.
  locked_for-counted :
      (n t : ℕ) (w : World p)
      → w.schedule ≡ []
      → n < 2 ^ 64
      → counter w ≡ some (record { value = p.redis.of_number n; expires = some t })
      → (locked_for username w).0
        ≡ ok (if ltb w.now t && leb max_failures n then some (t - w.now) else none)
  unfolding locked_for
  locked_for-counted n t w up small h = ground (arith, p.redis.to_u64-of_number n small)

window_left :
    (n now t : ℕ)
    → (if ltb (now + t) (now + window_secs) && leb max_failures n
        then some (now + window_secs - (now + t))
        else none)
      ≡ (if ltb t window_secs && leb max_failures n then some (window_secs - t) else none)
window_left n now t = ground arith

-- After a first failure on a username with no failure counted, and further ones that each follow
-- within the window of 15 minutes, fewer than 2 ^ 61 of them, and with the services up, the
-- username is locked, `t` seconds after the last of them, exactly if they are ten or more and the
-- window has not passed; the answer is the rest of the window.
pub lockout :
    (p : Platform) (username : String) (w : World p) (delays : List ℕ) (t : ℕ)
    → w.schedule ≡ []
    → p.redis.entry w.cache (key username) ≡ none
    → All (λ d. d < window_secs) delays
    → length delays < 2 ^ 61
    → (locked_for username (tick t (failures p username (0 ∷ delays) w))).0
      ≡ ok (
          if ltb t window_secs && leb max_failures (1 + length delays)
          then some (window_secs - t)
          else none)
unfolding failures
lockout p username w delays t up fresh near few =
    let n = 1 + length delays in
    let u = failures p username (0 ∷ delays) w in
    let all =
      failures-IsCounted p username n (omega arith) delays 1 (record_failure username (tick 0 w)).1
        (first_failure p username (tick 0 w) up fresh) near (omega arith) in
    locked_for-counted p username n (u.now + window_secs) (tick t u) all.up (omega arith) all.entry
    ∙ ap ok (window_left n u.now t)
