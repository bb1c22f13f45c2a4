-- ===== src/Platform/Sample.antt =====
-- A concrete platform, at which the interface's laws hold: Redis as a function from keys to
-- entries, unary texts for base64 and uuids, and a toy OPAQUE whose states are password files.
-- It serves the tests only.
use Prim.Native.Char.{code}
use mathlib.Core.Option
use native.Mathlib.Nat.{add-zero}
use realm_guard_server.Prelude.{
  ℕ, zero, suc, ◌+◌, ◌<◌, ◌^◌, ◌≡◌, refl, sym, ap, ◌∙◌, String, Bool, false, ◌&&◌, Option, none,
  some, Option-cases, inl, inr, [], ◌∷◌, arith, ◌==◌, ltb, str_eq, str_eq_iff, bytes_eq, length,
  if◌then◌else◌,
}
use realm_guard_server.Platform.{Bytes, Entry, live, Redis, LoginFlow, Platform}

pub data Value : Type 0 where
  blob : Bytes → Value
  text : String → Value
  number : ℕ → Value

abbrev to_bytes : Value → Option Bytes
to_bytes (blob b) = some b
to_bytes _ = none

abbrev to_text : Value → Option String
to_text (text s) = some s
to_text _ = none

abbrev to_u64 : Value → Option ℕ
to_u64 (number n) = some n
to_u64 _ = none

abbrev pub Store : Type 0
Store = String → Option (Entry Value)

abbrev pub update : Store → String → Option (Entry Value) → Store
update s k e j = if str_eq k j then e else s j

abbrev pub bump : Store → String → Option (Entry Value) → Option Store
bump s k none = some (update s k (some (record { value = number 1; expires = none })))
bump s k (some e) = elim e.value [
  | number n ↦ some (update s k (some (record { value = number (n + 1); expires = e.expires })))
  | _ ↦ none
]

-- An absent key stays as it is.
abbrev pub renew : Store → ℕ → String → Option (Entry Value) → Store
renew s until k none = s
renew s until k (some e) = update s k (some (record { value = e.value; expires = some until }))

-- What a store, if there is one, holds under a key.
abbrev at : String → Option Store → Option (Entry Value)
at j none = none
at j (some f) = f j

bump_ne :
    (s s' : Store) (k j : String) (e : Entry Value)
    → bump s k (some e) ≡ some s'
    → str_eq k j ≡ false
    → s' j ≡ s j
bump_ne s s' k j e h ne = go e.value h
  where
    go :
        (v : Value)
        → (elim v as (λ _. Option Store) [
          | number n ↦
              some (update s k (some (record { value = number (n + 1); expires = e.expires })))
          | _ ↦ none
        ])
          ≡ some s'
        → s' j ≡ s j
    go (number n) q = sym (ap (at j) q) ∙ rw ne refl
    go (blob b) q = cc
    go (text t) q = cc

pub incr_absent_lem :
    (s : Store) (now : ℕ) (k : String)
    → live now (s k) ≡ none
    → (s' : Store) × (bump s k (live now (s k)) ≡ some s')
      × ((j : String)
          → s' j ≡ (if str_eq k j then some (record { value = number 1; expires = none }) else s j))
incr_absent_lem s now k h =
    (update s k (some (record { value = number 1; expires = none })), rw h refl, λ j. refl)

pub incr_present_lem :
    (s : Store) (now : ℕ) (k : String) (e : Entry Value) (n : ℕ)
    → live now (s k) ≡ some e
    → e.value ≡ number n
    → n + 1 < 2 ^ 63
    → (s' : Store) × (bump s k (live now (s k)) ≡ some s')
      × ((j : String)
          → s' j ≡ (
              if str_eq k j
              then some (record { value = number (n + 1); expires = e.expires })
              else s j))
incr_present_lem s now k e n h v _ = (
  update s k (some (record { value = number (n + 1); expires = e.expires })),
  rw (h, v) refl,
  λ j. refl,
)

pub incr_ne_lem :
    (s s' : Store) (now : ℕ) (k j : String)
    → bump s k (live now (s k)) ≡ some s'
    → str_eq k j ≡ false
    → s' j ≡ s j
incr_ne_lem s s' now k j h e = elim (Option-cases (live now (s k))) [
  | inl n ↦ sym (ap (at j) (rw n at h)) ∙ rw e refl
  | inr (a, l) ↦ bump_ne s s' k j a (rw l at h) e
]

pub expire_lem :
    (s : Store) (now : ℕ) (k : String) (ttl : ℕ) (j : String)
    → renew s (now + ttl) k (live now (s k)) j ≡ (
        if str_eq k j
        then elim (live now (s k)) [
          | none ↦ s k
          | some e ↦ some (record { value = e.value; expires = some (now + ttl) })
        ]
        else s j)
expire_lem s now k ttl j = elim (Option-cases (live now (s k))) [
  | inl e ↦ rw e (ground (arith, str_eq_iff k j))
  | inr (a, e) ↦ rw e refl
]

abbrev pub sample_redis : Redis
sample_redis = record {
  Store = Store;
  Value = Value;
  entry = λ s k. s k;
  of_bytes = blob;
  to_bytes = to_bytes;
  of_text = text;
  to_text = to_text;
  of_number = number;
  to_u64 = to_u64;
  set_ex = λ s now k v ttl. update s k (some (record { value = v; expires = some (now + ttl) }));
  del = λ s k. update s k none;
  incr = λ s now k. bump s k (live now (s k));
  expire = λ s now k ttl. renew s (now + ttl) k (live now (s k));
  to_bytes-of_bytes = λ b. refl;
  to_text-of_text = λ s. refl;
  to_u64-of_number = λ n _. refl;
  entry-set_ex = λ s now k v ttl j. refl;
  entry-del = λ s k j. refl;
  incr_absent = incr_absent_lem;
  incr_present = incr_present_lem;
  entry-incr_ne = incr_ne_lem;
  entry-expire = expire_lem;
}

-- A number as that many `a` in front of a text.
pub repeat : ℕ → String → String
repeat zero s = s
repeat (suc n) s = String.◌∷◌ "a" (repeat n s)

pub encode64 : Bytes → String
encode64 [] = ""
encode64 (n ∷ b) = repeat n (String.◌∷◌ "b" (encode64 b))

pub decode_from : ℕ → String → Option Bytes
decode_from n String.[] = if n == 0 then some [] else none
decode_from n (String.◌∷◌ c s) =
    let ended = decode_from 0 s in
    let longer = decode_from (n + 1) s in
    if code c == b'b'
    then Option.map (λ b. n ∷ b) ended
    else if code c == b'a'
    then longer
    else none

decode_from-repeat : (m n : ℕ) (s : String) → decode_from m (repeat n s) ≡ decode_from (m + n) s
unfolding decode_from repeat
decode_from-repeat m zero s = rw add-zero
decode_from-repeat m (suc n) s =
    decode_from-repeat (m + 1) n s ∙ ap (λ k. decode_from k s) (omega arith)

pub decode64-encode64 : (b : Bytes) → decode_from 0 (encode64 b) ≡ some b
unfolding encode64 decode_from
decode64-encode64 [] = refl
decode64-encode64 (n ∷ b) =
    decode_from-repeat 0 n _
    ∙ ap (Option.map (λ b. (0 + n) ∷ b)) (decode64-encode64 b)
    ∙ ap (λ k. some (k ∷ b)) (omega arith)

pub count_text : String → Option ℕ
count_text String.[] = some 0
count_text (String.◌∷◌ c s) = Option.map suc (count_text s)

pub count_text-repeat : (n : ℕ) → count_text (repeat n "") ≡ some n
unfolding count_text repeat
count_text-repeat zero = refl
count_text-repeat (suc n) = ap (Option.map suc) (count_text-repeat n)

-- postcard, for two usernames
abbrev of_account : Option ℕ → ℕ
of_account none = 0
of_account (some n) = suc n

abbrev to_account : ℕ → Option ℕ
to_account zero = none
to_account (suc n) = some n

pub encode_flow : LoginFlow → Option Bytes
encode_flow f =
    if str_eq f.username "ann"
    then some (0 ∷ of_account f.account_id ∷ f.state)
    else if str_eq f.username "bob"
    then some (1 ∷ of_account f.account_id ∷ f.state)
    else none

pub decode_flow : Bytes → Option LoginFlow
decode_flow (zero ∷ a ∷ state) =
    some (record { state = state; account_id = to_account a; username = "ann" })
decode_flow (suc _ ∷ a ∷ state) =
    some (record { state = state; account_id = to_account a; username = "bob" })
decode_flow _ = none

to_account-of_account : (a : Option ℕ) → to_account (of_account a) ≡ a
to_account-of_account none = refl
to_account-of_account (some n) = refl

pub decode_flow-encode_flow :
    (f : LoginFlow) (b : Bytes) → encode_flow f ≡ some b → decode_flow b ≡ some f
unfolding encode_flow decode_flow
decode_flow-encode_flow f b h = ground (
  arith,
  str_eq_iff f.username "ann",
  str_eq_iff f.username "bob",
  to_account-of_account f.account_id,
)

abbrev file_or_empty : Option Bytes → Bytes
file_or_empty none = []
file_or_empty (some f) = f

-- `server_login_finish` accepts the password file itself, and an unknown user never passes.
toy_login : Bytes → Bytes → Bool
toy_login state finalization = ltb 0 (length state) && bytes_eq state finalization

unfoldable pub sample : Platform
unfolding encode64 decode_from repeat count_text encode_flow decode_flow toy_login bytes_eq
sample = record {
  redis = sample_redis;
  encode64 = encode64;
  decode64 = decode_from 0;
  decode64-encode64 = decode64-encode64;
  uuid_text = λ u. repeat u "";
  uuid_simple = λ u. repeat u "";
  parse_uuid = count_text;
  parse_uuid-uuid_text = count_text-repeat;
  new_v4 = λ n. n + 1;
  getrandom = λ n len. some (n ∷ len ∷ []);
  encode_flow = encode_flow;
  decode_flow = decode_flow;
  decode_flow-encode_flow = decode_flow-encode_flow;
  server_register_start = λ setup request id. some request;
  server_register_finish = λ upload. some upload;
  server_login_start = λ seed setup file request id. some (file_or_empty file, request);
  server_login_finish = toy_login;
  device_verify = λ pk nonce signature. bytes_eq nonce signature;
}
