-- ===== src/Platform.antt =====
-- What the server takes from outside its repository: Redis and its client, base64, the uuid crate,
-- the operating system's randomness, and `realm-guard-core` (OPAQUE, Ed25519, the postcard codec).
-- Each is an interface: operations, and the documented laws that the proofs may use.
pub mod Sample
pub use realm_guard_server.Prelude.{Bytes}
use realm_guard_server.Prelude.{
  ℕ, ◌+◌, ◌<◌, ◌^◌, String, ◌≡◌, Bool, false, List, Option, none, some, leb, str_eq, if◌then◌else◌,
}

-- A uuid as its 128-bit number.
abbrev pub Uuid : Type 0
Uuid = ℕ

-- What Redis holds under a key: a value, and the second at which it expires, if any.
pub record Entry (A : Type 0) : Type 0 where
  pub value : A
  pub expires : Option ℕ

-- An entry as a command of time `now` sees it: an expired key is absent.
abbrev pub live : {A : Type 0} → ℕ → Option (Entry A) → Option (Entry A)
live now none = none
live now (some e) = elim e.expires [ none ↦ some e | some t ↦ if leb t now then none else some e ]

pub record Redis : Type 1 where
  pub Store : Type 0
  pub Value : Type 0
  pub entry : Store → String → Option (Entry Value)
  -- the client's conversions of arguments and answers
  pub of_bytes : Bytes → Value
  pub to_bytes : Value → Option Bytes
  pub of_text : String → Value
  pub to_text : Value → Option String
  pub of_number : ℕ → Value
  pub to_u64 : Value → Option ℕ
  -- the commands that write, with the server's clock as the second argument where it matters
  pub set_ex : Store → ℕ → String → Value → ℕ → Store
  pub del : Store → String → Store
  pub incr : Store → ℕ → String → Option Store
  pub expire : Store → ℕ → String → ℕ → Store
  pub to_bytes-of_bytes : (b : Bytes) → to_bytes (of_bytes b) ≡ some b
  pub to_text-of_text : (s : String) → to_text (of_text s) ≡ some s
  pub to_u64-of_number : (n : ℕ) → n < 2 ^ 64 → to_u64 (of_number n) ≡ some n
  -- SETEX replaces the value and starts its life time.
  pub entry-set_ex :
      (s : Store) (now : ℕ) (k : String) (v : Value) (ttl : ℕ) (j : String)
      → entry (set_ex s now k v ttl) j ≡ (
          if str_eq k j then some (record { value = v; expires = some (now + ttl) }) else entry s j)
  -- DEL
  pub entry-del :
      (s : Store) (k j : String) → entry (del s k) j ≡ (if str_eq k j then none else entry s j)
  -- INCR of an absent or expired key starts at 1, with no expiry.
  pub incr_absent :
      (s : Store) (now : ℕ) (k : String)
      → live now (entry s k) ≡ none
      → (s' : Store) × (incr s now k ≡ some s')
        × ((j : String)
            → entry s' j ≡ (
                if str_eq k j
                then some (record { value = of_number 1; expires = none })
                else entry s j))
  -- INCR of a counter adds one and keeps the expiry.
  pub incr_present :
      (s : Store) (now : ℕ) (k : String) (e : Entry Value) (n : ℕ)
      → live now (entry s k) ≡ some e
      → e.value ≡ of_number n
      → n + 1 < 2 ^ 63
      → (s' : Store) × (incr s now k ≡ some s')
        × ((j : String)
            → entry s' j ≡ (
                if str_eq k j
                then some (record { value = of_number (n + 1); expires = e.expires })
                else entry s j))
  -- INCR of one key leaves the others.
  pub entry-incr_ne :
      (s s' : Store) (now : ℕ) (k j : String)
      → incr s now k ≡ some s'
      → str_eq k j ≡ false
      → entry s' j ≡ entry s j
  -- EXPIRE of a live key replaces its expiry; of an absent key it does nothing.
  pub entry-expire :
      (s : Store) (now : ℕ) (k : String) (ttl : ℕ) (j : String)
      → entry (expire s now k ttl) j ≡ (
          if str_eq k j
          then elim (live now (entry s k)) [
            | none ↦ entry s k
            | some e ↦ some (record { value = e.value; expires = some (now + ttl) })
          ]
          else entry s j)

-- The state that `login/start` leaves for `login/finish` (`LoginFlow` of src/auth_api.rs).
pub record LoginFlow : Type 0 where
  pub state : Bytes
  pub account_id : Option Uuid
  pub username : String

pub record Platform : Type 1 where
  pub redis : Redis
  -- base64, standard alphabet
  pub encode64 : Bytes → String
  pub decode64 : String → Option Bytes
  pub decode64-encode64 : (b : Bytes) → decode64 (encode64 b) ≡ some b
  -- uuid: `to_string`, `simple().to_string()`, `parse_str`, and `new_v4` at the n-th draw
  pub uuid_text : Uuid → String
  pub uuid_simple : Uuid → String
  pub parse_uuid : String → Option Uuid
  pub parse_uuid-uuid_text : (u : Uuid) → parse_uuid (uuid_text u) ≡ some u
  pub new_v4 : ℕ → Uuid
  -- getrandom at the n-th draw, for a buffer of a given length
  pub getrandom : ℕ → ℕ → Option Bytes
  -- postcard
  pub encode_flow : LoginFlow → Option Bytes
  pub decode_flow : Bytes → Option LoginFlow
  pub decode_flow-encode_flow :
      (f : LoginFlow) (b : Bytes) → encode_flow f ≡ some b → decode_flow b ≡ some f
  -- OPAQUE, server side; `server_login_start` draws its own randomness
  pub server_register_start : Bytes → Bytes → Bytes → Option Bytes
  pub server_register_finish : Bytes → Option Bytes
  pub server_login_start : ℕ → Bytes → Option Bytes → Bytes → Bytes → Option (Bytes × Bytes)
  pub server_login_finish : Bytes → Bytes → Bool
  -- Ed25519: public key, message, signature
  pub device_verify : Bytes → Bytes → Bytes → Bool
