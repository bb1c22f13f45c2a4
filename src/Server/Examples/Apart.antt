-- ===== src/Server/Examples/Apart.antt =====
-- What an account has while another is at work, on the sample platform.
use realm_guard_server.Prelude.{◌≡◌, ◌+◌, refl, some, none, [], ◌∷◌, arith}
use realm_guard_server.Platform.Sample.{sample}
use realm_guard_server.Database.{DeviceRow}
use realm_guard_server.Result.{ok, no_content}
use realm_guard_server.World.{World}
use realm_guard_server.World.Sample.{serving, tables}
use realm_guard_server.Auth.Sessions.{create_session, session_key}
use realm_guard_server.Auth.Api.{from_request_parts}
use realm_guard_server.Prelude.Text.{strip_prefix}
use realm_guard_server.Relay.Vault
use realm_guard_server.Relay.Vault.{StoreReq, upsert_row}
use realm_guard_server.Devices.Ownership.{HasUniqueKeys}
use realm_guard_server.Server.App.{respond}
use realm_guard_server.Server.Apart.{HasOwn, Absence, begun, asked, passed, undisturbed}
use realm_guard_server.Devices.Api as Devices
use realm_guard_server.Sync.Api
use realm_guard_server.Sync.Api.{PullQuery}
use realm_guard_server.Server.Reads.{same_answers}
use realm_guard_server.Server.Lasting.{stored_lasts}
use realm_guard_server.Server.Examples.{framework, pushing}

abbrev laptop : DeviceRow
laptop = record {
  id = 4;
  account_id = 2;
  device_pk = 9 ∷ [];
  name = "laptop";
  created_at = 11;
  revoked_at = none;
}

-- The first account has a session, and the second a device.
abbrev entered : World sample
entered = (create_session 1 (serving [] (record tables { devices = laptop ∷ [] }))).1

entered-HasUniqueKeys : HasUniqueKeys entered.db.devices
unfolding create_session serving sample
entered-HasUniqueKeys = (refl, tt)

abbrev key_and_salt : StoreReq
key_and_salt = record { wrapped_key = "aab"; salt = "ab" }

-- The second account stores its vault key.
abbrev stored : World sample
stored = (Vault.store 2 key_and_salt entered).1

store_test : (Vault.store 2 key_and_salt entered).0 ≡ ok no_content
unfolding create_session serving sample upsert_row Vault.decode Vault.store
store_test = refl

decode_aab : sample.decode64 "aab" ≡ some (2 ∷ [])
unfolding sample
decode_aab = refl

decode_ab : sample.decode64 "ab" ≡ some (1 ∷ [])
unfolding sample
decode_ab = refl

-- The first account pushes, and a day passes.
abbrev next_day : World sample → World sample
next_day w = record (respond framework pushing w).1 {
  now = (respond framework pushing w).1.now + 86400;
  schedule = [];
}

entered_first : (from_request_parts pushing.authorization entered).0 ≡ ok 1
unfolding create_session serving sample from_request_parts strip_prefix session_key
entered_first = refl

stored_first : (from_request_parts pushing.authorization stored).0 ≡ ok 1
unfolding create_session serving sample from_request_parts strip_prefix session_key upsert_row
    Vault.decode Vault.store
stored_first = refl

pushed :
    (w : World sample)
    → (from_request_parts pushing.authorization w).0 ≡ ok 1
    → Absence framework 2 w (next_day w)
pushed w first = passed 86400 [] (asked pushing begun (λ e. ground (arith, first)))

undisturbed_example :
    HasUniqueKeys (next_day entered).db.devices × HasOwn 2 (next_day entered).db entered.db
undisturbed_example =
    undisturbed framework 2 entered (next_day entered) entered-HasUniqueKeys
      (pushed entered entered_first)

stored_lasts_example :
    (Vault.fetch 2 (next_day stored)).0
    ≡ ok (record { wrapped_key = sample.encode64 (2 ∷ []); salt = sample.encode64 (1 ∷ []) })
stored_lasts_example =
    stored_lasts framework 2 key_and_salt entered (next_day stored) (2 ∷ []) (1 ∷ [])
      entered-HasUniqueKeys decode_aab decode_ab store_test (pushed stored stored_first) refl

entered-up : entered.schedule ≡ []
unfolding create_session serving sample
entered-up = refl

abbrev from_start : PullQuery
from_start = record { since = none; limit = none }

same_answers_example :
    ((Api.pull 2 from_start (next_day entered)).0 ≡ (Api.pull 2 from_start entered).0)
    × ((Api.get_snapshot 2 (next_day entered)).0 ≡ (Api.get_snapshot 2 entered).0)
    × ((Devices.list 2 (next_day entered)).0 ≡ (Devices.list 2 entered).0)
    × ((Vault.fetch 2 (next_day entered)).0 ≡ (Vault.fetch 2 entered).0)
same_answers_example =
    same_answers framework 2 entered (next_day entered) from_start entered-HasUniqueKeys
      (pushed entered entered_first) entered-up refl
