-- ===== src/Relay/Examples.antt =====
-- Runs of the vault and the pairing on the sample platform, and the theorems at such runs.
use realm_guard_server.Prelude.{◌≡◌, refl, true, some, [], ◌∷◌}
use realm_guard_server.Platform.Sample.{sample}
use realm_guard_server.Result.{ok, err, no_content, bad_request, not_found}
use realm_guard_server.World.{World}
use realm_guard_server.World.Sample.{serving, tables}
use realm_guard_server.Auth.Lockout.{tick}
use realm_guard_server.Relay.Vault
use realm_guard_server.Relay.Vault.{StoreReq, upsert_row}
use realm_guard_server.Relay.Pairing
use realm_guard_server.Relay.Pairing.{DepositReq, redis_key}
use realm_guard_server.Relay.Custody.{stored_fetched, deposit_lifetime, fetched_once}

-- Opens the two services.
opened : Unit {0}
unfolding sample serving upsert_row Vault.decode Vault.store Vault.fetch redis_key Pairing.deposit
    Pairing.fetch
opened = tt

abbrev calm : World sample
calm = serving [] tables

calm-connected : calm.connected ≡ true
unfolding serving
calm-connected = refl

calm-up : calm.schedule ≡ []
unfolding serving
calm-up = refl

abbrev key_and_salt : StoreReq
key_and_salt = record { wrapped_key = "aab"; salt = "ab" }

abbrev kept : World sample
kept = (Vault.store 1 key_and_salt calm).1

store_test : (Vault.store 1 key_and_salt calm).0 ≡ ok no_content
unfolding opened
store_test = refl

kept-up : kept.schedule ≡ []
unfolding opened
kept-up = refl

decode_aab : sample.decode64 "aab" ≡ some (2 ∷ [])
unfolding opened
decode_aab = refl

decode_ab : sample.decode64 "ab" ≡ some (1 ∷ [])
unfolding opened
decode_ab = refl

stored_fetched_test :
    (Vault.fetch 1 kept).0
    ≡ ok (record { wrapped_key = sample.encode64 (2 ∷ []); salt = sample.encode64 (1 ∷ []) })
stored_fetched_test =
    stored_fetched 1 key_and_salt calm kept (2 ∷ []) (1 ∷ []) decode_aab decode_ab store_test refl
      kept-up

id_test : redis_key "pair-1" ≡ ok "pairing:pair-1"
unfolding opened
id_test = refl

bad_id_test : redis_key "../x" ≡ err bad_request
unfolding opened
bad_id_test = refl

deposit_lifetime_example :
    (Pairing.fetch "pair-1"
      (tick 299 (Pairing.deposit "pair-1" (record { response = "aab" }) calm).1)).0
    ≡ ok (record { response = sample.encode64 (2 ∷ []) })
deposit_lifetime_example =
    deposit_lifetime "pair-1" "pairing:pair-1" (record { response = "aab" }) (2 ∷ []) calm 299
      calm-up calm-connected id_test decode_aab

abbrev left : World sample
left = (Pairing.deposit "pair-1" (record { response = "aab" }) calm).1

abbrev taken : World sample
taken = (Pairing.fetch "pair-1" left).1

left-up : left.schedule ≡ []
unfolding opened
left-up = refl

left-connected : left.connected ≡ true
unfolding opened
left-connected = refl

taken-up : taken.schedule ≡ []
unfolding opened
taken-up = refl

taken-connected : taken.connected ≡ true
unfolding opened
taken-connected = refl

fetched_once_example : (Pairing.fetch "pair-1" taken).0 ≡ err not_found
fetched_once_example =
    fetched_once "pair-1" "pairing:pair-1" left taken id_test left-up left-connected refl taken-up
      taken-connected
