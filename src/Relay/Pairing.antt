-- ===== src/Relay/Pairing.antt =====
-- src/pairing_api.rs: the sealed blob that one device leaves for another, to be fetched once.
use Prim.Native.Char.{Char, code}
use Prim.Native.String
use Prim.Native.String.{len}
use realm_guard_server.Prelude.{ℕ, String, Bool, not, ◌&&◌, ◌||◌, ◌==◌, leb, if◌then◌else◌}
use realm_guard_server.Prelude.Text.{is_empty, all_chars}
use realm_guard_server.Platform.{Platform}
use realm_guard_server.Result.{
  Result, ok, err, ok_or, internal, StatusCode, no_content, bad_request, not_found,
}
use realm_guard_server.World.{Exec, pure, lift, redis, map_err, ◌>>=◌, ◌>>◌}
use realm_guard_server.Cache.{set_ex, get_del}

abbrev pub pairing_ttl_secs : ℕ
pairing_ttl_secs = 300

pub record DepositReq : Type 0 where
  pub response : String

pub record FetchResp : Type 0 where
  pub response : String

-- `char::is_ascii_alphanumeric`
abbrev pub is_alphanumeric : ℕ → Bool
is_alphanumeric c =
    (leb b'0' c && leb c b'9') || (leb b'A' c && leb c b'Z') || (leb b'a' c && leb c b'z')

abbrev pub is_id_char : Char → Bool
is_id_char c = is_alphanumeric (code c) || code c == b'-' || code c == b'_'

unfoldable pub redis_key : String → Result StatusCode String
redis_key id =
    if not (is_empty id) && leb (len id) 64 && all_chars is_id_char id
    then ok (String.◌++◌ "pairing:" id)
    else err bad_request

module _ {p : Platform} where
  -- behind the extractor of the source device's session
  unfoldable pub deposit : String → DepositReq → Exec p StatusCode StatusCode
  unfolding redis set_ex
  deposit id body = do
    key ← lift (redis_key id)
    blob ← lift (ok_or bad_request (p.decode64 body.response))
    map_err internal redis
    map_err internal (set_ex key (p.redis.of_bytes blob) pairing_ttl_secs)
    pure no_content

  unfoldable pub fetch : String → Exec p StatusCode FetchResp
  unfolding redis get_del
  fetch id = do
    key ← lift (redis_key id)
    map_err internal redis
    taken ← map_err internal (get_del p.redis.to_bytes key)
    blob ← lift (ok_or not_found taken)
    pure (record { response = p.encode64 blob })
