-- ===== src/Udp/Auth.antt =====
-- auth/udp_auth.py: `UDPAuthenticator`. Times are whole milliseconds and come as arguments, one for
-- each call of `time.time()`; random values do too. HMAC-SHA256 and `str.lower` are parameters.
pub mod Tokens
mod Tests
use Prim.Native.String.{◌++◌}
use roboparty_rp_server.Prelude.{
  ℕ, ◌+◌, ◌≡◌, Bool, true, false, ◌||◌, not, String, Option, none, some, List, [], ◌∷◌, ltb, ◌==◌,
  string_eq, if◌then◌else◌, length,
}
use roboparty_rp_server.Prelude.Dict.{Dict, get, put, remove, keys_where, remove_all}

-- A client's `(host, port)`.
pub record Addr : Type 0 where
  pub host : String
  pub port : ℕ

pub record TokenInfo : Type 0 where
  pub device_id : String
  pub expires_at : ℕ

pub record Auth : Type 0 where
  pub secret_key : String
  pub token_ttl : ℕ
  -- address key ↦ (challenge code, time)
  pub challenges : Dict String (String × ℕ)
  -- token ↦ its owner and its end
  pub tokens : Dict String TokenInfo

-- What Python and its standard library do: `str` of an int, `str.lower`, HMAC-SHA256 in hex.
pub record Text : Type 0 where
  pub decimal : ℕ → String
  pub lower : String → String
  pub hmac : String → String → String

abbrev pub challenge_max_age : ℕ
challenge_max_age = 300_000

-- `_INSECURE_KEYS`
abbrev placeholder_key : String
placeholder_key = "your-pre-shared-secret-key"

nonempty_or : String → String → String
nonempty_or s other = if s == "" then other else s

-- `UDPAuthenticator(secret_key, token_ttl)`, with `RP_UDP_SECRET` and a random key.
pub create : String → String → String → ℕ → Auth
unfolding nonempty_or
create secret_key from_environment random token_ttl =
    let given = nonempty_or secret_key from_environment in
    let usable = if given == placeholder_key then "" else given in
    record {
      secret_key = nonempty_or usable random;
      token_ttl = token_ttl;
      challenges = [];
      tokens = [];
    }

module _ (x : Text) where
  -- f"{addr[0]}:{addr[1]}"
  unfoldable pub addr_key : Addr → String
  addr_key addr = (addr.host ++ ":") ++ x.decimal addr.port

  -- Its result is the code, given as `code`.
  pub generate_challenge : String → ℕ → Addr → Auth → Auth
  unfolding addr_key
  generate_challenge code now addr s = record s {
    challenges = put s.challenges (addr_key addr) (code, now);
  }

  pub expected_signature : Auth → String → String → String
  expected_signature s device_id code = x.hmac s.secret_key ((device_id ++ ":") ++ code)

  pub generate_token : String → ℕ → String → Auth → Auth
  generate_token token now device_id s = record s {
    tokens = put s.tokens token (record { device_id = device_id; expires_at = now + s.token_ttl });
  }

  -- `verify_signature` on what it found for the address: `challenged` is the time of the check,
  -- `issued` that of the token, and `token` the random token.
  pub check_signature :
      ℕ → ℕ → String → String → String → String → Option (String × ℕ) → Auth → Option String × Auth
  unfolding expected_signature generate_token
  check_signature checked issued token key device_id signature none s = (none, s)
  check_signature checked issued token key device_id signature (some (code, timestamp)) s =
      let cleared = record s { challenges = remove s.challenges key } in
      if ltb (timestamp + challenge_max_age) checked
      then (none, cleared)
      else if not (x.lower signature == x.lower (expected_signature s device_id code))
      then (none, s)
      else (some token, generate_token token issued device_id cleared)

  pub verify_signature : ℕ → ℕ → String → Addr → String → String → Auth → Option String × Auth
  unfolding addr_key check_signature
  verify_signature checked issued token addr device_id signature s =
      let key = addr_key addr in
      check_signature checked issued token key device_id signature (get s.challenges key) s

-- `verify_token` on what it found for the token: the device, and the state.
unfoldable pub check_token : ℕ → String → Option TokenInfo → Auth → Option String × Auth
check_token now token none s = (none, s)
check_token now token (some info) s =
    if ltb info.expires_at now
    then (none, record s { tokens = remove s.tokens token })
    else (some info.device_id, s)

unfoldable pub verify_token : ℕ → String → Auth → Option String × Auth
unfolding check_token
verify_token now token s = check_token now token (get s.tokens token) s

pub revoke_token : String → Auth → Auth
revoke_token token s = record s { tokens = remove s.tokens token }

pub token_expired : ℕ → TokenInfo → Bool
token_expired now info = ltb info.expires_at now

pub cleanup_expired_tokens : ℕ → Auth → ℕ × Auth
unfolding token_expired
cleanup_expired_tokens now s =
    let expired = keys_where (token_expired now) s.tokens in
    (length expired, record s { tokens = remove_all expired s.tokens })

pub challenge_expired : ℕ → ℕ → String × ℕ → Bool
challenge_expired now max_age (code, timestamp) = ltb (timestamp + max_age) now

-- `cleanup_expired(max_age)`, with one reading of the clock for each of its two parts.
pub cleanup_expired : ℕ → ℕ → ℕ → Auth → ℕ × Auth
unfolding challenge_expired cleanup_expired_tokens
cleanup_expired now later max_age s =
    let expired = keys_where (challenge_expired now max_age) s.challenges in
    let (tokens, s') =
      cleanup_expired_tokens later (record s { challenges = remove_all expired s.challenges }) in
    (length expired + tokens, s')
