-- ===== src/Udp/Auth/Tests.antt =====
-- A challenge on its way to a token: witnesses of the theorems on the authenticator.
use Prim.Native.String.{◌++◌}
use roboparty_rp_server.Prelude.{string_eq, ℕ, ◌+◌, ◌≤◌, ◌≡◌, refl, [], ◌∷◌, none, some, String}
use roboparty_rp_server.Prelude.Dict.{get, put, remove}
use roboparty_rp_server.Udp.Auth.{
  Addr, Text, TokenInfo, Auth, addr_key, expected_signature, verify_signature, challenge_max_age,
  check_signature, generate_token,
}
use roboparty_rp_server.Udp.Auth.Tokens.{verify_signature_ok}

abbrev pub text : Text
text = record { decimal = λ _. "9000"; lower = λ s. s; hmac = λ key message. key ++ message }

abbrev pub pad : Addr
pad = record { host = "pad"; port = 9000 }

abbrev pub key : String
key = "pad:9000"

abbrev challenged : Auth
challenged = record {
  secret_key = "k";
  token_ttl = 60_000;
  challenges = (key, ("c", 1000)) ∷ [];
  tokens = [];
}

abbrev pub pad_token : TokenInfo
pad_token = record { device_id = "d"; expires_at = 62_000 }

abbrev pub trusted : Auth
trusted = record challenged { challenges = []; tokens = ("t", pad_token) ∷ [] }

issue : verify_signature text 2000 2000 "t" pad "d" "kd:c" challenged ≡ (some "t", trusted)
unfolding verify_signature check_signature generate_token expected_signature addr_key get put remove
issue = refl

verify_signature_ok_example :
    (code : String) × (at : ℕ) × (get challenged.challenges (addr_key text pad) ≡ some (code, at))
    × (2000 ≤ at + challenge_max_age)
    × (◌≡◌ {A = String} "kd:c" (expected_signature text challenged "d" code))
    × (◌≡◌ {A = String} "t" "t")
    × (get trusted.challenges (addr_key text pad) ≡ none)
    × (get trusted.tokens "t" ≡ some (record { device_id = "d"; expires_at = 2000 + 60_000 }))
verify_signature_ok_example =
    verify_signature_ok text 2000 2000 "t" pad "d" "kd:c" challenged trusted "t" issue
