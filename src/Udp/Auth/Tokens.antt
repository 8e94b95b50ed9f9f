-- ===== src/Udp/Auth/Tokens.antt =====
-- Challenges are good for one token, and tokens for their time.
use roboparty_rp_server.Prelude.{
  ℕ, ◌+◌, ◌≤◌, ◌≡◌, refl, String, Option, none, some, ltb, ◌==◌, string_eq, if◌then◌else◌, arith,
  eq_iff,
}
use roboparty_rp_server.Prelude.Dict.{
  get, put, remove, picks, IsDict, get-put, get-remove, same_self, get-remove_all,
}
use roboparty_rp_server.Udp.Auth.{
  Addr, Text, Auth, TokenInfo, addr_key, expected_signature, check_signature, verify_signature,
  check_token, verify_token, revoke_token, token_expired, challenge_expired, cleanup_expired,
  challenge_max_age,
}

module _ (x : Text) where
  check_signature-some :
      (checked issued : ℕ) (fresh key device_id signature : String) (o : Option (String × ℕ))
      (s s' : Auth) (token : String)
      → check_signature x checked issued fresh key device_id signature o s ≡ (some token, s')
      → (code : String) × (at : ℕ) × (o ≡ some (code, at))
        × (checked ≤ at + challenge_max_age)
        × (x.lower signature ≡ x.lower (expected_signature x s device_id code))
        × (token ≡ fresh)
        × (s'.challenges ≡ remove s.challenges key)
        × (s'.tokens
            ≡ put s.tokens fresh
                (record { device_id = device_id; expires_at = issued + s.token_ttl }))
  unfolding check_signature
  check_signature-some checked issued fresh key device_id signature none s s' token h = cc
  check_signature-some checked issued fresh key device_id signature (some (code, at)) s s' token h =
      (
        code,
        at,
        refl,
        ground arith,
        ground
            (arith, eq_iff (x.lower signature) (x.lower (expected_signature x s device_id code))),
        ground arith,
        ground arith,
        ground arith,
      )

  -- A token is issued only for a signature of the device and of the address's own challenge code
  -- under the shared key, at most five minutes after the challenge; it is the fresh random one, it
  -- belongs to that device for `token_ttl`, and the challenge is used up.
  pub verify_signature_ok :
      (checked issued : ℕ) (fresh : String) (addr : Addr) (device_id signature : String)
      (s s' : Auth) (token : String)
      → verify_signature x checked issued fresh addr device_id signature s ≡ (some token, s')
      → (code : String) × (at : ℕ) × (get s.challenges (addr_key x addr) ≡ some (code, at))
        × (checked ≤ at + challenge_max_age)
        × (x.lower signature ≡ x.lower (expected_signature x s device_id code))
        × (token ≡ fresh)
        × (get s'.challenges (addr_key x addr) ≡ none)
        × (get s'.tokens token
            ≡ some (record { device_id = device_id; expires_at = issued + s.token_ttl }))
  unfolding verify_signature
  verify_signature_ok checked issued fresh addr device_id signature s s' token h =
      let (code, at, found, recent, signed, same, gone, stored) =
        check_signature-some checked issued fresh (addr_key x addr) device_id signature
          (get s.challenges (addr_key x addr)) s s' token h in
      (
        code,
        at,
        found,
        recent,
        signed,
        same,
        rw (gone, get-remove, same_self) refl,
        rw (stored, same, get-put, same_self) refl,
      )

  -- So a challenge answers once: the same signature, or any other, gets no token until there is a
  -- new challenge for the address.
  pub verify_signature_once :
      (checked issued : ℕ) (fresh : String) (addr : Addr) (device_id signature : String)
      (s s' : Auth) (token : String)
      → verify_signature x checked issued fresh addr device_id signature s ≡ (some token, s')
      → (later next : ℕ) (fresh' device_id' signature' : String)
      → verify_signature x later next fresh' addr device_id' signature' s' ≡ (none, s')
  unfolding verify_signature check_signature
  verify_signature_once checked issued fresh addr device_id signature s s' token h later next fresh'
        device_id' signature' =
      ground (arith, verify_signature_ok checked issued fresh addr device_id signature s s' token h)

-- A token is good exactly up to its end, and for its own device; one that has ended is dropped.
pub verify_token_lem :
    (now : ℕ) (token : String) (info : TokenInfo) (s : Auth)
    → get s.tokens token ≡ some info
    → ((verify_token now token s).0
        ≡ (if ltb info.expires_at now then none else some info.device_id))
      × (get (verify_token now token s).1.tokens token
          ≡ (if ltb info.expires_at now then none else some info))
unfolding verify_token check_token
verify_token_lem now token info s h =
    ground (arith, get-remove s.tokens token token, same_self token)

-- A revoked token is no longer accepted, and every other token is accepted as before.
pub verify_token-revoke_token :
    (now : ℕ) (token other : String) (s : Auth)
    → (verify_token now other (revoke_token token s)).0
      ≡ (if token == other then none else (verify_token now other s).0)
unfolding verify_token check_token revoke_token
verify_token-revoke_token now token other s = ground (arith, get-remove s.tokens token other)

-- The cleanup drops exactly the tokens that have ended and the challenges above the age.
pub cleanup_expired_lem :
    (now later max_age : ℕ) (s : Auth) (key : String)
    → IsDict s.challenges
    → IsDict s.tokens
    → let s' = (cleanup_expired now later max_age s).1 in
      (get s'.challenges key ≡ (
        if picks (challenge_expired now max_age) (get s.challenges key)
        then none
        else get s.challenges key))
      × (get s'.tokens key
          ≡ (if picks (token_expired later) (get s.tokens key) then none else get s.tokens key))
unfolding cleanup_expired
cleanup_expired_lem now later max_age s key hc ht = (
  get-remove_all (challenge_expired now max_age) s.challenges key hc,
  get-remove_all (token_expired later) s.tokens key ht,
)
