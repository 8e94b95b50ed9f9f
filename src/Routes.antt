-- ===== src/Routes.antt =====
-- transport/ws_server.py: the HTTP requests that `create_app` answers, their authorization and the
-- pairing routes on the `PairingManager` of Pairing.antt. What other routes answer is an argument.
-- Readings of the clock are milliseconds.
pub mod Limits
pub mod Local
mod Tests
use roboparty_rp_server.Prelude.{
  ℕ, ◌+◌, ◌-◌, Bool, true, false, ◌&&◌, ◌||◌, not, String, Option, none, some, List, [], ◌∷◌, ltb,
  ◌==◌, nat_eq, string_eq, if◌then◌else◌,
}
use roboparty_rp_server.Prelude.Result.{Result, ok, err}
use roboparty_rp_server.Prelude.Dict.{Dict, get, put}
use roboparty_rp_server.Pairing.{
  Pairing, PairingError, pair_code_locked, not_saved, App, Inputs, Entry, generate_code, register,
  list_apps, revoke, contains_word,
}
use roboparty_rp_server.Access.{AccessPolicy, AuthError, forbidden, Claims, bearer, verify}

-- The body of a request: no JSON, JSON that is not an object and that Python takes for false or not,
-- or the strings of its members (empty where they are missing).
pub data Content : Type 0 where
  unreadable empty_value no_object : Content
  members : (code public_key device_name key_id : String) → Content

pub data Route : Type 0 where
  pair_code pair_apps : Route
  pair_register pair_revoke : Content → Route
  -- the path and the method, and what the route answers
  other : (path method : String) → Route

-- What a payload says of the robot, where that is not fixed.
pub record Identity : Type 0 where
  pub serial : String
  pub machine_id : String
  pub software_sn : String

-- A request, with what it reads: `monotonic` at its three places, what the pairing manager reads,
-- the random code, the identity of the robot, and the claims of tokens. It is one step, as no route
-- waits between its look at the pairing manager and its change.
pub record Request : Type 0 where
  pub client : Option String
  pub authorization : Option String
  pub route : Route
  pub first : ℕ
  pub second : ℕ
  pub third : ℕ
  pub inputs : Inputs
  pub later : ℕ
  pub code : String
  pub identity : Identity
  pub decode : String → Option Claims

-- What `_pair_payload` signs, but for what is the same in all payloads. The URI, an encoding of the
-- payload, is left out.
pub record PairData : Type 0 where
  pub code : String
  pub expires_at : ℕ
  pub identity : Identity

pub data Response : Type 0 where
  issued : PairData → Option String → Response
  registered : App → List String → Response
  apps : List App → Response
  revoked : Bool → Response
  local_only rate_limited invalid_params server_error : Response
  pair_error : ℕ → PairingError → Response
  auth_error : ℕ → AuthError → Response
  answered : Response

-- `[time.monotonic(), 0]`
pub record Window : Type 0 where
  pub since : ℕ
  pub count : ℕ

pub record Site : Type 0 where
  pub pairing : Pairing
  pub pair_attempts : Dict String Window

-- The parameters of a site: string methods, what is read of keys, and what signs a payload.
pub record Setup : Type 0 where
  pub strip : String → String
  pub lower : String → String
  pub parts : String → String × String
  pub key_info : String → Option (String × String)
  pub cut : String → String
  pub policy : AccessPolicy
  -- the key that signs payloads: `none` without one, or where it raises
  pub sign : PairData → Option String

-- `request.client.host if request.client else default`
pub host : String → Option String → String
host default none = default
host default (some h) = h

-- `_local_only`
pub is_local : Request → Bool
unfolding host contains_word
is_local r = contains_word ("127.0.0.1" ∷ "::1" ∷ "localhost" ∷ []) (host "" r.client)

-- The paths that `authorize_http` lets through.
pub is_public : Route → Bool
unfolding contains_word
is_public (other path method) =
    contains_word
      ("/health" ∷ "/identity" ∷ "/pair/code" ∷ "/pair/register" ∷ "/pair/apps" ∷ "/pair/revoke"
        ∷ [])
      path
is_public _ = true

-- `_pair_error`
pub pair_status : PairingError → ℕ
pair_status pair_code_locked = 429
pair_status _ = 400

pub auth_status : AuthError → ℕ
auth_status forbidden = 403
auth_status _ = 401

-- `pair_attempts.setdefault(client, [time.monotonic(), 0])`
pub window_of : ℕ → Option Window → Window
window_of first none = record { since = first; count = 0 }
window_of first (some w) = w

-- The window behind the count of one more attempt.
pub counted : ℕ → ℕ → ℕ → Option Window → Window
unfolding window_of
counted first second third o =
    let w = window_of first o in
    if ltb 60000 (second - w.since)
    then record { since = third; count = 1 }
    else record w { count = w.count + 1 }

-- The answer to a registration.
pub registration : Result PairingError (App × List String) → Response
unfolding pair_status
registration (ok (app, replaced)) = registered app replaced
registration (err not_saved) = server_error
registration (err e) = pair_error (pair_status e) e

pub revocation : Option Bool → Response
revocation none = server_error
revocation (some done) = revoked done

module _ (u : Setup) where
  -- `pair_register` behind the limit.
  pub register_content : Request → Content → Pairing → Response × Pairing
  unfolding registration
  register_content r unreadable s = (invalid_params, s)
  register_content r empty_value s = (invalid_params, s)
  register_content r no_object s = (invalid_params, s)
  register_content r (members code public_key device_name key_id) s =
      let (result, s') =
        register u.key_info u.cut r.inputs (u.strip code) (u.strip public_key) device_name s in
      if u.strip code == "" || u.strip public_key == ""
      then (invalid_params, s)
      else (registration result, s')

  pub handle_register : Request → Content → Site → Response × Site
  unfolding counted register_content host
  handle_register r content s =
      let client = host "unknown" r.client in
      let w = counted r.first r.second r.third (get s.pair_attempts client) in
      let s' : Site = record s { pair_attempts = put s.pair_attempts client w } in
      let (response, pairing) = register_content r content s.pairing in
      if ltb 10 w.count then (rate_limited, s') else (response, record s' { pairing = pairing })

  -- `pair_code` and `_pair_payload`
  pub handle_code : Request → Site → Response × Site
  handle_code r s =
      let told : PairData = record {
        code = r.code;
        expires_at = r.later + s.pairing.ttl;
        identity = r.identity;
      } in
      let pairing = generate_code r.code r.inputs.now r.later s.pairing in
      if is_local r
      then (issued told (u.sign told), record s { pairing = pairing })
      else (local_only, s)

  pub revoke_id : Request → String → Pairing → Response × Pairing
  unfolding revocation
  revoke_id r id s =
      let (result, s') = revoke r.inputs id s in
      if id == "" then (invalid_params, s) else (revocation result, s')

  pub revoke_content : Request → Content → Pairing → Response × Pairing
  unfolding revoke_id
  revoke_content r unreadable s = (invalid_params, s)
  revoke_content r empty_value s = (invalid_params, s)
  revoke_content r no_object s = (server_error, s)
  revoke_content r (members code public_key device_name key_id) s = revoke_id r (u.strip key_id) s

  pub handle_revoke : Request → Content → Site → Response × Site
  unfolding revoke_content is_local
  handle_revoke r content s =
      let (response, pairing) = revoke_content r content s.pairing in
      if is_local r then (response, record s { pairing = pairing }) else (local_only, s)

  pub handle_route : Request → Route → Site → Response × Site
  unfolding handle_code handle_register handle_revoke is_local
  handle_route r pair_code s = handle_code r s
  handle_route r (pair_register content) s = handle_register r content s
  handle_route r pair_apps s =
      if is_local r then (apps (list_apps s.pairing), s) else (local_only, s)
  handle_route r (pair_revoke content) s = handle_revoke r content s
  handle_route r (other path method) s = (answered, s)

  pub required_scope : Route → String
  required_scope (other path method) =
      if method == "GET" || method == "HEAD" then "read" else "admin"
  required_scope _ = "admin"

  verified : Request → Result AuthError String → Pairing → Result AuthError Claims
  verified r (err e) s = err e
  verified r (ok token) s = verify r.decode u.policy s token (required_scope r.route)

  -- `access.verify(access.bearer(...), required)`
  pub authorized : Request → Pairing → Result AuthError Claims
  unfolding verified required_scope
  authorized r s = verified r (bearer u.parts u.lower u.strip r.authorization) s

  pub admit : Request → Result AuthError Claims → Site → Response × Site
  unfolding auth_status handle_route
  admit r (err e) s = (auth_error (auth_status e) e, s)
  admit r (ok _) s = handle_route r r.route s

  -- `authorize_http` in front of the routes.
  pub handle : Request → Site → Response × Site
  unfolding handle_route admit authorized is_public
  handle r s =
      if is_public r.route then handle_route r r.route s else admit r (authorized r s.pairing) s

  pub run : List Request → Site → Site
  run [] s = s
  run (r ∷ rs) s = run rs (handle r s).1

-- `create_app` begins with no attempts.
pub open_site : Pairing → Site
open_site pairing = record { pairing = pairing; pair_attempts = [] }
