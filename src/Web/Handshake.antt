-- ===== src/Web/Handshake.antt =====
-- transport/ws_server.py: how a connection to `/ws` and to `/ws-json` gets its token.
use Prim.Native.String.{◌++◌}
use roboparty_rp_server.Prelude.{
  ◌≡◌, refl, Bool, true, false, ◌||◌, not, String, Option, none, some, List, ◌==◌, string_eq,
  if◌then◌else◌, arith, eq_iff, Bool-cases, Option-cases, ◌⊎◌, inl, inr,
}
use roboparty_rp_server.Prelude.Result.{Result, ok, err, Result-cases}
use roboparty_rp_server.Pairing.{App, get_app, contains_word}
use roboparty_rp_server.Access.{AccessPolicy, AuthError, Claims}
use roboparty_rp_server.Web.{Reading, check}

-- The bearer token of a header that passes `access.verify(..., "read")`.
pub verified : AccessPolicy → Reading → Result AuthError String → Option String
verified p r (err e) = none
verified p r (ok token) = elim (check p r token "read") [ err e ↦ none | ok _ ↦ some token ]

-- `/ws`: the token, where the client offers the subprotocol as well.
pub enter_ws : AccessPolicy → Reading → Result AuthError String → Bool → Option String
unfolding verified
enter_ws p r header offers = elim (verified p r header) [
  | none ↦ none
  | some token ↦ if offers then some token else none
]

-- What a client of `/ws-json` sends: its device id, and the device id and signature of its answer;
-- `none` for a message that is late or of another type.
pub record Dialogue : Type 0 where
  pub device_id : Option String
  pub response : Option (String × String)

unfoldable pub paired_app : Reading → String → Option App
paired_app r device_id = if device_id == "" then none else elim (get_app device_id r.pairing) [
  | none ↦ none
  | some app ↦ if app.revoked then none else some app
]

-- `signed app message signature` is `verify_app_signature`, `issue device_id scopes` is
-- `issue_token`; `asked` and `challenge` are the reading and the random code of this connection.
module _ (signed : App → String → String → Bool) (issue : String → List String → String) where
  unfoldable pub answer_challenge : String → String → App → Option (String × String) → Option String
  answer_challenge challenge device_id app none = none
  answer_challenge challenge device_id app (some (sender, signature)) =
      if not (sender == device_id) || not (signed app ((device_id ++ ":") ++ challenge) signature)
      then none
      else if not (contains_word app.scopes "read")
      then none
      else some (issue device_id app.scopes)

  unfoldable pub authenticate : Reading → String → Dialogue → Option String
  unfolding answer_challenge paired_app
  authenticate asked challenge dialogue = elim dialogue.device_id [
    | none ↦ none
    | some device_id ↦ elim (paired_app asked device_id) [
      | none ↦ none
      | some app ↦ answer_challenge challenge device_id app dialogue.response
    ]
  ]

  -- `/ws-json` up to `auth_result`; `header` is `access.bearer` of the header, if there is one.
  unfoldable pub enter_json :
      AccessPolicy → Reading → Option (Result AuthError String) → String → Dialogue → Option String
  unfolding verified authenticate
  enter_json p r (some header) challenge dialogue = verified p r header
  enter_json p r none challenge dialogue =
      if p.has_key then authenticate r challenge dialogue else none

  -- What a token of the dialogue takes: the app of the device is paired and not revoked, the answer
  -- names the device and signs the device with the code of this connection, and the app may read;
  -- the token is issued for the device with the scopes of the app.
  abbrev pub Proves : Reading → String → Dialogue → String → Type 0
  Proves r challenge dialogue token =
      (device_id signature : String) × (app : App) × (dialogue.device_id ≡ some device_id)
      × (get_app device_id r.pairing ≡ some app)
      × (app.revoked ≡ false)
      × (dialogue.response ≡ some (device_id, signature))
      × (signed app ((device_id ++ ":") ++ challenge) signature ≡ true)
      × (contains_word app.scopes "read" ≡ true)
      × (token ≡ issue device_id app.scopes)

  paired_app-some :
      (r : Reading) (device_id : String) (app : App)
      → paired_app r device_id ≡ some app
      → (get_app device_id r.pairing ≡ some app) × (app.revoked ≡ false)
  unfolding paired_app
  paired_app-some r device_id app h = elim (Option-cases (get_app device_id r.pairing)) [
    | inl e ↦ absurd (ground arith)
    | inr (a, e) ↦ ground arith
  ]

  answer_challenge-some :
      (challenge device_id : String) (app : App) (o : Option (String × String)) (token : String)
      → answer_challenge challenge device_id app o ≡ some token
      → (signature : String) × (o ≡ some (device_id, signature))
        × (signed app ((device_id ++ ":") ++ challenge) signature ≡ true)
        × (contains_word app.scopes "read" ≡ true)
        × (token ≡ issue device_id app.scopes)
  unfolding answer_challenge
  answer_challenge-some challenge device_id app none token h = cc
  answer_challenge-some challenge device_id app (some (sender, signature)) token h =
      (signature, ground (arith, eq_iff sender device_id), ground arith, ground arith, ground arith)

  authenticate-some :
      (r : Reading) (challenge : String) (dialogue : Dialogue) (token : String)
      → authenticate r challenge dialogue ≡ some token
      → Proves r challenge dialogue token
  unfolding authenticate
  authenticate-some r challenge dialogue token h = elim (Option-cases dialogue.device_id) [
    | inl e ↦ absurd (ground arith)
    | inr (device_id, e) ↦ elim (Option-cases (paired_app r device_id)) [
      | inl f ↦ absurd (ground arith)
      | inr (app, f) ↦
          let (found, live) = paired_app-some r device_id app f in
          let (signature, sent, valid, reads, same) =
            answer_challenge-some challenge device_id app dialogue.response token (ground arith) in
          (device_id, signature, app, e, found, live, sent, valid, reads, same)
    ]
  ]

  -- A client of `/ws-json` gets a token only with a bearer credential that may read, which then is
  -- the token, or, with no header and a server that has a key, by the dialogue that `Proves` says.
  pub enter_json_ok :
      (p : AccessPolicy) (r : Reading) (header : Option (Result AuthError String))
      (challenge : String) (dialogue : Dialogue) (token : String)
      → enter_json p r header challenge dialogue ≡ some token
      → ((claims : Claims) × (header ≡ some (ok token)) × (check p r token "read" ≡ ok claims))
        ⊎ ((header ≡ none) × (p.has_key ≡ true) × Proves r challenge dialogue token)
  unfolding enter_json verified
  enter_json_ok p r (some (err e)) challenge dialogue token h = cc
  enter_json_ok p r (some (ok t)) challenge dialogue token h =
      elim (Result-cases (check p r t "read")) [
        | inl (claims, e) ↦ inl (claims, ground arith, ground arith)
        | inr (e, f) ↦ absurd (ground arith)
      ]
  enter_json_ok p r none challenge dialogue token h = elim (Bool-cases p.has_key) [
    | inl e ↦ inr (refl, e, authenticate-some r challenge dialogue token (ground arith))
    | inr e ↦ absurd (ground arith)
  ]
