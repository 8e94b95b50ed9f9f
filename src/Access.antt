-- ===== src/Access.antt =====
-- auth/access.py: `AccessPolicy`, and what auth/app_auth.py checks of claims.
pub mod Scopes
mod Tests
use roboparty_rp_server.Prelude.{
  ℕ, Bool, true, false, ◌&&◌, ◌||◌, not, String, Option, none, some, List, [], ◌∷◌, ltb, ◌==◌,
  string_eq, if◌then◌else◌,
}
use roboparty_rp_server.Prelude.Result.{Result, ok, err}
use roboparty_rp_server.Pairing.{App, Pairing, get_app, contains_word}

pub data AuthError : Type 0 where
  unauthorized invalid_token forbidden : AuthError

-- Decoded claims; the scope is its words, and a subject that is no string is `none`.
pub record Claims : Type 0 where
  pub sub : Option String
  pub scope : List String

-- `has_key` is `self.key is not None`.
pub record AccessPolicy : Type 0 where
  pub has_key : Bool
  pub service_token : String
  pub service_scopes : List String

all_known : List String → Bool
unfolding contains_word
all_known [] = true
all_known (v ∷ vs) = contains_word ("read" ∷ "control" ∷ "admin" ∷ []) v && all_known vs

-- `AccessPolicy(...)`, where `len` is Python's; `none` is the `ValueError`.
pub create : (String → ℕ) → Bool → String → List String → Option AccessPolicy
unfolding all_known
create len has_key service_token service_scopes =
    if not (service_token == "") && ltb (len service_token) 32
    then none
    else if not (all_known service_scopes)
    then none
    else some (record {
      has_key = has_key;
      service_token = service_token;
      service_scopes = service_scopes;
    })

split_header : (String → String × String) → Option String → String × String
split_header parts none = parts ""
split_header parts (some header) = parts header

-- `bearer`, where `parts header` is the header in front of its first blank and behind it.
pub bearer :
    (String → String × String)
    → (String → String)
    → (String → String)
    → Option String
    → Result AuthError String
unfolding split_header
bearer parts lower strip header =
    let (kind, token) = split_header parts header in
    if not (lower kind == "bearer") || strip token == "" then err unauthorized else ok (strip token)

unfoldable pub has_scope : Claims → String → Bool
unfolding contains_word
has_scope claims scope = contains_word claims.scope scope

-- `set(words) & allowed`
pub common : List String → List String → List String
unfolding contains_word
common [] allowed = []
common (v ∷ vs) allowed =
    let rest = common vs allowed in if contains_word allowed v then v ∷ rest else rest

pub check_app : Claims → Option App → Result AuthError Claims
unfolding common
check_app claims none = err unauthorized
check_app claims (some app) =
    if app.revoked
    then err unauthorized
    else ok (record claims { scope = common claims.scope app.scopes })

find_app : Option String → Pairing → Option App
unfolding get_app
find_app none s = none
find_app (some subject) s = get_app subject s

pub check_claims : Option Claims → Pairing → Result AuthError Claims
unfolding check_app find_app
check_claims none s = err invalid_token
check_claims (some claims) s = check_app claims (find_app claims.sub s)

unfoldable pub check_scope : String → Result AuthError Claims → Result AuthError Claims
unfolding has_scope
check_scope scope (err e) = err e
check_scope scope (ok claims) =
    if not (scope == "") && not (has_scope claims scope) then err forbidden else ok claims

-- `verify`, where `decode` is `jwt.decode` under the key of the device, `none` its error.
unfoldable pub verify :
    (String → Option Claims) → AccessPolicy → Pairing → String → String → Result AuthError Claims
unfolding check_claims check_scope
verify decode p s token scope = check_scope scope (
    if not (p.service_token == "") && token == p.service_token
    then ok (record { sub = some "local-service"; scope = p.service_scopes })
    else if not p.has_key
    then err unauthorized
    else check_claims (decode token) s)
