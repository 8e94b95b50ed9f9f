-- ===== src/Access/Scopes.antt =====
-- Which credentials are let through.
use roboparty_rp_server.Prelude.{
  ◌≡◌, ◌≢◌, refl, ◌∙◌, ap, true, false, ◌&&◌, not, String, Option, none, some, List, [], ◌∷◌, ◌==◌,
  string_eq, arith, Bool-cases, Option-cases, eq_iff, ◌⊎◌, inl, inr,
}
use roboparty_rp_server.Prelude.Result.{Result, ok, err}
use roboparty_rp_server.Pairing.{App, Pairing, Inputs, get_app, contains_word, revoke}
use roboparty_rp_server.Pairing.Register.{revoke_lem}
use roboparty_rp_server.Access.{
  AuthError, unauthorized, Claims, AccessPolicy, has_scope, common, check_app, find_app,
  check_claims, check_scope, verify,
}

contains_word-common :
    (vs allowed : List String) (w : String)
    → contains_word (common vs allowed) w ≡ contains_word vs w && contains_word allowed w
unfolding common contains_word
contains_word-common [] allowed w = refl
contains_word-common (v ∷ vs) allowed w =
    ground (arith, contains_word-common vs allowed w, eq_iff v w)

-- What `verify` lets through: the service token, whose scopes are those that were set, or a token
-- of a paired app that is not revoked, whose scopes are those both of the token and of the app.
abbrev pub IsAllowed : (String → Option Claims) → AccessPolicy → Pairing → String → Claims → Type 0
IsAllowed decode p s token claims =
    ((token ≡ p.service_token) × (p.service_token ≢ "") × (claims.scope ≡ p.service_scopes))
    ⊎ ((subject : String) × (app : App) × (given : Claims) × (decode token ≡ some given)
        × (given.sub ≡ some subject)
        × (get_app subject s ≡ some app)
        × (app.revoked ≡ false)
        × (claims.sub ≡ some subject)
        × ((w : String)
            → contains_word claims.scope w
              ≡ contains_word given.scope w && contains_word app.scopes w))

check_app_ok :
    (given claims : Claims) (o : Option App)
    → check_app given o ≡ ok claims
    → (app : App) × (o ≡ some app)
      × (app.revoked ≡ false)
      × (claims.sub ≡ given.sub)
      × (claims.scope ≡ common given.scope app.scopes)
unfolding check_app
check_app_ok given claims none h = cc
check_app_ok given claims (some app) h = (app, refl, ground arith, ground arith, ground arith)

-- The check of the claims of a token, without the scope that is asked for.
check_claims_ok :
    (decode : String → Option Claims) (p : AccessPolicy) (s : Pairing) (token : String)
    (claims : Claims) (o : Option Claims)
    → decode token ≡ o
    → check_claims o s ≡ ok claims
    → IsAllowed decode p s token claims
unfolding check_claims find_app
check_claims_ok decode p s token claims none d h = cc
check_claims_ok decode p s token claims (some given) d h =
    let (app, found, live, same, words) = check_app_ok given claims (find_app given.sub s) h in
    elim (Option-cases given.sub) [
      | inl e ↦ absurd (ground arith)
      | inr (subject, e) ↦ inr (
        subject,
        app,
        given,
        d,
        e,
        ground arith,
        live,
        same ∙ e,
        λ w. ap (λ ws. contains_word ws w) words ∙ contains_word-common given.scope app.scopes w,
      )
    ]

check_scope_ok :
    (scope : String) (r : Result AuthError Claims) (claims : Claims)
    → check_scope scope r ≡ ok claims
    → (r ≡ ok claims) × ((scope ≢ "") → has_scope claims scope ≡ true)
unfolding check_scope
check_scope_ok scope (err e) claims h = cc
check_scope_ok scope (ok given) claims h =
    elim (Bool-cases (not (scope == "") && not (has_scope given scope))) [
      | inl e ↦ absurd (ground arith)
      | inr e ↦ (ground arith, λ asked. ground (arith, eq_iff scope ""))
    ]

-- `verify` returns claims only for the service token, or for a token of a paired app that is not
-- revoked, with the scopes that `IsAllowed` says; and the scope that was asked for is among them.
pub verify_ok :
    (decode : String → Option Claims) (p : AccessPolicy) (s : Pairing) (token scope : String)
    (claims : Claims)
    → verify decode p s token scope ≡ ok claims
    → IsAllowed decode p s token claims × ((scope ≢ "") → has_scope claims scope ≡ true)
unfolding verify
verify_ok decode p s token scope claims h =
    let (given, asked) = check_scope_ok scope _ claims h in
    elim (Bool-cases (not (p.service_token == "") && token == p.service_token)) [
      | inl e ↦ (
        inl (
          ground (arith, eq_iff token p.service_token),
          ground (arith, eq_iff p.service_token ""),
          ground arith,
        ),
        asked,
      )
      | inr e ↦ elim (Bool-cases p.has_key) [
        | inl k ↦
            (check_claims_ok decode p s token claims (decode token) refl (ground arith), asked)
        | inr k ↦ absurd (ground arith)
      ]
    ]

-- A revocation that is saved takes effect at once: no token of the app is let through any more,
-- but for one that is the service token.
pub verify-revoke :
    (decode : String → Option Claims) (p : AccessPolicy) (s : Pairing) (i : Inputs)
    (token scope id : String) (app : App) (given : Claims)
    → decode token ≡ some given
    → given.sub ≡ some id
    → get_app id s ≡ some app
    → i.saves ≡ true
    → token ≢ p.service_token
    → verify decode p (revoke i id s).1 token scope ≡ err unauthorized
unfolding verify check_claims find_app check_app check_scope
verify-revoke decode p s i token scope id app given decoded of_app paired saved other =
    ground
      (arith, revoke_lem i id id app s paired saved, eq_iff id id, eq_iff token p.service_token)
