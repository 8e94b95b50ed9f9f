-- ===== src/Routes/Local.antt =====
-- What other hosts can do to the apps on file.
use roboparty_rp_server.Prelude.{
  ◌≡◌, refl, ap, ◌∙◌, Bool, true, false, List, [], ◌∷◌, ltb, ◌||◌, ◌==◌, string_eq, if◌then◌else◌,
}
use roboparty_rp_server.Prelude.Dict.{get, put}
use roboparty_rp_server.Prelude.Result.{Result, ok, err}
use roboparty_rp_server.Access.{AuthError, Claims}
use roboparty_rp_server.Pairing.{Pairing, register, list_apps}
use roboparty_rp_server.Pairing.Idle.{register-idle}
use roboparty_rp_server.Routes.{
  Content, unreadable, empty_value, no_object, members, Route, pair_code, pair_apps, pair_register,
  pair_revoke, other, Request, Response, invalid_params, local_only, registration, rate_limited,
  Site, Setup, is_local, is_public, register_content, handle_register, handle_code, handle_revoke,
  revoke_content, apps, handle_route, authorized, admit, handle, run, host, counted,
}

abbrev pub AllRemote : List Request → Type 0
AllRemote [] = Unit {0}
AllRemote (r ∷ rs) = (is_local r ≡ false) × AllRemote rs

-- What both branches have in common, a choice has.
either {ℓ κ} :
    {A : Type ℓ} {B : Type κ} (f : A → B) (b : Bool) (x y : A) (v : B)
    → f x ≡ v
    → f y ≡ v
    → f (if b then x else y) ≡ v
either f true x y v h k = h
either f false x y v h k = k

local-pairing :
    (b : Bool) (o o' : Response × Site) (p : Pairing)
    → b ≡ false
    → o'.1.pairing ≡ p
    → (if◌then◌else◌ {A = Response × Site} b o o').1.pairing ≡ p
local-pairing true o o' p e k = cc
local-pairing false o o' p e k = k

module _ (u : Setup) where
  register_content-pairing :
      (r : Request) (content : Content) (s : Pairing)
      → s.codes ≡ []
      → (register_content u r content s).1 ≡ s
  unfolding register_content
  register_content-pairing r unreadable s idle = refl
  register_content-pairing r empty_value s idle = refl
  register_content-pairing r no_object s idle = refl
  register_content-pairing r (members code public_key device_name key_id) s idle =
      let o =
        register u.key_info u.cut r.inputs (u.strip code) (u.strip public_key) device_name s in
      let same =
        ap (λ o. o.1)
          (register-idle u.key_info u.cut r.inputs (u.strip code) (u.strip public_key) device_name s
            idle) in
      either {A = Response × Pairing} (λ o. o.1) (u.strip code == "" || u.strip public_key == "")
        (invalid_params, s) (registration o.0, o.1) s refl same

  register-pairing :
      (r : Request) (content : Content) (s : Site)
      → s.pairing.codes ≡ []
      → (handle_register u r content s).1.pairing ≡ s.pairing
  unfolding handle_register
  register-pairing r content s idle =
      let client = host "unknown" r.client in
      let w = counted r.first r.second r.third (get s.pair_attempts client) in
      let s' : Site = record s { pair_attempts = put s.pair_attempts client w } in
      let (response, pairing) = register_content u r content s.pairing in
      either {A = Response × Site} (λ o. o.1.pairing) (ltb 10 w.count) (rate_limited, s')
        (response, record s' { pairing = pairing }) s.pairing refl
        (register_content-pairing r content s.pairing idle)

  revoke-pairing :
      (r : Request) (content : Content) (s : Site)
      → is_local r ≡ false
      → (handle_revoke u r content s).1.pairing ≡ s.pairing
  unfolding handle_revoke
  revoke-pairing r content s remote =
      let (response, pairing) = revoke_content u r content s.pairing in
      local-pairing (is_local r) (response, record s { pairing = pairing }) (local_only, s)
        s.pairing remote refl

  route-pairing :
      (r : Request) (route : Route) (s : Site)
      → is_local r ≡ false
      → s.pairing.codes ≡ []
      → (handle_route u r route s).1.pairing ≡ s.pairing
  unfolding handle_route handle_code
  route-pairing r (pair_register content) s remote idle = register-pairing r content s idle
  route-pairing r pair_code s remote idle = local-pairing (is_local r) _ _ s.pairing remote refl
  route-pairing r pair_apps s remote idle =
      local-pairing (is_local r) (apps (list_apps s.pairing), s) (local_only, s) s.pairing remote
        refl
  route-pairing r (pair_revoke content) s remote idle = revoke-pairing r content s remote
  route-pairing r (other path method) s remote idle = refl

  admit-pairing :
      (r : Request) (a : Result AuthError Claims) (s : Site)
      → (handle_route u r r.route s).1.pairing ≡ s.pairing
      → (admit u r a s).1.pairing ≡ s.pairing
  unfolding admit
  admit-pairing r (ok _) s h = h
  admit-pairing r (err e) s h = refl

  handle-pairing :
      (r : Request) (s : Site)
      → is_local r ≡ false
      → s.pairing.codes ≡ []
      → (handle u r s).1.pairing ≡ s.pairing
  unfolding handle
  handle-pairing r s remote idle =
      let h = route-pairing r r.route s remote idle in
      either (λ o. o.1.pairing) (is_public r.route) (handle_route u r r.route s)
        (admit u r (authorized u r s.pairing) s) s.pairing h
        (admit-pairing r (authorized u r s.pairing) s h)

  -- While no code is outstanding, no sequence of requests from other hosts, with whatever
  -- credentials and contents, changes the apps on file or their revocations, or makes a code.
  pub run-remote :
      (rs : List Request) (s : Site)
      → AllRemote rs
      → s.pairing.codes ≡ []
      → (run u rs s).pairing ≡ s.pairing
  unfolding run
  run-remote [] s remote idle = refl
  run-remote (r ∷ rs) s (remote, rest) idle =
      let h = handle-pairing r s remote idle in
      run-remote rs (handle u r s).1 rest (ap (λ p. p.codes) h ∙ idle) ∙ h
