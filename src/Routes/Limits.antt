-- ===== src/Routes/Limits.antt =====
-- How many registrations of a client get through.
use roboparty_rp_server.Prelude.{
  ℕ, ◌+◌, ◌-◌, ◌≤◌, ◌≡◌, refl, sym, subst, Bool, true, false, String, Option, none, some, List, [],
  ◌∷◌, ltb, ◌==◌, nat_eq, string_eq, if◌then◌else◌, arith, eq_iff,
}
use roboparty_rp_server.Prelude.Dict.{Dict, get, put, get-put}
use roboparty_rp_server.Pairing.{Pairing}
use roboparty_rp_server.Prelude.Result.{Result, ok, err}
use roboparty_rp_server.Access.{AuthError, Claims}
use roboparty_rp_server.Routes.{
  Content, Route, pair_code, pair_apps, pair_register, pair_revoke, other, Request, Response,
  rate_limited, Window, Site, Setup, host, window_of, counted, register_content, handle_register,
  handle_code, handle_revoke, handle_route, authorized, admit, is_public, handle, open_site,
}

-- Whether a request took an attempt at a registration.
pub passed_one : Route → Response → ℕ
passed_one (pair_register content) rate_limited = 0
passed_one (pair_register content) _ = 1
passed_one _ response = 0

-- Requests whose clocks are within a minute behind `t`.
abbrev pub Within : ℕ → List Request → Type 0
Within t [] = Unit {0}
Within t (r ∷ rs) = (t ≤ r.first) × (r.second ≤ t + 60000) × (t ≤ r.third) × Within t rs

-- What is left of the limits of a client.
pub budget : ℕ → Option Window → ℕ
budget t none = 10
budget t (some w) = (10 - w.count) + (if ltb w.since t then 10 else 0)

counted-budget :
    (t first second third : ℕ) (o : Option Window)
    → t ≤ first
    → second ≤ t + 60000
    → t ≤ third
    → let w = counted first second third o in
      (if ltb 10 w.count then 0 else 1) + budget t (some w) ≤ budget t o
unfolding counted window_of budget
counted-budget t first second third none a b c = ground arith
counted-budget t first second third (some w) a b c = ground arith

module _ (u : Setup) where
  -- The registrations of a client that reach the pairing manager or are refused for their content.
  pub passed : String → List Request → Site → ℕ
  unfolding passed_one
  passed client [] s = 0
  passed client (r ∷ rs) s =
      let (response, s') = handle u r s in
      let rest = passed client rs s' in
      (if host "unknown" r.client == client then passed_one r.route response else 0) + rest

  -- What one answer takes from the limits of a client.
  abbrev Takes : ℕ → String → Request → Route → Response × Site → Site → Type 0
  Takes t client r route (response, s') s =
      (if host "unknown" r.client == client then passed_one route response else 0)
        + budget t (get s'.pair_attempts client)
      ≤ budget t (get s.pair_attempts client)

  passed_register :
      (content : Content) (response : Response) → passed_one (pair_register content) response ≤ 1
  unfolding passed_one
  passed_register content rate_limited = ground arith
  passed_register content _ = ground arith

  -- The arithmetic of one attempt: of the client, or of another.
  attempt-bound :
      (t left spent : ℕ) (client asked : String) (d : Dict String Window) (w : Window)
      → spent ≤ left
      → left + budget t (some w) ≤ budget t (get d asked)
      → (if asked == client then spent else 0) + budget t (get (put d asked w) client)
        ≤ budget t (get d client)
  attempt-bound t left spent client asked d w h k =
      ground (arith, get-put d asked client w, eq_iff asked client)

  answer-Takes :
      (t : ℕ) (client : String) (r : Request) (content : Content) (limited : Bool)
      (response : Response) (pairing : Pairing) (s : Site) (w : Window)
      → (if limited then 0 else 1) + budget t (some w)
        ≤ budget t (get s.pair_attempts (host "unknown" r.client))
      → let s' : Site = record s {
        pair_attempts = put s.pair_attempts (host "unknown" r.client) w;
      } in
        Takes t client r
          (pair_register content)
          (if limited then (rate_limited, s') else (response, record s' { pairing = pairing }))
          s
  unfolding passed_one
  answer-Takes t client r content true response pairing s w h =
      attempt-bound t 0 0 client (host "unknown" r.client) s.pair_attempts w (ground arith) h
  answer-Takes t client r content false response pairing s w h =
      attempt-bound t 1 (passed_one (pair_register content) response) client
        (host "unknown" r.client) s.pair_attempts w (passed_register content response) h

  register-Takes :
      (t : ℕ) (client : String) (r : Request) (content : Content) (s : Site)
      → t ≤ r.first
      → r.second ≤ t + 60000
      → t ≤ r.third
      → Takes t client r (pair_register content) (handle_register u r content s) s
  unfolding handle_register
  register-Takes t client r content s a b c =
      let o = get s.pair_attempts (host "unknown" r.client) in
      let w = counted r.first r.second r.third o in
      let (response, pairing) = register_content u r content s.pairing in
      answer-Takes t client r content (ltb 10 w.count) response pairing s w
        (counted-budget t r.first r.second r.third o a b c)

  -- Other routes do not count.
  quiet-Takes :
      (t : ℕ) (client : String) (r : Request) (route : Route) (o : Response × Site) (s : Site)
      → passed_one route o.0 ≡ 0
      → o.1.pair_attempts ≡ s.pair_attempts
      → Takes t client r route o s
  quiet-Takes t client r route o s h k = rw h (rw k (ground arith))

  either-attempts :
      (b : Bool) (o o' : Response × Site) (s : Site)
      → o.1.pair_attempts ≡ s.pair_attempts
      → o'.1.pair_attempts ≡ s.pair_attempts
      → (if◌then◌else◌ {A = Response × Site} b o o').1.pair_attempts ≡ s.pair_attempts
  either-attempts true o o' s h k = h
  either-attempts false o o' s h k = k

  -- A request to a route that is not the registration keeps all windows.
  admit-attempts :
      (r : Request) (a : Result AuthError Claims) (s : Site)
      → (handle_route u r r.route s).1.pair_attempts ≡ s.pair_attempts
      → (admit u r a s).1.pair_attempts ≡ s.pair_attempts
  unfolding admit
  admit-attempts r (ok _) s h = h
  admit-attempts r (err e) s h = refl

  handle-attempts :
      (r : Request) (s : Site)
      → (handle_route u r r.route s).1.pair_attempts ≡ s.pair_attempts
      → (handle u r s).1.pair_attempts ≡ s.pair_attempts
  unfolding handle
  handle-attempts r s h =
      either-attempts (is_public r.route) (handle_route u r r.route s)
        (admit u r (authorized u r s.pairing) s) s h
        (admit-attempts r (authorized u r s.pairing) s h)

  abbrev registers : Route → Bool
  registers (pair_register content) = true
  registers _ = false

  route-attempts :
      (r : Request) (route : Route) (s : Site)
      → registers route ≡ false
      → (handle_route u r route s).1.pair_attempts ≡ s.pair_attempts
  unfolding handle_route handle_code handle_revoke
  route-attempts r (pair_register content) s e = cc
  route-attempts r pair_code s e = ground arith
  route-attempts r pair_apps s e = ground arith
  route-attempts r (pair_revoke content) s e = ground arith
  route-attempts r (other path method) s e = refl

  registers-passed :
      (route : Route) (response : Response)
      → registers route ≡ false
      → passed_one route response ≡ 0
  unfolding passed_one
  registers-passed (pair_register content) response e = cc
  registers-passed pair_code response e = refl
  registers-passed pair_apps response e = refl
  registers-passed (pair_revoke content) response e = refl
  registers-passed (other path method) response e = refl

  registered-handle :
      (r : Request) (content : Content) (s : Site)
      → r.route ≡ pair_register content
      → handle u r s ≡ handle_register u r content s
  unfolding handle handle_route is_public
  registered-handle r content s e = rw (e, handle) refl

  silent-Takes :
      (t : ℕ) (client : String) (r : Request) (route : Route) (s : Site)
      → r.route ≡ route
      → registers route ≡ false
      → Takes t client r route (handle u r s) s
  silent-Takes t client r route s e f =
      quiet-Takes t client r route (handle u r s) s (registers-passed route (handle u r s).0 f) (
        handle-attempts r s (
          subst (λ o. (handle_route u r o s).1.pair_attempts ≡ s.pair_attempts) (sym e)
            (route-attempts r route s f)))

  handle-Takes :
      (t : ℕ) (client : String) (r : Request) (route : Route) (s : Site)
      → r.route ≡ route
      → t ≤ r.first
      → r.second ≤ t + 60000
      → t ≤ r.third
      → Takes t client r route (handle u r s) s
  handle-Takes t client r (pair_register content) s e a b c =
      subst (λ o. Takes t client r (pair_register content) o s)
        (sym (registered-handle r content s e)) (register-Takes t client r content s a b c)
  handle-Takes t client r route s e a b c = silent-Takes t client r route s e refl

  passed-budget :
      (t : ℕ) (client : String) (rs : List Request) (s : Site)
      → Within t rs
      → passed client rs s ≤ budget t (get s.pair_attempts client)
  unfolding passed
  passed-budget t client [] s h = ground arith
  passed-budget t client (r ∷ rs) s (a, b, c, h) =
      let (response, s') = handle u r s in
      ground (arith, handle-Takes t client r r.route s refl a b c, passed-budget t client rs s' h)

  budget-bound : (t : ℕ) (o : Option Window) → budget t o ≤ 20
  unfolding budget
  budget-bound t none = ground arith
  budget-bound t (some w) = ground arith

  open-budget :
      (t : ℕ) (client : String) (pairing : Pairing)
      → budget t (get (open_site pairing).pair_attempts client) ≡ 10
  unfolding budget open_site get
  open-budget t client pairing = refl

  -- Of the registrations that a client asks for within a minute, among any other requests and
  -- whatever was asked before, at most 20 are not refused as too many; at most 10 where the server
  -- was just opened.
  pub passed-bounds :
      (t : ℕ) (client : String) (rs : List Request) (s : Site)
      → Within t rs
      → (passed client rs s ≤ 20) × (passed client rs (open_site s.pairing) ≤ 10)
  passed-bounds t client rs s h =
      let fresh = open_site s.pairing in
      (
        ground (arith, passed-budget t client rs s h, budget-bound t (get s.pair_attempts client)),
        rw⁻¹ (open-budget t client s.pairing) (passed-budget t client rs fresh h),
      )
