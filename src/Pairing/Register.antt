-- ===== src/Pairing/Register.antt =====
-- A code pairs one app, and a single owner replaces the others.
use roboparty_rp_server.Prelude.{
  ◌+◌, ◌≤◌, ◌<◌, ◌≡◌, refl, Bool, true, false, String, Option, none, some, List, [], ◌∷◌, leb, ◌==◌,
  string_eq, if◌then◌else◌, arith, Bool-cases, Option-cases, eq_iff, inl, inr,
}
use roboparty_rp_server.Prelude.Result.{ok, err}
use roboparty_rp_server.Prelude.Dict.{
  Dict, get, put, remove, IsDict, get-put, get-remove, same_self, get-remove_all, keys_where,
  remove_all,
}
use roboparty_rp_server.Pairing.{
  pair_code_invalid, Entry, App, Pairing, Inputs, max_attempts, default_scopes, entry_expired,
  clean, load_apps, keeps, replaced_app, replace_others, new_app, store_app, redeem, register,
  get_app, revoke, revoke_found,
}

get-remove_all-none :
    (ks : List String) (d : Dict String Entry) (k : String)
    → get d k ≡ none
    → get (remove_all ks d) k ≡ none
unfolding remove_all
get-remove_all-none [] d k h = h
get-remove_all-none (j ∷ ks) d k h =
    get-remove_all-none ks (remove d j) k (ground (arith, get-remove d j k))

-- What a new owner makes of an app that is stored under an id.
abbrev pub succeeded : Bool → String → String → String → Option App → Option App
succeeded preserve_admin stamp key_id other_id none = none
succeeded preserve_admin stamp key_id other_id (some other) =
    if keeps preserve_admin key_id other_id other
    then some other
    else some (replaced_app stamp key_id other)

get-replace_others :
    (preserve_admin : Bool) (stamp key_id : String) (apps : Dict String App) (k : String)
    → get (replace_others preserve_admin stamp key_id apps).1 k
      ≡ succeeded preserve_admin stamp key_id k (get apps k)
unfolding replace_others get
get-replace_others preserve_admin stamp key_id [] k = refl
get-replace_others preserve_admin stamp key_id ((j, other) ∷ apps) k =
    ground (arith, get-replace_others preserve_admin stamp key_id apps k, eq_iff j k)

module _ (key_info : String → Option (String × String)) (cut : String → String) where
  -- What pairing an app with a code has done to the state: its app is stored with the default
  -- scopes, the other apps are replaced under a single owner, and the code is gone.
  abbrev pub Paired : Inputs → String → String → Pairing → App → Pairing → Type 0
  Paired i code id s app s' =
      (app.revoked ≡ false)
      × (app.scopes ≡ default_scopes)
      × (get s'.codes code ≡ none)
      × ((other : String)
          → get_app other s' ≡ (
              if id == other
              then some app
              else if s.single_owner
              then succeeded s.preserve_admin i.stamp id other (get_app other s)
              else get_app other s))

  store_app_ok :
      (i : Inputs) (code device_name : String) (o : Option (String × String)) (s s' : Pairing)
      (app : App) (replaced : List String)
      → store_app key_info cut i code device_name o s ≡ (ok (app, replaced), s')
      → (id normalized : String) × (o ≡ some (id, normalized)) × Paired i code id s app s'
  unfolding store_app new_app get_app load_apps
  store_app_ok i code device_name none s s' app replaced h = cc
  store_app_ok i code device_name (some (id, normalized)) s s' app replaced h = (
    id,
    normalized,
    refl,
    (
      ground arith,
      ground arith,
      ground (arith, get-remove s.codes code code, same_self code),
      λ other. ground (
        arith,
        get-put (load_apps s.apps) id other app,
        get-put (replace_others s.preserve_admin i.stamp id (load_apps s.apps)).1 id other app,
        get-replace_others s.preserve_admin i.stamp id (load_apps s.apps) other,
      ),
    ),
  )

  redeem_ok :
      (i : Inputs) (code public_key device_name : String) (o : Option Entry) (s s' : Pairing)
      (app : App) (replaced : List String)
      → redeem key_info cut i code public_key device_name o s ≡ (ok (app, replaced), s')
      → (e : Entry) × (o ≡ some e)
        × (e.attempts < max_attempts)
        × ((id normalized : String) × (key_info public_key ≡ some (id, normalized))
            × Paired i code id s app s')
  unfolding redeem get_app
  redeem_ok i code public_key device_name none s s' app replaced h = cc
  redeem_ok i code public_key device_name (some e) s s' app replaced h =
      let counted = record s {
        codes = put s.codes code (record e { attempts = e.attempts + 1 });
      } in
      elim (Bool-cases (leb max_attempts e.attempts)) [
        | inl late ↦ absurd (ground arith)
        | inr early ↦ (
          e,
          refl,
          ground arith,
          store_app_ok i code device_name (key_info public_key) counted s' app replaced
              (ground arith),
        )
      ]

  -- A key is paired only with a code that was generated and neither has expired nor was used three
  -- times. The app is stored under the id of its key, not revoked and with the default scopes; with
  -- a single owner every other app is revoked, but for those that are kept, else it stays; and the
  -- code is gone.
  pub register_ok :
      (i : Inputs) (code public_key device_name : String) (s s' : Pairing) (app : App)
      (replaced : List String)
      → IsDict s.codes
      → register key_info cut i code public_key device_name s ≡ (ok (app, replaced), s')
      → (e : Entry) × (get s.codes code ≡ some e)
        × (i.now ≤ e.expires)
        × (e.attempts < max_attempts)
        × ((id normalized : String) × (key_info public_key ≡ some (id, normalized))
            × Paired i code id s app s')
  unfolding register clean get_app entry_expired
  register_ok i code public_key device_name s s' app replaced distinct h =
      let cleaned = clean i.now s in
      let (e, found, early, paired) =
        redeem_ok i code public_key device_name (get cleaned.codes code) cleaned s' app replaced
          h in
      let kept = get-remove_all (entry_expired i.now) s.codes code distinct in
      elim (Option-cases (get s.codes code)) [
        | inl missing ↦ absurd (ground arith)
        | inr (e', stored) ↦ (e, ground arith, ground arith, early, paired)
      ]

  -- So a code pairs one app: whoever brings it again is told PAIR_CODE_INVALID, until it is
  -- generated again.
  pub register_once :
      (i j : Inputs) (code public_key device_name other_key other_name : String) (s s' : Pairing)
      (app : App) (replaced : List String)
      → IsDict s.codes
      → register key_info cut i code public_key device_name s ≡ (ok (app, replaced), s')
      → (register key_info cut j code other_key other_name s').0 ≡ err pair_code_invalid
  unfolding register clean redeem
  register_once i j code public_key device_name other_key other_name s s' app replaced distinct h =
      let (e, _, _, _, (id, _, _, (_, _, gone, _))) =
        register_ok i code public_key device_name s s' app replaced distinct h in
      ground
        (arith, get-remove_all-none (keys_where (entry_expired j.now) s'.codes) s'.codes code gone)

-- A revocation that is saved revokes the app of that id and changes no other app.
pub revoke_lem :
    (i : Inputs) (id other : String) (app : App) (s : Pairing)
    → get_app id s ≡ some app
    → i.saves ≡ true
    → get_app other (revoke i id s).1 ≡ (
        if id == other
        then some (record app { revoked = true; revoked_at = some i.stamp })
        else get_app other s)
unfolding revoke revoke_found get_app load_apps
revoke_lem i id other app s h saved = ground (
  arith,
  get-put (load_apps s.apps) id other (record app { revoked = true; revoked_at = some i.stamp }),
)
