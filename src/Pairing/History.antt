-- ===== src/Pairing/History.antt =====
-- How often one code serves in a history of calls.
use roboparty_rp_server.Prelude.{
  ℕ, ◌+◌, ◌-◌, ◌≤◌, ◌≡◌, refl, Bool, false, ◌||◌, String, Option, none, some, List, [], ◌∷◌, leb,
  ◌==◌, string_eq, eq_iff, if◌then◌else◌, arith, Bool-cases, inl, inr,
}
use roboparty_rp_server.Prelude.Result.{Result, ok, err}
use roboparty_rp_server.Prelude.Dict.{
  get, put, get-put, get-remove, get-remove_all-contains, keys_where, same_self,
}
use roboparty_rp_server.Pairing.{
  PairingError, pair_code_invalid, pair_code_locked, invalid_public_key, not_saved, Entry, App,
  Pairing, Inputs, max_attempts, entry_expired, clean, generate_code, store_app, redeem, register,
  revoke, revoke_found, get_app, Call, generates, registers, revokes, step,
}

-- Whether a registration comes by the check of its code.
abbrev pub served : Result PairingError (App × List String) → ℕ
served (ok _) = 1
served (err pair_code_invalid) = 0
served (err pair_code_locked) = 0
served (err invalid_public_key) = 1
served (err not_saved) = 1

-- Whether it pairs an app.
abbrev pub paired : Result PairingError (App × List String) → ℕ
paired (ok _) = 1
paired (err _) = 0

-- Whether the code is generated again.
abbrev pub regenerates : String → List Call → Bool
regenerates code [] = false
regenerates code (generates other now later ∷ calls) = other == code || regenerates code calls
regenerates code (registers i other key name ∷ calls) = regenerates code calls
regenerates code (revokes i id ∷ calls) = regenerates code calls

revoke_found_codes :
    (i : Inputs) (id : String) (o : Option App) (s : Pairing)
    → (revoke_found i id o s).1.codes ≡ s.codes
unfolding revoke_found
revoke_found_codes i id none s = refl
revoke_found_codes i id (some app) s = ground arith

module _ (key_info : String → Option (String × String)) (cut : String → String) where
  -- How many of the registrations with the code `test` counts.
  abbrev pub total :
      (Result PairingError (App × List String) → ℕ) → String → List Call → Pairing → ℕ
  total test code [] s = 0
  total test code (generates other now later ∷ calls) s =
      total test code calls (step key_info cut (generates other now later) s)
  total test code (registers i other key name ∷ calls) s =
      let rest = total test code calls (step key_info cut (registers i other key name) s) in
      if other == code then test (register key_info cut i other key name s).0 + rest else rest
  total test code (revokes i id ∷ calls) s =
      total test code calls (step key_info cut (revokes i id) s)

  -- How often the code may still serve, and pair.
  abbrev left : Option Entry → ℕ
  left none = 0
  left (some e) = max_attempts - e.attempts

  abbrev stands : Option Entry → ℕ
  stands none = 0
  stands (some e) = 1

  -- `served_by` and `paired_by` are paid for by what is left of the code.
  abbrev Pays : ℕ → ℕ → Option Entry → Option Entry → Type 0
  Pays served_by paired_by o o' =
      (served_by + left o' ≤ left o) × (paired_by + stands o' ≤ stands o)

  clean-Pays :
      (now : ℕ) (code : String) (s : Pairing)
      → Pays 0 0 (get s.codes code) (get (clean now s).codes code)
  unfolding clean
  clean-Pays now code s =
      ground (arith, get-remove_all-contains (keys_where (entry_expired now) s.codes) s.codes code)

  store_app_pays :
      (i : Inputs) (code name : String) (o : Option (String × String)) (e : Entry) (s : Pairing)
      → get s.codes code ≡ some e
      → let r = store_app key_info cut i code name o s in
        (served r.0 ≡ 1)
        × (paired r.0 + stands (get r.1.codes code) ≤ 1)
        × (left (get r.1.codes code) ≤ left (some e))
  unfolding store_app
  store_app_pays i code name none e s h = ground arith
  store_app_pays i code name (some (id, normalized)) e s h = elim (Bool-cases i.saves) [
    | inl b ↦ rw b (ground (arith, get-remove s.codes code code, same_self code))
    | inr b ↦ rw b (ground arith)
  ]

  redeem-Pays :
      (i : Inputs) (code public_key name : String) (o : Option Entry) (s : Pairing)
      → get s.codes code ≡ o
      → let r = redeem key_info cut i code public_key name o s in
        Pays (served r.0) (paired r.0) o (get r.1.codes code)
  unfolding redeem
  redeem-Pays i code public_key name none s h = ground arith
  redeem-Pays i code public_key name (some e) s h =
      let counted : Entry = record e { attempts = e.attempts + 1 } in
      let s' : Pairing = record s { codes = put s.codes code counted } in
      elim (Bool-cases (leb max_attempts e.attempts)) [
        | inl late ↦ rw late (ground (arith, get-remove s.codes code code, same_self code))
        | inr early ↦
            let here : get s'.codes code ≡ some counted =
              ground (arith, get-put s.codes code code counted, same_self code) in
            let (one, once, less) =
              store_app_pays i code name (key_info public_key) counted s' here in
            rw early (ground arith)
      ]

  register-Pays :
      (i : Inputs) (code public_key name : String) (s : Pairing)
      → let r = register key_info cut i code public_key name s in
        Pays (served r.0) (paired r.0) (get s.codes code) (get r.1.codes code)
  unfolding register
  register-Pays i code public_key name s =
      let cleaned = clean i.now s in
      ground (
        arith,
        clean-Pays i.now code s,
        redeem-Pays i code public_key name (get cleaned.codes code) cleaned refl,
      )

  store_app_other :
      (i : Inputs) (other code name : String) (o : Option (String × String)) (s : Pairing)
      → (other == code) ≡ false
      → get (store_app key_info cut i other name o s).1.codes code ≡ get s.codes code
  unfolding store_app
  store_app_other i other code name none s ne = refl
  store_app_other i other code name (some (id, normalized)) s ne = elim (Bool-cases i.saves) [
    | inl b ↦ rw b (ground (arith, get-remove s.codes other code))
    | inr b ↦ rw b refl
  ]

  redeem_other :
      (i : Inputs) (other code public_key name : String) (o : Option Entry) (s : Pairing)
      → (other == code) ≡ false
      → get (redeem key_info cut i other public_key name o s).1.codes code ≡ get s.codes code
  unfolding redeem
  redeem_other i other code public_key name none s ne = refl
  redeem_other i other code public_key name (some e) s ne =
      let counted : Entry = record e { attempts = e.attempts + 1 } in
      let s' : Pairing = record s { codes = put s.codes other counted } in
      elim (Bool-cases (leb max_attempts e.attempts)) [
        | inl late ↦ rw late (ground (arith, get-remove s.codes other code))
        | inr early ↦ rw early (
            ground (
              arith,
              store_app_other i other code name (key_info public_key) s' ne,
              get-put s.codes other code counted,
            ))
      ]

  register_other :
      (i : Inputs) (other code public_key name : String) (s : Pairing)
      → (other == code) ≡ false
      → Pays 0 0
          (get s.codes code)
          (get (register key_info cut i other public_key name s).1.codes code)
  unfolding register
  register_other i other code public_key name s ne =
      let cleaned = clean i.now s in
      ground (
        arith,
        clean-Pays i.now code s,
        redeem_other i other code public_key name (get cleaned.codes other) cleaned ne,
      )

  generate_code_other :
      (other code : String) (now later : ℕ) (s : Pairing)
      → (other == code) ≡ false
      → Pays 0 0 (get s.codes code) (get (generate_code other now later s).codes code)
  unfolding generate_code
  generate_code_other other code now later s ne = ground (
    arith,
    clean-Pays now code s,
    get-put (clean now s).codes other code (record { expires = later + s.ttl; attempts = 0 }),
  )

  revoke_codes : (i : Inputs) (id : String) (s : Pairing) → (revoke i id s).1.codes ≡ s.codes
  unfolding revoke
  revoke_codes i id s = revoke_found_codes i id (get_app id s) s

  total_pays :
      (code : String) (calls : List Call) (s : Pairing)
      → regenerates code calls ≡ false
      → (total served code calls s ≤ left (get s.codes code))
        × (total paired code calls s ≤ stands (get s.codes code))
  unfolding step
  total_pays code [] s h = ground arith
  total_pays code (generates other now later ∷ calls) s h = ground (
    arith,
    generate_code_other other code now later s,
    total_pays code calls (generate_code other now later s),
  )
  total_pays code (registers i other key name ∷ calls) s h =
      let rest = total_pays code calls (register key_info cut i other key name s).1 h in
      elim (Bool-cases (other == code)) [
        | inl e ↦
            let same : other ≡ code = (eq_iff other code).0 e in
            ground (arith, register-Pays i other key name s)
        | inr e ↦ ground (arith, register_other i other code key name s e)
      ]
  total_pays code (revokes i id ∷ calls) s h =
      ground (arith, revoke_codes i id s, total_pays code calls (revoke i id s).1)

  -- However registrations, revocations and new codes follow on the generation of a code: until it is
  -- generated again, at most three registrations with it come by its check, all others are refused
  -- for their code, and at most one of them pairs an app.
  pub total-generate_code :
      (code : String) (now later : ℕ) (calls : List Call) (s : Pairing)
      → regenerates code calls ≡ false
      → (total served code calls (generate_code code now later s) ≤ 3)
        × (total paired code calls (generate_code code now later s) ≤ 1)
  unfolding generate_code
  total-generate_code code now later calls s h =
      let e : Entry = record { expires = later + s.ttl; attempts = 0 } in
      ground (
        arith,
        total_pays code calls (generate_code code now later s) h,
        get-put (clean now s).codes code code e,
        same_self code,
      )
