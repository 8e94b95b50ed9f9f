-- ===== src/Joy/Shown.antt =====
-- What the gamepad shows.
use native.Mathlib.Nat.{zero-div}
use roboparty_rp_server.Prelude.{
  ℕ, ◌≡◌, refl, sym, ap, ◌∙◌, subst, Bool, true, false, ◌&&◌, ◌||◌, Option, none, some, List, [],
  ◌∷◌, ◌==◌, nat_eq, string_eq, if◌then◌else◌, arith, ◌⊎◌, inl, inr,
}
use roboparty_rp_server.Prelude.Dict.{Dict, get, contains, get-put}
use roboparty_rp_server.Joy.{
  ℤ, pos, same, Event, abs_event, key_event, syn, Joy, Budget, emit, set_code, clamp, scale,
  set_axis_code, is_off_centre, then_set, reset_axis, reset_axes, reset_key, reset_keys,
}

-- The last value that was written for an axis, and for a key.
unfoldable pub shown_abs : ℕ → List Event → Option ℤ
shown_abs code [] = none
shown_abs code (abs_event c v ∷ es) =
    let rest = shown_abs code es in if c == code then some v else rest
shown_abs code (key_event _ _ ∷ es) = shown_abs code es
shown_abs code (syn ∷ es) = shown_abs code es

unfoldable pub shown_key : ℕ → List Event → Option Bool
shown_key code [] = none
shown_key code (key_event c v ∷ es) =
    let rest = shown_key code es in if c == code then some v else rest
shown_key code (abs_event _ _ ∷ es) = shown_key code es
shown_key code (syn ∷ es) = shown_key code es

module _ (unit : ℕ) where
  unfoldable pub scaled : Option ℤ → Option ℤ
  scaled none = none
  scaled (some v) = some (scale unit v)

  -- The gamepad shows what the driver keeps.
  abbrev pub Shows : Joy → Type 0
  Shows j =
      ((code : ℕ) → shown_abs code j.events ≡ scaled (get j.axis_state code))
      × ((code : ℕ) → shown_key code j.events ≡ get j.btn_state code)

  pub set_axis_code-Shows :
      (code : Option ℕ) (value : ℤ) (j : Joy)
      → Shows j
      → Shows (set_axis_code unit none code value j)
  unfolding set_axis_code emit shown_abs shown_key scaled
  set_axis_code-Shows none value j h = h
  set_axis_code-Shows (some code) value j (axes, keys) = (
    λ c. ground (arith, axes c, get-put j.axis_state code c (clamp unit value)),
    λ c. ground (arith, keys c),
  )

  pub set_code-Shows :
      (code : Option ℕ) (value : Bool) (j : Joy) → Shows j → Shows (set_code none code value j)
  unfolding set_code emit shown_abs shown_key
  set_code-Shows none value j h = h
  set_code-Shows (some code) value j (axes, keys) =
      (λ c. ground (arith, axes c), λ c. ground (arith, keys c, get-put j.btn_state code c value))

  pub scale-zero : scale unit (pos 0) ≡ pos 0
  unfolding scale
  scale-zero = ap pos (zero-div unit)

  pub reset_axis-Shows : (code : ℕ) (j : Joy) → Shows j → Shows (reset_axis code (some none) j).1
  unfolding reset_axis emit then_set shown_abs shown_key scaled
  reset_axis-Shows code j (axes, keys) = (
    λ c. ground (arith, axes c, get-put j.axis_state code c (pos 0), scale-zero),
    λ c. ground (arith, keys c),
  )

  -- A step of a reset that does not raise, and what it leaves of the axes and the keys.
  reset_axis-budget : (code : ℕ) (j : Joy) → (reset_axis code (some none) j).0 ≡ some none
  unfolding reset_axis emit then_set
  reset_axis-budget code j = ground arith

  unfoldable pub centred : Option ℤ → Option ℤ
  centred o = if is_off_centre o then some (pos 0) else o

  reset_axis-get :
      (code c : ℕ) (j : Joy)
      → get (reset_axis code (some none) j).1.axis_state c
        ≡ (if code == c then centred (get j.axis_state c) else get j.axis_state c)
  unfolding reset_axis emit then_set centred
  reset_axis-get code c j = ground (arith, get-put j.axis_state code c (pos 0))

  -- What the steps of a reset over these axes leave.
  abbrev pub Clears : List ℕ → Joy → Option Budget × Joy → Type 0
  Clears codes j (b, j') =
      (b ≡ some none)
      × Shows j'
      × ((c : ℕ)
          → get j'.axis_state c
            ≡ (if contains codes c then centred (get j.axis_state c) else get j.axis_state c))
      × (j'.btn_state ≡ j.btn_state)

  centred-centred : (o : Option ℤ) → centred (centred o) ≡ centred o
  unfolding centred is_off_centre same
  centred-centred o = ground arith

  reset_axis-keys : (code : ℕ) (j : Joy) → (reset_axis code (some none) j).1.btn_state ≡ j.btn_state
  unfolding reset_axis emit then_set
  reset_axis-keys code j = ground arith

  pub reset_axes-Clears :
      (codes : List ℕ) (j : Joy) → Shows j → Clears codes j (reset_axes codes (some none) j)
  unfolding reset_axes
  reset_axes-Clears [] j h = (refl, h, λ c. refl, refl)
  reset_axes-Clears (code ∷ codes) j h =
      let (b1, j1) = reset_axis code (some none) j in
      let (ok, shows, gets, keys) = reset_axes-Clears codes j1 (reset_axis-Shows code j h) in
      subst (λ b. Clears (code ∷ codes) j (reset_axes codes b j1)) (sym (reset_axis-budget code j))
        (
          ok,
          shows,
          λ c.
              ground (arith, gets c, reset_axis-get code c j, centred-centred (get j.axis_state c)),
          keys ∙ reset_axis-keys code j,
        )

  -- The same for keys: the entries that are gone through are those of the table.
  reset_key-Shows :
      (code : ℕ) (value : Bool) (j : Joy) → Shows j → Shows (reset_key code value (some none) j).1
  unfolding reset_key emit then_set shown_abs shown_key
  reset_key-Shows code true j (axes, keys) =
      (λ c. ground (arith, axes c), λ c. ground (arith, keys c, get-put j.btn_state code c false))
  reset_key-Shows code false j h = h

  reset_key-budget :
      (code : ℕ) (value : Bool) (j : Joy) → (reset_key code value (some none) j).0 ≡ some none
  unfolding reset_key emit then_set
  reset_key-budget code true j = refl
  reset_key-budget code false j = refl

  reset_key-axes :
      (code : ℕ) (value : Bool) (j : Joy)
      → (reset_key code value (some none) j).1.axis_state ≡ j.axis_state
  unfolding reset_key emit then_set
  reset_key-axes code true j = refl
  reset_key-axes code false j = refl

  -- A key is up, or stays what it was where the table has it up.
  reset_key-get :
      (code : ℕ) (value : Bool) (c : ℕ) (j : Joy)
      → get (reset_key code value (some none) j).1.btn_state c
        ≡ (if (code == c) && value then some false else get j.btn_state c)
  unfolding reset_key emit then_set
  reset_key-get code true c j = ground (arith, get-put j.btn_state code c false)
  reset_key-get code false c j = ground arith

  -- Whether the entries have the key as pressed.
  pub presses : Dict ℕ Bool → ℕ → Bool
  presses [] c = false
  presses ((code, value) ∷ keys) c = (code == c && value) || presses keys c

  abbrev pub Releases : Dict ℕ Bool → Joy → Option Budget × Joy → Type 0
  Releases keys j (b, j') =
      (b ≡ some none)
      × Shows j'
      × ((c : ℕ) → get j'.btn_state c ≡ (if presses keys c then some false else get j.btn_state c))
      × (j'.axis_state ≡ j.axis_state)

  pub reset_keys-Releases :
      (keys : Dict ℕ Bool) (j : Joy) → Shows j → Releases keys j (reset_keys keys (some none) j)
  unfolding reset_keys presses
  reset_keys-Releases [] j h = (refl, h, λ c. refl, refl)
  reset_keys-Releases ((code, value) ∷ keys) j h =
      let (b1, j1) = reset_key code value (some none) j in
      let (ok, shows, gets, axes) = reset_keys-Releases keys j1 (reset_key-Shows code value j h) in
      subst (λ b. Releases ((code, value) ∷ keys) j (reset_keys keys b j1))
        (sym (reset_key-budget code value j))
        (
          ok,
          shows,
          λ c. ground (arith, gets c, reset_key-get code value c j),
          axes ∙ reset_key-axes code value j,
        )

  pub presses-get :
      (keys : Dict ℕ Bool) (c : ℕ)
      → (presses keys c ≡ true) ⊎ (get keys c ≡ none) ⊎ (get keys c ≡ some false)
  unfolding presses get
  presses-get [] c = inr (inl refl)
  presses-get ((code, value) ∷ keys) c = ground (arith, presses-get keys c)
