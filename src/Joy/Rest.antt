-- ===== src/Joy/Rest.antt =====
-- Histories of a gamepad, and what a reset leaves of it.
use native.Mathlib.Nat.{div-le_of_le-mul}
use roboparty_rp_server.Prelude.{
  ℕ, zero, suc, ◌*◌, ◌/◌, min, ◌≤◌, ◌≡◌, refl, sym, ap, ◌∙◌, subst, Bool, true, false, String,
  Option, none, some, List, [], ◌∷◌, ◌==◌, nat_eq, string_eq, if◌then◌else◌, arith, eq_iff,
  Bool-cases, Option-cases, ◌⊎◌, inl, inr,
}
use roboparty_rp_server.Prelude.Dict.{Dict, get, put, values, contains, get-put}
use roboparty_rp_server.Joy.{
  ℤ, pos, negsuc, neg, abs, same, Ecodes, Text, axis_map, abs_event, syn, Joy, Budget, emit,
  resolve_btn, set_code, set_button, clamp, scale, set_axis_code, set_axis, is_off_centre, then_set,
  reset_axes, reset_keys, reset, init_axes, create, init, deinit, Call, sets_button, sets_axis,
  resets, deinits, step, run,
}
use roboparty_rp_server.Joy.Shown.{
  shown_abs, shown_key, scaled, Shows, set_axis_code-Shows, set_code-Shows, scale-zero, centred,
  Clears, reset_axes-Clears, Releases, reset_keys-Releases, presses-get,
}

contains-values :
    (d : Dict String ℕ) (name : String) (code : ℕ)
    → get d name ≡ some code
    → contains (values d) code ≡ true
unfolding get values
contains-values [] name code h = cc
contains-values ((k, c) ∷ d) name code h =
    ground (arith, eq_iff k name, contains-values d name code)

module _ (unit : ℕ) (e : Ecodes) (t : Text) where
  abbrev pub size : Option ℤ → ℕ
  size none = 0
  size (some v) = abs v

  -- The axes that the driver keeps are those of `AXIS_MAP`, with values from -1.0 to 1.0.
  abbrev pub Known : Joy → Type 0
  Known j =
      (c : ℕ)
      → ((contains (values (axis_map e)) c ≡ true) ⊎ (get j.axis_state c ≡ none))
        × (size (get j.axis_state c) ≤ unit)

  abs-neg : (n : ℕ) → abs (neg n) ≡ n
  unfolding abs neg
  abs-neg zero = refl
  abs-neg (suc n) = refl

  clamp-range : (v : ℤ) → abs (clamp unit v) ≤ unit
  unfolding clamp abs
  clamp-range (pos n) = omega arith
  clamp-range (negsuc n) = rw (abs-neg (min (suc n) unit)) (omega arith)

  scaled-range : (o : Option ℤ) → size o ≤ unit → size (scaled unit o) ≤ 32767
  unfolding scaled scale abs
  scaled-range none h = omega arith
  scaled-range (some (pos n)) h = div-le_of_le-mul unit (omega arith)
  scaled-range (some (negsuc n)) h =
      rw (abs-neg (suc n * 32767 / unit)) (div-le_of_le-mul unit (omega arith))

  pub set_axis-Known :
      (name : String) (value : ℤ) (j : Joy) → Known j → Known (set_axis unit e t none name value j)
  unfolding set_axis set_axis_code emit
  set_axis-Known name value j h c = elim (Option-cases (get (axis_map e) (t.lower name))) [
    | inl f ↦ ground (arith, h c, f)
    | inr (code, f) ↦ ground (
      arith,
      h c,
      f,
      contains-values (axis_map e) (t.lower name) code f,
      get-put j.axis_state code c (clamp unit value),
      clamp-range value,
    )
  ]

  set_code-axes :
      (code : Option ℕ) (value : Bool) (j : Joy)
      → (set_code none code value j).axis_state ≡ j.axis_state
  unfolding set_code emit
  set_code-axes none value j = refl
  set_code-axes (some code) value j = ground arith

  pub set_button-Known :
      (name state : String) (j : Joy) → Known j → Known (set_button e t none name state j)
  unfolding set_button
  set_button-Known name state j h c =
      rw (set_code-axes (resolve_btn e t name) (t.lower state == "down") j) (h c)

  -- An axis at its centre, and a key that is not pressed, as far as they were written.
  abbrev pub Rests : Joy → ℕ → Type 0
  Rests j code =
      ((shown_abs code j.events ≡ none) ⊎ (shown_abs code j.events ≡ some (pos 0)))
      × ((shown_key code j.events ≡ none) ⊎ (shown_key code j.events ≡ some false))

  if_false : (b : Bool) (j j' : Joy) → b ≡ false → (if b then j else j') ≡ j'
  if_false true j j' h = cc
  if_false false j j' h = refl

  pub if_true : (b : Bool) (j j' : Joy) → b ≡ true → (if b then j else j') ≡ j
  if_true true j j' h = refl
  if_true false j j' h = cc

  -- A reset that does not raise: its steps on the axes, then on the keys, and the end of the report.
  reset-steps :
      (j : Joy)
      → j.ready ≡ true
      → Shows unit j
      → (j1 j2 : Joy) × (Clears unit (values (axis_map e)) j (some none, j1))
        × (Releases unit j.btn_state j1 (some none, j2))
        × (reset e none j ≡ record j2 { events = syn ∷ j2.events })
  unfolding reset emit
  reset-steps j ready h =
      let codes = values (axis_map e) in
      let (b1, j1) = reset_axes codes (some none) j in
      let (ok1, shows1, gets1, keys1) = reset_axes-Clears unit codes j h in
      let (b2, j2) = reset_keys j.btn_state (some none) j1 in
      let (ok2, shows2, gets2, axes2) = reset_keys-Releases unit j.btn_state j1 shows1 in
      let finish : Option Budget → Joy =
        λ b. (emit syn (reset_keys j.btn_state b j1).0 (reset_keys j.btn_state b j1).1).1 in
      (
        j1,
        j2,
        (refl, shows1, gets1, keys1),
        (refl, shows2, gets2, axes2),
        if_true j.ready (finish b1) j ready ∙ ap finish ok1 ∙ ap (λ b. (emit syn b j2).1) ok2,
      )

  centred-lem : (o : Option ℤ) → (centred unit o ≡ none) ⊎ (centred unit o ≡ some (pos 0))
  unfolding centred is_off_centre same
  centred-lem none = inl refl
  centred-lem (some (pos n)) = inr (ground arith)
  centred-lem (some (negsuc n)) = inr refl

  scaled-rest :
      (o : Option ℤ)
      → (o ≡ none) ⊎ (o ≡ some (pos 0))
      → (scaled unit o ≡ none) ⊎ (scaled unit o ≡ some (pos 0))
  unfolding scaled
  scaled-rest o (inl h) = inl (rw h refl)
  scaled-rest o (inr h) = inr (rw h (ap some (scale-zero unit)))

  pub reset-lem :
      (j : Joy)
      → j.ready ≡ true
      → Shows unit j
      → Known j
      → let j' = reset e none j in Shows unit j' × Known j' × ((c : ℕ) → Rests j' c)
  unfolding shown_abs shown_key abs
  reset-lem j ready h known =
      let (j1, j2, (_, shows1, gets1, keys1), (_, (axes, keys), gets2, axes2), same) =
        reset-steps j ready h in
      let at_rest : (c : ℕ) → (get j2.axis_state c ≡ none) ⊎ (get j2.axis_state c ≡ some (pos 0)) =
        λ c. ground (arith, axes2, gets1 c, known c, centred-lem (get j.axis_state c)) in
      let released : (c : ℕ) → (get j2.btn_state c ≡ none) ⊎ (get j2.btn_state c ≡ some false) =
        λ c. ground (arith, gets2 c, keys1, presses-get unit j.btn_state c) in
      subst (λ j'. Shows unit j' × Known j' × ((c : ℕ) → Rests j' c)) (sym same)
        (
          (axes, keys),
          λ c. ground (arith, axes2, gets1 c, known c, centred-lem (get j.axis_state c)),
          λ c. (
            subst (λ o. (o ≡ none) ⊎ (o ≡ some (pos 0))) (sym (axes c))
                (scaled-rest (get j2.axis_state c) (at_rest c)),
            subst (λ o. (o ≡ none) ⊎ (o ≡ some false)) (sym (keys c)) (released c),
          ),
        )

  init_axes-lem :
      (codes : List ℕ) (j : Joy)
      → Shows unit j
      → Known j
      → ((c : ℕ) → contains codes c ≡ true → contains (values (axis_map e)) c ≡ true)
      → let (b, j') = init_axes codes (some none) j in
        (b ≡ some none) × Shows unit j' × Known j' × (j'.ready ≡ j.ready)
  unfolding init_axes then_set emit shown_abs shown_key scaled abs
  init_axes-lem [] j h known within = (refl, h, known, refl)
  init_axes-lem (code ∷ codes) j (axes, keys) known within =
      let j' : Joy = record j {
        axis_state = put j.axis_state code (pos 0);
        events = abs_event code (pos 0) ∷ j.events;
      } in
      init_axes-lem codes j'
        (
          λ c. ground (arith, axes c, get-put j.axis_state code c (pos 0), scale-zero unit),
          λ c. ground (arith, keys c),
        )
        (λ c.
          ground (arith, known c, get-put j.axis_state code c (pos 0), within code (ground arith)))
        (λ c m. within c (ground (arith, m)))

  abbrev pub opened : Joy
  opened = init e none create

  pub opened-lem : Shows unit opened × Known opened
  unfolding init create emit shown_abs shown_key scaled get
  opened-lem =
      let j : Joy = record create { ready = true; events = [] } in
      let (ok, (axes, keys), known, _) =
        init_axes-lem (values (axis_map e)) j (λ c. refl, λ c. refl) (λ c. (inr refl, omega arith))
          (λ c m. m) in
      let j' = (init_axes (values (axis_map e)) (some none) j).1 in
      subst (λ j. Shows unit j × Known j) (sym (ap (λ b. (emit syn b j').1) ok))
        ((axes, keys), known)

  reset-idle : (j : Joy) → j.ready ≡ false → reset e none j ≡ j
  unfolding reset
  reset-idle j h =
      let (b1, j1) = reset_axes (values (axis_map e)) (some none) j in
      let (b2, j2) = reset_keys j.btn_state b1 j1 in if_false j.ready (emit syn b2 j2).1 j h

  step-lem :
      (call : Call) (j : Joy)
      → Shows unit j
      → Known j
      → let j' = step unit e t call j in Shows unit j' × Known j'
  unfolding step set_button set_axis deinit
  step-lem (sets_button name state) j h known = (
    set_code-Shows unit (resolve_btn e t name) (t.lower state == "down") j h,
    set_button-Known name state j known,
  )
  step-lem (sets_axis name value) j h known = (
    set_axis_code-Shows unit (get (axis_map e) (t.lower name)) value j h,
    set_axis-Known name value j known,
  )
  step-lem resets j h known = elim (Bool-cases j.ready) [
    | inl ready ↦ let (shows, knows, _) = reset-lem j ready h known in (shows, knows)
    | inr idle ↦ subst (λ j'. Shows unit j' × Known j') (sym (reset-idle j idle)) (h, known)
  ]
  step-lem deinits j h known = (h, known)

  run-lem :
      (calls : List Call) (j : Joy)
      → Shows unit j
      → Known j
      → let j' = run unit e t calls j in Shows unit j' × Known j'
  unfolding run
  run-lem [] j h known = (h, known)
  run-lem (call ∷ calls) j h known =
      let (h', known') = step-lem call j h known in run-lem calls (step unit e t call j) h' known'

  -- After any history of calls that do not raise, on a driver that was opened, the gamepad shows
  -- what the driver keeps: an axis the scaled value of its state, or nothing where that has none,
  -- and a key whether it is pressed.
  pub run-init-Shows : (calls : List Call) → Shows unit (run unit e t calls opened)
  run-init-Shows calls = (run-lem calls opened opened-lem.0 opened-lem.1).0

  -- After any history of calls that do not raise, on a gamepad that was opened, every value that an
  -- axis shows is within the range that the device was made with.
  pub run-init-range :
      (calls : List Call) (code : ℕ)
      → size (shown_abs code (run unit e t calls opened).events) ≤ 32767
  run-init-range calls code =
      let j = run unit e t calls opened in
      let (shows, known) = run-lem calls opened opened-lem.0 opened-lem.1 in
      rw (shows.0 code) (scaled-range (get j.axis_state code) (known code).1)

  -- Behind a reset of a gamepad that is open, after any such history, every axis is shown at its
  -- centre and no key is shown as pressed, whatever was held before.
  pub run-reset-Rests :
      (calls : List Call) (code : ℕ)
      → (run unit e t calls opened).ready ≡ true
      → Rests (reset e none (run unit e t calls opened)) code
  run-reset-Rests calls code ready =
      let j = run unit e t calls opened in
      let (h, known) = run-lem calls opened opened-lem.0 opened-lem.1 in
      (reset-lem j ready h known).2 code
