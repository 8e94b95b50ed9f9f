-- ===== src/Joy/Held.antt =====
-- A gamepad that stays open.
use roboparty_rp_server.Prelude.{
  ℕ, zero, suc, ◌≡◌, refl, ap, ◌∙◌, Bool, true, false, String, Option, none, some, List, [], ◌∷◌,
  ◌==◌, nat_eq, string_eq, arith, Bool-cases, Option-cases, inl, inr,
}
use roboparty_rp_server.Prelude.Dict.{Dict, get, put, values}
use roboparty_rp_server.Joy.{
  Event, key_event, reset_axis, reset_key, ℤ, pos, Ecodes, Text, axis_map, abs_event, syn, Joy,
  Budget, emit, resolve_btn, set_code, set_button, set_axis_code, set_axis, is_off_centre, then_set,
  reset_axes, reset_keys, reset, init_axes, create, init,
}
use roboparty_rp_server.Joy.Shown.{Shows, set_axis_code-Shows, set_code-Shows}
use roboparty_rp_server.Joy.Rest.{
  Known, Rests, opened, opened-lem, set_axis-Known, set_button-Known, reset-lem, if_true,
}

module _ (unit : ℕ) (e : Ecodes) (t : Text) where
  -- A gamepad that is open, and shows what the driver keeps.
  abbrev pub IsHeld : Joy → Type 0
  IsHeld j = (j.ready ≡ true) × Shows unit j × Known unit e t j

  pub set_axis-IsHeld :
      (name : String) (value : ℤ) (j : Joy)
      → IsHeld j
      → IsHeld (set_axis unit e t none name value j)
  unfolding set_axis set_axis_code emit
  set_axis-IsHeld name value j (ready, h, known) = (
    elim (Option-cases (get (axis_map e) (t.lower name))) [
      | inl f ↦ ground (arith, f, ready)
      | inr (code, f) ↦ ground (arith, f, ready)
    ],
    set_axis_code-Shows unit (get (axis_map e) (t.lower name)) value j h,
    set_axis-Known unit e t name value j known,
  )

  set_code-ready :
      (code : Option ℕ) (value : Bool) (j : Joy) → (set_code none code value j).ready ≡ j.ready
  unfolding set_code emit
  set_code-ready none value j = refl
  set_code-ready (some code) value j = ground arith

  pub set_button-IsHeld :
      (name state : String) (j : Joy) → IsHeld j → IsHeld (set_button e t none name state j)
  unfolding set_button
  set_button-IsHeld name state j (ready, h, known) = (
    set_code-ready (resolve_btn e t name) (t.lower state == "down") j ∙ ready,
    set_code-Shows unit (resolve_btn e t name) (t.lower state == "down") j h,
    set_button-Known unit e t name state j known,
  )

  emit-ready : (ev : Event) (b : Option Budget) (j : Joy) → (emit ev b j).1.ready ≡ j.ready
  unfolding emit
  emit-ready ev none j = refl
  emit-ready ev (some none) j = refl
  emit-ready ev (some (some zero)) j = refl
  emit-ready ev (some (some (suc n))) j = refl

  then_set-ready :
      (change : Joy → Joy) (r : Option Budget × Joy)
      → (change r.1).ready ≡ r.1.ready
      → (then_set change r).1.ready ≡ r.1.ready
  unfolding then_set
  then_set-ready change (none, j) h = refl
  then_set-ready change (some b, j) h = h

  set_pos-ready :
      (code : ℕ) (b : Option Budget) (j : Joy)
      → (then_set
          (λ j. record j { axis_state = put j.axis_state code (pos 0) })
          (emit (abs_event code (pos 0)) b j)).1.ready
        ≡ j.ready
  set_pos-ready code b j =
      then_set-ready (λ j. record j { axis_state = put j.axis_state code (pos 0) })
        (emit (abs_event code (pos 0)) b j) refl
      ∙ emit-ready (abs_event code (pos 0)) b j

  reset_axis-ready :
      (code : ℕ) (b : Option Budget) (j : Joy) → (reset_axis code b j).1.ready ≡ j.ready
  unfolding reset_axis
  reset_axis-ready code none j = refl
  reset_axis-ready code (some b) j = elim (Bool-cases (is_off_centre (get j.axis_state code))) [
    | inl h ↦ simp h (set_pos-ready code (some b) j)
    | inr h ↦ simp h refl
  ]

  reset_key-ready :
      (code : ℕ) (value : Bool) (b : Option Budget) (j : Joy)
      → (reset_key code value b j).1.ready ≡ j.ready
  unfolding reset_key
  reset_key-ready code value none j = refl
  reset_key-ready code false (some b) j = refl
  reset_key-ready code true (some b) j =
      then_set-ready (λ j. record j { btn_state = put j.btn_state code false })
        (emit (key_event code false) (some b) j) refl
      ∙ emit-ready (key_event code false) (some b) j

  reset_axes-ready :
      (codes : List ℕ) (b : Option Budget) (j : Joy) → (reset_axes codes b j).1.ready ≡ j.ready
  unfolding reset_axes
  reset_axes-ready [] b j = refl
  reset_axes-ready (code ∷ codes) b j =
      let (b', j') = reset_axis code b j in reset_axes-ready codes b' j' ∙ reset_axis-ready code b j

  reset_keys-ready :
      (keys : Dict ℕ Bool) (b : Option Budget) (j : Joy) → (reset_keys keys b j).1.ready ≡ j.ready
  unfolding reset_keys
  reset_keys-ready [] b j = refl
  reset_keys-ready ((code, value) ∷ keys) b j =
      let (b', j') = reset_key code value b j in
      reset_keys-ready keys b' j' ∙ reset_key-ready code value b j

  reset-ready : (j : Joy) → j.ready ≡ true → (reset e none j).ready ≡ true
  unfolding reset
  reset-ready j ready =
      let (b1, j1) = reset_axes (values (axis_map e)) (some none) j in
      let (b2, j2) = reset_keys j.btn_state b1 j1 in
      ap (λ j'. j'.ready) (if_true unit e t j.ready (emit syn b2 j2).1 j ready)
      ∙ emit-ready syn b2 j2
      ∙ reset_keys-ready j.btn_state b1 j1
      ∙ reset_axes-ready (values (axis_map e)) (some none) j
      ∙ ready

  pub reset-IsHeld : (j : Joy) → IsHeld j → IsHeld (reset e none j)
  reset-IsHeld j (ready, h, known) =
      let (shows, knows, _) = reset-lem unit e t j ready h known in
      (reset-ready j ready, shows, knows)

  init_axes-ready :
      (codes : List ℕ) (b : Option Budget) (j : Joy) → (init_axes codes b j).1.ready ≡ j.ready
  unfolding init_axes
  init_axes-ready [] b j = refl
  init_axes-ready (code ∷ codes) b j =
      let (b', j') =
        then_set (λ j. record j { axis_state = put j.axis_state code (pos 0) })
          (emit (abs_event code (pos 0)) b j) in
      init_axes-ready codes b' j' ∙ set_pos-ready code b j

  pub opened-IsHeld : IsHeld (opened unit e t)
  unfolding init create
  opened-IsHeld =
      let j : Joy = record { ready = true; axis_state = []; btn_state = []; events = [] } in
      let (b', j') = init_axes (values (axis_map e)) (some none) j in
      (
        emit-ready syn b' j' ∙ init_axes-ready (values (axis_map e)) (some none) j,
        (opened-lem unit e t).0,
        (opened-lem unit e t).1,
      )

  pub reset-Rests : (j : Joy) (code : ℕ) → IsHeld j → Rests unit e t (reset e none j) code
  reset-Rests j code (ready, h, known) = (reset-lem unit e t j ready h known).2 code
