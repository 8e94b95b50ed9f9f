-- ===== src/Joy/Opened.antt =====
-- A gamepad that was just opened.
use roboparty_rp_server.Prelude.{
  ℕ, refl, true, Option, none, some, List, [], ◌∷◌, zero, suc, nat_eq, string_eq, arith, inl,
}
use roboparty_rp_server.Prelude.Dict.{put, values}
use roboparty_rp_server.Joy.{
  pos, Event, Ecodes, Text, axis_map, abs_event, syn, Joy, Budget, emit, then_set, init_axes,
  create, init,
}
use roboparty_rp_server.Joy.Shown.{shown_abs, shown_key}
use roboparty_rp_server.Joy.Rest.{Rests, opened}

module _ (unit : ℕ) (e : Ecodes) (t : Text) where
  abbrev AllRest : Joy → Type 0
  AllRest j = (c : ℕ) → Rests unit e t j c

  centre-AllRest :
      (code : ℕ) (j : Joy)
      → AllRest j
      → AllRest (record j { events = abs_event code (pos 0) ∷ j.events })
  unfolding shown_abs shown_key
  centre-AllRest code j rests c = ground (arith, rests c)

  emit-AllRest :
      (ev : Event) (b : Option Budget) (j : Joy)
      → AllRest j
      → AllRest (record j { events = ev ∷ j.events })
      → AllRest (emit ev b j).1
  unfolding emit
  emit-AllRest ev none j rests next = rests
  emit-AllRest ev (some none) j rests next = next
  emit-AllRest ev (some (some zero)) j rests next = rests
  emit-AllRest ev (some (some (suc n))) j rests next = next

  then_set-AllRest :
      (code : ℕ) (r : Option Budget × Joy)
      → AllRest r.1
      → AllRest (then_set (λ j. record j { axis_state = put j.axis_state code (pos 0) }) r).1
  unfolding then_set
  then_set-AllRest code (none, j) rests = rests
  then_set-AllRest code (some b, j) rests = rests

  -- Events that bring an axis to its centre leave the rest at rest.
  init_axes-AllRest :
      (codes : List ℕ) (b : Option Budget) (j : Joy) → AllRest j → AllRest (init_axes codes b j).1
  unfolding init_axes
  init_axes-AllRest [] b j rests = rests
  init_axes-AllRest (code ∷ codes) b j rests =
      let (b', j') =
        then_set (λ j. record j { axis_state = put j.axis_state code (pos 0) })
          (emit (abs_event code (pos 0)) b j) in
      init_axes-AllRest codes b' j' (
        then_set-AllRest code (emit (abs_event code (pos 0)) b j)
          (emit-AllRest (abs_event code (pos 0)) b j rests (centre-AllRest code j rests)))

  -- An open gamepad that nothing was sent to is at rest.
  pub opened-Rests : AllRest (opened unit e t)
  unfolding init create shown_abs shown_key
  opened-Rests =
      let j : Joy = record { ready = true; axis_state = []; btn_state = []; events = [] } in
      let (b', j') = init_axes (values (axis_map e)) (some none) j in
      let rests =
        init_axes-AllRest (values (axis_map e)) (some none) j (λ c. (inl refl, inl refl)) in
      emit-AllRest syn b' j' rests (λ c. rests c)
