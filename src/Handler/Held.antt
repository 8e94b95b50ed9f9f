-- ===== src/Handler/Held.antt =====
-- What the commands leave of the gamepad.
use roboparty_rp_server.Prelude.{
  ℕ, ◌≡◌, refl, Bool, true, false, String, Option, none, some, List, [], ◌∷◌, ◌==◌, string_eq,
  if◌then◌else◌, Bool-cases, inl, inr,
}
use roboparty_rp_server.Joy.{ℤ, clamp, Ecodes, Text, Joy, set_button, set_axis}
use roboparty_rp_server.Joy
use roboparty_rp_server.Joy.Rest.{Rests, opened}
use roboparty_rp_server.Joy.Held.{
  IsHeld, set_axis-IsHeld, set_button-IsHeld, reset-IsHeld, reset-Rests, opened-IsHeld,
}
use roboparty_rp_server.Handler.{
  Reply, button_ack, Enums, axis_name, button_name, button_state_name, ButtonEvent, AxisValue,
  Action, start_action, stop_action, other_action, Body, query, button, joystick, control,
  policy_command, reset, skill_action, unsupported, Drivers, quantize, set_named_axis,
  apply_joystick, set_named_button, apply_button, after, apply_buttons, apply_axes, apply_control,
  replying, policy_started, policy_stopped, command_policy, reset_stopped, reset_policy, reset_all,
  handle,
}

module _ (unit : ℕ) (e : Ecodes) (t : Text) (en : Enums) where
  abbrev pub Held : Joy → Type 0
  Held j = IsHeld unit e t j

  if-Held :
      (b : Bool) (r r' : Option (Unit {0}) × Joy)
      → Held r.1
      → Held r'.1
      → Held (if b then r else r').1
  if-Held true r r' h k = h
  if-Held false r r' h k = k

  named_axis-Held :
      (o : Option String) (value : ℤ) (j : Joy)
      → Held j
      → Held (set_named_axis unit e t en o value j).1
  unfolding set_named_axis
  named_axis-Held none value j h = h
  named_axis-Held (some name) value j h =
      let v = clamp unit (quantize unit e t en value) in
      if-Held (name == "") (some tt, j) (some tt, set_axis unit e t none name v j) h
        (set_axis-IsHeld unit e t name v j h)

  named_button-Held :
      (o : Option String) (event : ButtonEvent) (j : Joy)
      → Held j
      → Held (set_named_button unit e t en o event j).1
  unfolding set_named_button
  named_button-Held none event j h = h
  named_button-Held (some name) event j h =
      let state = button_state_name en event.state in
      if-Held (name == "") (some tt, j) (some tt, set_button e t none name state j) h
        (set_button-IsHeld unit e t name state j h)

  apply_joystick-Held : (a : AxisValue) (j : Joy) → Held j → Held (apply_joystick unit e t en a j).1
  unfolding apply_joystick
  apply_joystick-Held a j h = named_axis-Held (axis_name en a.axis) a.value j h

  apply_button-Held :
      (event : ButtonEvent) (j : Joy) → Held j → Held (apply_button unit e t en event j).1
  unfolding apply_button
  apply_button-Held event j h = named_button-Held (button_name en event.button) event j h

  after-Held :
      (r : Option (Unit {0}) × Joy) (next : Joy → Option (Unit {0}) × Joy)
      → Held r.1
      → (Held r.1 → Held (next r.1).1)
      → Held (after unit e t en r next).1
  unfolding after
  after-Held (none, j) next h k = h
  after-Held (some _, j) next h k = k h

  apply_buttons-Held :
      (events : List ButtonEvent) (j : Joy) → Held j → Held (apply_buttons unit e t en events j).1
  unfolding apply_buttons
  apply_buttons-Held [] j h = h
  apply_buttons-Held (event ∷ events) j h =
      after-Held (apply_button unit e t en event j) (apply_buttons unit e t en events)
        (apply_button-Held event j h)
        (apply_buttons-Held events (apply_button unit e t en event j).1)

  apply_axes-Held :
      (axes : List AxisValue) (j : Joy) → Held j → Held (apply_axes unit e t en axes j).1
  unfolding apply_axes
  apply_axes-Held [] j h = h
  apply_axes-Held (a ∷ axes) j h =
      after-Held (apply_joystick unit e t en a j) (apply_axes unit e t en axes)
        (apply_joystick-Held a j h) (apply_axes-Held axes (apply_joystick unit e t en a j).1)

  apply_control-Held :
      (axes : List AxisValue) (events : List ButtonEvent) (j : Joy)
      → Held j
      → Held (apply_control unit e t en axes events j).1
  unfolding apply_control
  apply_control-Held axes events j h =
      after-Held (apply_axes unit e t en axes j) (apply_buttons unit e t en events)
        (apply_axes-Held axes j h) (apply_buttons-Held events (apply_axes unit e t en axes j).1)

  module _ (d : Drivers) (Answer : Type 0) where
    replying-Held :
        (replies : List (Reply Answer)) (r : Option (Unit {0}) × Joy) (s : d.State)
        → Held r.1
        → Held (replying unit e t en d Answer replies r s).1
    unfolding replying
    replying-Held replies (none, j) s h = h
    replying-Held replies (some _, j) s h = h

    reset_stopped-joy :
        (r : Option (Option Bool) × d.State) (j : Joy)
        → (reset_stopped unit e t en d Answer r j).1 ≡ j
    unfolding reset_stopped
    reset_stopped-joy (none, s) j = refl
    reset_stopped-joy (some _, s) j = refl

    started-joy :
        (name : String) (r : Option Bool × d.State) (j : Joy)
        → (policy_started unit e t en d Answer name r j).1 ≡ j
    unfolding policy_started
    started-joy name (none, s) j = refl
    started-joy name (some _, s) j = refl

    stopped-joy :
        (name : String) (r : Option (Option Bool) × d.State) (j : Joy)
        → (policy_stopped unit e t en d Answer name r j).1 ≡ j
    unfolding policy_stopped
    stopped-joy name (none, s) j = refl
    stopped-joy name (some _, s) j = refl

    reset_policy-joy :
        (r : Option (Unit {0}) × d.State) (j : Joy) → (reset_policy unit e t en d Answer r j).1 ≡ j
    unfolding reset_policy
    reset_policy-joy (none, s) j = refl
    reset_policy-joy (some _, s) j = elim (Bool-cases (d.running s)) [
      | inl h ↦ simp h (reset_stopped-joy (d.stop s) j)
      | inr h ↦ simp h refl
    ]

    policy-joy :
        (action : Action) (name : String) (j : Joy) (s : d.State)
        → (command_policy unit e t en d Answer action name j s).1 ≡ j
    unfolding command_policy
    policy-joy start_action name j s = started-joy name (d.start name s) j
    policy-joy stop_action name j s = stopped-joy name (d.stop s) j
    policy-joy other_action name j s = refl

    pub handle-Held :
        (body : Body Answer) (j : Joy) (s : d.State)
        → Held j
        → Held (handle unit e t en d Answer body j s).1
    unfolding handle reset_all
    handle-Held (query answers) j s h = h
    handle-Held (button event) j s h =
        replying-Held (button_ack event.id ∷ []) (apply_button unit e t en event j) s
          (apply_button-Held event j h)
    handle-Held (joystick a) j s h =
        replying-Held [] (apply_joystick unit e t en a j) s (apply_joystick-Held a j h)
    handle-Held (control axes buttons) j s h =
        replying-Held [] (apply_control unit e t en axes buttons j) s
          (apply_control-Held axes buttons j h)
    handle-Held (policy_command action name) j s h = rw (policy-joy action name j s) h
    handle-Held reset j s h =
        rw (reset_policy-joy (d.clear_errors s) (Joy.reset e none j)) (reset-IsHeld unit e t j h)
    handle-Held skill_action j s h = h
    handle-Held unsupported j s h = h

    -- A query leaves the gamepad alone.
    pub query-joy :
        (answers : List Answer) (j : Joy) (s : d.State)
        → (handle unit e t en d Answer (query answers) j s).1 ≡ j
    unfolding handle
    query-joy answers j s = refl

    -- The envelopes that are handled one behind the other, also behind one that raises.
    abbrev pub handle_all : List (Body Answer) → Joy × d.State → Joy × d.State
    handle_all [] (j, s) = (j, s)
    handle_all (body ∷ bodies) (j, s) =
        let (_, j', s') = handle unit e t en d Answer body j s in handle_all bodies (j', s')

    handle_all-Held :
        (bodies : List (Body Answer)) (j : Joy) (s : d.State)
        → Held j
        → Held (handle_all bodies (j, s)).0
    handle_all-Held [] j s h = h
    handle_all-Held (body ∷ bodies) j s h =
        let (_, j', s') = handle unit e t en d Answer body j s in
        handle_all-Held bodies j' s' (handle-Held body j s h)

    -- After any envelopes, while uinput does not raise, on a gamepad that was opened, it is open and
    -- shows what the driver keeps; and a reset that is handled next leaves each axis shown at its
    -- centre and each key not shown as pressed, however the motors and the policy answer it.
    pub handle-reset :
        (bodies : List (Body Answer)) (s : d.State) (code : ℕ)
        → let (j, s') = handle_all bodies (opened unit e t, s) in
          Held j × Rests unit e t (handle unit e t en d Answer reset j s').1 code
    unfolding handle reset_all
    handle-reset bodies s code =
        let (j, s') = handle_all bodies (opened unit e t, s) in
        let h = handle_all-Held bodies (opened unit e t) s (opened-IsHeld unit e t) in
        (
          h,
          rw (reset_policy-joy (d.clear_errors s') (Joy.reset e none j))
              (reset-Rests unit e t j code h),
        )
