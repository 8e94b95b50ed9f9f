-- ===== src/Robot/Idle.antt =====
-- The gamepad while nobody owns control.
use roboparty_rp_server.Prelude.{
  ℕ, ◌≡◌, refl, sym, subst, ap, ◌∙◌, Bool, true, false, Option, none, some, List,
}
use roboparty_rp_server.Joy.{Ecodes, Text, Joy}
use roboparty_rp_server.Joy
use roboparty_rp_server.Joy.Rest.{Rests, opened}
use roboparty_rp_server.Joy.Held.{IsHeld, reset-IsHeld, reset-Rests, opened-IsHeld}
use roboparty_rp_server.Joy.Opened.{opened-Rests}
use roboparty_rp_server.Handler.{Enums, Drivers, handle}
use roboparty_rp_server.Handler
use roboparty_rp_server.Handler.Held.{handle-Held}
use roboparty_rp_server.Lease.{
  Device, Config, Lease, Call, halt, halt_policy, policy_stopped, create, run,
}
use roboparty_rp_server.Lease.Idle.{run-IsIdle, create-IsIdle, free-Rests}
use roboparty_rp_server.Robot.{robot, stop_policy, reset_joy, command, stop_result, handled}

module _ (unit : ℕ) (e : Ecodes) (t : Text) (en : Enums) (d : Drivers) (Answer : Type 0)
    (failed : d.State → Bool) where
  abbrev pub device : Device
  device = robot unit e t en d Answer failed

  abbrev pub Holds : Joy × d.State → Type 0
  Holds dev = IsHeld unit e t dev.0

  -- Every axis of the gamepad at its centre, and no key pressed.
  abbrev pub AtRest : Joy × d.State → Type 0
  AtRest dev = (code : ℕ) → Rests unit e t dev.0 code

  stop_result-joy :
      (r : Option (Option Bool) × d.State) (j : Joy)
      → (stop_result unit e t en d Answer r j).1.0 ≡ j
  unfolding stop_result
  stop_result-joy (none, s) j = refl
  stop_result-joy (some none, s) j = refl
  stop_result-joy (some (some ok), s) j = refl

  policy_stopped-dev : (r : Option Bool × (Joy × d.State)) → (policy_stopped device r).1 ≡ r.1
  unfolding policy_stopped
  policy_stopped-dev (none, dev) = refl
  policy_stopped-dev (some stopped, dev) = refl

  halt_policy-joy :
      (is_running : Bool) (dev : Joy × d.State)
      → (halt_policy device (some is_running) dev).1.0 ≡ dev.0
  unfolding halt_policy stop_policy
  halt_policy-joy true (j, s) =
      ap (λ dev. dev.0) (policy_stopped-dev (stop_result unit e t en d Answer (d.stop s) j))
      ∙ stop_result-joy (d.stop s) j
  halt_policy-joy false dev = refl

  -- What stopping leaves of the gamepad is what its reset leaves.
  halt-joy : (dev : Joy × d.State) → (halt device dev).1.0 ≡ Joy.reset e none dev.0
  unfolding halt reset_joy
  halt-joy (j, s) = halt_policy-joy (d.running s) (Joy.reset e none j, s)

  pub halt-AtRest :
      (dev : Joy × d.State) → Holds dev → Holds (halt device dev).1 × AtRest (halt device dev).1
  halt-AtRest dev held = (
    subst (IsHeld unit e t) (sym (halt-joy dev)) (reset-IsHeld unit e t dev.0 held),
    λ code.
        subst (λ j. Rests unit e t j code) (sym (halt-joy dev))
          (reset-Rests unit e t dev.0 code held),
  )

  pub command-Holds :
      (env : Handler.Body Answer) (dev : Joy × d.State)
      → Holds dev
      → Holds (command unit e t en d Answer env dev).1
  unfolding command handled
  command-Holds env (j, s) held = handle-Held unit e t en d Answer env j s held

  -- After any calls of sessions, the watchdog and the operator on the lease of a robot whose
  -- gamepad was opened, with handlers that raise, stops that fail and callers that are cancelled,
  -- while uinput does not raise: if nobody owns control, every axis of the gamepad is at its centre
  -- and no key is pressed.
  pub free-AtRest :
      (now : ℕ → ℕ) (c : Config) (s : d.State) (l : Lease device)
      (calls : List (Bool × Call device now c)) (code : ℕ)
      → create device c (opened unit e t, s) ≡ some l
      → (run device now c calls l).owner ≡ none
      → Rests unit e t (run device now c calls l).dev.0 code
  free-AtRest now c s l calls code made free =
      let gamepad : Joy × d.State = (opened unit e t, s) in
      let idle = run-IsIdle device Holds AtRest halt-AtRest command-Holds now c calls l (
        create-IsIdle device Holds AtRest halt-AtRest command-Holds now c gamepad l
          (opened-IsHeld unit e t) (opened-Rests unit e t) made) in
      free-Rests device Holds AtRest halt-AtRest command-Holds now c (run device now c calls l) free
        idle code
