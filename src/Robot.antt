-- ===== src/Robot.antt =====
-- protocol/handler.py behind protocol/control_lease.py, as ws_server.py composes them: the device of
-- Lease.antt is the gamepad of Joy.antt with the drivers of Handler.antt, and a command of the lease
-- is an envelope of its handler.
pub mod Idle
pub mod Served
mod Tests
use roboparty_rp_server.Prelude.{ℕ, Bool, true, Option, none, some, List, [], ◌∷◌, map}
use roboparty_rp_server.Joy.{ℤ, Ecodes, Text, Joy}
use roboparty_rp_server.Joy
use roboparty_rp_server.Handler.{AxisValue, Enums, Reply, Drivers, handle}
use roboparty_rp_server.Handler
use roboparty_rp_server.Lease.{Device}
use roboparty_rp_server.Lease

module _ (unit : ℕ) (e : Ecodes) (t : Text) (en : Enums) (d : Drivers) (Answer : Type 0) where
  -- What the lease asks of the body of an envelope.
  pub body : Handler.Body Answer → Lease.Body ℤ
  body (Handler.control axes buttons) = Lease.control (map (λ a. a.value) axes)
  body (Handler.joystick a) = Lease.joystick a.value
  body (Handler.button event) = Lease.button
  body _ = Lease.other

  -- The gamepad and the other drivers, while uinput does not raise: `failed` is that of the policy,
  -- and a stop that returns nothing is not a failed one (`is False`).
  pub reset_joy : Joy × d.State → Option (Unit {0}) × (Joy × d.State)
  reset_joy (j, s) = (some tt, (Joy.reset e none j, s))

  pub stop_result : Option (Option Bool) × d.State → Joy → Option Bool × (Joy × d.State)
  stop_result (none, s) j = (none, (j, s))
  stop_result (some none, s) j = (some true, (j, s))
  stop_result (some (some ok), s) j = (some ok, (j, s))

  pub stop_policy : Joy × d.State → Option Bool × (Joy × d.State)
  unfolding stop_result
  stop_policy (j, s) = stop_result (d.stop s) j

  pub handled : Handler.Result unit e t en d Answer → Option (List (Reply Answer)) × (Joy × d.State)
  handled (r, j, s) = (r, (j, s))

  pub command : Handler.Body Answer → Joy × d.State → Option (List (Reply Answer)) × (Joy × d.State)
  unfolding handled
  command body (j, s) = handled (handle unit e t en d Answer body j s)

  abbrev pub robot : (d.State → Bool) → Device
  robot failed = record {
    Dev = Joy × d.State;
    Command = Handler.Body Answer;
    Reply = Reply Answer;
    F = ℤ;
    body = body;
    is_finite = λ v. true;
    reset = reset_joy;
    running = λ dev. some (d.running dev.1);
    failed = λ dev. failed dev.1;
    stop_policy = stop_policy;
    handle = command;
  }
