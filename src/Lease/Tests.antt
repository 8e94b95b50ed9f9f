-- ===== src/Lease/Tests.antt =====
-- A small device, and runs of the lease on it: witnesses of the theorems on the lease.
use roboparty_rp_server.Prelude.{
  ℕ, ◌*◌, ◌≤◌, ◌≡◌, ◌≢◌, refl, Bool, true, false, List, [], ◌∷◌, map, Option, none, some, String,
  arith, eq_iff,
}
use roboparty_rp_server.Prelude.Result.{ok}
use roboparty_rp_server.Lease.{
  Device, Config, Body, control, absent, allows, Lease, Call, expires, acquires, stops, dispatches,
  create, halt, authorized, owns, is_input, body_finite, dispatch, step, run, heartbeat,
  expire_locked, renew_own, is_expired, perform_stop,
}
use roboparty_rp_server.Lease.Expiry.{due, seen}
use roboparty_rp_server.Lease.Safety.{IsSafe, run-create-IsSafe}
use roboparty_rp_server.Lease.Latch.{IsLatched, run-stop_latch}
use roboparty_rp_server.Lease.Dispatch.{
  commanded, dispatch_ok, dispatch_runs, dispatch_turned_down, Spares,
}
use roboparty_rp_server.Lease.Ownership.{beat, stale_input_expires}

-- The axis that the gamepad holds, and whether the policy runs. `none` is a value that is not finite.
abbrev toy : Device
toy = record {
  Dev = ℕ × Bool;
  Command = Body (Option ℕ);
  Reply = ℕ;
  F = Option ℕ;
  body = λ b. b;
  is_finite = λ v. elim v [ none ↦ false | some _ ↦ true ];
  reset = λ (x, on). (some tt, (0, on));
  running = λ (x, on). some on;
  failed = λ _. false;
  stop_policy = λ (x, on). (some true, (x, false));
  handle = λ b dev. (some [], (7, dev.1));
}

abbrev clock : ℕ → ℕ
clock n = n * 100

abbrev limits : Config
limits = record { ttl = 3000; input_timeout = 500 }

abbrev idle : Lease toy
idle = record {
  owner = none;
  deadline = 0;
  last_input = none;
  fault = false;
  stopped = false;
  reads = 0;
  dev = (0, true);
}

-- "pad" drives since reading 2, with an input at 200 ms.
abbrev driven : Lease toy
driven = record idle { owner = some "pad"; deadline = 3100; last_input = some 200; reads = 3 }

-- The same owner, long after.
abbrev left_alone : Lease toy
left_alone = record driven { reads = 40 }

abbrev broken : Lease toy
broken = record idle { fault = true }

abbrev history : List (Bool × Call toy clock limits)
history =
    (false, acquires "pad" allows)
    ∷ (false, dispatches "pad" (control (some 3 ∷ [])) allows)
    ∷ (true, acquires "app" absent)
    ∷ (false, stops true)
    ∷ []

run-create-IsSafe_example : IsSafe toy (run toy clock limits history idle)
unfolding create
run-create-IsSafe_example = run-create-IsSafe toy clock limits (0, true) idle history refl

run-stop_latch_example :
    IsLatched toy clock limits
      (run toy clock limits ((true, stops true) ∷ (false, acquires "app" allows) ∷ []) driven)
run-stop_latch_example =
    run-stop_latch toy clock limits true ((false, acquires "app" allows) ∷ []) driven (omega arith)

abbrev push : Body (Option ℕ)
push = control (some 3 ∷ [])

-- A command of the owner that reaches the handler.
dispatched :
    dispatch toy clock limits false "pad" push allows driven
    ≡ (ok [], commanded toy clock limits push (7, true) (seen toy clock limits driven))
unfolding authorized body_finite
dispatched =
    dispatch_runs toy clock limits false "pad" push allows driven [] (7, true) refl refl refl refl
      refl

dispatch_ok_example :
    (due toy clock limits driven ≡ false)
    × (driven.owner ≡ some "pad")
    × (authorized allows ≡ true)
    × (body_finite toy push ≡ true)
    × (toy.handle push driven.dev ≡ (some [], (7, true)))
    × (commanded toy clock limits push (7, true) (seen toy clock limits driven)
        ≡ commanded toy clock limits push (7, true) (seen toy clock limits driven))
unfolding is_input
dispatch_ok_example =
    dispatch_ok toy clock limits false "pad" push allows driven
      (commanded toy clock limits push (7, true) (seen toy clock limits driven)) [] dispatched

dispatch_turned_down_example :
    Spares toy clock limits driven (dispatch toy clock limits false "app" push allows driven).1.dev
unfolding owns
dispatch_turned_down_example =
    dispatch_turned_down toy clock limits false "app" push allows driven refl

pad_is_not_app : ◌≢◌ {A = String} "pad" "app"
pad_is_not_app = ground (arith, eq_iff "pad" "app")

later_on :
    700
    ≤ clock
        (run toy clock limits (map (beat toy clock limits) ((false, "pad") ∷ [])) left_alone).reads
unfolding run step heartbeat expire_locked renew_own is_expired perform_stop halt
later_on = omega arith

stale_input_expires_example :
    (step toy clock limits
      (false, expires)
      (run toy clock limits (map (beat toy clock limits) ((false, "pad") ∷ [])) left_alone)).owner
    ≡ none
stale_input_expires_example =
    stale_input_expires toy clock limits (λ n. omega arith) "pad" 200 false ((false, "pad") ∷ [])
      left_alone refl refl later_on
