-- ===== src/Policy/Driver/Tests.antt =====
-- Starts and stops of one process: witnesses of the theorems on the policy driver.
use roboparty_rp_server.Prelude.{
  ◌≡◌, refl, Bool, true, false, String, none, some, [], ◌∷◌, ◌==◌, string_eq, not,
}
use roboparty_rp_server.Policy.{
  Code, exits, Options, Policy, Inputs, obeys, is_killed, sigterm, sigkill, create, poll, poll_proc,
  is_alive, has_exited, emit,
}
use roboparty_rp_server.Policy.Driver.{
  failed_now, state, start, stop, chosen, starts, run, step, begin, launch, launched, check_lock,
  check_ready, get_ready, wait_ready, pause, clean,
}
use roboparty_rp_server.Policy.Driver.Start.{Comes, start_lem}
use roboparty_rp_server.Policy.Driver.Settled.{run-create-exit_reported}
use roboparty_rp_server.Policy.Driver.Stop.{Stopped, stop_settles}

abbrev named : String → Bool
named name = not (name == "a b")

abbrev shown : Code → String
shown code = "1"

abbrev plain : Options
plain = record {
  has_ready_check = true;
  has_lock = true;
  has_log = true;
  developer_mode = false;
  has_instance_check = true;
}

abbrev met : Inputs
met = record {
  polled = none;
  instance_runs = false;
  session = "s1";
  log_opens = true;
  spawned = some 41;
  slept = none;
  polled_later = none;
  probes =
      record { polled = none; reported = none; answer = false }
      ∷ record { polled = none; reported = none; answer = true }
      ∷ [];
  final_poll = none;
  ending = obeys (exits 0);
}

start_lem_example :
    Comes named shown plain "walk" "s1" (some 41) (start named shown plain met "walk" create)
unfolding create poll is_alive chosen
start_lem_example = start_lem named shown plain met "walk" create refl refl

abbrev walking : Policy
walking = (start named shown plain met "walk" create).1

run-create-exit_reported_example :
    let p = run named shown plain (starts met "walk" ∷ []) create in
    (failed_now (some (exits 1)) p ≡ true) × ((state named shown (some (exits 1)) p).0 ≡ "FAIL")
unfolding run step start begin launch launched check_lock check_ready get_ready wait_ready pause
    clean chosen create poll poll_proc is_alive has_exited emit
run-create-exit_reported_example =
    run-create-exit_reported named shown plain (starts met "walk" ∷ []) (some (exits 1)) refl refl

stop_settles_example :
    Stopped 41 (stop named shown none (is_killed (exits 9)) walking)
    × ((stop named shown none (is_killed (exits 9)) walking).0 ≡ true)
    × ((stop named shown none (is_killed (exits 9)) walking).1.signals
        ≡ sigkill 41 ∷ sigterm 41 ∷ walking.signals)
unfolding start begin launch launched check_lock check_ready get_ready wait_ready pause clean chosen
    create poll poll_proc is_alive has_exited emit
stop_settles_example =
    stop_settles named shown none (is_killed (exits 9)) walking
      (record { pid = 41; returncode = none }) refl
