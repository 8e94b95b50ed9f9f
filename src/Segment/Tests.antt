-- ===== src/Segment/Tests.antt =====
-- One run of a policy that is recorded: witnesses of the theorems on the recorder.
use roboparty_rp_server.Prelude.{
  ℕ, refl, true, false, String, none, some, List, [], ◌∷◌, arith, inl,
}
use roboparty_rp_server.Segment.{
  Phase, starting, stopped, Lifecycle, Active, sample, lifecycle, opens, Recorder, create,
}
use roboparty_rp_server.Segment.Thread.{Call, records, tells, closes_all, rounds, run}
use roboparty_rp_server.Segment.Thread.Trace.{replay}
use roboparty_rp_server.Segment.Thread.History.{
  IsSound, Drained, all_rounds, run-create-Follows, run-drains,
}

abbrev walk : Phase → Lifecycle
walk p = record { phase = p; session_id = "s1"; policy = "walk"; extra = [] }

abbrev history : List (Call ℕ)
history =
    records 1 (some 5)
    ∷ rounds 2 "a"
    ∷ tells 3 (walk starting)
    ∷ rounds 4 "b"
    ∷ records 5 (some 6)
    ∷ tells 6 (walk stopped)
    ∷ rounds 7 "c"
    ∷ rounds 8 "d"
    ∷ closes_all
    ∷ rounds 9 "e"
    ∷ []

run-create-Follows_example : IsSound ℕ (run ℕ history (create ℕ 5 5 10 2 true))
run-create-Follows_example = run-create-Follows ℕ 5 5 10 2 true history

abbrev recording : Active
recording = record {
  session_id = "s1";
  policy = "walk";
  started_at = "a";
  phase = starting;
  running_at = "";
  stopping_at = "";
  stopped_at = "";
  closing_until = none;
  samples = 0;
  start_extra = [];
  stop_extra = [];
}

-- A recorder that is closed while it records, with two items to take.
abbrev closing_recorder : Recorder ℕ
closing_recorder = record {
  pre_window = 5;
  post_window = 5;
  buffer_time = 10;
  enabled = true;
  dropped = 0;
  queue = sample 4 7 ∷ lifecycle 5 (walk stopped) ∷ [];
  capacity = 2;
  closing = true;
  buffer = [];
  active = some recording;
  ended = false;
  writes = opens "s1" ∷ [];
}

abbrev two_rounds : List (ℕ × String)
two_rounds = (6, "b") ∷ (7, "c") ∷ []

run-drains_example : Drained ℕ (run ℕ (all_rounds ℕ two_rounds) closing_recorder)
unfolding replay
run-drains_example =
    run-drains ℕ two_rounds closing_recorder (refl, omega arith, inl refl) refl refl refl
      (omega arith) (omega arith)
