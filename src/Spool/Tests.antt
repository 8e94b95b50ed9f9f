-- ===== src/Spool/Tests.antt =====
-- A small spool: witnesses of the theorems on the log spool.
use mathlib.Core.List.Sublist
use roboparty_rp_server.Prelude.{
  ℕ, ◌≡◌, refl, Bool, true, false, String, none, some, List, [], ◌∷◌, ◌++◌, arith,
}
use roboparty_rp_server.Spool.{
  Row, Spool, responded, unreachable, http_error, Arrival, Call, emits, uploads, run,
}
use roboparty_rp_server.Spool.Sound.{IsSound}
use roboparty_rp_server.Spool.Rounds.{answered, run-answered}

abbrev http_reason : ℕ → String
http_reason code = "http_error"

abbrev arrival : String → Arrival
arrival payload = record { now = 7; stamp = "h"; payload = some payload }

-- Events for a queue of two: one is refused by the server, one is sent twice since its first answer is
-- lost, and is pushed out of the queue while it is sent again.
abbrev traffic : List Call
traffic =
    emits 0 "a" (some "e1")
    ∷ emits 1 "b" (some "e2")
    ∷ emits 2 "c" (some "e3")
    ∷ uploads 3 "d" false (http_error 400 false) []
    ∷ uploads 4 "e" false (unreachable true) []
    ∷ emits 5 "f" none
    ∷ uploads 6 "g" true responded (arrival "e4" ∷ arrival "e5" ∷ [])
    ∷ []

abbrev row : ℕ → String → Row
row id payload = record { id = id; payload = payload; attempts = 0; created_at = "a" }

abbrev filled : Spool
filled = record {
  rows = row 3 "e3" ∷ row 4 "e4" ∷ [];
  next_id = 5;
  dead = [];
  max_events = 2;
  max_attempts = 3;
  dropped = 0;
  rejected = 0;
  dead_letter_dropped = 0;
  warned = [];
  printed = [];
  acked = row 1 "e1" ∷ [];
  received = row 1 "e1" ∷ [];
}

filled-IsSound : IsSound filled
filled-IsSound = record {
  received_all = Sublist.refl filled.acked;
  in_order = omega arith;
  ordered = omega arith;
  holds = omega arith;
  holds_dead = omega arith;
}

abbrev two_rounds : List (ℕ × String × Bool)
two_rounds = (7, "h", false) ∷ (8, "i", false) ∷ []

run-answered_example :
    let s' = run http_reason 1 (answered http_reason 1 two_rounds) filled in
    (s'.rows ≡ []) × (s'.acked ≡ filled.acked ++ filled.rows)
run-answered_example =
    run-answered http_reason 1 two_rounds filled filled-IsSound refl (omega arith) (omega arith)
