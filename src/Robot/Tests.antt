-- ===== src/Robot/Tests.antt =====
-- A client that takes control, pushes a stick and a key, and goes, on a robot whose policy cannot be
-- stopped.
use roboparty_rp_server.Prelude.{
  ℕ, ◌+◌, ◌*◌, ◌≡◌, refl, true, false, none, some, List, [], ◌∷◌, ◌⊎◌,
}
use roboparty_rp_server.Joy.{pos}
use roboparty_rp_server.Joy.Rest.{Rests, opened}
use roboparty_rp_server.Handler.{
  Drivers, Body, query, reset, joystick, button, policy_command, start_action, stop_action,
  other_action,
}
use roboparty_rp_server.Handler.Tests.{numbers, plain, enums}
use roboparty_rp_server.Access.{AccessPolicy}
use roboparty_rp_server.Lease.{Config, Lease, is_free, create}
use roboparty_rp_server.Web.{Kind, Reading}
use roboparty_rp_server.Web.Guard.{acquires}
use roboparty_rp_server.Web.Session.{text, bytes}
use roboparty_rp_server.Web.Events.{Event, opens, receives, watches, leaves, start, run}
use roboparty_rp_server.Robot.Served.{Robot, run-start-AtRest}

abbrev drivers : Drivers
drivers = record {
  State = ℕ;
  start = λ name s. (some true, s);
  stop = λ s. (some (some false), s + 1);
  running = λ s. true;
  clear_errors = λ s. (none, s);
}

abbrev config : Config
config = record { ttl = 500; input_timeout = 300 }

abbrev clock : ℕ → ℕ
clock n = n * 100

abbrev policy : AccessPolicy
policy = record { has_key = true; service_token = "svc"; service_scopes = "read" ∷ "control" ∷ [] }

abbrev kind_of : Body ℕ → Kind
kind_of (query answers) = Kind.query
kind_of reset = Kind.reset
kind_of (policy_command stop_action name) = Kind.policy_stop
kind_of _ = Kind.command

queries : (env : Body ℕ) → kind_of env ≡ Kind.query → (answers : List ℕ) × (env ≡ query answers)
queries (query answers) asked = (answers, refl)
queries (policy_command start_action name) asked = cc
queries (policy_command stop_action name) asked = cc
queries (policy_command other_action name) asked = cc
queries env asked = cc

abbrev reading : Reading
reading = record {
  decode = λ token. none;
  pairing = record {
    ttl = 300;
    single_owner = false;
    preserve_admin = true;
    codes = [];
    apps = some [];
  };
}

abbrev fresh : Lease (Robot 1000 numbers plain enums drivers ℕ (λ s. false))
fresh = record {
  owner = none;
  deadline = 0;
  last_input = none;
  fault = false;
  stopped = false;
  reads = 0;
  dev = (opened 1000 numbers plain, 0);
}

abbrev visit : List (Event (Robot 1000 numbers plain enums drivers ℕ (λ s. false)))
visit =
    opens "s" (record { token = "svc"; json = false })
    ∷ receives reading reading false "s" (text (some acquires))
    ∷ receives reading reading false "s"
        (bytes (some (joystick (record { axis = 1; value = pos 700 }))))
    ∷ receives reading reading false "s"
        (bytes (some (button (record { button = 1; state = 1; id = 9 }))))
    ∷ watches reading reading false "s"
    ∷ leaves false "s"
    ∷ []

run-start-AtRest_example :
    let l' =
      (run
        (Robot 1000 numbers plain enums drivers ℕ (λ s. false))
        clock
        config
        policy
        kind_of
        visit
        (start (Robot 1000 numbers plain enums drivers ℕ (λ s. false)) fresh)).lease in
    (is_free l'.owner ≡ false) ⊎ Rests 1000 numbers plain l'.dev.0 0
unfolding create
run-start-AtRest_example =
    run-start-AtRest 1000 numbers plain enums drivers ℕ (λ s. false) clock config policy kind_of
      queries visit 0 fresh 0 refl
