-- ===== src/Web/Tests.antt =====
-- Two clients on a small device: witnesses of the theorems on the connections.
use roboparty_rp_server.Prelude.{
  ℕ, ◌*◌, ◌+◌, ◌≡◌, ◌≢◌, refl, Bool, true, false, List, [], ◌∷◌, Option, none, some, String, arith,
  ◌==◌, eq_iff, string_eq, ◌⊎◌, inl,
}
use roboparty_rp_server.Prelude.Result.{Result, ok}
use roboparty_rp_server.Prelude.Dict.{get}
use roboparty_rp_server.Pairing.{App, Pairing, Inputs, get_app, contains_word, revoke}
use roboparty_rp_server.Access.{AuthError, Claims, AccessPolicy, verify, check_scope, has_scope}
use roboparty_rp_server.Lease.{
  Device, Config, Body, control, Lease, authorized, dispatch, expire_locked, is_expired, owns,
  body_finite, is_input, renew_own,
}
use roboparty_rp_server.Lease
use roboparty_rp_server.Web.{Kind, command, Reading, answered, Conn, scope_of, check, authorize_of}
use roboparty_rp_server.Web.Guard.{
  Server, acquires, guarded_dispatch, gate, dispatch_kind, handler_answers,
}
use roboparty_rp_server.Web.Guard.Commands.{Reaches, Handled, guarded_dispatch_ok}
use roboparty_rp_server.Web.Handshake.{
  Dialogue, authenticate, answer_challenge, paired_app, enter_json, Proves, enter_json_ok,
}
use roboparty_rp_server.Web.Guard.Owners.{IsOwned}
use roboparty_rp_server.Web.Session.{tick, text}
use roboparty_rp_server.Web.Session.Revoked.{tick-revoke}
use roboparty_rp_server.Web.Events.{opens, receives, start, run}
use roboparty_rp_server.Web.Events.Owners.{run-start-IsOwned}
use roboparty_rp_server.Web.Guard.Reach.{Reached}
use roboparty_rp_server.Web.Events.Reach.{run-start-Reached}

-- What the gamepad holds; a reply is a number.
abbrev toy : Device
toy = record {
  Dev = ℕ;
  Command = Body ℕ;
  Reply = ℕ;
  F = ℕ;
  body = λ b. b;
  is_finite = λ v. true;
  reset = λ x. (some tt, 0);
  running = λ x. some false;
  failed = λ _. false;
  stop_policy = λ x. (some true, x);
  handle = λ b x. (some (x ∷ []), x + 1);
}

abbrev clock : ℕ → ℕ
clock n = n * 10

abbrev limits : Config
limits = record { ttl = 3000; input_timeout = 500 }

abbrev policy : AccessPolicy
policy = record { has_key = true; service_token = "svc"; service_scopes = "read" ∷ "control" ∷ [] }

abbrev phone_app : App
phone_app = record {
  app_key_id = "k1";
  public_key = "k1";
  device_name = "phone";
  scopes = "read" ∷ [];
  created_at = "dawn";
  revoked = false;
  revoked_at = none;
  revoked_reason = none;
  replaced_by = none;
}

abbrev paired : Pairing
paired = record {
  ttl = 300;
  single_owner = false;
  preserve_admin = true;
  codes = [];
  apps = some (("k1", phone_app) ∷ []);
}

abbrev phone_claims : Claims
phone_claims = record { sub = some "k1"; scope = "read" ∷ [] }

abbrev reading : Reading
reading = record { decode = λ token. some phone_claims; pairing = paired }

abbrev all_commands : toy.Command → Kind
all_commands b = command

abbrev idle : Lease toy
idle = record {
  owner = none;
  deadline = 0;
  last_input = none;
  fault = false;
  stopped = false;
  reads = 0;
  dev = 0;
}

abbrev local : Conn
local = record { token = "svc"; json = false }

run-start-IsOwned_example : IsOwned toy (
    run toy clock limits policy all_commands
      (opens "s1" local ∷ receives reading reading false "s1" (text (some acquires)) ∷ [])
      (start toy idle))
run-start-IsOwned_example =
    run-start-IsOwned toy clock limits policy all_commands
      (opens "s1" local ∷ receives reading reading false "s1" (text (some acquires)) ∷ []) idle refl

run-start-Reached_example :
    Reached toy clock limits policy all_commands idle
      (run toy clock limits policy all_commands
        (opens "s1" local ∷ receives reading reading false "s1" (text (some acquires)) ∷ [])
        (start toy idle)).lease
run-start-Reached_example =
    run-start-Reached toy clock limits policy all_commands idle
      (opens "s1" local ∷ receives reading reading false "s1" (text (some acquires)) ∷ [])

-- "s1" holds the lease.
abbrev held : Server toy
held = record {
  lease = record idle { owner = some "s1"; deadline = 3000; reads = 3 };
  holders = "s1" ∷ [];
  conns = ("s1", local) ∷ [];
  sent = [];
}

abbrev push : Body ℕ
push = control (4 ∷ [])

guarded_dispatch_ok_example :
    Reaches toy clock limits policy all_commands reading reading "s1" "svc" push "control" held
    × Handled toy clock limits policy all_commands push 0 1 (answered 0 ∷ [])
unfolding guarded_dispatch gate dispatch_kind handler_answers check scope_of authorize_of verify
    check_scope has_scope contains_word dispatch expire_locked is_expired Lease.command owns
    body_finite is_input renew_own authorized
guarded_dispatch_ok_example =
    guarded_dispatch_ok toy clock limits policy all_commands reading reading false "s1" "svc" push
      held (answered 0 ∷ []) (inl refl) refl

abbrev evening : Inputs
evening = record { now = 100; stamp = "evening"; saves = true }

abbrev after_revoke : Reading
after_revoke = record reading { pairing = (revoke evening "k1" paired).1 }

tick-revoke_example :
    let s' = tick toy clock limits policy all_commands after_revoke reading false "s1" "jwt" held in
    (s'.lease.owner ≢ some "s1") × (get s'.conns "s1" ≡ none)
unfolding get_app get
tick-revoke_example =
    tick-revoke toy clock limits policy all_commands after_revoke reading false "s1" "jwt" held
      paired evening "k1" phone_app phone_claims refl refl refl refl refl
      (ground (arith, eq_iff "jwt" "svc"))

abbrev signed_by : App → String → String → Bool
signed_by app message signature = signature == message

abbrev issue_token : String → List String → String
issue_token device_id scopes = "jwt"

abbrev dialogue : Dialogue
dialogue = record { device_id = some "k1"; response = some ("k1", "k1:c0de") }

enter_json_ok_example :
    ((claims : Claims) × (◌≡◌ {A = Option (Result AuthError String)} none (some (ok "jwt")))
      × (check policy reading "jwt" "read" ≡ ok claims))
    ⊎ ((◌≡◌ {A = Option (Result AuthError String)} none none)
        × (policy.has_key ≡ true)
        × Proves signed_by issue_token reading "c0de" dialogue "jwt")
unfolding enter_json authenticate answer_challenge paired_app get_app get contains_word
enter_json_ok_example =
    enter_json_ok signed_by issue_token policy reading none "c0de" dialogue "jwt" refl
