-- ===== src/Web/Guard.antt =====
-- transport/ws_server.py: `guarded_dispatch` and `lease_message`.
pub mod Owners
pub mod Reach
pub mod Commands
use roboparty_rp_server.Prelude.{
  ℕ, Bool, true, false, ◌&&◌, ◌||◌, not, String, Option, none, some, List, [], ◌∷◌, ◌++◌, map, ◌==◌,
  string_eq, if◌then◌else◌,
}
use roboparty_rp_server.Prelude.Dict.{Dict}
use roboparty_rp_server.Prelude.Result.{Result, ok, err}
use roboparty_rp_server.Access.{AccessPolicy, AuthError, Claims}
use roboparty_rp_server.Lease.{Device, Config, Error, Lease, Notice}
use roboparty_rp_server.Lease
use roboparty_rp_server.Web.{
  Kind, query, reset, policy_stop, stop_clear, stop_request, command, Reading, Failure, refused,
  lease_error, Frame, answered, policy_stopped, policy_failed, stop_cleared, stop_confirmed,
  stop_failed, heartbeat, notice, Conn, scope_of, check, authorize_of, is_control_error, add_holder,
  discard,
}

-- The messages of `lease_message`.
pub data LeaseText : Type 0 where
  beats acquires releases other_text : LeaseText

module _ (d : Device) where
  -- What `create_app` keeps: the lease, who was told of holding it, the connections, and what was
  -- sent to them, the newest first.
  pub record Server : Type 0 where
    pub lease : Lease d
    pub holders : List String
    pub conns : Dict String Conn
    pub sent : List (String × Frame d.Reply)

  abbrev pub Outcome : Type 0
  Outcome = Result Failure (List (Frame d.Reply)) × Server

  module _ (now : ℕ → ℕ) (c : Config) (p : AccessPolicy) (kind_of : d.Command → Kind) where
    -- The answers to a stop, which catch a `ControlError`.
    pub stop_answers :
        Frame d.Reply
        → Frame d.Reply
        → Result Error (Unit {0})
        → Result Failure (List (Frame d.Reply))
    stop_answers good bad (ok _) = ok (good ∷ [])
    stop_answers good bad (err e) =
        if is_control_error e then ok (bad ∷ []) else err (lease_error e)

    pub after_stop : String → Result Error (Unit {0}) → List String → List String
    after_stop session (ok _) holders = discard session holders
    after_stop session (err _) holders = holders

    pub latched_stop : Bool → String → Frame d.Reply → Frame d.Reply → Server → Outcome
    unfolding stop_answers after_stop
    latched_stop b session good bad s =
        let (r, l) = Lease.stop d now c b true s.lease in
        (stop_answers good bad r, record s { lease = l; holders = after_stop session r s.holders })

    pub handle_query : d.Command → Server → Outcome
    handle_query env s =
        let (r, dev) = d.handle env s.lease.dev in
        (
          elim r [
            | none ↦ err (lease_error Error.handler_raised)
            | some replies ↦ ok (map answered replies)
          ],
          record s { lease = record s.lease { dev = dev } },
        )

    unfoldable pub handler_answers :
        Result Error (List d.Reply) → Result Failure (List (Frame d.Reply))
    handler_answers (ok replies) = ok (map answered replies)
    handler_answers (err e) = err (lease_error e)

    -- `guarded_dispatch` once the scope is granted. `late` is what the callback reads.
    unfoldable pub dispatch_kind :
        Reading → Bool → String → String → d.Command → Kind → Server → Outcome
    unfolding latched_stop handle_query handler_answers stop_answers
    dispatch_kind late b session token env query s = handle_query env s
    dispatch_kind late b session token env policy_stop s =
        let (r, l) = Lease.stop d now c b false s.lease in
        (stop_answers policy_stopped policy_failed r, record s { lease = l })
    dispatch_kind late b session token env stop_clear s =
        let (_, l) = Lease.clear_stop d now c s.lease in
        (ok (stop_cleared ∷ []), record s { lease = l })
    dispatch_kind late b session token env stop_request s =
        latched_stop b session stop_confirmed stop_failed s
    dispatch_kind late b session token env kind s =
        let scope = scope_of kind in
        let (r, l) =
          Lease.dispatch d now c b session env (authorize_of (check p late token scope)) s.lease in
        (handler_answers r, record s { lease = l })

    unfoldable pub gate : Result AuthError Claims → (Server → Outcome) → Server → Outcome
    gate (err e) next s = (err (refused e), s)
    gate (ok _) next s = next s

    unfoldable pub guarded_dispatch :
        Reading → Reading → Bool → String → String → d.Command → Server → Outcome
    unfolding gate dispatch_kind
    guarded_dispatch early late b session token env s =
        gate (check p early token (scope_of (kind_of env)))
          (dispatch_kind late b session token env (kind_of env)) s

    pub notices : Result Error Notice → Result Failure (List (Frame d.Reply))
    notices (ok n) = ok (notice n ∷ [])
    notices (err e) = err (lease_error e)

    pub holders_with : String → Result Error Notice → List String → List String
    holders_with session (ok _) holders = add_holder session holders
    holders_with session (err _) holders = holders

    pub holders_without : String → Result Error Notice → List String → List String
    holders_without session (ok _) holders = discard session holders
    holders_without session (err _) holders = holders

    pub beat : Result Error (Unit {0}) → Result Failure (List (Frame d.Reply))
    beat (ok _) = ok (heartbeat ∷ [])
    beat (err e) = err (lease_error e)

    -- `lease_message`; `none` is its `False`.
    pub lease_message :
        Reading → Reading → Bool → String → String → LeaseText → Server → Option Outcome
    unfolding gate notices holders_with holders_without beat
    lease_message early late b session token beats s = some (
        gate (check p early token "read")
          (λ s.
            let (r, l) = Lease.heartbeat d now c b session s.lease in
            (beat r, record s { lease = l }))
          s)
    lease_message early late b session token acquires s = some (
        gate (check p early token "control")
          (λ s.
            let (r, l) =
              Lease.acquire d now c b session (authorize_of (check p late token "control"))
                s.lease in
            (notices r, record s { lease = l; holders = holders_with session r s.holders }))
          s)
    lease_message early late b session token releases s = some (
        gate (check p early token "control")
          (λ s.
            let (r, l) = Lease.release d now c b session s.lease in
            (notices r, record s { lease = l; holders = holders_without session r s.holders }))
          s)
    lease_message early late b session token other_text s = none
