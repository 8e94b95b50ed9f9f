-- ===== src/Robot/Served.antt =====
-- The robot behind the connections of transport/ws_server.py.
use roboparty_rp_server.Prelude.{ℕ, ◌≡◌, sym, subst, Bool, false, some, List, ◌⊎◌, inl, inr}
use roboparty_rp_server.Joy.{Ecodes, Text, Joy}
use roboparty_rp_server.Joy.Rest.{Rests, opened}
use roboparty_rp_server.Joy.Held.{opened-IsHeld}
use roboparty_rp_server.Joy.Opened.{opened-Rests}
use roboparty_rp_server.Handler.{Enums, Drivers, handle}
use roboparty_rp_server.Handler
use roboparty_rp_server.Handler.Held.{query-joy}
use roboparty_rp_server.Access.{AccessPolicy}
use roboparty_rp_server.Lease.{Device, Config, Lease, is_free, create}
use roboparty_rp_server.Lease.Idle.{IsIdle, step-IsIdle, create-IsIdle, asked-IsIdle}
use roboparty_rp_server.Web.{Kind, query}
use roboparty_rp_server.Web.Events.{Event, start, run}
use roboparty_rp_server.Web.Guard.Reach.{Reached-keeps}
use roboparty_rp_server.Web.Events.Reach.{run-start-Reached}
use roboparty_rp_server.Robot.{command, handled}
use roboparty_rp_server.Robot.Idle.{device, Holds, AtRest, halt-AtRest, command-Holds}

module _ (unit : ℕ) (e : Ecodes) (t : Text) (en : Enums) (d : Drivers) (Answer : Type 0)
    (failed : d.State → Bool) where
  abbrev pub Robot : Device
  Robot = device unit e t en d Answer failed

  abbrev Idle : Lease Robot → Type 0
  Idle l =
      IsIdle Robot (Holds unit e t en d Answer failed) (AtRest unit e t en d Answer failed)
        (halt-AtRest unit e t en d Answer failed) (command-Holds unit e t en d Answer failed) l

  module _ (now : ℕ → ℕ) (c : Config) (p : AccessPolicy) (kind_of : Handler.Body Answer → Kind)
      (queries : (env : Handler.Body Answer)
        → kind_of env ≡ query
        → (answers : List Answer) × (env ≡ Handler.query answers)) where
    asked-AtRest :
        (env : Handler.Body Answer) (dev : Joy × d.State)
        → kind_of env ≡ query
        → AtRest unit e t en d Answer failed dev
        → AtRest unit e t en d Answer failed (command unit e t en d Answer env dev).1
    unfolding command handled
    asked-AtRest env dev asked rests code =
        let (answers, is_query) = queries env asked in
        subst (λ env. Rests unit e t (command unit e t en d Answer env dev).1.0 code) (sym is_query)
          (subst (λ j. Rests unit e t j code)
            (sym (query-joy unit e t en d Answer answers dev.0 dev.1)) (rests code))

    served-Idle :
        (es : List (Event Robot)) (l : Lease Robot)
        → Idle l
        → Idle (run Robot now c p kind_of es (start Robot l)).lease
    served-Idle es l idle =
        let holds = Holds unit e t en d Answer failed in
        let rests = AtRest unit e t en d Answer failed in
        let halts = halt-AtRest unit e t en d Answer failed in
        let handles = command-Holds unit e t en d Answer failed in
        Reached-keeps Robot now c p kind_of Idle l
          (run Robot now c p kind_of es (start Robot l)).lease
          (λ k m h. step-IsIdle Robot holds rests halts handles now c k m h)
          (λ env m asked h.
            asked-IsIdle Robot holds rests halts handles now c env m (asked-AtRest env m.dev asked)
              h)
          (run-start-Reached Robot now c p kind_of l es) idle

    -- After any interleaving of connections, their messages, watchdogs and ends on the server of a
    -- robot whose gamepad was just opened, with handlers that raise, stops that fail and coroutines
    -- that are cancelled, while uinput does not raise and no envelope but a query is taken for one:
    -- control is owned, or every axis is at its centre and no key is pressed.
    pub run-start-AtRest :
        (es : List (Event Robot)) (s : d.State) (l : Lease Robot) (code : ℕ)
        → create Robot c (opened unit e t, s) ≡ some l
        → let l' = (run Robot now c p kind_of es (start Robot l)).lease in
          (is_free l'.owner ≡ false) ⊎ Rests unit e t l'.dev.0 code
    run-start-AtRest es s l code made =
        let holds = Holds unit e t en d Answer failed in
        let rests = AtRest unit e t en d Answer failed in
        let idle =
          create-IsIdle Robot holds rests (halt-AtRest unit e t en d Answer failed)
            (command-Holds unit e t en d Answer failed) now c (opened unit e t, s) l
            (opened-IsHeld unit e t) (opened-Rests unit e t) made in
        elim (served-Idle es l idle).1 [ inl taken ↦ inl taken | inr rest ↦ inr (rest code) ]
