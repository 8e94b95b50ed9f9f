-- ===== src/Web/Own.antt =====
-- transport/ws_server.py: how `lease_holders` and the connections follow the owner of control.
use roboparty_rp_server.Prelude.{
  ◌≡◌, ◌≢◌, true, false, ◌||◌, String, Option, none, some, List, [], ◌∷◌, ◌==◌, string_eq,
  if◌then◌else◌, arith, eq_iff, inl, inr,
}
use roboparty_rp_server.Prelude.Dict.{
  Dict, get, put, remove, contains, is_some, get-put, get-remove,
}
use roboparty_rp_server.Lease.Yields.{Yields}
use roboparty_rp_server.Web.{Conn, add_holder, discard}

-- An owner of control was told so, and its connection is open.
abbrev pub Own : List String → Dict String Conn → Option String → Type 0
Own holders conns none = Unit {0}
Own holders conns (some o) = (contains holders o ≡ true) × (is_some (get conns o) ≡ true)

contains-discard :
    (session : String) (ss : List String) (o : String)
    → contains (discard session ss) o ≡ (if session == o then false else contains ss o)
unfolding discard
contains-discard session [] o = ground arith
contains-discard session (s ∷ ss) o =
    ground (arith, contains-discard session ss o, eq_iff s session, eq_iff s o, eq_iff session o)

pub contains-add_holder :
    (session : String) (ss : List String) (o : String)
    → contains (add_holder session ss) o ≡ session == o || contains ss o
unfolding add_holder
contains-add_holder session ss o = ground (arith, eq_iff session o)

pub Own-Yields :
    (holders : List String) (conns : Dict String Conn) (o o' : Option String)
    → Yields o o'
    → Own holders conns o
    → Own holders conns o'
Own-Yields holders conns o o' (inl e) h = rw e h
Own-Yields holders conns o o' (inr e) h = rw e tt

pub Own-discard :
    (session : String) (holders : List String) (conns : Dict String Conn) (o : Option String)
    → o ≢ some session
    → Own holders conns o
    → Own (discard session holders) conns o
Own-discard session holders conns none n h = tt
Own-discard session holders conns (some o) n (held, live) =
    (ground (arith, contains-discard session holders o, eq_iff session o), live)

pub Own-add_holder :
    (session : String) (holders : List String) (conns : Dict String Conn) (o : Option String)
    → Own holders conns o
    → Own (add_holder session holders) conns o
Own-add_holder session holders conns none h = tt
Own-add_holder session holders conns (some o) (held, live) =
    (ground (arith, contains-add_holder session holders o), live)

pub Own-remove :
    (session : String) (holders : List String) (conns : Dict String Conn) (o : Option String)
    → o ≢ some session
    → Own holders conns o
    → Own holders (remove conns session) o
Own-remove session holders conns none n h = tt
Own-remove session holders conns (some o) n (held, live) =
    (held, ground (arith, get-remove conns session o, eq_iff session o))

pub Own-put :
    (session : String) (conn : Conn) (holders : List String) (conns : Dict String Conn)
    (o : Option String)
    → Own holders conns o
    → Own holders (put conns session conn) o
Own-put session conn holders conns none h = tt
Own-put session conn holders conns (some o) (held, live) =
    (held, ground (arith, get-put conns session o conn))
