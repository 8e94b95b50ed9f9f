-- ===== src/Gateway.antt =====
-- gateway.py: `_serve` of a link, with its tasks `_send`, `_recv` and `_heartbeat` as steps that
-- interleave, between two waits each; a send to the server is one step with what follows it.
pub mod Relay
mod Tests
use roboparty_rp_server.Prelude.{
  ℕ, Bool, true, false, Option, none, some, List, [], ◌∷◌, ◌++◌, if◌then◌else◌,
}
use roboparty_rp_server.Codec.{Proto, Status, waiting, raised, out_of_fuel, frame_stream, Fed, feed}

-- A text of the server: a lease with status "acquired", an error or another lease, anything else.
pub data Text : Type 0 where
  acquired lost other_text : Text

-- Where `_send` is: at `reader.read`, in the loop over the envelopes, in `_lease.wait` (with whether
-- the lease was set meanwhile), or done.
pub data Phase : Type 0 where
  reading sending ended : Phase
  waits : Bool → Phase

pub data ToServer (Envelope : Type 0) : Type 0 where
  acquires beats releases : ToServer Envelope
  commands : Envelope → ToServer Envelope

module _ (p : Proto) where
  open p use {Envelope, parse}

  -- `decoder._buf`, the envelopes that the loop has not taken yet and what is behind them, what was
  -- read from the link, and what was sent to the server and written to the link.
  pub record Gateway : Type 0 where
    pub lease : Bool
    pub phase : Phase
    pub buffer : List ℕ
    pub pending : List Envelope
    pub status : Status
    pub read : List ℕ
    pub sent : List (ToServer Envelope)
    pub written : List ℕ

  -- What the tasks meet; the link gives no bytes at its end.
  pub data Event : Type 0 where
    proceeds times_out fails ticks : Event
    link_data frame : List ℕ → Event
    told : Text → Event

  pub send : ToServer Envelope → Gateway → Gateway
  send m g = record g { sent = g.sent ++ (m ∷ []) }

  -- `_serve` behind `connect`, up to the wait of `_acquire`
  pub begin : Gateway
  begin = record {
    lease = false;
    phase = waits false;
    buffer = [];
    pending = [];
    status = waiting;
    read = [];
    sent = acquires ∷ [];
    written = [];
  }

  -- The `finally` of `_serve`.
  pub finish : Gateway → Gateway
  unfolding send
  finish g =
      if g.lease then record (send releases g) { phase = ended } else record g { phase = ended }

  -- The end of a call of `decoder.feed`: it raises, or the loop reads on.
  pub fed_on : Status → Gateway → Gateway
  unfolding finish
  fed_on waiting g = record g { phase = reading }
  fed_on out_of_fuel g = record g { phase = reading }
  fed_on (raised e) g = finish g

  pub pass_on : Envelope → List Envelope → Gateway → Gateway
  unfolding send
  pass_on e es g = record (send (commands e) g) { pending = es; phase = sending }

  -- A round of the loop over the envelopes, up to its wait.
  pub next : List Envelope → Gateway → Gateway
  unfolding fed_on pass_on send
  next [] g = fed_on g.status g
  next (e ∷ es) g =
      if g.lease then pass_on e es g else record (send acquires g) { phase = waits false }

  -- Behind the wait of `_acquire`, whatever the lease is by then.
  pub awake : List Envelope → Gateway → Gateway
  unfolding fed_on pass_on
  awake [] g = fed_on g.status g
  awake (e ∷ es) g = pass_on e es g

  pub proceed : Phase → Gateway → Gateway
  unfolding next awake
  proceed sending g = next g.pending g
  proceed (waits true) g = awake g.pending g
  proceed _ g = g

  -- `reader.read` returns.
  pub take_data : Phase → ℕ → List ℕ → Gateway → Gateway
  unfolding finish
  take_data reading max_size [] g = finish g
  take_data reading max_size (b ∷ bs) g =
      let r = feed p max_size g.buffer (b ∷ bs) in
      record g {
        buffer = r.buffer;
        pending = r.envelopes;
        status = r.status;
        phase = sending;
        read = g.read ++ (b ∷ bs);
      }
  take_data _ max_size data' g = g

  pub woken : Phase → Phase
  woken (waits b) = waits true
  woken ph = ph

  -- `_recv` on a text
  pub hear : Text → Gateway → Gateway
  unfolding woken
  hear acquired g = record g { lease = true; phase = woken g.phase }
  hear lost g = record g { lease = false }
  hear other_text g = g

  -- `_recv` on bytes
  pub relay : Option Envelope → Gateway → Gateway
  relay none g = g
  relay (some e) g = record g { written = g.written ++ frame_stream p e }

  -- `_heartbeat`
  pub tick : Gateway → Gateway
  unfolding send
  tick g = if g.lease then send beats g else g

  pub time_out : Phase → Gateway → Gateway
  unfolding finish
  time_out (waits false) g = finish g
  time_out _ g = g

  pub act : ℕ → Event → Gateway → Gateway
  unfolding proceed take_data hear relay tick time_out finish
  act max_size proceeds g = proceed g.phase g
  act max_size (link_data bytes) g = take_data g.phase max_size bytes g
  act max_size (told t) g = hear t g
  act max_size (frame bytes) g = relay (parse bytes) g
  act max_size ticks g = tick g
  act max_size times_out g = time_out g.phase g
  act max_size fails g = finish g

  -- Once `_serve` has ended, its tasks are cancelled.
  pub step_at : Phase → ℕ → Event → Gateway → Gateway
  unfolding act
  step_at ended max_size ev g = g
  step_at _ max_size ev g = act max_size ev g

  pub step : ℕ → Event → Gateway → Gateway
  unfolding step_at
  step max_size ev g = step_at g.phase max_size ev g

  pub run : ℕ → List Event → Gateway → Gateway
  run max_size [] g = g
  run max_size (ev ∷ evs) g = run max_size evs (step max_size ev g)
