-- ===== src/Segment/Thread.antt =====
-- monitors/segment.py: the thread of `SegmentRecorder`, `_run` and what it calls.
pub mod Trace
pub mod Drain
pub mod History
use roboparty_rp_server.Prelude.{
  ℕ, ◌+◌, max, Bool, true, false, ◌&&◌, ◌||◌, not, String, Option, none, some, List, [], ◌∷◌, ◌++◌,
  length, ltb, leb, ◌==◌, nat_eq, string_eq, if◌then◌else◌,
}
use roboparty_rp_server.Prelude.Dict.{Dict, put, contains, get, is_some}
use roboparty_rp_server.Segment.{
  Phase, starting, running, stopping, stopped, failed, Extra, Lifecycle, Active, Item, sample,
  lifecycle, Write, opens, sample_line, event_line, meta, closes, Recorder, record_sample,
  on_lifecycle, close, write, write_meta, write_sample,
}

module _ (Payload : Type 0) where
  -- `dict.setdefault`
  pub set_default : String → String → Extra → Extra
  set_default key value extra = if is_some (get extra key) then extra else put extra key value

  pub or_now : String → String → String
  or_now wall text = if text == "" then wall else text

  -- `_close_segment`; an empty reason is none.
  pub close_segment : String → String → Active → Recorder Payload → Recorder Payload
  unfolding write_meta write set_default or_now
  close_segment wall reason a r =
      let a' : Active = record a {
        stopped_at = or_now wall a.stopped_at;
        stop_extra =
            if reason == "" then a.stop_extra else set_default "reason" reason a.stop_extra;
      } in
      write Payload (closes a.session_id) (write_meta Payload a' (record r { active = none }))

  pub open_segment : String → Lifecycle → Recorder Payload → Active × Recorder Payload
  unfolding write_meta write
  open_segment wall told r =
      let a : Active = record {
        session_id = told.session_id;
        policy = told.policy;
        started_at = wall;
        phase = starting;
        running_at = "";
        stopping_at = "";
        stopped_at = "";
        closing_until = none;
        samples = 0;
        start_extra = told.extra;
        stop_extra = [];
      } in
      (a, write_meta Payload a (write Payload (opens told.session_id) r))

  -- The samples of the buffer that are not before the window.
  pub write_window :
      String → ℕ → List (ℕ × Payload) → Active → Recorder Payload → Active × Recorder Payload
  unfolding write_sample
  write_window wall stamp [] a r = (a, r)
  write_window wall stamp ((at, payload) ∷ samples) a r =
      let (a', r') =
        if leb stamp (at + r.pre_window) then write_sample Payload wall payload a r else (a, r) in
      write_window wall stamp samples a' r'

  pub supersede : String → Option Active → Recorder Payload → Recorder Payload
  unfolding close_segment
  supersede wall none r = r
  supersede wall (some a) r = close_segment wall "superseded" a r

  pub keep : Active × Recorder Payload → Recorder Payload
  keep (a, r) = record r { active = some a }

  pub start_segment : String → ℕ → Lifecycle → Recorder Payload → Recorder Payload
  unfolding supersede open_segment write write_window keep
  start_segment wall stamp told r =
      let (a, r') = open_segment wall told (supersede wall r.active r) in
      keep
        (write_window wall stamp r.buffer a (write Payload (event_line a.session_id wall told) r'))

  pub enter_phase : String → ℕ → ℕ → Lifecycle → Phase → Active → Active
  enter_phase wall stamp post told running a = record a { phase = running; running_at = wall }
  enter_phase wall stamp post told stopping a = record a {
    phase = stopping;
    stopping_at = wall;
    closing_until = some (stamp + post);
  }
  enter_phase wall stamp post told stopped a = record a {
    phase = stopped;
    stopped_at = wall;
    stop_extra = told.extra;
    closing_until = some (stamp + post);
  }
  enter_phase wall stamp post told failed a = record a {
    phase = failed;
    stopped_at = wall;
    stop_extra = told.extra;
    closing_until = some (stamp + post);
  }
  enter_phase wall stamp post told _ a = a

  pub follow_phase : String → ℕ → Lifecycle → Option Active → Recorder Payload → Recorder Payload
  unfolding enter_phase write_meta write
  follow_phase wall stamp told none r = r
  follow_phase wall stamp told (some a) r =
      let a' = enter_phase wall stamp r.post_window told told.phase a in
      if a.session_id == told.session_id
      then write_meta Payload a'
          (write Payload (event_line a.session_id wall told) (record r { active = some a' }))
      else r

  -- `_on_lifecycle`
  pub take_lifecycle : String → ℕ → Lifecycle → Phase → Recorder Payload → Recorder Payload
  unfolding start_segment follow_phase
  take_lifecycle wall stamp told starting r = start_segment wall stamp told r
  take_lifecycle wall stamp told _ r = follow_phase wall stamp told r.active r

  -- The loop that pops what is older than the buffer keeps.
  pub trim : ℕ → ℕ → List (ℕ × Payload) → List (ℕ × Payload)
  trim stamp buffer_time [] = []
  trim stamp buffer_time ((at, payload) ∷ samples) =
      let rest = trim stamp buffer_time samples in
      if ltb (at + buffer_time) stamp then rest else (at, payload) ∷ samples

  pub sample_active : String → Payload → Option Active → Recorder Payload → Recorder Payload
  unfolding write_sample keep
  sample_active wall payload none r = r
  sample_active wall payload (some a) r = keep (write_sample Payload wall payload a r)

  pub take_item : String → Item Payload → Recorder Payload → Recorder Payload
  unfolding trim sample_active take_lifecycle
  take_item wall (lifecycle stamp told) r = take_lifecycle wall stamp told told.phase r
  take_item wall (sample stamp payload) r =
      sample_active wall payload r.active
        (record r { buffer = trim stamp r.buffer_time (r.buffer ++ (stamp, payload) ∷ []) })

  pub take_next : String → List (Item Payload) → Recorder Payload → Recorder Payload
  unfolding take_item
  take_next wall [] r = r
  take_next wall (item ∷ items) r = take_item wall item (record r { queue = items })

  pub is_due : ℕ → Option ℕ → Bool
  is_due now none = false
  is_due now (some until) = leb until now

  pub close_due : ℕ → String → Option Active → Recorder Payload → Recorder Payload
  unfolding is_due close_segment
  close_due now wall none r = r
  close_due now wall (some a) r =
      if is_due now a.closing_until then close_segment wall "" a r else r

  pub close_open : String → Option Active → Recorder Payload → Recorder Payload
  unfolding close_segment
  close_open wall none r = r
  close_open wall (some a) r = close_segment wall "" a r

  -- The end of a round.
  pub end_round : String → List (Item Payload) → Recorder Payload → Recorder Payload
  unfolding close_open
  end_round wall [] r =
      if r.closing then close_open wall r.active (record r { ended = true }) else r
  end_round wall (_ ∷ _) r = r

  -- A round of `_run`, with the clock behind its wait.
  pub round : ℕ → String → Recorder Payload → Recorder Payload
  unfolding take_next close_due end_round
  round now wall r =
      let taken = take_next wall r.queue r in
      let due = close_due now wall taken.active taken in
      if r.ended || not r.enabled then r else end_round wall due.queue due

  -- The calls on a recorder, and the rounds of its thread.
  pub data Call : Type 0 where
    records : ℕ → Option Payload → Call
    tells : ℕ → Lifecycle → Call
    closes_all : Call
    rounds : ℕ → String → Call

  pub step : Call → Recorder Payload → Recorder Payload
  step (records now payload) r = record_sample Payload now payload r
  step (tells now told) r = on_lifecycle Payload now told r
  step closes_all r = close Payload r
  step (rounds now wall) r = round now wall r

  pub run : List Call → Recorder Payload → Recorder Payload
  run [] r = r
  run (call ∷ calls) r = run calls (step call r)
