-- ===== src/Segment.antt =====
-- monitors/segment.py: `SegmentRecorder`. Its files are the list of what is written to them, the
-- newest first; a directory is named by its session. Times are milliseconds; `wall` is the text of
-- the date, which a round reads once. `Payload` is what `telemetry_json` returns.
pub mod Thread
mod Tests
use roboparty_rp_server.Prelude.{
  ℕ, ◌+◌, max, Bool, true, false, ◌&&◌, ◌||◌, not, String, Option, none, some, List, [], ◌∷◌, ◌++◌,
  length, ltb, leb, ◌==◌, nat_eq, string_eq, if◌then◌else◌,
}
use roboparty_rp_server.Prelude.Dict.{Dict, put, contains, get, is_some}

pub data Phase : Type 0 where
  starting running stopping stopped failed : Phase
  other_phase : String → Phase

abbrev pub Extra : Type 0
Extra = Dict String String

-- The data of a lifecycle item.
pub record Lifecycle : Type 0 where
  pub phase : Phase
  pub session_id : String
  pub policy : String
  pub extra : Extra

-- `active`
pub record Active : Type 0 where
  pub session_id : String
  pub policy : String
  pub started_at : String
  pub phase : Phase
  pub running_at : String
  pub stopping_at : String
  pub stopped_at : String
  pub closing_until : Option ℕ
  pub samples : ℕ
  pub start_extra : Extra
  pub stop_extra : Extra

module _ (Payload : Type 0) where
  pub data Item : Type 0 where
    sample : ℕ → Payload → Item
    lifecycle : ℕ → Lifecycle → Item

  -- What is done to the files of a session. `meta` has the segment and the count of what is dropped.
  pub data Write : Type 0 where
    opens : String → Write
    sample_line : String → String → Payload → Write
    event_line : String → String → Lifecycle → Write
    meta : Active → ℕ → Write
    closes : String → Write

  -- The recorder, and what its thread keeps: `buffer`, `active`, and whether it has returned.
  pub record Recorder : Type 0 where
    pub pre_window : ℕ
    pub post_window : ℕ
    pub buffer_time : ℕ
    pub enabled : Bool
    pub dropped : ℕ
    pub queue : List Item
    pub capacity : ℕ
    pub closing : Bool
    pub buffer : List (ℕ × Payload)
    pub active : Option Active
    pub ended : Bool
    pub writes : List Write

  pub create : ℕ → ℕ → ℕ → ℕ → Bool → Recorder
  create pre post buffer_time queue_size enabled = record {
    pre_window = pre;
    post_window = post;
    buffer_time = max pre buffer_time;
    enabled = enabled;
    dropped = 0;
    queue = [];
    capacity = max 1 queue_size;
    closing = false;
    buffer = [];
    active = none;
    ended = false;
    writes = [];
  }

  -- `_put`
  pub enqueue : Item → Recorder → Recorder
  enqueue item r =
      if ltb (length r.queue) r.capacity
      then record r { queue = r.queue ++ item ∷ [] }
      else record r { dropped = r.dropped + 1 }

  -- `record`; `none` is an envelope without telemetry.
  pub record_sample : ℕ → Option Payload → Recorder → Recorder
  unfolding enqueue
  record_sample now none r = r
  record_sample now (some payload) r = if r.enabled then enqueue (sample now payload) r else r

  pub on_lifecycle : ℕ → Lifecycle → Recorder → Recorder
  unfolding enqueue
  on_lifecycle now told r = if r.enabled then enqueue (lifecycle now told) r else r

  pub close : Recorder → Recorder
  close r = if r.enabled then record r { closing = true } else r

  pub write : Write → Recorder → Recorder
  write w r = record r { writes = w ∷ r.writes }

  pub write_meta : Active → Recorder → Recorder
  unfolding write
  write_meta a r = write (meta a r.dropped) r

  pub write_sample : String → Payload → Active → Recorder → Active × Recorder
  unfolding write
  write_sample wall payload a r =
      (record a { samples = a.samples + 1 }, write (sample_line a.session_id wall payload) r)
