-- ===== src/Spool.antt =====
-- log_upload.py: `LogSpool`, the bounded queue of log events in SQLite, and the rounds of
-- `LogUploadHandler._run_loop` that drain it. A table is the list of its rows in the order of their
-- ids, so that `ORDER BY id LIMIT n` is `take n`. Times are milliseconds.
pub mod Rows
pub mod Sound
pub mod Meanwhile
pub mod Settle
pub mod Rounds
mod Tests
use roboparty_rp_server.Prelude.{
  ℕ, ◌+◌, ◌-◌, max, Bool, true, false, ◌&&◌, ◌||◌, not, String, Option, none, some, List, [], ◌∷◌,
  ◌++◌, map, length, take, drop, ltb, leb, ◌==◌, nat_eq, string_eq, if◌then◌else◌,
}
use roboparty_rp_server.Prelude.Dict.{Dict, get, put, contains}

pub record Row : Type 0 where
  pub id : ℕ
  pub payload : String
  pub attempts : ℕ
  pub created_at : String

pub record DeadRow : Type 0 where
  pub payload : String
  pub attempts : ℕ
  pub created_at : String
  pub failed_at : String
  pub reason : String

-- The spool, with what it printed; `acked` are the rows of the uploads that the log server has
-- answered, and `received` are all that it took, in that order and as often as it took them.
pub record Spool : Type 0 where
  pub rows : List Row
  pub next_id : ℕ
  pub dead : List DeadRow
  pub max_events : ℕ
  pub max_attempts : ℕ
  pub dropped : ℕ
  pub rejected : ℕ
  pub dead_letter_dropped : ℕ
  pub warned : Dict String ℕ
  pub printed : List (String × ℕ)
  pub acked : List Row
  pub received : List Row

-- `LogSpool(path, max_events, max_attempts)` on a file that is not there yet.
pub create : ℕ → ℕ → Spool
create max_events max_attempts = record {
  rows = [];
  next_id = 1;
  dead = [];
  max_events = max 1 max_events;
  max_attempts = max 1 max_attempts;
  dropped = 0;
  rejected = 0;
  dead_letter_dropped = 0;
  warned = [];
  printed = [];
  acked = [];
  received = [];
}

-- WHERE
pub select : (Row → Bool) → List Row → List Row
select test [] = []
select test (r ∷ rs) = let rest = select test rs in if test r then r ∷ rest else rest

pub ids_of : List Row → List ℕ
ids_of [] = []
ids_of (r ∷ rs) = r.id ∷ ids_of rs

pub last_warning : Option ℕ → ℕ
last_warning none = 0
last_warning (some at) = at

-- `_warn`, at most once a minute for each key.
pub warn : ℕ → String → ℕ → Spool → Spool
unfolding last_warning
warn now key count s =
    if ltb now (last_warning (get s.warned key) + 60_000)
    then s
    else record s { warned = put s.warned key now; printed = s.printed ++ (key, count) ∷ [] }

-- `add`, of an event that is serialized.
pub add : ℕ → String → String → Spool → Spool
unfolding warn
add now stamp payload s =
    let rows =
      s.rows
      ++ record { id = s.next_id; payload = payload; attempts = 0; created_at = stamp } ∷ [] in
    let s' = record s { rows = rows; next_id = s.next_id + 1 } in
    let excess = length rows - s.max_events in
    if ltb s.max_events (length rows)
    then warn now "overflow" excess
        (record s' { rows = drop excess rows; dropped = s.dropped + excess })
    else s'

-- `LogUploadHandler.emit` of an event that the policy lets through; `none` is one that is not
-- serialized.
pub emit : ℕ → String → Option String → Spool → Spool
unfolding add
emit now stamp none s = record s { dropped = s.dropped + 1 }
emit now stamp (some payload) s = add now stamp payload s

-- The clock, the time stamp and the payload of an `emit`.
pub record Arrival : Type 0 where
  pub now : ℕ
  pub stamp : String
  pub payload : Option String

pub emit_all : List Arrival → Spool → Spool
unfolding emit
emit_all [] s = s
emit_all (a ∷ rest) s = emit_all rest (emit a.now a.stamp a.payload s)

pub peek : ℕ → Spool → List Row
peek limit s = take limit s.rows

pub size : Spool → ℕ
size s = length s.rows

-- `ack`; without ids nothing is deleted.
pub ack : List ℕ → Spool → Spool
ack ids s = record s { rows = select (λ r. not (contains ids r.id)) s.rows }

pub enforce_dead_limit : Spool → Spool
enforce_dead_limit s =
    let excess = length s.dead - s.max_events in
    if ltb s.max_events (length s.dead)
    then record s {
      dead = drop excess s.dead;
      dead_letter_dropped = s.dead_letter_dropped + excess;
    }
    else s

pub dead_row : String → String → Row → DeadRow
dead_row failed_at reason r = record {
  payload = r.payload;
  attempts = r.attempts;
  created_at = r.created_at;
  failed_at = failed_at;
  reason = reason;
}

pub to_dead_letter : String → List Row → String → Spool → Spool
unfolding enforce_dead_limit
to_dead_letter failed_at rows reason s = enforce_dead_limit (record s {
  rows = select (λ r. not (contains (ids_of rows) r.id)) s.rows;
  dead = s.dead ++ map (dead_row failed_at reason) rows;
  rejected = s.rejected + length rows;
})

pub count_attempt : List ℕ → List Row → List Row
count_attempt ids [] = []
count_attempt ids (r ∷ rs) =
    (if contains ids r.id then record r { attempts = r.attempts + 1 } else r) ∷ count_attempt ids rs

pub warn_moved : ℕ → String → List Row → Spool → Spool
warn_moved now key [] s = s
warn_moved now key (r ∷ rs) s = warn now key (length (r ∷ rs)) s

pub fail : ℕ → String → List ℕ → Spool → Spool
unfolding warn_moved to_dead_letter count_attempt
fail now stamp [] s = s
fail now stamp (i ∷ ids) s =
    let rows = count_attempt (i ∷ ids) s.rows in
    let worn = select (λ r. leb s.max_attempts r.attempts) rows in
    warn_moved now "max_attempts" worn
      (to_dead_letter stamp worn "max_attempts" (record s { rows = rows }))

pub reject : ℕ → String → List ℕ → String → Spool → Spool
unfolding warn_moved to_dead_letter
reject now stamp [] reason s = s
reject now stamp (i ∷ ids) reason s =
    let rows = select (λ r. contains (i ∷ ids) r.id) s.rows in
    warn_moved now reason rows (to_dead_letter stamp rows reason s)

-- How `_post` ends: with a response, an `HTTPError` of a status, or another error that is caught; and,
-- for an error, whether the server has taken the events all the same, as where its answer is lost.
pub data Posted : Type 0 where
  responded : Posted
  http_error : ℕ → Bool → Posted
  unreachable : Bool → Posted

pub receive : Bool → List Row → Spool → Spool
receive taken rows s = if taken then record s { received = s.received ++ rows } else s

-- What the loop does next: the next round at once, a wait for it, or the end.
pub data Next : Type 0 where
  again waits ends : Next

pub next_of : Bool → Next
next_of true = ends
next_of false = waits

-- 400 to 499, but for 408 and 429
pub is_final : ℕ → Bool
is_final code = (leb 400 code && ltb code 500) && not (code == 408 || code == 429)

-- `describe` is the f-string `http_{code}`.
module _ (describe : ℕ → String) where
  pub settle : ℕ → String → Bool → Posted → List Row → Spool → Next × Spool
  unfolding ack reject fail is_final next_of receive
  settle now stamp stopped responded rows s =
      let s' = receive true rows s in
      (again, ack (ids_of rows) (record s' { acked = s'.acked ++ rows }))
  settle now stamp stopped (unreachable taken) rows s =
      (next_of stopped, fail now stamp (ids_of rows) (receive taken rows s))
  settle now stamp stopped (http_error code taken) rows s =
      let s' = receive taken rows s in
      if is_final code
      then (next_of stopped, reject now stamp (ids_of rows) (describe code) s')
      else (next_of stopped, fail now stamp (ids_of rows) s')

  -- `upload_rows` on what the round has read.
  pub upload_rows : ℕ → String → Bool → Posted → List Row → Spool → Next × Spool
  unfolding settle
  upload_rows now stamp stopped posted [] s = (next_of stopped, s)
  upload_rows now stamp stopped posted (r ∷ rs) s = settle now stamp stopped posted (r ∷ rs) s

  -- One round of `_run_loop`; `stopped` is what it reads of the event. It has the lock while it reads
  -- a batch and while it settles it, and in between the other threads emit events.
  pub upload_round : ℕ → String → ℕ → Bool → Posted → List Arrival → Spool → Next × Spool
  unfolding upload_rows peek emit_all
  upload_round now stamp batch_size stopped posted meanwhile s =
      upload_rows now stamp stopped posted (peek batch_size s) (emit_all meanwhile s)

-- The calls on a spool: `emit` of an event, and a round of the uploader with what comes in meanwhile.
pub data Call : Type 0 where
  emits : ℕ → String → Option String → Call
  uploads : ℕ → String → Bool → Posted → List Arrival → Call

module _ (describe : ℕ → String) (batch_size : ℕ) where
  pub step : Call → Spool → Spool
  step (emits now stamp payload) s = emit now stamp payload s
  step (uploads now stamp stopped posted meanwhile) s =
      (upload_round describe now stamp batch_size stopped posted meanwhile s).1

  pub run : List Call → Spool → Spool
  run [] s = s
  run (call ∷ calls) s = run calls (step call s)
