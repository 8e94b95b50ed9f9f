-- ===== src/Can.antt =====
-- transport/can_joy_listener.py: frames of the CAN bus that become clicks of a button. Times are
-- milliseconds; a payload is a list of bytes.
pub mod Clicks
mod Tests
use roboparty_rp_server.Prelude.{
  ℕ, zero, suc, ◌+◌, ◌-◌, ◌*◌, ◌^◌, min, Bool, true, false, ◌&&◌, ◌||◌, not, Option, none, some,
  List, [], ◌∷◌, ◌++◌, length, take, drop, ltb, ◌==◌, nat_eq, if◌then◌else◌,
}

abbrev pub debounce : ℕ
debounce = 50

pub byte_at : List ℕ → ℕ
byte_at [] = 0
byte_at (b ∷ bs) = b

-- An unsigned number, the low byte first.
pub little_endian : List ℕ → ℕ
little_endian [] = 0
little_endian (b ∷ bs) = b + 256 * little_endian bs

-- `struct.unpack("=IB3x8s", frame)` and `("=IBBBB64s", frame)` on a host with the low byte first.
pub decode_parts : ℕ → List ℕ → ℕ × List ℕ
unfolding little_endian byte_at
decode_parts most frame =
    (little_endian (take 4 frame), take (min (byte_at (drop 4 frame)) most) (drop 8 frame))

pub decode_can_frame : List ℕ → Option (ℕ × List ℕ)
unfolding decode_parts
decode_can_frame frame =
    if length frame == 16
    then some (decode_parts 8 frame)
    else if length frame == 72
    then some (decode_parts 64 frame)
    else none

pub same_bytes : List ℕ → List ℕ → Bool
same_bytes [] [] = true
same_bytes (a ∷ as') (b ∷ bs) = let rest = same_bytes as' bs in a == b && rest
same_bytes _ _ = false

pub is_among : List ℕ → List (List ℕ) → Bool
unfolding same_bytes
is_among payload [] = false
is_among payload (p ∷ ps) = let rest = is_among payload ps in same_bytes payload p || rest

-- Where `_click_lb` is: at `_click_queue.get`, or asleep with the button down.
pub data Phase : Type 0 where
  idle pressed : Phase

-- The listener, whether its click task runs, and the events that it had handled, the newest last:
-- a button that goes down (`true`) or up, with its id.
pub record CanJoyListener : Type 0 where
  pub can_id : ℕ
  pub payloads : List (List ℕ)
  pub last_match : Option ℕ
  pub queued : ℕ
  pub running : Bool
  pub phase : Phase
  pub button_id : ℕ
  pub handled : List (Bool × ℕ)

-- `_dispatch_button`
pub dispatch_button : Bool → CanJoyListener → CanJoyListener
dispatch_button down l = record l {
  button_id = l.button_id + 1;
  handled = l.handled ++ ((down, l.button_id + 1) ∷ []);
}

pub too_soon : ℕ → Option ℕ → Bool
too_soon now none = false
too_soon now (some last) = ltb (now - last) debounce

pub accept : ℕ → CanJoyListener → Bool × CanJoyListener
accept now l = (true, record l { last_match = some now; queued = l.queued + 1; running = true })

pub matches : CanJoyListener → ℕ × List ℕ → Bool
unfolding is_among
matches l (raw_can_id, payload) = raw_can_id == l.can_id && is_among payload l.payloads

-- `process_frame` behind the decoding
pub process : ℕ → Option (ℕ × List ℕ) → CanJoyListener → Bool × CanJoyListener
unfolding matches too_soon accept
process now none l = (false, l)
process now (some decoded) l =
    if not (matches l decoded) || too_soon now l.last_match then (false, l) else accept now l

pub process_frame : ℕ → List ℕ → CanJoyListener → Bool × CanJoyListener
unfolding process decode_can_frame
process_frame now frame l = process now (decode_can_frame frame) l

-- The click task: it takes a click, or lets the button go behind its sleep.
pub click : Phase → ℕ → CanJoyListener → CanJoyListener
unfolding dispatch_button
click idle zero l = l
click idle (suc n) l = record (dispatch_button true l) { queued = n; phase = pressed }
click pressed n l = record (dispatch_button false l) { phase = idle }

-- A cancelled click lets the button go on its way out.
pub cancel : Phase → CanJoyListener → CanJoyListener
unfolding dispatch_button
cancel idle l = l
cancel pressed l = record (dispatch_button false l) { phase = idle }

-- `stop`
pub stop : CanJoyListener → CanJoyListener
unfolding cancel
stop l = record (cancel l.phase l) { queued = 0; running = false; last_match = none }

pub data Event : Type 0 where
  receives : ℕ → List ℕ → Event
  clicks stops : Event

pub step : Event → CanJoyListener → CanJoyListener
unfolding process_frame click stop
step (receives now frame) l = (process_frame now frame l).1
step clicks l = if l.running then click l.phase l.queued l else l
step stops l = stop l

pub run : List Event → CanJoyListener → CanJoyListener
run [] l = l
run (ev ∷ evs) l = run evs (step ev l)

pub create : ℕ → List (List ℕ) → CanJoyListener
create can_id payloads = record {
  can_id = can_id;
  payloads = payloads;
  last_match = none;
  queued = 0;
  running = false;
  phase = idle;
  button_id = 0;
  handled = [];
}
