-- ===== src/Ble.antt =====
-- ble_gatt.py: the queues of `BleLink`, which carry the bytes of the gateway over Bluetooth, and the
-- timer of the server that sends one notification each time.
pub mod Queues
pub mod Delivery
mod Tests
use roboparty_rp_server.Prelude.{
  ℕ, zero, suc, max, Bool, true, false, Option, none, some, List, [], ◌∷◌, ◌++◌, length, take, drop,
  ltb, if◌then◌else◌,
}

-- `queue.Queue(maxsize=1024)` and `asyncio.Queue(maxsize=1024)`
abbrev pub capacity : ℕ
capacity = 1024

-- `_outgoing`, what the client was notified of, and `_incoming` with what its reader took.
pub record BleLink : Type 0 where
  pub chunk_size : ℕ
  pub outgoing : List (List ℕ)
  pub notified : List (List ℕ)
  pub incoming : List (List ℕ)
  pub taken : List (List ℕ)

-- `BleLink(..., mtu)`
pub create : ℕ → BleLink
create mtu = record {
  chunk_size = max 20 mtu;
  outgoing = [];
  notified = [];
  incoming = [];
  taken = [];
}

-- The slices that `_BleWriter.write` takes; there are no more than bytes.
pub slices : ℕ → ℕ → List ℕ → List (List ℕ)
slices zero size bytes = []
slices (suc fuel) size [] = []
slices (suc fuel) size (b ∷ bs) = take size (b ∷ bs) ∷ slices fuel size (drop size (b ∷ bs))

pub chunks : ℕ → List ℕ → List (List ℕ)
unfolding slices
chunks size bytes = slices (length bytes) size bytes

-- `put_nowait` of one after the other, up to the first that finds the queue full.
pub put_all : List (List ℕ) → List (List ℕ) → List (List ℕ)
put_all [] q = q
put_all (c ∷ cs) q =
    let more = put_all cs (q ++ (c ∷ [])) in if ltb (length q) capacity then more else q

-- `_BleWriter.write`
pub write : List ℕ → BleLink → BleLink
unfolding chunks put_all
write bytes l = record l { outgoing = put_all (chunks l.chunk_size bytes) l.outgoing }

-- `_GattServer._flush`, with whether the client asked for notifications.
pub flush : Bool → List (List ℕ) → BleLink → BleLink
flush false q l = l
flush true [] l = l
flush true (c ∷ q) l = record l { outgoing = q; notified = l.notified ++ (c ∷ []) }

-- `_put` of what the client wrote
pub put : List ℕ → BleLink → BleLink
put bytes l =
    if ltb (length l.incoming) capacity
    then record l { incoming = l.incoming ++ (bytes ∷ []) }
    else l

-- `_BleReader.read`, which waits where there is nothing.
pub read : List (List ℕ) → BleLink → BleLink
read [] l = l
read (bytes ∷ q) l = record l { incoming = q; taken = l.taken ++ (bytes ∷ []) }

pub data Event : Type 0 where
  writes feeds : List ℕ → Event
  flushes : Bool → Event
  reads : Event

pub step : Event → BleLink → BleLink
unfolding write flush put read
step (writes bytes) l = write bytes l
step (feeds bytes) l = put bytes l
step (flushes notifying) l = flush notifying l.outgoing l
step reads l = read l.incoming l

pub run : List Event → BleLink → BleLink
run [] l = l
run (ev ∷ evs) l = run evs (step ev l)
