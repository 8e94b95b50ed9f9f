-- ===== src/Ble/Tests.antt =====
-- A link of 20 bytes: witnesses of the theorems on Bluetooth.
use roboparty_rp_server.Prelude.{max, ◌≡◌, sym, true, false, List, [], ◌∷◌, ◌++◌, arith}
use roboparty_rp_server.Codec.{waiting}
use roboparty_rp_server.Codec.Tests.{raw, raw-RoundTrips, short_frames}
use roboparty_rp_server.Codec.RoundTrip.{feed_all}
use roboparty_rp_server.Ble.{
  create, chunks, slices, put_all, write, flush, put, read, Event, writes, feeds, flushes, reads,
  step, run,
}
use roboparty_rp_server.Ble.Queues.{IsBounded, run-create-IsBounded}
use roboparty_rp_server.Ble.Delivery.{written, run-create-delivered}

abbrev traffic : List Event
traffic =
    writes (2 ∷ 5 ∷ 6 ∷ [])
    ∷ feeds (1 ∷ 9 ∷ [])
    ∷ flushes false
    ∷ flushes true
    ∷ reads
    ∷ writes (3 ∷ 7 ∷ 8 ∷ 9 ∷ [])
    ∷ flushes true
    ∷ []

run-create-IsBounded_example : IsBounded (max 20 3) (run traffic (create 3))
run-create-IsBounded_example = run-create-IsBounded 3 traffic

run-create-delivered_example :
    let l = run traffic (create 3) in
    feed_all raw 64 [] (l.notified ++ l.outgoing)
    ≡ record { envelopes = (5 ∷ 6 ∷ []) ∷ (7 ∷ 8 ∷ 9 ∷ []) ∷ []; buffer = []; status = waiting }
unfolding create chunks slices put_all write flush put read step written
run-create-delivered_example =
    run-create-delivered raw 64 raw-RoundTrips (omega arith) 3 traffic
      ((5 ∷ 6 ∷ []) ∷ (7 ∷ 8 ∷ 9 ∷ []) ∷ []) (omega arith, (omega arith, tt)) (omega arith)
      (sym short_frames)
