-- ===== src/Codec/Tests.antt =====
-- Concrete messages and streams: witnesses of the theorems on the codec.
use mathlib.Core.List.{flatten}
use native.Mathlib.Decide.{dec_lt}
use roboparty_rp_server.Prelude.Order.{lt_wf}
use roboparty_rp_server.Prelude.{ℕ, ◌≡◌, refl, ◌≢◌, List, [], ◌∷◌, ◌++◌, Option, some, arith}
use roboparty_rp_server.Codec.{
  Proto, RoundTrips, waiting, out_of_fuel, raised, too_large, encode_varint, read_varint,
  frame_stream, prepend, feed, feed_loop, feed_round, header_round, body_round, read_loop,
  encode_loop,
}
use roboparty_rp_server.Codec.Feed.{feed-ne-out_of_fuel, feed-append, feed_lasts}
use roboparty_rp_server.Codec.RoundTrip.{feed_all, frames, feed_all-frame_stream}

-- Messages that are their own bytes; no message begins with a 0.
abbrev pub parse_raw : List ℕ → Option (List ℕ)
parse_raw [] = some []
parse_raw (b ∷ bytes) = some (b ∷ bytes)

abbrev pub raw : Proto
raw = record { Envelope = List ℕ; serialize = λ e. e; parse = parse_raw }

pub raw-RoundTrips : RoundTrips raw
raw-RoundTrips [] = refl
raw-RoundTrips (b ∷ bytes) = refl

two_frames :
    flatten ((2 ∷ []) ∷ (5 ∷ 6 ∷ 1 ∷ []) ∷ (9 ∷ []) ∷ [])
    ≡ frame_stream raw (5 ∷ 6 ∷ []) ++ (frame_stream raw (9 ∷ []) ++ [])
unfolding flatten frame_stream encode_varint encode_loop lt_wf dec_lt
two_frames = refl

pub short_frames :
    frames raw 64 raw-RoundTrips (omega arith) ((5 ∷ 6 ∷ []) ∷ (7 ∷ 8 ∷ 9 ∷ []) ∷ [])
    ≡ 2 ∷ 5 ∷ 6 ∷ 3 ∷ 7 ∷ 8 ∷ 9 ∷ []
unfolding frame_stream encode_varint encode_loop lt_wf dec_lt
short_frames = refl

feed_all-frame_stream_example :
    feed_all raw 64 [] ((2 ∷ []) ∷ (5 ∷ 6 ∷ 1 ∷ []) ∷ (9 ∷ []) ∷ [])
    ≡ record { envelopes = (5 ∷ 6 ∷ []) ∷ (9 ∷ []) ∷ []; buffer = []; status = waiting }
feed_all-frame_stream_example =
    feed_all-frame_stream raw 64 raw-RoundTrips (omega arith) ((5 ∷ 6 ∷ []) ∷ (9 ∷ []) ∷ [])
      ((2 ∷ []) ∷ (5 ∷ 6 ∷ 1 ∷ []) ∷ (9 ∷ []) ∷ []) (omega arith) two_frames

half_waits : (feed raw 64 (2 ∷ []) (5 ∷ [])).status ≡ waiting
unfolding feed feed_loop feed_round header_round body_round read_varint read_loop
half_waits = refl

feed-append_example :
    feed raw 64 (2 ∷ []) ((5 ∷ []) ++ (6 ∷ 1 ∷ []))
    ≡ prepend raw
        (feed raw 64 (2 ∷ []) (5 ∷ [])).envelopes
        (feed raw 64 (feed raw 64 (2 ∷ []) (5 ∷ [])).buffer (6 ∷ 1 ∷ []))
feed-append_example = feed-append raw 64 (2 ∷ []) (5 ∷ []) (6 ∷ 1 ∷ []) half_waits

feed-ne-out_of_fuel_example : (feed raw 64 (2 ∷ []) (5 ∷ 6 ∷ 1 ∷ [])).status ≢ out_of_fuel
feed-ne-out_of_fuel_example = feed-ne-out_of_fuel raw 64 (2 ∷ []) (5 ∷ 6 ∷ 1 ∷ [])

oversized : (feed raw 64 [] (65 ∷ [])).status ≡ raised (too_large 65)
unfolding feed feed_loop feed_round header_round body_round read_varint read_loop
oversized = refl

feed_lasts_example : feed raw 64 (feed raw 64 [] (65 ∷ [])).buffer (1 ∷ []) ≡ record {
  envelopes = [];
  buffer = (feed raw 64 [] (65 ∷ [])).buffer ++ (1 ∷ []);
  status = raised (too_large 65);
}
feed_lasts_example = feed_lasts raw 64 [] (65 ∷ []) (1 ∷ []) (too_large 65) tt oversized
