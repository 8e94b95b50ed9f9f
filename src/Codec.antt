-- ===== src/Codec.antt =====
-- protocol/codec.py: the UDP frame, the varint, the length-delimited stream and its incremental
-- decoder. A byte is a number. The generated protobuf class is a parameter.
pub mod Varint
pub mod Rounds
pub mod Feed
pub mod RoundTrip
pub mod Udp
pub mod Tests
use mathlib.Core.Logic.{dite}
use mathlib.Core.WellFounded.{Acc}
use native.Mathlib.Decide.{dec_lt}
use roboparty_rp_server.Prelude.{
  ℕ, zero, suc, ◌+◌, ◌-◌, ◌*◌, ◌/◌, ◌^◌, ◌<◌, ◌≡◌, bit_and, bit_or, List, [], ◌∷◌, ◌++◌, Option,
  none, some, ltb, ◌==◌, ◌||◌, not, nat_eq, if◌then◌else◌, length, take, drop, arith,
}
use roboparty_rp_server.Prelude.Order.{lt_wf}
use roboparty_rp_server.Prelude.Result.{Result, ok, err}

-- The generated class `Envelope`: `SerializeToString`, and `ParseFromString`, whose `none` is a
-- raised `DecodeError`.
pub record Proto : Type 1 where
  pub Envelope : Type 0
  pub serialize : Envelope → List ℕ
  pub parse : List ℕ → Option Envelope

-- What protobuf documents: a serialized message parses to itself.
abbrev pub RoundTrips : Proto → Type 0
RoundTrips p = (e : p.Envelope) → p.parse (p.serialize e) ≡ some e

-- `ValueError("frame too large")`, `ValueError("varint too long")`, protobuf's `DecodeError`.
pub data FrameError : Type 0 where
  too_large : ℕ → FrameError
  varint_too_long decode_error : FrameError

shift_smaller : (value : ℕ) → 0 < value / 128 → value / 128 < value
shift_smaller value h = omega arith

-- The `while True` of `_encode_varint`; it goes on while `value >> 7` is not 0.
pub encode_loop : (value : ℕ) → Acc ◌<◌ value → List ℕ → List ℕ
encode_loop value (Acc.intro _ smaller) out =
    let byte = bit_and value 0x7f in
    dite (dec_lt 0 (value / 128))
      (λ more.
        encode_loop (value / 128) (smaller _ (shift_smaller value more))
          (out ++ (bit_or byte 0x80 ∷ [])))
      (λ _. out ++ (byte ∷ []))

pub encode_varint : ℕ → List ℕ
encode_varint value = encode_loop value (lt_wf.apply value) []

-- The loop of `_read_varint` from the byte at index `i` on.
pub read_loop : List ℕ → ℕ → ℕ → ℕ → Result FrameError (Option (ℕ × ℕ))
read_loop [] i value shift = ok none
read_loop (byte ∷ rest) i value shift =
    let value' = bit_or value (bit_and byte 0x7f * 2 ^ shift) in
    let more = read_loop rest (i + 1) value' (shift + 7) in
    if bit_and byte 0x80 == 0
    then ok (some (value', i + 1))
    else if ltb 63 (shift + 7)
    then err varint_too_long
    else more

pub read_varint : List ℕ → Result FrameError (Option (ℕ × ℕ))
read_varint buf = read_loop buf 0 0 0

abbrev udp_magic : ℕ
udp_magic = 0x52

abbrev udp_version : ℕ
udp_version = 1

-- How far a call of `feed` came: it waits for more bytes, it raised, or its loop ran out of fuel.
pub data Status : Type 0 where
  waiting out_of_fuel : Status
  raised : FrameError → Status

module _ (p : Proto) where
  open p use {Envelope, serialize, parse}

  -- `UDP_HEADER + envelope.SerializeToString()`
  pub frame_udp : Envelope → List ℕ
  frame_udp e = udp_magic ∷ udp_version ∷ serialize e

  pub decoded : Option Envelope → Result FrameError (Option Envelope)
  decoded none = err decode_error
  decoded (some e) = ok (some e)

  pub unframe_udp : List ℕ → Result FrameError (Option Envelope)
  unframe_udp (magic ∷ version ∷ payload) =
      if not (magic == udp_magic)
      then ok none
      else if not (version == udp_version)
      then ok none
      else decoded (parse payload)
  unframe_udp _ = ok none

  pub frame_stream : Envelope → List ℕ
  frame_stream e = let payload = serialize e in encode_varint (length payload) ++ payload

  -- One round of the loop of `feed` on the buffer: it returns, it raises, or it yields.
  pub data Round : Type 0 where
    pause : Round
    fail : FrameError → List ℕ → Round
    yields : Envelope → List ℕ → Round

  pub decode_payload : Option Envelope → List ℕ → Round
  decode_payload none rest = fail decode_error rest
  decode_payload (some e) rest = yields e rest

  pub body_round : ℕ → List ℕ → ℕ → ℕ → Round
  body_round max_size buf size offset =
      if ltb max_size size
      then fail (too_large size) buf
      else if ltb (length buf - offset) size
      then pause
      else decode_payload (parse (take size (drop offset buf))) (drop (offset + size) buf)

  pub header_round : ℕ → List ℕ → Result FrameError (Option (ℕ × ℕ)) → Round
  header_round max_size buf (err e) = fail e buf
  header_round max_size buf (ok none) = pause
  header_round max_size buf (ok (some (size, offset))) = body_round max_size buf size offset

  pub feed_round : ℕ → List ℕ → Round
  feed_round max_size buf = header_round max_size buf (read_varint buf)

  -- What a caller that runs the generator to its end has: the envelopes, and the buffer left.
  pub record Fed : Type 0 where
    pub envelopes : List Envelope
    pub buffer : List ℕ
    pub status : Status

  abbrev pub prepend : List Envelope → Fed → Fed
  prepend es r = record r { envelopes = es ++ r.envelopes }

  pub feed_loop : ℕ → ℕ → List ℕ → Fed
  feed_loop max_size zero buf = record { envelopes = []; buffer = buf; status = out_of_fuel }
  feed_loop max_size (suc fuel) buf = elim (feed_round max_size buf) [
    | pause ↦ record { envelopes = []; buffer = buf; status = waiting }
    | fail e rest ↦ record { envelopes = []; buffer = rest; status = raised e }
    | yields e rest ↦ prepend (e ∷ []) (feed_loop max_size fuel rest)
  ]

  -- `StreamDecoder.feed` on the buffer and the new bytes. A round takes a byte at least.
  pub feed : ℕ → List ℕ → List ℕ → Fed
  feed max_size buf new =
      let extended = buf ++ new in feed_loop max_size (suc (length extended)) extended
