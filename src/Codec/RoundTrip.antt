-- ===== src/Codec/RoundTrip.antt =====
-- What `frame_stream` writes comes back from the decoder, in whatever pieces it arrives.
use mathlib.Core.List.{append_assoc, append-nil, flatten}
use roboparty_rp_server.Prelude.{
  ℕ, zero, suc, ◌+◌, ◌^◌, ◌≤◌, ◌<◌, ◌≡◌, refl, sym, ap, ◌∙◌, inl, inr, List, [], ◌∷◌, ◌++◌, some,
  length, drop, length-append, take-length, drop-length, All, arith,
}
use roboparty_rp_server.Codec.{
  Proto, RoundTrips, pause, yields, Status, waiting, raised, out_of_fuel, Fed, prepend, read_varint,
  read_loop, encode_varint, frame_stream, decode_payload, body_round, header_round, feed_round,
  feed_loop, feed,
}
use roboparty_rp_server.Codec.Rounds.{feed_round_shrinks, Round-cases}
use roboparty_rp_server.Codec.Feed.{feed_at_once, feed-ne-out_of_fuel, resume}
use roboparty_rp_server.Codec.Varint.{read_varint-encode_varint}

module _ (p : Proto) (max_size : ℕ) where
  open p use {Envelope, serialize, parse}

  feed_loop_idle :
      (n : ℕ) (buf : List ℕ)
      → (feed_loop p max_size n buf).status ≡ waiting
      → feed_round p max_size (feed_loop p max_size n buf).buffer ≡ pause
  unfolding feed_loop
  feed_loop_idle zero buf = λ h. cc
  feed_loop_idle (suc n) buf = elim (Round-cases p max_size (feed_round p max_size buf)) [
    | inl e ↦ rw (e, feed_loop) (λ h. e)
    | inr (inl (x, rest, e)) ↦ rw (e, feed_loop) (λ h. cc)
    | inr (inr (x, rest, e)) ↦ rw (e, feed_loop) (λ h. feed_loop_idle n rest h)
  ]

  feed_idle :
      (buf new : List ℕ)
      → (feed p max_size buf new).status ≡ waiting
      → feed_round p max_size (feed p max_size buf new).buffer ≡ pause
  unfolding feed
  feed_idle buf new = feed_loop_idle (suc (length (buf ++ new))) (buf ++ new)

  -- A reader that hands the decoder one piece after the other, until a call raises.
  pub feed_all : List ℕ → List (List ℕ) → Fed p
  feed_all buf [] = record { envelopes = []; buffer = buf; status = waiting }
  feed_all buf (piece ∷ pieces) =
      let r = feed p max_size buf piece in
      let later = prepend p r.envelopes (feed_all r.buffer pieces) in
      elim r.status [ waiting ↦ later | _ ↦ r ]

  feed_all_step :
      (buf piece : List ℕ) (pieces : List (List ℕ)) (s : Status)
      → let r = feed p max_size buf piece in
        r.status ≡ s
        → (feed_round p max_size r.buffer ≡ pause
            → (feed p max_size r.buffer (flatten pieces)).status ≡ waiting
            → feed_all r.buffer pieces ≡ feed p max_size r.buffer (flatten pieces))
        → (resume p max_size r (flatten pieces)).status ≡ waiting
        → feed_all buf (piece ∷ pieces) ≡ resume p max_size r (flatten pieces)
  unfolding feed_all
  feed_all_step buf piece pieces waiting e ih h =
      let r = feed p max_size buf piece in
      rw (e, feed_all) (ap (prepend p r.envelopes) (ih (feed_idle buf piece e) (rw e at h)))
  feed_all_step buf piece pieces out_of_fuel e ih h =
      absurd (feed-ne-out_of_fuel p max_size buf piece e)
  feed_all_step buf piece pieces (raised x) e ih h = cc (rw e at h)

  feed_loop-pause :
      (n : ℕ) (buf : List ℕ)
      → feed_round p max_size buf ≡ pause
      → feed_loop p max_size (suc n) buf ≡ record { envelopes = []; buffer = buf; status = waiting }
  unfolding feed_loop
  feed_loop-pause n buf idle = rw (idle, feed_loop) refl

  feed-nil :
      (buf : List ℕ)
      → feed_round p max_size buf ≡ pause
      → feed p max_size buf [] ≡ record { envelopes = []; buffer = buf; status = waiting }
  unfolding feed
  feed-nil buf idle = rw append-nil (feed_loop-pause (length buf) buf idle)

  feed_all-flatten :
      (buf : List ℕ) (pieces : List (List ℕ))
      → feed_round p max_size buf ≡ pause
      → (feed p max_size buf (flatten pieces)).status ≡ waiting
      → feed_all buf pieces ≡ feed p max_size buf (flatten pieces)
  unfolding feed_all flatten
  feed_all-flatten buf [] idle h = sym (feed-nil buf idle)
  feed_all-flatten buf (piece ∷ pieces) idle h =
      feed_all_step buf piece pieces (feed p max_size buf piece).status refl
        (feed_all-flatten (feed p max_size buf piece).buffer pieces)
        (rw (feed_at_once p max_size buf piece (flatten pieces)) at h)
      ∙ sym (feed_at_once p max_size buf piece (flatten pieces))

  feed_round-empty : feed_round p max_size [] ≡ pause
  unfolding feed_round header_round read_varint read_loop
  feed_round-empty = refl

  -- A call without bytes on an empty buffer.
  pub feed-empty : feed p max_size [] [] ≡ record { envelopes = []; buffer = []; status = waiting }
  feed-empty = feed-nil [] feed_round-empty

  module _ (trips : RoundTrips p) (small : max_size < 2 ^ 70) where
    drop_two : (a b c : List ℕ) → drop (length a + length b) (a ++ (b ++ c)) ≡ c
    drop_two a b c = rw (← append_assoc, ← length-append) (drop-length (a ++ b) c)

    body_round_parts :
        (a b c : List ℕ) (e : Envelope)
        → length b ≤ max_size
        → parse b ≡ some e
        → body_round p max_size (a ++ (b ++ c)) (length b) (length a) ≡ yields e c
    unfolding body_round decode_payload
    body_round_parts a b c e fits parsed = ground (
      arith,
      length-append a (b ++ c),
      length-append b c,
      drop-length a (b ++ c),
      take-length b c,
      drop_two a b c,
    )

    feed_round-frame_stream :
        (e : Envelope) (rest : List ℕ)
        → length (serialize e) ≤ max_size
        → feed_round p max_size (frame_stream p e ++ rest) ≡ yields e rest
    unfolding feed_round frame_stream header_round
    feed_round-frame_stream e rest fits =
        let payload = serialize e in
        rw append_assoc (
          rw (read_varint-encode_varint (length payload) (payload ++ rest) (omega arith))
            (body_round_parts (encode_varint (length payload)) payload rest e fits (trips e)))

    abbrev pub Fits : List Envelope → Type 0
    Fits = All (λ e. length (serialize e) ≤ max_size)

    abbrev pub frames : List Envelope → List ℕ
    frames [] = []
    frames (e ∷ es) = frame_stream p e ++ frames es

    feed_loop-frames :
        (n : ℕ) (es : List Envelope)
        → Fits es
        → length (frames es) < n
        → feed_loop p max_size n (frames es)
          ≡ record { envelopes = es; buffer = []; status = waiting }
    unfolding feed_loop
    feed_loop-frames zero es fit h = elim h [ ]
    feed_loop-frames (suc n) [] fit h = rw (feed_round-empty, feed_loop) refl
    feed_loop-frames (suc n) (e ∷ es) (fit, fits) h =
        let step = feed_round-frame_stream e (frames es) fit in
        rw (step, feed_loop)
          (ap (prepend p (e ∷ [])) (
            feed_loop-frames n es fits
              (omega (arith, feed_round_shrinks p max_size _ e (frames es) step))))

    -- The frames of messages at once.
    pub feed-frames :
        (es : List Envelope)
        → Fits es
        → feed p max_size [] (frames es) ≡ record { envelopes = es; buffer = []; status = waiting }
    unfolding feed
    feed-frames es fits = feed_loop-frames (suc (length (frames es))) es fits (omega arith)

    -- Messages that fit the limit come through the stream as they were sent, however the link cuts
    -- their frames into pieces; nothing is left in the buffer.
    pub feed_all-frame_stream :
        (es : List Envelope) (pieces : List (List ℕ))
        → Fits es
        → flatten pieces ≡ frames es
        → feed_all [] pieces ≡ record { envelopes = es; buffer = []; status = waiting }
    feed_all-frame_stream es pieces fits same =
        let whole : feed p max_size [] (flatten pieces)
            ≡ record { envelopes = es; buffer = []; status = waiting } =
          rw same (feed-frames es fits) in
        feed_all-flatten [] pieces feed_round-empty (ap (λ (r : Fed p). r.status) whole) ∙ whole
