-- ===== src/Codec/Udp.antt =====
-- The UDP frame.
use roboparty_rp_server.Prelude.{
  ℕ, ◌≡◌, ◌≢◌, refl, List, [], ◌∷◌, Option, none, some, arith, ◌⊎◌, inl, inr, Bool, true, false,
  Bool-cases, nat_beq, ◌&&◌,
}
use roboparty_rp_server.Prelude.Result.{Result, ok, err}
use roboparty_rp_server.Codec.{
  Proto, RoundTrips, FrameError, decoded, decode_error, frame_udp, unframe_udp,
}

module _ (p : Proto) where
  open p use {Envelope, serialize, parse}

  -- A framed message is unframed to itself, when protobuf parses what it serializes.
  pub unframe_udp-frame_udp :
      (e : Envelope) → RoundTrips p → unframe_udp p (frame_udp p e) ≡ ok (some e)
  unfolding unframe_udp frame_udp decoded
  unframe_udp-frame_udp e trips = rw (trips e, decoded) refl

  -- A datagram without the magic and the version in front is passed over, whatever follows, and
  -- every other one is parsed: its message, or a raised `DecodeError`.
  abbrev pub Verdict : List ℕ → Result FrameError (Option Envelope) → Type 0
  Verdict datagram r =
      ((payload : List ℕ) × (datagram ≡ 0x52 ∷ 1 ∷ payload)
        × (((e : Envelope) × (parse payload ≡ some e) × (r ≡ ok (some e)))
            ⊎ ((parse payload ≡ none) × (r ≡ err decode_error))))
      ⊎ (((payload : List ℕ) → datagram ≢ 0x52 ∷ 1 ∷ payload) × (r ≡ ok none))

  payload-Verdict :
      (payload : List ℕ) (o : Option Envelope)
      → parse payload ≡ o
      → ((e : Envelope) × (parse payload ≡ some e) × (decoded p o ≡ ok (some e)))
        ⊎ ((parse payload ≡ none) × (decoded p o ≡ err decode_error))
  unfolding decoded
  payload-Verdict payload none parsed = inr (parsed, refl)
  payload-Verdict payload (some e) parsed = inl (e, parsed, refl)

  module _ (magic version : ℕ) (payload : List ℕ) where
    abbrev framed : Bool
    framed = nat_beq magic 0x52 && nat_beq version 1

    unframe_framed :
        framed ≡ true → unframe_udp p (magic ∷ version ∷ payload) ≡ decoded p (parse payload)
    unfolding unframe_udp
    unframe_framed h = ground arith

    unframe_stray : framed ≡ false → unframe_udp p (magic ∷ version ∷ payload) ≡ ok none
    unfolding unframe_udp
    unframe_stray h = ground arith

  pub unframe_udp-Verdict : (datagram : List ℕ) → Verdict datagram (unframe_udp p datagram)
  unframe_udp-Verdict [] = inr (λ q e. cc, unfold unframe_udp in refl)
  unframe_udp-Verdict (x ∷ []) = inr (λ q e. cc, unfold unframe_udp in refl)
  unframe_udp-Verdict (magic ∷ version ∷ payload) =
      elim (Bool-cases (framed magic version payload)) [
        | inl yes_framed ↦
            rw (unframe_framed magic version payload yes_framed)
              (inl (payload, ground arith, payload-Verdict payload (parse payload) refl))
        | inr stray ↦ inr (λ q e. ground arith, unframe_stray magic version payload stray)
      ]
