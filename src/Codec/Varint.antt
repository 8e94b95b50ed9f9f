-- ===== src/Codec/Varint.antt =====
-- `_encode_varint` against `_read_varint`, and `_read_varint` on arbitrary bytes.
use mathlib.Core.Logic.{dif_pos, dif_neg}
use mathlib.Core.List.{append_assoc}
use mathlib.Core.WellFounded.{Acc}
use native.Mathlib.Nat.{pow-suc, div-add-mod}
use native.Mathlib.Bridge.{le_prop}
use native.Mathlib.Decide.{dec_lt}
use native.Mathlib.Numerals.{towards_suc}
use roboparty_rp_server.Prelude.{
  ℕ, zero, suc, ◌+◌, ◌*◌, ◌/◌, ◌%◌, ◌^◌, ◌≤◌, ◌<◌, ◌≡◌, refl, ap, bit_and, bit_or, List, [], ◌∷◌,
  ◌++◌, none, some, length, arith, ◌≢◌, ◌⊎◌, inl, inr,
}
use roboparty_rp_server.Prelude.Bits.{bit_or_high, bit_and_low, top_bit}
use roboparty_rp_server.Prelude.Order.{lt_wf}
use roboparty_rp_server.Prelude.Result.{ok}
use roboparty_rp_server.Codec.{encode_loop, encode_varint, read_loop, read_varint, shift_smaller}

-- The encoder's accumulator is a prefix of its result.
encode_loop_out :
    (value : ℕ) (w : Acc ◌<◌ value) (out : List ℕ)
    → encode_loop value w out ≡ out ++ encode_loop value w []
unfolding encode_loop
encode_loop_out value (Acc.intro _ smaller) out =
    let byte = bit_and value 0x7f in
    let head : List ℕ = bit_or byte 0x80 ∷ [] in
    grind (
      arith,
      λ (h : value / 128 < value). encode_loop_out (value / 128) (smaller _ h) (out ++ head),
      λ (h : value / 128 < value). encode_loop_out (value / 128) (smaller _ h) head,
      append_assoc out head,
    )

-- The first byte that the encoder writes, and what follows it.
abbrev Written : ℕ → List ℕ → Type 0
Written value bytes =
    ((value < 128) × (bytes ≡ value ∷ []))
    ⊎ ((w : Acc ◌<◌ (value / 128)) × (128 ≤ value)
        × (bytes ≡ (value % 128 + 128) ∷ encode_loop (value / 128) w []))

inner_byte : (value : ℕ) → bit_or (bit_and value 0x7f) 0x80 ≡ value % 128 + 128
inner_byte value = rw (bit_and_low value) (bit_or_high 7 (value % 128) 1 (omega arith))

encode_loop_first : (value : ℕ) (w : Acc ◌<◌ value) → Written value (encode_loop value w [])
unfolding encode_loop
encode_loop_first value (Acc.intro _ smaller) = elim (dec_lt 0 (value / 128)) [
  | yes more ↦ inr (
    smaller _ (shift_smaller value more),
    omega arith,
    rw (dif_pos _ le_prop more) (
        rw (inner_byte value) (
          encode_loop_out (value / 128) (smaller _ (shift_smaller value more))
            ((value % 128 + 128) ∷ []))),
  )
  | no last ↦
      inl (
        omega arith,
        rw (dif_neg _ last) (ap (λ (b : ℕ). b ∷ []) (omega (arith, bit_and_low value))),
      )
]

-- One byte of the reader, last and not last.
read_last :
    (byte i acc shift : ℕ) (rest : List ℕ)
    → byte < 128
    → acc < 2 ^ shift
    → read_loop (byte ∷ rest) i acc shift ≡ ok (some (acc + byte * 2 ^ shift, i + 1))
unfolding read_loop
read_last byte i acc shift rest hb ha =
    ground (arith, bit_and_low byte, top_bit byte, bit_or_high shift acc byte)

read_inner :
    (group i acc shift : ℕ) (rest : List ℕ)
    → group < 128
    → acc < 2 ^ shift
    → shift ≤ 56
    → read_loop ((group + 128) ∷ rest) i acc shift
      ≡ read_loop rest (i + 1) (acc + group * 2 ^ shift) (shift + 7)
unfolding read_loop
read_inner group i acc shift rest hg ha hs =
    ground (arith, bit_and_low (group + 128), top_bit (group + 128), bit_or_high shift acc group)

pow_seven : (s : ℕ) → 2 ^ (s + 7) ≡ 128 * 2 ^ s
pow_seven s = simp towards_suc (omega arith)

next_fits :
    (group acc shift : ℕ)
    → group < 128
    → acc < 2 ^ shift
    → acc + group * 2 ^ shift < 2 ^ (shift + 7)
next_fits group acc shift hg ha = grind (arith, pow_seven shift)

split_value : (value s : ℕ) → value % 128 * 2 ^ s + value / 128 * 2 ^ (s + 7) ≡ value * 2 ^ s
split_value value s = omega (
  arith,
  ap (λ (t : ℕ). t * 2 ^ s) (div-add-mod value 128),
  ap (λ (t : ℕ). value / 128 * t) (pow_seven s),
)

-- The reader takes back what the encoder writes for `value`, with `k` bytes left to read.
read_loop-encode_loop :
    (k value : ℕ) (w : Acc ◌<◌ value) (i acc shift : ℕ) (rest : List ℕ)
    → value < 128 ^ suc k
    → acc < 2 ^ shift
    → shift + 7 * k ≤ 63
    → read_loop (encode_loop value w [] ++ rest) i acc shift
      ≡ ok (some (acc + value * 2 ^ shift, i + length (encode_loop value w [])))
read_loop-encode_loop zero value w i acc shift rest hv ha hk = elim (encode_loop_first value w) [
  | inl (small, e) ↦ rw e (read_last value i acc shift rest small ha)
  | inr (w', big, e) ↦ absurd (omega arith)
]
read_loop-encode_loop (suc k) value w i acc shift rest hv ha hk = elim (encode_loop_first value w) [
  | inl (small, e) ↦ rw e (read_last value i acc shift rest small ha)
  | inr (w', big, e) ↦ rw e (
      ground (
        arith,
        read_inner (value % 128) i acc shift (encode_loop (value / 128) w' [] ++ rest),
        next_fits (value % 128) acc shift,
        split_value value shift,
        pow-suc 128 (suc k),
        read_loop-encode_loop k (value / 128) w' (i + 1) (acc + value % 128 * 2 ^ shift) (shift + 7)
            rest,
      ))
]

-- Every number below 2 ^ 70 comes back, with the count of the bytes that it takes.
pub read_varint-encode_varint :
    (value : ℕ) (rest : List ℕ)
    → value < 2 ^ 70
    → read_varint (encode_varint value ++ rest) ≡ ok (some (value, length (encode_varint value)))
unfolding read_varint encode_varint
read_varint-encode_varint value rest h =
    ground (arith, read_loop-encode_loop 9 value (lt_wf.apply value) 0 0 0 rest)

-- A varint that is found lies within the bytes, behind the index where the search began.
read_loop_offset :
    (bytes : List ℕ) (i acc shift size offset : ℕ)
    → read_loop bytes i acc shift ≡ ok (some (size, offset))
    → (i < offset) × (offset ≤ i + length bytes)
unfolding read_loop
read_loop_offset [] i acc shift size offset e = cc
read_loop_offset (b ∷ bytes) i acc shift size offset e = ground (
  arith,
  read_loop_offset bytes (i + 1) (bit_or acc (bit_and b 0x7f * 2 ^ shift)) (shift + 7) size offset,
)

pub read_varint_offset :
    (buf : List ℕ) (size offset : ℕ)
    → read_varint buf ≡ ok (some (size, offset))
    → (0 < offset) × (offset ≤ length buf)
unfolding read_varint
read_varint_offset buf size offset e = omega (arith, read_loop_offset buf 0 0 0 size offset e)

-- An answer other than "not yet" does not depend on the bytes that follow.
read_loop-append :
    (bytes more : List ℕ) (i acc shift : ℕ)
    → read_loop bytes i acc shift ≢ ok none
    → read_loop (bytes ++ more) i acc shift ≡ read_loop bytes i acc shift
unfolding read_loop
read_loop-append [] more i acc shift h = absurd (h refl)
read_loop-append (b ∷ bytes) more i acc shift h = ground (
  arith,
  read_loop-append bytes more (i + 1) (bit_or acc (bit_and b 0x7f * 2 ^ shift)) (shift + 7),
)

pub read_varint-append :
    (buf more : List ℕ) → read_varint buf ≢ ok none → read_varint (buf ++ more) ≡ read_varint buf
unfolding read_varint
read_varint-append buf more h = read_loop-append buf more 0 0 0 h
