-- ===== src/Ble/Delivery.antt =====
-- What comes to the client while the queue has room.
use mathlib.Core.List.{append_assoc, append-nil, flatten}
use roboparty_rp_server.Prelude.{
  ℕ, zero, suc, ◌+◌, ◌^◌, ◌≤◌, ◌<◌, ◌≡◌, refl, sym, ap, ◌∙◌, subst, Bool, true, false, List, [],
  ◌∷◌, ◌++◌, length, take, drop, length-append, length-drop, take-drop, flatten-append, ltb,
  if◌then◌else◌, arith,
}
use roboparty_rp_server.Codec.{Proto, RoundTrips, waiting}
use roboparty_rp_server.Codec.RoundTrip.{feed_all, frames, Fits, feed_all-frame_stream}
use roboparty_rp_server.Ble.Queues.{put-chunk_size}
use roboparty_rp_server.Ble.{
  capacity, BleLink, create, slices, chunks, put_all, write, flush, put, read, Event, writes, feeds,
  flushes, reads, step, run,
}

-- The bytes that the gateway writes, in their order.
unfoldable pub written : List Event → List ℕ
written [] = []
written (writes bytes ∷ evs) = bytes ++ written evs
written (_ ∷ evs) = written evs

-- Each write finds room for all its chunks.
abbrev pub HasRoom : List Event → BleLink → Type 0
HasRoom [] l = Unit {0}
HasRoom (writes bytes ∷ evs) l =
    (length l.outgoing + length (chunks l.chunk_size bytes) ≤ capacity)
    × HasRoom evs (step (writes bytes) l)
HasRoom (ev ∷ evs) l = HasRoom evs (step ev l)

-- All that was sent to the client, and what waits for it.
abbrev pub delivered : BleLink → List (List ℕ)
delivered l = l.notified ++ l.outgoing

slices-flatten :
    (fuel size : ℕ) (bytes : List ℕ)
    → length bytes ≤ fuel
    → 0 < size
    → flatten (slices fuel size bytes) ≡ bytes
unfolding slices flatten
slices-flatten zero size [] h k = refl
slices-flatten zero size (b ∷ bs) h k = elim h [ ]
slices-flatten (suc fuel) size [] h k = refl
slices-flatten (suc fuel) zero (b ∷ bs) h k = elim k [ ]
slices-flatten (suc fuel) (suc size) (b ∷ bs) h k =
    ap (λ rest. (b ∷ take size bs) ++ rest)
      (slices-flatten fuel (suc size) (drop size bs) (omega (arith, length-drop size bs)) k)
    ∙ ap (λ bytes. b ∷ bytes) (take-drop size bs)

if-true {ℓ} : {A : Type ℓ} (b : Bool) (x y : A) → b ≡ true → (if b then x else y) ≡ x
if-true true x y e = refl
if-true false x y e = cc

put_all-room : (cs q : List (List ℕ)) → length q + length cs ≤ capacity → put_all cs q ≡ q ++ cs
unfolding put_all
put_all-room [] q h = sym (append-nil q)
put_all-room (c ∷ cs) q h =
    if-true (ltb (length q) capacity) (put_all cs (q ++ (c ∷ []))) q (ground arith)
    ∙ put_all-room cs (q ++ (c ∷ [])) (omega (arith, length-append q (c ∷ [])))
    ∙ append_assoc q (c ∷ []) cs

write-delivered :
    (bytes : List ℕ) (l : BleLink)
    → 0 < l.chunk_size
    → length l.outgoing + length (chunks l.chunk_size bytes) ≤ capacity
    → flatten (delivered (write bytes l)) ≡ flatten (delivered l) ++ bytes
unfolding write chunks
write-delivered bytes l positive fits =
    let cs = chunks l.chunk_size bytes in
    ap (λ q. flatten (l.notified ++ q)) (put_all-room cs l.outgoing fits)
    ∙ ap flatten (sym (append_assoc l.notified l.outgoing cs))
    ∙ flatten-append (delivered l) cs
    ∙ ap (λ bytes. flatten (delivered l) ++ bytes)
        (slices-flatten (length bytes) l.chunk_size bytes (omega arith) positive)

flush-delivered :
    (b : Bool) (q : List (List ℕ)) (l : BleLink)
    → l.outgoing ≡ q
    → delivered (flush b q l) ≡ delivered l
unfolding flush
flush-delivered false q l e = refl
flush-delivered true [] l e = refl
flush-delivered true (c ∷ q) l e =
    append_assoc l.notified (c ∷ []) q ∙ ap (λ q. l.notified ++ q) (sym e)

if-kept :
    (b : Bool) (bytes : List ℕ) (l : BleLink)
    → delivered (if b then record l { incoming = l.incoming ++ (bytes ∷ []) } else l) ≡ delivered l
if-kept true bytes l = refl
if-kept false bytes l = refl

put-delivered : (bytes : List ℕ) (l : BleLink) → delivered (put bytes l) ≡ delivered l
unfolding put
put-delivered bytes l = if-kept (ltb (length l.incoming) capacity) bytes l

read-delivered : (q : List (List ℕ)) (l : BleLink) → delivered (read q l) ≡ delivered l
unfolding read
read-delivered [] l = refl
read-delivered (c ∷ q) l = refl

flush-chunk_size :
    (b : Bool) (q : List (List ℕ)) (l : BleLink) → (flush b q l).chunk_size ≡ l.chunk_size
unfolding flush
flush-chunk_size false q l = refl
flush-chunk_size true [] l = refl
flush-chunk_size true (c ∷ q) l = refl

read-chunk_size : (q : List (List ℕ)) (l : BleLink) → (read q l).chunk_size ≡ l.chunk_size
unfolding read
read-chunk_size [] l = refl
read-chunk_size (c ∷ q) l = refl

step-chunk_size : (ev : Event) (l : BleLink) → (step ev l).chunk_size ≡ l.chunk_size
unfolding step write
step-chunk_size (writes bytes) l = refl
step-chunk_size (feeds bytes) l = put-chunk_size bytes l
step-chunk_size (flushes b) l = flush-chunk_size b l.outgoing l
step-chunk_size reads l = read-chunk_size l.incoming l

positive_after : (ev : Event) (l : BleLink) → 0 < l.chunk_size → 0 < (step ev l).chunk_size
positive_after ev l h = subst (λ n. 0 < n) (sym (step-chunk_size ev l)) h

-- The bytes on their way are those that were there, and those that were written.
run-delivered :
    (evs : List Event) (l : BleLink)
    → 0 < l.chunk_size
    → HasRoom evs l
    → flatten (delivered (run evs l)) ≡ flatten (delivered l) ++ written evs
unfolding run written step
run-delivered [] l positive room = sym (append-nil (flatten (delivered l)))
run-delivered (writes bytes ∷ evs) l positive (fits, room) =
    run-delivered evs (write bytes l) (positive_after (writes bytes) l positive) room
    ∙ ap (λ front. front ++ written evs) (write-delivered bytes l positive fits)
    ∙ append_assoc (flatten (delivered l)) bytes (written evs)
run-delivered (feeds bytes ∷ evs) l positive room =
    run-delivered evs (put bytes l) (positive_after (feeds bytes) l positive) room
    ∙ ap (λ front. flatten front ++ written evs) (put-delivered bytes l)
run-delivered (flushes b ∷ evs) l positive room =
    run-delivered evs (flush b l.outgoing l) (positive_after (flushes b) l positive) room
    ∙ ap (λ front. flatten front ++ written evs) (flush-delivered b l.outgoing l refl)
run-delivered (reads ∷ evs) l positive room =
    run-delivered evs (read l.incoming l) (positive_after reads l positive) room
    ∙ ap (λ front. flatten front ++ written evs) (read-delivered l.incoming l)

module _ (p : Proto) (max_size : ℕ) (trips : RoundTrips p) (small : max_size < 2 ^ 70) where
  -- While each write finds room for its chunks and each message is, serialized, at most the limit of
  -- the client's decoder (which is below 2 ^ 70): whatever the transfer size and however writes,
  -- notifications and what comes from the client alternate, the decoder makes of the chunks, those
  -- that it was sent and those that wait for it, the messages whose frames the gateway wrote. Given
  -- that protobuf reads back what it serialized.
  pub run-create-delivered :
      (mtu : ℕ) (evs : List Event) (es : List p.Envelope)
      → HasRoom evs (create mtu)
      → Fits p max_size trips small es
      → written evs ≡ frames p max_size trips small es
      → let l = run evs (create mtu) in
        feed_all p max_size [] (l.notified ++ l.outgoing)
        ≡ record { envelopes = es; buffer = []; status = waiting }
  unfolding create flatten
  run-create-delivered mtu evs es room fits same =
      let l = run evs (create mtu) in
      feed_all-frame_stream p max_size trips small es (delivered l) fits
        (run-delivered evs (create mtu) (omega arith) room ∙ same)
