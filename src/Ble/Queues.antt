-- ===== src/Ble/Queues.antt =====
-- The bounds of the queues, and of what is put on them.
use mathlib.Core.List.{append_assoc}
use roboparty_rp_server.Prelude.{
  ℕ, zero, suc, ◌≤◌, ◌<◌, max, ◌≡◌, refl, sym, ◌∙◌, subst, Bool, true, false, List, [], ◌∷◌, ◌++◌,
  length, drop, length-append, length-take, All, All-append, ltb, if◌then◌else◌, arith,
}
use roboparty_rp_server.Ble.{
  capacity, BleLink, create, slices, chunks, put_all, write, flush, put, read, Event, writes, feeds,
  flushes, reads, step, run,
}

-- A chunk of at least one byte, and of `size` at most.
abbrev pub IsChunk : ℕ → List ℕ → Type 0
IsChunk size c = (0 < length c) × (length c ≤ size)

abbrev pub IsBounded : ℕ → BleLink → Type 0
IsBounded size l =
    (l.chunk_size ≡ size)
    × (length l.outgoing ≤ capacity)
    × (length l.incoming ≤ capacity)
    × All (IsChunk size) (l.notified ++ l.outgoing)

slices-IsChunk :
    (fuel size : ℕ) (bytes : List ℕ) → 0 < size → All (IsChunk size) (slices fuel size bytes)
unfolding slices
slices-IsChunk zero size bytes h = tt
slices-IsChunk (suc fuel) size [] h = tt
slices-IsChunk (suc fuel) zero (b ∷ bs) h = elim h [ ]
slices-IsChunk (suc fuel) (suc size) (b ∷ bs) h = (
  (omega arith, length-take (suc size) (b ∷ bs)),
  slices-IsChunk fuel (suc size) (drop size bs) h,
)

put_all-length : (cs q : List (List ℕ)) → length q ≤ capacity → length (put_all cs q) ≤ capacity
unfolding put_all
put_all-length [] q h = h
put_all-length (c ∷ cs) q h =
    ground (arith, put_all-length cs (q ++ (c ∷ [])), length-append q (c ∷ []))

if-All :
    (P : List ℕ → Type 0) (b : Bool) (front x y : List (List ℕ))
    → All P (front ++ x)
    → All P (front ++ y)
    → All P (front ++ (if b then x else y))
if-All P true front x y h k = h
if-All P false front x y h k = k

put_all-IsChunk :
    (size : ℕ) (front cs q : List (List ℕ))
    → All (IsChunk size) cs
    → All (IsChunk size) (front ++ q)
    → All (IsChunk size) (front ++ put_all cs q)
unfolding put_all
put_all-IsChunk size front [] q h k = k
put_all-IsChunk size front (c ∷ cs) q (is_chunk, h) k =
    let grown : All (IsChunk size) (front ++ (q ++ (c ∷ []))) =
      subst (All (IsChunk size)) (append_assoc front q (c ∷ []))
        (All-append (IsChunk size) (front ++ q) (c ∷ []) k (is_chunk, tt)) in
    if-All (IsChunk size) (ltb (length q) capacity) front (put_all cs (q ++ (c ∷ []))) q
      (put_all-IsChunk size front cs (q ++ (c ∷ [])) h grown) k

flush-IsBounded :
    (size : ℕ) (b : Bool) (q : List (List ℕ)) (l : BleLink)
    → l.outgoing ≡ q
    → IsBounded size l
    → IsBounded size (flush b q l)
unfolding flush
flush-IsBounded size false q l e h = h
flush-IsBounded size true [] l e h = h
flush-IsBounded size true (c ∷ q) l e (is_size, out, into, small) =
    let shorter : length (c ∷ q) ≤ capacity = subst (λ q. length q ≤ capacity) e out in
    (
      is_size,
      omega (arith, shorter),
      into,
      subst (All (IsChunk size)) (sym (append_assoc l.notified (c ∷ []) q))
          (subst (λ q. All (IsChunk size) (l.notified ++ q)) e small),
    )

put-outgoing : (bytes : List ℕ) (l : BleLink) → (put bytes l).outgoing ≡ l.outgoing
unfolding put
put-outgoing bytes l = ground arith

put-notified : (bytes : List ℕ) (l : BleLink) → (put bytes l).notified ≡ l.notified
unfolding put
put-notified bytes l = ground arith

pub put-chunk_size : (bytes : List ℕ) (l : BleLink) → (put bytes l).chunk_size ≡ l.chunk_size
unfolding put
put-chunk_size bytes l = ground arith

put-length :
    (bytes : List ℕ) (l : BleLink)
    → length l.incoming ≤ capacity
    → length (put bytes l).incoming ≤ capacity
unfolding put
put-length bytes l h = ground (arith, length-append l.incoming (bytes ∷ []))

put-IsBounded :
    (size : ℕ) (bytes : List ℕ) (l : BleLink) → IsBounded size l → IsBounded size (put bytes l)
put-IsBounded size bytes l (is_size, out, into, small) = (
  put-chunk_size bytes l ∙ is_size,
  subst (λ q. length q ≤ capacity) (sym (put-outgoing bytes l)) out,
  put-length bytes l into,
  subst (λ front. All (IsChunk size) (front ++ (put bytes l).outgoing)) (sym (put-notified bytes l))
      (subst (λ q. All (IsChunk size) (l.notified ++ q)) (sym (put-outgoing bytes l)) small),
)

read-IsBounded :
    (size : ℕ) (q : List (List ℕ)) (l : BleLink)
    → l.incoming ≡ q
    → IsBounded size l
    → IsBounded size (read q l)
unfolding read
read-IsBounded size [] l e h = h
read-IsBounded size (c ∷ q) l e (is_size, out, into, small) =
    let shorter : length (c ∷ q) ≤ capacity = subst (λ q. length q ≤ capacity) e into in
    (is_size, out, omega (arith, shorter), small)

step-IsBounded :
    (size : ℕ) (ev : Event) (l : BleLink) → 0 < size → IsBounded size l → IsBounded size (step ev l)
unfolding step write chunks
step-IsBounded size (writes bytes) l some_room (is_size, out, into, small) = (
  is_size,
  put_all-length (slices (length bytes) l.chunk_size bytes) l.outgoing out,
  into,
  put_all-IsChunk size l.notified (slices (length bytes) l.chunk_size bytes) l.outgoing
      (subst (λ n. All (IsChunk size) (slices (length bytes) n bytes)) (sym is_size)
        (slices-IsChunk (length bytes) size bytes some_room))
      small,
)
step-IsBounded size (feeds bytes) l some_room h = put-IsBounded size bytes l h
step-IsBounded size (flushes b) l some_room h = flush-IsBounded size b l.outgoing l refl h
step-IsBounded size reads l some_room h = read-IsBounded size l.incoming l refl h

run-IsBounded :
    (size : ℕ) (evs : List Event) (l : BleLink)
    → 0 < size
    → IsBounded size l
    → IsBounded size (run evs l)
unfolding run
run-IsBounded size [] l some_room h = h
run-IsBounded size (ev ∷ evs) l some_room h =
    run-IsBounded size evs (step ev l) some_room (step-IsBounded size ev l some_room h)

-- After any writes of the gateway and of the client, timers and reads, each queue has at most 1,024
-- pieces, and what waits for the client or was sent to it are chunks of at least one byte and of at
-- most the transfer size of the link, where that is 20 bytes or more, and of 20 otherwise.
pub run-create-IsBounded :
    (mtu : ℕ) (evs : List Event) → IsBounded (max 20 mtu) (run evs (create mtu))
unfolding create
run-create-IsBounded mtu evs =
    run-IsBounded (max 20 mtu) evs (create mtu) (omega arith) (refl, omega arith, omega arith, tt)
