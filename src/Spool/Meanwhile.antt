-- ===== src/Spool/Meanwhile.antt =====
-- A batch that is on its way to the server while other threads emit events.
use mathlib.Core.List.{append-nil}
use roboparty_rp_server.Prelude.{
  ℕ, zero, suc, ◌+◌, ◌-◌, ◌≤◌, ◌≡◌, refl, ap, ◌∙◌, Bool, not, String, Option, none, some, List, [],
  ◌∷◌, ◌++◌, length, take, drop, nat_eq, arith, Bool-cases, length-append, inl, inr,
}
use roboparty_rp_server.Prelude.Dict.{contains}
use roboparty_rp_server.Spool.{Row, Spool, select, ids_of, warn, add, emit, Arrival, emit_all}
use roboparty_rp_server.Spool.Rows.{
  Span, Span-weaken, after, take-Span-after, select-take, length-select, append-Span,
}
use roboparty_rp_server.Spool.Sound.{IsSound, Balanced, accounted, add-Kept}

select-append :
    (test : Row → Bool) (rs qs : List Row)
    → select test (rs ++ qs) ≡ select test rs ++ select test qs
unfolding select
select-append test [] qs = refl
select-append test (r ∷ rs) qs = elim (Bool-cases (test r)) [
  | inl e ↦ rw e (ap (◌∷◌ r) (select-append test rs qs))
  | inr e ↦ rw e (select-append test rs qs)
]

Span-widen : (low high : ℕ) (rs : List Row) → Span low high rs → Span low (high + 1) rs
Span-widen low high [] h = omega arith
Span-widen low high (r ∷ rs) (first, rest) = (first, Span-widen (r.id + 1) high rs rest)

select-append-Span :
    (test : Row → Bool) (low high : ℕ) (rs : List Row) (r : Row)
    → r.id ≡ high
    → Span low high (select test rs)
    → Span low (high + 1) (select test (rs ++ r ∷ []))
unfolding select
select-append-Span test low high rs r e h =
    rw (select-append test rs (r ∷ [])) (elim (Bool-cases (test r)) [
      | inl b ↦ rw b (append-Span low high (select test rs) r e h)
      | inr b ↦ rw (b, append-nil) (Span-widen low high (select test rs) h)
    ])

select-drop-Span :
    (test : Row → Bool) (n low high : ℕ) (rs : List Row)
    → Span low high (select test rs)
    → Span low high (select test (drop n rs))
unfolding select
select-drop-Span test zero low high rs h = h
select-drop-Span test (suc n) low high [] h = h
select-drop-Span test (suc n) low high (r ∷ rs) h = elim (Bool-cases (test r)) [
  | inl e ↦
      let (first, rest) : Span low high (r ∷ select test rs) = rw e at h in
      select-drop-Span test n low high rs
        (Span-weaken (r.id + 1) low high (select test rs) (omega arith) rest)
  | inr e ↦ select-drop-Span test n low high rs (rw e at h)
]

length-select-drop :
    (test : Row → Bool) (n : ℕ) (rs : List Row)
    → length (select test rs) ≤ length (select test (drop n rs)) + n
unfolding select
length-select-drop test zero rs = omega arith
length-select-drop test (suc n) [] = omega arith
length-select-drop test (suc n) (r ∷ rs) = ground (arith, length-select-drop test n rs)

-- The rows that are not of the batch, and those that are.
abbrev pub others : List Row → Row → Bool
others batch r = not (contains (ids_of batch) r.id)

abbrev pub among : List Row → Row → Bool
among batch r = contains (ids_of batch) r.id

-- While `arrived` events came in: the rows behind the batch have ids above its own, and not more rows
-- of the batch were dropped than events came.
pub record InFlight (batch : List Row) (arrived : ℕ) (s : Spool) : Type 0 where
  pub behind : Span (after (after 0 s.acked) batch) s.next_id (select (others batch) s.rows)
  pub present : length batch ≤ length (select (among batch) s.rows) + arrived

length-take-drop : (n : ℕ) (rs : List Row) → length (take n rs) + length (drop n rs) ≡ length rs
length-take-drop zero rs = omega arith
length-take-drop (suc n) [] = omega arith
length-take-drop (suc n) (r ∷ rs) = omega (arith, length-take-drop n rs)

pub take-InFlight : (n : ℕ) (s : Spool) → IsSound s → InFlight (take n s.rows) 0 s
take-InFlight n s h =
    let low = after 0 s.acked in
    let same = select-take n low s.next_id s.rows h.ordered in
    let (front, back) = take-Span-after n low s.next_id s.rows h.ordered in
    record {
      behind = rw same back;
      present = omega (
        arith,
        ap length same,
        length-select (among (take n s.rows)) s.rows,
        length-take-drop n s.rows,
      );
    }

add-InFlight :
    (now : ℕ) (stamp payload : String) (batch : List Row) (arrived : ℕ) (s : Spool)
    → length s.rows ≤ s.max_events
    → InFlight batch arrived s
    → InFlight batch (arrived + 1) (add now stamp payload s)
unfolding add warn
add-InFlight now stamp payload batch arrived s holds h =
    let r : Row = record { id = s.next_id; payload = payload; attempts = 0; created_at = stamp } in
    let rows = s.rows ++ r ∷ [] in
    let low = after (after 0 s.acked) batch in
    let excess = length rows - s.max_events in
    let behind = select-append-Span (others batch) low s.next_id s.rows r refl h.behind in
    let longer = length-append (select (among batch) s.rows) (select (among batch) (r ∷ [])) in
    let joined = select-append (among batch) s.rows (r ∷ []) in
    ground (
      arith,
      behind,
      select-drop-Span (others batch) excess low (s.next_id + 1) rows behind,
      length-append s.rows (r ∷ []),
      longer,
      ap length joined,
      length-select-drop (among batch) excess rows,
      h.present,
    )

emit-InFlight :
    (now : ℕ) (stamp : String) (payload : Option String) (batch : List Row) (arrived : ℕ)
    (s : Spool)
    → length s.rows ≤ s.max_events
    → InFlight batch arrived s
    → InFlight batch (arrived + 1) (emit now stamp payload s)
unfolding emit
emit-InFlight now stamp none batch arrived s holds h = record {
  behind = h.behind;
  present = omega (arith, h.present);
}
emit-InFlight now stamp (some payload) batch arrived s holds h =
    add-InFlight now stamp payload batch arrived s holds h

pub emit-Kept :
    (now : ℕ) (stamp : String) (payload : Option String) (s : Spool)
    → IsSound s
    → Balanced s
    → let s' = emit now stamp payload s in
      IsSound s' × Balanced s' × (accounted s' ≡ accounted s + 1)
unfolding emit
emit-Kept now stamp none s h b = ground arith
emit-Kept now stamp (some payload) s h b = add-Kept now stamp payload s h b

pub emit_all-InFlight :
    (meanwhile : List Arrival) (batch : List Row) (arrived : ℕ) (s : Spool)
    → IsSound s
    → Balanced s
    → InFlight batch arrived s
    → let s' = emit_all meanwhile s in
      IsSound s'
      × Balanced s'
      × (accounted s' ≡ accounted s + length meanwhile)
      × InFlight batch (arrived + length meanwhile) s'
unfolding emit_all
emit_all-InFlight [] batch arrived s h b f =
    (h, b, omega arith, record { behind = f.behind; present = omega (arith, f.present) })
emit_all-InFlight (a ∷ rest) batch arrived s h b f =
    let (h1, b1, one) = emit-Kept a.now a.stamp a.payload s h b in
    let f1 = emit-InFlight a.now a.stamp a.payload batch arrived s h.holds f in
    let (h2, b2, count, f2) =
      emit_all-InFlight rest batch (arrived + 1) (emit a.now a.stamp a.payload s) h1 b1 f1 in
    (
      h2,
      b2,
      omega (arith, one, count),
      record { behind = f2.behind; present = omega (arith, f2.present) },
    )

emit-acked :
    (now : ℕ) (stamp : String) (payload : Option String) (s : Spool)
    → (emit now stamp payload s).acked ≡ s.acked
unfolding emit add warn
emit-acked now stamp none s = refl
emit-acked now stamp (some payload) s = ground arith

pub emit_all-acked : (meanwhile : List Arrival) (s : Spool) → (emit_all meanwhile s).acked ≡ s.acked
unfolding emit_all
emit_all-acked [] s = refl
emit_all-acked (a ∷ rest) s =
    emit_all-acked rest (emit a.now a.stamp a.payload s) ∙ emit-acked a.now a.stamp a.payload s
