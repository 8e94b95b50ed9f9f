-- ===== src/Spool/Settle.antt =====
-- The end of an upload, behind what came in meanwhile.
use mathlib.Core.List.{sublist-append_left}
use mathlib.Core.List.Sublist
use roboparty_rp_server.Prelude.{
  ℕ, suc, ◌+◌, ◌≤◌, ◌≡◌, refl, ap, Bool, true, false, not, List, [], ◌∷◌, ◌++◌, length, nat_eq,
  ◌==◌, arith, Bool-cases, length-append, inl, inr,
}
use roboparty_rp_server.Prelude.Dict.{contains}
use roboparty_rp_server.Spool.{Row, Spool, select, ids_of, ack, receive}
use roboparty_rp_server.Spool.Rows.{
  Span, after, after-append, Span-append, select_skip, select_all, length-select,
}
use roboparty_rp_server.Spool.Sound.{IsSound, Balanced, accounted, Kept}
use roboparty_rp_server.Spool.Meanwhile.{among, InFlight}

-- What a round leaves of a spool, where that many events came in while its batch was on its way.
abbrev pub Within : ℕ → Spool → Spool → Type 0
Within arrived s s' =
    IsSound s' × Balanced s' × (accounted s ≤ accounted s') × (accounted s' ≤ accounted s + arrived)

-- An id stands in one row at most.
contains-cons_length :
    (i : ℕ) (ids : List ℕ) (low high : ℕ) (rs : List Row)
    → Span low high rs
    → length (select (λ r. not (contains ids r.id)) rs)
      ≤ length (select (λ r. not (contains (i ∷ ids) r.id)) rs) + 1
unfolding select
contains-cons_length i ids low high [] h = omega arith
contains-cons_length i ids low high (r ∷ rs) (first, rest) = elim (Bool-cases (i == r.id)) [
  | inl e ↦
      let same : i ≡ r.id = ground (arith, e) in
      ground (arith, ap length (select_skip ids i (r.id + 1) high rs rest (omega arith)))
  | inr e ↦ ground (arith, contains-cons_length i ids (r.id + 1) high rs rest)
]

length-others :
    (ids : List ℕ) (low high : ℕ) (rs : List Row)
    → Span low high rs
    → length rs ≤ length (select (λ r. not (contains ids r.id)) rs) + length ids
length-others [] low high rs h = omega (arith, ap length (select_all rs))
length-others (i ∷ ids) low high rs h =
    omega (arith, contains-cons_length i ids low high rs h, length-others ids low high rs h)

length-ids_of : (rs : List Row) → length (ids_of rs) ≡ length rs
unfolding ids_of
length-ids_of [] = refl
length-ids_of (r ∷ rs) = ap suc (length-ids_of rs)

pub receive-Kept :
    (taken : Bool) (rows : List Row) (s : Spool)
    → IsSound s
    → Balanced s
    → Kept s (receive taken rows s)
unfolding receive
receive-Kept true rows s h b = (
  record {
    received_all = Sublist.trans h.received_all (sublist-append_left s.received rows);
    in_order = h.in_order;
    ordered = h.ordered;
    holds = h.holds;
    holds_dead = h.holds_dead;
  },
  b,
  refl,
)
receive-Kept false rows s h b = (h, b, refl)

-- The rows of a batch that the server took are deleted, and no others.
pub ack-Within :
    (batch : List Row) (arrived : ℕ) (s : Spool)
    → InFlight batch arrived s
    → IsSound s
    → Balanced s
    → Span (after 0 s.acked) (after (after 0 s.acked) batch) batch
    → Within arrived s
        (ack (ids_of batch) (record s { received = s.received ++ batch; acked = s.acked ++ batch }))
unfolding ack
ack-Within batch arrived s f h b front =
    let low = after 0 s.acked in
    let next = after-append 0 s.acked batch in
    let shared = length-select (among batch) s.rows in
    let few = length-others (ids_of batch) low s.next_id s.rows h.ordered in
    (
      record {
        received_all = Sublist.append h.received_all (Sublist.refl batch);
        in_order = rw next (Span-append 0 low (after low batch) s.acked batch h.in_order front);
        ordered = rw next f.behind;
        holds = omega (arith, shared, h.holds);
        holds_dead = h.holds_dead;
      },
      b,
      omega (arith, few, length-ids_of batch, length-append s.acked batch),
      omega (arith, shared, f.present, length-append s.acked batch),
    )
