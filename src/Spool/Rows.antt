-- ===== src/Spool/Rows.antt =====
-- Tables of rows whose ids increase.
use roboparty_rp_server.Prelude.{
  ℕ, zero, suc, ◌+◌, ◌≤◌, ◌<◌, ◌≡◌, refl, ap, Bool, false, not, List, [], ◌∷◌, ◌++◌, length, take,
  drop, nat_eq, arith, Bool-cases, inl, inr,
}
use roboparty_rp_server.Prelude.Dict.{contains}
use roboparty_rp_server.Spool.{Row, select, ids_of, count_attempt}

-- The ids increase, from `low` on, and stay below `high`.
abbrev pub Span : ℕ → ℕ → List Row → Type 0
Span low high [] = low ≤ high
Span low high (r ∷ rs) = (low ≤ r.id) × Span (r.id + 1) high rs

pub Span-weaken :
    (low low' high : ℕ) (rs : List Row) → low' ≤ low → Span low high rs → Span low' high rs
Span-weaken low low' high [] le h = omega arith
Span-weaken low low' high (r ∷ rs) le (first, rest) = (omega arith, rest)

pub select-Span :
    (test : Row → Bool) (low high : ℕ) (rs : List Row)
    → Span low high rs
    → Span low high (select test rs)
unfolding select
select-Span test low high [] h = h
select-Span test low high (r ∷ rs) (first, rest) =
    let inner = select-Span test (r.id + 1) high rs rest in
    let wide = Span-weaken (r.id + 1) low high (select test rs) (omega arith) inner in
    elim (Bool-cases (test r)) [ inl e ↦ rw e (first, inner) | inr e ↦ rw e wide ]

pub drop-Span : (n low high : ℕ) (rs : List Row) → Span low high rs → Span low high (drop n rs)
drop-Span zero low high rs h = h
drop-Span (suc n) low high [] h = h
drop-Span (suc n) low high (r ∷ rs) (first, rest) =
    Span-weaken (r.id + 1) low high (drop n rs) (omega arith) (drop-Span n (r.id + 1) high rs rest)

pub append-Span :
    (low high : ℕ) (rs : List Row) (r : Row)
    → r.id ≡ high
    → Span low high rs
    → Span low (high + 1) (rs ++ r ∷ [])
append-Span low high [] r e h = (omega arith, omega arith)
append-Span low high (q ∷ rs) r e (first, rest) = (first, append-Span (q.id + 1) high rs r e rest)

pub count_attempt-Span :
    (ids : List ℕ) (low high : ℕ) (rs : List Row)
    → Span low high rs
    → Span low high (count_attempt ids rs)
unfolding count_attempt
count_attempt-Span ids low high [] h = h
count_attempt-Span ids low high (r ∷ rs) (first, rest) =
    let inner = count_attempt-Span ids (r.id + 1) high rs rest in
    elim (Bool-cases (contains ids r.id)) [
      | inl e ↦ rw e (first, inner)
      | inr e ↦ rw e (first, inner)
    ]

-- An id below those of a table is not among them.
contains_below :
    (k low high : ℕ) (rs : List Row) → Span low high rs → k < low → contains (ids_of rs) k ≡ false
unfolding ids_of
contains_below k low high [] h lt = refl
contains_below k low high (r ∷ rs) (first, rest) lt =
    ground (arith, contains_below k (r.id + 1) high rs rest)

pub select_skip :
    (ks : List ℕ) (k low high : ℕ) (rs : List Row)
    → Span low high rs
    → k < low
    → select (λ r. not (contains (k ∷ ks) r.id)) rs ≡ select (λ r. not (contains ks r.id)) rs
unfolding select
select_skip ks k low high [] h lt = refl
select_skip ks k low high (r ∷ rs) (first, rest) lt =
    ground (arith, select_skip ks k (r.id + 1) high rs rest)

-- Deleting what a test selects, by the ids, leaves what the test does not select.
pub select-ids_of :
    (test : Row → Bool) (low high : ℕ) (rs : List Row)
    → Span low high rs
    → select (λ r. not (contains (ids_of (select test rs)) r.id)) rs ≡ select (λ r. not (test r)) rs
unfolding select ids_of
select-ids_of test low high [] h = refl
select-ids_of test low high (r ∷ rs) (first, rest) =
    let inner = select-Span test (r.id + 1) high rs rest in
    elim (Bool-cases (test r)) [
      | inl e ↦ ground (
        arith,
        select_skip (ids_of (select test rs)) r.id (r.id + 1) high rs rest,
        select-ids_of test (r.id + 1) high rs rest,
      )
      | inr e ↦ ground (
        arith,
        contains_below r.id (r.id + 1) high (select test rs) inner,
        select-ids_of test (r.id + 1) high rs rest,
      )
    ]

pub select_all : (rs : List Row) → select (λ r. not (contains [] r.id)) rs ≡ rs
unfolding select
select_all [] = refl
select_all (r ∷ rs) = ap (◌∷◌ r) (select_all rs)

-- The same for the first rows of a table.
pub select-take :
    (n low high : ℕ) (rs : List Row)
    → Span low high rs
    → select (λ r. not (contains (ids_of (take n rs)) r.id)) rs ≡ drop n rs
unfolding select ids_of
select-take zero low high rs h = select_all rs
select-take (suc n) low high [] h = refl
select-take (suc n) low high (r ∷ rs) (first, rest) = ground (
  arith,
  select_skip (ids_of (take n rs)) r.id (r.id + 1) high rs rest,
  select-take n (r.id + 1) high rs rest,
)

-- A test and its opposite share the rows out.
pub length-select :
    (test : Row → Bool) (rs : List Row)
    → length (select test rs) + length (select (λ r. not (test r)) rs) ≡ length rs
unfolding select
length-select test [] = omega arith
length-select test (r ∷ rs) = ground (arith, length-select test rs)

-- The id after the last one of a table, and `low` of an empty table.
abbrev pub after : ℕ → List Row → ℕ
after low [] = low
after low (r ∷ rs) = after (r.id + 1) rs

pub after-append : (low : ℕ) (rs qs : List Row) → after low (rs ++ qs) ≡ after (after low rs) qs
after-append low [] qs = refl
after-append low (r ∷ rs) qs = after-append (r.id + 1) rs qs

pub take-Span-after :
    (n low high : ℕ) (rs : List Row)
    → Span low high rs
    → Span low (after low (take n rs)) (take n rs) × Span (after low (take n rs)) high (drop n rs)
take-Span-after zero low high rs h = (omega arith, h)
take-Span-after (suc n) low high [] h = (omega arith, h)
take-Span-after (suc n) low high (r ∷ rs) (first, rest) =
    let (front, back) = take-Span-after n (r.id + 1) high rs rest in ((first, front), back)

pub Span-append :
    (low mid high : ℕ) (rs qs : List Row)
    → Span low mid rs
    → Span mid high qs
    → Span low high (rs ++ qs)
Span-append low mid high [] qs h k = Span-weaken mid low high qs h k
Span-append low mid high (r ∷ rs) qs (first, rest) k =
    (first, Span-append (r.id + 1) mid high rs qs rest k)
