-- ===== src/Lease/Expiry.antt =====
-- `_expire`: when it stops the owner, and what it reads of the clock.
use roboparty_rp_server.Prelude.{
  ℕ, ◌+◌, ◌≡◌, refl, Bool, true, false, ◌||◌, Option, none, some, String, leb, if◌then◌else◌, arith,
}
use roboparty_rp_server.Prelude.Result.{ok}
use roboparty_rp_server.Lease.{Device, Config, Lease, stop_shielded, is_expired, expire_locked}

module _ (d : Device) (now : ℕ → ℕ) (c : Config) where
  -- The rule, with the readings `now n` and `now (n + 1)`.
  abbrev pub stale_input : Option ℕ → ℕ → Bool
  stale_input none t = false
  stale_input (some last) t = leb (last + c.input_timeout) t

  abbrev pub due_at : Option String → ℕ → Option ℕ → ℕ → Bool
  due_at none deadline last n = false
  due_at (some _) deadline last n = leb deadline (now n) || stale_input last (now (n + 1))

  abbrev pub due : Lease d → Bool
  due l = due_at l.owner l.deadline l.last_input l.reads

  abbrev input_reads : Option ℕ → ℕ
  input_reads none = 0
  input_reads (some _) = 1

  abbrev reads_at : Option String → ℕ → Option ℕ → ℕ → ℕ
  reads_at none deadline last n = n
  reads_at (some _) deadline last n =
      if leb deadline (now n) then n + 1 else n + 1 + input_reads last

  -- The state behind the readings.
  abbrev pub seen : Lease d → Lease d
  seen l = record l { reads = reads_at l.owner l.deadline l.last_input l.reads }

  is_expired_lem : (l : Lease d) → is_expired d now c l.owner l ≡ (ok (due l), seen l)
  unfolding is_expired
  is_expired_lem l = ground arith

  -- The owner is stopped when the rule says so, and otherwise only the clock was read.
  pub expire_locked-due :
      (b : Bool) (l : Lease d)
      → due l ≡ true
      → expire_locked d now c b l ≡ stop_shielded d b (seen l)
  unfolding expire_locked
  expire_locked-due b l h = rw (is_expired_lem l) (rw h refl)

  pub expire_locked_kept :
      (b : Bool) (l : Lease d) → due l ≡ false → expire_locked d now c b l ≡ (ok tt, seen l)
  unfolding expire_locked
  expire_locked_kept b l h = rw (is_expired_lem l) (rw h refl)
