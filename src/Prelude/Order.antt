-- ===== src/Prelude/Order.antt =====
-- `<` on the native numbers is well founded.
use Prim.Native.Nat.{ℕ, zero, suc, ◌<◌}
use mathlib.Core.WellFounded.{Acc, WellFounded}
use native.Mathlib.Omega.{arith}

Acc-under : (bound n : ℕ) → n < bound → Acc ◌<◌ n
Acc-under zero n h = elim h [ ]
Acc-under (suc bound) n h = Acc.intro n (λ m below. Acc-under bound m (omega arith))

unfoldable pub lt_wf : WellFounded ◌<◌
unfolding Acc-under
lt_wf = record { apply = λ n. Acc-under (suc n) n (omega arith) }
