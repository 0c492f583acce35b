-- ===== src/Base/Tables.antt =====
-- Checking a test on every number below a bound by evaluation.
use Prim.Native.Nat.{ℕ, zero, suc, ◌<◌}
use mathlib.Core.Bool.{Bool, true, false}
use mathlib.Core.Path.{◌≡◌}
use native.Mathlib.Omega.{arith}
use mdsort.Base.Tests.{if◌then◌else◌}

-- Whether a table, given by its test, has no entry below the bound that fails it.
unfoldable pub holds_below : (ℕ → Bool) → ℕ → Bool
holds_below test zero = true
holds_below test (suc bound) = if test bound then holds_below test bound else false

pub holds_below_lem :
    (test : ℕ → Bool) {k : ℕ} (bound : ℕ)
    → k < bound
    → holds_below test bound ≡ true
    → test k ≡ true
unfolding holds_below
holds_below_lem test zero below ok = absurd (omega arith)
holds_below_lem test {k} (suc bound) below ok = ground (arith, holds_below_lem test {k = k} bound)
