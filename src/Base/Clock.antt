-- ===== src/Base/Clock.antt =====
-- Aware datetimes as counts of microseconds from the first instant of year 1, the resolution and
-- the origin of Python's `datetime`; differences are taken only in the guarded tests below.
use Prim.Native.Nat.{ℕ, ◌-◌, ◌*◌}
use mathlib.Core.Bool.{Bool, ◌&&◌}
use pay_ops.Base.Tests.{leb}

abbrev pub Time : Type 0
Time = ℕ

-- `timedelta(seconds=n)`
abbrev pub seconds : ℕ → ℕ
seconds n = n * 1000000

-- `0 <= (now - t).total_seconds() <= n`
abbrev pub age_within : ℕ → Time → Time → Bool
age_within n now t = leb t now && leb (now - t) (seconds n)
