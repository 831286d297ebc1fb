-- ===== src/Base/Int64.antt =====
-- Go's int64, as its 64 bits.
use majmun.Base.Tests.{leb, ◌==◌}
use Prim.Native.Nat.{ℕ, ◌^◌}
use mathlib.Core.Bool.{Bool, not, ◌&&◌}

abbrev pub Int64 : Type 0
Int64 = ℕ

abbrev pub is_negative : Int64 → Bool
is_negative x = leb (2 ^ 63) x

-- Is the number greater than 0?
abbrev pub is_positive : Int64 → Bool
is_positive x = not (is_negative x) && not (x == 0)
