-- ===== src/Prelude/Word.antt =====
-- uint64 counters: the wrap-around of Go's unsigned arithmetic.
use Prim.Native.Nat.{ℕ, ◌+◌, ◌-◌, ◌%◌, ◌<◌}
use mathlib.Core.Path.{◌≡◌}
use native.Mathlib.Omega.{arith}
use map_walker.Prelude.Tests.{ltb, if◌then◌else◌}
use map_walker.Prelude.Int.{ℤ, pos, negsuc}

abbrev pub u64 : ℕ → ℕ
u64 n = n % 18446744073709551616

-- `x++`
abbrev pub incr : ℕ → ℕ
incr n = u64 (n + 1)

-- The int64 whose 64 bits are those of n.
abbrev from_bits : ℕ → ℤ
from_bits n = if ltb n 9223372036854775808 then pos n else negsuc (18446744073709551616 - 1 - n)

-- int64 arithmetic: what remains of an integer in two's complement.
unfoldable pub wrap_i64 : ℤ → ℤ
wrap_i64 (pos n) = from_bits (u64 n)
wrap_i64 (negsuc n) = from_bits (18446744073709551616 - 1 - u64 n)

pub wrap_i64_small : (n : ℕ) → n < 9223372036854775808 → wrap_i64 (pos n) ≡ pos n
unfolding wrap_i64
wrap_i64_small n h = ground arith

pub incr-small : (n : ℕ) → n + 1 < 9223372036854775808 → incr n ≡ n + 1
incr-small n h = ground arith
