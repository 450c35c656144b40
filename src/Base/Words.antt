-- ===== src/Base/Words.antt =====
-- Go's conversions to `int32` and products of `int64`, with their wrap-around.
use Prim.Native.Nat.{ℕ, ◌+◌, ◌-◌, ◌*◌, ◌%◌, ◌<◌}
use mathlib.Core.Path.{◌≡◌}
use native.Mathlib.Omega.{arith}
use packer_plugin_vsphere.Base.Tests.{ltb, if◌then◌else◌, ℤ, pos, negsuc}

-- The signed integer of a bit pattern, where `half` is 2 ^ (w - 1).
signed : ℕ → ℕ → ℤ
signed half n = let m = n % (2 * half) in if ltb m half then pos m else negsuc (2 * half - 1 - m)

-- `int32(n)` for an `int` that is not negative.
unfoldable pub to_int32 : ℕ → ℤ
unfolding signed
to_int32 n = signed 2147483648 n

-- A product of an `int64` and a small constant.
unfoldable pub mul_int64 : ℤ → ℕ → ℤ
unfolding signed
mul_int64 (pos a) k = signed 9223372036854775808 (a * k)
mul_int64 (negsuc a) k =
    signed 9223372036854775808 (18446744073709551616 - (a + 1) * k % 18446744073709551616)

pub to_int32_small : (n : ℕ) → n < 2147483648 → to_int32 n ≡ pos n
unfolding to_int32
to_int32_small n h = ground arith
