-- ===== src/Prelude/Int.antt =====
-- Signed integers over the native numbers: the values of `i16`, `i32` and `i64` columns.
use Prim.Native.Nat.{ℕ, suc, ◌-◌, ◌+◌, ◌^◌}
use mathlib.Core.Option.{Option, none, some}
use mitra.Prelude.Tests.{ltb, leb, if◌then◌else◌}

-- `negsuc n` is -(n + 1).
pub data ℤ : Type 0 where
  pos : ℕ → ℤ
  negsuc : ℕ → ℤ

-- `u64::try_from` of an `i64`.
abbrev pub to_unsigned : ℤ → Option ℕ
to_unsigned (pos n) = some n
to_unsigned (negsuc n) = none

-- `i64::try_from` of a `u64`.
unfoldable pub to_i64 : ℕ → Option ℤ
to_i64 n = if ltb n (2 ^ 63) then some (pos n) else none

-- `count + change` in an INTEGER column that is checked to be at least 0; `none` is a refusal.
unfoldable pub add_count : ℕ → ℤ → Option ℕ
add_count n (pos k) = if ltb (n + k) (2 ^ 31) then some (n + k) else none
add_count n (negsuc k) = if leb (suc k) n then some (n - suc k) else none
