-- ===== src/Prelude/Words.antt =====
-- Machine integers. A size_t is a number below 2 ^ 64, an unsigned int one below 2 ^ 32, and an int
-- is its bit pattern below 2 ^ 32, so that -1 is 2 ^ 32 - 1.
use Prim.Native.Nat.{ℕ, ◌+◌, ◌-◌, ◌%◌, ◌^◌}
use mathlib.Core.Bool.{Bool}
use koho.Prelude.Tests.{leb}

abbrev pub add_size : ℕ → ℕ → ℕ
add_size a b = (a + b) % 2 ^ 64

abbrev pub sub_size : ℕ → ℕ → ℕ
sub_size a b = (a + 2 ^ 64 - b) % 2 ^ 64

abbrev pub increment : ℕ → ℕ
increment n = (n + 1) % 2 ^ 32

abbrev pub minus_one : ℕ
minus_one = 2 ^ 32 - 1

abbrev pub is_negative : ℕ → Bool
is_negative n = leb (2 ^ 31) n
