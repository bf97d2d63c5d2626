-- ===== src/Base/Words.antt =====
-- `size_t` and `unsigned` arithmetic, with its wrap-around.
use Prim.Native.Nat.{ℕ, ◌+◌, ◌-◌, ◌%◌, ◌^◌, ◌≤◌, ◌<◌}
use mathlib.Core.Path.{◌≡◌}
use native.Mathlib.Omega.{arith}

-- `size_t` has 64 bits.
abbrev pub size_mod : ℕ
size_mod = 2 ^ 64

unfoldable pub add_size : ℕ → ℕ → ℕ
add_size a b = (a + b) % size_mod

-- `-` on ℕ stops at 0, so the modulus is added first.
unfoldable pub sub_size : ℕ → ℕ → ℕ
sub_size a b = (a + size_mod - b) % size_mod

pub add_size_lem : (a b : ℕ) → a + b < size_mod → add_size a b ≡ a + b
unfolding add_size
add_size_lem a b h = omega arith

pub sub_size_lem : (a b : ℕ) → a < size_mod → b ≤ a → sub_size a b ≡ a - b
unfolding sub_size
sub_size_lem a b h l = omega arith

-- `unsigned` and `int` have 32 bits.
abbrev pub uint_mod : ℕ
uint_mod = 2 ^ 32

unfoldable pub add_uint : ℕ → ℕ → ℕ
add_uint a b = (a + b) % uint_mod

unfoldable pub sub_uint : ℕ → ℕ → ℕ
sub_uint a b = (a + uint_mod - b) % uint_mod

pub add_uint_lem : (a b : ℕ) → a + b < uint_mod → add_uint a b ≡ a + b
unfolding add_uint
add_uint_lem a b h = omega arith

pub sub_uint_lem : (a b : ℕ) → a < uint_mod → b ≤ a → sub_uint a b ≡ a - b
unfolding sub_uint
sub_uint_lem a b h l = omega arith
