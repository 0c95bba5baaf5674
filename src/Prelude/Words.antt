-- ===== src/Prelude/Words.antt =====
-- Machine words: Rust's `usize` and `u64` additions with their wrap, and `saturating_sub`.
use Prim.Native.Nat.{ℕ, ◌+◌, ◌-◌, ◌%◌, ◌^◌, ◌<◌}
use mathlib.Core.Path.{◌≡◌}
use native.Mathlib.Omega.{arith}

abbrev pub u8_mod : ℕ
u8_mod = 2 ^ 8

abbrev pub u64_mod : ℕ
u64_mod = 2 ^ 64

-- `a += b` on a `u8` and on a `u64`, as a release build computes it.
unfoldable pub add_u8 : ℕ → ℕ → ℕ
add_u8 a b = (a + b) % u8_mod

unfoldable pub add_u64 : ℕ → ℕ → ℕ
add_u64 a b = (a + b) % u64_mod

-- `a.saturating_sub(b)`: subtraction on ℕ stops at 0 as well.
abbrev pub saturating_sub : ℕ → ℕ → ℕ
saturating_sub a b = a - b

pub add_u8-exact : (a b : ℕ) → a + b < u8_mod → add_u8 a b ≡ a + b
unfolding add_u8
add_u8-exact a b h = omega arith

pub add_u64-exact : (a b : ℕ) → a + b < u64_mod → add_u64 a b ≡ a + b
unfolding add_u64
add_u64-exact a b h = omega arith
