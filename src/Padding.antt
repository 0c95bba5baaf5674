-- ===== src/Padding.antt =====
-- `TrafficPadding` of core/src/crypto/mod.rs: every message on the wire has the length of a bucket.
pub mod Buckets
mod Examples
use onde_resilience.Prelude.{
  ℕ, zero, suc, ◌-◌, Bool, List, [], ◌∷◌, ◌++◌, true, false, Option, none, some, get_elem?, take,
  if◌then◌else◌, leb, ltb, ◌==◌, length,
}
use onde_resilience.Prelude.{replicate}

abbrev pub buckets : List ℕ
buckets = 256 ∷ 1024 ∷ 4096 ∷ 16384 ∷ []

-- The loop of `bucket_for`: the first bucket that holds `len` bytes, else the last one.
unfoldable pub bucket_in : List ℕ → ℕ → ℕ → ℕ
bucket_in [] last len = last
bucket_in (b ∷ bs) last len = if leb len b then b else bucket_in bs last len

unfoldable pub bucket_for : ℕ → ℕ
unfolding bucket_in
bucket_for len = bucket_in buckets 16384 len

-- `resize(target, 0)` for a longer target.
unfoldable pub pad : List ℕ → List ℕ
pad bytes =
    let target = bucket_for (length bytes) in
    if ltb (length bytes) target then bytes ++ replicate (target - length bytes) 0 else bytes

unfoldable pub is_zero_at : List ℕ → ℕ → Bool
is_zero_at bytes i = elim (get_elem? bytes i) [ none ↦ false | some b ↦ b == 0 ]

-- The loop of `unpad`: the end moves to the left while a zero stands before it.
unfoldable pub unpad_end : List ℕ → ℕ → ℕ
unpad_end bytes zero = zero
unpad_end bytes (suc e) = elim (is_zero_at bytes e) [ true ↦ unpad_end bytes e | false ↦ suc e ]

unfoldable pub unpad : List ℕ → List ℕ
unfolding unpad_end is_zero_at
unpad bytes = take (unpad_end bytes (length bytes)) bytes
