-- ===== src/Padding/Examples.antt =====
-- Padding of concrete messages (core/src/crypto/mod.rs).
use onde_resilience.Prelude.{ℕ, ◌≡◌, ◌≢◌, ◌↔◌, List, [], ◌∷◌, ◌++◌}
use onde_resilience.Padding.{pad, unpad}
use onde_resilience.Padding.Buckets.{unpad-pad_iff}

abbrev seven : List ℕ
seven = 7 ∷ []

unpad-pad_iff_example : (unpad (pad (seven ++ 0 ∷ [])) ≡ seven ++ 0 ∷ []) ↔ (◌≢◌ {A = ℕ} 0 0)
unpad-pad_iff_example = unpad-pad_iff seven 0
