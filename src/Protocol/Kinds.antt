-- ===== src/Protocol/Kinds.antt =====
-- The codes of the event kinds (core/src/protocol/mod.rs) are a bijection onto 0 to 21.
use onde_resilience.Prelude.{ℕ, ◌≡◌, ◌≤◌, ◌<◌, arith, refl}
use onde_resilience.Prelude.Result.{Result, ok, err}
use onde_resilience.Protocol.{OndeMessageType, kind_code, kind_from_code}

kind_from_code-kind_code : (kind : OndeMessageType) → kind_from_code (kind_code kind) ≡ ok kind
unfolding kind_code kind_from_code
kind_from_code-kind_code OndeMessageType.alert = refl
kind_from_code-kind_code _ = refl

abbrev pub Decodes : ℕ → Result ℕ OndeMessageType → Type 0
Decodes code (ok kind) = (code ≤ 21) × (kind_code kind ≡ code)
Decodes code (err other) = (21 < code) × (other ≡ code)

kind_from_code-Decodes : (code : ℕ) → Decodes code (kind_from_code code)
unfolding kind_code kind_from_code
kind_from_code-Decodes code = ground arith

-- Every kind is read back from its code, and a code is read exactly when it is at most 21, as the
-- kind that has it.
pub kind_codes :
    ((kind : OndeMessageType) → kind_from_code (kind_code kind) ≡ ok kind)
    × ((code : ℕ) → Decodes code (kind_from_code code))
kind_codes = (kind_from_code-kind_code, kind_from_code-Decodes)
