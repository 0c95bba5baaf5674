-- ===== src/Protocol/Validate/Accepted.antt =====
-- What `validate_with_pow_min` of core/src/protocol/mod.rs accepts.
use onde_resilience.Prelude.{
  ℕ, ◌+◌, ◌-◌, ◌≤◌, ◌≡◌, ◌≢◌, ◌↔◌, refl, Bool, true, false, not, ◌&&◌, Option, none, some, List,
  arith, ltb, str_eq, eq_iff,
}
use onde_resilience.Prelude.Result.{Result, ok, and_then}
use onde_resilience.Prelude.Utf8.{as_bytes}
use onde_resilience.Protocol.{OndeMessageType, MeshEvent}
use onde_resilience.Protocol.Wire.{decode_hex}
use onde_resilience.Protocol.Validate.{
  Crates, ValidationError, max_alert_size, max_clock_skew_secs, char_count, is_alert, check,
  or_refuse, compute_id, verify_from_pubkey, verify_pow, validate_with_pow_min,
}

-- The conditions on an event, with the bytes of its key and of its signature.
pub record IsAccepted (crates : Crates) (now min_difficulty : ℕ) (e : MeshEvent) (key sig : List ℕ)
    : Type 0 where
  pub short : e.kind ≡ OndeMessageType.alert → char_count e.content ≤ max_alert_size
  pub timely : e.created_at ≤ now + max_clock_skew_secs
  pub canonical : e.id ≡ compute_id crates e.pubkey e.created_at e.kind e.tags e.content
  pub signed : e.sig ≢ ""
  pub key_bytes : decode_hex crates.hex 32 e.pubkey ≡ some key
  pub sig_bytes : decode_hex crates.hex 64 e.sig ≡ some sig
  pub verified : verify_from_pubkey crates key (as_bytes e.id) sig ≡ true
  pub enough : min_difficulty ≤ e.pow_difficulty
  pub worked : verify_pow crates e.id e.pow_nonce e.pow_difficulty ≡ true

-- The chain of tests, each of them a variable.
abbrev chain :
    Bool
    → Bool
    → Bool
    → Bool
    → Option (List ℕ)
    → Option (List ℕ)
    → (List ℕ → List ℕ → Bool)
    → Bool
    → Bool
    → ValidationError
    → Result ValidationError (Unit {0})
chain short timely canonical signed key sig verified enough worked below =
    and_then (check short ValidationError.alert_too_long) λ _.
      and_then (check timely ValidationError.created_in_future) λ _.
        and_then (check canonical ValidationError.id_mismatch) λ _.
          and_then (check signed ValidationError.missing_signature) λ _.
            and_then (or_refuse ValidationError.invalid_pubkey_encoding key) λ k.
              and_then (or_refuse ValidationError.invalid_signature_encoding sig) λ s.
                and_then (check (verified k s) ValidationError.invalid_signature)
                  λ _. and_then (check enough below) λ _. check worked ValidationError.invalid_pow

last_tests :
    (verified enough worked : Bool) (below : ValidationError)
    → and_then (check verified ValidationError.invalid_signature) (λ (_ : Unit {0}).
      and_then (check enough below) λ (_ : Unit {0}). check worked ValidationError.invalid_pow)
      ≡ ok tt
    → (verified ≡ true) × (enough ≡ true) × (worked ≡ true)
last_tests true true true below h = (refl, refl, refl)
last_tests true true false below h = cc
last_tests true false worked below h = cc
last_tests false enough worked below h = cc

chain-ok :
    (short timely canonical signed : Bool) (key sig : Option (List ℕ))
    (verified : List ℕ → List ℕ → Bool) (enough worked : Bool) (below : ValidationError)
    → chain short timely canonical signed key sig verified enough worked below ≡ ok tt
    → (short ≡ true)
      × (timely ≡ true)
      × (canonical ≡ true)
      × (signed ≡ true)
      × ((k : List ℕ) × (s : List ℕ) × (key ≡ some k)
          × (sig ≡ some s)
          × (verified k s ≡ true)
          × (enough ≡ true)
          × (worked ≡ true))
chain-ok true true true true (some k) (some s) verified enough worked below h = (
  refl,
  refl,
  refl,
  refl,
  (let (x, y, z) = last_tests (verified k s) enough worked below h in (k, s, refl, refl, x, y, z)),
)
chain-ok true true true true (some k) none verified enough worked below h = cc
chain-ok true true true true none sig verified enough worked below h = cc
chain-ok true true true false key sig verified enough worked below h = cc
chain-ok true true false signed key sig verified enough worked below h = cc
chain-ok true false canonical signed key sig verified enough worked below h = cc
chain-ok false timely canonical signed key sig verified enough worked below h = cc

short_of :
    (kind : OndeMessageType) (n : ℕ)
    → not (is_alert kind && ltb max_alert_size n) ≡ true
    → kind ≡ OndeMessageType.alert
    → n ≤ max_alert_size
short_of kind n h e = ground arith

to_short :
    (kind : OndeMessageType) (n : ℕ)
    → (kind ≡ OndeMessageType.alert → n ≤ max_alert_size)
    → not (is_alert kind && ltb max_alert_size n) ≡ true
to_short OndeMessageType.alert n h = let k = h refl in ground arith
to_short _ n h = refl

module _ (crates : Crates) (now min_difficulty : ℕ) (e : MeshEvent) where
  timely_of :
      not (ltb now e.created_at && ltb max_clock_skew_secs (e.created_at - now)) ≡ true
      → e.created_at ≤ now + max_clock_skew_secs
  timely_of h = ground arith

  to_timely :
      e.created_at ≤ now + max_clock_skew_secs
      → not (ltb now e.created_at && ltb max_clock_skew_secs (e.created_at - now)) ≡ true
  to_timely h = ground arith

  signed_of : e.sig ≡ "" → not (str_eq e.sig "") ≡ true → ⊥
  signed_of z h = ground (arith, eq_iff e.sig "")

  to_signed : e.sig ≢ "" → not (str_eq e.sig "") ≡ true
  to_signed h = ground (arith, eq_iff e.sig "")

  enough_of : not (ltb e.pow_difficulty min_difficulty) ≡ true → min_difficulty ≤ e.pow_difficulty
  enough_of h = ground arith

  to_enough : min_difficulty ≤ e.pow_difficulty → not (ltb e.pow_difficulty min_difficulty) ≡ true
  to_enough h = ground arith

  accepted :
      validate_with_pow_min crates now min_difficulty e ≡ ok tt
      → (key : List ℕ) × (sig : List ℕ) × IsAccepted crates now min_difficulty e key sig
  unfolding validate_with_pow_min
  accepted h =
      let (a, b, c, d, (key, sig, k, s, v, w, p)) =
        chain-ok (not (is_alert e.kind && ltb max_alert_size (char_count e.content)))
          (not (ltb now e.created_at && ltb max_clock_skew_secs (e.created_at - now)))
          (str_eq e.id (compute_id crates e.pubkey e.created_at e.kind e.tags e.content))
          (not (str_eq e.sig "")) (decode_hex crates.hex 32 e.pubkey)
          (decode_hex crates.hex 64 e.sig)
          (λ key sig. verify_from_pubkey crates key (as_bytes e.id) sig)
          (not (ltb e.pow_difficulty min_difficulty))
          (verify_pow crates e.id e.pow_nonce e.pow_difficulty)
          (ValidationError.pow_below_minimum e.pow_difficulty min_difficulty) h in
      (
        key,
        sig,
        record {
          short = short_of e.kind (char_count e.content) a;
          timely = timely_of b;
          canonical =
              (eq_iff e.id (compute_id crates e.pubkey e.created_at e.kind e.tags e.content)).0 c;
          signed = λ z. signed_of z d;
          key_bytes = k;
          sig_bytes = s;
          verified = v;
          enough = enough_of w;
          worked = p;
        },
      )

  accepts :
      (key sig : List ℕ)
      → IsAccepted crates now min_difficulty e key sig
      → validate_with_pow_min crates now min_difficulty e ≡ ok tt
  unfolding validate_with_pow_min
  accepts key sig good = rw (
    to_short e.kind (char_count e.content) good.short,
    to_timely good.timely,
    (eq_iff e.id (compute_id crates e.pubkey e.created_at e.kind e.tags e.content)).1
        good.canonical,
    to_signed good.signed,
    good.key_bytes,
    good.sig_bytes,
    good.verified,
    to_enough good.enough,
    good.worked,
  )

  -- An event is accepted exactly when all the conditions hold: the size of an alert, the clock,
  -- the canonical id, a signature that is there, well-formed and valid, and the work that the floor
  -- asks for.
  pub validate_iff :
      (validate_with_pow_min crates now min_difficulty e ≡ ok tt)
      ↔ ((key : List ℕ) × (sig : List ℕ) × IsAccepted crates now min_difficulty e key sig)
  validate_iff = (accepted, λ (key, sig, good). accepts key sig good)
