-- ===== src/Reputation/Work.antt =====
-- The work that an author owes by score and abuse (core/src/reputation/mod.rs).
use onde_resilience.Prelude.{
  ℕ, ◌≤◌, ◌≡◌, refl, sym, ◌∙◌, String, true, false, arith, leb, Bool-cases, inl, inr,
}
use onde_resilience.Reputation.{
  Float, ReputationSystem, is_trusted, score, stored_abuse_level, clamp_u8,
  required_pow_difficulty_inner, required_pow_difficulty,
}

clamp_u8-between : (n : ℕ) → (2 ≤ clamp_u8 n 2 4) × (clamp_u8 n 2 4 ≤ 4)
unfolding clamp_u8
clamp_u8-between n = (ground arith, ground arith)

clamp_u8-le : (m n : ℕ) → m ≤ n → clamp_u8 m 2 4 ≤ clamp_u8 n 2 4
unfolding clamp_u8
clamp_u8-le m n h = ground arith

clamp_u8-low : (n : ℕ) → n ≤ 2 → clamp_u8 n 2 4 ≡ 2
unfolding clamp_u8
clamp_u8-low n h = ground arith

clamp_u8-high : (n : ℕ) → 4 ≤ n → clamp_u8 n 2 4 ≡ 4
unfolding clamp_u8
clamp_u8-high n h = ground arith

module _ {F : Type 0} (float : Float F) (s : ReputationSystem F) (pubkey : String) where
  open float use {hundredths, le}

  -- The branches: an author whose stored abuse reaches 0.15 owes difficulty 4. Any other one owes nothing if
  -- trusted, 4 if not trusted with a score of 0 or less, and between 2 and 4 if not trusted.
  pub required_pow_difficulty_lem :
      (le (hundredths 15) (stored_abuse_level float s pubkey) ≡ true
        → required_pow_difficulty float s pubkey ≡ 4)
      × (le (hundredths 15) (stored_abuse_level float s pubkey) ≡ false
          → is_trusted float s pubkey ≡ true
          → required_pow_difficulty float s pubkey ≡ 0)
      × (le (hundredths 15) (stored_abuse_level float s pubkey) ≡ false
          → is_trusted float s pubkey ≡ false
          → le (score float s pubkey) (hundredths 0) ≡ true
          → required_pow_difficulty float s pubkey ≡ 4)
      × (le (hundredths 15) (stored_abuse_level float s pubkey) ≡ false
          → is_trusted float s pubkey ≡ false
          → (2 ≤ required_pow_difficulty float s pubkey)
            × (required_pow_difficulty float s pubkey ≤ 4))
  unfolding required_pow_difficulty required_pow_difficulty_inner is_trusted
  required_pow_difficulty_lem = (
    (λ h. rw h refl),
    (λ h t. rw (h, t) refl),
    (λ h t z. rw (h, t, z) refl),
    λ h t. elim (Bool-cases (le (score float s pubkey) (hundredths 0))) [
      | inl zero_score ↦ rw (h, t, zero_score) (omega arith, omega arith)
      | inr some_score ↦ rw (h, t, some_score) (clamp_u8-between _)
    ],
  )

module _ {F : Type 0} (float : Float F) where
  open float use {hundredths, of_u64, round_u8, le, sub, mul, div}

  -- The linear part: 4 at a score of 0, 2 at a score of 0.70.
  abbrev pub adaptive : F → ℕ
  adaptive x = round_u8 (sub (of_u64 4) (mul (div x (hundredths 70)) (of_u64 2)))

  -- What IEEE 754 and the conversion to `u8`, which saturates, say of the operations: the order of
  -- numbers is transitive, literals are ordered as written, the rounded operations are monotone,
  -- and four results whose exact values are 3.51, 3.49, 2.51 and 2.49, with the integers next to
  -- them.
  pub record IsF64 : Type 0 where
    pub le_trans : {x y z : F} → le x y ≡ true → le y z ≡ true → le x z ≡ true
    pub literals : (a b : ℕ) → a ≤ 100 → b ≤ 100 → le (hundredths a) (hundredths b) ≡ leb a b
    pub div_le :
        {x y : F} → le x y ≡ true → le (div x (hundredths 70)) (div y (hundredths 70)) ≡ true
    pub mul_le : {x y : F} → le x y ≡ true → le (mul x (of_u64 2)) (mul y (of_u64 2)) ≡ true
    pub sub_le : {x y : F} → le x y ≡ true → le (sub (of_u64 4) y) (sub (of_u64 4) x) ≡ true
    pub round_le : {x y : F} → le x y ≡ true → round_u8 x ≤ round_u8 y
    pub at_17 : adaptive (hundredths 17) ≡ 4
    pub at_18 : adaptive (hundredths 18) ≡ 3
    pub at_52 : adaptive (hundredths 52) ≡ 3
    pub at_53 : adaptive (hundredths 53) ≡ 2

  -- The table of the work that is owed at a level of abuse and a score: at least, and at most.
  pub data IsOwed (abuse score : F) : ℕ → ℕ → Type 0 where
    abused : le (hundredths 15) abuse ≡ true → IsOwed abuse score 4 4
    trusted :
        le (hundredths 15) abuse ≡ false → le (hundredths 70) score ≡ true → IsOwed abuse score 0 0
    near :
        le (hundredths 15) abuse ≡ false
        → le (hundredths 70) score ≡ false
        → le (hundredths 53) score ≡ true
        → IsOwed abuse score 2 2
    near_or_middle :
        le (hundredths 15) abuse ≡ false
        → le (hundredths 52) score ≡ true
        → le score (hundredths 53) ≡ true
        → IsOwed abuse score 2 3
    middle :
        le (hundredths 15) abuse ≡ false
        → le (hundredths 18) score ≡ true
        → le score (hundredths 52) ≡ true
        → IsOwed abuse score 3 3
    middle_or_low :
        le (hundredths 15) abuse ≡ false
        → le (hundredths 17) score ≡ true
        → le score (hundredths 18) ≡ true
        → IsOwed abuse score 3 4
    low :
        le (hundredths 15) abuse ≡ false → le score (hundredths 17) ≡ true → IsOwed abuse score 4 4

  module _ (ieee : IsF64) where
    adaptive-le : (x y : F) → le x y ≡ true → adaptive y ≤ adaptive x
    adaptive-le x y h = ieee.round_le (ieee.sub_le (ieee.mul_le (ieee.div_le h)))

    -- A score between two literals orders them.
    literals_between :
        (a b : ℕ) (x : F)
        → a ≤ 100
        → b ≤ 100
        → le (hundredths a) x ≡ true
        → le x (hundredths b) ≡ true
        → leb a b ≡ true
    literals_between a b x ha hb h k = sym (ieee.literals a b ha hb) ∙ ieee.le_trans h k

    under :
        (b : ℕ) (x : F)
        → b ≤ 100
        → leb 70 b ≡ false
        → le x (hundredths b) ≡ true
        → le (hundredths 70) x ≡ false
    under b x hb less k = elim (Bool-cases (le (hundredths 70) x)) [
      | inr out ↦ out
      | inl within ↦ ground (arith, less, literals_between 70 b x (omega arith) hb within k)
    ]

    over :
        (a : ℕ) (x : F)
        → a ≤ 100
        → leb a 0 ≡ false
        → le (hundredths a) x ≡ true
        → le x (hundredths 0) ≡ false
    over a x ha more h = elim (Bool-cases (le x (hundredths 0))) [
      | inr out ↦ out
      | inl within ↦ ground (arith, more, literals_between a 0 x ha (omega arith) h within)
    ]

  module _ (ieee : IsF64) (s : ReputationSystem F) (pubkey : String)
      (calm : le (hundredths 15) (stored_abuse_level float s pubkey) ≡ false)
      (untrusted : le (hundredths 70) (score float s pubkey) ≡ false) where
    linear :
        le (score float s pubkey) (hundredths 0) ≡ false
        → required_pow_difficulty float s pubkey ≡ clamp_u8 (adaptive (score float s pubkey)) 2 4
    unfolding required_pow_difficulty required_pow_difficulty_inner
    linear pos = rw (calm, untrusted, pos) refl

    -- What lies between the values at two literals.
    linear_between :
        (a b : ℕ)
        → a ≤ 100
        → b ≤ 100
        → leb a 0 ≡ false
        → le (hundredths a) (score float s pubkey) ≡ true
        → le (score float s pubkey) (hundredths b) ≡ true
        → (clamp_u8 (adaptive (hundredths b)) 2 4 ≤ required_pow_difficulty float s pubkey)
          × (required_pow_difficulty float s pubkey ≤ clamp_u8 (adaptive (hundredths a)) 2 4)
    linear_between a b ha hb pos h k =
        let x = score float s pubkey in
        rw (linear (over ieee a x ha pos h)) (
          clamp_u8-le _ _ (adaptive-le ieee x (hundredths b) k),
          clamp_u8-le _ _ (adaptive-le ieee (hundredths a) x h),
        )

    linear_near :
        le (hundredths 53) (score float s pubkey) ≡ true
        → required_pow_difficulty float s pubkey ≡ 2
    linear_near h =
        let x = score float s pubkey in
        linear (over ieee 53 x (omega arith) refl h)
        ∙ clamp_u8-low _ (rw (sym ieee.at_53) (adaptive-le ieee (hundredths 53) x h))

    linear_low :
        le (score float s pubkey) (hundredths 17) ≡ true
        → required_pow_difficulty float s pubkey ≡ 4
    unfolding required_pow_difficulty required_pow_difficulty_inner
    linear_low k =
        let x = score float s pubkey in
        elim (Bool-cases (le x (hundredths 0))) [
          | inl zero_score ↦ rw (calm, untrusted, zero_score) refl
          | inr pos ↦
              linear pos
              ∙ clamp_u8-high _ (rw (sym ieee.at_17) (adaptive-le ieee x (hundredths 17) k))
        ]

  -- Where the numbers behave as IEEE 754 says, the difficulty is the one of the table: 4 from an
  -- abuse of 0.15 on, whatever the score; otherwise nothing from a score of 0.70 on, 2 from 0.53,
  -- 3 between 0.18 and 0.52, and 4 up to 0.17; in the hundredth between two of these, one of both.
  pub required_pow_difficulty-IsOwed :
      IsF64
      → (s : ReputationSystem F) (pubkey : String) (least most : ℕ)
      → IsOwed (stored_abuse_level float s pubkey) (score float s pubkey) least most
      → (least ≤ required_pow_difficulty float s pubkey)
        × (required_pow_difficulty float s pubkey ≤ most)
  unfolding clamp_u8 is_trusted
  required_pow_difficulty-IsOwed ieee s pubkey least most (abused h) =
      rw ((required_pow_difficulty_lem float s pubkey).0 h) (omega arith, omega arith)
  required_pow_difficulty-IsOwed ieee s pubkey least most (trusted h t) =
      rw ((required_pow_difficulty_lem float s pubkey).1 h t) (omega arith, omega arith)
  required_pow_difficulty-IsOwed ieee s pubkey least most (near h u a) =
      rw (linear_near ieee s pubkey h u a) (omega arith, omega arith)
  required_pow_difficulty-IsOwed ieee s pubkey least most (near_or_middle h a b) =
      let u = under ieee 53 (score float s pubkey) (omega arith) refl b in
      let both = linear_between ieee s pubkey h u 52 53 (omega arith) (omega arith) refl a b in
      ground (arith, both, ieee.at_52, ieee.at_53)
  required_pow_difficulty-IsOwed ieee s pubkey least most (middle h a b) =
      let u = under ieee 52 (score float s pubkey) (omega arith) refl b in
      let both = linear_between ieee s pubkey h u 18 52 (omega arith) (omega arith) refl a b in
      ground (arith, both, ieee.at_18, ieee.at_52)
  required_pow_difficulty-IsOwed ieee s pubkey least most (middle_or_low h a b) =
      let u = under ieee 18 (score float s pubkey) (omega arith) refl b in
      let both = linear_between ieee s pubkey h u 17 18 (omega arith) (omega arith) refl a b in
      ground (arith, both, ieee.at_17, ieee.at_18)
  required_pow_difficulty-IsOwed ieee s pubkey least most (low h b) =
      let u = under ieee 17 (score float s pubkey) (omega arith) refl b in
      rw (linear_low ieee s pubkey h u b) (omega arith, omega arith)
