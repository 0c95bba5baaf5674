-- ===== src/Padding/Buckets.antt =====
-- What padding keeps and what it hides (core/src/crypto/mod.rs).
use onde_resilience.Prelude.{
  ℕ, zero, suc, ◌+◌, ◌-◌, ◌≤◌, ◌<◌, ◌≡◌, ◌≢◌, refl, ap, ◌∙◌, sym, inl, inr, ◌⊎◌, true, List, [],
  ◌∷◌, ◌++◌, append-nil, arith, leb, ltb, length, max, subst, length-append, take, take-append_left,
  length-take-le, get_elem?-append_left, get_elem?-append_at, ◌↔◌, get_elem?-append_replicate,
  Bool-cases,
}
use onde_resilience.Prelude.{replicate, length-replicate}
use onde_resilience.Padding.{bucket_for, pad, is_zero_at, unpad_end, unpad}

abbrev pub IsBucket : ℕ → Type 0
IsBucket n = (n ≡ 256) ⊎ ((n ≡ 1024) ⊎ ((n ≡ 4096) ⊎ (n ≡ 16384)))

bucket_for-IsBucket : (len : ℕ) → IsBucket (bucket_for len)
unfolding bucket_for
bucket_for-IsBucket len = ground arith

-- The bucket of a message that fits one holds it.
le-bucket_for : (len : ℕ) → len ≤ 16384 → len ≤ bucket_for len
unfolding bucket_for
le-bucket_for len h = ground arith

-- Padding only appends zeros.
pad_zeros : (bytes : List ℕ) → (n : ℕ) × (pad bytes ≡ bytes ++ replicate n 0)
unfolding pad
pad_zeros bytes = elim (Bool-cases (ltb (length bytes) (bucket_for (length bytes)))) [
  | inl short ↦ (bucket_for (length bytes) - length bytes, rw short)
  | inr full ↦ (0, rw full (sym (append-nil bytes)))
]

length-pad : (bytes : List ℕ) → length (pad bytes) ≡ max (length bytes) (bucket_for (length bytes))
unfolding pad
length-pad bytes =
    let gap = bucket_for (length bytes) - length bytes in
    elim (Bool-cases (ltb (length bytes) (bucket_for (length bytes)))) [
      | inl short ↦ rw short (
          ground (
            arith,
            length-append bytes (replicate gap 0),
            length-replicate gap (let z : ℕ = 0 in z),
          ))
      | inr full ↦ rw full (ground arith)
    ]

pad_long : (bytes : List ℕ) → 16384 < length bytes → pad bytes ≡ bytes
unfolding pad bucket_for
pad_long bytes h = ground arith

-- A padded message starts with the message, which only zeros follow, and has the length of a
-- bucket, or is longer than every bucket and left as it is.
pub pad_lem :
    (bytes : List ℕ)
    → ((n : ℕ) × (pad bytes ≡ bytes ++ replicate n 0))
      × (IsBucket (length (pad bytes)) ⊎ ((16384 < length bytes) × (pad bytes ≡ bytes)))
pad_lem bytes = (
  pad_zeros bytes,
  elim (Bool-cases (leb (length bytes) 16384)) [
    | inl fits ↦ inl (
        subst IsBucket (sym (length-pad bytes ∙ ground (arith, le-bucket_for (length bytes))))
          (bucket_for-IsBucket (length bytes)))
    | inr long ↦ inr (ground arith, pad_long bytes (ground arith))
  ],
)

unpad_end-le : (bytes : List ℕ) (e : ℕ) → unpad_end bytes e ≤ e
unfolding unpad_end
unpad_end-le bytes zero = omega arith
unpad_end-le bytes (suc e) = ground (arith, unpad_end-le bytes e)

unpad_end_zero :
    (bytes : List ℕ) (e : ℕ)
    → is_zero_at bytes e ≡ true
    → unpad_end bytes (suc e) ≡ unpad_end bytes e
unfolding unpad_end
unpad_end_zero bytes e h = rw (h, unpad_end)

module _ (xs : List ℕ) where
  -- Bytes at or behind the end are not read.
  is_zero_at-append :
      (zs : List ℕ) (i : ℕ) → i < length xs → is_zero_at (xs ++ zs) i ≡ is_zero_at xs i
  unfolding is_zero_at
  is_zero_at-append zs i h = rw (get_elem?-append_left xs zs i h, is_zero_at)

  is_zero_at_zeros :
      (n i : ℕ) → length xs ≤ i → i < length xs + n → is_zero_at (xs ++ replicate n 0) i ≡ true
  unfolding is_zero_at
  is_zero_at_zeros n i low high = rw (get_elem?-append_replicate xs n i 0 low high, is_zero_at)

  unpad_end-append : (zs : List ℕ) (e : ℕ) → e ≤ length xs → unpad_end (xs ++ zs) e ≡ unpad_end xs e
  unfolding unpad_end
  unpad_end-append zs zero h = refl
  unpad_end-append zs (suc e) h =
      ground (arith, is_zero_at-append zs e (omega arith), unpad_end-append zs e (omega arith))

  unpad_end_zeros :
      (n e : ℕ)
      → length xs ≤ e
      → e ≤ length xs + n
      → unpad_end (xs ++ replicate n 0) e ≡ unpad_end (xs ++ replicate n 0) (length xs)
  unpad_end_zeros n zero low high = ap (unpad_end (xs ++ replicate n 0)) (omega arith)
  unpad_end_zeros n (suc e) low high = elim (Bool-cases (ltb e (length xs))) [
    | inl here ↦ ap (unpad_end (xs ++ replicate n 0)) (ground arith)
    | inr more ↦
        let low' : length xs ≤ e = ground arith in
        unpad_end_zero (xs ++ replicate n 0) e (is_zero_at_zeros n e low' (omega arith))
        ∙ unpad_end_zeros n e low' (omega arith)
  ]

  unpad_zeros : (n : ℕ) → unpad (xs ++ replicate n 0) ≡ unpad xs
  unfolding unpad
  unpad_zeros n =
      let size : length (xs ++ replicate n 0) ≡ length xs + n =
        length-append xs (replicate n 0) ∙ ap (λ (k : ℕ). length xs + k) (length-replicate n 0) in
      rw (
        size,
        unpad_end_zeros n (length xs + n) (omega arith) (omega arith),
        unpad_end-append (replicate n 0) (length xs) (omega arith),
        take-append_left xs (replicate n 0) (unpad_end xs (length xs))
            (unpad_end-le xs (length xs)),
      )

length-unpad-le : (bytes : List ℕ) → length (unpad bytes) ≤ length bytes
unfolding unpad
length-unpad-le bytes = omega (
  arith,
  length-take-le (unpad_end bytes (length bytes)) bytes,
  unpad_end-le bytes (length bytes),
)

-- Removing the padding gives the message without its own trailing zeros.
pub unpad-pad : (bytes : List ℕ) → unpad (pad bytes) ≡ unpad bytes
unpad-pad bytes = let (n, e) = pad_zeros bytes in rw e (unpad_zeros bytes n)

unpad_end_last :
    (bytes : List ℕ) (b : ℕ)
    → b ≢ 0
    → unpad_end (bytes ++ b ∷ []) (suc (length bytes)) ≡ suc (length bytes)
unfolding unpad_end is_zero_at
unpad_end_last bytes b h = rw (get_elem?-append_at bytes b [], unpad_end, is_zero_at) (ground arith)

take_all : (bytes : List ℕ) → take (length bytes) bytes ≡ bytes
take_all [] = refl
take_all (b ∷ bs) = ap (◌∷◌ b) (take_all bs)

unpad_last : (bytes : List ℕ) (b : ℕ) → b ≢ 0 → unpad (bytes ++ b ∷ []) ≡ bytes ++ b ∷ []
unfolding unpad
unpad_last bytes b h =
    let size : length (bytes ++ b ∷ []) ≡ suc (length bytes) =
      length-append bytes (b ∷ []) ∙ omega arith in
    rw (size, unpad_end_last bytes b h) (rw (← size) (take_all (bytes ++ b ∷ [])))

-- The padding can be removed exactly from a message whose last byte is no zero: one that ends in a
-- zero never comes back.
pub unpad-pad_iff :
    (bytes : List ℕ) (b : ℕ) → (unpad (pad (bytes ++ b ∷ [])) ≡ bytes ++ b ∷ []) ↔ (b ≢ 0)
unpad-pad_iff bytes b = (
  λ h z.
      let e : bytes ++ b ∷ [] ≡ bytes ++ 0 ∷ [] = ap (λ (k : ℕ). bytes ++ k ∷ []) z in
      let short : unpad (bytes ++ b ∷ []) ≡ unpad bytes = ap unpad e ∙ unpad_zeros bytes 1 in
      let same : unpad bytes ≡ bytes ++ b ∷ [] =
        sym short ∙ sym (unpad-pad (bytes ++ b ∷ [])) ∙ h in
      omega (arith, length-unpad-le bytes, ap length same, length-append bytes (b ∷ [])),
  λ h. unpad-pad (bytes ++ b ∷ []) ∙ unpad_last bytes b h,
)
