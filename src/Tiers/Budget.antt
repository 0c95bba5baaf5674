-- ===== src/Tiers/Budget.antt =====
-- The budget of the store (core/src/storage/mod.rs), its distinct ids, and what `store` does on
-- each branch.
use onde_resilience.Prelude.{
  ℕ, ◌+◌, ◌≤◌, ◌<◌, ◌≡◌, ◌≢◌, ◌↔◌, refl, ◌∙◌, sym, ap, String, true, false, ◌⊎◌, inl, inr, some,
  List, [], ◌∷◌, map, arith, if◌then◌else◌, ltb, length, push_back, any_of, contains, Bool-cases,
  str_eq, eq_iff, eq_refl,
}
use onde_resilience.Prelude.Sets.{Distinct, Distinct-push_back}
use onde_resilience.Prelude.Words.{u64_mod, add_u64}
use onde_resilience.Prelude.Result.{ok}
use onde_resilience.Tiers.{
  StoragePolicy, MessageTier, TieredMessage, TieredMessageStore, max_bytes, sum_by, used_raw_bytes,
  holds, find_id, shard_prefix_len, should_store_locally, Deflate, store, get, restore,
}

abbrev pub ids_of : List TieredMessage → List String
ids_of messages = map (λ (m : TieredMessage). m.id) messages

-- The sum of the raw sizes.
abbrev pub raw_total : TieredMessageStore → ℕ
raw_total s = sum_by (λ (m : TieredMessage). m.original_size) s.messages

-- The raw sizes are within the budget, and no id is held twice.
pub record IsStore (s : TieredMessageStore) : Type 0 where
  pub in_budget : raw_total s ≤ max_bytes s.policy
  pub ids_distinct : Distinct (ids_of s.messages)

pub holds-contains :
    (s : TieredMessageStore) (id : String) → holds s id ≡ contains (ids_of s.messages) id
unfolding holds
holds-contains s id = go s.messages
  where
    go :
        (messages : List TieredMessage)
        → any_of (λ (m : TieredMessage). str_eq m.id id) messages ≡ contains (ids_of messages) id
    go [] = refl
    go (m ∷ messages) = rw (go messages) refl

pub sum_by-push_back {ℓ} :
    {A : Type ℓ} (f : A → ℕ) (xs : List A) (x : A) → sum_by f (push_back xs x) ≡ sum_by f xs + f x
unfolding sum_by
sum_by-push_back f [] x = omega arith
sum_by-push_back f (y ∷ xs) x = omega (arith, sum_by-push_back f xs x)

map-push_back :
    (messages : List TieredMessage) (m : TieredMessage)
    → ids_of (push_back messages m) ≡ push_back (ids_of messages) m.id
map-push_back [] m = refl
map-push_back (x ∷ messages) m = ap (◌∷◌ x.id) (map-push_back messages m)

find_id-push_back :
    (id : String) (messages : List TieredMessage) (m : TieredMessage)
    → contains (ids_of messages) m.id ≡ false
    → find_id id (push_back messages m) ≡ (if str_eq m.id id then some m else find_id id messages)
unfolding find_id
find_id-push_back id [] m h = refl
find_id-push_back id (x ∷ messages) m h =
    ground
      (arith, find_id-push_back id messages m, eq_iff m.id id, eq_iff x.id id, eq_iff x.id m.id)

different : (id other : String) → id ≢ other → str_eq id other ≡ false
different id other h = ground (arith, eq_iff id other)

pub max_bytes-small : (policy : StoragePolicy) → max_bytes policy ≤ 17179869184
unfolding max_bytes
max_bytes-small StoragePolicy.mobile = omega arith
max_bytes-small StoragePolicy.desktop = omega arith
max_bytes-small StoragePolicy.gateway = omega arith

-- In a good store the sum of the sizes does not wrap around.
used_raw_bytes-exact : (s : TieredMessageStore) → IsStore s → used_raw_bytes s ≡ raw_total s
unfolding used_raw_bytes
used_raw_bytes-exact s good = omega (arith, good.in_budget, max_bytes-small s.policy)

add_u64-budget :
    (s : TieredMessageStore) (size : ℕ)
    → IsStore s
    → raw_total s + size < u64_mod
    → add_u64 (used_raw_bytes s) size ≡ raw_total s + size
unfolding add_u64
add_u64-budget s size good fits = omega (arith, used_raw_bytes-exact s good)

-- A message that comes in under the budget, with a new id.
push-IsStore :
    (s after : TieredMessageStore) (m : TieredMessage)
    → IsStore s
    → after.messages ≡ push_back s.messages m
    → after.policy ≡ s.policy
    → holds s m.id ≡ false
    → raw_total s + m.original_size ≤ max_bytes s.policy
    → IsStore after
push-IsStore s after m good grown same absent room = record {
  in_budget =
      rw (grown, same)
        (omega (arith, sum_by-push_back (λ (m : TieredMessage). m.original_size) s.messages m));
  ids_distinct =
      rw (grown, map-push_back s.messages m)
        (Distinct-push_back (ids_of s.messages) m.id good.ids_distinct
          (sym (holds-contains s m.id) ∙ absent));
}

module _ (deflate : Deflate) (s : TieredMessageStore) (id : String) (tier : MessageTier)
    (payload : List ℕ) (created_at : ℕ) (geohash : String) where
  abbrev pub message : TieredMessage
  message = record {
    id = id;
    tier = tier;
    created_at = created_at;
    payload = deflate.compress payload;
    original_size = length payload;
    geohash = geohash;
  }

  -- Why a message is not stored.
  abbrev pub IsRefused : Type 0
  IsRefused =
      (holds s id ≡ true)
      ⊎ ((max_bytes s.policy < raw_total s + length payload)
          ⊎ (should_store_locally geohash s.my_geohash tier (shard_prefix_len s.policy) ≡ false))

  -- The state after the message has been stored.
  pub record IsStored (after : TieredMessageStore) : Type 0 where
    pub stored_last : after.messages ≡ push_back s.messages message
    pub stored_policy : after.policy ≡ s.policy
    pub stored_get : get deflate after id ≡ some (ok payload)
    pub stored_others :
        (other : String) → id ≢ other → get deflate after other ≡ get deflate s other
    pub stored_used : used_raw_bytes after ≡ raw_total s + length payload
    pub stored_good : IsStore after

  get-pushed :
      (after : TieredMessageStore)
      → after.messages ≡ push_back s.messages message
      → holds s id ≡ false
      → (other : String)
      → get deflate after other
        ≡ (if str_eq id other then some (ok payload) else get deflate s other)
  unfolding get
  get-pushed after grown absent other =
      let found =
        ap (find_id other) grown
        ∙ find_id-push_back other s.messages message (sym (holds-contains s id) ∙ absent) in
      elim (Bool-cases (str_eq id other)) [
        | inl same ↦ rw (found, same, get, deflate.decompress-compress payload) refl
        | inr apart ↦ rw (found, apart, get) refl
      ]

  pushed-IsStored :
      (after : TieredMessageStore)
      → IsStore s
      → after.messages ≡ push_back s.messages message
      → after.policy ≡ s.policy
      → holds s id ≡ false
      → raw_total s + length payload ≤ max_bytes s.policy
      → IsStored after
  pushed-IsStored after good grown same absent room = record {
    stored_last = grown;
    stored_policy = same;
    stored_get = get-pushed after grown absent id ∙ rw (eq_refl id) refl;
    stored_others =
        λ other apart. get-pushed after grown absent other ∙ rw (different id other apart) refl;
    stored_used =
        used_raw_bytes-exact after (push-IsStore s after message good grown same absent room)
        ∙ rw grown (sum_by-push_back (λ (m : TieredMessage). m.original_size) s.messages message);
    stored_good = push-IsStore s after message good grown same absent room;
  }

  -- From a store within its budget with each id once, and where the sum with the new size fits a
  -- word: either the id is held, the budget would be exceeded or the message is for another place,
  -- and nothing changes; or none of that holds, and the message is appended: reading its id gives
  -- the payload back, every other id reads as before, and the store stays within its budget with
  -- each id once.
  pub store_lem :
      IsStore s
      → raw_total s + length payload < u64_mod
      → ((store deflate s id tier payload created_at geohash ≡ (s, false)) × IsRefused)
        ⊎ (((store deflate s id tier payload created_at geohash).1 ≡ true)
            × (holds s id ≡ false)
            × (raw_total s + length payload ≤ max_bytes s.policy)
            × (should_store_locally geohash s.my_geohash tier (shard_prefix_len s.policy) ≡ true)
            × IsStored (store deflate s id tier payload created_at geohash).0)
  unfolding store
  store_lem good fits =
      let exact = add_u64-budget s (length payload) good fits in
      elim (Bool-cases (holds s id)) [
        | inl held ↦ inl (rw held refl, inl held)
        | inr absent ↦
            elim (Bool-cases
              (ltb (max_bytes s.policy) (add_u64 (used_raw_bytes s) (length payload)))) [
                | inl over ↦ inl (rw (absent, over) refl, inr (inl (ground arith)))
                | inr room ↦
                    elim (Bool-cases (
                      should_store_locally geohash s.my_geohash tier (shard_prefix_len s.policy))) [
                        | inr away ↦ inl (rw (absent, room, away) refl, inr (inr away))
                        | inl near ↦
                            let small : raw_total s + length payload ≤ max_bytes s.policy =
                              ground arith in
                            inr (
                              rw (absent, room, near) refl,
                              absent,
                              small,
                              near,
                              rw (absent, room, near)
                                  (pushed-IsStored _ good refl refl absent small),
                            )
                      ]
              ]
      ]

-- From a store within its budget with each id once, and where the sum with the new size fits a
-- word, `restore` puts a message in exactly where its id is new and the budget allows it, changes
-- nothing otherwise, and keeps the budget and the ids.
pub restore_lem :
    (s : TieredMessageStore) (m : TieredMessage)
    → IsStore s
    → raw_total s + m.original_size < u64_mod
    → IsStore (restore s m).0
      × (((restore s m).1 ≡ true)
          ↔ ((holds s m.id ≡ false) × (raw_total s + m.original_size ≤ max_bytes s.policy)))
      × (((restore s m).1 ≡ false) → (restore s m).0 ≡ s)
unfolding restore
restore_lem s m good fits =
    let exact = add_u64-budget s m.original_size good fits in
    elim (Bool-cases (holds s m.id)) [
      | inl held ↦ rw held (good, (λ h. cc, λ h. cc), λ h. refl)
      | inr absent ↦
          elim (Bool-cases
            (ltb (max_bytes s.policy) (add_u64 (used_raw_bytes s) m.original_size))) [
              | inl over ↦ rw (absent, over) (good, (λ h. cc, λ h. ground arith), λ h. refl)
              | inr room ↦
                  let small : raw_total s + m.original_size ≤ max_bytes s.policy = ground arith in
                  rw (absent, room)
                    (
                      push-IsStore s _ m good refl refl absent small,
                      (λ h. (refl, small), λ h. refl),
                      λ h. cc,
                    )
            ]
    ]
