-- ===== src/Social/Accepted.antt =====
-- Which posts and comments of core/src/social.rs are accepted.
use onde_resilience.Prelude.{
  ℕ, ◌≤◌, ◌<◌, ◌≡◌, ◌≢◌, ◌↔◌, refl, ap, str_eq, eq_iff, String, true, false, inl, inr, Option, none,
  some, List, arith, length, Bool-cases, Option-cases,
}
use onde_resilience.Prelude.Result.{ok}
use onde_resilience.Prelude.Utf8.{as_bytes}
use onde_resilience.Protocol.{HexCodec}
use onde_resilience.Protocol.Validate.{char_count}
use onde_resilience.Social.{
  SocialPlatform, SocialPost, SocialComment, is_blank, all_slug_chars, bad_length, is_parent,
  validate_platform, not_hex_key, validate_post, validate_comment,
}

-- A text of 1 to `limit` characters.
abbrev pub HasLength : String → ℕ → Type 0
HasLength s limit = (0 < char_count s) × (char_count s ≤ limit)

-- What a platform asks of a post: Tuitter neither title nor community and a short body; Redit a
-- title that is not blank, and a community with a slug of small letters, digits and dashes.
abbrev pub PlatformRules : SocialPlatform → SocialPost → Type 0
PlatformRules SocialPlatform.tuitter p =
    (p.title ≡ none) × (char_count p.body ≤ 500) × (p.community_slug ≡ none)
PlatformRules SocialPlatform.redit p =
    ((title : String) × (p.title ≡ some title)
      × (is_blank title ≡ false)
      × (char_count title ≤ 300))
    × (char_count p.body ≤ 40000)
    × ((slug : String) × (p.community_slug ≡ some slug)
        × HasLength slug 50
        × (all_slug_chars slug ≡ true))

abbrev pub IsHexKey : HexCodec → String → Type 0
IsHexKey hex key = (length (as_bytes key) ≡ 64) × ((bytes : List ℕ) × (hex.decode key ≡ some bytes))

platform_sound :
    (platform : SocialPlatform) (p : SocialPost)
    → validate_platform platform p ≡ ok tt
    → PlatformRules platform p
unfolding validate_platform bad_length
platform_sound SocialPlatform.tuitter p h = (
  elim (Option-cases p.title) [ inl e ↦ e | inr (t, e) ↦ absurd (ground (arith, e, h)) ],
  ground arith,
  elim (Option-cases p.community_slug) [
    | inl e ↦ e
    | inr (slug, e) ↦ absurd (ground (arith, e, h))
  ],
)
platform_sound SocialPlatform.redit p h = elim (Option-cases p.title) [
  | inl e ↦ absurd (ground (arith, e, h))
  | inr (title, e) ↦ elim (Option-cases p.community_slug) [
    | inl k ↦ absurd (ground (arith, e, k, h))
    | inr (slug, k) ↦ (
      (title, e, ground (arith, e, k, h), ground (arith, e, k, h)),
      ground (arith, e, k, h),
      (slug, k, (ground (arith, e, k, h), ground (arith, e, k, h)), ground (arith, e, k, h)),
    )
  ]
]

platform_complete :
    (platform : SocialPlatform) (p : SocialPost)
    → PlatformRules platform p
    → validate_platform platform p ≡ ok tt
unfolding validate_platform bad_length
platform_complete SocialPlatform.tuitter p (title, short, slug) = ground (arith, title, short, slug)
platform_complete SocialPlatform.redit p
      ((title, e, full, fits), short, (slug, k, (first, last), good)) =
    ground (arith, e, full, fits, short, k, first, last, good)

not_parent : (parent : Option String) (id : String) → is_parent parent id ≡ false → parent ≢ some id
unfolding is_parent
not_parent none id h e = cc
not_parent (some parent) id h e = ground (arith, eq_iff parent id, h, e)

not_parent_back :
    (parent : Option String) (id : String) → parent ≢ some id → is_parent parent id ≡ false
unfolding is_parent
not_parent_back none id h = refl
not_parent_back (some parent) id h = elim (Bool-cases (str_eq parent id)) [
  | inr apart ↦ apart
  | inl same ↦ absurd (h (ap some ((eq_iff parent id).0 same)))
]

module _ (hex : HexCodec) where
  hex_key : (key : String) → not_hex_key hex key ≡ false → IsHexKey hex key
  unfolding not_hex_key
  hex_key key h = elim (Option-cases (hex.decode key)) [
    | inl e ↦ absurd (ground (arith, e, h))
    | inr (bytes, e) ↦ (ground (arith, e, h), (bytes, e))
  ]

  hex_key_back : (key : String) → IsHexKey hex key → not_hex_key hex key ≡ false
  unfolding not_hex_key
  hex_key_back key (size, (bytes, e)) = ground (arith, size, e)

  -- A post is accepted exactly when its id has 1 to 128 characters, its author is the hexadecimal
  -- form of a key, its body is not blank, it has at most four media, and it keeps the rules of its
  -- platform.
  pub validate_post_iff :
      (p : SocialPost)
      → (validate_post hex p ≡ ok tt) ↔ (
          HasLength p.id 128
          × IsHexKey hex p.author_pubkey
          × (is_blank p.body ≡ false)
          × (length p.media_urls ≤ 4)
          × PlatformRules p.platform p)
  unfolding validate_post bad_length
  validate_post_iff p = (
    λ h. (
      (ground arith, ground arith),
      hex_key p.author_pubkey (ground arith),
      ground arith,
      ground arith,
      platform_sound p.platform p (ground arith),
    ),
    λ (size, key, full, few, rules). ground (
      arith,
      size,
      hex_key_back p.author_pubkey key,
      full,
      few,
      platform_complete p.platform p rules,
    ),
  )

  -- A comment is accepted exactly when its id and that of its post have 1 to 128 characters, it is
  -- not its own parent, its body is not blank and has at most 40,000 characters, and its author is
  -- the hexadecimal form of a key.
  pub validate_comment_iff :
      (c : SocialComment)
      → (validate_comment hex c ≡ ok tt) ↔ (
          HasLength c.id 128
          × HasLength c.post_id 128
          × (c.parent_id ≢ some c.id)
          × (is_blank c.body ≡ false)
          × (char_count c.body ≤ 40000)
          × IsHexKey hex c.author_pubkey)
  unfolding validate_comment bad_length
  validate_comment_iff c = (
    λ h. (
      (ground arith, ground arith),
      (ground arith, ground arith),
      not_parent c.parent_id c.id (ground arith),
      ground arith,
      ground arith,
      hex_key c.author_pubkey (ground arith),
    ),
    λ (size, post, other, full, few, key). ground (
      arith,
      size,
      post,
      not_parent_back c.parent_id c.id other,
      full,
      few,
      hex_key_back c.author_pubkey key,
    ),
  )
