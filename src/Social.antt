-- ===== src/Social.antt =====
-- The social objects of core/src/social.rs and the checks on references of core/src/node/mod.rs. The
-- crate hex is a parameter.
pub mod Accepted
mod Examples
use Prim.Native.Char.{code}
use onde_resilience.Prelude.{
  ℕ, String, Bool, true, false, ◌&&◌, ◌||◌, not, Option, none, some, List, if◌then◌else◌, ltb, leb,
  ◌==◌, length, str_eq,
}
use onde_resilience.Prelude.Result.{Result, ok, err, and_then}
use onde_resilience.Prelude.Utf8.{as_bytes}
use onde_resilience.Protocol.{HexCodec}
use onde_resilience.Protocol.Validate.{char_count}

pub data SocialPlatform : Type 0 where
  tuitter redit : SocialPlatform

pub record SocialPost : Type 0 where
  pub id : String
  pub platform : SocialPlatform
  pub author_pubkey : String
  pub title : Option String
  pub body : String
  pub community_slug : Option String
  pub media_urls : List String

pub record SocialComment : Type 0 where
  pub id : String
  pub platform : SocialPlatform
  pub author_pubkey : String
  pub post_id : String
  pub parent_id : Option String
  pub body : String

-- One for each message of the two modules.
pub data SocialError : Type 0 where
  post_id_length author_not_hex empty_body too_many_media : SocialError
  tuitter_title tuitter_body_length tuitter_community : SocialError
  title_missing title_length redit_body_length community_missing slug_length slug_characters :
      SocialError
  comment_id_length comment_post_id_length own_parent comment_body_length : SocialError
  payload_too_large : ℕ → SocialError
  target_ref_length not_a_pubkey unknown_platform : SocialError

abbrev pub max_tuitter_body : ℕ
max_tuitter_body = 500

abbrev pub max_redit_title : ℕ
max_redit_title = 300

abbrev pub max_redit_body : ℕ
max_redit_body = 40000

abbrev pub max_community_slug : ℕ
max_community_slug = 50

abbrev pub max_private_message_body : ℕ
max_private_message_body = 2000

abbrev pub max_moderation_reason : ℕ
max_moderation_reason = 500

abbrev pub max_social_id : ℕ
max_social_id = 128

-- `char::is_whitespace`
unfoldable pub is_whitespace : ℕ → Bool
is_whitespace c =
    (leb 9 c && leb c 13)
    || (c == 32
        || (c == 133
            || (c == 160
                || (c == 5760
                    || ((leb 8192 c && leb c 8202)
                        || (c == 8232
                            || (c == 8233 || (c == 8239 || (c == 8287 || c == 12288)))))))))

-- `trim().is_empty()`
unfoldable pub is_blank : String → Bool
is_blank String.[] = true
is_blank (String.◌∷◌ c s) = is_whitespace (code c) && is_blank s

-- A character of a community slug.
unfoldable pub is_slug_char : ℕ → Bool
is_slug_char c = (leb b'a' c && leb c b'z') || ((leb b'0' c && leb c b'9') || (c == b'-'))

unfoldable pub all_slug_chars : String → Bool
all_slug_chars String.[] = true
all_slug_chars (String.◌∷◌ c s) = is_slug_char (code c) && all_slug_chars s

-- `is_empty() || chars().count() > limit`
unfoldable pub bad_length : String → ℕ → Bool
bad_length s limit = char_count s == 0 || ltb limit (char_count s)

abbrev pub refuse_if : Bool → SocialError → Result SocialError (Unit {0})
refuse_if true e = err e
refuse_if false e = ok tt

abbrev pub require {ℓ} : {A : Type ℓ} → Option A → SocialError → Result SocialError A
require none e = err e
require (some a) e = ok a

abbrev pub is_some {ℓ} : {A : Type ℓ} → Option A → Bool
is_some none = false
is_some (some a) = true

-- `parent_id.as_deref() == Some(id)`
unfoldable pub is_parent : Option String → String → Bool
is_parent none id = false
is_parent (some parent) id = str_eq parent id

-- The part of `SocialPost::validate` that depends on the platform.
unfoldable pub validate_platform : SocialPlatform → SocialPost → Result SocialError (Unit {0})
validate_platform SocialPlatform.tuitter p =
    and_then (refuse_if (is_some p.title) SocialError.tuitter_title) λ _.
      and_then
        (refuse_if (ltb max_tuitter_body (char_count p.body)) SocialError.tuitter_body_length)
        λ _. refuse_if (is_some p.community_slug) SocialError.tuitter_community
validate_platform SocialPlatform.redit p =
    and_then (require p.title SocialError.title_missing) λ title.
      and_then
        (refuse_if (is_blank title || ltb max_redit_title (char_count title))
          SocialError.title_length)
        λ _.
          and_then
            (refuse_if (ltb max_redit_body (char_count p.body)) SocialError.redit_body_length)
            λ _. and_then (require p.community_slug SocialError.community_missing) λ slug.
              and_then (refuse_if (bad_length slug max_community_slug) SocialError.slug_length)
                λ _. refuse_if (not (all_slug_chars slug)) SocialError.slug_characters

module _ (hex : HexCodec) where
  -- `len() != 64 || hex::decode(key).is_err()`
  unfoldable pub not_hex_key : String → Bool
  not_hex_key key = not (length (as_bytes key) == 64) || not (is_some (hex.decode key))

  -- `SocialPost::validate`
  unfoldable pub validate_post : SocialPost → Result SocialError (Unit {0})
  validate_post p = and_then (refuse_if (bad_length p.id 128) SocialError.post_id_length) λ _.
      and_then (refuse_if (not_hex_key p.author_pubkey) SocialError.author_not_hex) λ _.
        and_then (refuse_if (is_blank p.body) SocialError.empty_body) λ _.
          and_then (refuse_if (ltb 4 (length p.media_urls)) SocialError.too_many_media)
            λ _. validate_platform p.platform p

  -- `SocialComment::validate`
  unfoldable pub validate_comment : SocialComment → Result SocialError (Unit {0})
  validate_comment c = and_then (refuse_if (bad_length c.id 128) SocialError.comment_id_length) λ _.
      and_then (refuse_if (bad_length c.post_id 128) SocialError.comment_post_id_length) λ _.
        and_then (refuse_if (is_parent c.parent_id c.id) SocialError.own_parent) λ _.
          and_then
            (refuse_if (is_blank c.body || ltb max_redit_body (char_count c.body))
              SocialError.comment_body_length)
            λ _. refuse_if (not_hex_key c.author_pubkey) SocialError.author_not_hex

unfoldable pub check_social_payload_size : String → ℕ → Result SocialError (Unit {0})
check_social_payload_size content max_bytes =
    refuse_if (ltb max_bytes (length (as_bytes content))) (SocialError.payload_too_large max_bytes)

unfoldable pub validate_social_target_ref : String → Result SocialError (Unit {0})
validate_social_target_ref value =
    refuse_if (bad_length value max_social_id) SocialError.target_ref_length

-- `is_ascii_hexdigit` of a byte.
unfoldable pub is_hexdigit : ℕ → Bool
is_hexdigit c =
    (leb b'0' c && leb c b'9') || ((leb b'a' c && leb c b'f') || (leb b'A' c && leb c b'F'))

unfoldable pub all_hexdigits : List ℕ → Bool
all_hexdigits List.[] = true
all_hexdigits (List.◌∷◌ b bs) = is_hexdigit b && all_hexdigits bs

unfoldable pub validate_social_pubkey_ref : String → Result SocialError (Unit {0})
validate_social_pubkey_ref value =
    refuse_if (not (length (as_bytes value) == 64) || not (all_hexdigits (as_bytes value)))
      SocialError.not_a_pubkey

unfoldable pub parse_social_platform : String → Result SocialError SocialPlatform
parse_social_platform platform =
    if str_eq platform "Tuitter" || str_eq platform "tuitter"
    then ok SocialPlatform.tuitter
    else if str_eq platform "Redit" || str_eq platform "redit"
    then ok SocialPlatform.redit
    else err SocialError.unknown_platform
