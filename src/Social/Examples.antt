-- ===== src/Social/Examples.antt =====
-- A post and a comment (core/src/social.rs).
use onde_resilience.Prelude.{◌≤◌, ◌≡◌, ◌↔◌, false, none, some, [], length, replicate}
use onde_resilience.Prelude.Result.{ok}
use onde_resilience.Protocol.HexExample.{encode, hex}
use onde_resilience.Social.{SocialPlatform, SocialPost, SocialComment, is_blank, validate_post}
use onde_resilience.Social.Accepted.{HasLength, IsHexKey, PlatformRules, validate_post_iff}

abbrev post : SocialPost
post = record {
  id = "p1";
  platform = SocialPlatform.redit;
  author_pubkey = encode (replicate 32 1);
  title = some "Point d'eau";
  body = "Ouvert place du marché";
  community_slug = some "entraide-2";
  media_urls = [];
}

abbrev comment : SocialComment
comment = record {
  id = "c1";
  platform = SocialPlatform.redit;
  author_pubkey = encode (replicate 32 1);
  post_id = "p1";
  parent_id = none;
  body = "Merci";
}

validate_post_iff_example : (validate_post hex post ≡ ok tt) ↔ (
    HasLength post.id 128
    × IsHexKey hex post.author_pubkey
    × (is_blank post.body ≡ false)
    × (length post.media_urls ≤ 4)
    × PlatformRules post.platform post)
validate_post_iff_example = validate_post_iff hex post
