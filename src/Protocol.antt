-- ===== src/Protocol.antt =====
-- The events of core/src/protocol/mod.rs: kinds with their stable codes, the event record, and the
-- crates that the module calls as parameters.
pub mod Kinds
pub mod Wire
pub mod HexExample
pub mod CratesExample
pub mod Validate
use onde_resilience.Prelude.{
  ℕ, ◌≡◌, String, List, Option, none, some, All, length, ◌<◌, if◌then◌else◌, ◌==◌,
}
use onde_resilience.Prelude.Result.{Result, ok, err}

pub data OndeMessageType : Type 0 where
  alert mutual_aid voice_memo transcription transaction ai_query ai_response file_share_request :
      OndeMessageType
  heartbeat update_announce update_manifest update_chunk update_request endorsement :
      OndeMessageType
  identity_rotation abuse_report social_post social_comment social_vote social_follow :
      OndeMessageType
  social_message social_moderation : OndeMessageType

pub record MeshEvent : Type 0 where
  pub id : String
  pub pubkey : String
  pub created_at : ℕ
  pub kind : OndeMessageType
  pub tags : List String
  pub content : String
  pub sig : String
  pub pow_nonce : ℕ
  pub pow_difficulty : ℕ
  pub ttl : ℕ

abbrev pub IsByte : ℕ → Type 0
IsByte b = b < 256

-- The crate `hex`: what it encodes, it decodes again.
pub record HexCodec : Type 0 where
  pub encode : List ℕ → String
  pub decode : String → Option (List ℕ)
  pub decode-encode : (bytes : List ℕ) → All IsByte bytes → decode (encode bytes) ≡ some bytes

unfoldable pub kind_code : OndeMessageType → ℕ
kind_code OndeMessageType.alert = 0
kind_code OndeMessageType.mutual_aid = 1
kind_code OndeMessageType.voice_memo = 2
kind_code OndeMessageType.transcription = 3
kind_code OndeMessageType.transaction = 4
kind_code OndeMessageType.ai_query = 5
kind_code OndeMessageType.ai_response = 6
kind_code OndeMessageType.file_share_request = 7
kind_code OndeMessageType.heartbeat = 8
kind_code OndeMessageType.update_announce = 9
kind_code OndeMessageType.update_manifest = 10
kind_code OndeMessageType.update_chunk = 11
kind_code OndeMessageType.update_request = 12
kind_code OndeMessageType.endorsement = 13
kind_code OndeMessageType.identity_rotation = 14
kind_code OndeMessageType.abuse_report = 15
kind_code OndeMessageType.social_post = 16
kind_code OndeMessageType.social_comment = 17
kind_code OndeMessageType.social_vote = 18
kind_code OndeMessageType.social_follow = 19
kind_code OndeMessageType.social_message = 20
kind_code OndeMessageType.social_moderation = 21

-- `kind_from_code`; the number of the error is the unknown code.
unfoldable pub kind_from_code : ℕ → Result ℕ OndeMessageType
kind_from_code code =
    if code == 0
    then ok OndeMessageType.alert
    else if code == 1
    then ok OndeMessageType.mutual_aid
    else if code == 2
    then ok OndeMessageType.voice_memo
    else if code == 3
    then ok OndeMessageType.transcription
    else if code == 4
    then ok OndeMessageType.transaction
    else if code == 5
    then ok OndeMessageType.ai_query
    else if code == 6
    then ok OndeMessageType.ai_response
    else if code == 7
    then ok OndeMessageType.file_share_request
    else if code == 8
    then ok OndeMessageType.heartbeat
    else if code == 9
    then ok OndeMessageType.update_announce
    else if code == 10
    then ok OndeMessageType.update_manifest
    else if code == 11
    then ok OndeMessageType.update_chunk
    else if code == 12
    then ok OndeMessageType.update_request
    else if code == 13
    then ok OndeMessageType.endorsement
    else if code == 14
    then ok OndeMessageType.identity_rotation
    else if code == 15
    then ok OndeMessageType.abuse_report
    else if code == 16
    then ok OndeMessageType.social_post
    else if code == 17
    then ok OndeMessageType.social_comment
    else if code == 18
    then ok OndeMessageType.social_vote
    else if code == 19
    then ok OndeMessageType.social_follow
    else if code == 20
    then ok OndeMessageType.social_message
    else if code == 21
    then ok OndeMessageType.social_moderation
    else err code
