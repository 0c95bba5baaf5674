-- ===== src/Node/Rotation.antt =====
-- The rotation of a peer's X25519 key (`handle_incoming_rotation` of core/src/node/mod.rs), which
-- the dispatcher does not call. `decode` is base64 and JSON.
pub mod Applied
pub mod Replay
use onde_resilience.Prelude.{
  ℕ, ◌≤◌, ◌<◌, ◌≡◌, ◌≢◌, ◌⊎◌, refl, ap, sym, ◌∙◌, String, Bool, true, false, ◌&&◌, not, inl, inr,
  Option, none, some, List, [], ◌∷◌, arith, if◌then◌else◌, leb, ◌==◌, length, str_eq, eq_iff,
  Bool-cases, Option-cases,
}
use onde_resilience.Prelude.Assoc.{Assoc, lookup, lookup_or, insert, lookup-insert}
use onde_resilience.Prelude.Sets.{SetOrder}
use onde_resilience.Prelude.Result.{Result, ok, err, Result-cases}
use onde_resilience.Prelude.Utf8.{as_bytes}
use onde_resilience.Protocol.{OndeMessageType, MeshEvent}
use onde_resilience.Protocol.Validate.{Crates, signature_valid}
use onde_resilience.Reputation.{Float, is_trusted}
use onde_resilience.Reputation.Gate.{add_event_with_reputation}
use onde_resilience.Social.{all_hexdigits}
use onde_resilience.Node.{Node, RotationPayload}

pub data RotationError : Type 0 where
  undecoded : String → RotationError
  no_key unverified untrusted duplicate_key : RotationError
  stale : ℕ → RotationError

pub data RotationOutcome : Type 0 where
  ignored applied : RotationOutcome
  rejected : RotationError → RotationOutcome

unfoldable pub is_rotation : OndeMessageType → Bool
is_rotation OndeMessageType.identity_rotation = true
is_rotation _ = false

abbrev pub count_of : Option ℕ → ℕ
count_of none = 0
count_of (some count) = count

-- The announced key, if it is 64 hexadecimal digits.
unfoldable pub announced_key : Option String → Option String
announced_key none = none
announced_key (some k) =
    if length (as_bytes k) == 64 && all_hexdigits (as_bytes k) then some k else none

-- `rotation_count <= last`, where a count is known.
unfoldable pub is_stale : Option ℕ → ℕ → Bool
is_stale none count = false
is_stale (some last) count = leb count last

unfoldable pub is_current : Option String → String → Bool
is_current none key = false
is_current (some k) key = str_eq k key

unfoldable pub apply_rotation : {F : Type 0} → Node F → String → String → ℕ → Node F
apply_rotation n announcer key count =
    let prev = lookup_or "" announcer n.peer_x25519 in
    record n {
      peer_x25519_grace =
          if str_eq prev "" then n.peer_x25519_grace else insert announcer prev n.peer_x25519_grace;
      peer_x25519 = insert announcer key n.peer_x25519;
      peer_rotation_count = insert announcer count n.peer_rotation_count;
    }

module _ {F : Type 0} (float : Float F) (set_order : SetOrder) (crates : Crates)
    (decode : String → Result String RotationPayload) where
  unfoldable pub handle_incoming_rotation : ℕ → Node F → MeshEvent → Node F × RotationOutcome
  handle_incoming_rotation now n e =
      if not (is_rotation e.kind) then (n, ignored) else elim (decode e.content) [
        | err why ↦ (n, rejected (RotationError.undecoded why))
        | ok payload ↦ elim (announced_key payload.x25519) [
          | none ↦ (n, rejected RotationError.no_key)
          | some key ↦
              let count = count_of payload.rotation in
              let after = apply_rotation n e.pubkey key count in
              let relayed =
                (add_event_with_reputation float crates after.reputation now set_order after.gossip
                  e).0 in
              if not (signature_valid crates e)
              then (n, rejected RotationError.unverified)
              else if not (is_trusted float n.reputation e.pubkey)
              then (n, rejected RotationError.untrusted)
              else if is_stale (lookup e.pubkey n.peer_rotation_count) count
              then (n, rejected (RotationError.stale count))
              else if is_current (lookup e.pubkey n.peer_x25519) key
              then (n, rejected RotationError.duplicate_key)
              else (record after { gossip = relayed }, applied)
        ]
      ]

  -- Why a rotation is applied.
  pub record IsRotation (n : Node F) (e : MeshEvent) : Type 0 where
    pub payload : RotationPayload
    pub key : String
    pub of_kind : is_rotation e.kind ≡ true
    pub decoded : decode e.content ≡ ok payload
    pub announced : announced_key payload.x25519 ≡ some key
    pub signed : signature_valid crates e ≡ true
    pub trusted : is_trusted float n.reputation e.pubkey ≡ true
    pub newer : is_stale (lookup e.pubkey n.peer_rotation_count) (count_of payload.rotation) ≡ false
    pub fresh : is_current (lookup e.pubkey n.peer_x25519) key ≡ false
