-- ===== src/Updater/Platform.antt =====
-- What the slot files rest on: the digest, the text form of a state, and the authenticated envelope
-- that an evidence entry opens to under the installation's public keys.
use neko_family_proxy.Prelude.{ℕ, String, ◌≡◌, Option, Result, length}
use neko_family_proxy.Updater.Models.{State}
use neko_family_proxy.Updater.Frame.Words.{Bytes}

-- The parts of a verified `ReleaseSetV2` that the selector reads, and its payload digest.
pub record Envelope : Type 0 where
  pub release_sequence : ℕ
  pub release_id : String
  pub payload_sha256 : String
  pub launcher_identity_sha256 : String
  pub core_identity_sha256 : String

pub record Platform : Type 0 where
  -- `hashlib.sha256(...).digest()`
  pub sha256 : Bytes → Bytes
  pub digest_size : (m : Bytes) → length (sha256 m) ≡ 32
  -- `serialize_state` and `deserialize_state`
  pub serialize_state : State → Bytes
  pub deserialize_state : Bytes → Result State
  -- base64 decoding, canonical JSON and `_verify_envelope`; `none` is any failure of these
  pub open_envelope : String → Option Envelope
