-- ===== src/Release/Ledger/Lifecycle.antt =====
-- The checks on an event against the earlier events of its sequence, as `verify_ledger` and
-- `SequenceAuthoritySession.append` make them.
use neko_family_proxy.Prelude.{
  ℕ, Bool, true, false, not, ◌&&◌, ◌||◌, Option, none, some, List, [], ◌∷◌, Check, ok,
  authority_error, raise_if, ◌>>◌, ◌==◌, ◌!=◌, string_eq, nat_eq, if◌then◌else◌,
}
use neko_family_proxy.Updater.Json.{
  Json, null, boolean, number, negative, floating, text, array, object, no_items, item, no_members,
  member,
}
use neko_family_proxy.Updater.Json.Equal.{json_eq}
use neko_family_proxy.Release.Ledger.{
  LifecycleStatus, reserved, signed, published, failed, retired, status_eq, LedgerEvent,
}

-- `_ALLOWED_STATUS_TRANSITIONS`
unfoldable pub allowed : LifecycleStatus → LifecycleStatus → Bool
allowed reserved signed = true
allowed reserved failed = true
allowed signed published = true
allowed signed failed = true
allowed published retired = true
allowed _ _ = false

-- `bool(v)`; a float is refused before this is asked
abbrev pub truthy : Json → Bool
truthy null = false
truthy (boolean b) = b
truthy (number n) = n != 0
truthy (negative n) = true
truthy (floating s) = true
truthy (text s) = s != ""
truthy (array no_items) = false
truthy (array (item v xs)) = true
truthy (object no_members) = false
truthy (object (member k v ms)) = true

-- `history[-1]`
unfoldable pub last_of : LedgerEvent → List LedgerEvent → LedgerEvent
last_of first [] = first
last_of first (e ∷ rest) = last_of e rest

unfoldable pub check_allocation : LedgerEvent → LedgerEvent → Check
check_allocation first event = do
  raise_if (event.release_id != first.release_id) (authority_error "release_id changed")
  raise_if (event.version != first.version) (authority_error "version changed")
  raise_if (event.channel != first.channel) (authority_error "channel changed")
  raise_if (event.source_commit != first.source_commit) (authority_error "source_commit changed")
  raise_if (event.component_set_sha256 != first.component_set_sha256)
      (authority_error "component_set_sha256 changed")

unfoldable pub check_next : LedgerEvent → LedgerEvent → Check
check_next last event =
    raise_if (not (allowed last.status event.status)) (authority_error "Illegal status transition")

-- the checks against the events of the sequence so far
unfoldable pub check_history : List LedgerEvent → LedgerEvent → Check
check_history [] event =
    raise_if (event.status != reserved) (authority_error "First event must be RESERVED")
check_history (first ∷ rest) event = do
  check_allocation first event
  check_next (last_of first rest) event

unfoldable pub check_signed_fields : LedgerEvent → Check
check_signed_fields event =
    raise_if
      (event.status == signed
        && (not (truthy event.payload_sha256)
            || not (truthy event.envelope_sha256)
            || not (truthy event.key_id)))
      (authority_error "SIGNED event missing payload_sha256, envelope_sha256, or key_id")

pub record SignedFields : Type 0 where
  pub payload_sha256 : Json
  pub envelope_sha256 : Json
  pub key_id : Json

abbrev pub signed_fields : LedgerEvent → SignedFields
signed_fields e = record {
  payload_sha256 = e.payload_sha256;
  envelope_sha256 = e.envelope_sha256;
  key_id = e.key_id;
}

unfoldable pub check_unchanged : Option SignedFields → LedgerEvent → Check
check_unchanged none event = ok tt
check_unchanged (some f) event = do
  raise_if (event.payload_sha256 != f.payload_sha256)
      (authority_error "payload_sha256 changed after SIGNED")
  raise_if (event.envelope_sha256 != f.envelope_sha256)
      (authority_error "envelope_sha256 changed after SIGNED")
  raise_if (event.key_id != f.key_id) (authority_error "key_id changed after SIGNED")

-- the events of a sequence, in their order
unfoldable pub events_of : ℕ → List LedgerEvent → List LedgerEvent
events_of seq [] = []
events_of seq (e ∷ rest) =
    let others = events_of seq rest in if e.sequence == seq then e ∷ others else others

-- the fields of the first SIGNED event
unfoldable pub signed_of : List LedgerEvent → Option SignedFields
signed_of [] = none
signed_of (e ∷ rest) =
    let others = signed_of rest in if e.status == signed then some (signed_fields e) else others
