-- ===== src/Release/Ledger/Session.antt =====
-- `SequenceAuthoritySession` without the operating system's lock: whether the lock is held, and the
-- bytes of the file.
pub mod Records
pub mod Files
pub mod Tracking
pub mod Appended
pub mod RoundTrip
use neko_family_proxy.Prelude.{
  ℕ, String, Bool, true, false, not, Option, none, some, List, [], ◌∷◌, ◌++◌, leb, Result, Check,
  ok, err, authority_error, raise_if, ◌>>=◌, ◌>>◌, ◌==◌, ◌!=◌, string_eq, nat_eq, if◌then◌else◌,
}
use neko_family_proxy.Updater.Frame.Words.{Bytes}
use neko_family_proxy.Updater.Json.{Json, object, Members, canonical_json_dumps}
use neko_family_proxy.Release.Ledger.{
  Genesis, LedgerEvent, VerifiedLedger, genesis_members, event_members, entry_of,
}
use neko_family_proxy.Release.Ledger.Lifecycle.{
  check_history, check_signed_fields, check_unchanged, events_of, signed_of,
}
use neko_family_proxy.Release.Ledger.Lines.{with_line_feed}
use neko_family_proxy.Release.Ledger.Verify.{LedgerPlatform, verify_ledger}

pub record Session : Type 0 where
  pub is_locked : Bool
  pub file : Option Bytes

-- the bytes that are in the file when it is opened for appending
abbrev pub content : Option Bytes → Bytes
content none = []
content (some raw) = raw

-- the checks that `append` makes on the event, in its order
unfoldable pub check_append : VerifiedLedger → LedgerEvent → String → Check
check_append ledger event expected = do
  raise_if (expected != ledger.latest_entry_sha256) (authority_error "Stale previous entry digest")
  raise_if (event.previous_entry_sha256 != expected)
      (authority_error "Event previous_entry_sha256 does not match expected")
  raise_if (leb event.sequence ledger.genesis.floor_binding.sequence)
      (authority_error "Event sequence must be greater than genesis floor")
  let earlier = events_of event.sequence ledger.events
  check_history earlier event
  check_unchanged (signed_of earlier) event
  check_signed_fields event

module _ (platform : LedgerPlatform) where
  open platform use {sha256_hex}

  -- the line of a record and its digest
  unfoldable pub record_line : Members → Result (Bytes × String)
  record_line body = do
    body_bytes ← canonical_json_dumps (object body)
    let sha = sha256_hex body_bytes
    line ← canonical_json_dumps (entry_of body sha)
    ok (line, sha)

  unfoldable pub read_verified : Session → Result VerifiedLedger
  read_verified session = do
    raise_if (not session.is_locked) (authority_error "Session lock is not held")
    verify_ledger platform session.file

  unfoldable pub append : Session → LedgerEvent → String → Result (String × Session)
  append session event expected = do
    ledger ← read_verified session
    check_append ledger event expected
    entry ← record_line (event_members event)
    ok (entry.1, record session { file = some (content session.file ++ with_line_feed (entry.0)) })

  unfoldable pub initialize_genesis : Session → Genesis → Result (String × Session)
  initialize_genesis session genesis = do
    raise_if (not session.is_locked) (authority_error "Session lock must be held")
    raise_if (elim session.file [ some (b ∷ rest) ↦ true | _ ↦ false ])
        (authority_error "Ledger file already has records")
    raise_if (leb genesis.floor_binding.sequence 0)
        (authority_error "Genesis floor sequence must be positive")
    entry ← record_line (genesis_members genesis)
    ok (entry.1, record session { file = some (with_line_feed (entry.0)) })
