-- ===== src/Release/Ledger/Supersession.antt =====
-- `prepare_signed_release_supersession` for a caller that hands over the history snapshot. The
-- session is the one that is opened for `ledger_path`, if there is a path, as it stands before the
-- `with` block closes it; the timestamp is the one that the call settles on.
pub mod Effect
use neko_family_proxy.Prelude.{
  ℕ, ◌+◌, String, Bool, true, false, not, ◌&&◌, ◌||◌, Option, none, some, List, [], ◌∷◌, ◌++◌, leb,
  codes, length, Result, Check, ok, err, authority_error, reconciliation_required,
  provenance_required, value_error, raise_if, ◌>>=◌, ◌>>◌, ◌==◌, ◌!=◌, string_eq, nat_eq,
  if◌then◌else◌,
}
use neko_family_proxy.Updater.Json.{Json, text, object, canonical_json_dumps}
use neko_family_proxy.Updater.Json.Equal.{json_eq}
use neko_family_proxy.Release.Ledger.{
  LifecycleStatus, reserved, signed, published, failed, retired, status_eq, ProductionBinding,
  LedgerEvent, VerifiedLedger, event_members, extended,
}
use neko_family_proxy.Release.Ledger.Lifecycle.{last_of, events_of}
use neko_family_proxy.Release.Ledger.Verify.{LedgerPlatform}
use neko_family_proxy.Release.Ledger.Session.{Session, read_verified, append}
use neko_family_proxy.Release.Ledger.Reconcile.{
  HistorySnapshot, ReconciledAuthority, find_key, elem, reconcile,
}

pub record SupersedeRequest : Type 0 where
  pub sequence : ℕ
  pub release_id : String
  pub source_commit : String
  pub component_set_sha256 : String
  pub payload_sha256 : String
  pub envelope_sha256 : String
  pub latest_ledger_entry_sha256 : String
  pub approved_spec_commit : String
  pub reason_code : String

pub record PreparedSupersession : Type 0 where
  pub event : LedgerEvent
  pub proposed_entry_sha256 : String
  pub current_ledger_head_sha256 : String
  pub next_unused_sequence : ℕ
  pub mutated : Bool
  pub reconciled_authority : ReconciledAuthority

-- `SupersedeSignedReleaseRequest.__post_init__`
unfoldable pub check_request : SupersedeRequest → Check
check_request r = do
  raise_if (leb r.sequence 0) (value_error "sequence must be positive int")
  raise_if (r.release_id == "") (value_error "release_id must be non-empty str")
  raise_if (length (codes r.source_commit) != 40) (value_error "source_commit must be 40-char hex")
  raise_if
      (length (codes r.component_set_sha256) != 32 && length (codes r.component_set_sha256) != 64)
      (value_error "component_set_sha256 must be hex digest")
  raise_if (length (codes r.payload_sha256) != 64)
      (value_error "payload_sha256 must be 64-char hex")
  raise_if (length (codes r.envelope_sha256) != 64)
      (value_error "envelope_sha256 must be 64-char hex")
  raise_if (length (codes r.latest_ledger_entry_sha256) != 64)
      (value_error "latest_ledger_entry_sha256 must be 64-char hex")
  raise_if
      (not (
        leb 7 (length (codes r.approved_spec_commit))
        && leb (length (codes r.approved_spec_commit)) 40))
      (value_error "approved_spec_commit must be commit SHA")
  raise_if (r.reason_code != "ARCHITECTURE_SUPERSEDED_BEFORE_PUBLICATION")
      (value_error "reason_code must be ARCHITECTURE_SUPERSEDED_BEFORE_PUBLICATION")

-- the status of the newest event; only SIGNED goes on
unfoldable pub check_latest : LifecycleStatus → Check
check_latest signed = ok tt
check_latest published = err (reconciliation_required "release is already PUBLISHED")
check_latest failed = err (authority_error "release is already in terminal FAILED state")
check_latest retired = err (authority_error "release is in terminal RETIRED state")
check_latest reserved = err (authority_error "expected state SIGNED")

-- `next((e for e in reversed(seq_events) if e.status == "SIGNED"), None)`
unfoldable pub newest_signed : List LedgerEvent → Option LedgerEvent
newest_signed [] = none
newest_signed (e ∷ rest) = elim (newest_signed rest) [
  | some later ↦ some later
  | none ↦ if e.status == signed then some e else none
]

-- the SIGNED event that the request can supersede
unfoldable pub find_signed : List LedgerEvent → Result LedgerEvent
find_signed [] = err (authority_error "No ledger events found")
find_signed (first ∷ rest) = do
  check_latest ((last_of first rest).status)
  elim (newest_signed (first ∷ rest)) [
    | some e ↦ ok e
    | none ↦ err (authority_error "No SIGNED event found")
  ]

unfoldable pub check_signed_identity : SupersedeRequest → LedgerEvent → Check
check_signed_identity r e = do
  raise_if (e.release_id != r.release_id) (reconciliation_required "release_id mismatch")
  raise_if (e.source_commit != r.source_commit) (provenance_required "source_commit mismatch")
  raise_if (e.component_set_sha256 != r.component_set_sha256)
      (reconciliation_required "component_set_sha256 mismatch")
  raise_if (e.payload_sha256 != text r.payload_sha256)
      (reconciliation_required "payload_sha256 mismatch")
  raise_if (e.envelope_sha256 != text r.envelope_sha256)
      (reconciliation_required "envelope_sha256 mismatch")

unfoldable pub check_custody : SupersedeRequest → HistorySnapshot → Check
check_custody r snapshot = do
  raise_if (elem r.sequence snapshot.live_updates_sequences)
      (reconciliation_required "present in live updates")
  elim (find_key r.sequence snapshot.bindings_by_sequence) [
    | none ↦ ok tt
    | some b ↦ do
      raise_if (b.release_id != r.release_id)
          (reconciliation_required "Custody release_id mismatch")
      raise_if (b.payload_sha256 != r.payload_sha256)
          (reconciliation_required "Custody payload_sha256 mismatch")
      raise_if (b.envelope_sha256 != r.envelope_sha256)
          (reconciliation_required "Custody envelope_sha256 mismatch")
  ]

unfoldable pub failed_event : ℕ → LedgerEvent → String → String → LedgerEvent
failed_event seq e timestamp head = record e {
  sequence = seq;
  status = failed;
  timestamp = timestamp;
  previous_entry_sha256 = head;
}

module _ (platform : LedgerPlatform) where
  open platform use {sha256_hex}

  unfoldable pub current_ledger : Option Session → Option VerifiedLedger → Result VerifiedLedger
  current_ledger (some session) given = read_verified platform session
  current_ledger none (some ledger) = ok ledger
  current_ledger none none =
      err (authority_error "Either ledger_path or verified_ledger must be provided")

  -- the checks, and the event that they allow
  unfoldable pub plan_failure :
      VerifiedLedger
      → SupersedeRequest
      → HistorySnapshot
      → Bool
      → String
      → Result PreparedSupersession
  plan_failure ledger r snapshot mutate timestamp = do
    raise_if (ledger.latest_entry_sha256 != r.latest_ledger_entry_sha256)
        (reconciliation_required "Stale ledger head")
    signed_one ← find_signed (events_of r.sequence ledger.events)
    check_signed_identity r signed_one
    check_custody r snapshot
    let event = failed_event r.sequence signed_one timestamp ledger.latest_entry_sha256
    body_bytes ← canonical_json_dumps (object (event_members event))
    let proposed = sha256_hex body_bytes
    reconciled ← reconcile (extended ledger event proposed) snapshot
    raise_if (leb reconciled.next_unused_sequence r.sequence)
        (reconciliation_required "failed to record_event next_unused_sequence")
    ok (record {
      event = event;
      proposed_entry_sha256 = proposed;
      current_ledger_head_sha256 = ledger.latest_entry_sha256;
      next_unused_sequence = reconciled.next_unused_sequence;
      mutated = mutate;
      reconciled_authority = reconciled;
    })

  -- the write of `mutate`
  unfoldable pub commit_failure : Option Session → LedgerEvent → String → Result (Option Session)
  commit_failure none event head =
      err (authority_error "Session lock must be held to mutate ledger")
  commit_failure (some session) event head = do
    raise_if (not session.is_locked) (authority_error "Session lock must be held to mutate ledger")
    written ← append platform session event head
    ok (some (written.1))

  unfoldable pub prepare_signed_release_supersession :
      SupersedeRequest
      → Option Session
      → Option VerifiedLedger
      → HistorySnapshot
      → Bool
      → String
      → Result (PreparedSupersession × Option Session)
  prepare_signed_release_supersession r session given snapshot mutate timestamp = do
    ledger ← current_ledger session given
    plan ← plan_failure ledger r snapshot mutate timestamp
    after ←
        (if mutate
          then commit_failure session plan.event ledger.latest_entry_sha256
          else ok session)
    ok (plan, after)
