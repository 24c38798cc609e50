-- ===== src/Release/Ledger/Samples.antt =====
-- A ledger of three lines, and a platform whose parser and digest are tables of them.
use neko_family_proxy.Prelude.{
  ◌++◌, String, true, none, some, [], ◌∷◌, ok, err, ◌==◌, nat_eq, list_eq, if◌then◌else◌,
}
use neko_family_proxy.Updater.Frame.Words.{Bytes}
use neko_family_proxy.Updater.Json.{Json, null, text, object, Members, canonical_json_dumps}
use neko_family_proxy.Release.Ledger.{
  reserved, signed, failed, ProductionBinding, Genesis, LedgerEvent, VerifiedLedger,
  genesis_members, event_members, entry_of,
}
use neko_family_proxy.Release.Ledger.Verify.{LedgerPlatform}
use neko_family_proxy.Release.Ledger.Lines.{with_line_feed}
use neko_family_proxy.Release.Ledger.Session.{Session}
use neko_family_proxy.Release.Ledger.Reconcile.{HistorySnapshot}
use neko_family_proxy.Release.Ledger.Supersession.{SupersedeRequest}

abbrev pub floor_binding : ProductionBinding
floor_binding = record {
  sequence = 7;
  release_id = "r7";
  payload_sha256 = "p7";
  envelope_sha256 = "e7";
  key_id = "k";
}

abbrev pub genesis : Genesis
genesis = record {
  floor_binding = floor_binding;
  floor_provenance_source_commit = null;
  timestamp = "t0";
}

abbrev pub reservation : LedgerEvent
reservation = record {
  sequence = 8;
  release_id = "r8";
  status = reserved;
  version = "1.1";
  channel = "stable";
  source_commit = "c8";
  component_set_sha256 = "s8";
  payload_sha256 = null;
  envelope_sha256 = null;
  key_id = null;
  timestamp = "t1";
  previous_entry_sha256 = "g0";
}

abbrev pub signature : LedgerEvent
signature = record reservation {
  status = signed;
  payload_sha256 = text "p8";
  envelope_sha256 = text "e8";
  key_id = text "k";
  timestamp = "t2";
  previous_entry_sha256 = "r1";
}

abbrev pub failure : LedgerEvent
failure = record signature { status = failed; timestamp = "t3"; previous_entry_sha256 = "s2" }

abbrev pub printed : Json → Bytes
printed v = elim (canonical_json_dumps v) [ ok raw ↦ raw | err e ↦ [] ]

abbrev pub line_of : Members → String → Bytes
line_of body sha = printed (entry_of body sha)

abbrev pub platform : LedgerPlatform
platform = record {
  loads = λ raw.
      if raw == line_of (genesis_members genesis) "g0"
      then some (entry_of (genesis_members genesis) "g0")
      else if raw == line_of (event_members reservation) "r1"
      then some (entry_of (event_members reservation) "r1")
      else if raw == line_of (event_members signature) "s2"
      then some (entry_of (event_members signature) "s2")
      else if raw == line_of (event_members failure) "f3"
      then some (entry_of (event_members failure) "f3")
      else none;
  sha256_hex = λ raw.
      if raw == printed (object (genesis_members genesis))
      then "g0"
      else if raw == printed (object (event_members reservation))
      then "r1"
      else if raw == printed (object (event_members signature))
      then "s2"
      else "f3";
  int_of_text = λ s. none;
  str_of_value = λ v. "";
}

abbrev pub genesis_line : Bytes
genesis_line = line_of (genesis_members genesis) "g0"

abbrev pub reservation_line : Bytes
reservation_line = line_of (event_members reservation) "r1"

abbrev pub signature_line : Bytes
signature_line = line_of (event_members signature) "s2"

abbrev pub failure_line : Bytes
failure_line = line_of (event_members failure) "f3"

abbrev pub empty_session : Session
empty_session = record { is_locked = true; file = none }

abbrev pub new_session : Session
new_session = record { is_locked = true; file = some (with_line_feed genesis_line) }

abbrev pub session : Session
session = record {
  is_locked = true;
  file = some (
      with_line_feed genesis_line
      ++ (with_line_feed reservation_line ++ with_line_feed signature_line));
}

abbrev pub ledger : VerifiedLedger
ledger = record {
  genesis = genesis;
  events = reservation ∷ signature ∷ [];
  latest_entry_sha256 = "s2";
}

abbrev pub binding : ProductionBinding
binding = record {
  sequence = 8;
  release_id = "r8";
  payload_sha256 = "p8";
  envelope_sha256 = "e8";
  key_id = "k";
}

abbrev pub history : HistorySnapshot
history = record {
  bindings_by_sequence = (7, floor_binding) ∷ (8, binding) ∷ [];
  provenance_source_commit_by_sequence = (8, text "c8") ∷ [];
  live_updates_sequences = [];
  highest_authenticated_sequence = 8;
  authenticated_bindings_sha256 = "b";
  snapshot_sha256 = "h";
}

abbrev pub request : SupersedeRequest
request = record {
  sequence = 8;
  release_id = "r8";
  source_commit = "c8";
  component_set_sha256 = "s8";
  payload_sha256 = "p8";
  envelope_sha256 = "e8";
  latest_ledger_entry_sha256 = "s2";
  approved_spec_commit = "a";
  reason_code = "ARCHITECTURE_SUPERSEDED_BEFORE_PUBLICATION";
}
