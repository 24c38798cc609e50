-- ===== src/Release/Ledger/Tests.antt =====
-- The ledger's theorems at concrete files.
use neko_family_proxy.Prelude.{
  text_lt, ◌++◌, ℕ, ◌<◌, ◌≡◌, refl, String, Bool, true, false, none, some, [], ◌∷◌, arith, ok,
  list_beq,
}
use neko_family_proxy.Updater.Frame.Words.{Bytes}
use neko_family_proxy.Updater.Json.{
  text, Members, canonical_json_dumps, canonical_json_loads, insert_row, joined, encode, utf8,
  utf8_char, digits, quoted, escape_all, escape, get,
}
use neko_family_proxy.Updater.Json.Equal.{json_beq}
use neko_family_proxy.Release.Ledger.{
  reserved, signed, failed, LedgerEvent, VerifiedLedger, genesis_members, event_members, entry_of,
  extended, production_beq, ProductionBinding,
}
use neko_family_proxy.Release.Ledger.Lifecycle.{
  allowed, last_of, check_allocation, check_next, check_history, check_signed_fields,
  check_unchanged, events_of, signed_of,
}
use neko_family_proxy.Release.Ledger.Verify.{
  history_of, fields_of, sign_event, accept_event, status_of, required, optional, above, int_of,
  str_of, timestamp_of, str_at, unwrap, unwrap_document, read_entry, read_floor, read_genesis,
  read_event, verify_line, verify_lines, read_first_line, verify_all, verify_ledger,
}
use neko_family_proxy.Release.Ledger.Lines.{split_from, splitlines, ends_line, with_line_feed}
use neko_family_proxy.Release.Ledger.Session.{
  content, Session, check_append, record_line, initialize_genesis, read_verified, append,
}
use neko_family_proxy.Release.Ledger.Session.RoundTrip.{
  append-read_verified, initialize_genesis-read_verified,
}
use neko_family_proxy.Release.Ledger.Histories.{IsLife, statuses}
use neko_family_proxy.Release.Ledger.Histories.Verified.{verify_ledger-IsLife}
use neko_family_proxy.Release.Ledger.Reconcile.{
  find_key, elem, latest_sequence_state, insert, sequences_above, check_ledger_sequences,
  check_floor, check_floor_provenance, check_auth_binding, pending_action, check_sequence,
  note_recovery, check_bindings, has_signature, largest, max_default, reconcile, authority_of,
}
use neko_family_proxy.Release.Ledger.Reconcile.Unused.{reconcile-unused, check_append-reserved}
use neko_family_proxy.Release.Ledger.Reconcile.Agreement.{Agrees, IsAdmitted, reconcile-Agrees}
use neko_family_proxy.Release.Ledger.Reconcile.Pending.{recoveries, reconcile-recoveries}
use neko_family_proxy.Release.Ledger.Reconcile.Exact.{reconcile-exact}
use neko_family_proxy.Release.Ledger.Supersession.{
  PreparedSupersession, check_latest, newest_signed, find_signed, check_signed_identity,
  check_custody, failed_event, current_ledger, plan_failure, commit_failure,
  prepare_signed_release_supersession,
}
use neko_family_proxy.Release.Ledger.Supersession.Effect.{
  supersession-extends, supersession-dry_run,
}
use neko_family_proxy.Release.Ledger.Samples.{
  floor_binding, genesis, reservation, signature, failure, platform, genesis_line, reservation_line,
  failure_line, empty_session, new_session, session, ledger, history, request,
}

genesis_record : record_line platform (genesis_members genesis) ≡ ok (genesis_line, "g0")
unfolding record_line canonical_json_dumps genesis_members encode insert_row joined text_lt utf8
    utf8_char digits quoted escape_all escape list_beq
genesis_record = refl

reservation_record : record_line platform (event_members reservation) ≡ ok (reservation_line, "r1")
unfolding record_line canonical_json_dumps event_members encode insert_row joined text_lt utf8
    utf8_char digits quoted escape_all escape list_beq genesis_members
reservation_record = refl

failure_record : record_line platform (event_members failure) ≡ ok (failure_line, "f3")
unfolding record_line canonical_json_dumps event_members encode insert_row joined text_lt utf8
    utf8_char digits quoted escape_all escape list_beq genesis_members
failure_record = refl

-- The parser finds each of the records in its line.
genesis_read : platform.loads genesis_line ≡ some (entry_of (genesis_members genesis) "g0")
unfolding canonical_json_dumps event_members encode insert_row joined text_lt utf8 utf8_char digits
    quoted escape_all escape list_beq genesis_members
genesis_read = refl

reservation_read :
    platform.loads reservation_line ≡ some (entry_of (event_members reservation) "r1")
unfolding canonical_json_dumps event_members encode insert_row joined text_lt utf8 utf8_char digits
    quoted escape_all escape list_beq genesis_members
reservation_read = refl

failure_read : platform.loads failure_line ≡ some (entry_of (event_members failure) "f3")
unfolding canonical_json_dumps event_members encode insert_row joined text_lt utf8 utf8_char digits
    quoted escape_all escape list_beq genesis_members
failure_read = refl

reads_back :
    (body : Members) (sha : String) (written : Bytes)
    → record_line platform body ≡ ok (written, sha)
    → platform.loads written ≡ some (entry_of body sha)
    → (line : Bytes) → record_line platform body ≡ ok (line, sha)
    → platform.loads line ≡ some (entry_of body sha)
reads_back body sha written w k line h =
    let same : written ≡ line = ground (arith, w, h) in rw (← same) k

initialized : initialize_genesis platform empty_session genesis ≡ ok ("g0", new_session)
unfolding initialize_genesis
initialized = rw genesis_record refl

initialize_genesis-read_verified_example :
    (read_verified platform new_session
      ≡ ok (record { genesis = genesis; events = []; latest_entry_sha256 = "g0" }))
    × (ends_line (content new_session.file) ≡ true)
initialize_genesis-read_verified_example =
    initialize_genesis-read_verified platform empty_session new_session genesis "g0"
      (reads_back (genesis_members genesis) "g0" genesis_line genesis_record genesis_read)
      initialized

sample_verified : verify_ledger platform session.file ≡ ok ledger
unfolding verify_ledger splitlines split_from verify_all read_first_line verify_lines verify_line
    read_entry unwrap_document unwrap read_genesis read_floor read_event required optional above
    int_of str_of str_at timestamp_of status_of accept_event check_history check_allocation
    check_next allowed last_of check_signed_fields check_unchanged history_of fields_of sign_event
    json_beq get canonical_json_loads canonical_json_dumps encode insert_row joined text_lt utf8
    utf8_char digits quoted escape_all escape list_beq genesis_members event_members
sample_verified = refl

sample_read : read_verified platform session ≡ ok ledger
unfolding read_verified
sample_read = rw sample_verified refl

verify_ledger-IsLife_example : IsLife (events_of 8 ledger.events)
verify_ledger-IsLife_example = verify_ledger-IsLife platform session.file ledger sample_verified 8

sample_reconciled : reconcile ledger history ≡ ok (authority_of ledger history none)
unfolding reconcile check_floor check_floor_provenance find_key production_beq json_beq
    sequences_above insert check_ledger_sequences latest_sequence_state check_bindings
    check_sequence check_auth_binding pending_action elem note_recovery
sample_reconciled = refl

reconcile-unused_example :
    (7 < (authority_of ledger history none).next_unused_sequence)
    × (events_of ((authority_of ledger history none).next_unused_sequence) ledger.events ≡ [])
    × (find_key
          ((authority_of ledger history none).next_unused_sequence)
          history.bindings_by_sequence
        ≡ none)
reconcile-unused_example =
    reconcile-unused ledger history (authority_of ledger history none) sample_reconciled

abbrev next_reservation : LedgerEvent
next_reservation = record reservation { sequence = 9; previous_entry_sha256 = "s2" }

nine : 9 ≡ (authority_of ledger history none).next_unused_sequence
unfolding max_default largest
nine = refl

check_append-reserved_example : check_append ledger next_reservation "s2" ≡ ok tt
check_append-reserved_example =
    check_append-reserved ledger history (authority_of ledger history none) next_reservation
      sample_reconciled nine refl refl

reconcile-recoveries_example : recoveries ledger history history.bindings_by_sequence ≡ []
reconcile-recoveries_example =
    reconcile-recoveries ledger history (authority_of ledger history none) sample_reconciled

sample_latest : latest_sequence_state 8 ledger.events ≡ some signature
unfolding latest_sequence_state
sample_latest = refl

reconcile-Agrees_example :
    (find_key 7 history.bindings_by_sequence ≡ some floor_binding)
    × ((seq : ℕ) (b : ProductionBinding)
        → find_key seq history.bindings_by_sequence ≡ some b
        → 7 < seq
        → (state : LedgerEvent) × (latest_sequence_state seq ledger.events ≡ some state)
          × Agrees b state
          × IsAdmitted state (elem seq history.live_updates_sequences))
    × ((seq : ℕ) (state : LedgerEvent)
        → latest_sequence_state seq ledger.events ≡ some state
        → 7 < seq
        → has_signature state.status ≡ true
        → (b : ProductionBinding) × (find_key seq history.bindings_by_sequence ≡ some b))
reconcile-Agrees_example =
    reconcile-Agrees ledger history (authority_of ledger history none) sample_reconciled

reconcile-exact_example :
    (b : ProductionBinding) × (find_key 8 history.bindings_by_sequence ≡ some b)
    × (b.release_id ≡ "r8")
    × (text "p8" ≡ text b.payload_sha256)
    × (text "e8" ≡ text b.envelope_sha256)
    × (text "k" ≡ text b.key_id)
reconcile-exact_example =
    reconcile-exact platform session.file ledger history (authority_of ledger history none) 8
      signature sample_verified sample_reconciled sample_latest (omega arith) refl

new_read :
    read_verified platform new_session
    ≡ ok (record { genesis = genesis; events = []; latest_entry_sha256 = "g0" })
new_read =
    (initialize_genesis-read_verified platform empty_session new_session genesis "g0"
      (reads_back (genesis_members genesis) "g0" genesis_line genesis_record genesis_read)
      initialized).0

abbrev reserved_session : Session
reserved_session = record {
  is_locked = true;
  file = some (with_line_feed genesis_line ++ with_line_feed reservation_line);
}

appended : append platform new_session reservation "g0" ≡ ok ("r1", reserved_session)
unfolding append check_append check_history check_unchanged check_signed_fields events_of signed_of
appended = rw (new_read, reservation_record) refl

new_ends : ends_line (content new_session.file) ≡ true
unfolding canonical_json_dumps event_members encode insert_row joined text_lt utf8 utf8_char digits
    quoted escape_all escape list_beq genesis_members
new_ends = refl

session_ends : ends_line (content session.file) ≡ true
unfolding canonical_json_dumps event_members encode insert_row joined text_lt utf8 utf8_char digits
    quoted escape_all escape list_beq genesis_members
session_ends = refl

append-read_verified_example :
    (before : VerifiedLedger) × (read_verified platform new_session ≡ ok before)
    × (read_verified platform reserved_session ≡ ok (extended before reservation "r1"))
    × (ends_line (content reserved_session.file) ≡ true)
append-read_verified_example =
    append-read_verified platform new_session reserved_session reservation "g0" "r1" new_ends
      (reads_back (event_members reservation) "r1" reservation_line reservation_record
        reservation_read)
      appended

abbrev after_failure : VerifiedLedger
after_failure = extended ledger failure "f3"

abbrev failed_session : Session
failed_session = record {
  is_locked = true;
  file = some (content session.file ++ with_line_feed failure_line);
}

abbrev planned : Bool → PreparedSupersession
planned mutate = record {
  event = failure;
  proposed_entry_sha256 = "f3";
  current_ledger_head_sha256 = "s2";
  next_unused_sequence = (authority_of after_failure history none).next_unused_sequence;
  mutated = mutate;
  reconciled_authority = authority_of after_failure history none;
}

failure_appended : append platform session failure "s2" ≡ ok ("f3", failed_session)
unfolding append check_append check_history check_allocation check_next allowed last_of
    check_unchanged check_signed_fields events_of signed_of json_beq
failure_appended = rw (sample_read, failure_record) refl

failure_reconciled : reconcile after_failure history ≡ ok (authority_of after_failure history none)
unfolding reconcile check_floor check_floor_provenance find_key production_beq json_beq
    sequences_above insert check_ledger_sequences latest_sequence_state check_bindings
    check_sequence check_auth_binding pending_action elem note_recovery
failure_reconciled = refl

failure_planned : plan_failure platform ledger request history true "t3" ≡ ok (planned true)
unfolding plan_failure find_signed check_latest newest_signed last_of check_signed_identity
    check_custody failed_event events_of json_beq find_key elem canonical_json_dumps event_members
    genesis_members encode insert_row joined text_lt utf8 utf8_char digits quoted escape_all escape
    list_beq max_default largest
failure_planned = rw failure_reconciled refl

failure_prepared :
    prepare_signed_release_supersession platform request (some session) none history true "t3"
    ≡ ok (planned true, some failed_session)
unfolding prepare_signed_release_supersession current_ledger commit_failure
failure_prepared = rw (sample_read, failure_planned, failure_appended) refl

supersession-extends_example :
    (before : VerifiedLedger) × (session' : Session) × (some failed_session ≡ some session')
    × (read_verified platform session ≡ ok before)
    × (read_verified platform session' ≡ ok (extended before failure "f3"))
    × (statuses (events_of 8 ((extended before failure "f3").events))
        ≡ reserved ∷ signed ∷ failed ∷ [])
    × (8 < (planned true).next_unused_sequence)
supersession-extends_example =
    supersession-extends platform request session none history "t3" (planned true)
      (some failed_session) session_ends
      (reads_back (event_members failure) "f3" failure_line failure_record failure_read)
      failure_prepared

supersession-dry_run_example :
    prepare_signed_release_supersession platform request (some session) none history false "t3"
    ≡ ok (planned false, some session)
supersession-dry_run_example =
    supersession-dry_run platform request session none history "t3" (planned true)
      (some failed_session) failure_prepared
