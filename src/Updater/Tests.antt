-- ===== src/Updater/Tests.antt =====
-- The updater's theorems at concrete states.
use neko_family_proxy.Prelude.{
  ◌≡◌, ◌↔◌, refl, inl, true, none, some, [], ◌∷◌, arith, ok, err, frame_corrupt, length, String,
}
use neko_family_proxy.Updater.Models.{repair_required, State}
use neko_family_proxy.Updater.Models.Checks.{is_hex}
use neko_family_proxy.Updater.Models.Valid.{IsValid, Every}
use neko_family_proxy.Updater.Transition.{
  validate_transition, check_revision, is_initial_enrolling, check_highwater, check_observed,
  check_same_sequence, check_phases, check_matrix,
}
use neko_family_proxy.Updater.Transition.Legal.{Legal}
use neko_family_proxy.Updater.Transition.Decide.{validate_transition-iff-Legal}
use neko_family_proxy.Updater.Transition.Chain.{
  start, write, Kept, Chain-Kept, Chain-repair_required,
}
use neko_family_proxy.Updater.Frame.Words.{Bytes}
use neko_family_proxy.Updater.Frame.{
  slot_frame_size, MarkerFrame, pack_slot_frame, unpack_slot_frame, pack_marker_frame,
  unpack_marker_frame, pack_prefix,
}
use neko_family_proxy.Updater.Frame.RoundTrip.{
  unpack-pack_slot_frame, unpack-pack_marker_frame, pack_slot_frame-ok,
}
use neko_family_proxy.Updater.Selector.{
  slot_a, slot_b, select, sound, select_classes, select_active_slot,
}
use neko_family_proxy.Updater.Selector.Chosen.{Chosen, select_classes-iff-Chosen}
use neko_family_proxy.Updater.Selector.Write.{
  frame_of, IsEncodable, select_at-torn, select_at-written,
}
use neko_family_proxy.Updater.Abort.{execute_precommit_abort}
use neko_family_proxy.Updater.Abort.Laws.{IsAborted, execute_precommit_abort-ok}
use neko_family_proxy.Updater.Rollback.{
  initiate_postcommit_rollback, rollback_record, complete_postcommit_rollback_selection,
}
use neko_family_proxy.Updater.Rollback.Initiate.{IsRollingBack, initiate_postcommit_rollback-ok}
use neko_family_proxy.Updater.Rollback.Complete.{
  IsRestored, complete_postcommit_rollback_selection-ok,
}
use neko_family_proxy.Updater.Recovery.{Disk, RecoveryResult, run_recovery}
use neko_family_proxy.Updater.Recovery.Converge.{written, IsAt, Ends, run_recovery-Ends}
use neko_family_proxy.Updater.Models.Checks.{check_state, check_evidence, assert_hex, is_hex}
use neko_family_proxy.Updater.Models.Prune.{prune_unreferenced_evidence}
use neko_family_proxy.Updater.Models.Prune.References.{Pruned, prune_unreferenced_evidence-Pruned}
use neko_family_proxy.Updater.Successor.{settled}
use neko_family_proxy.Updater.Selector.{authenticate_evidence}
use neko_family_proxy.Updater.Selector.Authentic.{authenticate-settled}
use neko_family_proxy.Updater.Samples.{
  id_2, binding_1, generation_of, interrupted, aborted, updated, restoring, restore, platform,
  machine, checksum_of, checksum_size_of,
}
use neko_family_proxy.Updater.Samples.Facts.{
  interrupted-IsValid, updated-IsValid, restoring-IsValid, aborted-IsEncodable, at_rest-IsEncodable,
  interrupted_raw, aborted_raw, aborted_is_next, written_after,
}

abbrev interrupted_file : Bytes
interrupted_file = interrupted_raw.0

abbrev aborted_file : Bytes
aborted_file = aborted_raw.0

-- the disk on which the interrupted update was the last state written
abbrev disk : Disk
disk = record { file_a = some interrupted_file; file_b = none; removed = [] }

empty_is_torn : unpack_slot_frame checksum_of [] ≡ err (frame_corrupt "Invalid frame size")
unfolding unpack_slot_frame
empty_is_torn = refl

no_raw :
    (raw : Bytes)
    → none ≡ some raw
    → (m : String) × (unpack_slot_frame checksum_of raw ≡ err (frame_corrupt m))
no_raw raw e = absurd (ground arith)

empty_raw :
    (raw : Bytes)
    → some [] ≡ some raw
    → (m : String) × (unpack_slot_frame checksum_of raw ≡ err (frame_corrupt m))
empty_raw [] e = ("Invalid frame size", empty_is_torn)
empty_raw (n ∷ rest) e = absurd (ground arith)

disk-IsAt : IsAt platform disk slot_a interrupted
disk-IsAt = record {
  raw = interrupted_file;
  file = refl;
  holds = interrupted_raw.1;
  selects =
      select_at-torn platform slot_a interrupted interrupted_file none interrupted_raw.1 no_raw;
}

id_2-is_hex : is_hex 32 id_2 ≡ true
unfolding is_hex
id_2-is_hex = refl

all_written : Every (IsEncodable platform) (written machine 5 0 interrupted)
all_written = rw written_after (aborted-IsEncodable, (at_rest-IsEncodable, tt))

run_recovery-Ends_example :
    (r : RecoveryResult) × (run_recovery machine platform 5 disk 0 ≡ ok (some r))
    × Ends machine interrupted r
run_recovery-Ends_example =
    run_recovery-Ends machine platform (λ k. id_2-is_hex) 5 0 disk slot_a interrupted (omega arith)
      disk-IsAt tt all_written

validate_transition-iff-Legal_example :
    (validate_transition interrupted aborted ≡ ok tt) ↔ Legal interrupted aborted
validate_transition-iff-Legal_example = validate_transition-iff-Legal interrupted aborted

select_classes-iff-Chosen_example :
    (select_classes platform (sound interrupted 5) (sound aborted 6) ≡ select aborted slot_b)
    ↔ Chosen platform (sound interrupted 5) (sound aborted 6) slot_b aborted
select_classes-iff-Chosen_example =
    select_classes-iff-Chosen platform (sound interrupted 5) (sound aborted 6) aborted slot_b

Chain-Kept_example : Kept interrupted aborted
Chain-Kept_example = Chain-Kept (write start aborted_is_next)

select_at-written_example :
    select_active_slot platform (some interrupted_file) (some aborted_file)
    ≡ ok (select aborted slot_b)
select_at-written_example =
    select_at-written platform slot_a interrupted aborted interrupted_file aborted_file
      interrupted_raw.1 aborted_raw.1 refl aborted_is_next

select_at-torn_example :
    select_active_slot platform (some interrupted_file) (some []) ≡ ok (select interrupted slot_a)
select_at-torn_example =
    select_at-torn platform slot_a interrupted interrupted_file (some []) interrupted_raw.1
      empty_raw

unpack-pack_slot_frame_example :
    unpack_slot_frame checksum_of interrupted_file ≡ ok (frame_of platform interrupted)
unpack-pack_slot_frame_example =
    unpack-pack_slot_frame checksum_of (frame_of platform interrupted) interrupted_file
      checksum_size_of interrupted_raw.1.packed

pack_slot_frame-ok_example :
    (raw : Bytes) × (pack_slot_frame checksum_of (frame_of platform interrupted) ≡ ok raw)
    × (length raw ≡ slot_frame_size)
pack_slot_frame-ok_example =
    pack_slot_frame-ok checksum_of (frame_of platform interrupted) checksum_size_of (omega arith)
      (omega arith) refl (omega arith) (omega arith)

abbrev marker : MarkerFrame
marker = record { format_version = 1; body_bytes = 7 ∷ [] }

marker_raw : (raw : Bytes) × (pack_marker_frame checksum_of marker ≡ ok raw)
unfolding pack_marker_frame pack_prefix
marker_raw = (_, refl)

unpack-pack_marker_frame_example : unpack_marker_frame checksum_of marker_raw.0 ≡ ok marker
unpack-pack_marker_frame_example =
    unpack-pack_marker_frame checksum_of marker marker_raw.0 checksum_size_of marker_raw.1

abbrev broken : State
broken = record interrupted { phase = repair_required }

abbrev still_broken : State
still_broken = record broken { revision = 6 }

broken_is_next : validate_transition broken still_broken ≡ ok tt
unfolding validate_transition check_revision is_initial_enrolling check_highwater check_observed
    check_same_sequence check_phases check_matrix
broken_is_next = refl

Chain-repair_required_example : still_broken.phase ≡ repair_required
Chain-repair_required_example = Chain-repair_required (write start broken_is_next) refl

execute_precommit_abort-ok_example :
    (n : State) × (execute_precommit_abort interrupted "RECOVERY_ABORT" ≡ ok n)
    × IsAborted interrupted "RECOVERY_ABORT" n
    × IsValid n
execute_precommit_abort-ok_example =
    execute_precommit_abort-ok interrupted "RECOVERY_ABORT" interrupted-IsValid refl

initiate_postcommit_rollback-ok_example :
    (n : State) × (initiate_postcommit_rollback updated "CORRUPT_COMMITTED" id_2 ≡ ok n)
    × IsRollingBack updated "CORRUPT_COMMITTED"
        (rollback_record (generation_of binding_1) id_2 [])
        n
    × IsValid n
initiate_postcommit_rollback-ok_example =
    initiate_postcommit_rollback-ok updated "CORRUPT_COMMITTED" id_2 (generation_of binding_1)
      updated-IsValid (inl refl) refl id_2-is_hex

complete_postcommit_rollback_selection-ok_example :
    (n : State) × (complete_postcommit_rollback_selection restoring ≡ ok n)
    × IsRestored restoring restore n
    × IsValid n
complete_postcommit_rollback_selection-ok_example =
    complete_postcommit_rollback_selection-ok restoring restore restoring-IsValid refl refl refl
      refl

-- an installation that has no backup any more, with the envelope of the release before
abbrev alone : State
alone = record updated { previous = none }

alone-check : check_state alone ≡ ok tt
unfolding check_state check_evidence assert_hex is_hex
alone-check = refl

prune_unreferenced_evidence-Pruned_example :
    (t : State) × (prune_unreferenced_evidence alone ≡ ok t) × Pruned alone t
prune_unreferenced_evidence-Pruned_example = prune_unreferenced_evidence-Pruned alone alone-check

authenticate-settled_example :
    authenticate_evidence platform (settled interrupted)
    ≡ authenticate_evidence platform interrupted
authenticate-settled_example = authenticate-settled platform interrupted
