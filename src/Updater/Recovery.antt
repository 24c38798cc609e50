-- ===== src/Updater/Recovery.antt =====
-- launcher/src/neko_launcher/updater/recovery_engine.py. The file system enters as what the two slot
-- files hold, which release directories exist, and the identity of a scratch directory; the random
-- probation ids are an argument, one for each round. Slot files are read and written whole: an
-- `OSError` on a read is an absent slot. A failed write and the `error` text of a result are left out.
pub mod Rank
pub mod Steps
pub mod Converge
use neko_family_proxy.Prelude.{
  ℕ, zero, suc, ◌+◌, String, Bool, true, false, not, ◌&&◌, ◌||◌, Option, none, some, List, [], ◌∷◌,
  ◌++◌, Result, ok, err, value_error, other_error, ◌>>=◌, ◌==◌, string_eq, if◌then◌else◌,
}
use neko_family_proxy.Updater.Json.{text}
use neko_family_proxy.Updater.Models.{
  Phase, idle, preparing, quiescing, probation, rolling_back, cleaning, CleanupTarget, incoming,
  staging, RollbackMode, precommit, postcommit, RollbackStep, Generation, DirectoryIdentity,
  Transaction, Cleanup, Rollback, State,
}
use neko_family_proxy.Updater.Models.Equality.{cleanup_target_eq, rollback_mode_eq}
use neko_family_proxy.Updater.Models.Checks.{make_state, make_rollback}
use neko_family_proxy.Updater.Models.Prune.{prune_unreferenced_evidence}
use neko_family_proxy.Updater.Frame.Words.{Bytes}
use neko_family_proxy.Updater.Frame.{pack_slot_frame}
use neko_family_proxy.Updater.Platform.{Platform}
use neko_family_proxy.Updater.Selector.{
  SelectionStatus, selected, SlotName, slot_a, slot_b, SelectionResult, select_active_slot,
}
use neko_family_proxy.Updater.Selector.Write.{frame_of, other_slot}
use neko_family_proxy.Updater.Abort.{execute_precommit_abort}
use neko_family_proxy.Updater.Rollback.{initiate_postcommit_rollback, scratch_of}

-- `incoming/<request_id>` or `staging/<transaction_id>`
abbrev pub ScratchPath : Type 0
ScratchPath = CleanupTarget × String

pub record Machine : Type 0 where
  -- `(root / "releases" / "g-...").exists()`
  pub release_exists : Generation → Bool
  -- the identity of a scratch directory; `none` if it is absent or cannot be opened
  pub directory_at : ScratchPath → Option DirectoryIdentity
  -- `secrets.token_hex(16)` in a round
  pub token : ℕ → String

pub record Disk : Type 0 where
  pub file_a : Option Bytes
  pub file_b : Option Bytes
  -- the directories that `shutil.rmtree` was called on
  pub removed : List ScratchPath

pub data RecoveryStatus : Type 0 where
  old_fully_restored repair_required enrollment_incomplete unknown_phase : RecoveryStatus

pub record RecoveryResult : Type 0 where
  pub converged : Bool
  pub status : RecoveryStatus
  pub selected_generation : Option Generation
  pub mutations_performed : ℕ
  pub final_state : Option State

-- What a round does with the selected state: return, or write a next state.
pub data Decision : Type 0 where
  finish : RecoveryResult → Decision
  write : State → Decision

abbrev pub restored : State → ℕ → Decision
restored s mutations = finish (record {
  converged = true;
  status = old_fully_restored;
  selected_generation = s.committed;
  mutations_performed = mutations;
  final_state = some s;
})

abbrev pub failed : RecoveryStatus → Option State → ℕ → RecoveryResult
failed status final mutations = record {
  converged = false;
  status = status;
  selected_generation = none;
  mutations_performed = mutations;
  final_state = final;
}

-- CLEANING: the state after the cleanup queue was processed
abbrev pub cleaned_state : State → State
cleaned_state s = record {
  schema_version = 1;
  revision = s.revision + 1;
  installation_id = s.installation_id;
  helper_protocol = s.helper_protocol;
  enrollment_complete = s.enrollment_complete;
  phase = idle;
  committed = s.committed;
  previous = s.previous;
  highwater = s.highwater;
  observed = s.observed;
  failed = s.failed;
  transaction = none;
  cleanup = none;
  rollback = none;
  last_error = s.last_error;
  evidence = s.evidence;
}

abbrev pub probation_id_of : Option Transaction → String
probation_id_of none = "00000000000000000000000000000000"
probation_id_of (some t) = t.id

abbrev pub recovery_rollback : Generation → Option Transaction → Rollback
recovery_rollback target transaction = record {
  mode = precommit;
  target = target;
  probation_id = probation_id_of transaction;
  scratch = [];
  step = RollbackStep.restore_intent;
}

-- QUIESCING and PROBATION: a precommit rollback to the committed generation
abbrev pub interrupted_state : State → Rollback → State
interrupted_state s rb = record {
  schema_version = 1;
  revision = s.revision + 1;
  installation_id = s.installation_id;
  helper_protocol = s.helper_protocol;
  enrollment_complete = s.enrollment_complete;
  phase = rolling_back;
  committed = s.committed;
  previous = s.previous;
  highwater = s.highwater;
  observed = s.observed;
  failed = s.observed;
  transaction = none;
  cleanup = none;
  rollback = some rb;
  last_error = text "RECOVERY_ROLLBACK";
  evidence = s.evidence;
}

abbrev pub rollback_target : State → Option Rollback → Option Generation
rollback_target s none = s.committed
rollback_target s (some rb) = some rb.target

abbrev pub rollback_previous : State → Option Rollback → Option Generation
rollback_previous s none = s.previous
rollback_previous s (some rb) = if rb.mode == postcommit then none else s.previous

-- ROLLING_BACK: the completed rollback
abbrev pub completed_state : State → State
completed_state s = record {
  schema_version = 1;
  revision = s.revision + 1;
  installation_id = s.installation_id;
  helper_protocol = s.helper_protocol;
  enrollment_complete = s.enrollment_complete;
  phase = idle;
  committed = rollback_target s s.rollback;
  previous = rollback_previous s s.rollback;
  highwater = s.highwater;
  observed = s.observed;
  failed = s.failed;
  transaction = none;
  cleanup = none;
  rollback = none;
  last_error = s.last_error;
  evidence = s.evidence;
}

-- `State(...)` and then `prune_unreferenced_evidence`
unfoldable pub pruned_write : State → Result Decision
pruned_write s = do built ← make_state s; next ← prune_unreferenced_evidence built; ok (write next)

module _ (machine : Machine) where
  open machine use {release_exists, directory_at, token}

  abbrev pub present : Option Generation → Bool
  present none = true
  present (some g) = release_exists g

  abbrev pub write_of : Result State → Result Decision
  write_of r = do s ← r; ok (write s)

  unfoldable pub missing_release : ℕ → State → Option Generation → Result Decision
  missing_release mutations s none = ok (finish (failed repair_required (some s) mutations))
  missing_release mutations s (some g) =
      write_of (initiate_postcommit_rollback s "CORRUPT_COMMITTED" (token mutations))

  unfoldable pub decide_idle : ℕ → State → Result Decision
  decide_idle mutations s =
      if present s.committed
      then ok (restored s mutations)
      else missing_release mutations s s.previous

  unfoldable pub decide_interrupted : ℕ → State → Option Generation → Result Decision
  decide_interrupted mutations s none = ok (finish (failed repair_required (some s) mutations))
  decide_interrupted mutations s (some target) = do
    rb ← make_rollback (recovery_rollback target s.transaction)
    pruned_write (interrupted_state s rb)

  -- the dispatch on `state.phase`
  unfoldable pub decide_phase : Phase → ℕ → State → Result Decision
  decide_phase idle mutations s = decide_idle mutations s
  decide_phase preparing mutations s = write_of (execute_precommit_abort s "RECOVERY_ABORT")
  decide_phase cleaning mutations s = pruned_write (cleaned_state s)
  decide_phase quiescing mutations s = decide_interrupted mutations s s.committed
  decide_phase probation mutations s = decide_interrupted mutations s s.committed
  decide_phase rolling_back mutations s = pruned_write (completed_state s)
  decide_phase _ mutations s = ok (finish (failed unknown_phase (some s) mutations))

  unfoldable pub decide_next : ℕ → State → Result Decision
  decide_next mutations s = decide_phase s.phase mutations s

  abbrev pub scratch_path : Cleanup → ScratchPath
  scratch_path item = elim item.target [
    | incoming ↦ (incoming, item.request_id)
    | staging ↦ (staging, item.transaction_id)
  ]

  abbrev pub same_directory : Option DirectoryIdentity → DirectoryIdentity → Bool
  same_directory none recorded = false
  same_directory (some actual) recorded =
      actual.volume_serial == recorded.volume_serial && actual.file_id == recorded.file_id

  abbrev pub is_gone : List ScratchPath → ScratchPath → Bool
  is_gone [] path = false
  is_gone (p ∷ removed) path = (p.0 == path.0 && p.1 == path.1) || is_gone removed path

  -- the loop over the cleanup queue: the directories that are removed, of which one that is removed
  -- already does not exist any more
  unfoldable pub sweep : List ScratchPath → List Cleanup → List ScratchPath
  sweep removed [] = removed
  sweep removed (item ∷ rest) =
      let path = scratch_path item in
      let found = not (is_gone removed path) && same_directory (directory_at path) item.directory in
      sweep (if found then path ∷ removed else removed) rest

  abbrev pub swept : Phase → State → List ScratchPath
  swept cleaning s = sweep [] (scratch_of s.cleanup)
  swept _ s = []

  module _ (platform : Platform) where
    abbrev pub write_slot : Disk → SlotName → Bytes → Disk
    write_slot d slot_a raw = record d { file_a = some raw }
    write_slot d slot_b raw = record d { file_b = some raw }

    -- A round passes the new disk on to the rounds that are left.
    unfoldable pub act :
        (Disk → ℕ → Result (Option RecoveryResult))
        → Disk
        → ℕ
        → SlotName
        → Decision
        → Result (Option RecoveryResult)
    act rounds d mutations active (finish r) = ok (some r)
    act rounds d mutations active (write next) = do
      raw ← pack_slot_frame platform.sha256 (frame_of platform next)
      rounds (write_slot d (other_slot active) raw) (mutations + 1)

    unfoldable pub resume :
        (Disk → ℕ → Result (Option RecoveryResult))
        → Disk
        → ℕ
        → Option State
        → Option SlotName
        → Result (Option RecoveryResult)
    resume rounds d mutations (some s) (some active) = do
      let cleared = record d { removed = d.removed ++ swept s.phase s }
      decision ← decide_next mutations s
      act rounds cleared mutations active decision
    resume rounds d mutations _ _ = err (other_error "AssertionError")

    unfoldable pub dispatch :
        (Disk → ℕ → Result (Option RecoveryResult))
        → Disk
        → ℕ
        → SelectionStatus
        → SelectionResult
        → Result (Option RecoveryResult)
    dispatch rounds d mutations selected selection =
        resume rounds d mutations selection.state selection.active_slot
    dispatch rounds d mutations SelectionStatus.repair_required selection =
        ok (some (failed repair_required none mutations))
    dispatch rounds d mutations SelectionStatus.enrollment_incomplete selection =
        ok (some (failed enrollment_incomplete none mutations))

    -- `while True`, with fuel; `none` means that the fuel ran out.
    unfoldable pub run_recovery : ℕ → Disk → ℕ → Result (Option RecoveryResult)
    run_recovery zero d mutations = ok none
    run_recovery (suc fuel) d mutations = do
      selection ← select_active_slot platform d.file_a d.file_b
      dispatch (run_recovery fuel) d mutations selection.status selection
