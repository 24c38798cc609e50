-- ===== src/Updater/Rollback.antt =====
-- launcher/src/neko_launcher/updater/rollback_controller.py. The random `secrets.token_hex(16)` is
-- the argument `probation_id`.
pub mod Initiate
pub mod Complete
use neko_family_proxy.Prelude.{
  ◌+◌, String, Bool, not, ◌||◌, Option, none, some, List, [], ◌∷◌, Result, ok, err, value_error,
  raise_if, ◌>>=◌, ◌>>◌, ◌!=◌, ◌==◌,
}
use neko_family_proxy.Updater.Json.{text}
use neko_family_proxy.Updater.Models.{
  Phase, idle, cleaning, rolling_back, postcommit, RollbackStep, Generation, Cleanup, Rollback,
  State,
}
use neko_family_proxy.Updater.Models.Equality.{phase_eq, rollback_step_eq}
use neko_family_proxy.Updater.Models.Checks.{make_state, make_rollback}
use neko_family_proxy.Updater.Models.Prune.{prune_unreferenced_evidence}
use neko_family_proxy.Updater.Transition.{validate_transition}
use neko_family_proxy.Updater.Abort.{phase_after, queue_after}

-- `list(cleanup) if cleanup is not None else []`
abbrev pub scratch_of : Option (List Cleanup) → List Cleanup
scratch_of none = []
scratch_of (some q) = q

abbrev pub rollback_record : Generation → String → List Cleanup → Rollback
rollback_record target probation_id scratch = record {
  mode = postcommit;
  target = target;
  probation_id = probation_id;
  scratch = scratch;
  step = RollbackStep.drain_intent;
}

abbrev pub rolling_back_state : State → String → Rollback → State
rolling_back_state current error_code rb = record {
  schema_version = 1;
  revision = current.revision + 1;
  installation_id = current.installation_id;
  helper_protocol = current.helper_protocol;
  enrollment_complete = current.enrollment_complete;
  phase = rolling_back;
  committed = current.committed;
  previous = current.previous;
  highwater = current.highwater;
  observed = current.observed;
  failed = current.observed;
  transaction = none;
  cleanup = none;
  rollback = some rb;
  last_error = text error_code;
  evidence = current.evidence;
}

unfoldable pub initiate_to : Option Generation → State → String → String → Result State
initiate_to none current error_code probation_id =
    err (value_error "Postcommit rollback requires non-null previous generation")
initiate_to (some previous) current error_code probation_id = do
  rb ← make_rollback (rollback_record previous probation_id (scratch_of current.cleanup))
  built ← make_state (rolling_back_state current error_code rb)
  next ← prune_unreferenced_evidence built
  validate_transition current next
  ok next

unfoldable pub initiate_postcommit_rollback : State → String → String → Result State
initiate_postcommit_rollback current error_code probation_id = do
  raise_if (not (current.phase == idle || current.phase == cleaning))
      (value_error "Postcommit rollback only valid from IDLE or CLEANING phase")
  initiate_to current.previous current error_code probation_id

abbrev pub restored_state : State → Rollback → State
restored_state current rb = record {
  schema_version = 1;
  revision = current.revision + 1;
  installation_id = current.installation_id;
  helper_protocol = current.helper_protocol;
  enrollment_complete = current.enrollment_complete;
  phase = phase_after rb.scratch;
  committed = some rb.target;
  previous = none;
  highwater = current.highwater;
  observed = current.observed;
  failed = current.failed;
  transaction = none;
  cleanup = queue_after rb.scratch;
  rollback = none;
  last_error = current.last_error;
  evidence = current.evidence;
}

unfoldable pub complete_with : Option Rollback → State → Result State
complete_with none current =
    err (value_error "State must be in ROLLING_BACK phase with active rollback record")
complete_with (some rb) current = do
  raise_if (rb.step != RollbackStep.restore_done)
      (value_error "Rollback selection requires RESTORE_DONE step")
  built ← make_state (restored_state current rb)
  next ← prune_unreferenced_evidence built
  validate_transition current next
  ok next

unfoldable pub complete_postcommit_rollback_selection : State → Result State
complete_postcommit_rollback_selection current = do
  raise_if (current.phase != rolling_back)
      (value_error "State must be in ROLLING_BACK phase with active rollback record")
  complete_with current.rollback current
