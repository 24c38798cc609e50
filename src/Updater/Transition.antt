-- ===== src/Updater/Transition.antt =====
-- `validate_transition` of launcher/src/neko_launcher/updater/state_machine.py. The body is cut
-- along its numbered comments; the phase matrix (5) has a function for each current phase.
pub mod Entries
pub mod Mirrors
pub mod Admits
pub mod Legal
pub mod Rows
pub mod Decide
pub mod Chain
use neko_family_proxy.Prelude.{
  ℕ, ◌+◌, String, Bool, false, not, ◌&&◌, ◌||◌, Option, none, some, ◌∷◌, ltb, max, Check, ok, err,
  transition_error, raise_if, ◌>>◌, ◌==◌, ◌!=◌, nat_eq, string_eq, bool_eq, option_eq, is_none,
  is_some, if◌then◌else◌,
}
use neko_family_proxy.Updater.Json.Equal.{json_eq}
use neko_family_proxy.Updater.Json.{null}
use neko_family_proxy.Updater.Models.{
  Phase, enrolling, idle, preparing, quiescing, probation, rolling_back, cleaning, repair_required,
  TransactionStage, RollbackMode, precommit, postcommit, Binding, Generation, Transaction, Rollback,
  State,
}
use neko_family_proxy.Updater.Models.Equality.{
  phase_eq, transaction_stage_eq, rollback_mode_eq, binding_eq, generation_eq,
}
use neko_family_proxy.Updater.Models.Evidence.{included, same_keys}
use neko_family_proxy.Updater.Models.Prune.{state_beq}

unfoldable pub is_initial_enrolling : State → State → Bool
is_initial_enrolling current next =
    current.phase == enrolling
    && next.phase == enrolling
    && current.revision == 1
    && next.revision == 1
    && state_beq current next

unfoldable pub check_revision : State → State → Check
check_revision current next =
    raise_if (not (is_initial_enrolling current next) && next.revision != current.revision + 1)
      (transition_error "Revision must increment by exactly 1")

unfoldable pub check_highwater : Option Binding → Option Binding → Check
check_highwater none next = ok tt
check_highwater (some current) none = err (transition_error "Highwater floor cannot be cleared")
check_highwater (some current) (some next) =
    raise_if (ltb next.release_sequence current.release_sequence)
      (transition_error "Highwater floor cannot decrease")

unfoldable pub check_observed : Option Binding → Option Binding → Check
check_observed none next = ok tt
check_observed (some current) none = err (transition_error "Observed floor cannot be cleared")
check_observed (some current) (some next) =
    raise_if (ltb next.release_sequence current.release_sequence)
      (transition_error "Observed floor cannot decrease")

unfoldable pub check_same_sequence : Option Binding → Option Binding → Check
check_same_sequence (some current) (some next) =
    raise_if
      (current.release_sequence == next.release_sequence
        && (current.payload_sha256 != next.payload_sha256 || current.release_id != next.release_id))
      (transition_error "Same-sequence observed binding cannot change payload or release_id")
check_same_sequence _ _ = ok tt

abbrev pub sequence_of : Option Binding → ℕ
sequence_of none = 0
sequence_of (some b) = b.release_sequence

abbrev pub generation_sequence : Option Generation → ℕ
generation_sequence none = 0
generation_sequence (some g) = g.binding.release_sequence

abbrev pub payload_of : Option Binding → String
payload_of none = ""
payload_of (some b) = b.payload_sha256

abbrev pub stage_is : TransactionStage → Option Transaction → Bool
stage_is stage none = false
stage_is stage (some t) = t.stage == stage

abbrev pub mode_is : RollbackMode → Option Rollback → Bool
mode_is mode none = false
mode_is mode (some r) = r.mode == mode

unfoldable pub from_enrolling : State → State → Phase → Check
from_enrolling current next enrolling = ok tt
from_enrolling current next idle =
    raise_if (is_none next.committed || is_none next.highwater)
      (transition_error "IDLE after enrollment requires committed and highwater")
from_enrolling current next np = err (transition_error "Illegal transition from ENROLLING")

-- the guard of the authority admission, up to the comparison with the floor
unfoldable pub admission_shape : State → State → Bool
admission_shape current next =
    current.enrollment_complete
    && next.enrollment_complete
    && next.committed == current.committed
    && next.previous == current.previous
    && next.failed == current.failed
    && is_none next.transaction
    && is_none next.cleanup
    && is_none next.rollback
    && next.last_error == null
    && is_some next.highwater
    && is_some next.observed
    && next.highwater == next.observed

unfoldable pub admission_floor : State → ℕ
admission_floor current =
    max (sequence_of current.highwater) (generation_sequence current.committed)

unfoldable pub check_admission_evidence : State → State → Check
check_admission_evidence current next = do
  raise_if (not (included current.evidence next.evidence))
      (transition_error "Existing evidence entries must be byte-for-byte preserved")
  raise_if (not (same_keys next.evidence ((payload_of next.highwater, "") ∷ current.evidence)))
      (transition_error "Only candidate payload evidence may be added during authority admission")

unfoldable pub idle_to_idle : State → State → Check
idle_to_idle current next =
    if not current.enrollment_complete && next.enrollment_complete
    then ok tt
    else if admission_shape current next
        && ltb (admission_floor current) (sequence_of next.highwater)
    then check_admission_evidence current next
    else err (transition_error "Illegal IDLE -> IDLE transition without enrollment completion")

abbrev pub old_of : Option Transaction → Option Generation
old_of none = none
old_of (some t) = t.old

unfoldable pub from_idle : State → State → Phase → Check
from_idle current next idle = idle_to_idle current next
from_idle current next preparing = do
  raise_if (not (stage_is TransactionStage.admitted next.transaction))
      (transition_error "IDLE -> PREPARING requires transaction in ADMITTED stage")
  raise_if (old_of next.transaction != current.committed)
      (transition_error "Transaction old generation must match current committed")
from_idle current next rolling_back = do
  raise_if (is_none current.previous)
      (transition_error "Postcommit rollback from IDLE requires non-null previous generation")
  raise_if (not (mode_is postcommit next.rollback))
      (transition_error "Rollback from IDLE must be postcommit")
from_idle current next np = err (transition_error "Illegal transition from IDLE")

unfoldable pub precommit_abort : State → State → Check
precommit_abort current next = do
  raise_if (next.committed != current.committed)
      (transition_error "Pre-quiesce abort must preserve committed generation")
  raise_if (next.previous != current.previous)
      (transition_error "Pre-quiesce abort must preserve previous generation")
  raise_if (is_some next.transaction) (transition_error "Pre-quiesce abort must clear transaction")
  raise_if (next.failed != current.observed)
      (transition_error "Pre-quiesce abort must record failed=observed")

unfoldable pub from_preparing : State → State → Phase → Check
from_preparing current next preparing = ok tt
from_preparing current next quiescing =
    raise_if (not (stage_is TransactionStage.verified current.transaction))
      (transition_error "PREPARING -> QUIESCING requires transaction in VERIFIED stage")
from_preparing current next cleaning = precommit_abort current next
from_preparing current next idle = precommit_abort current next
from_preparing current next rolling_back =
    err
      (transition_error "PREPARING before QUIESCING should use pre-quiesce abort to CLEANING/IDLE")
from_preparing current next np = err (transition_error "Illegal transition from PREPARING")

unfoldable pub from_quiescing : State → State → Phase → Check
from_quiescing current next probation = ok tt
from_quiescing current next rolling_back =
    raise_if (not (mode_is precommit next.rollback))
      (transition_error "Rollback from QUIESCING must be precommit")
from_quiescing current next np = err (transition_error "Illegal transition from QUIESCING")

unfoldable pub commit : Option Transaction → State → State → Check
commit none current next =
    err (transition_error "Commit from PROBATION requires active transaction")
commit (some t) current next = do
  raise_if (next.committed != some t.candidate)
      (transition_error "Commit must set committed = candidate")
  raise_if (next.previous != current.committed)
      (transition_error "Commit must set previous = old committed")
  raise_if (is_some next.transaction) (transition_error "Commit must clear transaction")

unfoldable pub from_probation : State → State → Phase → Check
from_probation current next cleaning = commit current.transaction current next
from_probation current next rolling_back =
    raise_if (is_none next.rollback)
      (transition_error "Rollback from PROBATION requires rollback descriptor")
from_probation current next np = err (transition_error "Illegal transition from PROBATION")

unfoldable pub completion_mode : RollbackMode → Generation → State → State → Check
completion_mode precommit target current next = do
  raise_if (next.committed != current.committed)
      (transition_error "Precommit rollback completion must keep committed")
  raise_if (next.previous != current.previous)
      (transition_error "Precommit rollback completion must keep previous")
completion_mode postcommit target current next = do
  raise_if (next.committed != some target)
      (transition_error "Postcommit rollback must set committed = rollback target")
  raise_if (is_some next.previous) (transition_error "Postcommit rollback must set previous = null")

unfoldable pub rollback_completion : Option Rollback → State → State → Check
rollback_completion none current next =
    err (transition_error "ROLLING_BACK completion requires rollback record")
rollback_completion (some r) current next = do
  completion_mode r.mode r.target current next
  raise_if (is_some next.rollback)
      (transition_error "Rollback completion must clear rollback record")

unfoldable pub from_rolling_back : State → State → Phase → Check
from_rolling_back current next rolling_back = ok tt
from_rolling_back current next cleaning = rollback_completion current.rollback current next
from_rolling_back current next idle = rollback_completion current.rollback current next
from_rolling_back current next np = err (transition_error "Illegal transition from ROLLING_BACK")

unfoldable pub from_cleaning : State → State → Phase → Check
from_cleaning current next cleaning = ok tt
from_cleaning current next idle =
    raise_if (is_some next.cleanup) (transition_error "IDLE requires empty/null cleanup queue")
from_cleaning current next rolling_back =
    raise_if (is_none current.previous)
      (transition_error "Rollback from CLEANING requires non-null previous generation")
from_cleaning current next np = err (transition_error "Illegal transition from CLEANING")

unfoldable pub check_matrix : State → State → Phase → Phase → Check
check_matrix current next enrolling np = from_enrolling current next np
check_matrix current next idle np = from_idle current next np
check_matrix current next preparing np = from_preparing current next np
check_matrix current next quiescing np = from_quiescing current next np
check_matrix current next probation np = from_probation current next np
check_matrix current next rolling_back np = from_rolling_back current next np
check_matrix current next cleaning np = from_cleaning current next np
check_matrix current next repair_required np = err (transition_error "Unsupported transition")

unfoldable pub check_phases : State → State → Check
check_phases current next =
    if next.phase == repair_required
    then ok tt
    else check_matrix current next current.phase next.phase

unfoldable pub validate_transition : State → State → Check
validate_transition current next = do
  check_revision current next
  raise_if (next.installation_id != current.installation_id)
      (transition_error "Installation ID is immutable")
  raise_if (next.helper_protocol != current.helper_protocol)
      (transition_error "Helper protocol is immutable")
  check_highwater current.highwater next.highwater
  check_observed current.observed next.observed
  check_same_sequence current.observed next.observed
  check_phases current next
