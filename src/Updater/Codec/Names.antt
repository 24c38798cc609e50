-- ===== src/Updater/Codec/Names.antt =====
-- The texts of the `Literal` types of state_models.py.
use neko_family_proxy.Prelude.{String, ◌≡◌, refl, List, [], ◌∷◌, ok, string_eq}
use neko_family_proxy.Updater.Json.{text}
use neko_family_proxy.Updater.Models.{
  Phase, MutationKind, MutationTarget, MutationStatus, TransactionStage, CleanupTarget,
  CleanupStatus, RollbackMode, RollbackStep,
}
use neko_family_proxy.Updater.Codec.{choice_of}

abbrev pub phase_text : Phase → String
phase_text Phase.enrolling = "ENROLLING"
phase_text Phase.idle = "IDLE"
phase_text Phase.preparing = "PREPARING"
phase_text Phase.quiescing = "QUIESCING"
phase_text Phase.probation = "PROBATION"
phase_text Phase.rolling_back = "ROLLING_BACK"
phase_text Phase.cleaning = "CLEANING"
phase_text Phase.repair_required = "REPAIR_REQUIRED"

abbrev pub phase_names : List (String × Phase)
phase_names =
    ("ENROLLING", Phase.enrolling)
    ∷ ("IDLE", Phase.idle)
    ∷ ("PREPARING", Phase.preparing)
    ∷ ("QUIESCING", Phase.quiescing)
    ∷ ("PROBATION", Phase.probation)
    ∷ ("ROLLING_BACK", Phase.rolling_back)
    ∷ ("CLEANING", Phase.cleaning)
    ∷ ("REPAIR_REQUIRED", Phase.repair_required)
    ∷ []

pub phase_names-text : (a : Phase) → choice_of phase_names (text (phase_text a)) ≡ ok a
phase_names-text Phase.enrolling = refl
phase_names-text Phase.idle = refl
phase_names-text Phase.preparing = refl
phase_names-text Phase.quiescing = refl
phase_names-text Phase.probation = refl
phase_names-text Phase.rolling_back = refl
phase_names-text Phase.cleaning = refl
phase_names-text Phase.repair_required = refl

abbrev pub kind_text : MutationKind → String
kind_text MutationKind.create_stage = "CREATE_STAGE"
kind_text MutationKind.write_candidate = "WRITE_CANDIDATE"
kind_text MutationKind.publish_generation = "PUBLISH_GENERATION"
kind_text MutationKind.stop_old = "STOP_OLD"
kind_text MutationKind.start_probation = "START_PROBATION"

abbrev pub kind_names : List (String × MutationKind)
kind_names =
    ("CREATE_STAGE", MutationKind.create_stage)
    ∷ ("WRITE_CANDIDATE", MutationKind.write_candidate)
    ∷ ("PUBLISH_GENERATION", MutationKind.publish_generation)
    ∷ ("STOP_OLD", MutationKind.stop_old)
    ∷ ("START_PROBATION", MutationKind.start_probation)
    ∷ []

pub kind_names-text : (a : MutationKind) → choice_of kind_names (text (kind_text a)) ≡ ok a
kind_names-text MutationKind.create_stage = refl
kind_names-text MutationKind.write_candidate = refl
kind_names-text MutationKind.publish_generation = refl
kind_names-text MutationKind.stop_old = refl
kind_names-text MutationKind.start_probation = refl

abbrev pub mutation_target_text : MutationTarget → String
mutation_target_text MutationTarget.stage = "stage"
mutation_target_text MutationTarget.generation = "generation"
mutation_target_text MutationTarget.old_process_family = "old_process_family"
mutation_target_text MutationTarget.candidate_process_family = "candidate_process_family"

abbrev pub mutation_target_names : List (String × MutationTarget)
mutation_target_names =
    ("stage", MutationTarget.stage)
    ∷ ("generation", MutationTarget.generation)
    ∷ ("old_process_family", MutationTarget.old_process_family)
    ∷ ("candidate_process_family", MutationTarget.candidate_process_family)
    ∷ []

pub mutation_target_names-text :
    (a : MutationTarget) → choice_of mutation_target_names (text (mutation_target_text a)) ≡ ok a
mutation_target_names-text MutationTarget.stage = refl
mutation_target_names-text MutationTarget.generation = refl
mutation_target_names-text MutationTarget.old_process_family = refl
mutation_target_names-text MutationTarget.candidate_process_family = refl

abbrev pub mutation_status_text : MutationStatus → String
mutation_status_text MutationStatus.intent = "INTENT"
mutation_status_text MutationStatus.done = "DONE"

abbrev pub mutation_status_names : List (String × MutationStatus)
mutation_status_names = ("INTENT", MutationStatus.intent) ∷ ("DONE", MutationStatus.done) ∷ []

pub mutation_status_names-text :
    (a : MutationStatus) → choice_of mutation_status_names (text (mutation_status_text a)) ≡ ok a
mutation_status_names-text MutationStatus.intent = refl
mutation_status_names-text MutationStatus.done = refl

abbrev pub stage_text : TransactionStage → String
stage_text TransactionStage.admitted = "ADMITTED"
stage_text TransactionStage.building = "BUILDING"
stage_text TransactionStage.verified = "VERIFIED"
stage_text TransactionStage.quiescing = "QUIESCING"
stage_text TransactionStage.probation = "PROBATION"

abbrev pub stage_names : List (String × TransactionStage)
stage_names =
    ("ADMITTED", TransactionStage.admitted)
    ∷ ("BUILDING", TransactionStage.building)
    ∷ ("VERIFIED", TransactionStage.verified)
    ∷ ("QUIESCING", TransactionStage.quiescing)
    ∷ ("PROBATION", TransactionStage.probation)
    ∷ []

pub stage_names-text : (a : TransactionStage) → choice_of stage_names (text (stage_text a)) ≡ ok a
stage_names-text TransactionStage.admitted = refl
stage_names-text TransactionStage.building = refl
stage_names-text TransactionStage.verified = refl
stage_names-text TransactionStage.quiescing = refl
stage_names-text TransactionStage.probation = refl

abbrev pub cleanup_target_text : CleanupTarget → String
cleanup_target_text CleanupTarget.incoming = "incoming"
cleanup_target_text CleanupTarget.staging = "staging"

abbrev pub cleanup_target_names : List (String × CleanupTarget)
cleanup_target_names =
    ("incoming", CleanupTarget.incoming) ∷ ("staging", CleanupTarget.staging) ∷ []

pub cleanup_target_names-text :
    (a : CleanupTarget) → choice_of cleanup_target_names (text (cleanup_target_text a)) ≡ ok a
cleanup_target_names-text CleanupTarget.incoming = refl
cleanup_target_names-text CleanupTarget.staging = refl

abbrev pub cleanup_status_text : CleanupStatus → String
cleanup_status_text CleanupStatus.intent = "INTENT"
cleanup_status_text CleanupStatus.done = "DONE"
cleanup_status_text CleanupStatus.skipped = "SKIPPED"

abbrev pub cleanup_status_names : List (String × CleanupStatus)
cleanup_status_names =
    ("INTENT", CleanupStatus.intent)
    ∷ ("DONE", CleanupStatus.done)
    ∷ ("SKIPPED", CleanupStatus.skipped)
    ∷ []

pub cleanup_status_names-text :
    (a : CleanupStatus) → choice_of cleanup_status_names (text (cleanup_status_text a)) ≡ ok a
cleanup_status_names-text CleanupStatus.intent = refl
cleanup_status_names-text CleanupStatus.done = refl
cleanup_status_names-text CleanupStatus.skipped = refl

abbrev pub mode_text : RollbackMode → String
mode_text RollbackMode.precommit = "precommit"
mode_text RollbackMode.postcommit = "postcommit"

abbrev pub mode_names : List (String × RollbackMode)
mode_names = ("precommit", RollbackMode.precommit) ∷ ("postcommit", RollbackMode.postcommit) ∷ []

pub mode_names-text : (a : RollbackMode) → choice_of mode_names (text (mode_text a)) ≡ ok a
mode_names-text RollbackMode.precommit = refl
mode_names-text RollbackMode.postcommit = refl

abbrev pub step_text : RollbackStep → String
step_text RollbackStep.drain_intent = "DRAIN_INTENT"
step_text RollbackStep.drain_done = "DRAIN_DONE"
step_text RollbackStep.restore_intent = "RESTORE_INTENT"
step_text RollbackStep.restore_done = "RESTORE_DONE"

abbrev pub step_names : List (String × RollbackStep)
step_names =
    ("DRAIN_INTENT", RollbackStep.drain_intent)
    ∷ ("DRAIN_DONE", RollbackStep.drain_done)
    ∷ ("RESTORE_INTENT", RollbackStep.restore_intent)
    ∷ ("RESTORE_DONE", RollbackStep.restore_done)
    ∷ []

pub step_names-text : (a : RollbackStep) → choice_of step_names (text (step_text a)) ≡ ok a
step_names-text RollbackStep.drain_intent = refl
step_names-text RollbackStep.drain_done = refl
step_names-text RollbackStep.restore_intent = refl
step_names-text RollbackStep.restore_done = refl
