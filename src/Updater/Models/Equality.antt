-- ===== src/Updater/Models/Equality.antt =====
-- The `==` that `@dataclass` generates for the records of state_models.py: all fields are equal.
-- Each test stays shut, and its law says that it decides equality.
use neko_family_proxy.Prelude.{
  ◌≡◌, ◌↔◌, Bool, true, false, ◌&&◌, arith, Eq, ◌==◌, string_eq, nat_eq, option_eq, list_eq, eq_law,
}
use neko_family_proxy.Updater.Models.{
  Phase, MutationKind, MutationTarget, MutationStatus, TransactionStage, CleanupTarget,
  CleanupStatus, RollbackMode, RollbackStep, Binding, InstalledReleaseSelector, Generation,
  DirectoryIdentity, Mutation, Transaction, Cleanup, Rollback,
}

abbrev pub phase_beq : Phase → Phase → Bool
phase_beq Phase.enrolling Phase.enrolling = true
phase_beq Phase.idle Phase.idle = true
phase_beq Phase.preparing Phase.preparing = true
phase_beq Phase.quiescing Phase.quiescing = true
phase_beq Phase.probation Phase.probation = true
phase_beq Phase.rolling_back Phase.rolling_back = true
phase_beq Phase.cleaning Phase.cleaning = true
phase_beq Phase.repair_required Phase.repair_required = true
phase_beq _ _ = false

pub phase_beq_iff : (a b : Phase) → (phase_beq a b ≡ true) ↔ (a ≡ b)
phase_beq_iff a b = ground arith

instance abbrev pub phase_eq : Eq Phase
phase_eq = record { beq = phase_beq; beq_iff = phase_beq_iff }

abbrev pub mutation_kind_beq : MutationKind → MutationKind → Bool
mutation_kind_beq MutationKind.create_stage MutationKind.create_stage = true
mutation_kind_beq MutationKind.write_candidate MutationKind.write_candidate = true
mutation_kind_beq MutationKind.publish_generation MutationKind.publish_generation = true
mutation_kind_beq MutationKind.stop_old MutationKind.stop_old = true
mutation_kind_beq MutationKind.start_probation MutationKind.start_probation = true
mutation_kind_beq _ _ = false

pub mutation_kind_beq_iff : (a b : MutationKind) → (mutation_kind_beq a b ≡ true) ↔ (a ≡ b)
mutation_kind_beq_iff a b = ground arith

instance abbrev pub mutation_kind_eq : Eq MutationKind
mutation_kind_eq = record { beq = mutation_kind_beq; beq_iff = mutation_kind_beq_iff }

abbrev pub mutation_target_beq : MutationTarget → MutationTarget → Bool
mutation_target_beq MutationTarget.stage MutationTarget.stage = true
mutation_target_beq MutationTarget.generation MutationTarget.generation = true
mutation_target_beq MutationTarget.old_process_family MutationTarget.old_process_family = true
mutation_target_beq MutationTarget.candidate_process_family
      MutationTarget.candidate_process_family =
    true
mutation_target_beq _ _ = false

pub mutation_target_beq_iff : (a b : MutationTarget) → (mutation_target_beq a b ≡ true) ↔ (a ≡ b)
mutation_target_beq_iff a b = ground arith

instance abbrev pub mutation_target_eq : Eq MutationTarget
mutation_target_eq = record { beq = mutation_target_beq; beq_iff = mutation_target_beq_iff }

abbrev pub mutation_status_beq : MutationStatus → MutationStatus → Bool
mutation_status_beq MutationStatus.intent MutationStatus.intent = true
mutation_status_beq MutationStatus.done MutationStatus.done = true
mutation_status_beq _ _ = false

pub mutation_status_beq_iff : (a b : MutationStatus) → (mutation_status_beq a b ≡ true) ↔ (a ≡ b)
mutation_status_beq_iff a b = ground arith

instance abbrev pub mutation_status_eq : Eq MutationStatus
mutation_status_eq = record { beq = mutation_status_beq; beq_iff = mutation_status_beq_iff }

abbrev pub transaction_stage_beq : TransactionStage → TransactionStage → Bool
transaction_stage_beq TransactionStage.admitted TransactionStage.admitted = true
transaction_stage_beq TransactionStage.building TransactionStage.building = true
transaction_stage_beq TransactionStage.verified TransactionStage.verified = true
transaction_stage_beq TransactionStage.quiescing TransactionStage.quiescing = true
transaction_stage_beq TransactionStage.probation TransactionStage.probation = true
transaction_stage_beq _ _ = false

pub transaction_stage_beq_iff :
    (a b : TransactionStage) → (transaction_stage_beq a b ≡ true) ↔ (a ≡ b)
transaction_stage_beq_iff a b = ground arith

instance abbrev pub transaction_stage_eq : Eq TransactionStage
transaction_stage_eq = record { beq = transaction_stage_beq; beq_iff = transaction_stage_beq_iff }

abbrev pub cleanup_target_beq : CleanupTarget → CleanupTarget → Bool
cleanup_target_beq CleanupTarget.incoming CleanupTarget.incoming = true
cleanup_target_beq CleanupTarget.staging CleanupTarget.staging = true
cleanup_target_beq _ _ = false

pub cleanup_target_beq_iff : (a b : CleanupTarget) → (cleanup_target_beq a b ≡ true) ↔ (a ≡ b)
cleanup_target_beq_iff a b = ground arith

instance abbrev pub cleanup_target_eq : Eq CleanupTarget
cleanup_target_eq = record { beq = cleanup_target_beq; beq_iff = cleanup_target_beq_iff }

abbrev pub cleanup_status_beq : CleanupStatus → CleanupStatus → Bool
cleanup_status_beq CleanupStatus.intent CleanupStatus.intent = true
cleanup_status_beq CleanupStatus.done CleanupStatus.done = true
cleanup_status_beq CleanupStatus.skipped CleanupStatus.skipped = true
cleanup_status_beq _ _ = false

pub cleanup_status_beq_iff : (a b : CleanupStatus) → (cleanup_status_beq a b ≡ true) ↔ (a ≡ b)
cleanup_status_beq_iff a b = ground arith

instance abbrev pub cleanup_status_eq : Eq CleanupStatus
cleanup_status_eq = record { beq = cleanup_status_beq; beq_iff = cleanup_status_beq_iff }

abbrev pub rollback_mode_beq : RollbackMode → RollbackMode → Bool
rollback_mode_beq RollbackMode.precommit RollbackMode.precommit = true
rollback_mode_beq RollbackMode.postcommit RollbackMode.postcommit = true
rollback_mode_beq _ _ = false

pub rollback_mode_beq_iff : (a b : RollbackMode) → (rollback_mode_beq a b ≡ true) ↔ (a ≡ b)
rollback_mode_beq_iff a b = ground arith

instance abbrev pub rollback_mode_eq : Eq RollbackMode
rollback_mode_eq = record { beq = rollback_mode_beq; beq_iff = rollback_mode_beq_iff }

abbrev pub rollback_step_beq : RollbackStep → RollbackStep → Bool
rollback_step_beq RollbackStep.drain_intent RollbackStep.drain_intent = true
rollback_step_beq RollbackStep.drain_done RollbackStep.drain_done = true
rollback_step_beq RollbackStep.restore_intent RollbackStep.restore_intent = true
rollback_step_beq RollbackStep.restore_done RollbackStep.restore_done = true
rollback_step_beq _ _ = false

pub rollback_step_beq_iff : (a b : RollbackStep) → (rollback_step_beq a b ≡ true) ↔ (a ≡ b)
rollback_step_beq_iff a b = ground arith

instance abbrev pub rollback_step_eq : Eq RollbackStep
rollback_step_eq = record { beq = rollback_step_beq; beq_iff = rollback_step_beq_iff }

unfoldable pub binding_beq : Binding → Binding → Bool
binding_beq a b =
    a.release_sequence == b.release_sequence
    && a.release_id == b.release_id
    && a.payload_sha256 == b.payload_sha256

pub binding_beq_iff : (a b : Binding) → (binding_beq a b ≡ true) ↔ (a ≡ b)
unfolding binding_beq
binding_beq_iff a b = ground (
  arith,
  eq_law a.release_sequence b.release_sequence,
  eq_law a.release_id b.release_id,
  eq_law a.payload_sha256 b.payload_sha256,
)

instance abbrev pub binding_eq : Eq Binding
binding_eq = record { beq = binding_beq; beq_iff = binding_beq_iff }

unfoldable pub installed_release_selector_beq :
    InstalledReleaseSelector → InstalledReleaseSelector → Bool
installed_release_selector_beq a b =
    a.sequence == b.sequence
    && a.release_id == b.release_id
    && a.version == b.version
    && a.tag_name == b.tag_name
    && a.target_commit == b.target_commit

pub installed_release_selector_beq_iff :
    (a b : InstalledReleaseSelector) → (installed_release_selector_beq a b ≡ true) ↔ (a ≡ b)
unfolding installed_release_selector_beq
installed_release_selector_beq_iff a b = ground (
  arith,
  eq_law a.sequence b.sequence,
  eq_law a.release_id b.release_id,
  eq_law a.version b.version,
  eq_law a.tag_name b.tag_name,
  eq_law a.target_commit b.target_commit,
)

instance abbrev pub installed_release_selector_eq : Eq InstalledReleaseSelector
installed_release_selector_eq = record {
  beq = installed_release_selector_beq;
  beq_iff = installed_release_selector_beq_iff;
}

unfoldable pub generation_beq : Generation → Generation → Bool
generation_beq a b =
    a.binding == b.binding
    && a.launcher_identity_sha256 == b.launcher_identity_sha256
    && a.core_identity_sha256 == b.core_identity_sha256
    && a.selector == b.selector

pub generation_beq_iff : (a b : Generation) → (generation_beq a b ≡ true) ↔ (a ≡ b)
unfolding generation_beq
generation_beq_iff a b = ground (
  arith,
  eq_law a.binding b.binding,
  eq_law a.launcher_identity_sha256 b.launcher_identity_sha256,
  eq_law a.core_identity_sha256 b.core_identity_sha256,
  eq_law a.selector b.selector,
)

instance abbrev pub generation_eq : Eq Generation
generation_eq = record { beq = generation_beq; beq_iff = generation_beq_iff }

unfoldable pub directory_identity_beq : DirectoryIdentity → DirectoryIdentity → Bool
directory_identity_beq a b =
    a.volume_serial == b.volume_serial
    && a.file_id == b.file_id
    && a.parent_file_id == b.parent_file_id

pub directory_identity_beq_iff :
    (a b : DirectoryIdentity) → (directory_identity_beq a b ≡ true) ↔ (a ≡ b)
unfolding directory_identity_beq
directory_identity_beq_iff a b = ground (
  arith,
  eq_law a.volume_serial b.volume_serial,
  eq_law a.file_id b.file_id,
  eq_law a.parent_file_id b.parent_file_id,
)

instance abbrev pub directory_identity_eq : Eq DirectoryIdentity
directory_identity_eq = record {
  beq = directory_identity_beq;
  beq_iff = directory_identity_beq_iff;
}

unfoldable pub mutation_beq : Mutation → Mutation → Bool
mutation_beq a b = a.kind == b.kind && a.target == b.target && a.status == b.status

pub mutation_beq_iff : (a b : Mutation) → (mutation_beq a b ≡ true) ↔ (a ≡ b)
unfolding mutation_beq
mutation_beq_iff a b =
    ground (arith, eq_law a.kind b.kind, eq_law a.target b.target, eq_law a.status b.status)

instance abbrev pub mutation_eq : Eq Mutation
mutation_eq = record { beq = mutation_beq; beq_iff = mutation_beq_iff }

-- The nine fields, in three groups.
unfoldable pub origin_beq : Transaction → Transaction → Bool
origin_beq a b =
    a.id == b.id && a.request_id == b.request_id && a.candidate == b.candidate && a.old == b.old

pub origin_beq_iff :
    (a b : Transaction)
    → (origin_beq a b ≡ true) ↔ (
        (a.id ≡ b.id)
        × (a.request_id ≡ b.request_id)
        × (a.candidate ≡ b.candidate)
        × (a.old ≡ b.old))
unfolding origin_beq
origin_beq_iff a b = ground (
  arith,
  eq_law a.id b.id,
  eq_law a.request_id b.request_id,
  eq_law a.candidate b.candidate,
  eq_law a.old b.old,
)

unfoldable pub place_beq : Transaction → Transaction → Bool
place_beq a b = a.incoming == b.incoming && a.staging == b.staging && a.stage == b.stage

pub place_beq_iff :
    (a b : Transaction)
    → (place_beq a b ≡ true)
      ↔ ((a.incoming ≡ b.incoming) × (a.staging ≡ b.staging) × (a.stage ≡ b.stage))
unfolding place_beq
place_beq_iff a b =
    ground (arith, eq_law a.incoming b.incoming, eq_law a.staging b.staging, eq_law a.stage b.stage)

unfoldable pub progress_beq : Transaction → Transaction → Bool
progress_beq a b = a.mutation == b.mutation && a.repair_components == b.repair_components

pub progress_beq_iff :
    (a b : Transaction)
    → (progress_beq a b ≡ true)
      ↔ ((a.mutation ≡ b.mutation) × (a.repair_components ≡ b.repair_components))
unfolding progress_beq
progress_beq_iff a b =
    ground (arith, eq_law a.mutation b.mutation, eq_law a.repair_components b.repair_components)

unfoldable pub transaction_beq : Transaction → Transaction → Bool
transaction_beq a b = origin_beq a b && place_beq a b && progress_beq a b

pub transaction_beq_iff : (a b : Transaction) → (transaction_beq a b ≡ true) ↔ (a ≡ b)
unfolding transaction_beq
transaction_beq_iff a b =
    ground (arith, origin_beq_iff a b, place_beq_iff a b, progress_beq_iff a b)

instance abbrev pub transaction_eq : Eq Transaction
transaction_eq = record { beq = transaction_beq; beq_iff = transaction_beq_iff }

unfoldable pub cleanup_beq : Cleanup → Cleanup → Bool
cleanup_beq a b =
    a.transaction_id == b.transaction_id
    && a.request_id == b.request_id
    && a.directory == b.directory
    && a.target == b.target
    && a.status == b.status

pub cleanup_beq_iff : (a b : Cleanup) → (cleanup_beq a b ≡ true) ↔ (a ≡ b)
unfolding cleanup_beq
cleanup_beq_iff a b = ground (
  arith,
  eq_law a.transaction_id b.transaction_id,
  eq_law a.request_id b.request_id,
  eq_law a.directory b.directory,
  eq_law a.target b.target,
  eq_law a.status b.status,
)

instance abbrev pub cleanup_eq : Eq Cleanup
cleanup_eq = record { beq = cleanup_beq; beq_iff = cleanup_beq_iff }

unfoldable pub rollback_beq : Rollback → Rollback → Bool
rollback_beq a b =
    a.mode == b.mode
    && a.target == b.target
    && a.probation_id == b.probation_id
    && a.scratch == b.scratch
    && a.step == b.step

pub rollback_beq_iff : (a b : Rollback) → (rollback_beq a b ≡ true) ↔ (a ≡ b)
unfolding rollback_beq
rollback_beq_iff a b = ground (
  arith,
  eq_law a.mode b.mode,
  eq_law a.target b.target,
  eq_law a.probation_id b.probation_id,
  eq_law a.scratch b.scratch,
  eq_law a.step b.step,
)

instance abbrev pub rollback_eq : Eq Rollback
rollback_eq = record { beq = rollback_beq; beq_iff = rollback_beq_iff }
