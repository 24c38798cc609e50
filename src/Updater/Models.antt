-- ===== src/Updater/Models.antt =====
-- The records of launcher/src/neko_launcher/updater/state_models.py, and the installed release
-- selector of application/software_update_models.py. A `Literal` of strings is a data type, since a
-- value outside of it is refused by `__post_init__`. The checks are in the child `Checks`.
pub mod Equality
pub mod Checks
pub mod Valid
pub mod Evidence
pub mod Prune
use neko_family_proxy.Prelude.{ℕ, String, Bool, Option, List}
use neko_family_proxy.Updater.Json.{Json}

pub data Phase : Type 0 where
  enrolling idle preparing quiescing probation rolling_back cleaning repair_required : Phase

pub data MutationKind : Type 0 where
  create_stage write_candidate publish_generation stop_old start_probation : MutationKind

pub data MutationTarget : Type 0 where
  stage generation old_process_family candidate_process_family : MutationTarget

pub data MutationStatus : Type 0 where
  intent done : MutationStatus

pub data TransactionStage : Type 0 where
  admitted building verified quiescing probation : TransactionStage

pub data CleanupTarget : Type 0 where
  incoming staging : CleanupTarget

pub data CleanupStatus : Type 0 where
  intent done skipped : CleanupStatus

pub data RollbackMode : Type 0 where
  precommit postcommit : RollbackMode

pub data RollbackStep : Type 0 where
  drain_intent drain_done restore_intent restore_done : RollbackStep

pub record Binding : Type 0 where
  pub release_sequence : ℕ
  pub release_id : String
  pub payload_sha256 : String

pub record InstalledReleaseSelector : Type 0 where
  pub sequence : ℕ
  pub release_id : String
  pub version : String
  pub tag_name : String
  pub target_commit : String

pub record Generation : Type 0 where
  pub binding : Binding
  pub launcher_identity_sha256 : String
  pub core_identity_sha256 : String
  pub selector : Option InstalledReleaseSelector

pub record DirectoryIdentity : Type 0 where
  pub volume_serial : String
  pub file_id : String
  pub parent_file_id : String

pub record Mutation : Type 0 where
  pub kind : MutationKind
  pub target : MutationTarget
  pub status : MutationStatus

pub record Transaction : Type 0 where
  pub id : String
  pub request_id : String
  pub candidate : Generation
  pub old : Option Generation
  pub incoming : DirectoryIdentity
  pub staging : Option DirectoryIdentity
  pub stage : TransactionStage
  pub mutation : Option Mutation
  pub repair_components : Option (List String)

pub record Cleanup : Type 0 where
  pub transaction_id : String
  pub request_id : String
  pub directory : DirectoryIdentity
  pub target : CleanupTarget
  pub status : CleanupStatus

pub record Rollback : Type 0 where
  pub mode : RollbackMode
  pub target : Generation
  pub probation_id : String
  pub scratch : List Cleanup
  pub step : RollbackStep

-- `dict[str, str]`: no key occurs twice.
abbrev pub Dict : Type 0
Dict = List (String × String)

pub record State : Type 0 where
  pub schema_version : ℕ
  pub revision : ℕ
  pub installation_id : String
  pub helper_protocol : ℕ
  pub enrollment_complete : Bool
  pub phase : Phase
  pub committed : Option Generation
  pub previous : Option Generation
  pub highwater : Option Binding
  pub observed : Option Binding
  pub failed : Option Binding
  pub transaction : Option Transaction
  pub cleanup : Option (List Cleanup)
  pub rollback : Option Rollback
  -- any JSON value is accepted; `null` is `None`
  pub last_error : Json
  pub evidence : Dict

pub record RootIdentity : Type 0 where
  pub volume_serial : String
  pub file_id : String

-- `enrollment_status` has the one value "PREPARED".
pub record EnrollmentMarker : Type 0 where
  pub schema_version : ℕ
  pub installation_id : String
  pub root : RootIdentity
  pub helper_sha256 : String
  pub helper_protocol : ℕ
  pub keyset_sha256 : String
  pub bootstrap_payload_sha256 : String
  pub enrollment_status : String
  pub profile_id : String
  pub profile_envelope_sha256 : String
