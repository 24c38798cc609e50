-- ===== src/Updater/Samples.antt =====
-- Sample states of an installation, and the platform and the machine that the tests run on.
pub mod Facts
use neko_family_proxy.Prelude.{
  ℕ, String, ◌≡◌, Option, none, some, List, [], ◌∷◌, true, Result, ok, err, value_error, length,
  ◌==◌, nat_eq, string_eq, if◌then◌else◌,
}
use neko_family_proxy.Updater.Json.{null, text}
use neko_family_proxy.Updater.Models.{
  idle, preparing, cleaning, rolling_back, Binding, Generation, DirectoryIdentity, Transaction,
  TransactionStage, Cleanup, CleanupTarget, State, Rollback, RollbackMode, RollbackStep,
}
use neko_family_proxy.Updater.Frame.Words.{Bytes, zeros, length-zeros}
use neko_family_proxy.Updater.Platform.{Platform, Envelope}
use neko_family_proxy.Updater.Abort.{cleanup_of}
use neko_family_proxy.Updater.Recovery.{Machine}

abbrev pub digest_1 : String
digest_1 = "1111111111111111111111111111111111111111111111111111111111111111"

abbrev pub digest_2 : String
digest_2 = "2222222222222222222222222222222222222222222222222222222222222222"

abbrev pub id_1 : String
id_1 = "aaaaaaaaaaaaaaaaaaaaaaaaaaaaaaaa"

abbrev pub id_2 : String
id_2 = "bbbbbbbbbbbbbbbbbbbbbbbbbbbbbbbb"

abbrev pub binding_1 : Binding
binding_1 = record { release_sequence = 1; release_id = "release-1"; payload_sha256 = digest_1 }

abbrev pub binding_2 : Binding
binding_2 = record { release_sequence = 2; release_id = "release-2"; payload_sha256 = digest_2 }

abbrev pub generation_of : Binding → Generation
generation_of b = record {
  binding = b;
  launcher_identity_sha256 = digest_1;
  core_identity_sha256 = digest_2;
  selector = none;
}

abbrev pub directory : DirectoryIdentity
directory = record { volume_serial = "0123456789abcdef"; file_id = id_1; parent_file_id = id_2 }

abbrev pub update : Transaction
update = record {
  id = id_1;
  request_id = id_2;
  candidate = generation_of binding_2;
  old = some (generation_of binding_1);
  incoming = directory;
  staging = none;
  stage = TransactionStage.building;
  mutation = none;
  repair_components = none;
}

-- an update that was interrupted while its stage was built
abbrev pub interrupted : State
interrupted = record {
  schema_version = 1;
  revision = 5;
  installation_id = id_1;
  helper_protocol = 1;
  enrollment_complete = true;
  phase = preparing;
  committed = some (generation_of binding_1);
  previous = none;
  highwater = some binding_2;
  observed = some binding_2;
  failed = none;
  transaction = some update;
  cleanup = none;
  rollback = none;
  last_error = null;
  evidence = (digest_1, "envelope-1") ∷ (digest_2, "envelope-2") ∷ [];
}

-- the interrupted update after its abort, and after the cleaning
abbrev pub aborted : State
aborted = record interrupted {
  revision = 6;
  phase = cleaning;
  failed = some binding_2;
  transaction = none;
  cleanup = some (cleanup_of update CleanupTarget.incoming directory ∷ []);
  last_error = text "RECOVERY_ABORT";
}

abbrev pub at_rest : State
at_rest = record aborted { revision = 7; phase = idle; cleanup = none }

-- an installation of release 2 with release 1 as its backup
abbrev pub updated : State
updated = record at_rest {
  committed = some (generation_of binding_2);
  previous = some (generation_of binding_1);
  failed = none;
}

abbrev pub restore : Rollback
restore = record {
  mode = RollbackMode.postcommit;
  target = generation_of binding_1;
  probation_id = id_2;
  scratch = [];
  step = RollbackStep.restore_done;
}

-- its rollback to release 1, which is restored
abbrev pub restoring : State
restoring = record updated {
  phase = rolling_back;
  failed = some binding_2;
  rollback = some restore;
}

-- A text form for the first three states: their revision.
abbrev pub text_of : State → Bytes
text_of s = s.revision ∷ []

abbrev pub state_of : Bytes → Result State
state_of [] = err (value_error "empty")
state_of (n ∷ rest) = if n == 5 then ok interrupted else if n == 6 then ok aborted else ok at_rest

abbrev pub envelope_of : Binding → Envelope
envelope_of b = record {
  release_sequence = b.release_sequence;
  release_id = b.release_id;
  payload_sha256 = b.payload_sha256;
  launcher_identity_sha256 = digest_1;
  core_identity_sha256 = digest_2;
}

abbrev pub envelope_at : String → Option Envelope
envelope_at encoded =
    if encoded == "envelope-1"
    then some (envelope_of binding_1)
    else if encoded == "envelope-2"
    then some (envelope_of binding_2)
    else none

abbrev pub checksum_of : Bytes → Bytes
checksum_of m = zeros 32

pub checksum_size_of : (m : Bytes) → length (checksum_of m) ≡ 32
checksum_size_of m = length-zeros 32

abbrev pub platform : Platform
platform = record {
  sha256 = checksum_of;
  digest_size = checksum_size_of;
  serialize_state = text_of;
  deserialize_state = state_of;
  open_envelope = envelope_at;
}

abbrev pub machine : Machine
machine = record {
  release_exists = λ g. true;
  directory_at = λ path. some directory;
  token = λ k. id_2;
}
