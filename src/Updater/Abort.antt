-- ===== src/Updater/Abort.antt =====
-- launcher/src/neko_launcher/updater/precommit_abort.py
pub mod Laws
use neko_family_proxy.Prelude.{
  ◌+◌, String, Bool, Option, none, some, List, [], ◌∷◌, Result, ok, value_error, raise_if, ◌>>=◌,
  ◌>>◌, ◌!=◌,
}
use neko_family_proxy.Updater.Json.{text}
use neko_family_proxy.Updater.Models.{
  preparing, cleaning, idle, Phase, CleanupTarget, CleanupStatus, DirectoryIdentity, Transaction,
  Cleanup, State,
}
use neko_family_proxy.Updater.Models.Equality.{phase_eq}
use neko_family_proxy.Updater.Models.Checks.{make_state, make_cleanup}
use neko_family_proxy.Updater.Models.Prune.{prune_unreferenced_evidence}
use neko_family_proxy.Updater.Transition.{validate_transition}

abbrev pub cleanup_of : Transaction → CleanupTarget → DirectoryIdentity → Cleanup
cleanup_of tx target directory = record {
  transaction_id = tx.id;
  request_id = tx.request_id;
  directory = directory;
  target = target;
  status = CleanupStatus.intent;
}

unfoldable pub staging_entry : Transaction → Option DirectoryIdentity → Result (List Cleanup)
staging_entry tx none = ok []
staging_entry tx (some d) = do
  entry ← make_cleanup (cleanup_of tx CleanupTarget.staging d)
  ok (entry ∷ [])

unfoldable pub cleanup_queue : Option Transaction → Result (List Cleanup)
cleanup_queue none = ok []
cleanup_queue (some tx) = do
  entry ← make_cleanup (cleanup_of tx CleanupTarget.incoming tx.incoming)
  rest ← staging_entry tx tx.staging
  ok (entry ∷ rest)

-- `"CLEANING" if cleanup_queue else "IDLE"`, and `cleanup_queue if cleanup_queue else None`
abbrev pub phase_after : List Cleanup → Phase
phase_after [] = idle
phase_after (c ∷ cs) = cleaning

abbrev pub queue_after : List Cleanup → Option (List Cleanup)
queue_after [] = none
queue_after (c ∷ cs) = some (c ∷ cs)

abbrev pub abort_state : State → String → List Cleanup → State
abort_state current error_code queue = record {
  schema_version = 1;
  revision = current.revision + 1;
  installation_id = current.installation_id;
  helper_protocol = current.helper_protocol;
  enrollment_complete = current.enrollment_complete;
  phase = phase_after queue;
  committed = current.committed;
  previous = current.previous;
  highwater = current.highwater;
  observed = current.observed;
  failed = current.observed;
  transaction = none;
  cleanup = queue_after queue;
  rollback = none;
  last_error = text error_code;
  evidence = current.evidence;
}

unfoldable pub execute_precommit_abort : State → String → Result State
execute_precommit_abort current error_code = do
  raise_if (current.phase != preparing)
      (value_error "Precommit abort only valid from PREPARING phase")
  queue ← cleanup_queue current.transaction
  built ← make_state (abort_state current error_code queue)
  next ← prune_unreferenced_evidence built
  validate_transition current next
  ok next
