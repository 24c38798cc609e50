-- ===== src/Updater/Activation.antt =====
-- launcher/src/neko_launcher/updater/activation.py. The slot store is an argument: whether it has
-- acknowledged the write of a state, as `_durable_write` answers. A write that is not acknowledged
-- may have reached the disk, since the store can fail after it has flushed. The states that are
-- written are part of the result, in their order. The self test is its result, `none` if it
-- raises.
pub mod Writes
pub mod Commits
mod Tests
use neko_family_proxy.Prelude.{
  ◌+◌, String, Bool, true, false, not, ◌||◌, ◌==◌, string_eq, Option, none, some, List, [], ◌∷◌,
  Result, ok, err, ◌>>=◌, ◌>>◌, if◌then◌else◌,
}
use neko_family_proxy.Updater.Json.{null}
use neko_family_proxy.Updater.Models.{
  Phase, preparing, quiescing, probation, cleaning, TransactionStage, verified, CleanupTarget,
  DirectoryIdentity, Generation, Transaction, Cleanup, State,
}
use neko_family_proxy.Updater.Models.Equality.{phase_eq, transaction_stage_eq}
use neko_family_proxy.Updater.Models.Checks.{check_transaction, make_state, make_cleanup}
use neko_family_proxy.Updater.Models.Prune.{prune_unreferenced_evidence}
use neko_family_proxy.Updater.Transition.{validate_transition}
use neko_family_proxy.Updater.Selector.{SelectionStatus, selected, SelectionResult}
use neko_family_proxy.Updater.Abort.{cleanup_of, execute_precommit_abort}

pub record SelfTestResult : Type 0 where
  pub passed : Bool
  pub error_code : Option String
  pub reason : Option String

pub record ActivationResult : Type 0 where
  pub committed : Bool
  pub generation : Option Generation
  pub error : Option String

-- What is returned, and the states that were written.
abbrev pub Activation : Type 0
Activation = ActivationResult × List State

abbrev pub refused : String → ActivationResult
refused code = record { committed = false; generation = none; error = some code }

abbrev pub stage_of : Transaction → TransactionStage → Transaction
stage_of tx stage = record tx { stage = stage; mutation = none }

abbrev pub stage_state : State → Phase → Transaction → State
stage_state s phase tx = record s {
  phase = phase;
  transaction = some tx;
  revision = s.revision + 1;
}

-- QUIESCING and PROBATION
unfoldable pub advance : Phase → TransactionStage → State → Transaction → Result State
advance phase stage s tx = do
  check_transaction (stage_of tx stage)
  next ← make_state (stage_state s phase (stage_of tx stage))
  validate_transition s next
  ok next

abbrev pub accepted_state : State → Generation → List Cleanup → State
accepted_state s candidate cleanups = record s {
  phase = cleaning;
  revision = s.revision + 1;
  committed = some candidate;
  previous = s.committed;
  highwater = some candidate.binding;
  observed = some candidate.binding;
  transaction = none;
  cleanup = some cleanups;
  rollback = none;
  last_error = null;
}

-- CLEANING
unfoldable pub accept_candidate : State → Transaction → DirectoryIdentity → Result State
accept_candidate s tx directory = do
  first ← make_cleanup (cleanup_of tx CleanupTarget.incoming tx.incoming)
  second ← make_cleanup (cleanup_of tx CleanupTarget.staging directory)
  built ← make_state (accepted_state s tx.candidate (first ∷ second ∷ []))
  next ← prune_unreferenced_evidence built
  validate_transition s next
  ok next

-- `test_result.error_code if (test_result and test_result.error_code) else 'SELFTEST_FAILED'`
unfoldable pub test_code : Option SelfTestResult → String
test_code none = "SELFTEST_FAILED"
test_code (some r) = elim r.error_code [
  | none ↦ "SELFTEST_FAILED"
  | some code ↦ if code == "" then "SELFTEST_FAILED" else code
]

abbrev pub test_passed : Option SelfTestResult → Bool
test_passed none = false
test_passed (some r) = r.passed

module _ (acknowledged : State → Bool) where
  -- Write a state that was built, and go on if the store acknowledges it.
  unfoldable pub persist : Result State → (State → Activation) → Activation
  persist (err e) rest = (refused "STATE_CORRUPT", [])
  persist (ok next) rest =
      if acknowledged next
      then ((rest next).0, next ∷ (rest next).1)
      else (refused "STATE_CORRUPT", next ∷ [])

  unfoldable pub abort_activation : State → String → Activation
  abort_activation s code = persist (execute_precommit_abort s code) (λ next. (refused code, []))

  unfoldable pub commit_activation : State → Transaction → DirectoryIdentity → Activation
  commit_activation s tx directory =
      persist (advance quiescing TransactionStage.quiescing s tx) (λ q.
        persist
          (advance probation TransactionStage.probation q (stage_of tx TransactionStage.quiescing))
          (λ p.
            persist (accept_candidate p (stage_of tx TransactionStage.probation) directory) (λ c.
              (record { committed = true; generation = some tx.candidate; error = none }, []))))

  unfoldable pub activate_staged :
      Option SelfTestResult → State → Transaction → Option DirectoryIdentity → Activation
  activate_staged test s tx none = (refused "PROTOCOL_INVALID", [])
  activate_staged test s tx (some directory) =
      if not (s.phase == preparing) || not (tx.stage == verified)
      then (refused "PROTOCOL_INVALID", [])
      else if test_passed test
      then commit_activation s tx directory
      else abort_activation s (test_code test)

  unfoldable pub activate_state : Option SelfTestResult → State → Option Transaction → Activation
  activate_state test s none = (refused "PROTOCOL_INVALID", [])
  activate_state test s (some tx) = activate_staged test s tx tx.staging

  unfoldable pub activate_verified_generation :
      Option SelfTestResult → SelectionStatus → Option State → Activation
  activate_verified_generation test selected (some s) = activate_state test s s.transaction
  activate_verified_generation test _ _ = (refused "STATE_CORRUPT", [])
