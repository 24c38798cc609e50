-- ===== src/Updater/Abort/Laws.antt =====
-- What the precommit abort does on every branch.
use neko_family_proxy.Prelude.{
  String, ◌≡◌, inr, refl, Option, none, some, List, [], ◌∷◌, arith, ok, is_some, if◌then◌else◌,
}
use neko_family_proxy.Updater.Json.{text}
use neko_family_proxy.Updater.Models.{
  preparing, cleaning, idle, CleanupTarget, DirectoryIdentity, Transaction, Cleanup, State,
}
use neko_family_proxy.Updater.Models.Checks.{check_state, check_transaction, check_cleanup}
use neko_family_proxy.Updater.Models.Valid.{
  Each, Every, DirectoryIsValid, TransactionIsValid, CleanupIsValid, IsValid,
}
use neko_family_proxy.Updater.Models.Prune.{prune-ok, check_state-kept}
use neko_family_proxy.Updater.Successor.{Successor, settled, lookup-settled}
use neko_family_proxy.Updater.Transition.Legal.{Legal, abort, FloorKept-of_eq, SameRelease-of_eq}
use neko_family_proxy.Updater.Transition.Decide.{Legal-validate_transition}
use neko_family_proxy.Updater.Abort.{
  cleanup_of, staging_entry, cleanup_queue, phase_after, queue_after, abort_state,
  execute_precommit_abort,
}

staged_directories : Transaction → Option DirectoryIdentity → List Cleanup
staged_directories t none = []
staged_directories t (some d) = cleanup_of t CleanupTarget.staging d ∷ []

-- The scratch directories of a transaction, each with an entry to clean.
unfoldable pub scratch_directories : Option Transaction → List Cleanup
unfolding staged_directories
scratch_directories none = []
scratch_directories (some t) =
    cleanup_of t CleanupTarget.incoming t.incoming ∷ staged_directories t t.staging

cleanup_queue-ok :
    (t : Option Transaction)
    → Each TransactionIsValid t
    → cleanup_queue t ≡ ok (scratch_directories t)
unfolding cleanup_queue staging_entry scratch_directories check_transaction check_cleanup
cleanup_queue-ok none v = refl
cleanup_queue-ok (some t) v = ground (arith, v.own)

staged-IsValid :
    (t : Transaction) (d : Option DirectoryIdentity)
    → TransactionIsValid t
    → Each DirectoryIsValid d
    → Every CleanupIsValid (staged_directories t d)
unfolding staged_directories check_cleanup check_transaction
staged-IsValid t none v w = tt
staged-IsValid t (some d) v w = (record { own = ground (arith, v.own); directory = w }, tt)

scratch-IsValid :
    (t : Option Transaction)
    → Each TransactionIsValid t
    → Each (Every CleanupIsValid) (queue_after (scratch_directories t))
unfolding scratch_directories check_cleanup check_transaction
scratch-IsValid none v = tt
scratch-IsValid (some t) v = (
  record { own = ground (arith, v.own); directory = v.incoming },
  staged-IsValid t t.staging v v.staging,
)

-- The state that the abort builds before it prunes the evidence.
abbrev pub built : State → String → State
built s code = abort_state s code (scratch_directories s.transaction)

built-check :
    (s : State) (code : String) → check_state s ≡ ok tt → check_state (built s code) ≡ ok tt
unfolding check_state scratch_directories
built-check s code h = ground arith

-- What an abort promises: the running release and its backup stay, the observed release is recorded
-- as failed, the transaction is closed, and exactly its scratch directories are queued for cleaning.
pub record IsAborted (s : State) (code : String) (n : State) : Type 0 where
  pub successor : Successor s n
  pub committed : n.committed ≡ s.committed
  pub previous : n.previous ≡ s.previous
  pub failed : n.failed ≡ s.observed
  pub transaction : n.transaction ≡ none
  pub rollback : n.rollback ≡ none
  pub cleanup : n.cleanup ≡ queue_after (scratch_directories s.transaction)
  pub phase : n.phase ≡ (if is_some s.transaction then cleaning else idle)
  pub last_error : n.last_error ≡ text code

landing :
    (t : Option Transaction)
    → phase_after (scratch_directories t) ≡ (if is_some t then cleaning else idle)
unfolding scratch_directories
landing none = refl
landing (some t) = refl

built-IsAborted : (s : State) (code : String) → IsAborted s code (settled (built s code))
built-IsAborted s code = record {
  successor = record {
    revision = refl;
    installation = refl;
    protocol = refl;
    enrollment = refl;
    highwater = refl;
    observed = refl;
    evidence = λ k. lookup-settled k (built s code);
  };
  committed = refl;
  previous = refl;
  failed = refl;
  transaction = refl;
  rollback = refl;
  cleanup = refl;
  phase = landing s.transaction;
  last_error = refl;
}

pub IsAborted-Legal :
    (s : State) (code : String) (n : State) → s.phase ≡ preparing → IsAborted s code n → Legal s n
IsAborted-Legal s code n p a = record {
  revision = inr a.successor.revision;
  installation = a.successor.installation;
  protocol = a.successor.protocol;
  highwater = FloorKept-of_eq a.successor.highwater;
  observed = FloorKept-of_eq a.successor.observed;
  same_release = SameRelease-of_eq a.successor.observed;
  row = abort p (ground (arith, a.phase)) a.committed a.previous a.transaction a.failed;
}

-- A well-formed state in PREPARING is always aborted, with no exception, and the result is
-- well-formed and keeps the promise of an abort.
pub execute_precommit_abort-ok :
    (s : State) (code : String)
    → IsValid s
    → s.phase ≡ preparing
    → (n : State) × (execute_precommit_abort s code ≡ ok n) × IsAborted s code n × IsValid n
unfolding execute_precommit_abort
execute_precommit_abort-ok s code v p =
    let n = settled (built s code) in
    let queue = cleanup_queue-ok s.transaction v.transaction in
    let own = built-check s code v.own in
    let pruned = prune-ok (built s code) own in
    let done = built-IsAborted s code in
    let legal = Legal-validate_transition s n (IsAborted-Legal s code n p done) in
    (
      n,
      simp (p, queue, own, pruned, legal),
      done,
      record {
        own = check_state-kept (built s code) own;
        committed = v.committed;
        previous = v.previous;
        highwater = v.highwater;
        observed = v.observed;
        failed = v.observed;
        transaction = tt;
        cleanup = scratch-IsValid s.transaction v.transaction;
        rollback = tt;
      },
    )
