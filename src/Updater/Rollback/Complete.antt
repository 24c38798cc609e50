-- ===== src/Updater/Rollback/Complete.antt =====
-- The end of a rollback: what is selected, and when the selection is refused.
use mathlib.Core.Path.{subst}
use neko_family_proxy.Prelude.{
  ◌≡◌, ◌⊎◌, inl, inr, refl, sym, none, some, List, [], ◌∷◌, arith, ok, eq_law, option_eq,
}
use neko_family_proxy.Updater.Models.{
  idle, cleaning, rolling_back, precommit, postcommit, RollbackStep, Cleanup, Rollback, State,
}
use neko_family_proxy.Updater.Models.Equality.{generation_eq}
use neko_family_proxy.Updater.Models.Checks.{check_state, check_rollback}
use neko_family_proxy.Updater.Models.Valid.{Each, Every, CleanupIsValid, RollbackIsValid, IsValid}
use neko_family_proxy.Updater.Models.Prune.{prune-ok, check_state-kept}
use neko_family_proxy.Updater.Successor.{Successor, settled, lookup-settled}
use neko_family_proxy.Updater.Transition.Legal.{Legal, restore_postcommit}
use neko_family_proxy.Updater.Transition.{
  validate_transition, check_phases, check_matrix, from_rolling_back, rollback_completion,
  completion_mode,
}
use neko_family_proxy.Updater.Transition.Decide.{Legal-validate_transition}
use neko_family_proxy.Updater.Abort.{phase_after, queue_after}
use neko_family_proxy.Updater.Rollback.{
  restored_state, complete_with, complete_postcommit_rollback_selection,
}
use neko_family_proxy.Updater.Rollback.Initiate.{Successor-Legal}

-- What a finished rollback promises: the target is committed with no backup behind it, the record
-- is closed, and its scratch directories are queued.
pub record IsRestored (s : State) (r : Rollback) (n : State) : Type 0 where
  pub successor : Successor s n
  pub committed : n.committed ≡ some r.target
  pub previous : n.previous ≡ none
  pub failed : n.failed ≡ s.failed
  pub transaction : n.transaction ≡ none
  pub rollback : n.rollback ≡ none
  pub cleanup : n.cleanup ≡ queue_after r.scratch
  pub phase : n.phase ≡ phase_after r.scratch

restored_state-IsRestored :
    (s : State) (r : Rollback) → IsRestored s r (settled (restored_state s r))
restored_state-IsRestored s r = record {
  successor = record {
    revision = refl;
    installation = refl;
    protocol = refl;
    enrollment = refl;
    highwater = refl;
    observed = refl;
    evidence = λ k. lookup-settled k (restored_state s r);
  };
  committed = refl;
  previous = refl;
  failed = refl;
  transaction = refl;
  rollback = refl;
  cleanup = refl;
  phase = refl;
}

restored-check :
    (s : State) (r : Rollback)
    → check_state s ≡ ok tt
    → check_rollback r ≡ ok tt
    → check_state (restored_state s r) ≡ ok tt
unfolding check_state check_rollback
restored-check s r h k = ground arith

phase_after-cases : (q : List Cleanup) → (phase_after q ≡ cleaning) ⊎ (phase_after q ≡ idle)
phase_after-cases [] = inr refl
phase_after-cases (c ∷ q) = inl refl

queue_after-IsValid :
    (q : List Cleanup) → Every CleanupIsValid q → Each (Every CleanupIsValid) (queue_after q)
queue_after-IsValid [] v = tt
queue_after-IsValid (c ∷ q) v = v

restored-Legal :
    (s n : State) (r : Rollback)
    → s.phase ≡ rolling_back
    → s.rollback ≡ some r
    → r.mode ≡ postcommit
    → IsRestored s r n
    → Legal s n
restored-Legal s n r p e m a = Successor-Legal a.successor (
    restore_postcommit p (ground (arith, a.phase, phase_after-cases r.scratch)) r e m a.committed
      a.previous a.rollback)

-- A postcommit rollback that has restored its target is completed, with no exception: the target
-- becomes the committed generation, both floors stay, and the result is well-formed.
pub complete_postcommit_rollback_selection-ok :
    (s : State) (r : Rollback)
    → IsValid s
    → s.phase ≡ rolling_back
    → s.rollback ≡ some r
    → r.step ≡ RollbackStep.restore_done
    → r.mode ≡ postcommit
    → (n : State) × (complete_postcommit_rollback_selection s ≡ ok n) × IsRestored s r n × IsValid n
unfolding complete_postcommit_rollback_selection complete_with
complete_postcommit_rollback_selection-ok s r v p e d m =
    let w : RollbackIsValid r = subst (Each RollbackIsValid) e v.rollback in
    let built = restored_state s r in
    let n = settled built in
    let own = restored-check s r v.own w.own in
    let pruned = prune-ok built own in
    let done = restored_state-IsRestored s r in
    let legal = Legal-validate_transition s n (restored-Legal s n r p e m done) in
    (
      n,
      ground (arith, own, pruned, legal),
      done,
      record {
        own = check_state-kept built own;
        committed = w.target;
        previous = tt;
        highwater = v.highwater;
        observed = v.observed;
        failed = v.failed;
        transaction = tt;
        cleanup = queue_after-IsValid r.scratch w.scratch;
        rollback = tt;
      },
    )

-- The phase check of a completion, at the mode of the record.
precommit_kept :
    (s n : State) (r : Rollback)
    → s.phase ≡ rolling_back
    → s.rollback ≡ some r
    → r.mode ≡ precommit
    → (n.phase ≡ cleaning) ⊎ (n.phase ≡ idle)
    → check_phases s n ≡ ok tt
    → (n.committed ≡ s.committed) × (n.previous ≡ s.previous)
unfolding check_phases check_matrix from_rolling_back rollback_completion completion_mode
precommit_kept s n r p e m q h =
    ground (arith, eq_law n.committed s.committed, eq_law n.previous s.previous)

phases_of : (s n : State) → validate_transition s n ≡ ok tt → check_phases s n ≡ ok tt
unfolding validate_transition
phases_of s n h = ground arith

-- A completion never switches generations for a precommit rollback: it succeeds on a well-formed
-- state only if the target is the committed generation and there is no backup to lose.
pub complete_postcommit_rollback_selection-precommit :
    (s n : State) (r : Rollback)
    → IsValid s
    → s.rollback ≡ some r
    → r.mode ≡ precommit
    → complete_postcommit_rollback_selection s ≡ ok n
    → (s.committed ≡ some r.target) × (s.previous ≡ none)
unfolding complete_postcommit_rollback_selection complete_with
complete_postcommit_rollback_selection-precommit s n r v e m h =
    let built = restored_state s r in
    let w : RollbackIsValid r = subst (Each RollbackIsValid) e v.rollback in
    let pruned = prune-ok built (restored-check s r v.own w.own) in
    let accepted : validate_transition s (settled built) ≡ ok tt = ground (arith, pruned) in
    let p : s.phase ≡ rolling_back = ground arith in
    let (kept, kept') =
      precommit_kept s (settled built) r p e m (phase_after-cases r.scratch)
        (phases_of s (settled built) accepted) in
    (sym kept, sym kept')
