-- ===== src/Updater/Rollback/Initiate.antt =====
-- The start of a postcommit rollback.
use mathlib.Core.Path.{subst}
use neko_family_proxy.Prelude.{
  String, ◌≡◌, ◌≢◌, ◌⊎◌, inl, inr, refl, true, false, Option, none, some, List, arith, ok, is_ok,
}
use neko_family_proxy.Updater.Json.{text}
use neko_family_proxy.Updater.Models.{
  idle, cleaning, rolling_back, Generation, Cleanup, Rollback, State,
}
use neko_family_proxy.Updater.Models.Checks.{check_state, check_rollback, is_hex, assert_hex}
use neko_family_proxy.Updater.Models.Valid.{Each, Every, GenerationIsValid, CleanupIsValid, IsValid}
use neko_family_proxy.Updater.Models.Prune.{prune-ok, check_state-kept}
use neko_family_proxy.Updater.Successor.{Successor, settled, lookup-settled}
use neko_family_proxy.Updater.Transition.Legal.{
  Legal, Row, roll_back_idle, roll_back_cleaning, FloorKept-of_eq, SameRelease-of_eq,
}
use neko_family_proxy.Updater.Transition.Decide.{Legal-validate_transition}
use neko_family_proxy.Updater.Rollback.{
  scratch_of, rollback_record, rolling_back_state, initiate_to, initiate_postcommit_rollback,
}

-- What the start of a rollback promises: nothing is switched yet, the observed release is recorded
-- as failed, and the record names the previous generation and the directories still to clean.
pub record IsRollingBack (s : State) (code : String) (r : Rollback) (n : State) : Type 0 where
  pub successor : Successor s n
  pub phase : n.phase ≡ rolling_back
  pub committed : n.committed ≡ s.committed
  pub previous : n.previous ≡ s.previous
  pub failed : n.failed ≡ s.observed
  pub transaction : n.transaction ≡ none
  pub cleanup : n.cleanup ≡ none
  pub rollback : n.rollback ≡ some r
  pub last_error : n.last_error ≡ text code

pub rolling_back_state-IsRollingBack :
    (s : State) (code : String) (r : Rollback)
    → IsRollingBack s code r (settled (rolling_back_state s code r))
rolling_back_state-IsRollingBack s code r = record {
  successor = record {
    revision = refl;
    installation = refl;
    protocol = refl;
    enrollment = refl;
    highwater = refl;
    observed = refl;
    evidence = λ k. lookup-settled k (rolling_back_state s code r);
  };
  phase = refl;
  committed = refl;
  previous = refl;
  failed = refl;
  transaction = refl;
  cleanup = refl;
  rollback = refl;
  last_error = refl;
}

pub Successor-Legal : {s n : State} → Successor s n → Row s n → Legal s n
Successor-Legal a row = record {
  revision = inr a.revision;
  installation = a.installation;
  protocol = a.protocol;
  highwater = FloorKept-of_eq a.highwater;
  observed = FloorKept-of_eq a.observed;
  same_release = SameRelease-of_eq a.observed;
  row = row;
}

record-check :
    (s : State) (g : Generation) (id : String)
    → check_state s ≡ ok tt
    → is_hex 32 id ≡ true
    → check_rollback (rollback_record g id (scratch_of s.cleanup)) ≡ ok tt
unfolding check_state check_rollback assert_hex
record-check s g id h k = ground arith

scratch-IsValid :
    (q : Option (List Cleanup))
    → Each (Every CleanupIsValid) q
    → Every CleanupIsValid (scratch_of q)
scratch-IsValid none v = tt
scratch-IsValid (some q) v = v

pub rolling_back_state-check :
    (s : State) (code : String) (r : Rollback)
    → check_state s ≡ ok tt
    → check_state (rolling_back_state s code r) ≡ ok tt
unfolding check_state
rolling_back_state-check s code r h = ground arith

pub start_row :
    {s n : State} {code id : String} {g : Generation} {q : List Cleanup}
    → (s.phase ≡ idle) ⊎ (s.phase ≡ cleaning)
    → s.previous ≡ some g
    → IsRollingBack s code (rollback_record g id q) n
    → Row s n
start_row {id = id} {g} {q} (inl p) e a =
    roll_back_idle p a.phase (λ x. ground arith) (rollback_record g id q) a.rollback refl
start_row (inr p) e a = roll_back_cleaning p a.phase (λ x. ground arith)

-- From IDLE or CLEANING, with a previous generation, a well-formed state always enters the
-- rollback to that generation, with no exception, and the result is well-formed.
pub initiate_postcommit_rollback-ok :
    (s : State) (code id : String) (g : Generation)
    → IsValid s
    → (s.phase ≡ idle) ⊎ (s.phase ≡ cleaning)
    → s.previous ≡ some g
    → is_hex 32 id ≡ true
    → (n : State) × (initiate_postcommit_rollback s code id ≡ ok n)
      × IsRollingBack s code (rollback_record g id (scratch_of s.cleanup)) n
      × IsValid n
unfolding initiate_postcommit_rollback initiate_to
initiate_postcommit_rollback-ok s code id g v p e h =
    let r = rollback_record g id (scratch_of s.cleanup) in
    let built = rolling_back_state s code r in
    let n = settled built in
    let rec_ok = record-check s g id v.own h in
    let own = rolling_back_state-check s code r v.own in
    let pruned = prune-ok built own in
    let done = rolling_back_state-IsRollingBack s code r in
    let legal =
      Legal-validate_transition s n (Successor-Legal done.successor (start_row p e done)) in
    (
      n,
      ground (arith, rec_ok, own, pruned, legal),
      done,
      record {
        own = check_state-kept built own;
        committed = v.committed;
        previous = v.previous;
        highwater = v.highwater;
        observed = v.observed;
        failed = v.observed;
        transaction = tt;
        cleanup = tt;
        rollback = record {
          own = rec_ok;
          target = subst (Each GenerationIsValid) e v.previous;
          scratch = scratch-IsValid s.cleanup v.cleanup;
        };
      },
    )

-- In any other phase, or with no previous generation, the rollback raises and nothing is built.
pub initiate_postcommit_rollback-refuses :
    (s : State) (code id : String)
    → ((s.phase ≢ idle) × (s.phase ≢ cleaning)) ⊎ (s.previous ≡ none)
    → is_ok (initiate_postcommit_rollback s code id) ≡ false
unfolding initiate_postcommit_rollback initiate_to
initiate_postcommit_rollback-refuses s code id h = grind arith
