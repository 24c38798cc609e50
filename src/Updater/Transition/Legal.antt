-- ===== src/Updater/Transition/Legal.antt =====
-- The table of the transitions that `validate_transition` accepts, written as propositions on the
-- two states. It is the code's table: the specification's "exhaustive" automaton
-- (docs/superpowers/specs/2026-09-06-software-update-phase-3-design.md, section 8.1) is stricter
-- in some rows, for example in what a step to IDLE has to keep.
use mathlib.Core.Path.{subst}
use neko_family_proxy.Prelude.{
  sym, ◌+◌, ◌≤◌, ◌≡◌, ◌≢◌, ◌↔◌, ◌⊎◌, refl, true, false, Option, none, some, arith, ok, nat_eq,
  string_eq, option_eq, eq_law,
}
use neko_family_proxy.Updater.Models.{
  enrolling, idle, preparing, quiescing, probation, rolling_back, cleaning, repair_required,
  TransactionStage, precommit, postcommit, Binding, Transaction, Rollback, State,
}
use neko_family_proxy.Updater.Models.Equality.{
  transaction_stage_eq, rollback_mode_eq, binding_eq, generation_eq,
}
use neko_family_proxy.Updater.Transition.{check_highwater, check_observed, check_same_sequence}
use neko_family_proxy.Updater.Transition.Admits.{Admits}
use neko_family_proxy.Updater.Transition.Mirrors.{Mirrors}

-- A floor is never cleared, and its sequence never falls.
abbrev pub FloorKept : Option Binding → Option Binding → Type 0
FloorKept none next = Unit
FloorKept (some c) none = ⊥
FloorKept (some c) (some n) = c.release_sequence ≤ n.release_sequence

-- Two bindings of one sequence are of one release.
abbrev pub SameRelease : Option Binding → Option Binding → Type 0
SameRelease (some c) (some n) =
    c.release_sequence ≡ n.release_sequence
    → (c.payload_sha256 ≡ n.payload_sha256) × (c.release_id ≡ n.release_id)
SameRelease _ _ = Unit

pub FloorKept-refl : (b : Option Binding) → FloorKept b b
FloorKept-refl none = tt
FloorKept-refl (some b) = omega arith

pub SameRelease-refl : (b : Option Binding) → SameRelease b b
SameRelease-refl none = tt
SameRelease-refl (some b) = λ _. (refl, refl)

pub FloorKept-of_eq : {b n : Option Binding} → n ≡ b → FloorKept b n
FloorKept-of_eq {b} e = subst (FloorKept b) (sym e) (FloorKept-refl b)

pub SameRelease-of_eq : {b n : Option Binding} → n ≡ b → SameRelease b n
SameRelease-of_eq {b} e = subst (SameRelease b) (sym e) (SameRelease-refl b)

-- The rows of the table. Each names the two phases and what the next state must hold.
pub data Row (c n : State) : Type 0 where
  repair : n.phase ≡ repair_required → Row c n
  mirror : c.phase ≡ enrolling → n.phase ≡ enrolling → Row c n
  enroll : c.phase ≡ enrolling → n.phase ≡ idle → n.committed ≢ none → n.highwater ≢ none → Row c n
  complete_enrollment :
      c.phase ≡ idle
      → n.phase ≡ idle
      → c.enrollment_complete ≡ false
      → n.enrollment_complete ≡ true
      → Row c n
  admit : c.phase ≡ idle → n.phase ≡ idle → (candidate : Binding) → Admits c n candidate → Row c n
  prepare :
      c.phase ≡ idle
      → n.phase ≡ preparing
      → (t : Transaction) → n.transaction ≡ some t
      → t.stage ≡ TransactionStage.admitted
      → t.old ≡ c.committed
      → Row c n
  roll_back_idle :
      c.phase ≡ idle
      → n.phase ≡ rolling_back
      → c.previous ≢ none
      → (r : Rollback) → n.rollback ≡ some r
      → r.mode ≡ postcommit
      → Row c n
  build : c.phase ≡ preparing → n.phase ≡ preparing → Row c n
  quiesce :
      c.phase ≡ preparing
      → n.phase ≡ quiescing
      → (t : Transaction) → c.transaction ≡ some t
      → t.stage ≡ TransactionStage.verified
      → Row c n
  abort :
      c.phase ≡ preparing
      → (n.phase ≡ cleaning) ⊎ (n.phase ≡ idle)
      → n.committed ≡ c.committed
      → n.previous ≡ c.previous
      → n.transaction ≡ none
      → n.failed ≡ c.observed
      → Row c n
  probe : c.phase ≡ quiescing → n.phase ≡ probation → Row c n
  roll_back_quiescing :
      c.phase ≡ quiescing
      → n.phase ≡ rolling_back
      → (r : Rollback) → n.rollback ≡ some r
      → r.mode ≡ precommit
      → Row c n
  accept :
      c.phase ≡ probation
      → n.phase ≡ cleaning
      → (t : Transaction) → c.transaction ≡ some t
      → n.committed ≡ some t.candidate
      → n.previous ≡ c.committed
      → n.transaction ≡ none
      → Row c n
  roll_back_probation : c.phase ≡ probation → n.phase ≡ rolling_back → n.rollback ≢ none → Row c n
  roll_on : c.phase ≡ rolling_back → n.phase ≡ rolling_back → Row c n
  restore_precommit :
      c.phase ≡ rolling_back
      → (n.phase ≡ cleaning) ⊎ (n.phase ≡ idle)
      → (r : Rollback) → c.rollback ≡ some r
      → r.mode ≡ precommit
      → n.committed ≡ c.committed
      → n.previous ≡ c.previous
      → n.rollback ≡ none
      → Row c n
  restore_postcommit :
      c.phase ≡ rolling_back
      → (n.phase ≡ cleaning) ⊎ (n.phase ≡ idle)
      → (r : Rollback) → c.rollback ≡ some r
      → r.mode ≡ postcommit
      → n.committed ≡ some r.target
      → n.previous ≡ none
      → n.rollback ≡ none
      → Row c n
  clean_on : c.phase ≡ cleaning → n.phase ≡ cleaning → Row c n
  settle : c.phase ≡ cleaning → n.phase ≡ idle → n.cleanup ≡ none → Row c n
  roll_back_cleaning : c.phase ≡ cleaning → n.phase ≡ rolling_back → c.previous ≢ none → Row c n

-- What holds of the two states whatever their phases.
pub record Legal (c n : State) : Type 0 where
  pub revision : Mirrors c n ⊎ (n.revision ≡ c.revision + 1)
  pub installation : n.installation_id ≡ c.installation_id
  pub protocol : n.helper_protocol ≡ c.helper_protocol
  pub highwater : FloorKept c.highwater n.highwater
  pub observed : FloorKept c.observed n.observed
  pub same_release : SameRelease c.observed n.observed
  pub row : Row c n

pub highwater_iff : (c n : Option Binding) → (check_highwater c n ≡ ok tt) ↔ FloorKept c n
unfolding check_highwater
highwater_iff none n = ground arith
highwater_iff (some c) none = ground arith
highwater_iff (some c) (some n) = ground arith

pub observed_iff : (c n : Option Binding) → (check_observed c n ≡ ok tt) ↔ FloorKept c n
unfolding check_observed
observed_iff none n = ground arith
observed_iff (some c) none = ground arith
observed_iff (some c) (some n) = ground arith

pub same_sequence_iff : (c n : Option Binding) → (check_same_sequence c n ≡ ok tt) ↔ SameRelease c n
unfolding check_same_sequence
same_sequence_iff none n = ground arith
same_sequence_iff (some c) none = ground arith
same_sequence_iff (some c) (some n) =
    ground (arith, eq_law c.payload_sha256 n.payload_sha256, eq_law c.release_id n.release_id)
