-- ===== src/Updater/Activation/Writes.antt =====
-- What an activation writes.
use neko_family_proxy.Prelude.{
  ◌≡◌, ◌⊎◌, ◌∙◌, inl, inr, refl, String, Bool, true, false, Option, none, some, List, [], ◌∷◌,
  arith, Result, ok, err, Bool-cases, not, ◌||◌, ◌==◌,
}
use neko_family_proxy.Updater.Models.{
  Phase, preparing, verified, cleaning, TransactionStage, DirectoryIdentity, Transaction, State,
}
use neko_family_proxy.Updater.Models.Equality.{phase_eq, transaction_stage_eq}
use neko_family_proxy.Updater.Models.Valid.{Every}
use neko_family_proxy.Updater.Models.Prune.{prune_unreferenced_evidence}
use neko_family_proxy.Updater.Transition.{validate_transition}
use neko_family_proxy.Updater.Selector.{SelectionStatus, selected}
use neko_family_proxy.Updater.Abort.{execute_precommit_abort}
use neko_family_proxy.Updater.Activation.{
  SelfTestResult, Activation, advance, accept_candidate, test_passed, persist, abort_activation,
  commit_activation, activate_staged, activate_state, activate_verified_generation,
}

-- Each written state is accepted by the validator after the one before.
abbrev pub Linked : State → List State → Type 0
Linked s [] = Unit
Linked s (n ∷ rest) = (validate_transition s n ≡ ok tt) × Linked n rest

advance-validated :
    (phase : Phase) (stage : TransactionStage) (s n : State) (tx : Transaction)
    → advance phase stage s tx ≡ ok n
    → validate_transition s n ≡ ok tt
unfolding advance
advance-validated phase stage s n tx h = ground (arith, h)

accept_candidate-validated :
    (s n : State) (tx : Transaction) (d : DirectoryIdentity)
    → accept_candidate s tx d ≡ ok n
    → validate_transition s n ≡ ok tt
unfolding accept_candidate
accept_candidate-validated s n tx d h = ground (arith, h)

abort-validated :
    (s n : State) (code : String)
    → execute_precommit_abort s code ≡ ok n
    → validate_transition s n ≡ ok tt
unfolding execute_precommit_abort
abort-validated s n code h = ground (arith, h)

module _ (acknowledged : State → Bool) where
  persist-Linked :
      (s : State) (r : Result State) (rest : State → Activation)
      → ((n : State) → r ≡ ok n → validate_transition s n ≡ ok tt)
      → ((n : State) → Linked n ((rest n).1))
      → Linked s ((persist acknowledged r rest).1)
  unfolding persist
  persist-Linked s (err e) rest h k = tt
  persist-Linked s (ok n) rest h k = elim (Bool-cases (acknowledged n)) [
    | inl y ↦ rw y (h n refl, k n)
    | inr y ↦ rw y (h n refl, tt)
  ]

  commit-Linked :
      (s : State) (tx : Transaction) (d : DirectoryIdentity)
      → Linked s ((commit_activation acknowledged s tx d).1)
  unfolding commit_activation
  commit-Linked s tx d =
      persist-Linked s _ _ (λ n. advance-validated _ _ s n tx)
        (λ q.
          persist-Linked q _ _ (λ n. advance-validated _ _ q n _)
            (λ p. persist-Linked p _ _ (λ n. accept_candidate-validated p n _ d) (λ c. tt)))

  activate_staged-Linked :
      (test : Option SelfTestResult) (s : State) (tx : Transaction) (d : Option DirectoryIdentity)
      → Linked s ((activate_staged acknowledged test s tx d).1)
  unfolding activate_staged abort_activation
  activate_staged-Linked test s tx none = tt
  activate_staged-Linked test s tx (some d) =
      elim (Bool-cases (not (s.phase == preparing) || not (tx.stage == verified))) [
        | inl y ↦ simp y tt
        | inr y ↦ elim (Bool-cases (test_passed test)) [
          | inl p ↦ simp (y, p) (commit-Linked s tx d)
          | inr p ↦ simp (y, p) (persist-Linked s _ _ (λ n. abort-validated s n _) (λ n. tt))
        ]
      ]

  activate_state-Linked :
      (test : Option SelfTestResult) (s : State) (t : Option Transaction)
      → Linked s ((activate_state acknowledged test s t).1)
  unfolding activate_state
  activate_state-Linked test s none = tt
  activate_state-Linked test s (some tx) = activate_staged-Linked test s tx tx.staging

  -- Every state that an activation writes, whatever the self test says and whichever writes fail,
  -- is accepted by the transition validator after the state written before it.
  pub activate-Linked :
      (test : Option SelfTestResult) (status : SelectionStatus) (s : State)
      → Linked s ((activate_verified_generation acknowledged test status (some s)).1)
  unfolding activate_verified_generation
  activate-Linked test selected s = activate_state-Linked test s s.transaction
  activate-Linked test SelectionStatus.repair_required s = tt
  activate-Linked test SelectionStatus.enrollment_incomplete s = tt

  pub persist-committed :
      (r : Result State) (rest : State → Activation)
      → (persist acknowledged r rest).0.committed ≡ true
      → (n : State) × (r ≡ ok n)
        × (acknowledged n ≡ true)
        × ((rest n).0.committed ≡ true)
        × ((persist acknowledged r rest).1 ≡ n ∷ (rest n).1)
  unfolding persist
  persist-committed (err e) rest h = absurd (ground arith)
  persist-committed (ok n) rest h = elim (Bool-cases (acknowledged n)) [
    | inl y ↦ (n, refl, y, ground arith, ground arith)
    | inr y ↦ absurd (ground arith)
  ]

  -- The release that was committed before, or an unacknowledged write where that is allowed.
  Keeps : Bool → State → State → Type 0
  Keeps passed s n = (n.committed ≡ s.committed) ⊎ ((passed ≡ true) × (acknowledged n ≡ false))

  Unswitched : Bool → State → Activation → Type 0
  Unswitched passed s a = Every (Keeps passed s) a.1

  -- A write that keeps the release, whatever the store answers.
  persist-kept :
      (passed : Bool) (s : State) (r : Result State) (rest : State → Activation)
      → ((n : State) → r ≡ ok n → n.committed ≡ s.committed)
      → ((n : State) → r ≡ ok n → (rest n).0.committed ≡ false → Unswitched passed s (rest n))
      → (persist acknowledged r rest).0.committed ≡ false
      → Unswitched passed s (persist acknowledged r rest)
  unfolding persist Unswitched Keeps
  persist-kept passed s (err e) rest k l h = tt
  persist-kept passed s (ok n) rest k l h = elim (Bool-cases (acknowledged n)) [
    | inl y ↦ rw y (inl (k n refl), l n refl (ground arith))
    | inr y ↦ rw y (inl (k n refl), tt)
  ]

  -- The last write of a commit is reported if the store acknowledges it.
  persist-last :
      (s : State) (r : Result State) (rest : State → Activation)
      → ((n : State) → (rest n).0.committed ≡ true)
      → (persist acknowledged r rest).0.committed ≡ false
      → Unswitched true s (persist acknowledged r rest)
  unfolding persist Unswitched Keeps
  persist-last s (err e) rest k h = tt
  persist-last s (ok n) rest k h = elim (Bool-cases (acknowledged n)) [
    | inl y ↦ absurd (ground (arith, k n))
    | inr y ↦ rw y (inr (refl, y), tt)
  ]

  pub advance-committed :
      (phase : Phase) (stage : TransactionStage) (s n : State) (tx : Transaction)
      → advance phase stage s tx ≡ ok n
      → n.committed ≡ s.committed
  unfolding advance
  advance-committed phase stage s n tx h = ground (arith, h)

  abort-committed :
      (s n : State) (code : String)
      → execute_precommit_abort s code ≡ ok n
      → n.committed ≡ s.committed
  unfolding execute_precommit_abort prune_unreferenced_evidence
  abort-committed s n code h = ground (arith, h)

  pub accepted-committed :
      (s n : State) (tx : Transaction) (d : DirectoryIdentity)
      → accept_candidate s tx d ≡ ok n
      → (n.committed ≡ some tx.candidate) × (n.previous ≡ s.committed) × (n.phase ≡ cleaning)
  unfolding accept_candidate prune_unreferenced_evidence
  accepted-committed s n tx d h = (ground (arith, h), ground (arith, h), ground (arith, h))

  commit-Unswitched :
      (s : State) (tx : Transaction) (d : DirectoryIdentity)
      → (commit_activation acknowledged s tx d).0.committed ≡ false
      → Unswitched true s (commit_activation acknowledged s tx d)
  unfolding commit_activation
  commit-Unswitched s tx d =
      persist-kept true s _ _ (λ q e. advance-committed _ _ s q tx e)
        (λ q e.
          persist-kept true s _ _
            (λ p e'. advance-committed _ _ q p _ e' ∙ advance-committed _ _ s q tx e)
            (λ p e'. persist-last s _ _ (λ c. refl)))

  activate_staged-Unswitched :
      (test : Option SelfTestResult) (s : State) (tx : Transaction) (d : Option DirectoryIdentity)
      → (activate_staged acknowledged test s tx d).0.committed ≡ false
      → Unswitched (test_passed test) s (activate_staged acknowledged test s tx d)
  unfolding activate_staged abort_activation Unswitched
  activate_staged-Unswitched test s tx none h = tt
  activate_staged-Unswitched test s tx (some d) h =
      elim (Bool-cases (not (s.phase == preparing) || not (tx.stage == verified))) [
        | inl y ↦ simp y tt
        | inr y ↦ elim (Bool-cases (test_passed test)) [
          | inl p ↦ simp (y, p) (commit-Unswitched s tx d (ground arith))
          | inr p ↦
              simp (y, p)
                (persist-kept false s _ _ (λ n e. abort-committed s n _ e) (λ n e k. tt)
                  (ground arith))
        ]
      ]

  activate_state-Unswitched :
      (test : Option SelfTestResult) (s : State) (t : Option Transaction)
      → (activate_state acknowledged test s t).0.committed ≡ false
      → Unswitched (test_passed test) s (activate_state acknowledged test s t)
  unfolding activate_state Unswitched
  activate_state-Unswitched test s none h = tt
  activate_state-Unswitched test s (some tx) h = activate_staged-Unswitched test s tx tx.staging h

  -- If an activation does not report a commit, every state that it handed to the store, whether it
  -- reached the disk or not, has the release that was committed before, except for a state whose
  -- write the store has not acknowledged, and that only after a passed self test.
  pub activate-Unswitched :
      (test : Option SelfTestResult) (status : SelectionStatus) (s : State)
      → (activate_verified_generation acknowledged test status (some s)).0.committed ≡ false
      → Every
          (λ (n : State).
            (n.committed ≡ s.committed) ⊎ ((test_passed test ≡ true) × (acknowledged n ≡ false)))
          ((activate_verified_generation acknowledged test status (some s)).1)
  unfolding activate_verified_generation Unswitched Keeps
  activate-Unswitched test selected s h = activate_state-Unswitched test s s.transaction h
  activate-Unswitched test SelectionStatus.repair_required s h = tt
  activate-Unswitched test SelectionStatus.enrollment_incomplete s h = tt
