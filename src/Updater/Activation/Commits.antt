-- ===== src/Updater/Activation/Commits.antt =====
-- What an activation that reports a commit has done.
use neko_family_proxy.Prelude.{
  ◌≡◌, ◌∙◌, refl, inl, inr, String, Bool, true, Option, none, some, List, [], ◌∷◌, ap, arith,
  Bool-cases, not, ◌||◌, ◌==◌,
}
use neko_family_proxy.Updater.Models.{
  preparing, verified, cleaning, DirectoryIdentity, Transaction, State,
}
use neko_family_proxy.Updater.Models.Equality.{phase_eq, transaction_stage_eq}
use neko_family_proxy.Updater.Selector.{SelectionStatus, selected}
use neko_family_proxy.Updater.Activation.{
  SelfTestResult, test_code, test_passed, abort_activation, commit_activation, activate_staged,
  activate_state, activate_verified_generation,
}
use neko_family_proxy.Updater.Activation.Writes.{
  persist-committed, advance-committed, accepted-committed,
}

-- Three acknowledged writes, of which the last makes the candidate of the transaction the
-- committed release and the release before it the backup.
pub record Commits (acknowledged : State → Bool) (s : State) (tx : Transaction)
    (writes : List State) : Type 0 where
  pub first : State
  pub second : State
  pub last : State
  pub writes_are : writes ≡ first ∷ second ∷ last ∷ []
  pub first_acknowledged : acknowledged first ≡ true
  pub second_acknowledged : acknowledged second ≡ true
  pub last_acknowledged : acknowledged last ≡ true
  pub committed : last.committed ≡ some tx.candidate
  pub previous : last.previous ≡ s.committed
  pub phase : last.phase ≡ cleaning

module _ (acknowledged : State → Bool) where
  commit_activation-Commits :
      (s : State) (tx : Transaction) (d : DirectoryIdentity)
      → (commit_activation acknowledged s tx d).0.committed ≡ true
      → Commits acknowledged s tx ((commit_activation acknowledged s tx d).1)
  unfolding commit_activation
  commit_activation-Commits s tx d h =
      let (q, eq, dq, hq, wq) = persist-committed acknowledged _ _ h in
      let (p, ep, dp, hp, wp) = persist-committed acknowledged _ _ hq in
      let (c, ec, dc, hc, wc) = persist-committed acknowledged _ _ hp in
      let (new, old, phase) = accepted-committed acknowledged p c _ d ec in
      record {
        first = q;
        second = p;
        last = c;
        writes_are = wq ∙ ap (λ w. q ∷ w) (wp ∙ ap (λ w. p ∷ w) wc);
        first_acknowledged = dq;
        second_acknowledged = dp;
        last_acknowledged = dc;
        committed = new;
        previous =
            old
            ∙ (advance-committed acknowledged _ _ q p _ ep
                ∙ advance-committed acknowledged _ _ s q tx eq);
        phase = phase;
      }

  aborts :
      (s : State) (code : String) → (abort_activation acknowledged s code).0.committed ≡ true → ⊥
  unfolding abort_activation
  aborts s code h =
      let (n, e, d, k, w) = persist-committed acknowledged _ _ h in absurd (ground arith)

  activate_staged-Commits :
      (test : Option SelfTestResult) (s : State) (tx : Transaction) (d : Option DirectoryIdentity)
      → (activate_staged acknowledged test s tx d).0.committed ≡ true
      → (s.phase ≡ preparing)
        × (tx.stage ≡ verified)
        × (test_passed test ≡ true)
        × Commits acknowledged s tx ((activate_staged acknowledged test s tx d).1)
  unfolding activate_staged
  activate_staged-Commits test s tx none h = absurd (ground arith)
  activate_staged-Commits test s tx (some d) h =
      elim (Bool-cases (not (s.phase == preparing) || not (tx.stage == verified))) [
        | inl y ↦ absurd (ground (arith, h))
        | inr y ↦ elim (Bool-cases (test_passed test)) [
          | inl p ↦ (
            ground arith,
            ground arith,
            p,
            simp (y, p) (commit_activation-Commits s tx d (ground (arith, h))),
          )
          | inr p ↦ absurd (aborts s (test_code test) (ground (arith, h)))
        ]
      ]

  activate_state-Commits :
      (test : Option SelfTestResult) (s : State) (t : Option Transaction)
      → (activate_state acknowledged test s t).0.committed ≡ true
      → (tx : Transaction) × (t ≡ some tx)
        × (s.phase ≡ preparing)
        × (tx.stage ≡ verified)
        × (test_passed test ≡ true)
        × Commits acknowledged s tx ((activate_state acknowledged test s t).1)
  unfolding activate_state
  activate_state-Commits test s none h = absurd (ground arith)
  activate_state-Commits test s (some tx) h =
      let (p, q, r, c) = activate_staged-Commits test s tx tx.staging h in (tx, refl, p, q, r, c)

  -- An activation reports a commit only from a state in PREPARING whose transaction is verified,
  -- after a self test that passed and three acknowledged writes, the last of which commits the
  -- candidate and keeps the release before it as the backup.
  pub activate-Commits :
      (test : Option SelfTestResult) (status : SelectionStatus) (s : State)
      → (activate_verified_generation acknowledged test status (some s)).0.committed ≡ true
      → (tx : Transaction) × (s.transaction ≡ some tx)
        × (s.phase ≡ preparing)
        × (tx.stage ≡ verified)
        × (test_passed test ≡ true)
        × Commits acknowledged s tx
            ((activate_verified_generation acknowledged test status (some s)).1)
  unfolding activate_verified_generation
  activate-Commits test selected s h = activate_state-Commits test s s.transaction h
  activate-Commits test SelectionStatus.repair_required s h = absurd (ground arith)
  activate-Commits test SelectionStatus.enrollment_incomplete s h = absurd (ground arith)
