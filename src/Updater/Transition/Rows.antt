-- ===== src/Updater/Transition/Rows.antt =====
-- The phase matrix against the rows of the table, in both directions.
use neko_family_proxy.Prelude.{
  ◌≡◌, ◌⊎◌, inl, inr, refl, not, ◌&&◌, ltb, none, some, arith, ok, option_eq, eq_law, Option-cases,
  Bool-cases,
}
use neko_family_proxy.Updater.Models.{
  Phase, enrolling, idle, preparing, quiescing, probation, rolling_back, cleaning, repair_required,
  RollbackMode, precommit, postcommit, Rollback, State,
}
use neko_family_proxy.Updater.Models.Equality.{phase_beq, generation_eq, binding_eq}
use neko_family_proxy.Updater.Transition.{
  check_phases, check_matrix, from_enrolling, from_idle, from_preparing, from_quiescing,
  from_probation, from_rolling_back, from_cleaning, idle_to_idle, precommit_abort, commit,
  completion_mode, rollback_completion, admission_shape, admission_floor, sequence_of,
}
use neko_family_proxy.Updater.Transition.Admits.{
  admission-Admits, Admits-shape, Admits-floor, Admits-evidence,
}
use neko_family_proxy.Updater.Transition.Legal.{
  Row, repair, mirror, enroll, complete_enrollment, admit, prepare, roll_back_idle, build, quiesce,
  abort, probe, roll_back_quiescing, accept, roll_back_probation, roll_on, restore_precommit,
  restore_postcommit, clean_on, settle, roll_back_cleaning,
}

module _ (c n : State) where
  enrolling_row :
      (np : Phase) → c.phase ≡ enrolling → n.phase ≡ np → from_enrolling c n np ≡ ok tt → Row c n
  unfolding from_enrolling
  enrolling_row enrolling p q h = mirror p q
  enrolling_row idle p q h = enroll p q (λ e. ground arith) (λ e. ground arith)
  enrolling_row _ p q h = ground arith

  idle_row : (np : Phase) → c.phase ≡ idle → n.phase ≡ np → from_idle c n np ≡ ok tt → Row c n
  unfolding from_idle idle_to_idle
  idle_row idle p q h = elim (Bool-cases (ltb (admission_floor c) (sequence_of n.highwater))) [
    | inl above ↦ elim (Bool-cases (admission_shape c n)) [
      | inl shape ↦ elim (Bool-cases (not c.enrollment_complete && n.enrollment_complete)) [
        | inl fresh ↦ complete_enrollment p q (ground arith) (ground arith)
        | inr old ↦ let (b, a) = admission-Admits c n shape above (ground arith) in admit p q b a
      ]
      | inr other ↦ complete_enrollment p q (ground arith) (ground arith)
    ]
    | inr below ↦ complete_enrollment p q (ground arith) (ground arith)
  ]
  idle_row preparing p q h = elim (Option-cases n.transaction) [
    | inl e ↦ ground arith
    | inr (t, e) ↦ prepare p q t e (ground arith) (ground (arith, eq_law t.old c.committed))
  ]
  idle_row rolling_back p q h = elim (Option-cases n.rollback) [
    | inl e ↦ ground arith
    | inr (r, e) ↦ roll_back_idle p q (λ e'. ground arith) r e (ground arith)
  ]
  idle_row _ p q h = ground arith

  abort_row :
      c.phase ≡ preparing
      → (n.phase ≡ cleaning) ⊎ (n.phase ≡ idle)
      → precommit_abort c n ≡ ok tt
      → Row c n
  unfolding precommit_abort
  abort_row p q h =
      abort p q (ground (arith, eq_law n.committed c.committed))
        (ground (arith, eq_law n.previous c.previous)) (ground arith)
        (ground (arith, eq_law n.failed c.observed))

  preparing_row :
      (np : Phase) → c.phase ≡ preparing → n.phase ≡ np → from_preparing c n np ≡ ok tt → Row c n
  unfolding from_preparing
  preparing_row preparing p q h = build p q
  preparing_row quiescing p q h = elim (Option-cases c.transaction) [
    | inl e ↦ ground arith
    | inr (t, e) ↦ quiesce p q t e (ground arith)
  ]
  preparing_row cleaning p q h = abort_row p (inl q) h
  preparing_row idle p q h = abort_row p (inr q) h
  preparing_row _ p q h = ground arith

  quiescing_row :
      (np : Phase) → c.phase ≡ quiescing → n.phase ≡ np → from_quiescing c n np ≡ ok tt → Row c n
  unfolding from_quiescing
  quiescing_row probation p q h = probe p q
  quiescing_row rolling_back p q h = elim (Option-cases n.rollback) [
    | inl e ↦ ground arith
    | inr (r, e) ↦ roll_back_quiescing p q r e (ground arith)
  ]
  quiescing_row _ p q h = ground arith

  probation_row :
      (np : Phase) → c.phase ≡ probation → n.phase ≡ np → from_probation c n np ≡ ok tt → Row c n
  unfolding from_probation commit
  probation_row cleaning p q h = elim (Option-cases c.transaction) [
    | inl e ↦ ground arith
    | inr (t, e) ↦
        accept p q t e (ground (arith, eq_law n.committed (some t.candidate)))
          (ground (arith, eq_law n.previous c.committed)) (ground arith)
  ]
  probation_row rolling_back p q h = roll_back_probation p q (λ e. ground arith)
  probation_row _ p q h = ground arith

  completion_row :
      (r : Rollback) (m : RollbackMode)
      → c.phase ≡ rolling_back
      → (n.phase ≡ cleaning) ⊎ (n.phase ≡ idle)
      → c.rollback ≡ some r
      → r.mode ≡ m
      → completion_mode m r.target c n ≡ ok tt
      → n.rollback ≡ none
      → Row c n
  unfolding completion_mode
  completion_row r precommit p q e m h f =
      restore_precommit p q r e m (ground (arith, eq_law n.committed c.committed))
        (ground (arith, eq_law n.previous c.previous)) f
  completion_row r postcommit p q e m h f =
      restore_postcommit p q r e m (ground (arith, eq_law n.committed (some r.target)))
        (ground arith) f

  restore_row :
      c.phase ≡ rolling_back
      → (n.phase ≡ cleaning) ⊎ (n.phase ≡ idle)
      → rollback_completion c.rollback c n ≡ ok tt
      → Row c n
  unfolding rollback_completion
  restore_row p q h = elim (Option-cases c.rollback) [
    | inl e ↦ ground arith
    | inr (r, e) ↦ completion_row r r.mode p q e refl (ground arith) (ground arith)
  ]

  rolling_back_row :
      (np : Phase)
      → c.phase ≡ rolling_back
      → n.phase ≡ np
      → from_rolling_back c n np ≡ ok tt
      → Row c n
  unfolding from_rolling_back
  rolling_back_row rolling_back p q h = roll_on p q
  rolling_back_row cleaning p q h = restore_row p (inl q) h
  rolling_back_row idle p q h = restore_row p (inr q) h
  rolling_back_row _ p q h = ground arith

  cleaning_row :
      (np : Phase) → c.phase ≡ cleaning → n.phase ≡ np → from_cleaning c n np ≡ ok tt → Row c n
  unfolding from_cleaning
  cleaning_row cleaning p q h = clean_on p q
  cleaning_row idle p q h = settle p q (ground arith)
  cleaning_row rolling_back p q h = roll_back_cleaning p q (λ e. ground arith)
  cleaning_row _ p q h = ground arith

  -- A phase check that passes is a row of the table.
  pub check_phases-Row : check_phases c n ≡ ok tt → Row c n
  unfolding check_phases check_matrix
  check_phases-Row h = elim (Bool-cases (phase_beq n.phase repair_required)) [
    | inl e ↦ repair (ground arith)
    | inr e ↦ matrix c.phase refl (ground arith)
  ]
    where
      matrix : (cp : Phase) → c.phase ≡ cp → check_matrix c n cp n.phase ≡ ok tt → Row c n
      matrix enrolling p k = enrolling_row n.phase p refl k
      matrix idle p k = idle_row n.phase p refl k
      matrix preparing p k = preparing_row n.phase p refl k
      matrix quiescing p k = quiescing_row n.phase p refl k
      matrix probation p k = probation_row n.phase p refl k
      matrix rolling_back p k = rolling_back_row n.phase p refl k
      matrix cleaning p k = cleaning_row n.phase p refl k
      matrix repair_required p k = ground arith

  -- Every row of the table passes the phase check.
  pub Row-check_phases : Row c n → check_phases c n ≡ ok tt
  unfolding check_phases check_matrix from_enrolling from_idle from_preparing from_quiescing
      from_probation from_rolling_back from_cleaning
  Row-check_phases (repair q) = ground arith
  Row-check_phases (mirror p q) = ground arith
  Row-check_phases (enroll p q a b) = grind arith
  Row-check_phases (complete_enrollment p q a b) = unfold idle_to_idle in ground arith
  Row-check_phases (admit p q b a) =
      unfold idle_to_idle in
      ground (arith, Admits-shape c n b a, Admits-floor c n b a, Admits-evidence c n b a)
  Row-check_phases (prepare p q t e f g) = ground (arith, eq_law t.old c.committed)
  Row-check_phases (roll_back_idle p q a r e f) = grind arith
  Row-check_phases (build p q) = ground arith
  Row-check_phases (quiesce p q t e f) = ground arith
  Row-check_phases (abort p q a b e f) =
      unfold precommit_abort in
      ground (
        arith,
        eq_law n.committed c.committed,
        eq_law n.previous c.previous,
        eq_law n.failed c.observed,
      )
  Row-check_phases (probe p q) = ground arith
  Row-check_phases (roll_back_quiescing p q r e f) = ground arith
  Row-check_phases (accept p q t e a b f) =
      unfold commit in
      ground (arith, eq_law n.committed (some t.candidate), eq_law n.previous c.committed)
  Row-check_phases (roll_back_probation p q a) = grind arith
  Row-check_phases (roll_on p q) = ground arith
  Row-check_phases (restore_precommit p q r e m a b f) =
      unfold rollback_completion completion_mode in
      ground (arith, eq_law n.committed c.committed, eq_law n.previous c.previous)
  Row-check_phases (restore_postcommit p q r e m a b f) =
      unfold rollback_completion completion_mode in
      ground (arith, eq_law n.committed (some r.target))
  Row-check_phases (clean_on p q) = ground arith
  Row-check_phases (settle p q a) = ground arith
  Row-check_phases (roll_back_cleaning p q a) = grind arith
