-- ===== src/Updater/Recovery/Steps.antt =====
-- What recovery writes from each phase: a legal, authentic, well-formed successor of lower rank.
use mathlib.Core.Path.{subst}
use neko_family_proxy.Prelude.{
  ℕ, ◌<◌, ◌≡◌, ◌⊎◌, inl, inr, refl, sym, true, false, Option, none, some, arith, ok, Option-cases,
}
use neko_family_proxy.Updater.Models.{
  idle, preparing, quiescing, probation, rolling_back, cleaning, RollbackMode, precommit,
  postcommit, Generation, Transaction, Rollback, State,
}
use neko_family_proxy.Updater.Models.Checks.{
  check_state, check_rollback, check_transaction, assert_hex, is_hex,
}
use neko_family_proxy.Updater.Models.Valid.{
  Each, GenerationIsValid, TransactionIsValid, RollbackIsValid, IsValid,
}
use neko_family_proxy.Updater.Models.Prune.{prune-ok, check_state-kept}
use neko_family_proxy.Updater.Successor.{Successor, settled, lookup-settled}
use neko_family_proxy.Updater.Transition.Legal.{
  Legal, Row, settle, restore_precommit, restore_postcommit, roll_back_quiescing,
  roll_back_probation,
}
use neko_family_proxy.Updater.Platform.{Platform}
use neko_family_proxy.Updater.Selector.{authenticate_evidence}
use neko_family_proxy.Updater.Selector.Authentic.{Parts, Successor-authentic}
use neko_family_proxy.Updater.Abort.Laws.{IsAborted, IsAborted-Legal, execute_precommit_abort-ok}
use neko_family_proxy.Updater.Rollback.{rollback_record, scratch_of}
use neko_family_proxy.Updater.Rollback.Initiate.{
  IsRollingBack, Successor-Legal, start_row, initiate_postcommit_rollback-ok,
}
use neko_family_proxy.Updater.Recovery.{
  Machine, write, present, cleaned_state, recovery_rollback, interrupted_state, completed_state,
  rollback_previous, pruned_write, decide_interrupted, missing_release, decide_idle, decide_phase,
  decide_next,
}
use neko_family_proxy.Updater.Recovery.Rank.{CanRecover, RollbackFits, rank}

-- What a recovery write promises.
pub record IsStep (platform : Platform) (s n : State) : Type 0 where
  pub successor : Successor s n
  pub valid : IsValid n
  pub legal : Legal s n
  pub authentic : authenticate_evidence platform s ≡ true → authenticate_evidence platform n ≡ true
  pub ready : CanRecover n
  pub falls : rank n < rank s

pruned_write-ok : (s : State) → check_state s ≡ ok tt → pruned_write s ≡ ok (write (settled s))
unfolding pruned_write
pruned_write-ok s h = simp (h, prune-ok s h)

probation_id-ok :
    (g : Generation) (t : Option Transaction)
    → Each TransactionIsValid t
    → check_rollback (recovery_rollback g t) ≡ ok tt
unfolding check_rollback check_transaction assert_hex is_hex
probation_id-ok g none v = refl
probation_id-ok g (some t) v = ground (arith, v.own)

mode-cases : (k : RollbackMode) → (k ≡ precommit) ⊎ (k ≡ postcommit)
mode-cases precommit = inl refl
mode-cases postcommit = inr refl

module _ (machine : Machine) (platform : Platform) (m : ℕ) (s : State) (v : IsValid s) where
  cleaned-check : check_state (cleaned_state s) ≡ ok tt
  unfolding check_state
  cleaned-check = ground (arith, v.own)

  pub cleaning-IsStep :
      s.phase ≡ cleaning
      → (decide_next machine m s ≡ ok (write (settled (cleaned_state s))))
        × IsStep platform s (settled (cleaned_state s))
  unfolding decide_next decide_phase rank
  cleaning-IsStep p =
      let n = settled (cleaned_state s) in
      let successor : Successor s n = record {
        revision = refl;
        installation = refl;
        protocol = refl;
        enrollment = refl;
        highwater = refl;
        observed = refl;
        evidence = λ k. lookup-settled k (cleaned_state s);
      } in
      (
        simp (p, pruned_write-ok (cleaned_state s) cleaned-check),
        record {
          successor = successor;
          valid = record {
            own = check_state-kept (cleaned_state s) cleaned-check;
            committed = v.committed;
            previous = v.previous;
            highwater = v.highwater;
            observed = v.observed;
            failed = v.failed;
            transaction = tt;
            cleanup = tt;
            rollback = tt;
          };
          legal = Successor-Legal successor (settle p refl refl);
          authentic = Successor-authentic platform s n successor (λ q. record {
            committed = q.committed;
            previous = q.previous;
            highwater = q.highwater;
            observed = q.observed;
            failed = q.failed;
            transaction = refl;
            rollback = refl;
            committed_release = q.committed_release;
            previous_release = q.previous_release;
            transaction_release = refl;
            rollback_release = refl;
          });
          ready = tt;
          falls = ground arith;
        },
      )

  aborted-Parts :
      (n : State)
      → IsAborted s "RECOVERY_ABORT" n
      → Parts platform s.evidence s
      → Parts platform s.evidence n
  aborted-Parts n a q = record {
    committed = rw a.committed q.committed;
    previous = rw a.previous q.previous;
    highwater = rw a.successor.highwater q.highwater;
    observed = rw a.successor.observed q.observed;
    failed = rw a.failed q.observed;
    transaction = rw a.transaction refl;
    rollback = rw a.rollback refl;
    committed_release = rw a.committed q.committed_release;
    previous_release = rw a.previous q.previous_release;
    transaction_release = rw a.transaction refl;
    rollback_release = rw a.rollback refl;
  }

  aborted_ready : (n : State) → IsAborted s "RECOVERY_ABORT" n → CanRecover n × (rank n < 4)
  unfolding rank
  aborted_ready n a = elim (Option-cases s.transaction) [
    | inl e ↦ (rw a.phase (rw e tt), ground arith)
    | inr (t, e) ↦ (rw a.phase (rw e tt), ground arith)
  ]

  pub preparing-IsStep :
      s.phase ≡ preparing
      → (n : State) × (decide_next machine m s ≡ ok (write n)) × IsStep platform s n
  unfolding decide_next decide_phase rank
  preparing-IsStep p =
      let (n, e, a, w) = execute_precommit_abort-ok s "RECOVERY_ABORT" v p in
      (
        n,
        simp (p, e),
        record {
          successor = a.successor;
          valid = w;
          legal = IsAborted-Legal s "RECOVERY_ABORT" n p a;
          authentic = Successor-authentic platform s n a.successor (aborted-Parts n a);
          ready = (aborted_ready n a).0;
          falls = ground (arith, (aborted_ready n a).1);
        },
      )

  interrupted-check : (r : Rollback) → check_state (interrupted_state s r) ≡ ok tt
  unfolding check_state
  interrupted-check r = ground (arith, v.own)

  interrupted_row :
      (g : Generation)
      → (s.phase ≡ quiescing) ⊎ (s.phase ≡ probation)
      → Row s (settled (interrupted_state s (recovery_rollback g s.transaction)))
  interrupted_row g (inl p) =
      roll_back_quiescing p refl (recovery_rollback g s.transaction) refl refl
  interrupted_row g (inr p) = roll_back_probation p refl (λ e. cc)

  pub interrupted-IsStep :
      (g : Generation)
      → (s.phase ≡ quiescing) ⊎ (s.phase ≡ probation)
      → s.committed ≡ some g
      → (n : State) × (decide_next machine m s ≡ ok (write n)) × IsStep platform s n
  unfolding decide_next decide_phase decide_interrupted rank
  interrupted-IsStep g p e =
      let r = recovery_rollback g s.transaction in
      let built = interrupted_state s r in
      let n = settled built in
      let successor : Successor s n = record {
        revision = refl;
        installation = refl;
        protocol = refl;
        enrollment = refl;
        highwater = refl;
        observed = refl;
        evidence = λ k. lookup-settled k built;
      } in
      let target : GenerationIsValid g = subst (Each GenerationIsValid) e v.committed in
      (
        n,
        ground (
          arith,
          probation_id-ok g s.transaction v.transaction,
          pruned_write-ok built (interrupted-check r),
        ),
        record {
          successor = successor;
          valid = record {
            own = check_state-kept built (interrupted-check r);
            committed = v.committed;
            previous = v.previous;
            highwater = v.highwater;
            observed = v.observed;
            failed = v.observed;
            transaction = tt;
            cleanup = tt;
            rollback = record {
              own = probation_id-ok g s.transaction v.transaction;
              target = target;
              scratch = tt;
            };
          };
          legal = Successor-Legal successor (interrupted_row g p);
          authentic = Successor-authentic platform s n successor (λ q. record {
            committed = q.committed;
            previous = q.previous;
            highwater = q.highwater;
            observed = q.observed;
            failed = q.observed;
            transaction = refl;
            rollback = rw e at q.committed;
            committed_release = q.committed_release;
            previous_release = q.previous_release;
            transaction_release = refl;
            rollback_release = rw e at q.committed_release;
          });
          ready = λ _. e;
          falls = ground arith;
        },
      )

  completed-check : check_state (completed_state s) ≡ ok tt
  unfolding check_state
  completed-check = ground (arith, v.own)

  completed_row :
      (r : Rollback)
      → s.phase ≡ rolling_back
      → s.rollback ≡ some r
      → RollbackFits (some r) s.committed
      → Row s (settled (completed_state s))
  completed_row r p e f = elim (mode-cases r.mode) [
    | inl k ↦ restore_precommit p (inr refl) r e k (rw e (sym (f k))) (ground arith) refl
    | inr k ↦ restore_postcommit p (inr refl) r e k (rw e refl) (ground arith) refl
  ]

  completed_previous :
      (r : Rollback) → s.rollback ≡ some r → Each GenerationIsValid (rollback_previous s s.rollback)
  completed_previous r e = elim (mode-cases r.mode) [
    | inl k ↦ rw (e, k) v.previous
    | inr k ↦ rw (e, k) tt
  ]

  completed-Parts :
      (r : Rollback)
      → s.rollback ≡ some r
      → Parts platform s.evidence s
      → Parts platform s.evidence (settled (completed_state s))
  completed-Parts r e q = record {
    committed = rw e (rw e at q.rollback);
    previous = elim (mode-cases r.mode) [ inl k ↦ rw (e, k) q.previous | inr k ↦ rw (e, k) refl ];
    highwater = q.highwater;
    observed = q.observed;
    failed = q.failed;
    transaction = refl;
    rollback = refl;
    committed_release = rw e (rw e at q.rollback_release);
    previous_release = elim (mode-cases r.mode) [
      | inl k ↦ rw (e, k) q.previous_release
      | inr k ↦ rw (e, k) refl
    ];
    transaction_release = refl;
    rollback_release = refl;
  }

  pub rolling_back-IsStep :
      (r : Rollback)
      → s.phase ≡ rolling_back
      → s.rollback ≡ some r
      → RollbackFits (some r) s.committed
      → (n : State) × (decide_next machine m s ≡ ok (write n)) × IsStep platform s n
  unfolding decide_next decide_phase rank
  rolling_back-IsStep r p e f =
      let built = completed_state s in
      let n = settled built in
      let successor : Successor s n = record {
        revision = refl;
        installation = refl;
        protocol = refl;
        enrollment = refl;
        highwater = refl;
        observed = refl;
        evidence = λ k. lookup-settled k built;
      } in
      let w : RollbackIsValid r = subst (Each RollbackIsValid) e v.rollback in
      (
        n,
        simp (p, pruned_write-ok built completed-check),
        record {
          successor = successor;
          valid = record {
            own = check_state-kept built completed-check;
            committed = rw e w.target;
            previous = completed_previous r e;
            highwater = v.highwater;
            observed = v.observed;
            failed = v.failed;
            transaction = tt;
            cleanup = tt;
            rollback = tt;
          };
          legal = Successor-Legal successor (completed_row r p e f);
          authentic = Successor-authentic platform s n successor (completed-Parts r e);
          ready = tt;
          falls = elim (mode-cases r.mode) [ inl k ↦ ground arith | inr k ↦ ground arith ];
        },
      )

  rolling_back_Ready :
      (r : Rollback) (n : State)
      → r.mode ≡ postcommit
      → IsRollingBack s "CORRUPT_COMMITTED" r n
      → CanRecover n
  rolling_back_Ready r n k a = rw (a.phase, a.rollback) (λ pre. absurd (cc))

  rollback-Parts :
      (g : Generation) (r : Rollback) (n : State)
      → s.previous ≡ some g
      → r.target ≡ g
      → IsRollingBack s "CORRUPT_COMMITTED" r n
      → Parts platform s.evidence s
      → Parts platform s.evidence n
  rollback-Parts g r n e t a q = record {
    committed = rw a.committed q.committed;
    previous = rw a.previous q.previous;
    highwater = rw a.successor.highwater q.highwater;
    observed = rw a.successor.observed q.observed;
    failed = rw a.failed q.observed;
    transaction = rw a.transaction refl;
    rollback = rw a.rollback (rw t (rw e at q.previous));
    committed_release = rw a.committed q.committed_release;
    previous_release = rw a.previous q.previous_release;
    transaction_release = rw a.transaction refl;
    rollback_release = rw a.rollback (rw t (rw e at q.previous_release));
  }

  pub idle-IsStep :
      (g : Generation)
      → s.phase ≡ idle
      → present machine s.committed ≡ false
      → s.previous ≡ some g
      → is_hex 32 (machine.token m) ≡ true
      → (n : State) × (decide_next machine m s ≡ ok (write n)) × IsStep platform s n
  unfolding decide_next decide_phase decide_idle missing_release rank
  idle-IsStep g p missing e h =
      let r = rollback_record g (machine.token m) (scratch_of s.cleanup) in
      let (n, done, a, w) =
        initiate_postcommit_rollback-ok s "CORRUPT_COMMITTED" (machine.token m) g v (inl p) e h in
      (
        n,
        ground (arith, done),
        record {
          successor = a.successor;
          valid = w;
          legal = Successor-Legal a.successor (start_row (inl p) e a);
          authentic = Successor-authentic platform s n a.successor (rollback-Parts g r n e refl a);
          ready = rolling_back_Ready r n refl a;
          falls = ground (arith, a.phase, a.rollback);
        },
      )
