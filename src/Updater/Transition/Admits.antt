-- ===== src/Updater/Transition/Admits.antt =====
-- The authority admission, IDLE to IDLE: what an enrolled installation may change when it accepts a
-- release as the next candidate.
use neko_family_proxy.Prelude.{
  ◌<◌, ◌∙◌, sym, ◌≡◌, ◌≢◌, true, none, some, arith, ok, ltb, Option-cases, inl, inr, eq_law,
  option_eq,
}
use neko_family_proxy.Updater.Json.{null}
use neko_family_proxy.Updater.Json.Equal.{json_eq}
use neko_family_proxy.Updater.Models.{Binding, State}
use neko_family_proxy.Updater.Models.Equality.{binding_eq, generation_eq}
use neko_family_proxy.Updater.Models.Evidence.{lookup, keys_included, same_keys}
use neko_family_proxy.Updater.Transition.{
  sequence_of, generation_sequence, admission_shape, admission_floor, check_admission_evidence,
}
use neko_family_proxy.Updater.Transition.Entries.{
  Preserved, AddsOnly, included_iff, present_iff, AddsOnly-iff, keys-Preserved,
}

-- The candidate becomes both floors, above the highwater and the committed release. Its envelope is
-- the only new evidence. Everything else that an enrolled installation holds stays or is clear.
pub record Admits (c n : State) (candidate : Binding) : Type 0 where
  pub enrolled_before : c.enrollment_complete ≡ true
  pub enrolled : n.enrollment_complete ≡ true
  pub committed : n.committed ≡ c.committed
  pub previous : n.previous ≡ c.previous
  pub failed : n.failed ≡ c.failed
  pub transaction : n.transaction ≡ none
  pub cleanup : n.cleanup ≡ none
  pub rollback : n.rollback ≡ none
  pub last_error : n.last_error ≡ null
  pub highwater : n.highwater ≡ some candidate
  pub observed : n.observed ≡ some candidate
  pub above_highwater : sequence_of c.highwater < candidate.release_sequence
  pub above_committed : generation_sequence c.committed < candidate.release_sequence
  pub preserved : Preserved c.evidence n.evidence
  pub added : AddsOnly candidate.payload_sha256 n.evidence c.evidence
  pub recorded : lookup candidate.payload_sha256 n.evidence ≢ none

module _ (c n : State) where
  shape-last_error : admission_shape c n ≡ true → n.last_error ≡ null
  unfolding admission_shape
  shape-last_error s = (eq_law n.last_error null).0 (ground arith)

  shape_keeps :
      admission_shape c n ≡ true
      → (n.committed ≡ c.committed) × (n.previous ≡ c.previous) × (n.failed ≡ c.failed)
  unfolding admission_shape
  shape_keeps s = (
    (eq_law n.committed c.committed).0 (ground arith),
    (eq_law n.previous c.previous).0 (ground arith),
    (eq_law n.failed c.failed).0 (ground arith),
  )

  shape_clears :
      admission_shape c n ≡ true
      → (c.enrollment_complete ≡ true)
        × (n.enrollment_complete ≡ true)
        × (n.transaction ≡ none)
        × (n.cleanup ≡ none)
        × (n.rollback ≡ none)
  unfolding admission_shape
  shape_clears s = (ground arith, ground arith, ground arith, ground arith, ground arith)

  shape-observed :
      (b : Binding) → admission_shape c n ≡ true → n.highwater ≡ some b → n.observed ≡ some b
  unfolding admission_shape
  shape-observed b s h = sym ((eq_law n.highwater n.observed).0 (ground arith)) ∙ h

  shape-highwater : admission_shape c n ≡ true → n.highwater ≢ none
  unfolding admission_shape
  shape-highwater s = λ e. ground arith

  pub admission-Admits :
      admission_shape c n ≡ true
      → ltb (admission_floor c) (sequence_of n.highwater) ≡ true
      → check_admission_evidence c n ≡ ok tt
      → (candidate : Binding) × Admits c n candidate
  unfolding admission_floor check_admission_evidence same_keys keys_included
  admission-Admits s f e = elim (Option-cases n.highwater) [
    | inl missing ↦ absurd (shape-highwater s missing)
    | inr (b, h) ↦
        let (committed, previous, failed) = shape_keeps s in
        let (before, after, transaction, cleanup, rollback) = shape_clears s in
        (
          b,
          record {
            enrolled_before = before;
            enrolled = after;
            committed = committed;
            previous = previous;
            failed = failed;
            transaction = transaction;
            cleanup = cleanup;
            rollback = rollback;
            last_error = shape-last_error s;
            highwater = h;
            observed = shape-observed b s h;
            above_highwater = ground arith;
            above_committed = ground arith;
            preserved = (included_iff c.evidence n.evidence).0 (ground arith);
            added = (AddsOnly-iff b.payload_sha256 "" n.evidence c.evidence).0 (ground arith);
            recorded = (present_iff (lookup b.payload_sha256 n.evidence)).0 (ground arith);
          },
        )
  ]

  module _ (b : Binding) (a : Admits c n b) where
    pub Admits-shape : admission_shape c n ≡ true
    unfolding admission_shape
    Admits-shape = ground (
      arith,
      a.enrolled_before,
      a.enrolled,
      a.transaction,
      a.cleanup,
      a.rollback,
      (eq_law n.last_error null).1 a.last_error,
      a.highwater,
      a.observed,
      (eq_law n.committed c.committed).1 a.committed,
      (eq_law n.previous c.previous).1 a.previous,
      (eq_law n.failed c.failed).1 a.failed,
      eq_law n.highwater n.observed,
    )

    pub Admits-floor : ltb (admission_floor c) (sequence_of n.highwater) ≡ true
    unfolding admission_floor
    Admits-floor = ground (arith, a.highwater, a.above_highwater, a.above_committed)

    pub Admits-evidence : check_admission_evidence c n ≡ ok tt
    unfolding check_admission_evidence same_keys keys_included
    Admits-evidence =
        let kept = (included_iff c.evidence n.evidence).1 a.preserved in
        let added = (AddsOnly-iff b.payload_sha256 "" n.evidence c.evidence).1 a.added in
        let recorded = (present_iff (lookup b.payload_sha256 n.evidence)).1 a.recorded in
        ground (
          arith,
          a.highwater,
          kept,
          added,
          recorded,
          keys-Preserved c.evidence n.evidence a.preserved,
        )
