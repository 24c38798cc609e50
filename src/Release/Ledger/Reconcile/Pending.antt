-- ===== src/Release/Ledger/Reconcile/Pending.antt =====
-- The recovery that a reconciliation reports.
use neko_family_proxy.Prelude.{
  ℕ, ◌≡◌, ◌∙◌, sym, ap, Option, none, some, List, [], ◌∷◌, arith, ok, leb, Bool, true, Bool-cases,
  inl, inr, if◌then◌else◌,
}
use neko_family_proxy.Release.Ledger.{
  LifecycleStatus, reserved, signed, ProductionBinding, LedgerEvent, VerifiedLedger,
}
use neko_family_proxy.Release.Ledger.Reconcile.{
  HistorySnapshot, RecoveryAction, signed_append_required, published_append_required,
  ReconciledAuthority, elem, latest_sequence_state, pending_action, check_sequence, note_recovery,
  check_bindings, reconcile,
}
use neko_family_proxy.Release.Ledger.Reconcile.Unused.{reconcile-authority}
use neko_family_proxy.Release.Ledger.Reconcile.Agreement.{
  check_sequence-parts, check_bindings-parts, check_bindings-skipped,
}

-- What a sequence needs whose newest event stands at a status and which is in `live/updates` or
-- not: an allocation whose signature has not been recorded, and a signature whose publication has
-- not.
abbrev pub needed : LifecycleStatus → Bool → Option RecoveryAction
needed reserved is_live = some signed_append_required
needed signed true = some published_append_required
needed _ _ = none

abbrev pub needed_by : Option LedgerEvent → Bool → Option RecoveryAction
needed_by none is_live = none
needed_by (some state) is_live = needed state.status is_live

abbrev pub noted : Option RecoveryAction → ℕ → List (RecoveryAction × ℕ) → List (RecoveryAction × ℕ)
noted none seq others = others
noted (some action) seq others = (action, seq) ∷ others

-- All the recoveries that the authenticated sequences above the floor need.
unfoldable pub recoveries :
    VerifiedLedger → HistorySnapshot → List (ℕ × ProductionBinding) → List (RecoveryAction × ℕ)
recoveries ledger history [] = []
recoveries ledger history ((seq, b) ∷ rest) =
    let others = recoveries ledger history rest in
    if leb seq ledger.genesis.floor_binding.sequence
    then others
    else noted
        (needed_by (latest_sequence_state seq ledger.events)
          (elem seq history.live_updates_sequences))
        seq others

abbrev pub listed : Option (RecoveryAction × ℕ) → List (RecoveryAction × ℕ)
listed none = []
listed (some r) = r ∷ []

abbrev after : Option (RecoveryAction × ℕ) → List (RecoveryAction × ℕ) → List (RecoveryAction × ℕ)
after none rs = rs
after (some r) rs = r ∷ rs

note_recovery-after :
    (seq : ℕ) (action : Option RecoveryAction) (recovery result : Option (RecoveryAction × ℕ))
    (others : List (RecoveryAction × ℕ))
    → note_recovery seq action recovery ≡ ok result
    → after result others ≡ after recovery (noted action seq others)
unfolding note_recovery
note_recovery-after seq none recovery result others h = ground arith
note_recovery-after seq (some action) none result others h = ground arith
note_recovery-after seq (some action) (some r) result others h = absurd (ground arith)

pending_action-needed :
    (status : LifecycleStatus) (is_live : Bool) (action : Option RecoveryAction)
    → pending_action status is_live ≡ ok action
    → needed status is_live ≡ action
unfolding pending_action
pending_action-needed status is_live action h = ground arith

module _ (ledger : VerifiedLedger) (history : HistorySnapshot) where
  check_sequence-needed :
      (seq : ℕ) (b : ProductionBinding) (action : Option RecoveryAction)
      → check_sequence ledger history seq b ≡ ok action
      → needed_by
          (latest_sequence_state seq ledger.events)
          (elem seq history.live_updates_sequences)
        ≡ action
  check_sequence-needed seq b action h =
      let (state, found, checked, pending) = check_sequence-parts ledger history seq b action h in
      rw found (pending_action-needed state.status _ action pending)

  check_bindings-recoveries :
      (items : List (ℕ × ProductionBinding)) (recovery result : Option (RecoveryAction × ℕ))
      → check_bindings ledger history items recovery ≡ ok result
      → after recovery (recoveries ledger history items) ≡ listed result
  unfolding check_bindings recoveries
  check_bindings-recoveries [] none result h = ground arith
  check_bindings-recoveries [] (some r) result h = ground arith
  check_bindings-recoveries ((seq, b) ∷ rest) recovery result h =
      elim (Bool-cases (leb seq ledger.genesis.floor_binding.sequence)) [
        | inl low ↦ rw low (
            check_bindings-recoveries rest recovery result
              (sym (check_bindings-skipped ledger history seq b rest recovery low) ∙ h))
        | inr high ↦
            let (action, next, c, n, later) =
              check_bindings-parts ledger history seq b rest recovery result (ground arith) h in
            rw (high, check_sequence-needed seq b action c)
              (sym (note_recovery-after seq action recovery next _ n)
                ∙ check_bindings-recoveries rest next result later)
      ]

-- The recovery that a reconciliation reports is the only one that the authenticated sequences above
-- the floor need, by the status of their newest event and by whether they are live: to record the
-- signature of a sequence at RESERVED, or the publication of a live one at SIGNED. A reconciliation
-- that reports none has none that is needed.
pub reconcile-recoveries :
    (ledger : VerifiedLedger) (history : HistorySnapshot) (a : ReconciledAuthority)
    → reconcile ledger history ≡ ok a
    → recoveries ledger history history.bindings_by_sequence ≡ listed a.recovery
reconcile-recoveries ledger history a h =
    let (recovery, same, floor_ok, authenticated_ok, bindings_ok) =
      reconcile-authority ledger history a h in
    check_bindings-recoveries ledger history history.bindings_by_sequence none recovery bindings_ok
    ∙ ap (λ c. listed c.recovery) (sym same)
