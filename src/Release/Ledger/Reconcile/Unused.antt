-- ===== src/Release/Ledger/Reconcile/Unused.antt =====
-- The next unused sequence.
use neko_family_proxy.Prelude.{
  ℕ, ◌≤◌, ◌<◌, ◌≡◌, refl, Option, none, List, [], ◌∷◌, arith, ok, Result-cases, inl, inr, eq_law,
  ==-self, nat_eq, string_eq,
}
use neko_family_proxy.Release.Ledger.{LedgerEvent, VerifiedLedger, status_eq, reserved}
use neko_family_proxy.Release.Ledger.Lifecycle.{
  check_history, check_signed_fields, check_unchanged, events_of, signed_of,
}
use neko_family_proxy.Release.Ledger.Session.{check_append}
use neko_family_proxy.Release.Ledger.Reconcile.{
  HistorySnapshot, RecoveryAction, ReconciledAuthority, find_key, larger, largest, max_default,
  keys, consumed, authority_of, check_floor, check_ledger_sequences, check_bindings,
  sequences_above, reconcile,
}

largest-read_first_line : (ms : List ℕ) (n : ℕ) → n ≤ largest n ms
unfolding largest
largest-read_first_line [] n = omega arith
largest-read_first_line (m ∷ ms) n = ground (arith, largest-read_first_line ms (larger n m))

largest-unseen :
    (es : List LedgerEvent) (n seq : ℕ) → largest n (consumed es) < seq → events_of seq es ≡ []
unfolding largest events_of
largest-unseen [] n seq h = refl
largest-unseen (e ∷ es) n seq h = ground (
  arith,
  largest-unseen es (larger n e.sequence) seq h,
  largest-read_first_line (consumed es) (larger n e.sequence),
  eq_law e.sequence seq,
)

events_of-above :
    (es : List LedgerEvent) (d seq : ℕ) → max_default (consumed es) d < seq → events_of seq es ≡ []
unfolding max_default
events_of-above [] d seq h = unfold events_of in refl
events_of-above (e ∷ es) d seq h =
    largest-unseen (e ∷ es) e.sequence seq (unfold largest in ground (arith, h))

largest-unbound :
    {A : Type 0}
    → (items : List (ℕ × A)) (n seq : ℕ) → largest n (keys items) < seq
    → find_key seq items ≡ none
unfolding largest find_key
largest-unbound [] n seq h = refl
largest-unbound ((key, v) ∷ items) n seq h = ground (
  arith,
  largest-unbound items (larger n key) seq h,
  largest-read_first_line (keys items) (larger n key),
  eq_law key seq,
)

find_key-above :
    {A : Type 0}
    → (items : List (ℕ × A)) (d seq : ℕ) → max_default (keys items) d < seq
    → find_key seq items ≡ none
unfolding max_default
find_key-above [] d seq h = unfold find_key in refl
find_key-above ((key, v) ∷ items) d seq h =
    largest-unbound ((key, v) ∷ items) key seq (unfold largest in ground (arith, h))

pub reconcile-authority :
    (ledger : VerifiedLedger) (history : HistorySnapshot) (a : ReconciledAuthority)
    → reconcile ledger history ≡ ok a
    → (recovery : Option (RecoveryAction × ℕ)) × (a ≡ authority_of ledger history recovery)
      × (check_floor ledger history ≡ ok tt)
      × (check_ledger_sequences
            (sequences_above ledger.genesis.floor_binding.sequence ledger.events)
            ledger
            history
          ≡ ok tt)
      × (check_bindings ledger history history.bindings_by_sequence none ≡ ok recovery)
unfolding reconcile
reconcile-authority ledger history a h =
    elim (Result-cases (check_bindings ledger history history.bindings_by_sequence none)) [
      | inr (x, r) ↦ absurd (ground arith)
      | inl (recovery, r) ↦ (recovery, ground arith, ground arith, ground arith, r)
    ]

-- The sequence that a reconciliation gives out is new: it is above the genesis floor, no event of
-- the ledger has it, and no authenticated release has it.
pub reconcile-unused :
    (ledger : VerifiedLedger) (history : HistorySnapshot) (a : ReconciledAuthority)
    → reconcile ledger history ≡ ok a
    → (ledger.genesis.floor_binding.sequence < a.next_unused_sequence)
      × (events_of a.next_unused_sequence ledger.events ≡ [])
      × (find_key a.next_unused_sequence history.bindings_by_sequence ≡ none)
reconcile-unused ledger history a h =
    let (recovery, same, floor_ok, authenticated_ok, bindings_ok) =
      reconcile-authority ledger history a h in
    let floor = ledger.genesis.floor_binding.sequence in
    rw same (
      ground arith,
      events_of-above ledger.events floor _ (ground arith),
      find_key-above history.bindings_by_sequence floor _ (ground arith),
    )

-- A reservation of the sequence that a reconciliation gives out passes all the checks of `append`,
-- if it names the ledger's head as the entry before it.
pub check_append-reserved :
    (ledger : VerifiedLedger) (history : HistorySnapshot) (a : ReconciledAuthority)
    (e : LedgerEvent)
    → reconcile ledger history ≡ ok a
    → e.sequence ≡ a.next_unused_sequence
    → e.status ≡ reserved
    → e.previous_entry_sha256 ≡ ledger.latest_entry_sha256
    → check_append ledger e a.latest_ledger_entry_sha256 ≡ ok tt
unfolding check_append check_history check_unchanged check_signed_fields signed_of
check_append-reserved ledger history a e h s r p =
    let (above, unused, unbound) = reconcile-unused ledger history a h in
    let (recovery, same, floor_ok, authenticated_ok, bindings_ok) =
      reconcile-authority ledger history a h in
    let head : a.latest_ledger_entry_sha256 ≡ ledger.latest_entry_sha256 = rw same refl in
    ground (arith, head, s, r, p, above, unused, ==-self ledger.latest_entry_sha256)
