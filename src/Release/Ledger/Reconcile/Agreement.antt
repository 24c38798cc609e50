-- ===== src/Release/Ledger/Reconcile/Agreement.antt =====
-- What a reconciliation has established between the ledger and the authenticated history.

use neko_family_proxy.Prelude.{
  ℕ, ◌<◌, ◌≡◌, ◌≢◌, ◌⊎◌, refl, ◌∙◌, sym, ap, String, Bool, true, false, ◌&&◌, Option, none, some,
  List, [], ◌∷◌, arith, ok, leb, is_some, is_none, Result-cases, Option-cases, Bool-cases, inl, inr,
  eq_law, ◌==◌, nat_eq, string_eq, if◌then◌else◌,
}
use neko_family_proxy.Updater.Json.{Json, null, text}
use neko_family_proxy.Updater.Json.Equal.{json_eq}
use neko_family_proxy.Release.Ledger.{
  failed, retired, ProductionBinding, production_eq, LedgerEvent, VerifiedLedger,
}
use neko_family_proxy.Release.Ledger.Reconcile.{
  HistorySnapshot, RecoveryAction, ReconciledAuthority, find_key, elem, latest_sequence_state,
  insert, sequences_above, has_signature, must_be_authenticated, check_ledger_sequences,
  check_floor, differs, check_auth_binding, pending_action, check_sequence, note_recovery,
  check_bindings, reconcile,
}
use neko_family_proxy.Release.Ledger.Reconcile.Unused.{reconcile-authority}

-- A field that the ledger has is the authenticated one.
abbrev pub Matches : String → Json → Type 0
Matches authenticated field = (field ≡ null) ⊎ (field ≡ text authenticated)

-- The newest event of an authenticated sequence agrees with its binding.
pub record Agrees (b : ProductionBinding) (state : LedgerEvent) : Type 0 where
  pub release_id : b.release_id ≡ state.release_id
  pub payload_sha256 : Matches b.payload_sha256 state.payload_sha256
  pub envelope_sha256 : Matches b.envelope_sha256 state.envelope_sha256
  pub key_id : Matches b.key_id state.key_id

-- No terminal sequence is live.
abbrev pub IsAdmitted : LedgerEvent → Bool → Type 0
IsAdmitted state is_live = is_live ≡ true → (state.status ≢ failed) × (state.status ≢ retired)

differs-Matches : (s : String) (field : Json) → differs s field ≡ false → Matches s field
differs-Matches s field h = elim (Bool-cases (field == null)) [
  | inl empty ↦ inl ((eq_law field null).0 empty)
  | inr other ↦ inr (ground (arith, eq_law (text s) field))
]

check_auth_binding-Agrees :
    (b : ProductionBinding) (state : LedgerEvent)
    → check_auth_binding b state ≡ ok tt
    → Agrees b state
unfolding check_auth_binding
check_auth_binding-Agrees b state h = record {
  release_id = ground (arith, eq_law b.release_id state.release_id);
  payload_sha256 = differs-Matches _ _ (ground arith);
  envelope_sha256 = differs-Matches _ _ (ground arith);
  key_id = differs-Matches _ _ (ground arith);
}

pending_action-IsAdmitted :
    (state : LedgerEvent) (is_live : Bool) (action : Option RecoveryAction)
    → pending_action state.status is_live ≡ ok action
    → IsAdmitted state is_live
unfolding pending_action
pending_action-IsAdmitted state is_live action h l =
    (λ f. ground (arith, l, f), λ f. ground (arith, l, f))

module _ (ledger : VerifiedLedger) (history : HistorySnapshot) where
  pub check_sequence-parts :
      (seq : ℕ) (b : ProductionBinding) (action : Option RecoveryAction)
      → check_sequence ledger history seq b ≡ ok action
      → (state : LedgerEvent) × (latest_sequence_state seq ledger.events ≡ some state)
        × (check_auth_binding b state ≡ ok tt)
        × (pending_action state.status (elem seq history.live_updates_sequences) ≡ ok action)
  unfolding check_sequence
  check_sequence-parts seq b action h =
      elim (Option-cases (latest_sequence_state seq ledger.events)) [
        | inl missing ↦ absurd (ground arith)
        | inr (state, found) ↦ (state, found, ground arith, ground arith)
      ]

  -- A round that is not skipped has checked its sequence.
  pub check_bindings-parts :
      (seq : ℕ) (b : ProductionBinding) (rest : List (ℕ × ProductionBinding))
      (recovery result : Option (RecoveryAction × ℕ))
      → ledger.genesis.floor_binding.sequence < seq
      → check_bindings ledger history ((seq, b) ∷ rest) recovery ≡ ok result
      → (action : Option RecoveryAction) × (noted : Option (RecoveryAction × ℕ)) × (check_sequence
            ledger history seq b
          ≡ ok action)
        × (note_recovery seq action recovery ≡ ok noted)
        × (check_bindings ledger history rest noted ≡ ok result)
  unfolding check_bindings
  check_bindings-parts seq b rest recovery result f h =
      elim (Result-cases (check_sequence ledger history seq b)) [
        | inr (x, c) ↦ absurd (ground arith)
        | inl (action, c) ↦ elim (Result-cases (note_recovery seq action recovery)) [
          | inr (x, n) ↦ absurd (ground arith)
          | inl (noted, n) ↦ (action, noted, c, n, ground arith)
        ]
      ]

  pub check_bindings-skipped :
      (seq : ℕ) (b : ProductionBinding) (rest : List (ℕ × ProductionBinding))
      (recovery : Option (RecoveryAction × ℕ))
      → leb seq ledger.genesis.floor_binding.sequence ≡ true
      → check_bindings ledger history ((seq, b) ∷ rest) recovery
        ≡ check_bindings ledger history rest recovery
  unfolding check_bindings
  check_bindings-skipped seq b rest recovery h = ground arith

  check_bindings-checked :
      (items : List (ℕ × ProductionBinding)) (recovery result : Option (RecoveryAction × ℕ))
      (seq : ℕ) (b : ProductionBinding)
      → check_bindings ledger history items recovery ≡ ok result
      → find_key seq items ≡ some b
      → ledger.genesis.floor_binding.sequence < seq
      → (action : Option RecoveryAction) × (check_sequence ledger history seq b ≡ ok action)
  unfolding find_key
  check_bindings-checked [] recovery result seq b h l f = absurd (ground arith)
  check_bindings-checked ((key, v) ∷ rest) recovery result seq b h l f =
      elim (Bool-cases (leb key ledger.genesis.floor_binding.sequence)) [
        | inl low ↦
            check_bindings-checked rest recovery result seq b
              (sym (check_bindings-skipped key v rest recovery low) ∙ h)
              (ground (arith, eq_law key seq)) f
        | inr high ↦
            let (action, noted, c, n, later) =
              check_bindings-parts key v rest recovery result (ground arith) h in
            elim (Bool-cases (key == seq)) [
              | inl same ↦ (action, ground (arith, eq_law key seq))
              | inr other ↦ check_bindings-checked rest noted result seq b later (ground arith) f
            ]
      ]

elem-insert :
    (n seq : ℕ) (ns : List ℕ) → elem seq (insert n ns) ≡ (if n == seq then true else elem seq ns)
unfolding elem insert
elem-insert n seq [] = refl
elem-insert n seq (m ∷ ns) = ground (arith, elem-insert n seq ns, eq_law n m)

elem-sequences_above :
    (floor seq : ℕ) (es : List LedgerEvent)
    → floor < seq
    → is_some (latest_sequence_state seq es) ≡ true
    → elem seq (sequences_above floor es) ≡ true
unfolding latest_sequence_state sequences_above
elem-sequences_above floor seq [] f h = absurd (ground arith)
elem-sequences_above floor seq (e ∷ es) f h = ground (
  arith,
  elem-insert e.sequence seq (sequences_above floor es),
  elem-sequences_above floor seq es f,
  eq_law e.sequence seq,
)

check_ledger_sequences-bound :
    (seqs : List ℕ) (ledger : VerifiedLedger) (history : HistorySnapshot) (seq : ℕ)
    → check_ledger_sequences seqs ledger history ≡ ok tt
    → elem seq seqs ≡ true
    → must_be_authenticated (latest_sequence_state seq ledger.events) ≡ true
    → is_none (find_key seq history.bindings_by_sequence) ≡ false
unfolding check_ledger_sequences elem
check_ledger_sequences-bound [] ledger history seq h m s = absurd (ground arith)
check_ledger_sequences-bound (n ∷ rest) ledger history seq h m s = elim (Bool-cases (n == seq)) [
  | inl same ↦ ground (
    arith,
    ap
        (λ k.
          must_be_authenticated (latest_sequence_state k ledger.events)
          && is_none (find_key k history.bindings_by_sequence))
        ((eq_law n seq).0 same),
  )
  | inr other ↦ check_ledger_sequences-bound rest ledger history seq (ground arith) (ground arith) s
]

module _ (ledger : VerifiedLedger) (history : HistorySnapshot) where
  floor-bound :
      check_floor ledger history ≡ ok tt
      → find_key ledger.genesis.floor_binding.sequence history.bindings_by_sequence
        ≡ some ledger.genesis.floor_binding
  unfolding check_floor
  floor-bound h =
      elim (Option-cases
        (find_key ledger.genesis.floor_binding.sequence history.bindings_by_sequence)) [
          | inl missing ↦ absurd (ground arith)
          | inr (floor, found) ↦ ground (arith, eq_law floor ledger.genesis.floor_binding)
        ]

  bound-Agrees :
      (recovery : Option (RecoveryAction × ℕ)) (seq : ℕ) (b : ProductionBinding)
      → check_bindings ledger history history.bindings_by_sequence none ≡ ok recovery
      → find_key seq history.bindings_by_sequence ≡ some b
      → ledger.genesis.floor_binding.sequence < seq
      → (state : LedgerEvent) × (latest_sequence_state seq ledger.events ≡ some state)
        × Agrees b state
        × IsAdmitted state (elem seq history.live_updates_sequences)
  bound-Agrees recovery seq b h l f =
      let (action, c) =
        check_bindings-checked ledger history history.bindings_by_sequence none recovery seq b h l
          f in
      let (state, found, checked, pending) = check_sequence-parts ledger history seq b action c in
      (
        state,
        found,
        check_auth_binding-Agrees b state checked,
        pending_action-IsAdmitted state _ action pending,
      )

  signed-bound :
      (seq : ℕ) (state : LedgerEvent)
      → check_ledger_sequences
          (sequences_above ledger.genesis.floor_binding.sequence ledger.events)
          ledger
          history
        ≡ ok tt
      → latest_sequence_state seq ledger.events ≡ some state
      → ledger.genesis.floor_binding.sequence < seq
      → has_signature state.status ≡ true
      → (b : ProductionBinding) × (find_key seq history.bindings_by_sequence ≡ some b)
  signed-bound seq state h found f s =
      let above =
        elem-sequences_above ledger.genesis.floor_binding.sequence seq ledger.events f
          (rw found refl) in
      let here = check_ledger_sequences-bound _ ledger history seq h above (rw found s) in
      elim (Option-cases (find_key seq history.bindings_by_sequence)) [
        | inl missing ↦ absurd (ground (arith, here, missing))
        | inr bound ↦ bound
      ]

-- A reconciliation that succeeds has matched the two sides: the history's binding of the genesis
-- floor is the ledger's; every authenticated sequence above the floor has an event, the newest of
-- which agrees with the binding and is not FAILED or RETIRED if the sequence is live; and every
-- sequence above the floor that stands at SIGNED, PUBLISHED or RETIRED is authenticated.
pub reconcile-Agrees :
    (ledger : VerifiedLedger) (history : HistorySnapshot) (a : ReconciledAuthority)
    → reconcile ledger history ≡ ok a
    → (find_key ledger.genesis.floor_binding.sequence history.bindings_by_sequence
        ≡ some ledger.genesis.floor_binding)
      × ((seq : ℕ) (b : ProductionBinding)
          → find_key seq history.bindings_by_sequence ≡ some b
          → ledger.genesis.floor_binding.sequence < seq
          → (state : LedgerEvent) × (latest_sequence_state seq ledger.events ≡ some state)
            × Agrees b state
            × IsAdmitted state (elem seq history.live_updates_sequences))
      × ((seq : ℕ) (state : LedgerEvent)
          → latest_sequence_state seq ledger.events ≡ some state
          → ledger.genesis.floor_binding.sequence < seq
          → has_signature state.status ≡ true
          → (b : ProductionBinding) × (find_key seq history.bindings_by_sequence ≡ some b))
reconcile-Agrees ledger history a h =
    let (recovery, same, floor_ok, authenticated_ok, bindings_ok) =
      reconcile-authority ledger history a h in
    (
      floor-bound ledger history floor_ok,
      λ seq b l f. bound-Agrees ledger history recovery seq b bindings_ok l f,
      λ seq state found f s. signed-bound ledger history seq state authenticated_ok found f s,
    )
