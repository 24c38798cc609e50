-- ===== src/Release/Ledger/Reconcile.antt =====
-- `reconcile_ledger_with_authenticated_history`. A dictionary whose keys are sequences is the list of
-- its items in ascending order of the keys, which is the order in which the loop visits them.
pub mod Unused
pub mod Agreement
pub mod Pending
pub mod Exact
use neko_family_proxy.Prelude.{
  ℕ, ◌+◌, String, Bool, true, false, not, ◌&&◌, Option, none, some, List, [], ◌∷◌, leb, ltb,
  is_some, is_none, Result, Check, ok, err, reconciliation_required, provenance_required, raise_if,
  ◌>>=◌, ◌>>◌, ◌==◌, ◌!=◌, string_eq, nat_eq, if◌then◌else◌,
}
use neko_family_proxy.Updater.Json.{Json, null, text}
use neko_family_proxy.Updater.Json.Equal.{json_eq}
use neko_family_proxy.Release.Ledger.{
  LifecycleStatus, reserved, signed, published, failed, retired, ProductionBinding, production_eq,
  LedgerEvent, VerifiedLedger,
}

pub record HistorySnapshot : Type 0 where
  pub bindings_by_sequence : List (ℕ × ProductionBinding)
  -- a source commit or `None`
  pub provenance_source_commit_by_sequence : List (ℕ × Json)
  pub live_updates_sequences : List ℕ
  pub highest_authenticated_sequence : ℕ
  pub authenticated_bindings_sha256 : String
  pub snapshot_sha256 : String

pub data RecoveryAction : Type 0 where
  signed_append_required published_append_required : RecoveryAction

pub record ReconciledAuthority : Type 0 where
  pub authenticated_bindings_sha256 : String
  pub history_snapshot_sha256 : String
  pub genesis_floor_sequence : ℕ
  pub latest_ledger_entry_sha256 : String
  pub highest_authenticated_sequence : ℕ
  pub highest_consumed_sequence : ℕ
  pub next_unused_sequence : ℕ
  -- `recovery_action` and `recovery_sequence`
  pub recovery : Option (RecoveryAction × ℕ)

-- `d.get(seq)`
unfoldable pub find_key : {A : Type 0} → ℕ → List (ℕ × A) → Option A
find_key seq [] = none
find_key seq ((key, v) ∷ rest) =
    let others = find_key seq rest in if key == seq then some v else others

-- `seq in s`
unfoldable pub elem : ℕ → List ℕ → Bool
elem seq [] = false
elem seq (n ∷ rest) = let others = elem seq rest in if n == seq then true else others

unfoldable pub latest_sequence_state : ℕ → List LedgerEvent → Option LedgerEvent
latest_sequence_state seq [] = none
latest_sequence_state seq (e ∷ rest) = elim (latest_sequence_state seq rest) [
  | some later ↦ some later
  | none ↦ if e.sequence == seq then some e else none
]

-- `sorted({...})`
unfoldable pub insert : ℕ → List ℕ → List ℕ
insert n [] = n ∷ []
insert n (m ∷ rest) =
    let others = insert n rest in
    if n == m then m ∷ rest else if ltb n m then n ∷ m ∷ rest else m ∷ others

unfoldable pub sequences_above : ℕ → List LedgerEvent → List ℕ
sequences_above floor [] = []
sequences_above floor (e ∷ rest) =
    let others = sequences_above floor rest in
    if ltb floor e.sequence then insert e.sequence others else others

-- `status in ("SIGNED", "PUBLISHED", "RETIRED")`
abbrev pub has_signature : LifecycleStatus → Bool
has_signature signed = true
has_signature published = true
has_signature retired = true
has_signature _ = false

abbrev pub must_be_authenticated : Option LedgerEvent → Bool
must_be_authenticated none = false
must_be_authenticated (some state) = has_signature state.status

unfoldable pub check_ledger_sequences : List ℕ → VerifiedLedger → HistorySnapshot → Check
check_ledger_sequences [] ledger history = ok tt
check_ledger_sequences (seq ∷ rest) ledger history = do
  raise_if
      (must_be_authenticated (latest_sequence_state seq ledger.events)
        && is_none (find_key seq history.bindings_by_sequence))
      (reconciliation_required "Ledger sequence missing from authenticated history")
  check_ledger_sequences rest ledger history

unfoldable pub check_floor : VerifiedLedger → HistorySnapshot → Check
check_floor ledger history =
    elim (find_key ledger.genesis.floor_binding.sequence history.bindings_by_sequence) [
      | none ↦ err (reconciliation_required "Genesis floor sequence missing")
      | some floor ↦
          raise_if (floor != ledger.genesis.floor_binding)
            (reconciliation_required "Genesis floor binding changed")
    ]

-- the commit that the history has for a sequence; `null` where it has none
abbrev pub provenance_of : ℕ → HistorySnapshot → Json
provenance_of seq history = elim (find_key seq history.provenance_source_commit_by_sequence) [
  | some v ↦ v
  | none ↦ null
]

unfoldable pub check_floor_provenance : VerifiedLedger → HistorySnapshot → Check
check_floor_provenance ledger history =
    let prov = provenance_of ledger.genesis.floor_binding.sequence history in
    raise_if
      (ledger.genesis.floor_provenance_source_commit != null
        && prov != null
        && prov != ledger.genesis.floor_provenance_source_commit)
      (provenance_required "Genesis floor provenance mismatch")

-- a field that the ledger has no value for is not compared
abbrev pub differs : String → Json → Bool
differs authenticated field = field != null && text authenticated != field

unfoldable pub check_auth_binding : ProductionBinding → LedgerEvent → Check
check_auth_binding b state = do
  raise_if (b.release_id != state.release_id) (reconciliation_required "release_id mismatch")
  raise_if (differs b.payload_sha256 state.payload_sha256)
      (reconciliation_required "payload_sha256 mismatch")
  raise_if (differs b.envelope_sha256 state.envelope_sha256)
      (reconciliation_required "envelope_sha256 mismatch")
  raise_if (differs b.key_id state.key_id) (reconciliation_required "key_id mismatch")

-- the recovery that the ledger needs for an authenticated sequence
unfoldable pub pending_action : LifecycleStatus → Bool → Result (Option RecoveryAction)
pending_action reserved is_live = ok (some signed_append_required)
pending_action signed true = ok (some published_append_required)
pending_action signed false = ok none
pending_action published is_live = ok none
pending_action failed false = ok none
pending_action retired false = ok none
pending_action _ _ = err (reconciliation_required "Terminal sequence present in live updates")

-- the checks of a round
unfoldable pub check_sequence :
    VerifiedLedger → HistorySnapshot → ℕ → ProductionBinding → Result (Option RecoveryAction)
check_sequence ledger history seq b = elim (latest_sequence_state seq ledger.events) [
  | none ↦ err (reconciliation_required "Authenticated sequence has no ledger allocation")
  | some state ↦ do
    check_auth_binding b state
    let prov = provenance_of seq history
    raise_if (prov != null && prov != text state.source_commit)
        (provenance_required "provenance source commit disagrees")
    pending_action state.status (elem seq history.live_updates_sequences)
]

-- at most one recovery is pending
unfoldable pub note_recovery :
    ℕ → Option RecoveryAction → Option (RecoveryAction × ℕ) → Result (Option (RecoveryAction × ℕ))
note_recovery seq none recovery = ok recovery
note_recovery seq (some action) none = ok (some (action, seq))
note_recovery seq (some action) (some earlier) =
    err (reconciliation_required "Multiple simultaneous pending recovery actions")

unfoldable pub check_bindings :
    VerifiedLedger
    → HistorySnapshot
    → List (ℕ × ProductionBinding)
    → Option (RecoveryAction × ℕ)
    → Result (Option (RecoveryAction × ℕ))
check_bindings ledger history [] recovery = ok recovery
check_bindings ledger history ((seq, b) ∷ rest) recovery =
    let skip = check_bindings ledger history rest recovery in
    if leb seq ledger.genesis.floor_binding.sequence then skip else (do
      action ← check_sequence ledger history seq b
      noted ← note_recovery seq action recovery
      check_bindings ledger history rest noted)

-- `max(a, b)`
abbrev pub larger : ℕ → ℕ → ℕ
larger a b = if ltb a b then b else a

unfoldable pub largest : ℕ → List ℕ → ℕ
largest n [] = n
largest n (m ∷ rest) = largest (larger n m) rest

-- `max(ns, default=n)`
unfoldable pub max_default : List ℕ → ℕ → ℕ
max_default [] n = n
max_default (m ∷ rest) n = largest m rest

abbrev pub keys : {A : Type 0} → List (ℕ × A) → List ℕ
keys [] = []
keys ((key, v) ∷ rest) = key ∷ keys rest

abbrev pub consumed : List LedgerEvent → List ℕ
consumed [] = []
consumed (e ∷ rest) = e.sequence ∷ consumed rest

-- the authority that the checks lead to
abbrev pub authority_of :
    VerifiedLedger → HistorySnapshot → Option (RecoveryAction × ℕ) → ReconciledAuthority
authority_of ledger history recovery =
    let floor = ledger.genesis.floor_binding.sequence in
    let authenticated = max_default (keys history.bindings_by_sequence) floor in
    let used = max_default (consumed ledger.events) floor in
    record {
      authenticated_bindings_sha256 = history.authenticated_bindings_sha256;
      history_snapshot_sha256 = history.snapshot_sha256;
      genesis_floor_sequence = floor;
      latest_ledger_entry_sha256 = ledger.latest_entry_sha256;
      highest_authenticated_sequence = authenticated;
      highest_consumed_sequence = used;
      next_unused_sequence = larger (larger floor authenticated) used + 1;
      recovery = recovery;
    }

unfoldable pub reconcile : VerifiedLedger → HistorySnapshot → Result ReconciledAuthority
reconcile ledger history = do
  check_floor ledger history
  check_floor_provenance ledger history
  let above = sequences_above ledger.genesis.floor_binding.sequence ledger.events
  check_ledger_sequences above ledger history
  recovery ← check_bindings ledger history history.bindings_by_sequence none
  ok (authority_of ledger history recovery)
