-- ===== src/Release/Ledger/Reconcile/Exact.antt =====
-- The verifier and the reconciliation together.
use neko_family_proxy.Prelude.{
  ℕ, ◌<◌, ◌≡◌, refl, ◌∙◌, sym, ap, String, Bool, true, false, Option, none, some, List, [], ◌∷◌,
  arith, ok, is_some, Option-cases, Bool-cases, inl, inr, ◌==◌, nat_eq, if◌then◌else◌,
}
use neko_family_proxy.Updater.Frame.Words.{Bytes}
use neko_family_proxy.Updater.Json.{Json, text}
use neko_family_proxy.Release.Ledger.{
  LifecycleStatus, signed, status_eq, ProductionBinding, LedgerEvent, VerifiedLedger,
}
use neko_family_proxy.Release.Ledger.Lifecycle.{truthy, last_of, SignedFields, events_of, signed_of}
use neko_family_proxy.Release.Ledger.Verify.{LedgerPlatform, verify_ledger}
use neko_family_proxy.Release.Ledger.Histories.{
  IsTrace, unused, held, given_up, sealed, withdrawn, live, ended, statuses, Each, this,
  from_signed, IsLife,
}
use neko_family_proxy.Release.Ledger.Histories.Verified.{verify_ledger-IsLife}
use neko_family_proxy.Release.Ledger.Histories.Extend.{last_step, last_step-statuses}
use neko_family_proxy.Release.Ledger.Session.Tracking.{last_status}
use neko_family_proxy.Release.Ledger.Reconcile.{
  HistorySnapshot, ReconciledAuthority, find_key, latest_sequence_state, has_signature, reconcile,
}
use neko_family_proxy.Release.Ledger.Reconcile.Agreement.{Matches, reconcile-Agrees}

abbrev last_event : List LedgerEvent → Option LedgerEvent
last_event [] = none
last_event (e ∷ rest) = some (last_of e rest)

abbrev last_or : LedgerEvent → Option LedgerEvent → Option LedgerEvent
last_or e none = some e
last_or e (some later) = some later

last_event-cons :
    (e : LedgerEvent) (es : List LedgerEvent) → last_event (e ∷ es) ≡ last_or e (last_event es)
unfolding last_of
last_event-cons e [] = refl
last_event-cons e (x ∷ es) = refl

-- The search from the end finds the last event of the sequence.
latest_sequence_state-last :
    (seq : ℕ) (es : List LedgerEvent) → latest_sequence_state seq es ≡ last_event (events_of seq es)
unfolding latest_sequence_state events_of
latest_sequence_state-last seq [] = refl
latest_sequence_state-last seq (e ∷ es) =
    let rest = latest_sequence_state-last seq es in
    let last = last_event-cons e (events_of seq es) in
    elim (Bool-cases (e.sequence == seq)) [
      | inl same ↦ elim (Option-cases (last_event (events_of seq es))) [
        | inl missing ↦ ground (arith, rest, last, same, missing)
        | inr (s, found) ↦ ground (arith, rest, last, same, found)
      ]
      | inr other ↦ elim (Option-cases (last_event (events_of seq es))) [
        | inl missing ↦ ground (arith, rest, last, other, missing)
        | inr (s, found) ↦ ground (arith, rest, last, other, found)
      ]
    ]

each-last :
    {P : LedgerEvent → Type 0}
    → (x : LedgerEvent) (es : List LedgerEvent) → Each P (x ∷ es)
    → P (last_of x es)
unfolding last_of
each-last x [] (this p h) = p
each-last x (y ∷ es) (this p h) = each-last y es h

each-found :
    {P : LedgerEvent → Type 0}
    → (es : List LedgerEvent) (e : LedgerEvent) → Each P es
    → last_event es ≡ some e
    → P e
each-found [] e h l = absurd (ground arith)
each-found {P = P} (x ∷ es) e h l =
    let same : last_of x es ≡ e = ground arith in rw same at (each-last {P = P} x es h)

from_signed-last :
    (es : List LedgerEvent) (f : SignedFields)
    → signed_of es ≡ some f
    → last_event (from_signed es) ≡ last_event es
unfolding signed_of from_signed last_of
from_signed-last [] f h = absurd (ground arith)
from_signed-last (x ∷ []) f h = ground arith
from_signed-last (x ∷ y ∷ es) f h = elim (Bool-cases (x.status == signed)) [
  | inl here ↦ ground (arith, here)
  | inr other ↦ rw other (from_signed-last (y ∷ es) f (ground (arith, h, other)))
]

abbrev has_signed : List LifecycleStatus → Bool
has_signed [] = false
has_signed (s ∷ rest) = if s == signed then true else has_signed rest

signed_of-statuses : (es : List LedgerEvent) → is_some (signed_of es) ≡ has_signed (statuses es)
unfolding signed_of
signed_of-statuses [] = refl
signed_of-statuses (e ∷ es) = ground (arith, signed_of-statuses es)

has_signed-trace :
    (ss : List LifecycleStatus) (s : LifecycleStatus)
    → IsTrace ss
    → last_step ss ≡ some s
    → has_signature s ≡ true
    → has_signed ss ≡ true
has_signed-trace _ s unused l h = absurd (ground arith)
has_signed-trace _ s held l h = absurd (ground arith)
has_signed-trace _ s given_up l h = absurd (ground arith)
has_signed-trace _ s sealed l h = refl
has_signed-trace _ s withdrawn l h = refl
has_signed-trace _ s live l h = refl
has_signed-trace _ s ended l h = refl

last_event-status :
    (es : List LedgerEvent) (e : LedgerEvent)
    → last_event es ≡ some e
    → last_status es ≡ some e.status
last_event-status [] e l = absurd (ground arith)
last_event-status (x ∷ es) e l = ground arith

trace-signed :
    (es : List LedgerEvent) (e : LedgerEvent)
    → IsTrace (statuses es)
    → last_event es ≡ some e
    → has_signature e.status ≡ true
    → has_signed (statuses es) ≡ true
trace-signed es e t l s =
    has_signed-trace (statuses es) e.status t (last_step-statuses es ∙ last_event-status es e l) s

Matches-exactly :
    (s : String) (field : Json) → Matches s field → truthy field ≡ true → field ≡ text s
Matches-exactly s field (inl empty) h = absurd (ground (arith, empty, h))
Matches-exactly s field (inr same) h = same

-- The newest event of a verified sequence that was signed has all its signed fields.
life-whole :
    (es : List LedgerEvent) (e : LedgerEvent)
    → IsLife es
    → last_event es ≡ some e
    → has_signature e.status ≡ true
    → (truthy e.payload_sha256 ≡ true)
      × (truthy e.envelope_sha256 ≡ true)
      × (truthy e.key_id ≡ true)
life-whole es e life l s = elim (Option-cases (signed_of es)) [
  | inl none_yet ↦
      absurd (ground (arith, signed_of-statuses es, trace-signed es e life.trace l s, none_yet))
  | inr (f, found) ↦
      let (whole, kept) = life.after_signing f found in
      let carried = each-found (from_signed es) e kept (from_signed-last es f found ∙ l) in
      (ap truthy carried.0 ∙ whole.0, ap truthy carried.1 ∙ whole.1, ap truthy carried.2 ∙ whole.2)
]

module _ (platform : LedgerPlatform) where
  -- If a ledger verifies and is reconciled with the authenticated history, then each of its
  -- sequences above the genesis floor that stands at SIGNED, PUBLISHED or RETIRED is authenticated
  -- with exactly the release id, the two digests and the key id that the ledger records for it.
  pub reconcile-exact :
      (file : Option Bytes) (ledger : VerifiedLedger) (history : HistorySnapshot)
      (a : ReconciledAuthority) (seq : ℕ) (state : LedgerEvent)
      → verify_ledger platform file ≡ ok ledger
      → reconcile ledger history ≡ ok a
      → latest_sequence_state seq ledger.events ≡ some state
      → ledger.genesis.floor_binding.sequence < seq
      → has_signature state.status ≡ true
      → (b : ProductionBinding) × (find_key seq history.bindings_by_sequence ≡ some b)
        × (b.release_id ≡ state.release_id)
        × (state.payload_sha256 ≡ text b.payload_sha256)
        × (state.envelope_sha256 ≡ text b.envelope_sha256)
        × (state.key_id ≡ text b.key_id)
  reconcile-exact file ledger history a seq state v h found f s =
      let (floor_kept, agreed, bound) = reconcile-Agrees ledger history a h in
      let (b, here) = bound seq state found f s in
      let (other, found', agrees, admitted) = agreed seq b here f in
      let same : other ≡ state = ground (arith, found, found') in
      let agrees = rw same at agrees in
      let last = sym (latest_sequence_state-last seq ledger.events) ∙ found in
      let whole =
        life-whole (events_of seq ledger.events) state
          (verify_ledger-IsLife platform file ledger v seq) last s in
      (
        b,
        here,
        agrees.release_id,
        Matches-exactly _ _ agrees.payload_sha256 whole.0,
        Matches-exactly _ _ agrees.envelope_sha256 whole.1,
        Matches-exactly _ _ agrees.key_id whole.2,
      )
