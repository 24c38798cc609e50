-- ===== src/Release/Ledger/Histories.antt =====
-- What a sequence can go through.
pub mod Extend
pub mod Verified
use neko_family_proxy.Prelude.{
  ℕ, ◌≡◌, ◌≢◌, refl, ◌∙◌, sym, ap, String, Bool, true, false, Option, none, some, List, [], ◌∷◌,
  ◌++◌, map, arith, Result, ok, err, Check, Option-cases, Bool-cases, inl, inr, ==-self, eq_law,
  ◌==◌, string_eq, if◌then◌else◌,
}
use neko_family_proxy.Updater.Json.Equal.{json_eq}
use neko_family_proxy.Release.Ledger.{
  LifecycleStatus, reserved, signed, published, failed, retired, status_eq, status_beq_iff,
  LedgerEvent,
}
use neko_family_proxy.Release.Ledger.Lifecycle.{
  allowed, truthy, SignedFields, signed_fields, check_allocation, check_history,
  check_signed_fields, check_unchanged, signed_of, last_of,
}
use neko_family_proxy.Release.Ledger.Session.Tracking.{
  last_status, Follows, check_history-Follows, signed_of-snoc, signed_of-snoc_some,
}

-- The histories of a sequence.
pub data IsTrace : List LifecycleStatus → Type 0 where
  unused : IsTrace []
  held : IsTrace (reserved ∷ [])
  given_up : IsTrace (reserved ∷ failed ∷ [])
  sealed : IsTrace (reserved ∷ signed ∷ [])
  withdrawn : IsTrace (reserved ∷ signed ∷ failed ∷ [])
  live : IsTrace (reserved ∷ signed ∷ published ∷ [])
  ended : IsTrace (reserved ∷ signed ∷ published ∷ retired ∷ [])

abbrev pub statuses : List LedgerEvent → List LifecycleStatus
statuses [] = []
statuses (e ∷ rest) = e.status ∷ statuses rest

abbrev pub SameAllocation : LedgerEvent → LedgerEvent → Type 0
SameAllocation a b =
    (b.release_id ≡ a.release_id)
    × (b.version ≡ a.version)
    × (b.channel ≡ a.channel)
    × (b.source_commit ≡ a.source_commit)
    × (b.component_set_sha256 ≡ a.component_set_sha256)

abbrev pub Carries : SignedFields → LedgerEvent → Type 0
Carries f e =
    (e.payload_sha256 ≡ f.payload_sha256)
    × (e.envelope_sha256 ≡ f.envelope_sha256)
    × (e.key_id ≡ f.key_id)

abbrev pub IsComplete : SignedFields → Type 0
IsComplete f =
    (truthy f.payload_sha256 ≡ true) × (truthy f.envelope_sha256 ≡ true) × (truthy f.key_id ≡ true)

pub data Each (P : LedgerEvent → Type 0) : List LedgerEvent → Type 0 where
  no_more : Each P []
  this : {e : LedgerEvent} {rest : List LedgerEvent} → P e → Each P rest → Each P (e ∷ rest)

-- The events from the first SIGNED one on.
unfoldable pub from_signed : List LedgerEvent → List LedgerEvent
from_signed [] = []
from_signed (e ∷ rest) =
    let others = from_signed rest in if e.status == signed then e ∷ rest else others

abbrev pub AllocatedOnce : List LedgerEvent → Type 0
AllocatedOnce [] = Unit
AllocatedOnce (first ∷ rest) = Each (SameAllocation first) rest

pub record IsLife (es : List LedgerEvent) : Type 0 where
  pub trace : IsTrace (statuses es)
  pub allocation : AllocatedOnce es
  pub after_signing :
      (f : SignedFields) → signed_of es ≡ some f → IsComplete f × Each (Carries f) (from_signed es)
