-- ===== src/Release/Ledger.antt =====
-- scripts/production_sequence_ledger.py: the records of the ledger and their dictionaries. A
-- `Literal` of strings is a data type. A field that is read with `body.get` is the JSON value that
-- it finds.
pub mod Lines
pub mod Lifecycle
pub mod Verify
pub mod Session
pub mod Histories
pub mod Reconcile
pub mod Supersession
pub mod Samples
pub mod Tests
use neko_family_proxy.Prelude.{
  ℕ, String, Bool, true, false, Option, none, some, List, [], ◌∷◌, ◌++◌, Eq, ◌≡◌, ◌↔◌, arith, ◌==◌,
  ◌&&◌, nat_eq, string_eq, eq_law,
}
use neko_family_proxy.Updater.Json.{Json, null, number, text, object, Members, no_members, member}

pub data LifecycleStatus : Type 0 where
  reserved signed published failed retired : LifecycleStatus

abbrev pub status_beq : LifecycleStatus → LifecycleStatus → Bool
status_beq reserved reserved = true
status_beq signed signed = true
status_beq published published = true
status_beq failed failed = true
status_beq retired retired = true
status_beq _ _ = false

pub status_beq_iff : (a b : LifecycleStatus) → (status_beq a b ≡ true) ↔ (a ≡ b)
status_beq_iff a b = ground arith

instance abbrev pub status_eq : Eq LifecycleStatus
status_eq = record { beq = status_beq; beq_iff = status_beq_iff }

pub record ProductionBinding : Type 0 where
  pub sequence : ℕ
  pub release_id : String
  pub payload_sha256 : String
  pub envelope_sha256 : String
  pub key_id : String

unfoldable pub production_beq : ProductionBinding → ProductionBinding → Bool
production_beq a b =
    a.sequence == b.sequence
    && a.release_id == b.release_id
    && a.payload_sha256 == b.payload_sha256
    && a.envelope_sha256 == b.envelope_sha256
    && a.key_id == b.key_id

pub production_beq_iff : (a b : ProductionBinding) → (production_beq a b ≡ true) ↔ (a ≡ b)
unfolding production_beq
production_beq_iff a b = ground (
  arith,
  eq_law a.sequence b.sequence,
  eq_law a.release_id b.release_id,
  eq_law a.payload_sha256 b.payload_sha256,
  eq_law a.envelope_sha256 b.envelope_sha256,
  eq_law a.key_id b.key_id,
)

instance abbrev pub production_eq : Eq ProductionBinding
production_eq = record { beq = production_beq; beq_iff = production_beq_iff }

pub record Genesis : Type 0 where
  pub floor_binding : ProductionBinding
  pub floor_provenance_source_commit : Json
  pub timestamp : String

pub record LedgerEvent : Type 0 where
  pub sequence : ℕ
  pub release_id : String
  pub status : LifecycleStatus
  pub version : String
  pub channel : String
  pub source_commit : String
  pub component_set_sha256 : String
  pub payload_sha256 : Json
  pub envelope_sha256 : Json
  pub key_id : Json
  pub timestamp : String
  pub previous_entry_sha256 : String

pub record VerifiedLedger : Type 0 where
  pub genesis : Genesis
  pub events : List LedgerEvent
  pub latest_entry_sha256 : String

-- the ledger with one more event
abbrev pub extended : VerifiedLedger → LedgerEvent → String → VerifiedLedger
extended ledger e sha = record ledger {
  events = ledger.events ++ (e ∷ []);
  latest_entry_sha256 = sha;
}

abbrev pub status_text : LifecycleStatus → String
status_text reserved = "RESERVED"
status_text signed = "SIGNED"
status_text published = "PUBLISHED"
status_text failed = "FAILED"
status_text retired = "RETIRED"

-- `_genesis_to_dict`
unfoldable pub genesis_members : Genesis → Members
genesis_members g =
    member "floor_binding"
      (object (
        member "envelope_sha256" (text g.floor_binding.envelope_sha256) (
          member "key_id" (text g.floor_binding.key_id) (
            member "payload_sha256" (text g.floor_binding.payload_sha256) (
              member "release_id" (text g.floor_binding.release_id)
                (member "sequence" (number g.floor_binding.sequence) no_members))))))
      (member "floor_provenance_source_commit" g.floor_provenance_source_commit (
        member "previous_entry_sha256" null (
          member "record_type" (text "GENESIS")
            (member "timestamp" (text g.timestamp) no_members))))

-- `_event_to_dict`
unfoldable pub event_members : LedgerEvent → Members
event_members e = member "channel" (text e.channel) (
    member "component_set_sha256" (text e.component_set_sha256) (
      member "envelope_sha256" e.envelope_sha256 (
        member "key_id" e.key_id (
          member "payload_sha256" e.payload_sha256 (
            member "previous_entry_sha256" (text e.previous_entry_sha256) (
              member "record_type" (text "EVENT") (
                member "release_id" (text e.release_id) (
                  member "sequence" (number e.sequence) (
                    member "source_commit" (text e.source_commit) (
                      member "status" (text (status_text e.status)) (
                        member "timestamp" (text e.timestamp)
                          (member "version" (text e.version) no_members))))))))))))

-- `{"body": body, "entry_sha256": sha}`
abbrev pub entry_of : Members → String → Json
entry_of body sha =
    object (member "body" (object body) (member "entry_sha256" (text sha) no_members))
