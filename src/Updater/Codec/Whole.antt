-- ===== src/Updater/Codec/Whole.antt =====
-- A state that is written is read back.
use neko_family_proxy.Prelude.{
  ◌≡◌, refl, String, Option, none, some, [], ◌∷◌, arith, ok, eq_law, ◌==◌, string_eq, if◌then◌else◌,
}
use neko_family_proxy.Updater.Frame.Words.{Bytes}
use neko_family_proxy.Updater.Models.{Dict, State}
use neko_family_proxy.Updater.Models.Checks.{check_evidence, check_state}
use neko_family_proxy.Updater.Models.Valid.{
  BindingIsValid, GenerationIsValid, TransactionIsValid, CleanupIsValid, RollbackIsValid, IsValid,
  Every,
}
use neko_family_proxy.Updater.Models.Evidence.{lookup}
use neko_family_proxy.Updater.Json.{Json, get}
use neko_family_proxy.Updater.Json.Canonical.{canonical_json_loads-dumps}
use neko_family_proxy.Updater.Codec.{assert_closed_keys, field, text_field, number_field}
use neko_family_proxy.Updater.Codec.Names.{phase_names-text}
use neko_family_proxy.Updater.Codec.Records.{
  binding_json, parse_binding, generation_json, parse_generation,
}
use neko_family_proxy.Updater.Codec.Transactions.{
  transaction_json, parse_transaction, queue_json, parse_queue, rollback_json, parse_rollback,
}
use neko_family_proxy.Updater.Codec.RoundTrip.{
  optional-printed, binding-some, binding-printed, generation-some, generation-printed,
  transaction-some, transaction-printed, queue-some, queue-printed, rollback-some, rollback-printed,
}
use neko_family_proxy.Updater.Codec.States.{
  insert_entry, sorted, dict_members, entries_of_members, dict_of, state_json, serialize_state,
  parse_state, deserialize_state,
}

-- No key occurs twice.
abbrev pub Distinct : Dict → Type 0
Distinct [] = Unit
Distinct ((k, v) ∷ rest) = (lookup k rest ≡ none) × Distinct rest

lookup-insert_entry :
    (key k v : String) (d : Dict)
    → lookup k d ≡ none
    → lookup key (insert_entry k v d) ≡ (if k == key then some v else lookup key d)
unfolding insert_entry lookup
lookup-insert_entry key k v [] h = refl
lookup-insert_entry key k v ((j, w) ∷ rest) h =
    ground (arith, lookup-insert_entry key k v rest, eq_law j k, eq_law j key, eq_law k key)

lookup-sorted : (key : String) (d : Dict) → Distinct d → lookup key (sorted d) ≡ lookup key d
unfolding sorted lookup
lookup-sorted key [] u = refl
lookup-sorted key ((k, v) ∷ rest) (new, u) = ground (
  arith,
  lookup-insert_entry key k v (sorted rest),
  lookup-sorted k rest u,
  lookup-sorted key rest u,
)

check_evidence-insert_entry :
    (k v : String) (d : Dict)
    → check_evidence ((k, v) ∷ d) ≡ ok tt
    → check_evidence (insert_entry k v d) ≡ ok tt
unfolding check_evidence insert_entry
check_evidence-insert_entry k v [] h = h
check_evidence-insert_entry k v ((j, w) ∷ rest) h =
    ground (arith, check_evidence-insert_entry k v rest)

check_evidence-sorted : (d : Dict) → check_evidence d ≡ ok tt → check_evidence (sorted d) ≡ ok tt
unfolding check_evidence sorted
check_evidence-sorted [] h = h
check_evidence-sorted ((k, v) ∷ rest) h =
    check_evidence-insert_entry k v (sorted rest) (ground (arith, check_evidence-sorted rest))

dict-printed : (d : Dict) → entries_of_members (dict_members d) ≡ ok d
dict-printed [] = refl
dict-printed ((k, v) ∷ rest) = rw (dict-printed rest) refl

-- The state with its evidence in the order of the keys.
abbrev pub ordered : State → State
ordered s = record s { evidence = sorted s.evidence }

check_state-ordered : (s : State) → check_state s ≡ ok tt → check_state (ordered s) ≡ ok tt
unfolding check_state
check_state-ordered s h = ground (arith, check_evidence-sorted s.evidence)

state-printed : (s : State) → IsValid s → parse_state (state_json s) ≡ ok (ordered s)
unfolding parse_state state_json assert_closed_keys text_field number_field field get dict_of
state-printed s v =
    let generation =
      optional-printed GenerationIsValid generation_json parse_generation generation-some
        generation-printed in
    let binding =
      optional-printed BindingIsValid binding_json parse_binding binding-some binding-printed in
    let transaction =
      optional-printed TransactionIsValid transaction_json parse_transaction transaction-some
        transaction-printed s.transaction v.transaction in
    let cleanup =
      optional-printed (Every CleanupIsValid) queue_json parse_queue queue-some queue-printed
        s.cleanup v.cleanup in
    let rollback =
      optional-printed RollbackIsValid rollback_json parse_rollback rollback-some rollback-printed
        s.rollback v.rollback in
    rw
      (
        generation s.committed v.committed,
        generation s.previous v.previous,
        binding s.highwater v.highwater,
        binding s.observed v.observed,
        binding s.failed v.failed,
        transaction,
        cleanup,
        rollback,
        dict-printed,
        phase_names-text,
      )
      (ground (arith, check_state-ordered s v.own))

module _ (loads : Bytes → Option Json) where
  -- A well-formed state is read back from its text, if the parser finds the value that was written:
  -- every field but the evidence is the same, and the evidence, in which no key occurs twice, has
  -- the same entry for every key.
  pub deserialize-serialize_state :
      (s : State) (raw : Bytes)
      → IsValid s
      → Distinct s.evidence
      → serialize_state s ≡ ok raw
      → loads raw ≡ some (state_json s)
      → (t : State) × (deserialize_state loads raw ≡ ok t)
        × (record t { evidence = s.evidence } ≡ s)
        × ((key : String) → lookup key t.evidence ≡ lookup key s.evidence)
  unfolding deserialize_state serialize_state
  deserialize-serialize_state s raw v u w l = (
    ordered s,
    rw (canonical_json_loads-dumps loads raw (state_json s) w l) (state-printed s v),
    refl,
    λ key. lookup-sorted key s.evidence u,
  )
