-- ===== src/Updater/Codec/States.antt =====
-- `serialize_state` and `deserialize_state`.
use neko_family_proxy.Prelude.{
  String, Bool, Option, List, [], ◌∷◌, Result, ok, err, value_error, other_error, ◌>>=◌, ◌>>◌,
  text_lt, ◌==◌, string_eq, if◌then◌else◌,
}
use neko_family_proxy.Updater.Frame.Words.{Bytes}
use neko_family_proxy.Updater.Models.{Dict, State}
use neko_family_proxy.Updater.Models.Checks.{make_state}
use neko_family_proxy.Updater.Json.{
  Json, boolean, number, text, array, object, Items, no_items, item, Members, no_members, member,
  canonical_json_dumps, canonical_json_loads,
}
use neko_family_proxy.Updater.Codec.{
  assert_closed_keys, field, text_field, number_field, string_of, optional_of, choice_of,
}
use neko_family_proxy.Updater.Codec.Names.{phase_text, phase_names}
use neko_family_proxy.Updater.Codec.Records.{
  optional_json, binding_json, parse_binding, generation_json, parse_generation,
}
use neko_family_proxy.Updater.Codec.Transactions.{
  transaction_json, parse_transaction, queue_json, parse_queue, rollback_json, parse_rollback,
}

-- `sorted(d.keys())`, each key with its value
unfoldable pub insert_entry : String → String → Dict → Dict
insert_entry k v [] = (k, v) ∷ []
insert_entry k v ((j, w) ∷ rest) =
    let others = insert_entry k v rest in
    if text_lt k j then (k, v) ∷ (j, w) ∷ rest else (j, w) ∷ others

unfoldable pub sorted : Dict → Dict
sorted [] = []
sorted ((k, v) ∷ rest) = insert_entry k v (sorted rest)

abbrev pub dict_members : Dict → Members
dict_members [] = no_members
dict_members ((k, v) ∷ rest) = member k (text v) (dict_members rest)

-- a key of a dictionary that must be a string
abbrev pub key_of : Json → Result String
key_of (text s) = ok s
key_of (array xs) = err (other_error "unhashable type")
key_of (object ms) = err (other_error "unhashable type")
key_of _ = err (value_error "must be a string")

-- an element of a sequence of pairs; a string of two characters has no evidence key
abbrev pub pair_of : Json → Result (String × String)
pair_of (array (item a (item b no_items))) = do k ← key_of a; v ← string_of b; ok (k, v)
pair_of (object (member j v (member k w no_members))) = ok (j, k)
pair_of (array xs) = err (value_error "dictionary update sequence element has another length")
pair_of (object ms) = err (value_error "dictionary update sequence element has another length")
pair_of (text s) = err (value_error "dictionary update sequence element")
pair_of _ = err (other_error "cannot convert dictionary update sequence element")

-- `d[k] = v`
abbrev pub put : String → String → Dict → Dict
put k v [] = (k, v) ∷ []
put k v ((j, w) ∷ rest) =
    let others = put k v rest in if j == k then (j, v) ∷ rest else (j, w) ∷ others

abbrev pub entries_of_pairs : Items → Dict → Result Dict
entries_of_pairs no_items d = ok d
entries_of_pairs (item v rest) d = do
  entry ← pair_of v
  entries_of_pairs rest (put (entry.0) (entry.1) d)

abbrev pub entries_of_members : Members → Result Dict
entries_of_members no_members = ok []
entries_of_members (member k v rest) = do
  s ← string_of v
  others ← entries_of_members rest
  ok ((k, s) ∷ others)

-- `dict(v)`
unfoldable pub dict_of : Json → Result Dict
dict_of (object ms) = entries_of_members ms
dict_of (array xs) = entries_of_pairs xs []
dict_of (text s) =
    if s == "" then ok [] else err (value_error "dictionary update sequence element has length 1")
dict_of _ = err (other_error "object is not iterable")

unfoldable pub state_json : State → Json
state_json s = object (
    member "cleanup" (optional_json queue_json s.cleanup) (
      member "committed" (optional_json generation_json s.committed) (
        member "enrollment_complete" (boolean s.enrollment_complete) (
          member "evidence" (object (dict_members (sorted s.evidence))) (
            member "failed" (optional_json binding_json s.failed) (
              member "helper_protocol" (number s.helper_protocol) (
                member "highwater" (optional_json binding_json s.highwater) (
                  member "installation_id" (text s.installation_id) (
                    member "last_error" (s.last_error) (
                      member "observed" (optional_json binding_json s.observed) (
                        member "phase" (text (phase_text s.phase)) (
                          member "previous" (optional_json generation_json s.previous) (
                            member "revision" (number s.revision) (
                              member "rollback" (optional_json rollback_json s.rollback) (
                                member "schema_version" (number s.schema_version) (
                                  member "transaction"
                                    (optional_json transaction_json s.transaction)
                                    no_members))))))))))))))))

unfoldable pub serialize_state : State → Result Bytes
serialize_state s = canonical_json_dumps (state_json s)

abbrev pub state_keys : List String
state_keys =
    "schema_version" ∷ "revision" ∷ "installation_id" ∷ "helper_protocol" ∷ "enrollment_complete"
    ∷ "phase" ∷ "committed" ∷ "previous" ∷ "highwater" ∷ "observed" ∷ "failed" ∷ "transaction"
    ∷ "cleanup" ∷ "rollback" ∷ "last_error" ∷ "evidence" ∷ []

abbrev pub flag_of : Json → Result Bool
flag_of (boolean b) = ok b
flag_of _ = err (value_error "enrollment_complete must be a boolean")

unfoldable pub parse_state : Json → Result State
parse_state (object ms) = do
  assert_closed_keys state_keys ms
  committed ← (do v ← field "committed" ms; optional_of parse_generation v)
  previous ← (do v ← field "previous" ms; optional_of parse_generation v)
  highwater ← (do v ← field "highwater" ms; optional_of parse_binding v)
  observed ← (do v ← field "observed" ms; optional_of parse_binding v)
  failed ← (do v ← field "failed" ms; optional_of parse_binding v)
  transaction ← (do v ← field "transaction" ms; optional_of parse_transaction v)
  cleanup ← (do v ← field "cleanup" ms; optional_of parse_queue v)
  rollback ← (do v ← field "rollback" ms; optional_of parse_rollback v)
  evidence ← (do v ← field "evidence" ms; dict_of v)
  schema_version ← number_field "schema_version" ms
  revision ← number_field "revision" ms
  installation_id ← text_field "installation_id" ms
  helper_protocol ← number_field "helper_protocol" ms
  enrollment_complete ← (do v ← field "enrollment_complete" ms; flag_of v)
  phase ← (do v ← field "phase" ms; choice_of phase_names v)
  last_error ← field "last_error" ms
  make_state (record {
    schema_version = schema_version;
    revision = revision;
    installation_id = installation_id;
    helper_protocol = helper_protocol;
    enrollment_complete = enrollment_complete;
    phase = phase;
    committed = committed;
    previous = previous;
    highwater = highwater;
    observed = observed;
    failed = failed;
    transaction = transaction;
    cleanup = cleanup;
    rollback = rollback;
    last_error = last_error;
    evidence = evidence;
  })
parse_state _ = err (value_error "State payload must be a JSON object")

module _ (loads : Bytes → Option Json) where
  unfoldable pub deserialize_state : Bytes → Result State
  deserialize_state raw = do v ← canonical_json_loads loads raw; parse_state v
