-- ===== src/Updater/Codec/Transactions.antt =====
-- The parts of a state that hold other parts: transactions, cleanups and rollbacks.
use neko_family_proxy.Prelude.{
  String, List, [], ◌∷◌, Result, ok, err, value_error, other_error, ◌>>=◌, ◌>>◌, string_eq,
}
use neko_family_proxy.Updater.Models.{Transaction, Cleanup, Rollback}
use neko_family_proxy.Updater.Models.Checks.{check_transaction, make_cleanup, make_rollback}
use neko_family_proxy.Updater.Json.{
  Json, text, array, object, Items, no_items, item, Members, no_members, member, get,
}
use neko_family_proxy.Updater.Codec.{
  assert_closed_keys, field, text_field, string_of, optional_of, choice_of, items_of,
}
use neko_family_proxy.Updater.Codec.Names.{
  stage_text, stage_names, cleanup_target_text, cleanup_target_names, cleanup_status_text,
  cleanup_status_names, mode_text, mode_names, step_text, step_names,
}
use neko_family_proxy.Updater.Codec.Records.{
  optional_json, generation_json, parse_generation, directory_json, parse_directory, mutation_json,
  parse_mutation, no_dictionary, value_or_none,
}

abbrev pub names_json : List String → Items
names_json [] = no_items
names_json (s ∷ rest) = item (text s) (names_json rest)

abbrev pub names_of_items : Items → Result (List String)
names_of_items no_items = ok []
names_of_items (item v rest) = do s ← string_of v; ss ← names_of_items rest; ok (s ∷ ss)

abbrev pub keys_of : Members → List String
keys_of no_members = []
keys_of (member k v rest) = k ∷ keys_of rest

-- `tuple(v)`; the characters of a string are no component names
abbrev pub names_of : Json → Result (List String)
names_of (array xs) = names_of_items xs
names_of (object ms) = ok (keys_of ms)
names_of (text s) = err (value_error "Invalid repair component")
names_of _ = err (other_error "object is not iterable")

abbrev pub repair_json : List String → Json
repair_json ss = array (names_json ss)

unfoldable pub transaction_json : Transaction → Json
transaction_json t = object (
    member "candidate" (generation_json t.candidate) (
      member "id" (text t.id) (
        member "incoming" (directory_json t.incoming) (
          member "mutation" (optional_json mutation_json t.mutation) (
            member "old" (optional_json generation_json t.old) (
              member "repair_components" (optional_json repair_json t.repair_components) (
                member "request_id" (text t.request_id) (
                  member "stage" (text (stage_text t.stage))
                    (member "staging" (optional_json directory_json t.staging) no_members)))))))))

abbrev pub transaction_keys : List String
transaction_keys =
    "id" ∷ "request_id" ∷ "candidate" ∷ "old" ∷ "incoming" ∷ "staging" ∷ "stage" ∷ "mutation"
    ∷ "repair_components" ∷ []

abbrev make_transaction : Transaction → Result Transaction
make_transaction t = do check_transaction t; ok t

unfoldable pub parse_transaction : Json → Result Transaction
parse_transaction (object ms) = do
  assert_closed_keys transaction_keys ms
  candidate ← (do v ← field "candidate" ms; parse_generation v)
  old ← (do v ← field "old" ms; optional_of parse_generation v)
  incoming ← (do v ← field "incoming" ms; parse_directory v)
  staging ← (do v ← field "staging" ms; optional_of parse_directory v)
  mutation ← (do v ← field "mutation" ms; optional_of parse_mutation v)
  repair ← optional_of names_of (value_or_none (get "repair_components" ms))
  id ← text_field "id" ms
  request_id ← text_field "request_id" ms
  stage ← (do v ← field "stage" ms; choice_of stage_names v)
  make_transaction (record {
    id = id;
    request_id = request_id;
    candidate = candidate;
    old = old;
    incoming = incoming;
    staging = staging;
    stage = stage;
    mutation = mutation;
    repair_components = repair;
  })
parse_transaction _ = no_dictionary

unfoldable pub cleanup_json : Cleanup → Json
cleanup_json c = object (
    member "directory" (directory_json c.directory) (
      member "request_id" (text c.request_id) (
        member "status" (text (cleanup_status_text c.status)) (
          member "target" (text (cleanup_target_text c.target))
            (member "transaction_id" (text c.transaction_id) no_members)))))

abbrev cleanup_keys : List String
cleanup_keys = "transaction_id" ∷ "request_id" ∷ "directory" ∷ "target" ∷ "status" ∷ []

unfoldable pub parse_cleanup : Json → Result Cleanup
parse_cleanup (object ms) = do
  assert_closed_keys cleanup_keys ms
  directory ← (do v ← field "directory" ms; parse_directory v)
  transaction_id ← text_field "transaction_id" ms
  request_id ← text_field "request_id" ms
  target ← (do v ← field "target" ms; choice_of cleanup_target_names v)
  status ← (do v ← field "status" ms; choice_of cleanup_status_names v)
  make_cleanup (record {
    transaction_id = transaction_id;
    request_id = request_id;
    directory = directory;
    target = target;
    status = status;
  })
parse_cleanup _ = no_dictionary

abbrev pub cleanups_json : List Cleanup → Items
cleanups_json [] = no_items
cleanups_json (c ∷ rest) = item (cleanup_json c) (cleanups_json rest)

abbrev pub queue_json : List Cleanup → Json
queue_json cs = array (cleanups_json cs)

-- `[_parse_cleanup(c) for c in v]`
abbrev pub parse_cleanups : Items → Result (List Cleanup)
parse_cleanups no_items = ok []
parse_cleanups (item v rest) = do c ← parse_cleanup v; cs ← parse_cleanups rest; ok (c ∷ cs)

unfoldable pub parse_queue : Json → Result (List Cleanup)
parse_queue v = do xs ← items_of v; parse_cleanups xs

unfoldable pub rollback_json : Rollback → Json
rollback_json r = object (
    member "mode" (text (mode_text r.mode)) (
      member "probation_id" (text r.probation_id) (
        member "scratch" (queue_json r.scratch) (
          member "step" (text (step_text r.step))
            (member "target" (generation_json r.target) no_members)))))

abbrev rollback_keys : List String
rollback_keys = "mode" ∷ "target" ∷ "probation_id" ∷ "scratch" ∷ "step" ∷ []

unfoldable pub parse_rollback : Json → Result Rollback
parse_rollback (object ms) = do
  assert_closed_keys rollback_keys ms
  target ← (do v ← field "target" ms; parse_generation v)
  scratch ← (do v ← field "scratch" ms; parse_queue v)
  mode ← (do v ← field "mode" ms; choice_of mode_names v)
  probation_id ← text_field "probation_id" ms
  step ← (do v ← field "step" ms; choice_of step_names v)
  make_rollback (record {
    mode = mode;
    target = target;
    probation_id = probation_id;
    scratch = scratch;
    step = step;
  })
parse_rollback _ = no_dictionary
