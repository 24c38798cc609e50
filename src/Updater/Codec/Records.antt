-- ===== src/Updater/Codec/Records.antt =====
-- The parts of a state: `asdict` and the `_parse_*` functions of state_models.py. Which of several
-- faults of one dictionary is reported is not kept.
use neko_family_proxy.Prelude.{
  ℕ, String, Option, none, some, List, [], ◌∷◌, Result, ok, err, value_error, other_error, ◌>>=◌,
  ◌>>◌, raise_if,
}
use neko_family_proxy.Updater.Models.{
  Binding, InstalledReleaseSelector, Generation, DirectoryIdentity, Mutation,
}
use neko_family_proxy.Updater.Models.Checks.{
  check_binding, check_selector, check_generation, check_directory,
}
use neko_family_proxy.Updater.Json.{Json, null, number, text, object, no_members, member, get}
use neko_family_proxy.Updater.Codec.{
  assert_closed_keys, has_extra, has_missing, field, text_field, number_field, optional_of,
  choice_of,
}
use neko_family_proxy.Updater.Codec.Names.{
  kind_text, kind_names, mutation_target_text, mutation_target_names, mutation_status_text,
  mutation_status_names,
}

-- a part that may be `None`
abbrev pub optional_json : {A : Type 0} → (A → Json) → Option A → Json
optional_json print none = null
optional_json print (some a) = print a

unfoldable pub binding_json : Binding → Json
binding_json b = object (
    member "payload_sha256" (text b.payload_sha256) (
      member "release_id" (text b.release_id)
        (member "release_sequence" (number b.release_sequence) no_members)))

abbrev binding_keys : List String
binding_keys = "release_sequence" ∷ "release_id" ∷ "payload_sha256" ∷ []

abbrev make_binding : Binding → Result Binding
make_binding b = do check_binding b; ok b

abbrev pub no_dictionary : {A : Type 0} → Result A
no_dictionary = err (other_error "object has no attribute 'keys'")

unfoldable pub parse_binding : Json → Result Binding
parse_binding (object ms) = do
  assert_closed_keys binding_keys ms
  sequence ← number_field "release_sequence" ms
  release_id ← text_field "release_id" ms
  payload ← text_field "payload_sha256" ms
  make_binding
      (record { release_sequence = sequence; release_id = release_id; payload_sha256 = payload })
parse_binding _ = no_dictionary

unfoldable pub selector_json : InstalledReleaseSelector → Json
selector_json s = object (
    member "release_id" (text s.release_id) (
      member "sequence" (number s.sequence) (
        member "tag_name" (text s.tag_name) (
          member "target_commit" (text s.target_commit)
            (member "version" (text s.version) no_members)))))

abbrev selector_keys : List String
selector_keys = "sequence" ∷ "release_id" ∷ "version" ∷ "tag_name" ∷ "target_commit" ∷ []

abbrev make_selector : InstalledReleaseSelector → Result InstalledReleaseSelector
make_selector s = do check_selector s; ok s

-- `type(v) is int`: no Boolean
abbrev strict_number : Json → Result ℕ
strict_number (number n) = ok n
strict_number _ = err (value_error "sequence must be an int")

unfoldable pub parse_selector : Json → Result InstalledReleaseSelector
parse_selector (object ms) = do
  assert_closed_keys selector_keys ms
  sequence ← (do v ← field "sequence" ms; strict_number v)
  release_id ← text_field "release_id" ms
  version ← text_field "version" ms
  tag_name ← text_field "tag_name" ms
  target_commit ← text_field "target_commit" ms
  make_selector (record {
    sequence = sequence;
    release_id = release_id;
    version = version;
    tag_name = tag_name;
    target_commit = target_commit;
  })
parse_selector _ = err (value_error "InstalledReleaseSelector payload must be a JSON object")

unfoldable pub generation_json : Generation → Json
generation_json g = object (
    member "binding" (binding_json g.binding) (
      member "core_identity_sha256" (text g.core_identity_sha256) (
        member "launcher_identity_sha256" (text g.launcher_identity_sha256)
          (member "selector" (optional_json selector_json g.selector) no_members))))

abbrev generation_required : List String
generation_required = "binding" ∷ "launcher_identity_sha256" ∷ "core_identity_sha256" ∷ []

abbrev make_generation : Generation → Result Generation
make_generation g = do check_generation g; ok g

-- `data.get(k)`
abbrev pub value_or_none : Option Json → Json
value_or_none none = null
value_or_none (some v) = v

unfoldable pub parse_generation : Json → Result Generation
parse_generation (object ms) = do
  raise_if (has_extra ("selector" ∷ generation_required) ms) (value_error "Unknown field")
  raise_if (has_missing generation_required ms) (value_error "Missing required field")
  binding ← (do v ← field "binding" ms; parse_binding v)
  selector ← optional_of parse_selector (value_or_none (get "selector" ms))
  launcher ← text_field "launcher_identity_sha256" ms
  core ← text_field "core_identity_sha256" ms
  make_generation (record {
    binding = binding;
    launcher_identity_sha256 = launcher;
    core_identity_sha256 = core;
    selector = selector;
  })
parse_generation _ = no_dictionary

unfoldable pub directory_json : DirectoryIdentity → Json
directory_json d = object (
    member "file_id" (text d.file_id) (
      member "parent_file_id" (text d.parent_file_id)
        (member "volume_serial" (text d.volume_serial) no_members)))

abbrev directory_keys : List String
directory_keys = "volume_serial" ∷ "file_id" ∷ "parent_file_id" ∷ []

abbrev make_directory : DirectoryIdentity → Result DirectoryIdentity
make_directory d = do check_directory d; ok d

unfoldable pub parse_directory : Json → Result DirectoryIdentity
parse_directory (object ms) = do
  assert_closed_keys directory_keys ms
  volume ← text_field "volume_serial" ms
  file ← text_field "file_id" ms
  parent ← text_field "parent_file_id" ms
  make_directory (record { volume_serial = volume; file_id = file; parent_file_id = parent })
parse_directory _ = no_dictionary

unfoldable pub mutation_json : Mutation → Json
mutation_json m = object (
    member "kind" (text (kind_text m.kind)) (
      member "status" (text (mutation_status_text m.status))
        (member "target" (text (mutation_target_text m.target)) no_members)))

abbrev mutation_keys : List String
mutation_keys = "kind" ∷ "target" ∷ "status" ∷ []

unfoldable pub parse_mutation : Json → Result Mutation
parse_mutation (object ms) = do
  assert_closed_keys mutation_keys ms
  kind ← (do v ← field "kind" ms; choice_of kind_names v)
  target ← (do v ← field "target" ms; choice_of mutation_target_names v)
  status ← (do v ← field "status" ms; choice_of mutation_status_names v)
  ok (record { kind = kind; target = target; status = status })
parse_mutation _ = no_dictionary
