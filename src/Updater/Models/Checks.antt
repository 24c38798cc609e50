-- ===== src/Updater/Models/Checks.antt =====
-- The `__post_init__` checks of state_models.py: building an object is its check and then the
-- object. The tests of a field's Python type are the types of the model. The parts of an object
-- are objects, so each of them has passed its own check: `IsValid` says so of a whole state.
use neko_family_proxy.Prelude.{
  ℕ, String, Bool, not, ◌&&◌, ◌||◌, Option, none, some, List, [], ◌∷◌, leb, ltb, length, all, codes,
  Result, Check, ok, err, value_error, raise_if, ◌>>◌, ◌==◌, ◌!=◌, nat_eq, string_eq, if◌then◌else◌,
}
use neko_family_proxy.Updater.Models.{
  Binding, InstalledReleaseSelector, Generation, DirectoryIdentity, Transaction, Cleanup, Rollback,
  Dict, State, RootIdentity, EnrollmentMarker,
}

-- [0-9a-f]
is_hex_digit : ℕ → Bool
is_hex_digit c = (leb b'0' c && leb c b'9') || (leb b'a' c && leb c b'f')

-- `^[0-9a-f]{n}$`, as a full match
unfoldable pub is_hex : ℕ → String → Bool
unfolding is_hex_digit
is_hex n val = nat_eq.beq (length (codes val)) n && all is_hex_digit (codes val)

unfoldable pub assert_hex : String → ℕ → Check
assert_hex val expected_len =
    let n = if expected_len == 64 then 64 else if expected_len == 32 then 32 else 16 in
    raise_if (not (is_hex n val)) (value_error "Invalid hash or hex identifier")

-- [A-Za-z0-9._-]
is_id_char : ℕ → Bool
is_id_char c =
    (leb b'A' c && leb c b'Z')
    || (leb b'a' c && leb c b'z')
    || (leb b'0' c && leb c b'9')
    || c == b'.'
    || c == b'_'
    || c == b'-'

-- `^[A-Za-z0-9._-]{1,64}$`, as a full match
unfoldable pub is_release_id : String → Bool
unfolding is_id_char
is_release_id val = let n = length (codes val) in leb 1 n && leb n 64 && all is_id_char (codes val)

-- the characters that `str.strip` removes
is_space : ℕ → Bool
is_space c =
    (leb 9 c && leb c 13)
    || (leb 28 c && leb c 32)
    || c == 0x85
    || c == 0xa0
    || c == 0x1680
    || (leb 0x2000 c && leb c 0x200a)
    || c == 0x2028
    || c == 0x2029
    || c == 0x202f
    || c == 0x205f
    || c == 0x3000

-- `not val.strip()`
unfoldable pub is_blank : String → Bool
unfolding is_space
is_blank val = all is_space (codes val)

unfoldable pub check_binding : Binding → Check
check_binding b = do
  raise_if (ltb b.release_sequence 1) (value_error "release_sequence must be a positive integer")
  raise_if (not (is_release_id b.release_id)) (value_error "Invalid release_id grammar")
  assert_hex b.payload_sha256 64

unfoldable pub check_selector : InstalledReleaseSelector → Check
check_selector s = do
  raise_if (leb s.sequence 0) (value_error "sequence must be positive")
  raise_if (is_blank s.release_id) (value_error "release_id must be a non-empty string")
  raise_if (is_blank s.version) (value_error "version must be a non-empty string")
  raise_if (is_blank s.tag_name) (value_error "tag_name must be a non-empty string")
  raise_if (is_blank s.target_commit) (value_error "target_commit must be a non-empty string")

unfoldable pub selector_matches : Binding → Option InstalledReleaseSelector → Check
selector_matches b none = ok tt
selector_matches b (some s) = do
  raise_if (s.sequence != b.release_sequence)
      (value_error "selector.sequence does not match binding.release_sequence")
  raise_if (s.release_id != b.release_id)
      (value_error "selector.release_id does not match binding.release_id")

unfoldable pub check_generation : Generation → Check
unfolding selector_matches
check_generation g = do
  assert_hex g.launcher_identity_sha256 64
  assert_hex g.core_identity_sha256 64
  selector_matches g.binding g.selector

unfoldable pub check_directory : DirectoryIdentity → Check
check_directory d = do
  assert_hex d.volume_serial 16
  assert_hex d.file_id 32
  assert_hex d.parent_file_id 32

check_component_names : List String → Check
check_component_names [] = ok tt
check_component_names (c ∷ rest) = do
  raise_if (not (c == "launcher" || c == "core")) (value_error "Invalid repair component")
  check_component_names rest

check_repair : Option (List String) → Check
unfolding check_component_names
check_repair none = ok tt
check_repair (some []) =
    err (value_error "repair_components must be a non-empty tuple of component names")
check_repair (some (c ∷ rest)) = check_component_names (c ∷ rest)

unfoldable pub check_transaction : Transaction → Check
unfolding check_repair
check_transaction t = do
  assert_hex t.id 32
  assert_hex t.request_id 32
  check_repair t.repair_components

unfoldable pub check_cleanup : Cleanup → Check
check_cleanup c = do assert_hex c.transaction_id 32; assert_hex c.request_id 32

unfoldable pub check_rollback : Rollback → Check
check_rollback r = do
  assert_hex r.probation_id 32
  raise_if (ltb 2 (length r.scratch))
      (value_error "rollback scratch must be a list of 0..2 Cleanup instances")

abbrev pub check_queue : Option (List Cleanup) → Check
check_queue none = ok tt
check_queue (some q) =
    raise_if (not (leb 1 (length q) && leb (length q) 2))
      (value_error "cleanup must be null or a list of 1..2 Cleanup instances")

unfoldable pub check_evidence : Dict → Check
check_evidence [] = ok tt
check_evidence ((k, v) ∷ rest) = do assert_hex k 64; check_evidence rest

unfoldable pub check_state : State → Check
check_state s = do
  raise_if (s.schema_version != 1) (value_error "Unsupported schema version")
  raise_if (ltb s.revision 1) (value_error "revision must be a positive integer >= 1")
  assert_hex s.installation_id 32
  raise_if (s.helper_protocol != 1) (value_error "Unsupported helper protocol")
  check_queue s.cleanup
  check_evidence s.evidence

-- `State(...)`, `Cleanup(...)` and `Rollback(...)`
abbrev pub make_state : State → Result State
make_state s = do check_state s; ok s

abbrev pub make_cleanup : Cleanup → Result Cleanup
make_cleanup c = do check_cleanup c; ok c

abbrev pub make_rollback : Rollback → Result Rollback
make_rollback r = do check_rollback r; ok r

unfoldable pub check_root : RootIdentity → Check
check_root r = do assert_hex r.volume_serial 16; assert_hex r.file_id 32

unfoldable pub check_marker : EnrollmentMarker → Check
check_marker m = do
  raise_if (m.schema_version != 1) (value_error "Unsupported schema version")
  assert_hex m.installation_id 32
  assert_hex m.helper_sha256 64
  raise_if (m.helper_protocol != 1) (value_error "Unsupported helper protocol")
  raise_if (not (is_release_id m.profile_id)) (value_error "Invalid profile_id")
  assert_hex m.profile_envelope_sha256 64
  assert_hex m.keyset_sha256 64
  assert_hex m.bootstrap_payload_sha256 64
  raise_if (m.enrollment_status != "PREPARED") (value_error "Invalid enrollment status")
