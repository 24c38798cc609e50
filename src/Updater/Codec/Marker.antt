-- ===== src/Updater/Codec/Marker.antt =====
-- `serialize_marker` and `deserialize_marker`.
use neko_family_proxy.Prelude.{
  ◌≡◌, String, Option, some, List, [], ◌∷◌, arith, Result, ok, err, value_error, ◌>>=◌, ◌>>◌,
}
use neko_family_proxy.Updater.Frame.Words.{Bytes}
use neko_family_proxy.Updater.Models.{RootIdentity, EnrollmentMarker}
use neko_family_proxy.Updater.Models.Checks.{check_root, check_marker}
use neko_family_proxy.Updater.Json.{
  Json, number, text, object, Members, no_members, member, get, canonical_json_dumps,
  canonical_json_loads,
}
use neko_family_proxy.Updater.Json.Canonical.{canonical_json_loads-dumps}
use neko_family_proxy.Updater.Codec.{assert_closed_keys, field, text_field, number_field}

abbrev root_keys : List String
root_keys = "volume_serial" ∷ "file_id" ∷ []

abbrev marker_keys : List String
marker_keys =
    "schema_version" ∷ "installation_id" ∷ "root" ∷ "helper_sha256" ∷ "helper_protocol"
    ∷ "profile_id" ∷ "profile_envelope_sha256" ∷ "keyset_sha256" ∷ "bootstrap_payload_sha256"
    ∷ "enrollment_status" ∷ []

-- `asdict(marker)`
abbrev pub root_members : RootIdentity → Members
root_members r =
    member "file_id" (text r.file_id) (member "volume_serial" (text r.volume_serial) no_members)

unfoldable pub marker_members : EnrollmentMarker → Members
marker_members m = member "bootstrap_payload_sha256" (text m.bootstrap_payload_sha256) (
    member "enrollment_status" (text m.enrollment_status) (
      member "helper_protocol" (number m.helper_protocol) (
        member "helper_sha256" (text m.helper_sha256) (
          member "installation_id" (text m.installation_id) (
            member "keyset_sha256" (text m.keyset_sha256) (
              member "profile_envelope_sha256" (text m.profile_envelope_sha256) (
                member "profile_id" (text m.profile_id) (
                  member "root" (object (root_members m.root))
                    (member "schema_version" (number m.schema_version) no_members)))))))))

unfoldable pub serialize_marker : EnrollmentMarker → Result Bytes
serialize_marker m = canonical_json_dumps (object (marker_members m))

-- `RootIdentity(...)` and `EnrollmentMarker(...)`
abbrev pub make_root : RootIdentity → Result RootIdentity
make_root r = do check_root r; ok r

abbrev pub make_marker : EnrollmentMarker → Result EnrollmentMarker
make_marker m = do check_marker m; ok m

unfoldable pub parse_root : Json → Result RootIdentity
parse_root (object ms) = do
  assert_closed_keys root_keys ms
  volume_serial ← text_field "volume_serial" ms
  file_id ← text_field "file_id" ms
  make_root (record { volume_serial = volume_serial; file_id = file_id })
parse_root _ = err (value_error "EnrollmentMarker root must be a JSON object")

unfoldable pub parse_marker : Json → Result EnrollmentMarker
parse_marker (object ms) = do
  assert_closed_keys marker_keys ms
  root ← (do v ← field "root" ms; parse_root v)
  schema_version ← number_field "schema_version" ms
  installation_id ← text_field "installation_id" ms
  helper_sha256 ← text_field "helper_sha256" ms
  helper_protocol ← number_field "helper_protocol" ms
  profile_id ← text_field "profile_id" ms
  envelope ← text_field "profile_envelope_sha256" ms
  keyset ← text_field "keyset_sha256" ms
  bootstrap ← text_field "bootstrap_payload_sha256" ms
  status ← text_field "enrollment_status" ms
  make_marker (record {
    schema_version = schema_version;
    installation_id = installation_id;
    root = root;
    helper_sha256 = helper_sha256;
    helper_protocol = helper_protocol;
    keyset_sha256 = keyset;
    bootstrap_payload_sha256 = bootstrap;
    enrollment_status = status;
    profile_id = profile_id;
    profile_envelope_sha256 = envelope;
  })
parse_marker _ = err (value_error "EnrollmentMarker payload must be a JSON object")

parse_root-members :
    (r : RootIdentity) → check_root r ≡ ok tt → parse_root (object (root_members r)) ≡ ok r
unfolding parse_root assert_closed_keys text_field field get
parse_root-members r h = ground (arith, h)

parse_marker-members :
    (m : EnrollmentMarker)
    → check_root m.root ≡ ok tt
    → check_marker m ≡ ok tt
    → parse_marker (object (marker_members m)) ≡ ok m
unfolding parse_marker assert_closed_keys text_field number_field field get marker_members
parse_marker-members m r h = ground (arith, parse_root-members m.root r, h)

module _ (loads : Bytes → Option Json) where
  unfoldable pub deserialize_marker : Bytes → Result EnrollmentMarker
  deserialize_marker raw = do v ← canonical_json_loads loads raw; parse_marker v

  -- A marker that passes its checks is read back from its text, if the parser finds the value that
  -- was written.
  pub deserialize-serialize_marker :
      (m : EnrollmentMarker) (raw : Bytes)
      → check_root m.root ≡ ok tt
      → check_marker m ≡ ok tt
      → serialize_marker m ≡ ok raw
      → loads raw ≡ some (object (marker_members m))
      → deserialize_marker raw ≡ ok m
  unfolding deserialize_marker serialize_marker
  deserialize-serialize_marker m raw r h s l =
      rw (canonical_json_loads-dumps loads raw (object (marker_members m)) s l)
        (parse_marker-members m r h)
