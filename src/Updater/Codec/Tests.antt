-- ===== src/Updater/Codec/Tests.antt =====
-- The JSON forms of a concrete state and a concrete marker.
use neko_family_proxy.Prelude.{text_lt, ◌≡◌, refl, String, some, ok}
use neko_family_proxy.Updater.Frame.Words.{Bytes}
use neko_family_proxy.Updater.Models.{EnrollmentMarker, State}
use neko_family_proxy.Updater.Models.Checks.{
  check_root, check_marker, assert_hex, is_hex, is_release_id,
}
use neko_family_proxy.Updater.Models.Evidence.{lookup}
use neko_family_proxy.Updater.Json.{
  object, canonical_json_dumps, insert_row, joined, encode, utf8, utf8_char, digits, quoted,
  escape_all, escape,
}
use neko_family_proxy.Updater.Codec.Records.{
  binding_json, generation_json, directory_json, mutation_json, selector_json,
}
use neko_family_proxy.Updater.Codec.Transactions.{transaction_json, cleanup_json, rollback_json}
use neko_family_proxy.Updater.Codec.Marker.{
  marker_members, serialize_marker, deserialize_marker, deserialize-serialize_marker,
}
use neko_family_proxy.Updater.Codec.States.{
  insert_entry, sorted, state_json, serialize_state, deserialize_state,
}
use neko_family_proxy.Updater.Models.Valid.{IsValid}
use neko_family_proxy.Updater.Codec.Read.{deserialize_state-IsValid}
use neko_family_proxy.Updater.Codec.Whole.{Distinct, deserialize-serialize_state}
use neko_family_proxy.Updater.Samples.{interrupted, digest_1, id_1}
use neko_family_proxy.Updater.Samples.Facts.{interrupted-IsValid}

abbrev marker : EnrollmentMarker
marker = record {
  schema_version = 1;
  installation_id = id_1;
  root = record { volume_serial = "0123456789abcdef"; file_id = id_1 };
  helper_sha256 = digest_1;
  helper_protocol = 1;
  keyset_sha256 = digest_1;
  bootstrap_payload_sha256 = digest_1;
  enrollment_status = "PREPARED";
  profile_id = "production";
  profile_envelope_sha256 = digest_1;
}

root_checked : check_root marker.root ≡ ok tt
unfolding check_root assert_hex is_hex
root_checked = refl

marker_checked : check_marker marker ≡ ok tt
unfolding check_marker assert_hex is_hex is_release_id
marker_checked = refl

marker_raw : (raw : Bytes) × (serialize_marker marker ≡ ok raw)
unfolding serialize_marker marker_members canonical_json_dumps encode insert_row joined text_lt utf8
    utf8_char digits quoted escape_all escape
marker_raw = (_, refl)

deserialize-serialize_marker_example :
    deserialize_marker (λ raw. some (object (marker_members marker))) marker_raw.0 ≡ ok marker
deserialize-serialize_marker_example =
    deserialize-serialize_marker (λ raw. some (object (marker_members marker))) marker marker_raw.0
      root_checked marker_checked marker_raw.1 refl

state_raw : (raw : Bytes) × (serialize_state interrupted ≡ ok raw)
unfolding serialize_state state_json sorted insert_entry binding_json generation_json directory_json
    mutation_json selector_json transaction_json cleanup_json rollback_json canonical_json_dumps
    encode insert_row joined text_lt utf8 utf8_char digits quoted escape_all escape
state_raw = (_, refl)

evidence-Distinct : Distinct interrupted.evidence
unfolding lookup
evidence-Distinct = (refl, (refl, tt))

deserialize-serialize_state_example :
    (t : State) × (deserialize_state (λ raw. some (state_json interrupted)) state_raw.0 ≡ ok t)
    × (record t { evidence = interrupted.evidence } ≡ interrupted)
    × ((key : String) → lookup key t.evidence ≡ lookup key interrupted.evidence)
deserialize-serialize_state_example =
    deserialize-serialize_state (λ raw. some (state_json interrupted)) interrupted state_raw.0
      interrupted-IsValid evidence-Distinct state_raw.1 refl

read_back :
    (t : State) × (deserialize_state (λ raw. some (state_json interrupted)) state_raw.0 ≡ ok t)
    × (record t { evidence = interrupted.evidence } ≡ interrupted)
    × ((key : String) → lookup key t.evidence ≡ lookup key interrupted.evidence)
read_back =
    deserialize-serialize_state (λ raw. some (state_json interrupted)) interrupted state_raw.0
      interrupted-IsValid evidence-Distinct state_raw.1 refl

deserialize_state-IsValid_example : IsValid read_back.0
deserialize_state-IsValid_example =
    deserialize_state-IsValid (λ raw. some (state_json interrupted)) state_raw.0 read_back.0
      read_back.1
