-- ===== src/Launcher/Policy.antt =====
-- launcher/src/neko_launcher/application/software_update_policy.py, and the release records of
-- application/software_update_models.py: whether a signed release is offered to an installation. An
-- annotation that the constructor checks at run time is a type here.
pub mod Verdicts
use neko_family_proxy.Prelude.{
  ℕ, String, Bool, true, false, not, ◌&&◌, ◌||◌, Option, none, some, List, [], ◌∷◌, ◌≡◌, ◌↔◌, arith,
  leb, ltb, Check, Result, ok, err, value_error, other_error, raise_if, ◌>>=◌, ◌>>◌, Eq, ◌==◌, ◌!=◌,
  nat_eq, string_eq, option_eq, eq_law, if◌then◌else◌,
}
use neko_family_proxy.Updater.Models.{InstalledReleaseSelector}
use neko_family_proxy.Updater.Models.Checks.{is_hex, is_blank}

pub data UpdateInvocationReason : Type 0 where
  startup manual : UpdateInvocationReason

pub data UpdateState : Type 0 where
  not_checked checking latest available mandatory unavailable verify_failed : UpdateState

pub data UpdateDiagnosticCode : Type 0 where
  downgrade_rejected same_sequence_identity_conflict manifest_unavailable manifest_rejected
        update_check_internal_failure updater_incompatible github_release_unavailable :
      UpdateDiagnosticCode

pub record ComponentRelease : Type 0 where
  pub name : String
  pub version : String
  pub artifact_id : String
  pub artifact_sha256 : String
  pub artifact_size : ℕ
  pub installed_identity_sha256 : String

pub record ReleaseSet : Type 0 where
  pub schema_version : ℕ
  pub channel : String
  pub release_sequence : ℕ
  pub release_id : String
  pub is_mandatory : Bool
  pub minimum_supported_sequence : ℕ
  pub components : List ComponentRelease
  pub payload_sha256 : String

pub record AuthenticatedReleaseBinding : Type 0 where
  pub release_sequence : ℕ
  pub release_id : String
  pub payload_sha256 : String

unfoldable pub binding_beq : AuthenticatedReleaseBinding → AuthenticatedReleaseBinding → Bool
binding_beq a b =
    a.release_sequence == b.release_sequence
    && a.release_id == b.release_id
    && a.payload_sha256 == b.payload_sha256

pub binding_beq_iff : (a b : AuthenticatedReleaseBinding) → (binding_beq a b ≡ true) ↔ (a ≡ b)
unfolding binding_beq
binding_beq_iff a b = ground (
  arith,
  eq_law a.release_sequence b.release_sequence,
  eq_law a.release_id b.release_id,
  eq_law a.payload_sha256 b.payload_sha256,
)

instance abbrev pub authenticated_eq : Eq AuthenticatedReleaseBinding
authenticated_eq = record { beq = binding_beq; beq_iff = binding_beq_iff }

unfoldable pub check_authenticated : AuthenticatedReleaseBinding → Check
check_authenticated b = do
  raise_if (leb b.release_sequence 0) (value_error "release_sequence must be positive")
  raise_if (is_blank b.release_id) (value_error "release_id must be a non-empty string")
  raise_if (not (is_hex 64 b.payload_sha256))
      (value_error "payload_sha256 must be lowercase 64-hex")

pub record LocalReleaseIdentity : Type 0 where
  pub committed : AuthenticatedReleaseBinding
  pub high_water : AuthenticatedReleaseBinding
  pub observed : AuthenticatedReleaseBinding
  pub failed : Option AuthenticatedReleaseBinding
  pub launcher_version : String
  pub launcher_installed_identity_sha256 : String
  pub updater_version : String
  pub updater_installed_identity_sha256 : String
  pub core_version : String
  pub core_installed_identity_sha256 : String
  pub installed_selector : Option InstalledReleaseSelector

-- The release that the local identity says is installed fits its selector.
unfoldable pub check_selected : LocalReleaseIdentity → Option InstalledReleaseSelector → Check
check_selected l none = ok tt
check_selected l (some s) = do
  raise_if (s.sequence != l.committed.release_sequence) (value_error "installed_selector.sequence")
  raise_if (s.release_id != l.committed.release_id) (value_error "installed_selector.release_id")
  raise_if (s.version != l.launcher_version) (value_error "installed_selector.version")

unfoldable pub exceeds : Option AuthenticatedReleaseBinding → ℕ → Bool
exceeds none n = false
exceeds (some b) n = ltb n b.release_sequence

-- the bindings of the list that conflict with one of them
unfoldable pub check_against :
    AuthenticatedReleaseBinding → List AuthenticatedReleaseBinding → Check
check_against b [] = ok tt
check_against b (c ∷ rest) = do
  raise_if (b.release_sequence == c.release_sequence && b != c)
      (value_error "Pairwise binding conflict")
  check_against b rest

unfoldable pub check_pairs : List AuthenticatedReleaseBinding → Check
check_pairs [] = ok tt
check_pairs (b ∷ rest) = do check_against b rest; check_pairs rest

unfoldable pub bindings_of : LocalReleaseIdentity → List AuthenticatedReleaseBinding
bindings_of l =
    l.committed ∷ l.high_water ∷ l.observed ∷ (elim l.failed [ none ↦ [] | some b ↦ b ∷ [] ])

abbrev pub check_identity : String → String → Check
check_identity val message = raise_if (not (is_hex 64 val)) (value_error message)

-- `LocalReleaseIdentity.__post_init__`
unfoldable pub check_local : LocalReleaseIdentity → Check
check_local l = do
  check_selected l l.installed_selector
  raise_if (ltb l.high_water.release_sequence l.committed.release_sequence)
      (value_error "committed release_sequence cannot exceed high_water release_sequence")
  raise_if (l.observed != l.high_water)
      (value_error "observed binding must equal high_water binding")
  raise_if (exceeds l.failed l.high_water.release_sequence)
      (value_error "failed release_sequence cannot exceed high_water release_sequence")
  check_pairs (bindings_of l)
  check_identity l.launcher_installed_identity_sha256
      "launcher_installed_identity_sha256 must be lowercase 64-hex"
  check_identity l.updater_installed_identity_sha256
      "updater_installed_identity_sha256 must be lowercase 64-hex"
  check_identity l.core_installed_identity_sha256
      "core_installed_identity_sha256 must be lowercase 64-hex"

pub record UpdateCheckResult : Type 0 where
  pub state : UpdateState
  pub invocation_reason : UpdateInvocationReason
  pub release_id : String
  pub release_sequence : ℕ
  pub launcher_version : String
  pub core_version : String
  pub changed_components : List String
  pub must_install : Bool
  pub diagnostic_code : Option UpdateDiagnosticCode
  pub retry_staging : Bool

-- `components[name]` in the dictionary built from the list: the last entry of a name wins.
unfoldable pub component_named : String → List ComponentRelease → Option ComponentRelease
component_named name [] = none
component_named name (c ∷ rest) = elim (component_named name rest) [
  | some found ↦ some found
  | none ↦ if c.name == name then some c else none
]

unfoldable pub binding_of : ReleaseSet → AuthenticatedReleaseBinding
binding_of remote = record {
  release_sequence = remote.release_sequence;
  release_id = remote.release_id;
  payload_sha256 = remote.payload_sha256;
}

unfoldable pub changed_components_of :
    LocalReleaseIdentity → ComponentRelease → ComponentRelease → List String
changed_components_of l launcher core =
    let cores =
      if core.installed_identity_sha256 != l.core_installed_identity_sha256
      then "core" ∷ []
      else [] in
    if launcher.installed_identity_sha256 != l.launcher_installed_identity_sha256
    then "launcher" ∷ cores
    else cores

unfoldable pub is_forced : LocalReleaseIdentity → ReleaseSet → Bool
is_forced l remote =
    remote.is_mandatory || ltb l.committed.release_sequence remote.minimum_supported_sequence

-- The parts of the result that the comparison of the sequences decides.
pub record Verdict : Type 0 where
  pub state : UpdateState
  pub lists_changes : Bool
  pub must_install : Bool
  pub diagnostic_code : Option UpdateDiagnosticCode
  pub retry_staging : Bool

abbrev pub rejected : UpdateDiagnosticCode → Verdict
rejected code = record {
  state = verify_failed;
  lists_changes = false;
  must_install = false;
  diagnostic_code = some code;
  retry_staging = false;
}

abbrev pub up_to_date : Verdict
up_to_date = record {
  state = latest;
  lists_changes = false;
  must_install = false;
  diagnostic_code = none;
  retry_staging = false;
}

abbrev pub stage_again : Bool → Verdict
stage_again forced = record {
  state = latest;
  lists_changes = true;
  must_install = forced;
  diagnostic_code = none;
  retry_staging = true;
}

abbrev pub offered : Bool → Verdict
offered forced = record {
  state = if forced then mandatory else available;
  lists_changes = true;
  must_install = forced;
  diagnostic_code = none;
  retry_staging = false;
}

unfoldable pub verdict : LocalReleaseIdentity → ReleaseSet → Verdict
verdict l remote =
    if ltb remote.release_sequence l.high_water.release_sequence
    then rejected downgrade_rejected
    else if remote.release_sequence == l.high_water.release_sequence
    then if binding_of remote != l.high_water
      then rejected same_sequence_identity_conflict
      else if binding_of remote == l.committed
      then up_to_date
      else if l.failed == some (binding_of remote)
      then up_to_date
      else stage_again (is_forced l remote)
    else offered (is_forced l remote)

abbrev lookup_component : String → ReleaseSet → Result ComponentRelease
lookup_component name remote = elim (component_named name remote.components) [
  | some c ↦ ok c
  | none ↦ err (other_error "KeyError")
]

unfoldable pub evaluate_release :
    LocalReleaseIdentity → ReleaseSet → UpdateInvocationReason → Result UpdateCheckResult
evaluate_release l remote reason = do
  launcher ← lookup_component "launcher" remote
  core ← lookup_component "core" remote
  check_authenticated (binding_of remote)
  let v = verdict l remote
  ok (record {
    state = v.state;
    invocation_reason = reason;
    release_id = remote.release_id;
    release_sequence = remote.release_sequence;
    launcher_version = launcher.version;
    core_version = core.version;
    changed_components = if v.lists_changes then changed_components_of l launcher core else [];
    must_install = v.must_install;
    diagnostic_code = v.diagnostic_code;
    retry_staging = v.retry_staging;
  })

unfoldable pub can_apply_update : Bool → Bool × Option String
can_apply_update is_proxy_active =
    if is_proxy_active then (false, some "BUSY_SESSION") else (true, none)
