-- ===== src/Launcher/Tests.antt =====
-- The launcher's theorems at concrete states.
use neko_family_proxy.Prelude.{
  ℕ, ◌≡◌, ◌↔◌, ◌⊎◌, ◌<◌, refl, inl, true, false, Bool, Option, none, some, [], ◌∷◌, arith, ok, ltb,
  nat_eq, String,
}
use neko_family_proxy.Updater.Models.Checks.{is_hex, is_blank}
use neko_family_proxy.Launcher.Domain.{
  AppState, AuthStatus, AuthPhase, EntitlementStatus, ProxyStatus, GameStatus,
}
use neko_family_proxy.Launcher.Activity.{
  UpdateApplyBlocker, evaluate_update_apply_safety, is_safe, evaluate_update_apply_safety_iff,
}
use neko_family_proxy.Launcher.Policy.{
  available, UpdateInvocationReason, ComponentRelease, ReleaseSet, AuthenticatedReleaseBinding,
  authenticated_eq, LocalReleaseIdentity, UpdateCheckResult, check_local, check_selected, exceeds,
  check_pairs, check_against, bindings_of, binding_beq, component_named, binding_of,
  check_authenticated, changed_components_of, is_forced, verdict, evaluate_release,
}
use neko_family_proxy.Launcher.Policy.Verdicts.{
  Answers, evaluate_release-Answers, evaluate_release-offered,
}
use neko_family_proxy.Launcher.Reconnect.{
  ReconnectAttempt, Controller, ReconnectCompletion, create, cancel, begin, complete,
}
use neko_family_proxy.Launcher.Reconnect.Runs.{
  IsValid, observe, ask, start, done, next, run, Run-IsValid, cancelled_is_refused,
}

abbrev playing : AppState
playing = record {
  auth_status = AuthStatus.authenticated;
  auth_phase = AuthPhase.idle;
  user_id = some "user";
  user_email = none;
  entitlement = some (record {
    product_code = "neko";
    status = EntitlementStatus.active;
    valid_until = none;
    max_devices = 1;
  });
  session_id = some "session";
  proxy_status = ProxyStatus.failed;
  proxy_start_retry_safe = true;
  proxy_failure_code = none;
  proxy_reconnect_suppressed = false;
  shutting_down = false;
  game_status = GameStatus.running;
  game_process_running = true;
  deferred_session_revocation_reason = none;
  last_error = none;
}

abbrev fresh : Controller ℕ
fresh = record {
  backoff = 1 ∷ 2 ∷ [];
  generation = 0;
  attempts = 0;
  armed = false;
  blocked_now = false;
  scheduled = none;
  in_flight = none;
  cancellation = none;
  events = 0;
  events_set = [];
}

fresh_is_created : create (ltb 0) (1 ∷ 2 ∷ []) ≡ ok fresh
unfolding create
fresh_is_created = refl

-- armed, then asked for an attempt
abbrev asked : Controller ℕ
asked = run (ask 0 playing false) (run observe fresh)

Run-IsValid_example : IsValid asked
Run-IsValid_example =
    Run-IsValid (ltb 0) (1 ∷ 2 ∷ []) fresh asked fresh_is_created
      (next (next done observe) (ask 0 playing false))

abbrev attempt : ReconnectAttempt ℕ
attempt = record { generation = 1; attempt = 1; delay_seconds = 1 }

abbrev pending : Controller ℕ
pending = record fresh { generation = 1; attempts = 1; armed = true; scheduled = some attempt }

abbrev after : Controller ℕ
after = run (start 0 attempt playing false) (run observe (cancel false pending))

cancelled_is_refused_example :
    ((now : ℕ) (state : AppState) (down : Bool)
      → begin now attempt state down after ≡ (after, none))
    × ((success safe : Bool) (code : Option String)
        → complete attempt success safe code after ≡ (after, ReconnectCompletion.blocked))
cancelled_is_refused_example =
    cancelled_is_refused attempt false pending after (omega arith)
      (next (next done observe) (start 0 attempt playing false))

evaluate_update_apply_safety_iff_example :
    ((is_safe playing false ≡ true) ↔ (
      (playing.game_process_running ≡ false)
      × (playing.game_status ≡ GameStatus.stopped)
      × (false ≡ false)
      × (playing.proxy_status ≡ ProxyStatus.stopped)))
    × (((evaluate_update_apply_safety playing false).blocker ≡ none)
        ↔ (is_safe playing false ≡ true))
    × (((evaluate_update_apply_safety playing false).blocker ≡ some UpdateApplyBlocker.game_active)
        ↔ ((playing.game_process_running ≡ true) ⊎ (playing.game_status ≡ GameStatus.running)))
evaluate_update_apply_safety_iff_example = evaluate_update_apply_safety_iff playing false

abbrev digest : String
digest = "3333333333333333333333333333333333333333333333333333333333333333"

abbrev installed : AuthenticatedReleaseBinding
installed = record { release_sequence = 3; release_id = "release-3"; payload_sha256 = digest }

abbrev local_identity : LocalReleaseIdentity
local_identity = record {
  committed = installed;
  high_water = installed;
  observed = installed;
  failed = none;
  launcher_version = "5.1.0";
  launcher_installed_identity_sha256 = digest;
  updater_version = "5.1.0";
  updater_installed_identity_sha256 = digest;
  core_version = "5.1.0";
  core_installed_identity_sha256 = digest;
  installed_selector = none;
}

abbrev component : String → ComponentRelease
component name = record {
  name = name;
  version = "5.2.0";
  artifact_id = "artifact";
  artifact_sha256 = digest;
  artifact_size = 10;
  installed_identity_sha256 = digest;
}

abbrev remote_release : ReleaseSet
remote_release = record {
  schema_version = 1;
  channel = "stable";
  release_sequence = 4;
  release_id = "release-4";
  is_mandatory = false;
  minimum_supported_sequence = 1;
  components = component "launcher" ∷ component "core" ∷ [];
  payload_sha256 = digest;
}

abbrev offer : UpdateCheckResult
offer = record {
  state = available;
  invocation_reason = UpdateInvocationReason.manual;
  release_id = "release-4";
  release_sequence = 4;
  launcher_version = "5.2.0";
  core_version = "5.2.0";
  changed_components = [];
  must_install = false;
  diagnostic_code = none;
  retry_staging = false;
}

evaluates : evaluate_release local_identity remote_release UpdateInvocationReason.manual ≡ ok offer
unfolding evaluate_release component_named check_authenticated binding_of is_blank is_hex verdict
    changed_components_of is_forced
evaluates = refl

local_is_valid : check_local local_identity ≡ ok tt
unfolding check_local check_selected exceeds check_pairs check_against bindings_of binding_beq
    is_hex
local_is_valid = refl

evaluate_release-Answers_example : Answers local_identity remote_release offer
evaluate_release-Answers_example =
    evaluate_release-Answers local_identity remote_release UpdateInvocationReason.manual offer
      evaluates

evaluate_release-offered_example :
    (3 < 4) × (3 < 4) × ((b : AuthenticatedReleaseBinding) → none ≡ some b → b.release_sequence < 4)
evaluate_release-offered_example =
    evaluate_release-offered local_identity remote_release UpdateInvocationReason.manual offer
      local_is_valid evaluates (inl refl)
