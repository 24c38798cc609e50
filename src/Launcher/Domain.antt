-- ===== src/Launcher/Domain.antt =====
-- launcher/src/neko_launcher/domain/models.py: the application state. A `datetime` is a number, and
-- `datetime.now(...)` is the argument `now`.
use neko_family_proxy.Prelude.{ℕ, String, Bool, true, false, Option, none, some, ltb}

pub data AuthStatus : Type 0 where
  signed_out authenticating authenticated failed recovery_code_entry recovery_verifying
        recovery_password_change :
      AuthStatus

pub data AuthPhase : Type 0 where
  idle opening_browser waiting_for_browser connecting checking_entitlement : AuthPhase

pub data EntitlementStatus : Type 0 where
  unknown none_granted active expired revoked : EntitlementStatus

pub data ProxyStatus : Type 0 where
  stopped starting reconnecting running stopping failed : ProxyStatus

pub data GameStatus : Type 0 where
  stopped starting running failed : GameStatus

pub record Entitlement : Type 0 where
  pub product_code : String
  pub status : EntitlementStatus
  pub valid_until : Option ℕ
  pub max_devices : ℕ

pub record AppState : Type 0 where
  pub auth_status : AuthStatus
  pub auth_phase : AuthPhase
  pub user_id : Option String
  pub user_email : Option String
  pub entitlement : Option Entitlement
  pub session_id : Option String
  pub proxy_status : ProxyStatus
  pub proxy_start_retry_safe : Bool
  pub proxy_failure_code : Option String
  pub proxy_reconnect_suppressed : Bool
  pub shutting_down : Bool
  pub game_status : GameStatus
  pub game_process_running : Bool
  pub deferred_session_revocation_reason : Option String
  pub last_error : Option String

unfoldable pub not_expired : ℕ → Option ℕ → Bool
not_expired now none = true
not_expired now (some until) = ltb now until

abbrev pub is_active : EntitlementStatus → Bool
is_active EntitlementStatus.active = true
is_active _ = false

unfoldable pub entitlement_is_active : ℕ → Option Entitlement → Bool
unfolding not_expired
entitlement_is_active now none = false
entitlement_is_active now (some e) = elim (is_active e.status) [
  | true ↦ not_expired now e.valid_until
  | false ↦ false
]
