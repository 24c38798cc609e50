-- ===== src/Launcher/Activity.antt =====
-- launcher/src/neko_launcher/application/software_update_activity.py
use neko_family_proxy.Prelude.{
  ◌≡◌, ◌↔◌, ◌⊎◌, Bool, true, false, not, ◌||◌, Option, none, some, arith, if◌then◌else◌,
}
use neko_family_proxy.Launcher.Domain.{AppState, ProxyStatus, GameStatus}

pub data UpdateApplyBlocker : Type 0 where
  game_active proxy_active game_transition update_busy_now : UpdateApplyBlocker

pub record UpdateApplySafety : Type 0 where
  pub safe : Bool
  pub blocker : Option UpdateApplyBlocker

abbrev pub blocked_by : UpdateApplyBlocker → UpdateApplySafety
blocked_by b = record { safe = false; blocker = some b }

abbrev game_running : GameStatus → Bool
game_running GameStatus.running = true
game_running _ = false

abbrev game_stopped : GameStatus → Bool
game_stopped GameStatus.stopped = true
game_stopped _ = false

abbrev proxy_stopped : ProxyStatus → Bool
proxy_stopped ProxyStatus.stopped = true
proxy_stopped _ = false

unfoldable pub evaluate_update_apply_safety : AppState → Bool → UpdateApplySafety
evaluate_update_apply_safety state update_busy =
    if state.game_process_running || game_running state.game_status
    then blocked_by game_active
    else if not (game_stopped state.game_status)
    then blocked_by game_transition
    else if update_busy
    then blocked_by update_busy_now
    else if not (proxy_stopped state.proxy_status)
    then blocked_by proxy_active
    else record { safe = true; blocker = none }

-- `SessionActivityGuard.is_safe`
unfoldable pub is_safe : AppState → Bool → Bool
unfolding evaluate_update_apply_safety
is_safe state update_busy = (evaluate_update_apply_safety state update_busy).safe

-- The guard says safe exactly when no game process runs, the game and the proxy are stopped and no
-- update is busy; whenever it does not, it names a blocker; and a game that runs is the blocker
-- named, whatever else is active.
pub evaluate_update_apply_safety_iff :
    (state : AppState) (update_busy : Bool)
    → ((is_safe state update_busy ≡ true) ↔ (
        (state.game_process_running ≡ false)
        × (state.game_status ≡ GameStatus.stopped)
        × (update_busy ≡ false)
        × (state.proxy_status ≡ ProxyStatus.stopped)))
      × (((evaluate_update_apply_safety state update_busy).blocker ≡ none)
          ↔ (is_safe state update_busy ≡ true))
      × (((evaluate_update_apply_safety state update_busy).blocker ≡ some game_active)
          ↔ ((state.game_process_running ≡ true) ⊎ (state.game_status ≡ GameStatus.running)))
unfolding is_safe
evaluate_update_apply_safety_iff state update_busy = (ground arith, ground arith, ground arith)
