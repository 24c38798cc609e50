-- ===== src/Updater/Recovery/Rank.antt =====
-- How many writes recovery can still make from a state, and the states that it can recover.
use neko_family_proxy.Prelude.{ℕ, ◌+◌, ◌≤◌, ◌≡◌, Option, none, some, arith, if◌then◌else◌, ◌==◌}
use neko_family_proxy.Updater.Models.{
  Phase, enrolling, idle, preparing, quiescing, probation, rolling_back, cleaning, repair_required,
  precommit, postcommit, Generation, Rollback, State,
}
use neko_family_proxy.Updater.Models.Equality.{rollback_mode_eq}

-- A precommit rollback goes back to the generation that is committed.
abbrev pub RollbackFits : Option Rollback → Option Generation → Type 0
RollbackFits none committed = ⊥
RollbackFits (some r) committed = r.mode ≡ precommit → committed ≡ some r.target

abbrev pub Ready : Phase → State → Type 0
Ready enrolling s = ⊥
Ready repair_required s = ⊥
Ready rolling_back s = RollbackFits s.rollback s.committed
Ready _ s = Unit

-- An enrolled state outside of repair, with a rollback record that fits if it is rolling back.
abbrev pub CanRecover : State → Type 0
CanRecover s = Ready s.phase s

abbrev pub idle_rank : Option Generation → ℕ
idle_rank none = 0
idle_rank (some g) = 2

abbrev pub rollback_rank : Option Rollback → Option Generation → ℕ
rollback_rank none previous = 1
rollback_rank (some r) previous = if r.mode == postcommit then 1 else 1 + idle_rank previous

abbrev pub phase_rank : Phase → State → ℕ
phase_rank idle s = idle_rank s.previous
phase_rank preparing s = 4
phase_rank quiescing s = 4
phase_rank probation s = 4
phase_rank rolling_back s = rollback_rank s.rollback s.previous
phase_rank cleaning s = 1 + idle_rank s.previous
phase_rank _ s = 0

unfoldable pub rank : State → ℕ
rank s = phase_rank s.phase s

pub rank-le : (s : State) → rank s ≤ 4
unfolding rank
rank-le s = ground arith
