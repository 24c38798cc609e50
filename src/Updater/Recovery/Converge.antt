-- ===== src/Updater/Recovery/Converge.antt =====
-- Recovery ends, and where it ends.
use neko_family_proxy.Prelude.{
  ℕ, zero, suc, ◌+◌, ◌≤◌, ◌<◌, ◌≡◌, ◌⊎◌, inl, inr, refl, ◌∙◌, true, false, Option, none, some, List,
  [], ◌∷◌, ◌++◌, arith, Result, ok, Option-cases, Bool-cases,
}
use neko_family_proxy.Updater.Models.{
  Phase, enrolling, idle, preparing, quiescing, probation, rolling_back, cleaning, repair_required,
  State,
}
use neko_family_proxy.Updater.Models.Checks.{is_hex}
use neko_family_proxy.Updater.Models.Valid.{Every, IsValid}
use neko_family_proxy.Updater.Successor.{Successor}
use neko_family_proxy.Updater.Frame.Words.{Bytes}
use neko_family_proxy.Updater.Frame.{pack_slot_frame}
use neko_family_proxy.Updater.Transition.Decide.{Legal-validate_transition}
use neko_family_proxy.Updater.Platform.{Platform}
use neko_family_proxy.Updater.Selector.{SlotName, slot_a, slot_b, select, select_active_slot}
use neko_family_proxy.Updater.Selector.Write.{
  frame_of, other_slot, IsEncodable, IsStorable, Holds, select_at-written, Holds-of_IsStorable,
}
use neko_family_proxy.Updater.Recovery.{
  Machine, Disk, ScratchPath, RecoveryStatus, RecoveryResult, Decision, finish, write, failed,
  old_fully_restored, present, swept, write_slot, act, resume, dispatch, run_recovery, decide_next,
  decide_phase, decide_idle, missing_release, decide_interrupted,
}
use neko_family_proxy.Updater.Recovery.Rank.{CanRecover, Ready, RollbackFits, rank, rank-le}
use neko_family_proxy.Updater.Recovery.Steps.{
  IsStep, cleaning-IsStep, preparing-IsStep, interrupted-IsStep, rolling_back-IsStep, idle-IsStep,
}

-- The states that recovery writes, one after the other.
abbrev next_written : Result Decision → (State → List State) → List State
next_written (ok (write t)) later = t ∷ later t
next_written _ later = []

unfoldable pub written : Machine → ℕ → ℕ → State → List State
written machine zero m s = []
written machine (suc f) m s = next_written (decide_next machine m s) (written machine f (m + 1))

abbrev pub file_at : Disk → SlotName → Option Bytes
file_at d slot_a = d.file_a
file_at d slot_b = d.file_b

-- The disk of which a state is selected, from a slot into which it was written whole.
pub record IsAt (platform : Platform) (d : Disk) (x : SlotName) (s : State) : Type 0 where
  pub raw : Bytes
  pub file : file_at d x ≡ some raw
  pub holds : Holds platform s raw
  pub selects : select_active_slot platform d.file_a d.file_b ≡ ok (select s x)

-- The same installation with the same floors.
pub record SameFloors (s t : State) : Type 0 where
  pub installation : t.installation_id ≡ s.installation_id
  pub highwater : t.highwater ≡ s.highwater
  pub observed : t.observed ≡ s.observed

-- The three ways in which recovery ends.
pub data Ends (machine : Machine) (s : State) : RecoveryResult → Type 0 where
  -- an idle state whose committed release is on the disk
  recovered :
      (t : State) (r : RecoveryResult)
      → r.converged ≡ true
      → r.status ≡ old_fully_restored
      → r.selected_generation ≡ t.committed
      → r.final_state ≡ some t
      → t.phase ≡ idle
      → present machine t.committed ≡ true
      → SameFloors s t
      → Ends machine s r
  -- an idle state whose committed release is gone, with no backup
  release_lost :
      (t : State) (r : RecoveryResult)
      → r.converged ≡ false
      → r.status ≡ RecoveryStatus.repair_required
      → r.final_state ≡ some t
      → t.phase ≡ idle
      → present machine t.committed ≡ false
      → t.previous ≡ none
      → SameFloors s t
      → Ends machine s r
  -- an interrupted update of an installation with nothing committed
  no_target :
      (t : State) (r : RecoveryResult)
      → r.converged ≡ false
      → r.status ≡ RecoveryStatus.repair_required
      → r.final_state ≡ some t
      → (t.phase ≡ quiescing) ⊎ (t.phase ≡ probation)
      → t.committed ≡ none
      → SameFloors s t
      → Ends machine s r

SameFloors-refl : (s : State) → SameFloors s s
SameFloors-refl s = record { installation = refl; highwater = refl; observed = refl }

SameFloors-next : {s n t : State} → Successor s n → SameFloors n t → SameFloors s t
SameFloors-next a f = record {
  installation = f.installation ∙ a.installation;
  highwater = f.highwater ∙ a.highwater;
  observed = f.observed ∙ a.observed;
}

Ends-next :
    {machine : Machine} {s n : State} {r : RecoveryResult}
    → Successor s n
    → Ends machine n r
    → Ends machine s r
Ends-next a (recovered t r b c d e f g h) = recovered t r b c d e f g (SameFloors-next a h)
Ends-next a (release_lost t r b c d e f g h) = release_lost t r b c d e f g (SameFloors-next a h)
Ends-next a (no_target t r b c d e f h) = no_target t r b c d e f (SameFloors-next a h)

module _ (machine : Machine) (platform : Platform) where
  run_write :
      (f m : ℕ) (d : Disk) (x : SlotName) (s n : State) (raw : Bytes)
      → select_active_slot platform d.file_a d.file_b ≡ ok (select s x)
      → decide_next machine m s ≡ ok (write n)
      → pack_slot_frame platform.sha256 (frame_of platform n) ≡ ok raw
      → run_recovery machine platform (suc f) d m
        ≡ run_recovery machine platform f
            (write_slot machine platform
              (record d { removed = d.removed ++ swept machine s.phase s })
              (other_slot x)
              raw)
            (m + 1)
  unfolding run_recovery dispatch resume act
  run_write f m d x s n raw h e k = simp (h, e, k)

  run_finish :
      (f m : ℕ) (d : Disk) (x : SlotName) (s : State) (r : RecoveryResult)
      → select_active_slot platform d.file_a d.file_b ≡ ok (select s x)
      → decide_next machine m s ≡ ok (finish r)
      → run_recovery machine platform (suc f) d m ≡ ok (some r)
  unfolding run_recovery dispatch resume act
  run_finish f m d x s r h e = simp (h, e)

  -- After a write the other slot holds the next state, and it is selected.
  written_IsAt :
      (d : Disk) (x : SlotName) (s n : State) (gone : List ScratchPath) (raw : Bytes)
      → (at : IsAt platform d x s) → IsStep platform s n
      → Holds platform n raw
      → IsAt platform
          (write_slot machine platform (record d { removed = gone }) (other_slot x) raw)
          (other_slot x)
          n
  written_IsAt d slot_a s n gone raw at step h = record {
    raw = raw;
    file = refl;
    holds = h;
    selects = rw at.file (
        select_at-written platform slot_a s n at.raw raw at.holds h step.successor.revision
          (Legal-validate_transition s n step.legal));
  }
  written_IsAt d slot_b s n gone raw at step h = record {
    raw = raw;
    file = refl;
    holds = h;
    selects = rw at.file (
        select_at-written platform slot_b s n at.raw raw at.holds h step.successor.revision
          (Legal-validate_transition s n step.legal));
  }

  -- What a round decides on a state that can be recovered.
  data Round (m : ℕ) (s : State) : Type 0 where
    stops :
        (r : RecoveryResult)
        → decide_next machine m s ≡ ok (finish r)
        → Ends machine s r
        → Round m s
    writes : (n : State) → decide_next machine m s ≡ ok (write n) → IsStep platform s n → Round m s

  stops_restored :
      (m : ℕ) (s : State) → s.phase ≡ idle → present machine s.committed ≡ true → Round m s
  unfolding decide_next decide_phase decide_idle
  stops_restored m s p e =
      stops
        (record {
          converged = true;
          status = old_fully_restored;
          selected_generation = s.committed;
          mutations_performed = m;
          final_state = some s;
        })
        (ground arith) (recovered s _ refl refl refl refl p e (SameFloors-refl s))

  stops_lost :
      (m : ℕ) (s : State)
      → s.phase ≡ idle
      → present machine s.committed ≡ false
      → s.previous ≡ none
      → Round m s
  unfolding decide_next decide_phase decide_idle missing_release
  stops_lost m s p e k =
      stops (failed RecoveryStatus.repair_required (some s) m) (ground arith)
        (release_lost s _ refl refl refl p e k (SameFloors-refl s))

  stops_untargeted :
      (m : ℕ) (s : State)
      → (s.phase ≡ quiescing) ⊎ (s.phase ≡ probation)
      → s.committed ≡ none
      → Round m s
  unfolding decide_next decide_phase decide_interrupted
  stops_untargeted m s p e =
      stops (failed RecoveryStatus.repair_required (some s) m) (ground arith)
        (no_target s _ refl refl refl p e (SameFloors-refl s))

  module _ (token_hex : (k : ℕ) → is_hex 32 (machine.token k) ≡ true) where
    idle-Round : (m : ℕ) (s : State) → IsValid s → s.phase ≡ idle → Round m s
    idle-Round m s v p = elim (Bool-cases (present machine s.committed)) [
      | inl here ↦ stops_restored m s p here
      | inr gone ↦ elim (Option-cases s.previous) [
        | inl e ↦ stops_lost m s p gone e
        | inr (g, e) ↦
            let (n, k, i) = idle-IsStep machine platform m s v g p gone e (token_hex m) in
            writes n k i
      ]
    ]

    interrupted-Round :
        (m : ℕ) (s : State) → IsValid s → (s.phase ≡ quiescing) ⊎ (s.phase ≡ probation) → Round m s
    interrupted-Round m s v p = elim (Option-cases s.committed) [
      | inl e ↦ stops_untargeted m s p e
      | inr (g, e) ↦ let (n, k, i) = interrupted-IsStep machine platform m s v g p e in writes n k i
    ]

    rolling-Round :
        (m : ℕ) (s : State)
        → IsValid s
        → s.phase ≡ rolling_back
        → RollbackFits s.rollback s.committed
        → Round m s
    rolling-Round m s v p f = elim (Option-cases s.rollback) [
      | inl e ↦ absurd (rw e at f)
      | inr (r, e) ↦
          let (n, k, i) = rolling_back-IsStep machine platform m s v r p e (rw e at f) in
          writes n k i
    ]

    Round-at : (q : Phase) (m : ℕ) (s : State) → IsValid s → s.phase ≡ q → Ready q s → Round m s
    Round-at idle m s v p c = idle-Round m s v p
    Round-at preparing m s v p c =
        let (n, k, i) = preparing-IsStep machine platform m s v p in writes n k i
    Round-at quiescing m s v p c = interrupted-Round m s v (inl p)
    Round-at probation m s v p c = interrupted-Round m s v (inr p)
    Round-at cleaning m s v p c =
        let (k, i) = cleaning-IsStep machine platform m s v p in writes _ k i
    Round-at rolling_back m s v p c = rolling-Round m s v p c
    Round-at enrolling m s v p c = absurd c
    Round-at repair_required m s v p c = absurd c

    converges :
        (fuel m : ℕ) (d : Disk) (x : SlotName) (s : State)
        → IsAt platform d x s
        → CanRecover s
        → rank s < fuel
        → Every (IsEncodable platform) (written machine fuel m s)
        → (r : RecoveryResult) × (run_recovery machine platform fuel d m ≡ ok (some r))
          × Ends machine s r
    unfolding written
    converges zero m d x s at c k w = absurd (omega arith)
    converges (suc f) m d x s at c k w =
        elim (Round-at s.phase m s at.holds.storable.valid refl c) [
          | stops r e o ↦ (r, run_finish f m d x s r at.selects e, o)
          | writes n e step ↦
              let w' : Every (IsEncodable platform) (n ∷ written machine f (m + 1) n) = rw e at w in
              let storable : IsStorable platform n = record {
                valid = step.valid;
                authentic = step.authentic at.holds.storable.authentic;
                encodable = w'.0;
              } in
              let (raw, h, size) =
                Holds-of_IsStorable platform n storable (omega (arith, step.successor.revision)) in
              let gone = d.removed ++ swept machine s.phase s in
              let (r, run, o) =
                converges f (m + 1)
                  (write_slot machine platform (record d { removed = gone }) (other_slot x) raw)
                  (other_slot x) n (written_IsAt d x s n gone raw at step h) step.ready
                  (omega (arith, step.falls)) w'.1 in
              (r, run_write f m d x s n raw at.selects e h.packed ∙ run, Ends-next step.successor o)
        ]

    -- From a selected state that can be recovered, whose later states have a text form that fits a
    -- slot, the recovery loop ends within five rounds and raises nothing. It ends in an idle state
    -- whose committed release is on the disk, or asks for a repair because that release and its
    -- backup are lost, or because an interrupted update had nothing committed. The installation and
    -- both floors are those of the state that it began with.
    pub run_recovery-Ends :
        (fuel m : ℕ) (d : Disk) (x : SlotName) (s : State)
        → 5 ≤ fuel
        → IsAt platform d x s
        → CanRecover s
        → Every (IsEncodable platform) (written machine fuel m s)
        → (r : RecoveryResult) × (run_recovery machine platform fuel d m ≡ ok (some r))
          × Ends machine s r
    run_recovery-Ends fuel m d x s k at c w =
        converges fuel m d x s at c (omega (arith, rank-le s)) w
