-- ===== src/Updater/Transition/Chain.antt =====
-- Chains of accepted transitions: what no sequence of accepted writes can undo.

use neko_family_proxy.Prelude.{
  ◌+◌, nat_eq, inl, inr, ◌⊎◌, ◌≤◌, ◌≡◌, refl, ◌∙◌, Option, none, some, arith, ok,
}
use neko_family_proxy.Updater.Models.{repair_required, State, Binding}
use neko_family_proxy.Updater.Transition.{validate_transition}
use neko_family_proxy.Updater.Transition.Mirrors.{Mirrors}
use neko_family_proxy.Updater.Transition.Legal.{
  FloorKept, FloorKept-refl, Legal, Row, repair, mirror, enroll, complete_enrollment, admit,
  prepare, roll_back_idle, build, quiesce, abort, probe, roll_back_quiescing, accept,
  roll_back_probation, roll_on, restore_precommit, restore_postcommit, clean_on, settle,
  roll_back_cleaning,
}
use neko_family_proxy.Updater.Transition.Decide.{validate_transition-iff-Legal}

-- The states that a sequence of accepted writes leads through.
pub data Chain (s : State) : State → Type 0 where
  start : Chain s s
  write : {t u : State} → Chain s t → validate_transition t u ≡ ok tt → Chain s u

FloorKept-trans : (a b c : Option Binding) → FloorKept a b → FloorKept b c → FloorKept a c
FloorKept-trans none b c h k = tt
FloorKept-trans (some a) none c h k = absurd h
FloorKept-trans (some a) (some b) none h k = absurd k
FloorKept-trans (some a) (some b) (some c) h k = omega arith

-- What every chain keeps.
pub record Kept (s t : State) : Type 0 where
  pub revision : s.revision ≤ t.revision
  pub installation : t.installation_id ≡ s.installation_id
  pub protocol : t.helper_protocol ≡ s.helper_protocol
  pub highwater : FloorKept s.highwater t.highwater
  pub observed : FloorKept s.observed t.observed

revision-le : {t u : State} → Mirrors t u ⊎ (u.revision ≡ t.revision + 1) → t.revision ≤ u.revision
revision-le (inl m) = ground (arith, m.same_revision)
revision-le (inr e) = ground (arith, e)

Kept-next : {s t u : State} → Kept s t → Legal t u → Kept s u
Kept-next {s} {t} {u} k l = record {
  revision = omega (arith, revision-le l.revision, k.revision);
  installation = l.installation ∙ k.installation;
  protocol = l.protocol ∙ k.protocol;
  highwater = FloorKept-trans s.highwater t.highwater u.highwater k.highwater l.highwater;
  observed = FloorKept-trans s.observed t.observed u.observed k.observed l.observed;
}

-- Along any chain of accepted writes the revision never falls, the installation and the protocol
-- stay the same, and neither the highwater nor the observed floor is ever cleared or lowered.
pub Chain-Kept : {s t : State} → Chain s t → Kept s t
Chain-Kept {s} start = record {
  revision = omega arith;
  installation = refl;
  protocol = refl;
  highwater = FloorKept-refl s.highwater;
  observed = FloorKept-refl s.observed;
}
Chain-Kept (write {t} {u} r h) = Kept-next (Chain-Kept r) ((validate_transition-iff-Legal t u).0 h)

repair_stays : {t u : State} → t.phase ≡ repair_required → Row t u → u.phase ≡ repair_required
repair_stays p (repair q) = q
repair_stays p (mirror a b) = ground arith
repair_stays p (enroll a b d e) = ground arith
repair_stays p (complete_enrollment a b d e) = ground arith
repair_stays p (admit a b d e) = ground arith
repair_stays p (prepare a b t d e f) = ground arith
repair_stays p (roll_back_idle a b d r e f) = ground arith
repair_stays p (build a b) = ground arith
repair_stays p (quiesce a b t d e) = ground arith
repair_stays p (abort a b d e f g) = ground arith
repair_stays p (probe a b) = ground arith
repair_stays p (roll_back_quiescing a b r d e) = ground arith
repair_stays p (accept a b t d e f g) = ground arith
repair_stays p (roll_back_probation a b d) = ground arith
repair_stays p (roll_on a b) = ground arith
repair_stays p (restore_precommit a b r d e f g h) = ground arith
repair_stays p (restore_postcommit a b r d e f g h) = ground arith
repair_stays p (clean_on a b) = ground arith
repair_stays p (settle a b d) = ground arith
repair_stays p (roll_back_cleaning a b d) = ground arith

-- A state that requires repair is left by no accepted write: every state that a chain reaches from
-- it requires repair.
pub Chain-repair_required :
    {s t : State} → Chain s t → s.phase ≡ repair_required → t.phase ≡ repair_required
Chain-repair_required start p = p
Chain-repair_required (write {t} {u} r h) p =
    repair_stays (Chain-repair_required r p) ((validate_transition-iff-Legal t u).0 h).row
