-- ===== src/Updater/Selector.antt =====
-- launcher/src/neko_launcher/updater/slot_selector.py
pub mod Chosen
pub mod References
pub mod Authentic
pub mod Write
use neko_family_proxy.Prelude.{
  ℕ, ◌+◌, String, Bool, true, false, not, ◌&&◌, Option, none, some, List, [], ◌∷◌, ◌++◌, ltb, all,
  Exn, Check, Result, ok, err, is_value_error, is_ok, value_error, ◌>>=◌, ◌==◌, ◌!=◌, nat_eq,
  string_eq, if◌then◌else◌,
}
use neko_family_proxy.Updater.Models.{
  Binding, Generation, Transaction, Rollback, Dict, State, enrolling,
}
use neko_family_proxy.Updater.Models.Equality.{phase_eq}
use neko_family_proxy.Updater.Models.Evidence.{lookup}
use neko_family_proxy.Updater.Models.Prune.{state_beq}
use neko_family_proxy.Updater.Frame.Words.{Bytes}
use neko_family_proxy.Updater.Frame.{SlotFrame, unpack_slot_frame}
use neko_family_proxy.Updater.Platform.{Envelope, Platform}
use neko_family_proxy.Updater.Transition.{validate_transition}

pub data SelectionStatus : Type 0 where
  selected repair_required enrollment_incomplete : SelectionStatus

pub data SlotName : Type 0 where
  slot_a slot_b : SlotName

pub record SelectionResult : Type 0 where
  pub status : SelectionStatus
  pub state : Option State
  pub active_slot : Option SlotName
  pub reason : Option String

abbrev pub repair : String → SelectionResult
repair reason = record {
  status = SelectionStatus.repair_required;
  state = none;
  active_slot = none;
  reason = some reason;
}

abbrev pub select : State → SlotName → SelectionResult
select state slot = record {
  status = selected;
  state = some state;
  active_slot = some slot;
  reason = none;
}

abbrev pub binding_list : Option Binding → List Binding
binding_list none = []
binding_list (some b) = b ∷ []

abbrev pub generation_binding : Option Generation → List Binding
generation_binding none = []
generation_binding (some g) = g.binding ∷ []

abbrev pub transaction_bindings : Option Transaction → List Binding
transaction_bindings none = []
transaction_bindings (some t) = t.candidate.binding ∷ generation_binding t.old

abbrev pub rollback_binding : Option Rollback → List Binding
rollback_binding none = []
rollback_binding (some r) = r.target.binding ∷ []

-- The bindings in the order in which the selector collects them.
unfoldable pub referenced_bindings : State → List Binding
referenced_bindings s =
    generation_binding s.committed
    ++ (generation_binding s.previous
        ++ (binding_list s.highwater
            ++ (binding_list s.observed
                ++ (binding_list s.failed
                    ++ (transaction_bindings s.transaction ++ rollback_binding s.rollback)))))

abbrev pub generation_list : Option Generation → List Generation
generation_list none = []
generation_list (some g) = g ∷ []

abbrev pub transaction_generations : Option Transaction → List Generation
transaction_generations none = []
transaction_generations (some t) = t.candidate ∷ generation_list t.old

abbrev pub rollback_generation : Option Rollback → List Generation
rollback_generation none = []
rollback_generation (some r) = r.target ∷ []

unfoldable pub referenced_generations : State → List Generation
referenced_generations s =
    generation_list s.committed
    ++ (generation_list s.previous
        ++ (transaction_generations s.transaction ++ rollback_generation s.rollback))

-- The four outcomes of `_classify_slot`: `(False, None, None, "missing")`, `(False, None, None, ...)`
-- for a torn frame, `(True, None, revision, ...)`, and `(True, state, revision, None)`.
pub data SlotClass : Type 0 where
  missing torn : SlotClass
  malformed : ℕ → SlotClass
  sound : State → ℕ → SlotClass

abbrev pub frame_valid : SlotClass → Bool
frame_valid missing = false
frame_valid torn = false
frame_valid (malformed n) = true
frame_valid (sound s n) = true

module _ (platform : Platform) where
  open platform use {sha256, deserialize_state, open_envelope}

  unfoldable pub envelope_names : Binding → Option Envelope → Bool
  envelope_names b none = false
  envelope_names b (some e) =
      e.payload_sha256 == b.payload_sha256
      && e.release_sequence == b.release_sequence
      && e.release_id == b.release_id

  -- one round of the loop over `referenced_bindings`
  unfoldable pub binding_authentic : Dict → Binding → Bool
  binding_authentic evidence b = elim (lookup b.payload_sha256 evidence) [
    | none ↦ false
    | some envelope_b64 ↦ envelope_names b (open_envelope envelope_b64)
  ]

  unfoldable pub envelope_installs : Generation → Option Envelope → Bool
  envelope_installs g none = false
  envelope_installs g (some e) =
      g.launcher_identity_sha256 == e.launcher_identity_sha256
      && g.core_identity_sha256 == e.core_identity_sha256

  -- one round of the loop over `referenced_generations`
  unfoldable pub generation_authentic : Dict → Generation → Bool
  generation_authentic evidence g = elim (lookup g.binding.payload_sha256 evidence) [
    | none ↦ false
    | some envelope_b64 ↦ envelope_b64 != "" && envelope_installs g (open_envelope envelope_b64)
  ]

  unfoldable pub authenticate_evidence : State → Bool
  authenticate_evidence s =
      all (binding_authentic s.evidence) (referenced_bindings s)
      && all (generation_authentic s.evidence) (referenced_generations s)

  unfoldable pub classify_state : ℕ → Result State → Result SlotClass
  classify_state revision (ok state) =
      if state.revision != revision then ok (malformed revision) else ok (sound state revision)
  classify_state revision (err e) = if is_value_error e then ok (malformed revision) else err e

  unfoldable pub classify_frame : Result SlotFrame → Result SlotClass
  classify_frame (ok frame) = classify_state frame.revision (deserialize_state frame.body_bytes)
  classify_frame (err e) = if is_value_error e then ok torn else err e

  unfoldable pub classify_slot : Option Bytes → Result SlotClass
  classify_slot none = ok missing
  classify_slot (some raw) = classify_frame (unpack_slot_frame sha256 raw)

  -- both frames valid, of one revision
  unfoldable pub select_equal : State → State → ℕ → SelectionResult
  select_equal state_a state_b rev =
      if rev == 1
        && state_a.phase == enrolling
        && state_b.phase == enrolling
        && state_beq state_a state_b
      then select state_a slot_a
      else repair "Equal revision with differing content or illegal phase"

  -- both frames valid, of different revisions
  unfoldable pub select_adjacent : State → State → ℕ → ℕ → SelectionResult
  select_adjacent state_a state_b rev_a rev_b =
      if not (rev_a == rev_b + 1) && not (rev_b == rev_a + 1)
      then repair "Nonadjacent revisions"
      else if ltb rev_a rev_b
      then (if is_ok (validate_transition state_a state_b)
          then select state_b slot_b
          else repair "Illegal transition from slot A to B")
      else (if is_ok (validate_transition state_b state_a)
          then select state_a slot_a
          else repair "Illegal transition from slot B to A")

  unfoldable pub select_both : State → State → ℕ → ℕ → SelectionResult
  select_both state_a state_b rev_a rev_b =
      if not (authenticate_evidence state_a)
      then repair "Evidence unauthenticated in slot A"
      else if not (authenticate_evidence state_b)
      then repair "Evidence unauthenticated in slot B"
      else if rev_a == rev_b
      then select_equal state_a state_b rev_a
      else select_adjacent state_a state_b rev_a rev_b

  abbrev sole_reason : SlotName → String
  sole_reason slot_a = "Evidence unauthenticated in sole frame A"
  sole_reason slot_b = "Evidence unauthenticated in sole frame B"

  unfoldable pub select_sole : State → SlotName → SelectionResult
  select_sole state slot =
      if not (authenticate_evidence state) then repair (sole_reason slot) else select state slot

  abbrev malformed_reason : ℕ → ℕ → String → String → String
  malformed_reason mine other higher stale =
      if ltb other mine
      then higher
      else if ltb mine other
      then stale
      else "Equal revision malformed slot"

  unfoldable pub select_classes : SlotClass → SlotClass → SelectionResult
  select_classes (sound a m) (sound b n) = select_both a b m n
  select_classes (malformed m) (sound b n) =
      repair (malformed_reason m n "Malformed higher slot A" "Malformed stale history slot A")
  select_classes (sound a m) (malformed n) =
      repair (malformed_reason n m "Malformed higher slot B" "Malformed stale history slot B")
  select_classes (malformed m) (malformed n) = repair (
      if ltb n m
      then "Malformed higher slot A"
      else if ltb m n
      then "Malformed higher slot B"
      else "Equal revision malformed slot")
  select_classes (sound a m) _ = select_sole a slot_a
  select_classes (malformed m) _ = repair "Malformed schema in sole valid frame A"
  select_classes _ (sound b n) = select_sole b slot_b
  select_classes _ (malformed n) = repair "Malformed schema in sole valid frame B"
  select_classes _ _ = repair "Both frames torn or invalid"

  unfoldable pub select_active_slot : Option Bytes → Option Bytes → Result SelectionResult
  select_active_slot none none = ok (record {
    status = enrollment_incomplete;
    state = none;
    active_slot = none;
    reason = some "No slots exist on disk";
  })
  select_active_slot a b = do
    class_a ← classify_slot a
    class_b ← classify_slot b
    ok (select_classes class_a class_b)
