-- ===== src/Updater/Models/Prune.antt =====
-- `prune_unreferenced_evidence` of state_models.py, and the payloads that a state refers to.
pub mod References
use neko_family_proxy.Prelude.{
  String, ◌≡◌, refl, Bool, ◌&&◌, Option, none, some, List, [], ◌∷◌, ◌++◌, map, arith, Result, ok,
  ◌==◌, nat_eq, string_eq, bool_eq, option_eq, list_eq, if◌then◌else◌,
}
use neko_family_proxy.Updater.Json.Equal.{json_eq}
use neko_family_proxy.Updater.Models.{Binding, Generation, Transaction, Rollback, Dict, State}
use neko_family_proxy.Updater.Models.Equality.{
  phase_eq, binding_eq, generation_eq, transaction_eq, cleanup_eq, rollback_eq,
}
use neko_family_proxy.Updater.Models.Checks.{check_state, check_evidence, make_state}
use neko_family_proxy.Updater.Models.Evidence.{
  lookup, contains, restrict, dict_beq, lookup-restrict, lookup-dropped,
}

-- `add`, whose argument may be `None`
abbrev pub add : Option Binding → List String
add none = []
add (some b) = b.payload_sha256 ∷ []

abbrev pub add_generation : Option Generation → List String
add_generation none = []
add_generation (some g) = g.binding.payload_sha256 ∷ []

abbrev pub add_transaction : Option Transaction → List String
add_transaction none = []
add_transaction (some t) = t.candidate.binding.payload_sha256 ∷ add_generation t.old

abbrev pub add_rollback : Option Rollback → List String
add_rollback none = []
add_rollback (some r) = r.target.binding.payload_sha256 ∷ []

-- the set `referenced`, in the order in which the code adds to it
unfoldable pub referenced : State → List String
referenced s =
    add_generation s.committed
    ++ (add_generation s.previous
        ++ (add s.highwater
            ++ (add s.observed
                ++ (add s.failed ++ (add_transaction s.transaction ++ add_rollback s.rollback)))))

unfoldable pub pruned_evidence : State → Dict
pruned_evidence s = restrict (referenced s) s.evidence

unfoldable pub prune_unreferenced_evidence : State → Result State
prune_unreferenced_evidence s =
    if dict_beq (pruned_evidence s) s.evidence
    then ok s
    else make_state (record s { evidence = pruned_evidence s })

-- `current == next_state` for states: every field, and the contents of the evidence.
unfoldable pub state_beq : State → State → Bool
state_beq a b =
    a.schema_version == b.schema_version
    && a.revision == b.revision
    && a.installation_id == b.installation_id
    && a.helper_protocol == b.helper_protocol
    && a.enrollment_complete == b.enrollment_complete
    && a.phase == b.phase
    && a.committed == b.committed
    && a.previous == b.previous
    && a.highwater == b.highwater
    && a.observed == b.observed
    && a.failed == b.failed
    && a.transaction == b.transaction
    && a.cleanup == b.cleanup
    && a.rollback == b.rollback
    && a.last_error == b.last_error
    && dict_beq a.evidence b.evidence

-- Filtering keeps the keys well formed.
check_evidence-restrict :
    (keep : List String) (d : Dict)
    → check_evidence d ≡ ok tt
    → check_evidence (restrict keep d) ≡ ok tt
unfolding check_evidence restrict
check_evidence-restrict keep [] h = refl
check_evidence-restrict keep ((k, v) ∷ d) h = ground (arith, check_evidence-restrict keep d)

-- What pruning leaves as evidence.
unfoldable pub kept_evidence : State → Dict
kept_evidence s = if dict_beq (pruned_evidence s) s.evidence then s.evidence else pruned_evidence s

-- On a state that passes its own check, pruning raises nothing and changes the evidence alone.
pub prune-ok :
    (s : State)
    → check_state s ≡ ok tt
    → prune_unreferenced_evidence s ≡ ok (record s { evidence = kept_evidence s })
unfolding prune_unreferenced_evidence kept_evidence check_state pruned_evidence
prune-ok s h = ground (arith, check_evidence-restrict (referenced s) s.evidence)

pub check_state-kept :
    (s : State)
    → check_state s ≡ ok tt
    → check_state (record s { evidence = kept_evidence s }) ≡ ok tt
unfolding check_state kept_evidence pruned_evidence
check_state-kept s h = ground (arith, check_evidence-restrict (referenced s) s.evidence)

pub lookup-kept_evidence :
    (k : String) (s : State)
    → lookup k (kept_evidence s) ≡ (if contains (referenced s) k then lookup k s.evidence else none)
unfolding kept_evidence pruned_evidence dict_beq
lookup-kept_evidence k s =
    ground (
      arith,
      lookup-restrict k (referenced s) s.evidence,
      lookup-dropped k (referenced s) s.evidence,
    )
