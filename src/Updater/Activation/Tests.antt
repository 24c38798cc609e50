-- ===== src/Updater/Activation/Tests.antt =====
-- Activations of a verified update: one that commits, and one whose second write fails.
use neko_family_proxy.Prelude.{
  ◌≡◌, ◌⊎◌, refl, Bool, true, false, Option, none, some, leb, option_beq,
}
use neko_family_proxy.Updater.Models.{preparing, verified, Transaction, State}
use neko_family_proxy.Updater.Models.Checks.{
  check_state, check_transaction, check_cleanup, check_evidence, assert_hex, is_hex,
}
use neko_family_proxy.Updater.Models.Equality.{generation_beq, binding_beq}
use neko_family_proxy.Updater.Models.Valid.{Every}
use neko_family_proxy.Updater.Models.Prune.{
  referenced, pruned_evidence, prune_unreferenced_evidence,
}
use neko_family_proxy.Updater.Models.Evidence.{
  lookup, restrict, contains, dict_beq, same_keys, included, keys_included,
}
use neko_family_proxy.Updater.Transition.{
  validate_transition, check_revision, is_initial_enrolling, check_highwater, check_observed,
  check_same_sequence, check_phases, check_matrix, from_preparing, from_quiescing, from_probation,
  commit,
}
use neko_family_proxy.Updater.Selector.{selected}
use neko_family_proxy.Updater.Activation.{
  SelfTestResult, test_passed, persist, advance, accept_candidate, commit_activation,
  activate_staged, activate_state, activate_verified_generation,
}
use neko_family_proxy.Updater.Activation.Writes.{Linked, activate-Linked, activate-Unswitched}
use neko_family_proxy.Updater.Activation.Commits.{Commits, activate-Commits}
use neko_family_proxy.Updater.Samples.{directory, update, interrupted}

abbrev ready : State
ready = record interrupted {
  transaction = some (record update { staging = some directory; stage = verified });
}

abbrev passing : Option SelfTestResult
passing = some (record { passed = true; error_code = none; reason = none })

abbrev always : State → Bool
always n = true

abbrev only_first : State → Bool
only_first n = leb n.revision 6

commits : (activate_verified_generation always passing selected (some ready)).0.committed ≡ true
unfolding activate_verified_generation activate_state activate_staged commit_activation persist
    advance accept_candidate check_state check_transaction check_cleanup check_evidence assert_hex
    is_hex prune_unreferenced_evidence pruned_evidence referenced restrict contains dict_beq
    included same_keys keys_included lookup option_beq validate_transition check_revision
    is_initial_enrolling check_highwater check_observed check_same_sequence check_phases
    check_matrix from_preparing from_quiescing from_probation commit generation_beq binding_beq
commits = refl

fails : (activate_verified_generation only_first passing selected (some ready)).0.committed ≡ false
unfolding activate_verified_generation activate_state activate_staged commit_activation persist
    advance accept_candidate check_state check_transaction check_cleanup check_evidence assert_hex
    is_hex prune_unreferenced_evidence pruned_evidence referenced restrict contains dict_beq
    included same_keys keys_included lookup option_beq validate_transition check_revision
    is_initial_enrolling check_highwater check_observed check_same_sequence check_phases
    check_matrix from_preparing from_quiescing from_probation commit generation_beq binding_beq
fails = refl

activate-Commits_example :
    (tx : Transaction) × (ready.transaction ≡ some tx)
    × (ready.phase ≡ preparing)
    × (tx.stage ≡ verified)
    × (test_passed passing ≡ true)
    × Commits always ready tx
        ((activate_verified_generation always passing selected (some ready)).1)
activate-Commits_example = activate-Commits always passing selected ready commits

activate-Unswitched_example :
    Every
      (λ (n : State).
        (n.committed ≡ ready.committed) ⊎ ((test_passed passing ≡ true) × (only_first n ≡ false)))
      ((activate_verified_generation only_first passing selected (some ready)).1)
activate-Unswitched_example = activate-Unswitched only_first passing selected ready fails

activate-Linked_example :
    Linked ready ((activate_verified_generation always passing selected (some ready)).1)
activate-Linked_example = activate-Linked always passing selected ready
