-- ===== src/Updater/Samples/Facts.antt =====
-- The sample states are well-formed, authentic and encodable, and recovery leads through them.
use neko_family_proxy.Prelude.{option_beq, ◌≡◌, refl, true, [], ◌∷◌, arith, ok, length}
use neko_family_proxy.Updater.Models.{Binding, CleanupTarget}
use neko_family_proxy.Updater.Models.Checks.{
  check_state, check_binding, check_generation, check_directory, check_transaction, check_cleanup,
  check_evidence, check_rollback, assert_hex, is_hex, selector_matches, is_release_id,
}
use neko_family_proxy.Updater.Models.Valid.{IsValid, GenerationIsValid}
use neko_family_proxy.Updater.Models.Equality.{generation_beq, binding_beq}
use neko_family_proxy.Updater.Models.Prune.{
  referenced, pruned_evidence, prune_unreferenced_evidence,
}
use neko_family_proxy.Updater.Models.Evidence.{
  lookup, restrict, contains, dict_beq, same_keys, included, keys_included,
}
use neko_family_proxy.Updater.Transition.{
  validate_transition, check_revision, is_initial_enrolling, check_highwater, check_observed,
  check_same_sequence, check_phases, check_matrix, from_preparing, precommit_abort,
}
use neko_family_proxy.Updater.Frame.Words.{Bytes}
use neko_family_proxy.Updater.Frame.{slot_frame_size}
use neko_family_proxy.Updater.Abort.{
  cleanup_of, staging_entry, cleanup_queue, execute_precommit_abort,
}
use neko_family_proxy.Updater.Selector.{
  authenticate_evidence, referenced_generations, binding_authentic, generation_authentic,
  envelope_names, envelope_installs, referenced_bindings,
}
use neko_family_proxy.Updater.Selector.Write.{IsEncodable, IsStorable, Holds, Holds-of_IsStorable}
use neko_family_proxy.Updater.Recovery.{
  write, pruned_write, cleaned_state, decide_next, decide_phase, decide_idle,
}
use neko_family_proxy.Updater.Recovery.Converge.{written}
use neko_family_proxy.Updater.Samples.{
  binding_1, binding_2, generation_of, directory, update, interrupted, aborted, at_rest, updated,
  restoring, restore, platform, machine,
}

binding_1-check : check_binding binding_1 ≡ ok tt
unfolding check_binding assert_hex is_hex is_release_id
binding_1-check = refl

binding_2-check : check_binding binding_2 ≡ ok tt
unfolding check_binding assert_hex is_hex is_release_id
binding_2-check = refl

generation-check : (b : Binding) → check_generation (generation_of b) ≡ ok tt
unfolding check_generation assert_hex is_hex selector_matches
generation-check b = refl

directory-check : check_directory directory ≡ ok tt
unfolding check_directory assert_hex is_hex
directory-check = refl

update-check : check_transaction update ≡ ok tt
unfolding check_transaction assert_hex is_hex
update-check = refl

entry-check : check_cleanup (cleanup_of update CleanupTarget.incoming directory) ≡ ok tt
unfolding check_cleanup assert_hex is_hex
entry-check = refl

restore-check : check_rollback restore ≡ ok tt
unfolding check_rollback assert_hex is_hex
restore-check = refl

interrupted-check : check_state interrupted ≡ ok tt
unfolding check_state check_evidence assert_hex is_hex
interrupted-check = refl

aborted-check : check_state aborted ≡ ok tt
unfolding check_state check_evidence assert_hex is_hex
aborted-check = refl

updated-check : check_state updated ≡ ok tt
unfolding check_state check_evidence assert_hex is_hex
updated-check = refl

restoring-check : check_state restoring ≡ ok tt
unfolding check_state check_evidence assert_hex is_hex
restoring-check = refl

generation_1-IsValid : GenerationIsValid (generation_of binding_1)
generation_1-IsValid = record {
  own = generation-check binding_1;
  binding = binding_1-check;
  selector = tt;
}

generation_2-IsValid : GenerationIsValid (generation_of binding_2)
generation_2-IsValid = record {
  own = generation-check binding_2;
  binding = binding_2-check;
  selector = tt;
}

pub interrupted-IsValid : IsValid interrupted
interrupted-IsValid = record {
  own = interrupted-check;
  committed = generation_1-IsValid;
  previous = tt;
  highwater = binding_2-check;
  observed = binding_2-check;
  failed = tt;
  transaction = record {
    own = update-check;
    candidate = generation_2-IsValid;
    old = generation_1-IsValid;
    incoming = directory-check;
    staging = tt;
  };
  cleanup = tt;
  rollback = tt;
}

pub aborted-IsValid : IsValid aborted
aborted-IsValid = record {
  own = aborted-check;
  committed = generation_1-IsValid;
  previous = tt;
  highwater = binding_2-check;
  observed = binding_2-check;
  failed = binding_2-check;
  transaction = tt;
  cleanup = (record { own = entry-check; directory = directory-check }, tt);
  rollback = tt;
}

pub updated-IsValid : IsValid updated
updated-IsValid = record {
  own = updated-check;
  committed = generation_2-IsValid;
  previous = generation_1-IsValid;
  highwater = binding_2-check;
  observed = binding_2-check;
  failed = tt;
  transaction = tt;
  cleanup = tt;
  rollback = tt;
}

pub restoring-IsValid : IsValid restoring
restoring-IsValid = record {
  own = restoring-check;
  committed = generation_2-IsValid;
  previous = generation_1-IsValid;
  highwater = binding_2-check;
  observed = binding_2-check;
  failed = binding_2-check;
  transaction = tt;
  cleanup = tt;
  rollback = record { own = restore-check; target = generation_1-IsValid; scratch = tt };
}

interrupted-authentic : authenticate_evidence platform interrupted ≡ true
unfolding authenticate_evidence referenced_bindings referenced_generations binding_authentic
    generation_authentic envelope_names envelope_installs lookup
interrupted-authentic = refl

aborted-authentic : authenticate_evidence platform aborted ≡ true
unfolding authenticate_evidence referenced_bindings referenced_generations binding_authentic
    generation_authentic envelope_names envelope_installs lookup
aborted-authentic = refl

interrupted-IsEncodable : IsEncodable platform interrupted
interrupted-IsEncodable = record {
  reads = refl;
  nonempty = omega arith;
  fits = omega arith;
  word = omega arith;
}

pub aborted-IsEncodable : IsEncodable platform aborted
aborted-IsEncodable = record {
  reads = refl;
  nonempty = omega arith;
  fits = omega arith;
  word = omega arith;
}

pub at_rest-IsEncodable : IsEncodable platform at_rest
at_rest-IsEncodable = record {
  reads = refl;
  nonempty = omega arith;
  fits = omega arith;
  word = omega arith;
}

pub interrupted-IsStorable : IsStorable platform interrupted
interrupted-IsStorable = record {
  valid = interrupted-IsValid;
  authentic = interrupted-authentic;
  encodable = interrupted-IsEncodable;
}

pub aborted-IsStorable : IsStorable platform aborted
aborted-IsStorable = record {
  valid = aborted-IsValid;
  authentic = aborted-authentic;
  encodable = aborted-IsEncodable;
}

-- The slot files with the two states.
pub interrupted_raw :
    (raw : Bytes) × Holds platform interrupted raw × (length raw ≡ slot_frame_size)
interrupted_raw = Holds-of_IsStorable platform interrupted interrupted-IsStorable (omega arith)

pub aborted_raw : (raw : Bytes) × Holds platform aborted raw × (length raw ≡ slot_frame_size)
aborted_raw = Holds-of_IsStorable platform aborted aborted-IsStorable (omega arith)

pub aborted_is_next : validate_transition interrupted aborted ≡ ok tt
unfolding validate_transition check_revision is_initial_enrolling check_highwater check_observed
    check_same_sequence check_phases check_matrix from_preparing precommit_abort option_beq
    generation_beq binding_beq
aborted_is_next = refl

abort_of_interrupted : execute_precommit_abort interrupted "RECOVERY_ABORT" ≡ ok aborted
unfolding execute_precommit_abort cleanup_queue staging_entry check_cleanup check_state
    check_evidence assert_hex is_hex prune_unreferenced_evidence pruned_evidence referenced restrict
    contains dict_beq included same_keys keys_included lookup option_beq
abort_of_interrupted = rw aborted_is_next refl

rest_of_aborted : pruned_write (cleaned_state aborted) ≡ ok (write at_rest)
unfolding pruned_write check_state check_evidence assert_hex is_hex prune_unreferenced_evidence
    pruned_evidence referenced restrict contains dict_beq included same_keys keys_included lookup
    option_beq
rest_of_aborted = refl

-- From the interrupted update recovery writes the abort and then the state at rest.
pub written_after : written machine 5 0 interrupted ≡ aborted ∷ at_rest ∷ []
unfolding written decide_next decide_phase decide_idle
written_after = simp (abort_of_interrupted, rest_of_aborted)
