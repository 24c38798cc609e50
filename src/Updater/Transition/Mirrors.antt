-- ===== src/Updater/Transition/Mirrors.antt =====
-- The initial enrolment, which both slots hold at revision 1.
use neko_family_proxy.Prelude.{
  ◌≡◌, sym, ◌↔◌, true, arith, eq_law, nat_eq, string_eq, bool_eq, option_eq, list_eq,
}
use neko_family_proxy.Updater.Json.Equal.{json_eq}
use neko_family_proxy.Updater.Models.{enrolling, State}
use neko_family_proxy.Updater.Models.Equality.{
  phase_eq, binding_eq, generation_eq, transaction_eq, cleanup_eq, rollback_eq,
}
use neko_family_proxy.Updater.Models.Evidence.{dict_beq}
use neko_family_proxy.Updater.Models.Prune.{state_beq}
use neko_family_proxy.Updater.Transition.{is_initial_enrolling}
use neko_family_proxy.Updater.Transition.Entries.{Preserved, included_iff}

-- The second state is the first, an enrolment at revision 1, up to the order of the evidence.
pub record Mirrors (c n : State) : Type 0 where
  pub phase : c.phase ≡ enrolling
  pub revision : c.revision ≡ 1
  pub schema_version : n.schema_version ≡ c.schema_version
  pub same_revision : n.revision ≡ c.revision
  pub installation_id : n.installation_id ≡ c.installation_id
  pub helper_protocol : n.helper_protocol ≡ c.helper_protocol
  pub enrollment_complete : n.enrollment_complete ≡ c.enrollment_complete
  pub same_phase : n.phase ≡ c.phase
  pub committed : n.committed ≡ c.committed
  pub previous : n.previous ≡ c.previous
  pub highwater : n.highwater ≡ c.highwater
  pub observed : n.observed ≡ c.observed
  pub failed : n.failed ≡ c.failed
  pub transaction : n.transaction ≡ c.transaction
  pub cleanup : n.cleanup ≡ c.cleanup
  pub rollback : n.rollback ≡ c.rollback
  pub last_error : n.last_error ≡ c.last_error
  pub kept : Preserved c.evidence n.evidence
  pub no_more : Preserved n.evidence c.evidence

module _ (c n : State) where
  is_initial_enrolling-Mirrors : is_initial_enrolling c n ≡ true → Mirrors c n
  unfolding is_initial_enrolling state_beq dict_beq
  is_initial_enrolling-Mirrors h = record {
    phase = ground arith;
    revision = ground arith;
    schema_version = ground arith;
    same_revision = ground arith;
    installation_id = ground (arith, eq_law c.installation_id n.installation_id);
    helper_protocol = ground arith;
    enrollment_complete = ground arith;
    same_phase = ground arith;
    committed = ground (arith, eq_law c.committed n.committed);
    previous = ground (arith, eq_law c.previous n.previous);
    highwater = ground (arith, eq_law c.highwater n.highwater);
    observed = ground (arith, eq_law c.observed n.observed);
    failed = ground (arith, eq_law c.failed n.failed);
    transaction = ground (arith, eq_law c.transaction n.transaction);
    cleanup = ground (arith, eq_law c.cleanup n.cleanup);
    rollback = ground (arith, eq_law c.rollback n.rollback);
    last_error = ground (arith, eq_law c.last_error n.last_error);
    kept = (included_iff c.evidence n.evidence).0 (ground arith);
    no_more = (included_iff n.evidence c.evidence).0 (ground arith);
  }

  Mirrors-is_initial_enrolling : Mirrors c n → is_initial_enrolling c n ≡ true
  unfolding is_initial_enrolling state_beq dict_beq
  Mirrors-is_initial_enrolling m =
      let kept = (included_iff c.evidence n.evidence).1 m.kept in
      let no_more = (included_iff n.evidence c.evidence).1 m.no_more in
      ground (
        arith,
        m.phase,
        m.revision,
        m.schema_version,
        m.same_revision,
        m.helper_protocol,
        m.enrollment_complete,
        m.same_phase,
        kept,
        no_more,
        (eq_law c.installation_id n.installation_id).1 (sym m.installation_id),
        (eq_law c.committed n.committed).1 (sym m.committed),
        (eq_law c.previous n.previous).1 (sym m.previous),
        (eq_law c.highwater n.highwater).1 (sym m.highwater),
        (eq_law c.observed n.observed).1 (sym m.observed),
        (eq_law c.failed n.failed).1 (sym m.failed),
        (eq_law c.transaction n.transaction).1 (sym m.transaction),
        (eq_law c.cleanup n.cleanup).1 (sym m.cleanup),
        (eq_law c.rollback n.rollback).1 (sym m.rollback),
        (eq_law c.last_error n.last_error).1 (sym m.last_error),
      )

  pub Mirrors-iff : (is_initial_enrolling c n ≡ true) ↔ Mirrors c n
  Mirrors-iff = (is_initial_enrolling-Mirrors, Mirrors-is_initial_enrolling)
