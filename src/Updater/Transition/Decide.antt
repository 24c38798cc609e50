-- ===== src/Updater/Transition/Decide.antt =====
-- `validate_transition` accepts exactly the legal transitions.
use neko_family_proxy.Prelude.{
  ◌≡◌, ◌↔◌, ◌⊎◌, inl, inr, Bool-cases, arith, ok, eq_law, string_eq, nat_eq, ◌+◌,
}
use neko_family_proxy.Updater.Models.{State}
use neko_family_proxy.Updater.Transition.{validate_transition, check_revision, is_initial_enrolling}
use neko_family_proxy.Updater.Transition.Mirrors.{Mirrors, Mirrors-iff}
use neko_family_proxy.Updater.Transition.Legal.{
  Legal, highwater_iff, observed_iff, same_sequence_iff,
}
use neko_family_proxy.Updater.Transition.Rows.{check_phases-Row, Row-check_phases}

revision_step :
    (c n : State) → check_revision c n ≡ ok tt → Mirrors c n ⊎ (n.revision ≡ c.revision + 1)
unfolding check_revision
revision_step c n h = elim (Bool-cases (is_initial_enrolling c n)) [
  | inl e ↦ inl ((Mirrors-iff c n).0 e)
  | inr e ↦ inr (ground arith)
]

step-revision :
    (c n : State) → Mirrors c n ⊎ (n.revision ≡ c.revision + 1) → check_revision c n ≡ ok tt
unfolding check_revision
step-revision c n (inl m) = ground (arith, (Mirrors-iff c n).1 m)
step-revision c n (inr e) = ground (arith, e)

module _ (c n : State) where
  validate_transition-Legal : validate_transition c n ≡ ok tt → Legal c n
  unfolding validate_transition
  validate_transition-Legal h = record {
    revision = revision_step c n (ground arith);
    installation = ground (arith, eq_law n.installation_id c.installation_id);
    protocol = ground arith;
    highwater = (highwater_iff c.highwater n.highwater).0 (ground arith);
    observed = (observed_iff c.observed n.observed).0 (ground arith);
    same_release = (same_sequence_iff c.observed n.observed).0 (ground arith);
    row = check_phases-Row c n (ground arith);
  }

  pub Legal-validate_transition : Legal c n → validate_transition c n ≡ ok tt
  unfolding validate_transition
  Legal-validate_transition l =
      let a = (highwater_iff c.highwater n.highwater).1 l.highwater in
      let b = (observed_iff c.observed n.observed).1 l.observed in
      let d = (same_sequence_iff c.observed n.observed).1 l.same_release in
      let e = Row-check_phases c n l.row in
      let r = step-revision c n l.revision in
      ground (arith, a, b, d, e, r, l.protocol, eq_law n.installation_id c.installation_id)

  -- The validator accepts a pair of states exactly when the table of legal transitions has it: the
  -- revision goes up by one (or the second state is the first, an enrolment at revision 1), identity
  -- and protocol stay, neither floor is cleared or lowered, a sequence keeps its release, and the
  -- phases and records fit a row of the table.
  pub validate_transition-iff-Legal : (validate_transition c n ≡ ok tt) ↔ Legal c n
  validate_transition-iff-Legal = (validate_transition-Legal, Legal-validate_transition)
