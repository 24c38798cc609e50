-- ===== src/Launcher/Policy/Verdicts.antt =====
-- Which releases are refused, current or offered.
use neko_family_proxy.Prelude.{true, some, ◌≡◌, ◌≢◌, ◌↔◌, ◌⊎◌, ◌<◌, arith, ok, eq_law, option_eq}
use neko_family_proxy.Launcher.Policy.{
  latest, available, mandatory, verify_failed, LocalReleaseIdentity, ReleaseSet,
  UpdateInvocationReason, UpdateCheckResult, AuthenticatedReleaseBinding, authenticated_eq,
  binding_of, verdict, evaluate_release, check_local, exceeds,
}

evaluate_release-verdict :
    (l : LocalReleaseIdentity) (remote : ReleaseSet) (reason : UpdateInvocationReason)
    (r : UpdateCheckResult)
    → evaluate_release l remote reason ≡ ok r
    → (r.state ≡ (verdict l remote).state) × (r.retry_staging ≡ (verdict l remote).retry_staging)
unfolding evaluate_release
evaluate_release-verdict l remote reason r h = (ground (arith, h), ground (arith, h))

module _ (l : LocalReleaseIdentity) (remote : ReleaseSet) where
  same_sequence :
      binding_of remote ≡ l.high_water → remote.release_sequence ≡ l.high_water.release_sequence
  unfolding binding_of
  same_sequence h = ground (arith, h)

  verdict-refused : ((verdict l remote).state ≡ verify_failed) ↔ (
      (remote.release_sequence < l.high_water.release_sequence)
      ⊎ ((remote.release_sequence ≡ l.high_water.release_sequence)
          × (binding_of remote ≢ l.high_water)))
  unfolding verdict
  verdict-refused = ground (arith, eq_law (binding_of remote) l.high_water)

  verdict-latest : ((verdict l remote).state ≡ latest) ↔ (binding_of remote ≡ l.high_water)
  unfolding verdict
  verdict-latest = (
    (λ h. ground (arith, eq_law (binding_of remote) l.high_water)),
    (λ h. ground (arith, same_sequence h, eq_law (binding_of remote) l.high_water)),
  )

  verdict-offered :
      (((verdict l remote).state ≡ available) ⊎ ((verdict l remote).state ≡ mandatory))
      ↔ (l.high_water.release_sequence < remote.release_sequence)
  unfolding verdict
  verdict-offered = ground arith

  verdict-retry : ((verdict l remote).retry_staging ≡ true) ↔ (
      (binding_of remote ≡ l.high_water)
      × (binding_of remote ≢ l.committed)
      × (l.failed ≢ some (binding_of remote)))
  unfolding verdict
  verdict-retry = (
    (λ h. ground (
      arith,
      eq_law (binding_of remote) l.high_water,
      eq_law (binding_of remote) l.committed,
      eq_law l.failed (some (binding_of remote)),
    )),
    (λ h. ground (
      arith,
      same_sequence h.0,
      eq_law (binding_of remote) l.high_water,
      eq_law (binding_of remote) l.committed,
      eq_law l.failed (some (binding_of remote)),
    )),
  )

-- What an answer of the policy says of the release, against the highwater binding.
pub record Answers (l : LocalReleaseIdentity) (remote : ReleaseSet) (r : UpdateCheckResult)
    : Type 0 where
  -- refused: below the highwater, or another release of its sequence
  pub refused : (r.state ≡ verify_failed) ↔ (
      (remote.release_sequence < l.high_water.release_sequence)
      ⊎ ((remote.release_sequence ≡ l.high_water.release_sequence)
          × (binding_of remote ≢ l.high_water)))
  -- current: the highwater release itself
  pub current : (r.state ≡ latest) ↔ (binding_of remote ≡ l.high_water)
  -- offered: above the highwater
  pub offered :
      ((r.state ≡ available) ⊎ (r.state ≡ mandatory))
      ↔ (l.high_water.release_sequence < remote.release_sequence)
  -- staged again: admitted before, neither installed nor failed
  pub retried : (r.retry_staging ≡ true) ↔ (
      (binding_of remote ≡ l.high_water)
      × (binding_of remote ≢ l.committed)
      × (l.failed ≢ some (binding_of remote)))

-- When the policy answers, it refuses exactly the releases below the highwater or with another
-- binding of its sequence, calls exactly the highwater release current, offers exactly the releases
-- above, and asks for a second staging exactly of a highwater release that is neither committed
-- nor failed.
pub evaluate_release-Answers :
    (l : LocalReleaseIdentity) (remote : ReleaseSet) (reason : UpdateInvocationReason)
    (r : UpdateCheckResult)
    → evaluate_release l remote reason ≡ ok r
    → Answers l remote r
evaluate_release-Answers l remote reason r h =
    let (p, q) = evaluate_release-verdict l remote reason r h in
    record {
      refused = rw p (verdict-refused l remote);
      current = rw p (verdict-latest l remote);
      offered = rw p (verdict-offered l remote);
      retried = rw q (verdict-retry l remote);
    }

-- On a well-formed installation an offered release has a higher sequence than the installed one,
-- and than the observed and the failed one.
pub evaluate_release-offered :
    (l : LocalReleaseIdentity) (remote : ReleaseSet) (reason : UpdateInvocationReason)
    (r : UpdateCheckResult)
    → check_local l ≡ ok tt
    → evaluate_release l remote reason ≡ ok r
    → (r.state ≡ available) ⊎ (r.state ≡ mandatory)
    → (l.committed.release_sequence < remote.release_sequence)
      × (l.observed.release_sequence < remote.release_sequence)
      × ((b : AuthenticatedReleaseBinding)
          → l.failed ≡ some b
          → b.release_sequence < remote.release_sequence)
unfolding check_local exceeds
evaluate_release-offered l remote reason r v h o =
    let above = (evaluate_release-Answers l remote reason r h).offered.0 o in
    (
      ground (arith, above),
      ground (arith, above, eq_law l.observed l.high_water),
      (λ b e. ground (arith, above, e)),
    )
