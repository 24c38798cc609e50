-- ===== src/Release/Ledger/Histories/Extend.antt =====
-- A history that is extended by an event that the checks admit.
use mathlib.Core.Path.{subst}
use neko_family_proxy.Prelude.{
  ◌≡◌, refl, ◌∙◌, sym, ap, Option, none, some, List, [], ◌∷◌, ◌++◌, arith, ok, Option-cases,
  Bool-cases, inl, inr, eq_law, ◌==◌, string_eq,
}
use neko_family_proxy.Updater.Json.Equal.{json_eq}
use neko_family_proxy.Release.Ledger.{
  LifecycleStatus, signed, published, failed, retired, status_eq, status_beq_iff, LedgerEvent,
}
use neko_family_proxy.Release.Ledger.Lifecycle.{
  allowed, SignedFields, signed_fields, check_allocation, check_history, check_signed_fields,
  check_unchanged, signed_of, last_of,
}
use neko_family_proxy.Release.Ledger.Session.Tracking.{
  last_status, Follows, check_history-Follows, signed_of-snoc, signed_of-snoc_some,
}
use neko_family_proxy.Release.Ledger.Histories.{
  IsTrace, unused, held, given_up, sealed, withdrawn, live, ended, statuses, Carries, IsComplete,
  Each, no_more, this, from_signed, AllocatedOnce, IsLife,
}

each-snoc :
    {P : LedgerEvent → Type 0}
    → (es : List LedgerEvent) (e : LedgerEvent) → Each P es
    → P e
    → Each P (es ++ (e ∷ []))
each-snoc [] e h p = this p no_more
each-snoc (x ∷ es) e (this q h) p = this q (each-snoc es e h p)

abbrev pub final : LifecycleStatus → List LifecycleStatus → LifecycleStatus
final s [] = s
final s (t ∷ rest) = final t rest

abbrev pub last_step : List LifecycleStatus → Option LifecycleStatus
last_step [] = none
last_step (s ∷ rest) = some (final s rest)

final-statuses :
    (first : LedgerEvent) (rest : List LedgerEvent)
    → final first.status (statuses rest) ≡ (last_of first rest).status
unfolding last_of
final-statuses first [] = refl
final-statuses first (e ∷ rest) = final-statuses e rest

pub last_step-statuses : (es : List LedgerEvent) → last_step (statuses es) ≡ last_status es
last_step-statuses [] = refl
last_step-statuses (e ∷ rest) = ap some (final-statuses e rest)

pub statuses-snoc :
    (es : List LedgerEvent) (e : LedgerEvent)
    → statuses (es ++ (e ∷ [])) ≡ statuses es ++ (e.status ∷ [])
statuses-snoc [] e = refl
statuses-snoc (x ∷ es) e = ap (λ r. x.status ∷ r) (statuses-snoc es e)

IsTrace-snoc :
    (ss : List LifecycleStatus) (s : LifecycleStatus)
    → IsTrace ss
    → Follows (last_step ss) s
    → IsTrace (ss ++ (s ∷ []))
unfolding allowed
IsTrace-snoc _ s unused h = rw h held
IsTrace-snoc _ signed held h = sealed
IsTrace-snoc _ failed held h = given_up
IsTrace-snoc _ published sealed h = live
IsTrace-snoc _ failed sealed h = withdrawn
IsTrace-snoc _ retired live h = ended
IsTrace-snoc _ _ held h = absurd (ground arith)
IsTrace-snoc _ _ given_up h = absurd (ground arith)
IsTrace-snoc _ _ sealed h = absurd (ground arith)
IsTrace-snoc _ _ withdrawn h = absurd (ground arith)
IsTrace-snoc _ _ live h = absurd (ground arith)
IsTrace-snoc _ _ ended h = absurd (ground arith)

allocation-snoc :
    (es : List LedgerEvent) (e : LedgerEvent)
    → AllocatedOnce es
    → check_history es e ≡ ok tt
    → AllocatedOnce (es ++ (e ∷ []))
unfolding check_history check_allocation
allocation-snoc [] e a h = no_more
allocation-snoc (first ∷ rest) e a h = each-snoc rest e a (
    ground (
      arith,
      eq_law e.release_id first.release_id,
      eq_law e.version first.version,
      eq_law e.channel first.channel,
      eq_law e.source_commit first.source_commit,
      eq_law e.component_set_sha256 first.component_set_sha256,
    ))

from_signed-snoc :
    (es : List LedgerEvent) (e : LedgerEvent) (f : SignedFields)
    → signed_of es ≡ some f
    → from_signed (es ++ (e ∷ [])) ≡ from_signed es ++ (e ∷ [])
unfolding signed_of from_signed
from_signed-snoc [] e f h = absurd (ground arith)
from_signed-snoc (x ∷ es) e f h = ground (arith, from_signed-snoc es e f)

from_signed-first :
    (es : List LedgerEvent) (e : LedgerEvent)
    → signed_of es ≡ none
    → e.status ≡ signed
    → from_signed (es ++ (e ∷ [])) ≡ e ∷ []
unfolding signed_of from_signed
from_signed-first [] e h s = rw s refl
from_signed-first (x ∷ es) e h s = ground (arith, from_signed-first es e)

signed_is_whole :
    (e : LedgerEvent)
    → check_signed_fields e ≡ ok tt
    → e.status ≡ signed
    → IsComplete (signed_fields e)
unfolding check_signed_fields
signed_is_whole e h s = ground (arith, status_beq_iff e.status signed)

carries : (f : SignedFields) (e : LedgerEvent) → check_unchanged (some f) e ≡ ok tt → Carries f e
unfolding check_unchanged
carries f e h = ground (
  arith,
  eq_law e.payload_sha256 f.payload_sha256,
  eq_law e.envelope_sha256 f.envelope_sha256,
  eq_law e.key_id f.key_id,
)

some_inj : (f g : SignedFields) → some f ≡ some g → f ≡ g
some_inj f g h = ground arith

module _ (es : List LedgerEvent) (e : LedgerEvent) (life : IsLife es)
    (complete_fields : check_signed_fields e ≡ ok tt)
    (unchanged : check_unchanged (signed_of (es ++ (e ∷ []))) e ≡ ok tt) where
  later :
      (f g : SignedFields)
      → signed_of es ≡ some g
      → signed_of (es ++ (e ∷ [])) ≡ some f
      → IsComplete f × Each (Carries f) (from_signed (es ++ (e ∷ [])))
  later f g found h =
      let same : g ≡ f = some_inj g f (sym (signed_of-snoc_some es e g found) ∙ h) in
      let before = found ∙ ap some same in
      let (whole, kept) = life.after_signing f before in
      (
        whole,
        rw (from_signed-snoc es e f before)
            (each-snoc (from_signed es) e kept (carries f e (rw h at unchanged))),
      )

  first_time :
      (f : SignedFields)
      → signed_of es ≡ none
      → signed_of (es ++ (e ∷ [])) ≡ some f
      → IsComplete f × Each (Carries f) (from_signed (es ++ (e ∷ [])))
  first_time f none_yet h = elim (Bool-cases (e.status == signed)) [
    | inr other ↦ absurd (ground (arith, signed_of-snoc es e none_yet))
    | inl is_signed ↦
        let status = (status_beq_iff e.status signed).0 is_signed in
        let own : signed_fields e ≡ f =
          some_inj _ f (ground (arith, signed_of-snoc es e none_yet)) in
        (
          subst IsComplete own (signed_is_whole e complete_fields status),
          rw (from_signed-first es e none_yet status)
              (this (carries f e (rw h at unchanged)) no_more),
        )
  ]

  pub IsLife-snoc : check_history es e ≡ ok tt → IsLife (es ++ (e ∷ []))
  IsLife-snoc h = record {
    trace = rw (statuses-snoc es e) (
        IsTrace-snoc (statuses es) e.status life.trace
          (rw (last_step-statuses es) (check_history-Follows es e h)));
    allocation = allocation-snoc es e life.allocation h;
    after_signing = λ f s. elim (Option-cases (signed_of es)) [
      | inl none_yet ↦ first_time f none_yet s
      | inr (g, found) ↦ later f g found s
    ];
  }
