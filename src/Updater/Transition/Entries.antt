-- ===== src/Updater/Transition/Entries.antt =====
-- Dictionaries of evidence entry by entry, for the comparisons that `validate_transition` makes.
use neko_family_proxy.Prelude.{
  ◌≡◌, ◌≢◌, ◌⊎◌, ◌↔◌, refl, inl, inr, String, true, Option, none, some, [], ◌∷◌, arith, is_some,
  eq_law, ◌==◌, string_eq, option_eq, Bool-cases,
}
use neko_family_proxy.Updater.Models.{Dict}
use neko_family_proxy.Updater.Models.Evidence.{lookup, included, keys_included}
use neko_family_proxy.Updater.Models.Valid.{Every}

-- Every entry of the first is in the second.
abbrev pub Preserved : Dict → Dict → Type 0
Preserved d e = Every (λ (p : String × String). lookup p.0 e ≡ some p.1) d

-- Every key of the first is the key given or a key of the second.
abbrev pub AddsOnly : String → Dict → Dict → Type 0
AddsOnly k d e = Every (λ (p : String × String). (p.0 ≡ k) ⊎ (lookup p.0 e ≢ none)) d

pub included_iff : (d e : Dict) → (included d e ≡ true) ↔ Preserved d e
unfolding included
included_iff [] e = (λ h. tt, λ h. refl)
included_iff ((k, v) ∷ d) e =
    let (to, from) = included_iff d e in
    let (same, spelled) = eq_law (lookup k e) (some v) in
    (λ h. (same (ground arith), to (ground arith)), λ h. ground (arith, spelled h.0, from h.1))

present : (o : Option String) → is_some o ≡ true → o ≢ none
present none h = absurd (ground arith)
present (some v) h = λ e. ground arith

pub present_iff : (o : Option String) → (is_some o ≡ true) ↔ (o ≢ none)
present_iff none = (present none, λ h. absurd (h refl))
present_iff (some v) = (present (some v), λ h. refl)

within :
    (k j v : String) (e : Dict)
    → (is_some (lookup j ((k, v) ∷ e)) ≡ true) ↔ ((j ≡ k) ⊎ (lookup j e ≢ none))
unfolding lookup
within k j v e =
    let (to, from) = present_iff (lookup j e) in
    elim (Bool-cases (k == j)) [
      | inl same ↦ (λ h. inl (ground (arith, eq_law k j)), λ h. ground arith)
      | inr other ↦ (
        λ h. inr (to (ground arith)),
        λ h. elim h [
          | inl e' ↦ absurd (ground (arith, eq_law k j, e'))
          | inr f ↦ ground (arith, from f)
        ],
      )
    ]

pub AddsOnly-iff :
    (k v : String) (d e : Dict) → (keys_included d ((k, v) ∷ e) ≡ true) ↔ AddsOnly k d e
unfolding keys_included
AddsOnly-iff k v [] e = (λ h. tt, λ h. refl)
AddsOnly-iff k v ((j, w) ∷ d) e =
    let (to, from) = AddsOnly-iff k v d e in
    let (here, back) = within k j v e in
    (λ h. (here (ground arith), to (ground arith)), λ h. ground (arith, back h.0, from h.1))

pub keys-Preserved : (d e : Dict) → Preserved d e → keys_included d e ≡ true
unfolding keys_included
keys-Preserved [] e h = refl
keys-Preserved ((k, v) ∷ d) e h = ground (arith, h.0, keys-Preserved d e h.1)
