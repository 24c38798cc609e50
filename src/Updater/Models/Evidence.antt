-- ===== src/Updater/Models/Evidence.antt =====
-- The `dict[str, str]` of evidence: lookup, filtering by key, and equality of contents.
use neko_family_proxy.Prelude.{
  String, ◌≡◌, Bool, true, false, ◌&&◌, ◌||◌, Option, none, some, List, [], ◌∷◌, arith, all, ◌==◌,
  string_eq, option_eq, eq_law, is_some, if◌then◌else◌, Bool-cases, Option-cases, inl, inr,
}
use neko_family_proxy.Updater.Models.{Dict}

unfoldable pub lookup : String → Dict → Option String
lookup k [] = none
lookup k ((j, v) ∷ d) = if j == k then some v else lookup k d

unfoldable pub contains : List String → String → Bool
contains [] k = false
contains (j ∷ js) k = j == k || contains js k

-- `{key: value for key, value in d.items() if key in keep}`
unfoldable pub restrict : List String → Dict → Dict
restrict keep [] = []
restrict keep ((k, v) ∷ d) =
    let rest = restrict keep d in if contains keep k then (k, v) ∷ rest else rest

-- every entry of the first is in the second
unfoldable pub included : Dict → Dict → Bool
included d e = all (λ p. lookup p.0 e == some p.1) d

-- `d == e` for dictionaries: the order of entries does not count
unfoldable pub dict_beq : Dict → Dict → Bool
unfolding included
dict_beq d e = included d e && included e d

-- every key of the first is a key of the second
unfoldable pub keys_included : Dict → Dict → Bool
keys_included d e = all (λ p. is_some (lookup p.0 e)) d

-- `set(d) == set(e)`
unfoldable pub same_keys : Dict → Dict → Bool
unfolding keys_included
same_keys d e = keys_included d e && keys_included e d

-- Filtering keeps what it keeps, and drops the rest.
pub lookup-restrict :
    (k : String) (keep : List String) (d : Dict)
    → lookup k (restrict keep d) ≡ (if contains keep k then lookup k d else none)
unfolding lookup restrict
lookup-restrict k keep [] = ground arith
lookup-restrict k keep ((j, v) ∷ d) = elim (Bool-cases (j == k)) [
  | inl same ↦ ground (arith, lookup-restrict k keep d, eq_law j k)
  | inr other ↦ ground (arith, lookup-restrict k keep d, eq_law j k)
]

-- An entry of an included dictionary is an entry of the other.
pub lookup-included :
    (k v : String) (d e : Dict) → included d e ≡ true → lookup k d ≡ some v → lookup k e ≡ some v
unfolding included lookup
lookup-included k v [] e h l = ground arith
lookup-included k v ((j, w) ∷ d) e h l = elim (Bool-cases (j == k)) [
  | inl same ↦ ground (arith, eq_law j k, eq_law (lookup j e) (some w))
  | inr other ↦ lookup-included k v d e (ground arith) (ground arith)
]

-- A filter that drops nothing has dropped no key.
pub lookup-dropped :
    (k : String) (keep : List String) (d : Dict)
    → included d (restrict keep d) ≡ true
    → contains keep k ≡ false
    → lookup k d ≡ none
lookup-dropped k keep d h out = elim (Option-cases (lookup k d)) [
  | inl e ↦ e
  | inr (v, e) ↦
      absurd (ground (arith, lookup-included k v d (restrict keep d) h e, lookup-restrict k keep d))
]
