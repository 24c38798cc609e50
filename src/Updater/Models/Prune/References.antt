-- ===== src/Updater/Models/Prune/References.antt =====
-- The references of a state, described apart from the code, and what pruning does to the evidence.
use neko_family_proxy.Prelude.{
  String, ◌≡◌, ◌⊎◌, refl, inl, inr, ◌||◌, true, Option, none, some, List, [], ◌∷◌, ◌++◌, arith, ok,
  string_eq, eq_law, Bool-cases, ==-self,
}
use neko_family_proxy.Updater.Models.{Binding, Generation, Transaction, Rollback, State}
use neko_family_proxy.Updater.Models.Checks.{check_state}
use neko_family_proxy.Updater.Models.Evidence.{lookup, contains}
use neko_family_proxy.Updater.Models.Prune.{
  add, add_generation, add_transaction, add_rollback, referenced, prune_unreferenced_evidence,
  kept_evidence, prune-ok, lookup-kept_evidence,
}

-- A generation that the state keeps or is about to install or to restore.
pub data IsKept (s : State) (g : Generation) : Type 0 where
  committed : s.committed ≡ some g → IsKept s g
  previous : s.previous ≡ some g → IsKept s g
  candidate : (t : Transaction) → s.transaction ≡ some t → t.candidate ≡ g → IsKept s g
  old : (t : Transaction) → s.transaction ≡ some t → t.old ≡ some g → IsKept s g
  target : (r : Rollback) → s.rollback ≡ some r → r.target ≡ g → IsKept s g

-- The payload of such a generation, of a floor or of the failed release.
pub data Refers (s : State) (k : String) : Type 0 where
  release : (g : Generation) → IsKept s g → g.binding.payload_sha256 ≡ k → Refers s k
  highwater : (b : Binding) → s.highwater ≡ some b → b.payload_sha256 ≡ k → Refers s k
  observed : (b : Binding) → s.observed ≡ some b → b.payload_sha256 ≡ k → Refers s k
  failed : (b : Binding) → s.failed ≡ some b → b.payload_sha256 ≡ k → Refers s k

pub contains-append :
    (xs ys : List String) (k : String) → contains (xs ++ ys) k ≡ (contains xs k || contains ys k)
unfolding contains
contains-append [] ys k = ground arith
contains-append (x ∷ xs) ys k = ground (arith, contains-append xs ys k)

either :
    (xs ys : List String) (k : String)
    → contains (xs ++ ys) k ≡ true
    → (contains xs k ≡ true) ⊎ (contains ys k ≡ true)
either xs ys k h = elim (Bool-cases (contains xs k)) [
  | inl y ↦ inl y
  | inr n ↦ inr (ground (arith, contains-append xs ys k))
]

added :
    (o : Option Binding) (k : String)
    → contains (add o) k ≡ true
    → (b : Binding) × (o ≡ some b) × (b.payload_sha256 ≡ k)
unfolding contains
added none k h = absurd (ground arith)
added (some b) k h = (b, refl, ground (arith, eq_law b.payload_sha256 k))

added_generation :
    (o : Option Generation) (k : String)
    → contains (add_generation o) k ≡ true
    → (g : Generation) × (o ≡ some g) × (g.binding.payload_sha256 ≡ k)
unfolding contains
added_generation none k h = absurd (ground arith)
added_generation (some g) k h = (g, refl, ground (arith, eq_law g.binding.payload_sha256 k))

module _ (s : State) (k : String) where
  added_transaction :
      (o : Option Transaction)
      → s.transaction ≡ o
      → contains (add_transaction o) k ≡ true
      → Refers s k
  unfolding contains
  added_transaction none e h = absurd (ground arith)
  added_transaction (some t) e h = elim (Bool-cases (contains (add_generation t.old) k)) [
    | inl y ↦ let (g, o, p) = added_generation t.old k y in release g (old t e o) p
    | inr n ↦
        release t.candidate (candidate t e refl)
          (ground (arith, eq_law t.candidate.binding.payload_sha256 k))
  ]

  added_rollback :
      (o : Option Rollback) → s.rollback ≡ o → contains (add_rollback o) k ≡ true → Refers s k
  unfolding contains
  added_rollback none e h = absurd (ground arith)
  added_rollback (some r) e h =
      release r.target (target r e refl) (ground (arith, eq_law r.target.binding.payload_sha256 k))

  referenced-Refers : contains (referenced s) k ≡ true → Refers s k
  unfolding referenced
  referenced-Refers h = elim (either (add_generation s.committed) _ k h) [
    | inl y ↦ let (g, o, p) = added_generation _ k y in release g (committed o) p
    | inr h ↦ elim (either (add_generation s.previous) _ k h) [
      | inl y ↦ let (g, o, p) = added_generation _ k y in release g (previous o) p
      | inr h ↦ elim (either (add s.highwater) _ k h) [
        | inl y ↦ let (b, o, p) = added _ k y in highwater b o p
        | inr h ↦ elim (either (add s.observed) _ k h) [
          | inl y ↦ let (b, o, p) = added _ k y in observed b o p
          | inr h ↦ elim (either (add s.failed) _ k h) [
            | inl y ↦ let (b, o, p) = added _ k y in failed b o p
            | inr h ↦ elim (either (add_transaction s.transaction) _ k h) [
              | inl y ↦ added_transaction s.transaction refl y
              | inr y ↦ added_rollback s.rollback refl y
            ]
          ]
        ]
      ]
    ]
  ]

  kept-referenced :
      (g : Generation)
      → IsKept s g
      → g.binding.payload_sha256 ≡ k
      → contains (referenced s) k ≡ true
  unfolding referenced contains
  kept-referenced g (committed e) p = simp contains-append (ground (arith, e, p, ==-self k))
  kept-referenced g (previous e) p = simp contains-append (ground (arith, e, p, ==-self k))
  kept-referenced g (candidate t e f) p = simp contains-append (ground (arith, e, f, p, ==-self k))
  kept-referenced g (old t e f) p = simp contains-append (ground (arith, e, f, p, ==-self k))
  kept-referenced g (target r e f) p = simp contains-append (ground (arith, e, f, p, ==-self k))

  Refers-referenced : Refers s k → contains (referenced s) k ≡ true
  unfolding referenced contains
  Refers-referenced (release g a p) = kept-referenced g a p
  Refers-referenced (highwater b e p) = simp contains-append (ground (arith, e, p, ==-self k))
  Refers-referenced (observed b e p) = simp contains-append (ground (arith, e, p, ==-self k))
  Refers-referenced (failed b e p) = simp contains-append (ground (arith, e, p, ==-self k))

-- A state whose evidence has been cut down to what the state refers to.
pub record Pruned (s t : State) : Type 0 where
  pub same : record t { evidence = s.evidence } ≡ s
  pub evidence :
      (k : String)
      → (Refers s k × (lookup k t.evidence ≡ lookup k s.evidence))
        ⊎ ((Refers s k → ⊥) × (lookup k t.evidence ≡ none))

kept-Pruned : (s : State) → Pruned s (record s { evidence = kept_evidence s })
kept-Pruned s = record {
  same = refl;
  evidence = λ k. elim (Bool-cases (contains (referenced s) k)) [
    | inl y ↦ inl (referenced-Refers s k y, ground (arith, lookup-kept_evidence k s))
    | inr n ↦ inr (
      λ r. absurd (ground (arith, Refers-referenced s k r)),
      ground (arith, lookup-kept_evidence k s),
    )
  ];
}

-- Pruning a state that passes its own check raises nothing and changes the evidence alone: each
-- payload of the committed, previous, candidate, old or rollback target release, of a floor and of
-- the failed release keeps its envelope, and every other key is gone.
pub prune_unreferenced_evidence-Pruned :
    (s : State)
    → check_state s ≡ ok tt
    → (t : State) × (prune_unreferenced_evidence s ≡ ok t) × Pruned s t
prune_unreferenced_evidence-Pruned s h =
    (record s { evidence = kept_evidence s }, prune-ok s h, kept-Pruned s)
