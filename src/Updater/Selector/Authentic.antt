-- ===== src/Updater/Selector/Authentic.antt =====
-- Pruning the evidence of a state keeps it authentic.
use neko_family_proxy.Prelude.{
  String, ◌≡◌, refl, Bool, true, ◌&&◌, List, [], ◌∷◌, ◌++◌, arith, all, string_eq,
}
use neko_family_proxy.Updater.Models.{Dict, State}
use neko_family_proxy.Updater.Models.Evidence.{lookup, contains}
use neko_family_proxy.Updater.Models.Prune.{referenced, kept_evidence, lookup-kept_evidence}
use neko_family_proxy.Updater.Successor.{Successor, settled}
use neko_family_proxy.Updater.Selector.References.{
  shas-referenced_bindings, generations-referenced, bindings_agree, generations_agree,
}
use neko_family_proxy.Updater.Platform.{Platform}
use neko_family_proxy.Updater.Selector.{
  binding_authentic, generation_authentic, authenticate_evidence, referenced_generations,
  transaction_generations, rollback_generation, referenced_bindings, generation_binding,
  generation_list, transaction_bindings, rollback_binding, binding_list,
}

-- Pruning changes nothing of what the selector authenticates.
pub authenticate-settled :
    (platform : Platform) (s : State)
    → authenticate_evidence platform (settled s) ≡ authenticate_evidence platform s
unfolding authenticate_evidence referenced_bindings referenced_generations
authenticate-settled platform s =
    let agree : (k : String)
        → contains (referenced s) k ≡ true
        → lookup k (kept_evidence s) ≡ lookup k s.evidence =
      λ k h. ground (arith, lookup-kept_evidence k s) in
    ground (
      arith,
      bindings_agree platform (kept_evidence s) s.evidence (referenced_bindings s)
          (λ k h. agree k (rw (← shas-referenced_bindings s) h)),
      generations_agree platform (kept_evidence s) s.evidence (referenced_generations s)
          (λ k h. agree k (generations-referenced s k h)),
    )

all-append {ℓ} :
    {A : Type ℓ} (p : A → Bool) (xs ys : List A) → all p (xs ++ ys) ≡ (all p xs && all p ys)
all-append p [] ys = refl
all-append p (x ∷ xs) ys = ground (arith, all-append p xs ys)

-- What is authentic, part by part.
pub record Parts (platform : Platform) (evidence : Dict) (s : State) : Type 0 where
  pub committed : all (binding_authentic platform evidence) (generation_binding s.committed) ≡ true
  pub previous : all (binding_authentic platform evidence) (generation_binding s.previous) ≡ true
  pub highwater : all (binding_authentic platform evidence) (binding_list s.highwater) ≡ true
  pub observed : all (binding_authentic platform evidence) (binding_list s.observed) ≡ true
  pub failed : all (binding_authentic platform evidence) (binding_list s.failed) ≡ true
  pub transaction :
      all (binding_authentic platform evidence) (transaction_bindings s.transaction) ≡ true
  pub rollback : all (binding_authentic platform evidence) (rollback_binding s.rollback) ≡ true
  pub committed_release :
      all (generation_authentic platform evidence) (generation_list s.committed) ≡ true
  pub previous_release :
      all (generation_authentic platform evidence) (generation_list s.previous) ≡ true
  pub transaction_release :
      all (generation_authentic platform evidence) (transaction_generations s.transaction) ≡ true
  pub rollback_release :
      all (generation_authentic platform evidence) (rollback_generation s.rollback) ≡ true

module _ (platform : Platform) (s : State) where
  pub authenticate-Parts : authenticate_evidence platform s ≡ true → Parts platform s.evidence s
  unfolding authenticate_evidence referenced_bindings referenced_generations
  authenticate-Parts h =
      let k = simp all-append at h in
      record {
        committed = ground (arith, k);
        previous = ground (arith, k);
        highwater = ground (arith, k);
        observed = ground (arith, k);
        failed = ground (arith, k);
        transaction = ground (arith, k);
        rollback = ground (arith, k);
        committed_release = ground (arith, k);
        previous_release = ground (arith, k);
        transaction_release = ground (arith, k);
        rollback_release = ground (arith, k);
      }

  pub Parts-authenticate : Parts platform s.evidence s → authenticate_evidence platform s ≡ true
  unfolding authenticate_evidence referenced_bindings referenced_generations
  Parts-authenticate p = simp all-append (
      ground (
        arith, p.committed, p.previous, p.highwater, p.observed, p.failed, p.transaction,
        p.rollback, p.committed_release, p.previous_release, p.transaction_release,
        p.rollback_release,
      ))

-- A successor whose parts are authentic under the evidence before is authentic itself.
pub Successor-authentic :
    (platform : Platform) (s n : State)
    → Successor s n
    → (Parts platform s.evidence s → Parts platform s.evidence n)
    → authenticate_evidence platform s ≡ true
    → authenticate_evidence platform n ≡ true
unfolding authenticate_evidence referenced_bindings referenced_generations
Successor-authentic platform s n a f h =
    let q = f (authenticate-Parts platform s h) in
    let before = record n { evidence = s.evidence } in
    let whole : Parts platform s.evidence before = record {
      committed = q.committed;
      previous = q.previous;
      highwater = q.highwater;
      observed = q.observed;
      failed = q.failed;
      transaction = q.transaction;
      rollback = q.rollback;
      committed_release = q.committed_release;
      previous_release = q.previous_release;
      transaction_release = q.transaction_release;
      rollback_release = q.rollback_release;
    } in
    let agree : (k : String)
        → contains (referenced n) k ≡ true
        → lookup k n.evidence ≡ lookup k s.evidence =
      λ k e. ground (arith, a.evidence k) in
    ground (
      arith,
      Parts-authenticate platform before whole,
      bindings_agree platform n.evidence s.evidence (referenced_bindings n)
          (λ k h. agree k (rw (← shas-referenced_bindings n) h)),
      generations_agree platform n.evidence s.evidence (referenced_generations n)
          (λ k e. agree k (generations-referenced n k e)),
    )
