-- ===== src/Updater/Selector/References.antt =====
-- The bindings and generations that the selector looks up, and the payloads that pruning keeps.
use neko_family_proxy.Prelude.{
  String, ◌≡◌, refl, true, ◌||◌, Option, none, some, List, [], ◌∷◌, ◌++◌, map, arith, ap, all,
  ==-self, string_eq,
}
use neko_family_proxy.Updater.Models.{Binding, Generation, Transaction, Rollback, Dict, State}
use neko_family_proxy.Updater.Models.Evidence.{lookup, contains}
use neko_family_proxy.Updater.Models.Prune.{
  referenced, add, add_generation, add_transaction, add_rollback,
}
use neko_family_proxy.Updater.Platform.{Platform}
use neko_family_proxy.Updater.Selector.{
  binding_authentic, generation_authentic, referenced_generations, transaction_generations,
  rollback_generation, referenced_bindings, generation_binding, generation_list,
  transaction_bindings, rollback_binding, binding_list,
}

abbrev pub sha_of : Binding → String
sha_of b = b.payload_sha256

abbrev pub shas : List Binding → List String
shas = map sha_of

abbrev pub generation_shas : List Generation → List String
generation_shas = map (λ (g : Generation). g.binding.payload_sha256)

shas-append : (xs ys : List Binding) → shas (xs ++ ys) ≡ shas xs ++ shas ys
shas-append [] ys = refl
shas-append (x ∷ xs) ys = ap (λ ks. sha_of x ∷ ks) (shas-append xs ys)

shas-binding_list : (b : Option Binding) → shas (binding_list b) ≡ add b
shas-binding_list none = refl
shas-binding_list (some b) = refl

shas-generation_binding : (g : Option Generation) → shas (generation_binding g) ≡ add_generation g
shas-generation_binding none = refl
shas-generation_binding (some g) = refl

shas-transaction_bindings :
    (t : Option Transaction) → shas (transaction_bindings t) ≡ add_transaction t
shas-transaction_bindings none = refl
shas-transaction_bindings (some t) =
    ap (λ ks. t.candidate.binding.payload_sha256 ∷ ks) (shas-generation_binding t.old)

shas-rollback_binding : (r : Option Rollback) → shas (rollback_binding r) ≡ add_rollback r
shas-rollback_binding none = refl
shas-rollback_binding (some r) = refl

-- The selector's list of bindings and the set that pruning keeps are of the same payloads.
pub shas-referenced_bindings : (s : State) → shas (referenced_bindings s) ≡ referenced s
unfolding referenced referenced_bindings
shas-referenced_bindings s =
    simp
      (
        shas-append, shas-binding_list, shas-generation_binding, shas-transaction_bindings,
        shas-rollback_binding,
      )
      refl

has-append :
    (xs ys : List String) (k : String) → contains (xs ++ ys) k ≡ (contains xs k || contains ys k)
unfolding contains
has-append [] ys k = ground arith
has-append (x ∷ xs) ys k = ground (arith, has-append xs ys k)

installs-append :
    (xs ys : List Generation) (k : String)
    → contains (generation_shas (xs ++ ys)) k
      ≡ (contains (generation_shas xs) k || contains (generation_shas ys) k)
unfolding contains
installs-append [] ys k = ground arith
installs-append (x ∷ xs) ys k = ground (arith, installs-append xs ys k)

generation_has :
    (g : Option Generation) (k : String)
    → contains (generation_shas (generation_list g)) k ≡ contains (add_generation g) k
generation_has none k = refl
generation_has (some g) k = refl

transaction_has :
    (t : Option Transaction) (k : String)
    → contains (generation_shas (transaction_generations t)) k ≡ contains (add_transaction t) k
unfolding contains
transaction_has none k = refl
transaction_has (some t) k = ground (arith, generation_has t.old k)

rollback_has :
    (r : Option Rollback) (k : String)
    → contains (generation_shas (rollback_generation r)) k ≡ contains (add_rollback r) k
rollback_has none k = refl
rollback_has (some r) k = refl

-- A generation that a state refers to has its binding among the bindings that it refers to.
pub generations-referenced :
    (s : State) (k : String)
    → contains (generation_shas (referenced_generations s)) k ≡ true
    → contains (referenced s) k ≡ true
unfolding referenced referenced_generations
generations-referenced s k h = simp has-append (
    ground (
      arith,
      generation_has s.committed k,
      generation_has s.previous k,
      transaction_has s.transaction k,
      rollback_has s.rollback k,
      simp installs-append at h,
    ))

module _ (platform : Platform) (d e : Dict) where
  pub bindings_agree :
      (xs : List Binding)
      → ((k : String) → contains (shas xs) k ≡ true → lookup k d ≡ lookup k e)
      → all (binding_authentic platform d) xs ≡ all (binding_authentic platform e) xs
  unfolding binding_authentic contains
  bindings_agree [] h = refl
  bindings_agree (b ∷ xs) h = ground (
    arith,
    h b.payload_sha256 (ground (arith, ==-self b.payload_sha256)),
    bindings_agree xs (λ k p. h k (ground arith)),
  )

  pub generations_agree :
      (xs : List Generation)
      → ((k : String) → contains (generation_shas xs) k ≡ true → lookup k d ≡ lookup k e)
      → all (generation_authentic platform d) xs ≡ all (generation_authentic platform e) xs
  unfolding generation_authentic contains
  generations_agree [] h = refl
  generations_agree (g ∷ xs) h = ground (
    arith,
    h g.binding.payload_sha256 (ground (arith, ==-self g.binding.payload_sha256)),
    generations_agree xs (λ k p. h k (ground arith)),
  )
