-- ===== src/Updater/Json/Equal.antt =====
-- Python's `==` on JSON values. A truth value and a number are different here; Python takes `True`
-- and `1` as equal, and the texts of both differ.
use neko_family_proxy.Prelude.{
  refl, String, Bool, true, false, ◌&&◌, ◌≡◌, ◌↔◌, arith, Eq, ◌==◌, nat_eq, string_eq, bool_eq,
  eq_law,
}
use neko_family_proxy.Updater.Json.{
  Json, null, boolean, number, negative, floating, text, array, object, Items, no_items, item,
  Members, no_members, member,
}

unfoldable mutual
  pub json_beq : Json → Json → Bool
  json_beq null null = true
  json_beq (boolean a) (boolean b) = a == b
  json_beq (number a) (number b) = a == b
  json_beq (negative a) (negative b) = a == b
  json_beq (floating a) (floating b) = a == b
  json_beq (text a) (text b) = a == b
  json_beq (array a) (array b) = items_beq a b
  json_beq (object a) (object b) = members_beq a b
  json_beq _ _ = false

  pub items_beq : Items → Items → Bool
  items_beq no_items no_items = true
  items_beq (item a as') (item b bs) = json_beq a b && items_beq as' bs
  items_beq _ _ = false

  pub members_beq : Members → Members → Bool
  members_beq no_members no_members = true
  members_beq (member j a as') (member k b bs) = j == k && (json_beq a b && members_beq as' bs)
  members_beq _ _ = false

-- Two tests in a row, each with what it decides.
both_iff :
    {P Q : Type 0} (p q : Bool) → (p ≡ true) ↔ P → (q ≡ true) ↔ Q → ((p && q) ≡ true) ↔ (P × Q)
both_iff true q f g = ((λ h. (f.0 refl, g.0 h)), (λ k. g.1 k.1))
both_iff false q f g = ((λ h. cc), (λ k. f.1 k.0))

item_iff : (a b : Json) (as' bs : Items) → ((a ≡ b) × (as' ≡ bs)) ↔ (item a as' ≡ item b bs)
item_iff a b as' bs = ((λ h. let (p, q) = h in cc), (λ h. (cc, cc)))

member_iff :
    (j k : String) (a b : Json) (as' bs : Members)
    → ((j ≡ k) × ((a ≡ b) × (as' ≡ bs))) ↔ (member j a as' ≡ member k b bs)
member_iff j k a b as' bs = ((λ h. let (p, (q, r)) = h in cc), (λ h. (cc, (cc, cc))))

trans_iff : {P Q R : Type 0} → P ↔ Q → Q ↔ R → P ↔ R
trans_iff f g = ((λ p. g.0 (f.0 p)), (λ r. f.1 (g.1 r)))

mutual
  unfolding json_beq items_beq members_beq

  pub json_beq_iff : (a b : Json) → (json_beq a b ≡ true) ↔ (a ≡ b)
  json_beq_iff null b = ground arith
  json_beq_iff (boolean a) (boolean b) = ground (arith, eq_law a b)
  json_beq_iff (boolean a) b = ground arith
  json_beq_iff (number a) b = ground arith
  json_beq_iff (negative a) b = ground arith
  json_beq_iff (floating a) (floating b) = ground (arith, eq_law a b)
  json_beq_iff (floating a) b = ground arith
  json_beq_iff (text a) (text b) = ground (arith, eq_law a b)
  json_beq_iff (text a) b = ground arith
  json_beq_iff (array a) (array b) = ground (arith, items_beq_iff a b)
  json_beq_iff (array a) b = ground arith
  json_beq_iff (object a) (object b) = ground (arith, members_beq_iff a b)
  json_beq_iff (object a) b = ground arith

  pub items_beq_iff : (a b : Items) → (items_beq a b ≡ true) ↔ (a ≡ b)
  items_beq_iff no_items b = ground arith
  items_beq_iff (item a as') no_items = ground arith
  items_beq_iff (item a as') (item b bs) =
      trans_iff (both_iff _ _ (json_beq_iff a b) (items_beq_iff as' bs)) (item_iff a b as' bs)

  pub members_beq_iff : (a b : Members) → (members_beq a b ≡ true) ↔ (a ≡ b)
  members_beq_iff no_members b = ground arith
  members_beq_iff (member j a as') no_members = ground arith
  members_beq_iff (member j a as') (member k b bs) =
      trans_iff
        (both_iff _ _ (eq_law j k) (both_iff _ _ (json_beq_iff a b) (members_beq_iff as' bs)))
        (member_iff j k a b as' bs)

instance abbrev pub json_eq : Eq Json
json_eq = record { beq = json_beq; beq_iff = json_beq_iff }
