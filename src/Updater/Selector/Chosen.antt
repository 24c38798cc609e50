-- ===== src/Updater/Selector/Chosen.antt =====
-- Which slot is chosen, stated apart from the code.
use mathlib.Core.Path.{subst₂}
use neko_family_proxy.Prelude.{
  ℕ, ◌+◌, ◌≡◌, ◌≢◌, ◌↔◌, refl, ap, sym, ◌∙◌, true, false, arith, ok, ltb, is_ok, Bool-cases,
  Result-cases, inl, inr, ◌==◌, nat_eq,
}
use neko_family_proxy.Updater.Models.{State, enrolling}
use neko_family_proxy.Updater.Models.Equality.{phase_eq}
use neko_family_proxy.Updater.Models.Prune.{state_beq}
use neko_family_proxy.Updater.Platform.{Platform}
use neko_family_proxy.Updater.Transition.{validate_transition}
use neko_family_proxy.Updater.Selector.{
  SlotName, slot_a, slot_b, select, SlotClass, missing, torn, sound, frame_valid,
  authenticate_evidence, select_equal, select_adjacent, select_both, select_sole, select_classes,
}

-- The slot that holds the authoritative state. A lone valid frame is taken as it is; of two, the
-- one whose revision is one higher and whose transition is legal; or both hold the first enrolment.
pub data Chosen (platform : Platform) (a b : SlotClass) : SlotName → State → Type 0 where
  lone_a :
      {s : State} {m : ℕ}
      → a ≡ sound s m
      → frame_valid b ≡ false
      → authenticate_evidence platform s ≡ true
      → Chosen platform a b slot_a s
  lone_b :
      {s : State} {m : ℕ}
      → b ≡ sound s m
      → frame_valid a ≡ false
      → authenticate_evidence platform s ≡ true
      → Chosen platform a b slot_b s
  newer_a :
      {s t : State} {m n : ℕ}
      → a ≡ sound s m
      → b ≡ sound t n
      → m ≡ n + 1
      → authenticate_evidence platform s ≡ true
      → authenticate_evidence platform t ≡ true
      → validate_transition t s ≡ ok tt
      → Chosen platform a b slot_a s
  newer_b :
      {s t : State} {m n : ℕ}
      → a ≡ sound s m
      → b ≡ sound t n
      → n ≡ m + 1
      → authenticate_evidence platform s ≡ true
      → authenticate_evidence platform t ≡ true
      → validate_transition s t ≡ ok tt
      → Chosen platform a b slot_b t
  twin :
      {s t : State}
      → a ≡ sound s 1
      → b ≡ sound t 1
      → s.phase ≡ enrolling
      → t.phase ≡ enrolling
      → state_beq s t ≡ true
      → authenticate_evidence platform s ≡ true
      → authenticate_evidence platform t ≡ true
      → Chosen platform a b slot_a s

module _ (platform : Platform) where
  sole_auth :
      (s t : State) (x y : SlotName)
      → select_sole platform s x ≡ select t y
      → (authenticate_evidence platform s ≡ true) × (s ≡ t) × (x ≡ y)
  unfolding select_sole
  sole_auth s t x y h = ground arith

  accepted :
      (s t : State) → is_ok (validate_transition s t) ≡ true → validate_transition s t ≡ ok tt
  accepted s t h = elim (Result-cases (validate_transition s t)) [
    | inl (u, e) ↦ ground arith
    | inr (x, e) ↦ absurd (ground arith)
  ]

  -- A result that selects names its state and its slot.
  select-injective : (s t : State) (x y : SlotName) → select s x ≡ select t y → (x ≡ y) × (s ≡ t)
  select-injective s t x y h = ground arith

  module _ (s t : State) (m n : ℕ) (u : State) (x : SlotName) where
    move :
        (v : State) (y : SlotName)
        → Chosen platform (sound s m) (sound t n) y v
        → select v y ≡ select u x
        → Chosen platform (sound s m) (sound t n) x u
    move v y c h =
        let (p, q) = select-injective v u y x h in
        subst₂ (Chosen platform (sound s m) (sound t n)) p q c

    equal_Chosen :
        m ≡ n
        → authenticate_evidence platform s ≡ true
        → authenticate_evidence platform t ≡ true
        → select_equal platform s t m ≡ select u x
        → Chosen platform (sound s m) (sound t n) x u
    unfolding select_equal
    equal_Chosen e au at h =
        let one : m ≡ 1 = ground arith in
        move s slot_a
          (twin (ap (sound s) one) (ap (sound t) (sym e ∙ one)) (ground arith) (ground arith)
            (ground arith) au at)
          (ground arith)

    adjacent_Chosen :
        m ≢ n
        → authenticate_evidence platform s ≡ true
        → authenticate_evidence platform t ≡ true
        → select_adjacent platform s t m n ≡ select u x
        → Chosen platform (sound s m) (sound t n) x u
    unfolding select_adjacent
    adjacent_Chosen e au at h = elim (Bool-cases (ltb m n)) [
      | inl less ↦
          move t slot_b (newer_b refl refl (ground arith) au at (accepted s t (ground arith)))
            (ground arith)
      | inr more ↦
          move s slot_a (newer_a refl refl (ground arith) au at (accepted t s (ground arith)))
            (ground arith)
    ]

    both_Chosen :
        select_both platform s t m n ≡ select u x → Chosen platform (sound s m) (sound t n) x u
    unfolding select_both
    both_Chosen h = elim (Bool-cases (m == n)) [
      | inl same ↦ equal_Chosen (ground arith) (ground arith) (ground arith) (ground arith)
      | inr other ↦ adjacent_Chosen (λ e. ground arith) (ground arith) (ground arith) (ground arith)
    ]

  sole_a :
      (s u : State) (x : SlotName) (m : ℕ) (b : SlotClass)
      → frame_valid b ≡ false
      → select_sole platform s slot_a ≡ select u x
      → Chosen platform (sound s m) b x u
  sole_a s u x m b f h =
      let (a, q, p) = sole_auth s u slot_a x h in
      subst₂ (Chosen platform (sound s m) b) p q (lone_a refl f a)

  sole_b :
      (s u : State) (x : SlotName) (m : ℕ) (a : SlotClass)
      → frame_valid a ≡ false
      → select_sole platform s slot_b ≡ select u x
      → Chosen platform a (sound s m) x u
  sole_b s u x m a f h =
      let (w, q, p) = sole_auth s u slot_b x h in
      subst₂ (Chosen platform a (sound s m)) p q (lone_b refl f w)

  select_classes-Chosen :
      (a b : SlotClass) (u : State) (x : SlotName)
      → select_classes platform a b ≡ select u x
      → Chosen platform a b x u
  unfolding select_classes
  select_classes-Chosen (sound s m) (sound t n) u x h = both_Chosen s t m n u x h
  select_classes-Chosen (sound s m) missing u x h = sole_a s u x m missing refl h
  select_classes-Chosen (sound s m) torn u x h = sole_a s u x m torn refl h
  select_classes-Chosen missing (sound t n) u x h = sole_b t u x n missing refl h
  select_classes-Chosen torn (sound t n) u x h = sole_b t u x n torn refl h
  select_classes-Chosen _ _ u x h = ground arith

  Chosen-select_classes :
      {a b : SlotClass} {u : State} {x : SlotName}
      → Chosen platform a b x u
      → select_classes platform a b ≡ select u x
  unfolding select_classes select_sole select_both select_equal select_adjacent
  Chosen-select_classes (lone_a e f w) = ground arith
  Chosen-select_classes (lone_b e f w) = ground arith
  Chosen-select_classes (newer_a e f g w v h) = ground arith
  Chosen-select_classes (newer_b e f g w v h) = ground arith
  Chosen-select_classes (twin e f g h i w v) = ground arith

  -- The selector returns a state exactly when the rule chooses its slot: the evidence of every
  -- valid slot is authentic, and a state beside another valid one is its legal direct successor, or
  -- the same first enrolment.
  pub select_classes-iff-Chosen :
      (a b : SlotClass) (u : State) (x : SlotName)
      → (select_classes platform a b ≡ select u x) ↔ Chosen platform a b x u
  select_classes-iff-Chosen a b u x = (select_classes-Chosen a b u x, Chosen-select_classes)
