-- ===== src/Updater/Json/Order.antt =====
-- `sorted(val.keys())`: the canonical text of an object does not depend on the order of its members.
use neko_family_proxy.Prelude.{
  ℕ, ◌≡◌, ◌≢◌, refl, inl, inr, String, true, false, List, [], ◌∷◌, arith, ok, codes, codes_lt,
  text_lt, Result-cases, Bool-cases,
}
use neko_family_proxy.Updater.Frame.Words.{Bytes}
use neko_family_proxy.Updater.Json.{
  Json, object, Members, member, insert_row, encode, encode_members, canonical_json_dumps,
}

codes_lt-asym : (xs ys : List ℕ) → codes_lt xs ys ≡ true → codes_lt ys xs ≡ false
codes_lt-asym [] [] h = ground arith
codes_lt-asym [] (y ∷ ys) h = refl
codes_lt-asym (x ∷ xs) [] h = absurd (ground arith)
codes_lt-asym (x ∷ xs) (y ∷ ys) h = ground (arith, codes_lt-asym xs ys)

codes_lt-total : (xs ys : List ℕ) → codes_lt xs ys ≡ false → codes_lt ys xs ≡ false → xs ≡ ys
codes_lt-total [] [] h k = refl
codes_lt-total [] (y ∷ ys) h k = absurd (ground arith)
codes_lt-total (x ∷ xs) [] h k = absurd (ground arith)
codes_lt-total (x ∷ xs) (y ∷ ys) h k = ground (arith, codes_lt-total xs ys)

codes_lt_trans :
    (xs ys zs : List ℕ) → codes_lt xs ys ≡ true → codes_lt ys zs ≡ true → codes_lt xs zs ≡ true
codes_lt_trans xs ys [] h k = absurd (ground arith)
codes_lt_trans [] ys (z ∷ zs) h k = refl
codes_lt_trans (x ∷ xs) [] (z ∷ zs) h k = absurd (ground arith)
codes_lt_trans (x ∷ xs) (y ∷ ys) (z ∷ zs) h k = ground (arith, codes_lt_trans xs ys zs)

-- Two members with different keys go to the same places in either order.
insert_row_comm :
    (k j : String) (v w : List ℕ) (rows : List (String × List ℕ))
    → codes k ≢ codes j
    → insert_row k v (insert_row j w rows) ≡ insert_row j w (insert_row k v rows)
unfolding insert_row text_lt
insert_row_comm k j v w [] d = elim (Bool-cases (codes_lt (codes k) (codes j))) [
  | inl y ↦ ground (arith, codes_lt-asym (codes k) (codes j) y)
  | inr n ↦ elim (Bool-cases (codes_lt (codes j) (codes k))) [
    | inl y ↦ ground arith
    | inr m ↦ absurd (d (codes_lt-total (codes k) (codes j) n m))
  ]
]
insert_row_comm k j v w ((i, u) ∷ rows) d = elim (Bool-cases (codes_lt (codes k) (codes j))) [
  | inl y ↦ ground (
    arith,
    codes_lt-asym (codes k) (codes j) y,
    codes_lt_trans (codes k) (codes j) (codes i) y,
    insert_row_comm k j v w rows d,
  )
  | inr n ↦ elim (Bool-cases (codes_lt (codes j) (codes k))) [
    | inl y ↦
        ground
          (arith, codes_lt_trans (codes j) (codes k) (codes i) y, insert_row_comm k j v w rows d)
    | inr m ↦ absurd (d (codes_lt-total (codes k) (codes j) n m))
  ]
]

-- The same members in another order: neighbours with different keys have changed places.
pub data Reordered : Members → Members → Type 0 where
  same : {ms : Members} → Reordered ms ms
  keep :
      {k : String} {v : Json} {ms ns : Members}
      → Reordered ms ns
      → Reordered (member k v ms) (member k v ns)
  swap :
      {k j : String} {v w : Json} {ms : Members}
      → codes k ≢ codes j
      → Reordered (member k v (member j w ms)) (member j w (member k v ms))
  chain : {ls ms ns : Members} → Reordered ls ms → Reordered ms ns → Reordered ls ns

encode_members-Reordered :
    {ms ns : Members} (rows : List (String × List ℕ))
    → Reordered ms ns
    → encode_members ms ≡ ok rows
    → encode_members ns ≡ ok rows
unfolding encode_members
encode_members-Reordered rows same h = h
encode_members-Reordered rows (keep {k} {v} {ms} {ns} r) h = elim (Result-cases (encode v)) [
  | inr (x, e) ↦ absurd (ground arith)
  | inl (first, e) ↦ elim (Result-cases (encode_members ms)) [
    | inr (x, f) ↦ absurd (ground arith)
    | inl (others, f) ↦ ground (arith, encode_members-Reordered others r f)
  ]
]
encode_members-Reordered rows (swap {k} {j} {v} {w} {ms} d) h = elim (Result-cases (encode v)) [
  | inr (x, e) ↦ absurd (ground arith)
  | inl (a, e) ↦ elim (Result-cases (encode w)) [
    | inr (x, f) ↦ absurd (ground arith)
    | inl (b, f) ↦ elim (Result-cases (encode_members ms)) [
      | inr (x, g) ↦ absurd (ground arith)
      | inl (others, g) ↦ ground (arith, insert_row_comm k j a b others d)
    ]
  ]
]
encode_members-Reordered rows (chain r q) h =
    encode_members-Reordered rows q (encode_members-Reordered rows r h)

-- The canonical text of an object stays the same when its members are given in another order.
pub canonical_json_dumps-Reordered :
    {ms ns : Members} (raw : Bytes)
    → Reordered ms ns
    → canonical_json_dumps (object ms) ≡ ok raw
    → canonical_json_dumps (object ns) ≡ ok raw
unfolding canonical_json_dumps encode
canonical_json_dumps-Reordered {ms} {ns} raw r h = elim (Result-cases (encode_members ms)) [
  | inr (x, e) ↦ absurd (ground arith)
  | inl (rows, e) ↦ ground (arith, encode_members-Reordered rows r e)
]
