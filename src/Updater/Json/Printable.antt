-- ===== src/Updater/Json/Printable.antt =====
-- A canonical text has no control characters, so that it is one line of a file.
use neko_family_proxy.Prelude.{
  ℕ, zero, suc, ◌+◌, ◌/◌, ◌%◌, ◌≡◌, refl, String, Bool, true, ◌&&◌, List, [], ◌∷◌, ◌++◌, arith, ok,
  all, leb, codes, Result-cases, inl, inr,
}
use neko_family_proxy.Updater.Frame.Words.{Bytes}
use neko_family_proxy.Updater.Json.{
  Json, null, boolean, number, negative, floating, text, array, object, Items, no_items, item,
  Members, no_members, member, digits, digits_from, hex_digit, escape, escape_all, quoted,
  insert_row, joined, encode, encode_items, encode_members, utf8_char, utf8, canonical_json_dumps,
}

abbrev pub is_printable : List ℕ → Bool
is_printable [] = true
is_printable (c ∷ cs) = leb 32 c && is_printable cs

is_printable-append : (a b : List ℕ) → is_printable (a ++ b) ≡ (is_printable a && is_printable b)
is_printable-append [] b = refl
is_printable-append (c ∷ a) b = ground (arith, is_printable-append a b)

-- Two printable texts in a row.
both_printable :
    (a b : List ℕ) → is_printable a ≡ true → is_printable b ≡ true → is_printable (a ++ b) ≡ true
both_printable a b h k = ground (arith, is_printable-append a b)

digits_from-printable :
    (fuel n : ℕ) (rest : List ℕ)
    → is_printable rest ≡ true
    → is_printable (digits_from fuel n rest) ≡ true
unfolding digits_from
digits_from-printable zero n rest h = h
digits_from-printable (suc f) n rest h =
    ground (arith, digits_from-printable f (n / 10) ((b'0' + n % 10) ∷ rest))

escape-printable : (c : ℕ) → is_printable (escape c) ≡ true
unfolding escape hex_digit
escape-printable c = ground arith

escape_all-printable : (cs : List ℕ) → is_printable (escape_all cs) ≡ true
unfolding escape_all
escape_all-printable [] = refl
escape_all-printable (c ∷ cs) =
    both_printable (escape c) (escape_all cs) (escape-printable c) (escape_all-printable cs)

quoted-printable : (s : String) → is_printable (quoted s) ≡ true
unfolding quoted
quoted-printable s =
    both_printable (escape_all (codes s)) (b'"' ∷ []) (escape_all-printable (codes s)) refl

digits-printable : (n : ℕ) → is_printable (digits n) ≡ true
unfolding digits
digits-printable n = digits_from-printable (suc n) n [] refl

abbrev row_printable : String × List ℕ → Bool
row_printable row = is_printable row.1

insert_row-printable :
    (k : String) (v : List ℕ) (rows : List (String × List ℕ))
    → is_printable v ≡ true
    → all row_printable rows ≡ true
    → all row_printable (insert_row k v rows) ≡ true
unfolding insert_row
insert_row-printable k v [] h r = ground arith
insert_row-printable k v ((j, w) ∷ rows) h r =
    ground (arith, insert_row-printable k v rows h (ground arith))

joined-printable :
    (rows : List (String × List ℕ)) (separator : List ℕ)
    → all row_printable rows ≡ true
    → is_printable separator ≡ true
    → is_printable (joined rows separator) ≡ true
unfolding joined
joined-printable [] separator r s = refl
joined-printable ((k, v) ∷ rows) separator r s =
    let rest = joined-printable rows (b',' ∷ []) (ground arith) refl in
    let value = both_printable v (joined rows (b',' ∷ [])) (ground arith) rest in
    let entry = b':' ∷ (v ++ joined rows (b',' ∷ [])) in
    both_printable separator (quoted k ++ entry) s
      (both_printable (quoted k) entry (quoted-printable k) value)

mutual
  unfolding encode encode_items encode_members

  encode-printable : (v : Json) (cs : List ℕ) → encode v ≡ ok cs → is_printable cs ≡ true
  encode-printable null cs h = ground arith
  encode-printable (boolean b) cs h = ground arith
  encode-printable (number n) cs h = ground (arith, digits-printable n)
  encode-printable (negative n) cs h = ground (arith, digits-printable (n + 1))
  encode-printable (floating f) cs h = absurd (ground arith)
  encode-printable (text s) cs h = ground (arith, quoted-printable s)
  encode-printable (array xs) cs h = elim (Result-cases (encode_items xs [])) [
    | inl (body, e) ↦
        let inside = encode_items-printable xs [] body refl e in
        let closed = both_printable body (b']' ∷ []) inside refl in ground (arith, e, closed)
    | inr (x, e) ↦ absurd (ground arith)
  ]
  encode-printable (object ms) cs h = elim (Result-cases (encode_members ms)) [
    | inl (rows, e) ↦
        let inside = joined-printable rows [] (encode_members-printable ms rows e) refl in
        let closed = both_printable (joined rows []) (b'}' ∷ []) inside refl in
        ground (arith, e, closed)
    | inr (x, e) ↦ absurd (ground arith)
  ]

  encode_items-printable :
      (xs : Items) (separator cs : List ℕ)
      → is_printable separator ≡ true
      → encode_items xs separator ≡ ok cs
      → is_printable cs ≡ true
  encode_items-printable no_items separator cs s h = ground arith
  encode_items-printable (item v xs) separator cs s h = elim (Result-cases (encode v)) [
    | inr (x, e) ↦ absurd (ground arith)
    | inl (first, e) ↦ elim (Result-cases (encode_items xs (b',' ∷ []))) [
      | inr (x, r) ↦ absurd (ground arith)
      | inl (rest, r) ↦
          let written : separator ++ (first ++ rest) ≡ cs = ground arith in
          rw (← written) (
            both_printable separator (first ++ rest) s (
              both_printable first rest (encode-printable v first e)
                (encode_items-printable xs (b',' ∷ []) rest refl r)))
    ]
  ]

  encode_members-printable :
      (ms : Members) (rows : List (String × List ℕ))
      → encode_members ms ≡ ok rows
      → all row_printable rows ≡ true
  encode_members-printable no_members rows h = ground arith
  encode_members-printable (member k v ms) rows h = elim (Result-cases (encode v)) [
    | inr (x, e) ↦ absurd (ground arith)
    | inl (first, e) ↦ elim (Result-cases (encode_members ms)) [
      | inr (x, r) ↦ absurd (ground arith)
      | inl (others, r) ↦
          let written : insert_row k first others ≡ rows = ground arith in
          rw (← written) (
            insert_row-printable k first others (encode-printable v first e)
              (encode_members-printable ms others r))
    ]
  ]

utf8_char-printable :
    (c : ℕ) (raw : Bytes) → leb 32 c ≡ true → utf8_char c ≡ ok raw → is_printable raw ≡ true
unfolding utf8_char
utf8_char-printable c raw p h = ground arith

utf8-printable :
    (cs : List ℕ) (raw : Bytes)
    → is_printable cs ≡ true
    → utf8 cs ≡ ok raw
    → is_printable raw ≡ true
unfolding utf8
utf8-printable [] raw p h = ground arith
utf8-printable (c ∷ cs) raw p h = elim (Result-cases (utf8_char c)) [
  | inr (x, e) ↦ absurd (ground arith)
  | inl (first, e) ↦ elim (Result-cases (utf8 cs)) [
    | inr (x, r) ↦ absurd (ground arith)
    | inl (rest, r) ↦
        let written : first ++ rest ≡ raw = ground arith in
        rw (← written) (
          both_printable first rest (utf8_char-printable c first (ground arith) e)
            (utf8-printable cs rest (ground arith) r))
  ]
]

-- Every byte of a canonical text is at least 0x20: it has no line feed and no carriage return.
pub canonical_json_dumps-printable :
    (v : Json) (raw : Bytes) → canonical_json_dumps v ≡ ok raw → is_printable raw ≡ true
unfolding canonical_json_dumps
canonical_json_dumps-printable v raw h = elim (Result-cases (encode v)) [
  | inr (x, e) ↦ absurd (ground arith)
  | inl (cs, e) ↦ utf8-printable cs raw (encode-printable v cs e) (ground arith)
]
