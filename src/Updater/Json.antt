-- ===== src/Updater/Json.antt =====
-- launcher/src/neko_launcher/updater/canonical_json.py. A dictionary is the list of its members,
-- with each key once. A float is its text. The standard library's `json.loads`, with the hook that
-- refuses a key that occurs twice, is a parameter.
pub mod Canonical
pub mod Order
pub mod Tests
pub mod Equal
pub mod Printable
use neko_family_proxy.Prelude.{
  ℕ, zero, suc, ◌+◌, ◌-◌, ◌*◌, ◌/◌, ◌%◌, ◌<◌, String, Bool, true, false, ◌&&◌, ◌||◌, Option, none,
  some, List, [], ◌∷◌, ◌++◌, ltb, leb, codes, Result, ok, err, value_error, raise_if,
  is_value_error, ◌>>=◌, ◌>>◌, ◌==◌, ◌!=◌, nat_eq, string_eq, list_eq, text_lt, if◌then◌else◌,
}
use neko_family_proxy.Updater.Frame.Words.{Bytes}

mutual
  pub data Json : Type 0 where
    null : Json
    boolean : Bool → Json
    number : ℕ → Json
    -- -(n + 1)
    negative : ℕ → Json
    floating : String → Json
    text : String → Json
    array : Items → Json
    object : Members → Json

  pub data Items : Type 0 where
    no_items : Items
    item : Json → Items → Items

  pub data Members : Type 0 where
    no_members : Members
    member : String → Json → Members → Members

-- `str(n)`: the decimal digits, with fuel for one digit each
digits_from : ℕ → ℕ → List ℕ → List ℕ
digits_from zero n rest = rest
digits_from (suc fuel) n rest =
    let here = (b'0' + n % 10) ∷ rest in
    let more = digits_from fuel (n / 10) here in if ltb n 10 then here else more

unfoldable pub digits : ℕ → List ℕ
unfolding digits_from
digits n = digits_from (suc n) n []

-- `f"{d:x}"` for a digit
hex_digit : ℕ → ℕ
hex_digit d = if ltb d 10 then b'0' + d else b'a' + (d - 10)

-- one character of a string literal; a control character is below 0x20, so two digits are enough
unfoldable pub escape : ℕ → List ℕ
unfolding hex_digit
escape c =
    if c == b'"'
    then b'\\' ∷ b'"' ∷ []
    else if c == b'\\'
    then b'\\' ∷ b'\\' ∷ []
    else if ltb c 0x20
    then b'\\' ∷ b'u' ∷ b'0' ∷ b'0' ∷ hex_digit (c / 16) ∷ hex_digit (c % 16) ∷ []
    else c ∷ []

unfoldable pub escape_all : List ℕ → List ℕ
escape_all [] = []
escape_all (c ∷ cs) = escape c ++ escape_all cs

unfoldable pub quoted : String → List ℕ
quoted s = b'"' ∷ (escape_all (codes s) ++ (b'"' ∷ []))

-- The members that are written, each with its key and the text of its value. `sorted(val.keys())`
-- is an insertion of each member in its place: Python compares strings by their code points.
unfoldable pub insert_row : String → List ℕ → List (String × List ℕ) → List (String × List ℕ)
insert_row k v [] = (k, v) ∷ []
insert_row k v ((j, w) ∷ rows) =
    let others = insert_row k v rows in
    if text_lt k j then (k, v) ∷ (j, w) ∷ rows else (j, w) ∷ others

-- `",".join(...)`, with the separator before each but the first
unfoldable pub joined : List (String × List ℕ) → List ℕ → List ℕ
joined [] separator = []
joined ((k, v) ∷ rows) separator =
    separator ++ (quoted k ++ (b':' ∷ (v ++ joined rows (b',' ∷ []))))

-- `_encode_canonical_value`; an array comes with the separator before each item but the first
unfoldable mutual
  pub encode : Json → Result (List ℕ)
  encode null = ok (codes "null")
  encode (boolean b) = ok (if b then codes "true" else codes "false")
  encode (number n) = ok (digits n)
  encode (negative n) = ok (b'-' ∷ digits (n + 1))
  encode (floating f) = err (value_error "Float not permitted in canonical JSON")
  encode (text s) = ok (quoted s)
  encode (array xs) = do body ← encode_items xs []; ok (b'[' ∷ (body ++ (b']' ∷ [])))
  encode (object ms) = do rows ← encode_members ms; ok (b'{' ∷ (joined rows [] ++ (b'}' ∷ [])))

  pub encode_items : Items → List ℕ → Result (List ℕ)
  encode_items no_items separator = ok []
  encode_items (item v xs) separator = do
    first ← encode v
    rest ← encode_items xs (b',' ∷ [])
    ok (separator ++ (first ++ rest))

  pub encode_members : Members → Result (List (String × List ℕ))
  encode_members no_members = ok []
  encode_members (member k v ms) = do
    first ← encode v
    rows ← encode_members ms
    ok (insert_row k first rows)

-- `.encode("utf-8")`
unfoldable pub utf8_char : ℕ → Result Bytes
utf8_char c =
    if ltb c 0x80
    then ok (c ∷ [])
    else if ltb c 0x800
    then ok ((0xc0 + c / 0x40) ∷ (0x80 + c % 0x40) ∷ [])
    else if leb 0xd800 c && leb c 0xdfff
    then err (value_error "surrogates not allowed")
    else if ltb c 0x10000
    then ok ((0xe0 + c / 0x1000) ∷ (0x80 + c / 0x40 % 0x40) ∷ (0x80 + c % 0x40) ∷ [])
    else ok (
        (0xf0 + c / 0x40000)
        ∷ (0x80 + c / 0x1000 % 0x40)
        ∷ (0x80 + c / 0x40 % 0x40)
        ∷ (0x80 + c % 0x40)
        ∷ [])

unfoldable pub utf8 : List ℕ → Result Bytes
utf8 [] = ok []
utf8 (c ∷ cs) = do first ← utf8_char c; rest ← utf8 cs; ok (first ++ rest)

unfoldable pub canonical_json_dumps : Json → Result Bytes
canonical_json_dumps v = do cs ← encode v; utf8 cs

-- The parameter reads bytes: it decodes UTF-8 and then calls `json.loads`. Its failures are those
-- that the code turns into a `ValueError`.
unfoldable pub canonical_json_loads : (Bytes → Option Json) → Bytes → Result Json
canonical_json_loads loads raw = elim (loads raw) [
  | none ↦ err (value_error "Invalid JSON")
  | some parsed ↦ do
    re_encoded ← canonical_json_dumps parsed
    raise_if (re_encoded != raw)
        (value_error "non-canonical format: encoding does not match canonical form")
    ok parsed
]

-- `d.get(k)`
unfoldable pub get : String → Members → Option Json
get k no_members = none
get k (member j v ms) = if j == k then some v else get k ms
