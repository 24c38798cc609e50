-- ===== src/Updater/Codec.antt =====
-- The JSON form of the records of state_models.py: reading a dictionary with a closed set of keys,
-- and the enrollment marker. Keyword arguments whose types a record does not check are read at the
-- record's types; a Boolean stands for its number, as `isinstance(True, int)` holds.
pub mod Marker
pub mod Names
pub mod Records
pub mod Transactions
pub mod States
pub mod RoundTrip
pub mod Whole
pub mod Read
pub mod Tests
use neko_family_proxy.Prelude.{
  ℕ, String, Bool, true, false, not, ◌||◌, Option, none, some, List, [], ◌∷◌, is_some, Result,
  Check, ok, err, value_error, other_error, raise_if, ◌>>=◌, ◌>>◌, ◌==◌, string_eq, if◌then◌else◌,
}
use neko_family_proxy.Updater.Json.{
  Json, null, boolean, number, text, array, object, Items, no_items, Members, no_members, member,
  get,
}

abbrev pub is_one_of : String → List String → Bool
is_one_of k [] = false
is_one_of k (j ∷ rest) = j == k || is_one_of k rest

abbrev pub has_extra : List String → Members → Bool
has_extra keys no_members = false
has_extra keys (member k v ms) = not (is_one_of k keys) || has_extra keys ms

abbrev pub has_missing : List String → Members → Bool
has_missing [] ms = false
has_missing (k ∷ rest) ms = not (is_some (get k ms)) || has_missing rest ms

-- `_assert_closed_keys`
unfoldable pub assert_closed_keys : List String → Members → Check
assert_closed_keys keys ms = do
  raise_if (has_extra keys ms) (value_error "Unknown field")
  raise_if (has_missing keys ms) (value_error "Missing required field")

-- `data[k]`
unfoldable pub field : String → Members → Result Json
field k ms = elim (get k ms) [ some v ↦ ok v | none ↦ err (other_error "KeyError") ]

-- a field that must be a string
abbrev pub string_of : Json → Result String
string_of (text s) = ok s
string_of _ = err (value_error "must be a string")

-- a field that is compared with a number
abbrev pub number_of : Json → Result ℕ
number_of (number n) = ok n
number_of (boolean b) = ok (if b then 1 else 0)
number_of _ = err (value_error "Unsupported number")

unfoldable pub text_field : String → Members → Result String
text_field k ms = do v ← field k ms; string_of v

unfoldable pub number_field : String → Members → Result ℕ
number_field k ms = do v ← field k ms; number_of v

-- a part that may be `None`
abbrev pub optional_of : {A : Type 0} → (Json → Result A) → Json → Result (Option A)
optional_of parse null = ok none
optional_of parse v = do a ← parse v; ok (some a)

-- `v in {...}`; a list or a dictionary cannot be looked up in a set
abbrev pub find_name : {A : Type 0} → List (String × A) → String → Result A
find_name [] s = err (value_error "Invalid value")
find_name ((name, a) ∷ rest) s = if name == s then ok a else find_name rest s

abbrev pub choice_of : {A : Type 0} → List (String × A) → Json → Result A
choice_of names (text s) = find_name names s
choice_of names (array xs) = err (other_error "unhashable type")
choice_of names (object ms) = err (other_error "unhashable type")
choice_of names _ = err (value_error "Invalid value")

-- the values that `for c in v` visits, where each is read as a dictionary: a character of a string
-- or a key of a dictionary is none
abbrev pub items_of : Json → Result Items
items_of (array xs) = ok xs
items_of (object no_members) = ok no_items
items_of (text s) =
    if s == "" then ok no_items else err (other_error "'str' has no attribute 'keys'")
items_of _ = err (other_error "not iterable, or its items are no dictionaries")
