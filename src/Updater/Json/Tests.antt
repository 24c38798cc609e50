-- ===== src/Updater/Json/Tests.antt =====
-- The canonical form at concrete values.
use neko_family_proxy.Prelude.{text_lt, codes, arith, true, ◌≡◌, refl, Option, some, [], ◌∷◌, ok}
use neko_family_proxy.Updater.Frame.Words.{Bytes}
use neko_family_proxy.Updater.Json.{
  Json, number, object, Members, no_members, member, digits, quoted, escape_all, escape, insert_row,
  joined, encode, utf8, utf8_char, canonical_json_dumps, canonical_json_loads,
}
use neko_family_proxy.Updater.Json.Printable.{is_printable, canonical_json_dumps-printable}
use neko_family_proxy.Updater.Json.Order.{swap, canonical_json_dumps-Reordered}
use neko_family_proxy.Updater.Json.Canonical.{canonical_json_loads-dumps}

abbrev one_number : Bytes → Option Json
one_number raw = some (number 205)

abbrev text_205 : Bytes
text_205 = b'2' ∷ b'0' ∷ b'5' ∷ []

dumped_205 : canonical_json_dumps (number 205) ≡ ok text_205
unfolding canonical_json_dumps encode utf8 utf8_char digits
dumped_205 = refl

loaded_205 : canonical_json_loads one_number text_205 ≡ ok (number 205)
loaded_205 = canonical_json_loads-dumps one_number text_205 (number 205) dumped_205 refl

canonical_json_dumps-printable_example : is_printable text_205 ≡ true
canonical_json_dumps-printable_example =
    canonical_json_dumps-printable (number 205) text_205 dumped_205

abbrev descending : Members
descending = member "b" (number 1) (member "a" (number 2) no_members)

abbrev ascending : Members
ascending = member "a" (number 2) (member "b" (number 1) no_members)

abbrev text_of_members : Bytes
text_of_members = codes "{\"a\":2,\"b\":1}"

dumped_members : canonical_json_dumps (object descending) ≡ ok text_of_members
unfolding canonical_json_dumps encode insert_row joined text_lt quoted escape_all escape utf8
    utf8_char digits
dumped_members = refl

canonical_json_dumps-Reordered_example :
    canonical_json_dumps (object ascending) ≡ ok text_of_members
canonical_json_dumps-Reordered_example =
    canonical_json_dumps-Reordered text_of_members (swap (λ e. ground arith)) dumped_members
