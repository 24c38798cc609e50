-- ===== src/Release/Ledger/Lines.antt =====
-- `bytes.splitlines`, and the lines of a file that a record is written behind.
use mathlib.Core.List.{append_assoc, append-nil}
use neko_family_proxy.Prelude.{
  ℕ, ◌≡◌, refl, ◌∙◌, sym, ap, Bool, true, false, List, [], ◌∷◌, ◌++◌, arith, ◌==◌, nat_eq,
  if◌then◌else◌,
}
use neko_family_proxy.Updater.Frame.Words.{Bytes}
use neko_family_proxy.Updater.Json.Printable.{is_printable}

pub data LineByte : Type 0 where
  line_feed carriage_return other_byte : LineByte

abbrev pub line_byte : ℕ → LineByte
line_byte b = if b == 10 then line_feed else if b == 13 then carriage_return else other_byte

abbrev pub last_line : Bytes → List Bytes
last_line [] = []
last_line (c ∷ cs) = (c ∷ cs) ∷ []

-- The flag says that the byte before was a carriage return, which ends a line together with a line
-- feed; then the bytes of the line so far.
unfoldable pub split_from : Bool → Bytes → Bytes → List Bytes
split_from after_return line [] = last_line line
split_from after_return line (b ∷ rest) = elim (line_byte b) [
  | line_feed ↦ elim after_return [
    | true ↦ split_from false [] rest
    | false ↦ line ∷ split_from false [] rest
  ]
  | carriage_return ↦ line ∷ split_from true [] rest
  | other_byte ↦ split_from false (line ++ (b ∷ [])) rest
]

unfoldable pub splitlines : Bytes → List Bytes
splitlines raw = split_from false [] raw

-- The file is empty or ends with a line feed.
abbrev pub ends_line : Bytes → Bool
ends_line [] = true
ends_line (b ∷ []) = b == 10
ends_line (b ∷ c ∷ rest) = ends_line (c ∷ rest)

-- `line + b"\n"`
abbrev pub with_line_feed : Bytes → Bytes
with_line_feed line = line ++ (10 ∷ [])

split_from-terminated :
    (after_return : Bool) (line : Bytes) (b : ℕ) (rest more : Bytes)
    → ends_line (b ∷ rest) ≡ true
    → split_from after_return line ((b ∷ rest) ++ more)
      ≡ split_from after_return line (b ∷ rest) ++ split_from false [] more
unfolding split_from
split_from-terminated true line b [] more h = ground arith
split_from-terminated false line b [] more h = ground arith
split_from-terminated after_return line b (c ∷ rest) more h = ground (
  arith,
  split_from-terminated false [] c rest more h,
  split_from-terminated true [] c rest more h,
  split_from-terminated false (line ++ (b ∷ [])) c rest more h,
)

split_from-printable :
    (line more : Bytes)
    → is_printable more ≡ true
    → split_from false line (with_line_feed more) ≡ (line ++ more) ∷ []
unfolding split_from
split_from-printable line [] h = ap (λ l. l ∷ []) (sym (append-nil line))
split_from-printable line (b ∷ more) h =
    ground (arith, split_from-printable (line ++ (b ∷ [])) more, append_assoc line (b ∷ []) more)

-- A line that is written behind whole lines is one line more.
pub splitlines-written :
    (raw line : Bytes)
    → ends_line raw ≡ true
    → is_printable line ≡ true
    → splitlines (raw ++ with_line_feed line) ≡ splitlines raw ++ (line ∷ [])
unfolding splitlines split_from
splitlines-written [] line h p = split_from-printable [] line p
splitlines-written (b ∷ rest) line h p =
    split_from-terminated false [] b rest (with_line_feed line) h
    ∙ ap (λ ls. split_from false [] (b ∷ rest) ++ ls) (split_from-printable [] line p)

-- The file ends with the line feed that was written.
pub ends_line-written : (raw line : Bytes) → ends_line (raw ++ with_line_feed line) ≡ true
ends_line-written [] [] = refl
ends_line-written [] (c ∷ []) = refl
ends_line-written [] (c ∷ d ∷ line) = ends_line-written [] (d ∷ line)
ends_line-written (b ∷ []) line = behind b line
  where
    behind : (b : ℕ) (line : Bytes) → ends_line (b ∷ with_line_feed line) ≡ true
    behind b [] = refl
    behind b (c ∷ line) = behind c line
ends_line-written (b ∷ c ∷ rest) line = ends_line-written (c ∷ rest) line
