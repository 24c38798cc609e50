-- ===== src/Release/Ledger/Session/Files.antt =====
-- A file and its lines, as `verify_ledger` reads them.
use neko_family_proxy.Prelude.{
  ◌≡◌, refl, String, true, Option, none, some, [], ◌∷◌, arith, ok, Result-cases, inl, inr,
}
use neko_family_proxy.Updater.Frame.Words.{Bytes}
use neko_family_proxy.Updater.Json.{Members}
use neko_family_proxy.Updater.Json.Printable.{is_printable, canonical_json_dumps-printable}
use neko_family_proxy.Release.Ledger.{VerifiedLedger, entry_of}
use neko_family_proxy.Release.Ledger.Lines.{split_from, splitlines}
use neko_family_proxy.Release.Ledger.Verify.{
  LedgerPlatform, Progress, verified, verify_all, verify_ledger,
}
use neko_family_proxy.Release.Ledger.Session.{record_line}
use neko_family_proxy.Release.Ledger.Session.Records.{record_line-parts}

module _ (platform : LedgerPlatform) where
  pub verify_ledger-parts :
      (file : Option Bytes) (ledger : VerifiedLedger)
      → verify_ledger platform file ≡ ok ledger
      → (raw : Bytes) × (p : Progress) × (file ≡ some raw)
        × (verify_all platform (splitlines raw) ≡ ok p)
        × (verified p ≡ ledger)
  unfolding verify_ledger
  verify_ledger-parts none ledger h = absurd (ground arith)
  verify_ledger-parts (some []) ledger h = absurd (ground arith)
  verify_ledger-parts (some (b ∷ rest)) ledger h =
      elim (Result-cases (verify_all platform (splitlines (b ∷ rest)))) [
        | inr (x, r) ↦ absurd (ground arith)
        | inl (p, r) ↦ (b ∷ rest, p, refl, r, ground arith)
      ]

  pub verify_ledger-verified :
      (raw : Bytes) (p : Progress)
      → verify_all platform (splitlines raw) ≡ ok p
      → verify_ledger platform (some raw) ≡ ok (verified p)
  unfolding verify_ledger verify_all splitlines split_from
  verify_ledger-verified [] p h = absurd (ground arith)
  verify_ledger-verified (b ∷ rest) p h = ground arith

  pub record_line-printable :
      (body : Members) (line : Bytes) (sha : String)
      → record_line platform body ≡ ok (line, sha)
      → is_printable line ≡ true
  record_line-printable body line sha h =
      let (raw, dumped, hashed, entry) = record_line-parts platform body line sha h in
      canonical_json_dumps-printable (entry_of body sha) line entry
