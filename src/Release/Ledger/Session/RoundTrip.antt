-- ===== src/Release/Ledger/Session/RoundTrip.antt =====
-- A session that has written reads back what it wrote.
use neko_family_proxy.Prelude.{
  ◌<◌, ◌≡◌, refl, ◌∙◌, ap, String, true, Option, some, [], ◌++◌, arith, ok, Result-cases, inl, inr,
}
use neko_family_proxy.Updater.Frame.Words.{Bytes}
use neko_family_proxy.Release.Ledger.{
  Genesis, LedgerEvent, VerifiedLedger, event_members, entry_of, genesis_members, extended,
}
use neko_family_proxy.Release.Ledger.Verify.{
  LedgerPlatform, Progress, record_event, verify_lines, read_entry, verified, read_first_line,
  verify_all, verify_ledger,
}
use neko_family_proxy.Release.Ledger.Session.{
  Session, content, check_append, record_line, read_verified, append, initialize_genesis,
}
use neko_family_proxy.Updater.Json.Printable.{is_printable}
use neko_family_proxy.Release.Ledger.Lines.{
  split_from, splitlines, ends_line, with_line_feed, splitlines-written, ends_line-written,
}
use neko_family_proxy.Release.Ledger.Session.Files.{
  verify_ledger-parts, verify_ledger-verified, record_line-printable,
}
use neko_family_proxy.Release.Ledger.Session.Records.{read_genesis-members, read_entry-line}
use neko_family_proxy.Release.Ledger.Session.Appended.{
  verify_all-Tracks, verify_all-snoc, verify_line-appended,
}

-- What the verifier has after the first line.
abbrev opened : Genesis → String → Progress
opened g sha = record {
  genesis = g;
  events = [];
  latest_entry_sha256 = sha;
  history = [];
  signed_by_seq = [];
}

module _ (platform : LedgerPlatform) where
  open platform use {loads}

  first-verified :
      (line : Bytes) (g : Genesis) (sha : String)
      → read_entry platform line ≡ ok (genesis_members g, sha)
      → 0 < g.floor_binding.sequence
      → is_printable line ≡ true
      → verify_ledger platform (some (with_line_feed line))
        ≡ ok (record { genesis = g; events = []; latest_entry_sha256 = sha })
  unfolding verify_all read_first_line verify_lines splitlines split_from
  first-verified line g sha entry positive p =
      let only = splitlines-written [] line refl p in
      verify_ledger-verified platform (with_line_feed line) (opened g sha)
        (rw only (ground (arith, entry, read_genesis-members platform g positive)))

  verify_ledger-extended :
      (file : Option Bytes) (ledger : VerifiedLedger) (e : LedgerEvent) (expected sha : String)
      (line : Bytes)
      → ends_line (content file) ≡ true
      → verify_ledger platform file ≡ ok ledger
      → check_append ledger e expected ≡ ok tt
      → record_line platform (event_members e) ≡ ok (line, sha)
      → loads line ≡ some (entry_of (event_members e) sha)
      → verify_ledger platform (some (content file ++ with_line_feed line))
        ≡ ok (extended ledger e sha)
  verify_ledger-extended file ledger e expected sha line ends h c w k =
      let (raw, p, here, r, same) = verify_ledger-parts platform file ledger h in
      let checked : check_append (verified p) e expected ≡ ok tt = rw same c in
      let last =
        verify_line-appended platform p e expected sha line
          (verify_all-Tracks platform (splitlines raw) p r) checked w k in
      let ended : ends_line raw ≡ true = rw here at ends in
      let split =
        splitlines-written raw line ended
          (record_line-printable platform (event_members e) line sha w) in
      rw here (
        verify_ledger-verified platform (raw ++ with_line_feed line) (record_event p e sha)
          (rw split (verify_all-snoc platform (splitlines raw) line p r ∙ last))
        ∙ ap (λ l. ok (extended l e sha)) same)

  pub read_verified-parts :
      (session : Session) (ledger : VerifiedLedger)
      → read_verified platform session ≡ ok ledger
      → (session.is_locked ≡ true) × (verify_ledger platform session.file ≡ ok ledger)
  unfolding read_verified
  read_verified-parts session ledger h = (ground arith, ground arith)

  read_verified-locked :
      (session : Session) (ledger : VerifiedLedger)
      → session.is_locked ≡ true
      → verify_ledger platform session.file ≡ ok ledger
      → read_verified platform session ≡ ok ledger
  unfolding read_verified
  read_verified-locked session ledger h v = ground arith

  append-extended :
      (session : Session) (ledger : VerifiedLedger) (e : LedgerEvent) (expected sha : String)
      (line : Bytes)
      → ends_line (content session.file) ≡ true
      → read_verified platform session ≡ ok ledger
      → check_append ledger e expected ≡ ok tt
      → record_line platform (event_members e) ≡ ok (line, sha)
      → loads line ≡ some (entry_of (event_members e) sha)
      → read_verified platform
          (record session { file = some (content session.file ++ with_line_feed line) })
        ≡ ok (extended ledger e sha)
  append-extended session ledger e expected sha line ends r c w k =
      let (locked, v) = read_verified-parts session ledger r in
      read_verified-locked _ _ locked
        (verify_ledger-extended session.file ledger e expected sha line ends v c w k)

  pub append-parts :
      (session session' : Session) (e : LedgerEvent) (expected sha : String)
      → append platform session e expected ≡ ok (sha, session')
      → (ledger : VerifiedLedger) × (line : Bytes) × (read_verified platform session ≡ ok ledger)
        × (check_append ledger e expected ≡ ok tt)
        × (record_line platform (event_members e) ≡ ok (line, sha))
        × (session' ≡ record session { file = some (content session.file ++ with_line_feed line) })
  unfolding append
  append-parts session session' e expected sha h =
      elim (Result-cases (read_verified platform session)) [
        | inr (x, r) ↦ absurd (ground arith)
        | inl (ledger, r) ↦ elim (Result-cases (check_append ledger e expected)) [
          | inr (x, c) ↦ absurd (ground arith)
          | inl (u, c) ↦ elim (Result-cases (record_line platform (event_members e))) [
            | inr (x, w) ↦ absurd (ground arith)
            | inl ((line, digest), w) ↦ (ledger, line, r, ground arith, ground arith, ground arith)
          ]
        ]
      ]

  -- What `append` writes is accepted by the verifier: if the file is empty or ends with a line feed
  -- and the parser finds the record in the line that is written, then after a successful append the
  -- ledger reads back as the ledger before with the event at its end and the returned digest as its
  -- head, and the file ends with a line feed again.
  pub append-read_verified :
      (session session' : Session) (e : LedgerEvent) (expected sha : String)
      → ends_line (content session.file) ≡ true
      → ((line : Bytes)
          → record_line platform (event_members e) ≡ ok (line, sha)
          → loads line ≡ some (entry_of (event_members e) sha))
      → append platform session e expected ≡ ok (sha, session')
      → (ledger : VerifiedLedger) × (read_verified platform session ≡ ok ledger)
        × (read_verified platform session' ≡ ok (extended ledger e sha))
        × (ends_line (content session'.file) ≡ true)
  append-read_verified session session' e expected sha ends reads h =
      let (ledger, line, r, c, w, made) = append-parts session session' e expected sha h in
      let kept = ends_line-written (content session.file) line in
      (
        ledger,
        r,
        rw made (append-extended session ledger e expected sha line ends r c w (reads line w)),
        rw made kept,
      )

  -- A genesis that `initialize_genesis` writes is accepted by the verifier: if the parser finds the
  -- record in the line that was written, the ledger reads back with that genesis, no events and the
  -- returned digest as its head, and the file ends with a line feed.
  pub initialize_genesis-read_verified :
      (session session' : Session) (g : Genesis) (sha : String)
      → ((line : Bytes)
          → record_line platform (genesis_members g) ≡ ok (line, sha)
          → loads line ≡ some (entry_of (genesis_members g) sha))
      → initialize_genesis platform session g ≡ ok (sha, session')
      → (read_verified platform session'
          ≡ ok (record { genesis = g; events = []; latest_entry_sha256 = sha }))
        × (ends_line (content session'.file) ≡ true)
  unfolding initialize_genesis
  initialize_genesis-read_verified session session' g sha reads h =
      elim (Result-cases (record_line platform (genesis_members g))) [
        | inr (x, w) ↦ absurd (ground arith)
        | inl ((line, digest), w) ↦
            let locked : session.is_locked ≡ true = ground arith in
            let positive : 0 < g.floor_binding.sequence = ground arith in
            let same : digest ≡ sha = ground arith in
            let made : session' ≡ record session { file = some (with_line_feed line) } =
              ground arith in
            let written = w ∙ ap (λ d. ok (line, d)) same in
            let entry =
              read_entry-line platform (genesis_members g) line sha written (reads line written) in
            let clean = record_line-printable platform (genesis_members g) line sha written in
            (
              rw made (
                  read_verified-locked _ _ locked (first-verified line g sha entry positive clean)),
              rw made (ends_line-written [] line),
            )
      ]
