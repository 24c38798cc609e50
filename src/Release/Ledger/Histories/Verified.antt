-- ===== src/Release/Ledger/Histories/Verified.antt =====
-- A verified ledger holds histories only.
use mathlib.Core.Path.{subst}
use neko_family_proxy.Prelude.{
  ℕ, ◌≡◌, String, Option, List, [], ◌∷◌, ◌++◌, arith, ok, Result-cases, Bool-cases, inl, inr,
  ==-self, eq_law, ◌==◌, nat_eq,
}
use neko_family_proxy.Updater.Frame.Words.{Bytes}
use neko_family_proxy.Release.Ledger.{status_eq, LedgerEvent, VerifiedLedger}
use neko_family_proxy.Release.Ledger.Lifecycle.{
  check_history, check_signed_fields, check_unchanged, events_of, signed_of,
}
use neko_family_proxy.Release.Ledger.Verify.{
  LedgerPlatform, Progress, fields_of, sign_event, record_event, accept_event, read_entry,
  read_genesis, verify_line, verify_lines, read_first_line, verify_all, verify_ledger,
}
use neko_family_proxy.Release.Ledger.Lines.{splitlines}
use neko_family_proxy.Release.Ledger.Session.Files.{verify_ledger-parts}
use neko_family_proxy.Release.Ledger.Session.Tracking.{
  Tracks, accept_event-parts, events_of-snoc, fields_of-sign, signed_of-next,
}
use neko_family_proxy.Release.Ledger.Session.Appended.{
  verify_line-parts, verify_line-Tracks, read_first_line-Tracks,
}
use neko_family_proxy.Release.Ledger.Histories.{IsLife, unused}
use neko_family_proxy.Release.Ledger.Histories.Extend.{IsLife-snoc}

-- Every sequence of the accepted events has one of the histories.
abbrev Lives : Progress → Type 0
Lives p = (seq : ℕ) → IsLife (events_of seq p.events)

accept_event-checks :
    (p q : Progress) (e : LedgerEvent) (sha : String)
    → accept_event p e sha ≡ ok q
    → (check_signed_fields e ≡ ok tt)
      × (check_unchanged (fields_of e.sequence (sign_event e p.signed_by_seq)) e ≡ ok tt)
unfolding accept_event
accept_event-checks p q e sha h = (ground arith, ground arith)

module _ (p : Progress) (t : Tracks p) (lives : Lives p) (e : LedgerEvent) (sha : String)
    (h : check_history (events_of e.sequence p.events) e ≡ ok tt)
    (signed_is_whole : check_signed_fields e ≡ ok tt)
    (unchanged : check_unchanged (fields_of e.sequence (sign_event e p.signed_by_seq)) e
      ≡ ok tt) where
  fields_then :
      fields_of e.sequence (sign_event e p.signed_by_seq)
      ≡ signed_of (events_of e.sequence p.events ++ (e ∷ []))
  fields_then = ground (
    arith,
    ==-self e.sequence,
    fields_of-sign e.sequence e p.signed_by_seq,
    signed_of-next (events_of e.sequence p.events) e (t.is_open e.sequence) h,
    t.signed_by_seq e.sequence,
  )

  record_event-IsLife : IsLife (events_of e.sequence ((record_event p e sha).events))
  record_event-IsLife =
      rw (events_of-snoc, ==-self e.sequence)
        (IsLife-snoc (events_of e.sequence p.events) e (lives e.sequence) signed_is_whole
          (rw fields_then at unchanged) h)

  record_event-Lives : Lives (record_event p e sha)
  record_event-Lives seq = elim (Bool-cases (e.sequence == seq)) [
    | inl same ↦
        subst (λ s. IsLife (events_of s ((record_event p e sha).events)))
          ((eq_law e.sequence seq).0 same) record_event-IsLife
    | inr other ↦ rw (events_of-snoc, other) (lives seq)
  ]

accept_event-Lives :
    (p q : Progress) (e : LedgerEvent) (sha : String)
    → Tracks p
    → Lives p
    → accept_event p e sha ≡ ok q
    → Lives q
accept_event-Lives p q e sha t lives h =
    let (checked, made) = accept_event-parts p q e sha h in
    let (signed_is_whole, unchanged) = accept_event-checks p q e sha h in
    rw made (
      record_event-Lives p t lives e sha (rw (t.history e.sequence) at checked) signed_is_whole
        unchanged)

module _ (platform : LedgerPlatform) where
  verify_lines-Lives :
      (lines : List Bytes) (p q : Progress)
      → Tracks p
      → Lives p
      → verify_lines platform p lines ≡ ok q
      → Lives q
  unfolding verify_lines
  verify_lines-Lives [] p q t lives h = let same : p ≡ q = ground arith in subst Lives same lives
  verify_lines-Lives (line ∷ lines) p q t lives h =
      elim (Result-cases (verify_line platform p line)) [
        | inl (r, k) ↦
            let (entry, e, read, made, accepted) = verify_line-parts platform p r line k in
            verify_lines-Lives lines r q (verify_line-Tracks platform p r line t k)
              (accept_event-Lives p r e entry.1 t lives accepted) (ground arith)
        | inr (x, k) ↦ absurd (ground arith)
      ]

  read_first_line-events :
      (p : Progress) (line : Bytes) → read_first_line platform line ≡ ok p → p.events ≡ []
  unfolding read_first_line
  read_first_line-events p line h = elim (Result-cases (read_entry platform line)) [
    | inr (x, r) ↦ absurd (ground arith)
    | inl (entry, r) ↦ elim (Result-cases (read_genesis platform entry.0)) [
      | inr (x, k) ↦ absurd (ground arith)
      | inl (g, k) ↦ ground arith
    ]
  ]

  no_events-Lives : (p : Progress) → p.events ≡ [] → Lives p
  unfolding events_of signed_of
  no_events-Lives p none_yet seq =
      rw none_yet
        (record { trace = unused; allocation = tt; after_signing = λ f h. absurd (ground arith) })

  verify_all-Lives :
      (lines : List Bytes) (p : Progress) → verify_all platform lines ≡ ok p → Lives p
  unfolding verify_all
  verify_all-Lives [] p h = absurd (ground arith)
  verify_all-Lives (line ∷ lines) p h = elim (Result-cases (read_first_line platform line)) [
    | inr (x, k) ↦ absurd (ground arith)
    | inl (q, k) ↦
        verify_lines-Lives lines q p (read_first_line-Tracks platform q line k)
          (no_events-Lives q (read_first_line-events q line k)) (ground arith)
  ]

  -- Every sequence of a ledger that verifies has one of seven histories: unused; RESERVED; RESERVED
  -- then FAILED; RESERVED then SIGNED; those two then FAILED; those two then PUBLISHED; those three
  -- then RETIRED. All its events have the allocation of the first, and from the SIGNED event on all
  -- have its signed fields, none of which is empty.
  pub verify_ledger-IsLife :
      (file : Option Bytes) (ledger : VerifiedLedger)
      → verify_ledger platform file ≡ ok ledger
      → (seq : ℕ) → IsLife (events_of seq ledger.events)
  verify_ledger-IsLife file ledger h =
      let (raw, p, here, r, same) = verify_ledger-parts platform file ledger h in
      subst (λ l. (seq : ℕ) → IsLife (events_of seq l.events)) same
        (verify_all-Lives (splitlines raw) p r)
