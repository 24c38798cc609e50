-- ===== src/Release/Ledger/Session/Appended.antt =====
-- What `append` writes is accepted by `verify_ledger`.
use mathlib.Core.Path.{subst}
use neko_family_proxy.Prelude.{
  ◌<◌, ◌≡◌, String, some, List, [], ◌∷◌, ◌++◌, arith, ok, ◌>>=◌, Result-cases, inl, inr, ==-self,
  eq_law, string_eq, nat_eq,
}
use neko_family_proxy.Updater.Frame.Words.{Bytes}
use neko_family_proxy.Updater.Json.{Members}
use neko_family_proxy.Updater.Json.Equal.{json_eq}
use neko_family_proxy.Release.Ledger.{LedgerEvent, status_eq, event_members, entry_of}
use neko_family_proxy.Release.Ledger.Lifecycle.{check_unchanged, events_of, signed_of}
use neko_family_proxy.Release.Ledger.Verify.{
  LedgerPlatform, Progress, history_of, fields_of, record_event, accept_event, read_entry,
  read_event, verify_line, verify_lines, verified, read_first_line, verify_all, read_genesis,
}
use neko_family_proxy.Release.Ledger.Session.{check_append, record_line}
use neko_family_proxy.Release.Ledger.Session.Records.{read_event-members, read_entry-line}
use neko_family_proxy.Release.Ledger.Session.Tracking.{Tracks, accept_event-Tracks, fields_of-sign}

-- `accept_event` makes the checks that `append` makes.
check_append-accepts :
    (p : Progress) (e : LedgerEvent) (expected sha : String)
    → Tracks p
    → check_append (verified p) e expected ≡ ok tt
    → accept_event p e sha ≡ ok (record_event p e sha)
unfolding check_append accept_event check_unchanged
check_append-accepts p e expected sha t h = ground (
  arith,
  t.history e.sequence,
  t.signed_by_seq e.sequence,
  fields_of-sign e.sequence e p.signed_by_seq,
  ==-self e.sequence,
  ==-self e.payload_sha256,
  ==-self e.envelope_sha256,
  ==-self e.key_id,
)

module _ (platform : LedgerPlatform) where
  open platform use {loads}

  verify_lines-snoc :
      (lines : List Bytes) (p : Progress) (line : Bytes)
      → verify_lines platform p (lines ++ (line ∷ []))
        ≡ (verify_lines platform p lines >>= λ q. verify_line platform q line)
  unfolding verify_lines
  verify_lines-snoc [] p line = elim (Result-cases (verify_line platform p line)) [
    | inl (q, e) ↦ ground arith
    | inr (x, e) ↦ ground arith
  ]
  verify_lines-snoc (l ∷ lines) p line = elim (Result-cases (verify_line platform p l)) [
    | inl (q, e) ↦ simp (e, verify_lines-snoc lines q line)
    | inr (x, e) ↦ ground arith
  ]

  -- A line that is accepted holds a record whose event is accepted.
  pub verify_line-parts :
      (p q : Progress) (line : Bytes)
      → verify_line platform p line ≡ ok q
      → (entry : Members × String) × (e : LedgerEvent) × (read_entry platform line ≡ ok entry)
        × (read_event platform p.genesis.floor_binding.sequence p.latest_entry_sha256 entry.0
            ≡ ok e)
        × (accept_event p e entry.1 ≡ ok q)
  unfolding verify_line
  verify_line-parts p q line h = elim (Result-cases (read_entry platform line)) [
    | inr (x, r) ↦ absurd (ground arith)
    | inl (entry, r) ↦
        elim (Result-cases
          (read_event platform p.genesis.floor_binding.sequence p.latest_entry_sha256 entry.0)) [
            | inr (x, k) ↦ absurd (ground arith)
            | inl (e, k) ↦ (entry, e, r, k, ground arith)
          ]
  ]

  pub verify_line-Tracks :
      (p q : Progress) (line : Bytes) → Tracks p → verify_line platform p line ≡ ok q → Tracks q
  verify_line-Tracks p q line t h =
      let (entry, e, r, k, accepted) = verify_line-parts p q line h in
      accept_event-Tracks p q e entry.1 t accepted

  verify_lines-Tracks :
      (lines : List Bytes) (p q : Progress)
      → Tracks p
      → verify_lines platform p lines ≡ ok q
      → Tracks q
  unfolding verify_lines
  verify_lines-Tracks [] p q t h = subst Tracks (ground arith) t
  verify_lines-Tracks (line ∷ lines) p q t h = elim (Result-cases (verify_line platform p line)) [
    | inl (r, e) ↦ verify_lines-Tracks lines r q (verify_line-Tracks p r line t e) (ground arith)
    | inr (x, e) ↦ absurd (ground arith)
  ]

  pub read_first_line-Tracks :
      (p : Progress) (line : Bytes) → read_first_line platform line ≡ ok p → Tracks p
  unfolding read_first_line history_of fields_of events_of signed_of
  read_first_line-Tracks p line h = elim (Result-cases (read_entry platform line)) [
    | inr (x, r) ↦ absurd (ground arith)
    | inl (entry, r) ↦ elim (Result-cases (read_genesis platform entry.0)) [
      | inr (x, k) ↦ absurd (ground arith)
      | inl (g, k) ↦ record {
        history = λ seq. ground arith;
        signed_by_seq = λ seq. ground arith;
        is_open = λ seq last. ground arith;
      }
    ]
  ]

  pub verify_all-Tracks :
      (lines : List Bytes) (p : Progress) → verify_all platform lines ≡ ok p → Tracks p
  unfolding verify_all
  verify_all-Tracks [] p h = absurd (ground arith)
  verify_all-Tracks (line ∷ lines) p h = elim (Result-cases (read_first_line platform line)) [
    | inl (q, e) ↦ verify_lines-Tracks lines q p (read_first_line-Tracks q line e) (ground arith)
    | inr (x, e) ↦ absurd (ground arith)
  ]

  pub verify_all-snoc :
      (lines : List Bytes) (line : Bytes) (p : Progress)
      → verify_all platform lines ≡ ok p
      → verify_all platform (lines ++ (line ∷ [])) ≡ verify_line platform p line
  unfolding verify_all
  verify_all-snoc [] line p h = absurd (ground arith)
  verify_all-snoc (l ∷ lines) line p h = elim (Result-cases (read_first_line platform l)) [
    | inl (q, e) ↦ ground (arith, verify_lines-snoc lines q line)
    | inr (x, e) ↦ absurd (ground arith)
  ]

  pub verify_line-appended :
      (p : Progress) (e : LedgerEvent) (expected sha : String) (line : Bytes)
      → Tracks p
      → check_append (verified p) e expected ≡ ok tt
      → record_line platform (event_members e) ≡ ok (line, sha)
      → loads line ≡ some (entry_of (event_members e) sha)
      → verify_line platform p line ≡ ok (record_event p e sha)
  unfolding verify_line check_append
  verify_line-appended p e expected sha line t c written k =
      let entry = read_entry-line platform (event_members e) line sha written k in
      let chained : e.previous_entry_sha256 ≡ p.latest_entry_sha256 =
        ground
          (arith, eq_law expected p.latest_entry_sha256, eq_law e.previous_entry_sha256 expected) in
      let above_floor : p.genesis.floor_binding.sequence < e.sequence = ground arith in
      let event = read_event-members platform p.genesis.floor_binding.sequence e above_floor in
      let accepted = check_append-accepts p e expected sha t c in
      ground (arith, entry, chained, event, accepted)
