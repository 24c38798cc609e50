-- ===== src/Release/Ledger/Supersession/Effect.antt =====
-- What a supersession does to the ledger.
use neko_family_proxy.Prelude.{
  ℕ, ◌<◌, ◌≡◌, refl, ◌∙◌, sym, ap, String, Bool, true, false, Option, some, List, [], ◌∷◌, arith,
  ok, Result-cases, inl, inr, ==-self, nat_eq, string_eq, if◌then◌else◌,
}
use neko_family_proxy.Updater.Frame.Words.{Bytes}
use neko_family_proxy.Updater.Json.{object, canonical_json_dumps}
use neko_family_proxy.Release.Ledger.{
  LifecycleStatus, reserved, signed, failed, LedgerEvent, VerifiedLedger, event_members, entry_of,
  extended,
}
use neko_family_proxy.Release.Ledger.Lifecycle.{events_of}
use neko_family_proxy.Release.Ledger.Verify.{LedgerPlatform}
use neko_family_proxy.Release.Ledger.Lines.{ends_line}
use neko_family_proxy.Release.Ledger.Session.{Session, content, record_line, read_verified, append}
use neko_family_proxy.Release.Ledger.Session.Records.{record_line-parts}
use neko_family_proxy.Release.Ledger.Session.Tracking.{last_status, events_of-snoc}
use neko_family_proxy.Release.Ledger.Session.RoundTrip.{
  append-parts, append-read_verified, read_verified-parts,
}
use neko_family_proxy.Release.Ledger.Histories.{
  IsTrace, unused, held, given_up, sealed, withdrawn, live, ended, statuses,
}
use neko_family_proxy.Release.Ledger.Histories.Extend.{last_step, last_step-statuses, statuses-snoc}
use neko_family_proxy.Release.Ledger.Histories.Verified.{verify_ledger-IsLife}
use neko_family_proxy.Release.Ledger.Reconcile.{HistorySnapshot, reconcile}
use neko_family_proxy.Release.Ledger.Supersession.{
  SupersedeRequest, PreparedSupersession, check_latest, find_signed, failed_event, current_ledger,
  plan_failure, commit_failure, prepare_signed_release_supersession,
}

signed_last :
    (ss : List LifecycleStatus)
    → IsTrace ss
    → last_step ss ≡ some signed
    → ss ≡ reserved ∷ signed ∷ []
signed_last _ unused l = absurd (ground arith)
signed_last _ held l = absurd (ground arith)
signed_last _ given_up l = absurd (ground arith)
signed_last _ sealed l = refl
signed_last _ withdrawn l = absurd (ground arith)
signed_last _ live l = absurd (ground arith)
signed_last _ ended l = absurd (ground arith)

check_latest-signed : (s : LifecycleStatus) → check_latest s ≡ ok tt → s ≡ signed
unfolding check_latest
check_latest-signed s h = ground arith

find_signed-last :
    (es : List LedgerEvent) (e : LedgerEvent) → find_signed es ≡ ok e → last_status es ≡ some signed
unfolding find_signed
find_signed-last [] e h = absurd (ground arith)
find_signed-last (x ∷ es) e h = ap some (check_latest-signed _ (ground arith))

module _ (platform : LedgerPlatform) where
  open platform use {loads, sha256_hex}

  plan_failure-parts :
      (ledger : VerifiedLedger) (r : SupersedeRequest) (snapshot : HistorySnapshot) (mutate : Bool)
      (timestamp : String) (plan : PreparedSupersession)
      → plan_failure platform ledger r snapshot mutate timestamp ≡ ok plan
      → (e : LedgerEvent) × (find_signed (events_of r.sequence ledger.events) ≡ ok e)
        × (plan.event ≡ failed_event r.sequence e timestamp ledger.latest_entry_sha256)
        × ((raw : Bytes)
            → canonical_json_dumps (object (event_members plan.event)) ≡ ok raw
            → sha256_hex raw ≡ plan.proposed_entry_sha256)
        × (r.sequence < plan.next_unused_sequence)
  unfolding plan_failure
  plan_failure-parts ledger r snapshot mutate timestamp plan h =
      elim (Result-cases (find_signed (events_of r.sequence ledger.events))) [
        | inr (x, c) ↦ absurd (ground arith)
        | inl (e, c) ↦
            let event = failed_event r.sequence e timestamp ledger.latest_entry_sha256 in
            elim (Result-cases (canonical_json_dumps (object (event_members event)))) [
              | inr (x, d) ↦ absurd (ground arith)
              | inl (body, d) ↦
                  elim (Result-cases
                    (reconcile (extended ledger event (sha256_hex body)) snapshot)) [
                      | inr (x, k) ↦ absurd (ground arith)
                      | inl (a, k) ↦
                          let same : plan.event ≡ event = ground arith in
                          let given : plan.proposed_entry_sha256 ≡ sha256_hex body = ground arith in
                          let dumped : canonical_json_dumps (object (event_members plan.event))
                              ≡ ok body =
                            rw same d in
                          (
                            e,
                            c,
                            same,
                            λ raw w.
                                let same_body : raw ≡ body = ground (arith, w, dumped) in
                                rw same_body (sym given),
                            ground arith,
                          )
                    ]
            ]
      ]

  plan_failure-dry :
      (ledger : VerifiedLedger) (r : SupersedeRequest) (snapshot : HistorySnapshot)
      (timestamp : String) (plan : PreparedSupersession)
      → plan_failure platform ledger r snapshot true timestamp ≡ ok plan
      → plan_failure platform ledger r snapshot false timestamp
        ≡ ok (record plan { mutated = false })
  unfolding plan_failure
  plan_failure-dry ledger r snapshot timestamp plan h =
      elim (Result-cases (find_signed (events_of r.sequence ledger.events))) [
        | inr (x, c) ↦ absurd (ground arith)
        | inl (e, c) ↦
            let event = failed_event r.sequence e timestamp ledger.latest_entry_sha256 in
            elim (Result-cases (canonical_json_dumps (object (event_members event)))) [
              | inr (x, d) ↦ absurd (ground arith)
              | inl (body, d) ↦
                  elim (Result-cases
                    (reconcile (extended ledger event (sha256_hex body)) snapshot)) [
                      | inr (x, k) ↦ absurd (ground arith)
                      | inl (a, k) ↦ ground arith
                    ]
            ]
      ]

  commit_failure-parts :
      (session : Session) (e : LedgerEvent) (head : String) (after : Option Session)
      → commit_failure platform (some session) e head ≡ ok after
      → (sha : String) × (session' : Session) × (append platform session e head
          ≡ ok (sha, session'))
        × (after ≡ some session')
  unfolding commit_failure
  commit_failure-parts session e head after h =
      elim (Result-cases (append platform session e head)) [
        | inr (x, k) ↦ absurd (ground arith)
        | inl ((sha, session'), k) ↦ (sha, session', k, ground arith)
      ]

  prepare-parts :
      (r : SupersedeRequest) (session : Session) (given : Option VerifiedLedger)
      (snapshot : HistorySnapshot) (mutate : Bool) (timestamp : String)
      (plan : PreparedSupersession) (after : Option Session)
      → prepare_signed_release_supersession platform r
          (some session)
          given
          snapshot
          mutate
          timestamp
        ≡ ok (plan, after)
      → (ledger : VerifiedLedger) × (read_verified platform session ≡ ok ledger)
        × (plan_failure platform ledger r snapshot mutate timestamp ≡ ok plan)
        × ((if mutate
              then commit_failure platform (some session) plan.event ledger.latest_entry_sha256
              else ok (some session))
            ≡ ok after)
  unfolding prepare_signed_release_supersession current_ledger
  prepare-parts r session given snapshot mutate timestamp plan after h =
      elim (Result-cases (read_verified platform session)) [
        | inr (x, v) ↦ absurd (ground arith)
        | inl (ledger, v) ↦
            elim (Result-cases (plan_failure platform ledger r snapshot mutate timestamp)) [
              | inr (x, c) ↦ absurd (ground arith)
              | inl (made, c) ↦
                  elim (Result-cases (
                    if mutate
                    then commit_failure platform (some session) made.event
                        ledger.latest_entry_sha256
                    else ok (some session))) [
                      | inr (x, k) ↦ absurd (ground arith)
                      | inl (then_on, k) ↦
                          let same : made ≡ plan = ground arith in
                          let ends : then_on ≡ after = ground arith in
                          (ledger, v, c ∙ ap ok same, rw (← same) (k ∙ ap ok ends))
                    ]
            ]
      ]

  -- The sequence goes from signed to withdrawn.
  withdrawn-statuses :
      (session : Session) (ledger : VerifiedLedger) (seq : ℕ) (e event : LedgerEvent) (sha : String)
      → read_verified platform session ≡ ok ledger
      → find_signed (events_of seq ledger.events) ≡ ok e
      → event.sequence ≡ seq
      → event.status ≡ failed
      → statuses (events_of seq ((extended ledger event sha).events))
        ≡ reserved ∷ signed ∷ failed ∷ []
  withdrawn-statuses session ledger seq e event sha v c s f =
      let (locked, verified) = read_verified-parts platform session ledger v in
      let es = events_of seq ledger.events in
      let life = verify_ledger-IsLife platform session.file ledger verified seq in
      let before =
        signed_last (statuses es) life.trace (last_step-statuses es ∙ find_signed-last es e c) in
      rw (events_of-snoc, s, ==-self seq, statuses-snoc, before, f) refl

  -- A supersession that writes ends a signed release: if the file is empty or ends with a line feed
  -- and the parser finds the record in the line that is written, the ledger reads back with exactly
  -- one event more, the FAILED event that was prepared, and the digest that was proposed as its
  -- head; the history of the sequence is RESERVED, SIGNED, FAILED; and the next unused sequence is
  -- above it.
  pub supersession-extends :
      (r : SupersedeRequest) (session : Session) (given : Option VerifiedLedger)
      (snapshot : HistorySnapshot) (timestamp : String) (plan : PreparedSupersession)
      (after : Option Session)
      → ends_line (content session.file) ≡ true
      → ((line : Bytes)
          → record_line platform (event_members plan.event) ≡ ok (line, plan.proposed_entry_sha256)
          → loads line ≡ some (entry_of (event_members plan.event) plan.proposed_entry_sha256))
      → prepare_signed_release_supersession platform r (some session) given snapshot true timestamp
        ≡ ok (plan, after)
      → (ledger : VerifiedLedger) × (session' : Session) × (after ≡ some session')
        × (read_verified platform session ≡ ok ledger)
        × (read_verified platform session'
            ≡ ok (extended ledger plan.event plan.proposed_entry_sha256))
        × (statuses (
              events_of r.sequence ((extended ledger plan.event plan.proposed_entry_sha256).events))
            ≡ reserved ∷ signed ∷ failed ∷ [])
        × (r.sequence < plan.next_unused_sequence)
  unfolding failed_event
  supersession-extends r session given snapshot timestamp plan after ends reads h =
      let (ledger, v, planned, written) =
        prepare-parts r session given snapshot true timestamp plan after h in
      let (e, c, event, digest, above) =
        plan_failure-parts ledger r snapshot true timestamp plan planned in
      let (sha, session', k, became) = commit_failure-parts session plan.event _ after written in
      let (ledger', line, v', checked, w, made) =
        append-parts platform session session' plan.event _ sha k in
      let (raw, dumped, hashed, entry) = record_line-parts platform _ line sha w in
      let proposed : sha ≡ plan.proposed_entry_sha256 = sym hashed ∙ digest raw dumped in
      let (ledger'', v'', final, terminated) =
        append-read_verified platform session session' plan.event _ plan.proposed_entry_sha256 ends
          reads (k ∙ ap (λ d. ok (d, session')) proposed) in
      let same : ledger'' ≡ ledger = ground (arith, v, v'') in
      (
        ledger,
        session',
        became,
        v,
        rw same at final,
        withdrawn-statuses session ledger r.sequence e plan.event plan.proposed_entry_sha256 v c
            (ap (λ x. x.sequence) event) (ap (λ x. x.status) event),
        above,
      )

  -- A dry run foretells the write: if a supersession that writes succeeds, the one that does not
  -- write prepares the same, except for the flag, and leaves the session as it was.
  pub supersession-dry_run :
      (r : SupersedeRequest) (session : Session) (given : Option VerifiedLedger)
      (snapshot : HistorySnapshot) (timestamp : String) (plan : PreparedSupersession)
      (after : Option Session)
      → prepare_signed_release_supersession platform r (some session) given snapshot true timestamp
        ≡ ok (plan, after)
      → prepare_signed_release_supersession platform r (some session) given snapshot false timestamp
        ≡ ok (record plan { mutated = false }, some session)
  unfolding prepare_signed_release_supersession current_ledger
  supersession-dry_run r session given snapshot timestamp plan after h =
      let (ledger, v, planned, written) =
        prepare-parts r session given snapshot true timestamp plan after h in
      ground (arith, v, plan_failure-dry ledger r snapshot timestamp plan planned)
