-- ===== src/Release/Ledger/Session/Tracking.antt =====
-- What the verification loop keeps: its dictionaries are views of the events that it has accepted.
use mathlib.Core.Path.{subst}
use neko_family_proxy.Prelude.{
  ℕ, ◌≡◌, refl, ap, String, true, false, Option, none, some, List, [], ◌∷◌, ◌++◌, arith, ok,
  Bool-cases, Option-cases, inl, inr, ==-self, eq_law, ◌==◌, nat_eq, if◌then◌else◌,
}
use neko_family_proxy.Release.Ledger.{
  LifecycleStatus, reserved, signed, published, failed, retired, status_eq, status_beq_iff,
  LedgerEvent,
}
use neko_family_proxy.Release.Ledger.Lifecycle.{
  allowed, last_of, SignedFields, signed_fields, check_next, check_history, events_of, signed_of,
}
use neko_family_proxy.Release.Ledger.Verify.{
  Progress, history_of, fields_of, sign_event, record_event, accept_event,
}

abbrev pub last_status : List LedgerEvent → Option LifecycleStatus
last_status [] = none
last_status (e ∷ rest) = some ((last_of e rest).status)

pub events_of-snoc :
    (seq : ℕ) (es : List LedgerEvent) (e : LedgerEvent)
    → events_of seq (es ++ (e ∷ []))
      ≡ (if e.sequence == seq then events_of seq es ++ (e ∷ []) else events_of seq es)
unfolding events_of
events_of-snoc seq [] e = refl
events_of-snoc seq (x ∷ es) e = ground (arith, events_of-snoc seq es e)

pub signed_of-snoc :
    (es : List LedgerEvent) (e : LedgerEvent)
    → signed_of es ≡ none
    → signed_of (es ++ (e ∷ [])) ≡ (if e.status == signed then some (signed_fields e) else none)
unfolding signed_of
signed_of-snoc [] e h = refl
signed_of-snoc (x ∷ es) e h = ground (arith, signed_of-snoc es e)

pub signed_of-snoc_some :
    (es : List LedgerEvent) (e : LedgerEvent) (f : SignedFields)
    → signed_of es ≡ some f
    → signed_of (es ++ (e ∷ [])) ≡ some f
unfolding signed_of
signed_of-snoc_some [] e f h = absurd (ground arith)
signed_of-snoc_some (x ∷ es) e f h = ground (arith, signed_of-snoc_some es e f)

pub last_of-snoc :
    (first : LedgerEvent) (es : List LedgerEvent) (e : LedgerEvent)
    → last_of first (es ++ (e ∷ [])) ≡ e
unfolding last_of
last_of-snoc first [] e = refl
last_of-snoc first (x ∷ es) e = last_of-snoc x es e

last_status-snoc :
    (es : List LedgerEvent) (e : LedgerEvent) → last_status (es ++ (e ∷ [])) ≡ some e.status
unfolding last_of
last_status-snoc [] e = refl
last_status-snoc (x ∷ es) e = rw last_of-snoc

-- A first reservation, or an allowed next status.
abbrev pub Follows : Option LifecycleStatus → LifecycleStatus → Type 0
Follows none s = s ≡ reserved
Follows (some last) s = allowed last s ≡ true

-- What the history check admits.
pub check_history-Follows :
    (es : List LedgerEvent) (e : LedgerEvent)
    → check_history es e ≡ ok tt
    → Follows (last_status es) e.status
unfolding check_history check_next
check_history-Follows [] e h = ground (arith, status_beq_iff e.status reserved)
check_history-Follows (x ∷ es) e h = ground arith

-- A sequence that stands at its reservation has no signed event.
abbrev pub IsOpen : List LedgerEvent → Type 0
IsOpen es = last_status es ≡ some reserved → signed_of es ≡ none

before_signed : (a : LifecycleStatus) → allowed a signed ≡ true → a ≡ reserved
unfolding allowed
before_signed a h = ground arith

never_reserved : (a : LifecycleStatus) → allowed a reserved ≡ false
unfolding allowed
never_reserved reserved = refl
never_reserved signed = refl
never_reserved published = refl
never_reserved failed = refl
never_reserved retired = refl

unsigned :
    (es : List LedgerEvent) (e : LedgerEvent)
    → IsOpen es
    → check_history es e ≡ ok tt
    → e.status ≡ signed
    → signed_of es ≡ none
unsigned [] e o h s = unfold signed_of in refl
unsigned (x ∷ es) e o h s =
    let follows : allowed ((last_of x es).status) signed ≡ true =
      rw s at (check_history-Follows (x ∷ es) e h) in
    o (ap some (before_signed _ follows))

first-IsOpen : (e : LedgerEvent) → IsOpen (e ∷ [])
unfolding signed_of last_of
first-IsOpen e last = ground arith

snoc-IsOpen :
    (es : List LedgerEvent) (e : LedgerEvent) → check_history es e ≡ ok tt → IsOpen (es ++ (e ∷ []))
snoc-IsOpen [] e h last = first-IsOpen e last
snoc-IsOpen (x ∷ es) e h last =
    let stands : e.status ≡ reserved = ground (arith, last, last_status-snoc (x ∷ es) e) in
    let follows = rw stands at (check_history-Follows (x ∷ es) e h) in
    absurd (ground (arith, follows, never_reserved ((last_of x es).status)))

-- The dictionaries of the loop, read at any sequence, are views of the accepted events.
pub record Tracks (p : Progress) : Type 0 where
  pub history : (seq : ℕ) → history_of seq p.history ≡ events_of seq p.events
  pub signed_by_seq : (seq : ℕ) → fields_of seq p.signed_by_seq ≡ signed_of (events_of seq p.events)
  pub is_open : (seq : ℕ) → IsOpen (events_of seq p.events)

pub accept_event-parts :
    (p q : Progress) (e : LedgerEvent) (sha : String)
    → accept_event p e sha ≡ ok q
    → (check_history (history_of e.sequence p.history) e ≡ ok tt) × (q ≡ record_event p e sha)
unfolding accept_event
accept_event-parts p q e sha h = (ground arith, ground arith)

pub fields_of-sign :
    (seq : ℕ) (e : LedgerEvent) (fields : List (ℕ × SignedFields))
    → fields_of seq (sign_event e fields) ≡ (
        if e.status == signed
        then (if e.sequence == seq then some (signed_fields e) else fields_of seq fields)
        else fields_of seq fields)
unfolding fields_of sign_event
fields_of-sign seq e fields = ground arith

pub signed_of-next :
    (es : List LedgerEvent) (e : LedgerEvent)
    → IsOpen es
    → check_history es e ≡ ok tt
    → signed_of (es ++ (e ∷ []))
      ≡ (if e.status == signed then some (signed_fields e) else signed_of es)
signed_of-next es e o h = elim (Option-cases (signed_of es)) [
  | inl none_yet ↦ ground (arith, signed_of-snoc es e none_yet)
  | inr (f, found) ↦
      ground
        (arith, signed_of-snoc_some es e f found, unsigned es e o h, status_beq_iff e.status signed)
]

module _ (p : Progress) (t : Tracks p) (e : LedgerEvent) (sha : String)
    (h : check_history (history_of e.sequence p.history) e ≡ ok tt) where
  admitted : check_history (events_of e.sequence p.events) e ≡ ok tt
  admitted = rw (← t.history e.sequence) h

  record_event-history :
      (seq : ℕ)
      → history_of seq ((record_event p e sha).history)
        ≡ events_of seq ((record_event p e sha).events)
  unfolding history_of
  record_event-history seq = ground (
    arith,
    events_of-snoc seq p.events e,
    t.history seq,
    t.history e.sequence,
    eq_law e.sequence seq,
  )

  record_event-signed_self :
      fields_of e.sequence ((record_event p e sha).signed_by_seq)
      ≡ signed_of (events_of e.sequence ((record_event p e sha).events))
  record_event-signed_self = ground (
    arith,
    ==-self e.sequence,
    fields_of-sign e.sequence e p.signed_by_seq,
    ap signed_of (events_of-snoc e.sequence p.events e),
    signed_of-next (events_of e.sequence p.events) e (t.is_open e.sequence) admitted,
    t.signed_by_seq e.sequence,
  )

  record_event-signed :
      (seq : ℕ)
      → fields_of seq ((record_event p e sha).signed_by_seq)
        ≡ signed_of (events_of seq ((record_event p e sha).events))
  record_event-signed seq = elim (Bool-cases (e.sequence == seq)) [
    | inl same ↦
        subst
          (λ s.
            fields_of s ((record_event p e sha).signed_by_seq)
            ≡ signed_of (events_of s ((record_event p e sha).events)))
          ((eq_law e.sequence seq).0 same) record_event-signed_self
    | inr other ↦
        rw (events_of-snoc, other)
          (ground (arith, fields_of-sign seq e p.signed_by_seq, t.signed_by_seq seq))
  ]

  record_event-IsOpen_self : IsOpen (events_of e.sequence ((record_event p e sha).events))
  record_event-IsOpen_self =
      rw (events_of-snoc, ==-self e.sequence)
        (snoc-IsOpen (events_of e.sequence p.events) e admitted)

  record_event-IsOpen : (seq : ℕ) → IsOpen (events_of seq ((record_event p e sha).events))
  record_event-IsOpen seq = elim (Bool-cases (e.sequence == seq)) [
    | inl same ↦
        subst (λ s. IsOpen (events_of s ((record_event p e sha).events)))
          ((eq_law e.sequence seq).0 same) record_event-IsOpen_self
    | inr other ↦ rw (events_of-snoc, other) (t.is_open seq)
  ]

  record_event-Tracks : Tracks (record_event p e sha)
  record_event-Tracks = record {
    history = record_event-history;
    signed_by_seq = record_event-signed;
    is_open = record_event-IsOpen;
  }

pub accept_event-Tracks :
    (p q : Progress) (e : LedgerEvent) (sha : String)
    → Tracks p
    → accept_event p e sha ≡ ok q
    → Tracks q
accept_event-Tracks p q e sha t h =
    let (checked, made) = accept_event-parts p q e sha h in
    rw made (record_event-Tracks p t e sha checked)
