-- ===== src/Release/Ledger/Verify.antt =====
-- `verify_ledger`. The loop keeps the events of each sequence and the fields that were signed for it.
use neko_family_proxy.Prelude.{
  ℕ, String, Option, none, some, List, [], ◌∷◌, ◌++◌, leb, Result, ok, err, authority_error,
  other_error, raise_if, ◌>>=◌, ◌>>◌, ◌==◌, ◌!=◌, string_eq, nat_eq, list_eq, option_eq,
  if◌then◌else◌,
}
use neko_family_proxy.Updater.Frame.Words.{Bytes}
use neko_family_proxy.Release.Ledger.Lines.{splitlines}
use neko_family_proxy.Updater.Json.{
  Json, null, boolean, number, negative, text, array, object, Members, get, canonical_json_dumps,
  canonical_json_loads,
}
use neko_family_proxy.Updater.Json.Equal.{json_eq}
use neko_family_proxy.Release.Ledger.{
  LifecycleStatus, reserved, signed, published, failed, retired, status_eq, ProductionBinding,
  Genesis, LedgerEvent, VerifiedLedger,
}
use neko_family_proxy.Release.Ledger.Lifecycle.{
  SignedFields, signed_fields, check_history, check_signed_fields, check_unchanged,
}

pub data Integer : Type 0 where
  pos : ℕ → Integer
  negsuc : ℕ → Integer

-- What the script takes from outside of it.
pub record LedgerPlatform : Type 0 where
  pub loads : Bytes → Option Json
  -- `hashlib.sha256(...).hexdigest()`
  pub sha256_hex : Bytes → String
  -- `int(s)` of a text; `none` is a `ValueError`
  pub int_of_text : String → Option Integer
  -- `str(v)` of a value that is no text
  pub str_of_value : Json → String

-- `events_by_seq` and `signed_fields_by_seq`: the newest entry of a key stands first
unfoldable pub history_of : ℕ → List (ℕ × List LedgerEvent) → List LedgerEvent
history_of seq [] = []
history_of seq ((key, events) ∷ rest) =
    let others = history_of seq rest in if key == seq then events else others

unfoldable pub fields_of : ℕ → List (ℕ × SignedFields) → Option SignedFields
fields_of seq [] = none
fields_of seq ((key, fields) ∷ rest) =
    let others = fields_of seq rest in if key == seq then some fields else others

pub record Progress : Type 0 where
  pub genesis : Genesis
  pub events : List LedgerEvent
  pub latest_entry_sha256 : String
  pub history : List (ℕ × List LedgerEvent)
  pub signed_by_seq : List (ℕ × SignedFields)

unfoldable pub sign_event : LedgerEvent → List (ℕ × SignedFields) → List (ℕ × SignedFields)
sign_event event fields =
    if event.status == signed then (event.sequence, signed_fields event) ∷ fields else fields

-- the writes of a round
abbrev pub record_event : Progress → LedgerEvent → String → Progress
record_event p event sha = record {
  genesis = p.genesis;
  events = p.events ++ (event ∷ []);
  latest_entry_sha256 = sha;
  history = (event.sequence, history_of event.sequence p.history ++ (event ∷ [])) ∷ p.history;
  signed_by_seq = sign_event event p.signed_by_seq;
}

-- the lifecycle checks of a round, and its writes
unfoldable pub accept_event : Progress → LedgerEvent → String → Result Progress
accept_event p event sha = do
  check_history (history_of event.sequence p.history) event
  check_signed_fields event
  check_unchanged (fields_of event.sequence (sign_event event p.signed_by_seq)) event
  ok (record_event p event sha)

-- `status not in _VALID_LIFECYCLE_STATUSES`; a list or a dictionary cannot be looked up in a set
unfoldable pub status_of : Option Json → Result LifecycleStatus
status_of (some (text s)) =
    if s == "RESERVED"
    then ok reserved
    else if s == "SIGNED"
    then ok signed
    else if s == "PUBLISHED"
    then ok published
    else if s == "FAILED"
    then ok failed
    else if s == "RETIRED"
    then ok retired
    else err (authority_error "unknown lifecycle status")
status_of (some (array xs)) = err (other_error "unhashable type")
status_of (some (object ms)) = err (other_error "unhashable type")
status_of _ = err (authority_error "unknown lifecycle status")

-- `d[k]`
unfoldable pub required : String → Members → Result Json
required k ms = elim (get k ms) [ some v ↦ ok v | none ↦ err (other_error "KeyError") ]

-- `d.get(k)`
unfoldable pub optional : String → Members → Json
optional k ms = elim (get k ms) [ some v ↦ v | none ↦ null ]

-- the number above the floor, or the error
unfoldable pub above : ℕ → Integer → Result ℕ
above floor (pos n) =
    if leb n floor then err (authority_error "must be greater than the floor sequence") else ok n
above floor (negsuc n) = err (authority_error "must be greater than the floor sequence")

abbrev pub verified : Progress → VerifiedLedger
verified p = record {
  genesis = p.genesis;
  events = p.events;
  latest_entry_sha256 = p.latest_entry_sha256;
}

module _ (platform : LedgerPlatform) where
  open platform use {loads, sha256_hex, int_of_text, str_of_value}

  -- `int(v)`; a float is refused by the reader
  unfoldable pub int_of : Json → Result Integer
  int_of (boolean b) = ok (pos (if b then 1 else 0))
  int_of (number n) = ok (pos n)
  int_of (negative n) = ok (negsuc n)
  int_of (text s) = elim (int_of_text s) [
    | some n ↦ ok n
    | none ↦ err (other_error "invalid literal for int()")
  ]
  int_of _ = err (other_error "int() argument")

  -- `str(v)`
  unfoldable pub str_of : Json → String
  str_of (text s) = s
  str_of v = str_of_value v

  -- `str(body.get("timestamp", ""))`
  unfoldable pub timestamp_of : Members → String
  timestamp_of body = elim (get "timestamp" body) [ some v ↦ str_of v | none ↦ "" ]

  unfoldable pub str_at : String → Members → Result String
  str_at k ms = do v ← required k ms; ok (str_of v)

  -- the wrapper of a record: its body and its digest
  unfoldable pub unwrap : Option Json → Option Json → Result (Members × String)
  unwrap (some (object body)) (some (text sha)) = do
    body_bytes ← canonical_json_dumps (object body)
    raise_if (sha != sha256_hex body_bytes) (authority_error "entry_sha256 digest mismatch")
    ok (body, sha)
  unwrap (some body) (some sha) = err (authority_error "invalid body/entry_sha256 structure")
  unwrap _ _ = err (authority_error "missing 'body' or 'entry_sha256' wrapper")

  unfoldable pub unwrap_document : Bytes → Json → Result (Members × String)
  unwrap_document line doc = do
    written ← canonical_json_dumps doc
    raise_if (written != line) (authority_error "formatting drift from strict canonical JSON")
    elim doc [
      | object ms ↦ unwrap (get "body" ms) (get "entry_sha256" ms)
      | _ ↦ err (authority_error "missing 'body' or 'entry_sha256' wrapper")
    ]

  unfoldable pub read_entry : Bytes → Result (Members × String)
  read_entry line =
      if line == []
      then err (authority_error "Empty line encountered")
      else elim (canonical_json_loads loads line) [
        | ok doc ↦ unwrap_document line doc
        | err e ↦ err (authority_error "not valid canonical UTF-8 JSON")
      ]

  unfoldable pub read_floor : Option Json → Result ProductionBinding
  read_floor (some (object ms)) = do
    sequence ← (do v ← required "sequence" ms; int_of v)
    release_id ← str_at "release_id" ms
    payload ← str_at "payload_sha256" ms
    envelope ← str_at "envelope_sha256" ms
    key ← str_at "key_id" ms
    floor ← above 0 sequence
    ok (record {
      sequence = floor;
      release_id = release_id;
      payload_sha256 = payload;
      envelope_sha256 = envelope;
      key_id = key;
    })
  read_floor _ = err (authority_error "Genesis record missing floor_binding dict")

  unfoldable pub read_genesis : Members → Result Genesis
  read_genesis body = do
    raise_if (optional "record_type" body != text "GENESIS")
        (authority_error "First record in ledger must be GENESIS")
    raise_if (optional "previous_entry_sha256" body != null)
        (authority_error "Genesis record must have previous_entry_sha256=None")
    floor ← read_floor (get "floor_binding" body)
    ok (record {
      floor_binding = floor;
      floor_provenance_source_commit = optional "floor_provenance_source_commit" body;
      timestamp = timestamp_of body;
    })

  unfoldable pub read_event : ℕ → String → Members → Result LedgerEvent
  read_event floor latest body = do
    raise_if (optional "record_type" body != text "EVENT")
        (authority_error "Subsequent ledger record must be EVENT")
    raise_if (optional "previous_entry_sha256" body != text latest)
        (authority_error "previous_entry_sha256 chain broken")
    number_read ← (do v ← required "sequence" body; int_of v)
    seq ← above floor number_read
    status ← status_of (get "status" body)
    release_id ← str_at "release_id" body
    version ← str_at "version" body
    channel ← str_at "channel" body
    source_commit ← str_at "source_commit" body
    component_set ← str_at "component_set_sha256" body
    ok (record {
      sequence = seq;
      release_id = release_id;
      status = status;
      version = version;
      channel = channel;
      source_commit = source_commit;
      component_set_sha256 = component_set;
      payload_sha256 = optional "payload_sha256" body;
      envelope_sha256 = optional "envelope_sha256" body;
      key_id = optional "key_id" body;
      timestamp = timestamp_of body;
      previous_entry_sha256 = latest;
    })

  -- a round of the loop after the first line
  unfoldable pub verify_line : Progress → Bytes → Result Progress
  verify_line p line = do
    entry ← read_entry line
    event ← read_event p.genesis.floor_binding.sequence p.latest_entry_sha256 entry.0
    accept_event p event entry.1

  unfoldable pub verify_lines : Progress → List Bytes → Result Progress
  verify_lines p [] = ok p
  verify_lines p (line ∷ rest) = do q ← verify_line p line; verify_lines q rest

  unfoldable pub read_first_line : Bytes → Result Progress
  read_first_line line = do
    entry ← read_entry line
    genesis ← read_genesis entry.0
    ok (record {
      genesis = genesis;
      events = [];
      latest_entry_sha256 = entry.1;
      history = [];
      signed_by_seq = [];
    })

  unfoldable pub verify_all : List Bytes → Result Progress
  verify_all [] = err (authority_error "Sequence ledger contains no lines")
  verify_all (line ∷ rest) = do p ← read_first_line line; verify_lines p rest

  -- `none`: there is no ledger file
  unfoldable pub verify_ledger : Option Bytes → Result VerifiedLedger
  verify_ledger none = err (authority_error "Sequence ledger file not found")
  verify_ledger (some []) = err (authority_error "Sequence ledger file is empty")
  verify_ledger (some (b ∷ rest)) = do p ← verify_all (splitlines (b ∷ rest)); ok (verified p)
