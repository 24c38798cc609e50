-- ===== src/Release/Ledger/Session/Records.antt =====
-- What a session writes is read back: the dictionary of an event, and the line of a record.
use neko_family_proxy.Prelude.{
  ℕ, ◌<◌, ◌≡◌, refl, ap, ◌∙◌, String, some, ◌++◌, [], ◌∷◌, ◌≢◌, arith, ok, inl, inr, Result-cases,
  ==-self, string_eq, eq_law, list_eq, nat_eq,
}
use neko_family_proxy.Updater.Frame.Words.{Bytes}
use neko_family_proxy.Updater.Json.{
  text, object, Members, get, joined, encode, encode_members, utf8, utf8_char, canonical_json_dumps,
}
use neko_family_proxy.Updater.Json.Equal.{json_eq, json_beq}
use neko_family_proxy.Updater.Json.Canonical.{canonical_json_loads-dumps}
use neko_family_proxy.Release.Ledger.{
  LifecycleStatus, reserved, signed, published, failed, retired, Genesis, LedgerEvent,
  genesis_members, event_members, entry_of, status_text,
}
use neko_family_proxy.Release.Ledger.Verify.{
  LedgerPlatform, status_of, required, optional, above, int_of, str_of, str_at, timestamp_of,
  read_event, read_genesis, read_floor, read_entry, unwrap_document, unwrap,
}
use neko_family_proxy.Release.Ledger.Session.{record_line}

status_of-text : (s : LifecycleStatus) → status_of (some (text (status_text s))) ≡ ok s
unfolding status_of
status_of-text reserved = refl
status_of-text signed = refl
status_of-text published = refl
status_of-text failed = refl
status_of-text retired = refl

dumped-ne-nil : (ms : Members) → canonical_json_dumps (object ms) ≢ ok []
unfolding canonical_json_dumps encode utf8 utf8_char
dumped-ne-nil ms h = elim (Result-cases (encode_members ms)) [
  | inl (rows, e) ↦ elim (Result-cases (utf8 (joined rows [] ++ (b'}' ∷ [])))) [
    | inl (rest, e') ↦ ground arith
    | inr (x, e') ↦ ground arith
  ]
  | inr (x, e) ↦ ground arith
]

module _ (platform : LedgerPlatform) where
  open platform use {loads}

  pub read_event-members :
      (floor : ℕ) (e : LedgerEvent)
      → floor < e.sequence
      → read_event platform floor e.previous_entry_sha256 (event_members e) ≡ ok e
  unfolding read_event event_members required optional get above int_of str_of str_at timestamp_of
      json_beq
  read_event-members floor e h =
      ground (arith, ==-self e.previous_entry_sha256, status_of-text e.status)

  pub read_genesis-members :
      (g : Genesis)
      → 0 < g.floor_binding.sequence
      → read_genesis platform (genesis_members g) ≡ ok g
  unfolding read_genesis read_floor genesis_members required optional get above int_of str_of str_at
      timestamp_of json_beq
  read_genesis-members g h = ground arith

  pub record_line-parts :
      (body : Members) (line : Bytes) (sha : String)
      → record_line platform body ≡ ok (line, sha)
      → (raw : Bytes) × (canonical_json_dumps (object body) ≡ ok raw)
        × (platform.sha256_hex raw ≡ sha)
        × (canonical_json_dumps (entry_of body sha) ≡ ok line)
  unfolding record_line
  record_line-parts body line sha h = elim (Result-cases (canonical_json_dumps (object body))) [
    | inr (x, e) ↦ absurd (ground arith)
    | inl (raw, e) ↦
        elim (Result-cases (canonical_json_dumps (entry_of body (platform.sha256_hex raw)))) [
          | inr (x, d) ↦ absurd (ground arith)
          | inl (l, d) ↦
              let digest : platform.sha256_hex raw ≡ sha = ground arith in
              let written : l ≡ line = ground arith in
              (raw, e, digest, rw (← digest) (d ∙ ap ok written))
        ]
  ]

  -- The parser finds the record that was printed in its line.
  pub read_entry-line :
      (body : Members) (line : Bytes) (sha : String)
      → record_line platform body ≡ ok (line, sha)
      → loads line ≡ some (entry_of body sha)
      → read_entry platform line ≡ ok (body, sha)
  unfolding record_line read_entry unwrap_document unwrap get
  read_entry-line body line sha h k =
      let (raw, e, digest, dumped) = record_line-parts body line sha h in
      let loaded = canonical_json_loads-dumps loads line (entry_of body sha) dumped k in
      let here : line ≢ [] = λ z. dumped-ne-nil _ (dumped ∙ ap ok z) in
      ground (arith, here, eq_law line [], loaded, dumped, ==-self line, e, digest, ==-self sha)
