-- ===== src/Updater/Frame/RoundTrip.antt =====
-- What is packed is unpacked again.
use mathlib.Core.Path.{subst, sym}
use neko_family_proxy.Prelude.{
  ◌+◌, ◌-◌, ◌^◌, ◌<◌, ◌≤◌, ◌≡◌, refl, ◌∙◌, true, false, ◌++◌, arith, length, ok, Result-cases, inl,
  inr, list_eq, nat_eq, ==-self, nat_beq, ltb, ◌||◌,
}
use neko_family_proxy.Updater.Frame.Words.{Bytes, zeros, length-zeros, all_zero-zeros}
use neko_family_proxy.Updater.Frame.Layout.{
  pack_prefix-ok, pack_prefix-PrefixOf, PartsOf, frame-PartsOf,
}
use neko_family_proxy.Updater.Frame.{
  pack_prefix, SlotFrame, MarkerFrame, slot_magic, marker_magic, slot_frame_size,
  max_slot_body_size, marker_frame_size, max_marker_body_size, pack_slot_frame, unpack_slot_frame,
  pack_marker_frame, unpack_marker_frame,
}

module _ (sha256 : Bytes → Bytes) (f : SlotFrame) (raw : Bytes) where
  -- What `pack_slot_frame` accepts, and what it writes.
  slot_parts :
      pack_slot_frame sha256 f ≡ ok raw
      → (p : Bytes) × (pack_prefix slot_magic (length f.body_bytes) f.format_version f.revision
          ≡ ok p)
        × (raw
            ≡ p
              ++ (sha256 (p ++ f.body_bytes)
                  ++ (f.body_bytes ++ zeros (1048520 - length f.body_bytes))))
        × (0 < length f.body_bytes)
        × (length f.body_bytes ≤ 1048520)
        × (f.format_version ≡ 1)
        × (1 ≤ f.revision)
  unfolding pack_slot_frame
  slot_parts h =
      elim (Result-cases
        (pack_prefix slot_magic (length f.body_bytes) f.format_version f.revision)) [
          | inl (p, e) ↦
              (p, e, ground arith, ground arith, ground arith, ground arith, ground arith)
          | inr (x, e) ↦ absurd (ground arith)
        ]

  -- A frame that packs is read back exactly, revision, version and body, from the bytes written.
  pub unpack-pack_slot_frame :
      ((m : Bytes) → length (sha256 m) ≡ 32)
      → pack_slot_frame sha256 f ≡ ok raw
      → unpack_slot_frame sha256 raw ≡ ok f
  unfolding unpack_slot_frame
  unpack-pack_slot_frame digest_size h =
      let (p, packed, e, low, high, version, revision) = slot_parts h in
      let b = f.body_bytes in
      let z = zeros (1048520 - length b) in
      let d = sha256 (p ++ b) in
      let pf =
        pack_prefix-PrefixOf slot_magic (length b) f.format_version f.revision p refl packed in
      let q =
        subst (PartsOf p d b z) (sym e) (frame-PartsOf p d b z pf.size (digest_size (p ++ b))) in
      let sized : nat_beq (56 + length b + (1048520 - length b)) slot_frame_size ≡ true =
        ground arith in
      let dated : ltb f.revision 1 ≡ false = ground arith in
      let fits : (nat_beq (length b) 0 || ltb max_slot_body_size (length b)) ≡ false =
        ground arith in
      simp
        (
          q.prefix,
          pf.magic_field,
          pf.body_len_field,
          pf.version_field,
          pf.revision_field,
          q.digest,
          q.body,
          q.padding,
          all_zero-zeros,
          q.size,
          length-zeros,
          ==-self d,
          ==-self slot_magic,
          version,
          sized,
          dated,
          fits,
        )
        (λ i. ok (record f { format_version = sym version i }))

module _ (sha256 : Bytes → Bytes) (f : MarkerFrame) (raw : Bytes) where
  -- What `pack_marker_frame` accepts, and what it writes.
  marker_parts :
      pack_marker_frame sha256 f ≡ ok raw
      → (p : Bytes) × (pack_prefix marker_magic (length f.body_bytes) f.format_version 1 ≡ ok p)
        × (raw
            ≡ p
              ++ (sha256 (p ++ f.body_bytes)
                  ++ (f.body_bytes ++ zeros (16328 - length f.body_bytes))))
        × (0 < length f.body_bytes)
        × (length f.body_bytes ≤ 16328)
        × (f.format_version ≡ 1)
  unfolding pack_marker_frame
  marker_parts h =
      elim (Result-cases (pack_prefix marker_magic (length f.body_bytes) f.format_version 1)) [
        | inl (p, e) ↦ (p, e, ground arith, ground arith, ground arith, ground arith)
        | inr (x, e) ↦ absurd (ground arith)
      ]

  -- A frame that packs is read back exactly, version and body, from the bytes written.
  pub unpack-pack_marker_frame :
      ((m : Bytes) → length (sha256 m) ≡ 32)
      → pack_marker_frame sha256 f ≡ ok raw
      → unpack_marker_frame sha256 raw ≡ ok f
  unfolding unpack_marker_frame
  unpack-pack_marker_frame digest_size h =
      let (p, packed, e, low, high, version) = marker_parts h in
      let b = f.body_bytes in
      let z = zeros (16328 - length b) in
      let d = sha256 (p ++ b) in
      let pf = pack_prefix-PrefixOf marker_magic (length b) f.format_version 1 p refl packed in
      let q =
        subst (PartsOf p d b z) (sym e) (frame-PartsOf p d b z pf.size (digest_size (p ++ b))) in
      let sized : nat_beq (56 + length b + (16328 - length b)) marker_frame_size ≡ true =
        ground arith in
      let fits : (nat_beq (length b) 0 || ltb max_marker_body_size (length b)) ≡ false =
        ground arith in
      simp
        (
          q.prefix,
          pf.magic_field,
          pf.body_len_field,
          pf.version_field,
          pf.revision_field,
          q.digest,
          q.body,
          q.padding,
          all_zero-zeros,
          q.size,
          length-zeros,
          ==-self d,
          ==-self marker_magic,
          version,
          sized,
          fits,
        )
        (λ i. ok (record f { format_version = sym version i }))

-- A frame of version 1 whose body and revision fit their fields always packs, into exactly the size
-- of the slot file.
pub pack_slot_frame-ok :
    (sha256 : Bytes → Bytes) (f : SlotFrame)
    → ((m : Bytes) → length (sha256 m) ≡ 32)
    → 0 < length f.body_bytes
    → length f.body_bytes ≤ max_slot_body_size
    → f.format_version ≡ 1
    → 1 ≤ f.revision
    → f.revision < 2 ^ 64
    → (raw : Bytes) × (pack_slot_frame sha256 f ≡ ok raw) × (length raw ≡ slot_frame_size)
unfolding pack_slot_frame
pack_slot_frame-ok sha256 f digest_size low high version dated small =
    elim (Result-cases (pack_prefix slot_magic (length f.body_bytes) f.format_version f.revision)) [
      | inl (p, e) ↦
          let pf =
            pack_prefix-PrefixOf slot_magic (length f.body_bytes) f.format_version f.revision p refl
              e in
          let b = f.body_bytes in
          let z = zeros (1048520 - length b) in
          let d = sha256 (p ++ b) in
          let q = frame-PartsOf p d b z pf.size (digest_size (p ++ b)) in
          (
            p ++ (d ++ (b ++ z)),
            ground arith,
            q.size ∙ omega (arith, length-zeros (1048520 - length b)),
          )
      | inr (x, e) ↦ absurd (
          cc (
            e,
            pack_prefix-ok slot_magic (length f.body_bytes) f.format_version f.revision
                (omega arith) (omega arith) small,
          ))
    ]
