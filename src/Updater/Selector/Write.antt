-- ===== src/Updater/Selector/Write.antt =====
-- A write to the inactive slot is atomic: before it is complete the selector returns the old state,
-- and after it the new one.
use neko_family_proxy.Prelude.{
  ◌+◌, ◌^◌, ◌<◌, ◌≤◌, length, String, ◌≡◌, refl, true, Option, none, some, Result, ok, err,
  frame_corrupt, ==-self, nat_eq,
}
use neko_family_proxy.Updater.Models.{State}
use neko_family_proxy.Updater.Models.Valid.{IsValid}
use neko_family_proxy.Updater.Frame.Words.{Bytes}
use neko_family_proxy.Updater.Frame.{
  SlotFrame, max_slot_body_size, slot_frame_size, pack_slot_frame, unpack_slot_frame,
}
use neko_family_proxy.Updater.Frame.RoundTrip.{pack_slot_frame-ok, unpack-pack_slot_frame}
use neko_family_proxy.Updater.Platform.{Platform}
use neko_family_proxy.Updater.Transition.{validate_transition}
use neko_family_proxy.Updater.Selector.{
  SlotName, slot_a, slot_b, SelectionResult, select, SlotClass, missing, torn, sound,
  authenticate_evidence, classify_state, classify_frame, classify_slot, select_classes,
  select_active_slot,
}
use neko_family_proxy.Updater.Selector.Chosen.{
  Chosen, lone_a, lone_b, newer_a, newer_b, select_classes-iff-Chosen,
}

-- `SlotFrame(revision=state.revision, format_version=1, body_bytes=serialize_state(state))`
abbrev pub frame_of : Platform → State → SlotFrame
frame_of platform s = record {
  revision = s.revision;
  format_version = 1;
  body_bytes = platform.serialize_state s;
}

-- A state whose text form fits a slot and is read back as the same state.
pub record IsEncodable (platform : Platform) (s : State) : Type 0 where
  pub reads : platform.deserialize_state (platform.serialize_state s) ≡ ok s
  pub nonempty : 0 < length (platform.serialize_state s)
  pub fits : length (platform.serialize_state s) ≤ max_slot_body_size
  pub word : s.revision < 2 ^ 64

-- A state that can stand in a slot: well-formed, authentic and encodable.
pub record IsStorable (platform : Platform) (s : State) : Type 0 where
  pub valid : IsValid s
  pub authentic : authenticate_evidence platform s ≡ true
  pub encodable : IsEncodable platform s

-- The bytes of a slot into which the state was written whole.
pub record Holds (platform : Platform) (s : State) (raw : Bytes) : Type 0 where
  pub storable : IsStorable platform s
  pub packed : pack_slot_frame platform.sha256 (frame_of platform s) ≡ ok raw

abbrev pub other_slot : SlotName → SlotName
other_slot slot_a = slot_b
other_slot slot_b = slot_a

module _ (platform : Platform) where
  open platform use {sha256, digest_size, serialize_state, deserialize_state}

  -- The selection where the named slot holds the first bytes and the other slot the second.
  abbrev pub select_at : SlotName → Option Bytes → Option Bytes → Result SelectionResult
  select_at slot_a mine other = select_active_slot platform mine other
  select_at slot_b mine other = select_active_slot platform other mine

  pub classify-Holds :
      (s : State) (raw : Bytes)
      → Holds platform s raw
      → classify_slot platform (some raw) ≡ ok (sound s s.revision)
  unfolding classify_slot classify_frame classify_state
  classify-Holds s raw h = simp (
    unpack-pack_slot_frame sha256 (frame_of platform s) raw digest_size h.packed,
    h.storable.encodable.reads,
    ==-self s.revision,
  )

  classify-missing : classify_slot platform none ≡ ok missing
  unfolding classify_slot
  classify-missing = refl

  classify-torn :
      (raw : Bytes) (m : String)
      → unpack_slot_frame sha256 raw ≡ err (frame_corrupt m)
      → classify_slot platform (some raw) ≡ ok torn
  unfolding classify_slot classify_frame
  classify-torn raw m h = simp h

  chosen :
      (a b : SlotClass) (u : State) (x : SlotName)
      → Chosen platform a b x u
      → select_classes platform a b ≡ select u x
  chosen a b u x = (select_classes-iff-Chosen platform a b u x).1

  -- While the other slot is absent, or holds bytes that are no frame, as a write that was cut short
  -- leaves them, the state of the slot that was written whole is selected.
  pub select_at-torn :
      (x : SlotName) (s : State) (mine : Bytes) (other : Option Bytes)
      → Holds platform s mine
      → ((raw : Bytes)
          → other ≡ some raw
          → (m : String) × (unpack_slot_frame sha256 raw ≡ err (frame_corrupt m)))
      → select_at x (some mine) other ≡ ok (select s x)
  unfolding select_active_slot
  select_at-torn slot_a s mine none h t = simp (
    classify-Holds s mine h,
    classify-missing,
    chosen (sound s s.revision) missing s slot_a (lone_a refl refl h.storable.authentic),
  )
  select_at-torn slot_a s mine (some raw) h t =
      let (m, e) = t raw refl in
      simp (
        classify-Holds s mine h,
        classify-torn raw m e,
        chosen (sound s s.revision) torn s slot_a (lone_a refl refl h.storable.authentic),
      )
  select_at-torn slot_b s mine none h t = simp (
    classify-Holds s mine h,
    classify-missing,
    chosen missing (sound s s.revision) s slot_b (lone_b refl refl h.storable.authentic),
  )
  select_at-torn slot_b s mine (some raw) h t =
      let (m, e) = t raw refl in
      simp (
        classify-Holds s mine h,
        classify-torn raw m e,
        chosen torn (sound s s.revision) s slot_b (lone_b refl refl h.storable.authentic),
      )

  -- Once the other slot holds a legal direct successor, that successor is selected, and the slots
  -- have changed their roles.
  pub select_at-written :
      (x : SlotName) (s n : State) (mine other : Bytes)
      → Holds platform s mine
      → Holds platform n other
      → n.revision ≡ s.revision + 1
      → validate_transition s n ≡ ok tt
      → select_at x (some mine) (some other) ≡ ok (select n (other_slot x))
  unfolding select_active_slot
  select_at-written slot_a s n mine other h k r v = simp (
    classify-Holds s mine h,
    classify-Holds n other k,
    chosen (sound s s.revision) (sound n n.revision) n slot_b
        (newer_b refl refl r h.storable.authentic k.storable.authentic v),
  )
  select_at-written slot_b s n mine other h k r v = simp (
    classify-Holds s mine h,
    classify-Holds n other k,
    chosen (sound n n.revision) (sound s s.revision) n slot_a
        (newer_a refl refl r k.storable.authentic h.storable.authentic v),
  )

  -- A storable state can be written: its frame packs into the size of the slot file.
  pub Holds-of_IsStorable :
      (s : State)
      → IsStorable platform s
      → 1 ≤ s.revision
      → (raw : Bytes) × Holds platform s raw × (length raw ≡ slot_frame_size)
  Holds-of_IsStorable s h positive =
      let (raw, packed, size) =
        pack_slot_frame-ok sha256 (frame_of platform s) digest_size h.encodable.nonempty
          h.encodable.fits refl positive h.encodable.word in
      (raw, record { storable = h; packed = packed }, size)
