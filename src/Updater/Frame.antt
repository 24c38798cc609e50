-- ===== src/Updater/Frame.antt =====
-- launcher/src/neko_launcher/updater/binary_frame.py. SHA-256 is a parameter.
pub mod Words
pub mod Layout
pub mod RoundTrip
use neko_family_proxy.Prelude.{
  ℕ, ◌+◌, ◌-◌, ◌^◌, String, Bool, not, ◌||◌, List, [], ◌∷◌, ◌++◌, ltb, leb, length, take, drop,
  Result, ok, value_error, frame_corrupt, struct_error, raise_if, ◌>>=◌, ◌>>◌, ◌==◌, ◌!=◌, nat_eq,
  list_eq,
}
use Words.{Bytes, to_le, from_le, zeros, all_zero}

abbrev pub slot_frame_size : ℕ
slot_frame_size = 1048576

abbrev pub marker_frame_size : ℕ
marker_frame_size = 16384

-- b"NEKOUPD1"
abbrev pub slot_magic : Bytes
slot_magic = b'N' ∷ b'E' ∷ b'K' ∷ b'O' ∷ b'U' ∷ b'P' ∷ b'D' ∷ b'1' ∷ []

-- b"NEKOENR1"
abbrev pub marker_magic : Bytes
marker_magic = b'N' ∷ b'E' ∷ b'K' ∷ b'O' ∷ b'E' ∷ b'N' ∷ b'R' ∷ b'1' ∷ []

abbrev pub header_prefix_size : ℕ
header_prefix_size = 24

abbrev pub checksum_size : ℕ
checksum_size = 32

abbrev pub total_header_size : ℕ
total_header_size = header_prefix_size + checksum_size

abbrev pub max_slot_body_size : ℕ
max_slot_body_size = slot_frame_size - total_header_size

abbrev pub max_marker_body_size : ℕ
max_marker_body_size = marker_frame_size - total_header_size

pub record SlotFrame : Type 0 where
  pub revision : ℕ
  pub format_version : ℕ
  pub body_bytes : Bytes

pub record MarkerFrame : Type 0 where
  pub format_version : ℕ
  pub body_bytes : Bytes

-- `struct.pack("<8sIIQ", ...)`: a number that does not fit its field is a `struct.error`.
unfoldable pub pack_prefix : Bytes → ℕ → ℕ → ℕ → Result Bytes
pack_prefix magic body_len version revision = do
  raise_if (leb (2 ^ 32) body_len || leb (2 ^ 32) version || leb (2 ^ 64) revision)
      (struct_error "argument out of range")
  ok (magic ++ (to_le 4 body_len ++ (to_le 4 version ++ to_le 8 revision)))

-- the fields of `struct.unpack("<8sIIQ", prefix)`
abbrev pub prefix_magic : Bytes → Bytes
prefix_magic prefix = take 8 prefix

abbrev pub prefix_body_len : Bytes → ℕ
prefix_body_len prefix = from_le (take 4 (drop 8 prefix))

abbrev pub prefix_version : Bytes → ℕ
prefix_version prefix = from_le (take 4 (drop 12 prefix))

abbrev pub prefix_revision : Bytes → ℕ
prefix_revision prefix = from_le (take 8 (drop 16 prefix))

module _ (sha256 : Bytes → Bytes) where
  unfoldable pub pack_slot_frame : SlotFrame → Result Bytes
  pack_slot_frame frame = do
    let body_len = length frame.body_bytes
    raise_if (body_len == 0 || ltb max_slot_body_size body_len)
        (value_error "Invalid body length for slot frame")
    raise_if (frame.format_version != 1) (value_error "Unsupported format version")
    raise_if (ltb frame.revision 1) (value_error "Invalid revision")
    prefix ← pack_prefix slot_magic body_len frame.format_version frame.revision
    let checksum = sha256 (prefix ++ frame.body_bytes)
    let padding = zeros (slot_frame_size - total_header_size - body_len)
    ok (prefix ++ (checksum ++ (frame.body_bytes ++ padding)))

  unfoldable pub unpack_slot_frame : Bytes → Result SlotFrame
  unpack_slot_frame raw = do
    raise_if (length raw != slot_frame_size) (frame_corrupt "Invalid frame size")
    let prefix = take header_prefix_size raw
    let body_len = prefix_body_len prefix
    raise_if (prefix_magic prefix != slot_magic) (frame_corrupt "Invalid slot magic")
    raise_if (ltb (prefix_revision prefix) 1) (frame_corrupt "Invalid revision in slot frame")
    raise_if (body_len == 0 || ltb max_slot_body_size body_len)
        (frame_corrupt "Invalid body length")
    raise_if (prefix_version prefix != 1) (frame_corrupt "Unsupported format version")
    let stored_checksum = take checksum_size (drop header_prefix_size raw)
    let body_bytes = take body_len (drop total_header_size raw)
    raise_if (stored_checksum != sha256 (prefix ++ body_bytes))
        (frame_corrupt "Checksum mismatch in slot frame")
    raise_if (not (all_zero (drop (total_header_size + body_len) raw)))
        (frame_corrupt "Dirty trailing padding in slot frame")
    ok (record {
      revision = prefix_revision prefix;
      format_version = prefix_version prefix;
      body_bytes = body_bytes;
    })

  unfoldable pub pack_marker_frame : MarkerFrame → Result Bytes
  pack_marker_frame frame = do
    let body_len = length frame.body_bytes
    raise_if (body_len == 0 || ltb max_marker_body_size body_len)
        (value_error "Invalid body length for marker frame")
    raise_if (frame.format_version != 1) (value_error "Unsupported format version")
    prefix ← pack_prefix marker_magic body_len frame.format_version 1
    let checksum = sha256 (prefix ++ frame.body_bytes)
    let padding = zeros (marker_frame_size - total_header_size - body_len)
    ok (prefix ++ (checksum ++ (frame.body_bytes ++ padding)))

  unfoldable pub unpack_marker_frame : Bytes → Result MarkerFrame
  unpack_marker_frame raw = do
    raise_if (length raw != marker_frame_size) (frame_corrupt "Invalid frame size")
    let prefix = take header_prefix_size raw
    let body_len = prefix_body_len prefix
    raise_if (prefix_magic prefix != marker_magic) (frame_corrupt "Invalid marker magic")
    raise_if (body_len == 0 || ltb max_marker_body_size body_len)
        (frame_corrupt "Invalid body length")
    raise_if (prefix_version prefix != 1) (frame_corrupt "Unsupported format version")
    raise_if (prefix_revision prefix != 1) (frame_corrupt "Unsupported marker revision")
    let stored_checksum = take checksum_size (drop header_prefix_size raw)
    let body_bytes = take body_len (drop total_header_size raw)
    raise_if (stored_checksum != sha256 (prefix ++ body_bytes))
        (frame_corrupt "Checksum mismatch in marker frame")
    raise_if (not (all_zero (drop (total_header_size + body_len) raw)))
        (frame_corrupt "Dirty trailing padding in marker frame")
    ok (record { format_version = prefix_version prefix; body_bytes = body_bytes })
