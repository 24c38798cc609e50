-- ===== src/Updater/Frame/Layout.antt =====
-- Where the parts of a frame stand: a prefix of 24 bytes, a digest of 32, the body, the padding.
use mathlib.Core.Path.{subst}
use neko_family_proxy.Prelude.{
  ℕ, ◌+◌, ◌^◌, ◌<◌, ◌≡◌, refl, ◌++◌, arith, length, take, drop, ok, length-append, take-append_eq,
  take_of_length-eq, drop-append_eq, drop-drop,
}
use neko_family_proxy.Updater.Frame.Words.{Bytes, to_le, length-to_le, from_le-to_le}
use neko_family_proxy.Updater.Frame.{
  pack_prefix, prefix_magic, prefix_body_len, prefix_version, prefix_revision,
}

-- The fields of a packed prefix read back.
pub record PrefixOf (magic : Bytes) (n v r : ℕ) (p : Bytes) : Type 0 where
  pub size : length p ≡ 24
  pub magic_field : prefix_magic p ≡ magic
  pub body_len_field : prefix_body_len p ≡ n
  pub version_field : prefix_version p ≡ v
  pub revision_field : prefix_revision p ≡ r

module _ (magic : Bytes) (n v r : ℕ) (eight : length magic ≡ 8) where
  abbrev packed : Bytes
  packed = magic ++ (to_le 4 n ++ (to_le 4 v ++ to_le 8 r))

  after_magic : drop 8 packed ≡ to_le 4 n ++ (to_le 4 v ++ to_le 8 r)
  after_magic = drop-append_eq 8 magic (to_le 4 n ++ (to_le 4 v ++ to_le 8 r)) eight

  after_len : drop 12 packed ≡ to_le 4 v ++ to_le 8 r
  after_len =
      rw (← drop-drop 8 4 packed)
        (rw after_magic (drop-append_eq 4 (to_le 4 n) (to_le 4 v ++ to_le 8 r) (length-to_le 4 n)))

  after_version : drop 16 packed ≡ to_le 8 r
  after_version =
      rw (← drop-drop 12 4 packed)
        (rw after_len (drop-append_eq 4 (to_le 4 v) (to_le 8 r) (length-to_le 4 v)))

  packed-PrefixOf : n < 2 ^ 32 → v < 2 ^ 32 → r < 2 ^ 64 → PrefixOf magic n v r packed
  packed-PrefixOf hn hv hr = record {
    size =
        rw
          (
            length-append magic (to_le 4 n ++ (to_le 4 v ++ to_le 8 r)),
            length-append (to_le 4 n) (to_le 4 v ++ to_le 8 r),
            length-append (to_le 4 v) (to_le 8 r),
          )
          (omega (arith, eight, length-to_le 4 n, length-to_le 4 v, length-to_le 8 r));
    magic_field = take-append_eq 8 magic (to_le 4 n ++ (to_le 4 v ++ to_le 8 r)) eight;
    body_len_field =
        rw (after_magic, take-append_eq 4 (to_le 4 n) (to_le 4 v ++ to_le 8 r) (length-to_le 4 n))
          (from_le-to_le 4 n hn);
    version_field =
        rw (after_len, take-append_eq 4 (to_le 4 v) (to_le 8 r) (length-to_le 4 v))
          (from_le-to_le 4 v hv);
    revision_field =
        rw (after_version, take_of_length-eq 8 (to_le 8 r) (length-to_le 8 r))
          (from_le-to_le 8 r hr);
  }

pub pack_prefix-ok :
    (magic : Bytes) (n v r : ℕ)
    → n < 2 ^ 32
    → v < 2 ^ 32
    → r < 2 ^ 64
    → pack_prefix magic n v r ≡ ok (magic ++ (to_le 4 n ++ (to_le 4 v ++ to_le 8 r)))
unfolding pack_prefix
pack_prefix-ok magic n v r hn hv hr = ground arith

pub pack_prefix-PrefixOf :
    (magic : Bytes) (n v r : ℕ) (p : Bytes)
    → length magic ≡ 8
    → pack_prefix magic n v r ≡ ok p
    → PrefixOf magic n v r p
unfolding pack_prefix
pack_prefix-PrefixOf magic n v r p eight h =
    let made = packed-PrefixOf magic n v r eight (ground arith) (ground arith) (ground arith) in
    let e : packed magic n v r eight ≡ p = ground arith in subst (PrefixOf magic n v r) e made

-- Where the parts of `p ++ (d ++ (b ++ z))` are read.
pub record PartsOf (p d b z raw : Bytes) : Type 0 where
  pub prefix : take 24 raw ≡ p
  pub digest : take 32 (drop 24 raw) ≡ d
  pub body : take (length b) (drop 56 raw) ≡ b
  pub padding : drop (56 + length b) raw ≡ z
  pub size : length raw ≡ 56 + length b + length z

module _ (p d b z : Bytes) (hp : length p ≡ 24) (hd : length d ≡ 32) where
  abbrev frame : Bytes
  frame = p ++ (d ++ (b ++ z))

  after_prefix : drop 24 frame ≡ d ++ (b ++ z)
  after_prefix = drop-append_eq 24 p (d ++ (b ++ z)) hp

  after_digest : drop 56 frame ≡ b ++ z
  after_digest = rw (← drop-drop 24 32 frame) (rw after_prefix (drop-append_eq 32 d (b ++ z) hd))

  pub frame-PartsOf : PartsOf p d b z frame
  frame-PartsOf = record {
    prefix = take-append_eq 24 p (d ++ (b ++ z)) hp;
    digest = rw after_prefix (take-append_eq 32 d (b ++ z) hd);
    body = rw after_digest (take-append_eq (length b) b z refl);
    padding =
        rw (← drop-drop 56 (length b) frame) (rw after_digest (drop-append_eq (length b) b z refl));
    size =
        rw (length-append p (d ++ (b ++ z)), length-append d (b ++ z), length-append b z)
          (omega (arith, hp, hd));
  }
