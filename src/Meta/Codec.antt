-- ===== src/Meta/Codec.antt =====
-- `Encode`, `DecodeRecord` and `InodeKey` (record.go) against their inverses.
use mathlib.Core.List.{reverse-reverse}
use smoothnas.Prelude.{
  ℕ, ◌%◌, ◌<◌, ◌≡◌, refl, ◌∙◌, List, [], ◌∷◌, reverse, some, arith, ap, ◌==◌, length, if◌then◌else◌,
}
use smoothnas.Meta.Bytes.{le_bytes, from_le, from_le-le_bytes}
use smoothnas.Meta.Record.{
  Record, encode, decode, slice, byte_at, ok, err, unknown_version, inode_key, inode_of_key,
}

-- The fields fit their widths.
abbrev pub FitsWidths : Record → Type 0
FitsWidths r =
    (r.version < 65536)
    × (r.pin_state < 256)
    × (r.tier_idx < 256)
    × (r.namespace_id < 18446744073709551616)
    × (r.heat_counter < 4294967296)
    × (r.last_access_ns < 18446744073709551616)

decode_fields :
    (b : List ℕ) (r : Record)
    → length b ≡ 32
    → from_le (slice 0 2 b) ≡ r.version
    → byte_at 2 b ≡ r.pin_state
    → byte_at 3 b ≡ r.tier_idx
    → from_le (slice 4 8 b) ≡ r.namespace_id
    → from_le (slice 12 4 b) ≡ r.heat_counter
    → from_le (slice 16 8 b) ≡ r.last_access_ns
    → decode b ≡ (if r.version == 1 then ok r else err unknown_version)
unfolding decode
decode_fields b r l v p t n c a = ground arith

module _ (r : Record) where
  encode_slices :
      (slice 0 2 (encode r) ≡ le_bytes 2 r.version)
      × (slice 2 1 (encode r) ≡ (r.pin_state % 256) ∷ [])
      × (slice 3 1 (encode r) ≡ (r.tier_idx % 256) ∷ [])
      × (slice 4 8 (encode r) ≡ le_bytes 8 r.namespace_id)
      × (slice 12 4 (encode r) ≡ le_bytes 4 r.heat_counter)
      × (slice 16 8 (encode r) ≡ le_bytes 8 r.last_access_ns)
  unfolding encode le_bytes
  encode_slices = (refl, refl, refl, refl, refl, refl)

one_byte : (x : ℕ) → x < 256 → from_le ((x % 256) ∷ []) ≡ x
unfolding from_le
one_byte x h = omega arith

-- A record whose fields fit their widths takes 32 bytes, and is read back whole if its version is the
-- current one, and refused for its version if not.
pub decode-encode :
    (r : Record)
    → FitsWidths r
    → (length (encode r) ≡ 32)
      × (decode (encode r) ≡ (if r.version == 1 then ok r else err unknown_version))
decode-encode r h =
    let (v, p, t, n, c, a) = encode_slices r in
    let len : length (encode r) ≡ 32 = unfold encode le_bytes in refl in
    (
      len,
      decode_fields (encode r) r len (ap from_le v ∙ from_le-le_bytes 2 r.version h.0)
          (ap from_le p ∙ one_byte r.pin_state h.1) (ap from_le t ∙ one_byte r.tier_idx h.2)
          (ap from_le n ∙ from_le-le_bytes 8 r.namespace_id h.3)
          (ap from_le c ∙ from_le-le_bytes 4 r.heat_counter h.4)
          (ap from_le a ∙ from_le-le_bytes 8 r.last_access_ns h.5),
    )

-- A key of an inode is read back as the inode, so different inodes have different keys.
pub inode_of_key-inode_key :
    (inode : ℕ) → inode < 18446744073709551616 → inode_of_key (inode_key inode) ≡ some inode
unfolding inode_of_key inode_key
inode_of_key-inode_key inode h =
    let len : length (inode_key inode) ≡ 8 = unfold inode_key le_bytes in refl in
    let val : from_le (reverse (inode_key inode)) ≡ inode =
      unfold inode_key in rw reverse-reverse (from_le-le_bytes 8 inode h) in
    ground (arith, len, val)
