-- ===== src/Meta/Record.antt =====
-- `Record`, its 32-byte encoding and the inode keys (record.go).
use smoothnas.Prelude.{
  ℕ, ◌%◌, not, List, ◌∷◌, ◌++◌, reverse, Option, none, some, ◌==◌, length, take, drop,
  if◌then◌else◌,
}
use smoothnas.Meta.Bytes.{le_bytes, from_le}

abbrev pub record_size : ℕ
record_size = 32

abbrev pub record_version : ℕ
record_version = 1

pub record Record : Type 0 where
  pub version : ℕ
  pub pin_state : ℕ
  pub tier_idx : ℕ
  pub namespace_id : ℕ
  pub heat_counter : ℕ
  pub last_access_ns : ℕ

-- The 32 bytes, the reserved ones zero.
unfoldable pub encode : Record → List ℕ
encode r =
    le_bytes 2 r.version
    ++ (r.pin_state % 256) ∷ (r.tier_idx % 256) ∷ le_bytes 8 r.namespace_id
    ++ le_bytes 4 r.heat_counter
    ++ le_bytes 8 r.last_access_ns
    ++ le_bytes 8 0

-- `b[from:from+n]`.
abbrev pub slice : ℕ → ℕ → List ℕ → List ℕ
slice from n b = take n (drop from b)

-- `b[i]`, on a slice that is long enough.
abbrev pub byte_at : ℕ → List ℕ → ℕ
byte_at i b = from_le (slice i 1 b)

pub data DecodeError : Type 0 where
  bad_length unknown_version : DecodeError

pub data Decoded : Type 0 where
  ok : Record → Decoded
  err : DecodeError → Decoded

unfoldable pub decode : List ℕ → Decoded
decode b =
    if not (length b == record_size)
    then err bad_length
    else if not (from_le (slice 0 2 b) == record_version)
    then err unknown_version
    else ok (record {
      version = from_le (slice 0 2 b);
      pin_state = byte_at 2 b;
      tier_idx = byte_at 3 b;
      namespace_id = from_le (slice 4 8 b);
      heat_counter = from_le (slice 12 4 b);
      last_access_ns = from_le (slice 16 8 b);
    })

unfoldable pub inode_key : ℕ → List ℕ
inode_key inode = reverse (le_bytes 8 inode)

-- The inode that `iterate` reads off a key of 8 bytes.
unfoldable pub inode_of_key : List ℕ → Option ℕ
inode_of_key k = if length k == 8 then some (from_le (reverse k)) else none
