-- ===== src/Tests/Storing.antt =====
-- A record and its encoding.
use smoothnas.Prelude.{◌≡◌, arith, length}
use smoothnas.Meta.Record.{Record, encode, decode, ok}
use smoothnas.Meta.Codec.{decode-encode}

abbrev pinned : Record
pinned = record {
  version = 1;
  pin_state = 1;
  tier_idx = 2;
  namespace_id = 300;
  heat_counter = 7;
  last_access_ns = 70000;
}

decode-encode_example : (length (encode pinned) ≡ 32) × (decode (encode pinned) ≡ ok pinned)
decode-encode_example =
    decode-encode pinned
      (omega arith, omega arith, omega arith, omega arith, omega arith, omega arith)
