-- ===== src/Msg/Names.antt =====
-- `Name` of src/libdoh/src/upstream/msg.rs: the decoder, which follows compression pointers, the
-- one that skips a name, and the encoder, which writes no pointers.
pub mod Total
pub mod RoundTrip
pub mod Skip
use doh_server.Prelude.{
  ℕ, zero, suc, ◌+◌, ◌*◌, ◌/◌, ◌%◌, Bool, true, false, List, [], ◌∷◌, ◌++◌, Option, none, some,
  length, Outcome, ok, err, out_of_fuel, ◌>>=◌, ◌>>◌, ensure, ltb, leb, ◌==◌, if◌then◌else◌,
}
use doh_server.Bytes.{Bytes, byte, slice, top_bits}
use doh_server.Msg.{
  MsgError, short_packet, invalid_name, compression_loop, invalid_label_length, Name,
  max_domain_name_wire_octets, max_compression_pointers,
}

-- `*packet.get(i).ok_or(MsgError::ShortPacket)?`
abbrev pub get : Bytes → ℕ → Outcome MsgError ℕ
get p i = if ltb i (length p) then ok (byte p i) else err short_packet

-- `consumed.unwrap_or(d)`
abbrev pub unwrap_or : Option ℕ → ℕ → ℕ
unwrap_or none d = d
unwrap_or (some n) d = n

-- `if consumed.is_none() { consumed = Some(d); }`
abbrev pub or_some : Option ℕ → ℕ → Option ℕ
or_some none d = some d
or_some (some n) d = some n

-- The offset in a pointer of the bytes `a` and `b`: `((a & 0x3f) << 8) | b`.
abbrev pub pointer_to : ℕ → ℕ → ℕ
pointer_to a b = a % 64 * 256 + b

-- The loop of `from_wire`, at most `fuel` rounds of it.
unfoldable pub name_loop :
    ℕ → Bytes → List Bytes → ℕ → Option ℕ → ℕ → ℕ → Outcome MsgError (Name × ℕ)
name_loop zero p labels current consumed pointers wire_len = out_of_fuel
name_loop (suc fuel) p labels current consumed pointers wire_len = do
  len ← get p current
  elim (top_bits len == 3) [
    | true ↦ do
      b2 ← get p (current + 1)
      let ptr = pointer_to len b2
      ensure (ltb ptr (length p)) invalid_name
      ensure (leb (pointers + 1) max_compression_pointers) compression_loop
      name_loop fuel p labels ptr (or_some consumed (current + 2)) (pointers + 1) wire_len
    | false ↦ do
      ensure (top_bits len == 0) invalid_label_length
      elim (len == 0) [
        | true ↦ ok (record { labels = labels }, unwrap_or consumed (current + 1))
        | false ↦ do
          let start = current + 1
          let end = start + len
          ensure (leb end (length p)) short_packet
          ensure (leb (wire_len + (1 + len)) max_domain_name_wire_octets) invalid_name
          label ← slice p start end
          name_loop fuel p (labels ++ label ∷ []) end consumed pointers (wire_len + (1 + len))
      ]
  ]

-- At most 128 pointers are followed, and at most 127 labels fit 255 bytes.
unfoldable pub from_wire : Bytes → ℕ → Outcome MsgError (Name × ℕ)
from_wire p offset = name_loop 260 p [] offset none 0 1

-- The loop of `skip_wire`, at most `fuel` rounds of it.
unfoldable pub skip_wire_loop : ℕ → Bytes → ℕ → Outcome MsgError ℕ
skip_wire_loop zero p current = out_of_fuel
skip_wire_loop (suc fuel) p current = do
  len ← get p current
  elim (top_bits len == 3) [
    | true ↦ do _ ← get p (current + 1); ok (current + 2)
    | false ↦ do
      ensure (top_bits len == 0) invalid_label_length
      ensure (ltb len 0x40) invalid_label_length
      elim (len == 0) [
        | true ↦ ok (current + (1 + len))
        | false ↦ do
          ensure (leb (current + (1 + len)) (length p)) short_packet
          skip_wire_loop fuel p (current + (1 + len))
      ]
  ]

-- Each round that goes on moves by a byte at least, inside the packet.
unfoldable pub skip_wire : Bytes → ℕ → Outcome MsgError ℕ
skip_wire p offset = skip_wire_loop (suc (length p)) p offset

unfoldable pub pack_labels : List Bytes → Bytes → Outcome MsgError Bytes
pack_labels [] out = ok out
pack_labels (label ∷ rest) out = do
  ensure (ltb (length label) 0x40) invalid_label_length
  pack_labels rest (out ++ (length label % 256) ∷ label)

unfoldable pub pack_into : Name → Bytes → Outcome MsgError Bytes
pack_into name out = do out' ← pack_labels name.labels out; ok (out' ++ 0 ∷ [])
