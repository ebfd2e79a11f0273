-- ===== src/Edns.antt =====
-- src/libdoh/src/dns.rs, from `add_edns_section` on: the OPT record that the proxy puts into a
-- query, and the padding that it puts into a response.
pub mod Safety
pub mod Size
use doh_server.Prelude.{
  ℕ, ◌+◌, ◌/◌, ◌%◌, Bool, true, false, not, List, [], ◌∷◌, ◌++◌, Option, none, some, length,
  replicate, Outcome, ok, err, ◌>>=◌, ◌>>◌, ensure, leb, ◌==◌, if◌then◌else◌,
}
use doh_server.Bytes.{Bytes, read_u16, write_u16}
use doh_server.Dns.{
  DnsError, large_packet, short_packet, no_room_for_record, duplicate_opt, out_of_range_edns,
  edns_too_large, max_packet_size, type_opt, ptype_padding, sub, arcount, arcount_inc, on,
  traverse_rrs_mut, skip_to_additional,
}

-- What an edit of a packet comes to: the packet with the result, or with the error.
abbrev pub Edit : Type 0 → Type 0
Edit A = Outcome (DnsError × Bytes) (Bytes × A)

unfoldable pub opt_rr : ℕ → Bytes
opt_rr payload =
    0 ∷ 0 ∷ type_opt ∷ (payload / 256 % 256) ∷ (payload % 256) ∷ 0 ∷ 0 ∷ 0 ∷ 0 ∷ 0 ∷ 0 ∷ []

-- The room is checked before the packet is changed.
unfoldable pub add_edns_section : Bytes → ℕ → Edit (Unit {0})
add_edns_section p payload = do
  room ← sub max_packet_size (length p)
  on p (ensure (leb 11 room) no_room_for_record)
  p' ← on p (arcount_inc p)
  ok (p' ++ opt_rr payload, tt)

-- The callback of `set_edns_max_payload_size`; the state is `edns_payload_set`.
unfoldable pub set_payload : ℕ → Bytes → ℕ → Bool → Edit Bool
set_payload payload p o found = do
  qtype ← read_u16 p o
  elim (qtype == type_opt) [
    | true ↦ do
      on p (ensure (not found) duplicate_opt)
      p' ← write_u16 p (o + 2) payload
      ok (p', true)
    | false ↦ ok (p, found)
  ]

unfoldable pub set_edns_max_payload_size : Bytes → ℕ → Edit (Unit {0})
set_edns_max_payload_size p payload = do
  offset ← on p (skip_to_additional p)
  n ← arcount p
  (p', _, found) ← traverse_rrs_mut (set_payload payload) p offset n false
  if found then ok (p', tt) else add_edns_section p' payload

abbrev pub boundaries : List ℕ
boundaries =
    64 ∷ 128 ∷ 192 ∷ 256 ∷ 320 ∷ 384 ∷ 512 ∷ 704 ∷ 768 ∷ 896 ∷ 960 ∷ 1024 ∷ 1088 ∷ 1152 ∷ 2688
    ∷ 4080 ∷ []

-- `find(|&&b| b >= n).copied().unwrap_or(DNS_MAX_PACKET_SIZE)`
unfoldable pub first_boundary : List ℕ → ℕ → ℕ
first_boundary [] n = max_packet_size
first_boundary (b ∷ bs) n = if leb n b then b else first_boundary bs n

unfoldable pub padded_len : ℕ → ℕ
padded_len = first_boundary boundaries

-- The callback of `add_edns_padding`; the state is `edns_offset`.
unfoldable pub find_opt : Bytes → ℕ → Option ℕ → Edit (Option ℕ)
find_opt p o none = do qtype ← read_u16 p o; ok (p, if qtype == type_opt then some o else none)
find_opt p o (some e) = do
  qtype ← read_u16 p o
  if qtype == type_opt then err (duplicate_opt, p) else ok (p, some e)

-- The OPT record that is there, by the offset behind its name, or a new one.
unfoldable pub opt_or_new : Bytes → Option ℕ → Edit ℕ
opt_or_new p (some e) = ok (p, e)
opt_or_new p none = do (p', _) ← add_edns_section p max_packet_size; ok (p', length p + 1)

-- The padding option, with `n` bytes of data.
unfoldable pub padding_option : ℕ → Outcome (DnsError × Bytes) Bytes
padding_option n = do a ← write_u16 (replicate (4 + n) b'X') 0 ptype_padding; write_u16 a 2 n

-- The end of `add_edns_padding`, on the packet with its OPT record at `e`.
unfoldable pub pad : Bytes → ℕ → Edit (Unit {0})
pad p e = do
  n ← sub (padded_len (length p)) (length p)
  prr ← padding_option n
  rest ← sub (length p) (e + 8)
  on p (ensure (leb 2 rest) short_packet)
  rdlen ← read_u16 p (e + 8)
  on p (ensure (leb (e + rdlen) (length p)) out_of_range_edns)
  most ← sub 0xffff rdlen
  on p (ensure (leb (length prr) most) edns_too_large)
  room ← sub max_packet_size (length p)
  on p (ensure (leb (length prr) room) large_packet)
  p' ← write_u16 p (e + 8) (rdlen + length prr)
  ok (p' ++ prr, tt)

unfoldable pub add_edns_padding : Bytes → Edit (Unit {0})
add_edns_padding p = do
  offset ← on p (skip_to_additional p)
  n ← arcount p
  (p', _, found) ← traverse_rrs_mut find_opt p offset n none
  (p'', e) ← opt_or_new p' found
  pad p'' e
