-- ===== src/Dns.antt =====
-- src/libdoh/src/dns.rs: the wire-level reader and editor of DNS packets. Code that takes
-- `&mut Vec<u8>` returns the packet beside its result, and beside its error too, since the caller
-- goes on with what an aborted edit left.
pub mod Names
pub mod Records
pub mod Grammar
pub mod Rounds
pub mod Ttl
use doh_server.Prelude.{
  ℕ, zero, suc, ◌+◌, ◌-◌, ◌/◌, ◌%◌, Bool, true, false, not, ◌&&◌, ◌||◌, List, [], ◌∷◌, ◌++◌, Option,
  none, some, length, replicate, Outcome, ok, err, panic, out_of_fuel, ◌>>=◌, ◌>>◌, ensure, assert,
  map_err, ltb, leb, ◌==◌, if◌then◌else◌,
}
use doh_server.Bytes.{Bytes, u16, at, read_u16, read_u32, write_u16, top_bits}

-- The messages of `ensure!`.
pub data DnsError : Type 0 where
  short_packet incomplete_offset long_label malformed_name name_too_long : DnsError
  record_too_long large_packet no_question garbage_after_packet : DnsError
  too_many_records no_room_for_record duplicate_opt out_of_range_edns : DnsError
  edns_too_large no_opt_record incomplete_rr : DnsError

abbrev pub header_size : ℕ
header_size = 12

abbrev pub max_hostname_size : ℕ
max_hostname_size = 256

abbrev pub max_packet_size : ℕ
max_packet_size = 4096

abbrev pub type_opt : ℕ
type_opt = 41

abbrev pub ptype_padding : ℕ
ptype_padding = 12

module _ {ℓ} {E : Type ℓ} where
  -- A subtraction of `usize` that must not go below 0.
  abbrev pub sub : ℕ → ℕ → Outcome E ℕ
  sub a b = if leb b a then ok (a - b) else panic

  -- `packet[3] & 0x0f`
  unfoldable pub rcode : Bytes → Outcome E ℕ
  rcode p = do b ← at p 3; ok (b % 16)

  abbrev pub qdcount : Bytes → Outcome E ℕ
  qdcount p = read_u16 p 4

  abbrev pub ancount : Bytes → Outcome E ℕ
  ancount p = read_u16 p 6

  abbrev pub nscount : Bytes → Outcome E ℕ
  nscount p = read_u16 p 8

  abbrev pub arcount : Bytes → Outcome E ℕ
  arcount p = read_u16 p 10

  unfoldable pub is_recoverable_error : Bytes → Outcome E Bool
  is_recoverable_error p = do code ← rcode p; ok (code == 2 || code == 5)

  -- `flags & (1 << 9) == 1 << 9`
  unfoldable pub is_truncated : Bytes → Outcome E Bool
  is_truncated p = do flags ← read_u16 p 2; ok (flags / 512 % 2 == 1)

unfoldable pub arcount_inc : Bytes → Outcome DnsError Bytes
arcount_inc p = do n ← arcount p; ensure (ltb n 0xffff) too_many_records; write_u16 p 10 (n + 1)

-- The loop of `skip_name`, at most `fuel` rounds of it.
unfoldable pub skip_loop : ℕ → Bytes → ℕ → ℕ → Outcome DnsError ℕ
skip_loop zero p offset qname_len = out_of_fuel
skip_loop (suc fuel) p offset qname_len = do
  b ← at p offset
  elim (top_bits b == 3) [
    | true ↦ do rest ← sub (length p) offset; ensure (leb 2 rest) incomplete_offset; ok (offset + 2)
    | false ↦ do
      ensure (ltb b 0x40) long_label
      rest ← sub (length p) offset
      rest' ← sub rest 1
      ensure (ltb b rest') malformed_name
      ensure (leb (qname_len + (b + 1)) max_hostname_size) name_too_long
      elim (b == 0) [
        | true ↦ ok (offset + (b + 1))
        | false ↦ skip_loop fuel p (offset + (b + 1)) (qname_len + (b + 1))
      ]
  ]

-- Each round that goes on adds at least 2 to `qname_len`, which stays at most 256.
unfoldable pub skip_name : Bytes → ℕ → Outcome DnsError ℕ
skip_name p offset = do
  last ← sub (length p) 1
  ensure (ltb offset last) short_packet
  skip_loop 130 p offset 0

module _ {S : Type 0} where
  -- One round of `traverse_rrs`: the offset of the next record. `cb` has the variables that the
  -- closure captures as a state.
  unfoldable pub visit_rr : (ℕ → S → Outcome DnsError S) → Bytes → ℕ → S → Outcome DnsError (ℕ × S)
  visit_rr cb p offset s = do
    o ← skip_name p offset
    rest ← sub (length p) o
    ensure (leb 10 rest) short_packet
    s' ← cb o s
    rdlen ← read_u16 p (o + 8)
    rest' ← sub (length p) (o + 10)
    ensure (leb rdlen rest') record_too_long
    ok (o + 10 + rdlen, s')

  unfoldable pub traverse_rrs :
      (ℕ → S → Outcome DnsError S) → Bytes → ℕ → ℕ → S → Outcome DnsError (ℕ × S)
  traverse_rrs cb p offset zero s = ok (offset, s)
  traverse_rrs cb p offset (suc n) s = do
    (offset', s') ← visit_rr cb p offset s
    traverse_rrs cb p offset' n s'

-- An error of a reader, with the packet as it is then.
abbrev pub on {ℓ} : {A : Type ℓ} → Bytes → Outcome DnsError A → Outcome (DnsError × Bytes) A
on p = map_err (λ e. (e, p))

module _ {S : Type 0} where
  -- One round of `traverse_rrs_mut`. The callback gets a slice, so it keeps the length.
  unfoldable pub visit_rr_mut :
      (Bytes → ℕ → S → Outcome (DnsError × Bytes) (Bytes × S))
      → Bytes
      → ℕ
      → S
      → Outcome (DnsError × Bytes) (Bytes × ℕ × S)
  visit_rr_mut cb p offset s = do
    o ← on p (skip_name p offset)
    rest ← sub (length p) o
    on p (ensure (leb 10 rest) short_packet)
    (p', s') ← cb p o s
    rdlen ← read_u16 p' (o + 8)
    rest' ← sub (length p) (o + 10)
    on p' (ensure (leb rdlen rest') record_too_long)
    ok (p', o + 10 + rdlen, s')

  unfoldable pub traverse_rrs_mut :
      (Bytes → ℕ → S → Outcome (DnsError × Bytes) (Bytes × S))
      → Bytes
      → ℕ
      → ℕ
      → S
      → Outcome (DnsError × Bytes) (Bytes × ℕ × S)
  traverse_rrs_mut cb p offset zero s = ok (p, offset, s)
  traverse_rrs_mut cb p offset (suc n) s = do
    (p', offset', s') ← visit_rr_mut cb p offset s
    traverse_rrs_mut cb p' offset' n s'

-- The checks that `min_ttl`, `set_edns_max_payload_size` and `add_edns_padding` begin with. At
-- least `least` bytes follow the name of the question.
unfoldable pub skip_question : ℕ → Bytes → Outcome DnsError ℕ
skip_question least p = do
  ensure (ltb header_size (length p)) short_packet
  ensure (leb (length p) max_packet_size) large_packet
  n ← qdcount p
  ensure (n == 1) no_question
  offset ← skip_name p header_size
  assert (ltb header_size offset)
  rest ← sub (length p) offset
  ensure (leb least rest) short_packet
  ok (offset + 4)

-- The callback `|_offset| Ok(())`.
abbrev pub ignore : ℕ → Unit {0} → Outcome DnsError (Unit {0})
ignore o s = ok s

-- The start of the additional section.
unfoldable pub skip_to_additional : Bytes → Outcome DnsError ℕ
skip_to_additional p = do
  offset ← skip_question 4 p
  an ← ancount p
  ns ← nscount p
  (offset', _) ← traverse_rrs ignore p offset (an + ns) tt
  ok offset'

-- The callback of `min_ttl`.
unfoldable pub lower_ttl : Bytes → ℕ → ℕ → Outcome DnsError ℕ
lower_ttl p o found = do
  qtype ← read_u16 p o
  ttl ← read_u32 p (o + 4)
  ok (if not (qtype == type_opt) && ltb ttl found then ttl else found)

unfoldable pub min_ttl : Bytes → ℕ → ℕ → ℕ → Outcome DnsError ℕ
min_ttl p least most failure_ttl = do
  offset ← skip_question 5 p
  an ← ancount p
  ns ← nscount p
  ar ← arcount p
  let rrcount = an + ns + ar
  (end, found) ←
      traverse_rrs (lower_ttl p) p offset rrcount (if ltb 0 rrcount then most else failure_ttl)
  ensure (length p == end) garbage_after_packet
  ok (if ltb found least then least else found)
