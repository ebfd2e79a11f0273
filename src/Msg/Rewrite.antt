-- ===== src/Msg/Rewrite.antt =====
-- `Msg::rewrite_answer_ips_in_packet` and the other functions of src/libdoh/src/upstream/msg.rs
-- that work on the bytes of a packet, with src/libdoh/src/upstream/dns_packet.rs.
-- The packet of a rewrite that fails is dropped by its caller, so an error carries none.
pub mod Total
pub mod Accepts
pub mod Validated
use doh_server.Prelude.{
  ℕ, zero, suc, ◌+◌, ◌-◌, ◌*◌, Bool, true, false, ◌&&◌, List, [], ◌∷◌, Option, none, some, length,
  set, Outcome, ok, err, panic, out_of_fuel, ◌>>=◌, ◌>>◌, ensure, ltb, leb, ◌==◌, if◌then◌else◌,
}
use doh_server.Bytes.{Bytes, u16, read_u16}
use doh_server.RrType
use doh_server.RrType.{RrType}
use doh_server.Msg.{
  MsgError, short_packet, invalid_record, trailing_bytes, dns_header_size, dns_class_in, Msg,
}
use doh_server.Msg.Names.{skip_wire}
use doh_server.Msg.Codec.{unpack}
use doh_server.Msg.Answers.{
  IpAddr, v4, v6, Holding, a_record, aaaa_record, other, holding, answer_ips, contains_answer_ip,
}

-- `w` written over the bytes from `a` on.
unfoldable pub overwrite : Bytes → ℕ → Bytes → Bytes
overwrite p a [] = p
overwrite p a (x ∷ w) = overwrite (set p a x) (a + 1) w

-- `packet[a..a + n].copy_from_slice(&w)`
abbrev pub copy_to : Bytes → ℕ → ℕ → Bytes → Outcome MsgError Bytes
copy_to p a n w = if leb (a + n) (length p) && length w == n then ok (overwrite p a w) else panic

-- The match on the record and the selected address.
unfoldable pub put_ip : Bytes → ℕ → Holding → IpAddr → Outcome MsgError Bytes
put_ip p a a_record (v4 ip) = copy_to p a 4 ip
put_ip p a aaaa_record (v6 ip) = copy_to p a 16 ip
put_ip p a _ ip = ok p

unfoldable pub skip_questions : Bytes → ℕ → ℕ → Outcome MsgError ℕ
skip_questions p zero offset = ok offset
skip_questions p (suc n) offset = do
  o ← skip_wire p offset
  ensure (leb 4 (length p - o)) short_packet
  skip_questions p n (o + 4)

-- One round of the loop over the answers.
unfoldable pub rewrite_answer : Bytes → ℕ → IpAddr → Outcome MsgError (Bytes × ℕ)
rewrite_answer p offset ip = do
  o ← skip_wire p offset
  ensure (leb 10 (length p - o)) short_packet
  rr_type ← read_u16 p o
  rr_class ← read_u16 p (o + 2)
  rdlen ← read_u16 p (o + 8)
  let rdata_offset = o + 10
  ensure (leb rdlen (length p - rdata_offset)) invalid_record
  p' ←
      put_ip p rdata_offset
        (if rr_class == dns_class_in then holding (RrType.from_u16 rr_type) rdlen else other) ip
  ok (p', rdata_offset + rdlen)

unfoldable pub rewrite_answers : Bytes → ℕ → ℕ → IpAddr → Outcome MsgError (Bytes × ℕ)
rewrite_answers p zero offset ip = ok (p, offset)
rewrite_answers p (suc n) offset ip = do
  (p', offset') ← rewrite_answer p offset ip
  rewrite_answers p' n offset' ip

-- One round of the loop over the other records.
unfoldable pub skip_rr : Bytes → ℕ → Outcome MsgError ℕ
skip_rr p offset = do
  o ← skip_wire p offset
  ensure (leb 10 (length p - o)) short_packet
  rdlen ← read_u16 p (o + 8)
  ensure (leb rdlen (length p - (o + 10))) invalid_record
  ok (o + 10 + rdlen)

unfoldable pub skip_rrs : Bytes → ℕ → ℕ → Outcome MsgError ℕ
skip_rrs p zero offset = ok offset
skip_rrs p (suc n) offset = do o ← skip_rr p offset; skip_rrs p n o

-- `rewrite_answer_ips_in_packet` behind the counts of the header.
unfoldable pub rewrite_sections : Bytes → ℕ → ℕ → ℕ → IpAddr → Outcome MsgError Bytes
rewrite_sections p qdcount ancount rest ip = do
  offset ← skip_questions p qdcount dns_header_size
  (p', offset') ← rewrite_answers p ancount offset ip
  end ← skip_rrs p' rest offset'
  ensure (end == length p') trailing_bytes
  ok p'

unfoldable pub rewrite_answer_ips_in_packet : Bytes → IpAddr → Outcome MsgError Bytes
rewrite_answer_ips_in_packet p ip = do
  ensure (leb dns_header_size (length p)) short_packet
  qdcount ← read_u16 p 4
  ancount ← read_u16 p 6
  nscount ← read_u16 p 8
  arcount ← read_u16 p 10
  rewrite_sections p qdcount ancount (nscount + arcount) ip

-- `Self::unpack(packet).is_ok()`, and `validate_response_packet` of dns_packet.rs.
unfoldable pub validate_packet : Bytes → Bool
validate_packet p = elim (unpack p) [ ok m ↦ true | _ ↦ false ]

unfoldable pub extract_answer_ips : Bytes → List IpAddr
extract_answer_ips p = elim (unpack p) [ ok m ↦ answer_ips m | _ ↦ [] ]

unfoldable pub contains_answer_ip_in_packet : Bytes → IpAddr → Bool
contains_answer_ip_in_packet p ip = elim (unpack p) [ ok m ↦ contains_answer_ip m ip | _ ↦ false ]

-- The type of the first question. `packet.get(4..6)` is the default 0 on a short packet.
unfoldable pub qtype_from_packet : Bytes → Outcome MsgError (Option RrType)
qtype_from_packet p =
    let qdcount = if leb 6 (length p) then u16 p 4 else 0 in
    if qdcount == 0 then ok none else elim (skip_wire p dns_header_size) [
      | ok offset ↦
          if ltb (length p - offset) 4
          then ok none
          else (do code ← read_u16 p offset; ok (some (RrType.from_u16 code)))
      | err e ↦ ok none
      | panic ↦ panic
      | out_of_fuel ↦ out_of_fuel
    ]
