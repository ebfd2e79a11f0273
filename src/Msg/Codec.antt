-- ===== src/Msg/Codec.antt =====
-- `Msg::unpack` and `Msg::pack` with the sections and the records that they are made of.
-- The capacity that `pack` estimates and reserves has no effect on its result.
pub mod Holds
pub mod Total
pub mod Records
pub mod RoundTrip
use doh_server.Prelude.{
  ℕ, zero, suc, ◌+◌, ◌-◌, ◌*◌, ◌/◌, ◌%◌, Bool, true, false, List, [], ◌∷◌, ◌++◌, length, replicate,
  Outcome, ok, err, ◌>>=◌, ◌>>◌, ensure, ltb, leb, ◌==◌, if◌then◌else◌,
}
use doh_server.Bytes.{Bytes, u16, u32, set_u16, read_u16, read_u32, write_u16, slice, be16, be32}
use doh_server.RrType
use doh_server.Msg.{
  MsgError, short_packet, invalid_record, trailing_bytes, rdata_too_long, Name, Question,
  ResourceRecord, Msg, MsgHeader, dns_header_size,
}
use doh_server.Msg.Header.{from_wire as header_from_wire, to_wire_bits}
use doh_server.Msg.Names.{from_wire, pack_into}

-- One round of the loop over the questions.
unfoldable pub unpack_question : Bytes → ℕ → Outcome MsgError (Question × ℕ)
unpack_question p offset = do
  (name, next) ← from_wire p offset
  ensure (leb 4 (length p - next)) short_packet
  qtype ← read_u16 p next
  qclass ← read_u16 p (next + 2)
  ok (record { name = name; qtype = RrType.from_u16 qtype; qclass = qclass }, next + 4)

unfoldable pub unpack_questions : Bytes → ℕ → ℕ → Outcome MsgError (List Question × ℕ)
unpack_questions p zero offset = ok ([], offset)
unpack_questions p (suc n) offset = do
  (q, next) ← unpack_question p offset
  (qs, end) ← unpack_questions p n next
  ok (q ∷ qs, end)

-- One round of the loop of `unpack_rr_section`.
unfoldable pub unpack_rr : Bytes → ℕ → Outcome MsgError (ResourceRecord × ℕ)
unpack_rr p offset = do
  (name, next) ← from_wire p offset
  ensure (leb 10 (length p - next)) short_packet
  rr_type ← read_u16 p next
  rr_class ← read_u16 p (next + 2)
  ttl ← read_u32 p (next + 4)
  rdlen ← read_u16 p (next + 8)
  let rdata_offset = next + 10
  ensure (leb rdlen (length p - rdata_offset)) invalid_record
  rdata ← slice p rdata_offset (rdata_offset + rdlen)
  ok (
    record {
      name = name;
      rr_type = RrType.from_u16 rr_type;
      rr_class = rr_class;
      ttl = ttl;
      rdata = rdata;
    },
    rdata_offset + rdlen,
  )

unfoldable pub unpack_rr_section : Bytes → ℕ → ℕ → Outcome MsgError (List ResourceRecord × ℕ)
unpack_rr_section p zero offset = ok ([], offset)
unpack_rr_section p (suc n) offset = do
  (rr, next) ← unpack_rr p offset
  (rrs, end) ← unpack_rr_section p n next
  ok (rr ∷ rrs, end)

-- `unpack` behind the header: the four sections, and the check that they fill the packet.
unfoldable pub unpack_sections : Bytes → MsgHeader → ℕ → ℕ → ℕ → ℕ → Outcome MsgError Msg
unpack_sections p header qdcount ancount nscount arcount = do
  (questions, offset) ← unpack_questions p qdcount dns_header_size
  (answers, next) ← unpack_rr_section p ancount offset
  (authorities, next') ← unpack_rr_section p nscount next
  (additionals, next'') ← unpack_rr_section p arcount next'
  ensure (next'' == length p) trailing_bytes
  ok (record {
    header = header;
    compress = false;
    questions = questions;
    answers = answers;
    authorities = authorities;
    additionals = additionals;
  })

unfoldable pub unpack : Bytes → Outcome MsgError Msg
unpack p = do
  ensure (leb dns_header_size (length p)) short_packet
  id ← read_u16 p 0
  bits ← read_u16 p 2
  qdcount ← read_u16 p 4
  ancount ← read_u16 p 6
  nscount ← read_u16 p 8
  arcount ← read_u16 p 10
  unpack_sections p (header_from_wire id bits) qdcount ancount nscount arcount

unfoldable pub pack_question : Question → Bytes → Outcome MsgError Bytes
pack_question q out = do
  out' ← pack_into q.name out
  ok (out' ++ be16 (RrType.to_u16 q.qtype) ++ be16 q.qclass)

unfoldable pub pack_questions : List Question → Bytes → Outcome MsgError Bytes
pack_questions [] out = ok out
pack_questions (q ∷ qs) out = do out' ← pack_question q out; pack_questions qs out'

unfoldable pub pack_rr : ResourceRecord → Bytes → Outcome MsgError Bytes
pack_rr rr out = do
  ensure (leb (length rr.rdata) 65535) rdata_too_long
  out' ← pack_into rr.name out
  ok (
      out'
      ++ be16 (RrType.to_u16 rr.rr_type)
      ++ be16 rr.rr_class
      ++ be32 rr.ttl
      ++ be16 (length rr.rdata)
      ++ rr.rdata)

unfoldable pub pack_rrs : List ResourceRecord → Bytes → Outcome MsgError Bytes
pack_rrs [] out = ok out
pack_rrs (rr ∷ rrs) out = do out' ← pack_rr rr out; pack_rrs rrs out'

-- `u16::try_from(n).map_err(|_| MsgError::InvalidRecord)`
abbrev pub try_u16 : ℕ → Outcome MsgError ℕ
try_u16 n = if leb n 65535 then ok n else err invalid_record

-- The twelve bytes of the header, written over zeros.
unfoldable pub header_bytes : MsgHeader → ℕ → ℕ → ℕ → ℕ → Bytes
header_bytes h qdcount ancount nscount arcount =
    let a = set_u16 (replicate 12 0) 0 h.id in
    let b = set_u16 a 2 (to_wire_bits h) in
    let c = set_u16 b 4 qdcount in
    let d = set_u16 c 6 ancount in let e = set_u16 d 8 nscount in set_u16 e 10 arcount

unfoldable pub pack : Msg → Outcome MsgError Bytes
pack m = do
  qdcount ← try_u16 (length m.questions)
  ancount ← try_u16 (length m.answers)
  nscount ← try_u16 (length m.authorities)
  arcount ← try_u16 (length m.additionals)
  let out = header_bytes m.header qdcount ancount nscount arcount
  out1 ← pack_questions m.questions out
  out2 ← pack_rrs m.answers out1
  out3 ← pack_rrs m.authorities out2
  pack_rrs m.additionals out3
