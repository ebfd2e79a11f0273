-- ===== src/DnsJson/Response.antt =====
-- `parse_dns_to_json` of src/libdoh/src/dns_json.rs: a packet as the JSON answer, before it is
-- written as text.
pub mod Texts
pub mod Safety
use doh_server.Prelude.{
  ℕ, zero, suc, ◌+◌, ◌*◌, ◌/◌, ◌%◌, Bool, true, false, not, ◌&&◌, ◌||◌, List, [], ◌∷◌, ◌++◌, Option,
  none, some, length, take, drop, Outcome, ok, out_of_fuel, ◌>>=◌, ◌>>◌, ensure, ltb, leb, ◌==◌,
  if◌then◌else◌,
}
use doh_server.Bytes.{Bytes, u16, at, read_u16, read_u32, slice}
use doh_server.Dns.{type_opt, rcode, qdcount, ancount, nscount, arcount}
use doh_server.Msg.Header.{has_bit}
use doh_server.DnsJson.{
  JsonError, parse_name, packet_too_short, incomplete_question, incomplete_rr, data_beyond_packet,
}
use doh_server.DnsJson.Response.Texts.{decimal, hex}

pub record DnsQuestion : Type 0 where
  pub name : Bytes
  pub qtype : ℕ

pub record DnsAnswer : Type 0 where
  pub name : Bytes
  pub rtype : ℕ
  pub ttl : ℕ
  pub text : Bytes

pub record DnsJsonResponse : Type 0 where
  pub status : ℕ
  pub tc : Bool
  pub rd : Bool
  pub ra : Bool
  pub ad : Bool
  pub cd : Bool
  pub question : Option (List DnsQuestion)
  pub answer : Option (List DnsAnswer)
  pub authority : Option (List DnsAnswer)
  pub additional : Option (List DnsAnswer)
  pub comment : Option Bytes

abbrev pub class_in : ℕ
class_in = 1

-- The arms of the match on the type and the length of the data.
pub data Rendering : Type 0 where
  v4_text v6_text domain mail_exchange texts start_of_authority service authorisation unknown :
      Rendering

unfoldable pub rendering : ℕ → ℕ → Rendering
rendering rtype rdlength =
    if rtype == 1 && rdlength == 4
    then v4_text
    else if rtype == 28 && rdlength == 16
    then v6_text
    else if rtype == 5 || rtype == 2 || rtype == 12
    then domain
    else if rtype == 15 && leb 2 rdlength
    then mail_exchange
    else if rtype == 16
    then texts
    else if rtype == 6
    then start_of_authority
    else if rtype == 33 && leb 6 rdlength
    then service
    else if rtype == 257
    then authorisation
    else unknown

abbrev pub soa_text : ℕ → Bytes
soa_text rdlength =
    (b'<' ∷ b'S' ∷ b'O' ∷ b'A' ∷ b' ' ∷ b'r' ∷ b'e' ∷ b'c' ∷ b'o' ∷ b'r' ∷ b'd' ∷ b',' ∷ b' ' ∷ [])
    ++ decimal rdlength
    ++ b' ' ∷ b'b' ∷ b'y' ∷ b't' ∷ b'e' ∷ b's' ∷ b'>' ∷ []

-- `{}.{}.{}.{}`
abbrev pub dotted : ℕ → ℕ → ℕ → ℕ → Bytes
dotted a b c d = decimal a ++ b'.' ∷ decimal b ++ b'.' ∷ decimal c ++ b'.' ∷ decimal d

-- The groups of an IPv6 address from an offset on, `n` more behind the first one.
unfoldable pub groups : Bytes → ℕ → ℕ → Bytes
groups addr o zero = hex (u16 addr o)
groups addr o (suc n) = hex (u16 addr o) ++ b':' ∷ groups addr (o + 2) n

-- `Some(records)` unless there are none.
abbrev pub unless_empty : List DnsAnswer → Option (List DnsAnswer)
unless_empty [] = none
unless_empty (r ∷ rs) = some (r ∷ rs)

-- The questions are given where the count is not 0.
abbrev pub if_any : ℕ → List DnsQuestion → Option (List DnsQuestion)
if_any count questions = if ltb 0 count then some questions else none

-- `lossy` is `String::from_utf8_lossy`, `base64` the encoder of the library base64, and `fuel` the
-- rounds that a name is read for.
module _ (lossy : Bytes → Bytes) (base64 : Bytes → Bytes) (fuel : ℕ) where
  -- The loop over the strings of a TXT record, at most `rounds` rounds of it.
  unfoldable pub txt_loop : ℕ → Bytes → ℕ → ℕ → Bytes → Outcome JsonError Bytes
  txt_loop zero p txt_offset end txt_data = out_of_fuel
  txt_loop (suc rounds) p txt_offset end txt_data = elim (ltb txt_offset end) [
    | false ↦ ok txt_data
    | true ↦ do
      txt_len ← at p txt_offset
      elim (leb (txt_offset + 1 + txt_len) end) [
        | false ↦ ok txt_data
        | true ↦ do
          chunk ← slice p (txt_offset + 1) (txt_offset + 1 + txt_len)
          txt_loop rounds p (txt_offset + 1 + txt_len) end
              (txt_data ++ (if length txt_data == 0 then [] else b' ' ∷ []) ++ lossy chunk)
      ]
  ]

  abbrev pub in_base64 : Bytes → ℕ → ℕ → Outcome JsonError Bytes
  in_base64 p offset rdlength = do rdata ← slice p offset (offset + rdlength); ok (base64 rdata)

  unfoldable pub caa_text : Bytes → ℕ → ℕ → Outcome JsonError Bytes
  caa_text p offset rdlength = elim (leb 2 rdlength) [
    | false ↦ in_base64 p offset rdlength
    | true ↦ do
      flags ← at p offset
      tag_len ← at p (offset + 1)
      elim (leb (offset + 2 + tag_len) (offset + rdlength)) [
        | false ↦ in_base64 p offset rdlength
        | true ↦ do
          tag ← slice p (offset + 2) (offset + 2 + tag_len)
          value ← slice p (offset + 2 + tag_len) (offset + rdlength)
          ok (decimal flags ++ b' ' ∷ lossy tag ++ b' ' ∷ b'"' ∷ lossy value ++ b'"' ∷ [])
      ]
  ]

  unfoldable pub render : Rendering → Bytes → ℕ → ℕ → Outcome JsonError Bytes
  render v4_text p offset rdlength = do
    a ← at p offset
    b ← at p (offset + 1)
    c ← at p (offset + 2)
    d ← at p (offset + 3)
    ok (dotted a b c d)
  render v6_text p offset rdlength = do addr ← slice p offset (offset + 16); ok (groups addr 0 7)
  render domain p offset rdlength = do (name, _) ← parse_name lossy fuel p offset; ok name
  render mail_exchange p offset rdlength = do
    preference ← read_u16 p offset
    (exchange, _) ← parse_name lossy fuel p (offset + 2)
    ok (decimal preference ++ b' ' ∷ exchange)
  render texts p offset rdlength = txt_loop (rdlength + 1) p offset (offset + rdlength) []
  render start_of_authority p offset rdlength = ok (soa_text rdlength)
  render service p offset rdlength = do
    priority ← read_u16 p offset
    weight ← read_u16 p (offset + 2)
    port ← read_u16 p (offset + 4)
    (target, _) ← parse_name lossy fuel p (offset + 6)
    ok (decimal priority ++ b' ' ∷ decimal weight ++ b' ' ∷ decimal port ++ b' ' ∷ target)
  render authorisation p offset rdlength = caa_text p offset rdlength
  render unknown p offset rdlength = in_base64 p offset rdlength

  -- One round of the loop of `parse_rrs`: the answer, unless the record is left out, and the next
  -- offset.
  unfoldable pub parse_rr : Bytes → ℕ → Outcome JsonError (List DnsAnswer × ℕ)
  parse_rr p start = do
    (name, offset) ← parse_name lossy fuel p start
    ensure (leb (offset + 10) (length p)) incomplete_rr
    rtype ← read_u16 p offset
    class ← read_u16 p (offset + 2)
    ttl ← read_u32 p (offset + 4)
    rdlength ← read_u16 p (offset + 8)
    ensure (leb (offset + 10 + rdlength) (length p)) data_beyond_packet
    elim (not (class == class_in) || rtype == type_opt) [
      | true ↦ ok ([], offset + 10 + rdlength)
      | false ↦ do
        text ← render (rendering rtype rdlength) p (offset + 10) rdlength
        ok (
          record { name = name; rtype = rtype; ttl = ttl; text = text } ∷ [],
          offset + 10 + rdlength,
        )
    ]

  unfoldable pub parse_rrs : Bytes → ℕ → ℕ → Outcome JsonError (List DnsAnswer × ℕ)
  parse_rrs p offset zero = ok ([], offset)
  parse_rrs p offset (suc count) = do
    (record_of, next) ← parse_rr p offset
    (records, end) ← parse_rrs p next count
    ok (record_of ++ records, end)

  unfoldable pub parse_questions : Bytes → ℕ → ℕ → Outcome JsonError (List DnsQuestion × ℕ)
  parse_questions p offset zero = ok ([], offset)
  parse_questions p offset (suc count) = do
    (name, o) ← parse_name lossy fuel p offset
    ensure (leb (o + 4) (length p)) incomplete_question
    qtype ← read_u16 p o
    (questions, end) ← parse_questions p (o + 4) count
    ok (record { name = name; qtype = qtype } ∷ questions, end)

  -- `parse_dns_to_json` behind the header: the flags, the counts of the sections, the status.
  unfoldable pub parse_sections : Bytes → ℕ → ℕ → ℕ → ℕ → ℕ → ℕ → Outcome JsonError DnsJsonResponse
  parse_sections p flags questions_count answers_count authority_count additional_count status = do
    (questions, o1) ← parse_questions p 12 questions_count
    (answers, o2) ← parse_rrs p o1 answers_count
    (authority, o3) ← parse_rrs p o2 authority_count
    (additional, o4) ← parse_rrs p o3 additional_count
    ok (record {
      status = status;
      tc = has_bit 512 flags;
      rd = has_bit 256 flags;
      ra = has_bit 128 flags;
      ad = has_bit 32 flags;
      cd = has_bit 16 flags;
      question = if_any questions_count questions;
      answer = unless_empty answers;
      authority = unless_empty authority;
      additional = unless_empty additional;
      comment = none;
    })

  unfoldable pub parse_dns_to_json : Bytes → Outcome JsonError DnsJsonResponse
  parse_dns_to_json p = do
    ensure (leb 12 (length p)) packet_too_short
    flags ← read_u16 p 2
    questions_count ← qdcount p
    answers_count ← ancount p
    authority_count ← nscount p
    additional_count ← arcount p
    status ← rcode p
    parse_sections p flags questions_count answers_count authority_count additional_count status
