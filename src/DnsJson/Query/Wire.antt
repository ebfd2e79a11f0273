-- ===== src/DnsJson/Query/Wire.antt =====
-- The query of the JSON API as a message, and the bytes of its parts.
use doh_server.Prelude.{
  ℕ, suc, ◌+◌, ◌*◌, ◌/◌, ◌%◌, ◌≤◌, ◌<◌, ◌≡◌, refl, sym, ap, ◌∙◌, Bool, true, false, ◌||◌, List, [],
  ◌∷◌, ◌++◌, append_assoc, append-nil, Option, none, some, length, length-take, All, set, ok, leb,
  ◌==◌, if◌then◌else◌, arith,
}
use doh_server.Bytes.{Bytes, be16, be32, set_u16}
use doh_server.RrType
use doh_server.Dns.{type_opt}
use doh_server.Msg.{Msg, MsgHeader, ResourceRecord}
use doh_server.Msg.Header.{to_wire_bits, or_bit, or_nibble}
use doh_server.Msg.Names.{pack_labels, pack_into}
use doh_server.Msg.Codec.{pack_question, pack_questions, pack_rr, pack_rrs, header_bytes}
use doh_server.Bootstrap.Query.{split_dots}
use doh_server.DnsJson.Response.{class_in}
use doh_server.DnsJson.Query.{
  DnsJsonQuery, or_type_a, or_false, is_some, push_query_labels, subnet_option, start_of, push_opt,
  opt_data_of,
}

-- The labels of a name: its parts that are not empty.
abbrev pub labels_of : List Bytes → List Bytes
labels_of [] = []
labels_of (label ∷ ls) = let rest = labels_of ls in if length label == 0 then rest else label ∷ rest

abbrev pub json_header : ℕ → Bool → MsgHeader
json_header id cd = record {
  id = id;
  response = false;
  opcode = 0;
  authoritative = false;
  truncated = false;
  recursion_desired = true;
  recursion_available = false;
  zero = false;
  authenticated_data = false;
  checking_disabled = cd;
  rcode = 0;
}

-- The OPT record: a payload size of 4096, the flag DO and the data.
abbrev pub opt_record : Bool → Bytes → ResourceRecord
opt_record dnssec_ok opt_data = record {
  name = record { labels = [] };
  rr_type = RrType.from_u16 type_opt;
  rr_class = 4096;
  ttl = if dnssec_ok then 32768 else 0;
  rdata = opt_data;
}

module _ (parse : Bytes → Option Bytes) where
  -- The message that a query is meant to be.
  abbrev pub json_msg : DnsJsonQuery → ℕ → Msg
  json_msg query id = record {
    header = json_header id (or_false query.cd);
    compress = false;
    questions =
        record {
          name = record { labels = labels_of (split_dots query.name) };
          qtype = RrType.from_u16 (or_type_a query.qtype);
          qclass = class_in;
        }
        ∷ [];
    answers = [];
    authorities = [];
    additionals =
        if or_false query.do_ || is_some query.edns_client_subnet
        then opt_record (or_false query.do_) (opt_data_of parse query.edns_client_subnet) ∷ []
        else [];
  }

  pub length-opt_data_of : (s : Option Bytes) → length (opt_data_of parse s) ≤ 11
  length-opt_data_of none = omega arith
  length-opt_data_of (some s) = by_parse (parse s)
    where
      by_parse : (o : Option Bytes) → length (subnet_option o) ≤ 11
      by_parse none = omega arith
      by_parse (some octets) = omega (arith, length-take 3 octets)

-- The bytes of the labels.
abbrev pub wire_labels : List Bytes → Bytes
wire_labels [] = []
wire_labels (l ∷ ls) = ((length l % 256) ∷ l) ++ wire_labels ls

pack_labels-eq :
    (ls : List Bytes) (out : Bytes)
    → All (λ l. length l < 64) ls
    → pack_labels ls out ≡ ok (out ++ wire_labels ls)
unfolding pack_labels
pack_labels-eq [] out h = ap ok (sym (append-nil out))
pack_labels-eq (l ∷ ls) out h = ground (
  arith,
  pack_labels-eq ls (out ++ (length l % 256) ∷ l) h.1,
  append_assoc out ((length l % 256) ∷ l) (wire_labels ls),
)

push_query_labels-eq :
    (ls : List Bytes) (out : Bytes) → push_query_labels ls out ≡ out ++ wire_labels (labels_of ls)
unfolding push_query_labels
push_query_labels-eq [] out = sym (append-nil out)
push_query_labels-eq (l ∷ ls) out = ground (
  arith,
  push_query_labels-eq ls out,
  push_query_labels-eq ls (out ++ (length l % 256) ∷ l),
  append_assoc out ((length l % 256) ∷ l) (wire_labels (labels_of ls)),
)

set-end :
    (s : Bytes) (a b : ℕ)
    → set (set (s ++ 0 ∷ 0 ∷ []) (length s) a) (suc (length s)) b ≡ s ++ a ∷ b ∷ []
set-end [] a b = refl
set-end (x ∷ s) a b = ap (λ (l : Bytes). x ∷ l) (set-end s a b)

set_u16-end : (s : Bytes) (v : ℕ) → set_u16 (s ++ 0 ∷ 0 ∷ []) (length s) v ≡ s ++ be16 v
unfolding set_u16
set_u16-end s v =
    let next : length s + 1 ≡ suc (length s) = omega arith in
    ap (λ i. set (set (s ++ 0 ∷ 0 ∷ []) (length s) (v / 256 % 256)) i (v % 256)) next
    ∙ set-end s (v / 256 % 256) (v % 256)

high_byte : (r0 r1 : ℕ) → r0 < 256 → r1 < 256 → (r0 * 256 + r1) / 256 % 256 ≡ r0
high_byte r0 r1 a b = omega arith

low_byte : (r0 r1 : ℕ) → r0 < 256 → r1 < 256 → (r0 * 256 + r1) % 256 ≡ r1
low_byte r0 r1 a b = omega arith

pub header_bytes-start :
    (r0 r1 n : ℕ) (cd : Bool)
    → r0 < 256
    → r1 < 256
    → header_bytes (json_header (r0 * 256 + r1) cd) 1 0 0 n ≡ set_u16 (start_of r0 r1 cd) 10 n
unfolding header_bytes set_u16 to_wire_bits or_bit or_nibble
header_bytes-start r0 r1 n true a b = rw (high_byte r0 r1 a b, low_byte r0 r1 a b) refl
header_bytes-start r0 r1 n false a b = rw (high_byte r0 r1 a b, low_byte r0 r1 a b) refl

-- Writing the count of additional records does not touch what stands behind the header.
set_u16-start :
    (r0 r1 : ℕ) (cd : Bool) (w : Bytes)
    → set_u16 (start_of r0 r1 cd ++ w) 10 1 ≡ set_u16 (start_of r0 r1 cd) 10 1 ++ w
unfolding set_u16
set_u16-start r0 r1 true w = refl
set_u16-start r0 r1 false w = refl

pub set_u16_none : (r0 r1 : ℕ) (cd : Bool) → set_u16 (start_of r0 r1 cd) 10 0 ≡ start_of r0 r1 cd
unfolding set_u16
set_u16_none r0 r1 true = refl
set_u16_none r0 r1 false = refl

-- The packet in front of the OPT record.
abbrev pub before_opt : Bytes → List Bytes → ℕ → Bytes
before_opt start ls qtype = start ++ (wire_labels ls ++ 0 ∷ be16 qtype ++ be16 class_in)

pub pack_question-eq :
    (ls : List Bytes) (qtype : ℕ) (out : Bytes)
    → All (λ l. length l < 64) ls
    → pack_questions
        (record { name = record { labels = ls }; qtype = RrType.from_u16 qtype; qclass = class_in }
          ∷ [])
        out
      ≡ ok (before_opt out ls qtype)
unfolding pack_questions pack_question pack_into
pack_question-eq ls qtype out h =
    rw (pack_labels-eq ls out h, RrType.to_u16-from_u16 qtype) (ap ok (simp (append_assoc)))

abbrev opt_wire : Bool → Bytes → Bytes
opt_wire dnssec_ok opt_data =
    0 ∷ be16 type_opt
    ++ (be16 4096
        ++ (be32 (if dnssec_ok then 32768 else 0) ++ (be16 (length opt_data) ++ opt_data)))

fits : (opt_data : Bytes) → length opt_data ≤ 11 → leb (length opt_data) 65535 ≡ true
fits opt_data h = ground arith

pub pack_opt-eq :
    (dnssec_ok : Bool) (opt_data out : Bytes)
    → length opt_data ≤ 11
    → pack_rrs (opt_record dnssec_ok opt_data ∷ []) out ≡ ok (out ++ opt_wire dnssec_ok opt_data)
unfolding pack_rrs pack_rr pack_into pack_labels
pack_opt-eq dnssec_ok opt_data out h =
    rw (fits opt_data h, RrType.to_u16-from_u16 type_opt) (ap ok (simp (append_assoc)))

small : (opt_data : Bytes) → length opt_data ≤ 11 → length opt_data % 65536 ≡ length opt_data
small opt_data h = omega arith

pub push_opt-eq :
    (dnssec_ok : Bool) (opt_data w : Bytes) (r0 r1 : ℕ) (cd : Bool)
    → length opt_data ≤ 11
    → push_opt dnssec_ok opt_data (start_of r0 r1 cd ++ w)
      ≡ set_u16 (start_of r0 r1 cd) 10 1 ++ w ++ opt_wire dnssec_ok opt_data
push_opt-eq true opt_data w r0 r1 cd h =
    rw (set_u16-start r0 r1 cd w, set_u16-end, small opt_data h) (simp (append_assoc))
push_opt-eq false opt_data w r0 r1 cd h =
    rw (set_u16-start r0 r1 cd w, set_u16-end, small opt_data h) (simp (append_assoc))

pub packet-eq :
    (name : Bytes) (qtype : ℕ) (start : Bytes)
    → push_query_labels (split_dots name) start ++ 0 ∷ [] ++ be16 qtype ++ be16 class_in
      ≡ before_opt start (labels_of (split_dots name)) qtype
packet-eq name qtype start = rw (push_query_labels-eq (split_dots name) start) (simp (append_assoc))
