-- ===== src/DnsJson/Query/Packs.antt =====
-- The query of the JSON API against the encoder of src/libdoh/src/upstream/msg.rs.
use doh_server.Prelude.{
  ℕ, ◌+◌, ◌*◌, ◌<◌, ◌≡◌, refl, sym, ap, ◌∙◌, Bool-cases, inl, inr, ◌||◌, ◌∷◌, ◌++◌, Option, length,
  All, ok, ◌>>=◌,
}
use doh_server.Bytes.{Bytes, be16, set_u16}
use doh_server.Msg.Codec.RoundTrip.{IsMsg, unpack-pack}
use doh_server.Msg.Codec.{unpack, pack, pack_rrs}
use doh_server.Bootstrap.Query.{split_dots}
use doh_server.DnsJson.Response.{class_in}
use doh_server.DnsJson.Query.{
  DnsJsonQuery, or_type_a, or_false, is_some, start_of, opt_data_of, build_dns_query,
}
use doh_server.DnsJson.Query.Wire.{
  labels_of, json_msg, wire_labels, header_bytes-start, pack_question-eq, packet-eq, pack_opt-eq,
  before_opt, push_opt-eq, set_u16_none, length-opt_data_of,
}

-- For labels of at most 63 bytes, `build_dns_query` gives the bytes of the encoder for the message
-- with the labels of the name, those that are empty left out, the type, recursion desired, the flag
-- CD, and an OPT record with the flag DO and the client subnet where one of the two is asked for.
pub build_dns_query-pack :
    (parse : Bytes → Option Bytes) (query : DnsJsonQuery) (r0 r1 : ℕ)
    → r0 < 256
    → r1 < 256
    → All (λ l. length l < 64) (labels_of (split_dots query.name))
    → pack (json_msg parse query (r0 * 256 + r1)) ≡ ok (build_dns_query parse query r0 r1)
unfolding pack pack_rrs build_dns_query
build_dns_query-pack parse query r0 r1 a b h =
    let cd = or_false query.cd in
    let ls = labels_of (split_dots query.name) in
    let qtype = or_type_a query.qtype in
    let opt_data = opt_data_of parse query.edns_client_subnet in
    let len = length-opt_data_of parse query.edns_client_subnet in
    elim (Bool-cases (or_false query.do_ || is_some query.edns_client_subnet)) [
      | inl wants ↦
          rw
            (
              wants,
              header_bytes-start r0 r1 1 cd a b,
              pack_question-eq ls qtype (set_u16 (start_of r0 r1 cd) 10 1) h,
              packet-eq query.name qtype (start_of r0 r1 cd),
            )
            (pack_opt-eq (or_false query.do_) opt_data
                (before_opt (set_u16 (start_of r0 r1 cd) 10 1) ls qtype) len
              ∙ ap ok (
                  sym (
                    push_opt-eq (or_false query.do_) opt_data
                      (wire_labels ls ++ 0 ∷ be16 qtype ++ be16 class_in) r0 r1 cd len)))
      | inr plain ↦
          rw
            (
              plain,
              header_bytes-start r0 r1 0 cd a b,
              pack_question-eq ls qtype (set_u16 (start_of r0 r1 cd) 10 0) h,
              packet-eq query.name qtype (start_of r0 r1 cd),
              set_u16_none r0 r1 cd,
            )
            refl
    ]

-- Where the message of a query fits the fields of a packet, decoding the query that
-- `build_dns_query` builds gives this message.
pub unpack-build_dns_query :
    (parse : Bytes → Option Bytes) (query : DnsJsonQuery) (r0 r1 : ℕ)
    → r0 < 256
    → r1 < 256
    → All (λ l. length l < 64) (labels_of (split_dots query.name))
    → IsMsg (json_msg parse query (r0 * 256 + r1))
    → unpack (build_dns_query parse query r0 r1) ≡ ok (json_msg parse query (r0 * 256 + r1))
unpack-build_dns_query parse query r0 r1 a b h v =
    ap (λ m. m >>= unpack) (sym (build_dns_query-pack parse query r0 r1 a b h))
    ∙ unpack-pack (json_msg parse query (r0 * 256 + r1)) v
