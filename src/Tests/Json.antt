-- ===== src/Tests/Json.antt =====
-- The JSON API: a query for an address with an OPT record, and the answer to it.
use doh_server.Prelude.{
  ◌+◌, ◌*◌, ◌<◌, ◌≡◌, refl, true, false, [], ◌∷◌, Option, none, some, length, All, ok, Safe, arith,
}
use doh_server.Bytes.{Bytes}
use doh_server.Msg.Codec.{unpack}
use doh_server.Msg.Codec.RoundTrip.{IsMsg}
use doh_server.Bootstrap.Query.{split_dots}
use doh_server.DnsJson.{parse_name_loop, parse_name}
use doh_server.DnsJson.Response.{
  rendering, groups, txt_loop, caa_text, render, parse_rr, parse_rrs, parse_questions,
  parse_sections, parse_dns_to_json,
}
use doh_server.DnsJson.Response.Texts.{digits, decimal, hex}
use doh_server.DnsJson.Response.Safety.{Fits, parse_dns_to_json-Safe}
use doh_server.DnsJson.Query.{DnsJsonQuery, build_dns_query}
use doh_server.DnsJson.Query.Wire.{labels_of, json_msg}
use doh_server.DnsJson.Query.Packs.{unpack-build_dns_query}
use doh_server.Tests.{program}
use doh_server.Tests.Packets.{response}

-- Text that is plain, and a stand-in for base64.
abbrev plain : Bytes → Bytes
plain b = b

abbrev no_address : Bytes → Option Bytes
no_address s = none

abbrev example : Bytes
example = b'e' ∷ b'x' ∷ b'a' ∷ b'm' ∷ b'p' ∷ b'l' ∷ b'e' ∷ b'.' ∷ b'c' ∷ b'o' ∷ b'm' ∷ []

abbrev asked : DnsJsonQuery
asked = record {
  name = example;
  qtype = none;
  cd = none;
  ct = none;
  do_ = some true;
  edns_client_subnet = none;
}

-- The address in its text, under the name that a pointer gives.
renders_the_address :
    parse_dns_to_json plain plain 260 response
    ≡ ok (record {
      status = 0;
      tc = false;
      rd = true;
      ra = true;
      ad = false;
      cd = false;
      question = some (record { name = example; qtype = 1 } ∷ []);
      answer = some (
          record {
            name = example;
            rtype = 1;
            ttl = 300;
            text = b'1' ∷ b'9' ∷ b'2' ∷ b'.' ∷ b'0' ∷ b'.' ∷ b'2' ∷ b'.' ∷ b'1' ∷ [];
          }
          ∷ []);
      authority = none;
      additional = none;
      comment = none;
    })
unfolding program parse_name_loop parse_name rendering groups txt_loop caa_text render parse_rr
    parse_rrs parse_questions parse_sections parse_dns_to_json digits decimal hex
renders_the_address = refl

parse_dns_to_json-Safe_example : Safe (Fits response) (parse_dns_to_json plain plain 260 response)
parse_dns_to_json-Safe_example = parse_dns_to_json-Safe plain plain 260 response

short_labels : All (λ l. length l < 64) (labels_of (split_dots example))
unfolding split_dots
short_labels = (omega arith, (omega arith, tt))

asked-IsMsg : IsMsg (json_msg no_address asked (18 * 256 + 52))
unfolding program split_dots
asked-IsMsg = record {
  header = record { id_in = omega arith; opcode_in = omega arith; rcode_in = omega arith };
  plain = refl;
  questions = (
    record {
      named = record { each = ((omega arith, (omega arith, tt))); size = omega arith };
      typed = record { decoded = tt; code_in = omega arith };
      class_in = omega arith;
    },
    tt,
  );
  answers = tt;
  authorities = tt;
  additionals = (
    record {
      named = record { each = tt; size = omega arith };
      typed = record { decoded = tt; code_in = omega arith };
      class_in = omega arith;
      ttl_in = omega arith;
      rdata_in = omega arith;
    },
    tt,
  );
  questions_in = omega arith;
  answers_in = omega arith;
  authorities_in = omega arith;
  additionals_in = omega arith;
}

unpack-build_dns_query_example :
    unpack (build_dns_query no_address asked 18 52) ≡ ok (json_msg no_address asked (18 * 256 + 52))
unpack-build_dns_query_example =
    unpack-build_dns_query no_address asked 18 52 (omega arith) (omega arith) short_labels
      asked-IsMsg
