-- ===== src/Tests/Witnesses.antt =====
-- The theorems at concrete packets and messages that meet their hypotheses.
use doh_server.Prelude.{
  ℕ, ◌+◌, ◌≤◌, ◌<◌, ◌≡◌, ◌↔◌, ◌⊎◌, refl, true, false, All, [], ◌∷◌, map, length, ok, ◌>>=◌, Ends,
  arith,
}
use doh_server.Bytes.{Bytes}
use doh_server.RrType
use doh_server.Dns.{skip_name, min_ttl}
use doh_server.Dns.Names.{AnyError}
use doh_server.Dns.Records.{SameLength}
use doh_server.Dns.Grammar.{WireName, skip_name_iff}
use doh_server.Dns.Ttl.{IsMinTtl, min_ttl-Ends}
use doh_server.Edns.{set_edns_max_payload_size, add_edns_padding}
use doh_server.Edns.Safety.{Grown, set_edns_max_payload_size-Ends}
use doh_server.Edns.Size.{Padded, add_edns_padding-Ends}
use doh_server.Msg.{MsgHeader, Name, ResourceRecord, Msg}
use doh_server.Msg.Header.{IsHeader}
use doh_server.Msg.Codec.{pack, unpack}
use doh_server.Msg.Codec.Total.{AnyMsgError, HasCounts, unpack-Ends}
use doh_server.Msg.Names.RoundTrip.{IsName}
use doh_server.Msg.Codec.Records.{IsType, IsQuestion, IsRecord}
use doh_server.Msg.Codec.RoundTrip.{IsMsg, unpack-pack}
use doh_server.Msg.Answers.{
  v4, answer_ips, rewrite_answer_ips, replaced, answer_ips-rewrite_answer_ips,
}
use doh_server.Msg.Rewrite.{rewrite_answer_ips_in_packet}
use doh_server.Msg.Rewrite.Validated.{rewrite-of-unpack}
use doh_server.Tests.{program}
use doh_server.Tests.Packets.{query, response}

-- The header of a response with recursion, and a name error.
abbrev header : MsgHeader
header = record {
  id = 4660;
  response = true;
  opcode = 0;
  authoritative = false;
  truncated = false;
  recursion_desired = true;
  recursion_available = true;
  zero = false;
  authenticated_data = false;
  checking_disabled = false;
  rcode = 3;
}

abbrev name : Name
name = record { labels = (b'a' ∷ b'b' ∷ []) ∷ (b'c' ∷ []) ∷ [] }

abbrev address : ResourceRecord
address = record {
  name = name;
  rr_type = RrType.a;
  rr_class = 1;
  ttl = 300;
  rdata = 192 ∷ 0 ∷ 2 ∷ 1 ∷ [];
}

abbrev message : Msg
message = record {
  header = header;
  compress = false;
  questions = record { name = name; qtype = RrType.a; qclass = 1 } ∷ [];
  answers = address ∷ record address { ttl = 600; rdata = 192 ∷ 0 ∷ 2 ∷ 2 ∷ [] } ∷ [];
  authorities = [];
  additionals = record address { rr_type = RrType.unknown 300; rdata = [] } ∷ [];
}

header-IsHeader : IsHeader header
header-IsHeader = omega arith

name-IsName : IsName name
name-IsName = omega arith

a-IsType : IsType RrType.a
unfolding program
a-IsType = record { decoded = tt; code_in = omega arith }

unknown-IsType : IsType (RrType.unknown 300)
unfolding program
unknown-IsType = record { decoded = refl; code_in = omega arith }

questions-IsQuestion : All IsQuestion message.questions
questions-IsQuestion =
    (record { named = name-IsName; typed = a-IsType; class_in = omega arith }, tt)

answers-IsRecord : All IsRecord message.answers
answers-IsRecord = (
  record {
    named = name-IsName;
    typed = a-IsType;
    class_in = omega arith;
    ttl_in = omega arith;
    rdata_in = omega arith;
  },
  (
    record {
      named = name-IsName;
      typed = a-IsType;
      class_in = omega arith;
      ttl_in = omega arith;
      rdata_in = omega arith;
    },
    tt,
  ),
)

additionals-IsRecord : All IsRecord message.additionals
additionals-IsRecord = (
  record {
    named = name-IsName;
    typed = unknown-IsType;
    class_in = omega arith;
    ttl_in = omega arith;
    rdata_in = omega arith;
  },
  tt,
)

message-IsMsg : IsMsg message
message-IsMsg = record {
  header = header-IsHeader;
  plain = refl;
  questions = questions-IsQuestion;
  answers = answers-IsRecord;
  authorities = tt;
  additionals = additionals-IsRecord;
  questions_in = omega arith;
  answers_in = omega arith;
  authorities_in = omega arith;
  additionals_in = omega arith;
}

unpack-pack_example : (pack message >>= unpack) ≡ ok message
unpack-pack_example = unpack-pack message message-IsMsg

unpack-Ends_example : Ends AnyMsgError (HasCounts response) (unpack response)
unpack-Ends_example = unpack-Ends response

skip_name_iff_example :
    (skip_name response 29 ≡ ok 31)
    ↔ ((k : ℕ) × WireName response 29 k 31 × (k ≤ 256) × (29 + 1 < length response))
skip_name_iff_example = skip_name_iff response 29 31 (omega arith)

min_ttl-Ends_example : Ends AnyError (IsMinTtl response 10 604800 2) (min_ttl response 10 604800 2)
min_ttl-Ends_example = min_ttl-Ends response 10 604800 2

set_edns_max_payload_size-Ends_example :
    Ends (SameLength query) (λ r. Grown query r.0) (set_edns_max_payload_size query 4096)
set_edns_max_payload_size-Ends_example = set_edns_max_payload_size-Ends query 4096

add_edns_padding-Ends_example :
    Ends
      (λ e. Grown response e.1)
      (λ r. Padded (length response) r.0 ⊎ Padded (length response + 11) r.0)
      (add_edns_padding response)
add_edns_padding-Ends_example = add_edns_padding-Ends response

answer_ips-rewrite_answer_ips_example :
    answer_ips (rewrite_answer_ips message (v4 (192 ∷ 0 ∷ 2 ∷ 2 ∷ [])))
    ≡ map (replaced (v4 (192 ∷ 0 ∷ 2 ∷ 2 ∷ []))) (answer_ips message)
answer_ips-rewrite_answer_ips_example =
    answer_ips-rewrite_answer_ips message (v4 (192 ∷ 0 ∷ 2 ∷ 2 ∷ [])) refl

abbrev decoded : Msg
decoded = record {
  header = record header { rcode = 0 };
  compress = false;
  questions =
      record {
        name = record {
          labels =
              (b'e' ∷ b'x' ∷ b'a' ∷ b'm' ∷ b'p' ∷ b'l' ∷ b'e' ∷ [])
              ∷ (b'c' ∷ b'o' ∷ b'm' ∷ [])
              ∷ [];
        };
        qtype = RrType.a;
        qclass = 1;
      }
      ∷ [];
  answers =
      record address {
        name = record {
          labels =
              (b'e' ∷ b'x' ∷ b'a' ∷ b'm' ∷ b'p' ∷ b'l' ∷ b'e' ∷ [])
              ∷ (b'c' ∷ b'o' ∷ b'm' ∷ [])
              ∷ [];
        };
      }
      ∷ [];
  authorities = [];
  additionals = [];
}

unpack-response : unpack response ≡ ok decoded
unfolding program
unpack-response = refl

rewrite-of-unpack_example :
    (q : Bytes) × (rewrite_answer_ips_in_packet response (v4 (10 ∷ 0 ∷ 0 ∷ 1 ∷ [])) ≡ ok q)
    × (length q ≡ length response)
rewrite-of-unpack_example =
    rewrite-of-unpack (v4 (10 ∷ 0 ∷ 0 ∷ 1 ∷ [])) refl response decoded unpack-response
