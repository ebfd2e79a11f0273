-- ===== src/Bootstrap/Query.antt =====
-- `build_bootstrap_dns_query` of src/libdoh/src/lib.rs, against the encoder of
-- src/libdoh/src/upstream/msg.rs.
use doh_server.Prelude.{
  ℕ, ◌%◌, ◌≡◌, refl, Bool, true, false, not, ◌&&◌, ◌||◌, List, [], ◌∷◌, ◌++◌, length, replicate,
  Outcome, ok, ◌>>=◌, ◌>>◌, ensure, Ends, leb, ◌==◌, if◌then◌else◌, arith,
}
use doh_server.Bytes.{Bytes, set_u16, be16}
use doh_server.Errors.{DohError, upstream_issue}
use doh_server.RrType
use doh_server.Msg.{Msg}
use doh_server.Msg.Header.{to_wire_bits, or_bit, or_nibble}
use doh_server.Msg.Names.{pack_labels, pack_into}
use doh_server.Msg.Codec.{pack, pack_question, pack_questions, pack_rrs, header_bytes}
use doh_server.Bootstrap.Total.{AnyDohError}

-- `host.trim_end_matches('.')`
unfoldable pub trim_dots : Bytes → Bytes
trim_dots [] = []
trim_dots (b ∷ s) = let rest = trim_dots s in if b == b'.' && length rest == 0 then [] else b ∷ rest

-- A byte at the front of the first part.
abbrev pub onto_first : ℕ → List Bytes → List Bytes
onto_first b [] = (b ∷ []) ∷ []
onto_first b (l ∷ ls) = (b ∷ l) ∷ ls

-- `host.split('.')`
unfoldable pub split_dots : Bytes → List Bytes
split_dots [] = [] ∷ []
split_dots (b ∷ s) = let rest = split_dots s in if b == b'.' then [] ∷ rest else onto_first b rest

unfoldable pub has_zero : Bytes → Bool
has_zero [] = false
has_zero (b ∷ s) = b == 0 || has_zero s

unfoldable pub query_header : ℕ → Bytes
query_header query_id = set_u16 (set_u16 (set_u16 (replicate 12 0) 0 query_id) 2 0x0100) 4 1

module _ {X : Type 0} where
  unfoldable pub push_labels : List Bytes → Bytes → Outcome (DohError X) Bytes
  push_labels [] packet = ok packet
  push_labels (label ∷ rest) packet = do
    ensure (not (length label == 0) && leb (length label) 63 && not (has_zero label)) upstream_issue
    push_labels rest (packet ++ (length label % 256) ∷ label)

  -- The query; its id is random.
  unfoldable pub build_bootstrap_dns_query : Bytes → ℕ → ℕ → Outcome (DohError X) Bytes
  build_bootstrap_dns_query host qtype query_id = do
    let host' = trim_dots host
    ensure (not (length host' == 0)) upstream_issue
    packet ← push_labels (split_dots host') (query_header query_id)
    ok (packet ++ 0 ∷ [] ++ be16 qtype ++ be16 1)

-- The message that the query is meant to be.
abbrev pub query_msg : Bytes → ℕ → ℕ → Msg
query_msg host qtype query_id = record {
  header = record {
    id = query_id;
    response = false;
    opcode = 0;
    authoritative = false;
    truncated = false;
    recursion_desired = true;
    recursion_available = false;
    zero = false;
    authenticated_data = false;
    checking_disabled = false;
    rcode = 0;
  };
  compress = false;
  questions =
      record {
        name = record { labels = split_dots (trim_dots host) };
        qtype = RrType.from_u16 qtype;
        qclass = 1;
      }
      ∷ [];
  answers = [];
  authorities = [];
  additionals = [];
}

header_bytes-query :
    (host : Bytes) (qtype query_id : ℕ)
    → header_bytes (query_msg host qtype query_id).header 1 0 0 0 ≡ query_header query_id
unfolding header_bytes query_header set_u16 to_wire_bits or_bit or_nibble
header_bytes-query host qtype query_id = refl

module _ (X : Type 0) where
  push_labels-Ends :
      (ls : List Bytes) (out : Bytes)
      → Ends {E = DohError X} AnyDohError (λ q. pack_labels ls out ≡ ok q) (push_labels ls out)
  unfolding push_labels pack_labels
  push_labels-Ends [] out = refl
  push_labels-Ends (label ∷ ls) out =
      ground (arith, push_labels-Ends ls (out ++ (length label % 256) ∷ label))

  -- Building the query of a host ends, and the bytes that it returns are those of the encoder for
  -- the message with the host's labels, a question of the type, and recursion desired.
  pub build_bootstrap_dns_query-Ends :
      (host : Bytes) (qtype query_id : ℕ)
      → Ends {E = DohError X} AnyDohError
          (λ q. pack (query_msg host qtype query_id) ≡ ok q)
          (build_bootstrap_dns_query host qtype query_id)
  unfolding build_bootstrap_dns_query pack pack_questions pack_question pack_into pack_rrs
  build_bootstrap_dns_query-Ends host qtype query_id =
      rw (header_bytes-query host qtype query_id, RrType.to_u16-from_u16 qtype)
        (ground (arith, push_labels-Ends (split_dots (trim_dots host)) (query_header query_id)))
