-- ===== src/Ecs.antt =====
-- src/libdoh/src/edns_ecs.rs: the client's address from the HTTP headers, the EDNS Client Subnet
-- option, and its place in the OPT record of a query.
pub mod Safety
use doh_server.Prelude.{
  ℕ, zero, suc, ◌+◌, ◌/◌, Bool, true, false, not, ◌&&◌, List, [], ◌∷◌, ◌++◌, Option, none, some,
  length, take, drop, min, Outcome, ok, err, out_of_fuel, ◌>>=◌, ◌>>◌, ensure, map_err, ltb, leb,
  ◌==◌, if◌then◌else◌,
}
use doh_server.Bytes.{Bytes, byte, read_u16, write_u16, be16}
use doh_server.Dns.{
  DnsError, type_opt, sub, qdcount, ancount, nscount, arcount, skip_name, traverse_rrs, ignore,
}
use doh_server.Msg.Answers.{IpAddr, v4, v6}

abbrev pub edns_client_subnet : ℕ
edns_client_subnet = 8

-- The errors of `dns.rs`, and the function's own.
pub data EcsError : Type 0 where
  dns : DnsError → EcsError
  packet_too_short packet_too_large no_question short_packet : EcsError
  no_opt_record incomplete_rr : EcsError

-- The two headers that are looked at.
pub data HeaderName : Type 0 where
  x_forwarded_for x_real_ip : HeaderName

-- `split(',').next()`
unfoldable pub before_comma : Bytes → Bytes
before_comma [] = []
before_comma (b ∷ s) = if b == b',' then [] else b ∷ before_comma s

abbrev pub and_then : {A B : Type 0} → Option A → (A → Option B) → Option B
and_then none f = none
and_then (some a) f = f a

abbrev pub or_else : {A : Type 0} → Option A → Option A → Option A
or_else none b = b
or_else (some a) b = some a

-- A header whose value is text, by the HTTP library; `trim` and `parse` are of the standard
-- library.
module _ {Headers : Type 0} (get_text : Headers → HeaderName → Option Bytes) (trim : Bytes → Bytes)
    (parse : Bytes → Option IpAddr) where
  unfoldable pub extract_client_ip : Headers → Option IpAddr → Option IpAddr
  extract_client_ip headers remote_addr =
      or_else (and_then (get_text headers x_forwarded_for) (λ s. parse (trim (before_comma s))))
        (or_else (and_then (get_text headers x_real_ip) parse) remote_addr)

-- `prefix.div_ceil(8)`
abbrev pub prefix_bytes : ℕ → ℕ
prefix_bytes prefix = (prefix + 7) / 8

unfoldable pub build_ecs_option : IpAddr → ℕ → ℕ → Bytes
build_ecs_option (v4 octets) prefix_v4 prefix_v6 =
    be16 1 ++ prefix_v4 ∷ 0 ∷ take (min (prefix_bytes prefix_v4) 4) octets
build_ecs_option (v6 octets) prefix_v4 prefix_v6 =
    be16 2 ++ prefix_v6 ∷ 0 ∷ take (min (prefix_bytes prefix_v6) 16) octets

-- The start of `add_ecs_to_packet`: the offset of the additional section.
unfoldable pub to_additional : Bytes → Outcome EcsError ℕ
to_additional p = do
  ensure (leb 12 (length p)) packet_too_short
  ensure (leb (length p) 4096) packet_too_large
  n ← qdcount p
  ensure (n == 1) no_question
  offset ← map_err dns (skip_name p 12)
  rest ← sub (length p) offset
  ensure (leb 4 rest) short_packet
  an ← ancount p
  ns ← nscount p
  ar ← arcount p
  ensure (ltb 0 ar) no_opt_record
  (offset', _) ← map_err dns (traverse_rrs ignore p (offset + 4) (an + ns) tt)
  ok offset'

-- The record at an offset is an OPT record: a root name and the type.
unfoldable pub is_opt : Bytes → ℕ → Outcome EcsError Bool
is_opt p offset = elim (ltb offset (length p) && byte p offset == 0) [
  | true ↦ do rtype ← read_u16 p (offset + 1); ok (rtype == type_opt)
  | false ↦ ok false
]

unfoldable pub next_rr : Bytes → ℕ → Outcome EcsError ℕ
next_rr p offset = do
  o ← map_err dns (skip_name p offset)
  ensure (leb (o + 10) (length p)) incomplete_rr
  rdlen ← read_u16 p (o + 8)
  ok (o + 10 + rdlen)

-- The offset of the OPT record's RDLENGTH, with its value.
unfoldable pub find_opt_rr : ℕ → Bytes → ℕ → Outcome EcsError (ℕ × ℕ)
find_opt_rr zero p offset = err no_opt_record
find_opt_rr (suc n) p offset = do
  here ← is_opt p offset
  elim here [
    | true ↦ do rdlength ← read_u16 p (offset + 9); ok (offset + 9, rdlength)
    | false ↦ do offset' ← next_rr p offset; find_opt_rr n p offset'
  ]

-- The loop over the options of the OPT record, at most `fuel` rounds of it: is one of them a client
-- subnet?
unfoldable pub has_ecs : ℕ → Bytes → ℕ → ℕ → ℕ → Outcome EcsError Bool
has_ecs zero p rdata_start rdlength rdata_offset = out_of_fuel
has_ecs (suc fuel) p rdata_start rdlength rdata_offset =
    elim (ltb rdata_offset rdlength && leb (rdata_start + rdata_offset + 4) (length p)) [
      | false ↦ ok false
      | true ↦ do
        opt_code ← read_u16 p (rdata_start + rdata_offset)
        opt_len ← read_u16 p (rdata_start + rdata_offset + 2)
        elim (leb (rdata_start + rdata_offset + 4 + opt_len) (length p)) [
          | false ↦ ok false
          | true ↦ elim (opt_code == edns_client_subnet) [
            | true ↦ ok true
            | false ↦ has_ecs fuel p rdata_start rdlength (rdata_offset + (4 + opt_len))
          ]
        ]
    ]

-- The option with its code and its length.
unfoldable pub ecs_option : Bytes → Bytes
ecs_option ecs_data = be16 edns_client_subnet ++ be16 (length ecs_data) ++ ecs_data

-- The end of `add_ecs_to_packet`: the option goes behind the options that are there.
unfoldable pub insert_option : Bytes → ℕ → ℕ → Bytes → Outcome EcsError Bytes
insert_option p rdlength_offset rdlength option = do
  p' ← write_u16 p rdlength_offset (rdlength + length option)
  let old_rdata_end = rdlength_offset + 2 + rdlength
  ok (take old_rdata_end p' ++ option ++ drop old_rdata_end p')

unfoldable pub add_ecs_to_packet : Bytes → IpAddr → ℕ → ℕ → Outcome EcsError Bytes
add_ecs_to_packet p client_ip prefix_v4 prefix_v6 = do
  offset ← to_additional p
  ar ← arcount p
  (rdlength_offset, rdlength) ← find_opt_rr ar p offset
  has ← has_ecs (suc rdlength) p (rdlength_offset + 2) rdlength 0
  elim has [
    | true ↦ ok p
    | false ↦
        insert_option p rdlength_offset rdlength
          (ecs_option (build_ecs_option client_ip prefix_v4 prefix_v6))
  ]
