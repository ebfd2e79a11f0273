-- ===== src/DnsJson/Query.antt =====
-- `build_dns_query` of src/libdoh/src/dns_json.rs: the query for the parameters of the JSON API.
pub mod Wire
pub mod Packs
use doh_server.Prelude.{
  ℕ, ◌+◌, ◌/◌, ◌%◌, ◌^◌, Bool, true, false, ◌||◌, List, [], ◌∷◌, ◌++◌, Option, none, some, length,
  take, replicate, set, get_or, ◌==◌, if◌then◌else◌,
}
use doh_server.Bytes.{Bytes, be16, set_u16}
use doh_server.Dns.{type_opt}
use doh_server.DnsJson.Response.{class_in}
use doh_server.Bootstrap.Query.{split_dots}

pub record DnsJsonQuery : Type 0 where
  pub name : Bytes
  pub qtype : Option ℕ
  pub cd : Option Bool
  pub ct : Option Bytes
  pub do_ : Option Bool
  pub edns_client_subnet : Option Bytes

-- `unwrap_or(TYPE_A)`, and `unwrap_or(false)`
abbrev pub or_type_a : Option ℕ → ℕ
or_type_a none = 1
or_type_a (some t) = t

abbrev pub or_false : Option Bool → Bool
or_false none = false
or_false (some b) = b

abbrev pub is_some : Option Bytes → Bool
is_some none = false
is_some (some s) = true

-- The labels behind the packet; empty ones are left out.
unfoldable pub push_query_labels : List Bytes → Bytes → Bytes
push_query_labels [] packet = packet
push_query_labels (label ∷ labels) packet =
    let empty = length label == 0 in
    if empty
    then push_query_labels labels packet
    else push_query_labels labels (packet ++ (length label % 256) ∷ label)

-- The option for an IPv4 address by its octets.
abbrev pub subnet_option : Option Bytes → Bytes
subnet_option none = []
subnet_option (some octets) = 0 ∷ 8 ∷ 0 ∷ 7 ∷ 0 ∷ 1 ∷ 24 ∷ 0 ∷ take 3 octets

-- The twelve bytes in front, with two random ones.
abbrev pub start_of : ℕ → ℕ → Bool → Bytes
start_of r0 r1 cd =
    let a = set (set (set (set (replicate 12 0) 0 r0) 1 r1) 2 1) 3 0 in
    let b = if cd then set a 3 (get_or a 3 0 + 16) else a in set_u16 b 4 1

-- The OPT record behind the packet.
abbrev pub push_opt : Bool → Bytes → Bytes → Bytes
push_opt dnssec_ok opt_data packet =
    let p = set_u16 packet 10 1 ++ 0 ∷ [] in
    let q = p ++ be16 type_opt ++ 16 ∷ 0 ∷ [] in
    let r = q ++ 0 ∷ [] ++ 0 ∷ [] in
    let s = r ++ be16 (if dnssec_ok then 32768 else 0) in
    let rdlength_pos = length s in
    set_u16 (s ++ 0 ∷ 0 ∷ []) rdlength_pos (length opt_data % 2 ^ 16) ++ opt_data

-- `parse` is the parser of `Ipv4Addr` of the standard library, by its octets.
module _ (parse : Bytes → Option Bytes) where
  -- `if let Some(subnet)` and `if let Ok(addr)`
  abbrev pub opt_data_of : Option Bytes → Bytes
  opt_data_of none = []
  opt_data_of (some subnet) = subnet_option (parse subnet)

  -- The code returns no error.
  unfoldable pub build_dns_query : DnsJsonQuery → ℕ → ℕ → Bytes
  build_dns_query query r0 r1 =
      let packet = push_query_labels (split_dots query.name) (start_of r0 r1 (or_false query.cd)) in
      let packet' = packet ++ 0 ∷ [] ++ be16 (or_type_a query.qtype) ++ be16 class_in in
      if or_false query.do_ || is_some query.edns_client_subnet
      then push_opt (or_false query.do_) (opt_data_of query.edns_client_subnet) packet'
      else packet'
