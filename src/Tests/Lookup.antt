-- ===== src/Tests/Lookup.antt =====
-- The theorems on the bootstrap query, its cache and the names of the JSON answers at concrete inputs.
use doh_server.Prelude.{
  ℕ, ◌≡◌, refl, Bool, [], ◌∷◌, List, ok, out_of_fuel, ◌/◌, ◌==◌, Ends, Outcome, arith,
}
use doh_server.Bytes.{Bytes, byte}
use doh_server.Errors.{DohError}
use doh_server.Bootstrap.{BootstrapDnsResult}
use doh_server.Bootstrap.Total.{AnyDohError}
use doh_server.Bootstrap.Query.{
  trim_dots, split_dots, has_zero, query_header, push_labels, build_bootstrap_dns_query, query_msg,
  build_bootstrap_dns_query-Ends,
}
use doh_server.Bootstrap.Cache.{BootstrapCache}
use doh_server.Msg.Codec.{pack}
use doh_server.Msg.Answers.{IpAddr, v4}
use doh_server.Msg.{Name}
use doh_server.Msg.Names.{from_wire, pointer_to}
use doh_server.DnsJson.{parse_name}
use doh_server.DnsJson.Names.{parse_name_diverges}
use doh_server.Tests.Services.{loop_at_twelve}
use doh_server.Tests.{program}
use doh_server.Tests.Packets.{query, response}

-- `example.com..`
abbrev host : Bytes
host = b'e' ∷ b'x' ∷ b'a' ∷ b'm' ∷ b'p' ∷ b'l' ∷ b'e' ∷ b'.' ∷ b'c' ∷ b'o' ∷ b'm' ∷ b'.' ∷ b'.' ∷ []

builds_the_query : build_bootstrap_dns_query {X = Unit {0}} host 1 0 ≡ ok query
unfolding program trim_dots split_dots has_zero query_header push_labels build_bootstrap_dns_query
builds_the_query = refl

build_bootstrap_dns_query-Ends_example :
    Ends {E = DohError (Unit {0})} AnyDohError
      (λ q. pack (query_msg host 1 4660) ≡ ok q)
      (build_bootstrap_dns_query host 1 4660)
build_bootstrap_dns_query-Ends_example = build_bootstrap_dns_query-Ends (Unit {0}) host 1 4660

abbrev same : ℕ → ℕ → Bool
same a b = a == b

-- The result for a response without an address.
abbrev no_addrs : BootstrapDnsResult
no_addrs = record { addrs = []; min_ttl_secs = 4294967295 }

abbrev Resolved : Type 0
Resolved = Outcome (DohError (Unit {0})) (BootstrapCache same × List IpAddr)

abbrev seven : Bytes → ℕ
seven name = 7

abbrev answers : BootstrapDnsResult → Bytes → Outcome (DohError (Unit {0})) BootstrapDnsResult
answers r name = ok r

abbrev one_addr : BootstrapDnsResult
one_addr = record { addrs = v4 (192 ∷ 0 ∷ 2 ∷ 1 ∷ []) ∷ []; min_ttl_secs = 60 }

abbrev other_addr : BootstrapDnsResult
other_addr = record { addrs = v4 (192 ∷ 0 ∷ 2 ∷ 2 ∷ []) ∷ []; min_ttl_secs = 60 }

abbrev host_name : Bytes
host_name = b'a' ∷ b'.' ∷ []

-- The text of a label, for labels that are plain text.
abbrev plain : Bytes → Bytes
plain b = b

abbrev example : Name
example = record {
  labels = (b'e' ∷ b'x' ∷ b'a' ∷ b'm' ∷ b'p' ∷ b'l' ∷ b'e' ∷ []) ∷ (b'c' ∷ b'o' ∷ b'm' ∷ []) ∷ [];
}

reads_the_name : from_wire response 29 ≡ ok (example, 31)
unfolding program
reads_the_name = refl

points_to_itself :
    (byte loop_at_twelve 12 / 64 ≡ 3)
    × (pointer_to (byte loop_at_twelve 12) (byte loop_at_twelve 13) ≡ 12)
unfolding program
points_to_itself = (refl, refl)

parse_name_diverges_example : parse_name plain 1000000 loop_at_twelve 12 ≡ out_of_fuel
parse_name_diverges_example =
    parse_name_diverges plain 1000000 loop_at_twelve 12 (omega arith) points_to_itself.0
      points_to_itself.1
