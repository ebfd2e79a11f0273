-- ===== src/Tests/Packets.antt =====
-- The packets of the tests in src/libdoh/src/edns_ecs.rs and src/libdoh/src/upstream/mod.rs.
use doh_server.Prelude.{◌≡◌, refl, [], ◌∷◌, ◌++◌, ok, some, none, Option, length}
use mathlib.Core.Option
use doh_server.Bytes.{Bytes}
use doh_server.Tests.{program}
use doh_server.Dns.{skip_name, min_ttl}
use doh_server.Edns.{set_edns_max_payload_size, add_edns_padding, Edit}

abbrev pub example_com : Bytes
example_com = 7 ∷ b'e' ∷ b'x' ∷ b'a' ∷ b'm' ∷ b'p' ∷ b'l' ∷ b'e' ∷ 3 ∷ b'c' ∷ b'o' ∷ b'm' ∷ 0 ∷ []

abbrev pub query : Bytes
query = (0 ∷ 0 ∷ 1 ∷ 0 ∷ 0 ∷ 1 ∷ 0 ∷ 0 ∷ 0 ∷ 0 ∷ 0 ∷ 0 ∷ []) ++ (example_com ++ 0 ∷ 1 ∷ 0 ∷ 1 ∷ [])

abbrev pub query_with_opt : Bytes
query_with_opt =
    (0 ∷ 0 ∷ 1 ∷ 0 ∷ 0 ∷ 1 ∷ 0 ∷ 0 ∷ 0 ∷ 0 ∷ 0 ∷ 1 ∷ [])
    ++ (example_com ++ 0 ∷ 1 ∷ 0 ∷ 1 ∷ 0 ∷ 0 ∷ 41 ∷ 16 ∷ 0 ∷ 0 ∷ 0 ∷ 0 ∷ 0 ∷ 0 ∷ 0 ∷ [])

skips_the_name : skip_name query 12 ≡ ok 25
unfolding program
skips_the_name = refl

adds_the_record : set_edns_max_payload_size query 4096 ≡ ok (query_with_opt, tt)
unfolding program
adds_the_record = refl

-- The packet of an edit that succeeds.
abbrev packet_of : Edit (Unit {0}) → Option Bytes
packet_of (ok (p, _)) = some p
packet_of _ = none

-- A response with one address, its name a pointer to the question.
abbrev pub response : Bytes
response =
    (18 ∷ 52 ∷ 129 ∷ 128 ∷ 0 ∷ 1 ∷ 0 ∷ 1 ∷ 0 ∷ 0 ∷ 0 ∷ 0 ∷ [])
    ++ (example_com
        ++ 0 ∷ 1 ∷ 0 ∷ 1 ∷ 192 ∷ 12 ∷ 0 ∷ 1 ∷ 0 ∷ 1 ∷ 0 ∷ 0 ∷ 1 ∷ 44 ∷ 0 ∷ 4 ∷ 192 ∷ 0 ∷ 2 ∷ 1 ∷ [])

least_ttl : min_ttl response 10 604800 2 ≡ ok 300
unfolding program
least_ttl = refl

-- The query takes 29 bytes and 40 with the OPT record; padding aims at 64 and ends at 68.
padded_size : Option.map length (packet_of (add_edns_padding query)) ≡ some 68
unfolding program
padded_size = refl
