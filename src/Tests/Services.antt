-- ===== src/Tests/Services.antt =====
-- The theorems on the bootstrap lookup, the HTTP/3 failures and the client subnet at concrete inputs.
use doh_server.Prelude.{
  ◌+◌, ◌/◌, ◌%◌, ◌<◌, ◌≡◌, ◌⊎◌, refl, true, false, List, take, [], ◌∷◌, ◌++◌, length, ok, Ends, ltb,
  arith,
}
use doh_server.Bytes.{Bytes, u16}
use doh_server.Dns.{skip_to_additional, traverse_rrs, ignore}
use doh_server.Errors.{DohError}
use doh_server.Bootstrap.{
  BootstrapDnsResult, to_ascii_lowercase, walk_labels, follow, parse_dns_name_lower, more_questions,
  add_addr, take_answer, take_answers, read_sections, parse_bootstrap_dns_response,
}
use doh_server.Bootstrap.Total.{AnyDohError}
use doh_server.Bootstrap.Answers.{Found, parse_bootstrap_dns_response-Ends}
use doh_server.Backoff.{
  Event, failed_at, reset, record_h3_failure, h3_backoff_active, can_rebuild, fresh, IsBelow,
  IsSoon, IsFirst, record_h3_failure_lem,
}
use doh_server.Ecs.{build_ecs_option, add_ecs_to_packet}
use doh_server.Ecs.{to_additional, is_opt, next_rr, find_opt_rr, has_ecs, ecs_option, insert_option}
use doh_server.Ecs.Safety.{AnyEcsError, add_ecs_to_packet-Ends}
use doh_server.Msg.Answers.{v4}
use doh_server.Tests.{program}
use doh_server.Tests.Packets.{query_with_opt, response}

abbrev parsed : BootstrapDnsResult
parsed = record { addrs = v4 (192 ∷ 0 ∷ 2 ∷ 1 ∷ []) ∷ []; min_ttl_secs = 300 }

parses_the_response : parse_bootstrap_dns_response {X = Unit {0}} response 4660 1 ≡ ok parsed
unfolding program to_ascii_lowercase walk_labels follow parse_dns_name_lower more_questions add_addr
    take_answer take_answers read_sections parse_bootstrap_dns_response
parses_the_response = refl

-- A name that is a pointer to itself is refused.
abbrev pub loop_at_twelve : Bytes
loop_at_twelve = 0 ∷ 0 ∷ 0 ∷ 0 ∷ 0 ∷ 0 ∷ 0 ∷ 0 ∷ 0 ∷ 0 ∷ 0 ∷ 0 ∷ 192 ∷ 12 ∷ []

parse_bootstrap_dns_response-Ends_example :
    Ends {E = DohError (Unit {0})} AnyDohError
      (λ r. (u16 response 0 ≡ 4660) × (u16 response 2 / 32768 % 2 ≡ 1) × Found 1 (u16 response 6) r)
      (parse_bootstrap_dns_response response 4660 1)
parse_bootstrap_dns_response-Ends_example =
    parse_bootstrap_dns_response-Ends (Unit {0}) response 4660 1

abbrev events : List Event
events = failed_at 1000 ∷ failed_at 2000 ∷ reset ∷ failed_at 3000 ∷ failed_at 4000 ∷ []

record_h3_failure_lem_example :
    let s = record fresh { h3_failures = 2; h3_last_failure_ms = 4000 } in
    let r = record_h3_failure s 5000 in
    ((r.1 ≡ true)
      × (s.h3_failures ≡ 2)
      × IsSoon s 5000
      × (r.0.h3_failures ≡ 0)
      × (h3_backoff_active r.0 6000 ≡ ltb 6000 (5000 + 30000)))
    ⊎ ((r.1 ≡ false)
        × (h3_backoff_active r.0 6000 ≡ h3_backoff_active s 6000)
        × ((IsFirst s 5000 × (r.0.h3_failures ≡ 1))
            ⊎ (IsSoon s 5000 × (r.0.h3_failures ≡ s.h3_failures + 1) × IsBelow r.0)))
record_h3_failure_lem_example =
    record_h3_failure_lem (record fresh { h3_failures = 2; h3_last_failure_ms = 4000 }) 5000 6000
      (omega arith) (omega arith)

first_rebuild : (can_rebuild 0 5000).1 ≡ true
unfolding can_rebuild
first_rebuild = refl

second_rebuild : (can_rebuild (can_rebuild 0 5000).0 7000).1 ≡ true
unfolding can_rebuild
second_rebuild = refl

walks_the_query : skip_to_additional query_with_opt ≡ ok 29
unfolding program
walks_the_query = refl

walks_the_record : traverse_rrs ignore query_with_opt 29 (u16 query_with_opt 10) tt ≡ ok (40, tt)
unfolding program
walks_the_record = refl

has_records : 0 < u16 query_with_opt 10
unfolding program
has_records = omega arith

add_ecs_to_packet-Ends_example :
    let ip = v4 (203 ∷ 0 ∷ 113 ∷ 1 ∷ []) in
    Ends AnyEcsError
      (λ q.
        (q ≡ query_with_opt)
        ⊎ (length q ≡ length query_with_opt + 4 + length (build_ecs_option ip 24 56)))
      (add_ecs_to_packet query_with_opt ip 24 56)
add_ecs_to_packet-Ends_example =
    add_ecs_to_packet-Ends query_with_opt (v4 (203 ∷ 0 ∷ 113 ∷ 1 ∷ [])) 24 56 29 40 walks_the_query
      has_records walks_the_record

-- The packet is 11 bytes longer.
adds_the_subnet :
    add_ecs_to_packet query_with_opt (v4 (203 ∷ 0 ∷ 113 ∷ 1 ∷ [])) 24 56
    ≡ ok (take 38 query_with_opt ++ 0 ∷ 11 ∷ 0 ∷ 8 ∷ 0 ∷ 7 ∷ 0 ∷ 1 ∷ 24 ∷ 0 ∷ 203 ∷ 0 ∷ 113 ∷ [])
unfolding program build_ecs_option to_additional is_opt next_rr find_opt_rr has_ecs ecs_option
    insert_option add_ecs_to_packet
adds_the_subnet = refl
