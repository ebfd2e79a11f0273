-- ===== src/Upstream/FastestAddr.antt =====
-- `exchange_fastest_addr` of src/libdoh/src/upstream/fastest_addr.rs: all upstreams are asked, the
-- addresses in their answers are tried, and the first reply with the fastest address is returned.
pub mod Gathers
pub mod Messages
pub mod Chooses
use doh_server.Prelude.{
  ℕ, not, Bool, true, false, List, [], ◌∷◌, ◌++◌, Option, none, some, length, take, replicate,
  Outcome, ok, err, panic, out_of_fuel, ◌>>=◌, ◌==◌, if◌then◌else◌,
}
use doh_server.Bytes.{Bytes}
use doh_server.Errors.{
  DohError, invalid_data, upstream_issue, UpstreamAttemptError, from_upstream_attempts,
}
use doh_server.Msg.Answers.{IpAddr, octets}
use doh_server.Msg.Rewrite.{
  extract_answer_ips, contains_answer_ip_in_packet, rewrite_answer_ips_in_packet,
}
use doh_server.Upstream.{
  Upstream, UpstreamStatistics, Reply, got, failed, Answer, ExchangeOutcome, somes, nth, write,
  checked, upstream_address, success, failure, with_main, stat_of, attempt_error,
}
use doh_server.Upstream.Ping.{PingResult, PingEvent, Cache, all_zero, ping_all}

-- `Ipv4Addr::is_unspecified` and `Ipv6Addr::is_unspecified`
abbrev pub is_unspecified : IpAddr → Bool
is_unspecified ip = all_zero (octets ip)

abbrev pub specified : List IpAddr → List IpAddr
specified [] = []
specified (ip ∷ ips) = if is_unspecified ip then specified ips else ip ∷ specified ips

-- The addresses that are put into the set, in the order of the loops.
unfoldable pub reply_ips : List Bytes → List IpAddr
reply_ips [] = []
reply_ips (reply ∷ replies) = specified (extract_answer_ips reply) ++ reply_ips replies

pub record ExchangeAll (X : Type 0) : Type 0 where
  pub replies : List Bytes
  pub stats : List UpstreamStatistics
  pub error : Option (DohError X)

module _ {X : Type 0} where
  -- The packet after the rewrite, or the error that stands for any of the rewrite's.
  unfoldable pub filter_response_answer : Bytes → IpAddr → Outcome (Unit {0}) (Reply X)
  filter_response_answer packet selected_ip =
      elim (rewrite_answer_ips_in_packet packet selected_ip) [
        | ok p ↦ ok (got p)
        | err e ↦ ok (failed invalid_data)
        | panic ↦ panic
        | out_of_fuel ↦ out_of_fuel
      ]

  -- `Err(_) => Ok(first_packet)`
  abbrev pub or_first : Bytes → Reply X → Reply X
  or_first first_packet (got p) = got p
  or_first first_packet (failed e) = got first_packet

  -- The loop over the replies at the end.
  unfoldable pub choose : List Bytes → Bytes → IpAddr → Outcome (Unit {0}) (Reply X)
  choose [] first_packet fastest = ok (got first_packet)
  choose (reply ∷ replies) first_packet fastest =
      elim (contains_answer_ip_in_packet reply fastest) [
        | true ↦ do
          filtered ← filter_response_answer reply fastest
          ok (or_first first_packet filtered)
        | false ↦ choose replies first_packet fastest
      ]

  abbrev pub or_issue : Option (DohError X) → DohError X
  or_issue none = upstream_issue
  or_issue (some e) = e

  -- The `err` of a collection of failures.
  abbrev pub joined : List UpstreamAttemptError → Option (DohError X)
  joined [] = none
  joined (f ∷ fs) = some (from_upstream_attempts (f ∷ fs))

  abbrev pub alone : Reply X → UpstreamStatistics → ExchangeAll X
  alone (got p) stat = record { replies = p ∷ []; stats = stat ∷ []; error = none }
  alone (failed e) stat = record { replies = []; stats = stat ∷ []; error = some e }

module _ {X : Type 0} (to_text : DohError X → Bytes) (upstreams : List Upstream)
    (answer : ℕ → Answer X) where
  -- The receiving loop. The list has the tasks in the order in which their answers arrive.
  unfoldable pub gather :
      List ℕ
      → List Bytes
      → List UpstreamAttemptError
      → List (Option UpstreamStatistics)
      → Outcome (Unit {0}) (ExchangeAll X)
  gather [] replies failures attempts =
      ok (record { replies = replies; stats = somes attempts; error = joined failures })
  gather (idx ∷ order) replies failures attempts = do
    upstream ← nth upstreams idx
    let duration = (answer idx).duration
    elim (checked (answer idx).reply) [
      | got p ↦ do
        attempts' ← write attempts idx (some (success (upstream_address upstream) duration))
        gather order (replies ++ p ∷ []) failures attempts'
      | failed e ↦ do
        attempts' ←
            write attempts idx (some (failure (upstream_address upstream) duration (to_text e)))
        gather order replies (failures ++ attempt_error to_text upstream duration e ∷ []) attempts'
    ]

  unfoldable pub exchange_all : List ℕ → Outcome (Unit {0}) (ExchangeAll X)
  exchange_all order = elim (length upstreams == 1) [
    | true ↦ do
      upstream ← nth upstreams 0
      let result = checked (answer 0).reply
      ok (alone result (stat_of to_text upstream (answer 0).duration result))
    | false ↦ gather (take (length upstreams) order) [] [] (replicate (length upstreams) none)
  ]

  -- `hash_set` gives the elements of a `HashSet` that the addresses are inserted in, in its order,
  -- and `pings` what the tasks of `ping_all` report for a list of addresses.
  module _ (hash_set : List IpAddr → List IpAddr) (pings : List IpAddr → List PingEvent)
      (same : Discrete IpAddr) (now : IpAddr → ℕ) where
    -- From the answer of `ping_all` on.
    abbrev pub deliver : List Bytes → Bytes → Option PingResult → Outcome (Unit {0}) (Reply X)
    deliver replies first_packet none = ok (got first_packet)
    deliver replies first_packet (some ping) = choose replies first_packet ping.ip

    -- From the list of addresses on.
    abbrev pub pick :
        List Bytes → Bytes → List IpAddr → Cache same → Outcome (Unit {0}) (Cache same × Reply X)
    pick replies first_packet [] c = ok (c, got first_packet)
    pick replies first_packet (ip ∷ ips) c = do
      let (c', ping) = ping_all same now (pings (ip ∷ ips)) (ip ∷ ips) c
      packet ← deliver replies first_packet ping
      ok (c', packet)

    -- From the replies on.
    unfoldable pub select :
        List Bytes → Option (DohError X) → Cache same → Outcome (Unit {0}) (Cache same × Reply X)
    select [] error c = ok (c, failed (or_issue error))
    select (first ∷ replies) error c =
        pick (first ∷ replies) first (hash_set (reply_ips (first ∷ replies))) c

    -- The outcome, with the cache of address results after the lookups.
    unfoldable pub exchange_fastest_addr :
        List ℕ → Cache same → Outcome (Unit {0}) (Cache same × ExchangeOutcome X)
    exchange_fastest_addr order c = do
      all ← exchange_all order
      (c', packet) ← select all.replies all.error c
      ok (c', record { packet = packet; query_stats = with_main all.stats })
