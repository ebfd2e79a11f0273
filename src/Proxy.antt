-- ===== src/Proxy.antt =====
-- `DoH::_proxy` of src/libdoh/src/lib.rs: the way of a query from the client to the upstreams and of
-- the answer back.
pub mod Serves
use doh_server.Prelude.{
  ℕ, Bool, true, false, List, Option, none, some, length, Outcome, ok, err, panic, out_of_fuel,
  ◌>>=◌, ◌>>◌, ensure, map_err, leb, if◌then◌else◌,
}
use doh_server.Bytes.{Bytes}
use doh_server.Errors.{DohError, incomplete, upstream_issue}
use doh_server.Dns.{is_recoverable_error, min_ttl}
use doh_server.Edns.{Edit, set_edns_max_payload_size, add_edns_padding}
use doh_server.Ecs.{add_ecs_to_packet}
use doh_server.Msg.Answers.{IpAddr}
use doh_server.Upstream.{
  UpstreamMode, Upstream, UpstreamStatistics, QueryStatistics, Reply, got, failed, Answer,
  ExchangeOutcome,
}
use doh_server.Upstream.Weights.{Float}
use doh_server.Upstream.Ping.{PingEvent}
use doh_server.Upstream.Exchange.{Globals, exchange}

abbrev pub min_dns_packet_len : ℕ
min_dns_packet_len = 17

abbrev pub max_dns_response_len : ℕ
max_dns_response_len = 4096

-- What `_proxy` reads of the configuration.
pub record Settings : Type 0 where
  pub enable_ecs : Bool
  pub ecs_prefix_v4 : ℕ
  pub ecs_prefix_v6 : ℕ
  pub least_ttl : ℕ
  pub most_ttl : ℕ
  pub err_ttl : ℕ
  pub upstream_mode : UpstreamMode

pub record DnsResponse : Type 0 where
  pub packet : Bytes
  pub ttl : ℕ
  pub query_stats : QueryStatistics

module _ {X : Type 0} where
  -- The packet behind an edit whose result is dropped.
  abbrev pub edited : Edit (Unit {0}) → Outcome (DohError X) Bytes
  edited (ok (p, _)) = ok p
  edited (err (_, p)) = ok p
  edited panic = panic
  edited out_of_fuel = out_of_fuel

  -- A failure to add the client's subnet is only reported.
  abbrev pub or_unchanged : {E : Type 0} → Bytes → Outcome E Bytes → Outcome (DohError X) Bytes
  or_unchanged p (ok q) = ok q
  or_unchanged p (err e) = ok p
  or_unchanged p panic = panic
  or_unchanged p out_of_fuel = out_of_fuel

  unfoldable pub with_subnet : Settings → Bytes → Option IpAddr → Outcome (DohError X) Bytes
  with_subnet settings query none = ok query
  with_subnet settings query (some client_ip) = elim settings.enable_ecs [
    | true ↦
        or_unchanged query
          (add_ecs_to_packet query client_ip settings.ecs_prefix_v4 settings.ecs_prefix_v6)
    | false ↦ ok query
  ]

  unfoldable pub ttl_of : Settings → Bytes → Outcome (DohError X) ℕ
  ttl_of settings packet = do
    recoverable ← is_recoverable_error packet
    elim recoverable [
      | true ↦ ok settings.err_ttl
      | false ↦
          map_err (λ _. upstream_issue)
            (min_ttl packet settings.least_ttl settings.most_ttl settings.err_ttl)
    ]

  -- From the answer of the upstreams on.
  unfoldable pub respond : Settings → Reply X → QueryStatistics → Outcome (DohError X) DnsResponse
  respond settings (failed e) query_stats = err e
  respond settings (got packet) query_stats = do
    ttl ← ttl_of settings packet
    padded ← edited (add_edns_padding packet)
    ok (record { packet = padded; ttl = ttl; query_stats = query_stats })

-- The parameters are those of the exchange; the answers go by the query that the upstreams are sent.
module _ {X : Type 0} (to_text : DohError X → Bytes) (float : Float) (same : Discrete Bytes)
    (same_ip : Discrete IpAddr) (upstreams : List Upstream) (answer : Bytes → ℕ → Answer X)
    (random : ℕ → float.Number) (hash_set : List IpAddr → List IpAddr)
    (pings : List IpAddr → List PingEvent) (now : IpAddr → ℕ) where
  abbrev pub Shared : Type 0
  Shared = Globals float same_ip

  -- The response with what the exchange changed, which stays with an error as well.
  abbrev pub finish :
      Settings → Shared × ExchangeOutcome X → Outcome (Shared × DohError X) (Shared × DnsResponse)
  finish settings (g, o) = do
    response ← map_err (λ e. (g, e)) (respond settings o.packet o.query_stats)
    ok (g, response)

  unfoldable pub proxy :
      Settings
      → Bytes
      → Option IpAddr
      → List ℕ
      → Shared
      → Outcome (Shared × DohError X) (Shared × DnsResponse)
  proxy settings query client_ip order g = do
    ensure (leb min_dns_packet_len (length query)) (g, incomplete)
    query' ← map_err (λ e. (g, e)) (edited (set_edns_max_payload_size query max_dns_response_len))
    query'' ← map_err (λ e. (g, e)) (with_subnet settings query' client_ip)
    exchanged ←
        map_err (λ _. (g, upstream_issue))
          (exchange to_text float same same_ip upstreams (answer query'') random hash_set pings now
            settings.upstream_mode query'' order g)
    finish settings exchanged
