-- ===== src/Proxy/Serves.antt =====
-- What the client of the proxy gets.
use doh_server.Prelude.{
  ℕ, ◌+◌, ◌≡◌, ◌⊎◌, Bool, true, false, List, Option, none, length, All, ◌%◌, ◌==◌, ◌||◌, Outcome,
  ok, ◌>>=◌, Ends,
}
use doh_server.Bytes.{Bytes, byte}
use doh_server.Errors.{DohError, upstream_issue}
use doh_server.Dns.Ttl.{IsMinTtl}
use doh_server.Edns.{set_edns_max_payload_size}
use doh_server.Edns.Safety.{Grown}
use doh_server.Edns.Size.{Padded}
use doh_server.Msg.Answers.{IpAddr, Among}
use doh_server.Upstream.{Upstream, Answer}
use doh_server.Upstream.Weights.{Float}
use doh_server.Upstream.Ping.{PingEvent}
use doh_server.Upstream.Ping.Choice.{IsOn}
use doh_server.Upstream.Exchange.{Globals}
use doh_server.Upstream.Origin.{IsFrom}
use doh_server.Proxy.{max_dns_response_len, Settings, DnsResponse, edited}

-- The response code says that the server failed or refused (`SERVFAIL`, `REFUSED`).
abbrev pub may_go_away : Bytes → Bool
may_go_away p = byte p 3 % 16 == 2 || byte p 3 % 16 == 5

-- The time that an answer may be kept for: that of an error where its response code is one that may
-- go away, and else the one of the records.
abbrev pub IsTtl : Settings → Bytes → ℕ → Type 0
IsTtl settings p t =
    ((may_go_away p ≡ true) × (t ≡ settings.err_ttl))
    ⊎ ((may_go_away p ≡ false) × IsMinTtl p settings.least_ttl settings.most_ttl settings.err_ttl t)

-- The size of a packet that was padded, or of one that could not be.
abbrev pub IsSized : Bytes → Bytes → Type 0
IsSized p q = Grown p q ⊎ (Padded (length p) q ⊎ Padded (length p + 11) q)

abbrev pub IsIssue : {X : Type 0} → DohError X → Type 0
IsIssue e = e ≡ upstream_issue

-- The rest of a response to a packet.
pub record IsResponse (settings : Settings) (p : Bytes) (r : DnsResponse) : Type 0 where
  pub ttl : IsTtl settings p r.ttl
  pub size : IsSized p r.packet

-- A client whose subnet is not sent on.
abbrev pub HidesClient : Settings → Option IpAddr → Type 0
HidesClient settings client_ip = (settings.enable_ecs ≡ false) ⊎ (client_ip ≡ none)

module _ {X : Type 0} (to_text : DohError X → Bytes) (float : Float) (same : Discrete Bytes)
    (same_ip : Discrete IpAddr) (upstreams : List Upstream) (answer : Bytes → ℕ → Answer X)
    (random : ℕ → float.Number) (hash_set : List IpAddr → List IpAddr)
    (pings : List IpAddr → List PingEvent) (now : IpAddr → ℕ)
    (hash_set-Among : (ips : List IpAddr) (ip : IpAddr) → Among ip (hash_set ips) → Among ip ips)
    (pings-IsOn : (ips : List IpAddr) → All (IsOn (λ ip. Among ip ips)) (pings ips)) where
  -- The query as the upstreams are sent it.
  abbrev pub IsSent : Bytes → Bytes → Type 0
  IsSent query q = edited {X = X} (set_edns_max_payload_size query max_dns_response_len) ≡ ok q

  -- A response to the answer of an upstream to the query that was sent, or the error of an answer
  -- whose records cannot be read.
  abbrev pub IsServed :
      Settings
      → Bytes
      → Outcome (Globals float same_ip × DohError X) (Globals float same_ip × DnsResponse)
      → Type 0
  IsServed settings query =
      Ends (λ e. IsIssue e.1)
        (λ r.
          (q p : Bytes) × IsSent query q
          × IsFrom upstreams (answer q) p
          × IsResponse settings p r.1)
