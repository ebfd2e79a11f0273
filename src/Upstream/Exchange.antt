-- ===== src/Upstream/Exchange.antt =====
-- `exchange` of src/libdoh/src/upstream/mod.rs: the mode of the configuration chooses how the
-- upstreams are asked. `UpstreamMode::from_str` is that of src/libdoh/src/globals.rs.
pub mod Alone
pub mod Replies
use doh_server.Prelude.{
  ℕ, Bool, true, false, List, [], ◌∷◌, Option, none, some, length, Outcome, ok, ◌>>=◌, map_err,
  if◌then◌else◌, ◌==◌,
}
use doh_server.Bytes.{Bytes, byte}
use doh_server.RrType.{RrType}
use doh_server.Errors.{DohError, upstream_issue}
use doh_server.Msg.Answers.{IpAddr, same_bytes}
use doh_server.Msg.Rewrite.{qtype_from_packet}
use doh_server.Upstream.{
  UpstreamMode, load_balance, parallel, fastest_addr, Upstream, failed, Answer, ExchangeOutcome,
  with_main,
}
use doh_server.Upstream.Weights.{Float, RttMap}
use doh_server.Upstream.LoadBalance.{exchange_load_balance}
use doh_server.Upstream.Parallel.{exchange_parallel}
use doh_server.Upstream.Ping.{PingEvent, Cache}
use doh_server.Upstream.FastestAddr.{exchange_fastest_addr}

abbrev pub load_balance_text : Bytes
load_balance_text =
    b'l' ∷ b'o' ∷ b'a' ∷ b'd' ∷ b'_' ∷ b'b' ∷ b'a' ∷ b'l' ∷ b'a' ∷ b'n' ∷ b'c' ∷ b'e' ∷ []

abbrev pub parallel_text : Bytes
parallel_text = b'p' ∷ b'a' ∷ b'r' ∷ b'a' ∷ b'l' ∷ b'l' ∷ b'e' ∷ b'l' ∷ []

abbrev pub fastest_addr_text : Bytes
fastest_addr_text =
    b'f' ∷ b'a' ∷ b's' ∷ b't' ∷ b'e' ∷ b's' ∷ b't' ∷ b'_' ∷ b'a' ∷ b'd' ∷ b'd' ∷ b'r' ∷ []

-- `UpstreamMode::from_str`
unfoldable pub from_str : Bytes → Option UpstreamMode
from_str value =
    if same_bytes value load_balance_text
    then some load_balance
    else if same_bytes value parallel_text
    then some parallel
    else if same_bytes value fastest_addr_text
    then some fastest_addr
    else none

-- `matches!(qtype, Some(RrType::A) | Some(RrType::AAAA))`
abbrev pub asks_address : Option RrType → Bool
asks_address (some RrType.a) = true
asks_address (some RrType.aaaa) = true
asks_address _ = false

-- What an exchange changes of `globals`.
pub record Globals (float : Float) (same_ip : Discrete IpAddr) : Type 0 where
  pub rtts : RttMap float
  pub cache : Cache same_ip

-- The answers of the upstreams are those to the query; they arrive in the order `order` where the
-- upstreams are asked at once. The other parameters are those of the modes.
module _ {X : Type 0} (to_text : DohError X → Bytes) (float : Float) (same : Discrete Bytes)
    (same_ip : Discrete IpAddr) (upstreams : List Upstream) (answer : ℕ → Answer X)
    (random : ℕ → float.Number) (hash_set : List IpAddr → List IpAddr)
    (pings : List IpAddr → List PingEvent) (now : IpAddr → ℕ) where
  abbrev pub by_load_balance :
      Globals float same_ip → Outcome (Unit {0}) (Globals float same_ip × ExchangeOutcome X)
  by_load_balance g = do
    (o, rtts') ← exchange_load_balance to_text float same upstreams answer random g.rtts
    ok (record g { rtts = rtts' }, o)

  abbrev pub by_fastest_addr :
      List ℕ
      → Globals float same_ip
      → Outcome (Unit {0}) (Globals float same_ip × ExchangeOutcome X)
  by_fastest_addr order g = do
    (cache', o) ←
        exchange_fastest_addr to_text upstreams answer hash_set pings same_ip now order g.cache
    ok (record g { cache = cache' }, o)

  -- The match on the mode.
  abbrev pub dispatch :
      UpstreamMode
      → Bytes
      → List ℕ
      → Globals float same_ip
      → Outcome (Unit {0}) (Globals float same_ip × ExchangeOutcome X)
  dispatch parallel query order g = do
    o ← exchange_parallel to_text upstreams answer order
    ok (g, o)
  dispatch load_balance query order g = by_load_balance g
  dispatch fastest_addr query order g = do
    qtype ← map_err (λ _. tt) (qtype_from_packet query)
    elim (asks_address qtype) [ true ↦ by_fastest_addr order g | false ↦ by_load_balance g ]

  unfoldable pub exchange :
      UpstreamMode
      → Bytes
      → List ℕ
      → Globals float same_ip
      → Outcome (Unit {0}) (Globals float same_ip × ExchangeOutcome X)
  exchange mode query order g = elim upstreams [
    | [] ↦ ok (g, record { packet = failed upstream_issue; query_stats = with_main [] })
    | u ∷ us ↦ dispatch mode query order g
  ]
