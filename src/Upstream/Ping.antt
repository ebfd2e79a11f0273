-- ===== src/Upstream/Ping.antt =====
-- src/libdoh/src/upstream/fastest_addr.rs from `ping_all` on: the address that answers a TCP
-- connection first, with the cache of earlier results.
pub mod Choice
pub mod Quickest
use doh_server.Prelude.{
  ℕ, zero, suc, ◌+◌, ◌-◌, ◌*◌, ◌^◌, Bool, true, false, not, ◌&&◌, List, [], ◌∷◌, ◌++◌, map, ◌||◌,
  Option, none, some, length, take, drop, min, ltb, ◌==◌, if◌then◌else◌,
}
use doh_server.Bytes.{Bytes, byte}
use doh_server.Backoff.{saturating_add}
use doh_server.Msg.Answers.{IpAddr, v4, v6, same_bytes}
use doh_server.IpCache.{FastIpCacheStatus, FastIpCacheEntry, FastestIpCache, get, upsert}

abbrev pub fastest_addr_cache_ttl_secs : ℕ
fastest_addr_cache_ttl_secs = 10 * 60

abbrev pub fastest_addr_ping_ports : List ℕ
fastest_addr_ping_ports = 80 ∷ 443 ∷ []

pub record PingResult : Type 0 where
  pub ip : IpAddr
  pub latency_ms : ℕ
  pub success : Bool

-- What the receiving loop of `ping_all` gets: the result of a task, or the end of the second that it
-- waits. The end of the list is the closed channel.
pub data PingEvent : Type 0 where
  pinged : PingResult → PingEvent
  time_out : PingEvent

abbrev pub is_success : FastIpCacheStatus → Bool
is_success FastIpCacheStatus.success = true
is_success FastIpCacheStatus.failure = false

-- The better one of the best result so far and a cached one.
abbrev pub better : Option PingResult → IpAddr → FastIpCacheEntry → Option PingResult
better none ip e =
    if is_success e.status
    then some (record { ip = ip; latency_ms = e.latency_ms; success = true })
    else none
better (some best) ip e =
    if is_success e.status && ltb e.latency_ms best.latency_ms
    then some (record { ip = ip; latency_ms = e.latency_ms; success = true })
    else some best

-- The result of a task against the best cached one.
abbrev pub quicker : Option PingResult → PingResult → PingResult
quicker none r = r
quicker (some c) r = if ltb c.latency_ms r.latency_ms then c else r

unfoldable pub wait : Option PingResult → List PingEvent → Option PingResult
wait best [] = best
wait best (time_out ∷ events) = best
wait best (pinged r ∷ events) =
    let rest = wait best events in if r.success then some (quicker best r) else rest

-- `latency.as_millis().min(u128::from(u32::MAX)) as u32`
abbrev pub clamp_ms : ℕ → ℕ
clamp_ms elapsed_ms = min elapsed_ms (2 ^ 32 - 1)

abbrev pub all_zero : Bytes → Bool
all_zero [] = true
all_zero (b ∷ bs) = b == 0 && all_zero bs

-- `Ipv6Addr::to_ipv4` of the standard library: `::a.b.c.d` and `::ffff:a.b.c.d`.
abbrev pub to_ipv4 : Bytes → Option Bytes
to_ipv4 b =
    if all_zero (take 10 b)
      && (same_bytes (take 2 (drop 10 b)) (0 ∷ 0 ∷ [])
          || same_bytes (take 2 (drop 10 b)) (255 ∷ 255 ∷ []))
    then some (drop 12 b)
    else none

abbrev pub or_v6 : Option Bytes → Bytes → IpAddr
or_v6 none b = v6 b
or_v6 (some a) b = v4 a

-- The address under which a result is kept.
unfoldable pub cache_ip_of : IpAddr → IpAddr
cache_ip_of (v4 b) = v4 b
cache_ip_of (v6 b) = or_v6 (to_ipv4 b) b

module _ (same : Discrete IpAddr) where
  abbrev pub Cache : Type 0
  Cache = FastestIpCache IpAddr

  unfoldable pub load_fastest_cache : Cache → IpAddr → ℕ → Cache × Option FastIpCacheEntry
  load_fastest_cache c ip now = get same c ip now

  abbrev pub expiry : ℕ → ℕ
  expiry now = saturating_add now (fastest_addr_cache_ttl_secs * 1000)

  abbrev pub is_none : Option FastIpCacheEntry → Bool
  is_none none = true
  is_none (some e) = false

  unfoldable pub store_fastest_failure : Cache → IpAddr → ℕ → Cache
  store_fastest_failure c ip now =
      let (c', found) = get same c ip now in
      if is_none found
      then upsert same c' ip
          (record { status = FastIpCacheStatus.failure; latency_ms = 0; expire_at_ms = expiry now })
      else c'

  abbrev pub should_replace : Option FastIpCacheEntry → ℕ → Bool
  should_replace none latency_ms = true
  should_replace (some e) latency_ms = not (is_success e.status) || ltb latency_ms e.latency_ms

  unfoldable pub store_fastest_success : Cache → IpAddr → ℕ → ℕ → Cache
  store_fastest_success c ip latency_ms now =
      let (c', found) = get same c ip now in
      if should_replace found latency_ms
      then upsert same c' ip (record {
        status = FastIpCacheStatus.success;
        latency_ms = latency_ms;
        expire_at_ms = expiry now;
      })
      else c'

  -- The task for an address: whether it could be connected to, after how long, and when that is kept.
  unfoldable pub ping_do_tcp : Cache → IpAddr → Bool → ℕ → ℕ → Cache × PingResult
  ping_do_tcp c ip connected elapsed_ms now = (
    if connected
        then store_fastest_success c (cache_ip_of ip) (clamp_ms elapsed_ms) now
        else store_fastest_failure c (cache_ip_of ip) now,
    record { ip = ip; latency_ms = clamp_ms elapsed_ms; success = connected },
  )

  -- The loop over the addresses: the best cached result, and the tasks for the others. An address is
  -- looked up at its time.
  unfoldable pub scan :
      (IpAddr → ℕ)
      → List IpAddr
      → Cache
      → Option PingResult
      → List (IpAddr × ℕ)
      → Cache × Option PingResult × List (IpAddr × ℕ)
  scan now [] c best scheduled = (c, best, scheduled)
  scan now (ip ∷ ips) c best scheduled =
      let (c', cached) = load_fastest_cache c ip (now ip) in
      elim cached [
        | none ↦
            scan now ips c' best (scheduled ++ map (λ port. (ip, port)) fastest_addr_ping_ports)
        | some e ↦ scan now ips c' (better best ip e) scheduled
      ]

  -- The cache after the lookups, with the result; the tasks change the cache on their own.
  unfoldable pub ping_all :
      (IpAddr → ℕ) → List PingEvent → List IpAddr → Cache → Cache × Option PingResult
  ping_all now events [] c = (c, none)
  ping_all now events (ip ∷ []) c = (c, some (record { ip = ip; latency_ms = 0; success = true }))
  ping_all now events (ip ∷ jp ∷ ips) c =
      let (c', best, scheduled) = scan now (ip ∷ jp ∷ ips) c none [] in
      (c', if length scheduled == 0 then best else wait best events)
