-- ===== src/Upstream/Ping/Choice.antt =====
-- The address that `ping_all` chooses.
use doh_server.Prelude.{
  ℕ, ◌≡◌, refl, true, List, [], ◌∷◌, ◌++◌, map, Option, none, some, All, arith,
}
use doh_server.Msg.Answers.{IpAddr}
use doh_server.IpCache.{FastIpCacheEntry}
use doh_server.Upstream.Ping.{
  PingResult, PingEvent, pinged, time_out, better, wait, Cache, load_fastest_cache,
  fastest_addr_ping_ports, scan, ping_all,
}

module _ (P : IpAddr → Type 0) where
  -- A result that is successful and of an address with the property.
  abbrev pub IsChoice : Option PingResult → Type 0
  IsChoice none = Unit
  IsChoice (some r) = P r.ip × (r.success ≡ true)

  abbrev pub IsOn : PingEvent → Type 0
  IsOn (pinged r) = P r.ip
  IsOn time_out = Unit

  better-IsChoice :
      (best : Option PingResult) (ip : IpAddr) (e : FastIpCacheEntry)
      → IsChoice best
      → P ip
      → IsChoice (better best ip e)
  better-IsChoice none ip e b h = ground arith
  better-IsChoice (some r) ip e b h = ground arith

  wait-IsChoice :
      (best : Option PingResult) (events : List PingEvent)
      → IsChoice best
      → All IsOn events
      → IsChoice (wait best events)
  unfolding wait
  wait-IsChoice best [] b h = b
  wait-IsChoice best (time_out ∷ events) b h = b
  wait-IsChoice none (pinged r ∷ events) b h = ground (arith, wait-IsChoice none events b h.1)
  wait-IsChoice (some c) (pinged r ∷ events) b h =
      ground (arith, wait-IsChoice (some c) events b h.1)

  module _ (same : Discrete IpAddr) (now : IpAddr → ℕ) where
    scan-IsChoice :
        (ips : List IpAddr) (c : Cache same) (best : Option PingResult)
        (scheduled : List (IpAddr × ℕ))
        → All P ips
        → IsChoice best
        → IsChoice (scan same now ips c best scheduled).1
    unfolding scan
    scan-IsChoice [] c best scheduled h b = b
    scan-IsChoice (ip ∷ ips) c best scheduled h b =
        by_entry (load_fastest_cache same c ip (now ip)).1
          (scan-IsChoice ips (load_fastest_cache same c ip (now ip)).0 best
            (scheduled ++ map (λ port. (ip, port)) fastest_addr_ping_ports) h.1 b)
          (λ e.
            scan-IsChoice ips (load_fastest_cache same c ip (now ip)).0 (better best ip e) scheduled
              h.1 (better-IsChoice best ip e b h.0))
      where
        by_entry :
            (o : Option FastIpCacheEntry)
            → IsChoice
                (scan same now ips
                  (load_fastest_cache same c ip (now ip)).0
                  best
                  (scheduled ++ map (λ port. (ip, port)) fastest_addr_ping_ports)).1
            → ((e : FastIpCacheEntry)
                → IsChoice
                    (scan same now ips
                      (load_fastest_cache same c ip (now ip)).0
                      (better best ip e)
                      scheduled).1)
            → IsChoice
                (elim o as (λ _. Cache same × Option PingResult × List (IpAddr × ℕ)) [
                  | none ↦
                      scan same now ips
                        (load_fastest_cache same c ip (now ip)).0
                        best
                        (scheduled ++ map (λ port. (ip, port)) fastest_addr_ping_ports)
                  | some e ↦
                      scan same now ips
                        (load_fastest_cache same c ip (now ip)).0
                        (better best ip e)
                        scheduled
                ]).1
        by_entry none k l = k
        by_entry (some e) k l = l e

    -- What `ping_all` returns is one of the addresses.
    pub ping_all-IsChoice :
        (events : List PingEvent) (ips : List IpAddr) (c : Cache same)
        → All IsOn events
        → All P ips
        → IsChoice (ping_all same now events ips c).1
    unfolding ping_all
    ping_all-IsChoice events [] c k h = tt
    ping_all-IsChoice events (ip ∷ []) c k h = (h.0, refl)
    ping_all-IsChoice events (ip ∷ jp ∷ ips) c k h =
        let chosen : IsChoice (scan same now (ip ∷ jp ∷ ips) c none []).1 =
          scan-IsChoice (ip ∷ jp ∷ ips) c none [] h tt in
        ground
          (arith, chosen, wait-IsChoice (scan same now (ip ∷ jp ∷ ips) c none []).1 events chosen k)
