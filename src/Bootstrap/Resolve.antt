-- ===== src/Bootstrap/Resolve.antt =====
-- src/libdoh/src/lib.rs, the addresses of an upstream: the local address for a peer, the lookup with
-- the system or the bootstrap resolvers, and the choice of the address for HTTP/3.
pub mod Found
use doh_server.Prelude.{
  ℕ, Bool, true, false, not, List, [], ◌∷◌, ◌++◌, map, Option, none, some, length, take, Outcome,
  ok, err, panic, out_of_fuel, ◌>>=◌, ◌>>◌, ensure, map_err, ◌==◌, if◌then◌else◌,
}
use doh_server.Bytes.{Bytes}
use doh_server.Errors.{DohError, upstream_issue, upstream_timeout, io}
use doh_server.Msg.Answers.{IpAddr, v4, v6}
use doh_server.Bootstrap.{BootstrapDnsResult, parse_bootstrap_dns_response}
use doh_server.Bootstrap.Query.{build_bootstrap_dns_query}
use doh_server.Proxy.{max_dns_response_len}
use doh_server.Text.{trim, lowercase}
use doh_server.Upstream.FastestAddr.{is_unspecified}

-- The octets and the port; for IPv6 also `flowinfo` and `scope_id`.
pub data SocketAddr : Type 0 where
  socket_v4 : Bytes → ℕ → SocketAddr
  socket_v6 : Bytes → ℕ → ℕ → ℕ → SocketAddr

-- `Ipv4Addr::UNSPECIFIED` and `Ipv6Addr::UNSPECIFIED`
abbrev pub any_v4 : Bytes
any_v4 = 0 ∷ 0 ∷ 0 ∷ 0 ∷ []

abbrev pub any_v6 : Bytes
any_v6 = 0 ∷ 0 ∷ 0 ∷ 0 ∷ 0 ∷ 0 ∷ 0 ∷ 0 ∷ 0 ∷ 0 ∷ 0 ∷ 0 ∷ 0 ∷ 0 ∷ 0 ∷ 0 ∷ []

-- `SocketAddr::new`
abbrev pub socket_addr : IpAddr → ℕ → SocketAddr
socket_addr (v4 ip) port = socket_v4 ip port
socket_addr (v6 ip) port = socket_v6 ip port 0 0

unfoldable pub local_bind_for_peer : SocketAddr → SocketAddr → Option SocketAddr
local_bind_for_peer (socket_v4 ip port) (socket_v4 peer peer_port) = some (socket_v4 ip port)
local_bind_for_peer (socket_v6 ip port flow scope) (socket_v6 peer peer_port f s) =
    some (socket_v6 ip port flow scope)
local_bind_for_peer (socket_v4 ip port) (socket_v6 peer peer_port f s) =
    if is_unspecified (v4 ip) then some (socket_v6 any_v6 port 0 0) else none
local_bind_for_peer (socket_v6 ip port flow scope) (socket_v4 peer peer_port) =
    if is_unspecified (v6 ip) then some (socket_v4 any_v4 port) else none

-- The host with one dot at its end.
abbrev pub ends_with_dot : Bytes → Bool
ends_with_dot [] = false
ends_with_dot (b ∷ []) = b == b'.'
ends_with_dot (b ∷ c ∷ s) = ends_with_dot (c ∷ s)

module _ {X : Type 0} where
  unfoldable pub normalize_bootstrap_host : Bytes → Outcome (DohError X) Bytes
  normalize_bootstrap_host host = do
    let trimmed = trim host
    ensure (not (length trimmed == 0)) upstream_issue
    let lower = lowercase trimmed
    ok (if ends_with_dot lower then lower else lower ++ b'.' ∷ [])

  -- The error of a call, or the one of no call.
  abbrev pub or_issue : Option (DohError X) → DohError X
  or_issue none = upstream_issue
  or_issue (some e) = e

  -- The loop of `resolve_upstream_ips_with_bootstrap` over the results in the order in which they
  -- come in.
  unfoldable pub first_resolved :
      List (Outcome (DohError X) (List IpAddr))
      → Option (DohError X)
      → Outcome (DohError X) (List IpAddr)
  first_resolved [] last_err = err (or_issue last_err)
  first_resolved (ok addrs ∷ results) last_err = ok addrs
  first_resolved (err e ∷ results) last_err = first_resolved results (some e)
  first_resolved (panic ∷ results) last_err = panic
  first_resolved (out_of_fuel ∷ results) last_err = out_of_fuel

  -- Where the addresses of a host come from: it is an address itself, or the system is asked, or
  -- the bootstrap resolvers with their results.
  unfoldable pub resolve_upstream_addrs :
      Option IpAddr
      → Bool
      → Outcome X (List SocketAddr)
      → List (Outcome (DohError X) (List IpAddr))
      → ℕ
      → Outcome (DohError X) (List SocketAddr)
  resolve_upstream_addrs (some ip) has_bootstrap system results port = ok (socket_addr ip port ∷ [])
  resolve_upstream_addrs none false system results port = do
    addrs ← map_err (λ _. upstream_issue) system
    ensure (not (length addrs == 0)) upstream_issue
    ok addrs
  resolve_upstream_addrs none true system results port = do
    ips ← first_resolved results none
    let addrs = map (λ ip. socket_addr ip port) ips
    ensure (not (length addrs == 0)) upstream_issue
    ok addrs

  -- `mismatch` is the error for a local address of another family. `bind` gives the error of the
  -- socket, and `connect` that of an address.
  module _ (mismatch : X) (local_bind_address : SocketAddr)
      (bind connect : SocketAddr → Option X) where
    -- The end of `resolve_doh_addr`, behind the loop.
    abbrev pub no_address : Option X → Bool → DohError X
    no_address (some e) family_mismatch = io e
    no_address none true = io mismatch
    no_address none false = upstream_issue

    -- The loop of `resolve_doh_addr`.
    unfoldable pub first_connected :
        List SocketAddr → Option X → Bool → Outcome (DohError X) SocketAddr
    first_connected [] last_err family_mismatch = err (no_address last_err family_mismatch)
    first_connected (addr ∷ addrs) last_err family_mismatch =
        elim (local_bind_for_peer local_bind_address addr) [
          | none ↦ first_connected addrs last_err true
          | some bind_addr ↦ elim (bind bind_addr) [
            | some e ↦ err (io e)
            | none ↦ elim (connect addr) [
              | none ↦ ok addr
              | some e ↦ first_connected addrs (some e) family_mismatch
            ]
          ]
        ]

    unfoldable pub resolve_doh_addr :
        Outcome (DohError X) (List SocketAddr) → Outcome (DohError X) SocketAddr
    resolve_doh_addr resolved = do addrs ← resolved; first_connected addrs none false

  -- What the socket gives to `resolve_one_bootstrap`: the error of `bind`, `connect` and `send`, if
  -- there is one, and the datagram, `none` where the time ran out.
  unfoldable pub resolve_one_bootstrap :
      X
      → SocketAddr
      → SocketAddr
      → Bytes
      → ℕ
      → ℕ
      → Option X
      → Option (Outcome X Bytes)
      → Outcome (DohError X) BootstrapDnsResult
  resolve_one_bootstrap mismatch local_bind_address resolver host qtype query_id fault received = do
    query_packet ← build_bootstrap_dns_query host qtype query_id
    elim (local_bind_for_peer local_bind_address resolver) [
      | none ↦ err (io mismatch)
      | some bind_addr ↦ elim fault [
        | some e ↦ err (io e)
        | none ↦ elim received [
          | none ↦ err upstream_timeout
          | some datagram ↦ do
            packet ← map_err io datagram
            parse_bootstrap_dns_response (take max_dns_response_len packet) query_id qtype
        ]
      ]
    ]
