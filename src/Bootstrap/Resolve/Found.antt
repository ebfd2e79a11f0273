-- ===== src/Bootstrap/Resolve/Found.antt =====
-- The addresses that a lookup gives, and the local address for each.
use doh_server.Prelude.{
  ℕ, ◌<◌, ◌≡◌, refl, ◌⊎◌, inl, inr, Bool, true, false, not, List, [], ◌∷◌, map, Option, none, some,
  length, All, Outcome, ok, err, panic, out_of_fuel, ◌>>◌, ensure, map_err, Ends, Ends-bind,
  Ends-map_err, Ends-mono, ◌==◌, arith,
}
use doh_server.Errors.{DohError, upstream_issue, io}
use doh_server.Msg.Answers.{IpAddr, v4, v6}
use doh_server.Upstream.FastestAddr.{is_unspecified}
use doh_server.Bootstrap.Resolve.{
  SocketAddr, socket_v4, socket_v6, socket_addr, local_bind_for_peer, first_resolved,
  resolve_upstream_addrs, first_connected, resolve_doh_addr,
}

abbrev pub AnyFault : {E : Type 0} → E → Type 0
AnyFault e = Unit {0}

abbrev pub is_v4 : SocketAddr → Bool
is_v4 (socket_v4 ip port) = true
is_v4 (socket_v6 ip port f s) = false

abbrev pub port_of : SocketAddr → ℕ
port_of (socket_v4 ip port) = port
port_of (socket_v6 ip port f s) = port

abbrev pub ip_of : SocketAddr → IpAddr
ip_of (socket_v4 ip port) = v4 ip
ip_of (socket_v6 ip port f s) = v6 ip

-- A local address of the family of the peer and with the local port, or none where the families
-- differ and the local address is a certain one.
abbrev pub IsBind : SocketAddr → SocketAddr → Option SocketAddr → Type 0
IsBind l peer none = (is_v4 l ≡ not (is_v4 peer)) × (is_unspecified (ip_of l) ≡ false)
IsBind l peer (some b) = (is_v4 b ≡ is_v4 peer) × (port_of b ≡ port_of l)

-- The address to bind to has the family of the peer and the local port. There is none exactly where the
-- families differ and the local address is not the unspecified one.
pub local_bind_for_peer_lem : (l peer : SocketAddr) → IsBind l peer (local_bind_for_peer l peer)
unfolding local_bind_for_peer
local_bind_for_peer_lem (socket_v4 ip port) (socket_v4 p pp) = (refl, refl)
local_bind_for_peer_lem (socket_v6 ip port f s) (socket_v6 p pp pf ps) = (refl, refl)
local_bind_for_peer_lem (socket_v4 ip port) (socket_v6 p pp pf ps) = ground arith
local_bind_for_peer_lem (socket_v6 ip port f s) (socket_v4 p pp) = ground arith

-- The address stands in the list.
abbrev pub In : SocketAddr → List SocketAddr → Type 0
In a [] = ⊥
In a (b ∷ bs) = (b ≡ a) ⊎ In a bs

not_empty-Ends :
    (X : Type 0) (addrs : List SocketAddr)
    → Ends {E = DohError X} AnyFault
        (λ a. 0 < length a)
        (do ensure (not (length addrs == 0)) upstream_issue; ok addrs)
not_empty-Ends X addrs = ground arith

module _ {X : Type 0} where
  first_resolved-Ends :
      (results : List (Outcome (DohError X) (List IpAddr))) (e : Option (DohError X))
      → All (Ends AnyFault (λ _. Unit {0})) results
      → Ends AnyFault (λ _. Unit {0}) (first_resolved results e)
  unfolding first_resolved
  first_resolved-Ends [] e h = tt
  first_resolved-Ends (ok a ∷ rs) e h = tt
  first_resolved-Ends (err f ∷ rs) e h = first_resolved-Ends rs (some f) h.1
  first_resolved-Ends (panic ∷ rs) e h = absurd h.0
  first_resolved-Ends (out_of_fuel ∷ rs) e h = absurd h.0

  resolve_upstream_addrs-Ends :
      (ip : Option IpAddr) (has_bootstrap : Bool) (system : Outcome X (List SocketAddr))
      (results : List (Outcome (DohError X) (List IpAddr))) (port : ℕ)
      → Ends AnyFault (λ _. Unit {0}) system
      → All (Ends AnyFault (λ _. Unit {0})) results
      → Ends AnyFault
          (λ a. 0 < length a)
          (resolve_upstream_addrs ip has_bootstrap system results port)
  unfolding resolve_upstream_addrs
  resolve_upstream_addrs-Ends (some ip) b system results port h k = omega arith
  resolve_upstream_addrs-Ends none false system results port h k =
      Ends-bind AnyFault (λ _. Unit {0}) (λ a. 0 < length a) (map_err (λ _. upstream_issue) system)
        _
        (Ends-map_err AnyFault AnyFault (λ _. Unit {0}) (λ _. upstream_issue) system h (λ e l. tt))
        (λ addrs _. not_empty-Ends X addrs)
  resolve_upstream_addrs-Ends none true system results port h k =
      Ends-bind AnyFault (λ _. Unit {0}) (λ a. 0 < length a) (first_resolved results none) _
        (first_resolved-Ends results none k)
        (λ ips _. not_empty-Ends X (map (λ ip. socket_addr ip port) ips))

  module _ (mismatch : X) (l : SocketAddr) (bind connect : SocketAddr → Option X) where
    -- A socket with a local address for it connects to the address.
    abbrev pub IsReached : SocketAddr → Type 0
    IsReached a =
        (b : SocketAddr) × (local_bind_for_peer l a ≡ some b) × (bind b ≡ none) × (connect a ≡ none)

    first_connected-Ends :
        (addrs : List SocketAddr) (e : Option X) (m : Bool)
        → Ends AnyFault
            (λ a. In a addrs × IsReached a)
            (first_connected mismatch l bind connect addrs e m)
    unfolding first_connected
    first_connected-Ends [] e m = tt
    first_connected-Ends (addr ∷ addrs) e m =
        by_bind (local_bind_for_peer l addr) refl (λ e m. first_connected-Ends addrs e m)
      where
        Reached : List SocketAddr → SocketAddr → Type 0
        Reached list a = In a list × IsReached a

        later :
            (o : Outcome (DohError X) SocketAddr)
            → Ends AnyFault (Reached addrs) o
            → Ends AnyFault (Reached (addr ∷ addrs)) o
        later (ok a) h = (inr h.0, h.1)
        later (err f) h = tt
        later panic h = h
        later out_of_fuel h = h

        by_bind :
            (o : Option SocketAddr)
            → local_bind_for_peer l addr ≡ o
            → ((e : Option X) (m : Bool)
                → Ends AnyFault (Reached addrs) (first_connected mismatch l bind connect addrs e m))
            → Ends AnyFault (Reached (addr ∷ addrs)) (elim o [
              | none ↦ first_connected mismatch l bind connect addrs e true
              | some bind_addr ↦ elim (bind bind_addr) [
                | some f ↦ err (io f)
                | none ↦ elim (connect addr) [
                  | none ↦ ok addr
                  | some f ↦ first_connected mismatch l bind connect addrs (some f) m
                ]
              ]
            ])
        by_bind none h ih = later (first_connected mismatch l bind connect addrs e true) (ih e true)
        by_bind (some b) h ih = by_socket (bind b) refl (connect addr) refl
          where
            by_socket :
                (o : Option X)
                → bind b ≡ o
                → (c : Option X) → connect addr ≡ c
                → Ends AnyFault (Reached (addr ∷ addrs)) (elim o [
                  | some f ↦ err (io f)
                  | none ↦ elim c [
                    | none ↦ ok addr
                    | some f ↦ first_connected mismatch l bind connect addrs (some f) m
                  ]
                ])
            by_socket (some f) g c k = tt
            by_socket none g none k = (inl refl, (b, h, g, k))
            by_socket none g (some f) k =
                later (first_connected mismatch l bind connect addrs (some f) m) (ih (some f) m)

    -- Where the lookup of a host ends, the choice of the address for HTTP/3 ends: it gives one of the
    -- addresses of the host, to which a socket with a local address of its family connects, or it
    -- fails.
    pub resolve_doh_addr-Ends :
        (resolved : Outcome (DohError X) (List SocketAddr))
        → Ends AnyFault (λ _. Unit {0}) resolved
        → Ends AnyFault
            (λ a. (addrs : List SocketAddr) × (resolved ≡ ok addrs) × In a addrs × IsReached a)
            (resolve_doh_addr mismatch l bind connect resolved)
    unfolding resolve_doh_addr
    resolve_doh_addr-Ends (ok addrs) h =
        Ends-mono AnyFault (λ a. In a addrs × IsReached a) _
          (first_connected mismatch l bind connect addrs none false)
          (first_connected-Ends addrs none false) (λ a k. (addrs, refl, k.0, k.1))
    resolve_doh_addr-Ends (err e) h = tt
    resolve_doh_addr-Ends panic h = h
    resolve_doh_addr-Ends out_of_fuel h = h
