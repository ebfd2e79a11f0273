-- ===== src/Tests/Start.antt =====
-- The command line, the clients, the query string and the transports at concrete inputs.
use doh_server.Prelude.{
  ℕ, zero, suc, ◌+◌, ◌-◌, ◌*◌, ◌/◌, ◌≤◌, ◌<◌, ◌≡◌, ◌⊎◌, refl, sym, ap, true, false, List, [], ◌∷◌,
  ◌++◌, Option, none, some, All-append, All-replicate, length, length-append, length-replicate,
  replicate, ok, err, Ends, ◌==◌, if◌then◌else◌, arith,
}
use doh_server.Bytes.{Bytes, be16}
use doh_server.Errors.{DohError, too_large}
use doh_server.Text.Laws.{Lacks}
use doh_server.Msg.Answers.{same_bytes}
use doh_server.Http.{query_of, read_body}
use doh_server.Http.Params.{dns_param, get_iff_post}
use doh_server.Transport.{Stream, Udp, proxy_dns_udp_tcp, dns_exchange_over_stream}
use doh_server.Transport.Sizes.{AnyError, IsPacketSize, proxy_dns_udp_tcp-Ends}
use doh_server.Transport.Streams.{dns_exchange_over_stream_lem}
use doh_server.Clients.{
  ClientEvent, arrives, arrives_over_h3, withdraws, finishes, after_clients, idle, IsCounted,
  after_clients-IsCounted,
}
use doh_server.Bootstrap.Resolve.{SocketAddr, socket_v4}
use doh_server.Config.{
  starts_with, Url, Host, domain_host, UpstreamArg, is_url, verify_scheme, verify_upstream,
  parse_upstream_arg,
}
use doh_server.Config.Accepts.{IsUnresolved, parse-verify}

abbrev shift : Bytes → Bytes
shift [] = []
shift (b ∷ s) = (b + 100) ∷ shift s

abbrev unshift : Bytes → Bytes
unshift [] = []
unshift (b ∷ s) = let rest = unshift s in if b == 0 then rest else (b - 100) ∷ rest

-- An encoding with the lengths of Base64.
abbrev encode : Bytes → Bytes
encode q = replicate ((length q + 2) / 3) 0 ++ shift q

abbrev decode : Bytes → Option Bytes
decode s = some (unshift s)

shift-Lacks : (c : ℕ) (q : Bytes) → c < 100 → Lacks c (shift q)
shift-Lacks c [] h = tt
shift-Lacks c (b ∷ q) h = (ground arith, shift-Lacks c q h)

encode-Lacks : (c : ℕ) (q : Bytes) → 0 < c → c < 100 → Lacks c (encode q)
encode-Lacks c q h k =
    All-append (λ b. (b == c) ≡ false) (replicate ((length q + 2) / 3) 0) (shift q)
      (All-replicate (λ b. (b == c) ≡ false) ((length q + 2) / 3) 0 (ground arith))
      (shift-Lacks c q k)

length-shift : (q : Bytes) → length (shift q) ≡ length q
length-shift [] = refl
length-shift (b ∷ q) = ap suc (length-shift q)

length-encode : (q : Bytes) → length (encode q) ≡ (length q * 4 + 2) / 3
length-encode q = omega (
  arith,
  length-append (replicate ((length q + 2) / 3) 0) (shift q),
  length-replicate {A = ℕ} ((length q + 2) / 3) 0,
  length-shift q,
)

unshift-shift : (q : Bytes) → unshift (shift q) ≡ q
unshift-shift [] = refl
unshift-shift (b ∷ q) =
    let n : (b + 100 == 0) ≡ false = ground arith in
    let d : b + 100 - 100 ≡ b = omega arith in rw (n, d, unshift-shift q) refl

unshift-pad : (n : ℕ) (s : Bytes) → unshift (replicate n 0 ++ s) ≡ unshift s
unshift-pad zero s = refl
unshift-pad (suc n) s = unshift-pad n s

decode-encode : (q : Bytes) → decode (encode q) ≡ some q
decode-encode q = rw (unshift-pad ((length q + 2) / 3) (shift q), unshift-shift q) refl

abbrev query : Bytes
query = replicate 20 1

get_iff_post_example :
    ((length query + 1 ≤ 512)
      × (query_of decode (dns_param (encode query)) ≡ some query)
      × (read_body {X = Unit {0}} (record { upper = some (length query); collected = some query })
          ≡ ok query))
    ⊎ ((512 ≤ length query)
        × (query_of decode (dns_param (encode query)) ≡ none)
        × (read_body {X = Unit {0}} (record { upper = some (length query); collected = some query })
            ≡ err too_large))
get_iff_post_example =
    get_iff_post decode encode
      (λ q. (
        encode-Lacks b'&' q (omega arith) (omega arith),
        encode-Lacks b'=' q (omega arith) (omega arith),
      ))
      length-encode decode-encode (Unit {0}) query

-- A datagram that is too short, and a connection that gives a packet of 17 bytes.
abbrev udp : Udp (Unit {0})
udp = record { bind = none; send_to = none; recv_from = ok (replicate 20 2, true) }

abbrev packet : Bytes
packet = replicate 17 3

abbrev stream : Stream (Unit {0})
stream = record {
  incoming = be16 17 ++ packet ++ 9 ∷ [];
  written = [];
  operations = 0;
  fault = λ n. none;
  eof = tt;
}

proxy_dns_udp_tcp-Ends_example :
    Ends {E = DohError (Unit {0})} AnyError IsPacketSize
      (proxy_dns_udp_tcp 512 3 udp (ok stream) query)
proxy_dns_udp_tcp-Ends_example = proxy_dns_udp_tcp-Ends (Unit {0}) 512 3 udp (ok stream) query tt tt

dns_exchange_over_stream_lem_example :
    (t : Stream (Unit {0})) × (dns_exchange_over_stream query stream ≡ ok (packet, t))
    × (t.written ≡ [] ++ be16 (length query) ++ query)
    × (t.incoming ≡ 9 ∷ [])
dns_exchange_over_stream_lem_example =
    dns_exchange_over_stream_lem (Unit {0}) query packet (9 ∷ []) stream (omega arith) (omega arith)
      (omega arith) ((λ n. refl), refl)

abbrev events : List ClientEvent
events = arrives ∷ arrives ∷ arrives_over_h3 ∷ arrives ∷ finishes ∷ withdraws ∷ arrives ∷ []

after_clients-IsCounted_example : IsCounted 2 (after_clients 2 idle events)
after_clients-IsCounted_example =
    after_clients-IsCounted 2 idle events (omega arith) (refl, omega arith)

abbrev upstream_url : Bytes
upstream_url =
    (b'h' ∷ b't' ∷ b't' ∷ b'p' ∷ b's' ∷ b':' ∷ b'/' ∷ b'/' ∷ b'd' ∷ b'n' ∷ b's' ∷ b'.' ∷ b'e' ∷ b'x'
      ∷ b'a' ∷ b'm' ∷ b'p' ∷ b'l' ∷ b'e' ∷ b'/' ∷ [])

abbrev url : Url
url = record {
  scheme = (b'h' ∷ b't' ∷ b't' ∷ b'p' ∷ b's' ∷ []);
  host_str = some (b'd' ∷ b'n' ∷ b's' ∷ b'.' ∷ b'e' ∷ b'x' ∷ b'a' ∷ b'm' ∷ b'p' ∷ b'l' ∷ b'e' ∷ []);
  host = some (
      domain_host
        (b'd' ∷ b'n' ∷ b's' ∷ b'.' ∷ b'e' ∷ b'x' ∷ b'a' ∷ b'm' ∷ b'p' ∷ b'l' ∷ b'e' ∷ []));
  port = none;
  port_or_known_default = some 443;
  path = (b'/' ∷ []);
  query = none;
}

abbrev parse_url : Bytes → Option Url
parse_url s = some url

abbrev to_socket_addrs : Bytes → Option (List SocketAddr)
to_socket_addrs s = some (socket_v4 (127 ∷ 0 ∷ 0 ∷ 1 ∷ []) 53 ∷ [])

is_verified : verify_upstream parse_url to_socket_addrs upstream_url ≡ ok upstream_url
unfolding verify_upstream verify_scheme is_url starts_with same_bytes
is_verified = refl

has_host :
    (s : Bytes) (u : Url) (t : Bytes)
    → parse_url s ≡ some u
    → u.host_str ≡ some t
    → (h : Host) × (u.host ≡ some h)
has_host s u t e f =
    let k : url ≡ u = cc in
    (
      domain_host (b'd' ∷ b'n' ∷ b's' ∷ b'.' ∷ b'e' ∷ b'x' ∷ b'a' ∷ b'm' ∷ b'p' ∷ b'l' ∷ b'e' ∷ []),
      ap (λ (v : Url). v.host) (sym k),
    )

-- The second lookup of a server fails; a URL needs none.
abbrev no_addrs : Bytes → Option (List SocketAddr)
no_addrs s = none

parse-verify_example :
    ((u : UpstreamArg) × (parse_upstream_arg parse_url no_addrs upstream_url ≡ ok u))
    ⊎ ((is_url upstream_url ≡ false) × IsUnresolved parse_url to_socket_addrs no_addrs upstream_url)
parse-verify_example =
    parse-verify parse_url to_socket_addrs no_addrs upstream_url upstream_url has_host is_verified
