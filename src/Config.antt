-- ===== src/Config.antt =====
-- src/config.rs and src/utils.rs: the upstreams of the command line and the check of their texts.
-- The library url and the resolver of the system are parameters.
pub mod Options
pub mod Accepts
pub mod Startable
use doh_server.Prelude.{
  ℕ, ◌+◌, ◌-◌, ◌*◌, ◌^◌, Bool, true, false, not, ◌&&◌, ◌||◌, List, [], ◌∷◌, ◌++◌, Option, none,
  some, length, Outcome, ok, err, ◌>>=◌, ◌>>◌, ensure, ltb, leb, ◌==◌, if◌then◌else◌,
}
use doh_server.Bytes.{Bytes}
use doh_server.DnsJson.Response.Texts.{decimal}
use doh_server.Errors.{DohError, io}
use doh_server.Msg.Answers.{same_bytes}
use doh_server.Bootstrap.Resolve.{SocketAddr, socket_v4, socket_v6, any_v4, any_v6}
use doh_server.Upstream.{UpstreamMode, load_balance}
use doh_server.Upstream.Exchange.{from_str}

-- `src/constants.rs`
abbrev pub default_listen_address : Bytes
default_listen_address =
    (b'1' ∷ b'2' ∷ b'7' ∷ b'.' ∷ b'0' ∷ b'.' ∷ b'0' ∷ b'.' ∷ b'1' ∷ b':' ∷ b'3' ∷ b'0' ∷ b'0' ∷ b'0'
      ∷ [])

abbrev pub default_path : Bytes
default_path = (b'/' ∷ b'd' ∷ b'n' ∷ b's' ∷ b'-' ∷ b'q' ∷ b'u' ∷ b'e' ∷ b'r' ∷ b'y' ∷ [])

abbrev pub default_server_address : Bytes
default_server_address = (b'9' ∷ b'.' ∷ b'9' ∷ b'.' ∷ b'9' ∷ b'.' ∷ b'9' ∷ b':' ∷ b'5' ∷ b'3' ∷ [])

-- `str::starts_with`
unfoldable pub starts_with : Bytes → Bytes → Bool
starts_with [] s = true
starts_with (c ∷ p) [] = false
starts_with (c ∷ p) (b ∷ s) = c == b && starts_with p s

-- The digits behind a number so far; it fails from a limit on.
unfoldable pub digits_below : ℕ → ℕ → Bytes → Option ℕ
digits_below limit n [] = some n
digits_below limit n (b ∷ s) =
    let m = n * 10 + (b - 48) in
    let rest = digits_below limit m s in if leb 48 b && leb b 57 && ltb m limit then rest else none

-- `str::parse` for an unsigned number of so many bits.
unfoldable pub parse_uint : ℕ → Bytes → Option ℕ
parse_uint bits [] = none
parse_uint bits (b ∷ []) = digits_below (2 ^ bits) 0 (b ∷ [])
parse_uint bits (b ∷ c ∷ s) =
    if b == b'+' then digits_below (2 ^ bits) 0 (c ∷ s) else digits_below (2 ^ bits) 0 (b ∷ c ∷ s)

-- `url::Host`, with the text of each.
pub data Host : Type 0 where
  domain_host ipv4_host ipv6_host : Bytes → Host

-- What the code asks of a `url::Url`.
pub record Url : Type 0 where
  pub scheme : Bytes
  pub host_str : Option Bytes
  pub host : Option Host
  pub port : Option ℕ
  pub port_or_known_default : Option ℕ
  pub path : Bytes
  pub query : Option Bytes

-- `DohUpstream` and `DotUpstream` at the start; the cells of the first one are empty.
pub data UpstreamArg : Type 0 where
  dns_upstream : SocketAddr → UpstreamArg
  doh_upstream : (host : Bytes) → (port : ℕ) → (path authority : Bytes) → Bool → UpstreamArg
  dot_upstream : Bytes → ℕ → UpstreamArg

-- Why the program exits.
pub data Exit : Type 0 where
  invalid_url no_host http_scheme unsupported_scheme : Exit
  invalid_server_address unresolved_server_address : Exit
  invalid_address invalid_number : Exit

abbrev pub or_exit : {A : Type 0} → Option A → Exit → Outcome Exit A
or_exit none e = err e
or_exit (some a) e = ok a

-- `unwrap_or`
abbrev pub or_number : Option ℕ → ℕ → ℕ
or_number none n = n
or_number (some m) n = m

abbrev pub host_header_of : Host → Bytes
host_header_of (domain_host t) = t
host_header_of (ipv4_host t) = t
host_header_of (ipv6_host t) = (b'[' ∷ []) ++ t ++ (b']' ∷ [])

abbrev pub with_query : Bytes → Option Bytes → Bytes
with_query path none = path
with_query path (some query) = path ++ (b'?' ∷ []) ++ query

abbrev pub with_port : Option ℕ → ℕ → Bytes → Bytes
with_port none port host = host
with_port (some p) port host = host ++ (b':' ∷ []) ++ decimal port

-- A text that is read as a URL.
unfoldable pub is_url : Bytes → Bool
is_url s =
    starts_with (b'h' ∷ b't' ∷ b't' ∷ b'p' ∷ b':' ∷ b'/' ∷ b'/' ∷ []) s
    || starts_with (b'h' ∷ b't' ∷ b't' ∷ b'p' ∷ b's' ∷ b':' ∷ b'/' ∷ b'/' ∷ []) s
    || starts_with (b'h' ∷ b'3' ∷ b':' ∷ b'/' ∷ b'/' ∷ []) s
    || starts_with (b't' ∷ b'l' ∷ b's' ∷ b':' ∷ b'/' ∷ b'/' ∷ []) s

-- The arm of `https` and `h3`.
unfoldable pub parse_doh : Url → Outcome Exit UpstreamArg
parse_doh url = do
  host ← or_exit url.host_str no_host
  parsed_host ← or_exit url.host no_host
  let is_https = same_bytes url.scheme (b'h' ∷ b't' ∷ b't' ∷ b'p' ∷ b's' ∷ [])
  let port = if is_https then or_number url.port_or_known_default 443 else or_number url.port 443
  let path =
      if length url.path == 0 || same_bytes url.path (b'/' ∷ []) then default_path else url.path
  ok (
      doh_upstream host port (with_query path url.query)
        (with_port url.port port (host_header_of parsed_host))
        (same_bytes url.scheme (b'h' ∷ b'3' ∷ [])))

-- The match on the scheme.
unfoldable pub parse_scheme : Url → Outcome Exit UpstreamArg
parse_scheme url =
    elim (same_bytes url.scheme (b'h' ∷ b't' ∷ b't' ∷ b'p' ∷ b's' ∷ [])
      || same_bytes url.scheme (b'h' ∷ b'3' ∷ [])) [
        | true ↦ parse_doh url
        | false ↦ elim (same_bytes url.scheme (b't' ∷ b'l' ∷ b's' ∷ [])) [
          | true ↦ do
            host ← or_exit url.host_str no_host
            ok (dot_upstream host (or_number url.port 853))
          | false ↦
              if same_bytes url.scheme (b'h' ∷ b't' ∷ b't' ∷ b'p' ∷ [])
              then err http_scheme
              else err unsupported_scheme
        ]
      ]

abbrev pub first_addr : List SocketAddr → Option SocketAddr
first_addr [] = none
first_addr (a ∷ addrs) = some a

-- `parse_url` is `Url::parse`, and `to_socket_addrs` that of the standard library, which may ask the
-- system: the check of a text and its reading are given a lookup each, as the system may have changed
-- in between.
module _ (parse_url : Bytes → Option Url) (to_socket_addrs : Bytes → Option (List SocketAddr)) where
  unfoldable pub parse_upstream_arg : Bytes → Outcome Exit UpstreamArg
  parse_upstream_arg s = elim (is_url s) [
    | true ↦ do url ← or_exit (parse_url s) invalid_url; parse_scheme url
    | false ↦ do
      addrs ← or_exit (to_socket_addrs s) invalid_server_address
      server_address ← or_exit (first_addr addrs) unresolved_server_address
      ok (dns_upstream server_address)
  ]

  -- `verify_remote_server` of `src/utils.rs`
  unfoldable pub verify_remote_server : Bytes → Outcome Exit Bytes
  verify_remote_server s = do
    addrs ← or_exit (to_socket_addrs s) invalid_server_address
    first ← or_exit (first_addr addrs) unresolved_server_address
    ok s

  -- The match on the scheme of `verify_upstream`.
  unfoldable pub verify_scheme : Bytes → Outcome Exit (Unit {0})
  verify_scheme scheme =
      if same_bytes scheme (b'h' ∷ b't' ∷ b't' ∷ b'p' ∷ b's' ∷ [])
        || same_bytes scheme (b'h' ∷ b'3' ∷ [])
        || same_bytes scheme (b't' ∷ b'l' ∷ b's' ∷ [])
      then ok tt
      else if same_bytes scheme (b'h' ∷ b't' ∷ b't' ∷ b'p' ∷ [])
      then err http_scheme
      else err unsupported_scheme

  -- `verify_upstream` of `src/utils.rs`
  unfoldable pub verify_upstream : Bytes → Outcome Exit Bytes
  verify_upstream s = elim (is_url s) [
    | true ↦ do
      url ← or_exit (parse_url s) invalid_url
      verify_scheme url.scheme
      host ← or_exit url.host_str no_host
      ok s
    | false ↦ verify_remote_server s
  ]

  unfoldable pub parse_all : List Bytes → Outcome Exit (List UpstreamArg)
  parse_all [] = ok []
  parse_all (s ∷ ss) = do u ← parse_upstream_arg s; us ← parse_all ss; ok (u ∷ us)

unfoldable pub default_local_bind_addr : UpstreamArg → SocketAddr
default_local_bind_addr (dns_upstream (socket_v4 ip port)) = socket_v4 any_v4 0
default_local_bind_addr (dns_upstream (socket_v6 ip port flow scope)) =
    socket_v6 any_v6 0 flow scope
default_local_bind_addr _ = socket_v4 any_v4 0
