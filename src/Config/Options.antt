-- ===== src/Config/Options.antt =====
-- `parse_opts` of src/config.rs. The library clap is left out: what it read is a record of texts.
use doh_server.Prelude.{
  ℕ, Bool, not, List, [], ◌∷◌, ◌++◌, Option, none, some, length, Outcome, ok, ◌>>=◌, ◌==◌,
  if◌then◌else◌,
}
use doh_server.Bytes.{Bytes}
use doh_server.Bootstrap.Resolve.{SocketAddr, socket_v4, any_v4}
use doh_server.Upstream.{UpstreamMode, load_balance}
use doh_server.Upstream.Exchange.{from_str}
use doh_server.Config.{
  default_listen_address, default_server_address, starts_with, parse_uint, Url, UpstreamArg, Exit,
  invalid_address, invalid_number, or_exit, parse_all, default_local_bind_addr,
}

-- What clap read: the options that have a default are there.
pub record Args : Type 0 where
  pub listen_address : Option (List Bytes)
  pub upstream_mode : Bytes
  pub upstream : Option (List Bytes)
  pub local_bind_address : Option Bytes
  pub bootstrap : Option (List Bytes)
  pub path : Bytes
  pub max_clients : Bytes
  pub timeout : Bytes
  pub max_concurrent : Bytes
  pub min_ttl : Bytes
  pub max_ttl : Bytes
  pub err_ttl : Bytes
  pub disable_keepalive : Bool
  pub disable_post : Bool
  pub allow_odoh_post : Bool
  pub enable_ecs : Bool
  pub ecs_prefix_v4 : Bytes
  pub ecs_prefix_v6 : Bytes

-- The options of `Globals` that the command line sets, less the certificates.
pub record Options : Type 0 where
  pub listen_addresses : List SocketAddr
  pub upstream_mode : UpstreamMode
  pub upstreams : List UpstreamArg
  pub local_bind_address : SocketAddr
  pub bootstrap_dns : List SocketAddr
  pub path : Bytes
  pub max_clients : ℕ
  pub timeout : ℕ
  pub max_concurrent_streams : ℕ
  pub min_ttl : ℕ
  pub max_ttl : ℕ
  pub err_ttl : ℕ
  pub keepalive : Bool
  pub disable_post : Bool
  pub allow_odoh_post : Bool
  pub enable_ecs : Bool
  pub ecs_prefix_v4 : ℕ
  pub ecs_prefix_v6 : ℕ

abbrev pub or_default : Option (List Bytes) → Bytes → List Bytes
or_default none t = t ∷ []
or_default (some ts) t = ts

abbrev pub or_none : Option (List Bytes) → List Bytes
or_none none = []
or_none (some ts) = ts

abbrev pub or_load_balance : Option UpstreamMode → UpstreamMode
or_load_balance none = load_balance
or_load_balance (some m) = m

-- A path begins with `/`.
abbrev pub absolute : Bytes → Bytes
absolute path = if starts_with (b'/' ∷ []) path then path else (b'/' ∷ []) ++ path

-- The local address of the first upstream, or the unspecified one.
abbrev pub local_for : List UpstreamArg → SocketAddr
local_for [] = socket_v4 any_v4 0
local_for (u ∷ us) = default_local_bind_addr u

-- Besides, `parse_addr` is that of `SocketAddr`.
module _ (parse_url : Bytes → Option Url) (to_socket_addrs : Bytes → Option (List SocketAddr))
    (parse_addr : Bytes → Option SocketAddr) where
  unfoldable pub parse_addrs : List Bytes → Outcome Exit (List SocketAddr)
  parse_addrs [] = ok []
  parse_addrs (s ∷ ss) = do
    a ← or_exit (parse_addr s) invalid_address
    addrs ← parse_addrs ss
    ok (a ∷ addrs)

  -- The upstreams, with the default one where there is none.
  unfoldable pub upstreams_of : Option (List Bytes) → Outcome Exit (List UpstreamArg)
  upstreams_of values = do
    upstreams ← parse_all parse_url to_socket_addrs (or_default values default_server_address)
    if length upstreams == 0
        then parse_all parse_url to_socket_addrs (default_server_address ∷ [])
        else ok upstreams

  abbrev pub local_of : Option Bytes → List UpstreamArg → Outcome Exit SocketAddr
  local_of none upstreams = ok (local_for upstreams)
  local_of (some s) upstreams = or_exit (parse_addr s) invalid_address

  abbrev pub number : ℕ → Bytes → Outcome Exit ℕ
  number bits s = or_exit (parse_uint bits s) invalid_number

  -- `parse_opts` from the matches on, up to the certificates.
  unfoldable pub parse_opts : Args → Outcome Exit Options
  parse_opts args = do
    listen_addresses ← parse_addrs (or_default args.listen_address default_listen_address)
    upstreams ← upstreams_of args.upstream
    local_bind_address ← local_of args.local_bind_address upstreams
    bootstrap_dns ← parse_addrs (or_none args.bootstrap)
    max_clients ← number 64 args.max_clients
    timeout ← number 64 args.timeout
    max_concurrent_streams ← number 32 args.max_concurrent
    min_ttl ← number 32 args.min_ttl
    max_ttl ← number 32 args.max_ttl
    err_ttl ← number 32 args.err_ttl
    ecs_prefix_v4 ← number 8 args.ecs_prefix_v4
    ecs_prefix_v6 ← number 8 args.ecs_prefix_v6
    ok (record {
      listen_addresses = listen_addresses;
      upstream_mode = or_load_balance (from_str args.upstream_mode);
      upstreams = upstreams;
      local_bind_address = local_bind_address;
      bootstrap_dns = bootstrap_dns;
      path = absolute args.path;
      max_clients = max_clients;
      timeout = timeout;
      max_concurrent_streams = max_concurrent_streams;
      min_ttl = min_ttl;
      max_ttl = max_ttl;
      err_ttl = err_ttl;
      keepalive = not args.disable_keepalive;
      disable_post = args.disable_post;
      allow_odoh_post = args.allow_odoh_post;
      enable_ecs = args.enable_ecs;
      ecs_prefix_v4 = ecs_prefix_v4;
      ecs_prefix_v6 = ecs_prefix_v6;
    })
