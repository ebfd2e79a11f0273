-- ===== src/Lib.antt =====
-- Verification library of doh-server, a DNS-over-HTTPS proxy.
--
-- The proxy takes a DNS query from a client over HTTP, edits its EDNS section, asks an upstream
-- server, and answers with the response, whose TTLs give the HTTP caching time and which it pads.
-- The upstream modules decode a response to compare and replace its addresses.
--
-- Which file models which code:
--   Prelude.antt   shared names: the outcomes of the Rust code (a result, an error, a panic, no
--                  fuel left), `Ends` for the code that does neither of the last two, lists.
--   Bytes.antt     packets as lists of bytes; the reads and writes of the byteorder crate with the
--                  panic of an index that is out of range.
--   Dns.antt       src/libdoh/src/dns.rs up to `min_ttl`: header fields, `skip_name`,
--                  `traverse_rrs`, `traverse_rrs_mut`, `min_ttl`.
--   Edns.antt      src/libdoh/src/dns.rs from `add_edns_section` on: `set_edns_max_payload_size`,
--                  `padded_len`, `add_edns_padding`.
--   RrType.antt    src/libdoh/src/upstream/rr_types.rs.
--   Msg.antt       src/libdoh/src/upstream/msg.rs, the types; its child modules have the functions:
--                  Header (the flags), Names (names with compression), Codec (`Msg::unpack`,
--                  `Msg::pack`), Answers (the addresses of a message), Rewrite (the same on a
--                  packet in place).
--   Errors.antt    src/libdoh/src/errors.rs, less the texts.
--   Bootstrap.antt src/libdoh/src/lib.rs, the lookup of an upstream's own address: the reader of a
--                  response; its children Query (the query), Cache (what is kept of it) and
--                  Resolve (the addresses of a host).
--   Backoff.antt   src/libdoh/src/lib.rs, the failures of HTTP/3 and the rate of new clients.
--   Ecs.antt       src/libdoh/src/edns_ecs.rs.
--   DnsJson.antt   src/libdoh/src/dns_json.rs, `parse_name`; its children Response (a packet as a JSON
--                  answer) and Query (the query for the parameters of the API).
--   HashMap.antt   `HashMap` of the standard library as far as it is used, an association list.
--   IpCache.antt   src/libdoh/src/globals.rs, `FastestIpCache`; its children have the list in the order
--                  of use that it stands for.
--   Upstream.antt  src/libdoh/src/upstream/mod.rs and stats.rs, what an exchange with the upstreams
--                  is made of; its children Parallel, LoadBalance (with Weights) and FastestAddr (with
--                  Ping) are the three modes, and Exchange chooses among them.
--   Proxy.antt     src/libdoh/src/lib.rs, `DoH::_proxy`: the query on its way to the upstreams and the
--                  answer on its way back.
--   Text.antt      the operations on `str` of the standard library.
--   Odoh.antt      src/libdoh/src/odoh.rs.
--   Http.antt      src/libdoh/src/lib.rs, what the versions of HTTP share: the content types, the query
--                  string, the body; its children Json (`serve_json_query`), Serve (`call` and the
--                  handlers of HTTP/1 and HTTP/2) and Http3 (`handle_h3_request`).
--   Doh.antt       src/libdoh/src/lib.rs, `proxy_doh`: the choice between HTTP/2 and HTTP/3, the retries;
--                  its children Pool (`DohH3Pool`) and Pending (`DohH3Pending`, `start_event_loop`).
--   Transport.antt src/libdoh/src/lib.rs, `proxy_dns_udp_tcp`, `proxy_dot`.
--   Clients.antt   src/libdoh/src/globals.rs, `ClientsCount`, and `client_serve` of lib.rs.
--   Config.antt    src/config.rs and src/utils.rs, the upstreams of the command line and their check; its
--                  child Options has `parse_opts`.
--   Tests.antt     runs of the model at concrete packets, and the theorems at such inputs.
--
-- How state and operations correspond: a function of the source has a definition with its name. A
-- `&mut Vec<u8>` is an argument and a result; an error carries the packet as the code leaves it. An
-- `ensure!` is `ensure` with the error as a value; a subtraction of `usize` is `sub`, which panics
-- where the code would (in debug builds) or wrap around; a slice out of range is a panic.
-- A closure that captures variables has them as a state. A header field of 16 bits is written with
-- `% 256`, as the byteorder crate writes it.
--
-- Bounds and fuel: a loop over a count is structural recursion on the count. `skip_name` runs on 130
-- rounds of fuel: a round adds two to the length of the name, which stops at 256. `Name::from_wire`
-- runs on 260 rounds: a round either adds two to the 255 octets or takes one of the 128
-- pointers. `Name::skip_wire` has the length of the packet as fuel. The results below say that the
-- fuel is enough, since they leave no case for its end. `parse_dns_name_lower` has as many pointers
-- as the packet has bytes, and between two of them a round for each byte. The code of `parse_name`
-- has no bound, so its fuel is an argument. `evict_if_needed` has a round for each node, and `ask`, the
-- loop of `exchange_load_balance`, one for each upstream; the loop over the strings of a TXT record has
-- one more round than bytes. A number of the JSON texts has at most 20 decimal digits, as one of 64
-- bits has. `Safe` is said of code that may run on: it does not panic.
--
-- The network and the tasks: `exchange_single` is a function that gives the answer of each upstream to
-- the query; where the upstreams are asked at once, the order in which the answers arrive is an
-- argument, as are the random numbers, the clock, the order in which a `HashSet` gives its elements
-- and what the ping tasks report. `f64` is a record of its operations, of which no law is used.
--
-- Not modelled: what only binds sockets, starts tasks or loads certificates (the listeners, the
-- supervisor of HTTP/3 and its connections, src/libdoh/src/tls.rs), the building of the clients of
-- HTTP/2 and HTTP/3 and the probes of the choice between them, the definitions of the options (clap),
-- the texts of the errors, and src/libdoh/src/upstream/dns_packet.rs, whose functions only call those
-- of msg.rs. An attempt over HTTP/2 or HTTP/3 is an argument, as is what a socket gives. The libraries
-- odoh-rs, url, base64, urlencoding and serde_json are parameters. The ping tasks that change the
-- cache of addresses while an exchange runs are definitions, but their interleaving with it is not
-- part of the model; that of the connections with the count of the clients is, and that of the events
-- of a connection of HTTP/3 with the requests that wait on it.
pub mod Prelude
pub mod Bytes
pub mod Dns
pub mod Edns
pub mod RrType
pub mod Msg
pub mod Text
pub mod Odoh
pub mod Http
pub mod Config
pub mod Clients
pub mod Transport
pub mod Doh
pub mod Errors
pub mod Bootstrap
pub mod Backoff
pub mod Ecs
pub mod DnsJson
pub mod HashMap
pub mod IpCache
pub mod Upstream
pub mod Proxy
mod Tests
