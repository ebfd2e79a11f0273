-- ===== src/Transport.antt =====
-- src/libdoh/src/lib.rs, a query on its way to one upstream: UDP with the retry over TCP
-- (`proxy_dns_udp_tcp`) and DNS over TLS (`proxy_dot`). What the sockets give is an argument.
pub mod Sizes
pub mod Streams
use doh_server.Prelude.{
  ℕ, suc, ◌+◌, ◌/◌, ◌%◌, ◌^◌, Bool, true, false, not, ◌&&◌, ◌||◌, List, [], ◌∷◌, ◌++◌, Option, none,
  some, length, take, drop, Outcome, ok, err, panic, out_of_fuel, ◌>>=◌, ◌>>◌, ensure, map_err, ltb,
  leb, ◌==◌, if◌then◌else◌,
}
use doh_server.Bytes.{Bytes, u16, be16}
use doh_server.Dns.{is_truncated}
use doh_server.Errors.{
  DohError, too_large, upstream_issue, upstream_timeout, io, too_many_tcp_sessions,
}
use doh_server.Proxy.{min_dns_packet_len, max_dns_response_len}

abbrev pub udp_tcp_ratio : ℕ
udp_tcp_ratio = 8

-- Whether a session over TCP would be one too many.
unfoldable pub too_many_sessions : ℕ → ℕ → Bool
too_many_sessions max_clients clients_count =
    leb udp_tcp_ratio max_clients && leb (max_clients / udp_tcp_ratio) clients_count

-- A connection: the bytes that the other side sends, what was written, and the operation that fails
-- with an error of the system, if one does. `eof` is the error of a read past the end.
pub record Stream (X : Type 0) : Type 0 where
  pub incoming : Bytes
  pub written : Bytes
  pub operations : ℕ
  pub fault : ℕ → Option X
  pub eof : X

-- What the system does to the query over UDP: the errors of `bind` and `send_to`, and the datagram
-- with the test whether the upstream sent it.
pub record Udp (X : Type 0) : Type 0 where
  pub bind : Option X
  pub send_to : Option X
  pub recv_from : Outcome X (Bytes × Bool)

module _ {X : Type 0} where
  -- An operation of the system that has no result.
  abbrev pub io_done : Option X → Outcome (DohError X) (Unit {0})
  io_done none = ok tt
  io_done (some e) = err (io e)

  abbrev pub io_result : {A : Type 0} → Outcome X A → Outcome (DohError X) A
  io_result m = map_err io m

  unfoldable pub write_all : Bytes → Stream X → Outcome (DohError X) (Stream X)
  write_all bytes stream = do
    io_done (stream.fault stream.operations)
    ok (record stream { written = stream.written ++ bytes; operations = suc stream.operations })

  unfoldable pub flush : Stream X → Outcome (DohError X) (Stream X)
  flush stream = do
    io_done (stream.fault stream.operations)
    ok (record stream { operations = suc stream.operations })

  unfoldable pub read_exact : ℕ → Stream X → Outcome (DohError X) (Bytes × Stream X)
  read_exact n stream = do
    io_done (stream.fault stream.operations)
    ensure (leb n (length stream.incoming)) (io stream.eof)
    ok (
      take n stream.incoming,
      record stream { incoming = drop n stream.incoming; operations = suc stream.operations },
    )

  -- The length and the query, and the answer behind its length. The length of the query has 16
  -- bits.
  unfoldable pub exchange_bytes : Bytes → Stream X → Outcome (DohError X) (Bytes × Stream X)
  exchange_bytes query stream = do
    stream1 ← write_all (be16 (length query % 2 ^ 16)) stream
    stream2 ← write_all query stream1
    stream3 ← flush stream2
    (len_buf, stream4) ← read_exact 2 stream3
    let packet_len = u16 len_buf 0
    ensure (leb min_dns_packet_len packet_len && leb packet_len max_dns_response_len) upstream_issue
    read_exact packet_len stream4

  unfoldable pub dns_exchange_over_stream :
      Bytes → Stream X → Outcome (DohError X) (Bytes × Stream X)
  dns_exchange_over_stream query stream = do
    ensure (leb (length query) 65535) too_large
    exchange_bytes query stream

  -- The answer over UDP. The buffer takes 4096 bytes of a datagram.
  unfoldable pub over_udp : Udp X → Outcome (DohError X) Bytes
  over_udp udp = do
    io_done udp.bind
    io_done udp.send_to
    (datagram, from_upstream) ← io_result udp.recv_from
    let packet = take max_dns_response_len datagram
    ensure (not (ltb (length packet) min_dns_packet_len || not from_upstream)) upstream_issue
    ok packet

  -- `tcp` is the connection, where it could be made and set up.
  unfoldable pub over_tcp : ℕ → ℕ → Outcome X (Stream X) → Bytes → Outcome (DohError X) Bytes
  over_tcp max_clients clients_count tcp query = do
    ensure (not (too_many_sessions max_clients clients_count)) too_many_tcp_sessions
    stream ← io_result tcp
    (packet, _) ← exchange_bytes query stream
    ok packet

  unfoldable pub proxy_dns_udp_tcp :
      ℕ → ℕ → Udp X → Outcome X (Stream X) → Bytes → Outcome (DohError X) Bytes
  proxy_dns_udp_tcp max_clients clients_count udp tcp query = do
    packet ← over_udp udp
    truncated ← is_truncated packet
    elim truncated [ true ↦ over_tcp max_clients clients_count tcp query | false ↦ ok packet ]

-- What came of the connection to an address: an error of the connection or of `set_nodelay`, a
-- handshake that failed, or the stream.
pub data Dialed (X : Type 0) : Type 0 where
  not_connected not_set_up : X → Dialed X
  no_handshake : Dialed X
  connected : Stream X → Dialed X

module _ {X : Type 0} where
  -- `if let Some(err) = last_err`
  abbrev pub last_or_issue : Option (DohError X) → DohError X
  last_or_issue none = upstream_issue
  last_or_issue (some e) = e

  -- The loop over the addresses: the first stream, or the last error.
  unfoldable pub dial : List (Dialed X) → Option (DohError X) → Outcome (DohError X) (Stream X)
  dial [] last_err = err (last_or_issue last_err)
  dial (not_connected e ∷ addrs) last_err = dial addrs (some (io e))
  dial (not_set_up e ∷ addrs) last_err = dial addrs (some (io e))
  dial (no_handshake ∷ addrs) last_err = dial addrs (some upstream_issue)
  dial (connected stream ∷ addrs) last_err = ok stream

  -- `valid_name` says whether the host can be the name of a server, `config` and `addrs` are the
  -- results of `dot_tls_config` and of `resolve_upstream_addrs`.
  unfoldable pub proxy_dot :
      Bool
      → Option (DohError X)
      → Outcome (DohError X) (List (Dialed X))
      → Bytes
      → Outcome (DohError X) Bytes
  proxy_dot valid_name config addrs query = do
    ensure valid_name upstream_issue
    elim config [
      | some e ↦ err e
      | none ↦ do
        dialed ← addrs
        stream ← dial dialed none
        (packet, _) ← dns_exchange_over_stream query stream
        ok packet
    ]

  -- `run_with_timeout`, where the call would end in time, or not.
  unfoldable pub run_with_timeout :
      {A : Type 0} → ℕ → Bool → Outcome (DohError X) A → Outcome (DohError X) A
  run_with_timeout timeout in_time call =
      if timeout == 0 then call else if in_time then call else err upstream_timeout
