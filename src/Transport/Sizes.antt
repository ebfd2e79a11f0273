-- ===== src/Transport/Sizes.antt =====
-- The sizes of the packets that an upstream over UDP, TCP or TLS gives.
use doh_server.Prelude.{
  ℕ, ◌%◌, ◌^◌, ◌≤◌, ◌≡◌, Bool, true, false, not, ◌&&◌, ◌||◌, List, [], ◌∷◌, Option, none, some,
  length, take, length-take, Outcome, ok, ◌>>◌, ensure, Ends, Ends-bind, Ends-mono, Ends-map_err,
  ltb, leb, arith,
}
use doh_server.Bytes.{Bytes, u16, be16}
use doh_server.Dns.{is_truncated}
use doh_server.Errors.{DohError, too_large, upstream_issue, io, too_many_tcp_sessions}
use doh_server.Transport.{
  Stream, Udp, io_done, io_result, write_all, flush, read_exact, exchange_bytes,
  dns_exchange_over_stream, over_udp, too_many_sessions, over_tcp, proxy_dns_udp_tcp, Dialed,
  not_connected, not_set_up, no_handshake, connected, dial, proxy_dot,
}

abbrev pub AnyError : {E : Type 0} → E → Type 0
AnyError e = Unit {0}

-- The size of a packet that is taken from an upstream.
abbrev pub IsPacketSize : Bytes → Type 0
IsPacketSize p = (17 ≤ length p) × (length p ≤ 4096)

module _ (X : Type 0) where
  io_done-Ends : (o : Option X) → Ends {E = DohError X} AnyError (λ _. Unit {0}) (io_done o)
  io_done-Ends none = tt
  io_done-Ends (some e) = tt

  write_all-Ends :
      (b : Bytes) (s : Stream X) → Ends {E = DohError X} AnyError (λ _. Unit {0}) (write_all b s)
  unfolding write_all
  write_all-Ends b s =
      Ends-bind AnyError (λ _. Unit {0}) (λ _. Unit {0}) (io_done (s.fault s.operations)) _
        (io_done-Ends (s.fault s.operations)) (λ _ _. tt)

  flush-Ends : (s : Stream X) → Ends {E = DohError X} AnyError (λ _. Unit {0}) (flush s)
  unfolding flush
  flush-Ends s =
      Ends-bind AnyError (λ _. Unit {0}) (λ _. Unit {0}) (io_done (s.fault s.operations)) _
        (io_done-Ends (s.fault s.operations)) (λ _ _. tt)

  -- A read gives as many bytes as it was asked for.
  read_exact-Ends :
      (n : ℕ) (s : Stream X) → Ends {E = DohError X} AnyError (λ r. length r.0 ≡ n) (read_exact n s)
  unfolding read_exact
  read_exact-Ends n s =
      Ends-bind AnyError (λ _. Unit {0}) (λ (r : Bytes × Stream X). length r.0 ≡ n)
        (io_done (s.fault s.operations)) _ (io_done-Ends (s.fault s.operations))
        (λ _ _.
          Ends-bind AnyError (λ _. n ≤ length s.incoming) (λ (r : Bytes × Stream X). length r.0 ≡ n)
            (ensure (leb n (length s.incoming)) (io s.eof)) _ (ground arith)
            (λ _ h. omega (arith, length-take n s.incoming, h)))

  exchange_bytes-Ends :
      (query : Bytes) (s : Stream X)
      → Ends {E = DohError X} AnyError (λ r. IsPacketSize r.0) (exchange_bytes query s)
  unfolding exchange_bytes
  exchange_bytes-Ends query s =
      Ends-bind AnyError (λ _. Unit {0}) IsPacket (write_all (be16 (length query % 2 ^ 16)) s) _
        (write_all-Ends (be16 (length query % 2 ^ 16)) s)
        (λ s1 _.
          Ends-bind AnyError (λ _. Unit {0}) IsPacket (write_all query s1) _
            (write_all-Ends query s1)
            (λ s2 _.
              Ends-bind AnyError (λ _. Unit {0}) IsPacket (flush s2) _ (flush-Ends s2)
                (λ s3 _.
                  Ends-bind AnyError (λ r. length r.0 ≡ 2) IsPacket (read_exact 2 s3) _
                    (read_exact-Ends 2 s3)
                    (λ (r : Bytes × Stream X) _. after_length (u16 r.0 0) r.1))))
    where
      IsPacket : Bytes × Stream X → Type 0
      IsPacket r = IsPacketSize r.0

      after_length :
          (n : ℕ) (t : Stream X)
          → Ends {E = DohError X} AnyError IsPacket
              (do ensure (leb 17 n && leb n 4096) upstream_issue; read_exact n t)
      after_length n t =
          Ends-bind AnyError (λ _. (17 ≤ n) × (n ≤ 4096)) IsPacket
            (ensure (leb 17 n && leb n 4096) upstream_issue) _ (ground arith)
            (λ _ (h : (17 ≤ n) × (n ≤ 4096)).
              Ends-mono AnyError (λ (r : Bytes × Stream X). length r.0 ≡ n) IsPacket
                (read_exact n t) (read_exact-Ends n t)
                (λ r e. (omega (arith, h.0, e), omega (arith, h.1, e))))

  over_udp-Ends :
      (udp : Udp X)
      → Ends AnyError (λ _. Unit {0}) udp.recv_from
      → Ends {E = DohError X} AnyError IsPacketSize (over_udp udp)
  unfolding over_udp
  over_udp-Ends udp h =
      Ends-bind AnyError (λ _. Unit {0}) IsPacketSize (io_done udp.bind) _ (io_done-Ends udp.bind)
        (λ _ _.
          Ends-bind AnyError (λ _. Unit {0}) IsPacketSize (io_done udp.send_to) _
            (io_done-Ends udp.send_to)
            (λ _ _.
              Ends-bind AnyError (λ _. Unit {0}) IsPacketSize (io_result udp.recv_from) _
                (Ends-map_err AnyError AnyError (λ _. Unit {0}) io udp.recv_from h (λ e k. tt))
                (λ (r : Bytes × Bool) _.
                  by_size (take 4096 r.0) r.1 (omega (arith, length-take 4096 r.0)))))
    where
      by_size :
          (p : Bytes) (from : Bool)
          → length p ≤ 4096
          → Ends {E = DohError X} AnyError IsPacketSize
              (do ensure (not (ltb (length p) 17 || not from)) upstream_issue; ok p)
      by_size p from k = ground arith

  over_tcp-Ends :
      (max_clients clients_count : ℕ) (tcp : Outcome X (Stream X)) (query : Bytes)
      → Ends AnyError (λ _. Unit {0}) tcp
      → Ends {E = DohError X} AnyError IsPacketSize (over_tcp max_clients clients_count tcp query)
  unfolding over_tcp
  over_tcp-Ends max_clients clients_count tcp query h =
      Ends-bind AnyError (λ _. Unit {0}) IsPacketSize
        (ensure (not (too_many_sessions max_clients clients_count)) too_many_tcp_sessions) _
        (ground arith)
        (λ _ _.
          Ends-bind AnyError (λ _. Unit {0}) IsPacketSize (io_result tcp) _
            (Ends-map_err AnyError AnyError (λ _. Unit {0}) io tcp h (λ e k. tt))
            (λ s _.
              Ends-bind AnyError (λ r. IsPacketSize r.0) IsPacketSize (exchange_bytes query s) _
                (exchange_bytes-Ends query s) (λ (r : Bytes × Stream X) k. k)))

  -- Whatever the sockets give, a query over UDP with its retry over TCP ends without a panic, and the
  -- packet that it gives has from 17 to 4096 bytes.
  pub proxy_dns_udp_tcp-Ends :
      (max_clients clients_count : ℕ) (udp : Udp X) (tcp : Outcome X (Stream X)) (query : Bytes)
      → Ends AnyError (λ _. Unit {0}) udp.recv_from
      → Ends AnyError (λ _. Unit {0}) tcp
      → Ends {E = DohError X} AnyError IsPacketSize
          (proxy_dns_udp_tcp max_clients clients_count udp tcp query)
  unfolding proxy_dns_udp_tcp is_truncated
  proxy_dns_udp_tcp-Ends max_clients clients_count udp tcp query h k =
      Ends-bind AnyError IsPacketSize IsPacketSize (over_udp udp) _ (over_udp-Ends udp h) (λ p l.
        Ends-bind AnyError (λ _. Unit {0}) IsPacketSize (is_truncated p) _ (ground (arith, l.0))
          (λ truncated _. by_bit p truncated l))
    where
      by_bit :
          (p : Bytes) (truncated : Bool)
          → IsPacketSize p
          → Ends {E = DohError X} AnyError IsPacketSize (elim truncated [
            | true ↦ over_tcp max_clients clients_count tcp query
            | false ↦ ok p
          ])
      by_bit p true l = over_tcp-Ends max_clients clients_count tcp query k
      by_bit p false l = l

  dns_exchange_over_stream-Ends :
      (query : Bytes) (s : Stream X)
      → Ends {E = DohError X} AnyError (λ r. IsPacketSize r.0) (dns_exchange_over_stream query s)
  unfolding dns_exchange_over_stream
  dns_exchange_over_stream-Ends query s =
      Ends-bind AnyError (λ _. Unit {0}) (λ (r : Bytes × Stream X). IsPacketSize r.0)
        (ensure (leb (length query) 65535) too_large) _ (ground arith)
        (λ _ _. exchange_bytes-Ends query s)

  dial-Ends :
      (addrs : List (Dialed X)) (last_err : Option (DohError X))
      → Ends {E = DohError X} AnyError (λ _. Unit {0}) (dial addrs last_err)
  unfolding dial
  dial-Ends [] last_err = tt
  dial-Ends (not_connected e ∷ addrs) last_err = dial-Ends addrs (some (io e))
  dial-Ends (not_set_up e ∷ addrs) last_err = dial-Ends addrs (some (io e))
  dial-Ends (no_handshake ∷ addrs) last_err = dial-Ends addrs (some upstream_issue)
  dial-Ends (connected s ∷ addrs) last_err = tt

  -- Whatever comes of the connections, a query over TLS ends without a panic where the lookup of the
  -- addresses does, and the packet that it gives has from 17 to 4096 bytes.
  proxy_dot-Ends :
      (valid_name : Bool) (config : Option (DohError X))
      (addrs : Outcome (DohError X) (List (Dialed X))) (query : Bytes)
      → Ends AnyError (λ _. Unit {0}) addrs
      → Ends {E = DohError X} AnyError IsPacketSize (proxy_dot valid_name config addrs query)
  unfolding proxy_dot
  proxy_dot-Ends false config addrs query h = tt
  proxy_dot-Ends true (some e) addrs query h = tt
  proxy_dot-Ends true none addrs query h =
      Ends-bind AnyError (λ _. Unit {0}) IsPacketSize addrs _ h
        (λ dialed _.
          Ends-bind AnyError (λ _. Unit {0}) IsPacketSize (dial dialed none) _
            (dial-Ends dialed none)
            (λ stream _.
              Ends-bind AnyError (λ (r : Bytes × Stream X). IsPacketSize r.0) IsPacketSize
                (dns_exchange_over_stream query stream) _
                (dns_exchange_over_stream-Ends query stream) (λ _ k. k)))
