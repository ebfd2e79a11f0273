-- ===== src/Transport/Streams.antt =====
-- An exchange over a stream that does not fail.
use doh_server.Prelude.{
  ℕ, suc, ◌%◌, ◌^◌, ◌≤◌, ◌<◌, ◌≡◌, refl, ap, Bool, true, ◌&&◌, ◌++◌, none, length, take-append,
  drop-append, length-append, ok, ensure, >>=-ok, ensure-ok, leb, arith,
}
use doh_server.Bytes.{Bytes, u16, byte, be16}
use doh_server.Errors.{too_large, upstream_issue, io}
use doh_server.Transport.{
  Stream, io_done, write_all, flush, read_exact, exchange_bytes, dns_exchange_over_stream,
}

module _ (X : Type 0) where
  -- A stream without faults, whose other side sends these bytes.
  abbrev pub Sends : Stream X → Bytes → Type 0
  Sends s b = ((n : ℕ) → s.fault n ≡ none) × (s.incoming ≡ b)

  be16-size : (p : Bytes) → length p < 65536 → u16 (be16 (length p)) 0 ≡ length p
  unfolding u16 byte
  be16-size p h = omega (arith, h)

  write_all-eq :
      (b : Bytes) (s : Stream X)
      → ((n : ℕ) → s.fault n ≡ none)
      → write_all b s ≡ ok (record s { written = s.written ++ b; operations = suc s.operations })
  unfolding write_all
  write_all-eq b s h = >>=-ok _ (ap io_done (h s.operations)) refl

  flush-eq :
      (s : Stream X)
      → ((n : ℕ) → s.fault n ≡ none)
      → flush s ≡ ok (record s { operations = suc s.operations })
  unfolding flush
  flush-eq s h = >>=-ok _ (ap io_done (h s.operations)) refl

  read_exact-eq :
      (n : ℕ) (s : Stream X) (a b : Bytes)
      → ((n : ℕ) → s.fault n ≡ none)
      → s.incoming ≡ a ++ b
      → n ≡ length a
      → read_exact n s ≡ ok (a, record s { incoming = b; operations = suc s.operations })
  unfolding read_exact
  read_exact-eq n s a b h e k =
      let there : leb n (length s.incoming) ≡ true = rw e (ground (arith, length-append a b, k)) in
      >>=-ok _ (ap io_done (h s.operations)) (
        >>=-ok _ (ap (λ (c : Bool). ensure c (io s.eof)) there)
          (rw (e, take-append a b n k, drop-append a b n k) refl))

  -- The stream behind the exchange.
  abbrev pub exchanged : Bytes → Bytes → Stream X → Stream X
  exchanged query rest s = record s {
    incoming = rest;
    written = (s.written ++ be16 (length query % 2 ^ 16)) ++ query;
    operations = suc (suc (suc (suc (suc s.operations))));
  }

  exchange_bytes-eq :
      (query p rest : Bytes) (s : Stream X)
      → 17 ≤ length p
      → length p ≤ 4096
      → Sends s (be16 (length p) ++ p ++ rest)
      → exchange_bytes query s ≡ ok (p, exchanged query rest s)
  unfolding exchange_bytes
  exchange_bytes-eq query p rest s k l (no_fault, e) =
      let in_range : (leb 17 (length p) && leb (length p) 4096) ≡ true = ground (arith, k, l) in
      >>=-ok _ (write_all-eq (be16 (length query % 2 ^ 16)) s no_fault) (
        >>=-ok _ (write_all-eq query s1 no_fault) (
          >>=-ok _ (flush-eq s2 no_fault) (
            >>=-ok _ (read_exact-eq 2 s3 (be16 (length p)) (p ++ rest) no_fault e refl) (
              rw (be16-size p (omega (arith, l))) (
                >>=-ok _ (ensure-ok upstream_issue in_range)
                  (read_exact-eq (length p) s4 p rest no_fault refl refl))))))
    where
      s1 : Stream X
      s1 = record s {
        written = s.written ++ be16 (length query % 2 ^ 16);
        operations = suc s.operations;
      }

      s2 : Stream X
      s2 = record s1 { written = s1.written ++ query; operations = suc s1.operations }

      s3 : Stream X
      s3 = record s2 { operations = suc s2.operations }

      s4 : Stream X
      s4 = record s3 { incoming = p ++ rest; operations = suc s3.operations }

  -- Where the other side sends a packet of 17 to 4096 bytes behind its length and nothing fails, a
  -- query of at most 65535 bytes gives that packet; what was written is the query behind its
  -- length, and what comes behind the packet stays in the stream.
  pub dns_exchange_over_stream_lem :
      (query p rest : Bytes) (s : Stream X)
      → length query ≤ 65535
      → 17 ≤ length p
      → length p ≤ 4096
      → Sends s (be16 (length p) ++ p ++ rest)
      → (t : Stream X) × (dns_exchange_over_stream query s ≡ ok (p, t))
        × (t.written ≡ s.written ++ be16 (length query) ++ query)
        × (t.incoming ≡ rest)
  unfolding dns_exchange_over_stream
  dns_exchange_over_stream_lem query p rest s h k l sends =
      let small : leb (length query) 65535 ≡ true = ground (arith, h) in
      let size : length query % 2 ^ 16 ≡ length query = omega (arith, h) in
      (
        exchanged query rest s,
        >>=-ok _ (ensure-ok too_large small) (exchange_bytes-eq query p rest s k l sends),
        rw size refl,
        refl,
      )
