-- ===== src/Upstream/Exchange/Replies.antt =====
-- The exchange in all modes returns a DNS message where an upstream gives one.
use doh_server.Prelude.{
  ℕ, ◌≤◌, ◌<◌, ◌≡◌, inl, inr, refl, sym, subst, Bool, true, false, Bool-cases, List, [], ◌∷◌, ◌++◌,
  none, length, All, Outcome, ok, map_err, Ends, Ends-bind, Ends-mono, Ends-map_err, leb, arith,
}
use doh_server.Bytes.{Bytes}
use doh_server.Errors.{DohError, upstream_issue}
use doh_server.Msg.Answers.{IpAddr, Among}
use doh_server.Msg.Rewrite.{qtype_from_packet}
use doh_server.Upstream.{
  UpstreamMode, load_balance, parallel, fastest_addr, Upstream, Reply, got, failed, Answer,
  ExchangeOutcome, checked, with_main,
}
use doh_server.Upstream.Slots.{upstream_at}
use doh_server.Upstream.Origin.{Delivered, IsFrom, member-in_range, Chosen-IsFrom}
use doh_server.Upstream.Weights.{Float, RttMap}
use doh_server.Upstream.Ping.{PingEvent, Cache}
use doh_server.Upstream.Ping.Choice.{IsOn}
use doh_server.Upstream.LoadBalance.{exchange_load_balance}
use doh_server.Upstream.Parallel.{exchange_parallel}
use doh_server.Upstream.Parallel.First.{exchange_parallel_succeeds}
use doh_server.Upstream.FastestAddr.{select, exchange_fastest_addr}
use doh_server.Upstream.FastestAddr.Gathers.{packet_of, packets_of}
use doh_server.Upstream.FastestAddr.Messages.{IsMessage, Chosen, Chosen-length}
use doh_server.Upstream.FastestAddr.Chooses.{
  checked-IsMessage, packets_of-IsMessage, Settled, select-Ends, exchange_fastest_addr-Ends,
}
use doh_server.Upstream.Exchange.{
  Globals, by_load_balance, by_fastest_addr, dispatch, asks_address, exchange,
}
use doh_server.Upstream.Exchange.Alone.{
  qtype_from_packet-Ends, packets_of-middle, exchange_parallel_alone, exchange_only-Delivered,
  load_balance-Delivered, exchange_all-alone, IsOrder,
}

module _ {X : Type 0} (to_text : DohError X → Bytes) (upstreams : List Upstream)
    (answer : ℕ → Answer X) where
  module _ (hash_set : List IpAddr → List IpAddr) (pings : List IpAddr → List PingEvent)
      (same_ip : Discrete IpAddr) (now : IpAddr → ℕ)
      (hash_set-Among : (ips : List IpAddr) (ip : IpAddr) → Among ip (hash_set ips) → Among ip ips)
      (pings-IsOn : (ips : List IpAddr) → All (IsOn (λ ip. Among ip ips)) (pings ips)) where
    fastest_addr_alone :
        (order : List ℕ) (c : Cache same_ip) (p : Bytes)
        → length upstreams ≡ 1
        → checked (answer 0).reply ≡ got p
        → Ends
            (λ _. ⊥)
            (λ (r : Cache same_ip × ExchangeOutcome X). Delivered upstreams answer r.1)
            (exchange_fastest_addr to_text upstreams answer hash_set pings same_ip now order c)
    unfolding exchange_fastest_addr
    fastest_addr_alone order c p one v =
        rw (exchange_all-alone to_text upstreams answer order p one v) (
          Ends-bind (λ _. ⊥)
            (λ (r : Cache same_ip × Reply X). (q : Bytes) × (r.1 ≡ got q) × Chosen (p ∷ []) q) _
            (select to_text upstreams answer hash_set pings same_ip now (p ∷ []) none c) _
            (select-Ends to_text upstreams answer hash_set pings same_ip now hash_set-Among
              pings-IsOn (p ∷ []) p [] none c refl is_message)
            (λ r k. (
              k.0,
              k.1,
              Chosen-length (p ∷ []) k.0 is_message k.2,
              Chosen-IsFrom upstreams answer to_text (0 ∷ []) k.0 (omega (arith, one), tt)
                  (subst (λ x. Chosen (packet_of to_text upstreams answer x ++ []) k.0) (sym v)
                    k.2),
            )))
      where
        is_message : All IsMessage (p ∷ [])
        is_message =
            subst (λ r. All IsMessage (packet_of to_text upstreams answer r)) v
              (checked-IsMessage to_text upstreams answer (answer 0).reply)

    fastest_addr-Delivered :
        (before : List ℕ) (i : ℕ) (after : List ℕ) (c : Cache same_ip) (p : Bytes)
        → 2 ≤ length upstreams
        → IsOrder upstreams (before ++ i ∷ after)
        → checked (answer i).reply ≡ got p
        → Ends
            (λ _. ⊥)
            (λ (r : Cache same_ip × ExchangeOutcome X). Delivered upstreams answer r.1)
            (exchange_fastest_addr to_text upstreams answer hash_set pings same_ip now
              (before ++ i ∷ after)
              c)
    fastest_addr-Delivered before i after c p n o v =
        Ends-mono (λ _. ⊥) _ _ _
          (exchange_fastest_addr-Ends to_text upstreams answer hash_set pings same_ip now
            hash_set-Among pings-IsOn (before ++ i ∷ after) c n o.size o.in_range o.no_repeat)
          (λ r. by_settled r.1)
      where
        by_settled :
            (outcome : ExchangeOutcome X)
            → Settled to_text upstreams answer (before ++ i ∷ after) outcome
            → Delivered upstreams answer outcome
        by_settled outcome s = elim (s.packet) [
          | inl k ↦ (
            k.0,
            k.1,
            Chosen-length (packets_of to_text upstreams answer (before ++ i ∷ after)) k.0
                (packets_of-IsMessage to_text upstreams answer (before ++ i ∷ after)) k.2,
            Chosen-IsFrom upstreams answer to_text (before ++ i ∷ after) k.0 o.in_range k.2,
          )
          | inr k ↦ absurd (packets_of-middle to_text upstreams answer before i after p v k.0)
        ]

    module _ (float : Float) (same : Discrete Bytes) (random : ℕ → float.Number) where
      abbrev Exchanged : Globals float same_ip × ExchangeOutcome X → Type 0
      Exchanged r = Delivered upstreams answer r.1

      by_load_balance-Delivered :
          (i : ℕ) (g : Globals float same_ip) (p : Bytes)
          → i < length upstreams
          → checked (answer i).reply ≡ got p
          → Ends
              (λ _. ⊥)
              Exchanged
              (by_load_balance to_text float same same_ip upstreams answer random hash_set pings now
                g)
      by_load_balance-Delivered i g p b v =
          Ends-bind (λ _. ⊥)
            (λ (r : ExchangeOutcome X × RttMap float). Delivered upstreams answer r.0) _
            (exchange_load_balance to_text float same upstreams answer random g.rtts) _
            (load_balance-Delivered to_text upstreams answer float same random g.rtts i p b v)
            (λ r k. k)

      by_fastest_addr-Delivered :
          (before : List ℕ) (i : ℕ) (after : List ℕ) (g : Globals float same_ip) (p : Bytes)
          → IsOrder upstreams (before ++ i ∷ after)
          → checked (answer i).reply ≡ got p
          → Ends
              (λ _. ⊥)
              Exchanged
              (by_fastest_addr to_text float same same_ip upstreams answer random hash_set pings now
                (before ++ i ∷ after)
                g)
      by_fastest_addr-Delivered before i after g p o v =
          Ends-bind (λ _. ⊥)
            (λ (r : Cache same_ip × ExchangeOutcome X). Delivered upstreams answer r.1) _
            (exchange_fastest_addr to_text upstreams answer hash_set pings same_ip now
              (before ++ i ∷ after) g.cache)
            _
            (elim (Bool-cases (leb 2 (length upstreams))) [
              | inl several ↦ fastest_addr-Delivered before i after g.cache p (ground arith) o v
              | inr one ↦
                  fastest_addr_alone (before ++ i ∷ after) g.cache p (ground (arith, b))
                    (subst (λ j. checked (answer j).reply ≡ got p) (ground (arith, b)) v)
            ])
            (λ r k. k)
        where
          b : i < length upstreams
          b = member-in_range upstreams answer before i after o.in_range

      dispatch-Delivered :
          (mode : UpstreamMode) (query : Bytes) (before : List ℕ) (i : ℕ) (after : List ℕ)
          (g : Globals float same_ip) (p : Bytes)
          → IsOrder upstreams (before ++ i ∷ after)
          → checked (answer i).reply ≡ got p
          → Ends
              (λ _. ⊥)
              Exchanged
              (dispatch to_text float same same_ip upstreams answer random hash_set pings now mode
                query
                (before ++ i ∷ after)
                g)
      dispatch-Delivered load_balance query before i after g p o v =
          by_load_balance-Delivered i g p
            (member-in_range upstreams answer before i after o.in_range) v
      dispatch-Delivered parallel query before i after g p o v =
          Ends-bind (λ _. ⊥) (Delivered upstreams answer) _
            (exchange_parallel to_text upstreams answer (before ++ i ∷ after)) _
            (elim (Bool-cases (leb 2 (length upstreams))) [
              | inl several ↦
                  exchange_parallel_succeeds to_text upstreams answer before i after p
                    (ground arith) o.size o.in_range o.no_repeat v
              | inr one ↦
                  rw
                    (exchange_parallel_alone to_text upstreams answer (before ++ i ∷ after)
                      (ground (arith, b)))
                    (exchange_only-Delivered to_text upstreams answer (upstream_at upstreams 0) p
                      (ground (arith, b))
                      (subst (λ j. checked (answer j).reply ≡ got p) (ground (arith, b)) v))
            ])
            (λ r k. k)
        where
          b : i < length upstreams
          b = member-in_range upstreams answer before i after o.in_range
      dispatch-Delivered fastest_addr query before i after g p o v =
          Ends-bind (λ _. ⊥) (λ _. Unit {0}) _ (map_err (λ _. tt) (qtype_from_packet query)) _
            (Ends-map_err (λ _. ⊥) (λ _. ⊥) (λ _. Unit {0}) (λ _. tt) (qtype_from_packet query)
              (qtype_from_packet-Ends query) (λ e k. k))
            (λ qtype _. by_qtype (asks_address qtype))
        where
          by_qtype :
              (b : Bool)
              → Ends
                  (λ _. ⊥)
                  Exchanged
                  (elim b [
                    | true ↦
                        by_fastest_addr to_text float same same_ip upstreams answer random hash_set
                          pings now
                          (before ++ i ∷ after)
                          g
                    | false ↦
                        by_load_balance to_text float same same_ip upstreams answer random hash_set
                          pings now g
                  ])
          by_qtype true = by_fastest_addr-Delivered before i after g p o v
          by_qtype false =
              by_load_balance-Delivered i g p
                (member-in_range upstreams answer before i after o.in_range) v

      -- In every mode, for every query, round trip times, cached addresses, random numbers, and
      -- every order in which answers arrive, each upstream's at most once: where one of the answers
      -- that arrive is a DNS message, the exchange ends and returns a packet with a header: the DNS
      -- message of one of the upstreams, or this message with its answers replaced by one of its
      -- addresses. Of a `HashSet` and the ping tasks it is assumed that they make up no address.
      pub exchange_succeeds :
          (mode : UpstreamMode) (query : Bytes) (before : List ℕ) (i : ℕ) (after : List ℕ)
          (g : Globals float same_ip) (p : Bytes)
          → IsOrder upstreams (before ++ i ∷ after)
          → checked (answer i).reply ≡ got p
          → Ends
              (λ _. ⊥)
              (λ (r : Globals float same_ip × ExchangeOutcome X).
                (q : Bytes) × (r.1.packet ≡ got q) × (12 ≤ length q) × IsFrom upstreams answer q)
              (exchange to_text float same same_ip upstreams answer random hash_set pings now mode
                query
                (before ++ i ∷ after)
                g)
      unfolding exchange
      exchange_succeeds mode query before i after g p o v =
          by_upstreams upstreams (member-in_range upstreams answer before i after o.in_range)
        where
          by_upstreams :
              (l : List Upstream)
              → i < length l
              → Ends
                  (λ _. ⊥)
                  Exchanged
                  (elim l as (λ _. Outcome (Unit {0}) (Globals float same_ip × ExchangeOutcome X)) [
                    | [] ↦
                        ok
                          (g, record { packet = failed upstream_issue; query_stats = with_main [] })
                    | u ∷ us ↦
                        dispatch to_text float same same_ip upstreams answer random hash_set pings
                          now mode query
                          (before ++ i ∷ after)
                          g
                  ])
          by_upstreams [] h = absurd (omega arith)
          by_upstreams (u ∷ us) h = dispatch-Delivered mode query before i after g p o v
