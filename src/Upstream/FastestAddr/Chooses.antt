-- ===== src/Upstream/FastestAddr/Chooses.antt =====
-- What `exchange_fastest_addr` returns.
use doh_server.Prelude.{
  ℕ, ◌≤◌, ◌<◌, ◌≡◌, ◌⊎◌, inl, inr, refl, sym, ap, ◌∙◌, Bool-cases, List, [], ◌∷◌, subst, length,
  All, All-append, ok, ◌>>=◌, Ends, Ends-bind, none, some, Option, arith,
}
use doh_server.Bytes.{Bytes}
use doh_server.Errors.{DohError, UpstreamAttemptError, from_upstream_attempts}
use doh_server.Msg.Answers.{IpAddr, IsIp, Among}
use doh_server.Msg.Rewrite.{validate_packet}
use doh_server.Upstream.{
  Upstream, Reply, got, failed, Answer, ExchangeOutcome, checked, validate_exchange_packet,
  with_main,
}
use doh_server.Upstream.Slots.{NoRepeat}
use doh_server.Upstream.Ping.{PingResult, PingEvent, Cache, ping_all}
use doh_server.Upstream.Ping.Choice.{IsChoice, IsOn, ping_all-IsChoice}
use doh_server.Upstream.FastestAddr.{
  ExchangeAll, deliver, pick, reply_ips, joined, or_issue, exchange_all, select,
  exchange_fastest_addr,
}
use doh_server.Upstream.FastestAddr.Gathers.{
  packet_of, packets_of, errors_of, Gathered, exchange_all-Ends,
}
use doh_server.Upstream.FastestAddr.Messages.{
  reply_ips-IsIp, IsMessage, validate_packet-IsMessage, Chosen, the_first, choose-Ends,
}

All-Among : (ips : List IpAddr) → ((ip : IpAddr) → Among ip ips → IsIp ip) → All IsIp ips
All-Among [] h = tt
All-Among (ip ∷ ips) h = (h ip (inl refl), All-Among ips (λ j a. h j (inr a)))

All-Among-self :
    (all ips : List IpAddr)
    → ((ip : IpAddr) → Among ip ips → Among ip all)
    → All (λ ip. Among ip all) ips
All-Among-self all [] h = tt
All-Among-self all (ip ∷ ips) h = (h ip (inl refl), All-Among-self all ips (λ j a. h j (inr a)))

Among-IsIp : (ips : List IpAddr) (ip : IpAddr) → All IsIp ips → Among ip ips → IsIp ip
Among-IsIp [] ip h a = absurd a
Among-IsIp (j ∷ ips) ip h (inl e) = subst IsIp e h.0
Among-IsIp (j ∷ ips) ip h (inr a) = Among-IsIp ips ip h.1 a

module _ {X : Type 0} (to_text : DohError X → Bytes) (upstreams : List Upstream)
    (answer : ℕ → Answer X) where
  pub checked-IsMessage :
      (r : Reply X) → All IsMessage (packet_of to_text upstreams answer (checked r))
  unfolding checked validate_exchange_packet
  checked-IsMessage (failed e) = tt
  checked-IsMessage (got p) = elim (Bool-cases (validate_packet p)) [
    | inl valid ↦ rw valid ((validate_packet-IsMessage p valid, tt))
    | inr bad ↦ rw bad tt
  ]

  pub packets_of-IsMessage :
      (order : List ℕ) → All IsMessage (packets_of to_text upstreams answer order)
  packets_of-IsMessage [] = tt
  packets_of-IsMessage (i ∷ order) =
      All-append IsMessage (packet_of to_text upstreams answer (checked (answer i).reply))
        (packets_of to_text upstreams answer order) (checked-IsMessage (answer i).reply)
        (packets_of-IsMessage order)

  -- What the exchange comes to for an order of arrival.
  pub record Settled (order : List ℕ) (o : ExchangeOutcome X) : Type 0 where
    pub packet :
        ((q : Bytes) × (o.packet ≡ got q) × Chosen (packets_of to_text upstreams answer order) q)
        ⊎ ((packets_of to_text upstreams answer order ≡ [])
            × (o.packet
                ≡ failed (from_upstream_attempts (errors_of to_text upstreams answer order))))
    pub stats : length o.query_stats.main ≡ length order

  module _ (hash_set : List IpAddr → List IpAddr) (pings : List IpAddr → List PingEvent)
      (same : Discrete IpAddr) (now : IpAddr → ℕ)
      (hash_set-Among : (ips : List IpAddr) (ip : IpAddr) → Among ip (hash_set ips) → Among ip ips)
      (pings-IsOn : (ips : List IpAddr) → All (IsOn (λ ip. Among ip ips)) (pings ips)) where
    deliver-Ends :
        (replies : List Bytes) (first : Bytes) (rest : List Bytes) (ping : Option PingResult)
        → replies ≡ first ∷ rest
        → All IsMessage replies
        → IsChoice IsIp ping
        → Ends
            (λ _. ⊥)
            (λ (r : Reply X). (q : Bytes) × (r ≡ got q) × Chosen replies q)
            (deliver to_text upstreams answer hash_set pings same now replies first ping)
    deliver-Ends replies first rest none e m h = (first, refl, the_first rest e)
    deliver-Ends replies first rest (some ping) e m h =
        choose-Ends X replies replies first rest ping.ip e h.0 m (λ p s. s)

    ping-IsChoice :
        (ips : List IpAddr) (c : Cache same)
        → All IsIp ips
        → IsChoice IsIp (ping_all same now (pings ips) ips c).1
    ping-IsChoice ips c h = by_ping (ping_all same now (pings ips) ips c).1 (
        ping_all-IsChoice (λ ip. Among ip ips) same now (pings ips) ips c (pings-IsOn ips)
          (All-Among-self ips ips (λ ip a. a)))
      where
        by_ping : (o : Option PingResult) → IsChoice (λ ip. Among ip ips) o → IsChoice IsIp o
        by_ping none k = tt
        by_ping (some r) k = (Among-IsIp ips r.ip h k.0, k.1)

    pub select-Ends :
        (replies : List Bytes) (first : Bytes) (rest : List Bytes) (error : Option (DohError X))
        (c : Cache same)
        → replies ≡ first ∷ rest
        → All IsMessage replies
        → Ends
            (λ _. ⊥)
            (λ r. (q : Bytes) × (r.1 ≡ got q) × Chosen replies q)
            (select to_text upstreams answer hash_set pings same now replies error c)
    unfolding select
    select-Ends [] first rest error c e m = cc
    select-Ends (p ∷ replies) first rest error c e m = by_ips (hash_set (reply_ips (p ∷ replies))) (
        All-Among (hash_set (reply_ips (p ∷ replies))) (λ ip a.
          Among-IsIp (reply_ips (p ∷ replies)) ip (reply_ips-IsIp (p ∷ replies))
            (hash_set-Among (reply_ips (p ∷ replies)) ip a)))
      where
        by_ips :
            (ips : List IpAddr)
            → All IsIp ips
            → Ends
                (λ _. ⊥)
                (λ r. (q : Bytes) × (r.1 ≡ got q) × Chosen (p ∷ replies) q)
                (pick to_text upstreams answer hash_set pings same now (p ∷ replies) p ips c)
        by_ips [] h = (p, refl, the_first replies refl)
        by_ips (ip ∷ ips) h =
            Ends-bind (λ _. ⊥) (λ (r : Reply X). (q : Bytes) × (r ≡ got q) × Chosen (p ∷ replies) q)
              _
              (deliver to_text upstreams answer hash_set pings same now (p ∷ replies) p
                (ping_all same now (pings (ip ∷ ips)) (ip ∷ ips) c).1)
              _
              (deliver-Ends (p ∷ replies) p replies
                (ping_all same now (pings (ip ∷ ips)) (ip ∷ ips) c).1 refl m
                (ping-IsChoice (ip ∷ ips) c h))
              (λ r k. k)

    select_none :
        (replies : List Bytes) (error : Option (DohError X)) (c : Cache same)
        → replies ≡ []
        → select to_text upstreams answer hash_set pings same now replies error c
          ≡ ok (c, failed (or_issue error))
    unfolding select
    select_none [] error c h = refl
    select_none (p ∷ ps) error c h = cc

    or_issue-joined :
        (errors : List UpstreamAttemptError)
        → or_issue {X = X} (joined errors) ≡ from_upstream_attempts errors
    unfolding from_upstream_attempts
    or_issue-joined [] = refl
    or_issue-joined (f ∷ fs) = refl

    -- With two upstreams or more, for every order in which answers arrive, each at most once, and a
    -- `HashSet` and ping tasks that make up no address, `exchange_fastest_addr` ends. It returns the
    -- first of the answers that are DNS messages, or one of them that contains an address, rewritten
    -- to this address; and where no answer is a DNS message the joined errors. There is a
    -- statistic for each answer.
    pub exchange_fastest_addr-Ends :
        (order : List ℕ) (c : Cache same)
        → 2 ≤ length upstreams
        → length order ≤ length upstreams
        → All (λ i. i < length upstreams) order
        → NoRepeat order
        → Ends
            (λ _. ⊥)
            (λ (r : Cache same × ExchangeOutcome X). Settled order r.1)
            (exchange_fastest_addr to_text upstreams answer hash_set pings same now order c)
    unfolding exchange_fastest_addr
    exchange_fastest_addr-Ends order c n l b d =
        Ends-bind (λ _. ⊥) (Gathered to_text upstreams answer order [] [] 0) _
          (exchange_all to_text upstreams answer order) _
          (exchange_all-Ends to_text upstreams answer order n l b d)
          (λ a g. by_replies a (packets_of to_text upstreams answer order) refl g)
      where
        by_replies :
            (a : ExchangeAll X) (ps : List Bytes)
            → packets_of to_text upstreams answer order ≡ ps
            → Gathered to_text upstreams answer order [] [] 0 a
            → Ends
                (λ _. ⊥)
                (λ (r : Cache same × ExchangeOutcome X). Settled order r.1)
                (do
                  (c', packet) ←
                      select to_text upstreams answer hash_set pings same now a.replies a.error c
                  ok (c', record { packet = packet; query_stats = with_main a.stats }))
        by_replies a [] h g = rw (select_none a.replies a.error c (g.replies ∙ h)) (record {
          packet = inr (
              (
                h,
                ap (λ e. failed (or_issue e)) g.error
                    ∙ ap failed (or_issue-joined (errors_of to_text upstreams answer order)),
              ));
          stats = omega (arith, g.stats);
        })
        by_replies a (p ∷ ps) h g =
            Ends-bind (λ _. ⊥)
              (λ (r : Cache same × Reply X). (q : Bytes) × (r.1 ≡ got q) × Chosen a.replies q) _
              (select to_text upstreams answer hash_set pings same now a.replies a.error c) _
              (select-Ends a.replies p ps a.error c (g.replies ∙ h)
                (subst (All IsMessage) (sym g.replies) (packets_of-IsMessage order)))
              (λ r k. record {
                packet = inl ((k.0, k.1, subst (λ ps. Chosen ps k.0) g.replies k.2));
                stats = omega (arith, g.stats);
              })
