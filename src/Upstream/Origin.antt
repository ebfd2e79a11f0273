-- ===== src/Upstream/Origin.antt =====
-- Where the packet comes from that an exchange returns.
use doh_server.Prelude.{
  ℕ, ◌≤◌, ◌<◌, ◌≡◌, ◌⊎◌, inl, inr, refl, sym, subst, true, List, [], ◌∷◌, ◌++◌, length, All, ok,
}
use doh_server.Bytes.{Bytes}
use doh_server.Errors.{DohError}
use doh_server.Msg.Answers.{IpAddr, IsIp}
use doh_server.Msg.Rewrite.{contains_answer_ip_in_packet, rewrite_answer_ips_in_packet}
use doh_server.Upstream.{Upstream, Reply, got, failed, Answer, ExchangeOutcome, checked}
use doh_server.Upstream.Slots.{checked-length}
use doh_server.Upstream.FastestAddr.Gathers.{packet_of, packets_of}
use doh_server.Upstream.FastestAddr.Messages.{Stands, Chosen, the_first, rewritten}

-- The packet itself, or the packet with its answers replaced by one of its addresses.
abbrev pub IsSameOrRewritten : Bytes → Bytes → Type 0
IsSameOrRewritten p q =
    (q ≡ p)
    ⊎ ((ip : IpAddr) × IsIp ip
        × (contains_answer_ip_in_packet p ip ≡ true)
        × (rewrite_answer_ips_in_packet p ip ≡ ok q))

module _ {X : Type 0} (upstreams : List Upstream) (answer : ℕ → Answer X) where
  -- The packet is the DNS message of one of the upstreams, its answers replaced or not.
  abbrev pub IsFrom : Bytes → Type 0
  IsFrom q =
      (j : ℕ) × (j < length upstreams)
      × (p : Bytes) × (checked (answer j).reply ≡ got p)
      × IsSameOrRewritten p q

  -- The exchange returns such a packet, which has a header.
  abbrev pub Delivered : ExchangeOutcome X → Type 0
  Delivered o = (q : Bytes) × (o.packet ≡ got q) × (12 ≤ length q) × IsFrom q

  pub Delivered-of :
      (o : ExchangeOutcome X) (j : ℕ) (p : Bytes)
      → j < length upstreams
      → checked (answer j).reply ≡ got p
      → o.packet ≡ got p
      → Delivered o
  Delivered-of o j p b v e = (p, e, checked-length (answer j).reply p v, (j, b, p, v, inl refl))

  pub member-in_range :
      (before : List ℕ) (i : ℕ) (after : List ℕ)
      → All (λ j. j < length upstreams) (before ++ i ∷ after)
      → i < length upstreams
  member-in_range [] i after h = h.0
  member-in_range (j ∷ before) i after h = member-in_range before i after h.1

  -- A DNS message among those that arrived is one of an upstream.
  Stands-from :
      (to_text : DohError X → Bytes) (order : List ℕ) (p : Bytes)
      → All (λ j. j < length upstreams) order
      → Stands p (packets_of to_text upstreams answer order)
      → (j : ℕ) × (j < length upstreams) × (checked (answer j).reply ≡ got p)
  Stands-from to_text [] p h s = absurd s
  Stands-from to_text (i ∷ order) p h s =
      by_reply (checked (answer i).reply) refl s (λ t. Stands-from to_text order p h.1 t)
    where
      by_reply :
          (r : Reply X)
          → checked (answer i).reply ≡ r
          → Stands p
              (packet_of to_text upstreams answer r ++ packets_of to_text upstreams answer order)
          → (Stands p (packets_of to_text upstreams answer order)
              → (j : ℕ) × (j < length upstreams) × (checked (answer j).reply ≡ got p))
          → (j : ℕ) × (j < length upstreams) × (checked (answer j).reply ≡ got p)
      by_reply (got q) e (inl f) k = (i, h.0, subst (λ x. checked (answer i).reply ≡ got x) f e)
      by_reply (got q) e (inr t) k = k t
      by_reply (failed x) e t k = k t

  -- What is chosen of the messages that arrived.
  pub Chosen-IsFrom :
      (to_text : DohError X → Bytes) (order : List ℕ) (q : Bytes)
      → All (λ j. j < length upstreams) order
      → Chosen (packets_of to_text upstreams answer order) q
      → IsFrom q
  Chosen-IsFrom to_text order q h (the_first rest e) =
      let (j, b, v) = Stands-from to_text order q h (subst (λ l. Stands q l) (sym e) (inl refl)) in
      (j, b, q, v, inl refl)
  Chosen-IsFrom to_text order q h (rewritten reply ip s fits c r) =
      let (j, b, v) = Stands-from to_text order reply h s in (j, b, reply, v, inr (ip, fits, c, r))
