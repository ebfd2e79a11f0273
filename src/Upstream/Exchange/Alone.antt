-- ===== src/Upstream/Exchange/Alone.antt =====
-- The exchange with the only upstream in each mode, and the type of a query.
use doh_server.Prelude.{
  ℕ, zero, suc, ◌-◌, ◌≤◌, ◌<◌, ◌≡◌, inl, inr, refl, Bool-cases, List, [], ◌∷◌, ◌++◌, Option, none,
  some, length, All, Outcome, ok, err, panic, out_of_fuel, ◌>>=◌, Ends, leb, ltb, ◌==◌,
  if◌then◌else◌, arith,
}
use doh_server.Bytes.{Bytes, u16, read_u16}
use doh_server.RrType.{RrType}
use doh_server.RrType
use doh_server.Errors.{DohError}
use doh_server.Msg.{dns_header_size, MsgError}
use doh_server.Msg.Names.{skip_wire}
use doh_server.Msg.Names.Total.{IsNext, skip_wire-Ends}
use doh_server.Msg.Rewrite.{qtype_from_packet}
use doh_server.Upstream.{
  Upstream, Reply, got, failed, Answer, ExchangeOutcome, checked, exchange_only, stat_of,
}
use doh_server.Upstream.Origin.{Delivered, Delivered-of}
use doh_server.Upstream.Slots.{NoRepeat, nth-eq, upstream_at}
use doh_server.Upstream.Weights.{Float, RttMap}
use doh_server.Upstream.LoadBalance.{exchange_load_balance}
use doh_server.Upstream.LoadBalance.Trials.{exchange_load_balance_succeeds}
use doh_server.Upstream.Parallel.{exchange_parallel}
use doh_server.Upstream.FastestAddr.{exchange_all, alone}
use doh_server.Upstream.FastestAddr.Gathers.{packet_of, packets_of}

-- The type of a query is read without a panic.
pub qtype_from_packet-Ends : (p : Bytes) → Ends (λ _. ⊥) (λ _. Unit {0}) (qtype_from_packet p)
unfolding qtype_from_packet
qtype_from_packet-Ends p = elim (Bool-cases ((if leb 6 (length p) then u16 p 4 else 0) == 0)) [
  | inl empty ↦ rw empty tt
  | inr full ↦ rw full (by_skip (skip_wire p dns_header_size) (skip_wire-Ends p dns_header_size))
]
  where
    by_skip :
        (r : Outcome MsgError ℕ)
        → Ends (λ _. Unit) (λ n. IsNext p dns_header_size n) r
        → Ends
            (λ _. ⊥)
            (λ _. Unit {0})
            (elim r as (λ _. Outcome MsgError (Option RrType)) [
              | ok offset ↦
                  if ltb (length p - offset) 4
                  then ok none
                  else (do code ← read_u16 p offset; ok (some (RrType.from_u16 code)))
              | err e ↦ ok none
              | panic ↦ panic
              | out_of_fuel ↦ out_of_fuel
            ])
    by_skip (ok n) h = ground arith
    by_skip (err e) h = tt
    by_skip panic h = h
    by_skip out_of_fuel h = h

-- An order in which answers arrive, those of each upstream at most once.
pub record IsOrder (upstreams : List Upstream) (order : List ℕ) : Type 0 where
  pub size : length order ≤ length upstreams
  pub in_range : All (λ i. i < length upstreams) order
  pub no_repeat : NoRepeat order

module _ {X : Type 0} (to_text : DohError X → Bytes) (upstreams : List Upstream)
    (answer : ℕ → Answer X) where
  pub packets_of-middle :
      (before : List ℕ) (i : ℕ) (after : List ℕ) (p : Bytes)
      → checked (answer i).reply ≡ got p
      → packets_of to_text upstreams answer (before ++ i ∷ after) ≡ []
      → ⊥
  packets_of-middle [] i after p v h = absurd (cc)
  packets_of-middle (j ∷ before) i after p v h =
      by_packet (checked (answer j).reply) h (λ h'. packets_of-middle before i after p v h')
    where
      by_packet :
          (r : Reply X)
          → packet_of to_text upstreams answer r
              ++ packets_of to_text upstreams answer (before ++ i ∷ after)
            ≡ []
          → (packets_of to_text upstreams answer (before ++ i ∷ after) ≡ [] → ⊥)
          → ⊥
      by_packet (got q) h' k = absurd (cc)
      by_packet (failed e) h' k = k h'

  -- The only upstream in each mode.
  pub exchange_parallel_alone :
      (order : List ℕ)
      → length upstreams ≡ 1
      → exchange_parallel to_text upstreams answer order
        ≡ ok (exchange_only to_text (upstream_at upstreams 0) (answer 0))
  unfolding exchange_parallel
  exchange_parallel_alone order one =
      rw (one, nth-eq upstreams 0 (omega (arith, one)), exchange_parallel) refl

  pub exchange_only-Delivered :
      (u : Upstream) (p : Bytes)
      → 0 < length upstreams
      → checked (answer 0).reply ≡ got p
      → Delivered upstreams answer (exchange_only to_text u (answer 0))
  unfolding exchange_only
  exchange_only-Delivered u p b v =
      Delivered-of upstreams answer (exchange_only to_text u (answer 0)) 0 p b v v

  module _ (float : Float) (same : Discrete Bytes) (random : ℕ → float.Number) where
    exchange_load_balance_alone :
        (rtts : RttMap float)
        → length upstreams ≡ 1
        → exchange_load_balance to_text float same upstreams answer random rtts
          ≡ ok (exchange_only to_text (upstream_at upstreams 0) (answer 0), rtts)
    unfolding exchange_load_balance
    exchange_load_balance_alone rtts one =
        rw (one, nth-eq upstreams 0 (omega (arith, one)), exchange_load_balance) refl

    pub load_balance-Delivered :
        (rtts : RttMap float) (i : ℕ) (p : Bytes)
        → i < length upstreams
        → checked (answer i).reply ≡ got p
        → Ends
            (λ _. ⊥)
            (λ (r : ExchangeOutcome X × RttMap float). Delivered upstreams answer r.0)
            (exchange_load_balance to_text float same upstreams answer random rtts)
    load_balance-Delivered rtts zero p b v = elim (Bool-cases (leb 2 (length upstreams))) [
      | inl several ↦
          exchange_load_balance_succeeds to_text float same upstreams answer random rtts 0 p
            (ground arith) b v
      | inr alone ↦
          rw (exchange_load_balance_alone rtts (ground arith))
            (exchange_only-Delivered (upstream_at upstreams 0) p b v)
    ]
    load_balance-Delivered rtts (suc i) p b v =
        exchange_load_balance_succeeds to_text float same upstreams answer random rtts (suc i) p
          (omega arith) b v

  pub exchange_all-alone :
      (order : List ℕ) (p : Bytes)
      → length upstreams ≡ 1
      → checked (answer 0).reply ≡ got p
      → exchange_all to_text upstreams answer order
        ≡ ok (alone (got p) (stat_of to_text (upstream_at upstreams 0) (answer 0).duration (got p)))
  unfolding exchange_all
  exchange_all-alone order p one v =
      rw (one, nth-eq upstreams 0 (omega (arith, one)), v, exchange_all) refl
