-- ===== src/Upstream/Weights.antt =====
-- The choice of an upstream in src/libdoh/src/upstream/load_balance.rs, and the round trip times in
-- src/libdoh/src/globals.rs. The numbers are those of `f64`, by their operations.
use doh_server.Prelude.{
  ℕ, zero, suc, ◌+◌, ◌<◌, ◌≡◌, Bool, true, false, not, ◌&&◌, ◌||◌, List, [], ◌∷◌, Option, none,
  some, length, All, Outcome, ok, ◌>>=◌, Ends, Ends-bind, refl, ap, if◌then◌else◌, arith,
}
use doh_server.Bytes.{Bytes}
use doh_server.HashMap.{find, insert}
use doh_server.Upstream.{Upstream, upstream_address, nth}

-- What is used of `f64`; no law of it is needed.
pub record Float : Type 1 where
  pub Number : Type 0
  pub nought : Number
  pub one : Number
  pub add : Number → Number → Number
  pub subtract : Number → Number → Number
  pub times : Number → Number → Number
  pub divide : Number → Number → Number
  pub at_most : Number → Number → Bool
  pub below : Number → Number → Bool
  pub is_finite : Number → Bool
  pub of_micros : ℕ → Number

module _ (float : Float) where
  open float use {
    Number, nought, one, add, subtract, times, divide, at_most, below, is_finite, of_micros,
  }

  pub record UpstreamRttStats : Type 0 where
    pub rtt_sum_us : Number
    pub req_num : Number

  abbrev pub no_stats : UpstreamRttStats
  no_stats = record { rtt_sum_us = nought; req_num = nought }

  unfoldable pub update : UpstreamRttStats → ℕ → UpstreamRttStats
  update s rtt = record {
    rtt_sum_us = add s.rtt_sum_us (of_micros rtt);
    req_num = add s.req_num one;
  }

  -- `unwrap_or_default()`
  abbrev pub or_no_stats : Option UpstreamRttStats → UpstreamRttStats
  or_no_stats none = no_stats
  or_no_stats (some s) = s

  abbrev pub weight_of : UpstreamRttStats → Number
  weight_of s =
      if at_most s.rtt_sum_us nought || at_most s.req_num nought
      then one
      else divide one (divide s.rtt_sum_us s.req_num)

  -- A weight that counts for the sum.
  abbrev pub counts : Number → Bool
  counts w = is_finite w && below nought w

  -- The first loop of `sample_weighted_index`: the sum of the weights that count.
  unfoldable pub total_of : List Number → List ℕ → Number → Outcome (Unit {0}) Number
  total_of weights [] total = ok total
  total_of weights (idx ∷ remaining) total = do
    w ← nth weights idx
    total_of weights remaining (if counts w then add total w else total)

  -- Its second loop; `pos` is the counter of `enumerate`.
  unfoldable pub position_of : List Number → List ℕ → ℕ → Number → Outcome (Unit {0}) ℕ
  position_of weights [] pos cursor = ok 0
  position_of weights (idx ∷ remaining) pos cursor = do
    w ← nth weights idx
    elim (not (is_finite w) || at_most w nought) [
      | true ↦ position_of weights remaining (pos + 1) cursor
      | false ↦ elim (at_most cursor w) [
        | true ↦ ok pos
        | false ↦ position_of weights remaining (pos + 1) (subtract cursor w)
      ]
    ]

  -- `random` is `rand::random::<f64>()`.
  unfoldable pub sample_weighted_index : List ℕ → List Number → Number → Outcome (Unit {0}) ℕ
  sample_weighted_index remaining weights random = do
    total ← total_of weights remaining nought
    elim (at_most total nought) [
      | true ↦ ok 0
      | false ↦ position_of weights remaining 0 (times random total)
    ]

  nth-Ends :
      (weights : List Number) (i : ℕ)
      → i < length weights
      → Ends (λ _. ⊥) (λ _. Unit {0}) (nth weights i)
  unfolding nth
  nth-Ends [] i h = absurd (omega arith)
  nth-Ends (w ∷ ws) zero h = tt
  nth-Ends (w ∷ ws) (suc i) h = nth-Ends ws i (omega arith)

  total_of-Ends :
      (weights : List Number) (remaining : List ℕ) (total : Number)
      → All (λ i. i < length weights) remaining
      → Ends (λ _. ⊥) (λ _. Unit {0}) (total_of weights remaining total)
  unfolding total_of
  total_of-Ends weights [] total h = tt
  total_of-Ends weights (i ∷ remaining) total h =
      Ends-bind (λ _. ⊥) (λ _. Unit {0}) (λ _. Unit {0}) (nth weights i) _ (nth-Ends weights i h.0)
        (λ w u. total_of-Ends weights remaining (if counts w then add total w else total) h.1)

  position_of-Ends :
      (weights : List Number) (remaining : List ℕ) (pos : ℕ) (cursor : Number) (n : ℕ)
      → All (λ i. i < length weights) remaining
      → pos + length remaining ≡ n
      → 0 < n
      → Ends (λ _. ⊥) (λ p. p < n) (position_of weights remaining pos cursor)
  unfolding position_of
  position_of-Ends weights [] pos cursor n h s z = z
  position_of-Ends weights (i ∷ remaining) pos cursor n h s z =
      Ends-bind (λ _. ⊥) (λ _. Unit {0}) (λ p. p < n) (nth weights i) _ (nth-Ends weights i h.0)
        (λ w u. ground (
          arith,
          position_of-Ends weights remaining (pos + 1) cursor n h.1 (omega arith) z,
          position_of-Ends weights remaining (pos + 1) (subtract cursor w) n h.1 (omega arith) z,
        ))

  -- Whatever the weights and the random number are, the position that is chosen is one of the
  -- remaining upstreams.
  pub sample_weighted_index-Ends :
      (remaining : List ℕ) (weights : List Number) (random : Number)
      → 0 < length remaining
      → All (λ i. i < length weights) remaining
      → Ends (λ _. ⊥) (λ p. p < length remaining) (sample_weighted_index remaining weights random)
  unfolding sample_weighted_index
  sample_weighted_index-Ends remaining weights random z h =
      Ends-bind (λ _. ⊥) (λ _. Unit {0}) (λ p. p < length remaining)
        (total_of weights remaining nought) _ (total_of-Ends weights remaining nought h)
        (λ total u. ground (
          arith,
          position_of-Ends weights remaining 0 (times random total) (length remaining) h
              (omega arith) z,
        ))

  -- `globals.upstream_rtt_stats`, by the addresses of the upstreams.
  abbrev pub RttMap : Type 0
  RttMap = List (Bytes × UpstreamRttStats)

  module _ (same : Discrete Bytes) where
    unfoldable pub calc_weights : RttMap → List Upstream → List Number
    calc_weights rtts [] = []
    calc_weights rtts (u ∷ upstreams) =
        weight_of (or_no_stats (find same rtts (upstream_address u))) ∷ calc_weights rtts upstreams

    unfoldable pub update_rtt : RttMap → Upstream → ℕ → RttMap
    update_rtt rtts upstream elapsed =
        let key = upstream_address upstream in
        insert same rtts key (update (or_no_stats (find same rtts key)) elapsed)

    pub length-calc_weights :
        (rtts : RttMap) (upstreams : List Upstream)
        → length (calc_weights rtts upstreams) ≡ length upstreams
    unfolding calc_weights
    length-calc_weights rtts [] = refl
    length-calc_weights rtts (u ∷ upstreams) = ap suc (length-calc_weights rtts upstreams)
