-- ===== src/Upstream/LoadBalance.antt =====
-- `exchange_load_balance` of src/libdoh/src/upstream/load_balance.rs: the upstreams are asked one
-- after the other, in a random order that favours the fast ones, until one answers.
pub mod Removal
pub mod Trials
use doh_server.Prelude.{
  ℕ, zero, suc, ◌+◌, ◌-◌, ◌*◌, ◌≤◌, ◌<◌, ◌≡◌, Bool, true, false, List, [], ◌∷◌, ◌++◌, Option, none,
  some, length, take, replicate, set, get_or, Outcome, ok, out_of_fuel, ◌>>=◌, ltb, ◌==◌,
  if◌then◌else◌,
}
use doh_server.Bytes.{Bytes}
use doh_server.Errors.{DohError, UpstreamAttemptError, from_upstream_attempts}
use doh_server.Upstream.{
  Upstream, UpstreamStatistics, got, failed, Answer, ExchangeOutcome, somes, nth, write, checked,
  upstream_address, success, failure, with_main, exchange_only, attempt_error,
}
use doh_server.Upstream.Weights.{Float, RttMap, sample_weighted_index, calc_weights, update_rtt}

-- `Duration::from_secs(10)`, in microseconds
abbrev pub load_balance_failure_penalty : ℕ
load_balance_failure_penalty = 10000000

-- `v.swap_remove(pos)`
unfoldable pub swap_remove : List ℕ → ℕ → Outcome (Unit {0}) (ℕ × List ℕ)
swap_remove l pos = do
  x ← nth l pos
  ok (x, take (length l - 1) (set l pos (get_or l (length l - 1) 0)))

-- `(k..k + n).collect()`
unfoldable pub range_from : ℕ → ℕ → List ℕ
range_from k zero = []
range_from k (suc n) = k ∷ range_from (suc k) n

module _ {X : Type 0} (to_text : DohError X → Bytes) (float : Float) (same : Discrete Bytes)
    (upstreams : List Upstream) (answer : ℕ → Answer X) (random : ℕ → float.Number) where
  -- The loop, at most `fuel` rounds of it. The random number of a round goes by how many upstreams
  -- are left.
  unfoldable pub ask :
      ℕ
      → List float.Number
      → List ℕ
      → List UpstreamAttemptError
      → List (Option UpstreamStatistics)
      → RttMap float
      → Outcome (Unit {0}) (ExchangeOutcome X × RttMap float)
  ask fuel weights [] failures attempts rtts = ok (
    record {
      packet = failed (from_upstream_attempts failures);
      query_stats = with_main (somes attempts);
    },
    rtts,
  )
  ask zero weights (i ∷ remaining) failures attempts rtts = out_of_fuel
  ask (suc fuel) weights (i ∷ remaining) failures attempts rtts = do
    pick_pos ← sample_weighted_index float (i ∷ remaining) weights (random (length (i ∷ remaining)))
    (idx, rest) ← swap_remove (i ∷ remaining) pick_pos
    upstream ← nth upstreams idx
    let duration = (answer idx).duration
    elim (checked (answer idx).reply) [
      | got p ↦ ok (
        record {
          packet = got p;
          query_stats = with_main (success (upstream_address upstream) duration ∷ []);
        },
        update_rtt float same rtts upstream duration,
      )
      | failed e ↦ do
        attempts' ←
            write attempts idx (some (failure (upstream_address upstream) duration (to_text e)))
        ask fuel weights rest (failures ++ attempt_error to_text upstream duration e ∷ []) attempts'
            (update_rtt float same rtts upstream load_balance_failure_penalty)
    ]

  -- The outcome, with the round trip times afterwards.
  unfoldable pub exchange_load_balance :
      RttMap float → Outcome (Unit {0}) (ExchangeOutcome X × RttMap float)
  exchange_load_balance rtts = elim (length upstreams == 1) [
    | true ↦ do upstream ← nth upstreams 0; ok (exchange_only to_text upstream (answer 0), rtts)
    | false ↦
        ask (length upstreams) (calc_weights float same rtts upstreams)
          (range_from 0 (length upstreams)) [] (replicate (length upstreams) none) rtts
  ]
