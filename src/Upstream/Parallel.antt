-- ===== src/Upstream/Parallel.antt =====
-- src/libdoh/src/upstream/parallel.rs: all upstreams are asked at once, and the first answer that is
-- a DNS message wins.
pub mod First
use doh_server.Prelude.{
  ℕ, zero, suc, ◌+◌, ◌≤◌, ◌<◌, ◌≡◌, ◌≢◌, ◌⊎◌, refl, Bool, true, false, List, [], ◌∷◌, ◌++◌, Option,
  none, some, length, take, replicate, set, All, Outcome, ok, panic, ◌>>=◌, Ends, ltb, ◌==◌,
  if◌then◌else◌, arith,
}
use doh_server.Bytes.{Bytes}
use doh_server.Errors.{DohError, UpstreamAttemptError, from_upstream_attempts}
use doh_server.Upstream.{
  Upstream, UpstreamStatistics, Reply, got, failed, Answer, ExchangeOutcome, somes, nth, write,
  checked, upstream_address, success, failure, with_main, exchange_only, attempt_error,
}

module _ {X : Type 0} (to_text : DohError X → Bytes) (upstreams : List Upstream)
    (answer : ℕ → Answer X) where
  -- The receiving loop. The list has the tasks in the order in which their answers arrive.
  unfoldable pub receive :
      List ℕ
      → List UpstreamAttemptError
      → List (Option UpstreamStatistics)
      → Outcome (Unit {0}) (ExchangeOutcome X)
  receive [] failures attempts = ok (record {
    packet = failed (from_upstream_attempts failures);
    query_stats = with_main (somes attempts);
  })
  receive (idx ∷ order) failures attempts = do
    upstream ← nth upstreams idx
    let duration = (answer idx).duration
    elim (checked (answer idx).reply) [
      | got p ↦ ok (record {
        packet = got p;
        query_stats = with_main (success (upstream_address upstream) duration ∷ []);
      })
      | failed e ↦ do
        attempts' ←
            write attempts idx (some (failure (upstream_address upstream) duration (to_text e)))
        receive order (failures ++ attempt_error to_text upstream duration e ∷ []) attempts'
    ]

  -- A single upstream is asked without a task. No more answers are awaited than there are tasks.
  unfoldable pub exchange_parallel : List ℕ → Outcome (Unit {0}) (ExchangeOutcome X)
  exchange_parallel order = elim (length upstreams == 1) [
    | true ↦ do upstream ← nth upstreams 0; ok (exchange_only to_text upstream (answer 0))
    | false ↦ receive (take (length upstreams) order) [] (replicate (length upstreams) none)
  ]
