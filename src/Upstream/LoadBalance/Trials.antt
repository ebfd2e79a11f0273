-- ===== src/Upstream/LoadBalance/Trials.antt =====
-- What `exchange_load_balance` returns, for all weights and random numbers.
use doh_server.Prelude.{
  ℕ, zero, suc, ◌+◌, ◌≤◌, ◌<◌, ◌≡◌, ◌⊎◌, inl, inr, refl, sym, ap, ◌∙◌, subst, List, [], ◌∷◌, ◌++◌,
  Option, none, some, length, length-set, length-append, length-replicate, replicate, set, get_or,
  All, ok, ◌>>=◌, Ends, Ends-bind, Ends-mono, arith,
}
use doh_server.Bytes.{Bytes}
use doh_server.Errors.{DohError, UpstreamAttemptError, from_upstream_attempts}
use doh_server.Upstream.{
  Upstream, UpstreamStatistics, Reply, got, failed, Answer, ExchangeOutcome, somes, write, checked,
  upstream_address, success, failure, with_main, attempt_error,
}
use doh_server.Upstream.Origin.{Delivered, Delivered-of}
use doh_server.Upstream.Slots.{
  upstream_at, nth-eq, write-eq, IsFailure, IsFailureOr, IsFree, somes-IsFailure, set-IsFailureOr,
  length-somes-set, get_or-set_other, replicate-IsFree, replicate-IsFailureOr,
  length-somes-replicate,
}
use doh_server.Upstream.Weights.{
  Float, RttMap, sample_weighted_index, sample_weighted_index-Ends, calc_weights,
  length-calc_weights, update_rtt,
}
use doh_server.Upstream.LoadBalance.{
  range_from, ask, exchange_load_balance, load_balance_failure_penalty,
}
use doh_server.Upstream.LoadBalance.Removal.{
  removed, swap_remove-eq, length-removed, source, get_or-removed, Stands, Apart, Stands-removed,
  removed-Apart, removed-ne, length-range_from, get_or-range_from, All-positions,
}

module _ {X : Type 0} (to_text : DohError X → Bytes) (float : Float) (same : Discrete Bytes)
    (upstreams : List Upstream) (answer : ℕ → Answer X) (random : ℕ → float.Number) where
  -- The upstream gives no DNS message.
  abbrev pub Fails : ℕ → Type 0
  Fails i = (e : DohError X) × (checked (answer i).reply ≡ failed e)

  -- One of the upstreams gives the DNS message that is returned.
  pub record Answered (o : ExchangeOutcome X) : Type 0 where
    pub winner : ℕ
    pub packet : Bytes
    pub in_range : winner < length upstreams
    pub valid : checked (answer winner).reply ≡ got packet
    pub returned : o.packet ≡ got packet
    pub stats :
        o.query_stats
        ≡ with_main (
            success (upstream_address (upstream_at upstreams winner)) (answer winner).duration ∷ [])

  -- None of the upstreams gives a DNS message: each was asked once.
  pub record Unanswered (o : ExchangeOutcome X) : Type 0 where
    pub errors : List UpstreamAttemptError
    pub all_failed : (i : ℕ) → i < length upstreams → Fails i
    pub one_each : length errors ≡ length upstreams
    pub returned : o.packet ≡ failed (from_upstream_attempts errors)
    pub stats : length o.query_stats.main ≡ length upstreams
    pub with_errors : All IsFailure o.query_stats.main

  abbrev pub Settled : ExchangeOutcome X × RttMap float → Type 0
  Settled r = Answered r.0 ⊎ Unanswered r.0

  -- Between two rounds each upstream was asked in vain or is left, once.
  record Inv (remaining : List ℕ) (failures : List UpstreamAttemptError)
      (slots : List (Option UpstreamStatistics)) : Type 0 where
    in_range : (q : ℕ) → q < length remaining → get_or remaining q 0 < length upstreams
    apart : Apart remaining
    free : (q : ℕ) → q < length remaining → IsFree slots (get_or remaining q 0)
    covered : (i : ℕ) → i < length upstreams → Stands remaining i ⊎ Fails i
    slots_in : length slots ≡ length upstreams
    filled : All IsFailureOr slots
    slots_count : length (somes slots) + length remaining ≡ length upstreams
    failures_count : length failures + length remaining ≡ length upstreams

  stat : ℕ → DohError X → UpstreamStatistics
  stat i e = failure (upstream_address (upstream_at upstreams i)) (answer i).duration (to_text e)

  Inv-removed :
      (l : List ℕ) (failures : List UpstreamAttemptError) (slots : List (Option UpstreamStatistics))
      (pos : ℕ) (err : UpstreamAttemptError) (e : DohError X)
      → Inv l failures slots
      → pos < length l
      → checked (answer (get_or l pos 0)).reply ≡ failed e
      → Inv
          (removed l pos)
          (failures ++ err ∷ [])
          (set slots (get_or l pos 0) (some (stat (get_or l pos 0) e)))
  unfolding stat
  Inv-removed l failures slots pos err e v h x =
      let i = get_or l pos 0 in
      let n = length-removed l pos (omega arith) in
      record {
        in_range = λ q k. ground (
          arith,
          get_or-removed l pos q h (omega arith),
          v.in_range (source l pos q) (ground arith),
        );
        apart = removed-Apart l pos h v.apart;
        free = λ q k.
            get_or-set_other slots i (get_or (removed l pos) q 0) (stat i e)
              (removed-ne l pos q h v.apart k)
              (subst (λ j. IsFree slots j) (sym (get_or-removed l pos q h (omega arith)))
                (v.free (source l pos q) (ground arith)));
        covered = λ j k. elim (v.covered j k) [
          | inl s ↦ elim (Stands-removed l pos j h s) [
            | inl r ↦ inl r
            | inr q ↦ inr (e, ap (λ (m : ℕ). checked (answer m).reply) q ∙ x)
          ]
          | inr f ↦ inr f
        ];
        slots_in = length-set slots i (some (stat i e)) ∙ v.slots_in;
        filled = set-IsFailureOr slots i (stat i e) v.filled ((to_text e, refl));
        slots_count = omega (
          arith,
          v.slots_count,
          v.slots_in,
          v.in_range pos h,
          length-somes-set slots i (stat i e) (omega (arith, v.in_range pos h, v.slots_in))
              (v.free pos h),
        );
        failures_count = omega (arith, v.failures_count, length-append failures (err ∷ []));
      }

  -- The end of a round, with the answer in hand.
  settle :
      (fuel : ℕ) (weights : List float.Number) (idx : ℕ) (rest : List ℕ)
      (failures : List UpstreamAttemptError) (slots : List (Option UpstreamStatistics))
      (rtts : RttMap float) (r : Reply X)
      → checked (answer idx).reply ≡ r
      → idx < length upstreams
      → idx < length slots
      → ((e : DohError X)
          → checked (answer idx).reply ≡ failed e
          → Ends
              (λ _. ⊥)
              Settled
              (ask to_text float same upstreams answer random fuel weights rest
                (failures
                  ++ attempt_error to_text (upstream_at upstreams idx) (answer idx).duration e ∷ [])
                (set slots idx (some (stat idx e)))
                (update_rtt float same rtts
                  (upstream_at upstreams idx)
                  load_balance_failure_penalty)))
      → Ends
          (λ _. ⊥)
          Settled
          (elim r [
            | got p ↦ ok (
              record {
                packet = got p;
                query_stats = with_main (
                    success (upstream_address (upstream_at upstreams idx)) (answer idx).duration
                    ∷ []);
              },
              update_rtt float same rtts (upstream_at upstreams idx) (answer idx).duration,
            )
            | failed e ↦ do
              attempts' ← write slots idx (
                  some (
                    failure
                      (upstream_address (upstream_at upstreams idx))
                      (answer idx).duration
                      (to_text e)))
              ask to_text float same upstreams answer random fuel weights rest
                  (failures
                    ++ attempt_error to_text (upstream_at upstreams idx) (answer idx).duration e
                      ∷ [])
                  attempts'
                  (update_rtt float same rtts
                    (upstream_at upstreams idx)
                    load_balance_failure_penalty)
          ])
  unfolding stat
  settle fuel weights idx rest failures slots rtts (got p) h b c ih =
      inl (record {
        winner = idx;
        packet = p;
        in_range = b;
        valid = h;
        returned = refl;
        stats = refl;
      })
  settle fuel weights idx rest failures slots rtts (failed e) h b c ih =
      rw (write-eq slots idx (some (stat idx e)) c) (ih e h)

  nothing_left : {A : Type 0} (i : ℕ) → Stands [] i ⊎ A → A
  nothing_left i (inl s) = absurd (omega (arith, s.1))
  nothing_left i (inr a) = a

  unanswered :
      (failures : List UpstreamAttemptError) (slots : List (Option UpstreamStatistics))
      → Inv [] failures slots
      → Unanswered (record {
        packet = failed (from_upstream_attempts failures);
        query_stats = with_main (somes slots);
      })
  unanswered failures slots v = record {
    errors = failures;
    all_failed = λ i k. nothing_left i (v.covered i k);
    one_each = omega (arith, v.failures_count);
    returned = refl;
    stats = omega (arith, v.slots_count);
    with_errors = somes-IsFailure slots v.filled;
  }

  ask-Ends :
      (fuel : ℕ) (weights : List float.Number) (remaining : List ℕ)
      (failures : List UpstreamAttemptError) (slots : List (Option UpstreamStatistics))
      (rtts : RttMap float)
      → length weights ≡ length upstreams
      → length remaining ≤ fuel
      → Inv remaining failures slots
      → Ends
          (λ _. ⊥)
          Settled
          (ask to_text float same upstreams answer random fuel weights remaining failures slots
            rtts)
  unfolding ask
  ask-Ends zero weights [] failures slots rtts w f v = inr (unanswered failures slots v)
  ask-Ends zero weights (i ∷ l) failures slots rtts w f v = absurd (omega arith)
  ask-Ends (suc fuel) weights [] failures slots rtts w f v = inr (unanswered failures slots v)
  ask-Ends (suc fuel) weights (i ∷ l) failures slots rtts w f v =
      Ends-bind (λ _. ⊥) (λ p. p < length (i ∷ l)) Settled
        (sample_weighted_index float (i ∷ l) weights (random (length (i ∷ l)))) _
        (sample_weighted_index-Ends float (i ∷ l) weights (random (length (i ∷ l))) (omega arith)
          (All-positions (length weights) (i ∷ l) (λ q k. omega (arith, v.in_range q k, w))))
        (λ pos h.
          let idx = get_or (i ∷ l) pos 0 in
          let b = v.in_range pos h in
          rw (swap_remove-eq (i ∷ l) pos h, nth-eq upstreams idx b)
            (settle fuel weights idx (removed (i ∷ l) pos) failures slots rtts
              (checked (answer idx).reply) refl b (omega (arith, v.slots_in))
              (λ e x.
                ask-Ends fuel weights (removed (i ∷ l) pos) _ _ _ w
                  (omega (arith, length-removed (i ∷ l) pos (omega arith)))
                  (Inv-removed (i ∷ l) failures slots pos _ e v h x))))

  start : Inv (range_from 0 (length upstreams)) [] (replicate (length upstreams) none)
  start =
      let n = length upstreams in
      let l = length-range_from 0 n in
      record {
        in_range = λ q k. omega (arith, get_or-range_from 0 n q (omega (arith, l)), l);
        apart = λ p q hp hq e. omega (
          arith,
          get_or-range_from 0 n p (omega (arith, l)),
          get_or-range_from 0 n q (omega (arith, l)),
          e,
        );
        free = λ q k. replicate-IsFree n (get_or (range_from 0 n) q 0);
        covered = λ i k. inl (i, omega (arith, l), omega (arith, get_or-range_from 0 n i k));
        slots_in = length-replicate n none;
        filled = replicate-IsFailureOr n;
        slots_count = omega (arith, length-somes-replicate n, l);
        failures_count = omega (arith, l);
      }

  several :
      (rtts : RttMap float)
      → 2 ≤ length upstreams
      → exchange_load_balance to_text float same upstreams answer random rtts
        ≡ ask to_text float same upstreams answer random
            (length upstreams)
            (calc_weights float same rtts upstreams)
            (range_from 0 (length upstreams))
            []
            (replicate (length upstreams) none)
            rtts
  unfolding exchange_load_balance
  several rtts n = ground arith

  -- With two upstreams or more, for all round trip times, weights and random numbers: the exchange
  -- ends without a panic, and returns the DNS message of one of the upstreams with the statistics of
  -- this attempt; or every upstream fails, each is asked once, and the joined error and the
  -- statistics have one attempt for each.
  pub exchange_load_balance-Ends :
      (rtts : RttMap float)
      → 2 ≤ length upstreams
      → Ends
          (λ _. ⊥)
          Settled
          (exchange_load_balance to_text float same upstreams answer random rtts)
  exchange_load_balance-Ends rtts n = rw (several rtts n) (
      ask-Ends (length upstreams) (calc_weights float same rtts upstreams)
        (range_from 0 (length upstreams)) [] (replicate (length upstreams) none) rtts
        (length-calc_weights float same rtts upstreams)
        (omega (arith, length-range_from 0 (length upstreams))) start)

  -- Where some upstream gives a DNS message, the exchange returns the DNS message
  -- of an upstream.
  pub exchange_load_balance_succeeds :
      (rtts : RttMap float) (i : ℕ) (p : Bytes)
      → 2 ≤ length upstreams
      → i < length upstreams
      → checked (answer i).reply ≡ got p
      → Ends
          (λ _. ⊥)
          (λ (r : ExchangeOutcome X × RttMap float). Delivered upstreams answer r.0)
          (exchange_load_balance to_text float same upstreams answer random rtts)
  exchange_load_balance_succeeds rtts i p n b v =
      Ends-mono (λ _. ⊥) _ _ _ (exchange_load_balance-Ends rtts n) (λ r. outcome r)
    where
      outcome : (r : ExchangeOutcome X × RttMap float) → Settled r → Delivered upstreams answer r.0
      outcome r (inl w) =
          Delivered-of upstreams answer r.0 w.winner w.packet w.in_range w.valid w.returned
      outcome r (inr w) = absurd (cc (w.all_failed i b).1)
