-- ===== src/Upstream/Parallel/First.antt =====
-- What `exchange_parallel` returns, for every order in which the answers arrive.
use doh_server.Prelude.{
  ℕ, ◌+◌, ◌≤◌, ◌<◌, ◌≡◌, ◌⊎◌, inl, inr, refl, sym, ap, ◌∙◌, subst, List, [], ◌∷◌, ◌++◌,
  append_assoc, append-nil, length, take-le, replicate, set, length-set, length-replicate, All, ok,
  ◌>>=◌, Ends, Ends-mono, none, some, Option, arith,
}
use doh_server.Bytes.{Bytes}
use doh_server.Errors.{DohError, UpstreamAttemptError, from_upstream_attempts}
use doh_server.Upstream.{
  Upstream, UpstreamStatistics, Reply, got, failed, Answer, ExchangeOutcome, somes, write, checked,
  upstream_address, success, failure, with_main, attempt_error,
}
use doh_server.Upstream.Origin.{Delivered, Delivered-of, member-in_range}
use doh_server.Upstream.Slots.{
  NoRepeat, upstream_at, nth-eq, IsFailure, IsFailureOr, IsFree, somes-IsFailure, set-IsFailureOr,
  length-somes-set, set-IsFree, All-IsFree, replicate-IsFailureOr, length-somes-replicate, write-eq,
}
use doh_server.Upstream.Parallel.{receive, exchange_parallel}

module _ {X : Type 0} (to_text : DohError X → Bytes) (upstreams : List Upstream)
    (answer : ℕ → Answer X) where
  -- The upstream gives no DNS message.
  abbrev pub Fails : ℕ → Type 0
  Fails i = (e : DohError X) × (checked (answer i).reply ≡ failed e)

  -- The first answer that is a DNS message, behind some that are none.
  pub record Won (order : List ℕ) (o : ExchangeOutcome X) : Type 0 where
    pub before : List ℕ
    pub winner : ℕ
    pub after : List ℕ
    pub packet : Bytes
    pub splits : order ≡ before ++ winner ∷ after
    pub failed_before : All Fails before
    pub valid : checked (answer winner).reply ≡ got packet
    pub returned : o.packet ≡ got packet
    pub stats :
        o.query_stats
        ≡ with_main (
            success (upstream_address (upstream_at upstreams winner)) (answer winner).duration ∷ [])

  -- No answer is a DNS message: the errors are joined to those of `earlier`, and each attempt is
  -- among the statistics, with `k` that were there.
  pub record Lost (order : List ℕ) (earlier : List UpstreamAttemptError) (k : ℕ)
      (o : ExchangeOutcome X) : Type 0 where
    pub errors : List UpstreamAttemptError
    pub all_failed : All Fails order
    pub one_each : length errors ≡ length order
    pub returned : o.packet ≡ failed (from_upstream_attempts (earlier ++ errors))
    pub stats : length o.query_stats.main ≡ k + length order
    pub with_errors : All IsFailure o.query_stats.main

  -- One more failure in front.
  extend :
      (i : ℕ) (order : List ℕ) (earlier : List UpstreamAttemptError) (err : UpstreamAttemptError)
      (k k' : ℕ) (o : ExchangeOutcome X)
      → Fails i
      → k' ≡ k + 1
      → Won order o ⊎ Lost order (earlier ++ err ∷ []) k' o
      → Won (i ∷ order) o ⊎ Lost (i ∷ order) earlier k o
  extend i order earlier err k k' o x q (inl w) = inl (record {
    before = i ∷ w.before;
    winner = w.winner;
    after = w.after;
    packet = w.packet;
    splits = ap (λ (l : List ℕ). i ∷ l) w.splits;
    failed_before = (x, w.failed_before);
    valid = w.valid;
    returned = w.returned;
    stats = w.stats;
  })
  extend i order earlier err k k' o x q (inr w) = inr (record {
    errors = err ∷ w.errors;
    all_failed = (x, w.all_failed);
    one_each = omega (arith, w.one_each);
    returned =
        w.returned
        ∙ ap (λ es. failed (from_upstream_attempts es)) (append_assoc earlier (err ∷ []) w.errors);
    stats = omega (arith, w.stats);
    with_errors = w.with_errors;
  })

  receive-Ends :
      (order : List ℕ) (earlier : List UpstreamAttemptError)
      (slots : List (Option UpstreamStatistics))
      → All (λ i. i < length upstreams) order
      → NoRepeat order
      → length slots ≡ length upstreams
      → All (IsFree slots) order
      → All IsFailureOr slots
      → Ends
          (λ _. ⊥)
          (λ o. Won order o ⊎ Lost order earlier (length (somes slots)) o)
          (receive to_text upstreams answer order earlier slots)
  unfolding receive
  receive-Ends [] earlier slots b d l f g = inr (record {
    errors = [];
    all_failed = tt;
    one_each = refl;
    returned = ap (λ es. failed (from_upstream_attempts es)) (sym (append-nil earlier));
    stats = omega arith;
    with_errors = somes-IsFailure slots g;
  })
  receive-Ends (i ∷ order) earlier slots b d l f g = rw (nth-eq upstreams i b.0) (
      by_reply (checked (answer i).reply) refl (λ e.
        receive-Ends order (earlier ++ attempt_error to_text u (answer i).duration e ∷ [])
          (set slots i (some (stat e))) b.1 d.1 (length-set slots i (some (stat e)) ∙ l)
          (set-IsFree slots i (stat e) order d.0 f.1)
          (set-IsFailureOr slots i (stat e) g ((to_text e, refl)))))
    where
      u : Upstream
      u = upstream_at upstreams i

      stat : DohError X → UpstreamStatistics
      stat e = failure (upstream_address u) (answer i).duration (to_text e)

      by_reply :
          (r : Reply X)
          → checked (answer i).reply ≡ r
          → ((e : DohError X)
              → Ends
                  (λ _. ⊥)
                  (λ o.
                    Won order o
                    ⊎ Lost order
                        (earlier ++ attempt_error to_text u (answer i).duration e ∷ [])
                        (length (somes (set slots i (some (stat e)))))
                        o)
                  (receive to_text upstreams answer order
                    (earlier ++ attempt_error to_text u (answer i).duration e ∷ [])
                    (set slots i (some (stat e)))))
          → Ends
              (λ _. ⊥)
              (λ o. Won (i ∷ order) o ⊎ Lost (i ∷ order) earlier (length (somes slots)) o)
              (elim r [
                | got p ↦ ok (record {
                  packet = got p;
                  query_stats = with_main (success (upstream_address u) (answer i).duration ∷ []);
                })
                | failed e ↦ do
                  attempts' ←
                      write slots i
                        (some (failure (upstream_address u) (answer i).duration (to_text e)))
                  receive to_text upstreams answer order
                      (earlier ++ attempt_error to_text u (answer i).duration e ∷ [])
                      attempts'
              ])
      by_reply (got p) h ih = inl (record {
        before = [];
        winner = i;
        after = order;
        packet = p;
        splits = refl;
        failed_before = tt;
        valid = h;
        returned = refl;
        stats = refl;
      })
      by_reply (failed e) h ih = rw (write-eq slots i (some (stat e)) (omega (arith, l, b.0))) (
          Ends-mono (λ _. ⊥) _ _ _ (ih e)
            (λ o.
              extend i order earlier (attempt_error to_text u (answer i).duration e)
                (length (somes slots)) (length (somes (set slots i (some (stat e))))) o ((e, h))
                (length-somes-set slots i (stat e) (omega (arith, l, b.0)) f.0)))

  many :
      (order : List ℕ)
      → 2 ≤ length upstreams
      → length order ≤ length upstreams
      → exchange_parallel to_text upstreams answer order
        ≡ receive to_text upstreams answer order [] (replicate (length upstreams) none)
  unfolding exchange_parallel
  many order n l = ground (arith, take-le (length upstreams) order l)

  -- With two upstreams or more, for every order in which answers arrive, each at most once: the
  -- exchange ends without a panic, and returns the first answer that is a DNS message, with the
  -- statistics of this one attempt; or no answer is a DNS message, and it returns the joined error
  -- with one attempt for each answer, and as many statistics, each with an error.
  pub exchange_parallel-Ends :
      (order : List ℕ)
      → 2 ≤ length upstreams
      → length order ≤ length upstreams
      → All (λ i. i < length upstreams) order
      → NoRepeat order
      → Ends
          (λ _. ⊥)
          (λ o. Won order o ⊎ Lost order [] 0 o)
          (exchange_parallel to_text upstreams answer order)
  exchange_parallel-Ends order n l b d =
      let slots : List (Option UpstreamStatistics) = replicate (length upstreams) none in
      let h =
        receive-Ends order [] slots b d (length-replicate (length upstreams) none)
          (All-IsFree (length upstreams) order) (replicate-IsFailureOr (length upstreams)) in
      rw (many order n l) (
        subst
          (λ k.
            Ends (λ _. ⊥) (λ o. Won order o ⊎ Lost order [] k o)
              (receive to_text upstreams answer order [] slots))
          (length-somes-replicate (length upstreams)) h)

  Fails-of : (before : List ℕ) (i : ℕ) (after : List ℕ) → All Fails (before ++ i ∷ after) → Fails i
  Fails-of [] i after h = h.0
  Fails-of (j ∷ before) i after h = Fails-of before i after h.1

  -- Where one of the answers that arrive is a DNS message, the exchange returns the DNS message
  -- of an upstream.
  pub exchange_parallel_succeeds :
      (before : List ℕ) (i : ℕ) (after : List ℕ) (p : Bytes)
      → 2 ≤ length upstreams
      → length (before ++ i ∷ after) ≤ length upstreams
      → All (λ j. j < length upstreams) (before ++ i ∷ after)
      → NoRepeat (before ++ i ∷ after)
      → checked (answer i).reply ≡ got p
      → Ends
          (λ _. ⊥)
          (Delivered upstreams answer)
          (exchange_parallel to_text upstreams answer (before ++ i ∷ after))
  exchange_parallel_succeeds before i after p n l b d v =
      Ends-mono (λ _. ⊥) _ _ _ (exchange_parallel-Ends (before ++ i ∷ after) n l b d)
        (λ o. outcome o)
    where
      outcome :
          (o : ExchangeOutcome X)
          → Won (before ++ i ∷ after) o ⊎ Lost (before ++ i ∷ after) [] 0 o
          → Delivered upstreams answer o
      outcome o (inl w) =
          Delivered-of upstreams answer o w.winner w.packet
            (member-in_range upstreams answer w.before w.winner w.after
              (subst (λ l. All (λ j. j < length upstreams) l) w.splits b))
            w.valid w.returned
      outcome o (inr w) = absurd (cc (Fails-of before i after w.all_failed).1)
