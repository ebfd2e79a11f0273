-- ===== src/Upstream/FastestAddr/Gathers.antt =====
-- What `exchange_all` collects, for every order in which the answers arrive.
use doh_server.Prelude.{
  ℕ, ◌+◌, ◌≤◌, ◌<◌, ◌≡◌, refl, sym, ap, ◌∙◌, subst, List, [], ◌∷◌, ◌++◌, append_assoc, append-nil,
  length, take-le, replicate, set, length-set, length-replicate, All, ◌>>=◌, Ends, Ends-mono, none,
  some, Option, arith,
}
use doh_server.Bytes.{Bytes}
use doh_server.Errors.{DohError, UpstreamAttemptError}
use doh_server.Upstream.{
  Upstream, UpstreamStatistics, Reply, got, failed, Answer, somes, write, checked, upstream_address,
  success, failure, attempt_error,
}
use doh_server.Upstream.Slots.{
  NoRepeat, upstream_at, nth-eq, IsFree, length-somes-set, set-IsFree, All-IsFree,
  length-somes-replicate, write-eq,
}
use doh_server.Upstream.FastestAddr.{ExchangeAll, joined, gather, exchange_all}

module _ {X : Type 0} (to_text : DohError X → Bytes) (upstreams : List Upstream)
    (answer : ℕ → Answer X) where
  abbrev pub packet_of : Reply X → List Bytes
  packet_of (got p) = p ∷ []
  packet_of (failed e) = []

  -- The answers that are DNS messages, in the order of arrival.
  abbrev pub packets_of : List ℕ → List Bytes
  packets_of [] = []
  packets_of (i ∷ order) = packet_of (checked (answer i).reply) ++ packets_of order

  abbrev pub error_of : ℕ → Reply X → List UpstreamAttemptError
  error_of i (got p) = []
  error_of i (failed e) = attempt_error to_text (upstream_at upstreams i) (answer i).duration e ∷ []

  -- The errors of the other answers.
  abbrev pub errors_of : List ℕ → List UpstreamAttemptError
  errors_of [] = []
  errors_of (i ∷ order) = error_of i (checked (answer i).reply) ++ errors_of order

  pub record Gathered (order : List ℕ) (rs : List Bytes) (fs : List UpstreamAttemptError) (k : ℕ)
      (a : ExchangeAll X) : Type 0 where
    pub replies : a.replies ≡ rs ++ packets_of order
    pub error : a.error ≡ joined (fs ++ errors_of order)
    pub stats : length a.stats ≡ k + length order

  -- One more answer in front, a DNS message or none.
  with_packet :
      (i : ℕ) (order : List ℕ) (rs : List Bytes) (fs : List UpstreamAttemptError) (k k' : ℕ)
      (p : Bytes) (a : ExchangeAll X)
      → checked (answer i).reply ≡ got p
      → k' ≡ k + 1
      → Gathered order (rs ++ p ∷ []) fs k' a
      → Gathered (i ∷ order) rs fs k a
  with_packet i order rs fs k k' p a h e g = record {
    replies =
        g.replies
        ∙ append_assoc rs (p ∷ []) (packets_of order)
        ∙ ap (λ r. rs ++ (packet_of r ++ packets_of order)) (sym h);
    error = g.error ∙ ap (λ r. joined (fs ++ (error_of i r ++ errors_of order))) (sym h);
    stats = omega (arith, g.stats, e);
  }

  with_error :
      (i : ℕ) (order : List ℕ) (rs : List Bytes) (fs : List UpstreamAttemptError) (k k' : ℕ)
      (x : DohError X) (a : ExchangeAll X)
      → checked (answer i).reply ≡ failed x
      → k' ≡ k + 1
      → Gathered order rs (fs ++ error_of i (failed x)) k' a
      → Gathered (i ∷ order) rs fs k a
  with_error i order rs fs k k' x a h e g = record {
    replies = g.replies ∙ ap (λ r. rs ++ (packet_of r ++ packets_of order)) (sym h);
    error =
        g.error
        ∙ ap joined (append_assoc fs (error_of i (failed x)) (errors_of order))
        ∙ ap (λ r. joined (fs ++ (error_of i r ++ errors_of order))) (sym h);
    stats = omega (arith, g.stats, e);
  }

  gather-Ends :
      (order : List ℕ) (replies : List Bytes) (failures : List UpstreamAttemptError)
      (slots : List (Option UpstreamStatistics))
      → All (λ i. i < length upstreams) order
      → NoRepeat order
      → length slots ≡ length upstreams
      → All (IsFree slots) order
      → Ends
          (λ _. ⊥)
          (Gathered order replies failures (length (somes slots)))
          (gather to_text upstreams answer order replies failures slots)
  unfolding gather
  gather-Ends [] replies failures slots b d l f = record {
    replies = sym (append-nil replies);
    error = ap joined (sym (append-nil failures));
    stats = omega arith;
  }
  gather-Ends (i ∷ order) replies failures slots b d l f = rw (nth-eq upstreams i b.0) (
      by_reply (checked (answer i).reply) refl (λ rs fs s.
        gather-Ends order rs fs (set slots i (some s)) b.1 d.1 (length-set slots i (some s) ∙ l)
          (set-IsFree slots i s order d.0 f.1)))
    where
      u : Upstream
      u = upstream_at upstreams i

      by_reply :
          (r : Reply X)
          → checked (answer i).reply ≡ r
          → ((rs : List Bytes) (fs : List UpstreamAttemptError) (s : UpstreamStatistics)
              → Ends
                  (λ _. ⊥)
                  (Gathered order rs fs (length (somes (set slots i (some s)))))
                  (gather to_text upstreams answer order rs fs (set slots i (some s))))
          → Ends
              (λ _. ⊥)
              (Gathered (i ∷ order) replies failures (length (somes slots)))
              (elim r [
                | got p ↦ do
                  attempts' ←
                      write slots i (some (success (upstream_address u) (answer i).duration))
                  gather to_text upstreams answer order (replies ++ p ∷ []) failures attempts'
                | failed e ↦ do
                  attempts' ←
                      write slots i
                        (some (failure (upstream_address u) (answer i).duration (to_text e)))
                  gather to_text upstreams answer order replies
                      (failures ++ attempt_error to_text u (answer i).duration e ∷ [])
                      attempts'
              ])
      by_reply (got p) h ih =
          let s : UpstreamStatistics = success (upstream_address u) (answer i).duration in
          rw (write-eq slots i (some s) (omega (arith, l, b.0))) (
            Ends-mono (λ _. ⊥) _ _ _ (ih (replies ++ p ∷ []) failures s)
              (λ a.
                with_packet i order replies failures (length (somes slots))
                  (length (somes (set slots i (some s)))) p a h
                  (length-somes-set slots i s (omega (arith, l, b.0)) f.0)))
      by_reply (failed e) h ih =
          let s : UpstreamStatistics =
            failure (upstream_address u) (answer i).duration (to_text e) in
          let x : UpstreamAttemptError = attempt_error to_text u (answer i).duration e in
          rw (write-eq slots i (some s) (omega (arith, l, b.0))) (
            Ends-mono (λ _. ⊥) _ _ _ (ih replies (failures ++ x ∷ []) s)
              (λ a.
                with_error i order replies failures (length (somes slots))
                  (length (somes (set slots i (some s)))) e a h
                  (length-somes-set slots i s (omega (arith, l, b.0)) f.0)))

  many :
      (order : List ℕ)
      → 2 ≤ length upstreams
      → length order ≤ length upstreams
      → exchange_all to_text upstreams answer order
        ≡ gather to_text upstreams answer order [] [] (replicate (length upstreams) none)
  unfolding exchange_all
  many order n l = ground (arith, take-le (length upstreams) order l)

  -- With two upstreams or more, for every order in which answers arrive, each at most once,
  -- `exchange_all` ends with the answers that are DNS messages and the errors of the others, in this
  -- order, and with one statistic for each.
  pub exchange_all-Ends :
      (order : List ℕ)
      → 2 ≤ length upstreams
      → length order ≤ length upstreams
      → All (λ i. i < length upstreams) order
      → NoRepeat order
      → Ends (λ _. ⊥) (Gathered order [] [] 0) (exchange_all to_text upstreams answer order)
  exchange_all-Ends order n l b d =
      let slots : List (Option UpstreamStatistics) = replicate (length upstreams) none in
      let h =
        gather-Ends order [] [] slots b d (length-replicate (length upstreams) none)
          (All-IsFree (length upstreams) order) in
      rw (many order n l) (
        subst
          (λ k.
            Ends (λ _. ⊥) (Gathered order [] [] k)
              (gather to_text upstreams answer order [] [] slots))
          (length-somes-replicate (length upstreams)) h)
