-- ===== src/Upstream/Ping/Quickest.antt =====
-- The result that `ping_all` chooses.
use doh_server.Prelude.{
  ℕ, ◌+◌, ◌*◌, ◌≤◌, ◌≡◌, refl, subst, ◌⊎◌, inl, inr, true, false, Bool-cases, List, [], ◌∷◌, ◌++◌,
  map, length, length-append, Option, none, some, All, ◌==◌, ltb, if◌then◌else◌, arith,
}
use doh_server.Msg.Answers.{IpAddr}
use doh_server.IpCache.{FastIpCacheEntry}
use doh_server.Upstream.Ping.{
  PingResult, PingEvent, pinged, time_out, is_success, better, quicker, wait, Cache,
  load_fastest_cache, fastest_addr_ping_ports, scan, ping_all,
}

-- A result that is not slower.
abbrev pub IsAtMost : Option PingResult → ℕ → Type 0
IsAtMost none n = ⊥
IsAtMost (some r) n = r.latency_ms ≤ n

-- The result is that of a successful entry.
abbrev pub IsEntry : List (IpAddr × FastIpCacheEntry) → PingResult → Type 0
IsEntry [] r = ⊥
IsEntry ((ip, e) ∷ es) r =
    ((is_success e.status ≡ true)
      × (record { ip = ip; latency_ms = e.latency_ms; success = true } ≡ r))
    ⊎ IsEntry es r

-- The first success that arrives in time.
unfoldable pub first_success : List PingEvent → Option PingResult
first_success [] = none
first_success (time_out ∷ events) = none
first_success (pinged r ∷ events) =
    let rest = first_success events in if r.success then some r else rest

-- The result is one of a successful entry or the success that arrived, and none of these is quicker.
pub record IsQuickest (es : List (IpAddr × FastIpCacheEntry)) (answer o : Option PingResult)
    : Type 0 where
  pub cached : All (λ x. is_success x.1.status ≡ true → IsAtMost o x.1.latency_ms) es
  pub arrived : (r : PingResult) → answer ≡ some r → IsAtMost o r.latency_ms
  pub found : (r : PingResult) → o ≡ some r → IsEntry es r ⊎ (answer ≡ some r)

-- The best of some entries and an earlier result.
abbrev best_of : Option PingResult → List (IpAddr × FastIpCacheEntry) → Option PingResult
best_of best [] = best
best_of best ((ip, e) ∷ es) = best_of (better best ip e) es

better-IsAtMost :
    (best : Option PingResult) (ip : IpAddr) (e : FastIpCacheEntry) (n : ℕ)
    → IsAtMost best n
    → IsAtMost (better best ip e) n
better-IsAtMost none ip e n h = absurd h
better-IsAtMost (some r) ip e n h = ground (arith, h)

better-entry :
    (best : Option PingResult) (ip : IpAddr) (e : FastIpCacheEntry)
    → is_success e.status ≡ true
    → IsAtMost (better best ip e) e.latency_ms
better-entry none ip e h = rw h (omega arith)
better-entry (some r) ip e h = ground (arith, h)

best_of-IsAtMost :
    (es : List (IpAddr × FastIpCacheEntry)) (best : Option PingResult) (n : ℕ)
    → IsAtMost best n
    → IsAtMost (best_of best es) n
best_of-IsAtMost [] best n h = h
best_of-IsAtMost ((ip, e) ∷ es) best n h =
    best_of-IsAtMost es (better best ip e) n (better-IsAtMost best ip e n h)

best_of-cached :
    (es : List (IpAddr × FastIpCacheEntry)) (best : Option PingResult)
    → All (λ x. is_success x.1.status ≡ true → IsAtMost (best_of best es) x.1.latency_ms) es
best_of-cached [] best = tt
best_of-cached ((ip, e) ∷ es) best = (
  λ h. best_of-IsAtMost es (better best ip e) e.latency_ms (better-entry best ip e h),
  best_of-cached es (better best ip e),
)

better-found :
    (best : Option PingResult) (ip : IpAddr) (e : FastIpCacheEntry) (r : PingResult)
    → better best ip e ≡ some r
    → ((is_success e.status ≡ true)
        × (record { ip = ip; latency_ms = e.latency_ms; success = true } ≡ r))
      ⊎ (best ≡ some r)
better-found none ip e r h = ground (arith, h)
better-found (some b) ip e r h = ground (arith, h)

best_of-found :
    (es : List (IpAddr × FastIpCacheEntry)) (best : Option PingResult) (r : PingResult)
    → best_of best es ≡ some r
    → IsEntry es r ⊎ (best ≡ some r)
best_of-found [] best r h = inr h
best_of-found ((ip, e) ∷ es) best r h = elim (best_of-found es (better best ip e) r h) [
  | inl k ↦ inl (inr k)
  | inr k ↦ elim (better-found best ip e r k) [ inl l ↦ inl (inl l) | inr l ↦ inr l ]
]

-- The best of the entries against the success that arrived.
abbrev against : Option PingResult → Option PingResult → Option PingResult
against best none = best
against best (some r) = some (quicker best r)

wait-against :
    (best : Option PingResult) (events : List PingEvent)
    → wait best events ≡ against best (first_success events)
unfolding wait first_success
wait-against best [] = refl
wait-against best (time_out ∷ events) = refl
wait-against best (pinged r ∷ events) = elim (Bool-cases r.success) [
  | inl e ↦ rw (e, first_success, wait) refl
  | inr e ↦ rw (e, first_success, wait) (wait-against best events)
]

against-IsQuickest :
    (es : List (IpAddr × FastIpCacheEntry)) (answer : Option PingResult)
    → IsQuickest es answer (against (best_of none es) answer)
against-IsQuickest es none = record {
  cached = best_of-cached es none;
  arrived = λ r h. absurd (cc);
  found = λ r h. elim (best_of-found es none r h) [ inl k ↦ inl k | inr k ↦ absurd (cc) ];
}
against-IsQuickest es (some a) =
    by_best (best_of none es) (best_of-cached es none)
      (λ r h. elim (best_of-found es none r h) [ inl k ↦ k | inr k ↦ absurd (cc) ])
  where
    weaken :
        (o o' : Option PingResult) (l : List (IpAddr × FastIpCacheEntry))
        → ((n : ℕ) → IsAtMost o n → IsAtMost o' n)
        → All (λ x. is_success x.1.status ≡ true → IsAtMost o x.1.latency_ms) l
        → All (λ x. is_success x.1.status ≡ true → IsAtMost o' x.1.latency_ms) l
    weaken o o' [] f h = tt
    weaken o o' (x ∷ l) f h = (λ s. f x.1.latency_ms (h.0 s), weaken o o' l f h.1)

    by_best :
        (best : Option PingResult)
        → All (λ x. is_success x.1.status ≡ true → IsAtMost best x.1.latency_ms) es
        → ((r : PingResult) → best ≡ some r → IsEntry es r)
        → IsQuickest es (some a) (some (quicker best a))
    by_best none h f = record {
      cached = weaken none (some a) es (λ n k. absurd k) h;
      arrived =
          λ r e. let s : a ≡ r = cc in subst (λ x. a.latency_ms ≤ x.latency_ms) s (omega arith);
      found = λ r e. inr e;
    }
    by_best (some c) h f = elim (Bool-cases (ltb c.latency_ms a.latency_ms)) [
      | inl l ↦ rw l (record {
        cached = h;
        arrived = λ r e.
            let s : a ≡ r = cc in subst (λ x. c.latency_ms ≤ x.latency_ms) s (ground (arith, l));
        found = λ r e. inl (f r e);
      })
      | inr l ↦ rw l (record {
        cached = weaken (some c) (some a) es (λ n k. ground (arith, l, k)) h;
        arrived =
            λ r e. let s : a ≡ r = cc in subst (λ x. a.latency_ms ≤ x.latency_ms) s (omega arith);
        found = λ r e. inr e;
      })
    ]

module _ (same : Discrete IpAddr) (now : IpAddr → ℕ) where
  abbrev entry_of : IpAddr → Option FastIpCacheEntry → List (IpAddr × FastIpCacheEntry)
  entry_of ip none = []
  entry_of ip (some e) = (ip, e) ∷ []

  -- What the cache has of the addresses, each at its turn.
  abbrev pub entries : List IpAddr → Cache same → List (IpAddr × FastIpCacheEntry)
  entries [] c = []
  entries (ip ∷ ips) c =
      entry_of ip (load_fastest_cache same c ip (now ip)).1
      ++ entries ips (load_fastest_cache same c ip (now ip)).0

  abbrev one_if_none : Option FastIpCacheEntry → ℕ
  one_if_none none = 1
  one_if_none (some e) = 0

  -- How many of the addresses the cache has nothing of.
  abbrev pub missing : List IpAddr → Cache same → ℕ
  missing [] c = 0
  missing (ip ∷ ips) c =
      one_if_none (load_fastest_cache same c ip (now ip)).1
      + missing ips (load_fastest_cache same c ip (now ip)).0

  -- What arrives where some address is pinged.
  abbrev pub answer_of : List PingEvent → List IpAddr → Cache same → Option PingResult
  answer_of events ips c = if missing ips c == 0 then none else first_success events

  scan-best_of :
      (ips : List IpAddr) (c : Cache same) (best : Option PingResult)
      (scheduled : List (IpAddr × ℕ))
      → ((scan same now ips c best scheduled).1 ≡ best_of best (entries ips c))
        × (length (scan same now ips c best scheduled).2 ≡ length scheduled + 2 * missing ips c)
  unfolding scan
  scan-best_of [] c best scheduled = (refl, omega arith)
  scan-best_of (ip ∷ ips) c best scheduled =
      by_entry (load_fastest_cache same c ip (now ip)).1
        (scan-best_of ips (load_fastest_cache same c ip (now ip)).0 best
          (scheduled ++ map (λ port. (ip, port)) fastest_addr_ping_ports))
        (λ e.
          scan-best_of ips (load_fastest_cache same c ip (now ip)).0 (better best ip e) scheduled)
    where
      c' : Cache same
      c' = (load_fastest_cache same c ip (now ip)).0

      asked : List (IpAddr × ℕ)
      asked = scheduled ++ map (λ port. (ip, port)) fastest_addr_ping_ports

      by_entry :
          (o : Option FastIpCacheEntry)
          → ((scan same now ips c' best asked).1 ≡ best_of best (entries ips c'))
            × (length (scan same now ips c' best asked).2 ≡ length asked + 2 * missing ips c')
          → ((e : FastIpCacheEntry)
              → ((scan same now ips c' (better best ip e) scheduled).1
                  ≡ best_of (better best ip e) (entries ips c'))
                × (length (scan same now ips c' (better best ip e) scheduled).2
                    ≡ length scheduled + 2 * missing ips c'))
          → ((elim o as (λ _. Cache same × Option PingResult × List (IpAddr × ℕ)) [
            | none ↦ scan same now ips c' best asked
            | some e ↦ scan same now ips c' (better best ip e) scheduled
          ]).1
              ≡ best_of best (entry_of ip o ++ entries ips c'))
            × (length
                  (elim o as (λ _. Cache same × Option PingResult × List (IpAddr × ℕ)) [
                    | none ↦ scan same now ips c' best asked
                    | some e ↦ scan same now ips c' (better best ip e) scheduled
                  ]).2
                ≡ length scheduled + 2 * (one_if_none o + missing ips c'))
      by_entry none k l = (
        k.0,
        omega (
          arith,
          k.1,
          length-append scheduled (map (λ port. (ip, port)) fastest_addr_ping_ports),
        ),
      )
      by_entry (some e) k l = ((l e).0, omega (arith, (l e).1))

  -- For two addresses or more, what `ping_all` returns is the quickest of the successes that the cache
  -- has of the addresses and, where it has nothing of some of them, the first success of the pings
  -- that arrives in time: it is one of these, and none of them takes less time.
  pub ping_all-IsQuickest :
      (events : List PingEvent) (ips : List IpAddr) (c : Cache same)
      → 2 ≤ length ips
      → IsQuickest (entries ips c) (answer_of events ips c) (ping_all same now events ips c).1
  unfolding ping_all
  ping_all-IsQuickest events [] c h = absurd (omega arith)
  ping_all-IsQuickest events (ip ∷ []) c h = absurd (omega arith)
  ping_all-IsQuickest events (ip ∷ jp ∷ ips) c h =
      by_count (scan-best_of all c none []).0 (scan-best_of all c none []).1
        (Bool-cases (missing all c == 0))
    where
      all : List IpAddr
      all = ip ∷ jp ∷ ips

      scheduled : List (IpAddr × ℕ)
      scheduled = (scan same now all c none []).2

      by_count :
          (scan same now all c none []).1 ≡ best_of none (entries all c)
          → length scheduled ≡ 0 + 2 * missing all c
          → ((missing all c == 0) ≡ true) ⊎ ((missing all c == 0) ≡ false)
          → IsQuickest (entries all c) (answer_of events all c) (
              if length scheduled == 0
              then (scan same now all c none []).1
              else wait (scan same now all c none []).1 events)
      by_count e k (inl m) =
          let n : (length scheduled == 0) ≡ true = ground (arith, k, m) in
          rw (n, m, e) (against-IsQuickest (entries all c) none)
      by_count e k (inr m) =
          let n : (length scheduled == 0) ≡ false = ground (arith, k, m) in
          rw (n, m, e, wait-against (best_of none (entries all c)) events)
            (against-IsQuickest (entries all c) (first_success events))
