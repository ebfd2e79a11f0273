-- ===== src/Doh/Pending/Once.antt =====
-- The results that the requests of a connection get.
use doh_server.Prelude.{
  ℕ, ◌+◌, ◌%◌, ◌^◌, ◌≤◌, ◌<◌, ◌≡◌, refl, ap, inl, inr, Bool, true, false, List, [], ◌∷◌, ◌++◌,
  Option, none, some, Bool-cases, length, ltb, ◌==◌, if◌then◌else◌, arith,
}
use doh_server.Doh.{Tried}
use doh_server.Doh.Pending.{
  Pending, has, put, without, request_of, without_stream, register, clear_pending_h3_request,
  answer, complete_pending_h3_stream, failed_with, to_all, fail_all_pending_h3_requests,
  read_h3_response_body, PendingEvent, registered, registered_elsewhere, dropped,
  new_outbound_request, incoming_headers, body_read, connection_ended, stream_ended, on_event,
  after_event, after_events,
}

-- How often a request stands in a list.
unfoldable pub count : ℕ → List ℕ → ℕ
count r [] = 0
count r (q ∷ qs) = (if q == r then 1 else 0) + count r qs

-- The requests of the results.
unfoldable pub ids : {X : Type 0} → List (ℕ × Tried X) → List ℕ
ids [] = []
ids ((r, t) ∷ answers) = r ∷ ids answers

pub count-append : (r : ℕ) (qs ps : List ℕ) → count r (qs ++ ps) ≡ count r qs + count r ps
unfolding count
count-append r [] ps = omega arith
count-append r (q ∷ qs) ps = omega (arith, count-append r qs ps)

pub count-without :
    (r q : ℕ) (qs : List ℕ) → count r (without qs q) ≡ (if q == r then 0 else count r qs)
unfolding count without
count-without r q [] = ground arith
count-without r q (p ∷ qs) = ground (arith, count-without r q qs)

has-count : (qs : List ℕ) (r : ℕ) → has qs r ≡ true → 1 ≤ count r qs
unfolding has count
has-count [] r h = cc
has-count (q ∷ qs) r h = ground (arith, has-count qs r)

count-put : (r q : ℕ) (qs : List ℕ) → count r (put qs q) ≤ (if q == r then 1 else 0) + count r qs
unfolding put count
count-put r q qs = ground (arith, count-append r qs (q ∷ []))

pub count-has : (qs : List ℕ) (r : ℕ) → 1 ≤ count r qs → has qs r ≡ true
unfolding has count
count-has [] r h = absurd (omega arith)
count-has (q ∷ qs) r h = ground (arith, count-has qs r)

pub put-count : (r q : ℕ) (qs : List ℕ) → count r qs ≤ count r (put qs q)
unfolding put count
put-count r q qs = ground (arith, count-append r qs (q ∷ []))

module _ {X : Type 0} where
  pub ids-append : (a b : List (ℕ × Tried X)) → ids (a ++ b) ≡ ids a ++ ids b
  unfolding ids
  ids-append [] b = refl
  ids-append ((r, t) ∷ a) b = ap (λ (l : List ℕ). r ∷ l) (ids-append a b)

  pub ids-to_all : (rs : List ℕ) (t : Tried X) → ids (to_all rs t) ≡ rs
  unfolding ids to_all
  ids-to_all [] t = refl
  ids-to_all (r ∷ rs) t = ap (λ (l : List ℕ). r ∷ l) (ids-to_all rs t)

  -- How often a request waits or was answered.
  abbrev pub total : Pending X → ℕ → ℕ
  total p r = count r p.by_request + count r (ids p.answers)

  -- A request waits or was answered at most once, and one that has not begun not at all.
  abbrev pub IsOrderly : Pending X → Type 0
  IsOrderly p = (r : ℕ) → total p r ≤ (if ltb r p.next_id then 1 else 0)

  register-IsOrderly :
      (p : Pending X) → p.next_id + 1 < 2 ^ 64 → IsOrderly p → IsOrderly (register p)
  unfolding register
  register-IsOrderly p h k r =
      let n : (p.next_id + 1) % 2 ^ 64 ≡ p.next_id + 1 = omega arith in
      rw n (ground (arith, count-put r p.next_id p.by_request, k r))

  -- No request waits or is answered more often than before, and none has begun.
  abbrev pub IsLess : Pending X → Pending X → Type 0
  IsLess p q = (q.next_id ≡ p.next_id) × ((r : ℕ) → total q r ≤ total p r)

  IsLess-IsOrderly : (p q : Pending X) → IsLess p q → IsOrderly p → IsOrderly q
  IsLess-IsOrderly p q h k r = rw h.0 (omega (arith, h.1 r, k r))

  answer-IsLess : (p : Pending X) (q : ℕ) (t : Tried X) → IsLess p (answer p q t)
  unfolding answer ids count
  answer-IsLess p q t =
      (ground arith, λ r. ground (arith, count-without r q p.by_request, has-count p.by_request q))

  complete-IsLess :
      (p : Pending X) (s : ℕ) (t : Tried X) → IsLess p (complete_pending_h3_stream p s t)
  unfolding complete_pending_h3_stream
  complete-IsLess p s t = by_stream (request_of p.by_stream s)
    where
      by_stream :
          (o : Option ℕ)
          → IsLess p (elim o as (λ _. Pending X) [
            | none ↦ p
            | some q ↦ answer (record p { by_stream = without_stream p.by_stream s }) q t
          ])
      by_stream none = (refl, λ r. omega arith)
      by_stream (some q) = answer-IsLess (record p { by_stream = without_stream p.by_stream s }) q t

  clear-IsLess : (p : Pending X) (q : ℕ) → IsLess p (clear_pending_h3_request p q)
  unfolding clear_pending_h3_request
  clear-IsLess p q = (refl, λ r. ground (arith, count-without r q p.by_request))

  fail_all-IsLess :
      (p : Pending X) (retryable : Bool) → IsLess p (fail_all_pending_h3_requests p retryable)
  unfolding fail_all_pending_h3_requests count
  fail_all-IsLess p retryable = (
    refl,
    λ r.
        rw
          (
            ids-append (to_all p.by_request (failed_with retryable)) p.answers,
            ids-to_all p.by_request (failed_with retryable),
          )
          (omega (arith, count-append r p.by_request (ids p.answers))),
  )

  on_event-IsLess : (p : Pending X) (e : PendingEvent X) → IsLess p (on_event p e)
  unfolding on_event
  on_event-IsLess p registered = (refl, λ r. omega arith)
  on_event-IsLess p registered_elsewhere = (refl, λ r. omega arith)
  on_event-IsLess p (dropped q) = (refl, λ r. omega arith)
  on_event-IsLess p (new_outbound_request s q) = elim (Bool-cases (has p.by_request q)) [
    | inl h ↦ rw (h, on_event) (refl, λ r. omega arith)
    | inr h ↦ rw (h, on_event) (refl, λ r. omega arith)
  ]
  on_event-IsLess p (incoming_headers s status) = elim (Bool-cases (status == 200)) [
    | inl h ↦ rw (h, on_event) (refl, λ r. omega arith)
    | inr h ↦ rw (h, on_event) (complete-IsLess p s (failed_with false))
  ]
  on_event-IsLess p (body_read s frames) = complete-IsLess p s (read_h3_response_body frames [])
  on_event-IsLess p (connection_ended retryable) = fail_all-IsLess p retryable
  on_event-IsLess p (stream_ended s) = complete-IsLess p s (failed_with true)

  -- An event of the connection, which the loop sees only while it goes on.
  while_running :
      (p : Pending X) (b : Bool) (e : PendingEvent X) → IsLess p (if b then on_event p e else p)
  while_running p true e = on_event-IsLess p e
  while_running p false e = (refl, λ r. omega arith)

  -- One number more may be taken.
  abbrev pub IsNextStep : Pending X → Pending X → Type 0
  IsNextStep p q = IsOrderly q × (q.next_id ≤ p.next_id + 1)

  less_step : (p q : Pending X) → IsLess p q → IsOrderly p → IsNextStep p q
  less_step p q h k = (IsLess-IsOrderly p q h k, omega (arith, h.0))

  after_event-IsOrderly :
      (p : Pending X) (e : PendingEvent X)
      → p.next_id + 1 < 2 ^ 64
      → IsOrderly p
      → IsNextStep p (after_event p e)
  unfolding after_event register
  after_event-IsOrderly p registered h k = (register-IsOrderly p h k, omega arith)
  after_event-IsOrderly p registered_elsewhere h k =
      let n : (p.next_id + 1) % 2 ^ 64 ≡ p.next_id + 1 = omega arith in
      (λ r. rw n (ground (arith, k r)), omega (arith, n))
  after_event-IsOrderly p (dropped q) h k =
      less_step p (clear_pending_h3_request p q) (clear-IsLess p q) k
  after_event-IsOrderly p (new_outbound_request s q) h k =
      less_step p (if p.running then on_event p (new_outbound_request s q) else p)
        (while_running p p.running (new_outbound_request s q)) k
  after_event-IsOrderly p (incoming_headers s n) h k =
      less_step p (if p.running then on_event p (incoming_headers s n) else p)
        (while_running p p.running (incoming_headers s n)) k
  after_event-IsOrderly p (body_read s b) h k =
      less_step p (if p.running then on_event p (body_read s b) else p)
        (while_running p p.running (body_read s b)) k
  after_event-IsOrderly p (connection_ended b) h k =
      less_step p (if p.running then on_event p (connection_ended b) else p)
        (while_running p p.running (connection_ended b)) k
  after_event-IsOrderly p (stream_ended s) h k =
      less_step p (if p.running then on_event p (stream_ended s) else p)
        (while_running p p.running (stream_ended s)) k

  after_events-IsOrderly :
      (p : Pending X) (es : List (PendingEvent X))
      → p.next_id + length es < 2 ^ 64
      → IsOrderly p
      → IsOrderly (after_events p es)
  unfolding after_events
  after_events-IsOrderly p [] h k = k
  after_events-IsOrderly p (e ∷ es) h k =
      let s = after_event-IsOrderly p e (omega (arith, h)) k in
      after_events-IsOrderly (after_event p e) es (omega (arith, h, s.1)) s.0

  -- The pending requests of a new connection.
  abbrev pub no_pending : ℕ → Pending X
  no_pending next_id = record {
    next_id = next_id;
    by_request = [];
    by_stream = [];
    answers = [];
    running = true;
  }

  -- In whatever order the events of a connection come, a request gets at most one result, as long as
  -- the counter of the requests does not wrap around.
  pub answers_once :
      (next_id : ℕ) (es : List (PendingEvent X)) (r : ℕ)
      → next_id + length es < 2 ^ 64
      → count r (ids (after_events (no_pending next_id) es).answers) ≤ 1
  unfolding ids count
  answers_once next_id es r h =
      let k = after_events-IsOrderly (no_pending next_id) es h (λ r. ground arith) r in
      ground (arith, k)
