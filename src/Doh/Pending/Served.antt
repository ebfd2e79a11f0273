-- ===== src/Doh/Pending/Served.antt =====
-- A request that waits gets a result, at the latest with the end of its connection.
use doh_server.Prelude.{
  ℕ, ◌≤◌, ◌≡◌, refl, ◌⊎◌, inl, inr, Bool, true, false, List, [], ◌∷◌, Option, none, some,
  Bool-cases, All, ◌==◌, if◌then◌else◌, arith,
}
use doh_server.Doh.{Tried}
use doh_server.Doh.Pending.{
  Pending, has, request_of, without_stream, register, clear_pending_h3_request, answer,
  complete_pending_h3_stream, failed_with, to_all, fail_all_pending_h3_requests,
  read_h3_response_body, PendingEvent, registered, registered_elsewhere, dropped,
  new_outbound_request, incoming_headers, body_read, connection_ended, stream_ended, on_event,
  after_event, after_events,
}
use doh_server.Doh.Pending.Once.{
  count, ids, count-append, count-without, count-has, put-count, ids-append, ids-to_all,
}

module _ {X : Type 0} where
  -- A request that waits and whose connection goes on, or one that was answered.
  abbrev pub IsServed : ℕ → Pending X → Type 0
  IsServed r p = ((p.running ≡ true) × (1 ≤ count r p.by_request)) ⊎ (1 ≤ count r (ids p.answers))

  -- The event does not drop the request.
  abbrev pub Spares : ℕ → PendingEvent X → Type 0
  Spares r (dropped q) = (q == r) ≡ false
  Spares r _ = Unit

  answer-IsServed :
      (p : Pending X) (q : ℕ) (t : Tried X) (r : ℕ) → IsServed r p → IsServed r (answer p q t)
  unfolding answer ids count
  answer-IsServed p q t r h =
      ground (arith, count-without r q p.by_request, count-has p.by_request r)

  complete-IsServed :
      (p : Pending X) (s : ℕ) (t : Tried X) (r : ℕ)
      → IsServed r p
      → IsServed r (complete_pending_h3_stream p s t)
  unfolding complete_pending_h3_stream
  complete-IsServed p s t r h = by_stream (request_of p.by_stream s)
    where
      by_stream :
          (o : Option ℕ)
          → IsServed r (elim o as (λ _. Pending X) [
            | none ↦ p
            | some q ↦ answer (record p { by_stream = without_stream p.by_stream s }) q t
          ])
      by_stream none = h
      by_stream (some q) =
          answer-IsServed (record p { by_stream = without_stream p.by_stream s }) q t r h

  fail_all-answers :
      (p : Pending X) (b : Bool) (r : ℕ)
      → IsServed r p
      → 1 ≤ count r (ids (fail_all_pending_h3_requests p b).answers)
  unfolding fail_all_pending_h3_requests
  fail_all-answers p b r h =
      rw
        (
          ids-append (to_all p.by_request (failed_with b)) p.answers,
          ids-to_all p.by_request (failed_with b),
        )
        (ground (arith, count-append r p.by_request (ids p.answers)))

  on_event-IsServed :
      (p : Pending X) (e : PendingEvent X) (r : ℕ) → IsServed r p → IsServed r (on_event p e)
  unfolding on_event
  on_event-IsServed p registered r h = h
  on_event-IsServed p registered_elsewhere r h = h
  on_event-IsServed p (dropped q) r h = h
  on_event-IsServed p (new_outbound_request s q) r h = elim (Bool-cases (has p.by_request q)) [
    | inl g ↦ rw (g, on_event) h
    | inr g ↦ rw (g, on_event) h
  ]
  on_event-IsServed p (incoming_headers s status) r h = elim (Bool-cases (status == 200)) [
    | inl g ↦ rw (g, on_event) h
    | inr g ↦ rw (g, on_event) (complete-IsServed p s (failed_with false) r h)
  ]
  on_event-IsServed p (body_read s frames) r h =
      complete-IsServed p s (read_h3_response_body frames []) r h
  on_event-IsServed p (connection_ended b) r h = inr (fail_all-answers p b r h)
  on_event-IsServed p (stream_ended s) r h = complete-IsServed p s (failed_with true) r h

  running-IsServed :
      (p : Pending X) (b : Bool) (e : PendingEvent X) (r : ℕ)
      → IsServed r p
      → IsServed r (if b then on_event p e else p)
  running-IsServed p true e r h = on_event-IsServed p e r h
  running-IsServed p false e r h = h

  after_event-IsServed :
      (p : Pending X) (e : PendingEvent X) (r : ℕ)
      → Spares r e
      → IsServed r p
      → IsServed r (after_event p e)
  unfolding after_event register clear_pending_h3_request
  after_event-IsServed p registered r s h = ground (arith, put-count r p.next_id p.by_request)
  after_event-IsServed p registered_elsewhere r s h = h
  after_event-IsServed p (dropped q) r s h = ground (arith, count-without r q p.by_request)
  after_event-IsServed p (new_outbound_request a q) r s h =
      running-IsServed p p.running (new_outbound_request a q) r h
  after_event-IsServed p (incoming_headers a n) r s h =
      running-IsServed p p.running (incoming_headers a n) r h
  after_event-IsServed p (body_read a b) r s h = running-IsServed p p.running (body_read a b) r h
  after_event-IsServed p (connection_ended b) r s h =
      running-IsServed p p.running (connection_ended b) r h
  after_event-IsServed p (stream_ended a) r s h = running-IsServed p p.running (stream_ended a) r h

  -- A request that waits while its connection goes on, and that is not dropped, has a result once the
  -- connection has ended, whatever events come before.
  pub answered_at_end :
      (p : Pending X) (es : List (PendingEvent X)) (b : Bool) (r : ℕ)
      → IsServed r p
      → All (Spares r) es
      → 1 ≤ count r (ids (after_event (after_events p es) (connection_ended b)).answers)
  unfolding after_events after_event on_event
  answered_at_end p [] b r h k = ended p.running refl
    where
      ended :
          (c : Bool)
          → p.running ≡ c
          → 1 ≤ count r (ids (if c then on_event p (connection_ended b) else p).answers)
      ended true e = fail_all-answers p b r h
      ended false e = elim h [ inl g ↦ absurd cc | inr g ↦ g ]
  answered_at_end p (e ∷ es) b r h k =
      answered_at_end (after_event p e) es b r (after_event-IsServed p e r k.0 h) k.1
