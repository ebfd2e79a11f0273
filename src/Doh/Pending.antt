-- ===== src/Doh/Pending.antt =====
-- The requests of a connection of HTTP/3 that wait for their results, in src/libdoh/src/lib.rs:
-- `DohH3Pending`, what `DohH3Client::request` does with it, and the events of the connection.
pub mod Once
pub mod Served
use doh_server.Prelude.{
  ℕ, ◌+◌, ◌%◌, ◌^◌, Bool, true, false, not, List, [], ◌∷◌, ◌++◌, Option, none, some, ◌==◌,
  if◌then◌else◌,
}
use doh_server.Bytes.{Bytes}
use doh_server.Doh.{Failure, Tried, packet, failure}
use doh_server.Errors.{DohError, upstream_issue}
use doh_server.Http.Http3.{InboundFrame, body_part, other_frame}

-- The senders of `by_request` are told apart by their requests. `next_id` is the counter that all
-- connections share, `answers` has the results that were sent, and `running` says whether the loop
-- over the events goes on.
pub record Pending (X : Type 0) : Type 0 where
  pub next_id : ℕ
  pub by_request : List ℕ
  pub by_stream : List (ℕ × ℕ)
  pub answers : List (ℕ × Tried X)
  pub running : Bool

-- `contains_key`
unfoldable pub has : List ℕ → ℕ → Bool
has [] r = false
has (q ∷ qs) r = let rest = has qs r in if q == r then true else rest

-- `insert` of a sender, which replaces that of the same request.
unfoldable pub put : List ℕ → ℕ → List ℕ
put qs r = if has qs r then qs else qs ++ r ∷ []

-- `remove` of a request
unfoldable pub without : List ℕ → ℕ → List ℕ
without [] r = []
without (q ∷ qs) r = let rest = without qs r in if q == r then rest else q ∷ rest

-- `get` and `remove` of a stream
unfoldable pub request_of : List (ℕ × ℕ) → ℕ → Option ℕ
request_of [] s = none
request_of ((t, r) ∷ m) s = let rest = request_of m s in if t == s then some r else rest

unfoldable pub without_stream : List (ℕ × ℕ) → ℕ → List (ℕ × ℕ)
without_stream [] s = []
without_stream ((t, r) ∷ m) s =
    let rest = without_stream m s in if t == s then rest else (t, r) ∷ rest

-- `retain(|_, rid| *rid != request_id)`
unfoldable pub without_request : List (ℕ × ℕ) → ℕ → List (ℕ × ℕ)
without_request [] r = []
without_request ((t, q) ∷ m) r =
    let rest = without_request m r in if q == r then rest else (t, q) ∷ rest

module _ {X : Type 0} where
  -- The start of `request`: a new number, and its sender.
  unfoldable pub register : Pending X → Pending X
  register p = record p {
    next_id = (p.next_id + 1) % 2 ^ 64;
    by_request = put p.by_request p.next_id;
  }

  -- `clear_pending_h3_request`
  unfoldable pub clear_pending_h3_request : Pending X → ℕ → Pending X
  clear_pending_h3_request p request_id = record p {
    by_request = without p.by_request request_id;
    by_stream = without_request p.by_stream request_id;
  }

  -- The result of a request, which is sent where the request still waits.
  unfoldable pub answer : Pending X → ℕ → Tried X → Pending X
  answer p request_id result =
      if has p.by_request request_id
      then record p {
        by_request = without p.by_request request_id;
        answers = (request_id, result) ∷ p.answers;
      }
      else p

  unfoldable pub complete_pending_h3_stream : Pending X → ℕ → Tried X → Pending X
  complete_pending_h3_stream p stream_id result = elim (request_of p.by_stream stream_id) [
    | none ↦ p
    | some request_id ↦
        answer (record p { by_stream = without_stream p.by_stream stream_id }) request_id result
  ]

  abbrev pub failed_with : Bool → Tried X
  failed_with retryable = failure (record { error = upstream_issue; retryable = retryable })

  -- The same result for each.
  unfoldable pub to_all : List ℕ → Tried X → List (ℕ × Tried X)
  to_all [] result = []
  to_all (r ∷ rs) result = (r, result) ∷ to_all rs result

  unfoldable pub fail_all_pending_h3_requests : Pending X → Bool → Pending X
  fail_all_pending_h3_requests p retryable = record p {
    by_request = [];
    by_stream = [];
    answers = to_all p.by_request (failed_with retryable) ++ p.answers;
  }

  -- `read_h3_response_body`, behind what was received.
  unfoldable pub read_h3_response_body : List InboundFrame → Bytes → Tried X
  read_h3_response_body [] response_body = failed_with true
  read_h3_response_body (other_frame ∷ frames) response_body =
      read_h3_response_body frames response_body
  read_h3_response_body (body_part part fin ∷ frames) response_body =
      let rest = read_h3_response_body frames (response_body ++ part) in
      if fin then packet (response_body ++ part) else rest

-- What happens to the pending requests: requests begin and are dropped, also those of other
-- connections, and the connection has its events. A status comes with the headers of a response,
-- and a body at its end.
pub data PendingEvent (X : Type 0) : Type 0 where
  registered registered_elsewhere : PendingEvent X
  dropped : ℕ → PendingEvent X
  new_outbound_request : ℕ → ℕ → PendingEvent X
  incoming_headers : ℕ → ℕ → PendingEvent X
  body_read : ℕ → List InboundFrame → PendingEvent X
  connection_ended : Bool → PendingEvent X
  stream_ended : ℕ → PendingEvent X

module _ {X : Type 0} where
  -- The loop of `start_event_loop` on an event of the connection.
  unfoldable pub on_event : Pending X → PendingEvent X → Pending X
  on_event p (new_outbound_request stream_id request_id) =
      if has p.by_request request_id
      then record p { by_stream = (stream_id, request_id) ∷ without_stream p.by_stream stream_id }
      else p
  on_event p (incoming_headers stream_id status) =
      if status == 200 then p else complete_pending_h3_stream p stream_id (failed_with false)
  on_event p (body_read stream_id frames) =
      complete_pending_h3_stream p stream_id (read_h3_response_body frames [])
  on_event p (connection_ended retryable) = record (fail_all_pending_h3_requests p retryable) {
    running = false;
  }
  on_event p (stream_ended stream_id) = complete_pending_h3_stream p stream_id (failed_with true)
  on_event p _ = p

  unfoldable pub after_event : Pending X → PendingEvent X → Pending X
  after_event p registered = register p
  after_event p registered_elsewhere = record p { next_id = (p.next_id + 1) % 2 ^ 64 }
  after_event p (dropped request_id) = clear_pending_h3_request p request_id
  after_event p e = if p.running then on_event p e else p

  unfoldable pub after_events : Pending X → List (PendingEvent X) → Pending X
  after_events p [] = p
  after_events p (e ∷ es) = after_events (after_event p e) es
