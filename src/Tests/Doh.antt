-- ===== src/Tests/Doh.antt =====
-- An upstream over HTTPS at concrete inputs: a network where HTTP/3 fails and HTTP/2 answers.
use doh_server.Prelude.{
  ℕ, zero, suc, ◌≤◌, ◌≡◌, ◌⊎◌, inl, refl, Bool, true, false, List, [], ◌∷◌, Option, none, some, All,
  ◌==◌, arith,
}
use doh_server.Bytes.{Bytes}
use doh_server.Backoff.{fresh}
use doh_server.Errors.{upstream_issue, upstream_timeout}
use doh_server.Upstream.{got, failed}
use doh_server.Doh.{Cells, Failure, Tried, packet, failure, Once, World, h3_first, proxy_doh}
use doh_server.Doh.Retries.{MayGoOn, proxy_doh-answers}
use doh_server.Doh.Pending.{
  Pending, PendingEvent, registered, registered_elsewhere, dropped, new_outbound_request, body_read,
  incoming_headers, connection_ended, after_event, after_events,
}
use doh_server.Doh.Pending.Once.{count, ids, no_pending, answers_once}
use doh_server.Doh.Pending.Served.{IsServed, Spares, answered_at_end}
use doh_server.Http.Http3.{body_part}

abbrev h3_once : Once (Unit {0})
h3_once n cells = (cells, (5000, failure (record { error = upstream_issue; retryable = true })))

abbrev h2_once : Once (Unit {0})
h2_once n cells = (record cells { h2_client = true }, (5000, packet (1 ∷ [])))

abbrev world : World (Unit {0})
world = record {
  hint_at = 4000;
  select_at = 4000;
  store_at = 4500;
  fail_at = 5000;
  resolved = true;
  race = h3_first true;
  h3_once = h3_once;
  h2_once = h2_once;
}

abbrev cells : Cells
cells = record {
  protocol_hint = 0;
  h3 = fresh;
  h2_last_rebuild_ms = 0;
  h3_last_rebuild_ms = 0;
  h2_client = false;
  h3_pool = true;
}

-- The client of HTTP/2 that was there before has gone, and a new one answers.
abbrev first_time : Bool → Tried (Unit {0})
first_time true = failure (record { error = upstream_issue; retryable = true })
first_time false = packet (1 ∷ [])

abbrev gone_once : Once (Unit {0})
gone_once zero c = (record c { h2_client = true }, (5000, first_time c.h2_client))
gone_once (suc n) c = (c, (5100, packet (1 ∷ [])))

abbrev gone_world : World (Unit {0})
gone_world = record world { h2_once = gone_once }

gone_first : (had : Bool) → MayGoOn 0 had (first_time had)
gone_first true = (refl, refl, omega arith)
gone_first false = tt

gone_further : (n : ℕ) (c : Cells) → MayGoOn n true (gone_once n c).1.1
gone_further zero c = by_client c.h2_client
  where
    by_client : (had : Bool) → MayGoOn 0 true (first_time had)
    by_client true = (refl, refl, omega arith)
    by_client false = tt
gone_further (suc n) c = tt

proxy_doh-answers_example :
    ((p : Bytes) × ((proxy_doh false 10 none gone_world cells).1 ≡ got p))
    ⊎ (((10 == 0) ≡ false)
        × (r : Cells × ℕ) × (◌≡◌ {A = Option (Cells × ℕ)} none (some r))
        × ((proxy_doh false 10 none gone_world cells).1 ≡ failed upstream_timeout))
proxy_doh-answers_example =
    proxy_doh-answers 10 none gone_world cells
      (record { first = λ c. gone_first c.h2_client; further = gone_further })

abbrev refused : Failure (Unit {0})
refused = record { error = upstream_issue; retryable = false }

abbrev events : List (PendingEvent (Unit {0}))
events =
    registered
    ∷ registered_elsewhere
    ∷ registered
    ∷ new_outbound_request 0 5
    ∷ new_outbound_request 4 7
    ∷ incoming_headers 0 200
    ∷ body_read 0 (body_part (1 ∷ []) true ∷ [])
    ∷ incoming_headers 4 404
    ∷ dropped 7
    ∷ []

answers_once_example : count 5 (ids (after_events (no_pending {X = Unit {0}} 5) events).answers) ≤ 1
answers_once_example = answers_once 5 events 5 (omega arith)

abbrev waiting : Pending (Unit {0})
waiting = record { next_id = 6; by_request = 5 ∷ []; by_stream = []; answers = []; running = true }

is_waiting : IsServed 5 waiting
unfolding count
is_waiting = inl (refl, omega arith)

abbrev other_events : List (PendingEvent (Unit {0}))
other_events = registered ∷ new_outbound_request 0 5 ∷ dropped 6 ∷ []

spares : All (Spares {X = Unit {0}} 5) other_events
spares = (tt, (tt, (ground arith, tt)))

answered_at_end_example :
    1
    ≤ count 5
        (ids (after_event (after_events waiting other_events) (connection_ended true)).answers)
answered_at_end_example = answered_at_end waiting other_events true 5 is_waiting spares
