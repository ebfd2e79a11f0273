-- ===== src/Clients.antt =====
-- `ClientsCount` of src/libdoh/src/globals.rs, and what `client_serve` of src/libdoh/src/lib.rs and
-- `start_https_service` of src/libdoh/src/tls.rs do with it: the connections that a server has at a
-- time. The counter is an atomic; each of its calls is one step. `start_http3` of lib.rs, which does
-- not touch the counter, takes its connections beside them.
use doh_server.Prelude.{
  ℕ, ◌+◌, ◌-◌, ◌%◌, ◌^◌, ◌≤◌, ◌<◌, ◌≡◌, List, [], ◌∷◌, length, leb, ◌==◌, if◌then◌else◌, arith,
}

-- `fetch_add(1)`, with the count before.
unfoldable pub increment : ℕ → ℕ × ℕ
increment count = ((count + 1) % 2 ^ 64, count)

-- The loop ends with the count that the exchange succeeded for, or with 0.
unfoldable pub decrement : ℕ → ℕ × ℕ
decrement count = if count == 0 then (0, 0) else (count - 1, count)

-- The counter, the connections over TCP that are served, those that were counted but will be refused,
-- and the connections of HTTP/3, which the code does not count.
pub record Server : Type 0 where
  pub count : ℕ
  pub served : ℕ
  pub refusing : ℕ
  pub served_over_h3 : ℕ

-- A connection arrives and is counted; one that is refused, or whose service is over, is counted
-- off. Between the two, other tasks may do the same. A connection of HTTP/3 is neither counted nor
-- refused.
pub data ClientEvent : Type 0 where
  arrives withdraws finishes : ClientEvent
  arrives_over_h3 finishes_over_h3 : ClientEvent

unfoldable pub after_client : ℕ → Server → ClientEvent → Server
after_client max_clients s arrives =
    let (count, before) = increment s.count in
    if leb max_clients before
    then record s { count = count; refusing = s.refusing + 1 }
    else record s { count = count; served = s.served + 1 }
after_client max_clients s withdraws =
    if s.refusing == 0
    then s
    else record s { count = (decrement s.count).0; refusing = s.refusing - 1 }
after_client max_clients s finishes =
    if s.served == 0 then s else record s { count = (decrement s.count).0; served = s.served - 1 }
after_client max_clients s arrives_over_h3 = record s { served_over_h3 = s.served_over_h3 + 1 }
after_client max_clients s finishes_over_h3 = record s { served_over_h3 = s.served_over_h3 - 1 }

unfoldable pub after_clients : ℕ → Server → List ClientEvent → Server
after_clients max_clients s [] = s
after_clients max_clients s (e ∷ es) = after_clients max_clients (after_client max_clients s e) es

abbrev pub idle : Server
idle = record { count = 0; served = 0; refusing = 0; served_over_h3 = 0 }

-- The counter has the connections over TCP that are served and those that will be refused, and no
-- more of them are served than allowed.
abbrev pub IsCounted : ℕ → Server → Type 0
IsCounted max_clients s = (s.count ≡ s.served + s.refusing) × (s.served ≤ max_clients)

after_client-IsCounted :
    (max_clients : ℕ) (s : Server) (e : ClientEvent)
    → s.count + 1 < 2 ^ 64
    → IsCounted max_clients s
    → IsCounted max_clients (after_client max_clients s e)
      × ((after_client max_clients s e).count ≤ s.count + 1)
unfolding after_client increment decrement
after_client-IsCounted max_clients s arrives h k =
    let n : (s.count + 1) % 2 ^ 64 ≡ s.count + 1 = omega arith in ground (arith, n)
after_client-IsCounted max_clients s withdraws h k = ground arith
after_client-IsCounted max_clients s finishes h k = ground arith
after_client-IsCounted max_clients s arrives_over_h3 h k = ground arith
after_client-IsCounted max_clients s finishes_over_h3 h k = ground arith

-- In whatever order the tasks of fewer than 2 ^ 64 events run, the server has at most as many
-- connections over TCP as allowed at a time, and the counter has those and the ones that will be
-- refused, where it was so at first. This says nothing of the connections of HTTP/3, which come and
-- go in between and are not in the counter.
pub after_clients-IsCounted :
    (max_clients : ℕ) (s : Server) (es : List ClientEvent)
    → s.count + length es < 2 ^ 64
    → IsCounted max_clients s
    → IsCounted max_clients (after_clients max_clients s es)
unfolding after_clients
after_clients-IsCounted max_clients s [] h k = k
after_clients-IsCounted max_clients s (e ∷ es) h k =
    let t = after_client-IsCounted max_clients s e (omega (arith, h)) k in
    after_clients-IsCounted max_clients (after_client max_clients s e) es (omega (arith, h, t.1))
      t.0
