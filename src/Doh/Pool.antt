-- ===== src/Doh/Pool.antt =====
-- `DohH3Pool` of src/libdoh/src/lib.rs: the connections of HTTP/3 to an upstream, and the slots for
-- the requests on each.
pub mod Bounds
use doh_server.Prelude.{
  ℕ, zero, suc, ◌+◌, ◌-◌, ◌%◌, ◌^◌, ◌≤◌, ◌<◌, ◌≡◌, refl, ◌⊎◌, inl, inr, Bool, true, false, List, [],
  ◌∷◌, ◌++◌, Option, none, some, All, All-append, length, length-append, set, get_or, Bool-cases,
  ltb, ◌==◌, if◌then◌else◌, arith,
}

abbrev pub doh_h3_pool_size : ℕ
doh_h3_pool_size = 2

abbrev pub doh_h3_max_inflight_per_conn : ℕ
doh_h3_max_inflight_per_conn = 64

-- A connection, by a number, and the permits of its semaphore that are taken.
pub record Client : Type 0 where
  pub id : ℕ
  pub inflight : ℕ

abbrev pub no_client : Client
no_client = record { id = 0; inflight = 64 }

pub record H3Pool : Type 0 where
  pub clients : List Client
  pub next : ℕ

abbrev pub new_pool : H3Pool
new_pool = record { clients = []; next = 0 }

unfoldable pub has_clients : H3Pool → Bool
has_clients pool = if length pool.clients == 0 then false else true

unfoldable pub needs_new_client : H3Pool → Bool
needs_new_client pool = ltb (length pool.clients) doh_h3_pool_size

-- `next.fetch_add(1)`, which wraps around.
abbrev pub advance : H3Pool → H3Pool
advance pool = record pool { next = (pool.next + 1) % 2 ^ 64 }

-- The index of the next client in turn.
abbrev pub turn : H3Pool → ℕ
turn pool = pool.next % length pool.clients

unfoldable pub pick_client : H3Pool → H3Pool × Option Client
pick_client pool =
    if length pool.clients == 0
    then (pool, none)
    else (advance pool, some (get_or pool.clients (turn pool) no_client))

-- `try_acquire_slot`
unfoldable pub try_acquire : Client → Option Client
try_acquire client =
    if ltb client.inflight doh_h3_max_inflight_per_conn
    then some (record client { inflight = client.inflight + 1 })
    else none

-- The loop of `try_pick_client_with_slot` from an offset on, with the rounds that are left: the
-- clients with the permit taken, and the index of the client.
unfoldable pub try_from : ℕ → List Client → ℕ → ℕ → Option (List Client × ℕ)
try_from zero clients start offset = none
try_from (suc left) clients start offset =
    let idx = (start + offset) % length clients in
    let rest = try_from left clients start (offset + 1) in
    elim (try_acquire (get_or clients idx no_client)) [
      | some client ↦ some (set clients idx client, idx)
      | none ↦ rest
    ]

-- The result of the loop, as the pool and the client.
abbrev pub picked : H3Pool → Option (List Client × ℕ) → H3Pool × Option Client
picked pool none = (pool, none)
picked pool (some (clients, idx)) =
    (record pool { clients = clients }, some (get_or clients idx no_client))

unfoldable pub try_pick_client_with_slot : H3Pool → H3Pool × Option Client
try_pick_client_with_slot pool =
    if length pool.clients == 0
    then (pool, none)
    else picked (advance pool) (try_from (length pool.clients) pool.clients (turn pool) 0)

unfoldable pub add_or_pick : H3Pool → Client → H3Pool × (Client × Bool)
add_or_pick pool candidate =
    if ltb (length pool.clients) doh_h3_pool_size
    then (record pool { clients = pool.clients ++ candidate ∷ [] }, (candidate, true))
    else (advance pool, (get_or pool.clients (turn pool) no_client, false))

unfoldable pub drain_clients : H3Pool → H3Pool × List Client
drain_clients pool = (record pool { clients = [] }, pool.clients)

-- What is done to a pool. A permit is given back for a client by its index, where it has one.
pub data PoolCall : Type 0 where
  picks picks_with_slot drains : PoolCall
  adds : Client → PoolCall
  gives_back : ℕ → PoolCall

abbrev pub give_back : Client → Client
give_back client = record client { inflight = client.inflight - 1 }

unfoldable pub after_call : H3Pool → PoolCall → H3Pool
after_call pool picks = (pick_client pool).0
after_call pool picks_with_slot = (try_pick_client_with_slot pool).0
after_call pool drains = (drain_clients pool).0
after_call pool (adds client) = (add_or_pick pool client).0
after_call pool (gives_back i) = record pool {
  clients = set pool.clients i (give_back (get_or pool.clients i no_client));
}

unfoldable pub after_calls : H3Pool → List PoolCall → H3Pool
after_calls pool [] = pool
after_calls pool (c ∷ cs) = after_calls (after_call pool c) cs

-- At most 64 requests are on the connection.
abbrev pub IsWithin : Client → Type 0
IsWithin client = client.inflight ≤ 64

-- At most two connections, each with at most 64 requests.
abbrev pub IsBounded : H3Pool → Type 0
IsBounded pool = (length pool.clients ≤ 2) × All IsWithin pool.clients

-- The client that is added is within its permits.
abbrev pub AddsWithin : PoolCall → Type 0
AddsWithin (adds client) = IsWithin client
AddsWithin _ = Unit
