-- ===== src/Doh/Pool/Bounds.antt =====
-- The bounds of a pool, and the slots that it finds.
use doh_server.Prelude.{
  ℕ, zero, suc, ◌+◌, ◌%◌, ◌≤◌, ◌<◌, ◌≡◌, refl, inl, inr, List, [], ◌∷◌, Option, none, some, All,
  All-append, All-set, All-get_or, length, length-append, length-set, set, get_or, Bool-cases, ltb,
  ◌==◌, arith,
}
use doh_server.Doh.Pool.{
  Client, H3Pool, no_client, try_acquire, try_from, picked, advance, turn, pick_client,
  try_pick_client_with_slot, add_or_pick, drain_clients, PoolCall, picks, picks_with_slot, drains,
  adds, gives_back, give_back, after_call, after_calls, IsWithin, IsBounded, AddsWithin,
}

-- A list of clients of the pool's size, with permits in range, whatever was picked.
abbrev pub PickIsBounded : Option (List Client × ℕ) → Type 0
PickIsBounded none = Unit
PickIsBounded (some (clients, idx)) = (length clients ≤ 2) × All IsWithin clients

try_acquire-IsWithin : (client taken : Client) → try_acquire client ≡ some taken → IsWithin taken
unfolding try_acquire
try_acquire-IsWithin client taken h = ground arith

try_from-IsBounded :
    (left : ℕ) (clients : List Client) (start offset : ℕ)
    → length clients ≤ 2
    → All IsWithin clients
    → PickIsBounded (try_from left clients start offset)
unfolding try_from
try_from-IsBounded zero clients start offset h k = tt
try_from-IsBounded (suc left) clients start offset h k =
    by_slot (try_acquire (get_or clients ((start + offset) % length clients) no_client)) refl
      (try_from-IsBounded left clients start (offset + 1) h k)
  where
    idx : ℕ
    idx = (start + offset) % length clients

    by_slot :
        (o : Option Client)
        → try_acquire (get_or clients idx no_client) ≡ o
        → PickIsBounded (try_from left clients start (offset + 1))
        → PickIsBounded (elim o as (λ _. Option (List Client × ℕ)) [
          | some client ↦ some (set clients idx client, idx)
          | none ↦ try_from left clients start (offset + 1)
        ])
    by_slot none e ih = ih
    by_slot (some c) e ih = (
      omega (arith, length-set clients idx c, h),
      All-set IsWithin clients idx c k (try_acquire-IsWithin (get_or clients idx no_client) c e),
    )

picked-IsBounded :
    (pool : H3Pool) (o : Option (List Client × ℕ))
    → IsBounded pool
    → PickIsBounded o
    → IsBounded (picked pool o).0
picked-IsBounded pool none h k = h
picked-IsBounded pool (some (clients, idx)) h k = k

after_call-IsBounded :
    (pool : H3Pool) (c : PoolCall) → IsBounded pool → AddsWithin c → IsBounded (after_call pool c)
unfolding after_call pick_client try_pick_client_with_slot add_or_pick drain_clients
after_call-IsBounded pool picks h k = elim (Bool-cases (length pool.clients == 0)) [
  | inl e ↦ rw (e, after_call, pick_client) h
  | inr e ↦ rw (e, after_call, pick_client) h
]
after_call-IsBounded pool picks_with_slot h k = elim (Bool-cases (length pool.clients == 0)) [
  | inl e ↦ rw (e, after_call, try_pick_client_with_slot) h
  | inr e ↦
      rw (e, after_call, try_pick_client_with_slot)
        (picked-IsBounded (advance pool) (try_from (length pool.clients) pool.clients (turn pool) 0)
          h (try_from-IsBounded (length pool.clients) pool.clients (turn pool) 0 h.0 h.1))
]
after_call-IsBounded pool drains h k = (omega arith, tt)
after_call-IsBounded pool (adds client) h k = elim (Bool-cases (ltb (length pool.clients) 2)) [
  | inl e ↦
      let room : length pool.clients < 2 = ground arith in
      rw (e, after_call, add_or_pick)
        (
          omega (arith, length-append pool.clients (client ∷ []), room),
          All-append IsWithin pool.clients (client ∷ []) h.1 (k, tt),
        )
  | inr e ↦ rw (e, after_call, add_or_pick) h
]
after_call-IsBounded pool (gives_back i) h k =
    let c = get_or pool.clients i no_client in
    (
      omega (arith, length-set pool.clients i (give_back c), h.0),
      All-set IsWithin pool.clients i (give_back c) h.1
          (omega (arith, All-get_or IsWithin pool.clients i no_client h.1 (omega arith))),
    )

-- Whatever is done to a pool, it has at most two connections with at most 64 requests each, where it
-- had so at first and the connections that are added have.
pub after_calls-IsBounded :
    (pool : H3Pool) (cs : List PoolCall)
    → IsBounded pool
    → All AddsWithin cs
    → IsBounded (after_calls pool cs)
unfolding after_calls
after_calls-IsBounded pool [] h k = h
after_calls-IsBounded pool (c ∷ cs) h k =
    after_calls-IsBounded (after_call pool c) cs (after_call-IsBounded pool c h k.0) k.1

-- No permit is left.
abbrev pub IsFull : Client → Type 0
IsFull client = 64 ≤ client.inflight

-- A client with one of its permits, or none where every client is full.
abbrev pub FindsSlot : H3Pool → Option Client → Type 0
FindsSlot pool none = All IsFull pool.clients
FindsSlot pool (some client) = (0 < client.inflight) × IsWithin client

-- What the loop finds at a start that is the index of a client.
abbrev pub Finds : List Client → Option (List Client × ℕ) → Type 0
Finds clients o =
    FindsSlot (record { clients = clients; next = 0 })
      (picked (record { clients = clients; next = 0 }) o).1

at_any_turn :
    (clients : List Client) (next : ℕ) (o : Option (List Client × ℕ))
    → Finds clients o
    → FindsSlot
        (record { clients = clients; next = next })
        (picked (advance (record { clients = clients; next = next })) o).1
at_any_turn clients next none h = h
at_any_turn clients next (some (cs, i)) h = h

try_from-one : (a : Client) → Finds (a ∷ []) (try_from 1 (a ∷ []) 0 0)
unfolding try_from try_acquire
try_from-one a = ground arith

try_from-two :
    (a b : Client) (start : ℕ) → start < 2 → Finds (a ∷ b ∷ []) (try_from 2 (a ∷ b ∷ []) start 0)
unfolding try_from try_acquire
try_from-two a b zero h = ground arith
try_from-two a b (suc zero) h = ground arith
try_from-two a b (suc (suc n)) h = absurd (omega arith)

-- A pool of at most two connections gives a client with a permit where one has a permit left.
pub try_pick_client_with_slot_lem :
    (clients : List Client) (next : ℕ)
    → length clients ≤ 2
    → FindsSlot
        (record { clients = clients; next = next })
        (try_pick_client_with_slot (record { clients = clients; next = next })).1
unfolding try_pick_client_with_slot
try_pick_client_with_slot_lem [] next h = tt
try_pick_client_with_slot_lem (a ∷ []) next h =
    let z : next % 1 ≡ 0 = omega arith in
    at_any_turn (a ∷ []) next (try_from 1 (a ∷ []) (next % 1) 0) (rw z (try_from-one a))
try_pick_client_with_slot_lem (a ∷ b ∷ []) next h =
    at_any_turn (a ∷ b ∷ []) next (try_from 2 (a ∷ b ∷ []) (next % 2) 0)
      (try_from-two a b (next % 2) (omega arith))
try_pick_client_with_slot_lem (a ∷ b ∷ c ∷ cs) next h = absurd (omega arith)
