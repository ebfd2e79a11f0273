-- ===== src/Tests/Exchanges.antt =====
-- The exchange with two upstreams, of which the second one answers, and the cache of addresses.
use native.Mathlib.Decide.{ℕ_discrete}
use doh_server.Prelude.{
  ℕ, zero, suc, ◌+◌, ◌*◌, ◌-◌, ◌/◌, ◌≤◌, ◌<◌, ◌≡◌, ◌⊎◌, inl, refl, true, List, [], ◌∷◌, length, max,
  All, Ends, leb, ltb, arith,
}
use doh_server.Bytes.{Bytes}
use doh_server.Errors.{DohError, upstream_timeout}
use doh_server.Msg.Answers.{IpAddr, v4, Among}
use doh_server.Upstream.{
  fastest_addr, Upstream, dns, got, failed, Answer, ExchangeOutcome, checked,
  validate_exchange_packet,
}
use doh_server.Upstream.Slots.{NoRepeat}
use doh_server.Upstream.Weights.{Float}
use doh_server.Upstream.Parallel.{exchange_parallel}
use doh_server.Upstream.Parallel.First.{Won, Lost, exchange_parallel-Ends}
use doh_server.Upstream.LoadBalance.{exchange_load_balance}
use doh_server.Upstream.LoadBalance.Trials.{Settled, exchange_load_balance-Ends}
use doh_server.Upstream.Ping.{PingEvent, pinged, Cache, ping_all}
use doh_server.Upstream.Ping.Quickest.{IsQuickest, entries, answer_of, ping_all-IsQuickest}
use doh_server.Upstream.Ping.Choice.{IsOn}
use doh_server.Upstream.FastestAddr.{exchange_fastest_addr}
use doh_server.Upstream.FastestAddr.Chooses as Fastest
use doh_server.Upstream.FastestAddr.Chooses.{exchange_fastest_addr-Ends}
use doh_server.Upstream.Exchange.{Globals, exchange}
use doh_server.Upstream.Origin.{IsFrom}
use doh_server.Upstream.Exchange.Alone.{IsOrder}
use doh_server.Upstream.Exchange.Replies.{exchange_succeeds}
use doh_server.IpCache.{FastIpCacheStatus, FastIpCacheEntry, with_max_size}
use doh_server.IpCache.Detach.{Represents}
use doh_server.IpCache.Runs.{
  Call, get_at, upsert_of, remove_of, results, results_order, results-with_max_size, run,
  run-IsChain,
}
use doh_server.Proxy.{Settings}
use doh_server.Tests.{program}
use doh_server.Tests.Packets.{query, response}

same : Discrete Bytes
same = hlevel (ℕ_discrete)

same_ip : Discrete IpAddr
same_ip = hlevel (ℕ_discrete)

abbrev to_text : DohError (Unit {0}) → Bytes
to_text e = []

abbrev two : List Upstream
two = dns (1 ∷ []) ∷ dns (2 ∷ []) ∷ []

abbrev answer : ℕ → Answer (Unit {0})
answer (suc zero) = record { reply = got response; duration = 7000 }
answer _ = record { reply = failed upstream_timeout; duration = 5000 }

-- Natural numbers in the place of `f64`.
abbrev naturals : Float
naturals = record {
  Number = ℕ;
  nought = 0;
  one = 1;
  add = λ x y. x + y;
  subtract = λ x y. x - y;
  times = λ x y. x * y;
  divide = λ x y. x / y;
  at_most = λ x y. leb x y;
  below = λ x y. ltb x y;
  is_finite = λ x. true;
  of_micros = λ x. x;
}

abbrev random : ℕ → ℕ
random n = 1

abbrev entry : ℕ → FastIpCacheEntry
entry latency_ms = record {
  status = FastIpCacheStatus.success;
  latency_ms = latency_ms;
  expire_at_ms = 1000;
}

abbrev calls : List (Call ℕ_discrete)
calls =
    upsert_of 1 (entry 5)
    ∷ upsert_of 2 (entry 6)
    ∷ get_at 1 10
    ∷ upsert_of 3 (entry 7)
    ∷ get_at 2 10
    ∷ get_at 1 10
    ∷ remove_of 3
    ∷ []

results-with_max_size_example :
    results ℕ_discrete (with_max_size 2) calls ≡ results_order ℕ_discrete (max 2 1) [] calls
results-with_max_size_example = results-with_max_size ℕ_discrete 2 calls

run-IsChain_example :
    (l : List (ℕ × FastIpCacheEntry)) × Represents ℕ_discrete
      (max 2 1)
      (run ℕ_discrete (with_max_size 2) calls)
      l
    × (length (run ℕ_discrete (with_max_size 2) calls).entries ≤ max 2 1)
run-IsChain_example = run-IsChain ℕ_discrete 2 calls

-- The failure of the first upstream arrives before the answer of the second one.
order_in_range : All (λ i. i < length two) (0 ∷ 1 ∷ [])
order_in_range = (omega arith, (omega arith, tt))

order-NoRepeat : NoRepeat (0 ∷ 1 ∷ [])
order-NoRepeat = ((λ e. omega arith, tt), (tt, tt))

second_is_valid : checked (answer 1).reply ≡ got response
unfolding program checked validate_exchange_packet
second_is_valid = refl

exchange_parallel-Ends_example :
    Ends
      (λ _. ⊥)
      (λ o. Won to_text two answer (0 ∷ 1 ∷ []) o ⊎ Lost to_text two answer (0 ∷ 1 ∷ []) [] 0 o)
      (exchange_parallel to_text two answer (0 ∷ 1 ∷ []))
exchange_parallel-Ends_example =
    exchange_parallel-Ends to_text two answer (0 ∷ 1 ∷ []) (omega arith) (omega arith)
      order_in_range order-NoRepeat

exchange_load_balance-Ends_example :
    Ends
      (λ _. ⊥)
      (Settled to_text naturals same two answer random)
      (exchange_load_balance to_text naturals same two answer random [])
exchange_load_balance-Ends_example =
    exchange_load_balance-Ends to_text naturals same two answer random [] (omega arith)

-- A set that keeps the addresses as they come, and a first address that answers.
abbrev hash_set : List IpAddr → List IpAddr
hash_set ips = ips

hash_set-Among : (ips : List IpAddr) (ip : IpAddr) → Among ip (hash_set ips) → Among ip ips
hash_set-Among ips ip a = a

abbrev pings : List IpAddr → List PingEvent
pings [] = []
pings (ip ∷ ips) = pinged (record { ip = ip; latency_ms = 3; success = true }) ∷ []

pings-IsOn : (ips : List IpAddr) → All (IsOn (λ ip. Among ip ips)) (pings ips)
pings-IsOn [] = tt
pings-IsOn (ip ∷ ips) = (inl refl, tt)

abbrev now : IpAddr → ℕ
now ip = 50

abbrev no_cache : Cache same_ip
no_cache = with_max_size 2

abbrev addresses : List IpAddr
addresses = v4 (192 ∷ 0 ∷ 2 ∷ 1 ∷ []) ∷ v4 (192 ∷ 0 ∷ 2 ∷ 2 ∷ []) ∷ []

ping_all-IsQuickest_example :
    IsQuickest
      (entries same_ip now addresses no_cache)
      (answer_of same_ip now (pings addresses) addresses no_cache)
      (ping_all same_ip now (pings addresses) addresses no_cache).1
ping_all-IsQuickest_example =
    ping_all-IsQuickest same_ip now (pings addresses) addresses no_cache (omega arith)

exchange_fastest_addr-Ends_example :
    Ends
      (λ _. ⊥)
      (λ (r : Cache same_ip × ExchangeOutcome (Unit {0})).
        Fastest.Settled to_text two answer (0 ∷ 1 ∷ []) r.1)
      (exchange_fastest_addr to_text two answer hash_set pings same_ip now (0 ∷ 1 ∷ []) no_cache)
exchange_fastest_addr-Ends_example =
    exchange_fastest_addr-Ends to_text two answer hash_set pings same_ip now hash_set-Among
      pings-IsOn (0 ∷ 1 ∷ []) no_cache (omega arith) (omega arith) order_in_range order-NoRepeat

abbrev globals : Globals naturals same_ip
globals = record { rtts = []; cache = no_cache }

IsOrder-two : IsOrder two (0 ∷ 1 ∷ [])
IsOrder-two = record { size = omega arith; in_range = order_in_range; no_repeat = order-NoRepeat }

exchange_succeeds_example :
    Ends
      (λ _. ⊥)
      (λ (r : Globals naturals same_ip × ExchangeOutcome (Unit {0})).
        (q : Bytes) × (r.1.packet ≡ got q) × (12 ≤ length q) × IsFrom two answer q)
      (exchange to_text naturals same same_ip two answer random hash_set pings now fastest_addr
        query
        (0 ∷ 1 ∷ [])
        globals)
exchange_succeeds_example =
    exchange_succeeds to_text two answer hash_set pings same_ip now hash_set-Among pings-IsOn
      naturals same random fastest_addr query (0 ∷ []) 1 [] globals response IsOrder-two
      second_is_valid

abbrev settings : Settings
settings = record {
  enable_ecs = true;
  ecs_prefix_v4 = 24;
  ecs_prefix_v6 = 56;
  least_ttl = 10;
  most_ttl = 604800;
  err_ttl = 2;
  upstream_mode = fastest_addr;
}
