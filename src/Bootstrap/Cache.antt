-- ===== src/Bootstrap/Cache.antt =====
-- The cache of the bootstrap lookup in src/libdoh/src/lib.rs: `load_bootstrap_cache`,
-- `store_bootstrap_cache`, and `resolve_with_bootstrap_resolver`, which uses them. The map behind
-- the mutex is a list of keys with their entries, and the clock is an argument.
use doh_server.Prelude.{
  ℕ, ◌+◌, ◌-◌, ◌*◌, ◌^◌, ◌≡◌, ◌↔◌, refl, Bool, true, List, [], ◌∷◌, ◌++◌, Option, none, some,
  Outcome, ok, ◌>>=◌, leb, if◌then◌else◌, min, arith,
}
use doh_server.Bytes.{Bytes}
use doh_server.Errors.{DohError}
use doh_server.Msg.Answers.{IpAddr}
use doh_server.Bootstrap.{BootstrapDnsResult}
use doh_server.Bootstrap.Query.{trim_dots}
use doh_server.Bootstrap.Resolve.{normalize_bootstrap_host}

pub record BootstrapCacheEntry : Type 0 where
  pub addrs : List IpAddr
  pub expire_at_ms : ℕ

-- `K` has the resolver's address with the host, and `same` compares two of them.
module _ {K : Type 0} (same : K → K → Bool) where
  abbrev pub BootstrapCache : Type 0
  BootstrapCache = List (K × BootstrapCacheEntry)

  unfoldable pub get_entry : BootstrapCache → K → Option BootstrapCacheEntry
  get_entry [] key = none
  get_entry ((k, e) ∷ cache) key = if same key k then some e else get_entry cache key

  unfoldable pub insert_entry : BootstrapCache → K → BootstrapCacheEntry → BootstrapCache
  insert_entry [] key entry = (key, entry) ∷ []
  insert_entry ((k, e) ∷ cache) key entry =
      let rest = insert_entry cache key entry in
      if same key k then (k, entry) ∷ cache else (k, e) ∷ rest

  -- `entry.expire_at_ms >= now`
  abbrev pub live : Option BootstrapCacheEntry → ℕ → Option (List IpAddr)
  live none now = none
  live (some e) now = if leb now e.expire_at_ms then some e.addrs else none

  unfoldable pub load_bootstrap_cache : BootstrapCache → K → ℕ → Option (List IpAddr)
  load_bootstrap_cache cache key now = live (get_entry cache key) now

  -- `now_millis().saturating_add(u64::from(ttl_secs).saturating_mul(1000))`
  abbrev pub expiry : ℕ → ℕ → ℕ
  expiry now ttl_secs = min (now + min (ttl_secs * 1000) (2 ^ 64 - 1)) (2 ^ 64 - 1)

  unfoldable pub store_bootstrap_cache : BootstrapCache → K → List IpAddr → ℕ → ℕ → BootstrapCache
  store_bootstrap_cache cache key addrs ttl_secs now =
      insert_entry cache key (record { addrs = addrs; expire_at_ms = expiry now ttl_secs })

  module _ {X : Type 0} where
    -- The two answers that come from the network, the one for A first.
    abbrev pub joined :
        Outcome (DohError X) BootstrapDnsResult
        → Outcome (DohError X) BootstrapDnsResult
        → Outcome (DohError X) BootstrapDnsResult
    joined a_result aaaa_result = do
      a ← a_result
      aaaa ← aaaa_result
      ok (record {
        addrs = a.addrs ++ aaaa.addrs;
        min_ttl_secs = min a.min_ttl_secs aaaa.min_ttl_secs;
      })

    abbrev pub keep_answer :
        BootstrapCache
        → K
        → ℕ
        → Outcome (DohError X) BootstrapDnsResult
        → Outcome (DohError X) (BootstrapCache × List IpAddr)
    keep_answer cache key now answer = do
      r ← answer
      ok (store_bootstrap_cache cache key r.addrs r.min_ttl_secs now, r.addrs)

    -- The lookup of a host that was normalised. The cache is read at `now` and written when both
    -- answers are there: at `done`.
    unfoldable pub resolve_normalized :
        BootstrapCache
        → K
        → ℕ
        → ℕ
        → Outcome (DohError X) BootstrapDnsResult
        → Outcome (DohError X) BootstrapDnsResult
        → Outcome (DohError X) (BootstrapCache × List IpAddr)
    resolve_normalized cache key now done a_result aaaa_result =
        elim (load_bootstrap_cache cache key now) [
          | some addrs ↦ ok (cache, addrs)
          | none ↦ keep_answer cache key done (joined a_result aaaa_result)
        ]

    -- The cache afterwards, with the addresses. `key_of` is the key of the resolver and a host; the
    -- two answers are those of `resolve_one_bootstrap` to the host without the dots at its end.
    unfoldable pub resolve_with_bootstrap_resolver :
        (Bytes → K)
        → (Bytes → Outcome (DohError X) BootstrapDnsResult)
        → (Bytes → Outcome (DohError X) BootstrapDnsResult)
        → BootstrapCache
        → Bytes
        → ℕ
        → ℕ
        → Outcome (DohError X) (BootstrapCache × List IpAddr)
    resolve_with_bootstrap_resolver key_of a_of aaaa_of cache host now done = do
      normalized_host ← normalize_bootstrap_host host
      let query_host = trim_dots normalized_host
      resolve_normalized cache (key_of normalized_host) now done (a_of query_host)
          (aaaa_of query_host)

  module _ (same_iff : (a b : K) → (same a b ≡ true) ↔ (a ≡ b)) where
    get-insert_self :
        (cache : BootstrapCache) (key : K) (e : BootstrapCacheEntry)
        → get_entry (insert_entry cache key e) key ≡ some e
    unfolding get_entry insert_entry
    get-insert_self [] key e = ground (arith, same_iff key key)
    get-insert_self ((k, e') ∷ cache) key e =
        ground (arith, get-insert_self cache key e, same_iff key key)

    -- Addresses that were put into the cache are found until their TTL is over, and not after it.
    pub load_bootstrap_cache-store :
        (cache : BootstrapCache) (key : K) (addrs : List IpAddr) (ttl_secs now later : ℕ)
        → load_bootstrap_cache (store_bootstrap_cache cache key addrs ttl_secs now) key later
          ≡ (if leb later (expiry now ttl_secs) then some addrs else none)
    unfolding load_bootstrap_cache store_bootstrap_cache
    load_bootstrap_cache-store cache key addrs ttl_secs now later =
        rw
          (get-insert_self cache key (record { addrs = addrs; expire_at_ms = expiry now ttl_secs }))
          refl
