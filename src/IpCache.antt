-- ===== src/IpCache.antt =====
-- `FastestIpCache` of src/libdoh/src/globals.rs: a map whose nodes are linked in the order of their
-- use, the most recent one first. `K` is `IpAddr`.
pub mod Segments
pub mod Detach
pub mod Refine
pub mod Touch
pub mod Calls
pub mod Runs
use doh_server.HashMap.{find, modify, insert, erase}
use doh_server.Prelude.{
  ℕ, zero, suc, ◌+◌, ◌*◌, Bool, true, false, List, [], ◌∷◌, Option, none, some, length, max, leb,
  ltb, if◌then◌else◌,
}
use mathlib.Core.Logic.{ite}

pub data FastIpCacheStatus : Type 0 where
  success failure : FastIpCacheStatus

pub record FastIpCacheEntry : Type 0 where
  pub status : FastIpCacheStatus
  pub latency_ms : ℕ
  pub expire_at_ms : ℕ

abbrev pub fastest_ip_cache_max_size : ℕ
fastest_ip_cache_max_size = 64 * 1024

pub record FastIpCacheNode (K : Type 0) : Type 0 where
  pub entry : FastIpCacheEntry
  pub prev : Option K
  pub next : Option K

pub record FastestIpCache (K : Type 0) : Type 0 where
  pub max_size : ℕ
  pub head : Option K
  pub tail : Option K
  pub entries : List (K × FastIpCacheNode K)

unfoldable pub with_max_size : {K : Type 0} → ℕ → FastestIpCache K
with_max_size max_size = record {
  max_size = max max_size 1;
  head = none;
  tail = none;
  entries = [];
}

-- `b` where there is no key, and `a` where there is one
abbrev pub if_none : {K : Type 0} → Option K → Option K → Option K → Option K
if_none none b a = b
if_none (some k) b a = a

module _ {K : Type 0} (dec : Discrete K) where
  abbrev pub Entries : Type 0
  Entries = List (K × FastIpCacheNode K)

  -- A write to the node of a key, where there is one.
  unfoldable pub modify_at : Entries → Option K → (FastIpCacheNode K → FastIpCacheNode K) → Entries
  modify_at m none f = m
  modify_at m (some k) f = modify dec m k f

  abbrev pub set_next : Entries → Option K → Option K → Entries
  set_next m o next = modify_at m o (λ n. record n { next = next })

  abbrev pub set_prev : Entries → Option K → Option K → Entries
  set_prev m o prev = modify_at m o (λ n. record n { prev = prev })

  unfoldable pub detach : FastestIpCache K → K → Option K → Option K → FastestIpCache K
  detach c key prev next =
      let m = set_prev (set_next c.entries prev next) next prev in
      record c {
        head = if_none prev next c.head;
        tail = if_none next prev c.tail;
        entries = modify dec m key (λ n. record n { prev = none; next = none });
      }

  unfoldable pub remove : FastestIpCache K → K → FastestIpCache K × Option FastIpCacheEntry
  remove c key = elim (find dec c.entries key) [
    | none ↦ (c, none)
    | some node ↦
        let c' = detach c key node.prev node.next in
        (record c' { entries = erase dec c'.entries key }, some node.entry)
  ]

  -- The key becomes the head, its node in place; `old_head` is the head until then.
  unfoldable pub link_front : FastestIpCache K → K → FastestIpCache K
  link_front c key = record c {
    head = some key;
    tail = if_none c.head (some key) c.tail;
    entries = set_prev c.entries c.head (some key);
  }

  abbrev pub is_key : K → Option K → Bool
  is_key key none = false
  is_key key (some k) = ite (dec k key) true false

  unfoldable pub move_to_front : FastestIpCache K → K → FastestIpCache K
  move_to_front c key = if is_key key c.head then c else elim (find dec c.entries key) [
    | none ↦ c
    | some node ↦
        let c' = detach c key node.prev node.next in
        link_front
          (record c' {
            entries = modify dec c'.entries key (λ n. record n { prev = none; next = c'.head });
          })
          key
  ]

  unfoldable pub get : FastestIpCache K → K → ℕ → FastestIpCache K × Option FastIpCacheEntry
  get c key now_ms = elim (find dec c.entries key) [
    | none ↦ (c, none)
    | some node ↦
        if leb node.entry.expire_at_ms now_ms
        then ((remove c key).0, none)
        else (move_to_front c key, some node.entry)
  ]

  -- The loop of `evict_if_needed`, at most `fuel` rounds of it.
  unfoldable pub evict_if_needed : ℕ → FastestIpCache K → FastestIpCache K
  evict_if_needed zero c = c
  evict_if_needed (suc fuel) c = elim (ltb c.max_size (length c.entries)) [
    | false ↦ c
    | true ↦ elim c.tail [ none ↦ c | some k ↦ evict_if_needed fuel (remove c k).0 ]
  ]

  unfoldable pub insert_front : FastestIpCache K → K → FastIpCacheEntry → FastestIpCache K
  insert_front c key entry =
      link_front
        (record c {
          entries = insert dec c.entries key (record { entry = entry; prev = none; next = c.head });
        })
        key

  unfoldable pub upsert : FastestIpCache K → K → FastIpCacheEntry → FastestIpCache K
  upsert c key entry = elim (find dec c.entries key) [
    | some node ↦
        move_to_front
          (record c { entries = modify dec c.entries key (λ n. record n { entry = entry }) }) key
    | none ↦ let c' = insert_front c key entry in evict_if_needed (length c'.entries) c'
  ]
