-- ===== src/IpCache/Runs.antt =====
-- `upsert`, and every run of calls of `FastestIpCache`, against the list of entries in the order of
-- their use.
use doh_server.Prelude.{
  ℕ, ◌≤◌, ◌<◌, ◌≡◌, refl, ap, ◌∙◌, subst, List, [], ◌∷◌, ◌++◌, Option, none, some, length, max,
  length-take, arith,
}
use doh_server.HashMap.{find, insert, erase, find-insert, length-insert, insert-IsMap}
use doh_server.IpCache.{
  FastIpCacheEntry, FastIpCacheNode, FastestIpCache, with_max_size, remove, move_to_front, get,
  evict_if_needed, insert_front, upsert,
}
use doh_server.IpCache.Segments.{Order, Absent, Seg-insert, without-Absent, middle-Absent}
use doh_server.IpCache.Detach.{Represents, link_front-Represents, length-middle}
use doh_server.IpCache.Refine.{
  missing, there, locate, erase-middle, erase-Absent, remove-Represents,
}
use doh_server.IpCache.Touch.{put_entry, put_entry-Represents, move_to_front-Represents}
use doh_server.IpCache.Calls.{
  get_order, upsert_order, use_of, Returns, get-Represents, take_all, evict_if_needed-Represents,
}

module _ {K : Type 0} (dec : Discrete K) where
  find-middle :
      (a b : Order K) (key : K) (e : FastIpCacheEntry)
      → Absent key a
      → find dec (a ++ (key, e) ∷ b) key ≡ some e
  unfolding find
  find-middle [] b key e h = ground arith
  find-middle ((k, x) ∷ a) b key e h = ground (arith, find-middle a b key e h.1, h.0)

  upsert_there :
      (c : FastestIpCache K) (key : K) (e : FastIpCacheEntry) (n : FastIpCacheNode K)
      → find dec c.entries key ≡ some n
      → upsert dec c key e ≡ move_to_front dec (put_entry dec c key e) key
  unfolding upsert
  upsert_there c key e n h = ground (arith, h)

  upsert_missing :
      (c : FastestIpCache K) (key : K) (e : FastIpCacheEntry)
      → find dec c.entries key ≡ none
      → upsert dec c key e
        ≡ evict_if_needed dec (length (insert_front dec c key e).entries) (insert_front dec c key e)
  unfolding upsert
  upsert_missing c key e h = ground (arith, h)

  insert_front-Represents :
      (size : ℕ) (c : FastestIpCache K) (l : Order K) (key : K) (e : FastIpCacheEntry)
      → Represents dec size c l
      → find dec c.entries key ≡ none
      → Absent key l
      → Represents dec size (insert_front dec c key e) ((key, e) ∷ l)
  unfolding insert_front
  insert_front-Represents size c l key e r h g =
      let n : FastIpCacheNode K = record { entry = e; prev = none; next = c.head } in
      link_front-Represents dec size (record c { entries = insert dec c.entries key n }) key e l
        (record {
          cap = r.cap;
          seg = Seg-insert dec c.entries key n none none l g r.seg;
          head_is = r.head_is;
          tail_is = r.tail_is;
          distinct = r.distinct;
          fresh = g;
          node = ground (arith, find-insert dec c.entries key n key);
          others = λ j d a. ground (arith, find-insert dec c.entries key n j, r.others j a);
          count = omega (arith, length-insert dec c.entries key n h, r.count);
          is_map = insert-IsMap dec c.entries key n r.is_map;
        })

  upsert-middle :
      (size : ℕ) (c : FastestIpCache K) (a b : Order K) (key : K) (e e' : FastIpCacheEntry)
      → Represents dec size c (a ++ (key, e) ∷ b)
      → Represents dec size (move_to_front dec (put_entry dec c key e') key) ((key, e') ∷ (a ++ b))
  upsert-middle size c a b key e e' r =
      let r' = put_entry-Represents dec size c a b key e e' r in
      let gone = without-Absent a key e' b r'.distinct in
      subst
        (λ o. Represents dec size (move_to_front dec (put_entry dec c key e') key) ((key, e') ∷ o))
        (erase-middle dec a b key e' gone)
        (move_to_front-Represents dec size (put_entry dec c key e') (a ++ (key, e') ∷ b) key e' r'
          (find-middle a b key e' (middle-Absent a key e' b r'.distinct)))

  -- `upsert` puts the entry in front of those of the other keys, and keeps as many as fit.
  pub upsert-Represents :
      (size : ℕ) (c : FastestIpCache K) (l : Order K) (key : K) (e : FastIpCacheEntry)
      → Represents dec size c l
      → length l ≤ size
      → Represents dec size (upsert dec c key e) (upsert_order dec size l key e)
  upsert-Represents size c l key e r s = elim (locate dec size c l key r) [
    | missing h g n ↦
        let q = insert_front-Represents size c l key e r g n in
        rw (upsert_missing c key e g, erase-Absent dec l key n)
          (evict_if_needed-Represents dec (length (insert_front dec c key e).entries) size
            (insert_front dec c key e) ((key, e) ∷ l) (omega (arith, q.count)) q)
    | there a b e' q h g ↦
        let r' = subst (λ o. Represents dec size c o) q r in
        let same : erase dec l key ≡ a ++ b =
          ap (λ (o : Order K). erase dec o key) q
          ∙ erase-middle dec a b key e' (without-Absent a key e' b r'.distinct) in
        let p = ap (λ (o : Order K). length o) q in
        rw
          (
            upsert_there c key e _ g,
            same,
            take_all dec size ((key, e) ∷ (a ++ b)) (omega (arith, p, length-middle key e' a b)),
          )
          (upsert-middle size c a b key e' e r')
  ]

  -- The calls that other modules make, with the clock's time.
  pub data Call : Type 0 where
    get_at : K → ℕ → Call
    upsert_of : K → FastIpCacheEntry → Call
    remove_of : K → Call

  unfoldable pub after : FastestIpCache K → Call → FastestIpCache K × Option FastIpCacheEntry
  after c (get_at key now) = get dec c key now
  after c (upsert_of key e) = (upsert dec c key e, none)
  after c (remove_of key) = remove dec c key

  -- The same call on the order of use.
  unfoldable pub after_order : ℕ → Order K → Call → Order K × Option FastIpCacheEntry
  after_order size l (get_at key now) = get_order dec l key now
  after_order size l (upsert_of key e) = (upsert_order dec size l key e, none)
  after_order size l (remove_of key) = (erase dec l key, find dec l key)

  unfoldable pub results : FastestIpCache K → List Call → List (Option FastIpCacheEntry)
  results c [] = []
  results c (x ∷ xs) = (after c x).1 ∷ results (after c x).0 xs

  unfoldable pub results_order : ℕ → Order K → List Call → List (Option FastIpCacheEntry)
  results_order size l [] = []
  results_order size l (x ∷ xs) =
      (after_order size l x).1 ∷ results_order size (after_order size l x).0 xs

  after-Represents :
      (size : ℕ) (c : FastestIpCache K) (l : Order K) (x : Call)
      → Represents dec size c l
      → length l ≤ size
      → Returns dec size (after c x) (after_order size l x)
  unfolding after after_order
  after-Represents size c l (get_at key now) r s = get-Represents dec size c l key now r
  after-Represents size c l (upsert_of key e) r s = (upsert-Represents size c l key e r s, refl)
  after-Represents size c l (remove_of key) r s = remove-Represents dec size c l key r

  length-erase-le : (l : Order K) (key : K) → length (erase dec l key) ≤ length l
  unfolding erase
  length-erase-le [] key = omega arith
  length-erase-le ((k, e) ∷ l) key = ground (arith, length-erase-le l key)

  length-erase-lt :
      (l : Order K) (key : K) (e : FastIpCacheEntry)
      → find dec l key ≡ some e
      → length (erase dec l key) < length l
  unfolding find erase
  length-erase-lt [] key e h = cc
  length-erase-lt ((k, e') ∷ l) key e h =
      ground (arith, length-erase-lt l key e, length-erase-le l key)

  length-use_of :
      (l : Order K) (key : K) (now : ℕ) (o : Option FastIpCacheEntry)
      → find dec l key ≡ o
      → length (use_of dec l key now o).0 ≤ length l
  length-use_of l key now none h = omega arith
  length-use_of l key now (some e) h = ground (arith, length-erase-lt l key e h)

  length-after_order-le :
      (size : ℕ) (l : Order K) (x : Call) → length l ≤ size → length (after_order size l x).0 ≤ size
  unfolding after_order
  length-after_order-le size l (get_at key now) s =
      omega (arith, length-use_of l key now (find dec l key) refl)
  length-after_order-le size l (upsert_of key e) s =
      omega (arith, length-take size ((key, e) ∷ erase dec l key))
  length-after_order-le size l (remove_of key) s = omega (arith, length-erase-le l key)

  results-results_order :
      (size : ℕ) (c : FastestIpCache K) (l : Order K) (xs : List Call)
      → Represents dec size c l
      → length l ≤ size
      → results c xs ≡ results_order size l xs
  unfolding results results_order
  results-results_order size c l [] r s = refl
  results-results_order size c l (x ∷ xs) r s =
      let (r', e) = after-Represents size c l x r s in
      rw
        (
          e,
          results-results_order size (after c x).0 (after_order size l x).0 xs r'
              (length-after_order-le size l x s),
        )
        refl

  empty-Represents : (n : ℕ) → Represents dec (max n 1) (with_max_size n) []
  unfolding with_max_size find
  empty-Represents n = record {
    cap = refl;
    seg = tt;
    head_is = refl;
    tail_is = refl;
    distinct = tt;
    others = λ j h. refl;
    count = refl;
    is_map = tt;
  }

  -- Every run of calls of a new cache, whatever its keys, entries and times, returns what the list
  -- of entries in the order of their use returns: `get` the live entry of the key, which it makes
  -- the most recent one; `upsert` drops the least recent one where the list grows past its size.
  pub results-with_max_size :
      (n : ℕ) (xs : List Call) → results (with_max_size n) xs ≡ results_order (max n 1) [] xs
  results-with_max_size n xs =
      results-results_order (max n 1) (with_max_size n) [] xs (empty-Represents n) (omega arith)

  -- The cache behind a run of calls.
  unfoldable pub run : FastestIpCache K → List Call → FastestIpCache K
  run c [] = c
  run c (x ∷ xs) = run (after c x).0 xs

  run-Represents :
      (size : ℕ) (c : FastestIpCache K) (l : Order K) (xs : List Call)
      → Represents dec size c l
      → length l ≤ size
      → (l' : Order K) × Represents dec size (run c xs) l' × (length l' ≤ size)
  unfolding run
  run-Represents size c l [] r s = (l, r, s)
  run-Represents size c l (x ∷ xs) r s =
      run-Represents size (after c x).0 (after_order size l x).0 xs
        (after-Represents size c l x r s).0 (length-after_order-le size l x s)

  -- After every run of calls of a new cache its nodes form one chain from the head to the tail, with
  -- every key of the map once, and there are no more of them than its size, which is at least one.
  pub run-IsChain :
      (n : ℕ) (xs : List Call)
      → (l : Order K) × Represents dec (max n 1) (run (with_max_size n) xs) l
        × (length (run (with_max_size n) xs).entries ≤ max n 1)
  run-IsChain n xs =
      let (l, r, s) =
        run-Represents (max n 1) (with_max_size n) [] xs (empty-Represents n) (omega arith) in
      (l, r, omega (arith, r.count))
