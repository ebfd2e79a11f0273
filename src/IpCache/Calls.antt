-- ===== src/IpCache/Calls.antt =====
-- `get` and `upsert` of `FastestIpCache`, and every run of calls, against the list of entries in
-- the order of their use.
use doh_server.Prelude.{
  ℕ, zero, suc, ◌≤◌, ◌<◌, ◌≡◌, refl, sym, ap, ◌∙◌, subst, Bool, true, false, [], ◌∷◌, ◌++◌, Option,
  none, some, length, leb, if◌then◌else◌, take, arith, length-append, append-nil,
}
use native.Mathlib.Decide.{dec_lt}
use doh_server.HashMap.{find, erase}
use doh_server.IpCache.{
  FastIpCacheEntry, FastIpCacheNode, FastestIpCache, remove, move_to_front, get, evict_if_needed,
}
use doh_server.IpCache.Segments.{Order, without-Absent}
use doh_server.IpCache.Detach.{Represents, last_or-append}
use doh_server.IpCache.Refine.{missing, there, locate, erase-middle, remove-Represents}
use doh_server.IpCache.Touch.{move_to_front-Represents}

module _ {K : Type 0} (dec : Discrete K) where
  -- The promise of `get` and `upsert`, on the order of use.
  abbrev pub use_of : Order K → K → ℕ → Option FastIpCacheEntry → Order K × Option FastIpCacheEntry
  use_of l key now none = (l, none)
  use_of l key now (some e) =
      if leb e.expire_at_ms now
      then (erase dec l key, none)
      else ((key, e) ∷ erase dec l key, some e)

  abbrev pub get_order : Order K → K → ℕ → Order K × Option FastIpCacheEntry
  get_order l key now = use_of l key now (find dec l key)

  abbrev pub upsert_order : ℕ → Order K → K → FastIpCacheEntry → Order K
  upsert_order size l key e = take size ((key, e) ∷ erase dec l key)

  get_missing :
      (c : FastestIpCache K) (key : K) (now : ℕ)
      → find dec c.entries key ≡ none
      → get dec c key now ≡ (c, none)
  unfolding get
  get_missing c key now h = ground (arith, h)

  get_there :
      (c : FastestIpCache K) (key : K) (now : ℕ) (n : FastIpCacheNode K)
      → find dec c.entries key ≡ some n
      → get dec c key now ≡ (
          if leb n.entry.expire_at_ms now
          then ((remove dec c key).0, none)
          else (move_to_front dec c key, some n.entry))
  unfolding get
  get_there c key now n h = rw (h, get) refl

  -- A cache with a result.
  abbrev pub Returns :
      ℕ → FastestIpCache K × Option FastIpCacheEntry → Order K × Option FastIpCacheEntry → Type 0
  Returns size r s = Represents dec size r.0 s.0 × (r.1 ≡ s.1)

  get-cases :
      (size : ℕ) (c : FastestIpCache K) (l : Order K) (key : K) (now : ℕ) (e : FastIpCacheEntry)
      (old : Bool)
      → Represents dec size c l
      → find dec l key ≡ some e
      → Returns size
          (if old then ((remove dec c key).0, none) else (move_to_front dec c key, some e))
          (if old then (erase dec l key, none) else ((key, e) ∷ erase dec l key, some e))
  get-cases size c l key now e true r h = ((remove-Represents dec size c l key r).0, refl)
  get-cases size c l key now e false r h = (move_to_front-Represents dec size c l key e r h, refl)

  -- `get` finds the entry of the key, puts it in front, and drops it where its time is over.
  pub get-Represents :
      (size : ℕ) (c : FastestIpCache K) (l : Order K) (key : K) (now : ℕ)
      → Represents dec size c l
      → Returns size (get dec c key now) (get_order l key now)
  get-Represents size c l key now r = elim (locate dec size c l key r) [
    | missing h g n ↦ rw (get_missing c key now g, h) ((r, refl))
    | there a b e q h g ↦
        rw (get_there c key now _ g, h) (get-cases size c l key now e (leb e.expire_at_ms now) r h)
  ]

  -- The list without its last entry.
  snoc :
      (k : K) (e : FastIpCacheEntry) (l : Order K)
      → (a : Order K) × (k' : K) × (e' : FastIpCacheEntry) × ((k, e) ∷ l ≡ a ++ (k', e') ∷ [])
  snoc k e [] = ([], k, e, refl)
  snoc k e ((k', e') ∷ l) =
      let (a, x, y, h) = snoc k' e' l in ((k, e) ∷ a, x, y, ap (λ (r : Order K). (k, e) ∷ r) h)

  take-snoc :
      (n : ℕ) (a : Order K) (x : K × FastIpCacheEntry)
      → n ≤ length a
      → take n (a ++ x ∷ []) ≡ take n a
  take-snoc zero a x h = refl
  take-snoc (suc n) [] x h = absurd (omega arith)
  take-snoc (suc n) (y ∷ a) x h = ap (λ (r : Order K). y ∷ r) (take-snoc n a x (omega arith))

  pub take_all : (n : ℕ) (l : Order K) → length l ≤ n → take n l ≡ l
  take_all zero [] h = refl
  take_all zero (y ∷ l) h = absurd (omega arith)
  take_all (suc n) [] h = refl
  take_all (suc n) (y ∷ l) h = ap (λ (r : Order K). y ∷ r) (take_all n l (omega arith))

  evict_done :
      (fuel : ℕ) (c : FastestIpCache K)
      → length c.entries ≤ c.max_size
      → evict_if_needed dec fuel c ≡ c
  unfolding evict_if_needed
  evict_done zero c h = refl
  evict_done (suc fuel) c h = ground arith

  evict_more :
      (fuel : ℕ) (c : FastestIpCache K) (k : K)
      → c.max_size < length c.entries
      → c.tail ≡ some k
      → evict_if_needed dec (suc fuel) c ≡ evict_if_needed dec fuel (remove dec c k).0
  unfolding evict_if_needed
  evict_more fuel c k h t = ground (arith, t)

  evict-snoc :
      (fuel size : ℕ) (c : FastestIpCache K) (a : Order K) (k : K) (e : FastIpCacheEntry)
      → ((c' : FastestIpCache K)
          → Represents dec size c' a
          → Represents dec size (evict_if_needed dec fuel c') (take size a))
      → Represents dec size c (a ++ (k, e) ∷ [])
      → size < length (a ++ (k, e) ∷ [])
      → Represents dec size (evict_if_needed dec (suc fuel) c) (take size (a ++ (k, e) ∷ []))
  evict-snoc fuel size c a k e ih r h =
      let same : erase dec (a ++ (k, e) ∷ []) k ≡ a =
        erase-middle dec a [] k e (without-Absent a k e [] r.distinct) ∙ append-nil a in
      let r' =
        subst (λ o. Represents dec size (remove dec c k).0 o) same
          (remove-Represents dec size c (a ++ (k, e) ∷ []) k r).0 in
      rw
        (
          evict_more fuel c k (omega (arith, r.cap, r.count))
              (r.tail_is ∙ last_or-append none a ((k, e) ∷ [])),
          take-snoc size a (k, e) (omega (arith, length-append a ((k, e) ∷ []))),
        )
        (ih (remove dec c k).0 r')

  -- `evict_if_needed` keeps the entries used last, as many as fit.
  pub evict_if_needed-Represents :
      (fuel size : ℕ) (c : FastestIpCache K) (l : Order K)
      → length l ≤ fuel
      → Represents dec size c l
      → Represents dec size (evict_if_needed dec fuel c) (take size l)
  evict_if_needed-Represents fuel size c [] f r =
      rw (evict_done fuel c (omega (arith, r.count)), take_all size [] (omega arith)) r
  evict_if_needed-Represents zero size c ((k, e) ∷ l) f r = absurd (omega arith)
  evict_if_needed-Represents (suc fuel) size c ((k, e) ∷ l) f r =
      elim (dec_lt size (length ((k, e) ∷ l))) [
        | yes h ↦
            let (a, k', e', q) = snoc k e l in
            let p = ap (λ (o : Order K). length o) q in
            subst (λ o. Represents dec size (evict_if_needed dec (suc fuel) c) (take size o))
              (sym q)
              (evict-snoc fuel size c a k' e'
                (λ c' r'.
                  evict_if_needed-Represents fuel size c' a
                    (omega (arith, p, length-append a ((k', e') ∷ []))) r')
                (subst (λ o. Represents dec size c o) q r) (omega (arith, p)))
        | no h ↦
            rw
              (
                evict_done (suc fuel) c (omega (arith, r.count, r.cap)),
                take_all size ((k, e) ∷ l) (omega arith),
              )
              r
      ]
