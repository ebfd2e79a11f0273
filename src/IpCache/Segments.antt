-- ===== src/IpCache/Segments.antt =====
-- A stretch of the linked nodes: the map has a node for each entry of a list, linked to the keys
-- before and behind it. What the writes of `FastestIpCache` do to a stretch.
use doh_server.Prelude.{◌≡◌, ◌≢◌, sym, ◌∙◌, List, [], ◌∷◌, ◌++◌, Option, none, some, arith}
use doh_server.HashMap.{find, modify, insert, erase, find-modify, find-insert, find-erase}
use doh_server.IpCache.{FastIpCacheEntry, FastIpCacheNode, Entries, modify_at, set_next, set_prev}

-- The entries in the order of their use.
abbrev pub Order : Type 0 → Type 0
Order K = List (K × FastIpCacheEntry)

module _ {K : Type 0} where
  abbrev pub first_or : Option K → Order K → Option K
  first_or d [] = d
  first_or d ((k, e) ∷ l) = some k

  abbrev pub last_or : Option K → Order K → Option K
  last_or d [] = d
  last_or d ((k, e) ∷ l) = last_or (some k) l

  abbrev pub Absent : K → Order K → Type 0
  Absent key [] = Unit
  Absent key ((k, e) ∷ l) = (key ≢ k) × Absent key l

  abbrev pub AbsentKey : Option K → Order K → Type 0
  AbsentKey none l = Unit
  AbsentKey (some k) l = Absent k l

  abbrev pub Distinct : Order K → Type 0
  Distinct [] = Unit
  Distinct ((k, e) ∷ l) = Absent k l × Distinct l

  pub Absent-append_right : (key : K) (a b : Order K) → Absent key (a ++ b) → Absent key b
  Absent-append_right key [] b h = h
  Absent-append_right key ((k, e) ∷ a) b h = Absent-append_right key a b h.1

  pub Absent-append_left : (key : K) (a b : Order K) → Absent key (a ++ b) → Absent key a
  Absent-append_left key [] b h = tt
  Absent-append_left key ((k, e) ∷ a) b h = (h.0, Absent-append_left key a b h.1)

  pub Absent-append : (key : K) (a b : Order K) → Absent key a → Absent key b → Absent key (a ++ b)
  Absent-append key [] b h g = g
  Absent-append key ((k, e) ∷ a) b h g = (h.0, Absent-append key a b h.1 g)

  pub Distinct-append_right : (a b : Order K) → Distinct (a ++ b) → Distinct b
  Distinct-append_right [] b d = d
  Distinct-append_right ((k, e) ∷ a) b d = Distinct-append_right a b d.1

  pub Distinct-append_left : (a b : Order K) → Distinct (a ++ b) → Distinct a
  Distinct-append_left [] b d = tt
  Distinct-append_left ((k, e) ∷ a) b d =
      (Absent-append_left k a b d.0, Distinct-append_left a b d.1)

  -- The last key of the first part is not in the second one.
  pub last_or-AbsentKey :
      (p : Option K) (a b : Order K) → Distinct (a ++ b) → AbsentKey p b → AbsentKey (last_or p a) b
  last_or-AbsentKey p [] b d h = h
  last_or-AbsentKey p ((k, e) ∷ a) b d h =
      last_or-AbsentKey (some k) a b d.1 (Absent-append_right k a b d.0)

  -- A key of the second part is not in the first one.
  pub middle-Absent :
      (a : Order K) (key : K) (e : FastIpCacheEntry) (b : Order K)
      → Distinct (a ++ (key, e) ∷ b)
      → Absent key a
  middle-Absent [] key e b d = tt
  middle-Absent ((k, e') ∷ a) key e b d =
      (λ q. (Absent-append_right k a ((key, e) ∷ b) d.0).0 (sym q), middle-Absent a key e b d.1)

  -- Without its middle entry the list still has no key twice, and the middle one's is not in it.
  pub Distinct-without :
      (a : Order K) (key : K) (e : FastIpCacheEntry) (b : Order K)
      → Distinct (a ++ (key, e) ∷ b)
      → Distinct (a ++ b)
  Distinct-without [] key e b d = d.1
  Distinct-without ((k, e') ∷ a) key e b d = (
    Absent-append k a b (Absent-append_left k a ((key, e) ∷ b) d.0)
        (Absent-append_right k a ((key, e) ∷ b) d.0).1,
    Distinct-without a key e b d.1,
  )

  pub without-Absent :
      (a : Order K) (key : K) (e : FastIpCacheEntry) (b : Order K)
      → Distinct (a ++ (key, e) ∷ b)
      → Absent key (a ++ b)
  without-Absent a key e b d =
      Absent-append key a b (middle-Absent a key e b d) (Distinct-append_right a ((key, e) ∷ b) d).0

  pub first_or-AbsentKey : (a b : Order K) → Distinct (a ++ b) → AbsentKey (first_or none b) a
  first_or-AbsentKey a [] d = tt
  first_or-AbsentKey a ((k, e) ∷ b) d = middle-Absent a k e b d

module _ {K : Type 0} (dec : Discrete K) where
  -- The nodes of the entries of `l`, the first one linked back to `p` and the last one on to `nx`.
  abbrev pub Seg : Entries dec → Option K → Order K → Option K → Type 0
  Seg m p [] nx = Unit
  Seg m p ((k, e) ∷ l) nx =
      (find dec m k ≡ some (record { entry = e; prev = p; next = first_or nx l }))
      × Seg m (some k) l nx

  pub Seg-modify :
      (m : Entries dec) (key : K) (f : FastIpCacheNode K → FastIpCacheNode K) (p nx : Option K)
      (l : Order K)
      → Absent key l
      → Seg m p l nx
      → Seg (modify dec m key f) p l nx
  Seg-modify m key f p nx [] h s = tt
  Seg-modify m key f p nx ((k, e) ∷ l) h s = (
    ground (arith, find-modify dec m key f k, h.0, s.0),
    Seg-modify m key f (some k) nx l h.1 s.1,
  )

  pub Seg-insert :
      (m : Entries dec) (key : K) (n : FastIpCacheNode K) (p nx : Option K) (l : Order K)
      → Absent key l
      → Seg m p l nx
      → Seg (insert dec m key n) p l nx
  Seg-insert m key n p nx [] h s = tt
  Seg-insert m key n p nx ((k, e) ∷ l) h s = (
    ground (arith, find-insert dec m key n k, h.0, s.0),
    Seg-insert m key n (some k) nx l h.1 s.1,
  )

  pub Seg-erase :
      (m : Entries dec) (key : K) (p nx : Option K) (l : Order K)
      → Absent key l
      → Seg m p l nx
      → Seg (erase dec m key) p l nx
  Seg-erase m key p nx [] h s = tt
  Seg-erase m key p nx ((k, e) ∷ l) h s =
      (ground (arith, find-erase dec m key k, h.0, s.0), Seg-erase m key (some k) nx l h.1 s.1)

  pub Seg-split :
      (m : Entries dec) (p nx : Option K) (a b : Order K)
      → Seg m p (a ++ b) nx
      → Seg m p a (first_or nx b) × Seg m (last_or p a) b nx
  Seg-split m p nx [] b s = (tt, s)
  Seg-split m p nx ((k, e) ∷ []) b s = ((s.0, tt), s.1)
  Seg-split m p nx ((k, e) ∷ (k', e') ∷ a) b s =
      let (l, r) = Seg-split m (some k) nx ((k', e') ∷ a) b s.1 in ((s.0, l), r)

  pub Seg-join :
      (m : Entries dec) (p nx : Option K) (a b : Order K)
      → Seg m p a (first_or nx b)
      → Seg m (last_or p a) b nx
      → Seg m p (a ++ b) nx
  Seg-join m p nx [] b s t = t
  Seg-join m p nx ((k, e) ∷ []) b s t = (s.0, t)
  Seg-join m p nx ((k, e) ∷ (k', e') ∷ a) b s t =
      (s.0, Seg-join m (some k) nx ((k', e') ∷ a) b s.1 t)

  -- A write to the last key leaves a key that is not in the list.
  find-set_next :
      (m : Entries dec) (key k : K) (nx : Option K) (l : Order K)
      → key ≢ k
      → Absent key l
      → find dec (set_next dec m (last_or (some k) l) nx) key ≡ find dec m key
  unfolding modify_at
  find-set_next m key k nx [] h g =
      ground (arith, find-modify dec m k (λ (n : FastIpCacheNode K). record n { next = nx }) key)
  find-set_next m key k nx ((k', e) ∷ l) h g = find-set_next m key k' nx l g.0 g.1

  pub Seg-set_next :
      (m : Entries dec) (p nx nx' : Option K) (l : Order K)
      → Distinct l
      → Seg m p l nx
      → Seg (set_next dec m (last_or p l) nx') p l nx'
  unfolding modify_at
  Seg-set_next m p nx nx' [] d s = tt
  Seg-set_next m p nx nx' ((k, e) ∷ []) d s = (
    ground (arith, find-modify dec m k (λ (n : FastIpCacheNode K). record n { next = nx' }) k),
    tt,
  )
  Seg-set_next m p nx nx' ((k, e) ∷ (k', e') ∷ l) d s = (
    find-set_next m k k' nx' l d.0.0 d.0.1 ∙ s.0,
    Seg-set_next m (some k) nx nx' ((k', e') ∷ l) d.1 s.1,
  )

  pub Seg-set_prev :
      (m : Entries dec) (p p' nx : Option K) (l : Order K)
      → Distinct l
      → Seg m p l nx
      → Seg (set_prev dec m (first_or none l) p') p' l nx
  unfolding modify_at
  Seg-set_prev m p p' nx [] d s = tt
  Seg-set_prev m p p' nx ((k, e) ∷ l) d s = (
    ground (arith, find-modify dec m k (λ (n : FastIpCacheNode K). record n { prev = p' }) k),
    Seg-modify m k (λ n. record n { prev = p' }) (some k) nx l d.0 s.1,
  )

  pub Seg-modify_at :
      (m : Entries dec) (o : Option K) (f : FastIpCacheNode K → FastIpCacheNode K) (p nx : Option K)
      (l : Order K)
      → AbsentKey o l
      → Seg m p l nx
      → Seg (modify_at dec m o f) p l nx
  unfolding modify_at
  Seg-modify_at m none f p nx l h s = s
  Seg-modify_at m (some k) f p nx l h s = Seg-modify m k f p nx l h s
