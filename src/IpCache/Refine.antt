-- ===== src/IpCache/Refine.antt =====
-- Each operation of `FastestIpCache` against the same operation on the list of entries in the order
-- of their use.
use doh_server.Prelude.{
  ℕ, ◌≡◌, ◌⊎◌, inl, inr, refl, ap, ◌∙◌, subst, [], ◌∷◌, ◌++◌, Option, none, some, arith,
}
use doh_server.HashMap.{find, erase, find-erase, length-erase, erase-IsMap}
use doh_server.IpCache.{FastIpCacheEntry, FastIpCacheNode, FastestIpCache, Entries, remove, detach}
use doh_server.IpCache.Segments.{
  Order, first_or, last_or, Absent, Seg, Seg-split, Seg-erase, without-Absent,
}
use doh_server.IpCache.Detach.{Represents, Loose, detach-Loose}

module _ {K : Type 0} (dec : Discrete K) where
  pub find-Absent : (l : Order K) (key : K) → find dec l key ≡ none → Absent key l
  unfolding find
  find-Absent [] key h = tt
  find-Absent ((k, e) ∷ l) key h = elim (dec key k) [
    | yes p ↦ absurd (ground arith)
    | no p ↦ (p, find-Absent l key (ground arith))
  ]

  pub erase-Absent : (l : Order K) (key : K) → Absent key l → erase dec l key ≡ l
  unfolding erase
  erase-Absent [] key h = refl
  erase-Absent ((k, e) ∷ l) key h = ground (arith, erase-Absent l key h.1, h.0)

  pub erase-middle :
      (a b : Order K) (key : K) (e : FastIpCacheEntry)
      → Absent key (a ++ b)
      → erase dec (a ++ (key, e) ∷ b) key ≡ a ++ b
  unfolding erase
  erase-middle [] b key e h = ground (arith, erase-Absent b key h)
  erase-middle ((k, e') ∷ a) b key e h = ground (arith, erase-middle a b key e h.1, h.0)

  -- Where a key stands in the order, and its node.
  pub data Located (m : Entries dec) (l : Order K) (key : K) : Type 0 where
    missing : find dec l key ≡ none → find dec m key ≡ none → Absent key l → Located m l key
    there :
        (a b : Order K) (e : FastIpCacheEntry)
        → l ≡ a ++ (key, e) ∷ b
        → find dec l key ≡ some e
        → find dec m key
          ≡ some (record { entry = e; prev = last_or none a; next = first_or none b })
        → Located m l key

  split_at :
      (l : Order K) (key : K)
      → (find dec l key ≡ none)
        ⊎ ((a : Order K) × (b : Order K) × (e : FastIpCacheEntry) × (l ≡ a ++ (key, e) ∷ b)
            × (find dec l key ≡ some e))
  unfolding find
  split_at [] key = inl refl
  split_at ((k, e) ∷ l) key = elim (dec key k) [
    | yes p ↦ inr ([], l, e, ground arith, ground arith)
    | no p ↦ elim (split_at l key) [
      | inl h ↦ inl (ground arith)
      | inr (a, b, e', q, h) ↦
          inr ((k, e) ∷ a, b, e', ap (λ (r : Order K). (k, e) ∷ r) q, ground arith)
    ]
  ]

  pub locate :
      (size : ℕ) (c : FastestIpCache K) (l : Order K) (key : K)
      → Represents dec size c l
      → Located c.entries l key
  locate size c l key r = elim (split_at l key) [
    | inl h ↦ missing h (r.others key (find-Absent l key h)) (find-Absent l key h)
    | inr (a, b, e, q, h) ↦
        there a b e q h
          (Seg-split dec c.entries none none a ((key, e) ∷ b)
            (subst (λ o. Seg dec c.entries none o none) q r.seg)).1.0
  ]

  Loose-erase :
      (size : ℕ) (c : FastestIpCache K) (key : K) (e : FastIpCacheEntry) (nx : Option K)
      (l : Order K)
      → Loose dec size c key e nx l
      → Represents dec size (record c { entries = erase dec c.entries key }) l
  Loose-erase size c key e nx l r = record {
    cap = r.cap;
    seg = Seg-erase dec c.entries key none none l r.fresh r.seg;
    head_is = r.head_is;
    tail_is = r.tail_is;
    distinct = r.distinct;
    others = λ j h. elim (dec j key) [
      | yes p ↦ ground (arith, find-erase dec c.entries key j)
      | no p ↦ ground (arith, find-erase dec c.entries key j, r.others j p h)
    ];
    count = omega (arith, length-erase dec c.entries key _ r.is_map r.node, r.count);
    is_map = erase-IsMap dec c.entries key r.is_map;
  }

  pub remove_missing :
      (c : FastestIpCache K) (key : K)
      → find dec c.entries key ≡ none
      → remove dec c key ≡ (c, none)
  unfolding remove
  remove_missing c key h = ground (arith, h)

  remove_there :
      (c : FastestIpCache K) (key : K) (n : FastIpCacheNode K)
      → find dec c.entries key ≡ some n
      → remove dec c key ≡ (
        record (detach dec c key n.prev n.next) {
          entries = erase dec (detach dec c key n.prev n.next).entries key;
        },
        some n.entry,
      )
  unfolding remove
  remove_there c key n h = ground (arith, h)

  -- `remove` takes the entry out of the order and returns it.
  pub remove-Represents :
      (size : ℕ) (c : FastestIpCache K) (l : Order K) (key : K)
      → Represents dec size c l
      → Represents dec size (remove dec c key).0 (erase dec l key)
        × ((remove dec c key).1 ≡ find dec l key)
  remove-Represents size c l key r = elim (locate size c l key r) [
    | missing h g n ↦ rw (remove_missing c key g, h, erase-Absent l key n) ((r, refl))
    | there a b e q h g ↦
        let r' = subst (λ o. Represents dec size c o) q r in
        let same : erase dec l key ≡ a ++ b =
          ap (λ (o : Order K). erase dec o key) q
          ∙ erase-middle a b key e (without-Absent a key e b r'.distinct) in
        rw (remove_there c key _ g, h, same)
          ((
            Loose-erase size (detach dec c key (last_or none a) (first_or none b)) key e none
                (a ++ b) (detach-Loose dec size c a b key e r'),
            refl,
          ))
  ]
