-- ===== src/IpCache/Touch.antt =====
-- `move_to_front`, and what `upsert` does to a key that is there.
use doh_server.Prelude.{
  ℕ, ◌≡◌, ◌≢◌, refl, sym, ap, ◌∙◌, subst, [], ◌∷◌, ◌++◌, Option, none, some, arith,
}
use doh_server.HashMap.{find, modify, erase, find-modify, length-modify, modify-IsMap}
use doh_server.IpCache.{
  FastIpCacheEntry, FastIpCacheNode, FastestIpCache, detach, move_to_front, link_front,
}
use doh_server.IpCache.Segments.{
  Order, first_or, last_or, Absent, Distinct, Seg-split, Seg-join, Seg-modify, middle-Absent,
  without-Absent, Distinct-append_right,
}
use doh_server.IpCache.Detach.{
  Represents, Loose, detach-Loose, link_front-Represents, length-middle, last_or-append,
}
use doh_server.IpCache.Refine.{missing, there, locate, erase-middle}

module _ {K : Type 0} (dec : Discrete K) where
  move_first : (c : FastestIpCache K) (key : K) → c.head ≡ some key → move_to_front dec c key ≡ c
  unfolding move_to_front
  move_first c key h = ground (arith, h)

  -- The chain with the node at its front, in place of the one that was taken out.
  abbrev refit : FastestIpCache K → K → FastestIpCache K
  refit c key = record c {
    entries = modify dec c.entries key (λ n. record n { prev = none; next = c.head });
  }

  move_inner :
      (c : FastestIpCache K) (key k : K) (n : FastIpCacheNode K)
      → c.head ≡ some k
      → key ≢ k
      → find dec c.entries key ≡ some n
      → move_to_front dec c key ≡ link_front dec (refit (detach dec c key n.prev n.next) key) key
  unfolding move_to_front
  move_inner c key k n h d g = ground (arith, h, g)

  refit-Loose :
      (size : ℕ) (c : FastestIpCache K) (key : K) (e : FastIpCacheEntry) (nx : Option K)
      (l : Order K)
      → Loose dec size c key e nx l
      → Loose dec size (refit c key) key e c.head l
  refit-Loose size c key e nx l r =
      let f = λ (n : FastIpCacheNode K). record n { prev = none; next = c.head } in
      record {
        cap = r.cap;
        seg = Seg-modify dec c.entries key f none none l r.fresh r.seg;
        head_is = r.head_is;
        tail_is = r.tail_is;
        distinct = r.distinct;
        fresh = r.fresh;
        node = ground (arith, find-modify dec c.entries key f key, r.node);
        others = λ j h g. ground (arith, find-modify dec c.entries key f j, r.others j h g);
        count = omega (arith, length-modify dec c.entries key f, r.count);
        is_map = modify-IsMap dec c.entries key f r.is_map;
      }

  move-middle :
      (size : ℕ) (c : FastestIpCache K) (a b : Order K) (key : K) (e : FastIpCacheEntry)
      → Represents dec size c (a ++ (key, e) ∷ b)
      → find dec c.entries key
        ≡ some (record { entry = e; prev = last_or none a; next = first_or none b })
      → Represents dec size (move_to_front dec c key) ((key, e) ∷ (a ++ b))
  move-middle size c [] b key e r g = rw (move_first c key r.head_is) r
  move-middle size c ((k, e') ∷ a) b key e r g =
      rw (move_inner c key k _ r.head_is (middle-Absent ((k, e') ∷ a) key e b r.distinct).0 g) (
        link_front-Represents dec size _ key e (((k, e') ∷ a) ++ b) (
          refit-Loose size _ key e none (((k, e') ∷ a) ++ b)
            (detach-Loose dec size c ((k, e') ∷ a) b key e r)))

  -- `move_to_front` puts a key that is there in front, and leaves the order of the others.
  pub move_to_front-Represents :
      (size : ℕ) (c : FastestIpCache K) (l : Order K) (key : K) (e : FastIpCacheEntry)
      → Represents dec size c l
      → find dec l key ≡ some e
      → Represents dec size (move_to_front dec c key) ((key, e) ∷ erase dec l key)
  move_to_front-Represents size c l key e r h = elim (locate dec size c l key r) [
    | missing h' g n ↦ absurd (ground (arith, h, h'))
    | there a b e' q h' g ↦
        let r' = subst (λ o. Represents dec size c o) q r in
        let same : erase dec l key ≡ a ++ b =
          ap (λ (o : Order K). erase dec o key) q
          ∙ erase-middle dec a b key e' (without-Absent a key e' b r'.distinct) in
        let one : e' ≡ e = ground (arith, h, h') in
        rw same (
          subst (λ x. Represents dec size (move_to_front dec c key) ((key, x) ∷ (a ++ b))) one
            (move-middle size c a b key e' r' g))
  ]

  -- A new entry in the node of a key.
  abbrev pub put_entry : FastestIpCache K → K → FastIpCacheEntry → FastestIpCache K
  put_entry c key entry = record c {
    entries = modify dec c.entries key (λ n. record n { entry = entry });
  }

  middle-Distinct :
      (a b : Order K) (key : K) (e e' : FastIpCacheEntry)
      → Distinct (a ++ (key, e) ∷ b)
      → Distinct (a ++ (key, e') ∷ b)
  middle-Distinct [] b key e e' d = d
  middle-Distinct ((k, x) ∷ a) b key e e' d = (same a d.0, middle-Distinct a b key e e' d.1)
    where
      same : (a : Order K) → Absent k (a ++ (key, e) ∷ b) → Absent k (a ++ (key, e') ∷ b)
      same [] h = h
      same (y ∷ a) h = (h.0, same a h.1)

  middle-Absent_any :
      (j : K) (a b : Order K) (key : K) (e e' : FastIpCacheEntry)
      → Absent j (a ++ (key, e') ∷ b)
      → Absent j (a ++ (key, e) ∷ b)
  middle-Absent_any j [] b key e e' h = h
  middle-Absent_any j (y ∷ a) b key e e' h = (h.0, middle-Absent_any j a b key e e' h.1)

  first_or-middle :
      (a b : Order K) (key : K) (e e' : FastIpCacheEntry)
      → first_or none (a ++ (key, e) ∷ b) ≡ first_or none (a ++ (key, e') ∷ b)
  first_or-middle [] b key e e' = refl
  first_or-middle (y ∷ a) b key e e' = refl

  pub put_entry-Represents :
      (size : ℕ) (c : FastestIpCache K) (a b : Order K) (key : K) (e e' : FastIpCacheEntry)
      → Represents dec size c (a ++ (key, e) ∷ b)
      → Represents dec size (put_entry c key e') (a ++ (key, e') ∷ b)
  put_entry-Represents size c a b key e e' r =
      let f = λ (n : FastIpCacheNode K). record n { entry = e' } in
      let (s, t) = Seg-split dec c.entries none none a ((key, e) ∷ b) r.seg in
      record {
        cap = r.cap;
        seg =
            Seg-join dec (modify dec c.entries key f) none none a ((key, e') ∷ b)
              (Seg-modify dec c.entries key f none (some key) a (middle-Absent a key e b r.distinct)
                s)
              ((
                ground (arith, find-modify dec c.entries key f key, t.0),
                Seg-modify dec c.entries key f (some key) none b
                    (Distinct-append_right a ((key, e) ∷ b) r.distinct).0 t.1,
              ));
        head_is = r.head_is ∙ first_or-middle a b key e e';
        tail_is =
            r.tail_is
            ∙ last_or-append none a ((key, e) ∷ b)
            ∙ sym (last_or-append none a ((key, e') ∷ b));
        distinct = middle-Distinct a b key e e' r.distinct;
        others = λ j h. ground (
          arith,
          find-modify dec c.entries key f j,
          r.others j (middle-Absent_any j a b key e e' h),
        );
        count = omega (
          arith,
          length-modify dec c.entries key f,
          r.count,
          length-middle key e a b,
          length-middle key e' a b,
        );
        is_map = modify-IsMap dec c.entries key f r.is_map;
      }
