-- ===== src/IpCache/Detach.antt =====
-- Taking a node out of the chain, and putting one in front of it.
use doh_server.Prelude.{
  ℕ, ◌+◌, ◌≡◌, ◌≢◌, refl, sym, ◌∙◌, subst, [], ◌∷◌, ◌++◌, Option, none, some, length, arith,
}
use doh_server.HashMap.{find, modify, find-modify, length-modify, IsMap, modify-IsMap}
use doh_server.IpCache.{
  FastIpCacheEntry, FastIpCacheNode, FastestIpCache, Entries, modify_at, set_next, set_prev,
  if_none, detach, link_front,
}
use doh_server.IpCache.Segments.{
  Order, first_or, last_or, Absent, AbsentKey, Distinct, Seg, last_or-AbsentKey, middle-Absent,
  Distinct-append_left, Distinct-append_right, Distinct-without, without-Absent, first_or-AbsentKey,
  Seg-modify, Seg-split, Seg-join, Seg-set_next, Seg-set_prev, Seg-modify_at,
}

module _ {K : Type 0} where
  pub last_or-append : (p : Option K) (a b : Order K) → last_or p (a ++ b) ≡ last_or (last_or p a) b
  last_or-append p [] b = refl
  last_or-append p ((k, e) ∷ a) b = last_or-append (some k) a b

  if_none-last_or : (k : K) (a : Order K) (x y : Option K) → if_none (last_or (some k) a) x y ≡ y
  if_none-last_or k [] x y = refl
  if_none-last_or k ((k', e) ∷ a) x y = if_none-last_or k' a x y

  -- The head and the tail without the entry in the middle.
  pub head-without :
      (a b : Order K) (key : K) (e : FastIpCacheEntry)
      → if_none (last_or none a) (first_or none b) (first_or none (a ++ (key, e) ∷ b))
        ≡ first_or none (a ++ b)
  head-without [] b key e = refl
  head-without ((k, e') ∷ a) b key e = if_none-last_or k a _ _

  pub tail-without :
      (a b : Order K) (key : K) (e : FastIpCacheEntry)
      → if_none (first_or none b) (last_or none a) (last_or none (a ++ (key, e) ∷ b))
        ≡ last_or none (a ++ b)
  tail-without a [] key e = sym (last_or-append none a [])
  tail-without a ((k, e') ∷ b) key e =
      last_or-append none a ((key, e) ∷ (k, e') ∷ b) ∙ sym (last_or-append none a ((k, e') ∷ b))

  tail-front :
      (key : K) (l : Order K)
      → if_none (first_or none l) (some key) (last_or none l) ≡ last_or (some key) l
  tail-front key [] = refl
  tail-front key ((k, e) ∷ l) = refl

  AbsentKey-head :
      (o : Option K) (key : K) (e : FastIpCacheEntry) (b : Order K)
      → AbsentKey o ((key, e) ∷ b)
      → AbsentKey o ((key, e) ∷ [])
  AbsentKey-head none key e b h = tt
  AbsentKey-head (some k) key e b h = (h.0, tt)

  pub Absent-middle :
      (j key : K) (e : FastIpCacheEntry) (a b : Order K)
      → j ≢ key
      → Absent j (a ++ b)
      → Absent j (a ++ (key, e) ∷ b)
  Absent-middle j key e [] b h g = (h, g)
  Absent-middle j key e ((k, e') ∷ a) b h g = (g.0, Absent-middle j key e a b h g.1)

  pub length-middle :
      (key : K) (e : FastIpCacheEntry) (a b : Order K)
      → length (a ++ (key, e) ∷ b) ≡ length (a ++ b) + 1
  length-middle key e [] b = omega arith
  length-middle key e (x ∷ a) b = omega (arith, length-middle key e a b)

module _ {K : Type 0} (dec : Discrete K) where
  module _ (m : Entries dec) (o : Option K) (f : FastIpCacheNode K → FastIpCacheNode K) where
    modify_at_none : (j : K) → find dec m j ≡ none → find dec (modify_at dec m o f) j ≡ none
    modify_at_none j h = by_key o
      where
        by_key : (o : Option K) → find dec (modify_at dec m o f) j ≡ none
        by_key none = unfold modify_at in h
        by_key (some k) = unfold modify_at in (ground (arith, find-modify dec m k f j))

    length-modify_at : length (modify_at dec m o f) ≡ length m
    length-modify_at = by_key o
      where
        by_key : (o : Option K) → length (modify_at dec m o f) ≡ length m
        by_key none = unfold modify_at in refl
        by_key (some k) = unfold modify_at in length-modify dec m k f

    modify_at-IsMap : IsMap dec m → IsMap dec (modify_at dec m o f)
    modify_at-IsMap u = by_key o
      where
        by_key : (o : Option K) → IsMap dec (modify_at dec m o f)
        by_key none = unfold modify_at in u
        by_key (some k) = unfold modify_at in modify-IsMap dec m k f u

  -- The cache holds the entries of `l` in their order, the most recent one first.
  pub record Represents (size : ℕ) (c : FastestIpCache K) (l : Order K) : Type 0 where
    pub cap : c.max_size ≡ size
    pub seg : Seg dec c.entries none l none
    pub head_is : c.head ≡ first_or none l
    pub tail_is : c.tail ≡ last_or none l
    pub distinct : Distinct l
    pub others : (j : K) → Absent j l → find dec c.entries j ≡ none
    pub count : length c.entries ≡ length l
    pub is_map : IsMap dec c.entries

  -- The same, with a node of one more key that no other node is linked to.
  pub record Loose (size : ℕ) (c : FastestIpCache K) (key : K) (e : FastIpCacheEntry)
      (nx : Option K) (l : Order K) : Type 0 where
    pub cap : c.max_size ≡ size
    pub seg : Seg dec c.entries none l none
    pub head_is : c.head ≡ first_or none l
    pub tail_is : c.tail ≡ last_or none l
    pub distinct : Distinct l
    pub fresh : Absent key l
    pub node : find dec c.entries key ≡ some (record { entry = e; prev = none; next = nx })
    pub others : (j : K) → j ≢ key → Absent j l → find dec c.entries j ≡ none
    pub count : length c.entries ≡ length l + 1
    pub is_map : IsMap dec c.entries

  pub detach-Loose :
      (size : ℕ) (c : FastestIpCache K) (a b : Order K) (key : K) (e : FastIpCacheEntry)
      → Represents size c (a ++ (key, e) ∷ b)
      → Loose size (detach dec c key (last_or none a) (first_or none b)) key e none (a ++ b)
  unfolding detach
  detach-Loose size c a b key e r =
      let pv = last_or none a in
      let nx = first_or none b in
      let m0 = c.entries in
      let m1 = set_next dec m0 pv nx in
      let m2 = set_prev dec m1 nx pv in
      let tail_part = Distinct-append_right a ((key, e) ∷ b) r.distinct in
      let both = Distinct-without a key e b r.distinct in
      let (s, t) = Seg-split dec m0 none none a ((key, e) ∷ b) r.seg in
      let a1 =
        Seg-set_next dec m0 none (some key) nx a (Distinct-append_left a ((key, e) ∷ b) r.distinct)
          s in
      let behind = last_or-AbsentKey none a ((key, e) ∷ b) r.distinct tt in
      let k1 =
        Seg-modify_at dec m0 pv (λ n. record n { next = nx }) pv nx ((key, e) ∷ [])
          (AbsentKey-head pv key e b behind) ((t.0, tt)) in
      let b1 =
        Seg-modify_at dec m0 pv (λ n. record n { next = nx }) (some key) none b
          (last_or-AbsentKey none a b both tt) t.1 in
      let a2 =
        Seg-modify_at dec m1 nx (λ n. record n { prev = pv }) none nx a
          (first_or-AbsentKey a b both) a1 in
      let k2 =
        Seg-modify_at dec m1 nx (λ n. record n { prev = pv }) pv nx ((key, e) ∷ [])
          (first_or-AbsentKey ((key, e) ∷ []) b tail_part) k1 in
      let b2 = Seg-set_prev dec m1 (some key) pv none b tail_part.1 b1 in
      let clear = λ (n : FastIpCacheNode K). record n { prev = none; next = none } in
      record {
        cap = r.cap;
        seg =
            Seg-join dec (modify dec m2 key clear) none none a b
              (Seg-modify dec m2 key clear none nx a (middle-Absent a key e b r.distinct) a2)
              (Seg-modify dec m2 key clear pv none b tail_part.0 b2);
        head_is =
            subst (λ h. if_none pv nx h ≡ first_or none (a ++ b)) (sym r.head_is)
              (head-without a b key e);
        tail_is =
            subst (λ h. if_none nx pv h ≡ last_or none (a ++ b)) (sym r.tail_is)
              (tail-without a b key e);
        distinct = both;
        fresh = without-Absent a key e b r.distinct;
        node = ground (arith, find-modify dec m2 key clear key, k2.0);
        others = λ j h g. ground (
          arith,
          find-modify dec m2 key clear j,
          modify_at_none m1 nx (λ n. record n { prev = pv }) j
              (modify_at_none m0 pv (λ n. record n { next = nx }) j
                (r.others j (Absent-middle j key e a b h g))),
        );
        count = omega (
          arith,
          length-modify dec m2 key clear,
          length-modify_at m1 nx (λ n. record n { prev = pv }),
          length-modify_at m0 pv (λ n. record n { next = nx }),
          r.count,
          length-middle key e a b,
        );
        is_map = modify-IsMap dec m2 key clear (
            modify_at-IsMap m1 nx (λ n. record n { prev = pv })
              (modify_at-IsMap m0 pv (λ n. record n { next = nx }) r.is_map));
      }

  pub link_front-Represents :
      (size : ℕ) (c : FastestIpCache K) (key : K) (e : FastIpCacheEntry) (l : Order K)
      → Loose size c key e c.head l
      → Represents size (link_front dec c key) ((key, e) ∷ l)
  unfolding link_front
  link_front-Represents size c key e l r =
      let both : Distinct ((key, e) ∷ l) = (r.fresh, r.distinct) in
      let hd = first_or none l in
      let put = λ (n : FastIpCacheNode K). record n { prev = some key } in
      let node =
        subst (λ h. find dec c.entries key ≡ some (record { entry = e; prev = none; next = h }))
          r.head_is r.node in
      let front =
        Seg-modify_at dec c.entries hd put none hd ((key, e) ∷ [])
          (first_or-AbsentKey ((key, e) ∷ []) l both) ((node, tt)) in
      record {
        cap = r.cap;
        seg =
            subst (λ h. Seg dec (set_prev dec c.entries h (some key)) none ((key, e) ∷ l) none)
              (sym r.head_is)
              ((front.0, Seg-set_prev dec c.entries none (some key) none l r.distinct r.seg));
        head_is = refl;
        tail_is =
            subst (λ h. if_none h (some key) c.tail ≡ last_or (some key) l) (sym r.head_is)
              (subst (λ t. if_none hd (some key) t ≡ last_or (some key) l) (sym r.tail_is)
                (tail-front key l));
        distinct = both;
        others = λ j h. modify_at_none c.entries c.head put j (r.others j h.0 h.1);
        count = omega (arith, length-modify_at c.entries c.head put, r.count);
        is_map = modify_at-IsMap c.entries c.head put r.is_map;
      }
