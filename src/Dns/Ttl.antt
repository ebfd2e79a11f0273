-- ===== src/Dns/Ttl.antt =====
-- `min_ttl` against the list of the packet's records.
use doh_server.Prelude.{
  ℕ, zero, suc, ◌+◌, ◌≤◌, ◌≡◌, refl, subst, List, [], ◌∷◌, length, ok, >>=-eq-ok, Ends, Ends-bind,
  Ends-with, ltb, ◌==◌, if◌then◌else◌, min, max, arith,
}
use doh_server.Bytes.{Bytes, u16, u32}
use doh_server.Dns.{
  type_opt, skip_name, visit_rr, traverse_rrs, skip_question, ancount, nscount, arcount, lower_ttl,
  min_ttl,
}
use doh_server.Dns.Names.{AnyError}
use doh_server.Dns.Records.{IsAdditional, skip_question-Ends, traverse_rrs-Ends}
use doh_server.Dns.Rounds.{VisitOf, visit_rr-VisitOf}

-- The type and the TTL of each of `n` records from an offset on, up to the offset `e`.
pub data Records (p : Bytes) (e : ℕ) : ℕ → ℕ → List (ℕ × ℕ) → Type 0 where
  done : {off n : ℕ} → off ≡ e → n ≡ 0 → Records p e off n []
  record_at :
      {off n o : ℕ} {rs : List (ℕ × ℕ)}
      → skip_name p off ≡ ok o
      → o + 10 ≤ length p
      → Records p e (o + 10 + u16 p (o + 8)) n rs
      → Records p e off (suc n) ((u16 p o, u32 p (o + 4)) ∷ rs)

-- The least TTL of the records that are no OPT records, and of `d`.
abbrev pub lowest : ℕ → List (ℕ × ℕ) → ℕ
lowest d [] = d
lowest d ((t, ttl) ∷ rs) = if t == type_opt then lowest d rs else min ttl (lowest d rs)

lower_ttl-eq :
    (p : Bytes) (o d : ℕ)
    → o + 10 ≤ length p
    → lower_ttl p o d ≡ ok (if u16 p o == type_opt then d else min d (u32 p (o + 4)))
unfolding lower_ttl
lower_ttl-eq p o d h = ground arith

lowest-min : (d t : ℕ) (rs : List (ℕ × ℕ)) → lowest (min d t) rs ≡ min t (lowest d rs)
lowest-min d t [] = omega arith
lowest-min d t ((k, ttl) ∷ rs) = ground (arith, lowest-min d t rs)

module _ (p : Bytes) where
  traverse-lower_ttl :
      (n off d : ℕ) {e t : ℕ}
      → traverse_rrs (lower_ttl p) p off n d ≡ ok (e, t)
      → (rs : List (ℕ × ℕ)) × Records p e off n rs × (t ≡ lowest d rs)
  unfolding traverse_rrs
  traverse-lower_ttl zero off d h = ([], done (ground arith) refl, ground arith)
  traverse-lower_ttl (suc n) off d {e} {t} h =
      let ((off', d'), v, h') = >>=-eq-ok (visit_rr (lower_ttl p) p off d) _ h in
      let v' : VisitOf p off d (lower_ttl p) (off', d') =
        visit_rr-VisitOf p off d (lower_ttl p) (off', d') v in
      let (rs, l, u) = traverse-lower_ttl n off' d' h' in
      (
        (u16 p v'.o, u32 p (v'.o + 4)) ∷ rs,
        record_at v'.name v'.fixed (subst (λ k. Records p e k n rs) v'.next l),
        ground (arith, lower_ttl-eq p v'.o d v'.fixed, lowest-min d (u32 p (v'.o + 4)) rs),
      )

lowest-bounds : (d : ℕ) (rs : List (ℕ × ℕ)) → lowest d rs ≤ d
lowest-bounds d [] = omega arith
lowest-bounds d ((k, ttl) ∷ rs) = ground (arith, lowest-bounds d rs)

-- The number of records that the header announces.
abbrev pub rrcount : Bytes → ℕ
rrcount p = u16 p 6 + u16 p 8 + u16 p 10

-- What `min_ttl` starts from.
abbrev pub start_ttl : Bytes → ℕ → ℕ → ℕ
start_ttl p most failure_ttl = if ltb 0 (rrcount p) then most else failure_ttl

-- The records behind the question fill the packet, and `t` is their least TTL, raised to `least`.
abbrev pub IsMinTtl : Bytes → ℕ → ℕ → ℕ → ℕ → Type 0
IsMinTtl p least most failure_ttl t =
    (off : ℕ) × (rs : List (ℕ × ℕ)) × (skip_question 5 p ≡ ok off)
    × Records p (length p) off (rrcount p) rs
    × (t ≡ max least (lowest (start_ttl p most failure_ttl) rs))

min_ttl-IsMinTtl :
    (p : Bytes) (least most failure_ttl : ℕ) {t : ℕ}
    → min_ttl p least most failure_ttl ≡ ok t
    → IsMinTtl p least most failure_ttl t
unfolding min_ttl
min_ttl-IsMinTtl p least most failure_ttl {t} h =
    let (off, a, h1) = >>=-eq-ok (skip_question 5 p) _ h in
    let (an, b, h2) = >>=-eq-ok (ancount p) _ h1 in
    let (ns, c, h3) = >>=-eq-ok (nscount p) _ h2 in
    let (ar, d, h4) = >>=-eq-ok (arcount p) _ h3 in
    let ((e, found), walk, h5) =
      >>=-eq-ok (traverse_rrs (lower_ttl p) p off (an + ns + ar) _) _ h4 in
    let count : an + ns + ar ≡ rrcount p = ground arith in
    let (rs, r, u) = traverse-lower_ttl p (an + ns + ar) off _ walk in
    let full : e ≡ length p = ground arith in
    (
      off,
      rs,
      a,
      subst (λ k. Records p k off (rrcount p) rs) full (subst (λ k. Records p e off k rs) count r),
      ground arith,
    )

lower_ttl-Ends :
    (p : Bytes) (o d : ℕ) → o + 10 ≤ length p → Ends AnyError (λ _. Unit {0}) (lower_ttl p o d)
lower_ttl-Ends p o d h = rw (lower_ttl-eq p o d h) tt

min_ttl-returns :
    (p : Bytes) (least most failure_ttl : ℕ)
    → Ends AnyError (λ _. Unit {0}) (min_ttl p least most failure_ttl)
unfolding min_ttl
min_ttl-returns p least most failure_ttl =
    Ends-bind AnyError (IsAdditional p) _ (skip_question 5 p) _
      (skip_question-Ends 5 p (omega arith))
      (λ o b. ground (
        arith,
        traverse_rrs-Ends (λ _. Unit {0}) (lower_ttl p) p (λ k s h _. lower_ttl-Ends p k s h)
            (omega arith) (u16 p 6 + u16 p 8 + u16 p 10) o (start_ttl p most failure_ttl) b.1 tt,
      ))

-- `min_ttl` never panics. A TTL that it returns is the least TTL of the packet's records that are no
-- OPT records, at most the configured greatest TTL (or the error TTL where there is no record),
-- then raised to the configured least TTL; and those records fill the packet.
pub min_ttl-Ends :
    (p : Bytes) (least most failure_ttl : ℕ)
    → Ends AnyError (IsMinTtl p least most failure_ttl) (min_ttl p least most failure_ttl)
min_ttl-Ends p least most failure_ttl =
    Ends-with AnyError (λ _. Unit {0}) _ (min_ttl p least most failure_ttl)
      (min_ttl-returns p least most failure_ttl)
      (λ t h. min_ttl-IsMinTtl p least most failure_ttl h)
