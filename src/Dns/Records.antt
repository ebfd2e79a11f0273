-- ===== src/Dns/Records.antt =====
-- The traversals of a run of resource records: they return, they stay inside the packet, and they
-- keep what the callback keeps.
use doh_server.Prelude.{
  ℕ, zero, suc, ◌+◌, ◌≤◌, ◌<◌, ◌≡◌, refl, length, Outcome, Ends, Ends-bind, arith,
}
use doh_server.Bytes.{Bytes, u16}
use doh_server.Dns.{
  DnsError, on, skip_name, visit_rr, visit_rr_mut, traverse_rrs, traverse_rrs_mut, skip_question,
  skip_to_additional, ignore,
}
use doh_server.Dns.Names.{AnyError, IsBehind, skip_name-Ends}

module _ {S : Type 0} (I : S → Type 0) (cb : ℕ → S → Outcome DnsError S) (p : Bytes) where
  -- The new offset and state of a round or of a whole traversal from `off`.
  abbrev pub Visited : ℕ → ℕ × S → Type 0
  Visited off r = (off ≤ r.0) × (r.0 ≤ length p) × I r.1

  module _ (keep : (o : ℕ) (s : S) → o + 10 ≤ length p → I s → Ends AnyError I (cb o s))
      (nonempty : 0 < length p) where
    visit_rr-Ends : (off : ℕ) (s : S) → I s → Ends AnyError (Visited off) (visit_rr cb p off s)
    unfolding visit_rr
    visit_rr-Ends off s i =
        Ends-bind AnyError (IsBehind p off) (Visited off) (skip_name p off) _
          (skip_name-Ends p off nonempty) (λ o b. ground (arith, keep o s))

    pub traverse_rrs-Ends :
        (n off : ℕ) (s : S)
        → off ≤ length p
        → I s
        → Ends AnyError (Visited off) (traverse_rrs cb p off n s)
    unfolding traverse_rrs
    traverse_rrs-Ends zero off s h i = (omega arith, h, i)
    traverse_rrs-Ends (suc n) off s h i =
        Ends-bind AnyError (Visited off) (Visited off) (visit_rr cb p off s) _
          (visit_rr-Ends off s i) (λ r v. ground (arith, traverse_rrs-Ends n r.0 r.1 v.1 v.2))

module _ {S : Type 0} (I : Bytes → S → Type 0) where
  -- The packet keeps its length, and the callback's invariant holds of it and the state.
  abbrev pub Kept : Bytes → Bytes × S → Type 0
  Kept p r = (length r.0 ≡ length p) × I r.0 r.1

  abbrev pub VisitedMut : Bytes → ℕ → Bytes × ℕ × S → Type 0
  VisitedMut p off r = (length r.0 ≡ length p) × (off ≤ r.1) × (r.1 ≤ length p) × I r.0 r.2

abbrev pub SameLength : Bytes → DnsError × Bytes → Type 0
SameLength p e = length e.1 ≡ length p

module _ {S : Type 0} (I : Bytes → S → Type 0)
    (cb : Bytes → ℕ → S → Outcome (DnsError × Bytes) (Bytes × S))
    (keep : (p : Bytes) (o : ℕ) (s : S)
      → o + 10 ≤ length p
      → I p s
      → Ends (SameLength p) (Kept I p) (cb p o s)) where
  pub visit_rr_mut-Ends :
      (p : Bytes) (off : ℕ) (s : S)
      → 0 < length p
      → I p s
      → Ends (SameLength p) (VisitedMut I p off) (visit_rr_mut cb p off s)
  unfolding visit_rr_mut
  visit_rr_mut-Ends p off s z i =
      Ends-bind (SameLength p) (IsBehind p off) (VisitedMut I p off) (on p (skip_name p off)) _
        (ground (arith, skip_name-Ends p off)) (λ o b. ground (arith, keep p o s))

  pub traverse_rrs_mut-Ends :
      (n : ℕ) (p : Bytes) (off : ℕ) (s : S)
      → 0 < length p
      → off ≤ length p
      → I p s
      → Ends (SameLength p) (VisitedMut I p off) (traverse_rrs_mut cb p off n s)
  unfolding traverse_rrs_mut
  traverse_rrs_mut-Ends zero p off s z h i = (refl, omega arith, h, i)
  traverse_rrs_mut-Ends (suc n) p off s z h i =
      Ends-bind (SameLength p) (VisitedMut I p off) (VisitedMut I p off) (visit_rr_mut cb p off s) _
        (visit_rr_mut-Ends p off s z i) (λ r v. ground (arith, traverse_rrs_mut-Ends n r.0 r.1 r.2))

-- An offset behind the header, in a packet of at most 4096 bytes.
abbrev pub IsAdditional : Bytes → ℕ → Type 0
IsAdditional p o = (12 < o) × (o ≤ length p) × (length p ≤ 4096)

-- The first checks leave an offset behind the question.
pub skip_question-Ends :
    (least : ℕ) (p : Bytes) → 4 ≤ least → Ends AnyError (IsAdditional p) (skip_question least p)
unfolding skip_question
skip_question-Ends least p h = ground (arith, skip_name-Ends p 12)

-- The callback that ignores the records cannot fail, nor can the traversal panic.
pub traverse-ignore-Ends :
    (p : Bytes) (n off : ℕ)
    → 0 < length p
    → off ≤ length p
    → Ends AnyError
        (λ r. (off ≤ r.0) × (r.0 ≤ length p) × Unit {0})
        (traverse_rrs ignore p off n tt)
traverse-ignore-Ends p n off z h =
    traverse_rrs-Ends (λ _. Unit) ignore p (λ o s _ _. tt) z n off tt h tt

pub skip_to_additional-Ends : (p : Bytes) → Ends AnyError (IsAdditional p) (skip_to_additional p)
unfolding skip_to_additional
skip_to_additional-Ends p =
    Ends-bind AnyError (IsAdditional p) _ (skip_question 4 p) _
      (skip_question-Ends 4 p (omega arith))
      (λ o b. ground (arith, traverse-ignore-Ends p (u16 p 6 + u16 p 8) o))
