-- ===== src/Edns/Safety.antt =====
-- The edits of the OPT record return for every packet, and change its length as stated.
use doh_server.Prelude.{
  ℕ, ◌+◌, ◌≤◌, ◌≡◌, ◌⊎◌, ◌++◌, Bool, false, length, Ends, Ends-bind, length-append, arith,
}
use doh_server.Bytes.{Bytes, u16}
use doh_server.Bytes.Laws.{length-set_u16}
use doh_server.Dns.{on, arcount, arcount_inc, traverse_rrs_mut, skip_to_additional}
use doh_server.Dns.Records.{
  SameLength, IsAdditional, Kept, VisitedMut, traverse_rrs_mut-Ends, skip_to_additional-Ends,
}
use doh_server.Edns.{opt_rr, add_edns_section, set_payload, set_edns_max_payload_size}

-- The packet has its old length, or one OPT record of 11 bytes more and at most 4096 bytes.
abbrev pub Grown : Bytes → Bytes → Type 0
Grown p q = (length q ≡ length p) ⊎ ((length q ≡ length p + 11) × (length q ≤ 4096))

set_payload-Ends :
    (payload : ℕ) (p : Bytes) (o : ℕ) (s : Bool)
    → o + 10 ≤ length p
    → Unit {0}
    → Ends (SameLength p) (Kept (λ _ _. Unit) p) (set_payload payload p o s)
unfolding set_payload
set_payload-Ends payload p o s h _ = ground (arith, length-set_u16 p (o + 2) payload)

arcount_inc-Ends :
    (p : Bytes) → 12 ≤ length p → Ends (λ _. Unit) (λ q. length q ≡ length p) (arcount_inc p)
unfolding arcount_inc
arcount_inc-Ends p h = ground (arith, length-set_u16 p 10 (u16 p 10 + 1))

length-opt_rr : (p : Bytes) (n : ℕ) → length (p ++ opt_rr n) ≡ length p + 11
unfolding opt_rr
length-opt_rr p n = length-append p (opt_rr n)

-- A section that is added is 11 bytes; an error leaves the length.
pub add_edns_section-Ends :
    (p : Bytes) (payload : ℕ)
    → 12 ≤ length p
    → length p ≤ 4096
    → Ends
        (SameLength p)
        (λ r. (length r.0 ≡ length p + 11) × (length r.0 ≤ 4096))
        (add_edns_section p payload)
unfolding add_edns_section
add_edns_section-Ends p payload h l = grind (arith, arcount_inc-Ends p h, length-opt_rr)

-- Setting the payload size never panics, for any packet and size. It keeps the length, or adds an
-- OPT record of 11 bytes within 4096 bytes, and an error keeps the length.
pub set_edns_max_payload_size-Ends :
    (p : Bytes) (payload : ℕ)
    → Ends (SameLength p) (λ r. Grown p r.0) (set_edns_max_payload_size p payload)
unfolding set_edns_max_payload_size
set_edns_max_payload_size-Ends p payload =
    Ends-bind (SameLength p) (IsAdditional p) (λ r. Grown p r.0) (on p (skip_to_additional p)) _
      (ground (arith, skip_to_additional-Ends p))
      (λ o b.
        Ends-bind (SameLength p) (λ n. Unit {0}) (λ r. Grown p r.0) (arcount p) _ (ground arith)
          (λ n _.
            Ends-bind (SameLength p) (VisitedMut (λ _ _. Unit) p o) (λ r. Grown p r.0)
              (traverse_rrs_mut (set_payload payload) p o n false) _
              (traverse_rrs_mut-Ends (λ _ _. Unit) (set_payload payload) (set_payload-Ends payload)
                n p o false (omega arith) b.1 tt)
              (λ r v. ground (arith, add_edns_section-Ends r.0 payload))))
