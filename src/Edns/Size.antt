-- ===== src/Edns/Size.antt =====
-- `padded_len` and the sizes that `add_edns_padding` leaves.
use doh_server.Prelude.{
  ℕ, ◌>>=◌, ◌+◌, ◌-◌, ◌≤◌, ◌<◌, ◌≡◌, ◌⊎◌, ◌++◌, refl, inr, List, [], ◌∷◌, All, Option, none, some,
  length, replicate, Ends, Ends-bind, length-append, length-replicate, arith,
}
use doh_server.Bytes.{Bytes, set_u16, write_u16}
use doh_server.Bytes.Laws.{length-set_u16}
use doh_server.Dns.{DnsError, ptype_padding, on, arcount, traverse_rrs_mut, skip_to_additional}
use doh_server.Dns.Records.{
  SameLength, IsAdditional, Kept, VisitedMut, traverse_rrs_mut-Ends, skip_to_additional-Ends,
}
use doh_server.Edns.{
  boundaries, first_boundary, padded_len, find_opt, opt_or_new, padding_option, pad,
  add_edns_padding,
}
use doh_server.Edns.Safety.{Grown, add_edns_section-Ends}

-- The number is the first of the list that is at least `n`.
abbrev pub IsFirst : List ℕ → ℕ → ℕ → Type 0
IsFirst [] n m = ⊥
IsFirst (b ∷ bs) n m = ((n ≤ b) × (m ≡ b)) ⊎ ((b < n) × IsFirst bs n m)

first_boundary-IsFirst :
    (bs : List ℕ) (n : ℕ)
    → IsFirst bs n (first_boundary bs n) ⊎ (All (λ b. b < n) bs × (first_boundary bs n ≡ 4096))
unfolding first_boundary
first_boundary-IsFirst [] n = inr (tt, refl)
first_boundary-IsFirst (b ∷ bs) n = ground (arith, first_boundary-IsFirst bs n)

-- The padded size is the first boundary that the packet fits, or 4096 behind the last one.
pub padded_len_lem :
    (n : ℕ) → IsFirst boundaries n (padded_len n) ⊎ ((4080 < n) × (padded_len n ≡ 4096))
unfolding padded_len
padded_len_lem n = ground (arith, first_boundary-IsFirst boundaries n)

pub le-padded_len : (n : ℕ) → n ≤ 4096 → (n ≤ padded_len n) × (padded_len n ≤ 4096)
le-padded_len n h = ground (arith, padded_len_lem n)

-- The OPT record that was found has its ten bytes behind the name inside the packet.
abbrev pub IsFound : Bytes → Option ℕ → Type 0
IsFound p none = Unit
IsFound p (some e) = e + 10 ≤ length p

find_opt-Ends :
    (p : Bytes) (o : ℕ) (s : Option ℕ)
    → o + 10 ≤ length p
    → IsFound p s
    → Ends (SameLength p) (Kept IsFound p) (find_opt p o s)
unfolding find_opt
find_opt-Ends p o none h i = ground arith
find_opt-Ends p o (some e) h i = ground arith

write_twice :
    (q : Bytes) (k n : ℕ)
    → length q ≡ 4 + n
    → Ends {E = DnsError × Bytes}
        (λ _. ⊥)
        (λ r. length r ≡ 4 + n)
        (do a ← write_u16 q 0 k; write_u16 a 2 n)
write_twice q k n h = ground (arith, length-set_u16 q 0 k, length-set_u16 (set_u16 q 0 k) 2 n)

length-padding_option :
    (n : ℕ) → Ends {E = DnsError × Bytes} (λ _. ⊥) (λ q. length q ≡ 4 + n) (padding_option n)
unfolding padding_option
length-padding_option n =
    write_twice (replicate (4 + n) b'X') ptype_padding n (length-replicate (4 + n) b'X')

length-set_u16-append : (p q : Bytes) (o v : ℕ) → length (set_u16 p o v ++ q) ≡ length p + length q
length-set_u16-append p q o v = omega (arith, length-append (set_u16 p o v) q, length-set_u16 p o v)

-- The padded packet is four bytes longer than its boundary.
abbrev pub Padded : ℕ → Bytes → Type 0
Padded n q = (length q ≡ padded_len n + 4) × (length q ≤ 4096)

pad-Ends :
    (p : Bytes) (e : ℕ)
    → e + 10 ≤ length p
    → length p ≤ 4096
    → Ends (SameLength p) (λ r. Padded (length p) r.0) (pad p e)
unfolding pad
pad-Ends p e h l = grind (
  arith,
  le-padded_len (length p) l,
  length-padding_option (padded_len (length p) - length p),
  length-set_u16-append,
)

opt_or_new-Ends :
    (p : Bytes) (s : Option ℕ)
    → 12 ≤ length p
    → length p ≤ 4096
    → IsFound p s
    → Ends
        (SameLength p)
        (λ r. Grown p r.0 × (length r.0 ≤ 4096) × (r.1 + 10 ≤ length r.0))
        (opt_or_new p s)
unfolding opt_or_new
opt_or_new-Ends p none h l i = ground (arith, add_edns_section-Ends p 4096)
opt_or_new-Ends p (some e) h l i = ground arith

-- Padding never panics, for any packet. A packet that is padded is four bytes longer than the
-- boundary of its size, or of its size with a new OPT record of 11 bytes, and at most 4096 bytes
-- long; a failure leaves its length, or adds the 11 bytes.
pub add_edns_padding-Ends :
    (p : Bytes)
    → Ends
        (λ e. Grown p e.1)
        (λ r. Padded (length p) r.0 ⊎ Padded (length p + 11) r.0)
        (add_edns_padding p)
unfolding add_edns_padding
add_edns_padding-Ends p =
    Ends-bind (λ e. Grown p e.1) (IsAdditional p) _ (on p (skip_to_additional p)) _
      (ground (arith, skip_to_additional-Ends p))
      (λ o b.
        Ends-bind (λ e. Grown p e.1) (λ n. Unit {0}) _ (arcount p) _ (ground arith)
          (λ n _.
            Ends-bind (λ e. Grown p e.1) (VisitedMut IsFound p o) _
              (traverse_rrs_mut find_opt p o n none) _
              (ground (
                arith,
                traverse_rrs_mut-Ends IsFound find_opt find_opt-Ends n p o none (omega arith) b.1
                    tt,
              ))
              (λ r v.
                Ends-bind (λ e. Grown p e.1)
                  (λ w. Grown p w.0 × (length w.0 ≤ 4096) × (w.1 + 10 ≤ length w.0)) _
                  (opt_or_new r.0 r.2) _ (ground (arith, opt_or_new-Ends r.0 r.2))
                  (λ w g. ground (arith, pad-Ends w.0 w.1)))))
