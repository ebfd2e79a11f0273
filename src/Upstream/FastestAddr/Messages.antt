-- ===== src/Upstream/FastestAddr/Messages.antt =====
-- The replies of `exchange_fastest_addr` and the choice among them.
use doh_server.Prelude.{
  ℕ, ◌≤◌, ◌≡◌, sym, ap, ◌∙◌, subst, ◌⊎◌, inl, inr, refl, Bool, true, false, Bool-cases, List, [],
  ◌∷◌, length, All, All-append, Outcome, ok, err, panic, out_of_fuel, ◌>>=◌, Ends, ◌==◌, arith,
}
use doh_server.Bytes.{Bytes}
use doh_server.RrType.{RrType}
use doh_server.Msg.{MsgError, dns_class_in, ResourceRecord, Msg}
use doh_server.Msg.Codec.{unpack}
use doh_server.Msg.Answers.{IpAddr, IsIp, holding, holding_of, ip_of, ips_of, answer_ips}
use doh_server.Msg.Rewrite.{
  validate_packet, extract_answer_ips, contains_answer_ip_in_packet, rewrite_answer_ips_in_packet,
}
use doh_server.Msg.Rewrite.Validated.{rewrite-of-unpack}
use doh_server.Upstream.{Reply, got}
use doh_server.Upstream.FastestAddr.{
  is_unspecified, specified, reply_ips, filter_response_answer, choose, or_first,
}

-- The addresses in the answers have their lengths.
ip_of-IsIp : (t : RrType) (b : Bytes) → All IsIp (ip_of (holding t (length b)) b)
unfolding holding
ip_of-IsIp RrType.a b = ground arith
ip_of-IsIp RrType.aaaa b = ground arith
ip_of-IsIp _ b = tt

ips_of-IsIp : (rrs : List ResourceRecord) → All IsIp (ips_of rrs)
unfolding ips_of
ips_of-IsIp [] = tt
ips_of-IsIp (rr ∷ rrs) =
    All-append IsIp (ip_of (holding_of rr) rr.rdata) (ips_of rrs)
      (elim (Bool-cases (rr.rr_class == dns_class_in)) [
        | inl in_class ↦ rw in_class (ip_of-IsIp rr.rr_type rr.rdata)
        | inr foreign ↦ rw foreign tt
      ])
      (ips_of-IsIp rrs)

extract_answer_ips-IsIp : (p : Bytes) → All IsIp (extract_answer_ips p)
unfolding extract_answer_ips answer_ips
extract_answer_ips-IsIp p =
    elim (unpack p) as (λ r. All IsIp (elim r [ ok m ↦ answer_ips m | _ ↦ [] ])) [
      | ok m ↦ ips_of-IsIp m.answers
      | err e ↦ tt
      | panic ↦ tt
      | out_of_fuel ↦ tt
    ]

specified-IsIp : (ips : List IpAddr) → All IsIp ips → All IsIp (specified ips)
specified-IsIp [] h = tt
specified-IsIp (ip ∷ ips) h = elim (Bool-cases (is_unspecified ip)) [
  | inl is ↦ rw is (specified-IsIp ips h.1)
  | inr other ↦ rw other ((h.0, specified-IsIp ips h.1))
]

pub reply_ips-IsIp : (replies : List Bytes) → All IsIp (reply_ips replies)
unfolding reply_ips
reply_ips-IsIp [] = tt
reply_ips-IsIp (p ∷ replies) =
    All-append IsIp (specified (extract_answer_ips p)) (reply_ips replies)
      (specified-IsIp (extract_answer_ips p) (extract_answer_ips-IsIp p)) (reply_ips-IsIp replies)

-- A packet that `checked` lets through is a DNS message.
abbrev pub IsMessage : Bytes → Type 0
IsMessage p = (m : Msg) × (unpack p ≡ ok m)

pub validate_packet-IsMessage : (p : Bytes) → validate_packet p ≡ true → IsMessage p
unfolding validate_packet
validate_packet-IsMessage p h =
    (elim (unpack p) as (λ r. elim r [ ok m ↦ true | _ ↦ false ] ≡ true → (m : Msg) × (r ≡ ok m)) [
      | ok m ↦ λ _. (m, refl)
      | err e ↦ λ f. cc
      | panic ↦ λ f. cc
      | out_of_fuel ↦ λ f. cc
    ])
      h

-- The packet stands in the list.
abbrev pub Stands : Bytes → List Bytes → Type 0
Stands p [] = ⊥
Stands p (q ∷ qs) = (q ≡ p) ⊎ Stands p qs

-- What is returned of some replies: the first one, or one with the address and its answers replaced
-- by it.
pub data Chosen (replies : List Bytes) (q : Bytes) : Type 0 where
  the_first : (rest : List Bytes) → replies ≡ q ∷ rest → Chosen replies q
  rewritten :
      (reply : Bytes) (ip : IpAddr)
      → Stands reply replies
      → IsIp ip
      → contains_answer_ip_in_packet reply ip ≡ true
      → rewrite_answer_ips_in_packet reply ip ≡ ok q
      → Chosen replies q

pub unpack-length : (p : Bytes) (m : Msg) → unpack p ≡ ok m → 12 ≤ length p
unfolding unpack
unpack-length p m h = ground arith

Stands-IsMessage : (ps : List Bytes) (p : Bytes) → All IsMessage ps → Stands p ps → IsMessage p
Stands-IsMessage [] p m s = absurd s
Stands-IsMessage (q ∷ ps) p m (inl e) = subst IsMessage e m.0
Stands-IsMessage (q ∷ ps) p m (inr s) = Stands-IsMessage ps p m.1 s

abbrev returned_size : Outcome MsgError Bytes → ℕ
returned_size (ok p) = length p
returned_size _ = 0

-- What is chosen of DNS messages has a header.
pub Chosen-length : (ps : List Bytes) (q : Bytes) → All IsMessage ps → Chosen ps q → 12 ≤ length q
Chosen-length ps q m (the_first rest e) =
    let (n, h) = (subst (All IsMessage) e m).0 in unpack-length q n h
Chosen-length ps q m (rewritten reply ip s fits c r) =
    let (n, h) = Stands-IsMessage ps reply m s in
    let (q', runs, size) = rewrite-of-unpack ip fits reply n h in
    omega (arith, ap returned_size (sym runs ∙ r), size, unpack-length reply n h)

module _ (X : Type 0) where
  filter-IsMessage :
      (reply : Bytes) (ip : IpAddr)
      → IsIp ip
      → IsMessage reply
      → (q : Bytes) × (filter_response_answer {X = X} reply ip ≡ ok (got q))
        × (rewrite_answer_ips_in_packet reply ip ≡ ok q)
  unfolding filter_response_answer
  filter-IsMessage reply ip fits (m, h) =
      let (q, runs, size) = rewrite-of-unpack ip fits reply m h in
      (q, rw (runs, filter_response_answer) refl, runs)

  -- The choice and the rewrite of a list of messages end, in one of them or the first one.
  pub choose-Ends :
      (all replies : List Bytes) (first : Bytes) (rest : List Bytes) (fastest : IpAddr)
      → all ≡ first ∷ rest
      → IsIp fastest
      → All IsMessage replies
      → ((p : Bytes) → Stands p replies → Stands p all)
      → Ends
          (λ _. ⊥)
          (λ (r : Reply X). (q : Bytes) × (r ≡ got q) × Chosen all q)
          (choose replies first fastest)
  unfolding choose
  choose-Ends all [] first rest fastest e fits m within = (first, refl, the_first rest e)
  choose-Ends all (reply ∷ replies) first rest fastest e fits m within =
      by_contained (contains_answer_ip_in_packet reply fastest) refl
        (choose-Ends all replies first rest fastest e fits m.1 (λ p s. within p (inr s)))
    where
      by_contained :
          (b : Bool)
          → contains_answer_ip_in_packet reply fastest ≡ b
          → Ends
              (λ _. ⊥)
              (λ (r : Reply X). (q : Bytes) × (r ≡ got q) × Chosen all q)
              (choose replies first fastest)
          → Ends
              (λ _. ⊥)
              (λ (r : Reply X). (q : Bytes) × (r ≡ got q) × Chosen all q)
              (elim b [
                | true ↦ do
                  filtered ← filter_response_answer reply fastest
                  ok (or_first first filtered)
                | false ↦ choose replies first fastest
              ])
      by_contained true h k =
          let (q, filtered, runs) = filter-IsMessage reply fastest fits m.0 in
          rw filtered ((q, refl, rewritten reply fastest (within reply (inl refl)) fits h runs))
      by_contained false h k = k
