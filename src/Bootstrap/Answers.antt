-- ===== src/Bootstrap/Answers.antt =====
-- What `parse_bootstrap_dns_response` returns: addresses of the family that was asked for.
use doh_server.Prelude.{
  ℕ, zero, suc, ◌+◌, ◌-◌, ◌/◌, ◌%◌, ◌≤◌, ◌<◌, ◌≡◌, ◌++◌, ◌∷◌, [], List, All, length, Ends,
  Ends-bind, arith, ◌>>=◌, map_err, length-append, length-take, length-drop, take, drop, subst, min,
}
use doh_server.Bytes.{Bytes, u16, u32}
use doh_server.Dns.{skip_name}
use doh_server.Dns.Names.{skip_name-Ends}
use doh_server.Errors.{DohError, upstream_issue}
use doh_server.Bootstrap.{
  BootstrapDnsResult, parse_dns_name_lower, more_questions, add_addr, take_answer, take_answers,
  read_sections, parse_bootstrap_dns_response,
}
use doh_server.Bootstrap.Total.{AnyDohError, parse_dns_name_lower-Ends}
use doh_server.Msg.Answers.{IpAddr, v4, v6}
use doh_server.Msg.Names.Total.{IsNext}

-- An IPv4 address of four bytes for a question of type A, an IPv6 address of 16 for type AAAA.
abbrev pub IsOf : ℕ → IpAddr → Type 0
IsOf qtype (v4 b) = (qtype ≡ 1) × (length b ≡ 4)
IsOf qtype (v6 b) = (qtype ≡ 28) × (length b ≡ 16)

-- At most `n` addresses, each of the type that was asked for.
pub record Found (qtype n : ℕ) (r : BootstrapDnsResult) : Type 0 where
  pub of_type : All (IsOf qtype) r.addrs
  pub bounded : length r.addrs ≤ n

Found-suc : (qtype n : ℕ) (r : BootstrapDnsResult) → Found qtype n r → Found qtype (suc n) r
Found-suc qtype n r f = record { of_type = f.of_type; bounded = omega (arith, f.bounded) }

All-snoc :
    (qtype : ℕ) (l : List IpAddr) (ip : IpAddr)
    → All (IsOf qtype) l
    → IsOf qtype ip
    → All (IsOf qtype) (l ++ ip ∷ [])
All-snoc qtype [] ip h i = (i, tt)
All-snoc qtype (x ∷ l) ip h i = (h.0, All-snoc qtype l ip h.1 i)

Found-snoc :
    (qtype n ttl : ℕ) (r : BootstrapDnsResult) (ip : IpAddr)
    → Found qtype n r
    → IsOf qtype ip
    → Found qtype (suc n) (record { addrs = r.addrs ++ ip ∷ []; min_ttl_secs = ttl })
Found-snoc qtype n ttl r ip f i = record {
  of_type = All-snoc qtype r.addrs ip f.of_type i;
  bounded = omega (arith, f.bounded, length-append r.addrs (ip ∷ []));
}

length-slice : (p : Bytes) (o k : ℕ) → o + k ≤ length p → length (take (o + k - o) (drop o p)) ≡ k
length-slice p o k h = omega (arith, length-take (o + k - o) (drop o p), length-drop o p)

abbrev no_addrs : BootstrapDnsResult
no_addrs = record { addrs = []; min_ttl_secs = 4294967295 }

module _ (X : Type 0) where
  more_questions-Ends :
      (n : ℕ) (p : Bytes) (o : ℕ)
      → 0 < length p
      → Ends {E = DohError X} AnyDohError (λ e. Unit {0}) (more_questions n p o)
  unfolding more_questions
  more_questions-Ends zero p o h = tt
  more_questions-Ends (suc n) p o h =
      Ends-bind AnyDohError (λ e. Unit {0}) (λ e. Unit {0})
        (map_err (λ _. upstream_issue) (skip_name p o)) _ (ground (arith, skip_name-Ends p o h))
        (λ e u. ground (arith, more_questions-Ends n p (e + 4) h))

  add_addr-Ends :
      (p : Bytes) (o qtype rdlen ttl n : ℕ) (r : BootstrapDnsResult)
      → o + rdlen ≤ length p
      → Found qtype n r
      → Ends {E = DohError X} AnyDohError (Found qtype (suc n)) (add_addr p o qtype rdlen ttl r)
  unfolding add_addr
  add_addr-Ends p o qtype rdlen ttl n r h f = ground (
    arith,
    Found-suc qtype n r f,
    Found-snoc qtype n (min r.min_ttl_secs ttl) r (v4 (take (o + 4 - o) (drop o p))) f,
    Found-snoc qtype n (min r.min_ttl_secs ttl) r (v6 (take (o + 16 - o) (drop o p))) f,
    length-slice p o 4,
    length-slice p o 16,
  )

  take_answer-Ends :
      (p name : Bytes) (qtype o n : ℕ) (r : BootstrapDnsResult)
      → Found qtype n r
      → Ends {E = DohError X} AnyDohError
          (λ s. Found qtype (suc n) s.1)
          (take_answer p name qtype o r)
  unfolding take_answer
  take_answer-Ends p name qtype o n r f =
      Ends-bind AnyDohError (λ s. IsNext p o s.1) (λ s. Found qtype (suc n) s.1)
        (parse_dns_name_lower p o) _ (parse_dns_name_lower-Ends X p o)
        (λ s b. ground (
          arith,
          Found-suc qtype n r f,
          add_addr-Ends p (s.1 + 10) qtype (u16 p (s.1 + 8)) (u32 p (s.1 + 4)) n r,
        ))

  take_answers-Ends :
      (k : ℕ) (p name : Bytes) (qtype o n : ℕ) (r : BootstrapDnsResult)
      → Found qtype n r
      → Ends {E = DohError X} AnyDohError (Found qtype (k + n)) (take_answers k p name qtype o r)
  unfolding take_answers
  take_answers-Ends zero p name qtype o n r f = subst (λ m. Found qtype m r) (omega arith) f
  take_answers-Ends (suc k) p name qtype o n r f =
      Ends-bind AnyDohError (λ s. Found qtype (suc n) s.1) (Found qtype (suc k + n))
        (take_answer p name qtype o r) _ (take_answer-Ends p name qtype o n r f)
        (λ s g.
          subst
            (λ m.
              Ends {E = DohError X} AnyDohError (Found qtype m)
                (take_answers k p name qtype s.0 s.1))
            (omega arith) (take_answers-Ends k p name qtype s.0 (suc n) s.1 g))

  more_questions-then :
      (p : Bytes) (qtype k an o : ℕ) (name : Bytes)
      → 0 < length p
      → Ends {E = DohError X} AnyDohError
          (Found qtype an)
          (more_questions k p o >>= λ o'. take_answers an p name qtype o' no_addrs)
  more_questions-then p qtype k an o name h =
      Ends-bind {E = DohError X} AnyDohError (λ e. Unit {0}) (Found qtype an) (more_questions k p o)
        _ (more_questions-Ends k p o h)
        (λ o' u.
          subst
            (λ m.
              Ends {E = DohError X} AnyDohError (Found qtype m)
                (take_answers an p name qtype o' no_addrs))
            (omega arith)
            (take_answers-Ends an p name qtype o' 0 no_addrs
              (record { of_type = tt; bounded = omega arith })))

  read_sections-Ends :
      (p : Bytes) (qtype qd an : ℕ)
      → 12 ≤ length p
      → Ends {E = DohError X} AnyDohError (Found qtype an) (read_sections p qtype qd an)
  unfolding read_sections
  read_sections-Ends p qtype qd an h =
      Ends-bind {E = DohError X} AnyDohError (λ s. IsNext p 12 s.1) (Found qtype an)
        (parse_dns_name_lower p 12) _ (parse_dns_name_lower-Ends X p 12)
        (λ s b. ground (arith, more_questions-then p qtype (qd - 1) an (s.1 + 4) s.0 (omega arith)))

  -- Reading a response ends for every packet. Where it returns a result, the packet has the query's
  -- id and is marked as a response, and the result has at most as many addresses as the header has
  -- answers, each of the family that was asked for and of its full length.
  pub parse_bootstrap_dns_response-Ends :
      (p : Bytes) (query_id qtype : ℕ)
      → Ends {E = DohError X} AnyDohError
          (λ r. (u16 p 0 ≡ query_id) × (u16 p 2 / 32768 % 2 ≡ 1) × Found qtype (u16 p 6) r)
          (parse_bootstrap_dns_response p query_id qtype)
  unfolding parse_bootstrap_dns_response
  parse_bootstrap_dns_response-Ends p query_id qtype =
      ground (arith, read_sections-Ends p qtype (u16 p 4) (u16 p 6))
