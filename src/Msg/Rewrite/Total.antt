-- ===== src/Msg/Rewrite/Total.antt =====
-- The rewrite of a packet's answers returns for every packet, and keeps the packet's length.
use doh_server.Prelude.{
  ℕ, zero, suc, ◌+◌, ◌≤◌, ◌≡◌, refl, ◌∙◌, [], ◌∷◌, length, set, length-set, Ends, Ends-bind,
  Bool-cases, inl, inr, if◌then◌else◌, ◌==◌, arith,
}
use doh_server.Bytes.{Bytes, u16}
use doh_server.RrType
use doh_server.Msg.{dns_class_in}
use doh_server.Msg.Names.{skip_wire}
use doh_server.Msg.Names.Total.{IsNext, skip_wire-Ends}
use doh_server.Msg.Codec.Total.{AnyMsgError}
use doh_server.Msg.Answers.{IpAddr, v4, v6, IsIp, Holding, a_record, aaaa_record, other, holding}
use doh_server.Msg.Rewrite.{
  overwrite, put_ip, skip_questions, rewrite_answer, rewrite_answers, skip_rr, skip_rrs,
  rewrite_sections, rewrite_answer_ips_in_packet,
}

pub length-overwrite : (p : Bytes) (a : ℕ) (w : Bytes) → length (overwrite p a w) ≡ length p
unfolding overwrite
length-overwrite p a [] = refl
length-overwrite p a (x ∷ w) = length-overwrite (set p a x) (a + 1) w ∙ length-set p a x

-- The length of data of a record that holds an address.
abbrev pub Fits : Holding → ℕ → Type 0
Fits a_record n = n ≡ 4
Fits aaaa_record n = n ≡ 16
Fits other n = Unit

holding-Fits : (t : RrType.RrType) (n : ℕ) → Fits (holding t n) n
unfolding holding
holding-Fits RrType.a n = ground arith
holding-Fits RrType.aaaa n = ground arith
holding-Fits _ n = tt

put_ip-Ends :
    (p : Bytes) (a : ℕ) (k : Holding) (n : ℕ) (ip : IpAddr)
    → IsIp ip
    → Fits k n
    → a + n ≤ length p
    → Ends AnyMsgError (λ q. length q ≡ length p) (put_ip p a k ip)
unfolding put_ip
put_ip-Ends p a a_record n (v4 ip) h f l = ground (arith, length-overwrite p a ip)
put_ip-Ends p a a_record n (v6 ip) h f l = refl
put_ip-Ends p a aaaa_record n (v4 ip) h f l = refl
put_ip-Ends p a aaaa_record n (v6 ip) h f l = ground (arith, length-overwrite p a ip)
put_ip-Ends p a other n ip h f l = refl

-- The kind of record that a rewrite finds from the type's code, the class and the length.
abbrev pub kind : ℕ → ℕ → ℕ → Holding
kind code class n = if class == dns_class_in then holding (RrType.from_u16 code) n else other

pub kind-Fits : (code class n : ℕ) → Fits (kind code class n) n
kind-Fits code class n = elim (Bool-cases (class == dns_class_in)) [
  | inl e ↦ rw e (holding-Fits (RrType.from_u16 code) n)
  | inr e ↦ rw e tt
]

abbrev Stays : Bytes → Bytes × ℕ → Type 0
Stays p r = (length r.0 ≡ length p) × (r.1 ≤ length p)

skip_questions-Ends :
    (p : Bytes) (n o : ℕ)
    → o ≤ length p
    → Ends AnyMsgError (λ e. e ≤ length p) (skip_questions p n o)
unfolding skip_questions
skip_questions-Ends p zero o h = h
skip_questions-Ends p (suc n) o h =
    Ends-bind AnyMsgError (IsNext p o) (λ e. e ≤ length p) (skip_wire p o) _ (skip_wire-Ends p o)
      (λ e b. ground (arith, skip_questions-Ends p n (e + 4)))

rewrite_answer-Ends :
    (p : Bytes) (o : ℕ) (ip : IpAddr) → IsIp ip → Ends AnyMsgError (Stays p) (rewrite_answer p o ip)
unfolding rewrite_answer
rewrite_answer-Ends p o ip h =
    Ends-bind AnyMsgError (IsNext p o) (Stays p) (skip_wire p o) _ (skip_wire-Ends p o) (λ e b.
      let k = kind (u16 p e) (u16 p (e + 2)) (u16 p (e + 8)) in
      let f = kind-Fits (u16 p e) (u16 p (e + 2)) (u16 p (e + 8)) in
      ground (arith, put_ip-Ends p (e + 10) k (u16 p (e + 8)) ip h f))

rewrite_answers-Ends :
    (n : ℕ) (p : Bytes) (o : ℕ) (ip : IpAddr)
    → IsIp ip
    → o ≤ length p
    → Ends AnyMsgError (Stays p) (rewrite_answers p n o ip)
unfolding rewrite_answers
rewrite_answers-Ends zero p o ip h l = (refl, l)
rewrite_answers-Ends (suc n) p o ip h l =
    Ends-bind AnyMsgError (Stays p) (Stays p) (rewrite_answer p o ip) _
      (rewrite_answer-Ends p o ip h) (λ r b. ground (arith, rewrite_answers-Ends n r.0 r.1 ip h))

skip_rr-Ends : (p : Bytes) (o : ℕ) → Ends AnyMsgError (λ e. e ≤ length p) (skip_rr p o)
unfolding skip_rr
skip_rr-Ends p o = ground (arith, skip_wire-Ends p o)

skip_rrs-Ends :
    (p : Bytes) (n o : ℕ) → o ≤ length p → Ends AnyMsgError (λ e. e ≤ length p) (skip_rrs p n o)
unfolding skip_rrs
skip_rrs-Ends p zero o h = h
skip_rrs-Ends p (suc n) o h =
    Ends-bind AnyMsgError (λ e. e ≤ length p) (λ e. e ≤ length p) (skip_rr p o) _ (skip_rr-Ends p o)
      (λ e b. skip_rrs-Ends p n e b)

rewrite_sections-Ends :
    (p : Bytes) (qd an rest : ℕ) (ip : IpAddr)
    → IsIp ip
    → 12 ≤ length p
    → Ends AnyMsgError (λ q. length q ≡ length p) (rewrite_sections p qd an rest ip)
unfolding rewrite_sections
rewrite_sections-Ends p qd an rest ip h l =
    Ends-bind AnyMsgError (λ e. e ≤ length p) _ (skip_questions p qd 12) _
      (skip_questions-Ends p qd 12 l)
      (λ o b.
        Ends-bind AnyMsgError (Stays p) _ (rewrite_answers p an o ip) _
          (rewrite_answers-Ends an p o ip h b) (λ r c. ground (arith, skip_rrs-Ends r.0 rest r.1)))

-- Rewriting the answers of a packet in place ends for every packet and keeps its length.
pub rewrite_answer_ips_in_packet-Ends :
    (p : Bytes) (ip : IpAddr)
    → IsIp ip
    → Ends AnyMsgError (λ q. length q ≡ length p) (rewrite_answer_ips_in_packet p ip)
unfolding rewrite_answer_ips_in_packet
rewrite_answer_ips_in_packet-Ends p ip h =
    ground (arith, rewrite_sections-Ends p (u16 p 4) (u16 p 6) (u16 p 8 + u16 p 10) ip h)
