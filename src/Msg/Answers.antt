-- ===== src/Msg/Answers.antt =====
-- The addresses in the answers of a decoded message, and their replacement.
use mathlib.Core.Path.{ap₂}
use mathlib.Core.List.{map-append}
use doh_server.Prelude.{
  ℕ, ◌≡◌, ◌↔◌, ◌⊎◌, refl, sym, ap, ◌∙◌, Bool, true, false, ◌&&◌, ◌||◌, Bool-cases, inl, inr, List,
  [], ◌∷◌, ◌++◌, Option, none, some, map, length, ◌==◌, if◌then◌else◌, arith,
}
use doh_server.Bytes.{Bytes}
use doh_server.RrType.{RrType}
use doh_server.Msg.{dns_class_in, ResourceRecord, Msg}

-- `std::net::IpAddr` by its octets, 4 or 16 of them.
pub data IpAddr : Type 0 where
  v4 : Bytes → IpAddr
  v6 : Bytes → IpAddr

abbrev pub octets : IpAddr → Bytes
octets (v4 b) = b
octets (v6 b) = b

abbrev pub IsIp : IpAddr → Type 0
IsIp (v4 b) = length b ≡ 4
IsIp (v6 b) = length b ≡ 16

-- `==` of byte slices.
unfoldable pub same_bytes : Bytes → Bytes → Bool
same_bytes [] [] = true
same_bytes (x ∷ xs) (y ∷ ys) = x == y && same_bytes xs ys
same_bytes _ _ = false

-- What a record of a type with so much data holds: the arms `RrType::A if len == 4` and
-- `RrType::AAAA if len == 16` of the functions below.
pub data Holding : Type 0 where
  a_record aaaa_record other : Holding

unfoldable pub holding : RrType → ℕ → Holding
holding RrType.a n = if n == 4 then a_record else other
holding RrType.aaaa n = if n == 16 then aaaa_record else other
holding _ n = other

-- The holding of an answer, by its class, type and length of data.
abbrev pub holding_of : ResourceRecord → Holding
holding_of rr = if rr.rr_class == dns_class_in then holding rr.rr_type (length rr.rdata) else other

abbrev pub ip_of : Holding → Bytes → List IpAddr
ip_of a_record b = v4 b ∷ []
ip_of aaaa_record b = v6 b ∷ []
ip_of other b = []

unfoldable pub ips_of : List ResourceRecord → List IpAddr
ips_of [] = []
ips_of (rr ∷ rrs) = ip_of (holding_of rr) rr.rdata ++ ips_of rrs

unfoldable pub answer_ips : Msg → List IpAddr
answer_ips m = ips_of m.answers

abbrev pub is_ip : Holding → Bytes → IpAddr → Bool
is_ip a_record b (v4 ip) = same_bytes b ip
is_ip aaaa_record b (v6 ip) = same_bytes b ip
is_ip _ b ip = false

unfoldable pub any_ip : List ResourceRecord → IpAddr → Bool
any_ip [] ip = false
any_ip (rr ∷ rrs) ip = is_ip (holding_of rr) rr.rdata ip || any_ip rrs ip

unfoldable pub contains_answer_ip : Msg → IpAddr → Bool
contains_answer_ip m ip = any_ip m.answers ip

-- The data of a record with the selected address in the place of one of its family.
abbrev pub new_rdata : Holding → Bytes → IpAddr → Bytes
new_rdata a_record b (v4 ip) = ip
new_rdata aaaa_record b (v6 ip) = ip
new_rdata _ b ip = b

unfoldable pub rewrite_rrs : List ResourceRecord → IpAddr → List ResourceRecord
rewrite_rrs [] ip = []
rewrite_rrs (rr ∷ rrs) ip =
    record rr { rdata = new_rdata (holding_of rr) rr.rdata ip } ∷ rewrite_rrs rrs ip

unfoldable pub rewrite_answer_ips : Msg → IpAddr → Msg
rewrite_answer_ips m ip = record m { answers = rewrite_rrs m.answers ip }

-- `Msg::qtype`
abbrev pub first_qtype : Msg → Option RrType
first_qtype m = elim (m.questions) [ [] ↦ none | q ∷ _ ↦ some q.qtype ]

pub same_bytes_iff : (b c : Bytes) → (same_bytes b c ≡ true) ↔ (b ≡ c)
unfolding same_bytes
same_bytes_iff [] [] = (λ _. refl, λ _. refl)
same_bytes_iff [] (y ∷ ys) = (λ h. cc, λ h. cc)
same_bytes_iff (x ∷ xs) [] = (λ h. cc, λ h. cc)
same_bytes_iff (x ∷ xs) (y ∷ ys) =
    (λ h. ground (arith, same_bytes_iff xs ys), λ h. ground (arith, same_bytes_iff xs ys))

-- The address stands in the list.
abbrev pub Among : IpAddr → List IpAddr → Type 0
Among ip [] = ⊥
Among ip (j ∷ js) = (j ≡ ip) ⊎ Among ip js

-- The selected address in the place of an address of its family.
abbrev pub replaced : IpAddr → IpAddr → IpAddr
replaced (v4 ip) (v4 j) = v4 ip
replaced (v6 ip) (v6 j) = v6 ip
replaced ip j = j

any_ip_iff :
    (rrs : List ResourceRecord) (ip : IpAddr) → (any_ip rrs ip ≡ true) ↔ Among ip (ips_of rrs)
unfolding any_ip ips_of
any_ip_iff [] ip = (λ h. cc, λ h. absurd h)
any_ip_iff (rr ∷ rrs) (v4 ip) = (
  λ h. ground (arith, any_ip_iff rrs (v4 ip), same_bytes_iff rr.rdata ip),
  λ h. ground (arith, any_ip_iff rrs (v4 ip), same_bytes_iff rr.rdata ip),
)
any_ip_iff (rr ∷ rrs) (v6 ip) = (
  λ h. ground (arith, any_ip_iff rrs (v6 ip), same_bytes_iff rr.rdata ip),
  λ h. ground (arith, any_ip_iff rrs (v6 ip), same_bytes_iff rr.rdata ip),
)

-- The search for an address among the answers agrees with their list.
pub contains_answer_ip_iff :
    (m : Msg) (ip : IpAddr) → (contains_answer_ip m ip ≡ true) ↔ Among ip (answer_ips m)
unfolding contains_answer_ip answer_ips
contains_answer_ip_iff m ip = any_ip_iff m.answers ip

-- A replaced address has the length of the old one, so the record still counts.
pub holding-new_rdata :
    (t : RrType) (b : Bytes) (ip : IpAddr)
    → IsIp ip
    → holding t (length (new_rdata (holding t (length b)) b ip)) ≡ holding t (length b)
unfolding holding
holding-new_rdata RrType.a b (v4 ip) h = ground arith
holding-new_rdata RrType.a b (v6 ip) h = ground arith
holding-new_rdata RrType.aaaa b (v4 ip) h = ground arith
holding-new_rdata RrType.aaaa b (v6 ip) h = ground arith
holding-new_rdata _ b ip h = refl

ip_of-new_rdata :
    (k : Holding) (b : Bytes) (ip : IpAddr)
    → ip_of k (new_rdata k b ip) ≡ map (replaced ip) (ip_of k b)
ip_of-new_rdata a_record b (v4 ip) = refl
ip_of-new_rdata a_record b (v6 ip) = refl
ip_of-new_rdata aaaa_record b (v4 ip) = refl
ip_of-new_rdata aaaa_record b (v6 ip) = refl
ip_of-new_rdata other b ip = refl

holding_of-rewrite :
    (rr : ResourceRecord) (ip : IpAddr)
    → IsIp ip
    → holding_of (record rr { rdata = new_rdata (holding_of rr) rr.rdata ip }) ≡ holding_of rr
holding_of-rewrite rr ip h = elim (Bool-cases (rr.rr_class == dns_class_in)) [
  | inl in_class ↦ rw in_class (holding-new_rdata rr.rr_type rr.rdata ip h)
  | inr foreign ↦ rw foreign refl
]

ips_of-rewrite_rrs :
    (rrs : List ResourceRecord) (ip : IpAddr)
    → IsIp ip
    → ips_of (rewrite_rrs rrs ip) ≡ map (replaced ip) (ips_of rrs)
unfolding ips_of rewrite_rrs
ips_of-rewrite_rrs [] ip h = refl
ips_of-rewrite_rrs (rr ∷ rrs) ip h =
    let k = holding_of rr in
    ap₂ (λ k' l. ip_of k' (new_rdata k rr.rdata ip) ++ l) (holding_of-rewrite rr ip h)
      (ips_of-rewrite_rrs rrs ip h)
    ∙ ap (λ l. l ++ map (replaced ip) (ips_of rrs)) (ip_of-new_rdata k rr.rdata ip)
    ∙ sym (map-append (replaced ip) (ip_of k rr.rdata) (ips_of rrs))

-- Rewriting a message puts the selected address in the place of every answer address of its
-- family, and leaves the addresses of the other family and the number of addresses.
pub answer_ips-rewrite_answer_ips :
    (m : Msg) (ip : IpAddr)
    → IsIp ip
    → answer_ips (rewrite_answer_ips m ip) ≡ map (replaced ip) (answer_ips m)
unfolding answer_ips rewrite_answer_ips
answer_ips-rewrite_answer_ips m ip h = ips_of-rewrite_rrs m.answers ip h
