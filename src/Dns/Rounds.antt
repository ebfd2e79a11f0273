-- ===== src/Dns/Rounds.antt =====
-- What a round of a traversal that succeeds has read, and the same for the checks in front.
use doh_server.Prelude.{ℕ, ◌+◌, ◌≤◌, ◌≡◌, length, Outcome, ok, >>=-eq-ok, arith}
use doh_server.Bytes.{Bytes, u16}
use doh_server.Dns.{DnsError, skip_name, visit_rr}

module _ {S : Type 0} (p : Bytes) (off : ℕ) (s : S) where
  -- `o` is the offset behind the record's name.
  pub record VisitOf (cb : ℕ → S → Outcome DnsError S) (r : ℕ × S) : Type 0 where
    pub o : ℕ
    pub name : skip_name p off ≡ ok o
    pub fixed : o + 10 ≤ length p
    pub called : cb o s ≡ ok r.1
    pub next : r.0 ≡ o + 10 + u16 p (o + 8)
    pub within : r.0 ≤ length p

  pub visit_rr-VisitOf :
      (cb : ℕ → S → Outcome DnsError S) (r : ℕ × S) → visit_rr cb p off s ≡ ok r → VisitOf cb r
  unfolding visit_rr
  visit_rr-VisitOf cb r h =
      let (o, name, h') = >>=-eq-ok (skip_name p off) _ h in
      record {
        o = o;
        name = name;
        fixed = ground arith;
        called = ground arith;
        next = ground arith;
        within = ground arith;
      }
