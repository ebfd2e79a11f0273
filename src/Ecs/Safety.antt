-- ===== src/Ecs/Safety.antt =====
-- `add_ecs_to_packet` on the packets that `set_edns_max_payload_size` accepts: no read of the OPT
-- record or of its options is out of range.
use doh_server.Prelude.{
  ℕ, zero, suc, ◌+◌, ◌≤◌, ◌<◌, ◌≡◌, ◌⊎◌, true, ◌++◌, length, ok, Ends, Ends-bind, >>=-eq-ok, ◌>>=◌,
  subst, sym, arith, take, drop, length-append, length-take, length-drop,
}
use doh_server.Bytes.{Bytes, byte, u16, set_u16}
use doh_server.Bytes.Laws.{length-set_u16}
use doh_server.Dns.{
  skip_loop, skip_name, visit_rr, traverse_rrs, ignore, skip_question, skip_to_additional, arcount,
}
use doh_server.Dns.Rounds.{VisitOf, visit_rr-VisitOf}
use doh_server.Msg.Answers.{IpAddr}
use doh_server.Ecs.{
  EcsError, build_ecs_option, to_additional, is_opt, next_rr, find_opt_rr, has_ecs, ecs_option,
  insert_option, add_ecs_to_packet,
}

abbrev pub AnyEcsError : EcsError → Type 0
AnyEcsError e = Unit

skip_loop-root :
    (fuel : ℕ) (p : Bytes) (off o : ℕ)
    → skip_loop (suc fuel) p off 0 ≡ ok o
    → byte p off ≡ 0
    → o ≡ off + 1
unfolding skip_loop
skip_loop-root fuel p off o h z = ground arith

skip_name-root : (p : Bytes) (off o : ℕ) → skip_name p off ≡ ok o → byte p off ≡ 0 → o ≡ off + 1
unfolding skip_name
skip_name-root p off o h z = ground (arith, skip_loop-root 129 p off o)

module _ (p : Bytes) (off : ℕ) (r : ℕ × Unit {0}) (w : VisitOf p off tt ignore r) where
  -- A root name is followed by the ten bytes of the record.
  is_opt-Ends : Ends AnyEcsError (λ b. b ≡ true → off + 11 ≤ length p) (is_opt p off)
  unfolding is_opt
  is_opt-Ends = ground (arith, skip_name-root p off w.o w.name, w.fixed)

  next_rr-eq : next_rr p off ≡ ok r.0
  unfolding next_rr
  next_rr-eq = rw w.name (ground (arith, w.fixed, w.next))

-- The field RDLENGTH lies in the packet.
abbrev pub IsOptAt : Bytes → ℕ × ℕ → Type 0
IsOptAt p r = r.0 + 2 ≤ length p

find_opt_rr-Ends :
    (n : ℕ) (p : Bytes) (off e : ℕ)
    → traverse_rrs ignore p off n tt ≡ ok (e, tt)
    → Ends AnyEcsError (IsOptAt p) (find_opt_rr n p off)
unfolding find_opt_rr traverse_rrs
find_opt_rr-Ends zero p off e h = tt
find_opt_rr-Ends (suc n) p off e h =
    let ((off', u), v, h') = >>=-eq-ok (visit_rr ignore p off tt) _ h in
    let w : VisitOf p off tt ignore (off', u) = visit_rr-VisitOf p off tt ignore (off', u) v in
    let rest : Ends AnyEcsError (IsOptAt p) (next_rr p off >>= λ o. find_opt_rr n p o) =
      rw (next_rr-eq p off (off', u) w) (find_opt_rr-Ends n p off' e h') in
    Ends-bind AnyEcsError (λ b. b ≡ true → off + 11 ≤ length p) (IsOptAt p) (is_opt p off) _
      (is_opt-Ends p off (off', u) w) (λ here b. ground (arith, b, rest))

has_ecs-Ends :
    (fuel : ℕ) (p : Bytes) (start rdlength off : ℕ)
    → rdlength < fuel + off
    → 0 < fuel
    → Ends AnyEcsError (λ b. Unit {0}) (has_ecs fuel p start rdlength off)
unfolding has_ecs
has_ecs-Ends zero p start rdlength off f z = absurd (omega arith)
has_ecs-Ends (suc fuel) p start rdlength off f z =
    ground (arith, has_ecs-Ends fuel p start rdlength (off + (4 + u16 p (start + off + 2))))

length-insert :
    (p option : Bytes) (o : ℕ) → length (take o p ++ option ++ drop o p) ≡ length p + length option
length-insert p option o = omega (
  arith,
  length-append (take o p ++ option) (drop o p),
  length-append (take o p) option,
  length-take o p,
  length-drop o p,
)

insert_option-Ends :
    (p option : Bytes) (o n : ℕ)
    → o + 2 ≤ length p
    → Ends AnyEcsError (λ q. length q ≡ length p + length option) (insert_option p o n option)
unfolding insert_option
insert_option-Ends p option o n h =
    let p' = set_u16 p o (n + length option) in
    ground (arith, length-insert p' option (o + 2 + n), length-set_u16 p o (n + length option))

to_additional-eq :
    (p : Bytes) (off : ℕ) → skip_to_additional p ≡ ok off → 0 < u16 p 10 → to_additional p ≡ ok off
unfolding skip_to_additional to_additional skip_question
to_additional-eq p off h z = ground arith

skip_to_additional-long : (p : Bytes) (off : ℕ) → skip_to_additional p ≡ ok off → 12 ≤ length p
unfolding skip_to_additional skip_question
skip_to_additional-long p off h = ground arith

length-ecs_option : (d : Bytes) → length (ecs_option d) ≡ 4 + length d
unfolding ecs_option
length-ecs_option d = ground arith

-- For a packet with additional records whose records can be walked to the end, as `set_edns_max_payload_size` walks them,
-- adding a client subnet never panics and ends; the packet stays as it is, or grows by the option
-- with its four bytes of code and length.
pub add_ecs_to_packet-Ends :
    (p : Bytes) (ip : IpAddr) (prefix_v4 prefix_v6 off e : ℕ)
    → skip_to_additional p ≡ ok off
    → 0 < u16 p 10
    → traverse_rrs ignore p off (u16 p 10) tt ≡ ok (e, tt)
    → Ends AnyEcsError
        (λ q.
          (q ≡ p) ⊎ (length q ≡ length p + 4 + length (build_ecs_option ip prefix_v4 prefix_v6)))
        (add_ecs_to_packet p ip prefix_v4 prefix_v6)
unfolding add_ecs_to_packet
add_ecs_to_packet-Ends p ip prefix_v4 prefix_v6 off e h z t =
    let option = ecs_option (build_ecs_option ip prefix_v4 prefix_v6) in
    rw (to_additional-eq p off h z) (
      Ends-bind AnyEcsError (λ n. (n ≡ u16 p 10) × (12 ≤ length p)) _ (arcount p) _
        (ground (arith, skip_to_additional-long p off h))
        (λ n c.
          Ends-bind AnyEcsError (IsOptAt p) _ (find_opt_rr n p off) _
            (subst (λ k. Ends AnyEcsError (IsOptAt p) (find_opt_rr k p off)) (sym c.0)
              (find_opt_rr-Ends (u16 p 10) p off e t))
            (λ r o. ground (
              arith,
              has_ecs-Ends (suc r.1) p (r.0 + 2) r.1 0 (omega arith) (omega arith),
              insert_option-Ends p option r.0 r.1 o,
              length-ecs_option (build_ecs_option ip prefix_v4 prefix_v6),
            ))))
