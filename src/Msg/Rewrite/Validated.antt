-- ===== src/Msg/Rewrite/Validated.antt =====
-- A packet that `unpack` accepts is rewritten without an error.
use doh_server.Prelude.{ℕ, zero, suc, ◌+◌, ◌≡◌, ap, subst, ◌∙◌, List, length, ok, >>=-eq-ok, arith}
use doh_server.Bytes.{Bytes, u16}
use doh_server.Msg.{Question, ResourceRecord, Msg, MsgHeader}
use doh_server.Msg.Header.{from_wire as header_from_wire}
use doh_server.Msg.Names.{from_wire}
use doh_server.Msg.Names.Skip.{skip_wire-of-from_wire}
use doh_server.Msg.Codec.{
  unpack_question, unpack_questions, unpack_rr, unpack_rr_section, unpack_sections, unpack,
}
use doh_server.Msg.Answers.{IpAddr, IsIp}
use doh_server.Msg.Rewrite.{
  skip_questions, rewrite_answers, skip_rr, skip_rrs, rewrite_sections,
  rewrite_answer_ips_in_packet,
}
use doh_server.Msg.Rewrite.Accepts.{
  Agrees, Agrees-refl, Agrees-le, Read, Read-le, Rewritten, unpack_rr-Read, rewrite_answer-Read,
  skip_wire-Agrees, u16-Agrees,
}

skip_questions-unpack :
    (p : Bytes) (n off : ℕ) (r : List Question × ℕ)
    → unpack_questions p n off ≡ ok r
    → skip_questions p n off ≡ ok r.1
unfolding unpack_questions skip_questions unpack_question
skip_questions-unpack p zero off r h = ap ok (ground arith)
skip_questions-unpack p (suc n) off r h =
    let ((q, next), one, h') = >>=-eq-ok (unpack_question p off) _ h in
    let (rest, more, h'') = >>=-eq-ok (unpack_questions p n next) _ h' in
    let (name, found, g) = >>=-eq-ok (from_wire p off) _ one in
    let s = skip_wire-of-from_wire p off name found in
    let ih = skip_questions-unpack p n next rest more in rw s (ground arith)

skip_rr-Read :
    (p q : Bytes) (off next : ℕ) → Read p off next → Agrees p q off → skip_rr q off ≡ ok next
unfolding skip_rr
skip_rr-Read p q off next t g =
    let o = t.o in
    let name = skip_wire-Agrees p q off g ∙ t.name in
    let size = g.size in
    let e : u16 q (o + 8) ≡ u16 p (o + 8) = u16-Agrees p q (o + 8) g (omega arith) in
    rw name (ground arith)

skip_rrs-unpack :
    (p q : Bytes) (n off : ℕ) (r : List ResourceRecord × ℕ)
    → unpack_rr_section p n off ≡ ok r
    → Agrees p q off
    → (skip_rrs q n off ≡ ok r.1) × Agrees p q r.1
unfolding unpack_rr_section skip_rrs
skip_rrs-unpack p q zero off r h g =
    let e : off ≡ r.1 = ground arith in (ap ok e, subst (λ k. Agrees p q k) e g)
skip_rrs-unpack p q (suc n) off r h g =
    let ((rr, next), one, h') = >>=-eq-ok (unpack_rr p off) _ h in
    let (rest, more, h'') = >>=-eq-ok (unpack_rr_section p n next) _ h' in
    let t : Read p off next = unpack_rr-Read p off (rr, next) one in
    let ih = skip_rrs-unpack p q n next rest more (Agrees-le next (Read-le t) g) in
    let end : rest.1 ≡ r.1 = ground arith in
    (rw (skip_rr-Read p q off next t g) (ih.0 ∙ ap ok end), subst (λ k. Agrees p q k) end ih.1)

-- Skipping `n + m` records is skipping `n` and then `m`.
skip_rrs-add :
    (q : Bytes) (n m off : ℕ) (e : ℕ)
    → skip_rrs q n off ≡ ok e
    → skip_rrs q (n + m) off ≡ skip_rrs q m e
unfolding skip_rrs
skip_rrs-add q zero m off e h =
    let s : off ≡ e = ground arith in
    ap (λ k. skip_rrs q k off) (omega arith) ∙ ap (λ o. skip_rrs q m o) s
skip_rrs-add q (suc n) m off e h =
    let (o, one, h') = >>=-eq-ok (skip_rr q off) _ h in
    let k : suc n + m ≡ suc (n + m) = omega arith in
    ap (λ k. skip_rrs q k off) k ∙ rw one (skip_rrs-add q n m o e h')

module _ (ip : IpAddr) (fits_ip : IsIp ip) where
  rewrite_answers-unpack :
      (p q : Bytes) (n off : ℕ) (r : List ResourceRecord × ℕ)
      → unpack_rr_section p n off ≡ ok r
      → Agrees p q off
      → Rewritten p r.1 (rewrite_answers q n off ip)
  unfolding unpack_rr_section rewrite_answers
  rewrite_answers-unpack p q zero off r h g =
      let e : off ≡ r.1 = ground arith in
      record { packet = q; runs = ap (λ k. ok (q, k)) e; agrees = subst (λ k. Agrees p q k) e g }
  rewrite_answers-unpack p q (suc n) off r h g =
      let ((rr, next), one, h') = >>=-eq-ok (unpack_rr p off) _ h in
      let (rest, more, h'') = >>=-eq-ok (unpack_rr_section p n next) _ h' in
      let w = rewrite_answer-Read ip fits_ip p q off next (unpack_rr-Read p off (rr, next) one) g in
      let ih = rewrite_answers-unpack p w.packet n next rest more w.agrees in
      let e : rest.1 ≡ r.1 = ground arith in
      record {
        packet = ih.packet;
        runs = rw w.runs (ih.runs ∙ ap (λ k. ok (ih.packet, k)) e);
        agrees = subst (λ k. Agrees p ih.packet k) e ih.agrees;
      }

  rewrite_sections-unpack :
      (p : Bytes) (head : MsgHeader) (qd an ns ar : ℕ) (m : Msg)
      → unpack_sections p head qd an ns ar ≡ ok m
      → (q : Bytes) × (rewrite_sections p qd an (ns + ar) ip ≡ ok q) × (length q ≡ length p)
  unfolding unpack_sections rewrite_sections
  rewrite_sections-unpack p head qd an ns ar m h =
      let (qs, a, h1) = >>=-eq-ok (unpack_questions p qd 12) _ h in
      let (rs, b, h2) = >>=-eq-ok (unpack_rr_section p an qs.1) _ h1 in
      let (us, c, h3) = >>=-eq-ok (unpack_rr_section p ns rs.1) _ h2 in
      let (xs, d, h4) = >>=-eq-ok (unpack_rr_section p ar us.1) _ h3 in
      let w = rewrite_answers-unpack p p an qs.1 rs b (Agrees-refl p qs.1) in
      let (s, g) = skip_rrs-unpack p w.packet ns rs.1 us c w.agrees in
      let (t, g') = skip_rrs-unpack p w.packet ar us.1 xs d g in
      let both = skip_rrs-add w.packet ns ar rs.1 us.1 s ∙ t in
      let size = g'.size in
      let first = skip_questions-unpack p qd 12 qs a in
      let full : xs.1 ≡ length p = ground arith in
      (w.packet, rw (first, w.runs, both) (ground arith), size)

  -- A packet that the decoder accepts is rewritten without an error, and keeps its length.
  pub rewrite-of-unpack :
      (p : Bytes) (m : Msg)
      → unpack p ≡ ok m
      → (q : Bytes) × (rewrite_answer_ips_in_packet p ip ≡ ok q) × (length q ≡ length p)
  unfolding unpack rewrite_answer_ips_in_packet
  rewrite-of-unpack p m h =
      let head = header_from_wire (u16 p 0) (u16 p 2) in
      let (q, runs, size) =
        rewrite_sections-unpack p head (u16 p 4) (u16 p 6) (u16 p 8) (u16 p 10) m (ground arith) in
      (q, ground arith, size)
