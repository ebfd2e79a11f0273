-- ===== src/Msg/Codec/RoundTrip.antt =====
-- A message that `pack` encodes is decoded by `unpack` to the same message.
use doh_server.Prelude.{
  ℕ, ◌+◌, ◌<◌, ◌≡◌, refl, sym, ap, ◌∙◌, false, [], ◌++◌, append_assoc, append-nil, All, length,
  length-append, ok, ◌>>=◌, le→leb, ==_iff, arith,
}
use doh_server.Bytes.{Bytes, be16, set_u16}
use doh_server.Msg.{Msg}
use doh_server.Msg.Header.{
  from_wire, IsHeader, to_wire_bits, to_wire_bits-lt, from_wire-to_wire_bits,
}
use doh_server.Msg.Codec.Records.{
  IsQuestion, IsRecord, wire_question, wire_rr, wire_all, pack_questions-wire, pack_rrs-wire,
  unpack_questions-wire, unpack_rr_section-wire,
}
use doh_server.Msg.Codec.{unpack_sections, unpack, header_bytes, pack}
use doh_server.Msg.Codec.Holds.{Holds, Holds-left, Holds-right, Holds-le, u16-Holds}

-- A message whose parts fit their fields.
pub record IsMsg (m : Msg) : Type 0 where
  pub header : IsHeader m.header
  pub plain : m.compress ≡ false
  pub questions : All IsQuestion m.questions
  pub answers : All IsRecord m.answers
  pub authorities : All IsRecord m.authorities
  pub additionals : All IsRecord m.additionals
  pub questions_in : length m.questions < 65536
  pub answers_in : length m.answers < 65536
  pub authorities_in : length m.authorities < 65536
  pub additionals_in : length m.additionals < 65536

abbrev pub wire_header : Msg → Bytes
wire_header m =
    be16 m.header.id
    ++ (be16 (to_wire_bits m.header)
        ++ (be16 (length m.questions)
            ++ (be16 (length m.answers)
                ++ (be16 (length m.authorities) ++ be16 (length m.additionals)))))

abbrev pub wire_sections : Msg → Bytes
wire_sections m =
    wire_all wire_question m.questions
    ++ (wire_all wire_rr m.answers
        ++ (wire_all wire_rr m.authorities ++ wire_all wire_rr m.additionals))

pack-wire : (m : Msg) → IsMsg m → pack m ≡ ok (wire_header m ++ wire_sections m)
unfolding pack header_bytes set_u16
pack-wire m v =
    let h = wire_header m in
    let q = wire_all wire_question m.questions in
    let a = wire_all wire_rr m.answers in
    let n = wire_all wire_rr m.authorities in
    rw
      (
        le→leb (length m.questions) 65535 (omega arith),
        le→leb (length m.answers) 65535 (omega arith),
        le→leb (length m.authorities) 65535 (omega arith),
        le→leb (length m.additionals) 65535 (omega arith),
        pack_questions-wire m.questions h v.questions,
        pack_rrs-wire m.answers (h ++ q) v.answers,
        pack_rrs-wire m.authorities ((h ++ q) ++ a) v.authorities,
        pack_rrs-wire m.additionals (((h ++ q) ++ a) ++ n) v.additionals,
      )
      (simp append_assoc)

unpack_sections-wire :
    (p : Bytes) (m : Msg)
    → Holds p 12 (wire_sections m)
    → length p ≡ 12 + length (wire_sections m)
    → IsMsg m
    → unpack_sections p m.header
        (length m.questions)
        (length m.answers)
        (length m.authorities)
        (length m.additionals)
      ≡ ok m
unfolding unpack_sections
unpack_sections-wire p m h l v =
    let q = wire_all wire_question m.questions in
    let a = wire_all wire_rr m.answers in
    let n = wire_all wire_rr m.authorities in
    let x = wire_all wire_rr m.additionals in
    let h1 = Holds-right q (a ++ (n ++ x)) h in
    let h2 = Holds-right a (n ++ x) h1 in
    let h3 = Holds-right n x h2 in
    let size = length-append q (a ++ (n ++ x)) in
    let size' = length-append a (n ++ x) in
    let size'' = length-append n x in
    let full =
      (==_iff (12 + length q + length a + length n + length x) (length p)).1 (omega arith) in
    rw
      (
        unpack_questions-wire p 12 m.questions (Holds-left q (a ++ (n ++ x)) h) v.questions,
        unpack_rr_section-wire p (12 + length q) m.answers (Holds-left a (n ++ x) h1) v.answers,
        unpack_rr_section-wire p (12 + length q + length a) m.authorities (Holds-left n x h2)
            v.authorities,
        unpack_rr_section-wire p (12 + length q + length a + length n) m.additionals h3
            v.additionals,
        full,
      )
      (λ i. ok (record m { compress = sym v.plain i }))

module _ (p : Bytes) (a b c d e f : ℕ) where
  -- The six words of a header.
  abbrev six : Bytes
  six = be16 a ++ (be16 b ++ (be16 c ++ (be16 d ++ (be16 e ++ be16 f))))

  unpack-six :
      Holds p 0 six
      → a < 65536
      → b < 65536
      → c < 65536
      → d < 65536
      → e < 65536
      → f < 65536
      → unpack p ≡ unpack_sections p (from_wire a b) c d e f
  unfolding unpack
  unpack-six h la lb lc ld le lf =
      let h2 = Holds-right (be16 a) (be16 b ++ (be16 c ++ (be16 d ++ (be16 e ++ be16 f)))) h in
      let h4 = Holds-right (be16 b) (be16 c ++ (be16 d ++ (be16 e ++ be16 f))) h2 in
      let h6 = Holds-right (be16 c) (be16 d ++ (be16 e ++ be16 f)) h4 in
      let h8 = Holds-right (be16 d) (be16 e ++ be16 f) h6 in
      let u0 =
        u16-Holds a (Holds-left (be16 a) (be16 b ++ (be16 c ++ (be16 d ++ (be16 e ++ be16 f)))) h)
          la in
      let u2 = u16-Holds b (Holds-left (be16 b) (be16 c ++ (be16 d ++ (be16 e ++ be16 f))) h2) lb in
      let u4 = u16-Holds c (Holds-left (be16 c) (be16 d ++ (be16 e ++ be16 f)) h4) lc in
      let u6 = u16-Holds d (Holds-left (be16 d) (be16 e ++ be16 f) h6) ld in
      let u8 = u16-Holds e (Holds-left (be16 e) (be16 f) h8) le in
      let u10 = u16-Holds f (Holds-right (be16 e) (be16 f) h8) lf in
      let l = Holds-le six h in rw (← u0, ← u2, ← u4, ← u6, ← u8, ← u10) (ground arith)

unpack-wire :
    (p : Bytes) (m : Msg)
    → Holds p 0 (wire_header m)
    → Holds p 12 (wire_sections m)
    → length p ≡ 12 + length (wire_sections m)
    → IsMsg m
    → unpack p ≡ ok m
unpack-wire p m h k l v =
    unpack-six p m.header.id (to_wire_bits m.header) (length m.questions) (length m.answers)
      (length m.authorities) (length m.additionals) h v.header.id_in (to_wire_bits-lt m.header)
      v.questions_in v.answers_in v.authorities_in v.additionals_in
    ∙ ap
        (λ g.
          unpack_sections p g (length m.questions) (length m.answers) (length m.authorities)
            (length m.additionals))
        (from_wire-to_wire_bits m.header v.header)
    ∙ unpack_sections-wire p m k l v

-- A message whose parts fit their fields is encoded without an error, and decoding the bytes
-- gives the same message.
pub unpack-pack : (m : Msg) → IsMsg m → (pack m >>= unpack) ≡ ok m
unpack-pack m v =
    let s = wire_sections m in
    rw (pack-wire m v) (
      unpack-wire (wire_header m ++ s) m
        (record { before = []; after = s; splits = refl; starts = refl })
        (record {
          before = wire_header m;
          after = [];
          splits = ap (λ t. wire_header m ++ t) (sym (append-nil s));
          starts = refl;
        })
        (omega arith) v)
