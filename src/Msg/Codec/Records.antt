-- ===== src/Msg/Codec/Records.antt =====
-- Questions and records that are encoded are decoded to the same questions and records.
use doh_server.Prelude.{
  ℕ, ◌+◌, ◌-◌, ◌<◌, ◌≡◌, sym, ap, ◌∙◌, List, [], ◌∷◌, ◌++◌, append_assoc, append-nil, All, length,
  length-append, take, drop, ok, le→leb, arith,
}
use doh_server.Bytes.{Bytes, slice, be16, be32, u16, u32}
use doh_server.RrType
use doh_server.RrType.{RrType}
use doh_server.Msg.{MsgError, Question, ResourceRecord}
use doh_server.Msg.Names.RoundTrip.{IsName, wire, pack_into-wire, from_wire-wire}
use doh_server.Msg.Codec.{
  unpack_question, unpack_questions, unpack_rr, unpack_rr_section, pack_question, pack_questions,
  pack_rr, pack_rrs,
}
use doh_server.Msg.Codec.Holds.{
  Holds, Holds-left, Holds-right, Holds-le, slice-Holds, u16-Holds, u32-Holds,
}

-- A record type whose code fits two bytes, and that the decoder gives for its code.
pub record IsType (t : RrType) : Type 0 where
  pub decoded : RrType.IsDecoded t
  pub code_in : RrType.to_u16 t < 65536

pub record IsQuestion (q : Question) : Type 0 where
  pub named : IsName q.name
  pub typed : IsType q.qtype
  pub class_in : q.qclass < 65536

pub record IsRecord (r : ResourceRecord) : Type 0 where
  pub named : IsName r.name
  pub typed : IsType r.rr_type
  pub class_in : r.rr_class < 65536
  pub ttl_in : r.ttl < 4294967296
  pub rdata_in : length r.rdata < 65536

-- The bytes of a question and of a record.
abbrev pub wire_question : Question → Bytes
wire_question q = wire q.name.labels ++ (be16 (RrType.to_u16 q.qtype) ++ be16 q.qclass)

abbrev pub wire_fixed : ResourceRecord → Bytes
wire_fixed r =
    be16 (RrType.to_u16 r.rr_type) ++ (be16 r.rr_class ++ (be32 r.ttl ++ be16 (length r.rdata)))

abbrev pub wire_rr : ResourceRecord → Bytes
wire_rr r = wire r.name.labels ++ (wire_fixed r ++ r.rdata)

module _ {A : Type 0} (w : A → Bytes) where
  abbrev pub wire_all : List A → Bytes
  wire_all [] = []
  wire_all (x ∷ xs) = w x ++ wire_all xs

pack_question-wire :
    (q : Question) (out : Bytes) → IsQuestion q → pack_question q out ≡ ok (out ++ wire_question q)
unfolding pack_question
pack_question-wire q out v = rw (pack_into-wire q.name out v.named) (simp append_assoc)

pack_rr-wire :
    (r : ResourceRecord) (out : Bytes) → IsRecord r → pack_rr r out ≡ ok (out ++ wire_rr r)
unfolding pack_rr
pack_rr-wire r out v =
    rw (pack_into-wire r.name out v.named, le→leb (length r.rdata) 65535 (omega arith))
      (simp append_assoc)

pub pack_questions-wire :
    (qs : List Question) (out : Bytes)
    → All IsQuestion qs
    → pack_questions qs out ≡ ok (out ++ wire_all wire_question qs)
unfolding pack_questions
pack_questions-wire [] out v = ap ok (sym (append-nil out))
pack_questions-wire (q ∷ qs) out v = rw (pack_question-wire q out v.0) (
    pack_questions-wire qs (out ++ wire_question q) v.1
    ∙ ap ok (append_assoc out (wire_question q) (wire_all wire_question qs)))

pub pack_rrs-wire :
    (rs : List ResourceRecord) (out : Bytes)
    → All IsRecord rs
    → pack_rrs rs out ≡ ok (out ++ wire_all wire_rr rs)
unfolding pack_rrs
pack_rrs-wire [] out v = ap ok (sym (append-nil out))
pack_rrs-wire (r ∷ rs) out v = rw (pack_rr-wire r out v.0) (
    pack_rrs-wire rs (out ++ wire_rr r) v.1
    ∙ ap ok (append_assoc out (wire_rr r) (wire_all wire_rr rs)))

type-eq : (t : RrType) → IsType t → RrType.from_u16 (RrType.to_u16 t) ≡ t
type-eq t v = RrType.from_u16-to_u16 t v.decoded

unpack_question-wire :
    (p : Bytes) (o : ℕ) (q : Question)
    → Holds p o (wire_question q)
    → IsQuestion q
    → unpack_question p o ≡ ok (q, o + length (wire_question q))
unfolding unpack_question
unpack_question-wire p o q h v =
    let n = wire q.name.labels in
    let tail = Holds-right n (be16 (RrType.to_u16 q.qtype) ++ be16 q.qclass) h in
    let qtype =
      u16-Holds (RrType.to_u16 q.qtype)
        (Holds-left (be16 (RrType.to_u16 q.qtype)) (be16 q.qclass) tail) v.typed.code_in in
    let qclass =
      u16-Holds q.qclass (Holds-right (be16 (RrType.to_u16 q.qtype)) (be16 q.qclass) tail)
        v.class_in in
    let l = Holds-le (be16 (RrType.to_u16 q.qtype) ++ be16 q.qclass) tail in
    let size = length-append n (be16 (RrType.to_u16 q.qtype) ++ be16 q.qclass) in
    let t = type-eq q.qtype v.typed in
    let name =
      from_wire-wire p o q.name (Holds-left n (be16 (RrType.to_u16 q.qtype) ++ be16 q.qclass) h)
        v.named in
    rw name (ground arith)

module _ (p : Bytes) (k : ℕ) (r : ResourceRecord) (h : Holds p k (wire_fixed r))
    (v : IsRecord r) where
  -- What `unpack_rr` reads behind the name.
  fixed_fields :
      (u16 p k ≡ RrType.to_u16 r.rr_type)
      × (u16 p (k + 2) ≡ r.rr_class)
      × (u32 p (k + 4) ≡ r.ttl)
      × (u16 p (k + 8) ≡ length r.rdata)
  fixed_fields =
      let ty = be16 (RrType.to_u16 r.rr_type) in
      let class = be16 r.rr_class in
      let ttl = be32 r.ttl in
      let len = be16 (length r.rdata) in
      let h2 = Holds-right ty (class ++ (ttl ++ len)) h in
      let h4 = Holds-right class (ttl ++ len) h2 in
      let h8 = Holds-right ttl len h4 in
      (
        u16-Holds (RrType.to_u16 r.rr_type) (Holds-left ty (class ++ (ttl ++ len)) h)
            v.typed.code_in,
        u16-Holds r.rr_class (Holds-left class (ttl ++ len) h2) v.class_in,
        ap (u32 p) (omega arith) ∙ u32-Holds r.ttl (Holds-left ttl len h4) v.ttl_in,
        ap (u16 p) (omega arith) ∙ u16-Holds (length r.rdata) h8 v.rdata_in,
      )

slice-eq :
    (p : Bytes) (o : ℕ) (w : Bytes) → Holds p o w → slice {E = MsgError} p o (o + length w) ≡ ok w
slice-eq p o w h =
    let l = Holds-le w h in
    let t : take (o + length w - o) (drop o p) ≡ w =
      ap (λ k. take k (drop o p)) (omega arith) ∙ slice-Holds w h in
    ground arith

unpack_rr-wire :
    (p : Bytes) (o : ℕ) (r : ResourceRecord)
    → Holds p o (wire_rr r)
    → IsRecord r
    → unpack_rr p o ≡ ok (r, o + length (wire_rr r))
unfolding unpack_rr
unpack_rr-wire p o r h v =
    let n = wire r.name.labels in
    let behind = Holds-right n (wire_fixed r ++ r.rdata) h in
    let fixed = Holds-left (wire_fixed r) r.rdata behind in
    let data' = Holds-right (wire_fixed r) r.rdata behind in
    let f = fixed_fields p (o + length n) r fixed v in
    let l = Holds-le r.rdata data' in
    let size = length-append n (wire_fixed r ++ r.rdata) in
    let t = type-eq r.rr_type v.typed in
    let cut = slice-eq p (o + length n + 10) r.rdata data' in
    let name = from_wire-wire p o r.name (Holds-left n (wire_fixed r ++ r.rdata) h) v.named in
    rw name (rw (f.0, f.1, f.2, f.3) (ground arith))

pub unpack_questions-wire :
    (p : Bytes) (o : ℕ) (qs : List Question)
    → Holds p o (wire_all wire_question qs)
    → All IsQuestion qs
    → unpack_questions p (length qs) o ≡ ok (qs, o + length (wire_all wire_question qs))
unfolding unpack_questions
unpack_questions-wire p o [] h v = ap (λ n. ok ([], n)) (omega arith)
unpack_questions-wire p o (q ∷ qs) h v =
    let w = wire_question q in
    let ws = wire_all wire_question qs in
    rw (unpack_question-wire p o q (Holds-left w ws h) v.0) (
      rw (unpack_questions-wire p (o + length w) qs (Holds-right w ws h) v.1)
        (ap (λ n. ok (q ∷ qs, n)) (omega (arith, length-append w ws))))

pub unpack_rr_section-wire :
    (p : Bytes) (o : ℕ) (rs : List ResourceRecord)
    → Holds p o (wire_all wire_rr rs)
    → All IsRecord rs
    → unpack_rr_section p (length rs) o ≡ ok (rs, o + length (wire_all wire_rr rs))
unfolding unpack_rr_section
unpack_rr_section-wire p o [] h v = ap (λ n. ok ([], n)) (omega arith)
unpack_rr_section-wire p o (r ∷ rs) h v =
    let w = wire_rr r in
    let ws = wire_all wire_rr rs in
    rw (unpack_rr-wire p o r (Holds-left w ws h) v.0) (
      rw (unpack_rr_section-wire p (o + length w) rs (Holds-right w ws h) v.1)
        (ap (λ n. ok (r ∷ rs, n)) (omega (arith, length-append w ws))))
