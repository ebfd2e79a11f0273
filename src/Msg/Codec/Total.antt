-- ===== src/Msg/Codec/Total.antt =====
-- `Msg::unpack` returns for every packet.
use doh_server.Prelude.{ℕ, zero, suc, ◌≤◌, ◌≡◌, refl, List, length, Ends, Ends-bind, arith}
use doh_server.Bytes.{Bytes, u16}
use doh_server.Msg.{MsgError, MsgHeader, Msg}
use doh_server.Msg.Header.{from_wire}
use doh_server.Msg.Names.{from_wire as name_from_wire}
use doh_server.Msg.Names.Total.{IsNext, from_wire-Ends}
use doh_server.Msg.Codec.{
  unpack_question, unpack_questions, unpack_rr, unpack_rr_section, unpack_sections, unpack,
}

abbrev pub AnyMsgError : MsgError → Type 0
AnyMsgError e = Unit

-- The offset that a parser returns beside its value is behind `o`, or at `o`, in the packet.
abbrev pub Moves {ℓ} : {A : Type ℓ} → Bytes → ℕ → A × ℕ → Type 0
Moves p o r = (o ≤ r.1) × (r.1 ≤ length p)

unpack_question-Ends : (p : Bytes) (o : ℕ) → Ends AnyMsgError (Moves p o) (unpack_question p o)
unfolding unpack_question
unpack_question-Ends p o =
    Ends-bind AnyMsgError (λ r. IsNext p o r.1) (Moves p o) (name_from_wire p o) _
      (from_wire-Ends p o) (λ r b. ground arith)

unpack_rr-Ends : (p : Bytes) (o : ℕ) → Ends AnyMsgError (Moves p o) (unpack_rr p o)
unfolding unpack_rr
unpack_rr-Ends p o =
    Ends-bind AnyMsgError (λ r. IsNext p o r.1) (Moves p o) (name_from_wire p o) _
      (from_wire-Ends p o) (λ r b. ground arith)

-- The message has as many records of each kind as the header of the packet announces.
abbrev pub HasCounts : Bytes → Msg → Type 0
HasCounts p m =
    (length m.questions ≡ u16 p 4)
    × (length m.answers ≡ u16 p 6)
    × (length m.authorities ≡ u16 p 8)
    × (length m.additionals ≡ u16 p 10)

abbrev Counted {ℓ} : {A : Type ℓ} → Bytes → ℕ → ℕ → List A × ℕ → Type 0
Counted p n o r = (length r.0 ≡ n) × (o ≤ r.1) × (r.1 ≤ length p)

unpack_questions-Counted :
    (p : Bytes) (n o : ℕ) → o ≤ length p → Ends AnyMsgError (Counted p n o) (unpack_questions p n o)
unfolding unpack_questions
unpack_questions-Counted p zero o h = (refl, omega arith, h)
unpack_questions-Counted p (suc n) o h =
    Ends-bind AnyMsgError (Moves p o) (Counted p (suc n) o) (unpack_question p o) _
      (unpack_question-Ends p o) (λ r b. ground (arith, unpack_questions-Counted p n r.1 b.1))

unpack_rr_section-Counted :
    (p : Bytes) (n o : ℕ)
    → o ≤ length p
    → Ends AnyMsgError (Counted p n o) (unpack_rr_section p n o)
unfolding unpack_rr_section
unpack_rr_section-Counted p zero o h = (refl, omega arith, h)
unpack_rr_section-Counted p (suc n) o h =
    Ends-bind AnyMsgError (Moves p o) (Counted p (suc n) o) (unpack_rr p o) _ (unpack_rr-Ends p o)
      (λ r b. ground (arith, unpack_rr_section-Counted p n r.1 b.1))

unpack_sections-Ends :
    (p : Bytes) (h : MsgHeader) (qd an ns ar : ℕ)
    → 12 ≤ length p
    → Ends AnyMsgError
        (λ m.
          (length m.questions ≡ qd)
          × (length m.answers ≡ an)
          × (length m.authorities ≡ ns)
          × (length m.additionals ≡ ar))
        (unpack_sections p h qd an ns ar)
unfolding unpack_sections
unpack_sections-Ends p h qd an ns ar l =
    Ends-bind AnyMsgError (Counted p qd 12) _ (unpack_questions p qd 12) _
      (unpack_questions-Counted p qd 12 l)
      (λ q a.
        Ends-bind AnyMsgError (Counted p an q.1) _ (unpack_rr_section p an q.1) _
          (unpack_rr_section-Counted p an q.1 a.2)
          (λ r b.
            Ends-bind AnyMsgError (Counted p ns r.1) _ (unpack_rr_section p ns r.1) _
              (unpack_rr_section-Counted p ns r.1 b.2)
              (λ s c. ground (arith, unpack_rr_section-Counted p ar s.1 c.2))))

-- Decoding ends for every packet, and a message has the counts of the packet's header.
pub unpack-Ends : (p : Bytes) → Ends AnyMsgError (HasCounts p) (unpack p)
unfolding unpack
unpack-Ends p = ground (
  arith,
  unpack_sections-Ends p (from_wire (u16 p 0) (u16 p 2)) (u16 p 4) (u16 p 6) (u16 p 8) (u16 p 10),
)
