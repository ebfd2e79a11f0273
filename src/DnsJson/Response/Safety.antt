-- ===== src/DnsJson/Response/Safety.antt =====
-- The JSON answer is made without a panic, for every packet.
use doh_server.Prelude.{
  ℕ, zero, suc, ◌+◌, ◌-◌, ◌%◌, ◌≤◌, ◌<◌, ◌≡◌, refl, inl, inr, Bool-cases, Bool, true, false, List,
  [], ◌∷◌, ◌++◌, Option, none, some, length, length-append, take, drop, err, Ends, Ends-Safe, Safe,
  Safe-bind, Safe-mono, leb, ◌==◌, if◌then◌else◌, arith,
}
use doh_server.Bytes.{Bytes, byte, u16, read_u16}
use doh_server.Dns.{rcode}
use doh_server.Msg.Names.{pointer_to}
use doh_server.DnsJson.{JsonError, packet_too_short, parse_name_loop, parse_name, push_label}
use doh_server.DnsJson.Response.{
  DnsQuestion, DnsAnswer, DnsJsonResponse, Rendering, v4_text, v6_text, domain, mail_exchange,
  texts, start_of_authority, service, authorisation, unknown, rendering, txt_loop, caa_text, render,
  parse_rr, parse_rrs, parse_questions, parse_sections, parse_dns_to_json, if_any, unless_empty,
}

abbrev Any : {A : Type 0} → A → Type 0
Any a = Unit

-- What the arms of the match know of the length.
abbrev HasRoom : Rendering → ℕ → Type 0
HasRoom v4_text n = n ≡ 4
HasRoom v6_text n = n ≡ 16
HasRoom mail_exchange n = 2 ≤ n
HasRoom service n = 6 ≤ n
HasRoom _ n = Unit

rendering-HasRoom : (rtype n : ℕ) → HasRoom (rendering rtype n) n
unfolding rendering
rendering-HasRoom rtype n = ground arith

read_u16-Safe : (p : Bytes) (o : ℕ) → o + 2 ≤ length p → Safe {E = JsonError} Any (read_u16 p o)
read_u16-Safe p o h = ground arith

abbrev pub size_of : {A : Type 0} → Option (List A) → ℕ
size_of none = 0
size_of (some l) = length l

-- A response for a packet: the questions that its header counts, and at most so many records.
pub record Fits (p : Bytes) (r : DnsJsonResponse) : Type 0 where
  pub header : 12 ≤ length p
  pub status : r.status ≡ byte p 3 % 16
  pub questions : size_of r.question ≡ u16 p 4
  pub answers : size_of r.answer ≤ u16 p 6
  pub authority : size_of r.authority ≤ u16 p 8
  pub additional : size_of r.additional ≤ u16 p 10

module _ (lossy : Bytes → Bytes) (base64 : Bytes → Bytes) (fuel : ℕ) where
  parse_name_loop-Safe :
      (rounds : ℕ) (p : Bytes) (offset : ℕ) (jumped : Bool) (jump_offset : ℕ) (name : Bytes)
      → Safe Any (parse_name_loop lossy rounds p offset jumped jump_offset name)
  unfolding parse_name_loop
  parse_name_loop-Safe zero p offset jumped jump_offset name = tt
  parse_name_loop-Safe (suc rounds) p offset jumped jump_offset name =
      let len = byte p offset in
      ground (
        arith,
        parse_name_loop-Safe rounds p (pointer_to len (byte p (offset + 1))) true
            (if jumped then jump_offset else offset + 2) name,
        parse_name_loop-Safe rounds p (offset + 1 + len) jumped jump_offset
            (push_label lossy name (take (offset + 1 + len - (offset + 1)) (drop (offset + 1) p))),
      )

  parse_name-Safe : (p : Bytes) (offset : ℕ) → Safe Any (parse_name lossy fuel p offset)
  unfolding parse_name
  parse_name-Safe p offset = parse_name_loop-Safe fuel p offset false 0 []

  -- The rounds of `txt_loop` are enough: each one goes on behind a byte.
  txt_loop-Ends :
      (rounds : ℕ) (p : Bytes) (offset end : ℕ) (text : Bytes)
      → end ≤ length p
      → 0 < rounds
      → end < offset + rounds
      → Ends (λ _. ⊥) Any (txt_loop lossy base64 fuel rounds p offset end text)
  unfolding txt_loop
  txt_loop-Ends zero p offset end text h z e = absurd (omega arith)
  txt_loop-Ends (suc rounds) p offset end text h z e =
      let len = byte p offset in
      ground (
        arith,
        txt_loop-Ends rounds p (offset + 1 + len) end
            (text
              ++ (if length text == 0 then [] else b' ' ∷ [])
              ++ lossy (take (offset + 1 + len - (offset + 1)) (drop (offset + 1) p)))
            h,
      )

  caa_text-Safe :
      (p : Bytes) (offset n : ℕ)
      → offset + n ≤ length p
      → Safe Any (caa_text lossy base64 fuel p offset n)
  unfolding caa_text
  caa_text-Safe p offset n h = ground arith

  render-Safe :
      (k : Rendering) (p : Bytes) (offset n : ℕ)
      → HasRoom k n
      → offset + n ≤ length p
      → Safe Any (render lossy base64 fuel k p offset n)
  unfolding render
  render-Safe v4_text p offset n k h = ground arith
  render-Safe v6_text p offset n k h = ground arith
  render-Safe domain p offset n k h =
      Safe-bind Any Any (parse_name lossy fuel p offset) _ (parse_name-Safe p offset) (λ r _. tt)
  render-Safe mail_exchange p offset n k h =
      Safe-bind Any Any (read_u16 p offset) _ (read_u16-Safe p offset (omega arith))
        (λ preference _.
          Safe-bind Any Any (parse_name lossy fuel p (offset + 2)) _
            (parse_name-Safe p (offset + 2)) (λ r _. tt))
  render-Safe texts p offset n k h =
      Ends-Safe Any (txt_loop lossy base64 fuel (n + 1) p offset (offset + n) [])
        (txt_loop-Ends (n + 1) p offset (offset + n) [] h (omega arith) (omega arith))
  render-Safe start_of_authority p offset n k h = tt
  render-Safe service p offset n k h =
      Safe-bind Any Any (read_u16 p offset) _ (read_u16-Safe p offset (omega arith)) (λ priority _.
        Safe-bind Any Any (read_u16 p (offset + 2)) _ (read_u16-Safe p (offset + 2) (omega arith))
          (λ weight _.
            Safe-bind Any Any (read_u16 p (offset + 4)) _
              (read_u16-Safe p (offset + 4) (omega arith))
              (λ port _.
                Safe-bind Any Any (parse_name lossy fuel p (offset + 6)) _
                  (parse_name-Safe p (offset + 6)) (λ r _. tt))))
  render-Safe authorisation p offset n k h = caa_text-Safe p offset n h
  render-Safe unknown p offset n k h = ground arith

  parse_rr-Safe :
      (p : Bytes) (offset : ℕ)
      → Safe (λ (r : List DnsAnswer × ℕ). length r.0 ≤ 1) (parse_rr lossy base64 fuel p offset)
  unfolding parse_rr
  parse_rr-Safe p offset =
      Safe-bind Any (λ (r : List DnsAnswer × ℕ). length r.0 ≤ 1) (parse_name lossy fuel p offset) _
        (parse_name-Safe p offset)
        (λ r _.
          let o = r.1 in
          let n = u16 p (o + 8) in
          ground (
            arith,
            render-Safe (rendering (u16 p o) n) p (o + 10) n (rendering-HasRoom (u16 p o) n),
          ))

  parse_rrs-Safe :
      (p : Bytes) (offset count : ℕ)
      → Safe
          (λ (r : List DnsAnswer × ℕ). length r.0 ≤ count)
          (parse_rrs lossy base64 fuel p offset count)
  unfolding parse_rrs
  parse_rrs-Safe p offset zero = omega arith
  parse_rrs-Safe p offset (suc count) =
      Safe-bind (λ (r : List DnsAnswer × ℕ). length r.0 ≤ 1)
        (λ (r : List DnsAnswer × ℕ). length r.0 ≤ suc count) (parse_rr lossy base64 fuel p offset) _
        (parse_rr-Safe p offset)
        (λ one a.
          Safe-bind (λ (r : List DnsAnswer × ℕ). length r.0 ≤ count)
            (λ (r : List DnsAnswer × ℕ). length r.0 ≤ suc count)
            (parse_rrs lossy base64 fuel p one.1 count) _ (parse_rrs-Safe p one.1 count)
            (λ more b. omega (arith, length-append one.0 more.0)))

  parse_questions-Safe :
      (p : Bytes) (offset count : ℕ)
      → Safe
          (λ (r : List DnsQuestion × ℕ). length r.0 ≡ count)
          (parse_questions lossy base64 fuel p offset count)
  unfolding parse_questions
  parse_questions-Safe p offset zero = refl
  parse_questions-Safe p offset (suc count) =
      Safe-bind Any (λ (r : List DnsQuestion × ℕ). length r.0 ≡ suc count)
        (parse_name lossy fuel p offset) _ (parse_name-Safe p offset)
        (λ r _. ground (arith, parse_questions-Safe p (r.1 + 4) count))

  size_of-unless_empty : (rs : List DnsAnswer) → size_of (unless_empty rs) ≡ length rs
  size_of-unless_empty [] = refl
  size_of-unless_empty (r ∷ rs) = refl

  size_of-if_any : (n : ℕ) (qs : List DnsQuestion) → length qs ≡ n → size_of (if_any n qs) ≡ n
  size_of-if_any n qs h = ground (arith, h)

  -- The parts of `Fits` that the sections have.
  record Filled (status qd an ns ar : ℕ) (r : DnsJsonResponse) : Type 0 where
    same_status : r.status ≡ status
    questions : size_of r.question ≡ qd
    answers : size_of r.answer ≤ an
    authority : size_of r.authority ≤ ns
    additional : size_of r.additional ≤ ar

  parse_sections-Safe :
      (p : Bytes) (flags qd an ns ar status : ℕ)
      → Safe
          (Filled status qd an ns ar)
          (parse_sections lossy base64 fuel p flags qd an ns ar status)
  unfolding parse_sections
  parse_sections-Safe p flags qd an ns ar status =
      Safe-bind (λ (r : List DnsQuestion × ℕ). length r.0 ≡ qd) (Filled status qd an ns ar)
        (parse_questions lossy base64 fuel p 12 qd) _ (parse_questions-Safe p 12 qd)
        (λ q hq.
          Safe-bind (λ (r : List DnsAnswer × ℕ). length r.0 ≤ an) (Filled status qd an ns ar)
            (parse_rrs lossy base64 fuel p q.1 an) _ (parse_rrs-Safe p q.1 an)
            (λ a ha.
              Safe-bind (λ (r : List DnsAnswer × ℕ). length r.0 ≤ ns) (Filled status qd an ns ar)
                (parse_rrs lossy base64 fuel p a.1 ns) _ (parse_rrs-Safe p a.1 ns)
                (λ b hb.
                  Safe-bind (λ (r : List DnsAnswer × ℕ). length r.0 ≤ ar)
                    (Filled status qd an ns ar) (parse_rrs lossy base64 fuel p b.1 ar) _
                    (parse_rrs-Safe p b.1 ar)
                    (λ c hc. record {
                      same_status = refl;
                      questions = size_of-if_any qd q.0 hq;
                      answers = omega (arith, size_of-unless_empty a.0);
                      authority = omega (arith, size_of-unless_empty b.0);
                      additional = omega (arith, size_of-unless_empty c.0);
                    }))))

  header_read :
      (p : Bytes)
      → 12 ≤ length p
      → parse_dns_to_json lossy base64 fuel p
        ≡ parse_sections lossy base64 fuel p
            (u16 p 2)
            (u16 p 4)
            (u16 p 6)
            (u16 p 8)
            (u16 p 10)
            (byte p 3 % 16)
  unfolding parse_dns_to_json rcode
  header_read p h = ground arith

  too_short :
      (p : Bytes) → length p < 12 → parse_dns_to_json lossy base64 fuel p ≡ err packet_too_short
  unfolding parse_dns_to_json
  too_short p h = ground arith

  -- For every packet and however many rounds its names take, the JSON answer is made without a
  -- panic. Where there is one, it has the packet's response code, as many questions as the header
  -- counts, and in each section at most as many records.
  pub parse_dns_to_json-Safe : (p : Bytes) → Safe (Fits p) (parse_dns_to_json lossy base64 fuel p)
  parse_dns_to_json-Safe p = elim (Bool-cases (leb 12 (length p))) [
    | inr short ↦ rw (too_short p (ground arith)) tt
    | inl long ↦ rw (header_read p (ground arith)) (
        Safe-mono (Filled (byte p 3 % 16) (u16 p 4) (u16 p 6) (u16 p 8) (u16 p 10)) (Fits p)
          (parse_sections lossy base64 fuel p (u16 p 2) (u16 p 4) (u16 p 6) (u16 p 8) (u16 p 10)
            (byte p 3 % 16))
          (parse_sections-Safe p (u16 p 2) (u16 p 4) (u16 p 6) (u16 p 8) (u16 p 10) (byte p 3 % 16))
          (λ r f. record {
            header = ground arith;
            status = f.same_status;
            questions = f.questions;
            answers = f.answers;
            authority = f.authority;
            additional = f.additional;
          }))
  ]
