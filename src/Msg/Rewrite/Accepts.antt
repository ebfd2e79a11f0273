-- ===== src/Msg/Rewrite/Accepts.antt =====
-- One record that the decoder reads is skipped and rewritten without an error.
use doh_server.Prelude.{
  ℕ, zero, suc, ◌+◌, ◌≤◌, ◌≡◌, refl, ◌∙◌, [], ◌∷◌, length, set, get_or-set_ne, Outcome, ok,
  >>=-eq-ok, arith,
}
use doh_server.Bytes.{Bytes, byte, u16}
use doh_server.Msg.{MsgError, ResourceRecord}
use doh_server.Msg.Names.{from_wire, skip_wire_loop, skip_wire}
use doh_server.Msg.Names.Total.{IsNext, from_wire-Ends}
use doh_server.Msg.Names.Skip.{skip_wire-of-from_wire}
use doh_server.Msg.Codec.{unpack_rr}
use doh_server.Msg.Answers.{IpAddr, v4, v6, IsIp, Holding, a_record, aaaa_record, other}
use doh_server.Msg.Rewrite.{overwrite, put_ip, rewrite_answer}
use doh_server.Msg.Rewrite.Total.{Fits, kind, kind-Fits, length-overwrite}

-- From offset `o` on, `q` has the bytes of `p`, and as many.
pub record Agrees (p q : Bytes) (o : ℕ) : Type 0 where
  pub size : length q ≡ length p
  pub same : (i : ℕ) → o ≤ i → byte q i ≡ byte p i

pub Agrees-refl : (p : Bytes) (o : ℕ) → Agrees p p o
Agrees-refl p o = record { size = refl; same = λ i _. refl }

pub Agrees-le : {p q : Bytes} {o : ℕ} (n : ℕ) → o ≤ n → Agrees p q o → Agrees p q n
Agrees-le n h a = record { size = a.size; same = λ i l. a.same i (omega arith) }

skip_wire_loop-Agrees :
    (fuel : ℕ) (p q : Bytes) (o : ℕ)
    → Agrees p q o
    → skip_wire_loop fuel q o ≡ skip_wire_loop fuel p o
unfolding skip_wire_loop
skip_wire_loop-Agrees zero p q o a = refl
skip_wire_loop-Agrees (suc fuel) p q o a =
    let size = a.size in
    let b = a.same o (omega arith) in
    let c = a.same (o + 1) (omega arith) in
    let ih =
      skip_wire_loop-Agrees fuel p q (o + (1 + byte p o))
        (Agrees-le (o + (1 + byte p o)) (omega arith) a) in
    rw (b, size) (ground arith)

pub skip_wire-Agrees : (p q : Bytes) (o : ℕ) → Agrees p q o → skip_wire q o ≡ skip_wire p o
unfolding skip_wire
skip_wire-Agrees p q o a = rw a.size (skip_wire_loop-Agrees (suc (length p)) p q o a)

pub u16-Agrees : (p q : Bytes) {o : ℕ} (i : ℕ) → Agrees p q o → o ≤ i → u16 q i ≡ u16 p i
unfolding u16
u16-Agrees p q i a h = omega (arith, a.same i h, a.same (i + 1) (omega arith))

byte-overwrite :
    (p : Bytes) (a : ℕ) (w : Bytes) (i : ℕ) → a + length w ≤ i → byte (overwrite p a w) i ≡ byte p i
unfolding overwrite
byte-overwrite p a [] i h = refl
byte-overwrite p a (x ∷ w) i h =
    byte-overwrite (set p a x) (a + 1) w i (omega arith)
    ∙ unfold byte in get_or-set_ne p a i x 0 (omega arith)

-- What the decoder has read of a record: the end `o` of its name, and the end of the record.
pub record Read (p : Bytes) (off : ℕ) (next : ℕ) : Type 0 where
  pub o : ℕ
  pub behind : IsNext p off o
  pub name : skip_wire p off ≡ ok o
  pub fixed : o + 10 ≤ length p
  pub ends : next ≡ o + 10 + u16 p (o + 8)
  pub within : next ≤ length p

pub Read-le : {p : Bytes} {off next : ℕ} → Read p off next → off ≤ next
Read-le r = let b = r.behind in let e = r.ends in omega arith

pub unpack_rr-Read :
    (p : Bytes) (off : ℕ) (r : ResourceRecord × ℕ) → unpack_rr p off ≡ ok r → Read p off r.1
unfolding unpack_rr
unpack_rr-Read p off r h =
    let (n, name, h') = >>=-eq-ok (from_wire p off) _ h in
    let b : IsNext p off n.1 = ground (arith, from_wire-Ends p off) in
    let s = skip_wire-of-from_wire p off n name in
    record {
      o = n.1;
      behind = b;
      name = s;
      fixed = ground arith;
      ends = ground arith;
      within = ground arith;
    }

-- The packet after a rewrite, which agrees with `p` behind `next`.
pub record Rewritten (p : Bytes) (next : ℕ) (run : Outcome MsgError (Bytes × ℕ)) : Type 0 where
  pub packet : Bytes
  pub runs : run ≡ ok (packet, next)
  pub agrees : Agrees p packet next

module _ (ip : IpAddr) (fits_ip : IsIp ip) where
  put_ip-Agrees :
      (p q : Bytes) (a : ℕ) (k : Holding) (n : ℕ)
      → Agrees p q a
      → Fits k n
      → a + n ≤ length q
      → (q' : Bytes) × (put_ip q a k ip ≡ ok q') × Agrees p q' (a + n)
  put_ip-Agrees p q a k n g f l = put ip fits_ip k f
    where
      keep : Agrees p q (a + n)
      keep = Agrees-le (a + n) (omega arith) g

      over : (w : Bytes) → length w ≡ n → Agrees p (overwrite q a w) (a + n)
      over w e = record {
        size = length-overwrite q a w ∙ g.size;
        same = λ i h. byte-overwrite q a w i (omega arith) ∙ g.same i (omega arith);
      }

      put :
          (j : IpAddr)
          → IsIp j
          → (k' : Holding) → Fits k' n
          → (q' : Bytes) × (put_ip q a k' j ≡ ok q') × Agrees p q' (a + n)
      put (v4 w) h a_record f' =
          (overwrite q a w, unfold put_ip in ground arith, over w (omega arith))
      put (v6 w) h a_record f' = (q, unfold put_ip in refl, keep)
      put (v4 w) h aaaa_record f' = (q, unfold put_ip in refl, keep)
      put (v6 w) h aaaa_record f' =
          (overwrite q a w, unfold put_ip in ground arith, over w (omega arith))
      put j h other f' = (q, unfold put_ip in refl, keep)

  pub rewrite_answer-Read :
      (p q : Bytes) (off next : ℕ)
      → Read p off next
      → Agrees p q off
      → Rewritten p next (rewrite_answer q off ip)
  unfolding rewrite_answer
  rewrite_answer-Read p q off next r g =
      let o = r.o in
      let name = skip_wire-Agrees p q off g ∙ r.name in
      let n = u16 q (o + 8) in
      let e : n ≡ u16 p (o + 8) = u16-Agrees p q (o + 8) g (omega arith) in
      let k = kind (u16 q o) (u16 q (o + 2)) n in
      let size = g.size in
      let fixed = r.fixed in
      let ends = r.ends in
      let within = r.within in
      let (q', runs, a) =
        put_ip-Agrees p q (o + 10) k n (Agrees-le (o + 10) (omega arith) g)
          (kind-Fits (u16 q o) (u16 q (o + 2)) n) (omega arith) in
      record { packet = q'; runs = rw name (ground arith); agrees = Agrees-le next (omega arith) a }
