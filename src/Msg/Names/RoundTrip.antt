-- ===== src/Msg/Names/RoundTrip.antt =====
-- A name that `pack_into` writes is decoded to the same labels.
use doh_server.Prelude.{
  ℕ, zero, suc, ◌+◌, ◌-◌, ◌%◌, ◌≤◌, ◌<◌, ◌≡◌, refl, ap, ◌∙◌, List, [], ◌∷◌, ◌++◌, append_assoc,
  append-nil, All, none, length, length-append, take, drop, ok, ◌>>=◌, arith,
}
use mathlib.Core.Path.{ap₂}
use doh_server.Bytes.{Bytes, byte, slice}
use doh_server.Msg.{MsgError, Name}
use doh_server.Msg.Names.{name_loop, from_wire, pack_labels, pack_into}
use doh_server.Msg.Codec.Holds.{
  Holds, Holds-left, Holds-right, Holds-le, slice-Holds, byte-Holds_head,
}

-- A label of 1 to 63 bytes.
abbrev pub IsLabel : Bytes → Type 0
IsLabel l = (0 < length l) × (length l < 64)

-- The bytes of a name: each label behind its length, and the root.
abbrev pub wire : List Bytes → Bytes
wire [] = 0 ∷ []
wire (l ∷ ls) = (length l % 256) ∷ (l ++ wire ls)

-- What `from_wire` counts: the length bytes and the labels, with the root.
abbrev pub wire_size : List Bytes → ℕ
wire_size [] = 1
wire_size (l ∷ ls) = 1 + length l + wire_size ls

-- The labels are valid, and the name takes at most 255 bytes.
pub record IsName (n : Name) : Type 0 where
  pub each : All IsLabel n.labels
  pub size : wire_size n.labels ≤ 255

pack_labels-wire :
    (ls : List Bytes) (out : Bytes)
    → All IsLabel ls
    → (pack_labels ls out >>= λ o. ok (o ++ 0 ∷ [])) ≡ ok (out ++ wire ls)
unfolding pack_labels
pack_labels-wire [] out h = refl
pack_labels-wire (l ∷ ls) out h =
    let e = append_assoc out (length l % 256 ∷ l) (wire ls) in
    ground (arith, pack_labels-wire ls (out ++ (length l % 256 ∷ l)) h.1)

pub pack_into-wire :
    (n : Name) (out : Bytes) → IsName n → pack_into n out ≡ ok (out ++ wire n.labels)
unfolding pack_into
pack_into-wire n out v = pack_labels-wire n.labels out v.each

slice-eq :
    (p : Bytes) (o n : ℕ) (w : Bytes)
    → n ≡ length w
    → Holds p o w
    → slice {E = MsgError} p o (o + n) ≡ ok w
slice-eq p o n w e h =
    let l = Holds-le w h in
    let t : take (o + n - o) (drop o p) ≡ w =
      ap (λ k. take k (drop o p)) (omega arith) ∙ slice-Holds w h in
    ground arith

-- A round of the decoder over a label.
name_loop_label :
    (fuel : ℕ) (p : Bytes) (acc : List Bytes) (o wire_len : ℕ) (w : Bytes)
    → byte p o ≡ length w
    → IsLabel w
    → o + 1 + length w ≤ length p
    → wire_len + (1 + length w) ≤ 255
    → slice {E = MsgError} p (o + 1) (o + 1 + length w) ≡ ok w
    → name_loop (suc fuel) p acc o none 0 wire_len
      ≡ name_loop fuel p (acc ++ w ∷ []) (o + 1 + length w) none 0 (wire_len + (1 + length w))
unfolding name_loop
name_loop_label fuel p acc o wire_len w b v l s e = rw b (ground arith)

wire_size-room :
    (x : Bytes) (ls : List Bytes) (k : ℕ) → k + wire_size (x ∷ ls) ≤ 256 → k + (1 + length x) ≤ 255
wire_size-room x [] k h = omega arith
wire_size-room x (l ∷ ls) k h = omega arith

name_loop-wire :
    (fuel : ℕ) (p : Bytes) (acc ls : List Bytes) (o wire_len : ℕ)
    → Holds p o (wire ls)
    → All IsLabel ls
    → wire_len + wire_size ls ≤ 256
    → length ls < fuel
    → name_loop fuel p acc o none 0 wire_len
      ≡ ok (record { labels = acc ++ ls }, o + length (wire ls))
unfolding name_loop
name_loop-wire zero p acc ls o wire_len h v s f = absurd (omega arith)
name_loop-wire (suc fuel) p acc [] o wire_len h v s f =
    let b = byte-Holds_head 0 [] h in let l = Holds-le (0 ∷ []) h in ground (arith, append-nil acc)
name_loop-wire (suc fuel) p acc (x ∷ ls) o wire_len h v s f =
    let b = byte-Holds_head (length x % 256) (x ++ wire ls) h in
    let behind = Holds-right (length x % 256 ∷ []) (x ++ wire ls) h in
    let rest = Holds-right x (wire ls) behind in
    let l = Holds-le (wire ls) rest in
    name_loop_label fuel p acc o wire_len x (omega arith) v.0 (omega arith)
      (wire_size-room x ls wire_len s)
      (slice-eq p (o + 1) (length x) x refl (Holds-left x (wire ls) behind))
    ∙ name_loop-wire fuel p (acc ++ x ∷ []) ls (o + 1 + length x) (wire_len + (1 + length x)) rest
        v.1 (omega arith) (omega arith)
    ∙ ap₂ (λ n k. ok (record { labels = n }, k)) (append_assoc acc (x ∷ []) ls)
        (omega (arith, length-append x (wire ls)))

length-le-wire_size : (ls : List Bytes) → length ls < wire_size ls
length-le-wire_size [] = omega arith
length-le-wire_size (l ∷ ls) = omega (arith, length-le-wire_size ls)

-- Decoding at the place where a name was written gives the name, and the offset behind it.
pub from_wire-wire :
    (p : Bytes) (o : ℕ) (n : Name)
    → Holds p o (wire n.labels)
    → IsName n
    → from_wire p o ≡ ok (n, o + length (wire n.labels))
unfolding from_wire
from_wire-wire p o n h v =
    name_loop-wire 260 p [] n.labels o 1 h v.each (omega (arith, v.size))
      (omega (arith, v.size, length-le-wire_size n.labels))
