-- ===== src/Msg/Codec/Holds.antt =====
-- Bytes that stand at an offset of a packet, and what the readers give there.
use doh_server.Prelude.{
  ℕ, ◌+◌, ◌/◌, ◌%◌, ◌≤◌, ◌<◌, ◌≡◌, refl, sym, ap, ◌∙◌, [], ◌∷◌, ◌++◌, append_assoc, length,
  length-append, get_or, take, drop, get_or-append_right, get_or-append_left, drop-append,
  take-append, arith,
}
use doh_server.Bytes.{Bytes, byte, u16, u32, be16, be32}

-- `w` stands at offset `o` of `p`.
pub record Holds (p : Bytes) (o : ℕ) (w : Bytes) : Type 0 where
  pub before : Bytes
  pub after : Bytes
  pub splits : p ≡ before ++ (w ++ after)
  pub starts : o ≡ length before

module _ {p : Bytes} {o : ℕ} where
  -- The front of what stands there, and the rest behind it.
  pub Holds-left : (u w : Bytes) → Holds p o (u ++ w) → Holds p o u
  Holds-left u w h = record {
    before = h.before;
    after = w ++ h.after;
    splits = h.splits ∙ ap (λ t. h.before ++ t) (append_assoc u w h.after);
    starts = h.starts;
  }

  pub Holds-right : (u w : Bytes) → Holds p o (u ++ w) → Holds p (o + length u) w
  Holds-right u w h = record {
    before = h.before ++ u;
    after = h.after;
    splits =
        h.splits
        ∙ ap (λ t. h.before ++ t) (append_assoc u w h.after)
        ∙ sym (append_assoc h.before u (w ++ h.after));
    starts = omega (arith, h.starts, length-append h.before u);
  }

  pub Holds-le : (w : Bytes) → Holds p o w → o + length w ≤ length p
  Holds-le w h = omega (
    arith,
    h.starts,
    ap length h.splits,
    length-append h.before (w ++ h.after),
    length-append w h.after,
  )

  byte-Holds : (w : Bytes) (i : ℕ) → Holds p o w → i < length w → byte p (o + i) ≡ get_or w i 0
  unfolding byte
  byte-Holds w i h l =
      ap (λ t. get_or t (o + i) 0) h.splits
      ∙ get_or-append_right h.before (w ++ h.after) i (o + i) 0 (omega (arith, h.starts))
      ∙ get_or-append_left w h.after i 0 l

  pub slice-Holds : (w : Bytes) → Holds p o w → take (length w) (drop o p) ≡ w
  slice-Holds w h =
      ap (λ t. take (length w) (drop o t)) h.splits
      ∙ ap (take (length w)) (drop-append h.before (w ++ h.after) o h.starts)
      ∙ take-append w h.after (length w) refl

  pub byte-Holds_head : (b : ℕ) (w : Bytes) → Holds p o (b ∷ w) → byte p o ≡ b
  byte-Holds_head b w h = ap (byte p) (omega arith) ∙ byte-Holds (b ∷ w) 0 h (omega arith)

  pub u16-Holds : (v : ℕ) → Holds p o (be16 v) → v < 65536 → u16 p o ≡ v
  unfolding u16
  u16-Holds v h l =
      let a = byte-Holds_head (v / 256 % 256) (v % 256 ∷ []) h in
      let b = byte-Holds (be16 v) 1 h (omega arith) in omega arith

  pub u32-Holds : (v : ℕ) → Holds p o (be32 v) → v < 4294967296 → u32 p o ≡ v
  unfolding u32 u16
  u32-Holds v h l =
      let a = byte-Holds_head _ _ h in
      let b = byte-Holds (be32 v) 1 h (omega arith) in
      let c = byte-Holds (be32 v) 2 h (omega arith) in
      let d = byte-Holds (be32 v) 3 h (omega arith) in
      let e : byte p (o + 2 + 1) ≡ byte p (o + 3) = ap (byte p) (omega arith) in omega arith
