-- ===== src/Dns/Grammar.antt =====
-- `skip_name` against the grammar of names on the wire.
use doh_server.Prelude.{
  ℕ, zero, suc, ◌+◌, ◌*◌, ◌≤◌, ◌<◌, ◌≡◌, ◌↔◌, inl, inr, refl, Bool-cases, length, ok, ◌==◌, arith,
}
use doh_server.Bytes.{Bytes, byte, top_bits}
use doh_server.Dns.{skip_loop, skip_name}

-- From offset `o` of the packet, a name that ends before offset `e` and whose labels and root
-- take `k` bytes. A pointer ends the name, and it is not followed.
pub data WireName (p : Bytes) : ℕ → ℕ → ℕ → Type 0 where
  pointer :
      {o e k : ℕ} → top_bits (byte p o) ≡ 3 → e ≡ o + 2 → k ≡ 0 → e ≤ length p → WireName p o k e
  root : {o e k : ℕ} → byte p o ≡ 0 → e ≡ o + 1 → k ≡ 1 → e < length p → WireName p o k e
  label :
      {o e k j : ℕ}
      → 0 < byte p o
      → byte p o < 64
      → o + (byte p o + 1) < length p
      → WireName p (o + (byte p o + 1)) j e
      → k ≡ byte p o + 1 + j
      → WireName p o k e

module _ (p : Bytes) where
  skip_loop_sound :
      (fuel o q e : ℕ)
      → skip_loop fuel p o q ≡ ok e
      → q ≤ 256
      → (k : ℕ) × WireName p o k e × (q + k ≤ 256)
  unfolding skip_loop
  skip_loop_sound zero o q e h l = cc
  skip_loop_sound (suc fuel) o q e h l = elim (Bool-cases (top_bits (byte p o) == 3)) [
    | inl ptr ↦ (0, pointer (ground arith) (ground arith) refl (ground arith), ground arith)
    | inr plain ↦ elim (Bool-cases (byte p o == 0)) [
      | inl end ↦ (1, root (ground arith) (ground arith) refl (ground arith), ground arith)
      | inr more ↦
          let (k, w, b) =
            skip_loop_sound fuel (o + (byte p o + 1)) (q + (byte p o + 1)) e (ground arith)
              (ground arith) in
          (
            byte p o + 1 + k,
            label {j = k} (ground arith) (ground arith) (ground arith) w refl,
            omega arith,
          )
    ]
  ]

  skip_loop_complete :
      (fuel : ℕ) {o k e : ℕ} (q : ℕ)
      → WireName p o k e
      → q + k ≤ 256
      → 256 < q + 2 * fuel
      → o < length p
      → skip_loop fuel p o q ≡ ok e
  unfolding skip_loop
  skip_loop_complete zero q w l f z = absurd (omega arith)
  skip_loop_complete (suc fuel) q (pointer b s u l') l f z = ground arith
  skip_loop_complete (suc fuel) q (root b s u l') l f z = ground arith
  skip_loop_complete (suc fuel) {o = o} q (label {j = j} b b' l' w u) l f z =
      ground (arith, skip_loop_complete fuel (q + (byte p o + 1)) w)

-- For a packet that is not empty, `skip_name` accepts exactly the names of the grammar that take at most 256 bytes and do not
-- start at the last byte of the packet, and returns the offset behind them.
pub skip_name_iff :
    (p : Bytes) (o e : ℕ)
    → 0 < length p
    → (skip_name p o ≡ ok e) ↔ ((k : ℕ) × WireName p o k e × (k ≤ 256) × (o + 1 < length p))
unfolding skip_name
skip_name_iff p o e z = (
  λ h.
      (let (k, w, b) = skip_loop_sound p 130 o 0 e (ground arith) (omega arith) in
        (k, w, omega arith, ground arith)),
  λ h. ground (arith, skip_loop_complete p 130 0 h.1),
)
