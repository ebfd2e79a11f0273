-- ===== src/Msg/Names/Total.antt =====
-- The decoders of names return for every packet and every offset: pointers cannot make them loop.
use doh_server.Prelude.{
  ℕ, zero, suc, ◌+◌, ◌*◌, ◌-◌, ◌≤◌, ◌<◌, List, Option, none, some, length, Ends, ◌++◌, ◌∷◌, [],
  take, drop, arith,
}
use doh_server.Bytes.{Bytes, byte}
use doh_server.Msg.Names.{name_loop, from_wire, skip_wire_loop, skip_wire, or_some, pointer_to}

-- The offset behind the name is behind `o` and not behind the packet.
abbrev pub IsNext : Bytes → ℕ → ℕ → Type 0
IsNext p o n = (o < n) × (n ≤ length p)

abbrev pub IsConsumed : Bytes → ℕ → ℕ → Option ℕ → Type 0
IsConsumed p o current none = o ≤ current
IsConsumed p o current (some n) = IsNext p o n

name_loop-Ends :
    (fuel : ℕ) (p : Bytes) (labels : List Bytes) (o current : ℕ) (consumed : Option ℕ)
    (pointers wire_len : ℕ)
    → IsConsumed p o current consumed
    → pointers ≤ 128
    → wire_len ≤ 255
    → 511 < 2 * fuel + 2 * pointers + wire_len
    → Ends
        (λ _. Unit)
        (λ r. IsNext p o r.1)
        (name_loop fuel p labels current consumed pointers wire_len)
unfolding name_loop
name_loop-Ends zero p labels o current consumed pointers wire_len c a b f = absurd (omega arith)
name_loop-Ends (suc fuel) p labels o current none pointers wire_len c a b f =
    let len = byte p current in
    ground (
      arith,
      name_loop-Ends fuel p labels o (pointer_to len (byte p (current + 1)))
          (or_some none (current + 2)) (pointers + 1) wire_len,
      name_loop-Ends fuel p
          (labels ++ take (current + 1 + len - (current + 1)) (drop (current + 1) p) ∷ []) o
          (current + 1 + len) none pointers (wire_len + (1 + len)),
    )
name_loop-Ends (suc fuel) p labels o current (some n) pointers wire_len c a b f =
    let len = byte p current in
    ground (
      arith,
      name_loop-Ends fuel p labels o (pointer_to len (byte p (current + 1)))
          (or_some (some n) (current + 2)) (pointers + 1) wire_len,
      name_loop-Ends fuel p
          (labels ++ take (current + 1 + len - (current + 1)) (drop (current + 1) p) ∷ []) o
          (current + 1 + len) (some n) pointers (wire_len + (1 + len)),
    )

-- Decoding a name ends for every packet and offset, and what it returns lies behind the offset
-- and not behind the packet.
pub from_wire-Ends : (p : Bytes) (o : ℕ) → Ends (λ _. Unit) (λ r. IsNext p o r.1) (from_wire p o)
unfolding from_wire
from_wire-Ends p o =
    name_loop-Ends 260 p [] o o none 0 1 (omega arith) (omega arith) (omega arith) (omega arith)

skip_wire_loop-Ends :
    (fuel : ℕ) (p : Bytes) (current : ℕ)
    → length p < fuel + current
    → 0 < fuel
    → Ends (λ _. Unit) (λ n. IsNext p current n) (skip_wire_loop fuel p current)
unfolding skip_wire_loop
skip_wire_loop-Ends zero p current f z = absurd (omega arith)
skip_wire_loop-Ends (suc fuel) p current f z =
    ground (arith, skip_wire_loop-Ends fuel p (current + (1 + byte p current)))

pub skip_wire-Ends : (p : Bytes) (o : ℕ) → Ends (λ _. Unit) (λ n. IsNext p o n) (skip_wire p o)
unfolding skip_wire
skip_wire-Ends p o = skip_wire_loop-Ends (suc (length p)) p o (omega arith) (omega arith)
