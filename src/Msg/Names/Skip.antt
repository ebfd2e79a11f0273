-- ===== src/Msg/Names/Skip.antt =====
-- Where a name is decoded, `skip_wire` finds the same end.
use doh_server.Prelude.{
  ℕ, zero, suc, ◌+◌, ◌-◌, ◌<◌, ◌≡◌, List, [], ◌∷◌, ◌++◌, none, some, length, take, drop, ok, arith,
}
use doh_server.Bytes.{Bytes, byte}
use doh_server.Msg.{Name}
use doh_server.Msg.Names.{name_loop, from_wire, skip_wire_loop, skip_wire, pointer_to}

-- Behind a pointer the end is settled.
name_loop-some :
    (fuel : ℕ) (p : Bytes) (labels : List Bytes) (current d pointers wire_len : ℕ) (r : Name × ℕ)
    → name_loop fuel p labels current (some d) pointers wire_len ≡ ok r
    → r.1 ≡ d
unfolding name_loop
name_loop-some zero p labels current d pointers wire_len r h = cc
name_loop-some (suc fuel) p labels current d pointers wire_len r h =
    let len = byte p current in
    ground (
      arith,
      name_loop-some fuel p labels (pointer_to len (byte p (current + 1))) d (pointers + 1) wire_len
          r,
      name_loop-some fuel p
          (labels ++ take (current + 1 + len - (current + 1)) (drop (current + 1) p) ∷ [])
          (current + 1 + len) d pointers (wire_len + (1 + len)) r,
    )

skip_wire_loop-of-name_loop :
    (fuel fuel' : ℕ) (p : Bytes) (labels : List Bytes) (current pointers wire_len : ℕ)
    (r : Name × ℕ)
    → name_loop fuel p labels current none pointers wire_len ≡ ok r
    → length p < fuel' + current
    → 0 < fuel'
    → skip_wire_loop fuel' p current ≡ ok r.1
unfolding name_loop skip_wire_loop
skip_wire_loop-of-name_loop zero fuel' p labels current pointers wire_len r h f z = cc
skip_wire_loop-of-name_loop (suc fuel) zero p labels current pointers wire_len r h f z =
    absurd (omega arith)
skip_wire_loop-of-name_loop (suc fuel) (suc fuel') p labels current pointers wire_len r h f z =
    let len = byte p current in
    ground (
      arith,
      name_loop-some fuel p labels (pointer_to len (byte p (current + 1))) (current + 2)
          (pointers + 1) wire_len r,
      skip_wire_loop-of-name_loop fuel fuel' p
          (labels ++ take (current + 1 + len - (current + 1)) (drop (current + 1) p) ∷ [])
          (current + 1 + len) pointers (wire_len + (1 + len)) r,
    )

pub skip_wire-of-from_wire :
    (p : Bytes) (o : ℕ) (r : Name × ℕ) → from_wire p o ≡ ok r → skip_wire p o ≡ ok r.1
unfolding from_wire skip_wire
skip_wire-of-from_wire p o r h =
    skip_wire_loop-of-name_loop 260 (suc (length p)) p [] o 0 1 r h (omega arith) (omega arith)
