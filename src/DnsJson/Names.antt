-- ===== src/DnsJson/Names.antt =====
-- `parse_name` against the decoder of src/libdoh/src/upstream/msg.rs, and on pointers that go round.
use doh_server.Prelude.{
  ℕ, zero, suc, ◌+◌, ◌-◌, ◌/◌, ◌≤◌, ◌≡◌, refl, sym, subst, Bool, true, false, List, [], ◌∷◌, ◌++◌,
  Option, none, some, length, take, drop, ok, out_of_fuel, if◌then◌else◌, arith,
}
use doh_server.Bytes.{Bytes, byte}
use doh_server.Msg.{Name}
use doh_server.Msg.Names.{name_loop, from_wire, pointer_to}
use doh_server.DnsJson.{push_label, parse_name_loop, parse_name}

module _ (lossy : Bytes → Bytes) where
  -- The labels behind a name, with dots between.
  abbrev pub joined_to : Bytes → List Bytes → Bytes
  joined_to name [] = name
  joined_to name (l ∷ ls) = joined_to (push_label lossy name l) ls

  joined_to-snoc :
      (name : Bytes) (ls : List Bytes) (l : Bytes)
      → joined_to name (ls ++ l ∷ []) ≡ push_label lossy (joined_to name ls) l
  joined_to-snoc name [] l = refl
  joined_to-snoc name (x ∷ ls) l = joined_to-snoc (push_label lossy name x) ls l

  abbrev is_some : Option ℕ → Bool
  is_some none = false
  is_some (some n) = true

  abbrev value_of : Option ℕ → ℕ
  value_of none = 0
  value_of (some n) = n

  module _ (p : Bytes) (name : Name) (e : ℕ) where
    -- Both loops go through the same labels.
    parse_name_loop-name_loop :
        (fuel : ℕ) (labels : List Bytes) (current : ℕ) (consumed : Option ℕ) (pointers wire_len : ℕ)
        → name_loop fuel p labels current consumed pointers wire_len ≡ ok (name, e)
        → parse_name_loop lossy fuel p current
            (is_some consumed)
            (value_of consumed)
            (joined_to [] labels)
          ≡ ok (joined_to [] name.labels, e)
    unfolding name_loop parse_name_loop
    parse_name_loop-name_loop zero labels current consumed pointers wire_len h = cc
    parse_name_loop-name_loop (suc fuel) labels current none pointers wire_len h =
        let len = byte p current in
        let label = take (current + 1 + len - (current + 1)) (drop (current + 1) p) in
        ground (
          arith,
          joined_to-snoc [] labels label,
          parse_name_loop-name_loop fuel labels (pointer_to len (byte p (current + 1)))
              (some (current + 2)) (pointers + 1) wire_len,
          parse_name_loop-name_loop fuel (labels ++ label ∷ []) (current + 1 + len) none pointers
              (wire_len + (1 + len)),
        )
    parse_name_loop-name_loop (suc fuel) labels current (some n) pointers wire_len h =
        let len = byte p current in
        let label = take (current + 1 + len - (current + 1)) (drop (current + 1) p) in
        ground (
          arith,
          joined_to-snoc [] labels label,
          parse_name_loop-name_loop fuel labels (pointer_to len (byte p (current + 1))) (some n)
              (pointers + 1) wire_len,
          parse_name_loop-name_loop fuel (labels ++ label ∷ []) (current + 1 + len) (some n)
              pointers (wire_len + (1 + len)),
        )

  -- Where the decoder of the upstream messages accepts a name, the reader for JSON ends within 260
  -- rounds, with the labels of that name joined by dots and the same offset behind it.
  pub parse_name-from_wire :
      (p : Bytes) (o : ℕ) (name : Name) (e : ℕ)
      → from_wire p o ≡ ok (name, e)
      → parse_name lossy 260 p o ≡ ok (joined_to [] name.labels, e)
  unfolding parse_name from_wire
  parse_name-from_wire p o name e h = parse_name_loop-name_loop p name e 260 [] o none 0 1 h

  loop-at_itself :
      (fuel : ℕ) (p : Bytes) (o : ℕ) (jumped : Bool) (jump_offset : ℕ) (name : Bytes)
      → o + 2 ≤ length p
      → byte p o / 64 ≡ 3
      → pointer_to (byte p o) (byte p (o + 1)) ≡ o
      → parse_name_loop lossy fuel p o jumped jump_offset name ≡ out_of_fuel
  unfolding parse_name_loop
  loop-at_itself zero p o jumped jump_offset name h b e = refl
  loop-at_itself (suc fuel) p o jumped jump_offset name h b e =
      let next = if jumped then jump_offset else o + 2 in
      let again =
        subst (λ k. parse_name_loop lossy fuel p k true next name ≡ out_of_fuel) (sym e)
          (loop-at_itself fuel p o true next name h b e) in
      ground (arith, again)

  -- A name that is a compression pointer to itself keeps the loop of the reader running: no number
  -- of rounds is enough.
  pub parse_name_diverges :
      (fuel : ℕ) (p : Bytes) (o : ℕ)
      → o + 2 ≤ length p
      → byte p o / 64 ≡ 3
      → pointer_to (byte p o) (byte p (o + 1)) ≡ o
      → parse_name lossy fuel p o ≡ out_of_fuel
  unfolding parse_name
  parse_name_diverges fuel p o h b e = loop-at_itself fuel p o false 0 [] h b e
