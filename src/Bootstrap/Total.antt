-- ===== src/Bootstrap/Total.antt =====
-- The bootstrap lookup returns for every packet, pointers that go round included.
use doh_server.Prelude.{
  ℕ, zero, suc, ◌+◌, ◌-◌, ◌≤◌, ◌<◌, Bool, true, false, ◌++◌, ◌∷◌, [], length, map, take, drop,
  Outcome, Ends, Ends-bind, leb, arith, ensure, if◌then◌else◌,
}
use doh_server.Bytes.{Bytes, byte}
use doh_server.Errors.{DohError, upstream_issue}
use doh_server.Bootstrap.{walk_labels, follow, parse_dns_name_lower, to_ascii_lowercase}
use doh_server.Msg.Names.{pointer_to}
use doh_server.Msg.Names.Total.{IsNext}

-- Where the name ends, once a pointer was followed; before it, the cursor tells.
abbrev pub Held : Bytes → ℕ → ℕ → ℕ → Bool → Type 0
Held p o cursor next_offset true = IsNext p o next_offset
Held p o cursor next_offset false = o ≤ cursor

abbrev pub AnyDohError : {X : Type 0} → DohError X → Type 0
AnyDohError e = Unit

module _ (X : Type 0) where
  abbrev pub Jumps : Bytes → ℕ → (ℕ → ℕ → Bool → Bytes → Outcome (DohError X) (Bytes × ℕ)) → Type 0
  Jumps p o jump =
      (ptr n : ℕ) (first : Bool) (name : Bytes)
      → IsNext p o n
      → Ends {E = DohError X} AnyDohError (λ r. IsNext p o r.1) (jump ptr n first name)

  walk_labels-Ends :
      (p : Bytes) (o : ℕ) (jump : ℕ → ℕ → Bool → Bytes → Outcome (DohError X) (Bytes × ℕ))
      (j : Jumps p o jump) (fuel cursor next_offset : ℕ) (jumped first : Bool) (name : Bytes)
      → Held p o cursor next_offset jumped
      → length p < fuel + cursor
      → 0 < fuel
      → Ends {E = DohError X} AnyDohError
          (λ r. IsNext p o r.1)
          (walk_labels jump fuel p cursor next_offset jumped first name)
  unfolding walk_labels
  walk_labels-Ends p o jump j zero cursor next_offset jumped first name h f z = absurd (omega arith)
  walk_labels-Ends p o jump j (suc fuel) cursor next_offset true first name h f z =
      let len = byte p cursor in
      ground (
        arith,
        j (pointer_to len (byte p (cursor + 1))) next_offset first name,
        walk_labels-Ends p o jump j fuel (cursor + 1 + len) next_offset true false (
            name
            ++ (if first then [] else b'.' ∷ [])
            ++ map to_ascii_lowercase
                (take (cursor + 1 + len - (cursor + 1)) (drop (cursor + 1) p))),
      )
  walk_labels-Ends p o jump j (suc fuel) cursor next_offset false first name h f z =
      let len = byte p cursor in
      ground (
        arith,
        j (pointer_to len (byte p (cursor + 1))) (cursor + 2) first name,
        walk_labels-Ends p o jump j fuel (cursor + 1 + len) next_offset false false (
            name
            ++ (if first then [] else b'.' ∷ [])
            ++ map to_ascii_lowercase
                (take (cursor + 1 + len - (cursor + 1)) (drop (cursor + 1) p))),
      )

  follow-Ends :
      (fuel : ℕ) (p : Bytes) (o jump_count cursor next_offset : ℕ) (jumped first : Bool)
      (name : Bytes)
      → Held p o cursor next_offset jumped
      → jump_count ≤ length p
      → length p < fuel + jump_count
      → Ends {E = DohError X} AnyDohError
          (λ r. IsNext p o r.1)
          (follow fuel p jump_count cursor next_offset jumped first name)
  unfolding follow
  follow-Ends zero p o jump_count cursor next_offset jumped first name h a f = absurd (omega arith)
  follow-Ends (suc fuel) p o jump_count cursor next_offset jumped first name h a f =
      walk_labels-Ends p o _
        (λ ptr n first' name' h'.
          Ends-bind {E = DohError X} AnyDohError (λ u. jump_count + 1 ≤ length p)
            (λ r. IsNext p o r.1) (ensure (leb (jump_count + 1) (length p)) upstream_issue) _
            (ground arith)
            (λ u b.
              follow-Ends fuel p o (jump_count + 1) ptr n true first' name' h' b (omega arith)))
        (suc (length p)) cursor next_offset jumped first name h (omega arith) (omega arith)

  -- Reading a name ends for every packet and offset, pointers that go round included, and the
  -- offset it returns lies behind the start and not behind the packet.
  pub parse_dns_name_lower-Ends :
      (p : Bytes) (start : ℕ)
      → Ends {E = DohError X} AnyDohError (λ r. IsNext p start r.1) (parse_dns_name_lower p start)
  unfolding parse_dns_name_lower
  parse_dns_name_lower-Ends p start = ground (
    arith,
    follow-Ends (suc (length p)) p start 0 start start false true [] (omega arith) (omega arith)
        (omega arith),
  )
