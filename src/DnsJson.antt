-- ===== src/DnsJson.antt =====
-- src/libdoh/src/dns_json.rs: the reader of names for the JSON answers.
pub mod Names
pub mod Response
pub mod Query
use doh_server.Prelude.{
  ℕ, zero, suc, ◌+◌, Bool, true, false, List, [], ◌∷◌, ◌++◌, length, Outcome, ok, out_of_fuel,
  ◌>>=◌, ◌>>◌, ensure, ltb, leb, ◌==◌, if◌then◌else◌,
}
use doh_server.Bytes.{Bytes, at, slice, top_bits}
use doh_server.Msg.Names.{pointer_to}

-- The messages of the errors.
pub data JsonError : Type 0 where
  packet_too_short incomplete_question incomplete_rr data_beyond_packet : JsonError
  name_beyond_packet incomplete_pointer label_beyond_packet : JsonError

-- `lossy` is `String::from_utf8_lossy`, which reads bytes as text and writes a mark for what is no
-- UTF-8.
module _ (lossy : Bytes → Bytes) where
  -- A label behind the name so far, with a dot unless the name is empty.
  abbrev pub push_label : Bytes → Bytes → Bytes
  push_label name label = name ++ (if length name == 0 then [] else b'.' ∷ []) ++ lossy label

  -- The loop of `parse_name`, at most `fuel` rounds of it. The code has no such bound.
  unfoldable pub parse_name_loop : ℕ → Bytes → ℕ → Bool → ℕ → Bytes → Outcome JsonError (Bytes × ℕ)
  parse_name_loop zero p offset jumped jump_offset name = out_of_fuel
  parse_name_loop (suc fuel) p offset jumped jump_offset name = do
    ensure (ltb offset (length p)) name_beyond_packet
    len ← at p offset
    elim (top_bits len == 3) [
      | true ↦ do
        ensure (ltb (offset + 1) (length p)) incomplete_pointer
        b2 ← at p (offset + 1)
        parse_name_loop fuel p (pointer_to len b2) true (if jumped then jump_offset else offset + 2)
            name
      | false ↦ elim (len == 0) [
        | true ↦ ok (name, if jumped then jump_offset else offset + 1)
        | false ↦ do
          ensure (leb (offset + 1 + len) (length p)) label_beyond_packet
          label ← slice p (offset + 1) (offset + 1 + len)
          parse_name_loop fuel p (offset + 1 + len) jumped jump_offset (push_label name label)
      ]
    ]

  unfoldable pub parse_name : ℕ → Bytes → ℕ → Outcome JsonError (Bytes × ℕ)
  parse_name fuel p offset = parse_name_loop fuel p offset false 0 []
