-- ===== src/Bootstrap.antt =====
-- src/libdoh/src/lib.rs, the lookup of an upstream's own address: the name reader
-- `parse_dns_name_lower` and `parse_bootstrap_dns_response`.
pub mod Total
pub mod Answers
pub mod Query
pub mod Cache
pub mod Resolve
use doh_server.Prelude.{
  ℕ, zero, suc, ◌+◌, ◌-◌, ◌/◌, ◌%◌, Bool, true, false, ◌&&◌, List, [], ◌∷◌, ◌++◌, map, length,
  Outcome, ok, out_of_fuel, ◌>>=◌, ◌>>◌, ensure, map_err, min, ltb, leb, ◌==◌, if◌then◌else◌,
}
use doh_server.Bytes.{Bytes, at, read_u16, read_u32, slice, top_bits}
use doh_server.Dns.{skip_name}
use doh_server.Errors.{DohError, upstream_issue}
use doh_server.Msg.Names.{pointer_to}
use doh_server.Msg.Answers.{IpAddr, v4, v6, same_bytes}

pub record BootstrapDnsResult : Type 0 where
  pub addrs : List IpAddr
  pub min_ttl_secs : ℕ

-- `u8::to_ascii_lowercase`
unfoldable pub to_ascii_lowercase : ℕ → ℕ
to_ascii_lowercase b = if leb 65 b && leb b 90 then b + 32 else b

module _ {X : Type 0} where
  -- The loop of `parse_dns_name_lower` up to the next pointer, at most `fuel` rounds of it. A
  -- pointer goes on with `jump`, which gets the target, `next_offset`, `first_label` and `name`.
  unfoldable pub walk_labels :
      (ℕ → ℕ → Bool → Bytes → Outcome (DohError X) (Bytes × ℕ))
      → ℕ
      → Bytes
      → ℕ
      → ℕ
      → Bool
      → Bool
      → Bytes
      → Outcome (DohError X) (Bytes × ℕ)
  walk_labels jump zero p cursor next_offset jumped first_label name = out_of_fuel
  walk_labels jump (suc fuel) p cursor next_offset jumped first_label name = do
    ensure (ltb cursor (length p)) upstream_issue
    len ← at p cursor
    elim (top_bits len == 3) [
      | true ↦ do
        ensure (leb 2 (length p - cursor)) upstream_issue
        b2 ← at p (cursor + 1)
        let ptr = pointer_to len b2
        ensure (ltb ptr (length p)) upstream_issue
        jump ptr (if jumped then next_offset else cursor + 2) first_label name
      | false ↦ do
        ensure (top_bits len == 0) upstream_issue
        elim (len == 0) [
          | true ↦ ok (name ++ b'.' ∷ [], if jumped then next_offset else cursor + 1)
          | false ↦ do
            ensure (leb len 63 && leb len (length p - (cursor + 1))) upstream_issue
            label ← slice p (cursor + 1) (cursor + 1 + len)
            let dot = if first_label then [] else b'.' ∷ []
            walk_labels jump fuel p (cursor + 1 + len) next_offset jumped false
                (name ++ dot ++ map to_ascii_lowercase label)
        ]
    ]

  -- The same loop over its pointers, at most `fuel` of them. The labels between two pointers lie
  -- one behind the other in the packet.
  unfoldable pub follow :
      ℕ → Bytes → ℕ → ℕ → ℕ → Bool → Bool → Bytes → Outcome (DohError X) (Bytes × ℕ)
  follow zero p jump_count cursor next_offset jumped first_label name = out_of_fuel
  follow (suc fuel) p jump_count cursor next_offset jumped first_label name =
      walk_labels
        (λ ptr next' first' name'. do
          ensure (leb (jump_count + 1) (length p)) upstream_issue
          follow fuel p (jump_count + 1) ptr next' true first' name')
        (suc (length p)) p cursor next_offset jumped first_label name

  unfoldable pub parse_dns_name_lower : Bytes → ℕ → Outcome (DohError X) (Bytes × ℕ)
  parse_dns_name_lower p start = do
    ensure (ltb start (length p)) upstream_issue
    follow (suc (length p)) p 0 start start false true []

  -- The questions behind the first one.
  unfoldable pub more_questions : ℕ → Bytes → ℕ → Outcome (DohError X) ℕ
  more_questions zero p offset = ok offset
  more_questions (suc n) p offset = do
    o ← map_err (λ _. upstream_issue) (skip_name p offset)
    ensure (leb 4 (length p - o)) upstream_issue
    more_questions n p (o + 4)

  -- The match on the type and the length of a record that was asked for.
  unfoldable pub add_addr :
      Bytes → ℕ → ℕ → ℕ → ℕ → BootstrapDnsResult → Outcome (DohError X) BootstrapDnsResult
  add_addr p o rr_type rdlen ttl found = elim (rr_type == 1 && rdlen == 4) [
    | true ↦ do
      ip ← slice p o (o + 4)
      ok (record { addrs = found.addrs ++ v4 ip ∷ []; min_ttl_secs = min found.min_ttl_secs ttl })
    | false ↦ elim (rr_type == 28 && rdlen == 16) [
      | true ↦ do
        ip ← slice p o (o + 16)
        ok (record { addrs = found.addrs ++ v6 ip ∷ []; min_ttl_secs = min found.min_ttl_secs ttl })
      | false ↦ ok found
    ]
  ]

  -- One round of the loop over the answers.
  unfoldable pub take_answer :
      Bytes → Bytes → ℕ → ℕ → BootstrapDnsResult → Outcome (DohError X) (ℕ × BootstrapDnsResult)
  take_answer p question_name qtype offset found = do
    (owner_name, o) ← parse_dns_name_lower p offset
    ensure (leb 10 (length p - o)) upstream_issue
    rr_type ← read_u16 p o
    rr_class ← read_u16 p (o + 2)
    ttl ← read_u32 p (o + 4)
    rdlen ← read_u16 p (o + 8)
    ensure (leb rdlen (length p - (o + 10))) upstream_issue
    found' ← elim (same_bytes owner_name question_name && rr_class == 1 && rr_type == qtype) [
      | true ↦ add_addr p (o + 10) rr_type rdlen ttl found
      | false ↦ ok found
    ]
    ok (o + 10 + rdlen, found')

  unfoldable pub take_answers :
      ℕ → Bytes → Bytes → ℕ → ℕ → BootstrapDnsResult → Outcome (DohError X) BootstrapDnsResult
  take_answers zero p question_name qtype offset found = ok found
  take_answers (suc n) p question_name qtype offset found = do
    (offset', found') ← take_answer p question_name qtype offset found
    take_answers n p question_name qtype offset' found'

  -- The questions and the answers, behind the checks of the header.
  unfoldable pub read_sections : Bytes → ℕ → ℕ → ℕ → Outcome (DohError X) BootstrapDnsResult
  read_sections p qtype qdcount ancount = do
    (question_name, o) ← parse_dns_name_lower p 12
    ensure (leb 4 (length p - o)) upstream_issue
    offset ← more_questions (qdcount - 1) p (o + 4)
    take_answers ancount p question_name qtype offset
        (record { addrs = []; min_ttl_secs = 4294967295 })

  unfoldable pub parse_bootstrap_dns_response :
      Bytes → ℕ → ℕ → Outcome (DohError X) BootstrapDnsResult
  parse_bootstrap_dns_response p query_id qtype = do
    ensure (leb 12 (length p)) upstream_issue
    response_id ← read_u16 p 0
    ensure (response_id == query_id) upstream_issue
    flags ← read_u16 p 2
    ensure (flags / 32768 % 2 == 1) upstream_issue
    qdcount ← read_u16 p 4
    ancount ← read_u16 p 6
    ensure (ltb 0 qdcount) upstream_issue
    read_sections p qtype qdcount ancount
