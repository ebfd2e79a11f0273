-- ===== src/Msg/Header.antt =====
-- `MsgHeader::from_wire` and `MsgHeader::to_wire_bits`.
use Prim.Native.Nat.{bit_or, bit_or-bitwise}
use doh_server.Prelude.{
  ℕ, ◌+◌, ◌*◌, ◌/◌, ◌%◌, ◌<◌, ◌≡◌, refl, Bool, true, false, ◌==◌, if◌then◌else◌, arith,
}
use doh_server.Msg.{MsgHeader}

-- `bits & v != 0` for a power `v` of two.
abbrev pub has_bit : ℕ → ℕ → Bool
has_bit v bits = bits / v % 2 == 1

unfoldable pub from_wire : ℕ → ℕ → MsgHeader
from_wire id bits = record {
  id = id;
  response = has_bit 32768 bits;
  opcode = bits / 2048 % 16;
  authoritative = has_bit 1024 bits;
  truncated = has_bit 512 bits;
  recursion_desired = has_bit 256 bits;
  recursion_available = has_bit 128 bits;
  zero = has_bit 64 bits;
  authenticated_data = has_bit 32 bits;
  checking_disabled = has_bit 16 bits;
  rcode = bits % 16;
}

-- `if b { bits |= v; }` for a power `v` of two.
unfoldable pub or_bit : ℕ → Bool → ℕ → ℕ
or_bit v b bits = if b then (if has_bit v bits then bits else bits + v) else bits

-- `bits | n` for `n` below 16.
unfoldable pub or_nibble : ℕ → ℕ → ℕ
or_nibble bits n = bits / 16 * 16 + bit_or (bits % 16) n

unfoldable pub to_wire_bits : MsgHeader → ℕ
to_wire_bits h =
    let a = h.opcode % 16 * 2048 in
    let b = or_bit 32768 h.response a in
    let c = or_bit 1024 h.authoritative b in
    let d = or_bit 512 h.truncated c in
    let e = or_bit 256 h.recursion_desired d in
    let f = or_bit 128 h.recursion_available e in
    let g = or_bit 64 h.zero f in
    let i = or_bit 32 h.authenticated_data g in
    let j = or_bit 16 h.checking_disabled i in or_nibble j (h.rcode % 16)

abbrev bit : Bool → ℕ
bit true = 1
bit false = 0

or_bit-eq : (v : ℕ) (b : Bool) (x y : ℕ) → x ≡ y → y / v % 2 ≡ 0 → or_bit v b x ≡ y + v * bit b
unfolding or_bit
or_bit-eq v true x y e h = rw e (ground arith)
or_bit-eq v false x y e h = omega arith

zero-bit_or : (n : ℕ) → n < 16 → bit_or 0 n ≡ n
zero-bit_or n h = bit_or-bitwise 0 n

or_nibble-eq : (x y n : ℕ) → x ≡ y → y % 16 ≡ 0 → n < 16 → or_nibble x n ≡ y + n
unfolding or_nibble
or_nibble-eq x y n e h l = rw (e, h) (omega (arith, zero-bit_or n l))

bit-lt : (b : Bool) → bit b < 2
bit-lt true = omega arith
bit-lt false = omega arith

-- The bits in place, from the opcode on.
abbrev upto_aa : MsgHeader → ℕ
upto_aa h = h.opcode % 16 * 2048 + 32768 * bit h.response + 1024 * bit h.authoritative

abbrev upto_rd : MsgHeader → ℕ
upto_rd h = upto_aa h + 512 * bit h.truncated + 256 * bit h.recursion_desired

abbrev upto_z : MsgHeader → ℕ
upto_z h = upto_rd h + 128 * bit h.recursion_available + 64 * bit h.zero

abbrev upto_cd : MsgHeader → ℕ
upto_cd h = upto_z h + 32 * bit h.authenticated_data + 16 * bit h.checking_disabled

to_wire_bits-sum : (h : MsgHeader) → to_wire_bits h ≡ upto_cd h + h.rcode % 16
unfolding to_wire_bits
to_wire_bits-sum h =
    let a : ℕ = h.opcode % 16 * 2048 in
    let qr = or_bit-eq 32768 h.response a a refl (omega arith) in
    let aa = or_bit-eq 1024 h.authoritative _ (a + 32768 * bit h.response) qr (omega arith) in
    let tc = or_bit-eq 512 h.truncated _ (upto_aa h) aa (omega arith) in
    let rd =
      or_bit-eq 256 h.recursion_desired _ (upto_aa h + 512 * bit h.truncated) tc (omega arith) in
    let ra = or_bit-eq 128 h.recursion_available _ (upto_rd h) rd (omega arith) in
    let z = or_bit-eq 64 h.zero _ (upto_rd h + 128 * bit h.recursion_available) ra (omega arith) in
    let ad = or_bit-eq 32 h.authenticated_data _ (upto_z h) z (omega arith) in
    let cd =
      or_bit-eq 16 h.checking_disabled _ (upto_z h + 32 * bit h.authenticated_data) ad
        (omega arith) in
    or_nibble-eq _ (upto_cd h) (h.rcode % 16) cd (omega arith) (omega arith)

-- The value of one bit that was read.
bit-has_bit : (v x : ℕ) → bit (has_bit v x) ≡ x / v % 2
bit-has_bit v x = ground arith

-- Decoding the two bytes of flags and encoding them again gives the same bits.
pub to_wire_bits-from_wire : (id bits : ℕ) → bits < 65536 → to_wire_bits (from_wire id bits) ≡ bits
unfolding from_wire
to_wire_bits-from_wire id bits h = omega (
  arith,
  to_wire_bits-sum (from_wire id bits),
  bit-has_bit 32768 bits,
  bit-has_bit 1024 bits,
  bit-has_bit 512 bits,
  bit-has_bit 256 bits,
  bit-has_bit 128 bits,
  bit-has_bit 64 bits,
  bit-has_bit 32 bits,
  bit-has_bit 16 bits,
)

pub to_wire_bits-lt : (h : MsgHeader) → to_wire_bits h < 65536
to_wire_bits-lt h = omega (
  arith,
  to_wire_bits-sum h,
  bit-lt h.response,
  bit-lt h.authoritative,
  bit-lt h.truncated,
  bit-lt h.recursion_desired,
  bit-lt h.recursion_available,
  bit-lt h.zero,
  bit-lt h.authenticated_data,
  bit-lt h.checking_disabled,
)

-- The opcode and the response code fit their four bits, and the id its two bytes.
pub record IsHeader (h : MsgHeader) : Type 0 where
  pub id_in : h.id < 65536
  pub opcode_in : h.opcode < 16
  pub rcode_in : h.rcode < 16

has_bit-eq : (v x : ℕ) (b : Bool) → x / v % 2 ≡ bit b → has_bit v x ≡ b
has_bit-eq v x true h = ground arith
has_bit-eq v x false h = ground arith

module _ (h : MsgHeader) (v : IsHeader h) where
  bits : ℕ
  bits = to_wire_bits h

  digits :
      (bits / 32768 % 2 ≡ bit h.response)
      × (bits / 2048 % 16 ≡ h.opcode)
      × (bits / 1024 % 2 ≡ bit h.authoritative)
      × (bits / 512 % 2 ≡ bit h.truncated)
      × (bits / 256 % 2 ≡ bit h.recursion_desired)
  unfolding bits
  digits =
      let e = to_wire_bits-sum h in
      let b0 = bit-lt h.response in
      let c0 = bit-lt h.authoritative in
      let d0 = bit-lt h.truncated in
      let e0 = bit-lt h.recursion_desired in
      let f0 = bit-lt h.recursion_available in
      let g0 = bit-lt h.zero in
      let i0 = bit-lt h.authenticated_data in let j0 = bit-lt h.checking_disabled in omega arith

  low_digits :
      (bits / 128 % 2 ≡ bit h.recursion_available)
      × (bits / 64 % 2 ≡ bit h.zero)
      × (bits / 32 % 2 ≡ bit h.authenticated_data)
      × (bits / 16 % 2 ≡ bit h.checking_disabled)
      × (bits % 16 ≡ h.rcode)
  unfolding bits
  low_digits =
      let e = to_wire_bits-sum h in
      let f0 = bit-lt h.recursion_available in
      let g0 = bit-lt h.zero in
      let i0 = bit-lt h.authenticated_data in let j0 = bit-lt h.checking_disabled in omega arith

  -- Encoding a header whose fields fit their bits, and decoding the bits, gives the header.
  pub from_wire-to_wire_bits : from_wire h.id (to_wire_bits h) ≡ h
  unfolding from_wire bits
  from_wire-to_wire_bits = λ i. record {
    id = h.id;
    response = has_bit-eq 32768 bits h.response digits.0 i;
    opcode = digits.1 i;
    authoritative = has_bit-eq 1024 bits h.authoritative digits.2 i;
    truncated = has_bit-eq 512 bits h.truncated digits.3 i;
    recursion_desired = has_bit-eq 256 bits h.recursion_desired digits.4 i;
    recursion_available = has_bit-eq 128 bits h.recursion_available low_digits.0 i;
    zero = has_bit-eq 64 bits h.zero low_digits.1 i;
    authenticated_data = has_bit-eq 32 bits h.authenticated_data low_digits.2 i;
    checking_disabled = has_bit-eq 16 bits h.checking_disabled low_digits.3 i;
    rcode = low_digits.4 i;
  }
