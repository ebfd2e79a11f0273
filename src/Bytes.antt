-- ===== src/Bytes.antt =====
-- Packets as lists of bytes, with indexing, slicing and the `byteorder` accesses of the code.
pub mod Laws
use doh_server.Prelude.{
  ℕ, ◌+◌, ◌-◌, ◌*◌, ◌/◌, ◌%◌, ◌<◌, Bool, ◌&&◌, List, [], ◌∷◌, ◌++◌, All, length, get_or, set, take,
  drop, Outcome, ok, panic, ltb, leb, ◌==◌, if◌then◌else◌,
}

abbrev pub Bytes : Type 0
Bytes = List ℕ

abbrev pub IsByte : ℕ → Type 0
IsByte b = b < 256

abbrev pub AllBytes : Bytes → Type 0
AllBytes = All IsByte

-- The byte at an index in range.
unfoldable pub byte : Bytes → ℕ → ℕ
byte p i = get_or p i 0

-- The big-endian words that start at an index in range.
unfoldable pub u16 : Bytes → ℕ → ℕ
unfolding byte
u16 p o = byte p o * 256 + byte p (o + 1)

unfoldable pub u32 : Bytes → ℕ → ℕ
unfolding u16
u32 p o = u16 p o * 65536 + u16 p (o + 2)

-- `v.to_be_bytes()`
abbrev pub be16 : ℕ → Bytes
be16 v = (v / 256) % 256 ∷ v % 256 ∷ []

abbrev pub be32 : ℕ → Bytes
be32 v = (v / 16777216) % 256 ∷ (v / 65536) % 256 ∷ (v / 256) % 256 ∷ v % 256 ∷ []

unfoldable pub set_u16 : Bytes → ℕ → ℕ → Bytes
set_u16 p o v = set (set p o (v / 256 % 256)) (o + 1) (v % 256)

module _ {ℓ} {E : Type ℓ} where
  -- `packet[i]`
  abbrev pub at : Bytes → ℕ → Outcome E ℕ
  at p i = if ltb i (length p) then ok (byte p i) else panic

  -- `BigEndian::read_u16(&packet[o..])`
  abbrev pub read_u16 : Bytes → ℕ → Outcome E ℕ
  read_u16 p o = if leb (o + 2) (length p) then ok (u16 p o) else panic

  -- `BigEndian::read_u32(&packet[o..])`
  abbrev pub read_u32 : Bytes → ℕ → Outcome E ℕ
  read_u32 p o = if leb (o + 4) (length p) then ok (u32 p o) else panic

  -- `BigEndian::write_u16(&mut packet[o..], v)`
  abbrev pub write_u16 : Bytes → ℕ → ℕ → Outcome E Bytes
  write_u16 p o v = if leb (o + 2) (length p) then ok (set_u16 p o v) else panic

  -- `&packet[a..b]`
  abbrev pub slice : Bytes → ℕ → ℕ → Outcome E Bytes
  slice p a b = if leb a b && leb b (length p) then ok (take (b - a) (drop a p)) else panic

-- The two bits that `b & 0xc0` keeps, shifted down: 3 for `0xc0` and 0 for `0x00`.
abbrev pub top_bits : ℕ → ℕ
top_bits b = b / 64 % 4
