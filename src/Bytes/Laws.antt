-- ===== src/Bytes/Laws.antt =====
-- Lengths, ranges and reads of written packets.
use doh_server.Prelude.{
  ℕ, ◌+◌, ◌%◌, ◌/◌, ◌≤◌, ◌<◌, ◌≡◌, ◌≢◌, ◌⊎◌, ◌∙◌, ◌++◌, length, set, get_or, length-set,
  get_or-set_self, get_or-set_ne, get_or-append_left, All-get_or, All-set, arith,
}
use doh_server.Bytes.{Bytes, IsByte, AllBytes, byte, u16, set_u16}

pub length-set_u16 : (p : Bytes) (o v : ℕ) → length (set_u16 p o v) ≡ length p
unfolding set_u16
length-set_u16 p o v = length-set _ (o + 1) (v % 256) ∙ length-set p o _

pub byte-lt : (p : Bytes) (i : ℕ) → AllBytes p → byte p i < 256
unfolding byte
byte-lt p i h = All-get_or IsByte p i 0 h (omega arith)

pub u16-lt : (p : Bytes) (o : ℕ) → AllBytes p → u16 p o < 65536
unfolding u16
u16-lt p o h = omega (arith, byte-lt p o h, byte-lt p (o + 1) h)

pub byte-append : (p q : Bytes) (i : ℕ) → i < length p → byte (p ++ q) i ≡ byte p i
unfolding byte
byte-append p q i h = get_or-append_left p q i 0 h

pub u16-append : (p q : Bytes) (o : ℕ) → o + 2 ≤ length p → u16 (p ++ q) o ≡ u16 p o
unfolding u16
u16-append p q o h =
    omega (arith, byte-append p q o (omega arith), byte-append p q (o + 1) (omega arith))

pub byte-set_u16 : (p : Bytes) (o v i : ℕ) → i ≢ o → i ≢ o + 1 → byte (set_u16 p o v) i ≡ byte p i
unfolding byte set_u16
byte-set_u16 p o v i a b =
    get_or-set_ne _ (o + 1) i (v % 256) 0 (omega arith) ∙ get_or-set_ne p o i _ 0 (omega arith)

pub u16-set_u16 : (p : Bytes) (o v : ℕ) → o + 2 ≤ length p → v < 65536 → u16 (set_u16 p o v) o ≡ v
unfolding u16 byte set_u16
u16-set_u16 p o v h b =
    let l = length-set p o (v / 256 % 256) in
    let lo : get_or (set (set p o (v / 256 % 256)) (o + 1) (v % 256)) (o + 1) 0 ≡ v % 256 =
      get_or-set_self (set p o (v / 256 % 256)) (o + 1) (v % 256) 0 (omega arith) in
    let hi : get_or (set (set p o (v / 256 % 256)) (o + 1) (v % 256)) o 0 ≡ v / 256 % 256 =
      get_or-set_ne (set p o (v / 256 % 256)) (o + 1) o (v % 256) 0 (omega arith)
      ∙ get_or-set_self p o (v / 256 % 256) 0 (omega arith) in
    omega arith

pub u16-set_u16_ne :
    (p : Bytes) (o v i : ℕ) → (i + 2 ≤ o) ⊎ (o + 2 ≤ i) → u16 (set_u16 p o v) i ≡ u16 p i
unfolding u16
u16-set_u16_ne p o v i h = omega (
  arith,
  byte-set_u16 p o v i (ground arith) (ground arith),
  byte-set_u16 p o v (i + 1) (ground arith) (ground arith),
)

pub set_u16-AllBytes : (p : Bytes) (o v : ℕ) → AllBytes p → AllBytes (set_u16 p o v)
unfolding set_u16
set_u16-AllBytes p o v h =
    All-set IsByte _ (o + 1) (v % 256) (All-set IsByte p o (v / 256 % 256) h (omega arith))
      (omega arith)
