-- ===== src/Text.antt =====
-- The operations on `str` of the standard library that src/libdoh/src/lib.rs uses, on texts in UTF-8.
pub mod Laws
use doh_server.Prelude.{
  ℕ, zero, suc, ◌+◌, ◌-◌, ◌*◌, Bool, true, false, ◌&&◌, ◌||◌, List, [], ◌∷◌, map, Option, none,
  some, length, ltb, leb, ◌==◌, if◌then◌else◌,
}
use doh_server.Bytes.{Bytes}
use doh_server.Bootstrap.{to_ascii_lowercase}
use doh_server.Bootstrap.Query.{onto_first}

-- `str::split(char)` for a character of one byte
unfoldable pub split : ℕ → Bytes → List Bytes
split c [] = [] ∷ []
split c (b ∷ s) = let rest = split c s in if b == c then [] ∷ rest else onto_first b rest

-- `split(c).next()`
unfoldable pub before : ℕ → Bytes → Bytes
before c [] = []
before c (b ∷ s) = let rest = before c s in if b == c then [] else b ∷ rest

-- `Iterator::nth`
unfoldable pub nth : List Bytes → ℕ → Option Bytes
nth [] n = none
nth (t ∷ ts) zero = some t
nth (t ∷ ts) (suc n) = nth ts n

-- `str::to_ascii_lowercase`
unfoldable pub lowercase : Bytes → Bytes
lowercase s = map to_ascii_lowercase s

-- The bytes of the white space character (Unicode `White_Space`) at the front, 0 without one.
unfoldable pub white_len : Bytes → ℕ
white_len [] = 0
white_len (a ∷ []) = if leb 9 a && leb a 13 || a == 32 then 1 else 0
white_len (a ∷ b ∷ []) =
    if leb 9 a && leb a 13 || a == 32
    then 1
    else if a == 0xc2 && (b == 0x85 || b == 0xa0)
    then 2
    else 0
white_len (a ∷ b ∷ c ∷ s) =
    if leb 9 a && leb a 13 || a == 32
    then 1
    else if a == 0xc2 && (b == 0x85 || b == 0xa0)
    then 2
    else if a == 0xe1 && b == 0x9a && c == 0x80
    then 3
    else if a == 0xe2
        && b == 0x80
        && (leb 0x80 c && leb c 0x8a || c == 0xa8 || c == 0xa9 || c == 0xaf)
    then 3
    else if a == 0xe2 && b == 0x81 && c == 0x9f
    then 3
    else if a == 0xe3 && b == 0x80 && c == 0x80
    then 3
    else 0

-- `str::trim_start`, behind the bytes of a character that are still to be left out.
unfoldable pub trim_start_at : ℕ → Bytes → Bytes
trim_start_at n [] = []
trim_start_at (suc n) (b ∷ s) = trim_start_at n s
trim_start_at zero (b ∷ s) =
    let n = white_len (b ∷ s) in
    let rest = trim_start_at (n - 1) s in if n == 0 then b ∷ s else rest

unfoldable pub trim_start : Bytes → Bytes
trim_start s = trim_start_at 0 s

unfoldable pub trim_end : Bytes → Bytes
trim_end [] = []
trim_end (b ∷ s) =
    let rest = trim_end s in if length (trim_start (b ∷ s)) == 0 then [] else b ∷ rest

-- `str::trim`
unfoldable pub trim : Bytes → Bytes
trim s = trim_end (trim_start s)

-- The digits behind a number so far, which fails where it passes the greatest one of 16 bits.
unfoldable pub parse_digits : ℕ → Bytes → Option ℕ
parse_digits n [] = some n
parse_digits n (b ∷ s) =
    let m = n * 10 + (b - 48) in
    let rest = parse_digits m s in if leb 48 b && leb b 57 && ltb m 65536 then rest else none

-- `str::parse::<u16>`
unfoldable pub parse_u16 : Bytes → Option ℕ
parse_u16 [] = none
parse_u16 (b ∷ []) = parse_digits 0 (b ∷ [])
parse_u16 (b ∷ c ∷ s) = if b == b'+' then parse_digits 0 (c ∷ s) else parse_digits 0 (b ∷ c ∷ s)
