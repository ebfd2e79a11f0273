-- ===== src/DnsJson/Response/Texts.antt =====
-- The texts of numbers that `format!` writes in src/libdoh/src/dns_json.rs.
use doh_server.Prelude.{ℕ, zero, suc, ◌+◌, ◌-◌, ◌/◌, ◌%◌, [], ◌∷◌, ◌++◌, ltb, if◌then◌else◌}
use doh_server.Bytes.{Bytes}

abbrev pub digit : ℕ → ℕ
digit d = if ltb d 10 then 48 + d else 97 + (d - 10)

-- The digits to a base, at most `fuel` of them.
unfoldable pub digits : ℕ → ℕ → ℕ → Bytes
digits zero base n = []
digits (suc fuel) base n =
    let rest = digits fuel base (n / base) in
    if ltb n base then digit n ∷ [] else rest ++ digit (n % base) ∷ []

-- `{}` for a number below 10 ^ 20, which those of 64 bits are.
unfoldable pub decimal : ℕ → Bytes
decimal n = digits 20 10 n

-- `{:x}` for a number of 16 bits
unfoldable pub hex : ℕ → Bytes
hex n = digits 4 16 n
