-- ===== src/Dns/Names.antt =====
-- `skip_name`: it always returns, and where it returns an offset, that lies behind the name.
use doh_server.Prelude.{ℕ, zero, suc, ◌+◌, ◌*◌, ◌≤◌, ◌<◌, Ends, arith, length}
use doh_server.Bytes.{Bytes, byte}
use doh_server.Dns.{DnsError, skip_loop, skip_name}

-- The offset is behind `o` and not behind the packet.
abbrev pub IsBehind : Bytes → ℕ → ℕ → Type 0
IsBehind p o e = (o < e) × (e ≤ length p)

abbrev pub AnyError : DnsError → Type 0
AnyError e = Unit

pub skip_loop-Ends :
    (fuel : ℕ) (p : Bytes) (o q : ℕ)
    → o < length p
    → q ≤ 256
    → 256 < q + 2 * fuel
    → Ends AnyError (IsBehind p o) (skip_loop fuel p o q)
unfolding skip_loop
skip_loop-Ends zero p o q h l m = absurd (omega arith)
skip_loop-Ends (suc fuel) p o q h l m =
    ground (arith, skip_loop-Ends fuel p (o + (byte p o + 1)) (q + (byte p o + 1)))

pub skip_name-Ends :
    (p : Bytes) (o : ℕ) → 0 < length p → Ends AnyError (IsBehind p o) (skip_name p o)
unfolding skip_name
skip_name-Ends p o h = ground (arith, skip_loop-Ends 130 p o 0)
