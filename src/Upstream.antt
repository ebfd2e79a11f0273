-- ===== src/Upstream.antt =====
-- src/libdoh/src/upstream/mod.rs, src/libdoh/src/upstream/stats.rs and the upstreams of
-- src/libdoh/src/globals.rs: what an exchange with the upstream servers is made of. The child
-- modules have the three modes. The network is a function that gives the answer of each upstream.
pub mod Slots
pub mod Origin
pub mod Weights
pub mod LoadBalance
pub mod Ping
pub mod FastestAddr
pub mod Exchange
pub mod Parallel
use doh_server.Prelude.{
  ℕ, zero, suc, ◌<◌, ◌≡◌, Bool, true, false, List, [], ◌∷◌, ◌++◌, Option, none, some, length, set,
  get_or, Outcome, ok, panic, ltb, if◌then◌else◌,
}
use doh_server.Bytes.{Bytes}
use doh_server.Errors.{DohError, upstream_issue, UpstreamAttemptError, attempt_of}
use doh_server.Msg.Rewrite.{validate_packet}

pub data UpstreamMode : Type 0 where
  load_balance parallel fastest_addr : UpstreamMode

-- A socket address and an URL in their texts, and a port in its digits.
pub data Upstream : Type 0 where
  dns : Bytes → Upstream
  doh : Bytes → Upstream
  dot : Bytes → Bytes → Upstream

-- `format!("tls://{}:{}", host, port)` for a DoT upstream.
unfoldable pub upstream_address : Upstream → Bytes
upstream_address (dns addr) = addr
upstream_address (doh url) = url
upstream_address (dot host port) =
    (b't' ∷ b'l' ∷ b's' ∷ b':' ∷ b'/' ∷ b'/' ∷ []) ++ (host ++ b':' ∷ port)

pub record UpstreamStatistics : Type 0 where
  pub error : Option Bytes
  pub address : Bytes
  pub query_duration : ℕ
  pub is_cached : Bool

abbrev pub success : Bytes → ℕ → UpstreamStatistics
success address query_duration = record {
  error = none;
  address = address;
  query_duration = query_duration;
  is_cached = false;
}

abbrev pub failure : Bytes → ℕ → Bytes → UpstreamStatistics
failure address query_duration error = record {
  error = some error;
  address = address;
  query_duration = query_duration;
  is_cached = false;
}

pub record QueryStatistics : Type 0 where
  pub main : List UpstreamStatistics
  pub fallback : List UpstreamStatistics

abbrev pub with_main : List UpstreamStatistics → QueryStatistics
with_main main = record { main = main; fallback = [] }

-- `Result<Vec<u8>, DoHError>`
pub data Reply (X : Type 0) : Type 0 where
  got : Bytes → Reply X
  failed : DohError X → Reply X

-- What `exchange_single` comes to for an upstream, and how long it takes, in microseconds.
pub record Answer (X : Type 0) : Type 0 where
  pub reply : Reply X
  pub duration : ℕ

pub record ExchangeOutcome (X : Type 0) : Type 0 where
  pub packet : Reply X
  pub query_stats : QueryStatistics

-- `v.into_iter().flatten()`
abbrev pub somes {ℓ} : {A : Type ℓ} → List (Option A) → List A
somes [] = []
somes (none ∷ xs) = somes xs
somes (some x ∷ xs) = x ∷ somes xs

module _ {ℓ} {A : Type ℓ} where
  -- `xs[i]`
  unfoldable pub nth : List A → ℕ → Outcome (Unit {0}) A
  nth [] i = panic
  nth (x ∷ xs) zero = ok x
  nth (x ∷ xs) (suc i) = nth xs i

  -- `xs[i] = v`
  abbrev pub write : List A → ℕ → A → Outcome (Unit {0}) (List A)
  write xs i v = if ltb i (length xs) then ok (set xs i v) else panic

module _ {X : Type 0} where
  unfoldable pub validate_exchange_packet : Bytes → Reply X
  validate_exchange_packet p = if validate_packet p then got p else failed upstream_issue

  -- `.and_then(validate_exchange_packet)`
  unfoldable pub checked : Reply X → Reply X
  checked (got p) = validate_exchange_packet p
  checked (failed e) = failed e

  -- `to_text` is the `Display` of an error.
  module _ (to_text : DohError X → Bytes) where
    abbrev pub stat_of : Upstream → ℕ → Reply X → UpstreamStatistics
    stat_of upstream duration (got p) = success (upstream_address upstream) duration
    stat_of upstream duration (failed e) = failure (upstream_address upstream) duration (to_text e)

    -- The exchange with the only upstream, which all modes share.
    unfoldable pub exchange_only : Upstream → Answer X → ExchangeOutcome X
    exchange_only upstream answer =
        let result = checked answer.reply in
        record {
          packet = result;
          query_stats = with_main (stat_of upstream answer.duration result ∷ []);
        }

    abbrev pub attempt_error : Upstream → ℕ → DohError X → UpstreamAttemptError
    attempt_error upstream duration e = attempt_of to_text (upstream_address upstream) duration e
