-- ===== src/Doh.antt =====
-- src/libdoh/src/lib.rs, an upstream that is asked over HTTPS: the choice between HTTP/2 and HTTP/3
-- and the attempts of each (`proxy_doh`). What the network does is an argument.
pub mod Choice
pub mod Retries
pub mod Pool
pub mod Pending
use doh_server.Prelude.{
  ℕ, zero, suc, ◌+◌, ◌*◌, Bool, true, false, not, ◌&&◌, ◌||◌, Option, none, some, ◌==◌,
  if◌then◌else◌,
}
use doh_server.Bytes.{Bytes}
use doh_server.Errors.{
  DohError, incomplete, invalid_data, too_large, upstream_issue, upstream_timeout, stale_key, hyper,
  io, odoh_config_error, too_many_tcp_sessions, upstream_joined,
}
use doh_server.Upstream.{Reply, got, failed}
use doh_server.Backoff.{
  H3State, h3_backoff_active, clear_h3_failures, reset_h3_failure_counter, record_h3_failure,
  can_rebuild,
}

abbrev pub doh_proto_unknown : ℕ
doh_proto_unknown = 0

abbrev pub doh_proto_h2 : ℕ
doh_proto_h2 = 1

abbrev pub doh_proto_h3 : ℕ
doh_proto_h3 = 2

abbrev pub doh_request_retry_limit : ℕ
doh_request_retry_limit = 2

abbrev pub doh_probe_tls_timeout_secs : ℕ
doh_probe_tls_timeout_secs = 10

-- `H2Failure` and `H3Failure`, which are alike.
pub record Failure (X : Type 0) : Type 0 where
  pub error : DohError X
  pub retryable : Bool

-- What an attempt gave.
pub data Tried (X : Type 0) : Type 0 where
  packet : Bytes → Tried X
  failure : Failure X → Tried X

-- The cells of an upstream, `DohUpstream`. Of the client of HTTP/2 and of the pool of HTTP/3, the
-- flag says whether there is one.
pub record Cells : Type 0 where
  pub protocol_hint : ℕ
  pub h3 : H3State
  pub h2_last_rebuild_ms : ℕ
  pub h3_last_rebuild_ms : ℕ
  pub h2_client : Bool
  pub h3_pool : Bool

unfoldable pub reset_doh_h2_client : Cells → Cells
reset_doh_h2_client cells = record cells { h2_client = false }

unfoldable pub reset_doh_h3_client : Cells → Cells
reset_doh_h3_client cells = record cells { h3_pool = false }

unfoldable pub maybe_reset_doh_h2_client : ℕ → Cells → Cells
maybe_reset_doh_h2_client now cells =
    let (last, allowed) = can_rebuild cells.h2_last_rebuild_ms now in
    let noted = record cells { h2_last_rebuild_ms = last } in
    if allowed then reset_doh_h2_client noted else noted

unfoldable pub maybe_reset_doh_h3_client : ℕ → Cells → Cells
maybe_reset_doh_h3_client now cells =
    let (last, allowed) = can_rebuild cells.h3_last_rebuild_ms now in
    let noted = record cells { h3_last_rebuild_ms = last } in
    if allowed then reset_doh_h3_client noted else noted

-- An attempt by its number: it may find or build a client, and it ends at a time.
abbrev pub Once : Type 0 → Type 0
Once X = ℕ → Cells → Cells × (ℕ × Tried X)

module _ {X : Type 0} where
  -- `is_no_rebuild_doh_error`; the two tests are those of the errors of hyper and of the system.
  unfoldable pub is_no_rebuild_doh_error : (X → Bool) → (X → Bool) → DohError X → Bool
  is_no_rebuild_doh_error of_hyper of_io incomplete = true
  is_no_rebuild_doh_error of_hyper of_io invalid_data = true
  is_no_rebuild_doh_error of_hyper of_io too_large = true
  is_no_rebuild_doh_error of_hyper of_io stale_key = true
  is_no_rebuild_doh_error of_hyper of_io too_many_tcp_sessions = true
  is_no_rebuild_doh_error of_hyper of_io (hyper x) = of_hyper x
  is_no_rebuild_doh_error of_hyper of_io (io x) = of_io x
  is_no_rebuild_doh_error of_hyper of_io _ = false

  abbrev pub is_retryable_doh_error : (X → Bool) → (X → Bool) → DohError X → Bool
  is_retryable_doh_error of_hyper of_io e = not (is_no_rebuild_doh_error of_hyper of_io e)

  abbrev pub from_doh_error : (X → Bool) → (X → Bool) → DohError X → Failure X
  from_doh_error of_hyper of_io e = record {
    error = e;
    retryable = is_retryable_doh_error of_hyper of_io e;
  }

  -- The loop of `doh_post_h2_with_retries` and `doh_post_h3_with_retries`, with the attempts that
  -- are left behind this one.
  unfoldable pub with_retries :
      (ℕ → Cells → Cells) → Bool → Once X → ℕ → ℕ → Cells → Cells × Tried X
  with_retries maybe_reset had_cached_client once zero n cells =
      let (cells', (now, tried)) = once n cells in
      elim tried [
        | packet p ↦ (cells', packet p)
        | failure f ↦ (if f.retryable then maybe_reset now cells' else cells', failure f)
      ]
  with_retries maybe_reset had_cached_client once (suc left) n cells =
      let (cells', (now, tried)) = once n cells in
      elim tried [
        | packet p ↦ (cells', packet p)
        | failure f ↦ elim (had_cached_client && f.retryable) [
          | true ↦
              with_retries maybe_reset had_cached_client once left (n + 1) (maybe_reset now cells')
          | false ↦ (if f.retryable then maybe_reset now cells' else cells', failure f)
        ]
      ]

  unfoldable pub doh_post_h2_with_retries : Once X → Cells → Cells × Tried X
  doh_post_h2_with_retries once cells =
      with_retries maybe_reset_doh_h2_client cells.h2_client once doh_request_retry_limit 0 cells

  unfoldable pub doh_post_h3_with_retries : Once X → Cells → Cells × Tried X
  doh_post_h3_with_retries once cells =
      with_retries maybe_reset_doh_h3_client cells.h3_pool once doh_request_retry_limit 0 cells

-- The probe that ends first, and whether it succeeded.
pub data Race : Type 0 where
  h3_first h2_first : Bool → Race

-- `select_doh_protocol`; the result of the lookup of the address is `false` where it failed.
unfoldable pub select_doh_protocol : Cells → ℕ → Bool → Race → ℕ
select_doh_protocol cells now resolved race =
    if h3_backoff_active cells.h3 now
    then doh_proto_h2
    else if not resolved
    then doh_proto_h2
    else elim race [
      | h3_first succeeded ↦ if succeeded then doh_proto_h3 else doh_proto_h2
      | h2_first succeeded ↦ if succeeded then doh_proto_h2 else doh_proto_h3
    ]

-- `probe_quic_timeout`, in seconds.
unfoldable pub probe_quic_timeout : ℕ → ℕ
probe_quic_timeout timeout = if timeout == 0 then doh_probe_tls_timeout_secs else timeout

-- What the network and the clock do to one request: the times at which the cells are looked at and
-- the time of a failure of HTTP/3, the probes, and the attempts.
pub record World (X : Type 0) : Type 0 where
  pub hint_at : ℕ
  pub select_at : ℕ
  pub store_at : ℕ
  pub fail_at : ℕ
  pub resolved : Bool
  pub race : Race
  pub h3_once : Once X
  pub h2_once : Once X

-- What is left where the time ran out, from the cells as they were then.
unfoldable pub on_timeout : Bool → ℕ → Cells → Cells
on_timeout h3_only now cells =
    let reset = maybe_reset_doh_h3_client now (maybe_reset_doh_h2_client now cells) in
    if h3_only then reset else record reset { protocol_hint = doh_proto_unknown }

module _ {X : Type 0} where
  -- The protocol of the request, and the cells behind the choice.
  unfoldable pub choose_protocol : World X → Cells → Cells × ℕ
  choose_protocol world cells =
      let hint = cells.protocol_hint in
      let protocol =
        if hint == doh_proto_h3 && h3_backoff_active cells.h3 world.hint_at
        then doh_proto_h2
        else hint in
      let selected = select_doh_protocol cells world.select_at world.resolved world.race in
      if protocol == doh_proto_unknown
      then (
        if selected == doh_proto_h2 && h3_backoff_active cells.h3 world.store_at
            then cells
            else record cells { protocol_hint = selected },
        selected,
      )
      else (cells, protocol)

  -- What a failure of HTTP/3 does to the cells.
  unfoldable pub note_failure : ℕ → Failure X → Cells → Cells
  note_failure now f cells = elim f.retryable [
    | true ↦
        let (h3', h3_backoff) = record_h3_failure cells.h3 now in
        if f.retryable || h3_backoff
        then record cells { h3 = h3'; protocol_hint = doh_proto_unknown }
        else record cells { h3 = h3' }
    | false ↦ record cells { h3 = reset_h3_failure_counter cells.h3; protocol_hint = doh_proto_h2 }
  ]

  -- The arm of HTTP/3, which falls back to HTTP/2.
  unfoldable pub over_h3 : World X → Cells → Cells × Tried X
  over_h3 world cells =
      let (cells', tried) = doh_post_h3_with_retries world.h3_once cells in
      elim tried [
        | packet p ↦ (record cells' { h3 = clear_h3_failures cells'.h3 }, packet p)
        | failure f ↦ doh_post_h2_with_retries world.h2_once (note_failure world.fail_at f cells')
      ]

  -- The body of `proxy_doh`.
  unfoldable pub attempt : Bool → World X → Cells → Cells × Tried X
  attempt h3_only world cells = elim h3_only [
    | true ↦ doh_post_h3_with_retries world.h3_once cells
    | false ↦
        let (cells', protocol) = choose_protocol world cells in
        elim (protocol == doh_proto_h3) [
          | true ↦ over_h3 world cells'
          | false ↦ doh_post_h2_with_retries world.h2_once cells'
        ]
  ]

  -- The result without the flag: `failure.err`.
  abbrev pub reply_of : Tried X → Reply X
  reply_of (packet p) = got p
  reply_of (failure f) = failed f.error

  -- `proxy_doh`, where the time of a request with a limit ran out at some cells and time, or not.
  unfoldable pub proxy_doh : Bool → ℕ → Option (Cells × ℕ) → World X → Cells → Cells × Reply X
  proxy_doh h3_only timeout cut world cells =
      let (cells', tried) = attempt h3_only world cells in
      elim (timeout == 0) [
        | true ↦ (cells', reply_of tried)
        | false ↦ elim cut [
          | none ↦ (cells', reply_of tried)
          | some (cut_cells, now) ↦ (on_timeout h3_only now cut_cells, failed upstream_timeout)
        ]
      ]
