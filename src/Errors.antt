-- ===== src/Errors.antt =====
-- src/libdoh/src/errors.rs: the errors of the server, what is kept of a failed upstream attempt,
-- and the HTTP status that the client gets. The texts for people are left out.
use doh_server.Prelude.{ℕ, List, [], ◌∷◌}
use doh_server.Bytes.{Bytes}

pub data UpstreamErrorKind : Type 0 where
  incomplete_kind invalid_data_kind too_large_kind upstream_issue_kind : UpstreamErrorKind
  upstream_timeout_kind stale_key_kind hyper_kind io_kind : UpstreamErrorKind
  odoh_config_error_kind too_many_tcp_sessions_kind : UpstreamErrorKind

-- The duration is in microseconds.
pub record UpstreamAttemptError : Type 0 where
  pub address : Bytes
  pub duration : ℕ
  pub error_kind : UpstreamErrorKind
  pub error_message : Bytes

-- `X` stands for the error values of the libraries hyper, std and anyhow.
pub data DohError (X : Type 0) : Type 0 where
  incomplete invalid_data too_large upstream_issue upstream_timeout stale_key : DohError X
  hyper io odoh_config_error : X → DohError X
  too_many_tcp_sessions : DohError X
  upstream_joined : List UpstreamAttemptError → DohError X

module _ {X : Type 0} where
  unfoldable pub kind_of : DohError X → UpstreamErrorKind
  kind_of incomplete = incomplete_kind
  kind_of invalid_data = invalid_data_kind
  kind_of too_large = too_large_kind
  kind_of upstream_issue = upstream_issue_kind
  kind_of upstream_timeout = upstream_timeout_kind
  kind_of stale_key = stale_key_kind
  kind_of (hyper x) = hyper_kind
  kind_of (io x) = io_kind
  kind_of (odoh_config_error x) = odoh_config_error_kind
  kind_of too_many_tcp_sessions = too_many_tcp_sessions_kind
  kind_of (upstream_joined attempts) = upstream_issue_kind

  -- `to_text` is the `Display` of the error.
  unfoldable pub attempt_of : (DohError X → Bytes) → Bytes → ℕ → DohError X → UpstreamAttemptError
  attempt_of to_text address duration e = record {
    address = address;
    duration = duration;
    error_kind = kind_of e;
    error_message = to_text e;
  }

  unfoldable pub from_upstream_attempts : List UpstreamAttemptError → DohError X
  from_upstream_attempts [] = upstream_issue
  from_upstream_attempts (attempt ∷ attempts) = upstream_joined (attempt ∷ attempts)

  unfoldable pub status_code : DohError X → ℕ
  status_code incomplete = 422
  status_code invalid_data = 400
  status_code too_large = 413
  status_code upstream_issue = 502
  status_code upstream_timeout = 502
  status_code stale_key = 401
  status_code (hyper x) = 503
  status_code (io x) = 500
  status_code (odoh_config_error x) = 500
  status_code too_many_tcp_sessions = 503
  status_code (upstream_joined attempts) = 502
