-- ===== src/Http/Serve.antt =====
-- The service of src/libdoh/src/lib.rs for HTTP/1 and HTTP/2: `call` and the handlers behind it.
use doh_server.Prelude.{
  ℕ, Bool, true, false, not, ◌&&◌, [], ◌∷◌, Option, none, some, Outcome, ok, err, panic,
  out_of_fuel, ◌>>=◌, map_err,
}
use doh_server.Bytes.{Bytes}
use doh_server.Errors.{DohError, status_code}
use doh_server.Ecs.{HeaderName, x_forwarded_for, x_real_ip, and_then, extract_client_ip}
use doh_server.Msg.Answers.{IpAddr, same_bytes}
use doh_server.Odoh.{OdohRs, OdohPublicKey, into_config, decrypt_query, encrypt_response}
use doh_server.Proxy.{DnsResponse}
use doh_server.Text.{trim}
use doh_server.Http.{
  standard, oblivious, json, as_str, Method, get, post, other_method, Request, Response, http_error,
  http_error_with_cache, build_response, or_empty, parse_content_type, query_from_query_string,
  read_body,
}
use doh_server.Http.Json.{H3Response}

abbrev pub odoh_key_rotation_secs : ℕ
odoh_key_rotation_secs = 86400

-- What the service reads of the configuration.
pub record Site : Type 0 where
  pub path : Bytes
  pub odoh_configs_path : Bytes
  pub disable_post : Bool
  pub allow_odoh_post : Bool
  pub enable_ecs : Bool

abbrev pub octet_stream : Bytes
octet_stream =
    (b'a' ∷ b'p' ∷ b'p' ∷ b'l' ∷ b'i' ∷ b'c' ∷ b'a' ∷ b't' ∷ b'i' ∷ b'o' ∷ b'n' ∷ b'/' ∷ b'o' ∷ b'c'
      ∷ b't' ∷ b'e' ∷ b't' ∷ b'-' ∷ b's' ∷ b't' ∷ b'r' ∷ b'e' ∷ b'a' ∷ b'm' ∷ [])

-- The value of a header that is text.
abbrev pub get_text : (Bytes → Option Bytes) → Request → HeaderName → Option Bytes
get_text to_str req x_forwarded_for = and_then req.x_forwarded_for to_str
get_text to_str req x_real_ip = and_then req.x_real_ip to_str

-- The response to a call of `serve_json_get`.
unfoldable pub json_reply : H3Response → Response
json_reply response = record {
  status = response.status;
  content_length = none;
  content_type = some response.content_type;
  cache_control = response.cache_control;
  cors = true;
  body = response.body;
}

-- `to_str` makes a header's value text, `decode` is Base64 for URLs, `parse_ip` reads an address.
-- `key` is the current key of Oblivious DoH and `nonce` the random one of the answer. `proxy` is
-- the way over the upstreams, with the state that it changes, and `json_query` the call of
-- `serve_json_query`.
module _ {X S : Type 0} (to_str decode : Bytes → Option Bytes) (parse_ip : Bytes → Option IpAddr)
    (rs : OdohRs X) (key : OdohPublicKey rs) (nonce : rs.Nonce)
    (proxy : Bytes → Option IpAddr → S → Outcome (S × DohError X) (S × DnsResponse))
    (json_query : Bytes → Option IpAddr → S → Outcome (S × DohError X) (S × H3Response)) where
  -- The response of a handler: an error becomes the response with its status.
  abbrev pub answered : Outcome (S × DohError X) (S × Response) → Outcome ⊥ (S × Response)
  answered (ok r) = ok r
  answered (err (s, e)) = ok (s, http_error (status_code e))
  answered panic = panic
  answered out_of_fuel = out_of_fuel

  unfoldable pub client_ip_of : Site → Request → Option IpAddr → Option IpAddr
  client_ip_of site req remote_addr = elim site.enable_ecs [
    | true ↦ extract_client_ip (get_text to_str) trim parse_ip req remote_addr
    | false ↦ none
  ]

  unfoldable pub serve_doh_query : Bytes → Option IpAddr → S → Outcome ⊥ (S × Response)
  serve_doh_query query client_ip s = answered (do
    (s', resp) ← proxy query client_ip s
    ok (s', build_response resp.packet resp.ttl (as_str standard) true))

  unfoldable pub serve_doh_get : Site → Request → Option IpAddr → S → Outcome ⊥ (S × Response)
  serve_doh_get site req remote_addr s = elim (query_from_query_string decode req) [
    | some query ↦ serve_doh_query query (client_ip_of site req remote_addr) s
    | none ↦ ok (s, http_error_with_cache 400)
  ]

  unfoldable pub serve_doh_post : Site → Request → Option IpAddr → S → Outcome ⊥ (S × Response)
  serve_doh_post site req remote_addr s = elim site.disable_post [
    | true ↦ ok (s, http_error 405)
    | false ↦ elim (read_body {X = X} req.body) [
      | ok query ↦ serve_doh_query query (client_ip_of site req remote_addr) s
      | err e ↦ ok (s, http_error (status_code e))
      | panic ↦ panic
      | out_of_fuel ↦ out_of_fuel
    ]
  ]

  unfoldable pub serve_odoh : Bytes → S → Outcome ⊥ (S × Response)
  serve_odoh encrypted_query s = answered (do
    (query, context) ← map_err (λ e. (s, e)) (decrypt_query rs key encrypted_query)
    (s', resp) ← proxy query none s
    encrypted_resp ← map_err (λ e. (s', e)) (encrypt_response rs context nonce resp.packet)
    ok (s', build_response encrypted_resp 0 (as_str oblivious) false))

  unfoldable pub serve_odoh_get : Request → S → Outcome ⊥ (S × Response)
  serve_odoh_get req s = elim (query_from_query_string decode req) [
    | some encrypted_query ↦ serve_odoh encrypted_query s
    | none ↦ ok (s, http_error_with_cache 400)
  ]

  unfoldable pub serve_odoh_post : Site → Request → S → Outcome ⊥ (S × Response)
  serve_odoh_post site req s = elim (site.disable_post && not site.allow_odoh_post) [
    | true ↦ ok (s, http_error 405)
    | false ↦ elim (read_body {X = X} req.body) [
      | ok encrypted_query ↦ serve_odoh encrypted_query s
      | err e ↦ ok (s, http_error (status_code e))
      | panic ↦ panic
      | out_of_fuel ↦ out_of_fuel
    ]
  ]

  unfoldable pub serve_odoh_configs : Response
  serve_odoh_configs = build_response (into_config rs key) odoh_key_rotation_secs octet_stream true

  unfoldable pub serve_json_get : Site → Request → Option IpAddr → S → Outcome ⊥ (S × Response)
  serve_json_get site req remote_addr s = answered (do
    (s', response) ← json_query (or_empty req.query) (client_ip_of site req remote_addr) s
    ok (s', json_reply response))

  unfoldable pub serve_get : Site → Request → Option IpAddr → S → Outcome ⊥ (S × Response)
  serve_get site req remote_addr s = elim (parse_content_type to_str req) [
    | ok standard ↦ serve_doh_get site req remote_addr s
    | ok oblivious ↦ serve_odoh_get req s
    | ok json ↦ serve_json_get site req remote_addr s
    | err response ↦ ok (s, response)
    | panic ↦ panic
    | out_of_fuel ↦ out_of_fuel
  ]

  unfoldable pub serve_post : Site → Request → Option IpAddr → S → Outcome ⊥ (S × Response)
  serve_post site req remote_addr s = elim (parse_content_type to_str req) [
    | ok standard ↦ serve_doh_post site req remote_addr s
    | ok oblivious ↦ serve_odoh_post site req s
    | ok json ↦ ok (s, http_error 405)
    | err response ↦ ok (s, response)
    | panic ↦ panic
    | out_of_fuel ↦ out_of_fuel
  ]

  -- The path of the queries, for each method.
  unfoldable pub at_path : Method → Site → Request → Option IpAddr → S → Outcome ⊥ (S × Response)
  at_path get site req remote_addr s = serve_get site req remote_addr s
  at_path post site req remote_addr s = serve_post site req remote_addr s
  at_path (other_method m) site req remote_addr s = ok (s, http_error 405)

  -- The path of the keys, for each method.
  unfoldable pub at_configs_path : Method → S → Outcome ⊥ (S × Response)
  at_configs_path get s = ok (s, serve_odoh_configs)
  at_configs_path _ s = ok (s, http_error 405)

  unfoldable pub call : Site → Request → Option IpAddr → S → Outcome ⊥ (S × Response)
  call site req remote_addr s = elim (same_bytes req.path site.path) [
    | true ↦ at_path req.method site req remote_addr s
    | false ↦ elim (same_bytes req.path site.odoh_configs_path) [
      | true ↦ at_configs_path req.method s
      | false ↦ ok (s, http_error 404)
    ]
  ]
