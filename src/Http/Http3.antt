-- ===== src/Http/Http3.antt =====
-- The requests of HTTP/3 in src/libdoh/src/lib.rs: `handle_h3_request` and what it calls.
use doh_server.Prelude.{
  ℕ, ◌-◌, Bool, true, false, not, ◌&&◌, List, [], ◌∷◌, ◌++◌, Option, none, some, length, Outcome,
  ok, err, panic, out_of_fuel, ◌>>=◌, map_err, ltb, ◌==◌, if◌then◌else◌,
}
use doh_server.Bytes.{Bytes}
use doh_server.Backoff.{saturating_add}
use doh_server.DnsJson.Response.Texts.{decimal}
use doh_server.Errors.{DohError, upstream_issue, status_code}
use doh_server.Msg.Answers.{IpAddr, same_bytes}
use doh_server.Odoh.{OdohRs, OdohPublicKey, into_config, decrypt_query, encrypt_response}
use doh_server.Proxy.{DnsResponse}
use doh_server.Text.{split, before, nth}
use doh_server.Http.{
  DohType, standard, oblivious, json, as_str, cache_for, long_cache, max_dns_question_len, or_empty,
  parse_h3_content_type, query_from_path,
}
use doh_server.Http.Json.{H3Response}
use doh_server.Http.Serve.{Site, odoh_key_rotation_secs, octet_stream}

abbrev pub Header : Type 0
Header = Bytes × Bytes

-- The body frame is the last one.
pub data OutboundFrame : Type 0 where
  headers_frame : List Header → OutboundFrame
  body_frame : Bytes → OutboundFrame

-- A part of the body with its `fin`, or a frame of another kind.
pub data InboundFrame : Type 0 where
  body_part : Bytes → Bool → InboundFrame
  other_frame : InboundFrame

-- What was sent, and how many frames more the other side takes before it is closed.
pub record Channel : Type 0 where
  pub sent : List OutboundFrame
  pub room : ℕ

-- `utf8` is `str::from_utf8`.
unfoldable pub h3_header_value : (Bytes → Option Bytes) → List Header → Bytes → Option Bytes
h3_header_value utf8 [] name = none
h3_header_value utf8 ((n, value) ∷ headers) name =
    let rest = h3_header_value utf8 headers name in if same_bytes n name then utf8 value else rest

-- The loop that receives the body behind what it has, `none` where it is too large.
unfoldable pub receive_body : List InboundFrame → Bytes → ℕ → Option Bytes
receive_body [] body body_len = some body
receive_body (other_frame ∷ frames) body body_len = receive_body frames body body_len
receive_body (body_part part fin ∷ frames) body body_len =
    let body_len' = saturating_add body_len (length part) in
    let rest = receive_body frames (body ++ part) body_len' in
    if ltb max_dns_question_len body_len' then none else if fin then some (body ++ part) else rest

-- `unwrap_or_else`
abbrev pub or_text : Option Bytes → Bytes → Bytes
or_text none t = t
or_text (some s) t = s

abbrev pub cache_headers : Option Bytes → List Header
cache_headers none = []
cache_headers (some cache_control) =
    (
      (b'c' ∷ b'a' ∷ b'c' ∷ b'h' ∷ b'e' ∷ b'-' ∷ b'c' ∷ b'o' ∷ b'n' ∷ b't' ∷ b'r' ∷ b'o' ∷ b'l'
          ∷ []),
      cache_control,
    )
    ∷ []

abbrev pub response_headers : ℕ → Bytes → Bytes → Option Bytes → Bool → List Header
response_headers status content_type body cache_control cors =
    ((b':' ∷ b's' ∷ b't' ∷ b'a' ∷ b't' ∷ b'u' ∷ b's' ∷ []), decimal status)
      ∷ (
        (b'c' ∷ b'o' ∷ b'n' ∷ b't' ∷ b'e' ∷ b'n' ∷ b't' ∷ b'-' ∷ b't' ∷ b'y' ∷ b'p' ∷ b'e' ∷ []),
        content_type,
      )
      ∷ (
        (b'c' ∷ b'o' ∷ b'n' ∷ b't' ∷ b'e' ∷ b'n' ∷ b't' ∷ b'-' ∷ b'l' ∷ b'e' ∷ b'n' ∷ b'g' ∷ b't'
            ∷ b'h' ∷ []),
        decimal (length body),
      )
      ∷ cache_headers cache_control
    ++ (if cors
        then (
          (b'a' ∷ b'c' ∷ b'c' ∷ b'e' ∷ b's' ∷ b's' ∷ b'-' ∷ b'c' ∷ b'o' ∷ b'n' ∷ b't' ∷ b'r' ∷ b'o'
              ∷ b'l' ∷ b'-' ∷ b'a' ∷ b'l' ∷ b'l' ∷ b'o' ∷ b'w' ∷ b'-' ∷ b'o' ∷ b'r' ∷ b'i' ∷ b'g'
              ∷ b'i' ∷ b'n' ∷ []),
          (b'*' ∷ []),
        )
          ∷ []
        else [])

module _ {X : Type 0} where
  -- `send.send(frame).await.map_err(|_| DoHError::UpstreamIssue)`
  unfoldable pub send_frame : OutboundFrame → Channel → Outcome (Channel × DohError X) Channel
  send_frame frame send =
      if send.room == 0
      then err (send, upstream_issue)
      else ok (record { sent = send.sent ++ frame ∷ []; room = send.room - 1 })

  unfoldable pub send_h3_response :
      ℕ → Bytes → Bytes → Option Bytes → Bool → Channel → Outcome (Channel × DohError X) Channel
  send_h3_response status content_type body cache_control cors send = do
    send' ←
        send_frame (headers_frame (response_headers status content_type body cache_control cors))
          send
    if length body == 0 then ok send' else send_frame (body_frame body) send'

  unfoldable pub send_h3_error : ℕ → Bool → Channel → Outcome (Channel × DohError X) Channel
  send_h3_error status long_cache_control send =
      send_h3_response status
        (b't' ∷ b'e' ∷ b'x' ∷ b't' ∷ b'/' ∷ b'p' ∷ b'l' ∷ b'a' ∷ b'i' ∷ b'n' ∷ []) []
        (if long_cache_control then some long_cache else none) false send

module _ {X S : Type 0} (utf8 decode : Bytes → Option Bytes) (rs : OdohRs X)
    (key : OdohPublicKey rs) (nonce : rs.Nonce)
    (proxy : Bytes → Option IpAddr → S → Outcome (S × DohError X) (S × DnsResponse))
    (json_query : Bytes → Option IpAddr → S → Outcome (S × DohError X) (S × H3Response)) where
  -- What a request leaves behind, with the error that its task drops.
  abbrev pub Handled : Type 0
  Handled = Outcome ((S × Channel) × DohError X) (S × Channel)

  -- A call that sends, next to the state that it does not change.
  abbrev pub sending : S → Outcome (Channel × DohError X) Channel → Handled
  sending s (ok send) = ok (s, send)
  sending s (err (send, e)) = err ((s, send), e)
  sending s panic = panic
  sending s out_of_fuel = out_of_fuel

  -- A call that does not send.
  abbrev pub silent :
      {A : Type 0} → Channel → Outcome (S × DohError X) A → Outcome ((S × Channel) × DohError X) A
  silent send m = map_err (λ (e : S × DohError X). ((e.0, send), e.1)) m

  unfoldable pub handle_doh_payload : DohType → Bytes → Option IpAddr → Bool → S → Channel → Handled
  handle_doh_payload standard payload client_ip cors s send = do
    (s', resp) ← silent send (proxy payload client_ip s)
    sending s'
        (send_h3_response 200 (as_str standard) resp.packet (some (cache_for resp.ttl)) cors send)
  handle_doh_payload oblivious payload client_ip cors s send = do
    (query, context) ← silent send (map_err (λ e. (s, e)) (decrypt_query rs key payload))
    (s', resp) ← silent send (proxy query none s)
    encrypted_resp ←
        silent send (map_err (λ e. (s', e)) (encrypt_response rs context nonce resp.packet))
    sending s'
        (send_h3_response 200 (as_str oblivious) encrypted_resp (some (cache_for 0)) false send)
  handle_doh_payload json payload client_ip cors s send = sending s (send_h3_error 405 false send)

  abbrev pub is_standard : DohType → Bool
  is_standard standard = true
  is_standard _ = false

  -- Whether the method is refused although the kind of DoH has it.
  abbrev pub post_disabled : Site → DohType → Bool
  post_disabled site standard = site.disable_post
  post_disabled site oblivious = site.disable_post && not site.allow_odoh_post
  post_disabled site json = false

  unfoldable pub h3_configs : Bytes → S → Channel → Handled
  h3_configs method s send = elim (same_bytes method (b'G' ∷ b'E' ∷ b'T' ∷ [])) [
    | true ↦ sending s (
        send_h3_response 200 octet_stream (into_config rs key)
          (some (cache_for odoh_key_rotation_secs)) true send)
    | false ↦ sending s (send_h3_error 405 false send)
  ]

  unfoldable pub h3_json : Bytes → Option IpAddr → S → Channel → Handled
  h3_json path client_ip s send =
      elim (json_query (or_empty (nth (split b'?' path) 1)) client_ip s) [
        | ok (s', response) ↦ sending s' (
            send_h3_response response.status response.content_type response.body
              response.cache_control true send)
        | err (s', e) ↦ sending s' (send_h3_error (status_code e) false send)
        | panic ↦ panic
        | out_of_fuel ↦ out_of_fuel
      ]

  unfoldable pub h3_get : DohType → Bytes → Option IpAddr → S → Channel → Handled
  h3_get doh_type path client_ip s send = elim (query_from_path decode path) [
    | some query ↦ handle_doh_payload doh_type query client_ip (is_standard doh_type) s send
    | none ↦ sending s (send_h3_error 400 true send)
  ]

  -- The body, unless it was too large, as a query.
  abbrev pub h3_body : DohType → Option Bytes → Option IpAddr → S → Channel → Handled
  h3_body doh_type none client_ip s send = sending s (send_h3_error 413 false send)
  h3_body doh_type (some []) client_ip s send = sending s (send_h3_error 400 true send)
  h3_body doh_type (some (b ∷ body)) client_ip s send =
      handle_doh_payload doh_type (b ∷ body) client_ip (is_standard doh_type) s send

  unfoldable pub h3_post :
      Site → DohType → List InboundFrame → Option IpAddr → S → Channel → Handled
  h3_post site doh_type recv client_ip s send = elim (post_disabled site doh_type) [
    | true ↦ sending s (send_h3_error 405 false send)
    | false ↦ h3_body doh_type (receive_body recv [] 0) client_ip s send
  ]

  -- The match on the method and the kind of DoH.
  unfoldable pub h3_dispatch :
      Site → Bytes → DohType → Bytes → List InboundFrame → Option IpAddr → S → Channel → Handled
  h3_dispatch site method json path recv client_ip s send =
      elim (same_bytes method (b'G' ∷ b'E' ∷ b'T' ∷ [])) [
        | true ↦ h3_json path client_ip s send
        | false ↦ sending s (send_h3_error 405 false send)
      ]
  h3_dispatch site method doh_type path recv client_ip s send =
      elim (same_bytes method (b'G' ∷ b'E' ∷ b'T' ∷ [])) [
        | true ↦ h3_get doh_type path client_ip s send
        | false ↦ elim (same_bytes method (b'P' ∷ b'O' ∷ b'S' ∷ b'T' ∷ [])) [
          | true ↦ h3_post site doh_type recv client_ip s send
          | false ↦ sending s (send_h3_error 405 false send)
        ]
      ]

  abbrev pub h3_client_ip : Site → Option IpAddr → Option IpAddr
  h3_client_ip site remote_addr = if site.enable_ecs then remote_addr else none

  unfoldable pub handle_h3_request :
      Site → List Header → List InboundFrame → Option IpAddr → S → Channel → Handled
  handle_h3_request site headers recv remote_addr s send =
      let method =
        or_text (h3_header_value utf8 headers (b':' ∷ b'm' ∷ b'e' ∷ b't' ∷ b'h' ∷ b'o' ∷ b'd' ∷ []))
          (b'G' ∷ b'E' ∷ b'T' ∷ []) in
      let path =
        or_text (h3_header_value utf8 headers (b':' ∷ b'p' ∷ b'a' ∷ b't' ∷ b'h' ∷ []))
          (b'/' ∷ []) in
      let path_only = before b'?' path in
      let content_type =
        h3_header_value utf8 headers (
          b'c' ∷ b'o' ∷ b'n' ∷ b't' ∷ b'e' ∷ b'n' ∷ b't' ∷ b'-' ∷ b't' ∷ b'y' ∷ b'p' ∷ b'e' ∷ []) in
      let accept = h3_header_value utf8 headers (b'a' ∷ b'c' ∷ b'c' ∷ b'e' ∷ b'p' ∷ b't' ∷ []) in
      elim (same_bytes path_only site.odoh_configs_path) [
        | true ↦ h3_configs method s send
        | false ↦ elim (same_bytes path_only site.path) [
          | false ↦ sending s (send_h3_error 404 true send)
          | true ↦ elim (parse_h3_content_type content_type accept) [
            | ok doh_type ↦
                h3_dispatch site method doh_type path recv (h3_client_ip site remote_addr) s send
            | err status ↦ sending s (send_h3_error status true send)
            | panic ↦ panic
            | out_of_fuel ↦ out_of_fuel
          ]
        ]
      ]
