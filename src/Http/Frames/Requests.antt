-- ===== src/Http/Frames/Requests.antt =====
-- Every request of HTTP/3, and its responses next to those of HTTP/1 and HTTP/2.
use doh_server.Prelude.{
  ℕ, ◌≤◌, Bool, true, false, List, [], ◌∷◌, Option, none, some, Outcome, ok, err, panic,
  out_of_fuel, Ends, Ends-bind, if◌then◌else◌,
}
use doh_server.Bytes.{Bytes}
use doh_server.Errors.{DohError, status_code}
use doh_server.Msg.Answers.{IpAddr, same_bytes}
use doh_server.Odoh.{OdohRs, OdohPublicKey, into_config}
use doh_server.Proxy.{DnsResponse}
use doh_server.Text.{split, before, nth}
use doh_server.Http.{
  DohType, standard, oblivious, json, cache_for, or_empty, ok_or, doh_type_of, media_type, first_of,
  known_types, parse_h3_content_type, query_from_path,
}
use doh_server.Http.Json.{H3Response}
use doh_server.Http.Serve.{Site, octet_stream, odoh_key_rotation_secs}
use doh_server.Http.Answers.{AnyFailure}
use doh_server.Http.Http3.{
  Header, h3_header_value, or_text, is_standard, post_disabled, receive_body, InboundFrame, Channel,
  send_h3_response, send_h3_error, handle_doh_payload, h3_configs, h3_json, h3_get, h3_body,
  h3_post, h3_dispatch, handle_h3_request, sending,
}
use doh_server.Http.Frames.{
  Handles, sending-Handles, handle_doh_payload-Handles, refuses, either-Handles, sends_response,
}

or_status-Ends :
    {A : Type 0} (o : Option A) (n : ℕ) → Ends {E = ℕ} AnyFailure (λ _. Unit {0}) (ok_or o n)
or_status-Ends none n = tt
or_status-Ends (some a) n = tt

parse_h3_content_type-Ends :
    (content_type accept : Option Bytes)
    → Ends AnyFailure (λ _. Unit {0}) (parse_h3_content_type content_type accept)
unfolding parse_h3_content_type
parse_h3_content_type-Ends (some t) accept = or_status-Ends (doh_type_of (media_type t)) 415
parse_h3_content_type-Ends none none = tt
parse_h3_content_type-Ends none (some a) =
    Ends-bind AnyFailure (λ _. Unit {0}) (λ _. Unit {0})
      (ok_or (first_of (split b',' a) known_types) 406) _
      (or_status-Ends (first_of (split b',' a) known_types) 406)
      (λ t _. or_status-Ends (doh_type_of (media_type t)) 415)

module _ {X S : Type 0} (utf8 decode : Bytes → Option Bytes) (rs : OdohRs X)
    (key : OdohPublicKey rs) (nonce : rs.Nonce)
    (proxy : Bytes → Option IpAddr → S → Outcome (S × DohError X) (S × DnsResponse))
    (json_query : Bytes → Option IpAddr → S → Outcome (S × DohError X) (S × H3Response))
    (proxy-Ends : (q : Bytes) (ip : Option IpAddr) (s : S)
      → Ends AnyFailure (λ _. Unit {0}) (proxy q ip s)) where
  abbrev pub Answers : Channel → Outcome ((S × Channel) × DohError X) (S × Channel) → Type 0
  Answers = Handles utf8 decode rs key nonce proxy json_query proxy-Ends

  -- The JSON API ends for the parameters in a path.
  abbrev pub JsonEnds : Bytes → Type 0
  JsonEnds path =
      (ip : Option IpAddr) (s : S)
      → Ends AnyFailure (λ _. Unit {0}) (json_query (or_empty (nth (split b'?' path) 1)) ip s)

  refused :
      (status : ℕ) (long : Bool) (s : S) (send : Channel)
      → 2 ≤ send.room
      → Answers send
          (sending utf8 decode rs key nonce proxy json_query s (send_h3_error status long send))
  refused = refuses utf8 decode rs key nonce proxy json_query proxy-Ends

  h3_configs-Answers :
      (method : Bytes) (s : S) (send : Channel)
      → 2 ≤ send.room
      → Answers send (h3_configs utf8 decode rs key nonce proxy json_query method s send)
  unfolding h3_configs
  h3_configs-Answers method s send h =
      either-Handles utf8 decode rs key nonce proxy json_query proxy-Ends
        (same_bytes method (b'G' ∷ b'E' ∷ b'T' ∷ [])) send _ _
        (sending-Handles utf8 decode rs key nonce proxy json_query proxy-Ends s send _ (
          sends_response X 200 octet_stream (into_config rs key)
            (some (cache_for odoh_key_rotation_secs)) true send h))
        (refused 405 false s send h)

  h3_json-Answers :
      (path : Bytes) (ip : Option IpAddr) (s : S) (send : Channel)
      → JsonEnds path
      → 2 ≤ send.room
      → Answers send (h3_json utf8 decode rs key nonce proxy json_query path ip s send)
  unfolding h3_json
  h3_json-Answers path ip s send k h =
      by_answer (json_query (or_empty (nth (split b'?' path) 1)) ip s) (k ip s)
    where
      by_answer :
          (m : Outcome (S × DohError X) (S × H3Response))
          → Ends AnyFailure (λ _. Unit {0}) m
          → Answers send (elim m [
            | ok (s', response) ↦ sending utf8 decode rs key nonce proxy json_query s' (
                send_h3_response response.status response.content_type response.body
                  response.cache_control true send)
            | err (s', e) ↦
                sending utf8 decode rs key nonce proxy json_query s'
                  (send_h3_error (status_code e) false send)
            | panic ↦ panic
            | out_of_fuel ↦ out_of_fuel
          ])
      by_answer (ok (s', r)) l =
          sending-Handles utf8 decode rs key nonce proxy json_query proxy-Ends s' send _
            (sends_response X r.status r.content_type r.body r.cache_control true send h)
      by_answer (err (s', e)) l = refused (status_code e) false s' send h
      by_answer panic l = absurd l
      by_answer out_of_fuel l = absurd l

  h3_get-Answers :
      (doh_type : DohType) (path : Bytes) (ip : Option IpAddr) (s : S) (send : Channel)
      → 2 ≤ send.room
      → Answers send (h3_get utf8 decode rs key nonce proxy json_query doh_type path ip s send)
  unfolding h3_get
  h3_get-Answers doh_type path ip s send h = by_query (query_from_path decode path)
    where
      by_query :
          (o : Option Bytes)
          → Answers send (elim o [
            | some query ↦
                handle_doh_payload utf8 decode rs key nonce proxy json_query doh_type query ip
                  (is_standard utf8 decode rs key nonce proxy json_query doh_type)
                  s
                  send
            | none ↦
                sending utf8 decode rs key nonce proxy json_query s (send_h3_error 400 true send)
          ])
      by_query none = refused 400 true s send h
      by_query (some q) =
          handle_doh_payload-Handles utf8 decode rs key nonce proxy json_query proxy-Ends doh_type q
            ip _ s send h

  h3_body-Answers :
      (doh_type : DohType) (body : Option Bytes) (ip : Option IpAddr) (s : S) (send : Channel)
      → 2 ≤ send.room
      → Answers send (h3_body utf8 decode rs key nonce proxy json_query doh_type body ip s send)
  h3_body-Answers doh_type none ip s send h = refused 413 false s send h
  h3_body-Answers doh_type (some []) ip s send h = refused 400 true s send h
  h3_body-Answers doh_type (some (b ∷ body)) ip s send h =
      handle_doh_payload-Handles utf8 decode rs key nonce proxy json_query proxy-Ends doh_type
        (b ∷ body) ip _ s send h

  h3_post-Answers :
      (site : Site) (doh_type : DohType) (recv : List InboundFrame) (ip : Option IpAddr) (s : S)
      (send : Channel)
      → 2 ≤ send.room
      → Answers send
          (h3_post utf8 decode rs key nonce proxy json_query site doh_type recv ip s send)
  unfolding h3_post
  h3_post-Answers site doh_type recv ip s send h =
      either-Handles utf8 decode rs key nonce proxy json_query proxy-Ends
        (post_disabled utf8 decode rs key nonce proxy json_query site doh_type) send _ _
        (refused 405 false s send h) (h3_body-Answers doh_type (receive_body recv [] 0) ip s send h)

  h3_dispatch-Answers :
      (site : Site) (method : Bytes) (doh_type : DohType) (path : Bytes) (recv : List InboundFrame)
      (ip : Option IpAddr) (s : S) (send : Channel)
      → JsonEnds path
      → 2 ≤ send.room
      → Answers send (
          h3_dispatch utf8 decode rs key nonce proxy json_query site method doh_type path recv ip s
            send)
  unfolding h3_dispatch
  h3_dispatch-Answers site method json path recv ip s send k h =
      either-Handles utf8 decode rs key nonce proxy json_query proxy-Ends
        (same_bytes method (b'G' ∷ b'E' ∷ b'T' ∷ [])) send _ _ (h3_json-Answers path ip s send k h)
        (refused 405 false s send h)
  h3_dispatch-Answers site method standard path recv ip s send k h =
      either-Handles utf8 decode rs key nonce proxy json_query proxy-Ends
        (same_bytes method (b'G' ∷ b'E' ∷ b'T' ∷ [])) send _ _
        (h3_get-Answers standard path ip s send h)
        (either-Handles utf8 decode rs key nonce proxy json_query proxy-Ends
          (same_bytes method (b'P' ∷ b'O' ∷ b'S' ∷ b'T' ∷ [])) send _ _
          (h3_post-Answers site standard recv ip s send h) (refused 405 false s send h))
  h3_dispatch-Answers site method oblivious path recv ip s send k h =
      either-Handles utf8 decode rs key nonce proxy json_query proxy-Ends
        (same_bytes method (b'G' ∷ b'E' ∷ b'T' ∷ [])) send _ _
        (h3_get-Answers oblivious path ip s send h)
        (either-Handles utf8 decode rs key nonce proxy json_query proxy-Ends
          (same_bytes method (b'P' ∷ b'O' ∷ b'S' ∷ b'T' ∷ [])) send _ _
          (h3_post-Answers site oblivious recv ip s send h) (refused 405 false s send h))

  -- Where the way over the upstreams ends without a panic, and so does the JSON API for the parameters
  -- in the path, and the client takes two frames, a request of HTTP/3 ends: it sends the frames of one
  -- response, or it fails and sends nothing.
  pub handle_h3_request-Ends :
      (site : Site) (headers : List Header) (recv : List InboundFrame) (remote_addr : Option IpAddr)
      (s : S) (send : Channel)
      → JsonEnds (
          or_text
            (h3_header_value utf8 headers (b':' ∷ b'p' ∷ b'a' ∷ b't' ∷ b'h' ∷ []))
            (b'/' ∷ []))
      → 2 ≤ send.room
      → Answers send (
          handle_h3_request utf8 decode rs key nonce proxy json_query site headers recv remote_addr
            s send)
  unfolding handle_h3_request
  handle_h3_request-Ends site headers recv remote_addr s send k h =
      by_path (same_bytes (before b'?' path) site.odoh_configs_path)
        (same_bytes (before b'?' path) site.path) (parse_h3_content_type content_type accept)
        (parse_h3_content_type-Ends content_type accept)
    where
      method : Bytes
      method =
          or_text
            (h3_header_value utf8 headers (b':' ∷ b'm' ∷ b'e' ∷ b't' ∷ b'h' ∷ b'o' ∷ b'd' ∷ []))
            (b'G' ∷ b'E' ∷ b'T' ∷ [])

      path : Bytes
      path =
          or_text (h3_header_value utf8 headers (b':' ∷ b'p' ∷ b'a' ∷ b't' ∷ b'h' ∷ [])) (b'/' ∷ [])

      content_type : Option Bytes
      content_type =
          h3_header_value utf8 headers
            (b'c' ∷ b'o' ∷ b'n' ∷ b't' ∷ b'e' ∷ b'n' ∷ b't' ∷ b'-' ∷ b't' ∷ b'y' ∷ b'p' ∷ b'e' ∷ [])

      accept : Option Bytes
      accept = h3_header_value utf8 headers (b'a' ∷ b'c' ∷ b'c' ∷ b'e' ∷ b'p' ∷ b't' ∷ [])

      by_path :
          (at_configs at_query : Bool) (m : Outcome ℕ DohType)
          → Ends AnyFailure (λ _. Unit {0}) m
          → Answers send (elim at_configs [
            | true ↦ h3_configs utf8 decode rs key nonce proxy json_query method s send
            | false ↦ elim at_query [
              | false ↦
                  sending utf8 decode rs key nonce proxy json_query s (send_h3_error 404 true send)
              | true ↦ elim m [
                | ok doh_type ↦
                    h3_dispatch utf8 decode rs key nonce proxy json_query site method doh_type path
                      recv
                      (if site.enable_ecs then remote_addr else none)
                      s
                      send
                | err status ↦
                    sending utf8 decode rs key nonce proxy json_query s
                      (send_h3_error status true send)
                | panic ↦ panic
                | out_of_fuel ↦ out_of_fuel
              ]
            ]
          ])
      by_path true q m l = h3_configs-Answers method s send h
      by_path false false m l = refused 404 true s send h
      by_path false true (ok t) l = h3_dispatch-Answers site method t path recv _ s send k h
      by_path false true (err status) l = refused status true s send h
      by_path false true panic l = absurd l
      by_path false true out_of_fuel l = absurd l
