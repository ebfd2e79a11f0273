-- ===== src/Http/Frames.antt =====
-- What a request of HTTP/3 sends back.
pub mod Requests
pub mod Same
use doh_server.Prelude.{
  ℕ, ◌+◌, ◌-◌, ◌≤◌, ◌≡◌, refl, ◌⊎◌, inl, inr, Bool, true, false, List, [], ◌∷◌, ◌++◌, append_assoc,
  length, Option, none, some, Outcome, ok, err, panic, out_of_fuel, ◌>>=◌, map_err, Ends, Ends-bind,
  Ends-map_err, Ends-mono, Bool-cases, ◌==◌, if◌then◌else◌, not, ◌&&◌, arith,
}
use doh_server.Bytes.{Bytes}
use doh_server.Errors.{DohError, status_code, invalid_data}
use doh_server.Msg.Answers.{IpAddr, same_bytes}
use doh_server.Odoh.{OdohRs, OdohPublicKey, OdohQueryContext, decrypt_query, encrypt_response}
use doh_server.Odoh.Rotation.{IsRefusal, IsOpened, decrypt_query-Ends, encrypt_response-returns}
use doh_server.Proxy.{DnsResponse}
use doh_server.Http.{
  DohType, standard, oblivious, json, as_str, cache_for, long_cache, parse_h3_content_type,
  query_from_path, Response, http_error, build_response,
}
use doh_server.Http.Json.{H3Response}
use doh_server.Http.Serve.{Site, serve_doh_query}
use doh_server.Http.Answers.{AnyFailure}
use doh_server.Http.Http3.{
  Header, OutboundFrame, headers_frame, body_frame, InboundFrame, Channel, response_headers,
  send_frame, send_h3_response, send_h3_error, handle_doh_payload, h3_configs, h3_json, h3_get,
  h3_body, h3_post, h3_dispatch, handle_h3_request, sending, silent,
}

-- The frames of a response.
abbrev pub frames_of : ℕ → Bytes → Bytes → Option Bytes → Bool → List OutboundFrame
frames_of status content_type body cache_control cors =
    headers_frame (response_headers status content_type body cache_control cors)
    ∷ (if length body == 0 then [] else body_frame body ∷ [])

-- The channel has the frames of one response behind what it had.
abbrev pub HasResponse : Channel → Channel → Type 0
HasResponse send send' =
    (status : ℕ) × (content_type : Bytes) × (body : Bytes) × (cache_control : Option Bytes)
    × (cors : Bool) × (send'.sent
        ≡ send.sent ++ frames_of status content_type body cache_control cors)

module _ (X : Type 0) where
  pub send_h3_response-sends :
      (status : ℕ) (content_type body : Bytes) (cache_control : Option Bytes) (cors : Bool)
      (send : Channel)
      → 2 ≤ send.room
      → Ends {E = Channel × DohError X}
          (λ _. ⊥)
          (λ (r : Channel).
            r.sent ≡ send.sent ++ frames_of status content_type body cache_control cors)
          (send_h3_response status content_type body cache_control cors send)
  unfolding send_h3_response send_frame
  send_h3_response-sends status content_type body cache_control cors send h =
      let taken : (send.room == 0) ≡ false = ground arith in
      rw taken (by_body (Bool-cases (length body == 0)))
    where
      first : OutboundFrame
      first = headers_frame (response_headers status content_type body cache_control cors)

      sent : Channel
      sent = record { sent = send.sent ++ first ∷ []; room = send.room - 1 }

      by_body :
          (length body == 0 ≡ true) ⊎ (length body == 0 ≡ false)
          → Ends {E = Channel × DohError X}
              (λ _. ⊥)
              (λ (r : Channel).
                r.sent ≡ send.sent ++ frames_of status content_type body cache_control cors)
              (if length body == 0 then ok sent else send_frame (body_frame body) sent)
      by_body (inl e) = rw e refl
      by_body (inr n) =
          let more : (send.room - 1 == 0) ≡ false = ground arith in
          rw (n, more) (append_assoc send.sent (first ∷ []) (body_frame body ∷ []))

  pub sends_response :
      (status : ℕ) (content_type body : Bytes) (cache_control : Option Bytes) (cors : Bool)
      (send : Channel)
      → 2 ≤ send.room
      → Ends {E = Channel × DohError X}
          (λ _. ⊥)
          (HasResponse send)
          (send_h3_response status content_type body cache_control cors send)
  sends_response status content_type body cache_control cors send h =
      Ends-mono (λ _. ⊥)
        (λ (r : Channel).
          r.sent ≡ send.sent ++ frames_of status content_type body cache_control cors)
        (HasResponse send) _
        (send_h3_response-sends status content_type body cache_control cors send h)
        (λ r k. (status, content_type, body, cache_control, cors, k))

  pub send_h3_error-sends :
      (status : ℕ) (long : Bool) (send : Channel)
      → 2 ≤ send.room
      → Ends {E = Channel × DohError X} (λ _. ⊥) (HasResponse send) (send_h3_error status long send)
  unfolding send_h3_error
  send_h3_error-sends status long send h = sends_response status _ [] _ false send h

module _ {X S : Type 0} (utf8 decode : Bytes → Option Bytes) (rs : OdohRs X)
    (key : OdohPublicKey rs) (nonce : rs.Nonce)
    (proxy : Bytes → Option IpAddr → S → Outcome (S × DohError X) (S × DnsResponse))
    (json_query : Bytes → Option IpAddr → S → Outcome (S × DohError X) (S × H3Response))
    (proxy-Ends : (q : Bytes) (ip : Option IpAddr) (s : S)
      → Ends AnyFailure (λ _. Unit {0}) (proxy q ip s)) where
  -- One response, or nothing, with the error that the task drops.
  abbrev pub Handles : Channel → Outcome ((S × Channel) × DohError X) (S × Channel) → Type 0
  Handles send = Ends (λ e. e.0.1 ≡ send) (λ r. HasResponse send r.1)

  pub sending-Handles :
      (s : S) (send : Channel) (m : Outcome (Channel × DohError X) Channel)
      → Ends (λ _. ⊥) (HasResponse send) m
      → Handles send (sending utf8 decode rs key nonce proxy json_query s m)
  sending-Handles s send (ok c) h = h
  sending-Handles s send (err e) h = absurd h
  sending-Handles s send panic h = absurd h
  sending-Handles s send out_of_fuel h = absurd h

  pub silent-Handles :
      {A : Type 0} (send : Channel) (m : Outcome (S × DohError X) A)
      (next : A → Outcome ((S × Channel) × DohError X) (S × Channel))
      → Ends AnyFailure (λ _. Unit {0}) m
      → ((a : A) → Handles send (next a))
      → Handles send (silent utf8 decode rs key nonce proxy json_query send m >>= next)
  silent-Handles send (ok a) next h k = k a
  silent-Handles send (err e) next h k = refl
  silent-Handles send panic next h k = absurd h
  silent-Handles send out_of_fuel next h k = absurd h

  fails-with :
      {A : Type 0} (Q : DohError X → Type 0) (P : A → Type 0) (s : S) (m : Outcome (DohError X) A)
      → Ends Q P m
      → Ends {E = S × DohError X} AnyFailure (λ _. Unit {0}) (map_err (λ e. (s, e)) m)
  fails-with Q P s (ok a) h = tt
  fails-with Q P s (err e) h = tt
  fails-with Q P s panic h = absurd h
  fails-with Q P s out_of_fuel h = absurd h

  pub handle_doh_payload-Handles :
      (doh_type : DohType) (payload : Bytes) (client_ip : Option IpAddr) (cors : Bool) (s : S)
      (send : Channel)
      → 2 ≤ send.room
      → Handles send (
          handle_doh_payload utf8 decode rs key nonce proxy json_query doh_type payload client_ip
            cors s send)
  unfolding handle_doh_payload
  handle_doh_payload-Handles standard payload client_ip cors s send h =
      silent-Handles send (proxy payload client_ip s) _ (proxy-Ends payload client_ip s) (λ r.
        sending-Handles r.0 send _ (
          sends_response X 200 (as_str standard) r.1.packet (some (cache_for r.1.ttl)) cors send h))
  handle_doh_payload-Handles oblivious payload client_ip cors s send h =
      silent-Handles send (map_err (λ e. (s, e)) (decrypt_query rs key payload)) _
        (fails-with (IsRefusal rs key payload) (IsOpened rs key payload) s
          (decrypt_query rs key payload) (decrypt_query-Ends rs key payload))
        (λ q. silent-Handles send (proxy q.0 none s) _ (proxy-Ends q.0 none s) (λ r.
          silent-Handles send (map_err (λ e. (r.0, e)) (encrypt_response rs q.1 nonce r.1.packet)) _
            (fails-with (λ e. e ≡ invalid_data) (λ _. Unit {0}) r.0
              (encrypt_response rs q.1 nonce r.1.packet)
              (encrypt_response-returns rs q.1 nonce r.1.packet))
            (λ p.
              sending-Handles r.0 send _
                (sends_response X 200 (as_str oblivious) p (some (cache_for 0)) false send h))))
  handle_doh_payload-Handles json payload client_ip cors s send h =
      sending-Handles s send _ (send_h3_error-sends X 405 false send h)

  pub refuses :
      (status : ℕ) (long : Bool) (s : S) (send : Channel)
      → 2 ≤ send.room
      → Handles send
          (sending utf8 decode rs key nonce proxy json_query s (send_h3_error status long send))
  refuses status long s send h = sending-Handles s send _ (send_h3_error-sends X status long send h)

  -- The match on a test, with handlers that answer.
  pub either-Handles :
      (b : Bool) (send : Channel) (m n : Outcome ((S × Channel) × DohError X) (S × Channel))
      → Handles send m
      → Handles send n
      → Handles send (elim b [ true ↦ m | false ↦ n ])
  either-Handles true send m n h k = h
  either-Handles false send m n h k = k
