-- ===== src/Http/Frames/Same.antt =====
-- A query over HTTP/3 next to the same query over HTTP/1 and HTTP/2.
use doh_server.Prelude.{
  ◌≤◌, ◌≡◌, refl, true, ◌++◌, Option, some, Outcome, ok, err, panic, out_of_fuel, Ends,
}
use doh_server.Bytes.{Bytes}
use doh_server.Errors.{DohError, status_code}
use doh_server.Msg.Answers.{IpAddr}
use doh_server.Odoh.{OdohRs, OdohPublicKey}
use doh_server.Proxy.{DnsResponse}
use doh_server.Http.{standard, as_str, cache_for, Response, http_error, build_response}
use doh_server.Http.Json.{H3Response}
use doh_server.Http.Serve.{serve_doh_query}
use doh_server.Http.Answers.{AnyFailure}
use doh_server.Http.Http3.{Channel, handle_doh_payload, sending}
use doh_server.Http.Frames.{frames_of, send_h3_response-sends}

module _ {X S : Type 0} (to_str utf8 decode : Bytes → Option Bytes)
    (parse_ip : Bytes → Option IpAddr) (rs : OdohRs X) (key : OdohPublicKey rs) (nonce : rs.Nonce)
    (proxy : Bytes → Option IpAddr → S → Outcome (S × DohError X) (S × DnsResponse))
    (json_query : Bytes → Option IpAddr → S → Outcome (S × DohError X) (S × H3Response)) where
  -- What HTTP/3 leaves behind next to a response: its frames, or nothing where it is an error.
  abbrev pub IsSame :
      Channel → S × Response → Outcome ((S × Channel) × DohError X) (S × Channel) → Type 0
  IsSame send (s, r) (ok (s', send')) =
      (s ≡ s')
      × (content_type : Bytes) × (r.content_type ≡ some content_type)
      × (send'.sent ≡ send.sent ++ frames_of r.status content_type r.body r.cache_control r.cors)
  IsSame send (s, r) (err ((s', send'), e)) =
      (s ≡ s') × (send' ≡ send) × (r ≡ http_error (status_code e))
  IsSame send r panic = ⊥
  IsSame send r out_of_fuel = ⊥

  -- A query that the way over the upstreams ends for without a panic gets a response over HTTP/1 and
  -- HTTP/2. Where the client takes two frames, HTTP/3 changes the state alike and sends that response,
  -- its status, content type, time and body, unless it is an error: then HTTP/3 sends nothing.
  pub handle_doh_payload-IsSame :
      (query : Bytes) (ip : Option IpAddr) (s : S) (send : Channel)
      → Ends AnyFailure (λ _. Unit {0}) (proxy query ip s)
      → 2 ≤ send.room
      → (r : S × Response) × (serve_doh_query to_str decode parse_ip rs key nonce proxy json_query
            query ip s
          ≡ ok r)
        × IsSame send r (
            handle_doh_payload utf8 decode rs key nonce proxy json_query standard query ip true s
              send)
  unfolding serve_doh_query handle_doh_payload build_response
  handle_doh_payload-IsSame query ip s send k h = by_answer (proxy query ip s) refl k
    where
      sent_as :
          (s' : S) (p : DnsResponse) (m : Outcome (Channel × DohError X) Channel)
          → Ends
              (λ _. ⊥)
              (λ (c : Channel).
                c.sent
                ≡ send.sent
                  ++ frames_of 200 (as_str standard) p.packet (some (cache_for p.ttl)) true)
              m
          → IsSame send
              (s', build_response p.packet p.ttl (as_str standard) true)
              (sending utf8 decode rs key nonce proxy json_query s' m)
      sent_as s' p (ok c) l = (refl, as_str standard, refl, l)
      sent_as s' p (err e) l = absurd l
      sent_as s' p panic l = absurd l
      sent_as s' p out_of_fuel l = absurd l

      by_answer :
          (m : Outcome (S × DohError X) (S × DnsResponse))
          → proxy query ip s ≡ m
          → Ends AnyFailure (λ _. Unit {0}) m
          → (r : S × Response) × (serve_doh_query to_str decode parse_ip rs key nonce proxy
                json_query query ip s
              ≡ ok r)
            × IsSame send r (
                handle_doh_payload utf8 decode rs key nonce proxy json_query standard query ip true
                  s send)
      by_answer (ok (s', p)) e l = (
        (s', build_response p.packet p.ttl (as_str standard) true),
        rw (e, serve_doh_query) refl,
        rw (e, handle_doh_payload)
            (sent_as s' p _ (
              send_h3_response-sends X 200 (as_str standard) p.packet (some (cache_for p.ttl)) true
                send h)),
      )
      by_answer (err (s', e')) e l = (
        (s', http_error (status_code e')),
        rw (e, serve_doh_query) refl,
        rw (e, handle_doh_payload) (refl, refl, refl),
      )
      by_answer panic e l = absurd l
      by_answer out_of_fuel e l = absurd l
