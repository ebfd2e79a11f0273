-- ===== src/Http/Json/Answers.antt =====
-- What `serve_json_query` answers.
use doh_server.Prelude.{
  ℕ, ◌≡◌, refl, ◌⊎◌, inl, inr, Bool, true, false, length, Option, none, some, Outcome, ok, err,
  panic, out_of_fuel, ◌>>=◌, map_err, Safe, Safe-bind, Safe-map_err, ◌==◌,
}
use doh_server.Bytes.{Bytes}
use doh_server.Errors.{DohError, invalid_data}
use doh_server.DnsJson.{JsonError}
use doh_server.DnsJson.Response.{DnsJsonResponse}
use doh_server.DnsJson.Query.{DnsJsonQuery, build_dns_query}
use doh_server.Msg.Answers.{IpAddr}
use doh_server.Proxy.{DnsResponse}
use doh_server.Text.{split}
use doh_server.Http.{cache_for, ok_or, ct_json}
use doh_server.Http.Json.{
  H3Response, JsonComment, missing_name, no_json_query, set_params, json_error, json_response,
  serve_json_query,
}

-- The responses of `serve_json_query`: an answer with the time that it may be kept for, or an error.
pub data IsJson : H3Response → Type 0 where
  json_answer :
      (text : Bytes) (ttl : ℕ)
      → IsJson (record {
        status = 200;
        content_type = ct_json;
        body = text;
        cache_control = some (cache_for ttl);
      })
  json_failure :
      (n : ℕ) (text : Bytes)
      → (n ≡ 400) ⊎ (n ≡ 500)
      → IsJson (record { status = n; content_type = ct_json; body = text; cache_control = none })

module _ {X S : Type 0} (url_decode : Bytes → Option Bytes) (parse : Bytes → Option Bytes)
    (error_json : ℕ → JsonComment → Bytes) (to_json : DnsJsonResponse → Option Bytes)
    (random : ℕ × ℕ) (read : Bytes → Outcome JsonError DnsJsonResponse)
    (proxy : Bytes → Option IpAddr → S → Outcome (S × DohError X) (S × DnsResponse))
    (read-Safe : (p : Bytes) → Safe (λ _. Unit {0}) (read p))
    (proxy-Safe : (q : Bytes) (ip : Option IpAddr) (s : S)
      → Safe (λ _. Unit {0}) (proxy q ip s)) where
  json_response-Safe :
      (dns_response : DnsResponse) (r : Outcome JsonError DnsJsonResponse)
      → Safe (λ _. Unit {0}) r
      → Safe IsJson
          (json_response url_decode parse error_json to_json random read proxy dns_response r)
  unfolding json_response
  json_response-Safe dns_response (ok response) h = by_text (to_json response)
    where
      by_text :
          (t : Option Bytes)
          → Safe {E = DohError X} IsJson (do
            json_string ← ok_or t invalid_data
            ok (record {
              status = 200;
              content_type = ct_json;
              body = json_string;
              cache_control = some (cache_for dns_response.ttl);
            }))
      by_text none = tt
      by_text (some t) = json_answer t dns_response.ttl
  json_response-Safe dns_response (err e) h = json_failure 500 _ (inr refl)
  json_response-Safe dns_response panic h = absurd h
  json_response-Safe dns_response out_of_fuel h = tt

  -- Where neither the way over the upstreams nor the reader of packets panics, the JSON API
  -- does not panic, and what it answers is that of a packet, with the time that it may be kept for,
  -- or an error of status 400 or 500 without one.
  pub serve_json_query-Safe :
      (query_params : Bytes) (client_ip : Option IpAddr) (s : S)
      → Safe
          (λ (r : S × H3Response). IsJson r.1)
          (serve_json_query url_decode parse error_json to_json random read proxy query_params
            client_ip s)
  unfolding serve_json_query
  serve_json_query-Safe query_params client_ip s =
      let q = set_params url_decode (split b'&' query_params) no_json_query in
      by_name q (length q.name == 0)
    where
      by_name :
          (q : DnsJsonQuery) (b : Bool)
          → Safe
              (λ (r : S × H3Response). IsJson r.1)
              (elim b [
                | true ↦ ok (
                  s,
                  json_error url_decode parse error_json to_json random read proxy 400 missing_name,
                )
                | false ↦ do
                  (s', dns_response) ← proxy (build_dns_query parse q random.0 random.1) client_ip s
                  response ←
                      map_err
                        (λ e. (s', e))
                        (json_response url_decode parse error_json to_json random read proxy
                          dns_response
                          (read dns_response.packet))
                  ok (s', response)
              ])
      by_name q true = json_failure 400 _ (inl refl)
      by_name q false =
          Safe-bind (λ _. Unit {0}) (λ (r : S × H3Response). IsJson r.1)
            (proxy (build_dns_query parse q random.0 random.1) client_ip s) _
            (proxy-Safe (build_dns_query parse q random.0 random.1) client_ip s)
            (λ (r : S × DnsResponse) _.
              let m =
                json_response url_decode parse error_json to_json random read proxy r.1
                  (read r.1.packet) in
              Safe-bind IsJson (λ (r : S × H3Response). IsJson r.1) (map_err (λ e. (r.0, e)) m) _
                (Safe-map_err IsJson (λ e. (r.0, e)) m
                  (json_response-Safe r.1 (read r.1.packet) (read-Safe r.1.packet)))
                (λ response k. k))
