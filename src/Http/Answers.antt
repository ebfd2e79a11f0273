-- ===== src/Http/Answers.antt =====
-- The responses of the service for HTTP/1 and HTTP/2.
use doh_server.Prelude.{
  ℕ, ◌≤◌, ◌<◌, ◌≡◌, refl, ◌⊎◌, inl, inr, Bool, true, false, not, ◌&&◌, Option, none, some, Outcome,
  ok, err, panic, out_of_fuel, map_err, Ends, Ends-bind, Ends-map_err, Ends-mono, arith,
}
use doh_server.Bytes.{Bytes}
use doh_server.Errors.{DohError, invalid_data, status_code}
use doh_server.Msg.Answers.{IpAddr, same_bytes}
use doh_server.Odoh.{
  OdohRs, OdohPublicKey, OdohQueryContext, into_config, decrypt_query, encrypt_response,
}
use doh_server.Odoh.Rotation.{IsRefusal, IsOpened, decrypt_query-Ends, encrypt_response-returns}
use doh_server.Proxy.{DnsResponse}
use doh_server.Text.{lowercase}
use doh_server.Http.{
  DohType, standard, oblivious, json, as_str, Method, get, post, other_method, Request, Response,
  http_error, http_error_with_cache, build_response, ok_or, or_empty, parse_headers,
  parse_content_type, acceptable_content_type, known_types, doh_type_of, query_from_query_string,
  read_body, Body,
}
use doh_server.Http.Json.Answers.{IsJson}
use doh_server.Http.Json.{H3Response}
use doh_server.Http.Serve.{
  Site, octet_stream, json_reply, client_ip_of, serve_doh_query, serve_doh_get, serve_doh_post,
  serve_odoh, serve_odoh_get, serve_odoh_post, serve_odoh_configs, serve_json_get, serve_get,
  serve_post, at_path, at_configs_path, call, answered,
}

-- The responses: one with a packet and its length, one of the JSON API, an error, and an error
-- that may be kept for a year.
pub data IsReply : Response → Type 0 where
  served :
      (packet : Bytes) (ttl : ℕ) (content_type : Bytes) (cors : Bool)
      → IsReply (build_response packet ttl content_type cors)
  json_served : (r : H3Response) → IsJson r → IsReply (json_reply r)
  refused : (n : ℕ) → 400 ≤ n → n < 600 → IsReply (http_error n)
  kept : (n : ℕ) → (n ≡ 400) ⊎ ((n ≡ 406) ⊎ (n ≡ 415)) → IsReply (http_error_with_cache n)

pub status_code_range :
    {X : Type 0} (e : DohError X) → (400 ≤ status_code e) × (status_code e < 600)
unfolding status_code
status_code_range e = ground arith

-- Any error.
abbrev pub AnyFailure : {E : Type 0} → E → Type 0
AnyFailure e = Unit {0}

read_body-Ends :
    (X : Type 0) (body : Body) → Ends {E = DohError X} AnyFailure (λ _. Unit {0}) (read_body body)
unfolding read_body
read_body-Ends X body = ground arith

parse_content_type-Ends :
    (to_str : Bytes → Option Bytes) (req : Request)
    → Ends IsReply (λ _. Unit {0}) (parse_content_type to_str req)
unfolding parse_headers
parse_content_type-Ends to_str req =
    Ends-bind IsReply (λ _. Unit {0}) (λ _. Unit {0}) _ _ (by_header req.content_type)
      (λ s _. or_refused (doh_type_of (lowercase s)) 415 (inr (inr refl)))
  where
    or_refused :
        {A : Type 0} (o : Option A) (n : ℕ)
        → (n ≡ 400) ⊎ ((n ≡ 406) ⊎ (n ≡ 415))
        → Ends IsReply (λ _. Unit {0}) (ok_or o (http_error_with_cache n))
    or_refused none n h = kept n h
    or_refused (some a) n h = tt

    by_header :
        (content_type : Option Bytes)
        → Ends IsReply
            (λ _. Unit {0})
            (elim content_type [
              | none ↦
                  ok_or
                    (acceptable_content_type to_str req.accept known_types)
                    (http_error_with_cache 406)
              | some value ↦ ok_or (to_str value) (http_error_with_cache 400)
            ])
    by_header none =
        or_refused (acceptable_content_type to_str req.accept known_types) 406 (inr (inl refl))
    by_header (some value) = or_refused (to_str value) 400 (inl refl)

module _ {X S : Type 0} (to_str decode : Bytes → Option Bytes) (parse_ip : Bytes → Option IpAddr)
    (rs : OdohRs X) (key : OdohPublicKey rs) (nonce : rs.Nonce)
    (proxy : Bytes → Option IpAddr → S → Outcome (S × DohError X) (S × DnsResponse))
    (json_query : Bytes → Option IpAddr → S → Outcome (S × DohError X) (S × H3Response))
    (proxy-Ends : (q : Bytes) (ip : Option IpAddr) (s : S)
      → Ends AnyFailure (λ _. Unit {0}) (proxy q ip s)) where
  abbrev pub Replies : Outcome ⊥ (S × Response) → Type 0
  Replies = Ends (λ _. ⊥) (λ r. IsReply r.1)

  answered-Replies :
      (m : Outcome (S × DohError X) (S × Response))
      → Ends AnyFailure (λ r. IsReply r.1) m
      → Replies (answered to_str decode parse_ip rs key nonce proxy json_query m)
  unfolding status_code
  answered-Replies (ok r) h = h
  answered-Replies (err (s, e)) h =
      refused (status_code e) (status_code_range e).0 (status_code_range e).1
  answered-Replies panic h = absurd h
  answered-Replies out_of_fuel h = absurd h

  serve_doh_query-Replies :
      (query : Bytes) (client_ip : Option IpAddr) (s : S)
      → Replies
          (serve_doh_query to_str decode parse_ip rs key nonce proxy json_query query client_ip s)
  unfolding serve_doh_query
  serve_doh_query-Replies query client_ip s = answered-Replies _ (
      Ends-bind AnyFailure (λ _. Unit {0}) (λ (r : S × Response). IsReply r.1)
        (proxy query client_ip s) _ (proxy-Ends query client_ip s)
        (λ (r : S × DnsResponse) _. served r.1.packet r.1.ttl (as_str standard) true))

  serve_odoh-Replies :
      (query : Bytes) (s : S)
      → Replies (serve_odoh to_str decode parse_ip rs key nonce proxy json_query query s)
  unfolding serve_odoh
  serve_odoh-Replies query s = answered-Replies _ (
      Ends-bind AnyFailure (λ _. Unit {0}) IsAnswer
        (map_err (λ e. (s, e)) (decrypt_query rs key query)) _
        (Ends-map_err (IsRefusal rs key query) AnyFailure (λ _. Unit {0}) (λ e. (s, e))
          (decrypt_query rs key query)
          (Ends-mono (IsRefusal rs key query) (IsOpened rs key query) (λ _. Unit {0})
            (decrypt_query rs key query) (decrypt_query-Ends rs key query) (λ r k. tt))
          (λ e k. tt))
        (λ (q : Bytes × OdohQueryContext rs) _.
          Ends-bind AnyFailure (λ _. Unit {0}) IsAnswer (proxy q.0 none s) _ (proxy-Ends q.0 none s)
            (λ (r : S × DnsResponse) _.
              let m = encrypt_response rs q.1 nonce r.1.packet in
              Ends-bind AnyFailure (λ _. Unit {0}) IsAnswer (map_err (λ e. (r.0, e)) m) _
                (Ends-map_err (λ e. e ≡ invalid_data) AnyFailure (λ _. Unit {0}) (λ e. (r.0, e)) m
                  (encrypt_response-returns rs q.1 nonce r.1.packet) (λ e k. tt))
                (λ p _. served p 0 (as_str oblivious) false))))
    where
      IsAnswer : S × Response → Type 0
      IsAnswer r = IsReply r.1

  -- The handlers that read a query first.
  with_body-Replies :
      (body : Body) (next : Bytes → Outcome ⊥ (S × Response)) (s : S)
      → ((q : Bytes) → Replies (next q))
      → Replies (elim (read_body {X = X} body) [
        | ok query ↦ next query
        | err e ↦ ok (s, http_error (status_code e))
        | panic ↦ panic
        | out_of_fuel ↦ out_of_fuel
      ])
  with_body-Replies body next s h = by_read (read_body body) (read_body-Ends X body)
    where
      by_read :
          (m : Outcome (DohError X) Bytes)
          → Ends AnyFailure (λ _. Unit {0}) m
          → Replies (elim m [
            | ok query ↦ next query
            | err e ↦ ok (s, http_error (status_code e))
            | panic ↦ panic
            | out_of_fuel ↦ out_of_fuel
          ])
      by_read (ok query) k = h query
      by_read (err e) k = refused (status_code e) (status_code_range e).0 (status_code_range e).1
      by_read panic k = absurd k
      by_read out_of_fuel k = absurd k

  with_query-Replies :
      (query : Option Bytes) (next : Bytes → Outcome ⊥ (S × Response)) (s : S)
      → ((q : Bytes) → Replies (next q))
      → Replies (elim query [ some q ↦ next q | none ↦ ok (s, http_error_with_cache 400) ])
  with_query-Replies none next s h = kept 400 (inl refl)
  with_query-Replies (some q) next s h = h q

  -- The match on the kind of DoH.
  by_type-Replies :
      (m : Outcome Response DohType) (on_standard on_oblivious on_json : Outcome ⊥ (S × Response))
      (s : S)
      → Ends IsReply (λ _. Unit {0}) m
      → Replies on_standard
      → Replies on_oblivious
      → Replies on_json
      → Replies (elim m [
        | ok standard ↦ on_standard
        | ok oblivious ↦ on_oblivious
        | ok json ↦ on_json
        | err response ↦ ok (s, response)
        | panic ↦ panic
        | out_of_fuel ↦ out_of_fuel
      ])
  by_type-Replies (ok standard) d o j s h a b c = a
  by_type-Replies (ok oblivious) d o j s h a b c = b
  by_type-Replies (ok json) d o j s h a b c = c
  by_type-Replies (err r) d o j s h a b c = h
  by_type-Replies panic d o j s h a b c = absurd h
  by_type-Replies out_of_fuel d o j s h a b c = absurd h

  serve_json_get-Replies :
      (site : Site) (req : Request) (remote_addr : Option IpAddr) (s : S)
      → ((ip : Option IpAddr)
          → Ends AnyFailure (λ r. IsJson r.1) (json_query (or_empty req.query) ip s))
      → Replies (
          serve_json_get to_str decode parse_ip rs key nonce proxy json_query site req remote_addr
            s)
  unfolding serve_json_get
  serve_json_get-Replies site req remote_addr s h =
      let ip =
        client_ip_of to_str decode parse_ip rs key nonce proxy json_query site req remote_addr in
      answered-Replies _ (
        Ends-bind AnyFailure (λ r. IsJson r.1) (λ (r : S × Response). IsReply r.1)
          (json_query (or_empty req.query) ip s) _ (h ip)
          (λ (r : S × H3Response) k. json_served r.1 k))

  serve_get-Replies :
      (site : Site) (req : Request) (remote_addr : Option IpAddr) (s : S)
      → ((ip : Option IpAddr)
          → Ends AnyFailure (λ r. IsJson r.1) (json_query (or_empty req.query) ip s))
      → Replies
          (serve_get to_str decode parse_ip rs key nonce proxy json_query site req remote_addr s)
  unfolding serve_get serve_doh_get serve_odoh_get
  serve_get-Replies site req remote_addr s h =
      by_type-Replies (parse_content_type to_str req) _ _ _ s (parse_content_type-Ends to_str req)
        (with_query-Replies (query_from_query_string decode req) _ s
          (λ q. serve_doh_query-Replies q _ s))
        (with_query-Replies (query_from_query_string decode req) _ s (λ q. serve_odoh-Replies q s))
        (serve_json_get-Replies site req remote_addr s h)

  serve_post-Replies :
      (site : Site) (req : Request) (remote_addr : Option IpAddr) (s : S)
      → Replies
          (serve_post to_str decode parse_ip rs key nonce proxy json_query site req remote_addr s)
  unfolding serve_post serve_doh_post serve_odoh_post
  serve_post-Replies site req remote_addr s =
      by_type-Replies (parse_content_type to_str req) _ _ _ s (parse_content_type-Ends to_str req)
        (unless_disabled site.disable_post _
          (with_body-Replies req.body _ s (λ q. serve_doh_query-Replies q _ s)))
        (unless_disabled (site.disable_post && not site.allow_odoh_post) _
          (with_body-Replies req.body _ s (λ q. serve_odoh-Replies q s)))
        not_allowed
    where
      not_allowed : Replies (ok (s, http_error 405))
      not_allowed = refused 405 (omega arith) (omega arith)

      unless_disabled :
          (b : Bool) (m : Outcome ⊥ (S × Response))
          → Replies m
          → Replies (elim b [ true ↦ ok (s, http_error 405) | false ↦ m ])
      unless_disabled true m h = not_allowed
      unless_disabled false m h = h

  -- Where the way over the upstreams ends without a panic, and so does the JSON API for the parameters
  -- of the request, every request gets a response: one with a packet and its length, one of the
  -- JSON API, an error with a status from 400 to 599, or an error 400, 406 or 415 without a body
  -- that may be kept for a year.
  pub call-Ends :
      (site : Site) (req : Request) (remote_addr : Option IpAddr) (s : S)
      → ((ip : Option IpAddr)
          → Ends AnyFailure (λ r. IsJson r.1) (json_query (or_empty req.query) ip s))
      → Replies (call to_str decode parse_ip rs key nonce proxy json_query site req remote_addr s)
  unfolding call serve_odoh_configs at_path at_configs_path
  call-Ends site req remote_addr s h =
      by_path (same_bytes req.path site.path) (same_bytes req.path site.odoh_configs_path)
    where
      by_method :
          (m : Method)
          → Replies (
              at_path to_str decode parse_ip rs key nonce proxy json_query m site req remote_addr s)
      by_method get = serve_get-Replies site req remote_addr s h
      by_method post = serve_post-Replies site req remote_addr s
      by_method (other_method m) = refused 405 (omega arith) (omega arith)

      by_configs :
          (m : Method)
          → Replies (at_configs_path to_str decode parse_ip rs key nonce proxy json_query m s)
      by_configs get = served (into_config rs key) 86400 octet_stream true
      by_configs post = refused 405 (omega arith) (omega arith)
      by_configs (other_method m) = refused 405 (omega arith) (omega arith)

      by_path :
          (at_query at_configs : Bool)
          → Replies (elim at_query [
            | true ↦
                at_path to_str decode parse_ip rs key nonce proxy json_query req.method site req
                  remote_addr s
            | false ↦ elim at_configs [
              | true ↦
                  at_configs_path to_str decode parse_ip rs key nonce proxy json_query req.method s
              | false ↦ ok (s, http_error 404)
            ]
          ])
      by_path true c = by_method req.method
      by_path false true = by_configs req.method
      by_path false false = refused 404 (omega arith) (omega arith)
