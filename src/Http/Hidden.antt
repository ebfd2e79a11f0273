-- ===== src/Http/Hidden.antt =====
-- Where the address of the client stays with the server.
use doh_server.Prelude.{
  ◌≡◌, refl, ◌⊎◌, inl, inr, Bool, true, false, Option, none, some, Outcome, ok, err, panic,
  out_of_fuel,
}
use doh_server.Bytes.{Bytes}
use doh_server.Errors.{DohError, status_code}
use doh_server.Msg.Answers.{IpAddr, same_bytes}
use doh_server.Odoh.{OdohRs, OdohPublicKey}
use doh_server.Proxy.{DnsResponse}
use doh_server.Http.{
  DohType, standard, oblivious, json, http_error, http_error_with_cache, read_body, Method, get,
  post, other_method, Request, Response, parse_content_type, query_from_query_string,
}
use doh_server.Http.Json.{H3Response}
use doh_server.Http.Serve.{
  Site, client_ip_of, serve_doh_query, serve_doh_get, serve_doh_post, serve_odoh_get,
  serve_odoh_post, serve_json_get, serve_get, serve_post, at_path, call,
}

-- The request with other headers about its client.
abbrev pub forwarded : Request → Option Bytes → Option Bytes → Request
forwarded req x_forwarded_for x_real_ip = record req {
  x_forwarded_for = x_forwarded_for;
  x_real_ip = x_real_ip;
}

-- A request of Oblivious DoH, or a server that does not send on the subnets of its clients.
abbrev pub Hides : (Bytes → Option Bytes) → Site → Request → Type 0
Hides to_str site req = (parse_content_type to_str req ≡ ok oblivious) ⊎ (site.enable_ecs ≡ false)

module _ {X S : Type 0} (to_str decode : Bytes → Option Bytes) (parse_ip : Bytes → Option IpAddr)
    (rs : OdohRs X) (key : OdohPublicKey rs) (nonce : rs.Nonce)
    (proxy : Bytes → Option IpAddr → S → Outcome (S × DohError X) (S × DnsResponse))
    (json_query : Bytes → Option IpAddr → S → Outcome (S × DohError X) (S × H3Response)) where
  client_ip_of-off :
      (site : Site) (req : Request) (a : Option IpAddr)
      → site.enable_ecs ≡ false
      → client_ip_of to_str decode parse_ip rs key nonce proxy json_query site req a ≡ none
  unfolding client_ip_of
  client_ip_of-off site req a h = rw h refl

  serve_doh_get-off :
      (site : Site) (req : Request) (a b : Option IpAddr) (f r : Option Bytes) (s : S)
      → site.enable_ecs ≡ false
      → serve_doh_get to_str decode parse_ip rs key nonce proxy json_query site req a s
        ≡ serve_doh_get to_str decode parse_ip rs key nonce proxy json_query site
            (forwarded req f r)
            b
            s
  unfolding serve_doh_get query_from_query_string
  serve_doh_get-off site req a b f r s h = by_query (query_from_query_string decode req)
    where
      by_query :
          (o : Option Bytes)
          → elim o as (λ _. Outcome ⊥ (S × Response)) [
            | some query ↦
                serve_doh_query to_str decode parse_ip rs key nonce proxy json_query query
                  (client_ip_of to_str decode parse_ip rs key nonce proxy json_query site req a)
                  s
            | none ↦ ok (s, http_error_with_cache 400)
          ]
            ≡ elim o [
              | some query ↦
                  serve_doh_query to_str decode parse_ip rs key nonce proxy json_query query
                    (client_ip_of to_str decode parse_ip rs key nonce proxy json_query site
                      (forwarded req f r)
                      b)
                    s
              | none ↦ ok (s, http_error_with_cache 400)
            ]
      by_query none = refl
      by_query (some q) =
          rw (client_ip_of-off site req a h, client_ip_of-off site (forwarded req f r) b h) refl

  serve_doh_post-off :
      (site : Site) (req : Request) (a b : Option IpAddr) (f r : Option Bytes) (s : S)
      → site.enable_ecs ≡ false
      → serve_doh_post to_str decode parse_ip rs key nonce proxy json_query site req a s
        ≡ serve_doh_post to_str decode parse_ip rs key nonce proxy json_query site
            (forwarded req f r)
            b
            s
  unfolding serve_doh_post
  serve_doh_post-off site req a b f r s h = by_body site.disable_post (read_body req.body)
    where
      by_body :
          (disabled : Bool) (m : Outcome (DohError X) Bytes)
          → elim disabled [
            | true ↦ ok (s, http_error 405)
            | false ↦ elim m [
              | ok query ↦
                  serve_doh_query to_str decode parse_ip rs key nonce proxy json_query query
                    (client_ip_of to_str decode parse_ip rs key nonce proxy json_query site req a)
                    s
              | err e ↦ ok (s, http_error (status_code e))
              | panic ↦ panic
              | out_of_fuel ↦ out_of_fuel
            ]
          ]
            ≡ elim disabled [
              | true ↦ ok (s, http_error 405)
              | false ↦ elim m [
                | ok query ↦
                    serve_doh_query to_str decode parse_ip rs key nonce proxy json_query query
                      (client_ip_of to_str decode parse_ip rs key nonce proxy json_query site
                        (forwarded req f r)
                        b)
                      s
                | err e ↦ ok (s, http_error (status_code e))
                | panic ↦ panic
                | out_of_fuel ↦ out_of_fuel
              ]
            ]
      by_body true m = refl
      by_body false (ok q) =
          rw (client_ip_of-off site req a h, client_ip_of-off site (forwarded req f r) b h) refl
      by_body false (err e) = refl
      by_body false panic = refl
      by_body false out_of_fuel = refl

  serve_json_get-off :
      (site : Site) (req : Request) (a b : Option IpAddr) (f r : Option Bytes) (s : S)
      → site.enable_ecs ≡ false
      → serve_json_get to_str decode parse_ip rs key nonce proxy json_query site req a s
        ≡ serve_json_get to_str decode parse_ip rs key nonce proxy json_query site
            (forwarded req f r)
            b
            s
  unfolding serve_json_get
  serve_json_get-off site req a b f r s h =
      rw (client_ip_of-off site req a h, client_ip_of-off site (forwarded req f r) b h) refl

  -- The match on the kind of DoH, with handlers that agree.
  by_type-eq :
      (m : Outcome Response DohType) (d d' o j j' : Outcome ⊥ (S × Response)) (s : S)
      → ((m ≡ ok oblivious) ⊎ ((d ≡ d') × (j ≡ j')))
      → elim m [
        | ok standard ↦ d
        | ok oblivious ↦ o
        | ok json ↦ j
        | err response ↦ ok (s, response)
        | panic ↦ panic
        | out_of_fuel ↦ out_of_fuel
      ]
        ≡ elim m [
          | ok standard ↦ d'
          | ok oblivious ↦ o
          | ok json ↦ j'
          | err response ↦ ok (s, response)
          | panic ↦ panic
          | out_of_fuel ↦ out_of_fuel
        ]
  by_type-eq m d d' o j j' s (inl e) = rw e refl
  by_type-eq (ok standard) d d' o j j' s (inr h) = h.0
  by_type-eq (ok oblivious) d d' o j j' s (inr h) = refl
  by_type-eq (ok json) d d' o j j' s (inr h) = h.1
  by_type-eq (err e) d d' o j j' s (inr h) = refl
  by_type-eq panic d d' o j j' s (inr h) = refl
  by_type-eq out_of_fuel d d' o j j' s (inr h) = refl

  at_path-Hides :
      (m : Method) (site : Site) (req : Request) (a b : Option IpAddr) (f r : Option Bytes) (s : S)
      → Hides to_str site req
      → at_path to_str decode parse_ip rs key nonce proxy json_query m site req a s
        ≡ at_path to_str decode parse_ip rs key nonce proxy json_query m site
            (forwarded req f r)
            b
            s
  unfolding at_path serve_get serve_post serve_odoh_get serve_odoh_post query_from_query_string
  at_path-Hides get site req a b f r s (inl e) =
      by_type-eq (parse_content_type to_str req) _ _ _ _ _ s (inl e)
  at_path-Hides get site req a b f r s (inr off) =
      by_type-eq (parse_content_type to_str req) _ _ _ _ _ s
        (inr (serve_doh_get-off site req a b f r s off, serve_json_get-off site req a b f r s off))
  at_path-Hides post site req a b f r s (inl e) =
      by_type-eq (parse_content_type to_str req) _ _ _ _ _ s (inl e)
  at_path-Hides post site req a b f r s (inr off) =
      by_type-eq (parse_content_type to_str req) _ _ _ _ _ s
        (inr (serve_doh_post-off site req a b f r s off, refl))
  at_path-Hides (other_method m) site req a b f r s h = refl

  -- The response to a request of Oblivious DoH depends neither on the address of the client nor on
  -- the headers about it, and so it is for each request where the server does not send on the
  -- subnets of its clients.
  pub call-Hides :
      (site : Site) (req : Request) (a b : Option IpAddr) (f r : Option Bytes) (s : S)
      → Hides to_str site req
      → call to_str decode parse_ip rs key nonce proxy json_query site req a s
        ≡ call to_str decode parse_ip rs key nonce proxy json_query site (forwarded req f r) b s
  unfolding call
  call-Hides site req a b f r s h = by_path (same_bytes req.path site.path) _
    where
      by_path :
          (at_query : Bool) (rest : Outcome ⊥ (S × Response))
          → elim at_query [
            | true ↦
                at_path to_str decode parse_ip rs key nonce proxy json_query req.method site req a s
            | false ↦ rest
          ]
            ≡ elim at_query [
              | true ↦
                  at_path to_str decode parse_ip rs key nonce proxy json_query req.method site
                    (forwarded req f r)
                    b
                    s
              | false ↦ rest
            ]
      by_path true rest = at_path-Hides req.method site req a b f r s h
      by_path false rest = refl
