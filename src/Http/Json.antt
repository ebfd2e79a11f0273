-- ===== src/Http/Json.antt =====
-- `serve_json_query` of src/libdoh/src/lib.rs: the parameters of the JSON API, and the answer to them.
pub mod Answers
use doh_server.Prelude.{
  ℕ, Bool, true, false, ◌||◌, List, [], ◌∷◌, Option, none, some, length, Outcome, ok, err, panic,
  out_of_fuel, ◌>>=◌, map_err, ◌==◌, if◌then◌else◌,
}
use doh_server.Bytes.{Bytes}
use doh_server.Errors.{DohError, invalid_data}
use doh_server.DnsJson.{JsonError}
use doh_server.DnsJson.Response.{DnsJsonResponse, parse_dns_to_json}
use doh_server.DnsJson.Query.{DnsJsonQuery, build_dns_query}
use doh_server.Ecs.{and_then}
use doh_server.Msg.Answers.{IpAddr, same_bytes}
use doh_server.Proxy.{DnsResponse}
use doh_server.Text.{split, before, nth, parse_u16}
use doh_server.Http.{ct_json, cache_for, or_empty, ok_or}

pub record H3Response : Type 0 where
  pub status : ℕ
  pub content_type : Bytes
  pub body : Bytes
  pub cache_control : Option Bytes

-- The comment of an error, and the status of which it is.
pub data JsonComment : Type 0 where
  missing_name : JsonComment
  failed_to_parse : JsonError → JsonComment

abbrev pub no_json_query : DnsJsonQuery
no_json_query = record {
  name = [];
  qtype = none;
  cd = none;
  ct = none;
  do_ = none;
  edns_client_subnet = none;
}

-- `v == "1" || v == "true"`
abbrev pub is_true : Bytes → Bool
is_true v = same_bytes v (b'1' ∷ []) || same_bytes v (b't' ∷ b'r' ∷ b'u' ∷ b'e' ∷ [])

-- `url_decode` undoes the encoding of URLs, where the result is text.
module _ (url_decode : Bytes → Option Bytes) where
  -- The match on the name of a parameter.
  unfoldable pub set_param : Bytes → Bytes → DnsJsonQuery → DnsJsonQuery
  set_param k v q =
      if same_bytes k (b'n' ∷ b'a' ∷ b'm' ∷ b'e' ∷ [])
      then record q { name = or_empty (url_decode v) }
      else if same_bytes k (b't' ∷ b'y' ∷ b'p' ∷ b'e' ∷ [])
      then record q { qtype = parse_u16 v }
      else if same_bytes k (b'c' ∷ b'd' ∷ [])
      then record q { cd = some (is_true v) }
      else if same_bytes k (b'c' ∷ b't' ∷ [])
      then record q { ct = some v }
      else if same_bytes k (b'd' ∷ b'o' ∷ [])
      then record q { do_ = some (is_true v) }
      else if same_bytes k (
          b'e' ∷ b'd' ∷ b'n' ∷ b's' ∷ b'_' ∷ b'c' ∷ b'l' ∷ b'i' ∷ b'e' ∷ b'n' ∷ b't' ∷ b'_' ∷ b's'
          ∷ b'u' ∷ b'b' ∷ b'n' ∷ b'e' ∷ b't' ∷ [])
      then record q { edns_client_subnet = some v }
      else q

  abbrev pub set_if_some : Bytes → Option Bytes → DnsJsonQuery → DnsJsonQuery
  set_if_some k none q = q
  set_if_some k (some v) q = set_param k v q

  -- The loop over the parameters.
  unfoldable pub set_params : List Bytes → DnsJsonQuery → DnsJsonQuery
  set_params [] q = q
  set_params (part ∷ parts) q =
      set_params parts (set_if_some (before b'=' part) (nth (split b'=' part) 1) q)

-- Besides, `parse` reads an IPv4 address, `error_json` and `to_json` write JSON, `random` has the
-- two random bytes of the query, and `proxy` is the way over the upstreams, with the state that it
-- changes. The last two parameters but this one are those of the reader of packets.
module _ {X S : Type 0} (url_decode : Bytes → Option Bytes) (parse : Bytes → Option Bytes)
    (error_json : ℕ → JsonComment → Bytes) (to_json : DnsJsonResponse → Option Bytes)
    (random : ℕ × ℕ) (read : Bytes → Outcome JsonError DnsJsonResponse)
    (proxy : Bytes → Option IpAddr → S → Outcome (S × DohError X) (S × DnsResponse)) where
  abbrev pub json_error : ℕ → JsonComment → H3Response
  json_error status comment = record {
    status = status;
    content_type = ct_json;
    body = error_json status comment;
    cache_control = none;
  }

  -- The match on the packet as a JSON answer.
  unfoldable pub json_response :
      DnsResponse → Outcome JsonError DnsJsonResponse → Outcome (DohError X) H3Response
  json_response dns_response (ok response) = do
    json_string ← ok_or (to_json response) invalid_data
    ok (record {
      status = 200;
      content_type = ct_json;
      body = json_string;
      cache_control = some (cache_for dns_response.ttl);
    })
  json_response dns_response (err e) = ok (json_error 500 (failed_to_parse e))
  json_response dns_response panic = panic
  json_response dns_response out_of_fuel = out_of_fuel

  unfoldable pub serve_json_query :
      Bytes → Option IpAddr → S → Outcome (S × DohError X) (S × H3Response)
  serve_json_query query_params client_ip s =
      let json_query = set_params url_decode (split b'&' query_params) no_json_query in
      elim (length json_query.name == 0) [
        | true ↦ ok (s, json_error 400 missing_name)
        | false ↦ do
          (s', dns_response) ←
              proxy (build_dns_query parse json_query random.0 random.1) client_ip s
          response ← map_err (λ e. (s', e)) (json_response dns_response (read dns_response.packet))
          ok (s', response)
      ]
