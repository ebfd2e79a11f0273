-- ===== src/Tests/Http.antt =====
-- The service for HTTP at concrete requests: the requests to a server whose upstreams give back what
-- they are sent.
use doh_server.Prelude.{
  ℕ, ◌+◌, ◌≡◌, inl, refl, true, false, List, [], ◌∷◌, Option, none, some, take, drop, Outcome, ok,
  err, Ends, map_err, arith, Bool, if◌then◌else◌, if-eq, ltb, ◌&&◌, inr,
}
use doh_server.Bytes.{Bytes}
use doh_server.Errors.{DohError, upstream_issue}
use doh_server.Ecs.{and_then}
use doh_server.Msg.Answers.{IpAddr, v4, same_bytes}
use doh_server.Odoh.{OdohRs, OdohPublicKey, decrypt_query}
use doh_server.Odoh.Rotation.{IsRefusal, IsOpened, decrypt_query-Ends}
use doh_server.Proxy.{DnsResponse}
use doh_server.Text.{before, lowercase, trim, trim_start, trim_start_at, trim_end, white_len}
use doh_server.Bootstrap.{to_ascii_lowercase}
use doh_server.Http.{
  standard, oblivious, post, Request, Response, parse_headers, parse_content_type,
  parse_h3_content_type, doh_type_of, http_error_with_cache, cache_for, ct_json,
}
use doh_server.Http.ContentTypes.{parse_content_type_lem}
use doh_server.Http.Json.{H3Response}
use doh_server.Http.Hidden.{forwarded, call-Hides}
use doh_server.Http.Serve.{Site, serve_doh_query, call}
use doh_server.Http.Http3.{
  Header, InboundFrame, body_part, other_frame, Channel, receive_body, handle_doh_payload,
}
use doh_server.Http.Bodies.{body_of, up_to_limit, receive_body_lem}
use doh_server.Http.Frames.Same.{IsSame, handle_doh_payload-IsSame}

abbrev rs : OdohRs (Unit {0})
rs = record {
  KeyPair = ℕ;
  Message = Bytes;
  Plaintext = Bytes;
  Secret = ℕ;
  Nonce = ℕ;
  serialize_configs = λ k. ok (k ∷ []);
  identifier = λ k. some (k ∷ []);
  deserialize = λ b. some b;
  key_id = λ m. take 1 m;
  decrypt = λ m k. some (drop 1 m, k);
  into_msg = λ p. p;
  new_plaintext = λ b n. b;
  encrypt = λ q p s n. some (s ∷ p);
  serialize = λ m. some m;
}

abbrev key : OdohPublicKey rs
key = record { key_pair = 7; serialized_configs = 7 ∷ [] }

decrypt_query-Ends_example :
    Ends
      (IsRefusal rs key (7 ∷ 1 ∷ 2 ∷ []))
      (IsOpened rs key (7 ∷ 1 ∷ 2 ∷ []))
      (decrypt_query rs key (7 ∷ 1 ∷ 2 ∷ []))
decrypt_query-Ends_example = decrypt_query-Ends rs key (7 ∷ 1 ∷ 2 ∷ [])

-- The state counts the queries.
abbrev proxy : Bytes → Option IpAddr → ℕ → Outcome (ℕ × DohError (Unit {0})) (ℕ × DnsResponse)
proxy q ip s =
    ok (s + 1, record { packet = q; ttl = 60; query_stats = record { main = []; fallback = [] } })

abbrev json_query : Bytes → Option IpAddr → ℕ → Outcome (ℕ × DohError (Unit {0})) (ℕ × H3Response)
json_query q ip s = ok (
  s,
  record { status = 200; content_type = ct_json; body = q; cache_control = some (cache_for 60) },
)

abbrev site : Site
site = record {
  path = (b'/' ∷ b'd' ∷ b'n' ∷ b's' ∷ b'-' ∷ b'q' ∷ b'u' ∷ b'e' ∷ b'r' ∷ b'y' ∷ []);
  odoh_configs_path = (b'/' ∷ b'o' ∷ b'd' ∷ b'o' ∷ b'h' ∷ []);
  disable_post = false;
  allow_odoh_post = false;
  enable_ecs = true;
}

abbrev oblivious_request : Request
oblivious_request = record {
  method = post;
  path = (b'/' ∷ b'd' ∷ b'n' ∷ b's' ∷ b'-' ∷ b'q' ∷ b'u' ∷ b'e' ∷ b'r' ∷ b'y' ∷ []);
  query = none;
  content_type = some (
      b'a' ∷ b'p' ∷ b'p' ∷ b'l' ∷ b'i' ∷ b'c' ∷ b'a' ∷ b't' ∷ b'i' ∷ b'o' ∷ b'n' ∷ b'/' ∷ b'o'
      ∷ b'b' ∷ b'l' ∷ b'i' ∷ b'v' ∷ b'i' ∷ b'o' ∷ b'u' ∷ b's' ∷ b'-' ∷ b'd' ∷ b'n' ∷ b's' ∷ b'-'
      ∷ b'm' ∷ b'e' ∷ b's' ∷ b's' ∷ b'a' ∷ b'g' ∷ b'e' ∷ []);
  accept = none;
  x_forwarded_for = some (b'1' ∷ b'9' ∷ b'2' ∷ b'.' ∷ b'0' ∷ b'.' ∷ b'2' ∷ b'.' ∷ b'1' ∷ []);
  x_real_ip = none;
  body = record { upper = some 3; collected = some (7 ∷ 1 ∷ 2 ∷ []) };
}

abbrev to_str : Bytes → Option Bytes
to_str b = some b

abbrev parse_ip : Bytes → Option IpAddr
parse_ip b = some (v4 b)

is_oblivious : parse_content_type to_str oblivious_request ≡ ok oblivious
unfolding parse_headers doh_type_of same_bytes lowercase to_ascii_lowercase
is_oblivious = refl

call-Hides_example :
    call to_str to_str parse_ip rs key 0 proxy json_query site oblivious_request
      (some (v4 (10 ∷ 0 ∷ 0 ∷ 1 ∷ [])))
      0
    ≡ call to_str to_str parse_ip rs key 0 proxy json_query site
        (forwarded oblivious_request none none)
        none
        0
call-Hides_example =
    call-Hides to_str to_str parse_ip rs key 0 proxy json_query site oblivious_request
      (some (v4 (10 ∷ 0 ∷ 0 ∷ 1 ∷ []))) none none none 0 (inl is_oblivious)

-- A server that takes no queries by POST.
abbrev get_only : Site
get_only = record site { disable_post = true }

abbrev channel : Channel
channel = record { sent = []; room = 2 }

-- Upstreams that fail: the client of HTTP/3 is sent nothing.
abbrev no_proxy : Bytes → Option IpAddr → ℕ → Outcome (ℕ × DohError (Unit {0})) (ℕ × DnsResponse)
no_proxy q ip s = err (s, upstream_issue)

handle_doh_payload-IsSame_example :
    (r : ℕ × Response) × (serve_doh_query to_str to_str parse_ip rs key 0 no_proxy json_query
        (1 ∷ [])
        none
        0
      ≡ ok r)
    × IsSame to_str to_str to_str parse_ip rs key 0 no_proxy json_query channel r (
        handle_doh_payload to_str to_str rs key 0 no_proxy json_query standard
          (1 ∷ [])
          none
          true
          0
          channel)
handle_doh_payload-IsSame_example =
    handle_doh_payload-IsSame to_str to_str to_str parse_ip rs key 0 no_proxy json_query (1 ∷ [])
      none 0 channel tt (omega arith)

sends_nothing :
    handle_doh_payload to_str to_str rs key 0 no_proxy json_query standard
      (1 ∷ [])
      none
      true
      0
      channel
    ≡ err ((0, channel), upstream_issue)
unfolding handle_doh_payload
sends_nothing = refl

abbrev posted_headers : List Header
posted_headers =
    ((b':' ∷ b'm' ∷ b'e' ∷ b't' ∷ b'h' ∷ b'o' ∷ b'd' ∷ []), (b'P' ∷ b'O' ∷ b'S' ∷ b'T' ∷ []))
    ∷ (
      (b':' ∷ b'p' ∷ b'a' ∷ b't' ∷ b'h' ∷ []),
      (b'/' ∷ b'd' ∷ b'n' ∷ b's' ∷ b'-' ∷ b'q' ∷ b'u' ∷ b'e' ∷ b'r' ∷ b'y' ∷ []),
    )
    ∷ (
      (b'c' ∷ b'o' ∷ b'n' ∷ b't' ∷ b'e' ∷ b'n' ∷ b't' ∷ b'-' ∷ b't' ∷ b'y' ∷ b'p' ∷ b'e' ∷ []),
      (b'a' ∷ b'p' ∷ b'p' ∷ b'l' ∷ b'i' ∷ b'c' ∷ b'a' ∷ b't' ∷ b'i' ∷ b'o' ∷ b'n' ∷ b'/' ∷ b'd'
          ∷ b'n' ∷ b's' ∷ b'-' ∷ b'm' ∷ b'e' ∷ b's' ∷ b's' ∷ b'a' ∷ b'g' ∷ b'e' ∷ []),
    )
    ∷ []

abbrev frames : List InboundFrame
frames = body_part (1 ∷ 2 ∷ []) false ∷ other_frame ∷ body_part (3 ∷ []) true ∷ []

receive_body_lem_example : receive_body frames [] 0 ≡ up_to_limit (body_of frames)
receive_body_lem_example = receive_body_lem frames

abbrev get_request : Request
get_request = record oblivious_request {
  content_type = none;
  accept = some (
      b't' ∷ b'e' ∷ b'x' ∷ b't' ∷ b'/' ∷ b'h' ∷ b't' ∷ b'm' ∷ b'l' ∷ b',' ∷ b' ' ∷ b'a' ∷ b'p'
      ∷ b'p' ∷ b'l' ∷ b'i' ∷ b'c' ∷ b'a' ∷ b't' ∷ b'i' ∷ b'o' ∷ b'n' ∷ b'/' ∷ b'd' ∷ b'n' ∷ b's'
      ∷ b'-' ∷ b'j' ∷ b's' ∷ b'o' ∷ b'n' ∷ b';' ∷ b'q' ∷ b'=' ∷ b'1' ∷ []);
}

abbrev is_ascii : Bytes → Bool
is_ascii [] = true
is_ascii (b ∷ s) = let rest = is_ascii s in ltb b 128 && rest

-- A header as text in ASCII, where `to_str` of this file takes any.
abbrev ascii_text : Bytes → Option Bytes
ascii_text b = if is_ascii b then some b else none

to_str-ascii : (value s : Bytes) → ascii_text value ≡ some s → to_str value ≡ some s
to_str-ascii value s e = elim (if-eq (is_ascii value) (some value) none e) [
  | inl (_, f) ↦ f
  | inr (_, f) ↦ cc
]

parse_content_type_lem_example :
    map_err (λ (r : Response). r.status) (parse_content_type ascii_text get_request)
    ≡ parse_h3_content_type
        (and_then get_request.content_type to_str)
        (and_then get_request.accept to_str)
parse_content_type_lem_example =
    parse_content_type_lem ascii_text to_str to_str-ascii get_request tt (_, refl)

-- The two differ on a content type with a parameter.
refuses_parameters :
    parse_headers to_str
      (some (
        b'a' ∷ b'p' ∷ b'p' ∷ b'l' ∷ b'i' ∷ b'c' ∷ b'a' ∷ b't' ∷ b'i' ∷ b'o' ∷ b'n' ∷ b'/' ∷ b'd'
        ∷ b'n' ∷ b's' ∷ b'-' ∷ b'm' ∷ b'e' ∷ b's' ∷ b's' ∷ b'a' ∷ b'g' ∷ b'e' ∷ b';' ∷ b' ' ∷ b'a'
        ∷ b'=' ∷ b'b' ∷ []))
      none
    ≡ err (http_error_with_cache 415)
unfolding parse_headers doh_type_of same_bytes lowercase to_ascii_lowercase
refuses_parameters = refl

takes_parameters :
    parse_h3_content_type
      (some (
        b'a' ∷ b'p' ∷ b'p' ∷ b'l' ∷ b'i' ∷ b'c' ∷ b'a' ∷ b't' ∷ b'i' ∷ b'o' ∷ b'n' ∷ b'/' ∷ b'd'
        ∷ b'n' ∷ b's' ∷ b'-' ∷ b'm' ∷ b'e' ∷ b's' ∷ b's' ∷ b'a' ∷ b'g' ∷ b'e' ∷ b';' ∷ b' ' ∷ b'a'
        ∷ b'=' ∷ b'b' ∷ []))
      none
    ≡ ok standard
unfolding parse_h3_content_type doh_type_of same_bytes lowercase to_ascii_lowercase before trim
    trim_start trim_start_at trim_end white_len
takes_parameters = refl
