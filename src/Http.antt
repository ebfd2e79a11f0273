-- ===== src/Http.antt =====
-- src/libdoh/src/lib.rs, the parts of HTTP that every version shares: the kinds of DoH, the requests
-- and responses, the content types, the query string and the body.
pub mod Params
pub mod ContentTypes
pub mod Json
pub mod Serve
pub mod Answers
pub mod Hidden
pub mod Refusals
pub mod Bodies
pub mod Frames
pub mod Http3
use doh_server.Prelude.{
  ℕ, ◌*◌, ◌/◌, Bool, true, false, List, [], ◌∷◌, ◌++◌, Option, none, some, length, Outcome, ok, err,
  ◌>>=◌, ◌>>◌, ensure, ltb, leb, if◌then◌else◌,
}
use doh_server.Bytes.{Bytes}
use doh_server.Errors.{DohError, too_large}
use doh_server.DnsJson.Response.Texts.{decimal}
use doh_server.Ecs.{and_then}
use doh_server.Msg.Answers.{same_bytes}
use doh_server.Text.{split, before, nth, lowercase, trim}

abbrev pub dns_query_param : Bytes
dns_query_param = (b'd' ∷ b'n' ∷ b's' ∷ [])

abbrev pub max_dns_question_len : ℕ
max_dns_question_len = 512

abbrev pub stale_if_error_secs : ℕ
stale_if_error_secs = 86400

abbrev pub stale_while_revalidate_secs : ℕ
stale_while_revalidate_secs = 60

pub data DohType : Type 0 where
  standard oblivious json : DohType

abbrev pub ct_doh : Bytes
ct_doh =
    (b'a' ∷ b'p' ∷ b'p' ∷ b'l' ∷ b'i' ∷ b'c' ∷ b'a' ∷ b't' ∷ b'i' ∷ b'o' ∷ b'n' ∷ b'/' ∷ b'd' ∷ b'n'
      ∷ b's' ∷ b'-' ∷ b'm' ∷ b'e' ∷ b's' ∷ b's' ∷ b'a' ∷ b'g' ∷ b'e' ∷ [])

abbrev pub ct_odoh : Bytes
ct_odoh =
    (b'a' ∷ b'p' ∷ b'p' ∷ b'l' ∷ b'i' ∷ b'c' ∷ b'a' ∷ b't' ∷ b'i' ∷ b'o' ∷ b'n' ∷ b'/' ∷ b'o' ∷ b'b'
      ∷ b'l' ∷ b'i' ∷ b'v' ∷ b'i' ∷ b'o' ∷ b'u' ∷ b's' ∷ b'-' ∷ b'd' ∷ b'n' ∷ b's' ∷ b'-' ∷ b'm'
      ∷ b'e' ∷ b's' ∷ b's' ∷ b'a' ∷ b'g' ∷ b'e' ∷ [])

abbrev pub ct_json : Bytes
ct_json =
    (b'a' ∷ b'p' ∷ b'p' ∷ b'l' ∷ b'i' ∷ b'c' ∷ b'a' ∷ b't' ∷ b'i' ∷ b'o' ∷ b'n' ∷ b'/' ∷ b'd' ∷ b'n'
      ∷ b's' ∷ b'-' ∷ b'j' ∷ b's' ∷ b'o' ∷ b'n' ∷ [])

abbrev pub as_str : DohType → Bytes
as_str standard = ct_doh
as_str oblivious = ct_odoh
as_str json = ct_json

pub data Method : Type 0 where
  get post : Method
  other_method : Bytes → Method

-- The upper bound of the size that a body announces, and the body unless it could not be received.
pub record Body : Type 0 where
  pub upper : Option ℕ
  pub collected : Option Bytes

-- A request as HTTP/1 and HTTP/2 give it. Of a header that stands there more than once, the field
-- has the first value.
pub record Request : Type 0 where
  pub method : Method
  pub path : Bytes
  pub query : Option Bytes
  pub content_type : Option Bytes
  pub accept : Option Bytes
  pub x_forwarded_for : Option Bytes
  pub x_real_ip : Option Bytes
  pub body : Body

-- The status, the headers that the code sets, and the body. The builder of the HTTP library
-- refuses none of these headers.
pub record Response : Type 0 where
  pub status : ℕ
  pub content_length : Option ℕ
  pub content_type : Option Bytes
  pub cache_control : Option Bytes
  pub cors : Bool
  pub body : Bytes

-- `max-age={ttl}, stale-if-error={}, stale-while-revalidate={}`
abbrev pub cache_for : ℕ → Bytes
cache_for ttl =
    (b'm' ∷ b'a' ∷ b'x' ∷ b'-' ∷ b'a' ∷ b'g' ∷ b'e' ∷ b'=' ∷ [])
    ++ decimal ttl
    ++ (b',' ∷ b' ' ∷ b's' ∷ b't' ∷ b'a' ∷ b'l' ∷ b'e' ∷ b'-' ∷ b'i' ∷ b'f' ∷ b'-' ∷ b'e' ∷ b'r'
        ∷ b'r' ∷ b'o' ∷ b'r' ∷ b'=' ∷ [])
    ++ decimal stale_if_error_secs
    ++ (b',' ∷ b' ' ∷ b's' ∷ b't' ∷ b'a' ∷ b'l' ∷ b'e' ∷ b'-' ∷ b'w' ∷ b'h' ∷ b'i' ∷ b'l' ∷ b'e'
        ∷ b'-' ∷ b'r' ∷ b'e' ∷ b'v' ∷ b'a' ∷ b'l' ∷ b'i' ∷ b'd' ∷ b'a' ∷ b't' ∷ b'e' ∷ b'=' ∷ [])
    ++ decimal stale_while_revalidate_secs

abbrev pub long_cache : Bytes
long_cache =
    (b'm' ∷ b'a' ∷ b'x' ∷ b'-' ∷ b'a' ∷ b'g' ∷ b'e' ∷ b'=' ∷ b'3' ∷ b'1' ∷ b'5' ∷ b'3' ∷ b'6' ∷ b'0'
      ∷ b'0' ∷ b'0' ∷ b',' ∷ b' ' ∷ b'i' ∷ b'm' ∷ b'm' ∷ b'u' ∷ b't' ∷ b'a' ∷ b'b' ∷ b'l' ∷ b'e'
      ∷ [])

unfoldable pub http_error : ℕ → Response
http_error status_code = record {
  status = status_code;
  content_length = none;
  content_type = none;
  cache_control = none;
  cors = false;
  body = [];
}

unfoldable pub http_error_with_cache : ℕ → Response
http_error_with_cache status_code = record {
  status = status_code;
  content_length = none;
  content_type = none;
  cache_control = some long_cache;
  cors = false;
  body = [];
}

unfoldable pub build_response : Bytes → ℕ → Bytes → Bool → Response
build_response packet ttl content_type cors = record {
  status = 200;
  content_length = some (length packet);
  content_type = some content_type;
  cache_control = some (cache_for ttl);
  cors = cors;
  body = packet;
}

-- `unwrap_or("")`
abbrev pub or_empty : Option Bytes → Bytes
or_empty none = []
or_empty (some s) = s

-- The part of a header in front of its parameters: `split(';').next()`, trimmed and in lower case.
abbrev pub media_type : Bytes → Bytes
media_type part = lowercase (trim (before b';' part))

unfoldable pub contains : List Bytes → Bytes → Bool
contains [] s = false
contains (t ∷ ts) s = let rest = contains ts s in if same_bytes t s then true else rest

-- The first of the parts that is one of the types.
unfoldable pub first_of : List Bytes → List Bytes → Option Bytes
first_of [] content_types = none
first_of (part ∷ parts) content_types =
    let rest = first_of parts content_types in
    let found = media_type (trim part) in if contains content_types found then some found else rest

abbrev pub known_types : List Bytes
known_types = ct_doh ∷ ct_odoh ∷ ct_json ∷ []

-- The match on the content type in lower case.
unfoldable pub doh_type_of : Bytes → Option DohType
doh_type_of s =
    if same_bytes s ct_doh
    then some standard
    else if same_bytes s ct_odoh
    then some oblivious
    else if same_bytes s ct_json
    then some json
    else none

-- `ok_or(e)`
abbrev pub ok_or : {E A : Type 0} → Option A → E → Outcome E A
ok_or none e = err e
ok_or (some a) e = ok a

-- `parse_h3_content_type`, with the status of an error.
unfoldable pub parse_h3_content_type : Option Bytes → Option Bytes → Outcome ℕ DohType
parse_h3_content_type content_type accept = do
  content_type' ← elim content_type [
    | some value ↦ ok value
    | none ↦ do accept' ← ok_or accept 406; ok_or (first_of (split b',' accept') known_types) 406
  ]
  ok_or (doh_type_of (media_type content_type')) 415

-- `to_str` of the HTTP library: the value of a header as text, where it is one.
module _ (to_str : Bytes → Option Bytes) where
  unfoldable pub acceptable_content_type : Option Bytes → List Bytes → Option Bytes
  acceptable_content_type accept content_types =
      and_then accept (λ value. first_of (split b',' (or_empty (to_str value))) content_types)

  -- `parse_content_type` for the values of the two headers, with the response of an error.
  unfoldable pub parse_headers : Option Bytes → Option Bytes → Outcome Response DohType
  parse_headers content_type accept = do
    content_type' ← elim content_type [
      | none ↦ ok_or (acceptable_content_type accept known_types) (http_error_with_cache 406)
      | some value ↦ ok_or (to_str value) (http_error_with_cache 400)
    ]
    ok_or (doh_type_of (lowercase content_type')) (http_error_with_cache 415)

  abbrev pub parse_content_type : Request → Outcome Response DohType
  parse_content_type req = parse_headers req.content_type req.accept

-- The loop over the parameters: the value of the last one with the name.
unfoldable pub question_of : List Bytes → Option Bytes → Option Bytes
question_of [] question_str = question_str
question_of (part ∷ parts) question_str =
    let is_dns = same_bytes (before b'=' part) dns_query_param in
    question_of parts (if is_dns then nth (split b'=' part) 1 else question_str)

-- `decode` is Base64 for URLs without padding.
module _ (decode : Bytes → Option Bytes) where
  -- The parameter of a query string as the bytes of a query.
  unfoldable pub query_of : Bytes → Option Bytes
  query_of http_query = and_then (question_of (split b'&' http_query) none) (λ question_str.
      if ltb (max_dns_question_len * 4 / 3) (length question_str)
      then none
      else decode question_str)

  unfoldable pub query_from_query_string : Request → Option Bytes
  query_from_query_string req = query_of (or_empty req.query)

  unfoldable pub query_from_path : Bytes → Option Bytes
  query_from_path path = query_of (or_empty (nth (split b'?' path) 1))

-- The announced size may be unknown.
abbrev pub announces_more : Option ℕ → Bool
announces_more none = false
announces_more (some upper) = leb max_dns_question_len upper

unfoldable pub read_body : {X : Type 0} → Body → Outcome (DohError X) Bytes
read_body body = do
  ensure (if announces_more body.upper then false else true) too_large
  bytes ← ok_or body.collected too_large
  ensure (ltb (length bytes) max_dns_question_len) too_large
  ok bytes
