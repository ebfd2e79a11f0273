-- ===== src/Http/Refusals.antt =====
-- The requests that are refused before an upstream is asked, over each version of HTTP.
use doh_server.Prelude.{ℕ, ◌≡◌, Bool, true, false, List, [], ◌∷◌, Option, Outcome, ok, err}
use doh_server.Bytes.{Bytes}
use doh_server.Msg.Answers.{same_bytes}
use doh_server.Text.{before}
use doh_server.Http.{
  DohType, standard, oblivious, json, get, post, other_method, Request, Response, http_error,
  parse_content_type, parse_h3_content_type,
}
use doh_server.Http.Serve.{Site}
use doh_server.Http.Http3.{Header, h3_header_value, or_text}

module _ (to_str : Bytes → Option Bytes) where
  -- Why a request over HTTP/1 or HTTP/2 is refused, with the response: there is nothing at its path;
  -- the method is none of the path; its type cannot be read; it posts to the JSON API; or it posts a
  -- query of DoH, or of Oblivious DoH, which the configuration forbids.
  pub data IsRefused (site : Site) (req : Request) : Response → Type 0 where
    no_path :
        same_bytes req.path site.path ≡ false
        → same_bytes req.path site.odoh_configs_path ≡ false
        → IsRefused site req (http_error 404)
    keys_posted :
        same_bytes req.path site.path ≡ false
        → same_bytes req.path site.odoh_configs_path ≡ true
        → req.method ≡ post
        → IsRefused site req (http_error 405)
    keys_other :
        (m : Bytes)
        → same_bytes req.path site.path ≡ false
        → same_bytes req.path site.odoh_configs_path ≡ true
        → req.method ≡ other_method m
        → IsRefused site req (http_error 405)
    other :
        (m : Bytes)
        → same_bytes req.path site.path ≡ true
        → req.method ≡ other_method m
        → IsRefused site req (http_error 405)
    get_bad_type :
        (r : Response)
        → same_bytes req.path site.path ≡ true
        → req.method ≡ get
        → parse_content_type to_str req ≡ err r
        → IsRefused site req r
    post_bad_type :
        (r : Response)
        → same_bytes req.path site.path ≡ true
        → req.method ≡ post
        → parse_content_type to_str req ≡ err r
        → IsRefused site req r
    json_posted :
        same_bytes req.path site.path ≡ true
        → req.method ≡ post
        → parse_content_type to_str req ≡ ok json
        → IsRefused site req (http_error 405)
    doh_posted :
        same_bytes req.path site.path ≡ true
        → req.method ≡ post
        → parse_content_type to_str req ≡ ok standard
        → site.disable_post ≡ true
        → IsRefused site req (http_error 405)
    odoh_posted :
        same_bytes req.path site.path ≡ true
        → req.method ≡ post
        → parse_content_type to_str req ≡ ok oblivious
        → site.disable_post ≡ true
        → site.allow_odoh_post ≡ false
        → IsRefused site req (http_error 405)

-- A request over HTTP/3: its method, its path, and the kind of DoH that it is read as.
module _ (utf8 : Bytes → Option Bytes) where
  abbrev pub method_of : List Header → Bytes
  method_of headers =
      or_text (h3_header_value utf8 headers (b':' ∷ b'm' ∷ b'e' ∷ b't' ∷ b'h' ∷ b'o' ∷ b'd' ∷ []))
        (b'G' ∷ b'E' ∷ b'T' ∷ [])

  abbrev pub path_of : List Header → Bytes
  path_of headers =
      or_text (h3_header_value utf8 headers (b':' ∷ b'p' ∷ b'a' ∷ b't' ∷ b'h' ∷ [])) (b'/' ∷ [])

  abbrev pub h3_kind_of : List Header → Outcome ℕ DohType
  h3_kind_of headers =
      parse_h3_content_type
        (h3_header_value utf8 headers
          (b'c' ∷ b'o' ∷ b'n' ∷ b't' ∷ b'e' ∷ b'n' ∷ b't' ∷ b'-' ∷ b't' ∷ b'y' ∷ b'p' ∷ b'e' ∷ []))
        (h3_header_value utf8 headers (b'a' ∷ b'c' ∷ b'c' ∷ b'e' ∷ b'p' ∷ b't' ∷ []))

  abbrev pub is_method : List Header → Bytes → Bool
  is_method headers m = same_bytes (method_of headers) m

  -- The path is that of the queries, and the kind of DoH is one that is not JSON or it is.
  pub record AtPath (site : Site) (headers : List Header) (kind : DohType) : Type 0 where
    pub configs : same_bytes (before b'?' (path_of headers)) site.odoh_configs_path ≡ false
    pub path : same_bytes (before b'?' (path_of headers)) site.path ≡ true
    pub kind_is : h3_kind_of headers ≡ ok kind

  abbrev pub IsPost : List Header → Type 0
  IsPost headers =
      (is_method headers (b'G' ∷ b'E' ∷ b'T' ∷ []) ≡ false)
      × (is_method headers (b'P' ∷ b'O' ∷ b'S' ∷ b'T' ∷ []) ≡ true)

  -- A kind of DoH whose queries are no JSON, and that may not be posted.
  abbrev pub IsForbidden : Site → DohType → Type 0
  IsForbidden site standard = site.disable_post ≡ true
  IsForbidden site oblivious = (site.disable_post ≡ true) × (site.allow_odoh_post ≡ false)
  IsForbidden site json = Unit

  -- Why a request over HTTP/3 is refused, with the status, and whether the refusal may be kept.
  pub data IsH3Refused (site : Site) (headers : List Header) : ℕ → Bool → Type 0 where
    h3_no_path :
        same_bytes (before b'?' (path_of headers)) site.odoh_configs_path ≡ false
        → same_bytes (before b'?' (path_of headers)) site.path ≡ false
        → IsH3Refused site headers 404 true
    h3_keys :
        same_bytes (before b'?' (path_of headers)) site.odoh_configs_path ≡ true
        → is_method headers (b'G' ∷ b'E' ∷ b'T' ∷ []) ≡ false
        → IsH3Refused site headers 405 false
    h3_bad_type :
        (n : ℕ)
        → same_bytes (before b'?' (path_of headers)) site.odoh_configs_path ≡ false
        → same_bytes (before b'?' (path_of headers)) site.path ≡ true
        → h3_kind_of headers ≡ err n
        → IsH3Refused site headers n true
    h3_other :
        (kind : DohType)
        → AtPath site headers kind
        → is_method headers (b'G' ∷ b'E' ∷ b'T' ∷ []) ≡ false
        → is_method headers (b'P' ∷ b'O' ∷ b'S' ∷ b'T' ∷ []) ≡ false
        → IsH3Refused site headers 405 false
    h3_posted :
        (kind : DohType)
        → AtPath site headers kind
        → IsPost headers
        → IsForbidden site kind
        → IsH3Refused site headers 405 false
