-- ===== src/Http/ContentTypes.antt =====
-- The two readers of content types, that of HTTP/1 and HTTP/2 and that of HTTP/3.
use doh_server.Prelude.{
  ℕ, ◌≡◌, refl, subst, inl, inr, true, List, [], ◌∷◌, All, Option, none, some, Outcome, ◌>>=◌,
  map_err, if-eq,
}
use doh_server.Bytes.{Bytes}
use doh_server.Ecs.{and_then}
use doh_server.Msg.Answers.{same_bytes, same_bytes_iff}
use doh_server.Text.{split, before, lowercase, trim, trim_start, trim_end, trim_start_at, white_len}
use doh_server.Http.{
  DohType, Request, Response, http_error_with_cache, media_type, contains, first_of, known_types,
  doh_type_of, ok_or, parse_h3_content_type, acceptable_content_type, parse_headers,
  parse_content_type,
}

-- The type has no parameters and no white space around it.
abbrev pub IsPlain : Bytes → Type 0
IsPlain s = media_type s ≡ lowercase s

known-IsPlain : All IsPlain known_types
unfolding before trim trim_start trim_start_at trim_end white_len lowercase
known-IsPlain = (refl, (refl, (refl, tt)))

contains-All :
    (P : Bytes → Type 0) (ts : List Bytes) (s : Bytes) → All P ts → contains ts s ≡ true → P s
unfolding contains
contains-All P [] s h c = cc
contains-All P (t ∷ ts) s h c = elim (if-eq (same_bytes t s) true (contains ts s) c) [
  | inl (e, _) ↦ subst P ((same_bytes_iff t s).0 e) h.0
  | inr (_, c') ↦ contains-All P ts s h.1 c'
]

-- What is found among types has what they all have.
first_of-All :
    (P : Bytes → Type 0) (parts types : List Bytes) (s : Bytes)
    → All P types
    → first_of parts types ≡ some s
    → P s
unfolding first_of
first_of-All P [] types s h e = cc
first_of-All P (part ∷ parts) types s h e =
    let found = media_type (trim part) in
    elim (if-eq (contains types found) (some found) (first_of parts types) e) [
      | inl (c, f) ↦ let k : found ≡ s = cc in subst P k (contains-All P types found h c)
      | inr (_, r) ↦ first_of-All P parts types s h r
    ]

-- No content type, or one without parameters.
abbrev pub Simple : (Bytes → Option Bytes) → Option Bytes → Type 0
Simple to_str none = Unit
Simple to_str (some value) = (s : Bytes) × (to_str value ≡ some s) × IsPlain s

-- `to_str` makes the value of a header text.
module _ (to_str : Bytes → Option Bytes) where
  -- The type that a request accepts, as the two read it.
  abbrev pub Agree : Outcome Response DohType → Outcome ℕ DohType → Type 0
  Agree a b = map_err (λ (r : Response). r.status) a ≡ b

  by_kind :
      (kind : Option DohType) → Agree (ok_or kind (http_error_with_cache 415)) (ok_or kind 415)
  unfolding http_error_with_cache
  by_kind none = refl
  by_kind (some kind) = refl

  by_type :
      (s : Bytes)
      → IsPlain s
      → Agree
          (ok_or (doh_type_of (lowercase s)) (http_error_with_cache 415))
          (ok_or (doh_type_of (media_type s)) 415)
  by_type s h = rw h (by_kind (doh_type_of (lowercase s)))

  -- The type among those that are accepted.
  by_found :
      (found : Option Bytes)
      → ((s : Bytes) → found ≡ some s → IsPlain s)
      → Agree
          (do
            s ← ok_or found (http_error_with_cache 406)
            ok_or (doh_type_of (lowercase s)) (http_error_with_cache 415))
          (do s ← ok_or found 406; ok_or (doh_type_of (media_type s)) 415)
  unfolding http_error_with_cache
  by_found none h = refl
  by_found (some s) h = by_type s (h s refl)

  by_text :
      (value t : Bytes)
      → to_str value ≡ some t
      → Agree (parse_headers to_str none (some value)) (parse_h3_content_type none (some t))
  unfolding parse_headers parse_h3_content_type acceptable_content_type http_error_with_cache
  by_text value t e = rw e (
      by_found (first_of (split b',' t) known_types)
        (λ s k. first_of-All IsPlain (split b',' t) known_types s known-IsPlain k))

  -- A header that is there is a text of ASCII characters, which `to_str` takes.
  abbrev pub IsText : Option Bytes → Type 0
  IsText none = Unit
  IsText (some value) = (s : Bytes) × (to_str value ≡ some s)

  -- `from_utf8` of the standard library takes the text that `to_str` takes, and more.
  module _ (from_utf8 : Bytes → Option Bytes)
      (from_utf8-to_str : (value s : Bytes)
        → to_str value ≡ some s
        → from_utf8 value ≡ some s) where
    by_headers :
        (content_type accept : Option Bytes)
        → Simple to_str content_type
        → IsText accept
        → Agree
            (parse_headers to_str content_type accept)
            (parse_h3_content_type (and_then content_type from_utf8) (and_then accept from_utf8))
    unfolding parse_headers parse_h3_content_type acceptable_content_type http_error_with_cache
    by_headers none none h a = refl
    by_headers none (some value) h (t, e) = rw (from_utf8-to_str value t e) (by_text value t e)
    by_headers (some value) accept (s, e, k) a =
        rw (from_utf8-to_str value s e) (rw e (by_type s k))

    -- Where the request has no content type, or one without parameters and white space around it, and
    -- what it accepts is text of ASCII characters where it says so, HTTP/1 and HTTP/2 read its kind of
    -- DoH, or the status of the refusal, as HTTP/3 does from the same headers. HTTP/3 reads a header
    -- by `from_utf8`, of which it is assumed that it gives what `to_str` gives where this takes the
    -- header.
    pub parse_content_type_lem :
        (req : Request)
        → Simple to_str req.content_type
        → IsText req.accept
        → map_err (λ (r : Response). r.status) (parse_content_type to_str req)
          ≡ parse_h3_content_type
              (and_then req.content_type from_utf8)
              (and_then req.accept from_utf8)
    parse_content_type_lem req h a = by_headers req.content_type req.accept h a
