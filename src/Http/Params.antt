-- ===== src/Http/Params.antt =====
-- The query of a client in the query string of a URL, and in a body.
use doh_server.Prelude.{
  ◌+◌, ◌*◌, ◌/◌, ◌≤◌, ◌⊎◌, ◌≡◌, refl, false, List, [], ◌∷◌, ◌++◌, Option, none, some, All, length,
  ok, err, ltb, if◌then◌else◌, arith,
}
use doh_server.Bytes.{Bytes}
use doh_server.Errors.{too_large}
use doh_server.Msg.Answers.{same_bytes}
use doh_server.Text.{split, before, nth}
use doh_server.Text.Laws.{Lacks, join, split-Lacks, split-append, split-join, before-append}
use doh_server.Http.{
  dns_query_param, Request, question_of, query_of, query_from_query_string, query_from_path,
  read_body,
}

-- The parameter has another name than `dns`.
abbrev pub IsOther : Bytes → Type 0
IsOther part = same_bytes (before b'=' part) dns_query_param ≡ false

-- The parameter with the name `dns`.
abbrev pub dns_param : Bytes → Bytes
dns_param value = dns_query_param ++ b'=' ∷ value

question_of-IsOther :
    (parts : List Bytes) (q : Option Bytes) → All IsOther parts → question_of parts q ≡ q
unfolding question_of
question_of-IsOther [] q h = refl
question_of-IsOther (part ∷ parts) q h = rw h.0 (question_of-IsOther parts q h.1)

question_of-dns_param :
    (value : Bytes) (parts : List Bytes) (q : Option Bytes)
    → Lacks b'=' value
    → All IsOther parts
    → question_of (dns_param value ∷ parts) q ≡ some value
unfolding question_of same_bytes nth
question_of-dns_param value parts q h k =
    rw
      (
        before-append b'=' dns_query_param value (refl, (refl, (refl, tt))),
        split-append b'=' dns_query_param value (refl, (refl, (refl, tt))),
        split-Lacks b'=' value h,
      )
      (question_of-IsOther parts (some value) k)

question_of-append :
    (before_it : List Bytes) (value : Bytes) (after_it : List Bytes) (q : Option Bytes)
    → Lacks b'=' value
    → All IsOther after_it
    → question_of (before_it ++ dns_param value ∷ after_it) q ≡ some value
unfolding question_of
question_of-append [] value after_it q h k = question_of-dns_param value after_it q h k
question_of-append (part ∷ parts) value after_it q h k =
    question_of-append parts value after_it _ h k

All-between :
    (P : Bytes → Type 0) (ts : List Bytes) (u : Bytes) (us : List Bytes)
    → All P ts
    → P u
    → All P us
    → All P (ts ++ u ∷ us)
All-between P [] u us h k l = (k, l)
All-between P (t ∷ ts) u us h k l = (h.0, All-between P ts u us h.1 k l)

-- Parameters that are read as what they were joined of.
split-params :
    (ts : List Bytes) (u : Bytes) (us : List Bytes)
    → All (Lacks b'&') (ts ++ u ∷ us)
    → split b'&' (join b'&' (ts ++ u ∷ us)) ≡ ts ++ u ∷ us
split-params [] u us h = split-join b'&' u us h
split-params (t ∷ ts) u us h = split-join b'&' t (ts ++ u ∷ us) h

module _ (decode : Bytes → Option Bytes) where
  -- Among parameters without `&`, the last one with the name `dns` is decoded where its value,
  -- which has no `=`, has at most 682 characters; a longer one gives no query.
  pub query_of_lem :
      (before_it after_it : List Bytes) (value : Bytes)
      → All (Lacks b'&') before_it
      → All (Lacks b'&') after_it
      → Lacks b'&' value
      → Lacks b'=' value
      → All IsOther after_it
      → query_of decode (join b'&' (before_it ++ dns_param value ∷ after_it))
        ≡ (if ltb 682 (length value) then none else decode value)
  unfolding query_of
  query_of_lem before_it after_it value h k l m o =
      let lacks =
        All-between (Lacks b'&') before_it (dns_param value) after_it h
          (refl, (refl, (refl, (refl, l)))) k in
      rw
        (
          split-params before_it (dns_param value) after_it lacks,
          question_of-append before_it value after_it none m o,
        )
        refl

  -- Where the path and the query have no `?`, HTTP/3 reads the query of the path with its query
  -- string as HTTP/1 and HTTP/2 read that of the query string.
  pub query_from_path_lem :
      (path query : Bytes) (req : Request)
      → Lacks b'?' path
      → Lacks b'?' query
      → req.query ≡ some query
      → query_from_path decode (path ++ b'?' ∷ query) ≡ query_from_query_string decode req
  unfolding query_from_path query_from_query_string nth
  query_from_path_lem path query req h k e =
      rw (split-append b'?' path query h, split-Lacks b'?' query k, e) refl

  -- `encode` is Base64 for URLs without padding: four characters, of which none is `&` or `=`, for
  -- three bytes.
  module _ (encode : Bytes → Bytes)
      (encode-Lacks : (q : Bytes) → Lacks b'&' (encode q) × Lacks b'=' (encode q))
      (length-encode : (q : Bytes) → length (encode q) ≡ (length q * 4 + 2) / 3)
      (decode-encode : (q : Bytes) → decode (encode q) ≡ some q) where
    -- The query of a GET request in Base64 is read exactly where it has less than 512 bytes, and so is
    -- the body of a POST request that has the size that it announces.
    pub get_iff_post :
        (X : Type 0) (query : Bytes)
        → ((length query + 1 ≤ 512)
            × (query_of decode (dns_param (encode query)) ≡ some query)
            × (read_body {X = X} (record { upper = some (length query); collected = some query })
                ≡ ok query))
          ⊎ ((512 ≤ length query)
              × (query_of decode (dns_param (encode query)) ≡ none)
              × (read_body {X = X} (record { upper = some (length query); collected = some query })
                  ≡ err too_large))
    unfolding read_body join
    get_iff_post X query =
        let e : query_of decode (dns_param (encode query))
            ≡ (if ltb 682 (length (encode query)) then none else decode (encode query)) =
          query_of_lem [] [] (encode query) tt tt (encode-Lacks query).0 (encode-Lacks query).1
            tt in
        rw (e, decode-encode query, length-encode query) (ground arith)
