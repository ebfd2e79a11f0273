-- ===== src/Http/Bodies.antt =====
-- The body of a request of HTTP/3.
use doh_server.Prelude.{
  ◌+◌, ◌≤◌, ◌≡◌, sym, true, false, List, [], ◌∷◌, ◌++◌, append_assoc, append-nil, length,
  length-append, Option, none, some, Bool-cases, ltb, leb, if◌then◌else◌, ◌⊎◌, inl, inr, arith,
}
use doh_server.Bytes.{Bytes}
use doh_server.Backoff.{saturating_add}
use doh_server.Http.Http3.{InboundFrame, body_part, other_frame, receive_body}

-- The parts of the body up to the one that ends it.
unfoldable pub body_of : List InboundFrame → Bytes
body_of [] = []
body_of (other_frame ∷ frames) = body_of frames
body_of (body_part part true ∷ frames) = part
body_of (body_part part false ∷ frames) = part ++ body_of frames

-- A body that is refused where it is too large.
abbrev pub up_to_limit : Bytes → Option Bytes
up_to_limit body = if ltb 512 (length body) then none else some body

receive_body-length :
    (frames : List InboundFrame) (body : Bytes)
    → length body ≤ 512
    → receive_body frames body (length body) ≡ up_to_limit (body ++ body_of frames)
unfolding receive_body body_of
receive_body-length [] body h = rw (append-nil body) (ground (arith, h))
receive_body-length (other_frame ∷ frames) body h = receive_body-length frames body h
receive_body-length (body_part part true ∷ frames) body h = ground (arith, length-append body part)
receive_body-length (body_part part false ∷ frames) body h =
    by_size (Bool-cases (leb (length body + length part) 512))
      (λ k. receive_body-length frames (body ++ part) (omega (arith, length-append body part, k)))
  where
    rest : Bytes
    rest = body_of frames

    by_size :
        (leb (length body + length part) 512 ≡ true) ⊎ (leb (length body + length part) 512 ≡ false)
        → (length body + length part ≤ 512
            → receive_body frames (body ++ part) (length (body ++ part))
              ≡ up_to_limit ((body ++ part) ++ rest))
        → receive_body (body_part part false ∷ frames) body (length body)
          ≡ up_to_limit (body ++ (part ++ rest))
    by_size (inr large) ih =
        ground (arith, length-append body (part ++ rest), length-append part rest)
    by_size (inl small) ih =
        let fits : length body + length part ≤ 512 = ground arith in
        let size : saturating_add (length body) (length part) ≡ length (body ++ part) =
          omega (arith, length-append body part) in
        let no : ltb 512 (length (body ++ part)) ≡ false =
          ground (arith, length-append body part) in
        rw (size, no, sym (append_assoc body part rest)) (ih fits)

-- The body of a request is read as the parts of it up to the one that ends it, whatever frames stand
-- between them, and it is refused exactly where these have more than 512 bytes.
pub receive_body_lem :
    (frames : List InboundFrame) → receive_body frames [] 0 ≡ up_to_limit (body_of frames)
receive_body_lem frames = receive_body-length frames [] (omega arith)
