-- ===== src/Doh/Choice.antt =====
-- The choice between HTTP/2 and HTTP/3 over the requests of an upstream.
use doh_server.Prelude.{ℕ, ◌≤◌, ◌≡◌, refl, ap, ◌⊎◌, inl, inr, true, false, arith}
use doh_server.Backoff.{IsBelow, h3_backoff_active}
use doh_server.Doh.{
  Cells, World, Race, h3_first, h2_first, doh_post_h2_with_retries, select_doh_protocol,
  choose_protocol, attempt,
}

-- The hint is one of the protocols, and the count of failures is below the threshold.
abbrev pub IsSound : Cells → Type 0
IsSound cells = (cells.protocol_hint ≤ 2) × IsBelow cells.h3

-- The same hint and failures.
abbrev pub IsAlike : Cells → Cells → Type 0
IsAlike c d = (c.protocol_hint ≡ d.protocol_hint) × (c.h3 ≡ d.h3)

-- The probe that ends first speaks for HTTP/3: its own succeeded, or that of HTTP/2 failed.
abbrev pub SpeaksForH3 : Race → Type 0
SpeaksForH3 (h3_first succeeded) = succeeded ≡ true
SpeaksForH3 (h2_first succeeded) = succeeded ≡ false

module _ {X : Type 0} where
  choose_protocol-backoff :
      (world : World X) (cells : Cells)
      → IsSound cells
      → h3_backoff_active cells.h3 world.hint_at ≡ true
      → h3_backoff_active cells.h3 world.select_at ≡ true
      → h3_backoff_active cells.h3 world.store_at ≡ true
      → choose_protocol world cells ≡ (cells, 1)
  unfolding choose_protocol select_doh_protocol
  choose_protocol-backoff world cells h a b c = by_hint (ground (arith, h.0))
    where
      by_hint :
          (cells.protocol_hint ≡ 0) ⊎ ((cells.protocol_hint ≡ 1) ⊎ (cells.protocol_hint ≡ 2))
          → choose_protocol world cells ≡ (cells, 1)
      by_hint (inl e) = rw (e, choose_protocol, select_doh_protocol, b, c) refl
      by_hint (inr (inl e)) = rw (e, choose_protocol) refl
      by_hint (inr (inr e)) = rw (e, choose_protocol, a) refl

  -- While HTTP/3 is set aside at every time that a request looks at, the request goes over HTTP/2 and
  -- changes neither the hint nor the failures, unless the upstream has HTTP/3 only.
  pub attempt-backoff :
      (world : World X) (cells : Cells)
      → IsSound cells
      → h3_backoff_active cells.h3 world.hint_at ≡ true
      → h3_backoff_active cells.h3 world.select_at ≡ true
      → h3_backoff_active cells.h3 world.store_at ≡ true
      → attempt false world cells ≡ doh_post_h2_with_retries world.h2_once cells
  unfolding attempt
  attempt-backoff world cells h a b c =
      let chosen : choose_protocol world cells ≡ (cells, 1) =
        choose_protocol-backoff world cells h a b c in
      rw (chosen, attempt)
        (ap (λ (r : Cells × ℕ). doh_post_h2_with_retries world.h2_once r.0) chosen)
