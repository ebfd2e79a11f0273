-- ===== src/Config/Accepts.antt =====
-- The upstreams that the command line accepts, and that the program reads.
use doh_server.Prelude.{
  ◌≡◌, ◌⊎◌, refl, subst, inl, inr, Bool, true, false, ◌||◌, List, [], ◌∷◌, Option, none, some,
  Outcome, ok, err, ◌>>=◌, ◌>>◌, Bool-cases, >>=-eq-ok, >>=-ok, if◌then◌else◌, arith,
}
use doh_server.Bytes.{Bytes}
use doh_server.Msg.Answers.{same_bytes}
use doh_server.Bootstrap.Resolve.{SocketAddr}
use doh_server.Config.{
  Host, Url, UpstreamArg, dns_upstream, dot_upstream, Exit, or_exit, or_number, is_url, parse_doh,
  parse_scheme, parse_upstream_arg, verify_remote_server, verify_scheme, verify_upstream,
  http_scheme, unsupported_scheme, invalid_url, no_host, invalid_server_address,
  unresolved_server_address,
}

-- The addresses of a server are looked up by `at_check` where clap checks the text of an upstream, and
-- by `to_socket_addrs` where the program reads it: the two may differ.
module _ (parse_url : Bytes → Option Url)
    (at_check to_socket_addrs : Bytes → Option (List SocketAddr)) where
  -- What the library says of a URL: where it has the text of a host, it has a host.
  abbrev pub HasHost : Type 0
  HasHost =
      (s : Bytes) (url : Url) (t : Bytes)
      → parse_url s ≡ some url
      → url.host_str ≡ some t
      → (h : Host) × (url.host ≡ some h)

  doh_accepted :
      (url : Url) (t : Bytes) (h : Host)
      → url.host_str ≡ some t
      → url.host ≡ some h
      → (u : UpstreamArg) × (parse_doh url ≡ ok u)
  unfolding parse_doh
  doh_accepted url t h e f = rw (e, f, parse_doh) (_, refl)

  scheme_accepted :
      (url : Url) (t : Bytes) (h : Host)
      → url.host_str ≡ some t
      → url.host ≡ some h
      → verify_scheme parse_url at_check url.scheme ≡ ok tt
      → (u : UpstreamArg) × (parse_scheme url ≡ ok u)
  unfolding verify_scheme parse_scheme
  scheme_accepted url t h e f v =
      elim (Bool-cases (
        same_bytes url.scheme (b'h' ∷ b't' ∷ b't' ∷ b'p' ∷ b's' ∷ [])
        || same_bytes url.scheme (b'h' ∷ b'3' ∷ []))) [
          | inl a ↦ rw (a, parse_scheme) (doh_accepted url t h e f)
          | inr a ↦ elim (Bool-cases (same_bytes url.scheme (b't' ∷ b'l' ∷ b's' ∷ []))) [
            | inl b ↦ rw (a, b, e, parse_scheme) (dot_upstream t (or_number url.port 853), refl)
            | inr b ↦ absurd (refused a b v)
          ]
        ]
    where
      refused :
          (same_bytes url.scheme (b'h' ∷ b't' ∷ b't' ∷ b'p' ∷ b's' ∷ [])
              || same_bytes url.scheme (b'h' ∷ b'3' ∷ []))
            ≡ false
          → same_bytes url.scheme (b't' ∷ b'l' ∷ b's' ∷ []) ≡ false
          → ◌≡◌ {A = Outcome Exit (Unit {0})}
              (if same_bytes url.scheme (b'h' ∷ b't' ∷ b't' ∷ b'p' ∷ b's' ∷ [])
                  || same_bytes url.scheme (b'h' ∷ b'3' ∷ [])
                  || same_bytes url.scheme (b't' ∷ b'l' ∷ b's' ∷ [])
                then ok tt
                else if same_bytes url.scheme (b'h' ∷ b't' ∷ b't' ∷ b'p' ∷ [])
                then err http_scheme
                else err unsupported_scheme)
              (ok tt)
          → ⊥
      refused a b v = ground (arith, a, b)

  or_exit-eq-ok : {A : Type 0} (o : Option A) (e : Exit) (a : A) → or_exit o e ≡ ok a → o ≡ some a
  or_exit-eq-ok none e a h = cc
  or_exit-eq-ok (some b) e a h = cc

  url_accepted :
      (s t : Bytes)
      → HasHost
      → (do
        url ← or_exit (parse_url s) invalid_url
        verify_scheme parse_url at_check url.scheme
        host ← or_exit url.host_str no_host
        ok s)
        ≡ ok t
      → (u : UpstreamArg) × ((do url ← or_exit (parse_url s) invalid_url; parse_scheme url) ≡ ok u)
  url_accepted s t has v =
      let (url, e, v1) = >>=-eq-ok (or_exit (parse_url s) invalid_url) _ v in
      let (_, f, v2) = >>=-eq-ok (verify_scheme parse_url at_check url.scheme) _ v1 in
      let (host, g, _) = >>=-eq-ok (or_exit url.host_str no_host) _ v2 in
      let (h, k) =
        has s url host (or_exit-eq-ok (parse_url s) invalid_url url e)
          (or_exit-eq-ok url.host_str no_host host g) in
      let (u, l) = scheme_accepted url host h (or_exit-eq-ok url.host_str no_host host g) k f in
      (u, >>=-ok _ e l)

  -- The second lookup fails or has no address, with which the program exits.
  abbrev pub IsUnresolved : Bytes → Type 0
  IsUnresolved s =
      ((to_socket_addrs s ≡ none)
        × (parse_upstream_arg parse_url to_socket_addrs s ≡ err invalid_server_address))
      ⊎ ((to_socket_addrs s ≡ some [])
          × (parse_upstream_arg parse_url to_socket_addrs s ≡ err unresolved_server_address))

  server_read :
      (s : Bytes)
      → is_url s ≡ false
      → ((u : UpstreamArg) × (parse_upstream_arg parse_url to_socket_addrs s ≡ ok u))
        ⊎ ((is_url s ≡ false) × IsUnresolved s)
  unfolding parse_upstream_arg
  server_read s e = by_addrs (to_socket_addrs s) refl
    where
      by_addrs :
          (o : Option (List SocketAddr))
          → to_socket_addrs s ≡ o
          → ((u : UpstreamArg) × (parse_upstream_arg parse_url to_socket_addrs s ≡ ok u))
            ⊎ ((is_url s ≡ false) × IsUnresolved s)
      by_addrs none f = inr (e, inl (f, rw (e, f, parse_upstream_arg) refl))
      by_addrs (some []) f = inr (e, inr (f, rw (e, f, parse_upstream_arg) refl))
      by_addrs (some (a ∷ addrs)) f = inl (dns_upstream a, rw (e, f, parse_upstream_arg) refl)

  -- Where clap accepts the text of an upstream, which it does by `verify_upstream`, the program reads an
  -- upstream from it, or it exits because the text is no URL and the second lookup of the server, which
  -- may differ from the one of the check, fails or has no address. Of the library it is assumed that a
  -- URL with the text of a host has a host, and that the same text is the same URL both times.
  pub parse-verify :
      (s t : Bytes)
      → HasHost
      → verify_upstream parse_url at_check s ≡ ok t
      → ((u : UpstreamArg) × (parse_upstream_arg parse_url to_socket_addrs s ≡ ok u))
        ⊎ ((is_url s ≡ false) × IsUnresolved s)
  unfolding verify_upstream parse_upstream_arg
  parse-verify s t has v = elim (Bool-cases (is_url s)) [
    | inl e ↦ inl (rw (e, parse_upstream_arg) (url_accepted s t has (subst Verified e v)))
    | inr e ↦ server_read s e
  ]
    where
      Verified : Bool → Type 0
      Verified b =
          ◌≡◌ {A = Outcome Exit Bytes}
            (elim b as (λ _. Outcome Exit Bytes) [
              | true ↦ do
                url ← or_exit (parse_url s) invalid_url
                verify_scheme parse_url at_check url.scheme
                host ← or_exit url.host_str no_host
                ok s
              | false ↦ verify_remote_server parse_url at_check s
            ])
            (ok t)
