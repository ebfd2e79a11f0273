-- ===== src/Config/Startable.antt =====
-- The options that the program starts with.
use doh_server.Prelude.{
  ℕ, suc, ◌+◌, ◌-◌, ◌*◌, ◌^◌, ◌<◌, ◌≡◌, refl, ap, inl, inr, Bool, true, false, ◌&&◌, ◌||◌, List, [],
  ◌∷◌, Option, none, some, length, Outcome, ok, err, ◌>>=◌, Ends, Ends-bind, Ends-mono, Bool-cases,
  ltb, leb, ◌==◌, if◌then◌else◌, arith,
}
use doh_server.Bytes.{Bytes}
use doh_server.Msg.Answers.{same_bytes}
use doh_server.Bootstrap.Resolve.{SocketAddr}
use doh_server.Config.{
  starts_with, digits_below, parse_uint, Url, UpstreamArg, Exit, or_exit, is_url, parse_doh,
  parse_scheme, first_addr, parse_upstream_arg, parse_all, default_server_address,
  default_listen_address, http_scheme, unsupported_scheme, invalid_url, no_host, invalid_number,
  invalid_address, invalid_server_address, unresolved_server_address,
}
use doh_server.Config.Options.{
  Args, Options, or_default, or_none, absolute, local_of, parse_addrs, upstreams_of, number,
  parse_opts,
}

abbrev pub AnyExit : Exit → Type 0
AnyExit e = Unit {0}

or_exit-Ends : {A : Type 0} (o : Option A) (e : Exit) → Ends AnyExit (λ a. o ≡ some a) (or_exit o e)
or_exit-Ends none e = tt
or_exit-Ends (some a) e = refl

-- A number that was read is below the limit.
abbrev pub IsUnder : ℕ → Option ℕ → Type 0
IsUnder limit none = Unit
IsUnder limit (some n) = n < limit

digits_below-IsUnder :
    (limit n : ℕ) (s : Bytes) → n < limit → IsUnder limit (digits_below limit n s)
unfolding digits_below
digits_below-IsUnder limit n [] h = h
digits_below-IsUnder limit n (b ∷ s) h =
    let m = n * 10 + (b - 48) in
    elim (Bool-cases (leb 48 b && leb b 57 && ltb m limit)) [
      | inl e ↦ rw (e, digits_below) (digits_below-IsUnder limit m s (ground (arith, e)))
      | inr e ↦ rw (e, digits_below) tt
    ]

parse_uint-IsUnder : (bits : ℕ) (s : Bytes) → 0 < 2 ^ bits → IsUnder (2 ^ bits) (parse_uint bits s)
unfolding parse_uint
parse_uint-IsUnder bits [] h = tt
parse_uint-IsUnder bits (b ∷ []) h = digits_below-IsUnder (2 ^ bits) 0 (b ∷ []) h
parse_uint-IsUnder bits (b ∷ c ∷ s) h = elim (Bool-cases (b == b'+')) [
  | inl e ↦ rw (e, parse_uint) (digits_below-IsUnder (2 ^ bits) 0 (c ∷ s) h)
  | inr e ↦ rw (e, parse_uint) (digits_below-IsUnder (2 ^ bits) 0 (b ∷ c ∷ s) h)
]

-- What holds of the options that the program starts with: there is an upstream, the path begins
-- with `/`, and the numbers are in range.
pub record IsStartable (o : Options) : Type 0 where
  pub has_upstream : 0 < length o.upstreams
  pub path : starts_with (b'/' ∷ []) o.path ≡ true
  pub max_clients : o.max_clients < 2 ^ 64
  pub least_ttl : o.min_ttl < 2 ^ 32
  pub most_ttl : o.max_ttl < 2 ^ 32
  pub err_ttl : o.err_ttl < 2 ^ 32
  pub prefix_v4 : o.ecs_prefix_v4 < 256
  pub prefix_v6 : o.ecs_prefix_v6 < 256

absolute-starts : (path : Bytes) → starts_with (b'/' ∷ []) (absolute path) ≡ true
unfolding starts_with
absolute-starts path = elim (Bool-cases (starts_with (b'/' ∷ []) path)) [
  | inl e ↦ rw (e, starts_with) e
  | inr e ↦ rw (e, starts_with) refl
]

module _ (parse_url : Bytes → Option Url) (to_socket_addrs : Bytes → Option (List SocketAddr))
    (parse_addr : Bytes → Option SocketAddr) where
  number-Ends :
      (bits : ℕ) (s : Bytes)
      → 0 < 2 ^ bits
      → Ends AnyExit (λ n. n < 2 ^ bits) (number parse_url to_socket_addrs parse_addr bits s)
  number-Ends bits s h = by_number (parse_uint bits s) (parse_uint-IsUnder bits s h)
    where
      by_number :
          (o : Option ℕ)
          → IsUnder (2 ^ bits) o
          → Ends AnyExit (λ n. n < 2 ^ bits) (or_exit o invalid_number)
      by_number none k = tt
      by_number (some n) k = k

  parse_addrs-Ends :
      (ss : List Bytes)
      → Ends AnyExit (λ _. Unit {0}) (parse_addrs parse_url to_socket_addrs parse_addr ss)
  unfolding parse_addrs
  parse_addrs-Ends [] = tt
  parse_addrs-Ends (s ∷ ss) =
      Ends-bind AnyExit (λ a. parse_addr s ≡ some a) (λ _. Unit {0})
        (or_exit (parse_addr s) invalid_address) _ (or_exit-Ends (parse_addr s) invalid_address)
        (λ a _.
          Ends-bind AnyExit (λ _. Unit {0}) (λ _. Unit {0})
            (parse_addrs parse_url to_socket_addrs parse_addr ss) _ (parse_addrs-Ends ss)
            (λ _ _. tt))

  -- Whatever an option says, it is read or the program exits.
  option-returns :
      {A B : Type 0} (o : Option A) (e : Exit) (f : A → B)
      → Ends AnyExit (λ _. Unit {0}) (or_exit o e >>= λ a. ok (f a))
  option-returns none e f = tt
  option-returns (some a) e f = tt

  parse_doh-Ends : (url : Url) → Ends AnyExit (λ _. Unit {0}) (parse_doh url)
  unfolding parse_doh
  parse_doh-Ends url =
      Ends-bind AnyExit (λ t. url.host_str ≡ some t) (λ _. Unit {0}) (or_exit url.host_str no_host)
        _ (or_exit-Ends url.host_str no_host) (λ t _. option-returns url.host no_host _)

  parse_scheme-Ends : (url : Url) → Ends AnyExit (λ _. Unit {0}) (parse_scheme url)
  unfolding parse_scheme
  parse_scheme-Ends url =
      elim (Bool-cases (
        same_bytes url.scheme (b'h' ∷ b't' ∷ b't' ∷ b'p' ∷ b's' ∷ [])
        || same_bytes url.scheme (b'h' ∷ b'3' ∷ []))) [
          | inl a ↦ rw (a, parse_scheme) (parse_doh-Ends url)
          | inr a ↦ elim (Bool-cases (same_bytes url.scheme (b't' ∷ b'l' ∷ b's' ∷ []))) [
            | inl b ↦ rw (a, b, parse_scheme) (option-returns url.host_str no_host _)
            | inr b ↦
                rw (a, b, parse_scheme)
                  (refused (same_bytes url.scheme (b'h' ∷ b't' ∷ b't' ∷ b'p' ∷ [])))
          ]
        ]
    where
      refused :
          (b : Bool)
          → Ends {A = UpstreamArg} AnyExit
              (λ _. Unit {0})
              (if b then err http_scheme else err unsupported_scheme)
      refused true = tt
      refused false = tt

  parse_upstream_arg-Ends :
      (s : Bytes) → Ends AnyExit (λ _. Unit {0}) (parse_upstream_arg parse_url to_socket_addrs s)
  unfolding parse_upstream_arg
  parse_upstream_arg-Ends s = elim (Bool-cases (is_url s)) [
    | inl e ↦
        rw (e, parse_upstream_arg)
          (Ends-bind AnyExit (λ u. parse_url s ≡ some u) (λ _. Unit {0})
            (or_exit (parse_url s) invalid_url) _ (or_exit-Ends (parse_url s) invalid_url)
            (λ url _. parse_scheme-Ends url))
    | inr e ↦
        rw (e, parse_upstream_arg)
          (Ends-bind AnyExit (λ a. to_socket_addrs s ≡ some a) (λ _. Unit {0})
            (or_exit (to_socket_addrs s) invalid_server_address) _
            (or_exit-Ends (to_socket_addrs s) invalid_server_address)
            (λ addrs _. option-returns (first_addr addrs) unresolved_server_address _))
  ]

  -- There are as many upstreams as texts.
  parse_all-Ends :
      (ss : List Bytes)
      → Ends AnyExit (λ us. length us ≡ length ss) (parse_all parse_url to_socket_addrs ss)
  unfolding parse_all
  parse_all-Ends [] = refl
  parse_all-Ends (s ∷ ss) =
      Ends-bind AnyExit (λ _. Unit {0}) (λ us. length us ≡ suc (length ss))
        (parse_upstream_arg parse_url to_socket_addrs s) _ (parse_upstream_arg-Ends s)
        (λ u _.
          Ends-bind AnyExit (λ us. length us ≡ length ss) (λ us. length us ≡ suc (length ss))
            (parse_all parse_url to_socket_addrs ss) _ (parse_all-Ends ss) (λ us h. ap suc h))

  upstreams_of-Ends :
      (values : Option (List Bytes))
      → Ends AnyExit
          (λ us. 0 < length us)
          (upstreams_of parse_url to_socket_addrs parse_addr values)
  unfolding upstreams_of
  upstreams_of-Ends values =
      Ends-bind AnyExit (λ _. Unit {0}) (λ us. 0 < length us)
        (parse_all parse_url to_socket_addrs (or_default values default_server_address)) _
        (Ends-mono AnyExit (λ us. length us ≡ length (or_default values default_server_address))
          (λ _. Unit {0}) _ (parse_all-Ends (or_default values default_server_address)) (λ _ _. tt))
        (λ us _. elim (Bool-cases (length us == 0)) [
          | inl e ↦ rw e (
              Ends-mono AnyExit (λ us. length us ≡ 1) (λ us. 0 < length us)
                (parse_all parse_url to_socket_addrs (default_server_address ∷ []))
                (parse_all-Ends (default_server_address ∷ [])) (λ us h. omega (arith, h)))
          | inr e ↦ rw e (ground (arith, e))
        ])

  local_of-Ends :
      (o : Option Bytes) (us : List UpstreamArg)
      → Ends AnyExit (λ _. Unit {0}) (local_of parse_url to_socket_addrs parse_addr o us)
  local_of-Ends none us = tt
  local_of-Ends (some s) us =
      Ends-mono AnyExit (λ a. parse_addr s ≡ some a) (λ _. Unit {0})
        (or_exit (parse_addr s) invalid_address) (or_exit-Ends (parse_addr s) invalid_address)
        (λ _ _. tt)

  -- The program exits or starts with options that make sense: there is an upstream, the path begins
  -- with `/`, and the numbers have their bits.
  pub parse_opts-Ends :
      (args : Args)
      → Ends AnyExit IsStartable (parse_opts parse_url to_socket_addrs parse_addr args)
  unfolding parse_opts
  parse_opts-Ends args =
      Ends-bind AnyExit (λ _. Unit {0}) IsStartable
        (parse_addrs parse_url to_socket_addrs parse_addr
          (or_default args.listen_address default_listen_address))
        _ (parse_addrs-Ends (or_default args.listen_address default_listen_address))
        (λ _ _.
          Ends-bind AnyExit (λ us. 0 < length us) IsStartable
            (upstreams_of parse_url to_socket_addrs parse_addr args.upstream) _
            (upstreams_of-Ends args.upstream)
            (λ us some_upstream.
              Ends-bind AnyExit (λ _. Unit {0}) IsStartable
                (local_of parse_url to_socket_addrs parse_addr args.local_bind_address us) _
                (local_of-Ends args.local_bind_address us)
                (λ _ _.
                  Ends-bind AnyExit (λ _. Unit {0}) IsStartable
                    (parse_addrs parse_url to_socket_addrs parse_addr (or_none args.bootstrap)) _
                    (parse_addrs-Ends (or_none args.bootstrap))
                    (λ _ _. with_number 64 args.max_clients _ (omega arith) (λ clients h1.
                      with_number 64 args.timeout _ (omega arith) (λ _ _.
                        with_number 32 args.max_concurrent _ (omega arith) (λ _ _.
                          with_number 32 args.min_ttl _ (omega arith) (λ least h2.
                            with_number 32 args.max_ttl _ (omega arith) (λ most h3.
                              with_number 32 args.err_ttl _ (omega arith) (λ error h4.
                                with_number 8 args.ecs_prefix_v4 _ (omega arith) (λ p4 h5.
                                  with_number 8 args.ecs_prefix_v6 _ (omega arith) (λ p6 h6.
                                    record {
                                      has_upstream = some_upstream;
                                      path = absolute-starts args.path;
                                      max_clients = h1;
                                      least_ttl = h2;
                                      most_ttl = h3;
                                      err_ttl = h4;
                                      prefix_v4 = h5;
                                      prefix_v6 = h6;
                                    }))))))))))))
    where
      with_number :
          (bits : ℕ) (s : Bytes) (next : ℕ → Outcome Exit Options)
          → 0 < 2 ^ bits
          → ((n : ℕ) → n < 2 ^ bits → Ends AnyExit IsStartable (next n))
          → Ends AnyExit IsStartable (number parse_url to_socket_addrs parse_addr bits s >>= next)
      with_number bits s next h k =
          Ends-bind AnyExit (λ n. n < 2 ^ bits) IsStartable
            (number parse_url to_socket_addrs parse_addr bits s) next (number-Ends bits s h) k
