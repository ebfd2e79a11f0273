-- ===== src/Doh/Retries.antt =====
-- The attempts of a request over HTTP/2 or HTTP/3, and the way back from HTTP/3 to HTTP/2.
use doh_server.Prelude.{
  ℕ, zero, suc, ◌+◌, ◌≤◌, ◌<◌, ◌≡◌, refl, sym, ap, subst, ◌⊎◌, inl, inr, Bool, true, false, ◌&&◌,
  Option, none, some, Bool-cases, ◌==◌, if◌then◌else◌, arith,
}
use doh_server.Bytes.{Bytes}
use doh_server.Backoff.{clear_h3_failures}
use doh_server.Doh.{
  Cells, Tried, packet, failure, Once, World, with_retries, doh_post_h2_with_retries,
  doh_post_h3_with_retries, note_failure, over_h3, attempt, choose_protocol,
  maybe_reset_doh_h2_client, on_timeout, reply_of, proxy_doh,
}
use doh_server.Errors.{upstream_timeout}
use doh_server.Upstream.{Reply, got, failed}

module _ {X : Type 0} where
  -- A result that the loop does not go on from: a packet, or a failure that cannot be retried or
  -- that comes of a new client.
  abbrev pub Stops : Bool → Tried X → Type 0
  Stops had (packet p) = Unit
  Stops had (failure f) = (had && f.retryable) ≡ false

  -- The result is that of the attempt `m` of those from `n` on, with `left` more behind it.
  pub record IsAttempt (had : Bool) (once : Once X) (left n : ℕ) (t : Tried X) : Type 0 where
    pub number : ℕ
    pub cells : Cells
    pub from : n ≤ number
    pub upto : number ≤ n + left
    pub same : (once number cells).1.1 ≡ t
    pub last : (number ≡ n + left) ⊎ Stops had t
    pub once_only : (had ≡ true) ⊎ (number ≡ n)

  -- Behind one attempt more, which was gone on from.
  IsAttempt-suc :
      (had : Bool) (once : Once X) (left n : ℕ) (t : Tried X)
      → had ≡ true
      → IsAttempt had once left (n + 1) t
      → IsAttempt had once (suc left) n t
  IsAttempt-suc had once left n t h a = record {
    number = a.number;
    cells = a.cells;
    from = omega (arith, a.from);
    upto = omega (arith, a.upto);
    same = a.same;
    last = elim a.last [ inl e ↦ inl (omega (arith, e)) | inr s ↦ inr s ];
    once_only = inl h;
  }

  -- The loop makes at most the attempts that are left, and only one where there was no client
  -- before. Its result is that of its last attempt: the last one allowed, or a packet, or a failure
  -- that is not to be retried.
  pub with_retries_lem :
      (reset : ℕ → Cells → Cells) (had : Bool) (once : Once X) (left n : ℕ) (cells : Cells)
      → IsAttempt had once left n (with_retries reset had once left n cells).1
  unfolding with_retries
  with_retries_lem reset had once zero n cells =
      by_tried (once n cells).0 (once n cells).1.0 (once n cells).1.1 refl
    where
      by_tried :
          (c : Cells) (now : ℕ) (t : Tried X)
          → (once n cells).1.1 ≡ t
          → IsAttempt had once zero n
              (elim t as (λ _. Cells × Tried X) [
                | packet p ↦ (c, packet p)
                | failure f ↦ (if f.retryable then reset now c else c, failure f)
              ]).1
      by_tried c now (packet p) e = record {
        number = n;
        cells = cells;
        from = omega arith;
        upto = omega arith;
        same = e;
        last = inr tt;
        once_only = inr refl;
      }
      by_tried c now (failure f) e = record {
        number = n;
        cells = cells;
        from = omega arith;
        upto = omega arith;
        same = e;
        last = inl (omega arith);
        once_only = inr refl;
      }
  with_retries_lem reset had once (suc left) n cells =
      by_tried (once n cells).0 (once n cells).1.0 (once n cells).1.1 refl
        (λ c. with_retries_lem reset had once left (n + 1) c)
    where
      by_tried :
          (c : Cells) (now : ℕ) (t : Tried X)
          → (once n cells).1.1 ≡ t
          → ((d : Cells)
              → IsAttempt had once left (n + 1) (with_retries reset had once left (n + 1) d).1)
          → IsAttempt had once
              (suc left)
              n
              (elim t as (λ _. Cells × Tried X) [
                | packet p ↦ (c, packet p)
                | failure f ↦ elim (had && f.retryable) [
                  | true ↦ with_retries reset had once left (n + 1) (reset now c)
                  | false ↦ (if f.retryable then reset now c else c, failure f)
                ]
              ]).1
      by_tried c now (packet p) e ih = record {
        number = n;
        cells = cells;
        from = omega arith;
        upto = omega arith;
        same = e;
        last = inr tt;
        once_only = inr refl;
      }
      by_tried c now (failure f) e ih = elim (Bool-cases (had && f.retryable)) [
        | inl g ↦ rw g (
            IsAttempt-suc had once left n (with_retries reset had once left (n + 1) (reset now c)).1
              (ground (arith, g)) (ih (reset now c)))
        | inr g ↦ rw g (record {
          number = n;
          cells = cells;
          from = omega arith;
          upto = omega arith;
          same = e;
          last = inr g;
          once_only = inr refl;
        })
      ]

  -- An attempt gives a packet, or it is one of the first two, there was a client before, and its
  -- failure can be retried.
  abbrev pub MayGoOn : ℕ → Bool → Tried X → Type 0
  MayGoOn n had (packet p) = Unit
  MayGoOn n had (failure f) = (f.retryable ≡ true) × (had ≡ true) × (n < 2)

  -- The attempts over HTTP/2, as the network makes them: the first one with the client of the cells,
  -- if there is one, and those behind it.
  pub record H2Answers (world : World X) : Type 0 where
    pub first : (c : Cells) → MayGoOn 0 c.h2_client (world.h2_once 0 c).1.1
    pub further : (n : ℕ) (c : Cells) → MayGoOn n true (world.h2_once n c).1.1

  with_retries-answers :
      (reset : ℕ → Cells → Cells) (had : Bool) (once : Once X) (left n : ℕ) (cells : Cells)
      → n + left ≡ 2
      → MayGoOn n had (once n cells).1.1
      → ((m : ℕ) (c : Cells) → MayGoOn m true (once m c).1.1)
      → (p : Bytes) × ((with_retries reset had once left n cells).1 ≡ packet p)
  unfolding with_retries
  with_retries-answers reset had once zero n cells e k h =
      by_tried (once n cells).0 (once n cells).1.0 (once n cells).1.1 k
    where
      by_tried :
          (c : Cells) (now : ℕ) (t : Tried X)
          → MayGoOn n had t
          → (p : Bytes) × ((elim t as (λ _. Cells × Tried X) [
            | packet p ↦ (c, packet p)
            | failure f ↦ (if f.retryable then reset now c else c, failure f)
          ]).1
              ≡ packet p)
      by_tried c now (packet p) k = (p, refl)
      by_tried c now (failure f) k = absurd (omega (arith, e, k.2))
  with_retries-answers reset had once (suc left) n cells e k h =
      by_tried (once n cells).0 (once n cells).1.0 (once n cells).1.1 k (λ d.
        with_retries-answers reset true once left (n + 1) d (omega (arith, e)) (h (n + 1) d) h)
    where
      by_tried :
          (c : Cells) (now : ℕ) (t : Tried X)
          → MayGoOn n had t
          → ((d : Cells)
              → (p : Bytes) × ((with_retries reset true once left (n + 1) d).1 ≡ packet p))
          → (p : Bytes) × ((elim t as (λ _. Cells × Tried X) [
            | packet p ↦ (c, packet p)
            | failure f ↦ elim (had && f.retryable) [
              | true ↦ with_retries reset had once left (n + 1) (reset now c)
              | false ↦ (if f.retryable then reset now c else c, failure f)
            ]
          ]).1
              ≡ packet p)
      by_tried c now (packet p) k ih = (p, refl)
      by_tried c now (failure f) k ih =
          let both : (had && f.retryable) ≡ true = ground (arith, k) in
          rw both (
            subst
              (λ (b : Bool).
                (p : Bytes) × ((with_retries reset b once left (n + 1) (reset now c)).1 ≡ packet p))
              (sym k.1) (ih (reset now c)))

  h2-answers :
      (world : World X) (cells : Cells)
      → H2Answers world
      → (p : Bytes) × ((doh_post_h2_with_retries world.h2_once cells).1 ≡ packet p)
  unfolding doh_post_h2_with_retries
  h2-answers world cells h =
      with_retries-answers maybe_reset_doh_h2_client cells.h2_client world.h2_once 2 0 cells refl
        (h.first cells) h.further

  over_h3-answers :
      (world : World X) (cells : Cells)
      → H2Answers world
      → (p : Bytes) × ((over_h3 world cells).1 ≡ packet p)
  unfolding over_h3
  over_h3-answers world cells h =
      by_tried (doh_post_h3_with_retries world.h3_once cells).0
        (doh_post_h3_with_retries world.h3_once cells).1
    where
      by_tried :
          (c : Cells) (t : Tried X)
          → (p : Bytes) × ((elim t as (λ _. Cells × Tried X) [
            | packet p ↦ (record c { h3 = clear_h3_failures c.h3 }, packet p)
            | failure f ↦ doh_post_h2_with_retries world.h2_once (note_failure world.fail_at f c)
          ]).1
              ≡ packet p)
      by_tried c (packet p) = (p, refl)
      by_tried c (failure f) = h2-answers world (note_failure world.fail_at f c) h

  attempt-answers :
      (world : World X) (cells : Cells)
      → H2Answers world
      → (p : Bytes) × ((attempt false world cells).1 ≡ packet p)
  unfolding attempt
  attempt-answers world cells h =
      let chosen = choose_protocol world cells in
      elim (Bool-cases (chosen.1 == 2)) [
        | inl e ↦ rw (e, attempt) (over_h3-answers world chosen.0 h)
        | inr e ↦ rw (e, attempt) (h2-answers world chosen.0 h)
      ]

  -- A request to an upstream that has HTTP/2 and HTTP/3 is answered whatever HTTP/3 gives, unless the
  -- time ran out, which is the error `UpstreamTimeout` and only happens with a limit on the time.
  -- Of the network it is assumed that an attempt over HTTP/2 gives a packet, unless it is one of
  -- the first two over a client that was there before and fails in a way that can be retried.
  pub proxy_doh-answers :
      (timeout : ℕ) (cut : Option (Cells × ℕ)) (world : World X) (cells : Cells)
      → H2Answers world
      → ((p : Bytes) × ((proxy_doh false timeout cut world cells).1 ≡ got p))
        ⊎ (((timeout == 0) ≡ false)
            × (r : Cells × ℕ) × (cut ≡ some r)
            × ((proxy_doh false timeout cut world cells).1 ≡ failed upstream_timeout))
  unfolding proxy_doh
  proxy_doh-answers timeout cut world cells h = by_limit (timeout == 0) cut
    where
      answered : (p : Bytes) × (reply_of (attempt false world cells).1 ≡ got p)
      answered = let (p, e) = attempt-answers world cells h in (p, ap reply_of e)

      reply : Bool → Option (Cells × ℕ) → Cells × Reply X
      reply b o = elim b [
        | true ↦ ((attempt false world cells).0, reply_of (attempt false world cells).1)
        | false ↦ elim o [
          | none ↦ ((attempt false world cells).0, reply_of (attempt false world cells).1)
          | some (cut_cells, now) ↦ (on_timeout false now cut_cells, failed upstream_timeout)
        ]
      ]

      by_limit :
          (b : Bool) (o : Option (Cells × ℕ))
          → ((p : Bytes) × ((reply b o).1 ≡ got p))
            ⊎ ((b ≡ false)
                × (r : Cells × ℕ) × (o ≡ some r)
                × ((reply b o).1 ≡ failed upstream_timeout))
      by_limit true o = inl answered
      by_limit false none = inl answered
      by_limit false (some r) = inr (refl, r, refl, refl)
