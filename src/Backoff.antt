-- ===== src/Backoff.antt =====
-- src/libdoh/src/lib.rs, what an upstream's connection keeps between requests: the failures of
-- HTTP/3 with the time until which it is left alone, and the rate of new clients. The cells are
-- atomics that are read and written one by one; a run here has one task, and the clock is an
-- argument.
use doh_server.Prelude.{
  ℕ, ◌+◌, ◌-◌, ◌*◌, ◌%◌, ◌^◌, ◌≤◌, ◌<◌, ◌≡◌, ◌⊎◌, Bool, true, false, not, ◌&&◌, ◌||◌, List, [], ◌∷◌,
  ltb, leb, ◌==◌, if◌then◌else◌, min, arith,
}

abbrev pub doh_min_rebuild_interval_ms : ℕ
doh_min_rebuild_interval_ms = 1000

abbrev pub h3_failure_threshold : ℕ
h3_failure_threshold = 3

abbrev pub h3_failure_window_secs : ℕ
h3_failure_window_secs = 60

abbrev pub h3_backoff_secs : ℕ
h3_backoff_secs = 30

-- The cells of `DohUpstream`.
pub record H3State : Type 0 where
  pub h3_failures : ℕ
  pub h3_last_failure_ms : ℕ
  pub h3_backoff_until_ms : ℕ

-- `u64::saturating_add`
abbrev pub saturating_add : ℕ → ℕ → ℕ
saturating_add a b = min (a + b) (2 ^ 64 - 1)

unfoldable pub h3_backoff_active : H3State → ℕ → Bool
h3_backoff_active s now = ltb now s.h3_backoff_until_ms

unfoldable pub clear_h3_failures : H3State → H3State
clear_h3_failures s = record { h3_failures = 0; h3_last_failure_ms = 0; h3_backoff_until_ms = 0 }

unfoldable pub reset_h3_failure_counter : H3State → H3State
reset_h3_failure_counter s = record s { h3_failures = 0; h3_last_failure_ms = 0 }

-- `h3_failures` after the first `store` or the `fetch_add`, which wraps around.
unfoldable pub count_failure : H3State → ℕ → ℕ
count_failure s now =
    if s.h3_last_failure_ms == 0 || ltb (h3_failure_window_secs * 1000) (now - s.h3_last_failure_ms)
    then 1
    else (s.h3_failures + 1) % 2 ^ 32

unfoldable pub record_h3_failure : H3State → ℕ → H3State × Bool
record_h3_failure s now =
    let count = count_failure s now in
    if leb h3_failure_threshold count
    then (
      record {
        h3_failures = 0;
        h3_last_failure_ms = now;
        h3_backoff_until_ms = saturating_add now (h3_backoff_secs * 1000);
      },
      true,
    )
    else (record s { h3_failures = count; h3_last_failure_ms = now }, false)

-- The cell `last_rebuild_ms` behind the call, with the result. The `compare_exchange` of the one
-- task succeeds at once.
unfoldable pub can_rebuild : ℕ → ℕ → ℕ × Bool
can_rebuild prev now =
    if not (prev == 0) && ltb (now - prev) doh_min_rebuild_interval_ms
    then (prev, false)
    else (now, true)

-- What the requests of an upstream do to its cells.
pub data Event : Type 0 where
  failed_at : ℕ → Event
  cleared reset : Event

unfoldable pub after : H3State → Event → H3State
after s (failed_at now) = (record_h3_failure s now).0
after s cleared = clear_h3_failures s
after s reset = reset_h3_failure_counter s

unfoldable pub run : H3State → List Event → H3State
run s [] = s
run s (e ∷ es) = run (after s e) es

abbrev pub fresh : H3State
fresh = record { h3_failures = 0; h3_last_failure_ms = 0; h3_backoff_until_ms = 0 }

-- The number of failures is below the threshold.
abbrev pub IsBelow : H3State → Type 0
IsBelow s = s.h3_failures < h3_failure_threshold

pub after-IsBelow : (s : H3State) (e : Event) → IsBelow s → IsBelow (after s e)
unfolding after record_h3_failure count_failure clear_h3_failures reset_h3_failure_counter
after-IsBelow s (failed_at now) h = ground arith
after-IsBelow s cleared h = omega arith
after-IsBelow s reset h = omega arith

-- From a count below the threshold on, whatever the requests of an upstream did, its count of failures is below the threshold.
pub run-IsBelow : (s : H3State) (es : List Event) → IsBelow s → IsBelow (run s es)
unfolding run
run-IsBelow s [] h = h
run-IsBelow s (e ∷ es) h = run-IsBelow (after s e) es (after-IsBelow s e h)

-- The failure at `now` is within a minute of the one before.
abbrev pub IsSoon : H3State → ℕ → Type 0
IsSoon s now = (0 < s.h3_last_failure_ms) × (now ≤ s.h3_last_failure_ms + 60000)

-- The failure at `now` starts a new row of failures.
abbrev pub IsFirst : H3State → ℕ → Type 0
IsFirst s now = (s.h3_last_failure_ms ≡ 0) ⊎ (s.h3_last_failure_ms + 60000 < now)

-- Where the count of failures is below the threshold and the clock below the greatest number of 64
-- bits less 30 seconds, a failure sets HTTP/3 aside exactly where it is the third one, each within
-- a minute of the one before; then HTTP/3 stays set aside for the next 30 seconds and no longer,
-- and the count starts again.
pub record_h3_failure_lem :
    (s : H3State) (now later : ℕ)
    → IsBelow s
    → now + 30000 < 2 ^ 64
    → let r = record_h3_failure s now in
      ((r.1 ≡ true)
        × (s.h3_failures ≡ 2)
        × IsSoon s now
        × (r.0.h3_failures ≡ 0)
        × (h3_backoff_active r.0 later ≡ ltb later (now + 30000)))
      ⊎ ((r.1 ≡ false)
          × (h3_backoff_active r.0 later ≡ h3_backoff_active s later)
          × ((IsFirst s now × (r.0.h3_failures ≡ 1))
              ⊎ (IsSoon s now × (r.0.h3_failures ≡ s.h3_failures + 1) × IsBelow r.0)))
unfolding record_h3_failure count_failure h3_backoff_active
record_h3_failure_lem s now later b h = ground arith

-- Two rebuilds that are let through one behind the other, the first not at time 0, are at least a second apart.
pub can_rebuild_lem :
    (prev first second : ℕ)
    → (can_rebuild prev first).1 ≡ true
    → (can_rebuild (can_rebuild prev first).0 second).1 ≡ true
    → 0 < first
    → first + 1000 ≤ second
unfolding can_rebuild
can_rebuild_lem prev first second h k z = ground arith
