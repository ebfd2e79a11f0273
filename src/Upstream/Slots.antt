-- ===== src/Upstream/Slots.antt =====
-- The table with a slot for each upstream, and reads of the list of upstreams.
use doh_server.Prelude.{
  ℕ, zero, suc, ◌+◌, ◌≤◌, ◌<◌, ◌≡◌, ◌≢◌, refl, ap, true, List, [], ◌∷◌, Option, none, some, length,
  set, get_or, replicate, All, ok, arith,
}
use doh_server.Bytes.{Bytes}
use doh_server.Msg.Codec.{unpack}
use doh_server.Msg.Rewrite.{validate_packet}
use doh_server.Upstream.{
  Reply, got, failed, ExchangeOutcome, checked, validate_exchange_packet, Upstream,
  UpstreamStatistics, dns, somes, nth, write,
}

-- No upstream stands twice.
abbrev pub NoRepeat : List ℕ → Type 0
NoRepeat [] = Unit
NoRepeat (i ∷ order) = All (λ j. i ≢ j) order × NoRepeat order

abbrev pub upstream_at : List Upstream → ℕ → Upstream
upstream_at upstreams i = get_or upstreams i (dns [])

pub nth-eq :
    (upstreams : List Upstream) (i : ℕ)
    → i < length upstreams
    → nth upstreams i ≡ ok (upstream_at upstreams i)
unfolding nth
nth-eq [] i h = absurd (omega arith)
nth-eq (u ∷ us) zero h = refl
nth-eq (u ∷ us) (suc i) h = nth-eq us i (omega arith)

-- An attempt that failed, in a slot that is filled.
abbrev pub IsFailure : UpstreamStatistics → Type 0
IsFailure s = (text : Bytes) × (s.error ≡ some text)

abbrev pub IsFailureOr : Option UpstreamStatistics → Type 0
IsFailureOr none = Unit
IsFailureOr (some s) = IsFailure s

abbrev pub IsFree : List (Option UpstreamStatistics) → ℕ → Type 0
IsFree slots i = get_or slots i none ≡ none

pub somes-IsFailure :
    (slots : List (Option UpstreamStatistics)) → All IsFailureOr slots → All IsFailure (somes slots)
somes-IsFailure [] h = tt
somes-IsFailure (none ∷ slots) h = somes-IsFailure slots h.1
somes-IsFailure (some s ∷ slots) h = (h.0, somes-IsFailure slots h.1)

pub set-IsFailureOr :
    (slots : List (Option UpstreamStatistics)) (i : ℕ) (s : UpstreamStatistics)
    → All IsFailureOr slots
    → IsFailure s
    → All IsFailureOr (set slots i (some s))
set-IsFailureOr [] i s h f = tt
set-IsFailureOr (x ∷ slots) zero s h f = (f, h.1)
set-IsFailureOr (x ∷ slots) (suc i) s h f = (h.0, set-IsFailureOr slots i s h.1 f)

-- A slot that was free counts once it is filled.
pub length-somes-set :
    (slots : List (Option UpstreamStatistics)) (i : ℕ) (s : UpstreamStatistics)
    → i < length slots
    → IsFree slots i
    → length (somes (set slots i (some s))) ≡ length (somes slots) + 1
length-somes-set [] i s h f = absurd (omega arith)
length-somes-set (none ∷ slots) zero s h f = omega arith
length-somes-set (some x ∷ slots) zero s h f = absurd (cc)
length-somes-set (none ∷ slots) (suc i) s h f = length-somes-set slots i s (omega arith) f
length-somes-set (some x ∷ slots) (suc i) s h f =
    omega (arith, length-somes-set slots i s (omega arith) f)

pub get_or-set_other :
    (slots : List (Option UpstreamStatistics)) (i j : ℕ) (s : UpstreamStatistics)
    → i ≢ j
    → IsFree slots j
    → IsFree (set slots i (some s)) j
get_or-set_other [] i j s d f = f
get_or-set_other (x ∷ slots) zero zero s d f = absurd (d refl)
get_or-set_other (x ∷ slots) zero (suc j) s d f = f
get_or-set_other (x ∷ slots) (suc i) zero s d f = f
get_or-set_other (x ∷ slots) (suc i) (suc j) s d f =
    get_or-set_other slots i j s (λ e. d (ap suc e)) f

pub set-IsFree :
    (slots : List (Option UpstreamStatistics)) (i : ℕ) (s : UpstreamStatistics) (order : List ℕ)
    → All (λ j. i ≢ j) order
    → All (IsFree slots) order
    → All (IsFree (set slots i (some s))) order
set-IsFree slots i s [] d f = tt
set-IsFree slots i s (j ∷ order) d f =
    (get_or-set_other slots i j s d.0 f.0, set-IsFree slots i s order d.1 f.1)

-- The table at the start: a free slot for each upstream.
pub replicate-IsFree : (n i : ℕ) → IsFree (replicate n none) i
replicate-IsFree zero i = refl
replicate-IsFree (suc n) zero = refl
replicate-IsFree (suc n) (suc i) = replicate-IsFree n i

pub All-IsFree : (n : ℕ) (order : List ℕ) → All (IsFree (replicate n none)) order
All-IsFree n [] = tt
All-IsFree n (i ∷ order) = (replicate-IsFree n i, All-IsFree n order)

pub replicate-IsFailureOr : (n : ℕ) → All IsFailureOr (replicate n none)
replicate-IsFailureOr zero = tt
replicate-IsFailureOr (suc n) = (tt, replicate-IsFailureOr n)

pub length-somes-replicate :
    (n : ℕ) → length (somes {A = UpstreamStatistics} (replicate n none)) ≡ 0
length-somes-replicate zero = refl
length-somes-replicate (suc n) = length-somes-replicate n

pub write-eq :
    (slots : List (Option UpstreamStatistics)) (i : ℕ) (s : Option UpstreamStatistics)
    → i < length slots
    → write slots i s ≡ ok (set slots i s)
write-eq slots i s h = ground arith

unpack-length : (p : Bytes) → validate_packet p ≡ true → 12 ≤ length p
unfolding validate_packet unpack
unpack-length p h = ground arith

module _ {X : Type 0} where
  -- The client gets a DNS message, or at least a packet with a header.
  abbrev pub Replied : ExchangeOutcome X → Type 0
  Replied o = (q : Bytes) × (o.packet ≡ got q) × (12 ≤ length q)

  pub checked-length : (r : Reply X) (p : Bytes) → checked r ≡ got p → 12 ≤ length p
  unfolding checked validate_exchange_packet
  checked-length (failed e) p h = cc
  checked-length (got q) p h = ground (arith, unpack-length q)
