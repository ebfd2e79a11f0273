-- ===== src/Upstream/LoadBalance/Removal.antt =====
-- What `swap_remove` leaves, by positions.
use doh_server.Prelude.{
  ℕ, zero, suc, ◌+◌, ◌-◌, ◌<◌, ◌≡◌, ◌≢◌, ◌⊎◌, inl, inr, refl, sym, ap, ◌∙◌, List, [], ◌∷◌, length,
  length-set, length-take, take, set, get_or, get_or-set_self, get_or-set_ne, All, ok, ◌==◌,
  if◌then◌else◌, arith,
}
use native.Mathlib.Decide.{ℕ_discrete}
use doh_server.Upstream.{nth}
use doh_server.Upstream.LoadBalance.{swap_remove, range_from}

nth-get_or : (l : List ℕ) (i : ℕ) → i < length l → nth l i ≡ ok (get_or l i 0)
unfolding nth
nth-get_or [] i h = absurd (omega arith)
nth-get_or (x ∷ l) zero h = refl
nth-get_or (x ∷ l) (suc i) h = nth-get_or l i (omega arith)

get_or-take : (n i : ℕ) (l : List ℕ) → i < n → get_or (take n l) i 0 ≡ get_or l i 0
get_or-take zero i l h = absurd (omega arith)
get_or-take (suc n) i [] h = refl
get_or-take (suc n) zero (x ∷ l) h = refl
get_or-take (suc n) (suc i) (x ∷ l) h = get_or-take n i l (omega arith)

-- The list without the entry at a position: the last one takes its place.
abbrev pub removed : List ℕ → ℕ → List ℕ
removed l pos = take (length l - 1) (set l pos (get_or l (length l - 1) 0))

pub swap_remove-eq :
    (l : List ℕ) (pos : ℕ) → pos < length l → swap_remove l pos ≡ ok (get_or l pos 0, removed l pos)
unfolding swap_remove
swap_remove-eq l pos h = rw (nth-get_or l pos h) refl

pub length-removed : (l : List ℕ) (pos : ℕ) → 0 < length l → length (removed l pos) + 1 ≡ length l
length-removed l pos h = omega (
  arith,
  length-take (length l - 1) (set l pos (get_or l (length l - 1) 0)),
  length-set l pos (get_or l (length l - 1) 0),
)

-- Where an entry of the rest stood before.
abbrev pub source : List ℕ → ℕ → ℕ → ℕ
source l pos q = if q == pos then length l - 1 else q

pub get_or-removed :
    (l : List ℕ) (pos q : ℕ)
    → pos < length l
    → q < length l - 1
    → get_or (removed l pos) q 0 ≡ get_or l (source l pos q) 0
get_or-removed l pos q h k = elim (ℕ_discrete q pos) [
  | yes p ↦ ground (
    arith,
    get_or-take (length l - 1) q (set l pos (get_or l (length l - 1) 0)) k,
    get_or-set_self l pos (get_or l (length l - 1) 0) 0 h,
  )
  | no p ↦ ground (
    arith,
    get_or-take (length l - 1) q (set l pos (get_or l (length l - 1) 0)) k,
    get_or-set_ne l pos q (get_or l (length l - 1) 0) 0 (λ e. p (sym e)),
  )
]

-- The value stands somewhere in the list.
abbrev pub Stands : List ℕ → ℕ → Type 0
Stands l i = (q : ℕ) × (q < length l) × (get_or l q 0 ≡ i)

-- No value stands at two positions.
abbrev pub Apart : List ℕ → Type 0
Apart l = (p q : ℕ) → p < length l → q < length l → get_or l p 0 ≡ get_or l q 0 → p ≡ q

-- Every value is the one that is taken out, or stands in the rest.
pub Stands-removed :
    (l : List ℕ) (pos i : ℕ)
    → pos < length l
    → Stands l i
    → Stands (removed l pos) i ⊎ (i ≡ get_or l pos 0)
Stands-removed l pos i h (q, k, e) = elim (ℕ_discrete q pos) [
  | yes p ↦ inr (ground (arith, e))
  | no p ↦ elim (ℕ_discrete q (length l - 1)) [
    | yes last ↦ inl (
      pos,
      omega (arith, length-removed l pos (omega arith)),
      ground (arith, get_or-removed l pos pos h (omega arith), e),
    )
    | no inner ↦ inl (
      q,
      omega (arith, length-removed l pos (omega arith)),
      ground (arith, get_or-removed l pos q h (omega arith), e),
    )
  ]
]

pub removed-Apart : (l : List ℕ) (pos : ℕ) → pos < length l → Apart l → Apart (removed l pos)
removed-Apart l pos h a p q hp hq e =
    let n = length-removed l pos (omega arith) in
    let x = get_or-removed l pos p h (omega arith) in
    let y = get_or-removed l pos q h (omega arith) in
    let z = a (source l pos p) (source l pos q) (ground arith) (ground arith) (sym x ∙ e ∙ y) in
    ground arith

-- The value that is taken out stands nowhere in the rest.
pub removed-ne :
    (l : List ℕ) (pos q : ℕ)
    → pos < length l
    → Apart l
    → q < length (removed l pos)
    → get_or l pos 0 ≢ get_or (removed l pos) q 0
removed-ne l pos q h a k e =
    let n = length-removed l pos (omega arith) in
    let x = get_or-removed l pos q h (omega arith) in
    let z = a pos (source l pos q) h (ground arith) (e ∙ x) in ground arith

pub length-range_from : (k n : ℕ) → length (range_from k n) ≡ n
unfolding range_from
length-range_from k zero = refl
length-range_from k (suc n) = ap suc (length-range_from (suc k) n)

pub get_or-range_from : (k n q : ℕ) → q < n → get_or (range_from k n) q 0 ≡ k + q
unfolding range_from
get_or-range_from k zero q h = absurd (omega arith)
get_or-range_from k (suc n) zero h = omega arith
get_or-range_from k (suc n) (suc q) h = omega (arith, get_or-range_from (suc k) n q (omega arith))

pub All-positions :
    (n : ℕ) (l : List ℕ) → ((q : ℕ) → q < length l → get_or l q 0 < n) → All (λ i. i < n) l
All-positions n [] h = tt
All-positions n (x ∷ l) h = (h 0 (omega arith), All-positions n l (λ q k. h (suc q) (omega arith)))
