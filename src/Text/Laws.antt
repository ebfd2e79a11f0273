-- ===== src/Text/Laws.antt =====
-- What the parts of a text have to do with it.
use doh_server.Prelude.{ℕ, ◌≡◌, refl, true, false, List, [], ◌∷◌, ◌++◌, All, ◌==◌, arith}
use doh_server.Bytes.{Bytes}
use doh_server.Text.{split, before}

-- The character does not stand in the text.
abbrev pub Lacks : ℕ → Bytes → Type 0
Lacks c s = All (λ b. (b == c) ≡ false) s

-- Texts with the character between them.
unfoldable pub join : ℕ → List Bytes → Bytes
join c [] = []
join c (t ∷ []) = t
join c (t ∷ u ∷ ts) = t ++ c ∷ join c (u ∷ ts)

==_self : (c : ℕ) → (c == c) ≡ true
==_self c = ground arith

pub split-Lacks : (c : ℕ) (s : Bytes) → Lacks c s → split c s ≡ s ∷ []
unfolding split
split-Lacks c [] h = refl
split-Lacks c (b ∷ s) h = rw (h.0, split-Lacks c s h.1) refl

pub before-Lacks : (c : ℕ) (s : Bytes) → Lacks c s → before c s ≡ s
unfolding before
before-Lacks c [] h = refl
before-Lacks c (b ∷ s) h = rw (h.0, before-Lacks c s h.1) refl

pub before-append : (c : ℕ) (s t : Bytes) → Lacks c s → before c (s ++ c ∷ t) ≡ s
unfolding before
before-append c [] t h = rw (==_self c) refl
before-append c (b ∷ s) t h = rw (h.0, before-append c s t h.1) refl

pub split-append : (c : ℕ) (s t : Bytes) → Lacks c s → split c (s ++ c ∷ t) ≡ s ∷ split c t
unfolding split
split-append c [] t h = rw (==_self c) refl
split-append c (b ∷ s) t h = rw (h.0, split-append c s t h.1) refl

pub split-join :
    (c : ℕ) (t : Bytes) (ts : List Bytes)
    → All (Lacks c) (t ∷ ts)
    → split c (join c (t ∷ ts)) ≡ t ∷ ts
unfolding join
split-join c t [] h = split-Lacks c t h.0
split-join c t (u ∷ ts) h = rw (split-append c t (join c (u ∷ ts)) h.0, split-join c u ts h.1) refl
