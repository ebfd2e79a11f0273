-- ===== src/HashMap.antt =====
-- `std::collections::HashMap`, as a list of keys with their values: the calls that the program makes
-- of it, with what each does to a lookup.
use doh_server.Prelude.{◌+◌, ◌≡◌, refl, List, [], ◌∷◌, Option, none, some, length, arith}
use mathlib.Core.Logic.{ite}
use mathlib.Core.Option

module _ {K : Type 0} {V : Type 0} (dec : Discrete K) where
  -- `get(&key).copied()`
  unfoldable pub find : List (K × V) → K → Option V
  find [] key = none
  find ((k, v) ∷ m) key = ite (dec key k) (some v) (find m key)

  -- `if let Some(v) = get_mut(&key) { *v = f(*v) }`
  unfoldable pub modify : List (K × V) → K → (V → V) → List (K × V)
  modify [] key f = []
  modify ((k, v) ∷ m) key f = ite (dec key k) ((k, f v) ∷ m) ((k, v) ∷ modify m key f)

  -- `insert(key, v)`
  unfoldable pub insert : List (K × V) → K → V → List (K × V)
  insert [] key v = (key, v) ∷ []
  insert ((k, w) ∷ m) key v = ite (dec key k) ((k, v) ∷ m) ((k, w) ∷ insert m key v)

  -- `remove(&key)`
  unfoldable pub erase : List (K × V) → K → List (K × V)
  erase [] key = []
  erase ((k, v) ∷ m) key = ite (dec key k) (erase m key) ((k, v) ∷ erase m key)

  -- No key stands twice.
  abbrev pub IsMap : List (K × V) → Type 0
  IsMap [] = Unit
  IsMap ((k, v) ∷ m) = (find m k ≡ none) × IsMap m

  pub find-modify :
      (m : List (K × V)) (key : K) (f : V → V) (j : K)
      → find (modify m key f) j ≡ ite (dec j key) (Option.map f (find m j)) (find m j)
  unfolding find modify
  find-modify [] key f j = ground arith
  find-modify ((k, v) ∷ m) key f j = ground (arith, find-modify m key f j)

  pub find-insert :
      (m : List (K × V)) (key : K) (v : V) (j : K)
      → find (insert m key v) j ≡ ite (dec j key) (some v) (find m j)
  unfolding find insert
  find-insert [] key v j = refl
  find-insert ((k, w) ∷ m) key v j = ground (arith, find-insert m key v j)

  pub find-erase :
      (m : List (K × V)) (key j : K) → find (erase m key) j ≡ ite (dec j key) none (find m j)
  unfolding find erase
  find-erase [] key j = ground arith
  find-erase ((k, w) ∷ m) key j = ground (arith, find-erase m key j)

  pub length-modify : (m : List (K × V)) (key : K) (f : V → V) → length (modify m key f) ≡ length m
  unfolding modify
  length-modify [] key f = refl
  length-modify ((k, v) ∷ m) key f = ground (arith, length-modify m key f)

  pub length-insert :
      (m : List (K × V)) (key : K) (v : V)
      → find m key ≡ none
      → length (insert m key v) ≡ length m + 1
  unfolding find insert
  length-insert [] key v h = omega arith
  length-insert ((k, w) ∷ m) key v h = ground (arith, length-insert m key v)

  erase_absent : (m : List (K × V)) (key : K) → find m key ≡ none → erase m key ≡ m
  unfolding find erase
  erase_absent [] key h = refl
  erase_absent ((k, v) ∷ m) key h = ground (arith, erase_absent m key)

  pub length-erase :
      (m : List (K × V)) (key : K) (v : V)
      → IsMap m
      → find m key ≡ some v
      → length (erase m key) + 1 ≡ length m
  unfolding find erase
  length-erase [] key v u h = cc
  length-erase ((k, w) ∷ m) key v u h = ground (arith, length-erase m key v, erase_absent m key)

  pub modify-IsMap : (m : List (K × V)) (key : K) (f : V → V) → IsMap m → IsMap (modify m key f)
  unfolding modify
  modify-IsMap [] key f u = tt
  modify-IsMap ((k, v) ∷ m) key f u = ground (arith, modify-IsMap m key f, find-modify m key f k)

  pub insert-IsMap : (m : List (K × V)) (key : K) (v : V) → IsMap m → IsMap (insert m key v)
  unfolding insert find
  insert-IsMap [] key v u = (refl, tt)
  insert-IsMap ((k, w) ∷ m) key v u = ground (arith, insert-IsMap m key v, find-insert m key v k)

  pub erase-IsMap : (m : List (K × V)) (key : K) → IsMap m → IsMap (erase m key)
  unfolding erase
  erase-IsMap [] key u = tt
  erase-IsMap ((k, v) ∷ m) key u = ground (arith, erase-IsMap m key, find-erase m key k)
