-- ===== src/Prelude/Sort.antt =====
-- `sorted(…, key=…)` and `ORDER BY` on a number: insertion sort by a key, stable.
use Prim.Native.Nat.{ℕ, ◌<◌}
use mathlib.Core.List.{List, [], ◌∷◌}
use mathlib.Core.Path.{◌≡◌, refl}
use mathlib.Core.Bool.{Bool}
use mathlib.Core.Option.{Option, none, some}
use native.Mathlib.Omega.{arith}
use clustertalk_githubaction.Prelude.Tests.{leb, nat_beq, if◌then◌else◌}
use clustertalk_githubaction.Prelude.Lists.{All}

module _ {ℓ} {A : Type ℓ} where
  unfoldable pub filter : (A → Bool) → List A → List A
  filter keep [] = []
  filter keep (x ∷ xs) = let rest = filter keep xs in if keep x then x ∷ rest else rest

module _ {ℓ} {A : Type ℓ} (key : A → ℕ) where
  unfoldable pub insert_by : A → List A → List A
  insert_by m [] = m ∷ []
  insert_by m (x ∷ xs) = if leb (key m) (key x) then m ∷ x ∷ xs else x ∷ insert_by m xs

  unfoldable pub sort_by : List A → List A
  unfolding insert_by
  sort_by [] = []
  sort_by (m ∷ ms) = insert_by m (sort_by ms)

  -- The first element with a key.
  abbrev pub find : ℕ → List A → Option A
  find n [] = none
  find n (m ∷ ms) = if nat_beq (key m) n then some m else find n ms

  -- Keys strictly ascending.
  abbrev pub IsAscending : List A → Type 0
  IsAscending [] = Unit
  IsAscending (m ∷ ms) = All (λ x. key m < key x) ms × IsAscending ms

  -- No key twice.
  abbrev pub IsUnique : List A → Type ℓ
  IsUnique [] = Unit
  IsUnique (m ∷ ms) = (find (key m) ms ≡ none) × IsUnique ms

  find-insert :
      (n : ℕ) (m : A) (ms : List A)
      → find n (insert_by m ms) ≡ (if nat_beq (key m) n then some m else find n ms)
  unfolding insert_by
  find-insert n m [] = refl
  find-insert n m (x ∷ ms) = ground (arith, find-insert n m ms)

  -- Sorting loses nothing and adds nothing.
  pub find-sort_by : (n : ℕ) (ms : List A) → find n (sort_by ms) ≡ find n ms
  unfolding sort_by
  find-sort_by n [] = refl
  find-sort_by n (m ∷ ms) = ground (arith, find-sort_by n ms, find-insert n m (sort_by ms))

  above-insert :
      (b : ℕ) (m : A) (ms : List A)
      → b < key m
      → All (λ x. b < key x) ms
      → All (λ x. b < key x) (insert_by m ms)
  unfolding insert_by
  above-insert b m [] lt h = ground arith
  above-insert b m (x ∷ ms) lt h = ground (arith, above-insert b m ms lt h.1)

  above_trans : (a b : ℕ) (ms : List A) → a < b → All (λ x. b < key x) ms → All (λ x. a < key x) ms
  above_trans a b [] lt h = h
  above_trans a b (x ∷ ms) lt h = (omega arith, above_trans a b ms lt h.1)

  find-above : (b : ℕ) (ms : List A) → All (λ x. b < key x) ms → find b ms ≡ none
  find-above b [] h = refl
  find-above b (x ∷ ms) h = ground (arith, find-above b ms h.1)

  insert-IsAscending :
      (m : A) (ms : List A) → find (key m) ms ≡ none → IsAscending ms → IsAscending (insert_by m ms)
  unfolding insert_by
  insert-IsAscending m [] new h = ground arith
  insert-IsAscending m (x ∷ ms) new h =
      ground
        (arith, insert-IsAscending m ms, above-insert (key x) m ms, above_trans (key m) (key x) ms)

  pub sort_by-IsAscending : (ms : List A) → IsUnique ms → IsAscending (sort_by ms)
  unfolding sort_by
  sort_by-IsAscending [] h = tt
  sort_by-IsAscending (m ∷ ms) h =
      insert-IsAscending m (sort_by ms) (ground (arith, find-sort_by (key m) ms))
        (sort_by-IsAscending ms h.1)

  -- What is in ascending order has no key twice.
  pub IsAscending-IsUnique : (ms : List A) → IsAscending ms → IsUnique ms
  IsAscending-IsUnique [] h = tt
  IsAscending-IsUnique (m ∷ ms) h = (find-above (key m) ms h.0, IsAscending-IsUnique ms h.1)
