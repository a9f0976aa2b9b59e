-- ===== src/Prelude/Set.antt =====
-- Python's set as a list.
use mathlib.Core.List.{List, [], ◌∷◌}
use mathlib.Core.Path.{◌≡◌}
use mathlib.Core.Bool.{Bool, true, false, ◌||◌}
use native.Mathlib.Omega.{arith}
use Prim.Native.Nat.{ℕ, suc, ◌≤◌, ◌<◌}
use clustertalk_githubaction.Prelude.Tests.{if◌then◌else◌}
use clustertalk_githubaction.Prelude.Lists.{length}
use clustertalk_githubaction.Prelude.Eq.{HasEq}

module _ {ℓ} {A : Type ℓ} ⦃e : HasEq A⦄ where
  -- `a in s`
  unfoldable pub contains : A → List A → Bool
  contains a [] = false
  contains a (x ∷ xs) = e.beq x a || contains a xs

  -- `s.add(a)`
  unfoldable pub add : A → List A → List A
  add a xs = if contains a xs then xs else a ∷ xs

  -- `s.discard(a)`
  unfoldable pub discard : A → List A → List A
  discard a [] = []
  discard a (x ∷ xs) = let rest = discard a xs in if e.beq x a then rest else x ∷ rest

  pub contains-add : (a b : A) (xs : List A) → contains b (add a xs) ≡ (e.beq a b || contains b xs)
  unfolding add contains
  contains-add a b xs = ground (arith, e.beq_iff a b)

  pub contains-discard :
      (a b : A) (xs : List A)
      → contains b (discard a xs) ≡ (if e.beq a b then false else contains b xs)
  unfolding discard contains
  contains-discard a b [] = ground arith
  contains-discard a b (x ∷ xs) =
      ground (arith, contains-discard a b xs, e.beq_iff x a, e.beq_iff x b, e.beq_iff a b)

  pub length-discard-le : (a : A) (xs : List A) → length (discard a xs) ≤ length xs
  unfolding discard
  length-discard-le a [] = ground arith
  length-discard-le a (x ∷ xs) = ground (arith, length-discard-le a xs)

  -- Discarding a member makes the set smaller.
  pub length-discard-lt :
      (a : A) (xs : List A) → contains a xs ≡ true → length (discard a xs) < length xs
  unfolding discard contains
  length-discard-lt a [] h = ground arith
  length-discard-lt a (x ∷ xs) h = ground (arith, length-discard-lt a xs, length-discard-le a xs)

  -- How often an element stands in a list
  abbrev pub occurrences : A → List A → ℕ
  occurrences a [] = 0
  occurrences a (x ∷ xs) = let rest = occurrences a xs in if e.beq x a then suc rest else rest
