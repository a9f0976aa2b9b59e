-- ===== src/Node/DedupCache/Recall.antt =====
-- What one call of `seen_before` recalls and what it still holds afterwards.
use clustertalk_githubaction.Prelude.{
  suc, ◌≤◌, ◌<◌, ◌≡◌, refl, arith, true, ◌||◌, List, [], ◌∷◌, length, HasEq, Bool-cases, inl, inr,
}
use clustertalk_githubaction.Prelude.Set
use clustertalk_githubaction.Node.DedupCache.{DedupCache, pop_oldest, seen_before}

module _ {A : Type 0} ⦃e : HasEq A⦄ where
  contains-pop_oldest :
      (x : A) (l : List A) → Set.contains x (pop_oldest l) ≡ true → Set.contains x l ≡ true
  unfolding Set.contains pop_oldest
  contains-pop_oldest x [] h = h
  contains-pop_oldest x (y ∷ []) h = ground (arith, h)
  contains-pop_oldest x (y ∷ z ∷ l) h = ground (arith, h, contains-pop_oldest x (z ∷ l))

  -- The answer is whether the id is held.
  pub seen_before-contains :
      (x : A) (c : DedupCache A) → (seen_before x c).0 ≡ Set.contains x c.seen
  unfolding seen_before
  seen_before-contains x c = elim (Bool-cases (Set.contains x c.seen)) [
    | inl here ↦ rw here refl
    | inr new ↦ rw new refl
  ]

  pub max_size-seen_before : (x : A) (c : DedupCache A) → (seen_before x c).1.max_size ≡ c.max_size
  unfolding seen_before
  max_size-seen_before x c = elim (Bool-cases (Set.contains x c.seen)) [
    | inl here ↦ rw here refl
    | inr new ↦ rw new refl
  ]

  -- Only the id itself is new to the cache.
  pub contains-seen_before_only :
      (x y : A) (c : DedupCache A)
      → Set.contains x (seen_before y c).1.seen ≡ true
      → (Set.contains x c.seen || e.beq y x) ≡ true
  unfolding seen_before Set.contains
  contains-seen_before_only x y c h = elim (Bool-cases (Set.contains y c.seen)) [
    | inl here ↦ ground (arith, h, here, Set.contains-discard y x c.seen)
    | inr new ↦ ground (arith, h, new, contains-pop_oldest x (y ∷ c.seen))
  ]

  -- As long as there is room, nothing is forgotten.
  pub contains-seen_before_room :
      (x y : A) (c : DedupCache A)
      → length c.seen < c.max_size
      → Set.contains x (seen_before y c).1.seen ≡ (Set.contains x c.seen || e.beq y x)
  unfolding seen_before Set.contains
  contains-seen_before_room x y c room = elim (Bool-cases (Set.contains y c.seen)) [
    | inl here ↦ ground (arith, here, Set.contains-discard y x c.seen)
    | inr new ↦ ground (arith, new, room)
  ]

  pub length-seen_before_room :
      (y : A) (c : DedupCache A)
      → length c.seen < c.max_size
      → length (seen_before y c).1.seen ≤ suc (length c.seen)
  unfolding seen_before
  length-seen_before_room y c room = elim (Bool-cases (Set.contains y c.seen)) [
    | inl here ↦ ground (arith, here, Set.length-discard-le y c.seen)
    | inr new ↦ ground (arith, new, room)
  ]
