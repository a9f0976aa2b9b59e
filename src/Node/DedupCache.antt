-- ===== src/Node/DedupCache.antt =====
-- node/dedup_cache.py: the bounded memory of the message ids that this node has handled. The
-- OrderedDict is the list of its keys from the newest to the oldest.
pub mod Window
pub mod Recall
mod Examples
use clustertalk_githubaction.Prelude.{
  ℕ, Bool, true, false, List, [], ◌∷◌, length, ltb, if◌then◌else◌, HasEq,
}
use clustertalk_githubaction.Prelude.Set

pub record DedupCache (A : Type 0) : Type 0 where
  pub max_size : ℕ
  pub seen : List A

abbrev pub default_max_size : ℕ
default_max_size = 20_000

module _ {A : Type 0} where
  -- `popitem(last=False)`: the oldest key goes.
  unfoldable pub pop_oldest : List A → List A
  pop_oldest [] = []
  pop_oldest (x ∷ []) = []
  pop_oldest (x ∷ y ∷ xs) = x ∷ pop_oldest (y ∷ xs)

  unfoldable pub init : ℕ → DedupCache A
  init max_size = record { max_size = max_size; seen = [] }

  -- `__len__`
  unfoldable pub len : DedupCache A → ℕ
  len c = length c.seen

module _ {A : Type 0} ⦃e : HasEq A⦄ where
  unfoldable pub seen_before : A → DedupCache A → Bool × DedupCache A
  unfolding pop_oldest
  seen_before msg_id c =
      if Set.contains msg_id c.seen
      then (true, record c { seen = msg_id ∷ Set.discard msg_id c.seen })
      else let recorded = msg_id ∷ c.seen in
        (
          false,
          record c {
            seen = if ltb c.max_size (length recorded) then pop_oldest recorded else recorded;
          },
        )
