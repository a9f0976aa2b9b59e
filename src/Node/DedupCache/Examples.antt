-- ===== src/Node/DedupCache/Examples.antt =====
-- A cache of at most two ids.
use clustertalk_githubaction.Prelude.{ℕ, ◌≡◌, List, [], ◌∷◌, take, nat_eq, list_eq, pair_eq}
use clustertalk_githubaction.Prelude.Set
use clustertalk_githubaction.Node.DedupCache
use clustertalk_githubaction.Node.DedupCache.{DedupCache, seen_before}
use clustertalk_githubaction.Node.DedupCache.Window.{see_all, note_all, seen_before-recent}

abbrev ids : List ℕ
ids = 1 ∷ 2 ∷ 3 ∷ []

-- A cache of at most two ids
abbrev cache_of_two : DedupCache ℕ
cache_of_two = record { max_size = 2; seen = [] }

seen_before-recent_example :
    ((see_all ids cache_of_two).seen ≡ take 2 (note_all ids []))
    × ((seen_before 2 (see_all ids cache_of_two)).0 ≡ Set.contains 2 (take 2 (note_all ids [])))
unfolding DedupCache.init
seen_before-recent_example = seen_before-recent 2 ids 2
