-- ===== src/Node/Mesh/Network/Delivery.antt =====
-- A message through the whole network: at most once whatever happens, and exactly once at every
-- node that the links reach when no frame is lost and no link changes.
use clustertalk_githubaction.Prelude.{
  ℕ, ◌≤◌, ◌≡◌, refl, arith, true, some, List, [], ◌∷◌, length, if◌then◌else◌, Text, nat_eq, list_eq,
  text_eq_iff,
}
use clustertalk_githubaction.Prelude.Set
use clustertalk_githubaction.Prelude.Dict.{Dict}
use clustertalk_githubaction.Prelude.Dict
use clustertalk_githubaction.Node.DedupCache
use clustertalk_githubaction.Node.DedupCache.Window.{IsUnique}
use clustertalk_githubaction.Node.Mesh.Network.{
  Site, Network, NetEvent, ids, has_delivered, has_originated, has_handled, has_frame, run, minted,
  fresh, IsSteady,
}
use clustertalk_githubaction.Node.Mesh.Network.Once.{IsMindful}
use clustertalk_githubaction.Node.Mesh.Network.Mindful.{run-AllMindful}
use clustertalk_githubaction.Node.Mesh.Network.Agreement.{
  IsSettling, run-IsSettling, Reaches, handled-Reaches,
}

occurrences-IsUnique :
    (x : Text) (l : List Text)
    → IsUnique l
    → Set.occurrences x l ≡ (if Set.contains x l then 1 else 0)
unfolding Set.contains
occurrences-IsUnique x [] unique = refl
occurrences-IsUnique x (y ∷ l) unique =
    ground (arith, unique.0, occurrences-IsUnique x l unique.1, text_eq_iff y x)

-- How often a node has delivered a message
abbrev pub times_delivered : {S : Type 0} → Text → Site S → ℕ
times_delivered x s = Set.occurrences x (ids s.manager.delivered)

-- A network of nodes that have just been made, with the given links
abbrev pub fresh_network : {S : Type 0} → ℕ → (Text → Dict Text ℕ) → Network S
fresh_network size peers b = fresh size (peers b)

module _ (S : Type 0) (far_end : ℕ → Text) (size : ℕ) where
  fresh-IsMindful :
      (coming : List Text) (peers : Dict Text ℕ)
      → IsMindful {S = S} size 0 coming (fresh size peers)
  unfolding fresh DedupCache.init has_handled has_delivered has_originated has_frame Set.contains
  fresh-IsMindful coming peers = record {
    honest = record { recalls = λ x h. h; sends = λ w x h. h };
    sized = refl;
    small = omega arith;
    remembers = λ x h. h;
    unique = tt;
    apart = λ x h. refl;
    unheard = λ x later. refl;
  }

  -- However frames overtake each other, get lost, and links come and go: no node delivers a message
  -- twice, and none delivers one of its own. The nodes have just been made, the messages have
  -- different ids, and there are no more events than the caches have room for.
  pub delivered_once :
      (peers : Text → Dict Text ℕ) (events : List NetEvent) (x b : Text)
      → length events ≤ size
      → IsUnique (minted events)
      → times_delivered x (run far_end events (fresh_network {S = S} size peers) b) ≤ (
          if has_originated x (run far_end events (fresh_network {S = S} size peers) b)
          then 0
          else 1)
  unfolding has_delivered
  delivered_once peers events x b room unique =
      let s = run far_end events (fresh_network {S = S} size peers) b in
      let h =
        run-AllMindful far_end size events 0 (fresh_network size peers) (omega (arith, room)) unique
          (λ c. fresh-IsMindful (minted events) (peers c)) b in
      ground (arith, occurrences-IsUnique x (ids s.manager.delivered) h.unique, h.apart x)

  fresh-IsSettling :
      (peers : Text → Dict Text ℕ)
      → ((b q : Text) (w : ℕ) → Dict.get q (peers b) ≡ some w → far_end w ≡ q)
      → IsSettling far_end (fresh_network {S = S} size peers)
  unfolding fresh has_handled has_delivered has_originated Set.contains
  fresh-IsSettling peers wired = record {
    honest = λ b. (fresh-IsMindful [] (peers b)).honest;
    wired = wired;
    covered = λ a x p w handled link. absurd (ground (arith, handled));
  }

  -- A message that a node puts into the mesh is delivered exactly once at every other node that the
  -- links reach, and not at the node itself, when the frames have all arrived: in whatever order
  -- they did, and whatever other messages were sent meanwhile. The nodes have just been made, no
  -- frame is lost, no link changes, a writer leads to the peer it is filed under, the messages have
  -- different ids, and there are no more events than the caches have room for.
  pub delivered_exactly_once :
      (peers : Text → Dict Text ℕ) (events : List NetEvent) (x o b : Text)
      → ((c q : Text) (w : ℕ) → Dict.get q (peers c) ≡ some w → far_end w ≡ q)
      → length events ≤ size
      → IsUnique (minted events)
      → IsSteady events
      → ((c : Text) → (run far_end events (fresh_network {S = S} size peers) c).manager.sent ≡ [])
      → has_originated x (run far_end events (fresh_network {S = S} size peers) o) ≡ true
      → Reaches (run far_end events (fresh_network {S = S} size peers)) o b
      → times_delivered x (run far_end events (fresh_network {S = S} size peers) b) ≡ (
          if has_originated x (run far_end events (fresh_network {S = S} size peers) b)
          then 0
          else 1)
  unfolding has_handled has_delivered
  delivered_exactly_once peers events x o b wired room unique steady drained own there =
      let n = run far_end events (fresh_network {S = S} size peers) in
      let settled =
        run-IsSettling far_end events (fresh_network size peers) steady
          (fresh-IsSettling peers wired) in
      let handled = handled-Reaches far_end n settled drained x o (ground (arith, own)) b there in
      let h =
        run-AllMindful far_end size events 0 (fresh_network size peers) (omega (arith, room)) unique
          (λ c. fresh-IsMindful (minted events) (peers c)) b in
      ground
        (arith, handled, occurrences-IsUnique x (ids (n b).manager.delivered) h.unique, h.apart x)
