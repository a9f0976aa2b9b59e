-- ===== src/Node/Server/Machine/Reachable.antt =====
-- Every node that is reached from a fresh one by events in any order
use clustertalk_githubaction.Node.SessionManager.{Snapshot}
use clustertalk_githubaction.Node.Mesh.{PeerManager}
use clustertalk_githubaction.Node.Persistence.{OutboxStore}
use clustertalk_githubaction.Node.Server.Machine.{
  connect, frame, read_end, lost, evict, relayed, retry, after_events, after_event, NodeEvent,
}
use clustertalk_githubaction.Node.Server.Connection.Background.{
  retry_round-IsSingle, on_relayed-IsSingle,
}
use clustertalk_githubaction.Node.Server.Connection.Single.{
  run_eviction-IsSingle, on_read_end-IsSingle, on_frame-IsSingle, on_connect-IsSingle, IsSingle,
}
use clustertalk_githubaction.Node.Server.{chatting, nat_beq, Services, Payload, ChatNode}
use clustertalk_githubaction.Node.AuthStore.{AuthStore}
use clustertalk_githubaction.Prelude.{
  [], ℕ, ◌||◌, ◌∷◌, ◌≡◌, inr, inl, Option-cases, Option, List, false, true, some, arith, nat_eq,
  list_eq, Text,
}
use clustertalk_githubaction.Prelude.Dict
use clustertalk_githubaction.Prelude.Set
use clustertalk_githubaction.Node.Server

init-IsSingle :
    (store : OutboxStore) (accounts : AuthStore) (mesh : Option (PeerManager (Snapshot Payload)))
    → IsSingle (Server.init store accounts mesh)
unfolding Server.init Dict.get
init-IsSingle store accounts mesh v sid there = absurd (ground (arith, there))

module _ (services : Services) where
  -- Every event leaves each client in the chat as the one that its session has in the registry, or
  -- with its eviction asked for.
  pub after_event-IsSingle :
      (event : NodeEvent) (node : ChatNode)
      → IsSingle node
      → IsSingle (after_event services event node)
  unfolding after_event
  after_event-IsSingle (connect w) node i = on_connect-IsSingle w node i
  after_event-IsSingle (frame moment w f) node i = on_frame-IsSingle services moment w f node i
  after_event-IsSingle (read_end w) node i = on_read_end-IsSingle w node i
  after_event-IsSingle (lost w) node i = i
  after_event-IsSingle (evict w) node i = run_eviction-IsSingle w node i
  after_event-IsSingle (relayed now r) node i = on_relayed-IsSingle services now r node i
  after_event-IsSingle (retry now) node i = retry_round-IsSingle now node i

  after_events-IsSingle :
      (events : List NodeEvent) (node : ChatNode)
      → IsSingle node
      → IsSingle (after_events services events node)
  unfolding after_events
  after_events-IsSingle [] node i = i
  after_events-IsSingle (event ∷ events) node i =
      after_events-IsSingle events (after_event services event node)
        (after_event-IsSingle event node i)

  -- One connection for each session: whatever happens to a node from its start on, of two clients in
  -- the chat of the same session the eviction of one has been asked for.
  pub one_connection :
      (events : List NodeEvent) (store : OutboxStore) (accounts : AuthStore)
      (mesh : Option (PeerManager (Snapshot Payload))) (v w : ℕ) (sid : Text)
      → nat_beq v w ≡ false
      → Dict.get v (after_events services events (Server.init store accounts mesh)).phases
        ≡ some (chatting sid)
      → Dict.get w (after_events services events (Server.init store accounts mesh)).phases
        ≡ some (chatting sid)
      → (Set.contains v (after_events services events (Server.init store accounts mesh)).evictions
          || Set.contains w
              (after_events services events (Server.init store accounts mesh)).evictions)
        ≡ true
  one_connection events store accounts mesh v w sid ne at_v at_w =
      let node = after_events services events (Server.init store accounts mesh) in
      let i =
        after_events-IsSingle events (Server.init store accounts mesh)
          (init-IsSingle store accounts mesh) in
      let both_v = i v sid at_v in
      let both_w = i w sid at_w in
      elim (Option-cases (Dict.get sid node.connections)) [
        | inl absent ↦ ground (arith, both_v, absent)
        | inr (x, held) ↦ ground (arith, both_v, both_w, held, ne)
      ]
