-- ===== src/Node/Server/Machine.antt =====
-- The node as a machine: one event after another, in any order.
pub mod Reachable
pub mod Processed
use clustertalk_githubaction.Prelude.{[], ℕ, ◌∷◌, List}
use clustertalk_githubaction.Node.Server.Connection.{
  run_eviction, retry_round, on_relayed, on_read_end, on_frame, on_connect,
}
use clustertalk_githubaction.Node.Mesh.{Relay}
use clustertalk_githubaction.Node.Server.{Services, Moment, ClientFrame, ChatNode}
use clustertalk_githubaction.Prelude.{nat_eq}
use clustertalk_githubaction.Prelude.Dict
use clustertalk_githubaction.Prelude.Set

-- What can happen to a node: a connection is accepted, a frame arrives on one, its read ends, its
-- peer is lost, an eviction runs, a message of another node arrives, a round of the retry loop runs.
pub data NodeEvent : Type 0 where
  connect : ℕ → NodeEvent
  frame : Moment → ℕ → ClientFrame → NodeEvent
  read_end : ℕ → NodeEvent
  lost : ℕ → NodeEvent
  evict : ℕ → NodeEvent
  relayed : ℕ → Relay → NodeEvent
  retry : ℕ → NodeEvent

module _ (services : Services) where
  unfoldable pub after_event : NodeEvent → ChatNode → ChatNode
  after_event (connect writer) node = on_connect writer node
  after_event (frame moment writer f) node = on_frame services moment writer f node
  after_event (read_end writer) node = on_read_end writer node
  after_event (lost writer) node = record node { broken = Set.add writer node.broken }
  after_event (evict writer) node = run_eviction writer node
  after_event (relayed now r) node = on_relayed services now r node
  after_event (retry now) node = retry_round now node

  unfoldable pub after_events : List NodeEvent → ChatNode → ChatNode
  unfolding after_event
  after_events [] node = node
  after_events (event ∷ events) node = after_events events (after_event event node)
