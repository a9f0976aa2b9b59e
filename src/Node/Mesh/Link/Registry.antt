-- ===== src/Node/Mesh/Link/Registry.antt =====
-- All links of a node at once: which writers are on file, whatever the order in which links come up
-- and go down.
use clustertalk_githubaction.Prelude.{
  ℕ, Option, none, some, List, [], ◌∷◌, Text, nat_eq, list_eq, Result, ok, err,
}
use clustertalk_githubaction.Prelude.Dict
use clustertalk_githubaction.Prelude.Dict.{Dict}
use clustertalk_githubaction.Node.Mesh.{PeerManager, link_up, link_down}
use clustertalk_githubaction.Node.Mesh.Link.{
  LinkError, DictKey, hashable, unhashable, Link, LinkEvent, Callbacks, turn,
}
use clustertalk_githubaction.Node.Mesh.Link.Connect.{Connection, do_peer_handshake}

-- The manager and the links that are up, by their writers
pub record Hub (S : Type 0) : Type 0 where
  pub manager : PeerManager S
  pub live : Dict ℕ Link

pub data HubEvent (S : Type 0) : Type 0 where
  -- a new connection gets through its handshake, or fails in it
  opens : Connection S → HubEvent S
  -- an event of the link with a writer
  happens : ℕ → LinkEvent S → HubEvent S

module _ {S : Type 0} (callbacks : Callbacks S) (node_id : Text) where
  -- `_run_handshake_and_serve` up to its two tasks
  unfoldable pub opened :
      Connection S → Result LinkError DictKey × PeerManager S → Dict ℕ Link → Hub S
  opened c (err e, m) live = record { manager = m; live = live }
  opened c (ok unhashable, m) live = record { manager = m; live = live }
  opened c (ok (hashable peer_id), m) live = record {
    manager = link_up peer_id c.writer m;
    live =
        Dict.put c.writer (record { peer_id = peer_id; writer = c.writer; last_pong_at = c.since })
          live;
  }

  -- A turn of one of its tasks, and its `finally` block if that ends it
  unfoldable pub turned : ℕ → Option LinkError × (Link × PeerManager S) → Dict ℕ Link → Hub S
  turned writer (none, (link, m)) live = record { manager = m; live = Dict.put writer link live }
  turned writer (some e, (link, m)) live = record {
    manager = link_down link.peer_id link.writer m;
    live = Dict.remove writer live;
  }

  -- A writer is a new object, so a connection with the writer of a live link is no event.
  unfoldable pub hub_step : HubEvent S → Hub S → Hub S
  unfolding opened turned
  hub_step (opens c) h = elim (Dict.get c.writer h.live) [
    | none ↦ opened c (do_peer_handshake node_id c h.manager) h.live
    | some link ↦ h
  ]
  hub_step (happens writer event) h = elim (Dict.get writer h.live) [
    | none ↦ h
    | some link ↦ turned writer (turn callbacks event link h.manager) h.live
  ]

  unfoldable pub hub_run : List (HubEvent S) → Hub S → Hub S
  unfolding hub_step
  hub_run [] h = h
  hub_run (event ∷ events) h = hub_run events (hub_step event h)
