-- ===== src/Node/Mesh/Link/Connect.antt =====
-- The handshake of a link and the loop that dials a peer, node/mesh.py.
use clustertalk_githubaction.Prelude.{
  ℕ, Bool, true, false, Option, none, some, List, [], ◌∷◌, if◌then◌else◌, Text, Result, ok, err,
}
use clustertalk_githubaction.Node.Mesh.{peer_hello, PeerManager, link_up}
use clustertalk_githubaction.Node.Mesh.Link.{
  LinkError, connection_error, connection_closed, frame_error, timed_out, key_error, json_error,
  type_error, attribute_error, other_error, cancelled, DictKey, hashable, unhashable, nameless,
  naming, misshapen, PeerFrame, hello_read, ping_read, pong_read, query_read, state_read,
  relay_read, other_read, LinkEvent, Callbacks, write_frame, serve,
}

-- A connection: its writer, whether PEER_HELLO is written, the first frame, the time at which
-- the handshake is over, and what happens then
pub record Connection (S : Type 0) : Type 0 where
  pub writer : ℕ
  pub greeted : Bool
  pub first : Result LinkError (PeerFrame S)
  pub since : ℕ
  pub events : List (LinkEvent S)

-- The `except` clause of `_connect_loop` and `_handle_inbound`
unfoldable pub is_caught : LinkError → Bool
is_caught connection_error = true
is_caught connection_closed = true
is_caught frame_error = true
is_caught timed_out = true
is_caught key_error = false
is_caught json_error = false
is_caught type_error = false
is_caught attribute_error = false
is_caught other_error = false
is_caught cancelled = false

module _ {S : Type 0} where
  -- `_do_peer_handshake` from the first frame, or from the error of reading it; the id of the peer is
  -- returned whatever it is
  unfoldable pub peer_of : Result LinkError (PeerFrame S) → Result LinkError DictKey
  peer_of (err e) = err e
  peer_of (ok (hello_read (naming node_id))) = ok node_id
  peer_of (ok (hello_read nameless)) = err frame_error
  peer_of (ok (hello_read misshapen)) = err type_error
  peer_of (ok ping_read) = err frame_error
  peer_of (ok pong_read) = err frame_error
  peer_of (ok (query_read query)) = err frame_error
  peer_of (ok (state_read state)) = err frame_error
  peer_of (ok (relay_read p)) = err frame_error
  peer_of (ok other_read) = err frame_error

  -- `_do_peer_handshake`
  unfoldable pub do_peer_handshake :
      Text → Connection S → PeerManager S → Result LinkError DictKey × PeerManager S
  unfolding peer_of write_frame
  do_peer_handshake node_id c m =
      if c.greeted
      then (peer_of c.first, write_frame c.writer (peer_hello node_id) m)
      else (err connection_error, m)

  module _ (callbacks : Callbacks S) (node_id : Text) where
    -- `self._peer_writers[peer_id] = writer` raises on an id that is not hashable.
    unfoldable pub serve_as :
        Connection S → Result LinkError DictKey × PeerManager S → Option LinkError × PeerManager S
    unfolding serve
    serve_as c (err e, m) = (some e, m)
    serve_as c (ok unhashable, m) = (some type_error, m)
    serve_as c (ok (hashable peer_id), m) =
        serve callbacks c.events
          (record { peer_id = peer_id; writer = c.writer; last_pong_at = c.since })
          (link_up peer_id c.writer m)

    -- `_run_handshake_and_serve`
    unfoldable pub run_handshake_and_serve :
        Connection S → PeerManager S → Option LinkError × PeerManager S
    unfolding serve_as do_peer_handshake
    run_handshake_and_serve c m = serve_as c (do_peer_handshake node_id c m)

    -- `_connect_loop`, with the connections that it gets; a connection that is refused is `none`. It
    -- returns the error that ends the loop, if one does.
    unfoldable pub connect_loop :
        List (Option (Connection S)) → PeerManager S → Option LinkError × PeerManager S
    unfolding run_handshake_and_serve is_caught
    connect_loop [] m = (none, m)
    connect_loop (none ∷ attempts) m = connect_loop attempts m
    connect_loop (some c ∷ attempts) m =
        let (outcome, m') = run_handshake_and_serve c m in
        let rest = connect_loop attempts m' in
        elim outcome [ none ↦ (none, m') | some e ↦ if is_caught e then rest else (some e, m') ]
