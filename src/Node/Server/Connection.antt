-- ===== src/Node/Server/Connection.antt =====
-- A connection from its first frame to its end (`_handle_client`, `_read_loop`,
-- `_cleanup_connection`), the retry loop, and the node as a machine that takes events.
pub mod Single
pub mod Background
pub mod Strangers
pub mod Leftover
use clustertalk_githubaction.Prelude.{
  ℕ, Bool, true, false, Option, none, some, List, [], ◌∷◌, ◌++◌, if◌then◌else◌, Text, nat_eq,
  list_eq, nat_beq, Result, ok, err,
}
use clustertalk_githubaction.Prelude.Dict
use clustertalk_githubaction.Prelude.Dict.{Dict}
use clustertalk_githubaction.Prelude.Set
use clustertalk_githubaction.Node.Mesh.{Relay}
use clustertalk_githubaction.Node.SessionState.{OutboundMessage, pending_for_retry, mark_retried}
use clustertalk_githubaction.Node.SessionManager.{general, hold, get_or_create, get_loaded}
use clustertalk_githubaction.Node.Server.{
  Payload, ClientFrame, message_frame, logged_in_elsewhere, ServerError, Phase, authenticating,
  chatting, ChatNode, Moment, Services, Handler, ◌>>=◌, ◌>>◌, return, write_frame, close,
  with_manager, holds_writer,
}
use clustertalk_githubaction.Node.Server.Auth.{Gate, stay, leave, enter, auth_gate, reset_session}
use clustertalk_githubaction.Node.Server.Chat.{
  replay_unacked, read_frame_of, deliver_relayed_message,
}

-- `_cleanup_connection`
unfoldable pub cleanup_connection : Option Text → ℕ → ChatNode → ChatNode
cleanup_connection none writer node = record node { closing = Set.add writer node.closing }
cleanup_connection (some sid) writer node = record node {
  connections =
      if holds_writer writer (Dict.get sid node.connections)
      then Dict.remove sid node.connections
      else node.connections;
  closing = Set.add writer node.closing;
}

-- The `finally` block of `_handle_client`, after which the connection is served no more
unfoldable pub end_connection : Option Text → ℕ → ChatNode → ChatNode
unfolding cleanup_connection
end_connection session_id writer node =
    let node' = cleanup_connection session_id writer node in
    record node' { phases = Dict.remove writer node'.phases }

-- The messages of one session that are due; a write that fails is left for the next round.
unfoldable pub retry_messages : ℕ → Text → ℕ → List (OutboundMessage Payload) → ChatNode → ChatNode
retry_messages now sid writer [] node = node
retry_messages now sid writer (msg ∷ msgs) node =
    let node' = if Set.contains writer node.broken then node else record node {
      sent = node.sent ++ (writer, message_frame msg.seq msg.payload) ∷ [];
      manager = elim (get_loaded sid node.manager) [
        | none ↦ node.manager
        | some session ↦ hold sid (mark_retried now msg.seq session) node.manager
      ];
    } in
    retry_messages now sid writer msgs node'

abbrev pub retry_after : ℕ
retry_after = 3

unfoldable pub retry_session : ℕ → Text → ℕ → ChatNode → ChatNode
unfolding retry_messages
retry_session now sid writer node = elim (get_loaded sid node.manager) [
  | none ↦ node
  | some session ↦ retry_messages now sid writer (pending_for_retry now retry_after session) node
]

unfoldable pub retry_sessions : ℕ → List (Text × ℕ) → ChatNode → ChatNode
unfolding retry_session
retry_sessions now [] node = node
retry_sessions now ((sid, writer) ∷ rest) node =
    retry_sessions now rest (retry_session now sid writer node)

-- One round of `_retry_loop`
unfoldable pub retry_round : ℕ → ChatNode → ChatNode
unfolding retry_sessions
retry_round now node = retry_sessions now node.connections node

unfoldable pub ended : ℕ → Option Phase → ChatNode → ChatNode
ended writer none node = node
ended writer (some authenticating) node = end_connection none writer node
ended writer (some (chatting sid)) node = end_connection (some sid) writer node

-- The read of a connection ends: the peer has closed it, a frame is malformed, the gate has
-- waited too long, or the writer was closed here.
unfoldable pub on_read_end : ℕ → ChatNode → ChatNode
unfolding ended
on_read_end writer node = ended writer (Dict.get writer node.phases) node

-- A connection is accepted.
unfoldable pub on_connect : ℕ → ChatNode → ChatNode
on_connect writer node = record node { phases = Dict.put writer authenticating node.phases }

-- An `_evict` task runs: an exception of its write is swallowed, and the writer is closed.
unfoldable pub run_eviction : ℕ → ChatNode → ChatNode
run_eviction writer node =
    let node' = (write_frame writer logged_in_elsewhere node).1 in
    record node' { closing = Set.add writer node'.closing }

module _ (services : Services) where
  -- `_handle_client` once the gate has let a session in
  unfoldable pub begin_session : Text → ℕ → Handler (Unit {0})
  unfolding reset_session
  begin_session session_id writer = do
    session ← with_manager (get_or_create services.json session_id general)
    reset_session session_id session
    replay_unacked services session_id writer

  begun : Text → ℕ → Result ServerError (Unit {0}) × ChatNode → ChatNode
  begun session_id writer (err e, node) = end_connection (some session_id) writer node
  begun session_id writer (ok _, node) = record node {
    phases = Dict.put writer (chatting session_id) node.phases;
  }

  -- An exception in the gate finds no session id to clean up.
  gated : ℕ → Result ServerError Gate × ChatNode → ChatNode
  unfolding begun
  gated writer (err e, node) = end_connection none writer node
  gated writer (ok stay, node) = node
  gated writer (ok leave, node) = end_connection none writer node
  gated writer (ok (enter session_id), node) =
      begun session_id writer (begin_session session_id writer node)

  unfoldable pub served : Text → ℕ → Result ServerError Bool × ChatNode → ChatNode
  served session_id writer (err e, node) = end_connection (some session_id) writer node
  served session_id writer (ok true, node) = node
  served session_id writer (ok false, node) = end_connection (some session_id) writer node

  unfoldable pub on_frame_in : Moment → ℕ → ClientFrame → Option Phase → ChatNode → ChatNode
  unfolding gated served
  on_frame_in moment writer frame none node = node
  on_frame_in moment writer frame (some authenticating) node =
      gated writer (auth_gate services moment writer frame node)
  on_frame_in moment writer frame (some (chatting sid)) node =
      served sid writer (read_frame_of services moment sid writer frame node)

  -- A frame arrives on a connection.
  unfoldable pub on_frame : Moment → ℕ → ClientFrame → ChatNode → ChatNode
  unfolding on_frame_in
  on_frame moment writer frame node =
      on_frame_in moment writer frame (Dict.get writer node.phases) node

  -- A message of another node is delivered; an exception ends the link that it came by.
  unfoldable pub on_relayed : ℕ → Relay → ChatNode → ChatNode
  on_relayed now r node = (deliver_relayed_message services now r node).1
