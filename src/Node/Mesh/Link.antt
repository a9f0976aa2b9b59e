-- ===== src/Node/Mesh/Link.antt =====
-- One link to a peer, node/mesh.py: the read loop, the heartbeat and the teardown. Times are
-- milliseconds. What happens to a connection is a list of events; whether a write to it succeeds is
-- part of the event. A JSON value that is only passed on, or that can be a key of a dict, is stood for
-- by a text, different values by different texts.
pub mod Connect
pub mod Redial
pub mod Liveness
pub mod Registry
pub mod Files
pub mod Filed
mod Examples
use clustertalk_githubaction.Prelude.{
  ℕ, ◌+◌, ◌-◌, Bool, true, false, Option, none, some, List, [], ◌∷◌, ◌++◌, ltb, if◌then◌else◌, Text,
  nat_eq, list_eq,
}
use clustertalk_githubaction.Node.DedupCache.{seen_before}
use clustertalk_githubaction.Node.Mesh.{
  Relay, MeshFrame, ping, pong, PeerManager, on_relay, link_up, link_down, handle_session_query,
  handle_session_state,
}

-- `PEER_PING_INTERVAL_SECONDS` and `PEER_PONG_GRACE_SECONDS`
abbrev pub ping_interval : ℕ
ping_interval = 5_000

abbrev pub pong_grace : ℕ
pong_grace = 12_000

-- How a link ends: the exceptions that leave its handler. `json_error` is orjson.JSONDecodeError, which
-- `read_frame` does not catch, and `other_error` any other exception of a callback.
pub data LinkError : Type 0 where
  connection_error : LinkError
  connection_closed : LinkError
  frame_error : LinkError
  timed_out : LinkError
  key_error : LinkError
  json_error : LinkError
  type_error : LinkError
  attribute_error : LinkError
  other_error : LinkError
  cancelled : LinkError

-- A value that is used as a key of a dict: a list or an object is not hashable.
pub data DictKey : Type 0 where
  hashable : Text → DictKey
  unhashable : DictKey

-- A payload as it arrives: an object, which is empty when there is no payload or a false one, or
-- another value
pub data Shaped (A : Type 0) : Type 0 where
  object : A → Shaped A
  no_object : Shaped A

-- The payload of a first frame, by what `"node_id" not in payload` and `payload["node_id"]` do with it:
-- the test finds no node_id, there is one, or one of the two raises TypeError
pub data Greeting : Type 0 where
  nameless : Greeting
  naming : DictKey → Greeting
  misshapen : Greeting

-- The payload of a RELAY frame as it arrives; a member may be missing.
pub record RelayPayload : Type 0 where
  pub msg_id : Option DictKey
  pub room_id : Option Text
  pub text : Option Text
  pub from_session : Option Text
  pub sent_at : Option ℕ

-- A frame as it arrives. A query has its request id, empty if that is false, and its session id, if
-- that is true; an answer has its request id, if there is one, and its snapshot.
pub data PeerFrame (S : Type 0) : Type 0 where
  hello_read : Greeting → PeerFrame S
  ping_read : PeerFrame S
  pong_read : PeerFrame S
  query_read : Shaped (Text × Option DictKey) → PeerFrame S
  state_read : Shaped (Option DictKey × Option S) → PeerFrame S
  relay_read : Shaped RelayPayload → PeerFrame S
  other_read : PeerFrame S

-- The link of `_run_handshake_and_serve`, with `liveness`
pub record Link : Type 0 where
  pub peer_id : Text
  pub writer : ℕ
  pub last_pong_at : ℕ

pub data LinkEvent (S : Type 0) : Type 0 where
  -- a frame is read at a time; whether the answer to it is written
  reads : ℕ → PeerFrame S → Bool → LinkEvent S
  fails : LinkError → LinkEvent S
  -- the heartbeat wakes up at a time; whether the PING is written
  wakes : ℕ → Bool → LinkEvent S
  cancels : LinkEvent S

-- What the manager is constructed with
pub record Callbacks (S : Type 0) : Type 0 where
  -- the exception that `deliver_locally` raises, if it does
  pub deliver_locally : Relay → Option LinkError
  pub session_query_provider : Option (Text → Option S)
  -- the exception that it raises, if it does; where it does not, it knows no unhashable id
  pub provider_raises : DictKey → Option LinkError

-- The members that `_deliver_locally` is called with; `none` is a KeyError.
unfoldable pub complete : Text → RelayPayload → Option Relay
complete msg_id p = complete_with p.room_id p.text p.from_session
  where
    complete_with : Option Text → Option Text → Option Text → Option Relay
    complete_with none text from_session = none
    complete_with (some room_id) none from_session = none
    complete_with (some room_id) (some text) none = none
    complete_with (some room_id) (some text) (some from_session) = some (record {
      msg_id = msg_id;
      room_id = room_id;
      text = text;
      from_session = from_session;
      sent_at = p.sent_at;
    })

answered : Bool → Option LinkError
answered true = none
answered false = some connection_error

-- The test of `_heartbeat_loop` after the PING
unfoldable pub heartbeat : ℕ → ℕ → Bool → Option LinkError
heartbeat now last_pong_at false = some connection_error
heartbeat now last_pong_at true =
    if ltb pong_grace (now - last_pong_at) then some connection_error else none

module _ {S : Type 0} where
  unfoldable pub write_frame : ℕ → MeshFrame S → PeerManager S → PeerManager S
  write_frame writer frame m = record m { sent = m.sent ++ ((writer, frame) ∷ []) }

  module _ (callbacks : Callbacks S) where
    -- A RELAY frame whose id is there and new: its other members, then the callback
    deliver_new : Text → Text → Option Relay → PeerManager S → Option LinkError × PeerManager S
    deliver_new peer_id msg_id none m =
        (some key_error, record m { dedup = (seen_before msg_id m.dedup).1 })
    deliver_new peer_id msg_id (some r) m = elim (callbacks.deliver_locally r) [
      | none ↦ (none, on_relay peer_id r m)
      | some e ↦ (
        some e,
        record m { dedup = (seen_before msg_id m.dedup).1; delivered = m.delivered ++ (r ∷ []) },
      )
    ]

    relay_named :
        Text → RelayPayload → Option DictKey → PeerManager S → Option LinkError × PeerManager S
    unfolding deliver_new complete
    relay_named peer_id p none m = (some key_error, m)
    relay_named peer_id p (some unhashable) m = (some type_error, m)
    relay_named peer_id p (some (hashable msg_id)) m =
        let (seen, dedup) = seen_before msg_id m.dedup in
        if seen
        then (none, record m { dedup = dedup })
        else deliver_new peer_id msg_id (complete msg_id p) m

    -- The RELAY part of `_peer_read_loop`
    unfoldable pub read_relay :
        Text → Shaped RelayPayload → PeerManager S → Option LinkError × PeerManager S
    unfolding relay_named
    read_relay peer_id no_object m = (some type_error, m)
    read_relay peer_id (object p) m = relay_named peer_id p p.msg_id m

    -- The answer of a provider that does not raise
    provided : (Text → Option S) → ℕ → Text → DictKey → PeerManager S → PeerManager S
    provided provider writer request_id unhashable m = m
    provided provider writer request_id (hashable session_id) m =
        handle_session_query provider writer request_id session_id m

    -- `_handle_session_query`, with what it raises
    unfoldable pub answer_query :
        Option (Text → Option S)
        → ℕ
        → Shaped (Text × Option DictKey)
        → PeerManager S
        → Option LinkError × PeerManager S
    unfolding provided
    answer_query none writer query m = (none, m)
    answer_query (some provider) writer no_object m = (some attribute_error, m)
    answer_query (some provider) writer (object (request_id, none)) m = (none, m)
    answer_query (some provider) writer (object ([], some session_id)) m = (none, m)
    answer_query (some provider) writer (object (c ∷ request_id, some session_id)) m =
        elim (callbacks.provider_raises session_id) [
          | none ↦ (none, provided provider writer (c ∷ request_id) session_id m)
          | some e ↦ (some e, m)
        ]

    -- `_handle_session_state`, with what it raises
    unfoldable pub read_state :
        Shaped (Option DictKey × Option S) → PeerManager S → Option LinkError × PeerManager S
    read_state no_object m = (some attribute_error, m)
    read_state (object (none, snapshot)) m = (none, m)
    read_state (object (some unhashable, snapshot)) m = (some type_error, m)
    read_state (object (some (hashable request_id), snapshot)) m =
        (none, handle_session_state request_id snapshot m)

    -- One turn of `_peer_read_loop`
    unfoldable pub on_peer_frame :
        ℕ → PeerFrame S → Bool → Link → PeerManager S → Option LinkError × (Link × PeerManager S)
    unfolding read_relay write_frame answered answer_query read_state
    on_peer_frame now pong_read written link m = (none, (record link { last_pong_at = now }, m))
    on_peer_frame now ping_read written link m =
        (answered written, (link, if written then write_frame link.writer pong m else m))
    on_peer_frame now (query_read query) written link m =
        let (outcome, m') = answer_query callbacks.session_query_provider link.writer query m in
        (outcome, (link, m'))
    on_peer_frame now (state_read state) written link m =
        let (outcome, m') = read_state state m in (outcome, (link, m'))
    on_peer_frame now (relay_read p) written link m =
        let (outcome, m') = read_relay link.peer_id p m in (outcome, (link, m'))
    on_peer_frame now (hello_read greeting) written link m = (none, (link, m))
    on_peer_frame now other_read written link m = (none, (link, m))

    -- What an event does to a link: whether it ends it, and the link and the manager afterwards
    unfoldable pub turn :
        LinkEvent S → Link → PeerManager S → Option LinkError × (Link × PeerManager S)
    unfolding on_peer_frame heartbeat write_frame
    turn (reads now frame written) link m = on_peer_frame now frame written link m
    turn (fails error) link m = (some error, (link, m))
    turn (wakes now written) link m = (
      heartbeat now link.last_pong_at written,
      (link, if written then write_frame link.writer ping m else m),
    )
    turn cancels link m = (some cancelled, (link, m))

    -- The two tasks of a link until one of them ends, and the `finally` block. Without an error the
    -- link is still up after the events.
    unfoldable pub serve :
        List (LinkEvent S) → Link → PeerManager S → Option LinkError × PeerManager S
    unfolding turn
    serve [] link m = (none, m)
    serve (event ∷ events) link m =
        let (outcome, (link', m')) = turn event link m in
        let rest = serve events link' m' in
        elim outcome [ none ↦ rest | some e ↦ (some e, link_down link.peer_id link.writer m') ]
