-- ===== src/Node/Server/Chat.antt =====
-- What a client does once it is let in: messages and their broadcast, rooms, acknowledgements, and
-- the replay that comes first (node/server.py, from `_replay_unacked` to `_deliver_relayed_message`).
pub mod Broadcast
pub mod Once
pub mod Capacity
pub mod Quiet
use clustertalk_githubaction.Prelude.{
  ℕ, zero, suc, ◌+◌, Bool, true, false, not, Option, none, some, List, [], ◌∷◌, ◌++◌, length,
  if◌then◌else◌, Text, codes, nat_eq, list_eq, ◌==◌, leb, ok, err, Result,
}
use clustertalk_githubaction.Prelude.Dict
use clustertalk_githubaction.Prelude.Dict.{Dict}
use clustertalk_githubaction.Prelude.Sort.{filter}
use clustertalk_githubaction.Node.Mesh.{Relay, relay_message}
use clustertalk_githubaction.Node.Persistence.{RoomRow, put, upsert_room, queue_message_log}
use clustertalk_githubaction.Node.Persistence.Reads.{ReadError, get_room, get_all_rooms}
use clustertalk_githubaction.Node.SessionState.{SessionState, OutboundMessage, replay_from}
use clustertalk_githubaction.Node.SessionManager
use clustertalk_githubaction.Node.SessionManager.{
  SessionManager, general, get_or_create, set_room, send_message, receive_message,
  session_ids_in_room, get_loaded,
}
use clustertalk_githubaction.Node.Server.{
  Payload, chat, inbound, ClientFrame, hello, register, login, message, ack, join_room, get_rooms,
  ping, disconnect, other_frame, ServerFrame, RoomInfo, room_full, room_joined, rooms_list,
  message_frame, ack_frame, pong, key_error, ChatNode, Moment, Services, Handler, ◌>>=◌, ◌>>◌,
  return, raise, gets, modify, write_frame, with_manager, with_store, or_default, strip,
}

abbrev pub default_room_capacity : ℕ
default_room_capacity = 50

-- `_get_connected_session_ids_in_room`
unfoldable pub get_connected_session_ids_in_room : Text → ChatNode → List Text
unfolding session_ids_in_room filter
get_connected_session_ids_in_room room_id node =
    filter (λ sid. Dict.has sid node.connections) (session_ids_in_room room_id node.manager)

-- A call of the session manager that returns the manager alone
abbrev pub unit_result : {E A : Type 0} → Result E A → Result E (Unit {0} × A)
unit_result (err e) = err e
unit_result (ok a) = ok (tt, a)

-- `x or default` on a number
abbrev pub nat_or : Option ℕ → ℕ → ℕ
nat_or none d = d
nat_or (some zero) d = d
nat_or (some (suc n)) d = suc n

abbrev pub text_or : Option Text → Text → Text
text_or none d = d
text_or (some t) d = t

abbrev pub room_key : Text → Text
room_key room_id = codes "room:" ++ room_id

-- The room of the sender's session, as `get_loaded` finds it
abbrev pub room_of : Option (SessionState Payload) → Text
room_of none = general
room_of (some s) = s.room_id

-- The row that the first JOIN of a room asks for, and the capacity that counts
unfoldable pub capacity_of : Option RoomRow → ℕ
capacity_of none = default_room_capacity
capacity_of (some row) = row.max_capacity

-- The sender's session is loaded and in the room.
is_in_room : Text → Option (SessionState Payload) → Bool
is_in_room room_id none = false
is_in_room room_id (some s) = s.room_id == room_id

room_info : ChatNode → List (Text × RoomRow) → List RoomInfo
room_info node [] = []
room_info node ((room_id, row) ∷ rows) =
    record {
      room_id = room_id;
      name = row.name;
      max_capacity = row.max_capacity;
      current_count = length (get_connected_session_ids_in_room room_id node);
      created_by = row.created_by;
    }
    ∷ room_info node rows

-- The call of `relay_message`, where the mesh is up
unfoldable pub relay_to_mesh : Relay → Handler (Unit {0})
relay_to_mesh r = modify (λ node. elim node.mesh [
  | none ↦ node
  | some mesh ↦ record node { mesh = some (relay_message r mesh) }
])

module _ (services : Services) where
  -- The loop of `_replay_unacked`
  unfoldable pub replay_messages : ℕ → List (OutboundMessage Payload) → Handler (Unit {0})
  replay_messages writer [] = return tt
  replay_messages writer (msg ∷ msgs) = do
    write_frame writer (message_frame msg.seq msg.payload)
    replay_messages writer msgs

  -- `_replay_unacked`
  unfoldable pub replay_unacked : Text → ℕ → Handler (Unit {0})
  unfolding replay_messages
  replay_unacked session_id writer = do
    session ← with_manager (get_or_create services.json session_id general)
    replay_messages writer (replay_from 0 session)

  unfoldable pub write_to : Option ℕ → ServerFrame → Handler (Unit {0})
  write_to none frame = return tt
  write_to (some writer) frame = write_frame writer frame

  -- One recipient of `_broadcast_local`: the message is buffered, and written if it is connected.
  unfoldable pub send_to : ℕ → Payload → Text → Handler (Unit {0})
  unfolding write_to
  send_to now payload session_id = do
    seq ← with_manager (send_message services.json now session_id payload)
    target ← gets (λ node. Dict.get session_id node.connections)
    write_to target (message_frame seq payload)

  -- The loop of `_broadcast_local`
  unfoldable pub send_to_all : ℕ → Payload → Text → List Text → Handler (Unit {0})
  unfolding send_to
  send_to_all now payload from_session [] = return tt
  send_to_all now payload from_session (sid ∷ sids) =
      let rest = send_to_all now payload from_session sids in
      if sid == from_session then rest else send_to now payload sid >> rest

  -- `_broadcast_local`
  unfoldable pub broadcast_local : ℕ → Text → Text → Text → Text → Option ℕ → Handler (Unit {0})
  unfolding send_to_all
  broadcast_local now room_id text from_session from_name sent_at = do
    sids ← gets (λ node. session_ids_in_room room_id node.manager)
    send_to_all now (chat text from_name room_id sent_at) from_session sids

  -- `_broadcast`
  unfoldable pub broadcast : Moment → Text → Text → Text → Text → Option ℕ → Handler (Unit {0})
  unfolding broadcast_local relay_to_mesh
  broadcast moment from_session from_name room_id text sent_at = do
    broadcast_local moment.now room_id text from_session from_name sent_at
    relay_to_mesh (record {
      msg_id = moment.uuid;
      room_id = room_id;
      text = text;
      from_session = from_name;
      sent_at = sent_at;
    })

  -- `_deliver_relayed_message`
  unfoldable pub deliver_relayed_message : ℕ → Relay → Handler (Unit {0})
  unfolding broadcast_local
  deliver_relayed_message now r =
      broadcast_local now r.room_id r.text r.from_session r.from_session r.sent_at

  -- A message that is to be processed is logged under its room, and broadcast.
  unfoldable pub process_message : Moment → Text → ℕ → Text → ℕ → Handler (Unit {0})
  unfolding broadcast
  process_message moment session_id seq text sent_at = do
    room_id ← gets (λ node. room_of (get_loaded session_id node.manager))
    from_name ← gets (λ node. text_or (Dict.get session_id node.session_usernames) session_id)
    with_store (
        queue_message_log services.json (room_key room_id) seq
          (chat text from_name room_id (some sent_at)) sent_at)
    broadcast moment session_id from_name room_id text (some sent_at)

  -- `_handle_inbound_message`
  unfoldable pub handle_inbound_message :
      Moment → Text → Option ℕ → Option Text → Option ℕ → ℕ → Handler (Unit {0})
  unfolding process_message
  handle_inbound_message moment session_id none text sent_at writer = raise key_error
  handle_inbound_message moment session_id (some seq) text sent_at writer = do
    write_frame writer (ack_frame seq)
    should_process ←
        with_manager
          (receive_message services.json moment.wall session_id seq (inbound seq text sent_at))
    if should_process
        then process_message moment session_id seq (text_or text []) (nat_or sent_at moment.wall)
        else return tt

  create_room : Text → Text → Option RoomRow → Handler (Unit {0})
  create_room session_id room_id (some row) = return tt
  create_room session_id room_id none =
      with_store (put (upsert_room room_id room_id default_room_capacity session_id))

  -- `_handle_join_room` once the room and its members have been looked up
  unfoldable pub join_checked : Text → Text → ℕ → ℕ → Bool → ℕ → Handler (Unit {0})
  join_checked session_id room_id max_capacity current_count already_in_room writer =
      if already_in_room
      then write_frame writer (room_joined room_id)
      else if leb max_capacity current_count
      then write_frame writer (room_full room_id current_count max_capacity)
      else (do
        new_room ← with_manager (set_room services.json session_id room_id)
        write_frame writer (room_joined new_room))

  -- `_handle_join_room`
  unfoldable pub handle_join_room : Text → Option Text → ℕ → Handler (Unit {0})
  unfolding create_room capacity_of is_in_room join_checked
  handle_join_room session_id room writer = do
    let room_id = strip (or_default room general)
    room_meta ← gets (λ node. get_room room_id node.manager.store.db)
    create_room session_id room_id room_meta
    current_count ← gets (λ node. length (get_connected_session_ids_in_room room_id node))
    already_in_room ← gets (λ node. is_in_room room_id (get_loaded session_id node.manager))
    join_checked session_id room_id (capacity_of room_meta) current_count already_in_room writer

  -- `_handle_get_rooms`
  unfoldable pub handle_get_rooms : ℕ → Handler (Unit {0})
  unfolding room_info
  handle_get_rooms writer = do
    rooms ← gets (λ node. room_info node (get_all_rooms node.manager.store.db))
    write_frame writer (rooms_list rooms)

  -- One round of `_read_loop` on a frame: whether it goes on
  unfoldable pub read_frame_of : Moment → Text → ℕ → ClientFrame → Handler Bool
  unfolding handle_inbound_message handle_join_room handle_get_rooms
  read_frame_of moment sid writer (message seq text sent_at) = do
    handle_inbound_message moment sid seq text sent_at writer
    return true
  read_frame_of moment sid writer (ack none) = raise key_error
  read_frame_of moment sid writer (ack (some seq)) = do
    with_manager (λ m. unit_result (SessionManager.handle_ack services.json sid seq m))
    return true
  read_frame_of moment sid writer (join_room room) = do
    handle_join_room sid room writer
    return true
  read_frame_of moment sid writer get_rooms = do handle_get_rooms writer; return true
  read_frame_of moment sid writer ping = do write_frame writer pong; return true
  read_frame_of moment sid writer disconnect = return false
  read_frame_of moment sid writer (hello health session_id room) = return true
  read_frame_of moment sid writer (register username password) = return true
  read_frame_of moment sid writer (login username password role) = return true
  read_frame_of moment sid writer other_frame = return true
