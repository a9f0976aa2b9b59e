-- ===== src/Node/Server/Chat/Quiet.antt =====
-- What the handlers of this part keep, whether they return or raise.
use clustertalk_githubaction.Node.Persistence.Reads.{get_room, get_all_rooms}
use clustertalk_githubaction.Prelude.{
  Bool, true, [], ℕ, ◌∷◌, ◌==◌, nat_eq, list_eq, Result, inr, inl, Option-cases, Bool-cases, Option,
  List, none, some, refl, Text,
}
use clustertalk_githubaction.Node.Persistence.{OutboxStore, RoomRow, queue_message_log}
use clustertalk_githubaction.Node.SessionManager
use clustertalk_githubaction.Node.SessionManager.{
  set_room, receive_message, session_ids_in_room, send_message, get_or_create, get_loaded, general,
  Snapshot,
}
use clustertalk_githubaction.Node.Server.Chat.{
  is_in_room, room_info, length, create_room, unit_result, read_frame_of, nat_or, join_checked,
  handle_join_room, handle_inbound_message, handle_get_rooms, get_connected_session_ids_in_room,
  capacity_of, write_to, text_or, send_to_all, send_to, room_of, room_key, replay_unacked,
  replay_messages, relay_to_mesh, process_message, deliver_relayed_message, broadcast_local,
  broadcast,
}
use clustertalk_githubaction.Node.Mesh.{Relay, PeerManager}
use clustertalk_githubaction.Node.SessionState.{replay_from, OutboundMessage}
use clustertalk_githubaction.Node.Server.Logic.{Leaves-then_run}
use clustertalk_githubaction.Node.Server.Steady.{
  write_frame-IsSteady, with_manager-IsSteady, same, IsSteady,
}
use clustertalk_githubaction.Node.Server.{
  Text, Text, Text, Text, Text, Text, Text, Text, pong, message, ack, join_room, get_rooms, ping,
  disconnect, hello, register, login, other_frame, room_full, leb, ack_frame, rooms_list, inbound,
  room_joined, then_run, strip, return, or_default, ClientFrame, chat, message_frame, write_frame,
  with_store, with_manager, Services, ServerFrame, ServerError, Payload, Moment, ChatNode,
}
use clustertalk_githubaction.Prelude.Dict

-- What holds of a node and survives a write of a frame, a change of the store or of the mesh, and the
-- calls of the session manager
pub record IsLasting (services : Services) (kept : ChatNode → Type 0) : Type 0 where
  pub writes :
      (w : ℕ) (f : ServerFrame) (node : ChatNode) → kept node → kept (write_frame w f node).1
  pub stores :
      (store : OutboxStore) (node : ChatNode)
      → kept node
      → kept (record node { manager = record node.manager { store = store } })
  pub relays :
      (mesh : Option (PeerManager (Snapshot Payload))) (node : ChatNode)
      → kept node
      → kept (record node { mesh = mesh })
  pub gets :
      (t room : Text) (node : ChatNode)
      → kept node
      → kept (with_manager (get_or_create services.json t room) node).1
  pub sends :
      (now : ℕ) (t : Text) (p : Payload) (node : ChatNode)
      → kept node
      → kept (with_manager (send_message services.json now t p) node).1
  pub receives :
      (wall : ℕ) (t : Text) (n : ℕ) (p : Payload) (node : ChatNode)
      → kept node
      → kept (with_manager (receive_message services.json wall t n p) node).1
  pub joins :
      (t room : Text) (node : ChatNode)
      → kept node
      → kept (with_manager (set_room services.json t room) node).1
  pub acks :
      (t : Text) (n : ℕ) (node : ChatNode)
      → kept node
      → kept
          (with_manager (λ m. unit_result (SessionManager.handle_ack services.json t n m)) node).1

module _ (services : Services) (kept : ChatNode → Type 0) (lasting : IsLasting services kept) where
  abbrev Quiet : {A : Type 0} → Result ServerError A × ChatNode → Type 0
  Quiet run = kept run.1

  replay_messages_lasts :
      (w : ℕ) (msgs : List (OutboundMessage Payload)) (node : ChatNode)
      → kept node
      → Quiet (replay_messages services w msgs node)
  unfolding replay_messages
  replay_messages_lasts w [] node h = h
  replay_messages_lasts w (msg ∷ msgs) node h =
      Leaves-then_run kept (write_frame w (message_frame msg.seq msg.payload) node) _
        (lasting.writes w (message_frame msg.seq msg.payload) node h)
        (λ _ node'. replay_messages_lasts w msgs node')

  pub replay_unacked_lasts :
      (sid : Text) (w : ℕ) (node : ChatNode)
      → kept node
      → Quiet (replay_unacked services sid w node)
  unfolding replay_unacked
  replay_unacked_lasts sid w node h =
      Leaves-then_run kept (with_manager (get_or_create services.json sid general) node) _
        (lasting.gets sid general node h)
        (λ session node'. replay_messages_lasts w (replay_from 0 session) node')

  write_to_lasts :
      (target : Option ℕ) (f : ServerFrame) (node : ChatNode)
      → kept node
      → Quiet (write_to services target f node)
  unfolding write_to
  write_to_lasts none f node h = h
  write_to_lasts (some w) f node h = lasting.writes w f node h

  send_to_lasts :
      (now : ℕ) (p : Payload) (sid : Text) (node : ChatNode)
      → kept node
      → Quiet (send_to services now p sid node)
  unfolding send_to
  send_to_lasts now p sid node h =
      Leaves-then_run kept (with_manager (send_message services.json now sid p) node) _
        (lasting.sends now sid p node h)
        (λ seq node'. write_to_lasts (Dict.get sid node'.connections) (message_frame seq p) node')

  send_to_all_lasts :
      (now : ℕ) (p : Payload) (from : Text) (sids : List Text) (node : ChatNode)
      → kept node
      → Quiet (send_to_all services now p from sids node)
  unfolding send_to_all
  send_to_all_lasts now p from [] node h = h
  send_to_all_lasts now p from (sid ∷ sids) node h = elim (Bool-cases (sid == from)) [
    | inl sender ↦ rw sender (send_to_all_lasts now p from sids node h)
    | inr recipient ↦ rw recipient (
        Leaves-then_run kept (send_to services now p sid node) _ (send_to_lasts now p sid node h)
          (λ _ node'. send_to_all_lasts now p from sids node'))
  ]

  broadcast_local_lasts :
      (now : ℕ) (room text from name : Text) (at : Option ℕ) (node : ChatNode)
      → kept node
      → Quiet (broadcast_local services now room text from name at node)
  unfolding broadcast_local
  broadcast_local_lasts now room text from name at node h =
      send_to_all_lasts now (chat text name room at) from (session_ids_in_room room node.manager)
        node h

  pub deliver_relayed_message_lasts :
      (now : ℕ) (r : Relay) (node : ChatNode)
      → kept node
      → Quiet (deliver_relayed_message services now r node)
  unfolding deliver_relayed_message
  deliver_relayed_message_lasts now r node h =
      broadcast_local_lasts now r.room_id r.text r.from_session r.from_session r.sent_at node h

  relay_to_mesh_lasts : (r : Relay) (node : ChatNode) → kept node → Quiet (relay_to_mesh r node)
  unfolding relay_to_mesh
  relay_to_mesh_lasts r node h = elim (Option-cases node.mesh) [
    | inl down ↦ rw down h
    | inr (mesh, up) ↦ rw up (lasting.relays _ node h)
  ]

  pub process_message_lasts :
      (moment : Moment) (sid : Text) (seq : ℕ) (text : Text) (at : ℕ) (node : ChatNode)
      → kept node
      → Quiet (process_message services moment sid seq text at node)
  unfolding process_message broadcast with_store
  process_message_lasts moment sid seq text at node h =
      let room = room_of (get_loaded sid node.manager) in
      let name = text_or (Dict.get sid node.session_usernames) sid in
      let logged = record node {
        manager = record node.manager {
          store =
              queue_message_log services.json (room_key room) seq (chat text name room (some at)) at
                node.manager.store;
        };
      } in
      Leaves-then_run kept (broadcast_local services moment.now room text sid name (some at) logged)
        _
        (broadcast_local_lasts moment.now room text sid name (some at) logged
          (lasting.stores _ node h))
        (λ _ node'. relay_to_mesh_lasts _ node')

  -- A handler, and then a value
  abbrev with_value :
      {A : Type 0} (run : Result ServerError (Unit {0}) × ChatNode) (a : A)
      → Quiet run
      → Quiet (then_run run (λ _. return a))
  with_value run a h = Leaves-then_run kept run _ h (λ _ node'. λ k. k)

  handle_inbound_message_lasts :
      (moment : Moment) (sid : Text) (seq : Option ℕ) (text : Option Text) (at : Option ℕ) (w : ℕ)
      (node : ChatNode)
      → kept node
      → Quiet (handle_inbound_message services moment sid seq text at w node)
  unfolding handle_inbound_message
  handle_inbound_message_lasts moment sid none text at w node h = h
  handle_inbound_message_lasts moment sid (some seq) text at w node h =
      let receive = receive_message services.json moment.wall sid seq (inbound seq text at) in
      Leaves-then_run kept (write_frame w (ack_frame seq) node) _
        (lasting.writes w (ack_frame seq) node h)
        (λ _ node1. λ h1.
          Leaves-then_run kept (with_manager receive node1) _
            (lasting.receives moment.wall sid seq (inbound seq text at) node1 h1)
            (λ should_process node2. λ h2. elim (Bool-cases should_process) [
              | inl new ↦ rw new (
                  process_message_lasts moment sid seq (text_or text []) (nat_or at moment.wall)
                    node2 h2)
              | inr old ↦ rw old h2
            ]))

  create_room_lasts :
      (sid room : Text) (meta : Option RoomRow) (node : ChatNode)
      → kept node
      → Quiet (create_room services sid room meta node)
  unfolding create_room with_store
  create_room_lasts sid room none node h = lasting.stores _ node h
  create_room_lasts sid room (some row) node h = h

  join_checked_lasts :
      (sid room : Text) (capacity count : ℕ) (already : Bool) (w : ℕ) (node : ChatNode)
      → kept node
      → Quiet (join_checked services sid room capacity count already w node)
  unfolding join_checked
  join_checked_lasts sid room capacity count already w node h = elim (Bool-cases already) [
    | inl there ↦ rw there (lasting.writes w (room_joined room) node h)
    | inr not_there ↦ elim (Bool-cases (leb capacity count)) [
      | inl full ↦ rw (not_there, full) (lasting.writes w (room_full room count capacity) node h)
      | inr space ↦
          rw (not_there, space)
            (Leaves-then_run kept (with_manager (set_room services.json sid room) node) _
              (lasting.joins sid room node h)
              (λ joined node'. lasting.writes w (room_joined joined) node'))
    ]
  ]

  handle_join_room_lasts :
      (sid : Text) (asked : Option Text) (w : ℕ) (node : ChatNode)
      → kept node
      → Quiet (handle_join_room services sid asked w node)
  unfolding handle_join_room
  handle_join_room_lasts sid asked w node h =
      let room = strip (or_default asked general) in
      let meta = get_room room node.manager.store.db in
      Leaves-then_run kept (create_room services sid room meta node) _
        (create_room_lasts sid room meta node h)
        (λ _ node'.
          join_checked_lasts sid room (capacity_of meta)
            (length (get_connected_session_ids_in_room room node'))
            (is_in_room room (get_loaded sid node'.manager)) w node')

  handle_get_rooms_lasts :
      (w : ℕ) (node : ChatNode) → kept node → Quiet (handle_get_rooms services w node)
  unfolding handle_get_rooms
  handle_get_rooms_lasts w node h =
      lasting.writes w (rooms_list (room_info node (get_all_rooms node.manager.store.db))) node h

  pub read_frame_of_lasts :
      (moment : Moment) (sid : Text) (w : ℕ) (f : ClientFrame) (node : ChatNode)
      → kept node
      → Quiet (read_frame_of services moment sid w f node)
  unfolding read_frame_of
  read_frame_of_lasts moment sid w (message seq text at) node h =
      with_value _ true (handle_inbound_message_lasts moment sid seq text at w node h)
  read_frame_of_lasts moment sid w (ack none) node h = h
  read_frame_of_lasts moment sid w (ack (some seq)) node h =
      with_value _ true (lasting.acks sid seq node h)
  read_frame_of_lasts moment sid w (join_room asked) node h =
      with_value _ true (handle_join_room_lasts sid asked w node h)
  read_frame_of_lasts moment sid w get_rooms node h =
      with_value _ true (handle_get_rooms_lasts w node h)
  read_frame_of_lasts moment sid w ping node h = with_value _ true (lasting.writes w pong node h)
  read_frame_of_lasts moment sid w disconnect node h = h
  read_frame_of_lasts moment sid w (hello health session_id room) node h = h
  read_frame_of_lasts moment sid w (register username password) node h = h
  read_frame_of_lasts moment sid w (login username password role) node h = h
  read_frame_of_lasts moment sid w other_frame node h = h

-- No handler of this part touches the registry of connections.
module _ (services : Services) (before : ChatNode) where
  IsSteady-lasts : IsLasting services (IsSteady before)
  IsSteady-lasts = record {
    writes = write_frame-IsSteady before;
    stores = λ store node h. same before node _ refl refl refl h;
    relays = λ mesh node h. same before node _ refl refl refl h;
    gets =
        λ t room node h. with_manager-IsSteady before (get_or_create services.json t room) node h;
    sends =
        λ now t p node h. with_manager-IsSteady before (send_message services.json now t p) node h;
    receives = λ wall t n p node h.
        with_manager-IsSteady before (receive_message services.json wall t n p) node h;
    joins = λ t room node h. with_manager-IsSteady before (set_room services.json t room) node h;
    acks = λ t n node h.
        with_manager-IsSteady before
          (λ m. unit_result (SessionManager.handle_ack services.json t n m)) node h;
  }

  pub replay_unacked-IsSteady :
      (sid : Text) (w : ℕ) (node : ChatNode)
      → IsSteady before node
      → IsSteady before (replay_unacked services sid w node).1
  replay_unacked-IsSteady = replay_unacked_lasts services (IsSteady before) IsSteady-lasts

  pub deliver_relayed_message-IsSteady :
      (now : ℕ) (r : Relay) (node : ChatNode)
      → IsSteady before node
      → IsSteady before (deliver_relayed_message services now r node).1
  deliver_relayed_message-IsSteady =
      deliver_relayed_message_lasts services (IsSteady before) IsSteady-lasts

  pub read_frame_of-IsSteady :
      (moment : Moment) (sid : Text) (w : ℕ) (f : ClientFrame) (node : ChatNode)
      → IsSteady before node
      → IsSteady before (read_frame_of services moment sid w f node).1
  read_frame_of-IsSteady = read_frame_of_lasts services (IsSteady before) IsSteady-lasts
