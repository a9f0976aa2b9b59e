-- ===== src/Node/Server/Chat/Capacity.antt =====
-- What JOIN_ROOM does to the number of connected sessions in a room.
use clustertalk_githubaction.Node.Persistence.Reads.{get_room}
use clustertalk_githubaction.Node.SessionManager.Mirror.{get_or_create-live}
use clustertalk_githubaction.Node.SessionManager.Rooms.{count_kept-put}
use clustertalk_githubaction.Prelude.{
  ap, false, inr, inl, Bool-cases, text_eq_iff, max, if◌then◌else◌, ℕ, ◌≤◌, ◌+◌, ◌==◌, ◌≡◌, nat_eq,
  list_eq, Option, Bool, ok, none, some, refl, arith, Text,
}
use clustertalk_githubaction.Node.SessionManager.{
  get_loaded, persist_session_meta, general, set_room, session_ids_in_room,
}
use clustertalk_githubaction.Node.Server.Chat.{
  is_in_room, capacity_of, handle_join_room, join_checked, create_room, length,
  get_connected_session_ids_in_room,
}
use clustertalk_githubaction.Node.SessionState.{SessionState}
use clustertalk_githubaction.Node.Persistence.{RoomRow, OutboxStore}
use clustertalk_githubaction.Node.Server.{
  strip, or_default, room_full, leb, SessionManager, room_joined, ServerFrame, managed, write_frame,
  with_manager, Payload, with_store, Services, ChatNode,
}
use clustertalk_githubaction.Prelude.Dict
use clustertalk_githubaction.Prelude.Dict.{Dict}
use clustertalk_githubaction.Prelude.Set

-- The connected sessions in a room, by the session ids of the manager
abbrev pub count_connected : Text → ChatNode → ℕ
count_connected room node = length (get_connected_session_ids_in_room room node)

module _ (services : Services) where
  create_room-store :
      (sid room : Text) (meta : Option RoomRow) (node : ChatNode)
      → (store : OutboxStore) × (create_room services sid room meta node
          ≡ (ok tt, record node { manager = record node.manager { store = store } }))
  unfolding create_room with_store
  create_room-store sid room none node = (_, refl)
  create_room-store sid room (some row) node = (node.manager.store, refl)

  -- The manager after `set_room` on a live session
  abbrev after_set_room :
      Text → Text → SessionState Payload → SessionManager Payload → SessionManager Payload
  after_set_room sid room s m =
      let s' = record s { room_id = room } in
      record { store = persist_session_meta s' m.store; sessions = Dict.put sid s' m.sessions }

  set_room-after_set_room :
      (sid room : Text) (s : SessionState Payload) (m : SessionManager Payload)
      → Dict.get sid m.sessions ≡ some s
      → set_room services.json sid room m ≡ ok (room, after_set_room sid room s m)
  unfolding set_room
  set_room-after_set_room sid room s m live =
      rw (get_or_create-live services.json sid general s m live)

  count_connected-write_frame :
      (r : Text) (w : ℕ) (frame : ServerFrame) (node : ChatNode)
      → count_connected r (write_frame w frame node).1 ≡ count_connected r node
  unfolding write_frame get_connected_session_ids_in_room
  count_connected-write_frame r w frame node = elim (Bool-cases (Set.contains w node.broken)) [
    | inl broken ↦ rw broken
    | inr whole ↦ rw whole
  ]

  count_connected-set_room :
      (r sid room : Text) (s : SessionState Payload) (node : ChatNode)
      → count_connected r (record node { manager = after_set_room sid room s node.manager })
        ≤ count_connected r node + (if room == r then 1 else 0)
  unfolding get_connected_session_ids_in_room session_ids_in_room
  count_connected-set_room r sid room s node =
      count_kept-put (λ k. Dict.has k node.connections) r sid (record s { room_id = room })
        node.manager.sessions

  admitted-fits :
      (r sid room : Text) (capacity : ℕ) (s : SessionState Payload) (node : ChatNode)
      → leb capacity (count_connected room node) ≡ false
      → count_connected r (record node { manager = after_set_room sid room s node.manager })
        ≤ (if room == r then max (count_connected r node) capacity else count_connected r node)
  admitted-fits r sid room capacity s node space =
      let grown = count_connected-set_room r sid room s node in
      elim (Bool-cases (room == r)) [
        | inl same ↦
            let counts = ap (λ k. count_connected k node) ((text_eq_iff room r).0 same) in
            ground (arith, same, grown, counts, space)
        | inr other ↦ ground (arith, other, grown)
      ]

  join_checked-capacity :
      (sid room r : Text) (capacity : ℕ) (already : Bool) (w : ℕ) (s : SessionState Payload)
      (node : ChatNode)
      → Dict.get sid node.manager.sessions ≡ some s
      → count_connected r
          (join_checked services sid room capacity (count_connected room node) already w node).1
        ≤ (if room == r then max (count_connected r node) capacity else count_connected r node)
  unfolding join_checked with_manager managed
  join_checked-capacity sid room r capacity already w s node live =
      let joined = record node { manager = after_set_room sid room s node.manager } in
      elim (Bool-cases already) [
        | inl there ↦
            rw (there, count_connected-write_frame r w (room_joined room) node) (ground arith)
        | inr not_there ↦ elim (Bool-cases (leb capacity (count_connected room node))) [
          | inl full ↦
              rw
                (
                  not_there,
                  full,
                  count_connected-write_frame r w
                      (room_full room (count_connected room node) capacity) node,
                )
                (ground arith)
          | inr space ↦
              rw
                (
                  not_there,
                  space,
                  set_room-after_set_room sid room s node.manager live,
                  count_connected-write_frame r w (room_joined room) joined,
                )
                (admitted-fits r sid room capacity s node space)
        ]
      ]

  -- However a JOIN_ROOM of a live session ends, the connected sessions in the room that it names are
  -- afterwards as many as before at most, or within the capacity of the room, which is 50 for a room
  -- that is not stored; no other room has more than before.
  pub handle_join_room-capacity :
      (sid : Text) (asked : Option Text) (r : Text) (w : ℕ) (s : SessionState Payload)
      (node : ChatNode)
      → Dict.get sid node.manager.sessions ≡ some s
      → count_connected r (handle_join_room services sid asked w node).1 ≤ (
          if strip (or_default asked general) == r
          then max
              (count_connected r node)
              (capacity_of (get_room (strip (or_default asked general)) node.manager.store.db))
          else count_connected r node)
  unfolding handle_join_room get_connected_session_ids_in_room session_ids_in_room get_loaded
  handle_join_room-capacity sid asked r w s node live =
      let room = strip (or_default asked general) in
      let meta = get_room room node.manager.store.db in
      let (store, creation) = create_room-store sid room meta node in
      let node1 = record node { manager = record node.manager { store = store } } in
      rw creation (
        join_checked-capacity sid room r (capacity_of meta)
          (is_in_room room (get_loaded sid node.manager)) w s node1 live)
