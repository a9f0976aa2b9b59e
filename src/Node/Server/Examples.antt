-- ===== src/Node/Server/Examples.antt =====
-- A node with two clients in one room.
mod ToyJson
use clustertalk_githubaction.Node.Server.Examples.ToyJson.{toy_payloads}
use clustertalk_githubaction.Node.Password.RoundTrip.{verify_password-hash_password}
use clustertalk_githubaction.Node.Server.Machine.Reachable.{one_connection}
use clustertalk_githubaction.Node.Password.{verify_password, hash_password}
use clustertalk_githubaction.Node.Server.Machine.{
  connect, frame, read_end, lost, after_events, after_event, NodeEvent,
}
use clustertalk_githubaction.Node.Server.Connection.Leftover.{on_frame-leftover}
use clustertalk_githubaction.Node.Server.Connection.{
  on_connect, begin_session, on_frame, on_read_end, ended, served, on_frame_in, end_connection,
  cleanup_connection,
}
use clustertalk_githubaction.Node.Server.Auth.Credentials.{register_then_login, decided}
use clustertalk_githubaction.Node.Server.Auth.{
  reset_session, register_connection, recover_requested, recover_from_mesh, hello_as,
  handle_hello_after_auth, auth_gate, username_ok, setup_session_for_user, password_ok,
  handle_register, handle_login, client_role,
}
use clustertalk_githubaction.Node.Server.Connection.Strangers.{on_frame-IsUntouched, IsUntouched}
use clustertalk_githubaction.Node.SessionState.{
  should_process_inbound, mark_inbound_processed, advance, reset_inbound, replay_from, SessionState,
}
use clustertalk_githubaction.Prelude.Dict.{IsDistinct}
use clustertalk_githubaction.Node.Server.Machine.Processed.{AreThrough}
use clustertalk_githubaction.Node.Server.Chat.Once.{handle_inbound_message-twice}
use clustertalk_githubaction.Node.Persistence.Reads.{load_session, load_outbox, get_room}
use clustertalk_githubaction.Node.SessionManager.{
  receive_message, send_message, recover_or_create, hold, get_or_create, session_ids_in_room,
  get_loaded, general,
}
use clustertalk_githubaction.Node.Server.Chat.Capacity.{handle_join_room-capacity, count_connected}
use clustertalk_githubaction.Node.Server.Chat.Broadcast.{
  broadcast_local-broken, broadcast_local-Mirrors,
}
use clustertalk_githubaction.Node.Server.Chat.{
  replay_unacked, replay_messages, handle_join_room, handle_inbound_message,
  get_connected_session_ids_in_room, capacity_of, broadcast_local, process_message, read_frame_of,
  broadcast, send_to_all, send_to, write_to, relay_to_mesh,
}
use clustertalk_githubaction.Node.Persistence.{start, empty_db, apply_batch}
use clustertalk_githubaction.Node.SessionManager.Durability.{after_send}
use clustertalk_githubaction.Node.SessionManager.Mirror.{Mirrors}
use clustertalk_githubaction.Node.SessionState.Outbound.{init-IsValid, IsValid}
use clustertalk_githubaction.Protocol.Framing.{Orjson, Bytes}
use clustertalk_githubaction.Node.AuthStore.{find_user, AuthStore}
use clustertalk_githubaction.Prelude.{
  ◌||◌, List, ◌==◌, zero, suc, ◌≤◌, err, ok, ◌%◌, drop-append_length, length, take-append_length,
  [], ℕ, ◌<◌, ◌+◌, ◌∷◌, ◌++◌, ◌≡◌, Option, none, some, refl, arith, nat_eq, list_eq, Text, take,
  drop, codes, true, false,
}
use clustertalk_githubaction.Prelude.Dict
use clustertalk_githubaction.Prelude.Set
use clustertalk_githubaction.Prelude.Sort.{filter, sort_by}
use clustertalk_githubaction.Node.Server
use clustertalk_githubaction.Node.SessionState
use clustertalk_githubaction.Node.Server.{
  with_manager, with_store, message, ping, registered, hello, ◌>>=◌, ◌>>◌, write_frame, return,
  or_default, authenticating, connection_error, ack_frame, chatting, strip, Services, Payload,
  Moment, ChatNode, chat, inbound,
}

-- The key that is derived is one byte, the length of password and salt together.
abbrev toy_services : Services
toy_services = record {
  json = toy_payloads;
  pbkdf2 = λ password salt. ((length password + length salt) % 256) ∷ [];
  session_id_for_user = λ username. codes "id-" ++ username;
}

abbrev moment : Moment
moment = record { now = 70; wall = 700; uuid = codes "u1"; salt = 200 ∷ 15 ∷ []; answer = none }

abbrev no_accounts : AuthStore
no_accounts = record { users = [] }

abbrev node0 : ChatNode
node0 = Server.init (start empty_db) no_accounts none

-- Al and Bo are in the chat, on the writers 1 and 2, in the same room.
abbrev fresh : Text → SessionState Payload
fresh sid = SessionState.init sid 1 0 (codes "general")

abbrev al_bo : ChatNode
al_bo = record node0 {
  manager = record {
    store = start empty_db;
    sessions = (codes "al", fresh (codes "al")) ∷ (codes "bo", fresh (codes "bo")) ∷ [];
  };
  connections = (codes "al", 1) ∷ (codes "bo", 2) ∷ [];
  phases = (1, chatting (codes "al")) ∷ (2, chatting (codes "bo")) ∷ (3, authenticating) ∷ [];
}

al_bo_IsDistinct : IsDistinct al_bo.manager.sessions
unfolding Dict.get
al_bo_IsDistinct = ground arith

fresh-IsValid : (sid : Text) → IsValid (fresh sid)
fresh-IsValid sid = init-IsValid sid 1 0 (codes "general")

fresh-Mirrors : Mirrors toy_payloads (codes "al") (fresh (codes "al")) al_bo.manager
unfolding Dict.get apply_batch start SessionState.init
fresh-Mirrors = record { live = refl; rows = λ n. refl }

fresh-Mirrors_second : Mirrors toy_payloads (codes "bo") (fresh (codes "bo")) al_bo.manager
unfolding Dict.get apply_batch start SessionState.init
fresh-Mirrors_second = record { live = refl; rows = λ n. refl }

broadcast_local-Mirrors_example :
    (node' : ChatNode) × (broadcast_local toy_services 70
        (codes "general")
        (codes "hi")
        (codes "al")
        (codes "Al")
        none
        al_bo
      ≡ (ok tt, node'))
    × Mirrors toy_payloads
        (codes "bo")
        (SessionState.prepare_outbound 70
          (chat (codes "hi") (codes "Al") (codes "general") none)
          (fresh (codes "bo"))).1
        node'.manager
    × (node'.broken ≡ [])
unfolding SessionState.init Server.init
broadcast_local-Mirrors_example =
    broadcast_local-Mirrors toy_services 70 (codes "general") (codes "hi") (codes "al") (codes "Al")
      none (codes "bo") (fresh (codes "bo")) al_bo refl al_bo_IsDistinct
      (fresh-IsValid (codes "bo")) fresh-Mirrors_second

-- Al's connection is lost, and Bo writes.
broadcast_local-broken_example :
    broadcast_local toy_services 70
      (codes "general")
      (codes "hi")
      (codes "bo")
      (codes "Bo")
      none
      (record al_bo { broken = 1 ∷ [] })
    ≡ (
      err connection_error,
      record al_bo {
        broken = 1 ∷ [];
        manager =
            after_send toy_payloads 70
              (codes "al")
              (chat (codes "hi") (codes "Bo") (codes "general") none)
              (fresh (codes "al"))
              al_bo.manager;
      },
    )
unfolding Dict.get session_ids_in_room SessionState.init Set.contains
broadcast_local-broken_example =
    broadcast_local-broken toy_services 70 (codes "general") (codes "hi") (codes "bo") (codes "Bo")
      none (codes "al") (codes "bo" ∷ []) 1 (fresh (codes "al")) (record al_bo { broken = 1 ∷ [] })
      refl refl refl refl refl

-- Al and Bo write, a stranger comes and another goes, and Bo's peer is lost.
abbrev meanwhile : List NodeEvent
meanwhile =
    frame moment 1 (message (some 2) (some (codes "hi")) none)
    ∷ frame moment 2 (message (some 1) (some (codes "yo")) none)
    ∷ connect 4
    ∷ read_end 3
    ∷ lost 2
    ∷ []

abbrev after_hi : ChatNode
after_hi =
    (handle_inbound_message toy_services moment (codes "al") (some 1) (some (codes "hi")) none 1
      al_bo).1

abbrev later : ChatNode
later = after_events toy_services meanwhile after_hi

meanwhile-AreThrough : AreThrough toy_services meanwhile after_hi
unfolding AreThrough handle_inbound_message process_message read_frame_of write_frame with_manager
    with_store broadcast broadcast_local send_to_all send_to write_to relay_to_mesh Server.init
    session_ids_in_room receive_message send_message get_or_create hold should_process_inbound
    mark_inbound_processed advance SessionState.prepare_outbound SessionState.init Dict.get Dict.put
    Dict.remove Set.contains Set.add Set.discard get_loaded after_events after_event on_frame
    on_connect on_read_end ended served on_frame_in end_connection cleanup_connection
meanwhile-AreThrough = (tt, (tt, tt))

still_whole : Set.contains 1 later.broken ≡ false
unfolding handle_inbound_message process_message read_frame_of write_frame with_manager with_store
    broadcast broadcast_local send_to_all send_to write_to relay_to_mesh Server.init
    session_ids_in_room receive_message send_message get_or_create hold should_process_inbound
    mark_inbound_processed advance SessionState.prepare_outbound SessionState.init Dict.get Dict.put
    Dict.remove Set.contains Set.add Set.discard get_loaded after_events after_event on_frame
    on_connect on_read_end ended served on_frame_in end_connection cleanup_connection
still_whole = refl

handle_inbound_message-twice_example :
    handle_inbound_message toy_services moment
      (codes "al")
      (some 1)
      (some (codes "again"))
      none
      1
      later
    ≡ (ok tt, record later { sent = later.sent ++ (1, ack_frame 1) ∷ [] })
unfolding Server.init Dict.get Set.contains
handle_inbound_message-twice_example =
    handle_inbound_message-twice toy_services moment (codes "al") 1 (some (codes "hi")) none 1
      (fresh (codes "al")) al_bo meanwhile moment (some (codes "again")) none 1 after_hi later refl
      refl refl meanwhile-AreThrough refl still_whole

handle_join_room-capacity_example :
    count_connected
      (codes "x")
      (handle_join_room toy_services (codes "bo") (some (codes " x ")) 2 al_bo).1
    ≤ 50
unfolding Dict.get get_room strip get_connected_session_ids_in_room session_ids_in_room capacity_of
    start filter SessionState.init
handle_join_room-capacity_example =
    handle_join_room-capacity toy_services (codes "bo") (some (codes " x ")) (codes "x") 2
      (fresh (codes "bo")) al_bo refl

register_then_login_example :
    (store : AuthStore) × (handle_register toy_services moment 3
        (some (codes "cyd"))
        (some (codes "secret"))
        al_bo
      ≡ (do
        write_frame 3 registered
        sid ← setup_session_for_user toy_services moment (codes "cyd") 3 client_role
        return (some sid))
          (record al_bo { auth_store = store }))
    × ((moment' : Moment) (w' : ℕ) (given role : Option Text) (node' : ChatNode)
        → node'.auth_store ≡ store
        → handle_login toy_services moment' w' (some (codes "cyd")) given role node'
          ≡ decided toy_services moment' w'
              (codes "cyd")
              client_role
              (((length (or_default given []) + 2) % 256 ∷ []) == (8 ∷ []))
              (or_default role client_role == client_role)
              node')
unfolding Server.init strip find_user Dict.get username_ok password_ok
register_then_login_example =
    register_then_login toy_services moment 3 (some (codes "cyd")) (some (codes "secret")) al_bo
      refl refl refl (omega arith, (omega arith, tt)) (omega arith, tt)

on_frame-IsUntouched_example : IsUntouched 3 al_bo (on_frame toy_services moment 3 ping al_bo)
unfolding Dict.get
on_frame-IsUntouched_example = on_frame-IsUntouched toy_services moment 3 ping al_bo refl refl

-- Bo comes back on the writer 3, which breaks before the answer.
on_frame-leftover_example :
    (Dict.get
        (codes "bo")
        (on_frame toy_services moment 3
          (hello false (some (codes "bo")) none)
          (record al_bo { broken = 3 ∷ [] })).connections
      ≡ some 3)
    × (Dict.get 3
          (on_frame toy_services moment 3
            (hello false (some (codes "bo")) none)
            (record al_bo { broken = 3 ∷ [] })).phases
        ≡ none)
unfolding Dict.get Set.contains Server.init
on_frame-leftover_example =
    on_frame-leftover toy_services moment 3 98 (111 ∷ []) none (fresh (codes "bo"))
      (record al_bo { broken = 3 ∷ [] }) refl refl refl refl

verify_password-hash_password_example :
    verify_password
      (λ p salt. length p ∷ [])
      (codes "abc")
      (hash_password (λ p salt. length p ∷ []) (171 ∷ 9 ∷ []) (codes "xyz"))
    ≡ true
verify_password-hash_password_example =
    verify_password-hash_password (λ p salt. length p ∷ []) (171 ∷ 9 ∷ []) (codes "xyz")
      (codes "abc") (omega arith, (omega arith, tt)) (omega arith, tt)

-- The same session on the writer 1, and then on the writer 2
abbrev twice : List NodeEvent
twice =
    connect 1
    ∷ frame moment 1 (hello false (some (codes "al")) none)
    ∷ connect 2
    ∷ frame moment 2 (hello false (some (codes "al")) none)
    ∷ []

abbrev ended_up : ChatNode
ended_up = after_events toy_services twice node0

one_connection_example :
    (Set.contains 1 ended_up.evictions || Set.contains 2 ended_up.evictions) ≡ true
unfolding after_events after_event on_connect on_frame auth_gate begin_session
    handle_hello_after_auth hello_as recover_requested recover_from_mesh register_connection
    with_manager get_or_create recover_or_create hold reset_session write_frame replay_unacked
    replay_messages replay_from Dict.get Dict.put Set.contains load_outbox load_session start
    SessionState.init reset_inbound Server.init Server.SessionManager.init sort_by
one_connection_example =
    one_connection toy_services twice (start empty_db) no_accounts none 1 2 (codes "al") refl refl
      refl
