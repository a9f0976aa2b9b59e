-- ===== src/Node/Server/Machine/Processed.antt =====
-- A number that a live session has processed stays processed, whatever happens at the node, as long as
-- no frame comes to the auth gate.
use clustertalk_githubaction.Prelude.{
  ℕ, false, Option, some, List, [], ◌∷◌, Text, nat_eq, list_eq, Result, ok, err, Bool-cases,
  Option-cases, inl, inr, Bool, none, true,
}
use clustertalk_githubaction.Prelude.Dict
use clustertalk_githubaction.Prelude.Set
use clustertalk_githubaction.Node.Persistence.Reads.{ReadError}
use clustertalk_githubaction.Node.SessionState.{OutboundMessage, pending_for_retry}
use clustertalk_githubaction.Node.SessionManager
use clustertalk_githubaction.Node.SessionManager.{
  SessionManager, get_loaded, hold, get_or_create, set_room, send_message, receive_message,
}
use clustertalk_githubaction.Node.SessionManager.Processed.{
  IsProcessed, Keeps, KeepsAlone, get_or_create-Keeps, set_room-Keeps, send_message-Keeps,
  receive_message-Keeps, handle_ack-Keeps, marked_retried-IsProcessed,
}
use clustertalk_githubaction.Node.Server.{
  Payload, ClientFrame, ServerFrame, ServerError, Phase, authenticating, chatting,
  logged_in_elsewhere, ChatNode, Moment, Services, managed, write_frame, with_manager,
}
use clustertalk_githubaction.Node.Server.Connection.{
  retry_messages, retry_session, retry_sessions, retry_round, retry_after, ended, served,
  on_frame_in, on_frame, end_connection, cleanup_connection, on_connect, on_read_end, on_relayed,
  run_eviction,
}
use clustertalk_githubaction.Node.Server.Machine.{
  NodeEvent, frame, connect, read_end, lost, evict, relayed, retry, after_event, after_events,
}
use clustertalk_githubaction.Node.Server.Chat.{unit_result, read_frame_of}
use clustertalk_githubaction.Node.Server.Chat.Quiet.{
  IsLasting, read_frame_of_lasts, deliver_relayed_message_lasts,
}

-- A connection that is not in front of the auth gate
abbrev pub IsThrough : Option Phase → Type 0
IsThrough none = Unit
IsThrough (some authenticating) = ⊥
IsThrough (some (chatting sid)) = Unit

module _ (services : Services) where
  -- Each frame among the events arrives on a connection that has been let in already, or is served no
  -- more.
  unfoldable pub AreThrough : List NodeEvent → ChatNode → Type 0
  AreThrough [] node = Unit
  AreThrough (frame moment w f ∷ events) node =
      IsThrough (Dict.get w node.phases)
      × AreThrough events (after_event services (frame moment w f) node)
  AreThrough (connect w ∷ events) node = AreThrough events (after_event services (connect w) node)
  AreThrough (read_end w ∷ events) node = AreThrough events (after_event services (read_end w) node)
  AreThrough (lost w ∷ events) node = AreThrough events (after_event services (lost w) node)
  AreThrough (evict w ∷ events) node = AreThrough events (after_event services (evict w) node)
  AreThrough (relayed now r ∷ events) node =
      AreThrough events (after_event services (relayed now r) node)
  AreThrough (retry now ∷ events) node = AreThrough events (after_event services (retry now) node)

  module _ (sid : Text) (seq : ℕ) where
    abbrev pub IsOld : ChatNode → Type 0
    IsOld node = IsProcessed sid seq node.manager

    managed-IsOld :
        {A : Type 0} (outcome : Result ReadError (A × SessionManager Payload)) (node : ChatNode)
        → Keeps sid seq outcome
        → IsOld node
        → IsOld (managed outcome node).1
    unfolding managed
    managed-IsOld (err e) node left h = h
    managed-IsOld (ok (a, m)) node left h = left

    Keeps-unit_result :
        (outcome : Result ReadError (SessionManager Payload))
        → KeepsAlone sid seq outcome
        → Keeps sid seq (unit_result outcome)
    Keeps-unit_result (err e) left = tt
    Keeps-unit_result (ok m) left = left

    write_frame-IsOld :
        (w : ℕ) (f : ServerFrame) (node : ChatNode) → IsOld node → IsOld (write_frame w f node).1
    unfolding write_frame
    write_frame-IsOld w f node h = elim (Bool-cases (Set.contains w node.broken)) [
      | inl broken ↦ rw broken h
      | inr whole ↦ rw whole h
    ]

    pub IsOld-lasts : IsLasting services IsOld
    unfolding with_manager
    IsOld-lasts = record {
      writes = write_frame-IsOld;
      stores = λ store node h. h;
      relays = λ mesh node h. h;
      gets = λ t room node h.
          managed-IsOld (get_or_create services.json t room node.manager) node
            (get_or_create-Keeps sid seq services.json t room node.manager h) h;
      sends = λ now t p node h.
          managed-IsOld (send_message services.json now t p node.manager) node
            (send_message-Keeps sid seq services.json now t p node.manager h) h;
      receives = λ wall t n p node h.
          managed-IsOld (receive_message services.json wall t n p node.manager) node
            (receive_message-Keeps sid seq services.json wall t n p node.manager h) h;
      joins = λ t room node h.
          managed-IsOld (set_room services.json t room node.manager) node
            (set_room-Keeps sid seq services.json t room node.manager h) h;
      acks = λ t n node h.
          managed-IsOld (unit_result (SessionManager.handle_ack services.json t n node.manager))
            node
            (Keeps-unit_result (SessionManager.handle_ack services.json t n node.manager)
              (handle_ack-Keeps sid seq services.json t n node.manager h))
            h;
    }

    retry_messages-IsOld :
        (now : ℕ) (t : Text) (w : ℕ) (msgs : List (OutboundMessage Payload)) (node : ChatNode)
        → IsOld node
        → IsOld (retry_messages now t w msgs node)
    unfolding retry_messages
    retry_messages-IsOld now t w [] node h = h
    retry_messages-IsOld now t w (msg ∷ msgs) node h =
        elim (Bool-cases (Set.contains w node.broken)) [
          | inl broken ↦ rw (broken, retry_messages) (retry_messages-IsOld now t w msgs node h)
          | inr whole ↦ elim (Option-cases (get_loaded t node.manager)) [
            | inl absent ↦
                rw (whole, absent, retry_messages) (retry_messages-IsOld now t w msgs _ h)
            | inr (session, live) ↦
                rw (whole, live, retry_messages)
                  (retry_messages-IsOld now t w msgs _
                    (marked_retried-IsProcessed sid seq now t msg.seq session node.manager h live))
          ]
        ]

    retry_session-IsOld :
        (now : ℕ) (t : Text) (w : ℕ) (node : ChatNode)
        → IsOld node
        → IsOld (retry_session now t w node)
    unfolding retry_session
    retry_session-IsOld now t w node h = elim (Option-cases (get_loaded t node.manager)) [
      | inl absent ↦ rw (absent, retry_session) h
      | inr (session, live) ↦
          rw (live, retry_session)
            (retry_messages-IsOld now t w (pending_for_retry now retry_after session) node h)
    ]

    retry_sessions-IsOld :
        (now : ℕ) (held : List (Text × ℕ)) (node : ChatNode)
        → IsOld node
        → IsOld (retry_sessions now held node)
    unfolding retry_sessions
    retry_sessions-IsOld now [] node h = h
    retry_sessions-IsOld now ((t, w) ∷ held) node h =
        retry_sessions-IsOld now held (retry_session now t w node)
          (retry_session-IsOld now t w node h)

    ended-IsOld :
        (w : ℕ) (phase : Option Phase) (node : ChatNode) → IsOld node → IsOld (ended w phase node)
    unfolding ended end_connection cleanup_connection
    ended-IsOld w none node h = h
    ended-IsOld w (some authenticating) node h = h
    ended-IsOld w (some (chatting t)) node h = h

    served-IsOld :
        (t : Text) (w : ℕ) (run : Result ServerError Bool × ChatNode)
        → IsOld run.1
        → IsOld (served services t w run)
    unfolding served end_connection cleanup_connection
    served-IsOld t w (err e, node) h = h
    served-IsOld t w (ok true, node) h = h
    served-IsOld t w (ok false, node) h = h

    on_frame_in-IsOld :
        (moment : Moment) (w : ℕ) (f : ClientFrame) (phase : Option Phase) (node : ChatNode)
        → IsThrough phase
        → IsOld node
        → IsOld (on_frame_in services moment w f phase node)
    unfolding on_frame_in
    on_frame_in-IsOld moment w f none node through h = h
    on_frame_in-IsOld moment w f (some authenticating) node through h = absurd through
    on_frame_in-IsOld moment w f (some (chatting t)) node through h =
        served-IsOld t w (read_frame_of services moment t w f node)
          (read_frame_of_lasts services IsOld IsOld-lasts moment t w f node h)

    pub after_events-IsOld :
        (events : List NodeEvent) (node : ChatNode)
        → AreThrough events node
        → IsOld node
        → IsOld (after_events services events node)
    unfolding after_events after_event AreThrough on_connect on_read_end on_relayed on_frame
        run_eviction retry_round
    after_events-IsOld [] node through h = h
    after_events-IsOld (frame moment w f ∷ events) node (first, through) h =
        after_events-IsOld events (after_event services (frame moment w f) node) through
          (on_frame_in-IsOld moment w f (Dict.get w node.phases) node first h)
    after_events-IsOld (connect w ∷ events) node through h =
        after_events-IsOld events (after_event services (connect w) node) through h
    after_events-IsOld (read_end w ∷ events) node through h =
        after_events-IsOld events (after_event services (read_end w) node) through
          (ended-IsOld w (Dict.get w node.phases) node h)
    after_events-IsOld (lost w ∷ events) node through h =
        after_events-IsOld events (after_event services (lost w) node) through h
    after_events-IsOld (evict w ∷ events) node through h =
        after_events-IsOld events (after_event services (evict w) node) through
          (write_frame-IsOld w logged_in_elsewhere node h)
    after_events-IsOld (relayed now r ∷ events) node through h =
        after_events-IsOld events (after_event services (relayed now r) node) through
          (deliver_relayed_message_lasts services IsOld IsOld-lasts now r node h)
    after_events-IsOld (retry now ∷ events) node through h =
        after_events-IsOld events (after_event services (retry now) node) through
          (retry_sessions-IsOld now node.connections node h)
