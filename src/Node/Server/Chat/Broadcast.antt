-- ===== src/Node/Server/Chat/Broadcast.antt =====
-- What `_broadcast_local` leaves in memory and in the store, and what a failed write does to it.
use clustertalk_githubaction.Prelude.{
  ℕ, ◌≡◌, refl, sym, ap, ◌∙◌, arith, Bool, true, false, not, ◌&&◌, Option, some, List, [], ◌∷◌,
  ◌++◌, if◌then◌else◌, Text, nat_eq, list_eq, pair_eq, text_eq_iff, ◌==◌, ok, err, Bool-cases,
  Option-cases, inl, inr,
}
use mathlib.Core.Option.{some-injective}
use clustertalk_githubaction.Prelude.Dict
use clustertalk_githubaction.Prelude.Dict.{Dict, IsDistinct}
use clustertalk_githubaction.Prelude.Set
use clustertalk_githubaction.Protocol.Framing.{Bytes, Orjson}
use clustertalk_githubaction.Node.SessionState
use clustertalk_githubaction.Node.SessionState.{SessionState}
use clustertalk_githubaction.Node.SessionState.Outbound.{prepare_outbound-IsValid, IsValid}
use clustertalk_githubaction.Node.Persistence.{Db, save_outbound, apply_op, upsert_outbox}
use clustertalk_githubaction.Node.Persistence.Writer.{settled}
use clustertalk_githubaction.Node.SessionManager.{
  keys, in_room, SessionManager, session_ids_in_room,
}
use clustertalk_githubaction.Node.SessionManager.Rooms.{
  get_of_has, AreUnique, AreKeys, AreKeys-put, in_room-AreUnique, in_room-AreKeys, contains-in_room,
  is_there,
}
use clustertalk_githubaction.Node.SessionManager.Mirror.{
  payload_of, stored, Mirrors, outbox-send_writes,
}
use clustertalk_githubaction.Node.SessionManager.Durability.{
  after_send, send_message-after_send, Mirrors-after_send,
}
use clustertalk_githubaction.Node.Server.{
  ServerError, Result, Payload, chat, message_frame, ChatNode, Services, connection_error,
  write_frame, with_manager, managed,
}
use clustertalk_githubaction.Node.Server.Chat.{write_to, send_to, send_to_all, broadcast_local}

module _ {P : Type 0} (json : Orjson P) where
  -- A row of another session stays, whether or not a row with this key was there.
  stored-save_ne :
      (sid t : Text) (seq n at : ℕ) (bytes : Bytes) (db : Db)
      → (sid == t) ≡ false
      → stored t n (apply_op (save_outbound sid seq bytes at) db) ≡ stored t n db
  unfolding apply_op
  stored-save_ne sid t seq n at bytes db ne = ground (
    arith,
    ne,
    Dict.get-put (sid, seq) (t, n) (upsert_outbox bytes at (Dict.get (sid, seq) db.outbox))
        db.outbox,
  )

  -- A message to another session, whatever its state, leaves what is mirrored as it is.
  Mirrors-after_send_other :
      (now : ℕ) (sid t : Text) (p : P) (u s : SessionState P) (m : SessionManager P)
      → (sid == t) ≡ false
      → Mirrors json t s m
      → Mirrors json t s (after_send json now sid p u m)
  Mirrors-after_send_other now sid t p u s m ne h = record {
    live = ground (
      arith,
      ne,
      h.live,
      Dict.get-put sid t (SessionState.prepare_outbound now p u).1 m.sessions,
    );
    rows = λ n.
        ap (λ o. payload_of (Dict.get (t, n) o))
          (outbox-send_writes json sid u.next_send_seq p now
            (SessionState.prepare_outbound now p u).1 m.store)
        ∙ stored-save_ne sid t u.next_send_seq n now (json.dumps p) (settled m.store) ne
        ∙ h.rows n;
  }

module _ (services : Services) (now : ℕ) (p : Payload) where
  abbrev after_message :
      Text → SessionState Payload → SessionManager Payload → SessionManager Payload
  after_message sid u m = after_send services.json now sid p u m

  -- A message to a live session, where no connection is broken
  send_to-live :
      (sid : Text) (u : SessionState Payload) (node : ChatNode)
      → node.broken ≡ []
      → Dict.get sid node.manager.sessions ≡ some u
      → (node' : ChatNode) × (send_to services now p sid node ≡ (ok tt, node'))
        × (node'.manager ≡ after_message sid u node.manager)
        × (node'.broken ≡ [])
  unfolding send_to write_to write_frame with_manager managed Set.contains
  send_to-live sid u node fine here =
      let node1 = record node { manager = after_message sid u node.manager } in
      let sending = send_message-after_send services.json now sid p u node.manager here in
      elim (Option-cases (Dict.get sid node.connections)) [
        | inl absent ↦ (node1, rw (sending, absent), refl, fine)
        | inr (w, there) ↦ (
          record node1 { sent = node.sent ++ (w, message_frame u.next_send_seq p) ∷ [] },
          rw (sending, there, fine),
          refl,
          fine,
        )
      ]

  -- Whether a broadcast to a list reaches a session that is not the sender's
  abbrev pub reached : Text → Text → List Text → Bool
  reached t from sids = Set.contains t sids && not (t == from)

  -- A session after a broadcast to the list
  abbrev pub buffered : Text → Text → List Text → SessionState Payload → SessionState Payload
  buffered t from sids s =
      if reached t from sids then (SessionState.prepare_outbound now p s).1 else s

  -- The outcome of a broadcast for one session
  abbrev Outcome : Text → SessionState Payload → Result ServerError (Unit {0}) × ChatNode → Type 0
  Outcome t s run =
      (node' : ChatNode) × (run ≡ (ok tt, node'))
      × Mirrors services.json t s node'.manager
      × (node'.broken ≡ [])

  Mirrors-after_message :
      (sid t : Text) (u s : SessionState Payload) (m : SessionManager Payload)
      → Dict.get sid m.sessions ≡ some u
      → IsValid s
      → Mirrors services.json t s m
      → Mirrors services.json t
          (if sid == t then (SessionState.prepare_outbound now p s).1 else s)
          (after_message sid u m)
  Mirrors-after_message sid t u s m here v h = elim (Bool-cases (sid == t)) [
    | inl same ↦
        let eq : sid ≡ t = (text_eq_iff sid t).0 same in
        let loaded : some u ≡ some s = sym here ∙ ap (λ k. Dict.get k m.sessions) eq ∙ h.live in
        rw (same, eq, some-injective u s loaded) (Mirrors-after_send services.json now t p s m v h)
    | inr other ↦ rw other (Mirrors-after_send_other services.json now sid t p u s m other h)
  ]

  Outcome-via :
      (t : Text) {s s' : SessionState Payload} {run run' : Result ServerError (Unit {0}) × ChatNode}
      → run ≡ run'
      → s' ≡ s
      → Outcome t s' run'
      → Outcome t s run
  Outcome-via t same eq (node', e, h, fine) = (node', same ∙ e, rw (sym eq) h, fine)

  after_message-IsValid :
      (sid t : Text) (s : SessionState Payload)
      → IsValid s
      → IsValid (if sid == t then (SessionState.prepare_outbound now p s).1 else s)
  after_message-IsValid sid t s v = elim (Bool-cases (sid == t)) [
    | inl same ↦ rw same (prepare_outbound-IsValid now p v)
    | inr other ↦ rw other v
  ]

  buffered-cons :
      (t from sid : Text) (sids : List Text) (s : SessionState Payload)
      → (sid == from) ≡ false
      → Set.contains sid sids ≡ false
      → buffered t from sids (if sid == t then (SessionState.prepare_outbound now p s).1 else s)
        ≡ buffered t from (sid ∷ sids) s
  unfolding Set.contains
  buffered-cons t from sid sids s recipient once = elim (Bool-cases (sid == t)) [
    | inl same ↦
        let eq : sid ≡ t = (text_eq_iff sid t).0 same in
        let out : Set.contains t sids ≡ false = ap (λ k. Set.contains k sids) (sym eq) ∙ once in
        let ne : (t == from) ≡ false = ap (λ k. k == from) (sym eq) ∙ recipient in
        rw (same, out, ne)
    | inr other ↦ rw other
  ]

  send_to_all-Mirrors :
      (t from : Text) (sids : List Text) (s : SessionState Payload) (node : ChatNode)
      → node.broken ≡ []
      → AreUnique sids
      → AreKeys sids node.manager.sessions
      → IsValid s
      → Mirrors services.json t s node.manager
      → Outcome t (buffered t from sids s) (send_to_all services now p from sids node)
  unfolding send_to_all Set.contains
  send_to_all-Mirrors t from [] s node fine unique keys v h = (node, refl, h, fine)
  send_to_all-Mirrors t from (sid ∷ sids) s node fine unique keys v h =
      elim (Bool-cases (sid == from)) [
        | inl sender ↦
            Outcome-via t {s = buffered t from (sid ∷ sids) s} {s' = buffered t from sids s}
              (rw sender)
              (ground (arith, sender, text_eq_iff sid from, text_eq_iff t from, text_eq_iff sid t))
              (send_to_all-Mirrors t from sids s node fine unique.1 keys.1 v h)
        | inr recipient ↦
            let (u, here) = get_of_has sid node.manager.sessions keys.0 in
            let (node1, sending, held, fine1) = send_to-live sid u node fine here in
            Outcome-via t {s = buffered t from (sid ∷ sids) s} (rw (recipient, sending))
              (buffered-cons t from sid sids s recipient unique.0)
              (send_to_all-Mirrors t from sids _ node1 fine1 unique.1
                (rw held (AreKeys-put sids sid _ node.manager.sessions keys.1))
                (after_message-IsValid sid t s v)
                (rw held (Mirrors-after_message sid t u s node.manager here v h)))
      ]

module _ (services : Services) where
  -- Where no connection is broken and no session id is held twice, `_broadcast_local` does not raise
  -- and breaks no connection. A valid live session whose outbox the store mirrors has the message added to its outbox, under
  -- its own next number and in the store alike, if it is in the room and is not the sender's, and is
  -- left as it is otherwise.
  pub broadcast_local-Mirrors :
      (now : ℕ) (room text from name : Text) (at : Option ℕ) (t : Text) (s : SessionState Payload)
      (node : ChatNode)
      → node.broken ≡ []
      → IsDistinct node.manager.sessions
      → IsValid s
      → Mirrors services.json t s node.manager
      → (node' : ChatNode) × (broadcast_local services now room text from name at node
          ≡ (ok tt, node'))
        × Mirrors services.json t
            (if s.room_id == room && not (t == from)
              then (SessionState.prepare_outbound now (chat text name room at) s).1
              else s)
            node'.manager
        × (node'.broken ≡ [])
  unfolding broadcast_local session_ids_in_room
  broadcast_local-Mirrors now room text from name at t s node fine distinct v h =
      let sids = in_room room node.manager.sessions in
      let member : Set.contains t sids ≡ (s.room_id == room) =
        contains-in_room room t node.manager.sessions distinct ∙ ap (is_there room) h.live in
      let message = chat text name room at in
      Outcome-via services now message t {s' = buffered services now message t from sids s} refl
        (rw member)
        (send_to_all-Mirrors services now message t from sids s node fine
          (in_room-AreUnique room node.manager.sessions distinct)
          (in_room-AreKeys room node.manager.sessions) v h)

  -- If the first session in the room that the broadcast comes to is not the sender's, is live, and
  -- has a broken connection, then the broadcast raises, and only that session has got the message.
  pub broadcast_local-broken :
      (now : ℕ) (room text from name : Text) (at : Option ℕ) (sid : Text) (sids : List Text) (w : ℕ)
      (u : SessionState Payload) (node : ChatNode)
      → session_ids_in_room room node.manager ≡ sid ∷ sids
      → (sid == from) ≡ false
      → Dict.get sid node.manager.sessions ≡ some u
      → Dict.get sid node.connections ≡ some w
      → Set.contains w node.broken ≡ true
      → broadcast_local services now room text from name at node ≡ (
        err connection_error,
        record node {
          manager = after_send services.json now sid (chat text name room at) u node.manager;
        },
      )
  unfolding broadcast_local send_to_all send_to write_to write_frame with_manager managed
  broadcast_local-broken now room text from name at sid sids w u node listed other here there gone =
      rw (
        listed,
        other,
        send_message-after_send services.json now sid (chat text name room at) u node.manager here,
        there,
        gone,
      )
