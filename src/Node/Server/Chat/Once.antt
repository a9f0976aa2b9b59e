-- ===== src/Node/Server/Chat/Once.antt =====
-- A message that a client sends again is acknowledged again, and broadcast no second time.
use clustertalk_githubaction.Prelude.{
  ℕ, ◌≡◌, false, Option, some, List, [], ◌∷◌, ◌++◌, Text, nat_eq, list_eq, ok, Bool-cases, inl, inr,
}
use clustertalk_githubaction.Prelude.Dict
use clustertalk_githubaction.Prelude.Set
use clustertalk_githubaction.Node.SessionState.{SessionState, should_process_inbound}
use clustertalk_githubaction.Node.SessionManager.{hold}
use clustertalk_githubaction.Node.SessionManager.Receive.{
  after_receive, receive_message-after_receive,
}
use clustertalk_githubaction.Node.SessionManager.Processed.{marked-IsProcessed}
use clustertalk_githubaction.Node.Server.{
  Payload, inbound, ack_frame, ChatNode, Moment, Services, managed, write_frame, with_manager,
}
use clustertalk_githubaction.Node.Server.Machine.{NodeEvent, after_events}
use clustertalk_githubaction.Node.Server.Chat.{nat_or, text_or, handle_inbound_message}
use clustertalk_githubaction.Node.Server.Chat.Quiet.{process_message_lasts}
use clustertalk_githubaction.Node.Server.Machine.Processed.{
  AreThrough, IsOld, IsOld-lasts, after_events-IsOld,
}

module _ (services : Services) where
  module _ (sid : Text) (seq : ℕ) where
    handle_inbound_message-IsOld :
        (moment : Moment) (text : Option Text) (at : Option ℕ) (w : ℕ) (s : SessionState Payload)
        (node : ChatNode)
        → Set.contains w node.broken ≡ false
        → Dict.get sid node.manager.sessions ≡ some s
        → IsOld services sid seq
            (handle_inbound_message services moment sid (some seq) text at w node).1
    unfolding handle_inbound_message write_frame with_manager managed hold
    handle_inbound_message-IsOld moment text at w s node whole live =
        let p = inbound seq text at in
        let acked = record node { sent = node.sent ++ (w, ack_frame seq) ∷ [] } in
        let received =
          receive_message-after_receive services.json moment.wall sid seq p s node.manager live in
        elim (Bool-cases (should_process_inbound seq s)) [
          | inl new ↦
              rw (whole, received, new)
                (process_message_lasts services (IsOld services sid seq)
                  (IsOld-lasts services sid seq) moment sid seq (text_or text [])
                  (nat_or at moment.wall)
                  (record acked {
                    manager = after_receive services.json moment.wall sid seq p s node.manager;
                  })
                  (marked-IsProcessed sid seq s node.manager))
          | inr old ↦ rw (whole, received, old) (s, live, old)
        ]

    handle_inbound_message-old :
        (moment : Moment) (text : Option Text) (at : Option ℕ) (w : ℕ) (node : ChatNode)
        → Set.contains w node.broken ≡ false
        → IsOld services sid seq node
        → handle_inbound_message services moment sid (some seq) text at w node
          ≡ (ok tt, record node { sent = node.sent ++ (w, ack_frame seq) ∷ [] })
    unfolding handle_inbound_message write_frame with_manager managed
    handle_inbound_message-old moment text at w node whole (s, live, old) =
        let received =
          receive_message-after_receive services.json moment.wall sid seq (inbound seq text at) s
            node.manager live in
        rw (whole, received, old)

  -- After a MESSAGE of a live session has been handled on a connection that is not broken, also if its
  -- broadcast raised, and after any events of the node, in any order, among which no frame comes to
  -- the auth gate: if that session sends the same number again, with whatever content and on whatever
  -- connection that is not broken then, all that happens is one more ACK; nothing is buffered,
  -- stored, broadcast or relayed. The events are connections that come up, end, are lost or evicted,
  -- frames on connections that have been let in already, messages from the mesh, and rounds of the
  -- retry loop. So no client logs in or greets the node in between, which could reset the session,
  -- and the node is not restarted.
  pub handle_inbound_message-twice :
      (moment : Moment) (sid : Text) (seq : ℕ) (text : Option Text) (at : Option ℕ) (w : ℕ)
      (s : SessionState Payload) (node : ChatNode) (between : List NodeEvent) (moment' : Moment)
      (text' : Option Text) (at' : Option ℕ) (w' : ℕ) (handled later : ChatNode)
      → Set.contains w node.broken ≡ false
      → Dict.get sid node.manager.sessions ≡ some s
      → handled ≡ (handle_inbound_message services moment sid (some seq) text at w node).1
      → AreThrough services between handled
      → later ≡ after_events services between handled
      → Set.contains w' later.broken ≡ false
      → handle_inbound_message services moment' sid (some seq) text' at' w' later
        ≡ (ok tt, record later { sent = later.sent ++ (w', ack_frame seq) ∷ [] })
  handle_inbound_message-twice moment sid seq text at w s node between moment' text' at' w' handled
        later whole live first through e whole' =
      let old : IsOld services sid seq handled =
        rw first (handle_inbound_message-IsOld sid seq moment text at w s node whole live) in
      handle_inbound_message-old sid seq moment' text' at' w' later whole'
        (rw e (after_events-IsOld services sid seq between handled through old))
