-- ===== src/Node/SessionManager/Receive.antt =====
-- What `receive_message` does to a live session and to what the store mirrors of it.
use clustertalk_githubaction.Node.Persistence.Writer.{settled-put, settled}
use clustertalk_githubaction.Node.SessionState.{
  should_process_inbound, mark_inbound_processed, SessionState,
}
use clustertalk_githubaction.Node.SessionManager.{
  receive_message, persist_session_meta, SessionManager,
}
use clustertalk_githubaction.Node.Persistence.{
  save_session, save_message_log, Db, queue_message_log, apply_op, OutboxStore,
}
use clustertalk_githubaction.Protocol.Framing.{Orjson}
use clustertalk_githubaction.Node.SessionManager.Mirror.{payload_of, get_or_create-live, Mirrors}
use clustertalk_githubaction.Node.SessionState.Outbound.{IsValid}
use clustertalk_githubaction.Prelude.{
  pair_eq, if◌then◌else◌, ℕ, ◌∙◌, ◌≡◌, nat_eq, list_eq, inr, inl, Bool-cases, ok, false, true, some,
  Text, ap,
}
use clustertalk_githubaction.Prelude.Dict

module _ {P : Type 0} (json : Orjson P) where
  -- The manager after a new inbound message
  abbrev pub after_receive : ℕ → Text → ℕ → P → SessionState P → SessionManager P → SessionManager P
  after_receive wall sid seq p s m =
      let s' = mark_inbound_processed seq s in
      record {
        store = persist_session_meta s' (queue_message_log json sid seq p wall m.store);
        sessions = Dict.put sid s' m.sessions;
      }

  pub receive_message-after_receive :
      (wall : ℕ) (sid : Text) (seq : ℕ) (p : P) (s : SessionState P) (m : SessionManager P)
      → Dict.get sid m.sessions ≡ some s
      → receive_message json wall sid seq p m
        ≡ ok (
            if should_process_inbound seq s
            then (true, after_receive wall sid seq p s m)
            else (false, m))
  unfolding receive_message
  receive_message-after_receive wall sid seq p s m live =
      elim (Bool-cases (should_process_inbound seq s)) [
        | inl new ↦ rw (get_or_create-live json sid _ s m live, new)
        | inr old ↦ rw (get_or_create-live json sid _ s m live, old)
      ]

  outbox-queue_message_log :
      (key : Text) (seq : ℕ) (p : P) (at : ℕ) (store : OutboxStore)
      → (settled (queue_message_log json key seq p at store)).outbox ≡ (settled store).outbox
  unfolding queue_message_log apply_op
  outbox-queue_message_log key seq p at store =
      ap (λ (d : Db). d.outbox) (settled-put (save_message_log key seq (json.dumps p) at) store)

  outbox-persist_session_meta :
      (s : SessionState P) (store : OutboxStore)
      → (settled (persist_session_meta s store)).outbox ≡ (settled store).outbox
  unfolding persist_session_meta apply_op
  outbox-persist_session_meta s store =
      ap (λ (d : Db). d.outbox)
        (settled-put (save_session s.session_id s.next_send_seq s.last_processed_seq s.room_id)
          store)

  -- A row of the message log changes nothing that is mirrored.
  pub Mirrors-queue_message_log :
      (key : Text) (seq : ℕ) (p : P) (at : ℕ) (sid : Text) (s : SessionState P)
      (m : SessionManager P)
      → Mirrors json sid s m
      → Mirrors json sid s (record m { store = queue_message_log json key seq p at m.store })
  Mirrors-queue_message_log key seq p at sid s m h = record {
    live = h.live;
    rows = λ n.
        ap (λ o. payload_of (Dict.get (sid, n) o)) (outbox-queue_message_log key seq p at m.store)
        ∙ h.rows n;
  }

  pub Mirrors-after_receive :
      (wall : ℕ) (sid : Text) (seq : ℕ) (p : P) (s : SessionState P) (m : SessionManager P)
      → Mirrors json sid s m
      → Mirrors json sid (mark_inbound_processed seq s) (after_receive wall sid seq p s m)
  unfolding mark_inbound_processed
  Mirrors-after_receive wall sid seq p s m h = record {
    live = Dict.get-put_self sid _ m.sessions;
    rows = λ n.
        ap (λ o. payload_of (Dict.get (sid, n) o))
          (outbox-persist_session_meta _ (queue_message_log json sid seq p wall m.store)
            ∙ outbox-queue_message_log sid seq p wall m.store)
        ∙ h.rows n;
  }

  pub mark-IsValid :
      (seq : ℕ) {s : SessionState P} → IsValid s → IsValid (mark_inbound_processed seq s)
  unfolding mark_inbound_processed
  mark-IsValid seq v = record { numbered = v.numbered; distinct = v.distinct }
