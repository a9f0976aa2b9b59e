-- ===== src/Node/SessionManager/Mirror.antt =====
-- When the store mirrors a live session: once its writes are in, the outbox table holds, for each
-- live session, exactly what the session has buffered.
use clustertalk_githubaction.Prelude.{
  ◌∙◌, ◌&&◌, ℕ, ◌≡◌, arith, ap, Option, none, some, nat_beq, if◌then◌else◌, inl, inr, Text, nat_eq,
  list_eq, pair_eq, ok, ◌==◌, Option-cases,
}
use clustertalk_githubaction.Prelude.Dict
use clustertalk_githubaction.Protocol.Framing.{Bytes, Orjson}
use clustertalk_githubaction.Node.SessionState
use clustertalk_githubaction.Node.SessionState.{SessionState, OutboundMessage}
use clustertalk_githubaction.Node.SessionState.Outbound.{IsValid, get-IsNumbered}
use clustertalk_githubaction.Node.Persistence.{
  Db, OutboxRow, OutboxStore, save_session, save_outbound, delete_outbound, save_message_log, put,
  apply_op, queue_outbound, queue_message_log, upsert_outbox,
}
use clustertalk_githubaction.Node.Persistence.Writer.{settled, settled-put}
use clustertalk_githubaction.Node.SessionManager.{
  SessionManager, persist_session_meta, get_or_create,
}

abbrev pub payload_of : Option OutboxRow → Option Bytes
payload_of none = none
payload_of (some row) = some row.payload

-- The payload stored under a session and a number
abbrev pub stored : Text → ℕ → Db → Option Bytes
stored sid n db = payload_of (Dict.get (sid, n) db.outbox)

module _ {P : Type 0} (json : Orjson P) where
  abbrev pub bytes_of : Option (OutboundMessage P) → Option Bytes
  bytes_of none = none
  bytes_of (some m) = some (json.dumps m.payload)

  -- The bytes of what a session has buffered under a number
  abbrev pub dumped : ℕ → SessionState P → Option Bytes
  dumped n s = bytes_of (Dict.get n s.outbox)

  -- `sid` is live as `s`, and the store will hold what `s` has buffered.
  pub record Mirrors (sid : Text) (s : SessionState P) (m : SessionManager P) : Type 0 where
    pub live : Dict.get sid m.sessions ≡ some s
    pub rows : (n : ℕ) → stored sid n (settled m.store) ≡ dumped n s

  pub get_or_create-live :
      (sid room : Text) (s : SessionState P) (m : SessionManager P)
      → Dict.get sid m.sessions ≡ some s
      → get_or_create json sid room m ≡ ok (s, m)
  unfolding get_or_create
  get_or_create-live sid room s m live = rw (live, get_or_create)

  pub stored-save :
      (sid sid' : Text) (seq n at : ℕ) (bytes : Bytes) (db : Db)
      → stored sid seq db ≡ none
      → stored sid' n (apply_op (save_outbound sid seq bytes at) db)
        ≡ (if sid == sid' && nat_beq seq n then some bytes else stored sid' n db)
  unfolding apply_op upsert_outbox
  stored-save sid sid' seq n at bytes db new = ground (
    arith,
    new,
    Dict.get-put (sid, seq) (sid', n) (upsert_outbox bytes at (Dict.get (sid, seq) db.outbox))
        db.outbox,
  )

  pub stored-delete :
      (sid sid' : Text) (seq n : ℕ) (db : Db)
      → stored sid' n (apply_op (delete_outbound sid seq) db)
        ≡ (if sid == sid' && nat_beq seq n then none else stored sid' n db)
  unfolding apply_op
  stored-delete sid sid' seq n db = ground (arith, Dict.get-remove (sid, seq) (sid', n) db.outbox)

  -- The writes of `send_message`, in the order in which it asks for them
  abbrev pub send_writes : Text → ℕ → P → ℕ → SessionState P → OutboxStore → OutboxStore
  send_writes sid seq p at s store =
      persist_session_meta s
        (queue_message_log json sid seq p at (queue_outbound json sid seq p at store))

  pub outbox-send_writes :
      (sid : Text) (seq : ℕ) (p : P) (at : ℕ) (s : SessionState P) (store : OutboxStore)
      → (settled (send_writes sid seq p at s store)).outbox
        ≡ (apply_op (save_outbound sid seq (json.dumps p) at) (settled store)).outbox
  unfolding persist_session_meta queue_message_log queue_outbound apply_op
  outbox-send_writes sid seq p at s store =
      let store1 = put (save_outbound sid seq (json.dumps p) at) store in
      let store2 = put (save_message_log sid seq (json.dumps p) at) store1 in
      let op3 = save_session s.session_id s.next_send_seq s.last_processed_seq s.room_id in
      ap (λ (d : Db). d.outbox) (settled-put op3 store2)
      ∙ ap (λ (d : Db). d.outbox) (settled-put (save_message_log sid seq (json.dumps p) at) store1)
      ∙ ap (λ (d : Db). d.outbox) (settled-put (save_outbound sid seq (json.dumps p) at) store)

  pub dumped-prepare :
      (now : ℕ) (p : P) (s : SessionState P) (n : ℕ)
      → dumped n (SessionState.prepare_outbound now p s).1
        ≡ (if nat_beq s.next_send_seq n then some (json.dumps p) else dumped n s)
  unfolding SessionState.prepare_outbound
  dumped-prepare now p s n =
      ground
        (arith, Dict.get-put s.next_send_seq n (SessionState.prepare_outbound now p s).0 s.outbox)

  pub dumped-next : (s : SessionState P) → IsValid s → dumped s.next_send_seq s ≡ none
  dumped-next s v = elim (Option-cases (Dict.get s.next_send_seq s.outbox)) [
    | inl absent ↦ rw absent
    | inr (m, here) ↦ absurd (
        omega
          (arith, (get-IsNumbered s.next_send_seq s.next_send_seq m s.outbox v.numbered here).1))
  ]
