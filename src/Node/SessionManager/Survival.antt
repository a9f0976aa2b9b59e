-- ===== src/Node/SessionManager/Survival.antt =====
-- From `send_message` through a crash to the recovered session.
use clustertalk_githubaction.Prelude.{
  nat_beq, if◌then◌else◌, Bool-cases, ℕ, ◌+◌, ◌≡◌, ap, ◌∙◌, some, [], ◌∷◌, inl, inr, Option-cases,
  Text, nat_eq, list_eq, pair_eq, ok,
}
use mathlib.Core.Path.{subst⁻¹}
use clustertalk_githubaction.Prelude.Dict
use clustertalk_githubaction.Prelude.Dict.{Dict, IsDistinct}
use clustertalk_githubaction.Protocol.Framing.{Orjson}
use clustertalk_githubaction.Node.SessionState
use clustertalk_githubaction.Node.SessionState.{SessionState}
use clustertalk_githubaction.Node.SessionState.Outbound.{IsValid}
use clustertalk_githubaction.Node.Persistence.{
  Db, OutboxRow, OutboxStore, SessionRow, save_session, save_outbound, start, apply_op,
  queue_outbound, queue_message_log, upsert_outbox,
}
use clustertalk_githubaction.Node.Persistence.Writer.{settled, settled-put}
use clustertalk_githubaction.Node.Persistence.Reads.{load_session}
use clustertalk_githubaction.Node.Persistence.Reads.Exact.{IsSerialised}
use clustertalk_githubaction.Node.SessionManager.{
  SessionManager, init, persist_session_meta, get_or_create, send_message,
}
use clustertalk_githubaction.Node.SessionManager.Mirror.{
  dumped, Mirrors, outbox-send_writes, dumped-prepare,
}
use clustertalk_githubaction.Node.SessionManager.Durability.{
  after_send, send_message-after_send, Mirrors-after_send,
}
use clustertalk_githubaction.Node.SessionManager.Recovery.{get-IsSerialised, crash_recovery}

module _ {P : Type 0} (json : Orjson P) where
  put-IsSerialised :
      (k : Text × ℕ) (row : OutboxRow) (d : Dict (Text × ℕ) OutboxRow)
      → ((p : P) × (row.payload ≡ json.dumps p))
      → IsSerialised json d
      → IsSerialised json (Dict.put k row d)
  unfolding Dict.put
  put-IsSerialised k row [] dumps h = (dumps, tt)
  put-IsSerialised k row ((j, r) ∷ d) dumps h = elim (Bool-cases (pair_eq.beq j k)) [
    | inl same ↦ rw same (dumps, h.1)
    | inr other ↦ rw other (h.0, put-IsSerialised k row d dumps h.1)
  ]

  upsert-payload :
      (p : P) (at : ℕ) (k : Text × ℕ) (d : Dict (Text × ℕ) OutboxRow)
      → IsSerialised json d
      → (q : P) × ((upsert_outbox (json.dumps p) at (Dict.get k d)).payload ≡ json.dumps q)
  unfolding upsert_outbox
  upsert-payload p at k d h = elim (Option-cases (Dict.get k d)) [
    | inl absent ↦ (p, rw absent)
    | inr (row, here) ↦ let (q, e) = get-IsSerialised json k d row h here in (q, rw here e)
  ]

  -- The table keeps its key and its serialised payloads when a message is saved.
  save-IsDistinct :
      (sid : Text) (seq at : ℕ) (p : P) (db : Db)
      → IsDistinct db.outbox
      → IsDistinct (apply_op (save_outbound sid seq (json.dumps p) at) db).outbox
  unfolding apply_op
  save-IsDistinct sid seq at p db h = Dict.put-IsDistinct (sid, seq) _ db.outbox h

  save-IsSerialised :
      (sid : Text) (seq at : ℕ) (p : P) (db : Db)
      → IsSerialised json db.outbox
      → IsSerialised json (apply_op (save_outbound sid seq (json.dumps p) at) db).outbox
  unfolding apply_op
  save-IsSerialised sid seq at p db h =
      put-IsSerialised (sid, seq) _ db.outbox (upsert-payload p at (sid, seq) db.outbox h) h

  abbrev row_of : SessionState P → SessionRow
  row_of s = record {
    next_send_seq = s.next_send_seq;
    last_processed_seq = s.last_processed_seq;
    room_id = s.room_id;
  }

  load_session-persist :
      (s : SessionState P) (store : OutboxStore)
      → load_session s.session_id (settled (persist_session_meta s store)) ≡ some (row_of s)
  unfolding load_session persist_session_meta apply_op
  load_session-persist s store =
      ap (λ (db : Db). Dict.get s.session_id db.sessions)
        (settled-put (save_session s.session_id s.next_send_seq s.last_processed_seq s.room_id)
          store)
      ∙ Dict.get-put_self s.session_id (row_of s) (settled store).sessions

  -- A message sent in a live session that is valid, that the store mirrors, and that has processed
  -- nothing inbound: `send_message` returns its number, and if the process crashes once the writes
  -- are in, the session that a new process recovers has the message's payload under that number,
  -- every other buffered payload under its own, and the following number to give out. The outbox
  -- table that the store will have before is to have no key twice and only payloads that were
  -- dumped.
  pub send_survives_crash :
      (now : ℕ) (room : Text) (p : P) (s : SessionState P) (m : SessionManager P)
      → IsValid s
      → Mirrors json s.session_id s m
      → s.last_processed_seq ≡ 0
      → IsDistinct (settled m.store).outbox
      → IsSerialised json (settled m.store).outbox
      → (m' : SessionManager P) × (send_message json now s.session_id p m
          ≡ ok (s.next_send_seq, m'))
        × (r : SessionState P) × (m'' : SessionManager P) × (get_or_create json s.session_id room
              (init (start (settled m'.store)))
            ≡ ok (r, m''))
        × (r.next_send_seq ≡ s.next_send_seq + 1)
        × ((n : ℕ)
            → dumped json n r
              ≡ (if nat_beq s.next_send_seq n then some (json.dumps p) else dumped json n s))
  unfolding SessionState.prepare_outbound
  send_survives_crash now room p s m v h fresh distinct serialised =
      let sid = s.session_id in
      let s' = (SessionState.prepare_outbound now p s).1 in
      let m' = after_send json now sid p s m in
      let seq = s.next_send_seq in
      let table = outbox-send_writes json sid seq p now s' m.store in
      let (r, m'', got, next, rows) =
        crash_recovery json sid room s' m' (row_of s') (Mirrors-after_send json now sid p s m v h)
          (load_session-persist s'
            (queue_message_log json sid seq p now (queue_outbound json sid seq p now m.store)))
          fresh
          (subst⁻¹ IsDistinct table (save-IsDistinct sid seq now p (settled m.store) distinct))
          (subst⁻¹ (IsSerialised json) table
            (save-IsSerialised sid seq now p (settled m.store) serialised)) in
      (
        m',
        send_message-after_send json now sid p s m h.live,
        r,
        m'',
        got,
        next,
        λ n. rows n ∙ dumped-prepare json now p s n,
      )
