-- ===== src/Node/SessionManager/Recovery.antt =====
-- A session after a crash: what `_recover_or_create` reads back from the store.
use clustertalk_githubaction.Prelude.{
  ℕ, ◌≡◌, refl, arith, ap, some, List, [], ◌∷◌, Bool-cases, inl, inr, Text, nat_eq, list_eq,
  pair_eq, ok, Option-cases, ◌∙◌,
}
use clustertalk_githubaction.Prelude.Dict
use clustertalk_githubaction.Prelude.Dict.{Dict, IsDistinct}
use clustertalk_githubaction.Prelude.Sort
use clustertalk_githubaction.Protocol.Framing.{Orjson}
use clustertalk_githubaction.Node.SessionState
use clustertalk_githubaction.Node.SessionState.{SessionState, OutboundMessage}
use clustertalk_githubaction.Node.SessionState.Replay.{get-load_outbox_rows}
use clustertalk_githubaction.Node.Persistence.{OutboxRow, SessionRow, OutboxStore, start}
use clustertalk_githubaction.Node.Persistence.Writer.{settled}
use clustertalk_githubaction.Node.Persistence.Reads.{load_session}
use clustertalk_githubaction.Node.Persistence.Reads.Exact.{IsSerialised, decoded, load_outbox-exact}
use clustertalk_githubaction.Node.SessionManager.{
  SessionManager, init, recover_or_create, recovered, get_or_create, hold,
}
use clustertalk_githubaction.Node.SessionManager.Mirror.{
  payload_of, stored, bytes_of, dumped, Mirrors,
}

module _ {P : Type 0} (json : Orjson P) where
  loaded_session : Text → SessionRow → List (OutboundMessage P) → SessionState P
  loaded_session sid saved ms =
      SessionState.load_outbox_rows ms
        (SessionState.init sid saved.next_send_seq saved.last_processed_seq saved.room_id)

  recovered-loaded :
      (sid room : Text) (store : OutboxStore) (saved : SessionRow) (ms : List (OutboundMessage P))
      → saved.last_processed_seq ≡ 0
      → recovered json sid room store ms (some saved) ≡ ok (loaded_session sid saved ms)
  unfolding recovered loaded_session
  recovered-loaded sid room store saved ms e = rw e

  get-loaded_session :
      (sid : Text) (saved : SessionRow) (ms : List (OutboundMessage P)) (n : ℕ)
      → Sort.IsAscending (λ m. m.seq) ms
      → Dict.get n (loaded_session sid saved ms).outbox ≡ Sort.find (λ m. m.seq) n ms
  unfolding loaded_session SessionState.init Dict.get
  get-loaded_session sid saved ms n h = ground (
    arith,
    get-load_outbox_rows n ms
        (SessionState.init sid saved.next_send_seq saved.last_processed_seq saved.room_id)
        (Sort.IsAscending-IsUnique (λ m. m.seq) ms h),
  )

  pub get-IsSerialised :
      (k : Text × ℕ) (d : Dict (Text × ℕ) OutboxRow) (row : OutboxRow)
      → IsSerialised json d
      → Dict.get k d ≡ some row
      → (p : P) × (row.payload ≡ json.dumps p)
  unfolding Dict.get
  get-IsSerialised k [] row h e = ground arith
  get-IsSerialised k ((j, r) ∷ d) row h e = elim (Bool-cases (pair_eq.beq j k)) [
    | inl here ↦ (h.0.0, ground (arith, h.0.1, here))
    | inr other ↦ get-IsSerialised k d row h.1 (ground (arith, other))
  ]

  bytes-decoded :
      (n : ℕ) (k : Text × ℕ) (d : Dict (Text × ℕ) OutboxRow)
      → IsSerialised json d
      → bytes_of json (decoded json n (Dict.get k d)) ≡ payload_of (Dict.get k d)
  bytes-decoded n k d h = elim (Option-cases (Dict.get k d)) [
    | inl absent ↦ rw absent
    | inr (row, here) ↦
        let (p, e) = get-IsSerialised k d row h here in
        rw here (ground (arith, e, json.loads-dumps p))
  ]

  -- A session row whose inbound watermark is 0 is recovered with its numbers and its room, and with
  -- the outbox that the table holds for it, payload by payload, if the outbox table has no key
  -- twice and only payloads that were dumped.
  pub recover_or_create-exact :
      (sid room : Text) (store : OutboxStore) (saved : SessionRow)
      → load_session sid store.db ≡ some saved
      → saved.last_processed_seq ≡ 0
      → IsDistinct store.db.outbox
      → IsSerialised json store.db.outbox
      → (s : SessionState P) × (recover_or_create json sid room store ≡ ok s)
        × (s.next_send_seq ≡ saved.next_send_seq)
        × (s.room_id ≡ saved.room_id)
        × ((n : ℕ) → dumped json n s ≡ stored sid n store.db)
  unfolding recover_or_create
  recover_or_create-exact sid room store saved here fresh distinct serialised =
      let (ms, loads, ascending, holds) = load_outbox-exact json sid store.db distinct serialised in
      (
        loaded_session sid saved ms,
        rw (loads, here) (recovered-loaded sid room store saved ms fresh),
        unfold loaded_session SessionState.load_outbox_rows SessionState.init in refl,
        unfold loaded_session SessionState.load_outbox_rows SessionState.init in refl,
        λ n.
            ap (bytes_of json) (get-loaded_session sid saved ms n ascending ∙ holds n)
            ∙ bytes-decoded n (sid, n) store.db.outbox serialised,
      )

  get_or_create-recover :
      (sid room : Text) (store : OutboxStore) (s : SessionState P)
      → recover_or_create json sid room store ≡ ok s
      → get_or_create json sid room (init store) ≡ ok (s, hold sid s (init store))
  unfolding get_or_create init Dict.get
  get_or_create-recover sid room store s e = rw e

  -- Zero message loss across a crash of the process: a session whose outbox the store mirrors, on a
  -- store whose writes are all in, comes back in a new process with the next number that was saved
  -- and with every buffered payload under its number, if the saved inbound watermark is 0 and the
  -- outbox table has no key twice and only payloads that were dumped.
  pub crash_recovery :
      (sid room : Text) (s : SessionState P) (m : SessionManager P) (saved : SessionRow)
      → Mirrors json sid s m
      → load_session sid (settled m.store) ≡ some saved
      → saved.last_processed_seq ≡ 0
      → IsDistinct (settled m.store).outbox
      → IsSerialised json (settled m.store).outbox
      → (s' : SessionState P) × (m' : SessionManager P) × (get_or_create json sid room
            (init (start (settled m.store)))
          ≡ ok (s', m'))
        × (s'.next_send_seq ≡ saved.next_send_seq)
        × ((n : ℕ) → dumped json n s' ≡ dumped json n s)
  unfolding start
  crash_recovery sid room s m saved h here fresh distinct serialised =
      let store = start (settled m.store) in
      let (s', e, next, r, rows) =
        recover_or_create-exact sid room store saved here fresh distinct serialised in
      (
        s',
        hold sid s' (init store),
        get_or_create-recover sid room store s' e,
        next,
        λ n. rows n ∙ h.rows n,
      )
