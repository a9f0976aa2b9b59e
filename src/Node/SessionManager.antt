-- ===== src/Node/SessionManager.antt =====
-- node/session_manager.py: the live sessions of one node over its store. Times are arguments:
-- `now` is `time.monotonic()`, `wall` is `time.time()`.
pub mod Recovery
pub mod Mirror
pub mod Durability
pub mod Survival
pub mod Rooms
pub mod Receive
pub mod Processed
use clustertalk_githubaction.Prelude.{
  ℕ, Bool, true, false, Option, none, some, List, [], ◌∷◌, ltb, if◌then◌else◌, Text, codes, nat_eq,
  list_eq, Result, ok, err, ◌>>=◌, map, ◌==◌, ◌||◌,
}
use clustertalk_githubaction.Prelude.Dict
use clustertalk_githubaction.Prelude.Dict.{Dict}
use clustertalk_githubaction.Protocol.Framing.{Orjson}
use clustertalk_githubaction.Node.SessionState
use clustertalk_githubaction.Node.SessionState.{SessionState, OutboundMessage}
use clustertalk_githubaction.Node.Persistence.{
  OutboxStore, SessionRow, put, save_session, delete_outbound, queue_outbound, queue_message_log,
}
use clustertalk_githubaction.Node.Persistence.Reads.{
  ReadError, HistoryRow, load_session, load_outbox, load_message_history,
}

pub record SessionManager (P : Type 0) : Type 0 where
  pub store : OutboxStore
  pub sessions : Dict Text (SessionState P)

abbrev pub general : Text
general = codes "general"

-- A wire-transferable snapshot
pub record Snapshot (P : Type 0) : Type 0 where
  pub next_send_seq : ℕ
  pub last_processed_seq : ℕ
  pub room_id : Text
  pub outbox : List (OutboundMessage P)

-- `d.values()`
unfoldable pub values {ℓ κ} : {K : Type ℓ} {V : Type κ} → Dict K V → List V
values [] = []
values ((k, v) ∷ d) = v ∷ values d

-- `d.keys()`
unfoldable pub keys {ℓ κ} : {K : Type ℓ} {V : Type κ} → Dict K V → List K
keys [] = []
keys ((k, v) ∷ d) = k ∷ keys d

module _ {P : Type 0} where
  unfoldable pub init : OutboxStore → SessionManager P
  init store = record { store = store; sessions = [] }

  -- The history rows go into the outbox over what is there.
  unfoldable pub add_history : List (HistoryRow P) → SessionState P → SessionState P
  add_history [] s = s
  add_history (row ∷ rows) s = add_history rows (record s {
    outbox =
        Dict.put row.seq
          (record { seq = row.seq; payload = row.payload; sent_at = row.sent_at; retry_count = 0 })
          s.outbox;
  })

  -- `_persist_session_meta`
  unfoldable pub persist_session_meta : SessionState P → OutboxStore → OutboxStore
  persist_session_meta s =
      put (save_session s.session_id s.next_send_seq s.last_processed_seq s.room_id)

  -- A live session is written back where it is held.
  unfoldable pub hold : Text → SessionState P → SessionManager P → SessionManager P
  hold sid s m = record m { sessions = Dict.put sid s m.sessions }

module _ {P : Type 0} (json : Orjson P) where
  recovered :
      Text
      → Text
      → OutboxStore
      → List (OutboundMessage P)
      → Option SessionRow
      → Result ReadError (SessionState P)
  unfolding add_history
  recovered sid room store rows none = ok (SessionState.init sid 1 0 room)
  recovered sid room store rows (some saved) =
      let session =
        SessionState.load_outbox_rows rows
          (SessionState.init sid saved.next_send_seq saved.last_processed_seq saved.room_id) in
      if ltb 0 saved.last_processed_seq
      then (do
        history ← load_message_history json sid saved.last_processed_seq store.db
        ok (add_history history session))
      else ok session

  -- `_recover_or_create`
  unfoldable pub recover_or_create : Text → Text → OutboxStore → Result ReadError (SessionState P)
  unfolding recovered
  recover_or_create sid room store = do
    rows ← load_outbox json sid store.db
    recovered sid room store rows (load_session sid store.db)

  unfoldable pub get_or_create :
      Text → Text → SessionManager P → Result ReadError (SessionState P × SessionManager P)
  unfolding hold
  get_or_create sid room m = elim (Dict.get sid m.sessions) [
    | some existing ↦ ok (existing, m)
    | none ↦ do session ← recover_or_create sid room m.store; ok (session, hold sid session m)
  ]

  unfoldable pub set_room :
      Text → Text → SessionManager P → Result ReadError (Text × SessionManager P)
  unfolding hold persist_session_meta
  set_room sid room m = do
    (session, m') ← get_or_create sid general m
    let session' = record session { room_id = room }
    ok (room, record (hold sid session' m') { store = persist_session_meta session' m'.store })

  unfoldable pub send_message :
      ℕ → Text → P → SessionManager P → Result ReadError (ℕ × SessionManager P)
  unfolding hold persist_session_meta
  send_message now sid payload m = do
    (session, m') ← get_or_create sid general m
    let (msg, session') = SessionState.prepare_outbound now payload session
    let store1 = queue_outbound json sid msg.seq msg.payload msg.sent_at m'.store
    let store2 = queue_message_log json sid msg.seq msg.payload msg.sent_at store1
    ok (msg.seq, record (hold sid session' m') { store = persist_session_meta session' store2 })

  unfoldable pub handle_ack : Text → ℕ → SessionManager P → Result ReadError (SessionManager P)
  unfolding hold
  handle_ack sid seq m = do
    (session, m') ← get_or_create sid general m
    let (present, session') = SessionState.handle_ack seq session
    let held = hold sid session' m'
    ok (if present then record held { store = put (delete_outbound sid seq) held.store } else held)

  -- `payload` is what `payload or {…}` gives.
  unfoldable pub receive_message :
      ℕ → Text → ℕ → P → SessionManager P → Result ReadError (Bool × SessionManager P)
  unfolding hold persist_session_meta
  receive_message wall sid seq payload m = do
    (session, m') ← get_or_create sid general m
    if SessionState.should_process_inbound seq session
        then (let session' = SessionState.mark_inbound_processed seq session in
            let store1 = queue_message_log json sid seq payload wall m'.store in
            ok (
              true,
              record (hold sid session' m') { store = persist_session_meta session' store1 },
            ))
        else ok (false, m')

  unfoldable pub has_local_record : Text → SessionManager P → Bool
  has_local_record sid m =
      Dict.has sid m.sessions
      || (elim (load_session sid m.store.db) [ none ↦ false | some row ↦ true ])

  -- The snapshot of a live session, or else of what is on disk, or none. Nothing is changed.
  unfoldable pub snapshot_session : Text → SessionManager P → Result ReadError (Option (Snapshot P))
  unfolding values
  snapshot_session sid m = elim (Dict.get sid m.sessions) [
    | some session ↦ ok (
        some (record {
          next_send_seq = session.next_send_seq;
          last_processed_seq = session.last_processed_seq;
          room_id = session.room_id;
          outbox = values session.outbox;
        }))
    | none ↦ elim (load_session sid m.store.db) [
      | none ↦ ok none
      | some saved ↦ do
        rows ← load_outbox json sid m.store.db
        ok (
            some (record {
              next_send_seq = saved.next_send_seq;
              last_processed_seq = saved.last_processed_seq;
              room_id = saved.room_id;
              outbox = rows;
            }))
    ]
  ]

  -- The loop of `hydrate_from_snapshot`: each buffered message is saved.
  unfoldable pub save_all : Text → List (OutboundMessage P) → OutboxStore → OutboxStore
  save_all sid [] store = store
  save_all sid (msg ∷ msgs) store =
      save_all sid msgs (queue_outbound json sid msg.seq msg.payload msg.sent_at store)

  unfoldable pub hydrate_from_snapshot :
      Text → Snapshot P → SessionManager P → SessionState P × SessionManager P
  unfolding hold persist_session_meta save_all values
  hydrate_from_snapshot sid snapshot m =
      let session = SessionState.load_outbox_rows snapshot.outbox (
        SessionState.init sid snapshot.next_send_seq snapshot.last_processed_seq
          snapshot.room_id) in
      let held = hold sid session m in
      (
        session,
        record held {
          store = save_all sid (values session.outbox) (persist_session_meta session held.store);
        },
      )

module _ {P : Type 0} where
  unfoldable pub is_loaded : Text → SessionManager P → Bool
  is_loaded sid m = Dict.has sid m.sessions

  unfoldable pub all_session_ids : SessionManager P → List Text
  unfolding keys
  all_session_ids m = keys m.sessions

  pub in_room : Text → Dict Text (SessionState P) → List Text
  in_room room [] = []
  in_room room ((sid, s) ∷ d) =
      let rest = in_room room d in if s.room_id == room then sid ∷ rest else rest

  unfoldable pub session_ids_in_room : Text → SessionManager P → List Text
  unfolding in_room
  session_ids_in_room room m = in_room room m.sessions

  unfoldable pub get_loaded : Text → SessionManager P → Option (SessionState P)
  get_loaded sid m = Dict.get sid m.sessions
