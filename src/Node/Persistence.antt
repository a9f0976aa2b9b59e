-- ===== src/Node/Persistence.antt =====
-- node/persistence.py: the SQLite tables, the write queue and the reads. A table is a dict by its
-- primary key. The columns `updated_at` and `created_at` are written and read by no query, and are
-- left out. Times are ticks.
pub mod Tables
pub mod Writer
pub mod Reads
use clustertalk_githubaction.Prelude.{
  ℕ, ◌+◌, Bool, true, false, Option, none, some, List, [], ◌∷◌, ◌++◌, Text, HasEq, nat_eq, list_eq,
  pair_eq, ltb, if◌then◌else◌, Result, ok, err, ◌>>=◌, ◌==◌, not, ◌&&◌, ◌||◌,
}
use clustertalk_githubaction.Prelude.Dict
use clustertalk_githubaction.Prelude.Dict.{Dict}
use clustertalk_githubaction.Prelude.Sort
use clustertalk_githubaction.Protocol.Framing.{Bytes, Orjson}
use clustertalk_githubaction.Node.SessionState.{OutboundMessage}

pub record SessionRow : Type 0 where
  pub next_send_seq : ℕ
  pub last_processed_seq : ℕ
  pub room_id : Text

pub record OutboxRow : Type 0 where
  pub payload : Bytes
  pub sent_at : ℕ
  pub retry_count : ℕ

pub record RoomRow : Type 0 where
  pub name : Text
  pub max_capacity : ℕ
  pub created_by : Text

pub record LogRow : Type 0 where
  pub payload : Bytes
  pub sent_at : ℕ

-- The schema; `users` holds the password hash.
pub record Db : Type 0 where
  pub sessions : Dict Text SessionRow
  pub outbox : Dict (Text × ℕ) OutboxRow
  pub users : Dict Text Text
  pub rooms : Dict Text RoomRow
  pub message_log : Dict (Text × ℕ) LogRow

abbrev pub empty_db : Db
empty_db = record { sessions = []; outbox = []; users = []; rooms = []; message_log = [] }

-- `_WriteOp`, a constructor for each kind
pub data WriteOp : Type 0 where
  save_session : Text → ℕ → ℕ → Text → WriteOp
  save_outbound : Text → ℕ → Bytes → ℕ → WriteOp
  delete_outbound : Text → ℕ → WriteOp
  create_user : Text → Text → WriteOp
  upsert_room : Text → Text → ℕ → Text → WriteOp
  save_message_log : Text → ℕ → Bytes → ℕ → WriteOp

-- `INSERT … ON CONFLICT(session_id, seq) DO UPDATE`: a row that is there keeps its payload.
unfoldable pub upsert_outbox : Bytes → ℕ → Option OutboxRow → OutboxRow
upsert_outbox payload sent_at none = record {
  payload = payload;
  sent_at = sent_at;
  retry_count = 0;
}
upsert_outbox payload sent_at (some row) = record row {
  sent_at = sent_at;
  retry_count = row.retry_count + 1;
}

-- `INSERT OR IGNORE`
unfoldable pub insert_or_ignore {ℓ} : {V : Type ℓ} → Text → V → Dict Text V → Dict Text V
insert_or_ignore k v d = if Dict.has k d then d else Dict.put k v d

-- One statement of `_apply_batch`
unfoldable pub apply_op : WriteOp → Db → Db
unfolding upsert_outbox insert_or_ignore
apply_op (save_session sid next last room) db = record db {
  sessions =
      Dict.put sid (record { next_send_seq = next; last_processed_seq = last; room_id = room })
        db.sessions;
}
apply_op (save_outbound sid seq payload sent_at) db = record db {
  outbox =
      Dict.put (sid, seq) (upsert_outbox payload sent_at (Dict.get (sid, seq) db.outbox)) db.outbox;
}
apply_op (delete_outbound sid seq) db = record db { outbox = Dict.remove (sid, seq) db.outbox }
apply_op (create_user username hash) db = record db {
  users = insert_or_ignore username hash db.users;
}
apply_op (upsert_room room name capacity creator) db = record db {
  rooms =
      insert_or_ignore room (record { name = name; max_capacity = capacity; created_by = creator })
        db.rooms;
}
apply_op (save_message_log key seq payload sent_at) db = record db {
  message_log =
      Dict.put (key, seq) (record { payload = payload; sent_at = sent_at }) db.message_log;
}

-- `_apply_batch`, when no statement fails
unfoldable pub apply_batch : List WriteOp → Db → Db
unfolding apply_op
apply_batch [] db = db
apply_batch (op ∷ ops) db = apply_batch ops (apply_op op db)

-- The store: the database file, the batch that the writer thread holds, and the queue, in which
-- `none` is the sentinel that `stop` puts.
pub record OutboxStore : Type 0 where
  pub db : Db
  pub pending : List WriteOp
  pub write_queue : List (Option WriteOp)
  pub stop_event : Bool
  -- the writer thread runs
  pub running : Bool

unfoldable pub start : Db → OutboxStore
start db = record { db = db; pending = []; write_queue = []; stop_event = false; running = true }

-- `self._write_queue.put(op)`, all that an asynchronous write does
unfoldable pub put : WriteOp → OutboxStore → OutboxStore
put op store = record store { write_queue = store.write_queue ++ some op ∷ [] }

unfoldable pub stop : OutboxStore → OutboxStore
stop store = record store { stop_event = true; write_queue = store.write_queue ++ none ∷ [] }

-- The writes of the public interface; payloads are serialised on the way in.
module _ {P : Type 0} (json : Orjson P) where
  unfoldable pub queue_outbound : Text → ℕ → P → ℕ → OutboxStore → OutboxStore
  unfolding put
  queue_outbound sid seq payload sent_at = put (save_outbound sid seq (json.dumps payload) sent_at)

  unfoldable pub queue_message_log : Text → ℕ → P → ℕ → OutboxStore → OutboxStore
  unfolding put
  queue_message_log key seq payload sent_at =
      put (save_message_log key seq (json.dumps payload) sent_at)

nonempty {ℓ} : {A : Type ℓ} → List A → Bool
nonempty [] = false
nonempty (x ∷ xs) = true

-- `_write_queue.get(timeout=…)`: the head, if the queue is not empty; the sentinel is dropped
fetch : List (Option WriteOp) → List WriteOp × List (Option WriteOp)
fetch [] = ([], [])
fetch (none ∷ queue) = ([], queue)
fetch (some op ∷ queue) = (op ∷ [], queue)

-- The flush of a batch: committed whole, or rolled back, and then the error ends the thread.
flush : Bool → OutboxStore → OutboxStore
unfolding apply_batch
flush true store = record store { db = apply_batch store.pending store.db; pending = [] }
flush false store = record store { pending = []; running = false }

-- One round of `_run_writer_loop`. Whether the flush interval has elapsed and whether SQLite
-- commits the batch is up to the environment.
unfoldable pub writer_round : Bool → Bool → OutboxStore → OutboxStore
unfolding nonempty fetch flush
writer_round elapsed commits store =
    let (op, queue) = fetch store.write_queue in
    let store' = record store { pending = store.pending ++ op; write_queue = queue } in
    if nonempty store'.pending && (elapsed || store'.stop_event)
    then flush commits store'
    else store'

-- The test of the loop
unfoldable pub has_work : OutboxStore → Bool
unfolding nonempty
has_work store = not store.stop_event || nonempty store.pending || nonempty store.write_queue

-- `_run_writer_loop`, for as many rounds as the environment gives answers
unfoldable pub run_writer : List (Bool × Bool) → OutboxStore → OutboxStore
unfolding writer_round has_work
run_writer [] store = store
run_writer ((elapsed, commits) ∷ rounds) store =
    let rest = run_writer rounds (writer_round elapsed commits store) in
    if store.running && has_work store then rest else store
