-- ===== src/Node/Persistence/Tables.antt =====
-- The primary keys of the tables (node/persistence.py, the schema and `_apply_batch`).
use clustertalk_githubaction.Prelude.{arith, List, [], ◌∷◌, Text, nat_eq, list_eq, pair_eq}
use clustertalk_githubaction.Prelude.Dict
use clustertalk_githubaction.Prelude.Dict.{Dict, IsDistinct}
use clustertalk_githubaction.Node.Persistence.{
  Db, WriteOp, save_session, save_outbound, delete_outbound, create_user, upsert_room,
  save_message_log, insert_or_ignore, apply_op, apply_batch,
}

-- No table has two rows with one key.
pub record IsKeyed (db : Db) : Type 0 where
  pub sessions : IsDistinct db.sessions
  pub outbox : IsDistinct db.outbox
  pub users : IsDistinct db.users
  pub rooms : IsDistinct db.rooms
  pub message_log : IsDistinct db.message_log

insert_or_ignore-IsDistinct :
    {V : Type 0} (k : Text) (v : V) (d : Dict Text V)
    → IsDistinct d
    → IsDistinct (insert_or_ignore k v d)
unfolding insert_or_ignore
insert_or_ignore-IsDistinct k v d h = ground (arith, h, Dict.put-IsDistinct k v d h)

-- Every statement keeps the primary keys.
pub apply_op-IsKeyed : (op : WriteOp) (db : Db) → IsKeyed db → IsKeyed (apply_op op db)
unfolding apply_op
apply_op-IsKeyed (save_session sid next last room) db h = record {
  sessions = Dict.put-IsDistinct sid _ db.sessions h.sessions;
  outbox = h.outbox;
  users = h.users;
  rooms = h.rooms;
  message_log = h.message_log;
}
apply_op-IsKeyed (save_outbound sid seq payload at) db h = record {
  sessions = h.sessions;
  outbox = Dict.put-IsDistinct (sid, seq) _ db.outbox h.outbox;
  users = h.users;
  rooms = h.rooms;
  message_log = h.message_log;
}
apply_op-IsKeyed (delete_outbound sid seq) db h = record {
  sessions = h.sessions;
  outbox = Dict.remove-IsDistinct (sid, seq) db.outbox h.outbox;
  users = h.users;
  rooms = h.rooms;
  message_log = h.message_log;
}
apply_op-IsKeyed (create_user username hash) db h = record {
  sessions = h.sessions;
  outbox = h.outbox;
  users = insert_or_ignore-IsDistinct username hash db.users h.users;
  rooms = h.rooms;
  message_log = h.message_log;
}
apply_op-IsKeyed (upsert_room room name capacity creator) db h = record {
  sessions = h.sessions;
  outbox = h.outbox;
  users = h.users;
  rooms = insert_or_ignore-IsDistinct room _ db.rooms h.rooms;
  message_log = h.message_log;
}
apply_op-IsKeyed (save_message_log key seq payload at) db h = record {
  sessions = h.sessions;
  outbox = h.outbox;
  users = h.users;
  rooms = h.rooms;
  message_log = Dict.put-IsDistinct (key, seq) _ db.message_log h.message_log;
}

-- A batch of writes, whatever they are, keeps the primary keys: if no table has two rows under one
-- key before it, none has after it.
pub apply_batch-IsKeyed : (ops : List WriteOp) (db : Db) → IsKeyed db → IsKeyed (apply_batch ops db)
unfolding apply_batch
apply_batch-IsKeyed [] db h = h
apply_batch-IsKeyed (op ∷ ops) db h =
    apply_batch-IsKeyed ops (apply_op op db) (apply_op-IsKeyed op db h)
