-- ===== src/Node/Persistence/Reads.antt =====
-- The reads of node/persistence.py. They see the database and not the write queue. A payload that
-- does not load raises `JSONDecodeError`.
pub mod Exact
use mathlib.Core.Option
use clustertalk_githubaction.Prelude.{
  ℕ, zero, suc, ◌+◌, ◌≤◌, ◌<◌, ◌≡◌, refl, arith, ap, Bool, true, false, Option, none, some, List,
  [], ◌∷◌, ◌++◌, ◌&&◌, ◌||◌, not, length, ltb, leb, nat_beq, if◌then◌else◌, Bool-cases, inl, inr,
  Text, nat_eq, list_eq, pair_eq, Result, ok, err, ◌>>=◌, ◌==◌, Option-cases,
}
use clustertalk_githubaction.Prelude.Dict
use clustertalk_githubaction.Prelude.Dict.{Dict, IsDistinct}
use clustertalk_githubaction.Prelude.Sort
use clustertalk_githubaction.Protocol.Framing.{Bytes, Orjson}
use clustertalk_githubaction.Node.SessionState.{OutboundMessage}
use clustertalk_githubaction.Node.Persistence.{Db, SessionRow, OutboxRow, RoomRow, LogRow}

pub data ReadError : Type 0 where
  json_decode_error : ReadError

-- A row of `load_message_history`
pub record HistoryRow (P : Type 0) : Type 0 where
  pub seq : ℕ
  pub payload : P
  pub sent_at : ℕ

-- `SELECT … WHERE session_id = ?` on a table keyed by session and number
unfoldable pub where_session {ℓ} : {V : Type ℓ} → Text → Dict (Text × ℕ) V → List (ℕ × V)
where_session sid [] = []
where_session sid (((s, n), v) ∷ d) =
    let rest = where_session sid d in if s == sid then (n, v) ∷ rest else rest

unfoldable pub load_session : Text → Db → Option SessionRow
load_session sid db = Dict.get sid db.sessions

unfoldable pub get_user : Text → Db → Option (Text × Text)
get_user username db = Option.map (λ hash. (username, hash)) (Dict.get username db.users)

unfoldable pub get_room : Text → Db → Option RoomRow
get_room room db = Dict.get room db.rooms

-- The binary collation of SQLite on names
unfoldable pub text_le : Text → Text → Bool
text_le [] b = true
text_le (x ∷ a) [] = false
text_le (x ∷ a) (y ∷ b) = ltb x y || (nat_beq x y && text_le a b)

insert_by_name : Text × RoomRow → List (Text × RoomRow) → List (Text × RoomRow)
insert_by_name r [] = r ∷ []
insert_by_name r (x ∷ rs) =
    if text_le r.1.name x.1.name then r ∷ x ∷ rs else x ∷ insert_by_name r rs

sort_by_name : Dict Text RoomRow → List (Text × RoomRow)
unfolding insert_by_name text_le
sort_by_name [] = []
sort_by_name (r ∷ rs) = insert_by_name r (sort_by_name rs)

-- `SELECT … FROM rooms ORDER BY name`
unfoldable pub get_all_rooms : Db → List (Text × RoomRow)
unfolding sort_by_name
get_all_rooms db = sort_by_name db.rooms

module _ {P : Type 0} (json : Orjson P) where
  loaded : Option P → Result ReadError P
  loaded none = err json_decode_error
  loaded (some p) = ok p

  outbox_rows : List (ℕ × OutboxRow) → Result ReadError (List (OutboundMessage P))
  outbox_rows [] = ok []
  outbox_rows ((n, row) ∷ rows) = do
    payload ← loaded (json.loads row.payload)
    rest ← outbox_rows rows
    ok (
        record { seq = n; payload = payload; sent_at = row.sent_at; retry_count = row.retry_count }
        ∷ rest)

  unfoldable pub load_outbox : Text → Db → Result ReadError (List (OutboundMessage P))
  unfolding where_session outbox_rows loaded
  load_outbox sid db = outbox_rows (Sort.sort_by (λ r. r.0) (where_session sid db.outbox))

  history_rows : List (ℕ × LogRow) → Result ReadError (List (HistoryRow P))
  history_rows [] = ok []
  history_rows ((n, row) ∷ rows) = do
    payload ← loaded (json.loads row.payload)
    rest ← history_rows rows
    ok (record { seq = n; payload = payload; sent_at = row.sent_at } ∷ rest)

  unfoldable pub load_message_history : Text → ℕ → Db → Result ReadError (List (HistoryRow P))
  unfolding where_session history_rows loaded
  load_message_history sid after_seq db = history_rows (
      Sort.sort_by (λ r. r.0)
        (Sort.filter (λ r. ltb after_seq r.0) (where_session sid db.message_log)))
