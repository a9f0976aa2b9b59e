-- ===== src/Node/Server.antt =====
-- `ChatNode` of node/server.py: its state, what its handlers read and write, and the writes to
-- clients. A handler runs from one frame to the next with nothing in between. A writer is named by
-- a reference; a write to a broken one raises, and what was changed before stays changed.
pub mod Auth
mod Examples
pub mod Chat
pub mod Connection
pub mod Logic
pub mod Steady
pub mod Machine
use clustertalk_githubaction.Prelude.{
  ℕ, Bool, true, false, Option, none, some, List, [], ◌∷◌, ◌++◌, if◌then◌else◌, Text, codes, nat_eq,
  list_eq, Result, ok, err, ◌==◌, ◌||◌, ◌&&◌, leb, nat_beq,
}
use clustertalk_githubaction.Prelude.Dict
use clustertalk_githubaction.Prelude.Dict.{Dict}
use clustertalk_githubaction.Prelude.Set
use clustertalk_githubaction.Protocol.Framing.{Bytes, Orjson}
use clustertalk_githubaction.Node.AuthStore.{AuthStore}
use clustertalk_githubaction.Node.Mesh.{PeerManager}
use clustertalk_githubaction.Node.Persistence.{OutboxStore}
use clustertalk_githubaction.Node.Persistence.Reads.{ReadError}
use clustertalk_githubaction.Node.SessionManager
use clustertalk_githubaction.Node.SessionManager.{SessionManager, Snapshot}

-- The JSON objects that the node stores: a chat message as it is delivered (`text`, `from`,
-- `room_id`, `sent_at`), and a MESSAGE frame as a client sent it (`seq`, `text`, `sent_at`).
pub data Payload : Type 0 where
  chat : Text → Text → Text → Option ℕ → Payload
  inbound : ℕ → Option Text → Option ℕ → Payload

-- A frame from a client, with the fields that the node reads; an absent key is `none`.
pub data ClientFrame : Type 0 where
  -- `health_check`, `session_id`, `room_id`
  hello : Bool → Option Text → Option Text → ClientFrame
  -- `username`, `password`
  register : Option Text → Option Text → ClientFrame
  -- `username`, `password`, `role`
  login : Option Text → Option Text → Option Text → ClientFrame
  -- `seq`, `text`, `sent_at`
  message : Option ℕ → Option Text → Option ℕ → ClientFrame
  ack : Option ℕ → ClientFrame
  join_room : Option Text → ClientFrame
  get_rooms : ClientFrame
  ping : ClientFrame
  disconnect : ClientFrame
  -- any other type
  other_frame : ClientFrame

-- A row of ROOMS_LIST
pub record RoomInfo : Type 0 where
  pub room_id : Text
  pub name : Text
  pub max_capacity : ℕ
  pub current_count : ℕ
  pub created_by : Text

-- A frame to a client
pub data ServerFrame : Type 0 where
  healthy : ServerFrame
  -- HELLO_ACK: `session_id`, `room_id`, `last_processed_seq`
  hello_ack : Text → Text → ℕ → ServerFrame
  -- REGISTER_ACK with `ok`, or with the reason of a refusal
  registered : ServerFrame
  register_refused : Text → ServerFrame
  -- LOGIN_ACK: `session_id`, `room_id`, `last_processed_seq`, `role`, or the reason of a refusal
  logged_in : Text → Text → ℕ → Text → ServerFrame
  login_refused : Text → ServerFrame
  -- ERROR with the code `auth_required`
  auth_required : ServerFrame
  -- ERROR with the code `room_full`: the room, how many are in it, how many may be
  room_full : Text → ℕ → ℕ → ServerFrame
  room_joined : Text → ServerFrame
  rooms_list : List RoomInfo → ServerFrame
  message_frame : ℕ → Payload → ServerFrame
  ack_frame : ℕ → ServerFrame
  pong : ServerFrame
  logged_in_elsewhere : ServerFrame

-- Where the coroutine of a connection stands: in `_auth_gate`, or in `_read_loop`
pub data Phase : Type 0 where
  authenticating : Phase
  chatting : Text → Phase

pub record ChatNode : Type 0 where
  pub manager : SessionManager Payload
  pub auth_store : AuthStore
  pub connections : Dict Text ℕ
  pub session_usernames : Dict Text Text
  pub mesh : Option (PeerManager (Snapshot Payload))
  -- the `_evict` tasks that have been created, by their writer
  pub evictions : List ℕ
  pub phases : Dict ℕ Phase
  -- the frames written to clients, the latest last
  pub sent : List (ℕ × ServerFrame)
  -- the writers that were closed here, and those whose connection is lost
  pub closing : List ℕ
  pub broken : List ℕ

-- `ChatNode.__init__`, on what is on disk; the mesh is there once it has been started.
unfoldable pub init : OutboxStore → AuthStore → Option (PeerManager (Snapshot Payload)) → ChatNode
init store accounts mesh = record {
  manager = SessionManager.init store;
  auth_store = accounts;
  connections = [];
  session_usernames = [];
  mesh = mesh;
  evictions = [];
  phases = [];
  sent = [];
  closing = [];
  broken = [];
}

pub data ServerError : Type 0 where
  connection_error : ServerError
  -- a stored payload that does not load
  read_error : ReadError → ServerError
  -- `payload["seq"]` without the key
  key_error : ServerError

-- What a handler is given from outside: the clocks, a fresh uuid, a fresh salt, and what the mesh
-- answers to a session query
pub record Moment : Type 0 where
  pub now : ℕ
  pub wall : ℕ
  pub uuid : Text
  pub salt : Bytes
  pub answer : Option (Snapshot Payload)

-- orjson, `pbkdf2_hmac` on the UTF-8 of a password, and `uuid5` on a username
pub record Services : Type 0 where
  pub json : Orjson Payload
  pub pbkdf2 : Text → Bytes → Bytes
  pub session_id_for_user : Text → Text

-- A handler returns or raises, and changes the node either way.
abbrev pub Handler : Type 0 → Type 0
Handler A = ChatNode → Result ServerError A × ChatNode

abbrev pub then_run :
    {A C : Type 0}
    → Result ServerError A × ChatNode
    → (A → Handler C)
    → Result ServerError C × ChatNode
then_run (err e, node) next = (err e, node)
then_run (ok a, node) next = next a node

infixl 5 ◌>>=◌ ◌>>◌
abbrev pub ◌>>=◌ : {A C : Type 0} → Handler A → (A → Handler C) → Handler C
◌>>=◌ first next node = then_run (first node) next

abbrev pub ◌>>◌ : {A C : Type 0} → Handler A → Handler C → Handler C
first >> second = first >>= λ _. second

abbrev pub return : {A : Type 0} → A → Handler A
return a node = (ok a, node)

abbrev pub raise : {A : Type 0} → ServerError → Handler A
raise e node = (err e, node)

abbrev pub gets : {A : Type 0} → (ChatNode → A) → Handler A
gets look node = (ok (look node), node)

abbrev pub modify : (ChatNode → ChatNode) → Handler (Unit {0})
modify change node = (ok tt, change node)

-- `write_frame`
unfoldable pub write_frame : ℕ → ServerFrame → Handler (Unit {0})
write_frame writer frame node =
    if Set.contains writer node.broken
    then (err connection_error, node)
    else (ok tt, record node { sent = node.sent ++ (writer, frame) ∷ [] })

-- `writer.close()`
unfoldable pub close : ℕ → Handler (Unit {0})
close writer = modify (λ node. record node { closing = Set.add writer node.closing })

managed : {A : Type 0} → Result ReadError (A × SessionManager Payload) → Handler A
managed (err e) node = (err (read_error e), node)
managed (ok (a, m)) node = (ok a, record node { manager = m })

-- A call of the session manager; one that raises has changed nothing.
unfoldable pub with_manager :
    {A : Type 0}
    → (SessionManager Payload → Result ReadError (A × SessionManager Payload))
    → Handler A
unfolding managed
with_manager call node = managed (call node.manager) node

-- A write to the store that the node and its session manager share
unfoldable pub with_store : (OutboxStore → OutboxStore) → Handler (Unit {0})
with_store call =
    modify
      (λ node. record node { manager = record node.manager { store = call node.manager.store } })

-- Whether a session's entry in the registry is this writer
abbrev pub holds_writer : ℕ → Option ℕ → Bool
holds_writer writer none = false
holds_writer writer (some held) = nat_beq held writer

abbrev pub or_default : Option Text → Text → Text
or_default none d = d
or_default (some []) d = d
or_default (some (c ∷ cs)) d = c ∷ cs

-- `str.isspace` of one character
unfoldable pub is_space : ℕ → Bool
is_space c =
    (leb 9 c && leb c 13)
    || (leb 28 c && leb c 32)
    || nat_beq c 133
    || nat_beq c 160
    || nat_beq c 5760
    || (leb 8192 c && leb c 8202)
    || nat_beq c 8232
    || nat_beq c 8233
    || nat_beq c 8239
    || nat_beq c 8287
    || nat_beq c 12288

lstrip : Text → Text
unfolding is_space
lstrip [] = []
lstrip (c ∷ s) = if is_space c then lstrip s else c ∷ s

-- The text without the spaces at its end
rstrip : Text → Text
unfolding is_space
rstrip [] = []
rstrip (c ∷ s) = elim (rstrip s) [ [] ↦ if is_space c then [] else c ∷ [] | ◌∷◌ d r ↦ c ∷ d ∷ r ]

-- `str.strip`
unfoldable pub strip : Text → Text
unfolding lstrip rstrip
strip s = rstrip (lstrip s)
