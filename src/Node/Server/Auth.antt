-- ===== src/Node/Server/Auth.antt =====
-- The authentication of a connection: `_auth_gate` and the handlers that it calls.
pub mod Registry
pub mod Entry
pub mod Requests
pub mod Credentials
use clustertalk_githubaction.Prelude.{
  ℕ, Bool, true, false, Option, none, some, List, [], ◌∷◌, ◌++◌, length, if◌then◌else◌, Text, codes,
  nat_eq, list_eq, ◌==◌, ◌&&◌, not, ltb, nat_beq, ok, err,
}
use clustertalk_githubaction.Prelude.Dict
use clustertalk_githubaction.Protocol.Framing.{Orjson}
use clustertalk_githubaction.Node.AuthStore.{User, find_user, create_account}
use clustertalk_githubaction.Node.Mesh.{begin_query, end_query}
use clustertalk_githubaction.Node.Password.{hash_password, verify_password}
use clustertalk_githubaction.Node.SessionState.{SessionState, reset_inbound}
use clustertalk_githubaction.Node.SessionManager.{
  SessionManager, Snapshot, general, hold, get_or_create, has_local_record, hydrate_from_snapshot,
}
use clustertalk_githubaction.Node.Server.{
  Payload, ClientFrame, hello, register, login, message, ack, join_room, get_rooms, ping,
  disconnect, other_frame, healthy, hello_ack, registered, register_refused, logged_in,
  login_refused, auth_required, ServerFrame, ChatNode, Moment, Services, Handler, ◌>>=◌, ◌>>◌,
  return, gets, modify, write_frame, close, with_manager, or_default, strip,
}

-- What the gate makes of a frame: it waits for another, ends the connection, or lets it in.
pub data Gate : Type 0 where
  stay : Gate
  leave : Gate
  enter : Text → Gate

abbrev pub client_role : Text
client_role = codes "client"

abbrev pub bad_username : Text
bad_username = codes "username must be 3-32 characters"

abbrev pub bad_password : Text
bad_password = codes "password must be at least 6 characters"

abbrev pub username_taken : Text
username_taken = codes "username already taken"

abbrev pub bad_credentials : Text
bad_credentials = codes "invalid username or password"

abbrev pub wrong_portal : Text
wrong_portal = codes "this account is not authorized for the requested portal"

-- The eviction of the writer that a session had: `_evict` is left to a task of its own.
unfoldable pub register_connection : Text → ℕ → Handler (Unit {0})
register_connection session_id writer = modify (λ node. record node {
  connections = Dict.put session_id writer node.connections;
  evictions = elim (Dict.get session_id node.connections) [
    | none ↦ node.evictions
    | some old ↦ if nat_beq old writer then node.evictions else node.evictions ++ old ∷ []
  ];
})

unfoldable pub username_ok : Text → Bool
username_ok username = not (ltb (length username) 3) && not (ltb 32 (length username))

unfoldable pub password_ok : Text → Bool
password_ok password = not (ltb (length password) 6)

-- `create_user` of the store of accounts, with the role `client`
unfoldable pub create_user : Text → Text → Handler Bool
create_user username password_hash node =
    let (created, store) = create_account username password_hash client_role node.auth_store in
    (ok created, record node { auth_store = store })

refuse_registration : ℕ → Text → Handler (Option Text)
refuse_registration writer reason = do write_frame writer (register_refused reason); return none

unfoldable pub refuse_login : ℕ → Text → Handler (Option Text)
refuse_login writer reason = do write_frame writer (login_refused reason); return none

-- `session.reset_inbound()` on the object that the session manager holds
unfoldable pub reset_session : Text → SessionState Payload → Handler (Unit {0})
reset_session session_id session =
    modify (λ node. record node { manager = hold session_id (reset_inbound session) node.manager })

after_register : Option Text → Handler Gate
after_register none = return stay
after_register (some session_id) = return (enter session_id)

after_login : ℕ → Option Text → Handler Gate
after_login writer none = do close writer; return leave
after_login writer (some session_id) = return (enter session_id)

module _ (services : Services) (moment : Moment) where
  -- The session, if a peer answered the query
  hydrated : Text → Option (Snapshot Payload) → SessionManager Payload → SessionManager Payload
  hydrated session_id none m = m
  hydrated session_id (some snapshot) m =
      (hydrate_from_snapshot services.json session_id snapshot m).1

  -- Cross-node recovery, where the mesh is up and this node has no record of the session
  unfoldable pub recover_from_mesh : Text → Handler (Unit {0})
  unfolding hydrated
  recover_from_mesh session_id = modify (λ node. elim node.mesh [
    | none ↦ node
    | some mesh ↦
        if has_local_record services.json session_id node.manager then node else record node {
          mesh = some (end_query moment.uuid (begin_query moment.uuid session_id mesh)).1;
          manager = hydrated session_id moment.answer node.manager;
        }
  ])

  -- `_setup_session_for_user`
  unfoldable pub setup_session_for_user : Text → ℕ → Text → Handler Text
  unfolding recover_from_mesh register_connection
  setup_session_for_user username writer role = do
    let session_id = services.session_id_for_user username
    modify (λ node. record node {
      session_usernames = Dict.put session_id username node.session_usernames;
    })
    recover_from_mesh session_id
    register_connection session_id writer
    session ← with_manager (get_or_create services.json session_id general)
    write_frame writer (logged_in session_id session.room_id session.last_processed_seq role)
    return session_id

  register_valid : ℕ → Text → Text → Handler (Option Text)
  unfolding create_user setup_session_for_user refuse_registration
  register_valid writer username password = do
    created ← create_user username (hash_password services.pbkdf2 moment.salt password)
    if created
        then (do
          write_frame writer registered
          session_id ← setup_session_for_user username writer client_role
          return (some session_id))
        else refuse_registration writer username_taken

  -- `_handle_register`
  unfoldable pub handle_register : ℕ → Option Text → Option Text → Handler (Option Text)
  unfolding username_ok password_ok register_valid refuse_registration
  handle_register writer name secret =
      let username = strip (or_default name []) in
      let password = or_default secret [] in
      if not (username_ok username)
      then refuse_registration writer bad_username
      else if not (password_ok password)
      then refuse_registration writer bad_password
      else register_valid writer username password

  login_as : ℕ → Text → Text → Text → Option User → Handler (Option Text)
  unfolding refuse_login setup_session_for_user
  login_as writer username password requested_role none = refuse_login writer bad_credentials
  login_as writer username password requested_role (some user) =
      if not (verify_password services.pbkdf2 password user.password_hash)
      then refuse_login writer bad_credentials
      else if not (requested_role == user.role)
      then refuse_login writer wrong_portal
      else (do
        session_id ← setup_session_for_user username writer user.role
        return (some session_id))

  -- `_handle_login`
  unfoldable pub handle_login : ℕ → Option Text → Option Text → Option Text → Handler (Option Text)
  unfolding login_as
  handle_login writer name secret role = do
    let username = strip (or_default name [])
    user ← gets (λ node. find_user username node.auth_store)
    login_as writer username (or_default secret []) (or_default role client_role) user

  -- `_handle_hello_after_auth` from the registration on
  unfoldable pub hello_as : ℕ → Text → Text → Handler Text
  unfolding register_connection reset_session
  hello_as writer session_id room_id = do
    register_connection session_id writer
    session ← with_manager (get_or_create services.json session_id room_id)
    reset_session session_id session
    write_frame writer
        (hello_ack session_id session.room_id (reset_inbound session).last_processed_seq)
    return session_id

  -- A HELLO without a session id asks no peer.
  unfoldable pub recover_requested : Text → Handler (Unit {0})
  unfolding recover_from_mesh
  recover_requested [] = return tt
  recover_requested (c ∷ cs) = recover_from_mesh (c ∷ cs)

  -- `_handle_hello_after_auth`
  unfoldable pub handle_hello_after_auth : ℕ → Option Text → Option Text → Handler Text
  unfolding hello_as recover_requested
  handle_hello_after_auth writer requested room = do
    recover_requested (or_default requested [])
    hello_as writer (or_default requested moment.uuid) (or_default room general)

  -- One round of `_auth_gate`
  unfoldable pub auth_gate : ℕ → ClientFrame → Handler Gate
  unfolding handle_register handle_login handle_hello_after_auth after_register after_login
  auth_gate writer (hello true session_id room) = do
    write_frame writer healthy
    close writer
    return leave
  auth_gate writer (hello false session_id room) = do
    entered ← handle_hello_after_auth writer session_id room
    return (enter entered)
  auth_gate writer (register username password) = do
    entered ← handle_register writer username password
    after_register entered
  auth_gate writer (login username password role) = do
    entered ← handle_login writer username password role
    after_login writer entered
  auth_gate writer (message seq text sent_at) = do
    write_frame writer auth_required
    close writer
    return leave
  auth_gate writer (ack seq) = do write_frame writer auth_required; close writer; return leave
  auth_gate writer (join_room room) = do
    write_frame writer auth_required
    close writer
    return leave
  auth_gate writer get_rooms = do write_frame writer auth_required; close writer; return leave
  auth_gate writer ping = do write_frame writer auth_required; close writer; return leave
  auth_gate writer disconnect = do write_frame writer auth_required; close writer; return leave
  auth_gate writer other_frame = do write_frame writer auth_required; close writer; return leave
