-- ===== src/Node/Server/Auth/Requests.antt =====
-- What each request of the gate makes of a connection.
use clustertalk_githubaction.Node.Server.Auth.Entry.{
  setup_session_for_user-IsEntered, refused, let_in, handle_hello-IsEntered, Passed, LetIn,
  Leaves-AtGate,
}
use clustertalk_githubaction.Node.Server.Auth.Registry.{IsSteady-IsGated, IsGated, IsEntered}
use clustertalk_githubaction.Node.Password.{verify_password, hash_password}
use clustertalk_githubaction.Node.AuthStore.{find_user, create_account, User}
use clustertalk_githubaction.Node.Server.Logic.{Holds-then_run, Holds}
use clustertalk_githubaction.Node.Server.Auth.{
  after_login, after_register, auth_gate, password_ok, refuse_login, refuse_registration,
  register_valid, login_as, username_ok, wrong_portal, username_taken, handle_register,
  handle_login, create_user, client_role, bad_username, bad_password, bad_credentials,
  handle_hello_after_auth, enter, setup_session_for_user, leave,
}
use clustertalk_githubaction.Node.Server.Steady.{write_frame-IsSteady, same, IsSteady}
use clustertalk_githubaction.Node.Server.{
  close, ClientFrame, message, ack, join_room, get_rooms, ping, disconnect, hello, register, login,
  other_frame, healthy, auth_required, login_refused, register_refused, registered, strip,
  or_default, write_frame, then_run, return, ServerFrame, Services, ServerError, Moment, ChatNode,
}
use clustertalk_githubaction.Prelude.{
  Result, Option, err, ok, none, some, refl, ◌==◌, Bool-cases, [], ℕ, list_eq, inr, inl, false,
  true, Text, nat_eq,
}

module _ (services : Services) (moment : Moment) (w : ℕ) (before : ChatNode) where
  abbrev Outside : ChatNode → Type 0
  Outside = IsGated w before

  refuse_registration-LetIn :
      (reason : Text) (node : ChatNode)
      → IsSteady before node
      → Holds Outside (LetIn w before) (refuse_registration w reason node)
  unfolding refuse_registration
  refuse_registration-LetIn reason node h =
      refused services moment w before (register_refused reason) node h

  register_valid-LetIn :
      (username password : Text) (node : ChatNode)
      → IsSteady before node
      → Holds Outside (LetIn w before) (register_valid services moment w username password node)
  unfolding register_valid create_user
  register_valid-LetIn username password node h =
      let creation =
        create_account username (hash_password services.pbkdf2 moment.salt password) client_role
          node.auth_store in
      let node1 = record node { auth_store = creation.1 } in
      let steady = same before node node1 refl refl refl h in
      elim (Bool-cases creation.0) [
        | inl created ↦ rw created (
            Holds-then_run Outside (LetIn w before) (λ _. IsSteady before)
              (write_frame w registered node1) _
              (Leaves-AtGate services moment w before (write_frame w registered node1)
                (write_frame-IsSteady before w registered node1 steady))
              (λ _ node2. λ steady2.
                let_in services moment w before
                  (setup_session_for_user services moment username w client_role node2)
                  (setup_session_for_user-IsEntered services moment w before username client_role
                    node2 steady2)))
        | inr taken ↦ rw taken (refuse_registration-LetIn username_taken node1 steady)
      ]

  handle_register-LetIn :
      (name secret : Option Text) (node : ChatNode)
      → IsSteady before node
      → Holds Outside (LetIn w before) (handle_register services moment w name secret node)
  unfolding handle_register
  handle_register-LetIn name secret node h =
      let username = strip (or_default name []) in
      let password = or_default secret [] in
      elim (Bool-cases (username_ok username)) [
        | inr bad ↦ rw bad (refuse_registration-LetIn bad_username node h)
        | inl good ↦ elim (Bool-cases (password_ok password)) [
          | inr short ↦ rw (good, short) (refuse_registration-LetIn bad_password node h)
          | inl long ↦ rw (good, long) (register_valid-LetIn username password node h)
        ]
      ]

  refuse_login-LetIn :
      (reason : Text) (node : ChatNode)
      → IsSteady before node
      → Holds Outside (LetIn w before) (refuse_login w reason node)
  unfolding refuse_login
  refuse_login-LetIn reason node h = refused services moment w before (login_refused reason) node h

  login_as-LetIn :
      (username password role : Text) (user : Option User) (node : ChatNode)
      → IsSteady before node
      → Holds Outside (LetIn w before) (login_as services moment w username password role user node)
  unfolding login_as
  login_as-LetIn username password role none node h = refuse_login-LetIn bad_credentials node h
  login_as-LetIn username password role (some user) node h =
      elim (Bool-cases (verify_password services.pbkdf2 password user.password_hash)) [
        | inr wrong ↦ rw wrong (refuse_login-LetIn bad_credentials node h)
        | inl right ↦ elim (Bool-cases (role == user.role)) [
          | inr other ↦ rw (right, other) (refuse_login-LetIn wrong_portal node h)
          | inl equal ↦
              rw (right, equal)
                (let_in services moment w before
                  (setup_session_for_user services moment username w user.role node)
                  (setup_session_for_user-IsEntered services moment w before username user.role node
                    h))
        ]
      ]

  handle_login-LetIn :
      (name secret role : Option Text) (node : ChatNode)
      → IsSteady before node
      → Holds Outside (LetIn w before) (handle_login services moment w name secret role node)
  unfolding handle_login
  handle_login-LetIn name secret role node h =
      login_as-LetIn (strip (or_default name [])) (or_default secret [])
        (or_default role client_role) (find_user (strip (or_default name [])) node.auth_store) node
        h

  -- A frame is written, the writer closed, and the gate left.
  leaving :
      (f : ServerFrame) (node : ChatNode)
      → IsSteady before node
      → Holds Outside (Passed w before) (
          then_run (write_frame w f node) (λ _ node'. then_run (close w node') (λ _. return leave)))
  unfolding close
  leaving f node h =
      Holds-then_run Outside (Passed w before) (λ _. IsSteady before) (write_frame w f node) _
        (Leaves-AtGate services moment w before (write_frame w f node)
          (write_frame-IsSteady before w f node h))
        (λ _ node'. λ h'. IsSteady-IsGated w before _ (same before node' _ refl refl refl h'))

  entering :
      (run : Result ServerError Text × ChatNode)
      → Holds Outside (IsEntered w before) run
      → Holds Outside (Passed w before) (then_run run (λ sid. return (enter sid)))
  entering (err e, node) h = h
  entering (ok sid, node) h = h

  after_register-Passed :
      (run : Result ServerError (Option Text) × ChatNode)
      → Holds Outside (LetIn w before) run
      → Holds Outside (Passed w before) (then_run run after_register)
  unfolding after_register
  after_register-Passed (err e, node) h = h
  after_register-Passed (ok none, node) h = h
  after_register-Passed (ok (some sid), node) h = h

  after_login-Passed :
      (run : Result ServerError (Option Text) × ChatNode)
      → Holds Outside (LetIn w before) run
      → Holds Outside (Passed w before) (then_run run (after_login w))
  unfolding after_login close
  after_login-Passed (err e, node) h = h
  after_login-Passed (ok none, node) h = record { phases = h.phases; others = h.others }
  after_login-Passed (ok (some sid), node) h = h

  pub auth_gate-Passed :
      (f : ClientFrame) (node : ChatNode)
      → IsSteady before node
      → Holds Outside (Passed w before) (auth_gate services moment w f node)
  unfolding auth_gate
  auth_gate-Passed (hello true sid room) node h = leaving healthy node h
  auth_gate-Passed (hello false sid room) node h =
      entering (handle_hello_after_auth services moment w sid room node)
        (handle_hello-IsEntered services moment w before sid room node h)
  auth_gate-Passed (register name secret) node h =
      after_register-Passed (handle_register services moment w name secret node)
        (handle_register-LetIn name secret node h)
  auth_gate-Passed (login name secret role) node h =
      after_login-Passed (handle_login services moment w name secret role node)
        (handle_login-LetIn name secret role node h)
  auth_gate-Passed (message seq text at) node h = leaving auth_required node h
  auth_gate-Passed (ack seq) node h = leaving auth_required node h
  auth_gate-Passed (join_room room) node h = leaving auth_required node h
  auth_gate-Passed get_rooms node h = leaving auth_required node h
  auth_gate-Passed ping node h = leaving auth_required node h
  auth_gate-Passed disconnect node h = leaving auth_required node h
  auth_gate-Passed other_frame node h = leaving auth_required node h
