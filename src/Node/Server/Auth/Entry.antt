-- ===== src/Node/Server/Auth/Entry.antt =====
-- What the gate makes of a connection: a writer that is let in is the one that its session has.
use clustertalk_githubaction.Node.Server.Auth.Registry.{
  register_connection-IsEntered, IsSteady-IsGated, IsGated, IsEntered-steady, IsEntered,
}
use clustertalk_githubaction.Node.SessionState.{reset_inbound}
use clustertalk_githubaction.Node.SessionManager.{has_local_record, get_or_create, general}
use clustertalk_githubaction.Node.Server.Logic.{Holds-then_run, Holds, Leaves}
use clustertalk_githubaction.Node.Server.Auth.{
  recover_requested, hello_as, handle_hello_after_auth, reset_session, enter,
  setup_session_for_user, recover_from_mesh, Gate, register_connection, stay, leave,
}
use clustertalk_githubaction.Node.Server.Steady.{
  write_frame-IsSteady, with_manager-IsSteady, same, IsSteady,
}
use clustertalk_githubaction.Node.Server.{
  hello_ack, or_default, logged_in, write_frame, with_manager, then_run, return, ServerFrame,
  Services, ServerError, Moment, ChatNode,
}
use clustertalk_githubaction.Prelude.{
  Result, Option, err, ok, none, some, refl, Bool-cases, [], ℕ, ◌∷◌, list_eq, inr, inl,
  Option-cases, Text, nat_eq,
}
use clustertalk_githubaction.Prelude.Dict

-- What the result of a handler says of the writer
abbrev pub LetIn : ℕ → ChatNode → Option Text → ChatNode → Type 0
LetIn w before none node = IsGated w before node
LetIn w before (some sid) node = IsEntered w before sid node

abbrev pub Passed : ℕ → ChatNode → Gate → ChatNode → Type 0
Passed w before stay node = IsGated w before node
Passed w before leave node = IsGated w before node
Passed w before (enter sid) node = IsEntered w before sid node

module _ (services : Services) (moment : Moment) (w : ℕ) (before : ChatNode) where
  abbrev pub AtGate : ChatNode → Type 0
  AtGate = IsGated w before

  recover_from_mesh-IsSteady :
      (sid : Text) (node : ChatNode)
      → IsSteady before node
      → IsSteady before (recover_from_mesh services moment sid node).1
  unfolding recover_from_mesh
  recover_from_mesh-IsSteady sid node h = elim (Option-cases node.mesh) [
    | inl down ↦ rw down h
    | inr (mesh, up) ↦ elim (Bool-cases (has_local_record services.json sid node.manager)) [
      | inl known ↦ rw (up, known) h
      | inr unknown ↦ rw (up, unknown) (same before node _ refl refl refl h)
    ]
  ]

  -- From the registration on, the registry stays as it is.
  registered_since :
      {A : Type 0} (sid : Text) (node : ChatNode) (run : Result ServerError A × ChatNode)
      → IsEntered w before sid node
      → Leaves (IsSteady node) run
      → Holds AtGate (λ a. IsSteady node) run
  registered_since sid node (err e, node') h k =
      (IsEntered-steady w before sid node node' h k).gated
  registered_since sid node (ok a, node') h k = k

  -- The last steps of a login: a frame is written, and the session id returned.
  write_last :
      (sid : Text) (f : ServerFrame) (node node' : ChatNode)
      → IsEntered w before sid node
      → IsSteady node node'
      → Holds AtGate (IsEntered w before) (then_run (write_frame w f node') (λ _. return sid))
  write_last sid f node node' h k =
      Holds-then_run AtGate (IsEntered w before) (λ _. IsSteady node) (write_frame w f node') _
        (registered_since sid node (write_frame w f node') h
          (write_frame-IsSteady node w f node' k))
        (λ _ last. IsEntered-steady w before sid node last h)

  pub setup_session_for_user-IsEntered :
      (username role : Text) (node : ChatNode)
      → IsSteady before node
      → Holds AtGate
          (IsEntered w before)
          (setup_session_for_user services moment username w role node)
  unfolding setup_session_for_user recover_from_mesh register_connection
  setup_session_for_user-IsEntered username role node h =
      let sid = services.session_id_for_user username in
      let named = record node {
        session_usernames = Dict.put sid username node.session_usernames;
      } in
      let recovered = (recover_from_mesh services moment sid named).1 in
      let node1 = (register_connection sid w recovered).1 in
      let entered =
        register_connection-IsEntered w before sid recovered
          (recover_from_mesh-IsSteady sid named (same before node named refl refl refl h)) in
      let steady : IsSteady node1 node1 = record {
        connections = refl;
        evictions = refl;
        phases = refl;
      } in
      let load = get_or_create services.json sid general in
      Holds-then_run AtGate (IsEntered w before) (λ _. IsSteady node1) (with_manager load node1) _
        (registered_since sid node1 (with_manager load node1) entered
          (with_manager-IsSteady node1 load node1 steady))
        (λ session node2.
          write_last sid (logged_in sid session.room_id session.last_processed_seq role) node1 node2
            entered)

  hello_as-IsEntered :
      (sid room : Text) (node : ChatNode)
      → IsSteady before node
      → Holds AtGate (IsEntered w before) (hello_as services moment w sid room node)
  unfolding hello_as reset_session
  hello_as-IsEntered sid room node h =
      let node1 = (register_connection sid w node).1 in
      let entered = register_connection-IsEntered w before sid node h in
      let steady : IsSteady node1 node1 = record {
        connections = refl;
        evictions = refl;
        phases = refl;
      } in
      let load = get_or_create services.json sid room in
      Holds-then_run AtGate (IsEntered w before) (λ _. IsSteady node1) (with_manager load node1) _
        (registered_since sid node1 (with_manager load node1) entered
          (with_manager-IsSteady node1 load node1 steady))
        (λ session node2. λ steady2.
          write_last sid (hello_ack sid session.room_id (reset_inbound session).last_processed_seq)
            node1 _ entered (same node1 node2 _ refl refl refl steady2))

  recover_requested-IsSteady :
      (requested : Text) (node : ChatNode)
      → IsSteady before node
      → Holds AtGate (λ _. IsSteady before) (recover_requested services moment requested node)
  unfolding recover_requested recover_from_mesh
  recover_requested-IsSteady [] node h = h
  recover_requested-IsSteady (c ∷ cs) node h = recover_from_mesh-IsSteady (c ∷ cs) node h

  pub handle_hello-IsEntered :
      (requested room : Option Text) (node : ChatNode)
      → IsSteady before node
      → Holds AtGate
          (IsEntered w before)
          (handle_hello_after_auth services moment w requested room node)
  unfolding handle_hello_after_auth
  handle_hello-IsEntered requested room node h =
      Holds-then_run AtGate (IsEntered w before) (λ _. IsSteady before)
        (recover_requested services moment (or_default requested []) node) _
        (recover_requested-IsSteady (or_default requested []) node h)
        (λ _ node'.
          hello_as-IsEntered (or_default requested moment.uuid) (or_default room general) node')

  pub Leaves-AtGate :
      {A : Type 0} (run : Result ServerError A × ChatNode)
      → Leaves (IsSteady before) run
      → Holds AtGate (λ _. IsSteady before) run
  Leaves-AtGate (err e, node) h = IsSteady-IsGated w before node h
  Leaves-AtGate (ok a, node) h = h

  refused_run :
      (run : Result ServerError (Unit {0}) × ChatNode)
      → Leaves (IsSteady before) run
      → Holds AtGate (LetIn w before) (then_run run (λ _. return none))
  refused_run (err e, node) h = IsSteady-IsGated w before node h
  refused_run (ok _, node) h = IsSteady-IsGated w before node h

  -- A refusal changes nothing that counts.
  pub refused :
      (f : ServerFrame) (node : ChatNode)
      → IsSteady before node
      → Holds AtGate (LetIn w before) (then_run (write_frame w f node) (λ _. return none))
  refused f node h = refused_run (write_frame w f node) (write_frame-IsSteady before w f node h)

  -- The session that a login has set up is returned.
  pub let_in :
      (run : Result ServerError Text × ChatNode)
      → Holds AtGate (IsEntered w before) run
      → Holds AtGate (LetIn w before) (then_run run (λ sid. return (some sid)))
  let_in (err e, node) h = h
  let_in (ok sid, node) h = h
