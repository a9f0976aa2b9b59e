-- ===== src/Node/Server/Connection/Leftover.antt =====
-- An exception in the gate after the registration: the entry of the registry is not taken back.
use clustertalk_githubaction.Node.SessionManager.Mirror.{get_or_create-live}
use clustertalk_githubaction.Node.SessionManager.{general}
use clustertalk_githubaction.Node.Server.Connection.{
  gated, on_frame_in, on_frame, end_connection, cleanup_connection,
}
use clustertalk_githubaction.Node.Server.Auth.{
  recover_requested, hello_as, reset_session, register_connection, recover_from_mesh,
  handle_hello_after_auth, auth_gate,
}
use clustertalk_githubaction.Node.SessionState.{SessionState}
use clustertalk_githubaction.Prelude.{
  ℕ, ◌∷◌, ◌≡◌, Option, false, true, none, some, arith, nat_eq, list_eq, Text,
}
use clustertalk_githubaction.Prelude.Dict
use clustertalk_githubaction.Prelude.Set
use clustertalk_githubaction.Node.Server.{
  managed, write_frame, with_manager, or_default, Services, Payload, Moment, ChatNode, hello,
  authenticating,
}

module _ (services : Services) where
  -- If the connection of a client breaks before its HELLO is answered, where the session it asks for
  -- is live and the mesh is down, the client is served no more, but its writer stays in the registry
  -- as the one of that session.
  pub on_frame-leftover :
      (moment : Moment) (w c : ℕ) (cs : Text) (room : Option Text) (s : SessionState Payload)
      (node : ChatNode)
      → Dict.get w node.phases ≡ some authenticating
      → node.mesh ≡ none
      → Dict.get (c ∷ cs) node.manager.sessions ≡ some s
      → Set.contains w node.broken ≡ true
      → (Dict.get
            (c ∷ cs)
            (on_frame services moment w (hello false (some (c ∷ cs)) room) node).connections
          ≡ some w)
        × (Dict.get w (on_frame services moment w (hello false (some (c ∷ cs)) room) node).phases
            ≡ none)
  unfolding on_frame on_frame_in gated auth_gate handle_hello_after_auth hello_as recover_requested
      recover_from_mesh register_connection with_manager managed reset_session write_frame
      end_connection cleanup_connection
  on_frame-leftover moment w c cs room s node at down live broken =
      let load =
        get_or_create-live services.json (c ∷ cs) (or_default room general) s node.manager live in
      let gone : Dict.get w (Dict.remove w node.phases) ≡ none =
        ground (arith, Dict.get-remove w w node.phases) in
      rw (at, down, load, broken) (Dict.get-put_self (c ∷ cs) w node.connections, gone)
