-- ===== src/Node/Server/Connection/Strangers.antt =====
-- What a client that is not let in can do to the node.
use clustertalk_githubaction.Node.Server.Connection.{
  gated, on_frame_in, on_frame, end_connection, cleanup_connection,
}
use clustertalk_githubaction.Prelude.{
  ℕ, ◌≡◌, not, inr, inl, Bool-cases, Bool, false, true, some, refl, arith, nat_eq, list_eq,
}
use clustertalk_githubaction.Prelude.Dict
use clustertalk_githubaction.Prelude.Set
use clustertalk_githubaction.Node.Server.{
  write_frame, then_run, return, close, Services, ServerFrame, Moment, ClientFrame, ChatNode,
  message, ack, join_room, get_rooms, ping, disconnect, hello, register, login, other_frame,
  healthy, auth_required, authenticating,
}
use clustertalk_githubaction.Node.Server.Auth.{auth_gate, leave}

-- The frames that may let a client in
abbrev pub is_entry : ClientFrame → Bool
is_entry (hello health sid room) = not health
is_entry (register name secret) = true
is_entry (login name secret role) = true
is_entry (message seq text at) = false
is_entry (ack seq) = false
is_entry (join_room room) = false
is_entry get_rooms = false
is_entry ping = false
is_entry disconnect = false
is_entry other_frame = false

-- Everything but what was written, which writers were closed, and the phase of the writer is as it
-- was, and the writer is served no more.
pub record IsUntouched (w : ℕ) (before node : ChatNode) : Type 0 where
  pub manager : node.manager ≡ before.manager
  pub auth_store : node.auth_store ≡ before.auth_store
  pub connections : node.connections ≡ before.connections
  pub session_usernames : node.session_usernames ≡ before.session_usernames
  pub mesh : node.mesh ≡ before.mesh
  pub evictions : node.evictions ≡ before.evictions
  pub phases : node.phases ≡ Dict.remove w before.phases

module _ (services : Services) where
  -- A frame is written, or not, and the connection ended.
  turned_away :
      (w : ℕ) (f : ServerFrame) (node : ChatNode)
      → IsUntouched w node (
          gated services w (
            then_run
              (write_frame w f node)
              (λ _ node'. then_run (close w node') (λ _. return leave))))
  unfolding gated write_frame close end_connection cleanup_connection
  turned_away w f node = elim (Bool-cases (Set.contains w node.broken)) [
    | inl broken ↦ rw broken (record {
      manager = refl;
      auth_store = refl;
      connections = refl;
      session_usernames = refl;
      mesh = refl;
      evictions = refl;
      phases = refl;
    })
    | inr whole ↦ rw whole (record {
      manager = refl;
      auth_store = refl;
      connections = refl;
      session_usernames = refl;
      mesh = refl;
      evictions = refl;
      phases = refl;
    })
  ]

  gate_frame-IsUntouched :
      (moment : Moment) (w : ℕ) (f : ClientFrame) (node : ChatNode)
      → is_entry f ≡ false
      → IsUntouched w node (gated services w (auth_gate services moment w f node))
  unfolding auth_gate
  gate_frame-IsUntouched moment w (hello true sid room) node h = turned_away w healthy node
  gate_frame-IsUntouched moment w (hello false sid room) node h = absurd (ground (arith, h))
  gate_frame-IsUntouched moment w (register name secret) node h = absurd (ground (arith, h))
  gate_frame-IsUntouched moment w (login name secret role) node h = absurd (ground (arith, h))
  gate_frame-IsUntouched moment w (message seq text at) node h = turned_away w auth_required node
  gate_frame-IsUntouched moment w (ack seq) node h = turned_away w auth_required node
  gate_frame-IsUntouched moment w (join_room room) node h = turned_away w auth_required node
  gate_frame-IsUntouched moment w get_rooms node h = turned_away w auth_required node
  gate_frame-IsUntouched moment w ping node h = turned_away w auth_required node
  gate_frame-IsUntouched moment w disconnect node h = turned_away w auth_required node
  gate_frame-IsUntouched moment w other_frame node h = turned_away w auth_required node

  -- A client that is not let in, and sends anything but HELLO, REGISTER and LOGIN, or a HELLO that
  -- asks for the health of the node, changes no session, account, registry, name or relay of the
  -- node, and is served no more.
  pub on_frame-IsUntouched :
      (moment : Moment) (w : ℕ) (f : ClientFrame) (node : ChatNode)
      → Dict.get w node.phases ≡ some authenticating
      → is_entry f ≡ false
      → IsUntouched w node (on_frame services moment w f node)
  unfolding on_frame on_frame_in
  on_frame-IsUntouched moment w f node at h = rw at (gate_frame-IsUntouched moment w f node h)
