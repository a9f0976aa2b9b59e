-- ===== src/Node/Server/Connection/Single.antt =====
-- One connection for each session: a client in the chat is the one that its session has, or its
-- eviction has been asked for.
use clustertalk_githubaction.Node.Server.Chat.{read_frame_of}
use clustertalk_githubaction.Node.Server.Chat.Quiet.{
  read_frame_of-IsSteady, replay_unacked-IsSteady,
}
use clustertalk_githubaction.Node.SessionManager.{get_or_create, general}
use clustertalk_githubaction.Node.Server.Auth.Entry.{Passed}
use clustertalk_githubaction.Node.Server.Auth.Requests.{auth_gate-Passed}
use clustertalk_githubaction.Node.Server.Logic.{Holds, Leaves-then_run}
use clustertalk_githubaction.Node.Server.Auth.{auth_gate, enter, stay, leave, reset_session, Gate}
use clustertalk_githubaction.Node.Server.Connection.{
  ended, on_frame_in, run_eviction, on_read_end, on_frame, on_connect, gated, served, begun,
  begin_session, end_connection, cleanup_connection,
}
use clustertalk_githubaction.Node.Server.Steady.{
  write_frame-IsSteady, with_manager-IsSteady, same, IsSteady-refl, is_accounted, IsSteady,
}
use clustertalk_githubaction.Node.Server.Auth.Registry.{IsGated}
use clustertalk_githubaction.Node.Server.{
  logged_in_elsewhere, write_frame, Moment, ClientFrame, with_manager, Services, ServerError,
  authenticating, Dict, holds_writer, Phase, chatting, ChatNode,
}
use clustertalk_githubaction.Prelude.{
  Result, Bool, err, ok, refl, [], ◌==◌, inr, inl, Option-cases, Bool-cases, arith, text_eq_iff, ℕ,
  ◌∙◌, ◌≡◌, ap, sym, Option, false, true, none, some, nat_eq, nat_beq, list_eq, Text,
}
use clustertalk_githubaction.Prelude.Dict

-- Every writer in the chat, but one, is accounted for in its session.
abbrev pub IsSingleBut : ℕ → ChatNode → Type 0
IsSingleBut w node =
    (v : ℕ) (sid : Text)
    → nat_beq v w ≡ false
    → Dict.get v node.phases ≡ some (chatting sid)
    → is_accounted v sid node ≡ true

abbrev pub IsSingle : ChatNode → Type 0
IsSingle node =
    (v : ℕ) (sid : Text)
    → Dict.get v node.phases ≡ some (chatting sid)
    → is_accounted v sid node ≡ true

pub IsSteady-IsSingle :
    (before node : ChatNode) → IsSteady before node → IsSingle before → IsSingle node
IsSteady-IsSingle before node h i v sid there =
    rw (h.connections, h.evictions) (i v sid (ap (Dict.get v) (sym h.phases) ∙ there))

IsGated-IsSingleBut :
    (w : ℕ) (before node : ChatNode) → IsGated w before node → IsSingle before → IsSingleBut w node
IsGated-IsSingleBut w before node h i v sid ne there =
    h.others v sid ne (i v sid (ap (Dict.get v) (sym h.phases) ∙ there))

IsSingle-IsSingleBut : (w : ℕ) (node : ChatNode) → IsSingle node → IsSingleBut w node
IsSingle-IsSingleBut w node i v sid ne there = i v sid there

IsSingleBut-steady :
    (w : ℕ) (before node : ChatNode)
    → IsSteady before node
    → IsSingleBut w before
    → IsSingleBut w node
IsSingleBut-steady w before node h i v sid ne there =
    rw (h.connections, h.evictions) (i v sid ne (ap (Dict.get v) (sym h.phases) ∙ there))

-- A writer that is still in the gate is not in the chat.
IsSingleBut-whole :
    (w : ℕ) (node : ChatNode)
    → IsSingleBut w node
    → Dict.get w node.phases ≡ some authenticating
    → IsSingle node
IsSingleBut-whole w node i at v sid there = elim (Bool-cases (nat_beq v w)) [
  | inl equal ↦
      let writer : v ≡ w = ground (arith, equal) in
      let moved = ap (λ k. Dict.get k node.phases) writer in
      absurd (ground (arith, at, there, moved))
  | inr other ↦ i v sid other there
]

-- A connection that still has a phase after another has ended
phase_left :
    (v w : ℕ) (sid : Text) (phases : Dict ℕ Phase)
    → Dict.get v (Dict.remove w phases) ≡ some (chatting sid)
    → (nat_beq v w ≡ false) × (Dict.get v phases ≡ some (chatting sid))
phase_left v w sid phases there = elim (Bool-cases (nat_beq w v)) [
  | inl equal ↦ absurd (ground (arith, there, equal, Dict.get-remove w v phases))
  | inr other ↦ (ground (arith, other), ground (arith, there, other, Dict.get-remove w v phases))
]

-- The end of a connection leaves the others accounted for.
end_connection-IsSingle :
    (o : Option Text) (w : ℕ) (node : ChatNode)
    → IsSingleBut w node
    → IsSingle (end_connection o w node)
unfolding end_connection cleanup_connection
end_connection-IsSingle none w node h v sid there =
    let (ne, was) = phase_left v w sid node.phases there in h v sid ne was
end_connection-IsSingle (some t) w node h v sid there =
    let (ne, was) = phase_left v w sid node.phases there in
    let accounted = h v sid ne was in
    let removed = Dict.get-remove t sid node.connections in
    elim (Bool-cases (holds_writer w (Dict.get t node.connections))) [
      | inr not_held ↦ ground (arith, accounted, not_held)
      | inl held ↦ elim (Bool-cases (t == sid)) [
        | inr other ↦ ground (arith, accounted, held, removed, other)
        | inl equal ↦
            let moved = ap (λ k. Dict.get k node.connections) ((text_eq_iff t sid).0 equal) in
            elim (Option-cases (Dict.get t node.connections)) [
              | inl absent ↦ ground (arith, accounted, held, removed, equal, moved, absent)
              | inr (x, here) ↦ ground (arith, accounted, held, removed, equal, moved, here, ne)
            ]
      ]
    ]

abbrev session_of : Option Phase → Text
session_of none = []
session_of (some authenticating) = []
session_of (some (chatting sid)) = sid

-- A connection that is let in
begun-IsSingle :
    (sid : Text) (w : ℕ) (node : ChatNode)
    → IsSingleBut w node
    → is_accounted w sid node ≡ true
    → IsSingle (record node { phases = Dict.put w (chatting sid) node.phases })
begun-IsSingle sid w node h own v t there =
    let put = Dict.get-put w v (chatting sid) node.phases in
    elim (Bool-cases (nat_beq w v)) [
      | inl equal ↦
          let writer : v ≡ w = ground (arith, equal) in
          let shown : some (chatting t) ≡ some (chatting sid) = sym there ∙ put ∙ rw equal in
          let session : t ≡ sid = ap session_of shown in rw (writer, session) own
      | inr other ↦ h v t (ground (arith, other)) (ground (arith, put, other, there))
    ]

module _ (services : Services) where
  begin_session-IsSteady :
      (sid : Text) (w : ℕ) (node : ChatNode) → IsSteady node (begin_session services sid w node).1
  unfolding begin_session reset_session
  begin_session-IsSteady sid w node =
      let load = get_or_create services.json sid general in
      Leaves-then_run (IsSteady node) (with_manager load node) _
        (with_manager-IsSteady node load node (IsSteady-refl node))
        (λ session node'.
          λ h. replay_unacked-IsSteady services node sid w _ (same node node' _ refl refl refl h))

  begun-run :
      (sid : Text) (w : ℕ) (node : ChatNode) (run : Result ServerError (Unit {0}) × ChatNode)
      → IsSingleBut w node
      → is_accounted w sid node ≡ true
      → IsSteady node run.1
      → IsSingle (begun services sid w run)
  unfolding begun
  begun-run sid w node (err e, node') h own k =
      end_connection-IsSingle (some sid) w node' (IsSingleBut-steady w node node' k h)
  begun-run sid w node (ok _, node') h own k =
      begun-IsSingle sid w node' (IsSingleBut-steady w node node' k h)
        (rw (k.connections, k.evictions) own)

  -- A frame in the gate
  gated-IsSingle :
      (w : ℕ) (before : ChatNode) (run : Result ServerError Gate × ChatNode)
      → IsSingle before
      → Dict.get w before.phases ≡ some authenticating
      → Holds (IsGated w before) (Passed w before) run
      → IsSingle (gated services w run)
  unfolding gated
  gated-IsSingle w before (err e, node) i at h =
      end_connection-IsSingle none w node (IsGated-IsSingleBut w before node h i)
  gated-IsSingle w before (ok stay, node) i at h =
      IsSingleBut-whole w node (IsGated-IsSingleBut w before node h i)
        (ap (Dict.get w) h.phases ∙ at)
  gated-IsSingle w before (ok leave, node) i at h =
      end_connection-IsSingle none w node (IsGated-IsSingleBut w before node h i)
  gated-IsSingle w before (ok (enter sid), node) i at h =
      begun-run sid w node (begin_session services sid w node)
        (IsGated-IsSingleBut w before node h.gated i) h.own (begin_session-IsSteady sid w node)

  served-IsSingle :
      (sid : Text) (w : ℕ) (before : ChatNode) (run : Result ServerError Bool × ChatNode)
      → IsSingle before
      → IsSteady before run.1
      → IsSingle (served services sid w run)
  unfolding served
  served-IsSingle sid w before (err e, node) i h =
      end_connection-IsSingle (some sid) w node
        (IsSingle-IsSingleBut w node (IsSteady-IsSingle before node h i))
  served-IsSingle sid w before (ok true, node) i h = IsSteady-IsSingle before node h i
  served-IsSingle sid w before (ok false, node) i h =
      end_connection-IsSingle (some sid) w node
        (IsSingle-IsSingleBut w node (IsSteady-IsSingle before node h i))

  on_frame_in-IsSingle :
      (moment : Moment) (w : ℕ) (f : ClientFrame) (o : Option Phase) (node : ChatNode)
      → Dict.get w node.phases ≡ o
      → IsSingle node
      → IsSingle (on_frame_in services moment w f o node)
  unfolding on_frame_in
  on_frame_in-IsSingle moment w f none node at i = i
  on_frame_in-IsSingle moment w f (some authenticating) node at i =
      gated-IsSingle w node (auth_gate services moment w f node) i at
        (auth_gate-Passed services moment w node f node (IsSteady-refl node))
  on_frame_in-IsSingle moment w f (some (chatting sid)) node at i =
      served-IsSingle sid w node (read_frame_of services moment sid w f node) i
        (read_frame_of-IsSteady services node moment sid w f node (IsSteady-refl node))

  pub on_frame-IsSingle :
      (moment : Moment) (w : ℕ) (f : ClientFrame) (node : ChatNode)
      → IsSingle node
      → IsSingle (on_frame services moment w f node)
  unfolding on_frame
  on_frame-IsSingle moment w f node i =
      on_frame_in-IsSingle moment w f (Dict.get w node.phases) node refl i

ended-IsSingle :
    (w : ℕ) (o : Option Phase) (node : ChatNode) → IsSingle node → IsSingle (ended w o node)
unfolding ended
ended-IsSingle w none node i = i
ended-IsSingle w (some authenticating) node i =
    end_connection-IsSingle none w node (IsSingle-IsSingleBut w node i)
ended-IsSingle w (some (chatting sid)) node i =
    end_connection-IsSingle (some sid) w node (IsSingle-IsSingleBut w node i)

pub on_read_end-IsSingle : (w : ℕ) (node : ChatNode) → IsSingle node → IsSingle (on_read_end w node)
unfolding on_read_end
on_read_end-IsSingle w node i = ended-IsSingle w (Dict.get w node.phases) node i

pub on_connect-IsSingle : (w : ℕ) (node : ChatNode) → IsSingle node → IsSingle (on_connect w node)
unfolding on_connect
on_connect-IsSingle w node i v sid there =
    let put = Dict.get-put w v authenticating node.phases in
    elim (Bool-cases (nat_beq w v)) [
      | inl equal ↦ absurd (ground (arith, put, equal, there))
      | inr other ↦ i v sid (ground (arith, put, other, there))
    ]

pub run_eviction-IsSingle :
    (w : ℕ) (node : ChatNode) → IsSingle node → IsSingle (run_eviction w node)
unfolding run_eviction
run_eviction-IsSingle w node i =
    let h = write_frame-IsSteady node w logged_in_elsewhere node (IsSteady-refl node) in
    IsSteady-IsSingle node (run_eviction w node)
      (same node (write_frame w logged_in_elsewhere node).1 (run_eviction w node) refl refl refl h)
      i
