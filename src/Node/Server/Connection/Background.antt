-- ===== src/Node/Server/Connection/Background.antt =====
-- The retry loop and the relayed messages keep every session on one connection.
use clustertalk_githubaction.Node.Server.Connection.Single.{IsSteady-IsSingle, IsSingle}
use clustertalk_githubaction.Node.Mesh.{Relay}
use clustertalk_githubaction.Node.SessionState.{pending_for_retry, OutboundMessage}
use clustertalk_githubaction.Node.Server.Chat.Quiet.{deliver_relayed_message-IsSteady}
use clustertalk_githubaction.Node.SessionManager.{get_loaded}
use clustertalk_githubaction.Node.Server.Connection.{
  retry_sessions, retry_session, retry_round, retry_messages, retry_after, on_relayed,
}
use clustertalk_githubaction.Node.Server.Steady.{same, IsSteady-refl, IsSteady}
use clustertalk_githubaction.Node.Server.{Payload, Services, ChatNode}
use clustertalk_githubaction.Prelude.{
  ◌∷◌, List, refl, [], inr, inl, Option-cases, Bool-cases, ℕ, nat_eq, list_eq, Text,
}
use clustertalk_githubaction.Prelude.Set

retry_messages-IsSteady :
    (now : ℕ) (sid : Text) (w : ℕ) (msgs : List (OutboundMessage Payload)) (before node : ChatNode)
    → IsSteady before node
    → IsSteady before (retry_messages now sid w msgs node)
unfolding retry_messages
retry_messages-IsSteady now sid w [] before node h = h
retry_messages-IsSteady now sid w (msg ∷ msgs) before node h =
    elim (Bool-cases (Set.contains w node.broken)) [
      | inl broken ↦ rw broken (retry_messages-IsSteady now sid w msgs before node h)
      | inr whole ↦
          rw whole
            (retry_messages-IsSteady now sid w msgs before _ (same before node _ refl refl refl h))
    ]

retry_session-IsSteady :
    (now : ℕ) (sid : Text) (w : ℕ) (before node : ChatNode)
    → IsSteady before node
    → IsSteady before (retry_session now sid w node)
unfolding retry_session
retry_session-IsSteady now sid w before node h = elim (Option-cases (get_loaded sid node.manager)) [
  | inl absent ↦ rw (absent, retry_session) h
  | inr (session, live) ↦
      rw (live, retry_session)
        (retry_messages-IsSteady now sid w (pending_for_retry now retry_after session) before node
          h)
]

retry_sessions-IsSteady :
    (now : ℕ) (held : List (Text × ℕ)) (before node : ChatNode)
    → IsSteady before node
    → IsSteady before (retry_sessions now held node)
unfolding retry_sessions
retry_sessions-IsSteady now [] before node h = h
retry_sessions-IsSteady now ((sid, w) ∷ held) before node h =
    retry_sessions-IsSteady now held before (retry_session now sid w node)
      (retry_session-IsSteady now sid w before node h)

pub retry_round-IsSingle :
    (now : ℕ) (node : ChatNode) → IsSingle node → IsSingle (retry_round now node)
unfolding retry_round
retry_round-IsSingle now node i =
    IsSteady-IsSingle node _
      (retry_sessions-IsSteady now node.connections node node (IsSteady-refl node)) i

pub on_relayed-IsSingle :
    (services : Services) (now : ℕ) (r : Relay) (node : ChatNode)
    → IsSingle node
    → IsSingle (on_relayed services now r node)
unfolding on_relayed
on_relayed-IsSingle services now r node i =
    IsSteady-IsSingle node _
      (deliver_relayed_message-IsSteady services node now r node (IsSteady-refl node)) i
