-- ===== src/Node/Server/Steady.antt =====
-- The handlers of a client that is let in leave the registry of connections alone.
use clustertalk_githubaction.Prelude.{
  Text, list_eq, ◌||◌, nat_eq, list_eq, Bool, Text, err, ok, ℕ, ◌∙◌, ◌≡◌, Result, inr, inl,
  Bool-cases, refl,
}
use clustertalk_githubaction.Node.SessionManager.{SessionManager}
use clustertalk_githubaction.Node.Persistence.Reads.{ReadError}
use clustertalk_githubaction.Node.Server.Logic.{Leaves}
use clustertalk_githubaction.Node.Server.{
  holds_writer, managed, write_frame, with_manager, ServerFrame, Payload, ChatNode,
}
use clustertalk_githubaction.Prelude.{nat_eq}
use clustertalk_githubaction.Prelude.Dict
use clustertalk_githubaction.Prelude.Set

-- The registry, the evictions and the phases are those of the first node.
pub record IsSteady (before node : ChatNode) : Type 0 where
  pub connections : node.connections ≡ before.connections
  pub evictions : node.evictions ≡ before.evictions
  pub phases : node.phases ≡ before.phases

pub IsSteady-refl : (node : ChatNode) → IsSteady node node
IsSteady-refl node = record { connections = refl; evictions = refl; phases = refl }

-- A writer is the one that its session has, or is to be evicted.
abbrev pub is_accounted : ℕ → Text → ChatNode → Bool
is_accounted w sid node =
    holds_writer w (Dict.get sid node.connections) || Set.contains w node.evictions

module _ (before : ChatNode) where
  -- A change of anything else
  abbrev pub same :
      (node node' : ChatNode)
      → node'.connections ≡ node.connections
      → node'.evictions ≡ node.evictions
      → node'.phases ≡ node.phases
      → IsSteady before node
      → IsSteady before node'
  same node node' c e p h = record {
    connections = c ∙ h.connections;
    evictions = e ∙ h.evictions;
    phases = p ∙ h.phases;
  }

  pub write_frame-IsSteady :
      (w : ℕ) (f : ServerFrame) (node : ChatNode)
      → IsSteady before node
      → Leaves (IsSteady before) (write_frame w f node)
  unfolding write_frame
  write_frame-IsSteady w f node h = elim (Bool-cases (Set.contains w node.broken)) [
    | inl broken ↦ rw broken h
    | inr whole ↦ rw whole (same node _ refl refl refl h)
  ]

  managed-IsSteady :
      {A : Type 0} (outcome : Result ReadError (A × SessionManager Payload)) (node : ChatNode)
      → IsSteady before node
      → Leaves (IsSteady before) (managed outcome node)
  unfolding managed
  managed-IsSteady (err e) node h = h
  managed-IsSteady (ok (a, m)) node h = same node _ refl refl refl h

  pub with_manager-IsSteady :
      {A : Type 0} (call : SessionManager Payload → Result ReadError (A × SessionManager Payload))
      (node : ChatNode)
      → IsSteady before node
      → Leaves (IsSteady before) (with_manager call node)
  unfolding with_manager
  with_manager-IsSteady call node h = managed-IsSteady (call node.manager) node h
