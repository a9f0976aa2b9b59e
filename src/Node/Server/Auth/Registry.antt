-- ===== src/Node/Server/Auth/Registry.antt =====
-- What the gate does to the registry of connections: nothing, or the entry of the session let in.
use clustertalk_githubaction.Node.Server.Auth.{register_connection}
use clustertalk_githubaction.Node.Server.Steady.{is_accounted, IsSteady}
use clustertalk_githubaction.Node.Server.{holds_writer, nat_beq, ChatNode}
use clustertalk_githubaction.Prelude.{
  ◌==◌, Bool-cases, ap, text_eq_iff, [], ℕ, ◌||◌, ◌∙◌, ◌∷◌, ◌++◌, ◌≡◌, list_eq, inr, inl,
  Option-cases, List, false, true, arith, Text, nat_eq,
}
use clustertalk_githubaction.Prelude.Dict
use clustertalk_githubaction.Prelude.Set

module _ (w : ℕ) (before : ChatNode) where
  -- The phases are the same, and every other writer is accounted for where it was.
  pub record IsGated (node : ChatNode) : Type 0 where
    pub phases : node.phases ≡ before.phases
    pub others :
        (v : ℕ) (sid : Text)
        → nat_beq v w ≡ false
        → is_accounted v sid before ≡ true
        → is_accounted v sid node ≡ true

  -- And the writer is accounted for in the session that it is let in to.
  pub record IsEntered (sid : Text) (node : ChatNode) : Type 0 where
    pub gated : IsGated node
    pub own : is_accounted w sid node ≡ true

  pub IsSteady-IsGated : (node : ChatNode) → IsSteady before node → IsGated node
  IsSteady-IsGated node h = record {
    phases = h.phases;
    others = λ v sid ne was. rw (h.connections, h.evictions) was;
  }

  pub IsEntered-steady :
      (sid : Text) (node node' : ChatNode)
      → IsEntered sid node
      → IsSteady node node'
      → IsEntered sid node'
  IsEntered-steady sid node node' e h = record {
    gated = record {
      phases = h.phases ∙ e.gated.phases;
      others = λ v t ne was. rw (h.connections, h.evictions) (e.gated.others v t ne was);
    };
    own = rw (h.connections, h.evictions) e.own;
  }

  contains-snoc :
      (v x : ℕ) (l : List ℕ) → Set.contains v (l ++ x ∷ []) ≡ (Set.contains v l || nat_beq x v)
  unfolding Set.contains
  contains-snoc v x [] = ground arith
  contains-snoc v x (y ∷ l) = ground (arith, contains-snoc v x l)

  -- A writer that a session has is evicted when the session gets another.
  register_connection-others :
      (sid : Text) (node : ChatNode) (v : ℕ) (t : Text)
      → nat_beq v w ≡ false
      → is_accounted v t node ≡ true
      → is_accounted v t (register_connection sid w node).1 ≡ true
  unfolding register_connection
  register_connection-others sid node v t ne was =
      let now = Dict.get-put sid t w node.connections in
      elim (Bool-cases (sid == t)) [
        | inl equal ↦
            let moved = ap (λ k. Dict.get k node.connections) ((text_eq_iff sid t).0 equal) in
            elim (Option-cases (Dict.get sid node.connections)) [
              | inl absent ↦ ground (arith, was, absent, moved, now, equal)
              | inr (old, here) ↦
                  ground
                    (arith, was, here, moved, now, equal, ne, contains-snoc v old node.evictions)
            ]
        | inr other ↦
            let kept : holds_writer v (Dict.get t node.connections) || Set.contains v node.evictions
                ≡ true =
              was in
            elim (Option-cases (Dict.get sid node.connections)) [
              | inl absent ↦ ground (arith, kept, now, other, absent)
              | inr (old, here) ↦
                  ground (arith, kept, now, other, here, contains-snoc v old node.evictions)
            ]
      ]

  register_connection-own :
      (sid : Text) (node : ChatNode) → is_accounted w sid (register_connection sid w node).1 ≡ true
  unfolding register_connection
  register_connection-own sid node = rw (Dict.get-put_self sid w node.connections) (ground arith)

  pub register_connection-IsEntered :
      (sid : Text) (node : ChatNode)
      → IsSteady before node
      → IsEntered sid (register_connection sid w node).1
  register_connection-IsEntered sid node h = record {
    gated = record {
      phases = unfold register_connection in h.phases;
      others = λ v t ne was.
          register_connection-others sid node v t ne (rw (h.connections, h.evictions) was);
    };
    own = register_connection-own sid node;
  }
