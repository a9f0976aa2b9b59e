-- ===== src/Node/Server/Logic.antt =====
-- Reasoning on handlers: what holds of the node and of the result when a handler is done, whether it
-- returned or raised.
use clustertalk_githubaction.Node.Server.{then_run, ServerError, Handler, ChatNode}
use clustertalk_githubaction.Prelude.{Result, err, ok}

-- A run has left a node with `raised` of it if it raised, and with `done` of its result and it else.
abbrev pub Holds :
    {A : Type 0}
    → (ChatNode → Type 0)
    → (A → ChatNode → Type 0)
    → Result ServerError A × ChatNode
    → Type 0
Holds raised done (err e, node) = raised node
Holds raised done (ok a, node) = done a node

module _ {A C : Type 0} (raised : ChatNode → Type 0) (after : C → ChatNode → Type 0) where
  -- The next handler starts from what holds after the first.
  pub Holds-then_run :
      (done : A → ChatNode → Type 0) (run : Result ServerError A × ChatNode) (next : A → Handler C)
      → Holds raised done run
      → ((a : A) (node : ChatNode) → done a node → Holds raised after (next a node))
      → Holds raised after (then_run run next)
  Holds-then_run done (err e, node) next h k = h
  Holds-then_run done (ok a, node) next h k = k a node h

-- The node is left with `kept` of it, whether the run returned or raised.
abbrev pub Leaves : {A : Type 0} → (ChatNode → Type 0) → Result ServerError A × ChatNode → Type 0
Leaves kept run = kept run.1

module _ {A : Type 0} (kept : ChatNode → Type 0) where
  pub Leaves-Holds :
      (run : Result ServerError A × ChatNode) → Leaves kept run → Holds kept (λ a. kept) run
  Leaves-Holds (err e, node) h = h
  Leaves-Holds (ok a, node) h = h

  pub Leaves-then_run :
      {C : Type 0} (run : Result ServerError A × ChatNode) (next : A → Handler C)
      → Leaves kept run
      → ((a : A) (node : ChatNode) → kept node → Leaves kept (next a node))
      → Leaves kept (then_run run next)
  Leaves-then_run (err e, node) next h k = h
  Leaves-then_run (ok a, node) next h k = k a node h
