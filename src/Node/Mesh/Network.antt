-- ===== src/Node/Mesh/Network.antt =====
-- Several nodes of node/mesh.py at work together: every node runs its `PeerManager`, and the events
-- that can happen in any order are a local message, the arrival or the loss of a frame, and links
-- that come and go. The node at the far end of a writer is a parameter.
pub mod Sites
pub mod Turns
pub mod Origins
pub mod Once
pub mod Covering
pub mod Agreement
pub mod Mindful
pub mod Integrity
pub mod Delivery
mod Examples
use clustertalk_githubaction.Prelude.{
  ℕ, zero, suc, Bool, true, false, ◌&&◌, ◌||◌, Option, none, some, List, [], ◌∷◌, nat_beq,
  if◌then◌else◌, Text, ◌==◌, nat_eq, list_eq, ◌≡◌,
}
use clustertalk_githubaction.Prelude.Dict.{Dict}
use clustertalk_githubaction.Prelude.Set
use clustertalk_githubaction.Node.DedupCache
use clustertalk_githubaction.Node.Mesh.{
  Relay, MeshFrame, relay_frame, session_query, session_state, peer_hello, ping, pong, PeerManager,
  relay_message, on_relay, link_up, link_down,
}

-- A node: its manager, and the messages it has put into the mesh, the latest first
pub record Site (S : Type 0) : Type 0 where
  pub manager : PeerManager S
  pub originated : List Relay

abbrev pub Network : Type 0 → Type 0
Network S = Text → Site S

pub data NetEvent : Type 0 where
  originates : Text → Relay → NetEvent
  carries : Text → ℕ → NetEvent
  loses : Text → ℕ → NetEvent
  links : Text → Text → ℕ → NetEvent
  unlinks : Text → Text → ℕ → NetEvent

abbrev pub ids : List Relay → List Text
ids [] = []
ids (r ∷ rs) = r.msg_id ∷ ids rs

-- Entry `i` of a list and the others
abbrev pub take_out : {A : Type 0} → ℕ → List A → Option (A × List A)
take_out i [] = none
take_out zero (x ∷ xs) = some (x, xs)
take_out (suc i) (x ∷ xs) = elim (take_out i xs) [
  | none ↦ none
  | some (y, rest) ↦ some (y, x ∷ rest)
]

module _ {S : Type 0} where
  unfoldable pub with_site : Text → Site S → Network S → Network S
  with_site a s n b = if a == b then s else n b

  unfoldable pub receive : Text → Relay → Site S → Site S
  receive from r s = record s { manager = on_relay from r s.manager }

  unfoldable pub originate : Relay → Site S → Site S
  originate r s = record { manager = relay_message r s.manager; originated = r ∷ s.originated }

  -- The frames that are still on their way from a node
  unfoldable pub left_with : List (ℕ × MeshFrame S) → Site S → Site S
  left_with frames s = record s { manager = record s.manager { sent = frames } }

  -- A node that has just been made, with its links
  unfoldable pub fresh : ℕ → Dict Text ℕ → Site S
  unfolding DedupCache.init
  fresh size peers = record {
    manager = record {
      peer_writers = peers;
      all_writers = [];
      dedup = DedupCache.init size;
      pending_queries = [];
      sent = [];
      delivered = [];
    };
    originated = [];
  }

  unfoldable pub has_delivered : Text → Site S → Bool
  has_delivered x s = Set.contains x (ids s.manager.delivered)

  unfoldable pub has_originated : Text → Site S → Bool
  has_originated x s = Set.contains x (ids s.originated)

  unfoldable pub has_handled : Text → Site S → Bool
  unfolding has_delivered has_originated
  has_handled x s = has_delivered x s || has_originated x s

  unfoldable pub has_frame : ℕ → Text → List (ℕ × MeshFrame S) → Bool
  has_frame w x [] = false
  has_frame w x ((v, relay_frame r) ∷ frames) =
      (nat_beq v w && (r.msg_id == x)) || has_frame w x frames
  has_frame w x ((v, session_query request_id session_id) ∷ frames) = has_frame w x frames
  has_frame w x ((v, session_state request_id session_id snapshot) ∷ frames) = has_frame w x frames
  has_frame w x ((v, peer_hello node_id) ∷ frames) = has_frame w x frames
  has_frame w x ((v, ping) ∷ frames) = has_frame w x frames
  has_frame w x ((v, pong) ∷ frames) = has_frame w x frames

  module _ (far_end : ℕ → Text) where
    -- A frame reaches the node at the far end of its writer.
    unfoldable pub arrive : Text → ℕ × MeshFrame S → Network S → Network S
    unfolding with_site receive
    arrive from (w, relay_frame r) n = with_site (far_end w) (receive from r (n (far_end w))) n
    arrive from (w, session_query request_id session_id) n = n
    arrive from (w, session_state request_id session_id snapshot) n = n
    arrive from (w, peer_hello node_id) n = n
    arrive from (w, ping) n = n
    arrive from (w, pong) n = n

    carried : Text → Option ((ℕ × MeshFrame S) × List (ℕ × MeshFrame S)) → Network S → Network S
    unfolding arrive with_site left_with
    carried a none n = n
    carried a (some (frame, rest)) n = arrive a frame (with_site a (left_with rest (n a)) n)

    lost : Text → Option ((ℕ × MeshFrame S) × List (ℕ × MeshFrame S)) → Network S → Network S
    unfolding with_site left_with
    lost a none n = n
    lost a (some (frame, rest)) n = with_site a (left_with rest (n a)) n

    unfoldable pub step : NetEvent → Network S → Network S
    unfolding carried lost with_site originate
    step (originates a r) n = with_site a (originate r (n a)) n
    step (carries a i) n = carried a (take_out i (n a).manager.sent) n
    step (loses a i) n = lost a (take_out i (n a).manager.sent) n
    step (links a p w) n = with_site a (record (n a) { manager = link_up p w (n a).manager }) n
    step (unlinks a p w) n = with_site a (record (n a) { manager = link_down p w (n a).manager }) n

    unfoldable pub run : List NetEvent → Network S → Network S
    unfolding step
    run [] n = n
    run (event ∷ events) n = run events (step event n)

-- The ids that the events put into the mesh; each call of `relay_message` mints its own.
unfoldable pub minted : List NetEvent → List Text
minted [] = []
minted (originates a r ∷ events) = r.msg_id ∷ minted events
minted (carries a i ∷ events) = minted events
minted (loses a i ∷ events) = minted events
minted (links a p w ∷ events) = minted events
minted (unlinks a p w ∷ events) = minted events

-- No frame is lost and the links stay as they are.
unfoldable pub IsSteady : List NetEvent → Type 0
IsSteady [] = Unit
IsSteady (originates a r ∷ events) = IsSteady events
IsSteady (carries a i ∷ events) = IsSteady events
IsSteady (loses a i ∷ events) = ⊥
IsSteady (links a p w ∷ events) = ⊥
IsSteady (unlinks a p w ∷ events) = ⊥
