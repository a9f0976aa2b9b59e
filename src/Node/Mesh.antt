-- ===== src/Node/Mesh.antt =====
-- `PeerManager` of node/mesh.py: relaying a message through the mesh, and asking the mesh for a
-- session. A writer is named by a reference; a frame that is handed to a writer is recorded,
-- whether or not its link still lives, as the code swallows the error. `S` are the snapshots.
pub mod Relaying
pub mod Network
pub mod Link
mod Examples
use clustertalk_githubaction.Prelude.{
  ℕ, Bool, true, false, not, Option, none, some, List, [], ◌∷◌, ◌++◌, length, nat_beq,
  if◌then◌else◌, Text, ◌==◌, nat_eq, list_eq,
}
use clustertalk_githubaction.Prelude.Dict
use clustertalk_githubaction.Prelude.Dict.{Dict}
use clustertalk_githubaction.Prelude.Set
use clustertalk_githubaction.Node.DedupCache.{DedupCache, seen_before}

-- The payload of a RELAY frame
pub record Relay : Type 0 where
  pub msg_id : Text
  pub room_id : Text
  pub text : Text
  pub from_session : Text
  pub sent_at : Option ℕ

pub data MeshFrame (S : Type 0) : Type 0 where
  relay_frame : Relay → MeshFrame S
  session_query : Text → Text → MeshFrame S
  session_state : Text → Text → S → MeshFrame S
  peer_hello : Text → MeshFrame S
  ping : MeshFrame S
  pong : MeshFrame S

pub record PeerManager (S : Type 0) : Type 0 where
  pub peer_writers : Dict Text ℕ
  pub all_writers : List ℕ
  pub dedup : DedupCache Text
  -- a future is `none` until it has its result
  pub pending_queries : Dict Text (Option (Option S))
  -- the frames handed to writers, the latest last
  pub sent : List (ℕ × MeshFrame S)
  -- the calls of `deliver_locally`, the latest last
  pub delivered : List Relay

is_on_file : ℕ → Option ℕ → Bool
is_on_file writer none = false
is_on_file writer (some other) = nat_beq other writer

module _ {S : Type 0} where
  -- The loop of `_flood`
  unfoldable pub flooded : MeshFrame S → Option Text → Dict Text ℕ → List (ℕ × MeshFrame S)
  flooded frame exclude [] = []
  flooded frame none ((peer, writer) ∷ peers) = (writer, frame) ∷ flooded frame none peers
  flooded frame (some excluded) ((peer, writer) ∷ peers) =
      let rest = flooded frame (some excluded) peers in
      if peer == excluded then rest else (writer, frame) ∷ rest

  -- `_flood`
  unfoldable pub flood : MeshFrame S → Option Text → PeerManager S → PeerManager S
  unfolding flooded
  flood frame exclude m = record m { sent = m.sent ++ flooded frame exclude m.peer_writers }

  -- `relay_message`, with the fresh id as an argument
  unfoldable pub relay_message : Relay → PeerManager S → PeerManager S
  unfolding flood
  relay_message r m =
      flood (relay_frame r) none (record m { dedup = (seen_before r.msg_id m.dedup).1 })

  -- `_peer_read_loop` on a RELAY frame
  unfoldable pub on_relay : Text → Relay → PeerManager S → PeerManager S
  unfolding flood
  on_relay peer_id r m =
      let (seen, dedup) = seen_before r.msg_id m.dedup in
      let m' = record m { dedup = dedup } in
      if seen
      then m'
      else flood (relay_frame r) (some peer_id) (record m' { delivered = m.delivered ++ (r ∷ []) })

  -- `_run_handshake_and_serve` once the handshake is over
  unfoldable pub link_up : Text → ℕ → PeerManager S → PeerManager S
  link_up peer_id writer m = record m {
    peer_writers = Dict.put peer_id writer m.peer_writers;
    all_writers = Set.add writer m.all_writers;
  }

  -- The `finally` block of `_run_handshake_and_serve`
  unfoldable pub link_down : Text → ℕ → PeerManager S → PeerManager S
  unfolding is_on_file
  link_down peer_id writer m = record m {
    peer_writers =
        if is_on_file writer (Dict.get peer_id m.peer_writers)
        then Dict.remove peer_id m.peer_writers
        else m.peer_writers;
    all_writers = Set.discard writer m.all_writers;
  }

  -- `known_peer_count`
  unfoldable pub known_peer_count : PeerManager S → ℕ
  known_peer_count m = length m.peer_writers

  -- `query_session` up to its wait; without a peer it returns `None` at once.
  unfoldable pub begin_query : Text → Text → PeerManager S → PeerManager S
  unfolding flooded
  begin_query request_id session_id m = elim m.peer_writers [
    | [] ↦ m
    | ◌∷◌ p peers ↦ record m {
      pending_queries = Dict.put request_id none m.pending_queries;
      sent = m.sent ++ flooded (session_query request_id session_id) none (p ∷ peers);
    }
  ]

  answer_of : Option (Option (Option S)) → Option S
  answer_of none = none
  answer_of (some none) = none
  answer_of (some (some snapshot)) = snapshot

  -- `query_session` after its wait, with an answer or a timeout
  unfoldable pub end_query : Text → PeerManager S → Option S × PeerManager S
  unfolding answer_of
  end_query request_id m = (
    answer_of (Dict.get request_id m.pending_queries),
    record m { pending_queries = Dict.remove request_id m.pending_queries },
  )

  -- `_handle_session_query` with a provider; an empty id is not answered.
  unfoldable pub handle_session_query :
      (Text → Option S) → ℕ → Text → Text → PeerManager S → PeerManager S
  handle_session_query provider writer [] session_id m = m
  handle_session_query provider writer (c ∷ request_id) [] m = m
  handle_session_query provider writer (c ∷ request_id) (b ∷ session_id) m =
      elim (provider (b ∷ session_id)) [
        | none ↦ m
        | some snapshot ↦ record m {
          sent =
              m.sent ++ ((writer, session_state (c ∷ request_id) (b ∷ session_id) snapshot) ∷ []);
        }
      ]

  resolved : Text → Option S → Option (Option (Option S)) → PeerManager S → PeerManager S
  resolved request_id snapshot (some none) m = record m {
    pending_queries = Dict.put request_id (some snapshot) m.pending_queries;
  }
  resolved request_id snapshot none m = m
  resolved request_id snapshot (some (some first)) m = m

  -- `_handle_session_state`
  unfoldable pub handle_session_state : Text → Option S → PeerManager S → PeerManager S
  unfolding resolved
  handle_session_state request_id snapshot m =
      resolved request_id snapshot (Dict.get request_id m.pending_queries) m
