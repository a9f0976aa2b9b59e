-- ===== src/Node/Mesh/Link/Files.antt =====
-- The events of a link do not change which links are on file.
use clustertalk_githubaction.Prelude.{
  ℕ, ◌≡◌, refl, arith, Bool, true, false, Option, none, some, [], ◌∷◌, if◌then◌else◌, Text, nat_eq,
  list_eq, Option-cases, Bool-cases, inl, inr,
}
use clustertalk_githubaction.Prelude.Dict
use clustertalk_githubaction.Prelude.Dict.{Dict}
use clustertalk_githubaction.Node.DedupCache.{seen_before}
use clustertalk_githubaction.Node.Mesh.{
  PeerManager, on_relay, flood, handle_session_query, handle_session_state, resolved,
}
use clustertalk_githubaction.Node.Mesh.Link.{
  relay_named, provided, read_state, DictKey, hashable, unhashable, object, no_object, PeerFrame,
  hello_read, ping_read, pong_read, query_read, state_read, relay_read, other_read, Link, LinkEvent,
  reads, fails, wakes, cancels, Callbacks, turn, on_peer_frame, read_relay, deliver_new, complete,
  answer_query, write_frame,
}

module _ {S : Type 0} where
  -- Two managers with the same links on file
  pub record SameFiles (m n : PeerManager S) : Type 0 where
    pub peers : m.peer_writers ≡ n.peer_writers
    pub writers : m.all_writers ≡ n.all_writers

  same_files : (m : PeerManager S) → SameFiles m m
  same_files m = record { peers = refl; writers = refl }

  write_frame-SameFiles :
      (b : Bool) (w : ℕ) (frame : _) (m : PeerManager S)
      → SameFiles (if b then write_frame w frame m else m) m
  unfolding write_frame
  write_frame-SameFiles true w frame m = record { peers = refl; writers = refl }
  write_frame-SameFiles false w frame m = same_files m

  on_relay-SameFiles : (p : Text) (r : _) (m : PeerManager S) → SameFiles (on_relay p r m) m
  unfolding on_relay flood
  on_relay-SameFiles p r m = elim (Bool-cases (seen_before r.msg_id m.dedup).0) [
    | inl seen ↦ record { peers = ground (arith, seen); writers = ground (arith, seen) }
    | inr new ↦ record { peers = ground (arith, new); writers = ground (arith, new) }
  ]

  handle_session_query-SameFiles :
      (provider : Text → Option S) (w : ℕ) (i j : Text) (m : PeerManager S)
      → SameFiles (handle_session_query provider w i j m) m
  unfolding handle_session_query
  handle_session_query-SameFiles provider w [] j m = same_files m
  handle_session_query-SameFiles provider w (c ∷ i) [] m = same_files m
  handle_session_query-SameFiles provider w (c ∷ i) (b ∷ j) m =
      elim (Option-cases (provider (b ∷ j))) [
        | inl absent ↦ rw (absent, handle_session_query) (same_files m)
        | inr (snapshot, found) ↦
            rw (found, handle_session_query) (record { peers = refl; writers = refl })
      ]

  handle_session_state-SameFiles :
      (i : Text) (snapshot : Option S) (m : PeerManager S)
      → SameFiles (handle_session_state i snapshot m) m
  unfolding handle_session_state resolved
  handle_session_state-SameFiles i snapshot m = elim (Option-cases (Dict.get i m.pending_queries)) [
    | inl absent ↦ rw absent (same_files m)
    | inr (none, waiting) ↦ rw waiting (record { peers = refl; writers = refl })
    | inr (some first, closed) ↦ rw closed (same_files m)
  ]

  module _ (callbacks : Callbacks S) where
    provided-SameFiles :
        (provider : Text → Option S) (w : ℕ) (i : Text) (k : DictKey) (m : PeerManager S)
        → SameFiles (provided callbacks provider w i k m) m
    unfolding provided
    provided-SameFiles provider w i unhashable m = same_files m
    provided-SameFiles provider w i (hashable j) m = handle_session_query-SameFiles provider w i j m

    answer_query-SameFiles :
        (provider : Option (Text → Option S)) (w : ℕ) (query : _) (m : PeerManager S)
        → SameFiles (answer_query callbacks provider w query m).1 m
    unfolding answer_query provided
    answer_query-SameFiles none w query m = same_files m
    answer_query-SameFiles (some provider) w no_object m = same_files m
    answer_query-SameFiles (some provider) w (object (i, none)) m = same_files m
    answer_query-SameFiles (some provider) w (object ([], some k)) m = same_files m
    answer_query-SameFiles (some provider) w (object (c ∷ i, some k)) m =
        elim (Option-cases (callbacks.provider_raises k)) [
          | inl fine ↦ rw (fine, answer_query) (provided-SameFiles provider w (c ∷ i) k m)
          | inr (e, raised) ↦ rw (raised, answer_query) (same_files m)
        ]

    read_state-SameFiles :
        (state : _) (m : PeerManager S) → SameFiles (read_state callbacks state m).1 m
    unfolding read_state
    read_state-SameFiles no_object m = same_files m
    read_state-SameFiles (object (none, s)) m = same_files m
    read_state-SameFiles (object (some unhashable, s)) m = same_files m
    read_state-SameFiles (object (some (hashable i), s)) m = handle_session_state-SameFiles i s m

    deliver_new-SameFiles :
        (p msg_id : Text) (r : _) (m : PeerManager S)
        → SameFiles (deliver_new callbacks p msg_id r m).1 m
    unfolding deliver_new
    deliver_new-SameFiles p msg_id none m = record { peers = refl; writers = refl }
    deliver_new-SameFiles p msg_id (some r) m = elim (Option-cases (callbacks.deliver_locally r)) [
      | inl fine ↦ rw (fine, deliver_new) (on_relay-SameFiles p r m)
      | inr (e, raised) ↦ rw (raised, deliver_new) (record { peers = refl; writers = refl })
    ]

    relay_named-SameFiles :
        (p : Text) (payload : _) (id : _) (m : PeerManager S)
        → SameFiles (relay_named callbacks p payload id m).1 m
    unfolding relay_named
    relay_named-SameFiles p payload none m = same_files m
    relay_named-SameFiles p payload (some unhashable) m = same_files m
    relay_named-SameFiles p payload (some (hashable msg_id)) m =
        elim (Bool-cases (seen_before msg_id m.dedup).0) [
          | inl seen ↦ rw (seen, relay_named) (record { peers = refl; writers = refl })
          | inr new ↦
              rw (new, relay_named) (deliver_new-SameFiles p msg_id (complete msg_id payload) m)
        ]

    read_relay-SameFiles :
        (p : Text) (payload : _) (m : PeerManager S)
        → SameFiles (read_relay callbacks p payload m).1 m
    unfolding read_relay
    read_relay-SameFiles p no_object m = same_files m
    read_relay-SameFiles p (object payload) m = relay_named-SameFiles p payload payload.msg_id m

    -- A turn of a link leaves the links on file as they are, and the link its peer and its writer.
    pub record IsOwnTurn (link : Link) (m : PeerManager S) (after : Link × PeerManager S)
        : Type 0 where
      pub files : SameFiles after.1 m
      pub same_peer : after.0.peer_id ≡ link.peer_id
      pub same_writer : after.0.writer ≡ link.writer

    own_turn : (link : Link) (m m' : PeerManager S) → SameFiles m' m → IsOwnTurn link m (link, m')
    own_turn link m m' files = record { files = files; same_peer = refl; same_writer = refl }

    on_peer_frame-IsOwnTurn :
        (now : ℕ) (frame : PeerFrame S) (written : Bool) (link : Link) (m : PeerManager S)
        → IsOwnTurn link m (on_peer_frame callbacks now frame written link m).1
    unfolding on_peer_frame
    on_peer_frame-IsOwnTurn now pong_read written link m = record {
      files = same_files m;
      same_peer = refl;
      same_writer = refl;
    }
    on_peer_frame-IsOwnTurn now ping_read written link m =
        own_turn link m _ (write_frame-SameFiles written link.writer _ m)
    on_peer_frame-IsOwnTurn now (query_read query) written link m =
        own_turn link m _
          (answer_query-SameFiles callbacks.session_query_provider link.writer query m)
    on_peer_frame-IsOwnTurn now (state_read state) written link m =
        own_turn link m _ (read_state-SameFiles state m)
    on_peer_frame-IsOwnTurn now (relay_read p) written link m =
        own_turn link m _ (read_relay-SameFiles link.peer_id p m)
    on_peer_frame-IsOwnTurn now (hello_read i) written link m = own_turn link m m (same_files m)
    on_peer_frame-IsOwnTurn now other_read written link m = own_turn link m m (same_files m)

    pub turn-IsOwnTurn :
        (event : LinkEvent S) (link : Link) (m : PeerManager S)
        → IsOwnTurn link m (turn callbacks event link m).1
    unfolding turn
    turn-IsOwnTurn (reads now frame written) link m =
        on_peer_frame-IsOwnTurn now frame written link m
    turn-IsOwnTurn (fails e) link m = own_turn link m m (same_files m)
    turn-IsOwnTurn (wakes now written) link m =
        own_turn link m _ (write_frame-SameFiles written link.writer _ m)
    turn-IsOwnTurn cancels link m = own_turn link m m (same_files m)
