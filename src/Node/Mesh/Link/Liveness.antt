-- ===== src/Node/Mesh/Link/Liveness.antt =====
-- The heartbeat ends a link whose peer is silent, and no other.
use clustertalk_githubaction.Prelude.{
  ℕ, ◌+◌, ◌<◌, ◌≤◌, ◌≡◌, refl, arith, Bool, true, false, Option, none, some, List, [], ◌∷◌, ◌++◌,
  Text, nat_eq, list_eq, Option-cases, Bool-cases, inl, inr,
}
use clustertalk_githubaction.Node.Mesh.{PeerManager, Relay, pong}
use clustertalk_githubaction.Node.DedupCache.{seen_before}
use clustertalk_githubaction.Node.Mesh.Link.{
  pong_grace, LinkError, connection_error, hello_read, ping_read, pong_read, query_read, state_read,
  relay_read, other_read, Link, LinkEvent, reads, fails, wakes, cancels, Callbacks, turn,
  on_peer_frame, answered, heartbeat, read_relay, serve, RelayPayload, DictKey, hashable,
  unhashable, Shaped, object, no_object, relay_named, read_state, complete, deliver_new,
  write_frame, answer_query,
}

module _ {S : Type 0} where
  -- No PONG is read.
  unfoldable pub IsSilent : List (LinkEvent S) → Type 0
  IsSilent [] = Unit
  IsSilent (reads now pong_read written ∷ events) = ⊥
  IsSilent (reads now (hello_read greeting) written ∷ events) = IsSilent events
  IsSilent (reads now ping_read written ∷ events) = IsSilent events
  IsSilent (reads now (query_read query) written ∷ events) = IsSilent events
  IsSilent (reads now (state_read state) written ∷ events) = IsSilent events
  IsSilent (reads now (relay_read p) written ∷ events) = IsSilent events
  IsSilent (reads now other_read written ∷ events) = IsSilent events
  IsSilent (fails error ∷ events) = IsSilent events
  IsSilent (wakes now written ∷ events) = IsSilent events
  IsSilent (cancels ∷ events) = IsSilent events

  module _ (callbacks : Callbacks S) where
    late-heartbeat :
        (now last_pong_at : ℕ) (written : Bool)
        → last_pong_at + pong_grace < now
        → heartbeat now last_pong_at written ≡ some connection_error
    unfolding heartbeat
    late-heartbeat now last_pong_at true late = ground (arith, late)
    late-heartbeat now last_pong_at false late = refl

    -- An event without a PONG leaves the time of the last one.
    quiet-turn :
        (event : LinkEvent S) (events : List (LinkEvent S)) (link : Link) (m : PeerManager S)
        → IsSilent (event ∷ events)
        → ((turn callbacks event link m).1.0.last_pong_at ≡ link.last_pong_at) × IsSilent events
    unfolding turn on_peer_frame IsSilent
    quiet-turn (reads now (hello_read greeting) written) events link m silent = (refl, silent)
    quiet-turn (reads now ping_read written) events link m silent = (refl, silent)
    quiet-turn (reads now pong_read written) events link m silent = absurd silent
    quiet-turn (reads now (query_read query) written) events link m silent = (refl, silent)
    quiet-turn (reads now (state_read state) written) events link m silent = (refl, silent)
    quiet-turn (reads now (relay_read p) written) events link m silent = (refl, silent)
    quiet-turn (reads now other_read written) events link m silent = (refl, silent)
    quiet-turn (fails error) events link m silent = (refl, silent)
    quiet-turn (wakes now written) events link m silent = (refl, silent)
    quiet-turn cancels events link m silent = (refl, silent)

    -- Whatever a peer sends but a PONG, its link has ended once the heartbeat wakes up more than the
    -- grace after the last PONG, whatever would come then.
    pub serve-silent :
        (events : List (LinkEvent S)) (now : ℕ) (written : Bool) (rest : List (LinkEvent S))
        (link : Link) (m : PeerManager S)
        → IsSilent events
        → link.last_pong_at + pong_grace < now
        → (e : LinkError) × ((serve callbacks (events ++ (wakes now written ∷ rest)) link m).0
            ≡ some e)
    unfolding serve turn
    serve-silent [] now written rest link m silent late =
        (connection_error, rw (late-heartbeat now link.last_pong_at written late, serve) refl)
    serve-silent (event ∷ events) now written rest link m silent late =
        let (outcome, (link', m')) = turn callbacks event link m in
        let (same, later) = quiet-turn event events link m silent in
        elim (Option-cases outcome) [
          | inl up ↦
              rw (up, serve) (serve-silent events now written rest link' m' later (rw same late))
          | inr (e, ended) ↦ (e, rw (ended, serve) refl)
        ]

    -- A RELAY frame with all its members, which the callback takes
    unfoldable pub IsDeliverable : Shaped RelayPayload → Type 0
    IsDeliverable no_object = ⊥
    IsDeliverable (object p) =
        (msg_id : Text) × ((p.msg_id ≡ some (hashable msg_id))
          × ((r : Relay) × ((complete msg_id p ≡ some r) × (callbacks.deliver_locally r ≡ none))))

    -- A query on which the provider does not raise
    unfoldable pub IsAnswerable : Shaped (Text × Option DictKey) → Type 0
    IsAnswerable no_object = ⊥
    IsAnswerable (object (request_id, none)) = Unit
    IsAnswerable (object (request_id, some session_id)) =
        callbacks.provider_raises session_id ≡ none

    -- An answer whose request id can be looked up
    unfoldable pub IsAcceptable : Shaped (Option DictKey × Option S) → Type 0
    IsAcceptable no_object = ⊥
    IsAcceptable (object (none, snapshot)) = Unit
    IsAcceptable (object (some unhashable, snapshot)) = ⊥
    IsAcceptable (object (some (hashable request_id), snapshot)) = Unit

    answerable-answer_query :
        (provider : Option (Text → Option S)) (w : ℕ) (query : Shaped (Text × Option DictKey))
        (m : PeerManager S)
        → IsAnswerable query
        → (answer_query callbacks provider w query m).0 ≡ none
    unfolding answer_query IsAnswerable
    answerable-answer_query none w query m fine = refl
    answerable-answer_query (some provider) w no_object m fine = absurd fine
    answerable-answer_query (some provider) w (object (i, none)) m fine = refl
    answerable-answer_query (some provider) w (object ([], some k)) m fine = refl
    answerable-answer_query (some provider) w (object (c ∷ i, some k)) m fine =
        rw (fine, answer_query) refl

    acceptable-read_state :
        (state : Shaped (Option DictKey × Option S)) (m : PeerManager S)
        → IsAcceptable state
        → (read_state callbacks state m).0 ≡ none
    unfolding read_state IsAcceptable
    acceptable-read_state no_object m fine = absurd fine
    acceptable-read_state (object (none, s)) m fine = refl
    acceptable-read_state (object (some unhashable, s)) m fine = absurd fine
    acceptable-read_state (object (some (hashable i), s)) m fine = refl

    timely-heartbeat :
        (now last_pong_at : ℕ)
        → now ≤ last_pong_at + pong_grace
        → heartbeat now last_pong_at true ≡ none
    unfolding heartbeat
    timely-heartbeat now last_pong_at timely = ground (arith, timely)

    deliverable-read_relay :
        (peer_id : Text) (p : Shaped RelayPayload) (m : PeerManager S)
        → IsDeliverable p
        → (read_relay callbacks peer_id p m).0 ≡ none
    unfolding read_relay deliver_new IsDeliverable
    deliverable-read_relay peer_id no_object m whole = absurd whole
    deliverable-read_relay peer_id (object p) m (msg_id, (named, (r, (whole, taken)))) =
        elim (Bool-cases (seen_before msg_id m.dedup).0) [
          | inl seen ↦ rw (named, seen, relay_named) refl
          | inr new ↦ rw (named, new, whole, taken, deliver_new) refl
        ]

    -- A peer that plays by the rules: each answer to it is written, the heartbeat wakes up no later
    -- than the grace after the last PONG, and no frame or callback makes the read loop raise.
    unfoldable pub IsAnswering : ℕ → List (LinkEvent S) → Type 0
    IsAnswering last [] = Unit
    IsAnswering last (reads now pong_read written ∷ events) = IsAnswering now events
    IsAnswering last (reads now (hello_read greeting) written ∷ events) = IsAnswering last events
    IsAnswering last (reads now ping_read written ∷ events) =
        (written ≡ true) × IsAnswering last events
    IsAnswering last (reads now (query_read query) written ∷ events) =
        IsAnswerable query × IsAnswering last events
    IsAnswering last (reads now (state_read state) written ∷ events) =
        IsAcceptable state × IsAnswering last events
    IsAnswering last (reads now (relay_read p) written ∷ events) =
        IsDeliverable p × IsAnswering last events
    IsAnswering last (reads now other_read written ∷ events) = IsAnswering last events
    IsAnswering last (fails error ∷ events) = ⊥
    IsAnswering last (wakes now written ∷ events) =
        (written ≡ true) × ((now ≤ last + pong_grace) × IsAnswering last events)
    IsAnswering last (cancels ∷ events) = ⊥

    -- A link stays up through any events in which each answer to the peer and each PING is written,
    -- the heartbeat wakes up no later than the grace after the last PONG, each payload is an object
    -- whose ids are hashable, each RELAY frame has all its members, no callback raises, and neither an
    -- error nor a cancellation comes.
    pub serve-answering :
        (events : List (LinkEvent S)) (link : Link) (m : PeerManager S)
        → IsAnswering link.last_pong_at events
        → (serve callbacks events link m).0 ≡ none
    unfolding serve turn on_peer_frame answered IsAnswering
    serve-answering [] link m h = refl
    serve-answering (reads now pong_read written ∷ events) link m h =
        serve-answering events (record link { last_pong_at = now }) m h
    serve-answering (reads now (hello_read greeting) written ∷ events) link m h =
        serve-answering events link m h
    serve-answering (reads now ping_read written ∷ events) link m (sent, h) =
        rw sent (serve-answering events link (write_frame link.writer pong m) h)
    serve-answering (reads now (query_read query) written ∷ events) link m (fine, h) =
        let provider = callbacks.session_query_provider in
        rw (answerable-answer_query provider link.writer query m fine, serve)
          (serve-answering events link (answer_query callbacks provider link.writer query m).1 h)
    serve-answering (reads now (state_read state) written ∷ events) link m (fine, h) =
        rw (acceptable-read_state state m fine, serve)
          (serve-answering events link (read_state callbacks state m).1 h)
    serve-answering (reads now (relay_read p) written ∷ events) link m (whole, h) =
        rw (deliverable-read_relay link.peer_id p m whole, serve)
          (serve-answering events link (read_relay callbacks link.peer_id p m).1 h)
    serve-answering (reads now other_read written ∷ events) link m h =
        serve-answering events link m h
    serve-answering (fails error ∷ events) link m h = absurd h
    serve-answering (wakes now written ∷ events) link m (sent, (timely, h)) =
        rw (sent, timely-heartbeat now link.last_pong_at timely, serve)
          (serve-answering events link (turn callbacks (wakes now written) link m).1.1 h)
    serve-answering (cancels ∷ events) link m h = absurd h
