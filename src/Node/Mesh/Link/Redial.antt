-- ===== src/Node/Mesh/Link/Redial.antt =====
-- The loop that dials a peer goes on after the failures of the network and the silence of the peer. A
-- frame that the read loop or the handshake cannot take apart ends it.
use clustertalk_githubaction.Prelude.{
  ℕ, ◌-◌, ltb, ◌≡◌, refl, Bool, true, false, Option, none, some, List, [], ◌∷◌, Text, nat_eq,
  list_eq, Result, ok, err, Option-cases, Bool-cases, inl, inr, All,
}
use mathlib.Core.Path.{subst}
use clustertalk_githubaction.Node.DedupCache.{seen_before}
use clustertalk_githubaction.Node.Mesh.{PeerManager, Relay, link_up}
use clustertalk_githubaction.Node.Mesh.Link.{
  pong_grace, LinkError, connection_error, connection_closed, frame_error, timed_out, key_error,
  json_error, type_error, attribute_error, other_error, cancelled, DictKey, hashable, unhashable,
  Shaped, object, no_object, nameless, naming, misshapen, relay_named, answer_query, read_state,
  PeerFrame, hello_read, ping_read, pong_read, query_read, state_read, relay_read, other_read,
  RelayPayload, Link, LinkEvent, reads, fails, wakes, cancels, Callbacks, turn, on_peer_frame,
  read_relay, deliver_new, complete, answered, heartbeat, serve,
}
use clustertalk_githubaction.Node.Mesh.Link.Connect.{
  Connection, peer_of, do_peer_handshake, serve_as, run_handshake_and_serve, is_caught,
  connect_loop,
}

-- An error of the connection or of the frames, or a timeout
unfoldable pub IsNetworkError : LinkError → Type 0
IsNetworkError connection_error = Unit
IsNetworkError connection_closed = Unit
IsNetworkError frame_error = Unit
IsNetworkError timed_out = Unit
IsNetworkError key_error = ⊥
IsNetworkError json_error = ⊥
IsNetworkError type_error = ⊥
IsNetworkError attribute_error = ⊥
IsNetworkError other_error = ⊥
IsNetworkError cancelled = ⊥

is_caught_network : (e : LinkError) → IsNetworkError e → is_caught e ≡ true
unfolding IsNetworkError is_caught
is_caught_network connection_error h = refl
is_caught_network connection_closed h = refl
is_caught_network frame_error h = refl
is_caught_network timed_out h = refl
is_caught_network key_error h = absurd h
is_caught_network json_error h = absurd h
is_caught_network type_error h = absurd h
is_caught_network attribute_error h = absurd h
is_caught_network other_error h = absurd h
is_caught_network cancelled h = absurd h

-- The exception of a callback, if it raises one
abbrev pub IsNetworkFault : Option LinkError → Type 0
IsNetworkFault none = Unit
IsNetworkFault (some e) = IsNetworkError e

-- The error of an outcome, if there is one, is caught.
abbrev pub IsCaught : Option LinkError → Type 0
IsCaught none = Unit
IsCaught (some e) = is_caught e ≡ true

module _ {S : Type 0} (callbacks : Callbacks S) where
  -- A RELAY frame with all its members, on which the callback raises nothing but a network error
  unfoldable pub IsWhole : Shaped RelayPayload → Type 0
  IsWhole no_object = ⊥
  IsWhole (object p) =
      (msg_id : Text) × ((p.msg_id ≡ some (hashable msg_id))
        × ((r : Relay) × ((complete msg_id p ≡ some r)
              × IsNetworkFault (callbacks.deliver_locally r))))

  -- A query that is an object, on which the provider raises nothing but a network error
  unfoldable pub IsQuery : Shaped (Text × Option DictKey) → Type 0
  IsQuery no_object = ⊥
  IsQuery (object (request_id, none)) = Unit
  IsQuery (object (request_id, some session_id)) =
      IsNetworkFault (callbacks.provider_raises session_id)

  -- An answer that is an object with a hashable request id, or without one
  unfoldable pub IsState : Shaped (Option DictKey × Option S) → Type 0
  IsState no_object = ⊥
  IsState (object (none, snapshot)) = Unit
  IsState (object (some unhashable, snapshot)) = ⊥
  IsState (object (some (hashable request_id), snapshot)) = Unit

  -- A well-formed frame, an error of the network, or a heartbeat: no cancellation
  unfoldable pub IsOrdinary : LinkEvent S → Type 0
  IsOrdinary (reads now (relay_read p) written) = IsWhole p
  IsOrdinary (reads now (hello_read greeting) written) = Unit
  IsOrdinary (reads now ping_read written) = Unit
  IsOrdinary (reads now pong_read written) = Unit
  IsOrdinary (reads now (query_read query) written) = IsQuery query
  IsOrdinary (reads now (state_read state) written) = IsState state
  IsOrdinary (reads now other_read written) = Unit
  IsOrdinary (fails e) = IsNetworkError e
  IsOrdinary (wakes now written) = Unit
  IsOrdinary cancels = ⊥

  answer_query-IsCaught :
      (provider : Option (Text → Option S)) (w : ℕ) (query : Shaped (Text × Option DictKey))
      (m : PeerManager S)
      → IsQuery query
      → IsCaught (answer_query callbacks provider w query m).0
  unfolding answer_query IsQuery
  answer_query-IsCaught none w query m h = tt
  answer_query-IsCaught (some provider) w no_object m h = absurd h
  answer_query-IsCaught (some provider) w (object (i, none)) m h = tt
  answer_query-IsCaught (some provider) w (object ([], some k)) m h = tt
  answer_query-IsCaught (some provider) w (object (c ∷ i, some k)) m h =
      elim (Option-cases (callbacks.provider_raises k)) [
        | inl fine ↦ rw (fine, answer_query) tt
        | inr (e, raised) ↦
            let caught : IsCaught (some e) =
              is_caught_network e (subst (λ o. IsNetworkFault o) raised h) in
            rw (raised, answer_query) caught
      ]

  read_state-IsCaught :
      (state : Shaped (Option DictKey × Option S)) (m : PeerManager S)
      → IsState state
      → IsCaught (read_state callbacks state m).0
  unfolding read_state IsState
  read_state-IsCaught no_object m h = absurd h
  read_state-IsCaught (object (none, s)) m h = tt
  read_state-IsCaught (object (some unhashable, s)) m h = absurd h
  read_state-IsCaught (object (some (hashable i), s)) m h = tt

  read_relay-IsCaught :
      (peer_id : Text) (p : Shaped RelayPayload) (m : PeerManager S)
      → IsWhole p
      → IsCaught (read_relay callbacks peer_id p m).0
  unfolding read_relay deliver_new IsWhole
  read_relay-IsCaught peer_id no_object m h = absurd h
  read_relay-IsCaught peer_id (object p) m (msg_id, (named, (r, (whole, caught)))) =
      elim (Bool-cases (seen_before msg_id m.dedup).0) [
        | inl seen ↦ rw (named, seen, relay_named) tt
        | inr new ↦ elim (Option-cases (callbacks.deliver_locally r)) [
          | inl fine ↦ rw (named, new, whole, fine, deliver_new) tt
          | inr (e, raised) ↦
              let caught' : IsCaught (some e) =
                is_caught_network e (subst (λ o. IsNetworkFault o) raised caught) in
              rw (named, new, whole, raised, deliver_new) caught'
        ]
      ]

  heartbeat-IsCaught : (now last : ℕ) (written : Bool) → IsCaught (heartbeat now last written)
  unfolding heartbeat is_caught
  heartbeat-IsCaught now last true = elim (Bool-cases (ltb pong_grace (now - last))) [
    | inl late ↦ rw late refl
    | inr timely ↦ rw timely tt
  ]
  heartbeat-IsCaught now last false = refl

  answered-IsCaught : (written : Bool) → IsCaught (answered written)
  unfolding answered is_caught
  answered-IsCaught true = tt
  answered-IsCaught false = refl

  turn-IsCaught :
      (event : LinkEvent S) (link : Link) (m : PeerManager S)
      → IsOrdinary event
      → IsCaught (turn callbacks event link m).0
  unfolding turn on_peer_frame IsOrdinary
  turn-IsCaught (reads now (relay_read p) written) link m h = read_relay-IsCaught link.peer_id p m h
  turn-IsCaught (reads now (hello_read greeting) written) link m h = tt
  turn-IsCaught (reads now ping_read written) link m h = answered-IsCaught written
  turn-IsCaught (reads now pong_read written) link m h = tt
  turn-IsCaught (reads now (query_read query) written) link m h =
      answer_query-IsCaught callbacks.session_query_provider link.writer query m h
  turn-IsCaught (reads now (state_read state) written) link m h = read_state-IsCaught state m h
  turn-IsCaught (reads now other_read written) link m h = tt
  turn-IsCaught (fails e) link m h = is_caught_network e h
  turn-IsCaught (wakes now written) link m h = heartbeat-IsCaught now link.last_pong_at written
  turn-IsCaught cancels link m h = absurd h

  serve-IsCaught :
      (events : List (LinkEvent S)) (link : Link) (m : PeerManager S)
      → All IsOrdinary events
      → IsCaught (serve callbacks events link m).0
  unfolding serve
  serve-IsCaught [] link m h = tt
  serve-IsCaught (event ∷ events) link m (first, h) =
      let (outcome, (link', m')) = turn callbacks event link m in
      elim (Option-cases outcome) [
        | inl up ↦ rw (up, serve) (serve-IsCaught events link' m' h)
        | inr (e, ended) ↦
            let caught : IsCaught (some e) =
              subst (λ o. IsCaught o) ended (turn-IsCaught event link m first) in
            rw (ended, serve) caught
      ]

  -- The node_id of a first frame is hashable, if the frame gets that far.
  unfoldable pub IsGreeting : PeerFrame S → Type 0
  IsGreeting (hello_read nameless) = Unit
  IsGreeting (hello_read misshapen) = ⊥
  IsGreeting (hello_read (naming unhashable)) = ⊥
  IsGreeting (hello_read (naming (hashable peer_id))) = Unit
  IsGreeting ping_read = Unit
  IsGreeting pong_read = Unit
  IsGreeting (query_read query) = Unit
  IsGreeting (state_read state) = Unit
  IsGreeting (relay_read p) = Unit
  IsGreeting other_read = Unit

  -- The first frame, or the error of reading it
  abbrev pub IsCaughtFirst : Result LinkError (PeerFrame S) → Type 0
  IsCaughtFirst (err e) = IsNetworkError e
  IsCaughtFirst (ok frame) = IsGreeting frame

  -- An attempt to connect that is refused, or a connection with ordinary events
  abbrev pub IsAttempt : Option (Connection S) → Type 0
  IsAttempt none = Unit
  IsAttempt (some c) = IsCaughtFirst c.first × All IsOrdinary c.events

  module _ (node_id : Text) where
    -- The error of a handshake, with that of filing the link
    outcome_of : Result LinkError DictKey → Option LinkError
    outcome_of (err e) = some e
    outcome_of (ok unhashable) = some type_error
    outcome_of (ok (hashable peer_id)) = none

    peer_of-IsCaught :
        (first : Result LinkError (PeerFrame S))
        → IsCaughtFirst first
        → IsCaught (outcome_of (peer_of first))
    unfolding peer_of outcome_of is_caught IsGreeting
    peer_of-IsCaught (err e) h = is_caught_network e h
    peer_of-IsCaught (ok (hello_read nameless)) h = refl
    peer_of-IsCaught (ok (hello_read misshapen)) h = absurd h
    peer_of-IsCaught (ok (hello_read (naming unhashable))) h = absurd h
    peer_of-IsCaught (ok (hello_read (naming (hashable peer_id)))) h = tt
    peer_of-IsCaught (ok ping_read) h = refl
    peer_of-IsCaught (ok pong_read) h = refl
    peer_of-IsCaught (ok (query_read query)) h = refl
    peer_of-IsCaught (ok (state_read state)) h = refl
    peer_of-IsCaught (ok (relay_read p)) h = refl
    peer_of-IsCaught (ok other_read) h = refl

    serve_as-IsCaught :
        (c : Connection S) (peer : Result LinkError DictKey) (m : PeerManager S)
        → IsCaught (outcome_of peer)
        → All IsOrdinary c.events
        → IsCaught (serve_as callbacks node_id c (peer, m)).0
    unfolding serve_as outcome_of
    serve_as-IsCaught c (err e) m caught h = caught
    serve_as-IsCaught c (ok unhashable) m caught h = caught
    serve_as-IsCaught c (ok (hashable peer_id)) m caught h =
        serve-IsCaught c.events
          (record { peer_id = peer_id; writer = c.writer; last_pong_at = c.since })
          (link_up peer_id c.writer m) h

    run_handshake_and_serve-IsCaught :
        (c : Connection S) (m : PeerManager S)
        → IsAttempt (some c)
        → IsCaught (run_handshake_and_serve callbacks node_id c m).0
    unfolding run_handshake_and_serve do_peer_handshake outcome_of is_caught
    run_handshake_and_serve-IsCaught c m (first, h) = elim (Bool-cases c.greeted) [
      | inl sent ↦
          rw sent (serve_as-IsCaught c (peer_of c.first) _ (peer_of-IsCaught c.first first) h)
      | inr lost ↦ rw lost (serve_as-IsCaught c (err connection_error) m refl h)
    ]

    -- However the connections to a peer are refused, break off, fall silent, or break the framing, and
    -- whatever well-formed frames the peer sends, also as its first one: the loop that dials the peer
    -- does not end by an error. Well-formed means that the payload is JSON, is an object where its
    -- members are read, has hashable ids, and in a RELAY frame all its members. The callbacks raise
    -- nothing but errors of connections and frames, and nothing cancels the loop.
    pub connect_loop-goes_on :
        (attempts : List (Option (Connection S))) (m : PeerManager S)
        → All IsAttempt attempts
        → (connect_loop callbacks node_id attempts m).0 ≡ none
    unfolding connect_loop
    connect_loop-goes_on [] m h = refl
    connect_loop-goes_on (none ∷ attempts) m (first, h) = connect_loop-goes_on attempts m h
    connect_loop-goes_on (some c ∷ attempts) m (first, h) =
        let (outcome, m') = run_handshake_and_serve callbacks node_id c m in
        elim (Option-cases outcome) [
          | inl up ↦ rw (up, connect_loop) refl
          | inr (e, ended) ↦
              let caught : is_caught e ≡ true =
                subst (λ o. IsCaught o) ended (run_handshake_and_serve-IsCaught c m first) in
              rw (ended, caught, connect_loop) (connect_loop-goes_on attempts m' h)
        ]
