-- ===== src/Node/Mesh/Link/Examples.antt =====
-- Links that answer, fall silent, come up twice, and are dialed again.
use clustertalk_githubaction.Prelude.{
  ℕ, ◌≡◌, refl, arith, true, Option, none, some, List, [], ◌∷◌, ◌++◌, nat_eq, list_eq, ok, err,
}
use clustertalk_githubaction.Prelude.Dict
use clustertalk_githubaction.Prelude.Set
use clustertalk_githubaction.Node.Mesh.{peer_hello}
use clustertalk_githubaction.Node.Mesh.Examples.{hello_relay, no_links}
use clustertalk_githubaction.Node.Mesh.Link.{
  LinkError, connection_closed, timed_out, key_error, json_error, type_error, hashable, unhashable,
  naming, object, hello_read, ping_read, pong_read, relay_read, RelayPayload, Link, LinkEvent,
  reads, fails, wakes, Callbacks, complete, read_relay, on_peer_frame, turn, serve, write_frame,
}
use clustertalk_githubaction.Node.Mesh.Link.Connect.{
  Connection, connect_loop, run_handshake_and_serve, do_peer_handshake, peer_of, is_caught,
}
use clustertalk_githubaction.Node.Mesh.Link.Redial.{
  IsGreeting, IsNetworkError, IsWhole, IsOrdinary, connect_loop-goes_on,
}
use clustertalk_githubaction.Node.Mesh.Link.Liveness.{
  IsSilent, IsAnswering, IsDeliverable, serve-silent, serve-answering,
}
use clustertalk_githubaction.Node.Mesh.Link.Registry.{HubEvent, opens, happens, hub_run}
use clustertalk_githubaction.Node.Mesh.Link.Filed.{IsFiled, hub_run-IsFiled}

abbrev quiet_callbacks : Callbacks ℕ
quiet_callbacks = record {
  deliver_locally = λ r. none;
  session_query_provider = none;
  provider_raises = λ k. none;
}

abbrev to_second : Link
to_second = record { peer_id = 2 ∷ []; writer = 12; last_pong_at = 1_000 }

abbrev whole_relay : RelayPayload
whole_relay = record {
  msg_id = some (hashable hello_relay.msg_id);
  room_id = some hello_relay.room_id;
  text = some hello_relay.text;
  from_session = some hello_relay.from_session;
  sent_at = none;
}

abbrev cut_relay : RelayPayload
cut_relay = record whole_relay { msg_id = none }

-- The peer pings, but does not answer.
abbrev unanswered : List (LinkEvent ℕ)
unanswered = wakes 6_000 true ∷ reads 7_000 ping_read true ∷ wakes 11_000 true ∷ []

serve-silent_example :
    (e : LinkError) × ((serve quiet_callbacks
        (unanswered ++ (wakes 16_000 true ∷ []))
        to_second
        no_links).0
      ≡ some e)
unfolding IsSilent
serve-silent_example =
    serve-silent quiet_callbacks unanswered 16_000 true [] to_second no_links tt (omega arith)

abbrev answering : List (LinkEvent ℕ)
answering =
    wakes 6_000 true
    ∷ reads 6_100 pong_read true
    ∷ reads 7_000 (relay_read (object whole_relay)) true
    ∷ wakes 18_100 true
    ∷ []

serve-answering_example : (serve quiet_callbacks answering to_second no_links).0 ≡ none
unfolding IsAnswering IsDeliverable complete
serve-answering_example = serve-answering quiet_callbacks answering to_second no_links (
  refl,
  (
    omega arith,
    ((hello_relay.msg_id, (refl, (hello_relay, (refl, refl)))), (refl, (omega arith, tt))),
  ),
)

abbrev connection : ℕ → List (LinkEvent ℕ) → Connection ℕ
connection writer events = record {
  writer = writer;
  greeted = true;
  first = ok (hello_read (naming (hashable (2 ∷ []))));
  since = 1_000;
  events = events;
}

-- Both nodes dial each other, and the older link breaks off.
abbrev crossing : List (HubEvent ℕ)
crossing =
    opens (connection 12 [])
    ∷ opens (connection 13 [])
    ∷ happens 13 (reads 2_000 (relay_read (object whole_relay)) true)
    ∷ happens 12 (fails connection_closed)
    ∷ []

no_links-IsFiled : IsFiled (record { manager = no_links; live = [] })
unfolding Dict.get Dict.has Set.contains
no_links-IsFiled = record {
  filed = λ p w on_file. absurd (ground (arith, on_file));
  kept = λ w. refl;
  owned = λ w link there. absurd (ground (arith, there));
}

hub_run-IsFiled_example :
    IsFiled (hub_run quiet_callbacks (1 ∷ []) crossing (record { manager = no_links; live = [] }))
hub_run-IsFiled_example =
    hub_run-IsFiled quiet_callbacks (1 ∷ []) crossing (record { manager = no_links; live = [] })
      no_links-IsFiled

-- The first attempt is refused, the second peer does not greet in time, the third breaks off.
abbrev attempts : List (Option (Connection ℕ))
attempts =
    none
    ∷ some (record (connection 12 []) { first = err timed_out })
    ∷ some (
        connection 13
          (reads 2_000 (relay_read (object whole_relay)) true ∷ fails connection_closed ∷ []))
    ∷ []

connect_loop-goes_on_example : (connect_loop quiet_callbacks (1 ∷ []) attempts no_links).0 ≡ none
unfolding IsOrdinary IsWhole IsGreeting IsNetworkError complete
connect_loop-goes_on_example = connect_loop-goes_on quiet_callbacks (1 ∷ []) attempts no_links (
  tt,
  ((tt, tt), ((tt, ((hello_relay.msg_id, (refl, (hello_relay, (refl, tt)))), (tt, tt))), tt)),
)

-- A RELAY frame without an id ends the loop.
connect_loop_malformed :
    (connect_loop quiet_callbacks
      (1 ∷ [])
      (some (connection 12 (reads 2_000 (relay_read (object cut_relay)) true ∷ [])) ∷ attempts)
      no_links).0
    ≡ some key_error
unfolding connect_loop run_handshake_and_serve do_peer_handshake peer_of serve turn on_peer_frame
    read_relay write_frame is_caught
connect_loop_malformed = refl

-- So does a frame that is no JSON, and a PEER_HELLO whose node_id is a list, after which no link is
-- filed.
connect_loop_no_json :
    (connect_loop quiet_callbacks
      (1 ∷ [])
      (some (connection 12 (fails json_error ∷ [])) ∷ attempts)
      no_links).0
    ≡ some json_error
unfolding connect_loop run_handshake_and_serve do_peer_handshake peer_of serve turn write_frame
    is_caught
connect_loop_no_json = refl

connect_loop_unhashable :
    connect_loop quiet_callbacks
      (1 ∷ [])
      (some (record (connection 12 []) { first = ok (hello_read (naming unhashable)) }) ∷ attempts)
      no_links
    ≡ (some type_error, write_frame 12 (peer_hello (1 ∷ [])) no_links)
unfolding connect_loop run_handshake_and_serve do_peer_handshake peer_of is_caught
connect_loop_unhashable = refl
