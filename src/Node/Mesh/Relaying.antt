-- ===== src/Node/Mesh/Relaying.antt =====
-- A message does not come back, and the first answer to a query counts.
use clustertalk_githubaction.Prelude.{
  ℕ, ◌<◌, ◌≡◌, ◌≢◌, refl, ap, ◌∙◌, arith, true, false, Option, none, some, List, [], ◌∷◌, length,
  Text, nat_eq, list_eq, text_eq_iff, Option-cases, inl, inr, Bool-cases, nat_beq,
}
use clustertalk_githubaction.Prelude.Dict
use clustertalk_githubaction.Node.DedupCache.{seen_before}
use clustertalk_githubaction.Node.DedupCache.{init}
use clustertalk_githubaction.Node.DedupCache.Window.{see_all, repeat-seen}
use clustertalk_githubaction.Node.Mesh.{
  Relay, PeerManager, flood, relay_message, on_relay, link_up, link_down, end_query,
  handle_session_state, resolved, answer_of,
}

abbrev pub ids_of : List (Text × Relay) → List Text
ids_of [] = []
ids_of ((peer, r) ∷ rest) = r.msg_id ∷ ids_of rest

module _ {S : Type 0} where
  -- RELAY frames as they arrive, each from a peer
  pub relays : List (Text × Relay) → PeerManager S → PeerManager S
  relays [] m = m
  relays ((peer, r) ∷ rest) m = relays rest (on_relay peer r m)

  dedup-on_relay :
      (peer : Text) (r : Relay) (m : PeerManager S)
      → (on_relay peer r m).dedup ≡ (seen_before r.msg_id m.dedup).1
  unfolding on_relay flood
  dedup-on_relay peer r m = elim (Bool-cases (seen_before r.msg_id m.dedup).0) [
    | inl seen ↦ ground (arith, seen)
    | inr new ↦ ground (arith, new)
  ]

  dedup-relays :
      (rs : List (Text × Relay)) (m : PeerManager S)
      → (relays rs m).dedup ≡ see_all (ids_of rs) m.dedup
  unfolding relays see_all
  dedup-relays [] m = refl
  dedup-relays ((peer, r) ∷ rest) m =
      dedup-relays rest (on_relay peer r m) ∙ ap (see_all (ids_of rest)) (dedup-on_relay peer r m)

  on_relay-seen :
      (peer : Text) (r : Relay) (m : PeerManager S)
      → (seen_before r.msg_id m.dedup).0 ≡ true
      → ((on_relay peer r m).delivered ≡ m.delivered) × ((on_relay peer r m).sent ≡ m.sent)
  unfolding on_relay flood
  on_relay-seen peer r m seen = ground (arith, seen)

  dedup-relay_message :
      (r : Relay) (m : PeerManager S) → (relay_message r m).dedup ≡ (seen_before r.msg_id m.dedup).1
  unfolding relay_message flood
  dedup-relay_message r m = refl

  -- A message that loops back to the node that sent it is neither delivered there nor flooded
  -- again, as long as fewer RELAY frames than the cache is large have arrived in between. The cache
  -- is one that was filled from empty.
  pub on_relay-relay_message :
      (size : ℕ) (earlier : List Text) (r : Relay) (rs : List (Text × Relay)) (peer : Text)
      (m : PeerManager S)
      → m.dedup ≡ see_all earlier (init size)
      → length (ids_of rs) < size
      → ((on_relay peer r (relays rs (relay_message r m))).delivered
          ≡ (relays rs (relay_message r m)).delivered)
        × ((on_relay peer r (relays rs (relay_message r m))).sent
            ≡ (relays rs (relay_message r m)).sent)
  on_relay-relay_message size earlier r rs peer m cache few =
      let cache_now =
        dedup-relays rs (relay_message r m)
        ∙ ap (see_all (ids_of rs))
            (dedup-relay_message r m ∙ ap (λ c. (seen_before r.msg_id c).1) cache) in
      on_relay-seen peer r (relays rs (relay_message r m)) (
        ap (λ c. (seen_before r.msg_id c).0) cache_now
        ∙ repeat-seen size earlier (ids_of rs) r.msg_id few)

  -- A link that goes down late does not take a newer link to the same peer off the list.
  pub link_down-link_up :
      (peer : Text) (old new : ℕ) (m : PeerManager S)
      → old ≢ new
      → Dict.get peer (link_down peer old (link_up peer new m)).peer_writers ≡ some new
  unfolding link_down link_up
  link_down-link_up peer old new m apart =
      let here = Dict.get-put_self peer new m.peer_writers in
      let other : nat_beq new old ≡ false = ground (arith, apart) in rw (here, other) here

  -- SESSION_STATE frames as they arrive: the id that each answers and its snapshot
  pub answers : List (Text × Option S) → PeerManager S → PeerManager S
  answers [] m = m
  answers ((id, snapshot) ∷ rest) m = answers rest (handle_session_state id snapshot m)

  get-handle_session_state :
      (id other : Text) (snapshot : Option S) (m : PeerManager S) (held : Option S)
      → Dict.get id m.pending_queries ≡ some (some held)
      → Dict.get id (handle_session_state other snapshot m).pending_queries ≡ some (some held)
  unfolding handle_session_state resolved
  get-handle_session_state id other snapshot m held here =
      elim (Option-cases (Dict.get other m.pending_queries)) [
        | inl absent ↦ ground (arith, absent, here)
        | inr (none, waiting) ↦ ground (
          arith,
          waiting,
          here,
          text_eq_iff other id,
          Dict.get-put other id (some snapshot) m.pending_queries,
        )
        | inr (some first, closed) ↦ ground (arith, closed, here)
      ]

  get-answers :
      (id : Text) (rest : List (Text × Option S)) (m : PeerManager S) (held : Option S)
      → Dict.get id m.pending_queries ≡ some (some held)
      → Dict.get id (answers rest m).pending_queries ≡ some (some held)
  unfolding answers
  get-answers id [] m held here = here
  get-answers id ((other, snapshot) ∷ rest) m held here =
      get-answers id rest (handle_session_state other snapshot m) held
        (get-handle_session_state id other snapshot m held here)

  first-handle_session_state :
      (id : Text) (snapshot : Option S) (m : PeerManager S)
      → Dict.get id m.pending_queries ≡ some none
      → Dict.get id (handle_session_state id snapshot m).pending_queries ≡ some (some snapshot)
  unfolding handle_session_state resolved
  first-handle_session_state id snapshot m waiting =
      ground (arith, waiting, Dict.get-put_self id (some snapshot) m.pending_queries)

  -- The first answer to an open query is the one that the query returns, whatever other answers,
  -- to this query and to others, arrive before it does.
  pub end_query-answers :
      (id : Text) (snapshot : Option S) (rest : List (Text × Option S)) (m : PeerManager S)
      → Dict.get id m.pending_queries ≡ some none
      → (end_query id (answers rest (handle_session_state id snapshot m))).0 ≡ snapshot
  unfolding end_query answer_of
  end_query-answers id snapshot rest m waiting = ap answer_of (
      get-answers id rest (handle_session_state id snapshot m) snapshot
        (first-handle_session_state id snapshot m waiting))
