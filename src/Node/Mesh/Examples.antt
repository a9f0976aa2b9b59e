-- ===== src/Node/Mesh/Examples.antt =====
-- A peer manager with two links and an open query.
use clustertalk_githubaction.Prelude.{
  ℕ, ◌≡◌, ◌≢◌, refl, arith, Option, none, some, List, [], ◌∷◌, Text, nat_eq, list_eq,
}
use clustertalk_githubaction.Prelude.Dict
use clustertalk_githubaction.Node.Mesh.{Relay, PeerManager}

abbrev pub hello_relay : Relay
hello_relay = record {
  msg_id = 1 ∷ [];
  room_id = 2 ∷ [];
  text = 3 ∷ [];
  from_session = 4 ∷ [];
  sent_at = none;
}

abbrev other_relay : Relay
other_relay = record hello_relay { msg_id = 9 ∷ [] }

abbrev two_links : PeerManager ℕ
two_links = record {
  peer_writers = (5 ∷ [], 50) ∷ (6 ∷ [], 60) ∷ [];
  all_writers = 50 ∷ 60 ∷ [];
  dedup = record { max_size = 3; seen = [] };
  pending_queries = (7 ∷ [], none) ∷ [];
  sent = [];
  delivered = [];
}

abbrev pub no_links : PeerManager ℕ
no_links = record two_links { peer_writers = []; all_writers = []; pending_queries = [] }

abbrev one_other : List (Text × Relay)
one_other = (6 ∷ [], other_relay) ∷ []

abbrev new_writer : ℕ
new_writer = 51

links_apart : 50 ≢ new_writer
links_apart e = omega (arith, e)

query_open : Dict.get (7 ∷ []) two_links.pending_queries ≡ some none
unfolding Dict.get
query_open = refl

abbrev late_answers : List (Text × Option ℕ)
late_answers = (7 ∷ [], some 80) ∷ (8 ∷ [], none) ∷ []
