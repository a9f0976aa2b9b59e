-- ===== src/Ingress/LoadBalancer/Clients.antt =====
-- The clients that the balancer keeps for the dashboard: where each is routed and where its home
-- is (ingress/lb.py, from `_client_key` to `_drop_client`, and `_rebalance_clients`).
pub mod Rebalance
pub mod Stale
use clustertalk_githubaction.Prelude.{
  ℕ, suc, ◌+◌, ◌%◌, Bool, true, false, not, ◌&&◌, ◌||◌, Option, none, some, List, [], ◌∷◌, ◌++◌,
  length, get_elem?, if◌then◌else◌, Text, codes, ◌==◌, nat_eq, list_eq, map,
}
use clustertalk_githubaction.Prelude.Dict
use clustertalk_githubaction.Prelude.Dict.{Dict}
use clustertalk_githubaction.Prelude.Set
use clustertalk_githubaction.Prelude.Sort.{filter}
use clustertalk_githubaction.Ingress.Address.{decimal, address_str}
use clustertalk_githubaction.Ingress.LoadBalancer.{
  Backend, Client, LoadBalancer, routable, address_of,
}

abbrev pub no_client : Client
no_client = record {
  home = none;
  current = none;
  active = true;
  backend = none;
  session_id = none;
  peer = none;
  connection_id = none;
}

-- Python's truth of an optional string
unfoldable pub truthy : Option Text → Bool
truthy none = false
truthy (some []) = false
truthy (some (c ∷ cs)) = true

unfoldable pub or_else : Option Text → Option Text → Option Text
or_else none old = old
or_else (some v) old = some v

peer_str : Option (Text × ℕ) → Option Text
peer_str none = none
peer_str (some (host, port)) = some (address_str host port)

found_or_new : Option Client → Client
found_or_new none = no_client
found_or_new (some c) = c

-- `current` of the displaced client with the given place in the line
unfoldable pub spread_to : List Text → ℕ → Option Text
spread_to [] i = none
spread_to (a ∷ rest) i = get_elem? (a ∷ rest) (i % length (a ∷ rest))

-- A client without a home has no home among the routable servers.
unfoldable pub home_routable : List Text → Client → Bool
home_routable rset c = elim c.home [ none ↦ false | some home ↦ Set.contains home rset ]

-- The first loop of `_rebalance_clients`, on the entries
unfoldable pub settle : List Text → Dict Text Client → Dict Text Client
unfolding home_routable
settle rset [] = []
settle rset ((cid, c) ∷ clients) =
    let c' = if c.active && home_routable rset c then record c { current = c.home } else c in
    (cid, c') ∷ settle rset clients

-- The first loop of `_rebalance_clients`, what it collects
unfoldable pub displaced : List Text → Dict Text Client → List Text
unfolding home_routable
displaced rset [] = []
displaced rset ((cid, c) ∷ clients) =
    let rest = displaced rset clients in
    if c.active && not (home_routable rset c) then cid ∷ rest else rest

set_current : Text → Option Text → Dict Text Client → Dict Text Client
set_current cid to clients = elim (Dict.get cid clients) [
  | none ↦ clients
  | some c ↦ Dict.put cid (record c { current = to }) clients
]

-- The second loop of `_rebalance_clients`, from place `i` on
unfoldable pub spread : List Text → ℕ → List Text → Dict Text Client → Dict Text Client
unfolding set_current spread_to
spread servers i [] clients = clients
spread servers i (cid ∷ cids) clients =
    spread servers (suc i) cids (set_current cid (spread_to servers i) clients)

unfoldable pub rebalanced : List Text → Dict Text Client → Dict Text Client
unfolding settle displaced spread
rebalanced servers clients = spread servers 0 (displaced servers clients) (settle servers clients)

-- `[b.address_str for b in self._backends if b.routable]`
unfoldable pub routable_servers : (ℕ → Backend) → List ℕ → List Text
unfolding routable address_of filter
routable_servers heap refs = map (λ r. address_of (heap r)) (filter (λ r. routable (heap r)) refs)

-- A connection id was given, and the entry holds another or none.
unfoldable pub is_stale : Option Text → Client → Bool
is_stale none entry = false
is_stale (some given) entry = elim entry.connection_id [
  | none ↦ true
  | some held ↦ not (held == given)
]

module _ {R : Type 0} where
  -- `_client_key`
  unfoldable pub client_key : Option (Text × ℕ) → Option Text → LoadBalancer R → Text
  unfolding truthy
  client_key none (some (c ∷ cs)) lb = c ∷ cs
  client_key none session_id lb = codes "peer:" ++ decimal lb.client_seq
  client_key (some (host, port)) (some (c ∷ cs)) lb = c ∷ cs
  client_key (some (host, port)) session_id lb = address_str host port

  -- `_remember_client`
  unfoldable pub remember_client :
      Text
      → ℕ
      → Option (Text × ℕ)
      → Option Text
      → Bool
      → Option Text
      → LoadBalancer R
      → LoadBalancer R
  unfolding truthy or_else peer_str found_or_new address_of
  remember_client client_id r peer session_id active connection_id lb =
      let entry = found_or_new (Dict.get client_id lb.clients) in
      let here = some (address_of (lb.heap r)) in
      record lb {
        clients =
            Dict.put client_id
              (record {
                home = if truthy entry.home then entry.home else here;
                current = here;
                active = active;
                backend = here;
                session_id = if truthy session_id then session_id else entry.session_id;
                peer = or_else (peer_str peer) entry.peer;
                connection_id = or_else connection_id entry.connection_id;
              })
              lb.clients;
      }

  -- `_migrate_client_state`
  unfoldable pub migrate_client_state : Text → Text → LoadBalancer R → LoadBalancer R
  migrate_client_state old_id new_id lb = elim (Dict.get old_id lb.clients) [
    | none ↦ lb
    | some entry ↦ record lb {
      clients =
          Dict.put new_id (record entry { session_id = some new_id })
            (Dict.remove old_id lb.clients);
    }
  ]

  -- `_drop_client`
  unfoldable pub drop_client : Text → Option Text → LoadBalancer R → LoadBalancer R
  unfolding is_stale
  drop_client client_id connection_id lb = elim (Dict.get client_id lb.clients) [
    | none ↦ lb
    | some entry ↦
        if is_stale connection_id entry
        then lb
        else record lb { clients = Dict.put client_id (record entry { active = false }) lb.clients }
  ]

  -- `_rebalance_clients`
  unfoldable pub rebalance_clients : LoadBalancer R → LoadBalancer R
  unfolding rebalanced routable_servers
  rebalance_clients lb = record lb {
    clients = rebalanced (routable_servers lb.heap lb.backends) lb.clients;
  }
