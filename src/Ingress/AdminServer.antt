-- ===== src/Ingress/AdminServer.antt =====
-- ingress/admin_server.py: the requests of the dashboard, and the nodes that it launches. A request is
-- given by its path and the first value of each of its query parameters, as urllib parses them;
-- Python's `int` is a parameter, of which a negative result counts as 0. What Popen and the choice of
-- a free port give is an argument.
pub mod Pool
pub mod Foreign
mod Examples
use clustertalk_githubaction.Prelude.{
  ℕ, Bool, true, false, ◌||◌, Option, none, some, List, [], ◌∷◌, ◌++◌, map, if◌then◌else◌, Text,
  codes, ◌==◌, nat_eq, list_eq, min, max,
}
use clustertalk_githubaction.Prelude.Dict
use clustertalk_githubaction.Prelude.Dict.{Dict}
use clustertalk_githubaction.Ingress.Address.{address_str}
use clustertalk_githubaction.Ingress.LoadBalancer.{LoadBalancer}
use clustertalk_githubaction.Ingress.LoadBalancer.Admin.{
  admin_set_down, admin_remove_backend, admin_add_clients, admin_clear_clients, admin_simulate,
}
use clustertalk_githubaction.Ingress.LoadBalancer.Admin.Snapshot.{LbSnapshot, admin_snapshot}

pub record NodeSpawner : Type 0 where
  pub register_port : Option ℕ
  -- the processes by their addresses
  pub procs : Dict Text ℕ
  -- the processes that have been told to end, the latest last
  pub terminated : List ℕ

-- What the handlers work on; there is no spawner when the balancer has no registration port.
pub record AdminState (R : Type 0) : Type 0 where
  pub lb : LoadBalancer R
  pub spawner : Option NodeSpawner

-- The bodies of the answers
pub data Answer : Type 0 where
  -- the snapshot, the addresses that may be removed, and whether nodes can be added
  stats : LbSnapshot → List Text → Bool → Answer
  service : Answer
  simulated : Option (Dict Text ℕ) → Answer
  toggled : Option Bool → Answer
  launched : Text → Answer
  launch_failed : Answer
  cannot_spawn : Answer
  spawning_disabled : Answer
  removed : Text → Answer
  not_managed : Answer
  clients_added : Option (ℕ × ℕ) → Answer
  clients_cleared : Answer
  error_not_found : Answer

pub record AdminRequest : Type 0 where
  pub path : Text
  pub query : Dict Text Text

-- A free port, and the process, or `none` when it cannot be launched
pub record Launch : Type 0 where
  pub port : ℕ
  pub process : Option ℕ

abbrev pub loopback : Text
loopback = codes "127.0.0.1"

-- `NodeSpawner.add`
unfoldable pub add_node : Launch → NodeSpawner → Answer × NodeSpawner
unfolding address_str
add_node launch spawner = elim spawner.register_port [
  | none ↦ (cannot_spawn, spawner)
  | some register_port ↦ elim launch.process [
    | none ↦ (launch_failed, spawner)
    | some process ↦
        let address = address_str loopback launch.port in
        (launched address, record spawner { procs = Dict.put address process spawner.procs })
  ]
]

-- `NodeSpawner.cleanup`
unfoldable pub cleanup : NodeSpawner → NodeSpawner
cleanup spawner = record spawner {
  procs = [];
  terminated = spawner.terminated ++ map (λ p. p.1) spawner.procs;
}

-- `q.get(key, [default])[0]`
unfoldable pub value_or : Text → Text → AdminRequest → Text
value_or default key request = elim (Dict.get key request.query) [
  | none ↦ default
  | some value ↦ value
]

unfoldable pub number_or : ℕ → Option ℕ → ℕ
number_or default none = default
number_or default (some n) = n

module _ {R : Type 0} where
  -- `NodeSpawner.remove`
  unfoldable pub remove_node : Text → NodeSpawner → LoadBalancer R → Answer × AdminState R
  unfolding admin_remove_backend
  remove_node address spawner lb = elim (Dict.get address spawner.procs) [
    | none ↦ (not_managed, record { lb = lb; spawner = some spawner })
    | some process ↦ (
      removed address,
      record {
        lb = (admin_remove_backend address lb).1;
        spawner = some (record spawner {
          procs = Dict.remove address spawner.procs;
          terminated = spawner.terminated ++ (process ∷ []);
        });
      },
    )
  ]

  -- `_stats`
  unfoldable pub stats_of : AdminState R → Answer
  unfolding admin_snapshot
  stats_of s = elim s.spawner [
    | none ↦ stats (admin_snapshot s.lb) [] false
    | some spawner ↦
        stats (admin_snapshot s.lb) (map (λ p. p.0) spawner.procs)
          (elim spawner.register_port [ none ↦ false | some port ↦ true ])
  ]

  -- `do_GET`: the status and the body
  unfoldable pub do_get : AdminRequest → AdminState R → ℕ × Answer
  unfolding stats_of
  do_get request s =
      if request.path == codes "/api/stats" || request.path == codes "/stats"
      then (200, stats_of s)
      else if request.path == codes "/"
          || request.path == codes "/api"
          || request.path == codes "/api/health"
      then (200, service)
      else (404, error_not_found)

  on_add : Launch → Option NodeSpawner → LoadBalancer R → Answer × AdminState R
  unfolding add_node
  on_add launch none lb = (spawning_disabled, record { lb = lb; spawner = none })
  on_add launch (some spawner) lb =
      let (answer, spawner') = add_node launch spawner in
      (answer, record { lb = lb; spawner = some spawner' })

  on_remove : Text → Option NodeSpawner → LoadBalancer R → Answer × AdminState R
  unfolding remove_node
  on_remove address none lb = (spawning_disabled, record { lb = lb; spawner = none })
  on_remove address (some spawner) lb = remove_node address spawner lb

  module _ (int : Text → Option ℕ) where
    on_simulate : AdminRequest → AdminState R → Answer × AdminState R
    unfolding value_or number_or admin_simulate
    on_simulate request s =
        let n = number_or 50 (int (value_or (codes "50") (codes "n") request)) in
        let (distribution, lb) = admin_simulate (max 1 (min n 1_000)) s.lb in
        (simulated distribution, record s { lb = lb })

    on_toggle : AdminRequest → AdminState R → Answer × AdminState R
    unfolding value_or admin_set_down
    on_toggle request s =
        let word = value_or (codes "1") (codes "down") request in
        let is_down =
          word == codes "1"
          || (word == codes "true" || (word == codes "True" || word == codes "yes")) in
        let (answer, lb) = admin_set_down (value_or [] (codes "address") request) is_down s.lb in
        (toggled answer, record s { lb = lb })

    on_add_clients : AdminRequest → AdminState R → Answer × AdminState R
    unfolding value_or number_or admin_add_clients
    on_add_clients request s =
        let n = number_or 30 (int (value_or (codes "30") (codes "n") request)) in
        let (answer, lb) = admin_add_clients n s.lb in (clients_added answer, record s { lb = lb })

    -- `do_POST`: the status, the body, and the state afterwards
    unfoldable pub do_post : AdminRequest → Launch → AdminState R → ℕ × (Answer × AdminState R)
    unfolding value_or on_simulate on_toggle on_add on_remove on_add_clients admin_clear_clients
    do_post request launch s =
        if request.path == codes "/api/simulate" || request.path == codes "/simulate"
        then (200, on_simulate request s)
        else if request.path == codes "/api/servers/toggle"
        then (200, on_toggle request s)
        else if request.path == codes "/api/servers/add"
        then (200, on_add launch s.spawner s.lb)
        else if request.path == codes "/api/servers/remove"
        then (200, on_remove (value_or [] (codes "address") request) s.spawner s.lb)
        else if request.path == codes "/api/clients/add"
        then (200, on_add_clients request s)
        else if request.path == codes "/api/clients/clear"
        then (200, (clients_cleared, record s { lb = admin_clear_clients s.lb }))
        else (404, (error_not_found, s))

    unfoldable pub do_posts : List (AdminRequest × Launch) → AdminState R → AdminState R
    unfolding do_post
    do_posts [] s = s
    do_posts ((request, launch) ∷ requests) s = do_posts requests (do_post request launch s).1.1
