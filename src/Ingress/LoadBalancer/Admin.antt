-- ===== src/Ingress/LoadBalancer/Admin.antt =====
-- What the dashboard does to the balancer: taking a server down, removing it, pretend clients and
-- pretend traffic, and the route counters (ingress/lb.py, `_record_route` and `admin_…`).
pub mod Counts
pub mod Snapshot
pub mod Rows
use clustertalk_githubaction.Prelude.{
  ℕ, zero, suc, ◌+◌, ◌%◌, Bool, true, false, not, Option, none, some, List, [], ◌∷◌, ◌++◌, length,
  nat_beq, ltb, if◌then◌else◌, Text, codes, ◌==◌, nat_eq, list_eq, get_elem?, min, max,
}
use clustertalk_githubaction.Prelude.Dict
use clustertalk_githubaction.Prelude.Dict.{Dict}
use clustertalk_githubaction.Prelude.Sort.{filter}
use clustertalk_githubaction.Ingress.Address.{decimal}
use clustertalk_githubaction.Ingress.LoadBalancer.{
  invalidate_sticky, Backend, Callback, Client, LoadBalancer, routable, address_of, set_at,
}
use clustertalk_githubaction.Ingress.LoadBalancer.Clients.{
  no_client, rebalance_clients, routable_servers,
}
use clustertalk_githubaction.Ingress.LoadBalancer.Registration.{forget, disconnect_backend_clients}

-- The first backend of the pool with the address
unfoldable pub find_address : (ℕ → Backend) → Text → List ℕ → Option ℕ
unfolding address_of
find_address heap address [] = none
find_address heap address (r ∷ refs) =
    if address_of (heap r) == address then some r else find_address heap address refs

-- `self._sticky_cache` without the entries of an address
unfoldable pub forget_address : (ℕ → Backend) → Text → Dict Text ℕ → Dict Text ℕ
unfolding address_of
forget_address heap address [] = []
forget_address heap address ((sid, r) ∷ cache) =
    let rest = forget_address heap address cache in
    if address_of (heap r) == address then rest else (sid, r) ∷ rest

-- `d.get(key, 0)`
unfoldable pub counted : Text → Dict Text ℕ → ℕ
counted key counts = elim (Dict.get key counts) [ none ↦ 0 | some n ↦ n ]

-- `d[key] = d.get(key, 0) + 1`
unfoldable pub increment : Text → Dict Text ℕ → Dict Text ℕ
unfolding counted
increment key counts = Dict.put key (counted key counts + 1) counts

-- The pretend clients `c{seq}` from place `i` on, spread over the homes in turn
unfoldable pub pretend : List Text → ℕ → ℕ → ℕ → Dict Text Client → Dict Text Client
pretend homes i zero seq clients = clients
pretend homes i (suc n) seq clients =
    let home = get_elem? homes (i % length homes) in
    pretend homes (suc i) n (suc seq) (
      Dict.put (codes "c" ++ decimal seq) (record no_client { home = home; current = home })
        clients)

module _ {R : Type 0} where
  -- `_record_route`
  unfoldable pub record_route : ℕ → LoadBalancer R → LoadBalancer R
  unfolding increment address_of
  record_route r lb = record lb {
    route_counts = increment (address_of (lb.heap r)) lb.route_counts;
    total_routed = lb.total_routed + 1;
  }

  -- The sticky entries go, the invalidation in Redis and the disconnection are left to the loop.
  take_down : ℕ → LoadBalancer R → LoadBalancer R
  unfolding forget disconnect_backend_clients
  take_down r lb = disconnect_backend_clients r (record lb {
    sticky_cache = forget r lb.sticky_cache;
    callbacks = lb.callbacks ++ (invalidate_sticky r ∷ []);
  })

  -- `admin_set_down`: `some down` is the answer with `ok`, `none` the one for an unknown address.
  unfoldable pub admin_set_down : Text → Bool → LoadBalancer R → Option Bool × LoadBalancer R
  unfolding find_address set_at rebalance_clients take_down
  admin_set_down address down lb = elim (find_address lb.heap address lb.backends) [
    | none ↦ (none, lb)
    | some r ↦
        let b = record (lb.heap r) { manual_down = down } in
        let lb' = rebalance_clients (record lb { heap = set_at r b lb.heap }) in
        (some down, if down then take_down r lb' else lb')
  ]

  -- `admin_remove_backend`
  unfoldable pub admin_remove_backend : Text → LoadBalancer R → Bool × LoadBalancer R
  unfolding filter address_of rebalance_clients forget_address
  admin_remove_backend address lb =
      let left = filter (λ r. not (address_of (lb.heap r) == address)) lb.backends in
      let lb' = rebalance_clients (record lb { backends = left }) in
      if ltb (length left) (length lb.backends)
      then (true, record lb' { sticky_cache = forget_address lb'.heap address lb'.sticky_cache })
      else (false, record lb { backends = left })

  -- `admin_add_clients`: how many were added and how many there are, or `none` without a server
  unfoldable pub admin_add_clients : ℕ → LoadBalancer R → Option (ℕ × ℕ) × LoadBalancer R
  unfolding pretend routable_servers
  admin_add_clients n lb = elim (routable_servers lb.heap lb.backends) [
    | [] ↦ (none, lb)
    | ◌∷◌ a homes ↦
        let added = max 1 (min n 500) in
        let clients = pretend (a ∷ homes) 0 added lb.client_seq lb.clients in
        (
          some (added, length clients),
          record lb { clients = clients; client_seq = lb.client_seq + added },
        )
  ]

  -- `admin_clear_clients`
  unfoldable pub admin_clear_clients : LoadBalancer R → LoadBalancer R
  admin_clear_clients lb = record lb { clients = []; client_seq = 0 }

  -- The loop of `admin_simulate`, with `n` clients to go from place `i` on: the address of the
  -- server in turn is counted in the route counters and in the distribution.
  unfoldable pub simulate :
      List Text → ℕ → ℕ → Dict Text ℕ → LoadBalancer R → Dict Text ℕ × LoadBalancer R
  unfolding increment
  simulate servers i zero distribution lb = (distribution, lb)
  simulate servers i (suc n) distribution lb = elim (get_elem? servers (i % length servers)) [
    | none ↦ (distribution, lb)
    | some a ↦ simulate servers (suc i) n (increment a distribution) (record lb {
      route_counts = increment a lb.route_counts;
      total_routed = lb.total_routed + 1;
    })
  ]

  -- `admin_simulate`: the distribution, or `none` without a healthy server
  unfoldable pub admin_simulate : ℕ → LoadBalancer R → Option (Dict Text ℕ) × LoadBalancer R
  unfolding simulate routable_servers
  admin_simulate n lb = elim (routable_servers lb.heap lb.backends) [
    | [] ↦ (none, lb)
    | ◌∷◌ a servers ↦
        let (distribution, lb') = simulate (a ∷ servers) 0 n [] lb in (some distribution, lb')
  ]
