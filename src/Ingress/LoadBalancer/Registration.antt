-- ===== src/Ingress/LoadBalancer/Registration.antt =====
-- Nodes that come and go: registration, the end of a registration, health checks, and the sticky
-- entries of a backend that is gone (ingress/lb.py). The event loop is running, so a call of
-- `_disconnect_backend_clients` hands it a callback.
pub mod Lease
pub mod Handler
use clustertalk_githubaction.Prelude.{
  ℕ, ◌+◌, Bool, true, false, not, ◌&&◌, ◌||◌, Option, none, some, List, [], ◌∷◌, ◌++◌, nat_beq,
  if◌then◌else◌, Text, ◌==◌, nat_eq, list_eq,
}
use clustertalk_githubaction.Prelude.Dict
use clustertalk_githubaction.Prelude.Dict.{Dict}
use clustertalk_githubaction.Ingress.LoadBalancer.{
  cancel_relays, Backend, Callback, Redis, LoadBalancer, address_of, set_at, bool_eq, same_backend,
  among, find_backend, sticky_key_prefix,
}
use clustertalk_githubaction.Ingress.LoadBalancer.Clients.{rebalance_clients}

-- `{sid: b for sid, b in self._sticky_cache.items() if b is not backend}`
unfoldable pub forget : ℕ → Dict Text ℕ → Dict Text ℕ
forget r [] = []
forget r ((sid, q) ∷ cache) =
    let rest = forget r cache in if nat_beq q r then rest else (sid, q) ∷ rest

-- `self._backends.remove(backend)`: the first element that is equal
unfoldable pub remove_first : (ℕ → Backend) → ℕ → List ℕ → List ℕ
unfolding same_backend
remove_first heap r [] = []
remove_first heap r (q ∷ refs) =
    let rest = q ∷ remove_first heap r refs in if same_backend heap q r then refs else rest

module _ {R : Type 0} where
  -- `_disconnect_backend_clients`
  unfoldable pub disconnect_backend_clients : ℕ → LoadBalancer R → LoadBalancer R
  disconnect_backend_clients r lb = record lb { callbacks = lb.callbacks ++ (cancel_relays r ∷ []) }

  -- `_register_dynamic_backend`
  unfoldable pub register_dynamic_backend : Text → ℕ → LoadBalancer R → (ℕ × ℕ) × LoadBalancer R
  unfolding find_backend set_at
  register_dynamic_backend host port lb = elim (find_backend host port lb) [
    | some r ↦
        let existing = lb.heap r in
        let epoch = existing.registration_epoch + 1 in
        let renewed = record existing {
          healthy = true;
          dynamic = true;
          registration_epoch = epoch;
        } in
        ((r, epoch), record lb { heap = set_at r renewed lb.heap })
    | none ↦
        let r = lb.next_ref in
        let backend : Backend = record {
          host = host;
          port = port;
          healthy = true;
          dynamic = true;
          manual_down = false;
          registration_epoch = 1;
        } in
        (
          (r, 1),
          record lb {
            heap = set_at r backend lb.heap;
            next_ref = r + 1;
            backends = lb.backends ++ (r ∷ []);
          },
        )
  ]

  -- The loop of `_handle_registration` on a NODE_STATUS frame
  unfoldable pub node_status : ℕ → Bool → LoadBalancer R → LoadBalancer R
  unfolding set_at
  node_status r healthy lb = record lb {
    heap = set_at r (record (lb.heap r) { healthy = healthy }) lb.heap;
  }

  -- `_check_backend` once the probe is over: `was_healthy` was read before it, `answered` is its
  -- outcome.
  unfoldable pub check_backend : ℕ → Bool → Bool → LoadBalancer R → LoadBalancer R
  unfolding set_at bool_eq disconnect_backend_clients rebalance_clients
  check_backend r was_healthy answered lb =
      let lb' = record lb { heap = set_at r (record (lb.heap r) { healthy = answered }) lb.heap } in
      if bool_eq answered was_healthy
      then lb'
      else rebalance_clients (if answered then lb' else disconnect_backend_clients r lb')

module _ {R : Type 0} where
  -- `if backend in self._backends: self._backends.remove(backend)`
  unfoldable pub remove_from_pool : ℕ → LoadBalancer R → LoadBalancer R
  unfolding among remove_first
  remove_from_pool r lb =
      if among lb.heap r lb.backends
      then record lb { backends = remove_first lb.heap r lb.backends }
      else lb

module _ {R : Type 0} (redis : Redis R) where
  -- The keys whose value is the address; a value may be gone by the time it is read.
  keys_to_delete : Text → R → List Text → Option (List Text)
  keys_to_delete target store [] = some []
  keys_to_delete target store (key ∷ keys) = elim (redis.read key store) [
    | none ↦ none
    | some value ↦ elim (keys_to_delete target store keys) [
      | none ↦ none
      | some rest ↦ elim value [
        | none ↦ some rest
        | some v ↦ if v == target then some (key ∷ rest) else some rest
      ]
    ]
  ]

  deleted : R → Option R → R
  deleted store none = store
  deleted store (some store') = store'

  delete_keys : R → Option (List Text) → R
  unfolding deleted
  delete_keys store none = store
  delete_keys store (some []) = store
  delete_keys store (some (key ∷ keys)) = deleted store (redis.delete (key ∷ keys) store)

  scan_keys : Text → R → Option (List Text) → R
  unfolding delete_keys keys_to_delete
  scan_keys target store none = store
  scan_keys target store (some keys) = delete_keys store (keys_to_delete target store keys)

  -- `_redis_delete_sticky_for_backend`: an error of Redis on the way is swallowed.
  unfoldable pub redis_delete_sticky_for_backend : ℕ → LoadBalancer R → LoadBalancer R
  unfolding forget scan_keys address_of
  redis_delete_sticky_for_backend r lb =
      let lb' = record lb { sticky_cache = forget r lb.sticky_cache } in
      if lb.redis_available
      then record lb' { store = scan_keys (address_of (lb.heap r)) lb.store (redis.scan lb.store) }
      else lb'

  -- `_deregister_dynamic_backend`
  unfoldable pub deregister_dynamic_backend : ℕ → ℕ → LoadBalancer R → LoadBalancer R
  unfolding remove_from_pool redis_delete_sticky_for_backend disconnect_backend_clients
  deregister_dynamic_backend r epoch lb =
      if nat_beq epoch (lb.heap r).registration_epoch
      then disconnect_backend_clients r (redis_delete_sticky_for_backend r (remove_from_pool r lb))
      else lb
