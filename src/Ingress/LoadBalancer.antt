-- ===== src/Ingress/LoadBalancer.antt =====
-- `LoadBalancer` of ingress/lb.py: its state, sticky lookup and the choice of a backend. Backend
-- objects are shared between the pool, the sticky cache and running handlers, so they stand on a
-- heap and are named by references. Redis is a parameter.
pub mod Routing
pub mod Clients
pub mod Registration
pub mod Admin
pub mod Handshake
pub mod Relay
use clustertalk_githubaction.Prelude.{
  ℕ, zero, suc, ◌+◌, ◌%◌, Bool, true, false, not, ◌&&◌, ◌||◌, Option, none, some, List, [], ◌∷◌,
  ◌++◌, length, get_elem?, nat_beq, if◌then◌else◌, Text, codes, ◌==◌, nat_eq, list_eq,
}
use clustertalk_githubaction.Prelude.Dict
use clustertalk_githubaction.Prelude.Dict.{Dict}
use clustertalk_githubaction.Ingress.Address.{address_str, parse_address}

pub record Backend : Type 0 where
  pub host : Text
  pub port : ℕ
  pub healthy : Bool
  pub dynamic : Bool
  pub manual_down : Bool
  pub registration_epoch : ℕ

unfoldable pub routable : Backend → Bool
routable b = b.healthy && not b.manual_down

unfoldable pub address_of : Backend → Text
address_of b = address_str b.host b.port

-- An entry of `_clients`; a key that the entry lacks is `none`, and `active` is then true.
pub record Client : Type 0 where
  pub home : Option Text
  pub current : Option Text
  pub active : Bool
  pub backend : Option Text
  pub session_id : Option Text
  pub peer : Option Text
  pub connection_id : Option Text

-- The commands of Redis that the balancer uses; `none` is an error of the connection.
pub record Redis (R : Type 0) : Type 0 where
  pub read : Text → R → Option (Option Text)
  pub write : Text → Text → R → Option R
  pub scan : R → Option (List Text)
  pub delete : List Text → R → Option R

-- The two callbacks that the balancer hands to the event loop, with their backend:
-- `_redis_delete_sticky_for_backend` and `_cancel_relay_tasks`
pub data Callback : Type 0 where
  invalidate_sticky : ℕ → Callback
  cancel_relays : ℕ → Callback

pub record LoadBalancer (R : Type 0) : Type 0 where
  pub heap : ℕ → Backend
  pub next_ref : ℕ
  pub backends : List ℕ
  pub rr_index : ℕ
  pub route_counts : Dict Text ℕ
  pub total_routed : ℕ
  pub clients : Dict Text Client
  pub client_seq : ℕ
  pub sticky_cache : Dict Text ℕ
  pub redis_available : Bool
  pub store : R
  -- what `call_soon_threadsafe` handed to the event loop, the latest last
  pub callbacks : List Callback

-- A write to an object
unfoldable pub set_at : ℕ → Backend → (ℕ → Backend) → ℕ → Backend
set_at r b heap q = if nat_beq r q then b else heap q

bool_eq : Bool → Bool → Bool
bool_eq true b = b
bool_eq false b = not b

-- Python's `==` on the dataclass, after the test of identity that `in` and `remove` make first
unfoldable pub same_backend : (ℕ → Backend) → ℕ → ℕ → Bool
unfolding bool_eq
same_backend heap r q =
    let a = heap r in
    let b = heap q in
    nat_beq r q
    || (a.host == b.host
        && nat_beq a.port b.port
        && bool_eq a.healthy b.healthy
        && bool_eq a.dynamic b.dynamic
        && bool_eq a.manual_down b.manual_down
        && nat_beq a.registration_epoch b.registration_epoch)

-- `r in refs`
unfoldable pub among : (ℕ → Backend) → ℕ → List ℕ → Bool
unfolding same_backend
among heap r [] = false
among heap r (q ∷ refs) = same_backend heap q r || among heap r refs

abbrev pub sticky_key_prefix : Text
sticky_key_prefix = codes "ct:sticky:"

find_in : (ℕ → Backend) → Text → ℕ → List ℕ → Option ℕ
find_in heap host port [] = none
find_in heap host port (r ∷ refs) =
    if (heap r).host == host && nat_beq (heap r).port port
    then some r
    else find_in heap host port refs

-- `[b for b in self._backends if b.routable and b not in excluded]`
unfoldable pub candidates : (ℕ → Backend) → List ℕ → List ℕ → List ℕ
unfolding among routable
candidates heap excluded [] = []
candidates heap excluded (r ∷ refs) =
    let rest = candidates heap excluded refs in
    if routable (heap r) && not (among heap r excluded) then r ∷ rest else rest

module _ {R : Type 0} where
  unfoldable pub find_backend : Text → ℕ → LoadBalancer R → Option ℕ
  unfolding find_in
  find_backend host port lb = find_in lb.heap host port lb.backends

  -- A backend found by the address in Redis is used and cached if it is routable.
  use_found : Text → Option ℕ → LoadBalancer R → Option ℕ × LoadBalancer R
  unfolding routable
  use_found sid none lb = (none, lb)
  use_found sid (some r) lb =
      if routable (lb.heap r)
      then (some r, record lb { sticky_cache = Dict.put sid r lb.sticky_cache })
      else (none, lb)

  use_address : Text → Option (Text × ℕ) → LoadBalancer R → Option ℕ × LoadBalancer R
  unfolding use_found find_backend
  use_address sid none lb = (none, lb)
  use_address sid (some (host, port)) lb = use_found sid (find_backend host port lb) lb

  use_reply : Text → Option (Option Text) → LoadBalancer R → Option ℕ × LoadBalancer R
  unfolding use_address
  use_reply sid none lb = (none, lb)
  use_reply sid (some none) lb = (none, lb)
  use_reply sid (some (some value)) lb = use_address sid (parse_address value) lb

  -- The local cache: only a routable backend is a hit.
  unfoldable pub cached_sticky : Text → LoadBalancer R → Option ℕ
  unfolding routable
  cached_sticky sid lb = elim (Dict.get sid lb.sticky_cache) [
    | none ↦ none
    | some r ↦ if routable (lb.heap r) then some r else none
  ]

  pub choose : List ℕ → LoadBalancer R → Option ℕ × LoadBalancer R
  choose [] lb = (none, lb)
  choose (r ∷ rs) lb =
      (get_elem? (r ∷ rs) (lb.rr_index % length (r ∷ rs)), record lb { rr_index = lb.rr_index + 1 })

  -- The round-robin half of `_pick_backend`
  unfoldable pub round_robin : List ℕ → LoadBalancer R → Option ℕ × LoadBalancer R
  unfolding choose
  round_robin excluded lb = choose (candidates lb.heap excluded lb.backends) lb

  -- A sticky backend is used unless it is excluded.
  prefer : Option ℕ → List ℕ → LoadBalancer R → Option ℕ × LoadBalancer R
  unfolding among round_robin
  prefer none excluded lb = round_robin excluded lb
  prefer (some r) excluded lb =
      if among lb.heap r excluded then round_robin excluded lb else (some r, lb)

module _ {R : Type 0} (redis : Redis R) where
  ask_redis : Text → LoadBalancer R → Option ℕ × LoadBalancer R
  unfolding use_reply
  ask_redis sid lb =
      if lb.redis_available
      then use_reply sid (redis.read (sticky_key_prefix ++ sid) lb.store) lb
      else (none, lb)

  -- `_redis_get_sticky`
  unfoldable pub redis_get_sticky : Text → LoadBalancer R → Option ℕ × LoadBalancer R
  unfolding ask_redis cached_sticky
  redis_get_sticky sid lb = elim (cached_sticky sid lb) [
    | some r ↦ (some r, lb)
    | none ↦ ask_redis sid lb
  ]

  written : Option R → LoadBalancer R → LoadBalancer R
  written none lb = lb
  written (some store) lb = record lb { store = store }

  -- `_redis_set_sticky`: the cache is always written, and an error of Redis is swallowed.
  unfoldable pub redis_set_sticky : Text → ℕ → LoadBalancer R → LoadBalancer R
  unfolding written address_of
  redis_set_sticky sid r lb =
      let lb' = record lb { sticky_cache = Dict.put sid r lb.sticky_cache } in
      if lb.redis_available
      then written (redis.write (sticky_key_prefix ++ sid) (address_of (lb.heap r)) lb.store) lb'
      else lb'

  -- `_pick_backend`
  unfoldable pub pick_backend : Option Text → List ℕ → LoadBalancer R → Option ℕ × LoadBalancer R
  unfolding redis_get_sticky round_robin prefer
  pick_backend none excluded lb = round_robin excluded lb
  pick_backend (some sid) excluded lb =
      let (sticky, lb') = redis_get_sticky sid lb in prefer sticky excluded lb'
