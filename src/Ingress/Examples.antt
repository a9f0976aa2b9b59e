-- ===== src/Ingress/Examples.antt =====
-- A balancer with two backends, one of them down, two clients and a Redis that is a dict.
use clustertalk_githubaction.Ingress.LoadBalancer.Handshake.Connect.{try_backends-accepts}
use clustertalk_githubaction.Ingress.LoadBalancer.Handshake.{Caller, try_backends}
use clustertalk_githubaction.Ingress.LoadBalancer.Admin.Snapshot.{admin_snapshot}
use clustertalk_githubaction.Ingress.LoadBalancer.Admin.Rows.{
  counted_row, admin_snapshot-counted_row,
}
use clustertalk_githubaction.Prelude.{
  map, ap, ℕ, ◌+◌, ◌≡◌, ◌≢◌, refl, arith, Bool, true, false, none, some, List, [], ◌∷◌, Text, codes,
  nat_beq, if◌then◌else◌, nat_eq, list_eq,
}
use clustertalk_githubaction.Prelude.Dict
use clustertalk_githubaction.Prelude.Dict.{Dict}
use clustertalk_githubaction.Prelude.Set
use clustertalk_githubaction.Prelude.Sort
use clustertalk_githubaction.Ingress.LoadBalancer.{
  Backend, Client, Redis, LoadBalancer, routable, among, pick_backend,
}
use clustertalk_githubaction.Ingress.LoadBalancer.Routing.{
  IsUsable, pick_backend-IsUsable, pick_backend-sticky,
}
use clustertalk_githubaction.Ingress.LoadBalancer.Clients.{
  no_client, routable_servers, rebalance_clients,
}
use clustertalk_githubaction.Ingress.LoadBalancer.Clients.Rebalance.{Placement, rebalance-Placement}

remove_all : List Text → Dict Text Text → Dict Text Text
remove_all [] store = store
remove_all (k ∷ ks) store = remove_all ks (Dict.remove k store)

keys_of : Dict Text Text → List Text
keys_of [] = []
keys_of ((k, v) ∷ store) = k ∷ keys_of store

abbrev toy_redis : Redis (Dict Text Text)
toy_redis = record {
  read = λ k store. some (Dict.get k store);
  write = λ k v store. some (Dict.put k v store);
  scan = λ store. some (keys_of store);
  delete = λ ks store. some (remove_all ks store);
}

abbrev pub node_at : ℕ → Bool → Backend
node_at port healthy = record {
  host = codes "n";
  port = port;
  healthy = healthy;
  dynamic = false;
  manual_down = false;
  registration_epoch = 0;
}

abbrev some_heap : ℕ → Backend
some_heap r = if nat_beq r 0 then node_at 1 false else node_at 2 true

abbrev pub some_balancer : LoadBalancer (Dict Text Text)
some_balancer = record {
  heap = some_heap;
  next_ref = 2;
  backends = 0 ∷ 1 ∷ [];
  rr_index = 0;
  route_counts = [];
  total_routed = 0;
  clients = (codes "c0", no_client) ∷ [];
  client_seq = 1;
  sticky_cache = (codes "s", 1) ∷ [];
  redis_available = true;
  store = [];
  callbacks = [];
}

one-IsUsable : IsUsable some_heap (0 ∷ []) 1
unfolding routable among
one-IsUsable = (refl, refl)

one_in_pool : Set.contains 1 some_balancer.backends ≡ true
unfolding Set.contains
one_in_pool = refl

sticky_one : Dict.get (codes "s") some_balancer.sticky_cache ≡ some 1
unfolding Dict.get
sticky_one = refl

picked_one : (pick_backend toy_redis (some (codes "s")) (0 ∷ []) some_balancer).0 ≡ some 1
picked_one =
    ap (λ x. x.0)
      (pick_backend-sticky toy_redis (codes "s") (0 ∷ []) some_balancer 1 sticky_one one-IsUsable)

pick_backend-IsUsable_example : IsUsable some_heap (0 ∷ []) 1
pick_backend-IsUsable_example =
    pick_backend-IsUsable toy_redis (some (codes "s")) (0 ∷ []) some_balancer 1 picked_one

c0_held : Dict.get (codes "c0") some_balancer.clients ≡ some no_client
unfolding Dict.get
c0_held = refl

rebalance-Placement_example :
    (c' : Client) × (Dict.get (codes "c0") (rebalance_clients some_balancer).clients ≡ some c')
    × Placement (routable_servers some_heap (0 ∷ 1 ∷ [])) no_client c'
unfolding Dict.get
rebalance-Placement_example =
    rebalance-Placement some_balancer (codes "c0") no_client (refl, tt) c0_held

old_ne_new : codes "x" ≢ codes "y"
old_ne_new e = ground (arith, e)

servers_up : routable_servers some_heap (0 ∷ 1 ∷ []) ≢ []
unfolding routable_servers Sort.filter routable
servers_up e = ground (arith, e)

-- Both nodes are up, and only the second accepts connections.
abbrev both_up : LoadBalancer (Dict Text Text)
both_up = record some_balancer { heap = λ r. node_at (r + 1) true }

try_backends-accepts_example :
    (s : ℕ) × (lb' : LoadBalancer (Dict Text Text)) × (try_backends toy_redis
        (λ r. nat_beq r 1)
        2
        none
        []
        0
        both_up
      ≡ (some s, lb'))
    × (nat_beq s 1 ≡ true)
unfolding Set.contains routable
try_backends-accepts_example =
    try_backends-accepts toy_redis (λ r. nat_beq r 1) 2 [] 0 1 both_up refl refl refl refl refl tt
      (omega arith)

abbrev some_caller : Caller
some_caller = record {
  peer = (codes "p", 5);
  connection_id = codes "p:5:0";
  client_key = codes "p:5";
}

admin_snapshot-counted_row_example :
    (admin_snapshot some_balancer).servers ≡ map (counted_row some_balancer) some_balancer.backends
admin_snapshot-counted_row_example = admin_snapshot-counted_row some_balancer
