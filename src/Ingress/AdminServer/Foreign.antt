-- ===== src/Ingress/AdminServer/Foreign.antt =====
-- The dashboard takes no server out of the pool but those that it has launched itself.
use clustertalk_githubaction.Prelude.{
  ℕ, ◌≡◌, arith, Bool, true, false, ◌||◌, Option, none, some, List, [], ◌∷◌, if◌then◌else◌, Text,
  codes, ◌==◌, nat_eq, list_eq, text_eq_iff, Option-cases, inl, inr,
}
use clustertalk_githubaction.Prelude.Dict
use clustertalk_githubaction.Prelude.Dict.{Dict}
use clustertalk_githubaction.Ingress.Address.{address_str}
use clustertalk_githubaction.Ingress.LoadBalancer.{LoadBalancer}
use clustertalk_githubaction.Ingress.LoadBalancer.Admin.{admin_clear_clients}
use clustertalk_githubaction.Ingress.AdminServer.Pool.{
  IsPooled, admin_simulate-IsPooled, admin_add_clients-IsPooled, admin_remove_backend-IsPooled,
  admin_set_down-IsPooled,
}
use clustertalk_githubaction.Ingress.AdminServer.{
  NodeSpawner, AdminState, Answer, AdminRequest, Launch, loopback, add_node, remove_node, on_add,
  on_remove, on_simulate, on_toggle, on_add_clients, do_post, do_posts, value_or,
}

module _ (a b : Text) where
  has-put_other :
      (process : ℕ) (procs : Dict Text ℕ)
      → (b == a) ≡ false
      → Dict.has a procs ≡ false
      → Dict.has a (Dict.put b process procs) ≡ false
  has-put_other process procs apart absent = ground (
    arith,
    apart,
    absent,
    Dict.has-get a (Dict.put b process procs),
    Dict.has-get a procs,
    Dict.get-put b a process procs,
  )

  has-remove_other :
      (procs : Dict Text ℕ) → Dict.has a procs ≡ false → Dict.has a (Dict.remove b procs) ≡ false
  has-remove_other procs absent = ground (
    arith,
    absent,
    Dict.has-get a (Dict.remove b procs),
    Dict.has-get a procs,
    Dict.get-remove b a procs,
  )

  other_address :
      (process : ℕ) (procs : Dict Text ℕ)
      → Dict.get b procs ≡ some process
      → Dict.has a procs ≡ false
      → (a == b) ≡ false
  other_address process procs here absent =
      ground (arith, here, absent, Dict.has-get a procs, text_eq_iff a b)

-- Whether the dashboard has launched a server with the address, and not removed it
abbrev pub is_launched : Text → Option NodeSpawner → Bool
is_launched a none = false
is_launched a (some spawner) = Dict.has a spawner.procs

-- Each node that a request may launch has another address.
abbrev pub LaunchesElsewhere : Text → List (AdminRequest × Launch) → Type 0
LaunchesElsewhere a [] = Unit
LaunchesElsewhere a ((request, launch) ∷ requests) =
    ((address_str loopback launch.port == a) ≡ false) × LaunchesElsewhere a requests

module _ {R : Type 0} where
  pub record IsForeign (a : Text) (r : ℕ) (s : AdminState R) : Type 0 where
    pub in_pool : IsPooled a r s.lb
    pub foreign : is_launched a s.spawner ≡ false

  on_add-IsForeign :
      (a : Text) (r : ℕ) (launch : Launch) (spawner : Option NodeSpawner) (lb : LoadBalancer R)
      → (address_str loopback launch.port == a) ≡ false
      → IsForeign a r (record { lb = lb; spawner = spawner })
      → IsForeign a r (on_add launch spawner lb).1
  unfolding on_add add_node
  on_add-IsForeign a r launch none lb apart h = h
  on_add-IsForeign a r launch (some spawner) lb apart h =
      elim (Option-cases spawner.register_port) [
        | inl closed ↦ rw (closed, add_node) h
        | inr (port, here) ↦ elim (Option-cases launch.process) [
          | inl failed ↦ rw (here, failed, add_node) h
          | inr (process, started) ↦
              rw (here, started, add_node)
                (record {
                  in_pool = h.in_pool;
                  foreign =
                      has-put_other a (address_str loopback launch.port) process spawner.procs apart
                        h.foreign;
                })
        ]
      ]

  on_remove-IsForeign :
      (a : Text) (r : ℕ) (address : Text) (spawner : Option NodeSpawner) (lb : LoadBalancer R)
      → IsForeign a r (record { lb = lb; spawner = spawner })
      → IsForeign a r (on_remove address spawner lb).1
  unfolding on_remove remove_node
  on_remove-IsForeign a r address none lb h = h
  on_remove-IsForeign a r address (some spawner) lb h =
      elim (Option-cases (Dict.get address spawner.procs)) [
        | inl absent ↦ rw (absent, remove_node) h
        | inr (process, managed) ↦
            rw (managed, remove_node)
              (record {
                in_pool =
                    admin_remove_backend-IsPooled a r address lb
                      (other_address a address process spawner.procs managed h.foreign) h.in_pool;
                foreign = has-remove_other a address spawner.procs h.foreign;
              })
      ]

  module _ (int : Text → Option ℕ) where
    simulated-IsForeign :
        (a : Text) (r : ℕ) (request : AdminRequest) (s : AdminState R)
        → IsForeign a r s
        → IsForeign a r (on_simulate int request s).1
    unfolding on_simulate
    simulated-IsForeign a r request s h = record {
      in_pool = admin_simulate-IsPooled a r _ s.lb h.in_pool;
      foreign = h.foreign;
    }

    toggled-IsForeign :
        (a : Text) (r : ℕ) (request : AdminRequest) (s : AdminState R)
        → IsForeign a r s
        → IsForeign a r (on_toggle int request s).1
    unfolding on_toggle
    toggled-IsForeign a r request s h = record {
      in_pool = admin_set_down-IsPooled a r _ _ s.lb h.in_pool;
      foreign = h.foreign;
    }

    added-IsForeign :
        (a : Text) (r : ℕ) (request : AdminRequest) (s : AdminState R)
        → IsForeign a r s
        → IsForeign a r (on_add_clients int request s).1
    unfolding on_add_clients
    added-IsForeign a r request s h = record {
      in_pool = admin_add_clients-IsPooled a r _ s.lb h.in_pool;
      foreign = h.foreign;
    }

    cleared-IsForeign :
        (a : Text) (r : ℕ) (s : AdminState R)
        → IsForeign a r s
        → IsForeign a r (record s { lb = admin_clear_clients s.lb })
    unfolding admin_clear_clients
    cleared-IsForeign a r s h = record {
      in_pool = record { pooled = h.in_pool.pooled; addressed = h.in_pool.addressed };
      foreign = h.foreign;
    }

    do_post-IsForeign :
        (a : Text) (r : ℕ) (request : AdminRequest) (launch : Launch) (s : AdminState R)
        → (address_str loopback launch.port == a) ≡ false
        → IsForeign a r s
        → IsForeign a r (do_post int request launch s).1.1
    unfolding do_post on_simulate on_toggle on_add_clients admin_clear_clients
    do_post-IsForeign a r request launch s apart h =
        let path = request.path in
        either (path == codes "/api/simulate" || path == codes "/simulate") _ _
          (simulated-IsForeign a r request s h)
          (either (path == codes "/api/servers/toggle") _ _ (toggled-IsForeign a r request s h) (
            either (path == codes "/api/servers/add") _ _
              (on_add-IsForeign a r launch s.spawner s.lb apart h)
              (either (path == codes "/api/servers/remove") _ _
                (on_remove-IsForeign a r (value_or [] (codes "address") request) s.spawner s.lb h)
                (either (path == codes "/api/clients/add") _ _ (added-IsForeign a r request s h) (
                  either (path == codes "/api/clients/clear") _ _ (cleared-IsForeign a r s h) h)))))
      where
        either :
            (b : Bool) (o p : ℕ × (Answer × AdminState R))
            → IsForeign a r o.1.1
            → IsForeign a r p.1.1
            → IsForeign a r (if b then o else p).1.1
        either true o p first second = first
        either false o p first second = second

    -- A backend of the pool whose address is not that of a node that the dashboard has launched
    -- stays in the pool through any POST requests: taking servers down, removing them, launching
    -- nodes, and pretend clients and traffic. The nodes launched meanwhile have other addresses.
    pub do_posts-IsForeign :
        (a : Text) (r : ℕ) (requests : List (AdminRequest × Launch)) (s : AdminState R)
        → LaunchesElsewhere a requests
        → IsForeign a r s
        → IsForeign a r (do_posts int requests s)
    unfolding do_posts
    do_posts-IsForeign a r [] s apart h = h
    do_posts-IsForeign a r ((request, launch) ∷ requests) s (other, apart) h =
        do_posts-IsForeign a r requests (do_post int request launch s).1.1 apart
          (do_post-IsForeign a r request launch s other h)
