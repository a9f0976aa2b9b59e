-- ===== src/Ingress/AdminServer/Pool.antt =====
-- What the operator's commands leave in the pool.
use clustertalk_githubaction.Prelude.{
  ℕ, zero, suc, ◌+◌, ◌%◌, length, ◌≡◌, refl, arith, Bool, true, false, not, List, [], ◌∷◌, Text,
  ◌==◌, nat_eq, list_eq, ltb, nat_beq_iff, Bool-cases, Option-cases, inl, inr, get_elem?, ◌∙◌,
}
use clustertalk_githubaction.Prelude.Dict.{Dict}
use clustertalk_githubaction.Prelude.Set
use clustertalk_githubaction.Prelude.Sort.{filter}
use clustertalk_githubaction.Ingress.LoadBalancer.{LoadBalancer, Backend, address_of, set_at}
use clustertalk_githubaction.Ingress.LoadBalancer.Clients.{rebalance_clients, routable_servers}
use clustertalk_githubaction.Ingress.LoadBalancer.Admin.{
  admin_set_down, admin_remove_backend, admin_add_clients, admin_simulate, simulate, find_address,
  increment,
}

contains-filter :
    (keep : ℕ → Bool) (r : ℕ) (refs : List ℕ)
    → keep r ≡ true
    → Set.contains r refs ≡ true
    → Set.contains r (filter keep refs) ≡ true
unfolding filter Set.contains
contains-filter keep r [] kept here = here
contains-filter keep r (q ∷ refs) kept here =
    ground (arith, here, kept, contains-filter keep r refs kept, nat_beq_iff q r)

address_of-set_at :
    (q r : ℕ) (down : Bool) (heap : ℕ → Backend)
    → address_of (set_at q (record (heap q) { manual_down = down }) heap r) ≡ address_of (heap r)
unfolding address_of set_at
address_of-set_at q r down heap = ground (arith, nat_beq_iff q r)

module _ {R : Type 0} where
  -- The backend `r` stands in the pool, and its address is `a`.
  pub record IsPooled (a : Text) (r : ℕ) (lb : LoadBalancer R) : Type 0 where
    pub pooled : Set.contains r lb.backends ≡ true
    pub addressed : address_of (lb.heap r) ≡ a

  simulate-IsPooled :
      (a : Text) (r : ℕ) (servers : List Text) (i n : ℕ) (d : Dict Text ℕ) (lb : LoadBalancer R)
      → IsPooled a r lb
      → IsPooled a r (simulate servers i n d lb).1
  unfolding simulate
  simulate-IsPooled a r servers i zero d lb h = h
  simulate-IsPooled a r servers i (suc n) d lb h =
      elim (Option-cases (get_elem? servers (i % length servers))) [
        | inl nobody ↦ rw (nobody, simulate) h
        | inr (x, turn) ↦
            rw (turn, simulate)
              (simulate-IsPooled a r servers (suc i) n (increment x d)
                (record lb {
                  route_counts = increment x lb.route_counts;
                  total_routed = lb.total_routed + 1;
                })
                (record { pooled = h.pooled; addressed = h.addressed }))
      ]

  pub admin_simulate-IsPooled :
      (a : Text) (r n : ℕ) (lb : LoadBalancer R)
      → IsPooled a r lb
      → IsPooled a r (admin_simulate n lb).1
  unfolding admin_simulate
  admin_simulate-IsPooled a r n lb h = by_servers (routable_servers lb.heap lb.backends) refl
    where
      by_servers :
          (servers : List Text)
          → routable_servers lb.heap lb.backends ≡ servers
          → IsPooled a r (admin_simulate n lb).1
      by_servers [] these = rw (these, admin_simulate) h
      by_servers (x ∷ xs) these =
          rw (these, admin_simulate) (simulate-IsPooled a r (x ∷ xs) 0 n [] lb h)

  pub admin_add_clients-IsPooled :
      (a : Text) (r n : ℕ) (lb : LoadBalancer R)
      → IsPooled a r lb
      → IsPooled a r (admin_add_clients n lb).1
  unfolding admin_add_clients
  admin_add_clients-IsPooled a r n lb h = by_servers (routable_servers lb.heap lb.backends) refl
    where
      by_servers :
          (servers : List Text)
          → routable_servers lb.heap lb.backends ≡ servers
          → IsPooled a r (admin_add_clients n lb).1
      by_servers [] these = rw (these, admin_add_clients) h
      by_servers (x ∷ xs) these =
          rw (these, admin_add_clients) (record { pooled = h.pooled; addressed = h.addressed })

  pub admin_remove_backend-IsPooled :
      (a : Text) (r : ℕ) (address : Text) (lb : LoadBalancer R)
      → (a == address) ≡ false
      → IsPooled a r lb
      → IsPooled a r (admin_remove_backend address lb).1
  unfolding admin_remove_backend rebalance_clients
  admin_remove_backend-IsPooled a r address lb other h =
      let keep : ℕ → Bool = λ q. not (address_of (lb.heap q) == address) in
      let kept = contains-filter keep r lb.backends (ground (arith, other, h.addressed)) h.pooled in
      elim (Bool-cases (ltb (length (filter keep lb.backends)) (length lb.backends))) [
        | inl fewer ↦
            rw (fewer, admin_remove_backend) (record { pooled = kept; addressed = h.addressed })
        | inr same ↦
            rw (same, admin_remove_backend) (record { pooled = kept; addressed = h.addressed })
      ]

  pub admin_set_down-IsPooled :
      (a : Text) (r : ℕ) (address : Text) (down : Bool) (lb : LoadBalancer R)
      → IsPooled a r lb
      → IsPooled a r (admin_set_down address down lb).1
  unfolding admin_set_down rebalance_clients set_at
  admin_set_down-IsPooled a r address down lb h =
      elim (Option-cases (find_address lb.heap address lb.backends)) [
        | inl unknown ↦ rw (unknown, admin_set_down) h
        | inr (q, found) ↦ elim (Bool-cases down) [
          | inl on ↦
              rw (found, on, admin_set_down)
                (record {
                  pooled = h.pooled;
                  addressed = address_of-set_at q r true lb.heap ∙ h.addressed;
                })
          | inr off ↦
              rw (found, off, admin_set_down)
                (record {
                  pooled = h.pooled;
                  addressed = address_of-set_at q r false lb.heap ∙ h.addressed;
                })
        ]
      ]
