-- ===== src/Ingress/LoadBalancer/Registration/Lease.antt =====
-- The lease of a registration: who registers last owns the backend, and the teardown of an earlier
-- connection changes nothing.
use mathlib.Core.Path.{subst⁻¹}
use clustertalk_githubaction.Prelude.{
  ◌∙◌, sym, ℕ, ◌+◌, ◌<◌, ◌≡◌, ◌≢◌, refl, arith, ap, Bool, true, false, none, some, List, [], ◌∷◌,
  ◌++◌, All, nat_beq, Text, ◌==◌, nat_eq, list_eq, text_eq_iff, ◌&&◌, Bool-cases, Option-cases, inl,
  inr,
}
use clustertalk_githubaction.Prelude.Dict
use clustertalk_githubaction.Prelude.Dict.{Dict}
use clustertalk_githubaction.Ingress.LoadBalancer.{
  cancel_relays, Backend, Redis, LoadBalancer, set_at, find_in, find_backend,
}
use clustertalk_githubaction.Ingress.LoadBalancer.Registration.{
  remove_from_pool, forget, register_dynamic_backend, disconnect_backend_clients,
  redis_delete_sticky_for_backend, deregister_dynamic_backend,
}

-- A new backend object gets a reference that none in the pool has.
abbrev pub IsAllocated : {R : Type 0} → LoadBalancer R → Type 0
IsAllocated lb = All (λ r. r < lb.next_ref) lb.backends

abbrev address_is : Text → ℕ → Backend → Bool
address_is host port b = b.host == host && nat_beq b.port port

-- What is found has the address.
find_in-address :
    (heap : ℕ → Backend) (host : Text) (port : ℕ) (refs : List ℕ) {r : ℕ}
    → find_in heap host port refs ≡ some r
    → address_is host port (heap r) ≡ true
unfolding find_in
find_in-address heap host port [] e = ground arith
find_in-address heap host port (q ∷ refs) e = elim (Bool-cases (address_is host port (heap q))) [
  | inl here ↦ ground (arith, here, e)
  | inr other ↦ find_in-address heap host port refs (ground (arith, other, e))
]

-- Writing to the object that is found, its address aside, finds it again.
find_in-again :
    (heap : ℕ → Backend) (host : Text) (port : ℕ) (refs : List ℕ) (r : ℕ) (b : Backend)
    → address_is host port b ≡ true
    → find_in heap host port refs ≡ some r
    → find_in (set_at r b heap) host port refs ≡ some r
unfolding find_in set_at
find_in-again heap host port [] r b same e = e
find_in-again heap host port (q ∷ refs) r b same e = elim (Bool-cases (nat_beq r q)) [
  | inl here ↦ rw here (rw same (ap some (ground (arith, here))))
  | inr other ↦ rw other (elim (Bool-cases (address_is host port (heap q))) [
    | inl found ↦ rw found (ground (arith, found, e))
    | inr not_found ↦
        rw not_found (find_in-again heap host port refs r b same (ground (arith, not_found, e)))
  ])
]

-- A new object at the end of the pool is found if no other is.
find_in-append :
    (heap : ℕ → Backend) (host : Text) (port : ℕ) (refs : List ℕ) (r : ℕ) (b : Backend)
    → address_is host port b ≡ true
    → All (λ q. q < r) refs
    → find_in heap host port refs ≡ none
    → find_in (set_at r b heap) host port (refs ++ (r ∷ [])) ≡ some r
unfolding find_in set_at
find_in-append heap host port [] r b same below e =
    let itself : nat_beq r r ≡ true = ground arith in rw itself (rw same refl)
find_in-append heap host port (q ∷ refs) r b same below e =
    elim (Bool-cases (address_is host port (heap q))) [
      | inl found ↦ absurd (ground (arith, found, e))
      | inr not_found ↦
          let apart : nat_beq r q ≡ false = ground (arith, below.0) in
          rw apart (
            rw not_found
              (find_in-append heap host port refs r b same below.1 (ground (arith, not_found, e))))
    ]

forget-absent : (r : ℕ) (sid : Text) (cache : Dict Text ℕ) → Dict.get sid (forget r cache) ≢ some r
unfolding forget Dict.get
forget-absent r sid [] e = ground arith
forget-absent r sid ((j, q) ∷ cache) e = elim (Bool-cases (nat_beq q r)) [
  | inl gone ↦ forget-absent r sid cache (ground (arith, gone, e))
  | inr kept ↦ elim (Bool-cases (j == sid)) [
    | inl here ↦ absurd (ground (arith, kept, here, e))
    | inr other ↦ forget-absent r sid cache (ground (arith, kept, other, e))
  ]
]

abbrev renewal : Backend → Backend
renewal b = record b {
  healthy = true;
  dynamic = true;
  registration_epoch = b.registration_epoch + 1;
}

abbrev newcomer : Text → ℕ → Backend
newcomer host port = record {
  host = host;
  port = port;
  healthy = true;
  dynamic = true;
  manual_down = false;
  registration_epoch = 1;
}

set_at-same : (r : ℕ) (b : Backend) (heap : ℕ → Backend) → set_at r b heap r ≡ b
unfolding set_at
set_at-same r b heap = ground arith

module _ {R : Type 0} where
  register-found :
      (host : Text) (port r : ℕ) (lb : LoadBalancer R)
      → find_backend host port lb ≡ some r
      → register_dynamic_backend host port lb ≡ (
        (r, (lb.heap r).registration_epoch + 1),
        record lb { heap = set_at r (renewal (lb.heap r)) lb.heap },
      )
  unfolding register_dynamic_backend
  register-found host port r lb here = rw (here, register_dynamic_backend)

  register-new :
      (host : Text) (port : ℕ) (lb : LoadBalancer R)
      → find_backend host port lb ≡ none
      → register_dynamic_backend host port lb ≡ (
        (lb.next_ref, 1),
        record lb {
          heap = set_at lb.next_ref (newcomer host port) lb.heap;
          next_ref = lb.next_ref + 1;
          backends = lb.backends ++ (lb.next_ref ∷ []);
        },
      )
  unfolding register_dynamic_backend
  register-new host port lb absent = rw (absent, register_dynamic_backend)

  -- The backend that the address names holds the lease that was given out, and may get traffic as
  -- far as its health goes.
  pub record Holds (host : Text) (port : ℕ) (lease : (ℕ × ℕ) × LoadBalancer R) : Type 0 where
    pub found : find_backend host port lease.1 ≡ some lease.0.0
    pub epoch : (lease.1.heap lease.0.0).registration_epoch ≡ lease.0.1
    pub healthy : (lease.1.heap lease.0.0).healthy ≡ true

  -- In a balancer whose references in use have been handed out, whether the address is known or
  -- new, a registration makes it name a healthy backend of the pool whose epoch is the one handed
  -- out.
  pub register-Holds :
      (host : Text) (port : ℕ) (lb : LoadBalancer R)
      → IsAllocated lb
      → Holds host port (register_dynamic_backend host port lb)
  unfolding find_backend
  register-Holds host port lb below = elim (Option-cases (find_backend host port lb)) [
    | inl absent ↦
        let b = newcomer host port in
        let same = set_at-same lb.next_ref b lb.heap in
        subst⁻¹ (Holds host port) (register-new host port lb absent) (record {
          found =
              find_in-append lb.heap host port lb.backends lb.next_ref b
                (ground (arith, text_eq_iff host host)) below absent;
          epoch = ap (λ x. x.registration_epoch) same;
          healthy = ap (λ x. x.healthy) same;
        })
    | inr (r, here) ↦
        let b = renewal (lb.heap r) in
        let same = set_at-same r b lb.heap in
        subst⁻¹ (Holds host port) (register-found host port r lb here) (record {
          found =
              find_in-again lb.heap host port lb.backends r b
                (find_in-address lb.heap host port lb.backends here) here;
          epoch = ap (λ x. x.registration_epoch) same;
          healthy = ap (λ x. x.healthy) same;
        })
  ]

abbrev pub reregister : {R : Type 0} → Text → ℕ → LoadBalancer R → (ℕ × ℕ) × LoadBalancer R
reregister host port lb =
    register_dynamic_backend host port (register_dynamic_backend host port lb).1

module _ {R : Type 0} (redis : Redis R) where
  cache-delete :
      (r : ℕ) (lb : LoadBalancer R)
      → ((redis_delete_sticky_for_backend redis r lb).sticky_cache ≡ forget r lb.sticky_cache)
        × ((redis_delete_sticky_for_backend redis r lb).callbacks ≡ lb.callbacks)
  unfolding redis_delete_sticky_for_backend
  cache-delete r lb = elim (Bool-cases lb.redis_available) [
    | inl up ↦ ground (arith, up)
    | inr down ↦ ground (arith, down)
  ]

  remove_from_pool-keeps :
      (r : ℕ) (lb : LoadBalancer R) → (remove_from_pool r lb).callbacks ≡ lb.callbacks
  unfolding remove_from_pool
  remove_from_pool-keeps r lb = ground arith

  deregister-current :
      (r : ℕ) (lb : LoadBalancer R)
      → deregister_dynamic_backend redis r (lb.heap r).registration_epoch lb
        ≡ disconnect_backend_clients r
            (redis_delete_sticky_for_backend redis r (remove_from_pool r lb))
  unfolding deregister_dynamic_backend
  deregister-current r lb =
      let itself : nat_beq (lb.heap r).registration_epoch (lb.heap r).registration_epoch ≡ true =
        ground arith in
      rw (itself, deregister_dynamic_backend)

  -- When the connection that holds the lease ends, no session stays stuck to the backend in the
  -- local cache, and the event loop is asked to cancel the relays through it.
  pub deregister-forgets :
      (r : ℕ) (lb : LoadBalancer R) (sid : Text)
      → (Dict.get sid
            (deregister_dynamic_backend redis r (lb.heap r).registration_epoch lb).sticky_cache
          ≢ some r)
        × ((deregister_dynamic_backend redis r (lb.heap r).registration_epoch lb).callbacks
            ≡ lb.callbacks ++ (cancel_relays r ∷ []))
  unfolding disconnect_backend_clients
  deregister-forgets r lb sid =
      let held = remove_from_pool r lb in
      let e = deregister-current r lb in
      let (cache, calls) = cache-delete r held in
      let kept = remove_from_pool-keeps r lb in
      (
        λ h.
            forget-absent r sid held.sticky_cache
              (ap (Dict.get sid) (sym cache) ∙ ap (λ x. Dict.get sid x.sticky_cache) (sym e) ∙ h),
        ap (λ x. x.callbacks) e ∙ ap (λ c. c ++ (cancel_relays r ∷ [])) (calls ∙ kept),
      )
