-- ===== src/Ingress/LoadBalancer/Handshake/Connect.antt =====
-- A client that names no session is taken whenever a usable backend accepts connections.
use clustertalk_githubaction.Ingress.LoadBalancer.Handshake.{tried_next, try_backends, mark_failed}
use clustertalk_githubaction.Ingress.LoadBalancer.Registration.{disconnect_backend_clients}
use clustertalk_githubaction.Ingress.LoadBalancer.Routing.{
  pick_backend-some, pick_backend-IsUsable, choose_usable, IsUsable,
}
use clustertalk_githubaction.Prelude.{
  ◌≢◌, ◌&&◌, not, none, some, ap, Bool, [], if◌then◌else◌, ℕ, ◌≤◌, ◌<◌, ◌∷◌, ◌≡◌, All, inr, inl,
  Bool-cases, List, false, true, refl, arith, zero, suc, nat_eq,
}
use mathlib.Core.Path.{subst⁻¹}
use clustertalk_githubaction.Prelude.Set
use clustertalk_githubaction.Ingress.LoadBalancer.{
  LoadBalancer, choose, round_robin, pick_backend, Redis, candidates, nat_beq, bool_eq,
  same_backend, routable, among, Backend, set_at,
}

-- How many backends of a list are routable
abbrev pub count_routable : (ℕ → Backend) → List ℕ → ℕ
count_routable heap [] = 0
count_routable heap (r ∷ refs) =
    if routable (heap r) then suc (count_routable heap refs) else count_routable heap refs

abbrev pub down_at : ℕ → (ℕ → Backend) → ℕ → Backend
down_at r heap = set_at r (record (heap r) { healthy = false }) heap

routable-down_at :
    (r q : ℕ) (heap : ℕ → Backend)
    → routable (down_at r heap q) ≡ (if nat_beq r q then false else routable (heap q))
unfolding set_at routable
routable-down_at r q heap = ground arith

count_routable-down_at :
    (r : ℕ) (heap : ℕ → Backend) (refs : List ℕ)
    → count_routable (down_at r heap) refs ≤ count_routable heap refs
count_routable-down_at r heap [] = omega arith
count_routable-down_at r heap (q ∷ refs) =
    ground (arith, routable-down_at r q heap, count_routable-down_at r heap refs)

-- A routable backend of the list that goes down is one less.
count_routable-lt :
    (r : ℕ) (heap : ℕ → Backend) (refs : List ℕ)
    → Set.contains r refs ≡ true
    → routable (heap r) ≡ true
    → count_routable (down_at r heap) refs < count_routable heap refs
unfolding Set.contains
count_routable-lt r heap [] here up = ground arith
count_routable-lt r heap (q ∷ refs) here up = elim (Bool-cases (nat_beq q r)) [
  | inl equal ↦
      let same : q ≡ r = ground (arith, equal) in
      rw same (ground (arith, up, routable-down_at r r heap, count_routable-down_at r heap refs))
  | inr other ↦ ground (
    arith,
    other,
    routable-down_at r q heap,
    count_routable-lt r heap refs (ground (arith, here, other)) up,
  )
]

bool_eq-true : (a b : Bool) → bool_eq a b ≡ true → a ≡ b
unfolding bool_eq
bool_eq-true true true e = refl
bool_eq-true true false e = ground (arith, e)
bool_eq-true false true e = ground (arith, e)
bool_eq-true false false e = refl

-- Backends of which one is routable and the other not are not equal.
same_backend-routable :
    (heap : ℕ → Backend) (r q : ℕ)
    → routable (heap r) ≡ false
    → routable (heap q) ≡ true
    → same_backend heap r q ≡ false
unfolding same_backend routable
same_backend-routable heap r q d up = elim (Bool-cases (nat_beq r q)) [
  | inl equal ↦
      let same : r ≡ q = ground (arith, equal) in
      let moved = ap (λ x. routable (heap x)) same in absurd (ground (arith, d, up, moved))
  | inr other ↦ ground (
    arith,
    other,
    d,
    up,
    bool_eq-true (heap r).healthy (heap q).healthy,
    bool_eq-true (heap r).manual_down (heap q).manual_down,
  )
]

-- Backends that are all down exclude no routable one.
abbrev pub AreDown : (ℕ → Backend) → List ℕ → Type 0
AreDown heap refs = All (λ r. routable (heap r) ≡ false) refs

among-AreDown :
    (heap : ℕ → Backend) (q : ℕ) (refs : List ℕ)
    → AreDown heap refs
    → routable (heap q) ≡ true
    → among heap q refs ≡ false
unfolding among
among-AreDown heap q [] down up = refl
among-AreDown heap q (r ∷ refs) (d, down) up =
    ground (arith, same_backend-routable heap r q d up, among-AreDown heap q refs down up)

AreDown-down_at :
    (r : ℕ) (heap : ℕ → Backend) (refs : List ℕ) → AreDown heap refs → AreDown (down_at r heap) refs
AreDown-down_at r heap [] down = tt
AreDown-down_at r heap (q ∷ refs) (d, down) =
    (ground (arith, d, routable-down_at r q heap), AreDown-down_at r heap refs down)

in_longer :
    (l refs : List ℕ) (q : ℕ)
    → All (λ r. Set.contains r refs ≡ true) l
    → All (λ r. Set.contains r (q ∷ refs) ≡ true) l
unfolding Set.contains
in_longer [] refs q h = tt
in_longer (x ∷ l) refs q (h, hs) = (ground (arith, h), in_longer l refs q hs)

-- Candidates are backends of the pool.
candidates-contains :
    (heap : ℕ → Backend) (excluded refs : List ℕ)
    → All (λ r. Set.contains r refs ≡ true) (candidates heap excluded refs)
unfolding candidates Set.contains
candidates-contains heap excluded [] = tt
candidates-contains heap excluded (q ∷ refs) =
    let rest =
      in_longer (candidates heap excluded refs) refs q (candidates-contains heap excluded refs) in
    elim (Bool-cases (routable (heap q) && not (among heap q excluded))) [
      | inl take ↦ rw take (ground arith, rest)
      | inr skip ↦ rw skip rest
    ]

module _ {R : Type 0} where
  choose_kept :
      (l : List ℕ) (lb : LoadBalancer R)
      → ((choose l lb).1.heap ≡ lb.heap) × ((choose l lb).1.backends ≡ lb.backends)
  unfolding choose
  choose_kept [] lb = (refl, refl)
  choose_kept (r ∷ l) lb = (refl, refl)

module _ {R : Type 0} (redis : Redis R) where
  -- What is picked for a client that names no session, where a backend is usable
  picked :
      (excluded : List ℕ) (lb : LoadBalancer R) (q : ℕ)
      → Set.contains q lb.backends ≡ true
      → IsUsable lb.heap excluded q
      → (r : ℕ) × (lb' : LoadBalancer R) × (pick_backend redis none excluded lb ≡ (some r, lb'))
        × (Set.contains r lb.backends ≡ true)
        × (routable (lb.heap r) ≡ true)
        × (lb'.heap ≡ lb.heap)
        × (lb'.backends ≡ lb.backends)
  unfolding pick_backend round_robin
  picked excluded lb q here usable =
      let (r, e) = pick_backend-some redis none excluded lb q here usable in
      let pool = candidates lb.heap excluded lb.backends in
      (
        r,
        (choose pool lb).1,
        ap (λ o. (o, (choose pool lb).1)) e,
        choose_usable (λ x. Set.contains x lb.backends ≡ true) pool lb
            (candidates-contains lb.heap excluded lb.backends) e,
        (pick_backend-IsUsable redis none excluded lb r e).0,
        (choose_kept pool lb).0,
        (choose_kept pool lb).1,
      )

-- Another backend stays up.
still_up :
    (r q : ℕ) (heap : ℕ → Backend)
    → routable (heap q) ≡ true
    → r ≢ q
    → routable (down_at r heap q) ≡ true
still_up r q heap up ne = elim (Bool-cases (nat_beq r q)) [
  | inl equal ↦ absurd (ne (ground (arith, equal)))
  | inr other ↦ ground (arith, other, up, routable-down_at r q heap)
]

module _ {R : Type 0} (redis : Redis R) (accepts : ℕ → Bool) where
  -- The loop over backends connects a client that names no session: if the pool holds a routable
  -- backend that accepts connections, the backend it starts with is a routable one of the pool, the
  -- backends tried before are down, and the fuel is at least the number of routable backends in the
  -- pool, then it ends with a backend that accepts.
  pub try_backends-accepts :
      (fuel : ℕ) (attempted : List ℕ) (r q : ℕ) (lb : LoadBalancer R)
      → Set.contains q lb.backends ≡ true
      → routable (lb.heap q) ≡ true
      → accepts q ≡ true
      → Set.contains r lb.backends ≡ true
      → routable (lb.heap r) ≡ true
      → AreDown lb.heap attempted
      → count_routable lb.heap lb.backends ≤ fuel
      → (s : ℕ) × (lb' : LoadBalancer R) × (try_backends redis accepts fuel none attempted r lb
          ≡ (some s, lb'))
        × (accepts s ≡ true)
  unfolding try_backends tried_next mark_failed disconnect_backend_clients
  try_backends-accepts zero attempted r q lb in_q up_q takes in_r up_r down enough =
      absurd (omega (arith, enough, count_routable-lt r lb.heap lb.backends in_r up_r))
  try_backends-accepts (suc fuel) attempted r q lb in_q up_q takes in_r up_r down enough =
      elim (Bool-cases (accepts r)) [
        | inl taken ↦ (r, lb, rw taken, taken)
        | inr turned_down ↦
            let failed = mark_failed r lb in
            let still : routable (failed.heap q) ≡ true =
              still_up r q lb.heap up_q
                (λ same. ground (arith, ap accepts same, takes, turned_down)) in
            let down' : AreDown failed.heap (r ∷ attempted) = (
              ground (arith, routable-down_at r r lb.heap),
              AreDown-down_at r lb.heap attempted down,
            ) in
            let (s, lb', pick, in_s, up_s, heap, pool) =
              picked redis (r ∷ attempted) failed q in_q
                (still, among-AreDown failed.heap q (r ∷ attempted) down' still) in
            let lt = count_routable-lt r lb.heap lb.backends in_r up_r in
            let fewer : count_routable failed.heap lb.backends ≤ fuel = omega (arith, lt, enough) in
            let (t, lb'', e, taken) =
              try_backends-accepts fuel (r ∷ attempted) s q lb' (rw pool in_q) (rw heap still) takes
                (rw pool in_s) (rw heap up_s) (subst⁻¹ (λ h. AreDown h (r ∷ attempted)) heap down')
                (rw (heap, pool) fewer) in
            (t, lb'', rw (turned_down, pick) e, taken)
      ]
