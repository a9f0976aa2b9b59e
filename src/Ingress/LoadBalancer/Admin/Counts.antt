-- ===== src/Ingress/LoadBalancer/Admin/Counts.antt =====
-- The route counters: a simulation of `n` clients counts each of them once.
use mathlib.Core.Path.{subst⁻¹}
use clustertalk_githubaction.Prelude.{
  ◌⊎◌, ◌∙◌, ◌≢◌, ℕ, zero, suc, ◌+◌, ◌%◌, ◌<◌, ◌≡◌, refl, arith, Option, some, List, [], ◌∷◌, length,
  Text, nat_eq, list_eq, get_elem?, inl, inr, ap,
}
use clustertalk_githubaction.Prelude.Dict
use clustertalk_githubaction.Prelude.Dict.{Dict}
use clustertalk_githubaction.Ingress.LoadBalancer.{LoadBalancer}
use clustertalk_githubaction.Ingress.LoadBalancer.Clients.{routable_servers}
use clustertalk_githubaction.Ingress.LoadBalancer.Admin.{
  counted, increment, simulate, admin_simulate,
}

abbrev pub total : Dict Text ℕ → ℕ
total [] = 0
total ((k, n) ∷ counts) = n + total counts

total-put :
    (k : Text) (v : ℕ) (counts : Dict Text ℕ)
    → total (Dict.put k v counts) + counted k counts ≡ total counts + v
unfolding Dict.put counted Dict.get
total-put k v [] = omega arith
total-put k v ((j, n) ∷ counts) = ground (arith, total-put k v counts)

total-increment : (k : Text) (counts : Dict Text ℕ) → total (increment k counts) ≡ total counts + 1
unfolding increment
total-increment k counts = omega (arith, total-put k (counted k counts + 1) counts)

List-cases : (l : List Text) → (l ≡ []) ⊎ ((a : Text) × (m : List Text) × (l ≡ a ∷ m))
List-cases [] = inl refl
List-cases (a ∷ m) = inr (a, m, refl)

get_elem?-below : (l : List Text) (i : ℕ) → i < length l → (a : Text) × (get_elem? l i ≡ some a)
get_elem?-below [] i lt = absurd (omega arith)
get_elem?-below (x ∷ l) zero lt = (x, refl)
get_elem?-below (x ∷ l) (suc i) lt = get_elem?-below l i (omega arith)

module _ {R : Type 0} where
  counted_client : Text → LoadBalancer R → LoadBalancer R
  counted_client x lb = record lb {
    route_counts = increment x lb.route_counts;
    total_routed = lb.total_routed + 1;
  }

  simulate-suc :
      (servers : List Text) (i n : ℕ) (d : Dict Text ℕ) (lb : LoadBalancer R) (x : Text)
      → get_elem? servers (i % length servers) ≡ some x
      → simulate servers i (suc n) d lb
        ≡ simulate servers (suc i) n (increment x d) (counted_client x lb)
  unfolding simulate counted_client
  simulate-suc servers i n d lb x here = rw (here, simulate)

  -- Both counts grow by the number of clients.
  abbrev Grows : ℕ → Dict Text ℕ → LoadBalancer R → Dict Text ℕ × LoadBalancer R → Type 0
  Grows n d lb (d', lb') =
      (total d' ≡ total d + n)
      × (total lb'.route_counts ≡ total lb.route_counts + n)
      × (lb'.total_routed ≡ lb.total_routed + n)

  Grows-suc :
      (n : ℕ) (d : Dict Text ℕ) (lb : LoadBalancer R) (x : Text)
      (after : Dict Text ℕ × LoadBalancer R)
      → Grows n (increment x d) (counted_client x lb) after
      → Grows (suc n) d lb after
  unfolding counted_client
  Grows-suc n d lb x after (h, k, t) = (
    omega (arith, h, total-increment x d),
    omega (arith, k, total-increment x lb.route_counts),
    omega (arith, t),
  )

  simulate-Grows :
      (a : Text) (l : List Text) (i n : ℕ) (d : Dict Text ℕ) (lb : LoadBalancer R)
      → Grows n d lb (simulate (a ∷ l) i n d lb)
  simulate-Grows a l i zero d lb = unfold simulate in (omega arith, omega arith, omega arith)
  simulate-Grows a l i (suc n) d lb =
      let (x, here) = get_elem?-below (a ∷ l) (i % length (a ∷ l)) (grind arith) in
      subst⁻¹ (Grows (suc n) d lb) (simulate-suc (a ∷ l) i n d lb x here) (
        Grows-suc n d lb x (simulate (a ∷ l) (suc i) n (increment x d) (counted_client x lb))
          (simulate-Grows a l (suc i) n (increment x d) (counted_client x lb)))

  answer : Dict Text ℕ × LoadBalancer R → Option (Dict Text ℕ) × LoadBalancer R
  answer (d, lb) = (some d, lb)

  admin_simulate-servers :
      (n : ℕ) (lb : LoadBalancer R) (a : Text) (l : List Text)
      → routable_servers lb.heap lb.backends ≡ a ∷ l
      → admin_simulate n lb ≡ answer (simulate (a ∷ l) 0 n [] lb)
  unfolding admin_simulate answer
  admin_simulate-servers n lb a l up = rw (up, admin_simulate)

  -- With a routable server, a simulation of `n` clients answers with a distribution that adds up to
  -- `n`, and the route counters and the total each grow by `n`.
  pub admin_simulate-counts :
      (n : ℕ) (lb : LoadBalancer R)
      → routable_servers lb.heap lb.backends ≢ []
      → (d : Dict Text ℕ) × ((admin_simulate n lb).0 ≡ some d)
        × (total d ≡ n)
        × (total (admin_simulate n lb).1.route_counts ≡ total lb.route_counts + n)
        × ((admin_simulate n lb).1.total_routed ≡ lb.total_routed + n)
  unfolding answer
  admin_simulate-counts n lb up = elim (List-cases (routable_servers lb.heap lb.backends)) [
    | inl empty ↦ absurd (up empty)
    | inr (a, l, here) ↦
        let (d, lb') = simulate (a ∷ l) 0 n [] lb in
        let (h, k, t) = simulate-Grows a l 0 n [] lb in
        let e = admin_simulate-servers n lb a l here in
        (
          d,
          ap (λ x. x.0) e,
          omega (arith, h),
          ap (λ x. total x.1.route_counts) e ∙ k,
          ap (λ x. x.1.total_routed) e ∙ t,
        )
  ]
