-- ===== src/Ingress/LoadBalancer/Routing.antt =====
-- `_pick_backend`: what it may return, and that it finds a backend whenever there is one.
use mathlib.Core.Path.{subst, subst⁻¹}
use clustertalk_githubaction.Prelude.{
  ℕ, zero, suc, ◌%◌, ◌<◌, ◌≡◌, ◌≢◌, refl, arith, Bool, true, false, not, ◌&&◌, Option, none, some,
  List, [], ◌∷◌, ◌++◌, length, get_elem?, if◌then◌else◌, Text, nat_eq, list_eq, Bool-cases,
  Option-cases, inl, inr, All,
}
use clustertalk_githubaction.Prelude.Dict
use clustertalk_githubaction.Prelude.Set
use clustertalk_githubaction.Ingress.LoadBalancer.{
  sticky_key_prefix, parse_address, Backend, LoadBalancer, Redis, routable, among, candidates,
  find_backend, use_found, use_address, use_reply, cached_sticky, choose, round_robin, prefer,
  ask_redis, redis_get_sticky, pick_backend,
}

get_elem?-some :
    {A : Type 0} (l : List A) (i : ℕ) → i < length l → (a : A) × (get_elem? l i ≡ some a)
get_elem?-some [] i h = absurd (omega arith)
get_elem?-some (x ∷ l) zero h = (x, refl)
get_elem?-some (x ∷ l) (suc i) h = get_elem?-some l i (omega arith)

get_elem?-All :
    {A : Type 0} (Q : A → Type 0) (l : List A) (i : ℕ) {a : A}
    → All Q l
    → get_elem? l i ≡ some a
    → Q a
get_elem?-All Q [] i h e = ground arith
get_elem?-All Q (x ∷ l) zero h e = ground arith
get_elem?-All Q (x ∷ l) (suc i) h e = get_elem?-All Q l i h.1 e

-- A backend that may receive a connection
abbrev pub IsUsable : (ℕ → Backend) → List ℕ → ℕ → Type 0
IsUsable heap excluded r = (routable (heap r) ≡ true) × (among heap r excluded ≡ false)

candidates-IsUsable :
    (heap : ℕ → Backend) (excluded refs : List ℕ)
    → All (IsUsable heap excluded) (candidates heap excluded refs)
unfolding candidates
candidates-IsUsable heap excluded [] = tt
candidates-IsUsable heap excluded (r ∷ refs) =
    elim (Bool-cases (routable (heap r) && not (among heap r excluded))) [
      | inl take ↦ rw take (ground (arith, take), candidates-IsUsable heap excluded refs)
      | inr skip ↦ rw skip (candidates-IsUsable heap excluded refs)
    ]

candidates-ne-nil :
    (heap : ℕ → Backend) (excluded refs : List ℕ) (r : ℕ)
    → Set.contains r refs ≡ true
    → IsUsable heap excluded r
    → candidates heap excluded refs ≢ []
unfolding candidates Set.contains
candidates-ne-nil heap excluded [] r h u e = cc
candidates-ne-nil heap excluded (q ∷ refs) r h u e =
    ground (arith, λ (k : Set.contains r refs ≡ true). candidates-ne-nil heap excluded refs r k u)

module _ {R : Type 0} where
  -- A sticky lookup finds a routable backend or none, and moves nothing but the cache.
  pub record Finds (lb : LoadBalancer R) (found : Option ℕ × LoadBalancer R) : Type 0 where
    pub usable : (r : ℕ) → found.0 ≡ some r → routable (lb.heap r) ≡ true
    pub heap : found.1.heap ≡ lb.heap
    pub pool : found.1.backends ≡ lb.backends
    pub turn : found.1.rr_index ≡ lb.rr_index

  Finds-none : (lb : LoadBalancer R) → Finds lb (none, lb)
  Finds-none lb = record { usable = λ r e. ground arith; heap = refl; pool = refl; turn = refl }

  use_found-Finds :
      (sid : Text) (o : Option ℕ) (lb : LoadBalancer R) → Finds lb (use_found sid o lb)
  unfolding use_found
  use_found-Finds sid none lb = Finds-none lb
  use_found-Finds sid (some r) lb = elim (Bool-cases (routable (lb.heap r))) [
    | inl up ↦
        rw up
          (record { usable = λ q e. ground (arith, up, e); heap = refl; pool = refl; turn = refl })
    | inr down ↦ rw down (Finds-none lb)
  ]

  use_reply-Finds :
      (sid : Text) (o : Option (Option Text)) (lb : LoadBalancer R) → Finds lb (use_reply sid o lb)
  unfolding use_reply
  use_reply-Finds sid none lb = Finds-none lb
  use_reply-Finds sid (some none) lb = Finds-none lb
  use_reply-Finds sid (some (some value)) lb = elim (Option-cases (parse_address value)) [
    | inl bad ↦ rw bad (unfold use_address in Finds-none lb)
    | inr (address, e) ↦
        rw e (unfold use_address in use_found-Finds sid (find_backend address.0 address.1 lb) lb)
  ]

  pub choose_usable :
      (Q : ℕ → Type 0) (l : List ℕ) (lb : LoadBalancer R) {r : ℕ}
      → All Q l
      → (choose l lb).0 ≡ some r
      → Q r
  unfolding choose
  choose_usable Q [] lb h e = ground arith
  choose_usable Q (x ∷ l) lb h e = get_elem?-All Q (x ∷ l) (lb.rr_index % length (x ∷ l)) h e

  choose-some : (l : List ℕ) (lb : LoadBalancer R) → l ≢ [] → (r : ℕ) × ((choose l lb).0 ≡ some r)
  unfolding choose
  choose-some [] lb h = absurd (h refl)
  choose-some (x ∷ l) lb h = get_elem?-some (x ∷ l) (lb.rr_index % length (x ∷ l)) (grind arith)

  choose-heap : (l : List ℕ) (lb : LoadBalancer R) → (choose l lb).1.heap ≡ lb.heap
  unfolding choose
  choose-heap [] lb = refl
  choose-heap (x ∷ l) lb = refl

  cached_sticky_usable :
      (sid : Text) (lb : LoadBalancer R) (r : ℕ)
      → cached_sticky sid lb ≡ some r
      → routable (lb.heap r) ≡ true
  unfolding cached_sticky
  cached_sticky_usable sid lb r e = elim (Option-cases (Dict.get sid lb.sticky_cache)) [
    | inl absent ↦ ground (arith, absent, e)
    | inr (q, here) ↦ elim (Bool-cases (routable (lb.heap q))) [
      | inl up ↦ ground (arith, here, up, e)
      | inr down ↦ ground (arith, here, down, e)
    ]
  ]

  round_robin-IsUsable :
      (excluded : List ℕ) (lb : LoadBalancer R) (r : ℕ)
      → (round_robin excluded lb).0 ≡ some r
      → IsUsable lb.heap excluded r
  unfolding round_robin
  round_robin-IsUsable excluded lb r e =
      choose_usable (IsUsable lb.heap excluded) (candidates lb.heap excluded lb.backends) lb
        (candidates-IsUsable lb.heap excluded lb.backends) e

  prefer-IsUsable :
      (o : Option ℕ) (excluded : List ℕ) (lb : LoadBalancer R) (r : ℕ)
      → ((q : ℕ) → o ≡ some q → routable (lb.heap q) ≡ true)
      → (prefer o excluded lb).0 ≡ some r
      → IsUsable lb.heap excluded r
  unfolding prefer
  prefer-IsUsable none excluded lb r up e = round_robin-IsUsable excluded lb r e
  prefer-IsUsable (some q) excluded lb r up e = elim (Bool-cases (among lb.heap q excluded)) [
    | inl out ↦ round_robin-IsUsable excluded lb r (ground (arith, out, e))
    | inr fine ↦ ground (arith, fine, e, up q refl)
  ]

  round_robin-some :
      (excluded : List ℕ) (lb : LoadBalancer R) (r : ℕ)
      → Set.contains r lb.backends ≡ true
      → IsUsable lb.heap excluded r
      → (q : ℕ) × ((round_robin excluded lb).0 ≡ some q)
  unfolding round_robin
  round_robin-some excluded lb r here u =
      choose-some (candidates lb.heap excluded lb.backends) lb
        (candidates-ne-nil lb.heap excluded lb.backends r here u)

  prefer-some :
      (o : Option ℕ) (excluded : List ℕ) (lb : LoadBalancer R) (r : ℕ)
      → Set.contains r lb.backends ≡ true
      → IsUsable lb.heap excluded r
      → (q : ℕ) × ((prefer o excluded lb).0 ≡ some q)
  unfolding prefer
  prefer-some none excluded lb r here u = round_robin-some excluded lb r here u
  prefer-some (some q) excluded lb r here u = elim (Bool-cases (among lb.heap q excluded)) [
    | inl out ↦ rw out (round_robin-some excluded lb r here u)
    | inr fine ↦ (q, rw fine)
  ]

  Finds-if :
      {lb : LoadBalancer R} (b : Bool) {x y : Option ℕ × LoadBalancer R}
      → Finds lb x
      → Finds lb y
      → Finds lb (if b then x else y)
  Finds-if true fx fy = fx
  Finds-if false fx fy = fy

  cached_sticky-hit :
      (sid : Text) (lb : LoadBalancer R) (r : ℕ)
      → Dict.get sid lb.sticky_cache ≡ some r
      → routable (lb.heap r) ≡ true
      → cached_sticky sid lb ≡ some r
  unfolding cached_sticky
  cached_sticky-hit sid lb r here up = ground (arith, here, up)

  prefer-hit :
      (excluded : List ℕ) (lb : LoadBalancer R) (r : ℕ)
      → among lb.heap r excluded ≡ false
      → prefer (some r) excluded lb ≡ (some r, lb)
  unfolding prefer
  prefer-hit excluded lb r fine = ground (arith, fine)

module _ {R : Type 0} (redis : Redis R) where
  ask_redis-Finds : (sid : Text) (lb : LoadBalancer R) → Finds lb (ask_redis redis sid lb)
  unfolding ask_redis
  ask_redis-Finds sid lb =
      Finds-if lb.redis_available
        (use_reply-Finds sid (redis.read (sticky_key_prefix ++ sid) lb.store) lb) (Finds-none lb)

  redis_get_sticky-Finds :
      (sid : Text) (lb : LoadBalancer R) → Finds lb (redis_get_sticky redis sid lb)
  unfolding redis_get_sticky
  redis_get_sticky-Finds sid lb = elim (Option-cases (cached_sticky sid lb)) [
    | inl miss ↦ rw (miss, redis_get_sticky) (ask_redis-Finds sid lb)
    | inr (r, hit) ↦
        rw (hit, redis_get_sticky)
          (record {
            usable = λ q e. ground (arith, e, cached_sticky_usable sid lb r hit);
            heap = refl;
            pool = refl;
            turn = refl;
          })
  ]

  redis_get_sticky-hit :
      (sid : Text) (lb : LoadBalancer R) (r : ℕ)
      → cached_sticky sid lb ≡ some r
      → redis_get_sticky redis sid lb ≡ (some r, lb)
  unfolding redis_get_sticky
  redis_get_sticky-hit sid lb r hit = rw (hit, redis_get_sticky)

  -- Whatever Redis and the cache hold, a backend that is picked is healthy, not taken down by the
  -- operator, and not among the excluded ones.
  pub pick_backend-IsUsable :
      (session : Option Text) (excluded : List ℕ) (lb : LoadBalancer R) (r : ℕ)
      → (pick_backend redis session excluded lb).0 ≡ some r
      → IsUsable lb.heap excluded r
  unfolding pick_backend
  pick_backend-IsUsable none excluded lb r e = round_robin-IsUsable excluded lb r e
  pick_backend-IsUsable (some sid) excluded lb r e =
      let (o, lb') = redis_get_sticky redis sid lb in
      let f = redis_get_sticky-Finds sid lb in
      subst (λ h. IsUsable h excluded r) f.heap
        (prefer-IsUsable o excluded lb' r (λ q p. rw f.heap (f.usable q p)) e)

  -- As long as the pool holds a usable backend, a backend is picked.
  pub pick_backend-some :
      (session : Option Text) (excluded : List ℕ) (lb : LoadBalancer R) (r : ℕ)
      → Set.contains r lb.backends ≡ true
      → IsUsable lb.heap excluded r
      → (q : ℕ) × ((pick_backend redis session excluded lb).0 ≡ some q)
  unfolding pick_backend
  pick_backend-some none excluded lb r here u = round_robin-some excluded lb r here u
  pick_backend-some (some sid) excluded lb r here u =
      let (o, lb') = redis_get_sticky redis sid lb in
      let f = redis_get_sticky-Finds sid lb in
      prefer-some o excluded lb' r (rw f.pool here) (subst⁻¹ (λ h. IsUsable h excluded r) f.heap u)

  -- Stickiness: a session whose cached backend is routable and not excluded gets that backend, and
  -- the turn of the round robin does not move.
  pub pick_backend-sticky :
      (sid : Text) (excluded : List ℕ) (lb : LoadBalancer R) (r : ℕ)
      → Dict.get sid lb.sticky_cache ≡ some r
      → IsUsable lb.heap excluded r
      → pick_backend redis (some sid) excluded lb ≡ (some r, lb)
  unfolding pick_backend
  pick_backend-sticky sid excluded lb r here u =
      rw (redis_get_sticky-hit sid lb r (cached_sticky-hit sid lb r here u.0), pick_backend)
        (prefer-hit excluded lb r u.1)
