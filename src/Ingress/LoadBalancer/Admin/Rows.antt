-- ===== src/Ingress/LoadBalancer/Admin/Rows.antt =====
-- The rows of the dashboard against direct counts.
use clustertalk_githubaction.Prelude.{
  ℕ, suc, ◌+◌, ◌≡◌, refl, ap, arith, Bool, false, Option, none, some, List, [], ◌∷◌, map,
  if◌then◌else◌, Text, ◌==◌, nat_eq, list_eq, ◌&&◌, text_eq_iff, Bool-cases, Option-cases, inl, inr,
}
use clustertalk_githubaction.Prelude.Dict
use clustertalk_githubaction.Prelude.Set
use clustertalk_githubaction.Prelude.Dict.{Dict}
use clustertalk_githubaction.Ingress.LoadBalancer.{Backend, Client, LoadBalancer, address_of}
use clustertalk_githubaction.Ingress.LoadBalancer.Admin.{counted, increment}
use clustertalk_githubaction.Ingress.LoadBalancer.Admin.Snapshot.{
  ServerRow, put_name, active_names, sticky_names, tally, server_row, server_rows, admin_snapshot,
}

-- How many active clients have a server as their current one, or as their home
unfoldable pub clients_at : (Client → Option Text) → Text → Dict Text Client → ℕ
clients_at key a [] = 0
clients_at key a ((cid, c) ∷ clients) =
    let rest = clients_at key a clients in if c.active && is_at a (key c) then suc rest else rest
  where
    is_at : Text → Option Text → Bool
    is_at a none = false
    is_at a (some []) = false
    is_at a (some (b ∷ bs)) = (b ∷ bs) == a

-- How many sessions stick to a server
unfoldable pub sessions_at : (ℕ → Backend) → Text → Dict Text ℕ → ℕ
unfolding address_of
sessions_at heap a [] = 0
sessions_at heap a ((sid, r) ∷ cache) =
    let rest = sessions_at heap a cache in if address_of (heap r) == a then suc rest else rest

counted-increment :
    (a b : Text) (counts : Dict Text ℕ)
    → counted a (increment b counts) ≡ (if b == a then suc (counted a counts) else counted a counts)
unfolding counted increment
counted-increment a b counts =
    ground (arith, Dict.get-put b a (counted b counts + 1) counts, text_eq_iff b a)

counted-tally :
    (a : Text) (names : List Text) (counts : Dict Text ℕ)
    → counted a (tally names counts) ≡ counted a counts + Set.occurrences a names
unfolding tally
counted-tally a [] counts = omega arith
counted-tally a (b ∷ names) counts =
    ground (arith, counted-tally a names (increment b counts), counted-increment a b counts)

occurrences-active_names :
    (key : Client → Option Text) (a : Text) (clients : Dict Text Client)
    → Set.occurrences a (active_names key clients) ≡ clients_at key a clients
unfolding active_names clients_at put_name
occurrences-active_names key a [] = refl
occurrences-active_names key a ((cid, c) ∷ clients) = elim (Bool-cases c.active) [
  | inl here ↦ elim (Option-cases (key c)) [
    | inl unnamed ↦ rw (unnamed, here) (occurrences-active_names key a clients)
    | inr ([], found) ↦ rw (found, here) (occurrences-active_names key a clients)
    | inr (b ∷ bs, found) ↦ rw (found, here, occurrences-active_names key a clients) refl
  ]
  | inr gone ↦ rw gone (occurrences-active_names key a clients)
]

occurrences-sticky_names :
    (heap : ℕ → Backend) (a : Text) (cache : Dict Text ℕ)
    → Set.occurrences a (sticky_names heap cache) ≡ sessions_at heap a cache
unfolding sticky_names sessions_at
occurrences-sticky_names heap a [] = refl
occurrences-sticky_names heap a ((sid, r) ∷ cache) =
    ground (arith, occurrences-sticky_names heap a cache)

counted-active_names :
    (key : Client → Option Text) (a : Text) (clients : Dict Text Client)
    → counted a (tally (active_names key clients) []) ≡ clients_at key a clients
unfolding counted Dict.get
counted-active_names key a clients =
    omega
      (arith, counted-tally a (active_names key clients) [], occurrences-active_names key a clients)

counted-sticky_names :
    (heap : ℕ → Backend) (a : Text) (cache : Dict Text ℕ)
    → counted a (tally (sticky_names heap cache) []) ≡ sessions_at heap a cache
unfolding counted Dict.get
counted-sticky_names heap a cache =
    omega
      (arith, counted-tally a (sticky_names heap cache) [], occurrences-sticky_names heap a cache)

module _ {R : Type 0} where
  -- The row that a server of the pool ought to have
  abbrev pub counted_row : LoadBalancer R → ℕ → ServerRow
  counted_row lb r =
      let a = address_of (lb.heap r) in
      server_row (lb.heap r) (clients_at (λ c. c.current) a lb.clients)
        (sessions_at lb.heap a lb.sticky_cache) (clients_at (λ c. c.home) a lb.clients)

  server_rows-counted_row :
      (lb : LoadBalancer R) (refs : List ℕ)
      → server_rows lb.heap
          (tally (active_names (λ c. c.current) lb.clients) [])
          (tally (sticky_names lb.heap lb.sticky_cache) [])
          (tally (active_names (λ c. c.home) lb.clients) [])
          refs
        ≡ map (counted_row lb) refs
  unfolding server_rows
  server_rows-counted_row lb [] = refl
  server_rows-counted_row lb (r ∷ refs) =
      let a = address_of (lb.heap r) in
      rw
        (
          counted-active_names (λ c. c.current) a lb.clients,
          counted-active_names (λ c. c.home) a lb.clients,
          counted-sticky_names lb.heap a lb.sticky_cache,
        )
        (ap (◌∷◌ (counted_row lb r)) (server_rows-counted_row lb refs))

  -- The dashboard shows a row for each server of the pool, in its order, whose numbers are those of
  -- the active clients that are routed to the server now, of the sticky sessions that lead to it,
  -- and of the active clients that have it as their home.
  pub admin_snapshot-counted_row :
      (lb : LoadBalancer R) → (admin_snapshot lb).servers ≡ map (counted_row lb) lb.backends
  unfolding admin_snapshot
  admin_snapshot-counted_row lb = server_rows-counted_row lb lb.backends
