-- ===== src/Ingress/LoadBalancer/Clients/Rebalance.antt =====
-- Where `_rebalance_clients` leaves a client: untouched, at home, or on another routable server.
use mathlib.Core.Option
use mathlib.Core.Path.{subst}
use clustertalk_githubaction.Prelude.{
  text_eq_iff, ◌∙◌, ℕ, suc, zero, ◌%◌, ◌<◌, ◌≡◌, refl, arith, true, false, not, ◌&&◌, Option, none,
  some, List, [], ◌∷◌, length, get_elem?, if◌then◌else◌, Text, ◌==◌, nat_eq, list_eq, Bool-cases,
  Option-cases, inl, inr,
}
use clustertalk_githubaction.Prelude.Dict
use clustertalk_githubaction.Prelude.Dict.{Dict, IsDistinct}
use clustertalk_githubaction.Prelude.Set
use clustertalk_githubaction.Ingress.LoadBalancer.{Client, LoadBalancer}
use clustertalk_githubaction.Ingress.LoadBalancer.Clients.{
  spread_to, home_routable, settle, displaced, set_current, spread, rebalanced, routable_servers,
  rebalance_clients,
}

-- A place for a client whose home is down: one of the servers, or none if there is no server.
abbrev pub IsServer : List Text → Option Text → Type 0
IsServer [] to = to ≡ none
IsServer (a ∷ l) to = (v : Text) × (to ≡ some v) × (Set.contains v (a ∷ l) ≡ true)

pub data Placement (servers : List Text) (c c' : Client) : Type 0 where
  untouched : c.active ≡ false → c' ≡ c → Placement servers c c'
  at_home :
      c.active ≡ true
      → home_routable servers c ≡ true
      → c' ≡ record c { current = c.home }
      → Placement servers c c'
  failed_over :
      c.active ≡ true
      → home_routable servers c ≡ false
      → (to : Option Text) → IsServer servers to
      → c' ≡ record c { current = to }
      → Placement servers c c'

contains-get_elem? :
    (l : List Text) (i : ℕ)
    → i < length l
    → (v : Text) × (get_elem? l i ≡ some v) × (Set.contains v l ≡ true)
unfolding Set.contains
contains-get_elem? [] i lt = absurd (omega arith)
contains-get_elem? (x ∷ l) zero lt = (x, refl, ground (arith, text_eq_iff x x))
contains-get_elem? (x ∷ l) (suc i) lt =
    let (v, here, member) = contains-get_elem? l i (omega arith) in
    (v, here, ground (arith, member))

spread_to-IsServer : (servers : List Text) (i : ℕ) → IsServer servers (spread_to servers i)
unfolding spread_to
spread_to-IsServer [] i = refl
spread_to-IsServer (a ∷ l) i = contains-get_elem? (a ∷ l) (i % length (a ∷ l)) (grind arith)

abbrev settled_one : List Text → Client → Client
settled_one servers c =
    if c.active && home_routable servers c then record c { current = c.home } else c

get-settled :
    (servers : List Text) (cid : Text) (d : Dict Text Client)
    → Dict.get cid (settle servers d) ≡ Option.map (settled_one servers) (Dict.get cid d)
unfolding settle Dict.get
get-settled servers cid [] = refl
get-settled servers cid ((j, c) ∷ d) = ground (arith, get-settled servers cid d)

displaced-absent :
    (servers : List Text) (cid : Text) (d : Dict Text Client)
    → Dict.get cid d ≡ none
    → Set.contains cid (displaced servers d) ≡ false
unfolding displaced Dict.get Set.contains
displaced-absent servers cid [] h = refl
displaced-absent servers cid ((j, c) ∷ d) h = ground (arith, displaced-absent servers cid d)

contains-displaced :
    (servers : List Text) (cid : Text) (d : Dict Text Client) (c : Client)
    → IsDistinct d
    → Dict.get cid d ≡ some c
    → Set.contains cid (displaced servers d) ≡ (c.active && not (home_routable servers c))
unfolding displaced Dict.get Set.contains
contains-displaced servers cid [] c h e = ground arith
contains-displaced servers cid ((j, b) ∷ d) c h e = elim (Bool-cases (list_eq.beq j cid)) [
  | inl same ↦
      let gone = subst (λ k. Dict.get k d ≡ none) ((text_eq_iff j cid).0 same) h.0 in
      ground (arith, same, e, displaced-absent servers cid d gone)
  | inr other ↦ ground (arith, other, e, contains-displaced servers cid d c h.1)
]

abbrev moved_to : Option Text → Client → Client
moved_to to c = record c { current = to }

get-set_current :
    (cid j : Text) (to : Option Text) (d : Dict Text Client)
    → Dict.get j (set_current cid to d)
      ≡ (if cid == j then Option.map (moved_to to) (Dict.get j d) else Dict.get j d)
unfolding set_current
get-set_current cid j to d = elim (Option-cases (Dict.get cid d)) [
  | inl absent ↦ ground (arith, absent, text_eq_iff cid j)
  | inr (c, here) ↦
      ground (arith, here, text_eq_iff cid j, Dict.get-put cid j (record c { current = to }) d)
]

get-spread_absent :
    (servers : List Text) (i : ℕ) (cids : List Text) (j : Text) (d : Dict Text Client)
    → Set.contains j cids ≡ false
    → Dict.get j (spread servers i cids d) ≡ Dict.get j d
unfolding spread Set.contains
get-spread_absent servers i [] j d h = refl
get-spread_absent servers i (cid ∷ cids) j d h = ground (
  arith,
  get-spread_absent servers (suc i) cids j (set_current cid (spread_to servers i) d),
  get-set_current cid j (spread_to servers i) d,
)

get-spread :
    (servers : List Text) (i : ℕ) (cids : List Text) (j : Text) (d : Dict Text Client) (c : Client)
    → Dict.get j d ≡ some c
    → Set.contains j cids ≡ true
    → (to : Option Text) × IsServer servers to
      × (Dict.get j (spread servers i cids d) ≡ some (record c { current = to }))
unfolding spread Set.contains
get-spread servers i [] j d c e h = absurd (ground arith)
get-spread servers i (cid ∷ cids) j d c e h =
    let to = spread_to servers i in
    let d' = set_current cid to d in
    elim (Bool-cases (cid == j)) [
      | inl here ↦ elim (Bool-cases (Set.contains j cids)) [
        | inl again ↦
            get-spread servers (suc i) cids j d' (record c { current = to })
              (ground (arith, get-set_current cid j to d, here, e)) again
        | inr last ↦ (
          to,
          spread_to-IsServer servers i,
          get-spread_absent servers (suc i) cids j d' last
              ∙ ground (arith, get-set_current cid j to d, here, e),
        )
      ]
      | inr other ↦
          get-spread servers (suc i) cids j d' c
            (ground (arith, get-set_current cid j to d, other, e)) (ground (arith, other, h))
    ]

get-rebalanced :
    (servers : List Text) (cid : Text) (d : Dict Text Client) (c : Client)
    → IsDistinct d
    → Dict.get cid d ≡ some c
    → (c' : Client) × (Dict.get cid (rebalanced servers d) ≡ some c') × Placement servers c c'
unfolding rebalanced
get-rebalanced servers cid d c h e =
    let line = contains-displaced servers cid d c h e in
    let now = get-settled servers cid d in
    elim (Bool-cases c.active) [
      | inr idle ↦ (
        c,
        get-spread_absent servers 0 (displaced servers d) cid (settle servers d)
              (ground (arith, line, idle))
            ∙ ground (arith, now, e, idle),
        untouched idle refl,
      )
      | inl active ↦ elim (Bool-cases (home_routable servers c)) [
        | inl up ↦ (
          record c { current = c.home },
          get-spread_absent servers 0 (displaced servers d) cid (settle servers d)
                (ground (arith, line, active, up))
              ∙ ground (arith, now, e, active, up),
          at_home active up refl,
        )
        | inr down ↦
            let (to, fine, moved) =
              get-spread servers 0 (displaced servers d) cid (settle servers d) c
                (ground (arith, now, e, active, down)) (ground (arith, line, active, down)) in
            (record c { current = to }, moved, failed_over active down to fine refl)
      ]
    ]

-- `_rebalance_clients` leaves an inactive client as it was, puts an active client whose home is
-- routable at home, and puts every other active client on a routable server, or on none if there is
-- none. Nothing else of a client changes, and no client is lost. No key stands twice in the table
-- of clients.
pub rebalance-Placement :
    {R : Type 0} (lb : LoadBalancer R) (cid : Text) (c : Client)
    → IsDistinct lb.clients
    → Dict.get cid lb.clients ≡ some c
    → (c' : Client) × (Dict.get cid (rebalance_clients lb).clients ≡ some c')
      × Placement (routable_servers lb.heap lb.backends) c c'
unfolding rebalance_clients
rebalance-Placement lb cid c h e =
    get-rebalanced (routable_servers lb.heap lb.backends) cid lb.clients c h e
