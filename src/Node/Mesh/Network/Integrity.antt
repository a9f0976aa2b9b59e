-- ===== src/Node/Mesh/Network/Integrity.antt =====
-- The network invents nothing: what a node delivers, some node has put into the mesh.
use clustertalk_githubaction.Prelude.{
  ℕ, zero, suc, ◌≡◌, refl, sym, ◌∙◌, arith, Option, none, some, List, [], ◌∷◌, Text, ◌==◌, nat_eq,
  list_eq, Option-cases, Bool-cases, inl, inr, ◌⊎◌, All, All-append,
}
use mathlib.Core.Path.{subst}
use mathlib.Core.Option.{some-injective}
use clustertalk_githubaction.Prelude.Dict.{Dict}
use clustertalk_githubaction.Node.DedupCache
use clustertalk_githubaction.Node.Mesh.{
  Relay, MeshFrame, relay_frame, session_query, session_state, peer_hello, ping, pong, flooded,
  flood, relay_message, link_up, link_down,
}
use clustertalk_githubaction.Node.Mesh.Network.{
  Site, Network, NetEvent, originates, carries, loses, links, unlinks, take_out, with_site, receive,
  originate, left_with, arrive, carried, lost, step, run, fresh,
}
use clustertalk_githubaction.Node.Mesh.Network.Sites.{with_site-each, receive_seen, receive_new}
use clustertalk_githubaction.Node.Mesh.Network.Turns.{seen_cases}
use clustertalk_githubaction.Node.Mesh.Network.Delivery.{fresh_network}

-- A message is among those that the events put into the mesh.
unfoldable pub IsMinted : Relay → List NetEvent → Type 0
IsMinted r [] = ⊥
IsMinted r (originates a q ∷ events) = (q ≡ r) ⊎ IsMinted r events
IsMinted r (carries a i ∷ events) = IsMinted r events
IsMinted r (loses a i ∷ events) = IsMinted r events
IsMinted r (links a p w ∷ events) = IsMinted r events
IsMinted r (unlinks a p w ∷ events) = IsMinted r events

module _ (S : Type 0) (Q : Relay → Type 0) where
  -- A frame carries no message but such of `Q`.
  abbrev Of : ℕ × MeshFrame S → Type 0
  Of (w, relay_frame r) = Q r
  Of (w, session_query request_id session_id) = Unit
  Of (w, session_state request_id session_id snapshot) = Unit
  Of (w, peer_hello node_id) = Unit
  Of (w, ping) = Unit
  Of (w, pong) = Unit

  pub record IsGenuine (s : Site S) : Type 0 where
    pub delivered : All Q s.manager.delivered
    pub sent : All Of s.manager.sent

  flooded-All :
      (r : Relay) (exclude : Option Text) (peers : Dict Text ℕ)
      → Q r
      → All Of (flooded {S = S} (relay_frame r) exclude peers)
  unfolding flooded
  flooded-All r exclude [] q = tt
  flooded-All r none ((p, w) ∷ peers) q = (q, flooded-All r none peers q)
  flooded-All r (some from) ((p, w) ∷ peers) q = elim (Bool-cases (p == from)) [
    | inl same ↦ rw same (flooded-All r (some from) peers q)
    | inr other ↦ rw other (q, flooded-All r (some from) peers q)
  ]

  take_out-All :
      (i : ℕ) (fs : List (ℕ × MeshFrame S)) (f : ℕ × MeshFrame S) (rest : List (ℕ × MeshFrame S))
      → take_out i fs ≡ some (f, rest)
      → All Of fs
      → Of f × All Of rest
  take_out-All i [] f rest taken all = absurd (ground (arith, taken))
  take_out-All zero (g ∷ fs) f rest taken all =
      subst (λ p. Of p.0 × All Of p.1) (some-injective (g, fs) (f, rest) taken) all
  take_out-All (suc i) (g ∷ fs) f rest taken all = elim (Option-cases (take_out i fs)) [
    | inl nothing ↦ absurd (ground (arith, taken, nothing))
    | inr ((h, others), found) ↦
        let (here, there) = take_out-All i fs h others found all.1 in
        let later : take_out (suc i) (g ∷ fs) ≡ some (h, g ∷ others) = rw found refl in
        subst (λ p. Of p.0 × All Of p.1)
          (some-injective (h, g ∷ others) (f, rest) (sym later ∙ taken)) (here, (all.0, there))
  ]

  receive-IsGenuine :
      (from : Text) (r : Relay) (s : Site S) → Q r → IsGenuine s → IsGenuine (receive from r s)
  receive-IsGenuine from r s q h = elim (seen_cases r s) [
    | inl seen ↦ rw (receive_seen from r s seen) (record { delivered = h.delivered; sent = h.sent })
    | inr new ↦ rw (receive_new from r s new) (record {
      delivered = All-append Q s.manager.delivered (r ∷ []) h.delivered (q, tt);
      sent =
          All-append Of s.manager.sent (flooded (relay_frame r) (some from) s.manager.peer_writers)
            h.sent (flooded-All r (some from) s.manager.peer_writers q);
    })
  ]

  originate-IsGenuine : (r : Relay) (s : Site S) → Q r → IsGenuine s → IsGenuine (originate r s)
  unfolding originate relay_message flood
  originate-IsGenuine r s q h = record {
    delivered = h.delivered;
    sent =
        All-append Of s.manager.sent (flooded (relay_frame r) none s.manager.peer_writers) h.sent
          (flooded-All r none s.manager.peer_writers q);
  }

  module _ (far_end : ℕ → Text) where
    abbrev AllGenuine : Network S → Type 0
    AllGenuine n = (b : Text) → IsGenuine (n b)

    with_site-AllGenuine :
        (a : Text) (s : Site S) (n : Network S)
        → IsGenuine s
        → AllGenuine n
        → AllGenuine (with_site a s n)
    with_site-AllGenuine a s n = with_site-each (λ b t. IsGenuine t) a s n

    left_with-AllGenuine :
        (a : Text) (i : ℕ) (f : ℕ × MeshFrame S) (rest : List (ℕ × MeshFrame S)) (n : Network S)
        → take_out i (n a).manager.sent ≡ some (f, rest)
        → AllGenuine n
        → Of f × AllGenuine (with_site a (left_with rest (n a)) n)
    unfolding left_with
    left_with-AllGenuine a i f rest n taken all =
        let (first, others) = take_out-All i (n a).manager.sent f rest taken (all a).sent in
        (
          first,
          with_site-AllGenuine a (left_with rest (n a)) n
              (record { delivered = (all a).delivered; sent = others }) all,
        )

    arrive-AllGenuine :
        (from : Text) (f : ℕ × MeshFrame S) (n : Network S)
        → Of f × AllGenuine n
        → AllGenuine (arrive far_end from f n)
    unfolding arrive
    arrive-AllGenuine from (w, relay_frame r) n (q, all) =
        with_site-AllGenuine (far_end w) (receive from r (n (far_end w))) n
          (receive-IsGenuine from r (n (far_end w)) q (all (far_end w))) all
    arrive-AllGenuine from (w, session_query i j) n (q, all) = all
    arrive-AllGenuine from (w, session_state i j s) n (q, all) = all
    arrive-AllGenuine from (w, peer_hello node_id) n (q, all) = all
    arrive-AllGenuine from (w, ping) n (q, all) = all
    arrive-AllGenuine from (w, pong) n (q, all) = all

    run-AllGenuine :
        (events : List NetEvent) (n : Network S)
        → ((r : Relay) → IsMinted r events → Q r)
        → AllGenuine n
        → AllGenuine (run far_end events n)
    unfolding run step carried lost IsMinted link_up link_down
    run-AllGenuine [] n known all = all
    run-AllGenuine (originates a r ∷ events) n known all =
        run-AllGenuine events (step far_end (originates a r) n) (λ q later. known q (inr later))
          (with_site-AllGenuine a (originate r (n a)) n
            (originate-IsGenuine r (n a) (known r (inl refl)) (all a)) all)
    run-AllGenuine (carries a i ∷ events) n known all =
        run-AllGenuine events (step far_end (carries a i) n) known
          (elim (Option-cases (take_out i (n a).manager.sent)) [
            | inl nothing ↦ rw nothing all
            | inr ((f, rest), taken) ↦ rw taken (
                arrive-AllGenuine a f (with_site a (left_with rest (n a)) n)
                  (left_with-AllGenuine a i f rest n taken all))
          ])
    run-AllGenuine (loses a i ∷ events) n known all =
        run-AllGenuine events (step far_end (loses a i) n) known
          (elim (Option-cases (take_out i (n a).manager.sent)) [
            | inl nothing ↦ rw nothing all
            | inr ((f, rest), taken) ↦ rw taken (left_with-AllGenuine a i f rest n taken all).1
          ])
    run-AllGenuine (links a p w ∷ events) n known all =
        run-AllGenuine events (step far_end (links a p w) n) known (
          with_site-AllGenuine a (record (n a) { manager = link_up p w (n a).manager }) n
            (record { delivered = (all a).delivered; sent = (all a).sent }) all)
    run-AllGenuine (unlinks a p w ∷ events) n known all =
        run-AllGenuine events (step far_end (unlinks a p w) n) known (
          with_site-AllGenuine a (record (n a) { manager = link_down p w (n a).manager }) n
            (record { delivered = (all a).delivered; sent = (all a).sent }) all)

-- Every message that a node delivers is one that a node has put into the mesh, with its room, its
-- text, its sender and its time unchanged, whatever happens to the frames and the links. The network
-- starts from nodes that have just been made.
pub delivered-IsMinted :
    (S : Type 0) (far_end : ℕ → Text) (size : ℕ) (peers : Text → Dict Text ℕ)
    (events : List NetEvent) (b : Text)
    → All
        (λ r. IsMinted r events)
        (run far_end events (fresh_network {S = S} size peers) b).manager.delivered
unfolding fresh DedupCache.init
delivered-IsMinted S far_end size peers events b =
    (run-AllGenuine S (λ r. IsMinted r events) far_end events (fresh_network {S = S} size peers)
      (λ r minted. minted) (λ c. record { delivered = tt; sent = tt }) b).delivered
