-- ===== src/Node/Mesh/Network/Sites.antt =====
-- What one node does with a frame, a message of its own, and a frame that has left it.
use clustertalk_githubaction.Prelude.{
  ℕ, zero, suc, ◌≡◌, refl, arith, true, false, ◌||◌, Option, none, some, List, [], ◌∷◌, ◌++◌,
  if◌then◌else◌, Text, ◌==◌, nat_eq, list_eq, text_eq_iff, Bool-cases, Option-cases, eq_refl, inl,
  inr,
}
use clustertalk_githubaction.Prelude.Dict
use clustertalk_githubaction.Prelude.Dict.{Dict}
use clustertalk_githubaction.Prelude.Set
use mathlib.Core.Path.{subst}
use clustertalk_githubaction.Node.DedupCache.{seen_before}
use clustertalk_githubaction.Node.Mesh.{
  Relay, MeshFrame, relay_frame, session_query, session_state, peer_hello, ping, pong, flooded,
  flood, on_relay,
}
use clustertalk_githubaction.Node.Mesh.Network.{
  Site, Network, ids, take_out, with_site, receive, has_frame,
}

pub contains-ids_append :
    (x : Text) (rs : List Relay) (r : Relay)
    → Set.contains x (ids (rs ++ (r ∷ []))) ≡ (Set.contains x (ids rs) || (r.msg_id == x))
unfolding Set.contains
contains-ids_append x [] r = ground arith
contains-ids_append x (q ∷ rs) r = ground (arith, contains-ids_append x rs r)

module _ {S : Type 0} where
  -- A property of every node holds after one is replaced if it holds of the new one.
  pub with_site-each {ℓ} :
      (P : Text → Site S → Type ℓ) (a : Text) (s : Site S) (n : Network S)
      → P a s
      → ((b : Text) → P b (n b))
      → (b : Text) → P b (with_site a s n b)
  unfolding with_site
  with_site-each P a s n here others b = elim (Bool-cases (a == b)) [
    | inl same ↦
        subst (λ c. P c (if a == c then s else n c)) ((text_eq_iff a b).0 same)
          (rw (eq_refl a) here)
    | inr other ↦ rw other (others b)
  ]

  pub with_site_self : (a : Text) (s : Site S) (n : Network S) → with_site a s n a ≡ s
  unfolding with_site
  with_site_self a s n = rw (eq_refl a) refl

  pub has_frame-append :
      (w : ℕ) (x : Text) (fs gs : List (ℕ × MeshFrame S))
      → has_frame w x (fs ++ gs) ≡ (has_frame w x fs || has_frame w x gs)
  unfolding has_frame
  has_frame-append w x [] gs = refl
  has_frame-append w x ((v, relay_frame r) ∷ fs) gs = ground (arith, has_frame-append w x fs gs)
  has_frame-append w x ((v, session_query i j) ∷ fs) gs = has_frame-append w x fs gs
  has_frame-append w x ((v, session_state i j s) ∷ fs) gs = has_frame-append w x fs gs
  has_frame-append w x ((v, peer_hello node_id) ∷ fs) gs = has_frame-append w x fs gs
  has_frame-append w x ((v, ping) ∷ fs) gs = has_frame-append w x fs gs
  has_frame-append w x ((v, pong) ∷ fs) gs = has_frame-append w x fs gs

module _ (S : Type 0) where
  -- A flood is of the message alone.
  pub has_frame-flooded_id :
      (w : ℕ) (x : Text) (r : Relay) (exclude : Option Text) (peers : Dict Text ℕ)
      → has_frame w x (flooded {S = S} (relay_frame r) exclude peers) ≡ true
      → r.msg_id ≡ x
  unfolding has_frame flooded
  has_frame-flooded_id w x r exclude [] h = ground (arith, h)
  has_frame-flooded_id w x r none ((p, v) ∷ peers) h =
      ground (arith, h, has_frame-flooded_id w x r none peers, text_eq_iff r.msg_id x)
  has_frame-flooded_id w x r (some q) ((p, v) ∷ peers) h =
      ground (arith, h, has_frame-flooded_id w x r (some q) peers, text_eq_iff r.msg_id x)

  -- A flood reaches the writer of every peer.
  pub has_frame-flooded :
      (p : Text) (w : ℕ) (r : Relay) (peers : Dict Text ℕ)
      → Dict.get p peers ≡ some w
      → has_frame w r.msg_id (flooded {S = S} (relay_frame r) none peers) ≡ true
  unfolding has_frame flooded Dict.get
  has_frame-flooded p w r [] h = ground (arith, h)
  has_frame-flooded p w r ((q, v) ∷ peers) h =
      ground (arith, h, has_frame-flooded p w r peers, text_eq_iff r.msg_id r.msg_id)

  pub has_frame-flooded_other :
      (p : Text) (w : ℕ) (r : Relay) (from : Text) (peers : Dict Text ℕ)
      → Dict.get p peers ≡ some w
      → (p == from) ≡ false
      → has_frame w r.msg_id (flooded {S = S} (relay_frame r) (some from) peers) ≡ true
  unfolding has_frame flooded Dict.get
  has_frame-flooded_other p w r from [] h other = ground (arith, h)
  has_frame-flooded_other p w r from ((q, v) ∷ peers) h other = ground (
    arith,
    h,
    other,
    has_frame-flooded_other p w r from peers,
    text_eq_iff r.msg_id r.msg_id,
    text_eq_iff q p,
  )

module _ {S : Type 0} where
  pub receive_seen :
      (from : Text) (r : Relay) (s : Site S)
      → (seen_before r.msg_id s.manager.dedup).0 ≡ true
      → receive from r s ≡ record s {
        manager = record s.manager { dedup = (seen_before r.msg_id s.manager.dedup).1 };
      }
  unfolding receive on_relay flood
  receive_seen from r s seen = rw seen refl

  pub receive_new :
      (from : Text) (r : Relay) (s : Site S)
      → (seen_before r.msg_id s.manager.dedup).0 ≡ false
      → receive from r s ≡ record s {
        manager = record s.manager {
          dedup = (seen_before r.msg_id s.manager.dedup).1;
          delivered = s.manager.delivered ++ (r ∷ []);
          sent = s.manager.sent ++ flooded (relay_frame r) (some from) s.manager.peer_writers;
        };
      }
  unfolding receive on_relay flood
  receive_new from r s new = rw new refl

  -- Taking a frame out of the frames of a node
  pub has_frame-take_out :
      (w : ℕ) (x : Text) (i : ℕ) (fs : List (ℕ × MeshFrame S)) (f : ℕ × MeshFrame S)
      (rest : List (ℕ × MeshFrame S))
      → take_out i fs ≡ some (f, rest)
      → has_frame w x fs ≡ (has_frame w x (f ∷ []) || has_frame w x rest)
  has_frame-take_out w x i [] f rest taken = ground (arith, taken)
  has_frame-take_out w x zero (g ∷ fs) f rest taken =
      ground (arith, taken, has_frame-append w x (f ∷ []) rest)
  has_frame-take_out w x (suc i) (g ∷ fs) f rest taken = elim (Option-cases (take_out i fs)) [
    | inl nothing ↦ ground (arith, taken, nothing)
    | inr ((h, others), found) ↦ ground (
      arith,
      taken,
      found,
      has_frame-take_out w x i fs h others found,
      has_frame-append w x (g ∷ []) fs,
      has_frame-append w x (g ∷ []) others,
    )
  ]
