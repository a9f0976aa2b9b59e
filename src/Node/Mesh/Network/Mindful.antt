-- ===== src/Node/Mesh/Network/Mindful.antt =====
-- Every event of the network leaves its nodes mindful of what they have handled.
use clustertalk_githubaction.Prelude.{
  ℕ, suc, ◌+◌, ◌<◌, ◌≤◌, ◌≡◌, arith, true, false, some, List, [], ◌∷◌, length, Text, nat_eq,
  list_eq, text_eq_iff, Option-cases, inl, inr,
}
use clustertalk_githubaction.Prelude.Set
use clustertalk_githubaction.Node.DedupCache.Window.{IsUnique}
use clustertalk_githubaction.Node.Mesh.{
  MeshFrame, relay_frame, session_query, session_state, peer_hello, ping, pong, link_up, link_down,
}
use clustertalk_githubaction.Node.Mesh.Network.{
  Site, Network, NetEvent, originates, carries, loses, links, unlinks, take_out, with_site, receive,
  originate, left_with, has_frame, arrive, carried, lost, step, run, minted,
}
use clustertalk_githubaction.Node.Mesh.Network.Sites.{with_site-each, has_frame-take_out}
use clustertalk_githubaction.Node.Mesh.Network.Once.{
  IsMindful, wait-IsMindful, receive-IsMindful, originate-IsMindful, left_with-IsMindful,
  link_up-IsMindful, link_down-IsMindful,
}

module _ {S : Type 0} (far_end : ℕ → Text) (size : ℕ) where
  -- Every node is mindful, and so it stays when one is replaced.
  abbrev pub AllMindful : ℕ → List Text → Network S → Type 0
  AllMindful k coming n = (b : Text) → IsMindful size k coming (n b)

  with_site-AllMindful :
      (k : ℕ) (coming : List Text) (a : Text) (s : Site S) (n : Network S)
      → IsMindful size k coming s
      → AllMindful k coming n
      → AllMindful k coming (with_site a s n)
  with_site-AllMindful k coming a s n here all =
      with_site-each (λ b t. IsMindful size k coming t) a s n here all

  waited :
      (k : ℕ) (coming : List Text) (n : Network S)
      → AllMindful k coming n
      → AllMindful (suc k) coming n
  waited k coming n all b = wait-IsMindful size k (suc k) coming (n b) (omega arith) (all b)

  -- A message that is minted is no longer to come.
  minted-IsMindful :
      (k : ℕ) (x : Text) (coming : List Text) (s : Site S)
      → IsMindful size k (x ∷ coming) s
      → IsMindful size k coming s
  unfolding Set.contains
  minted-IsMindful k x coming s h = record {
    honest = h.honest;
    sized = h.sized;
    small = h.small;
    remembers = h.remembers;
    unique = h.unique;
    apart = h.apart;
    unheard = λ y later. h.unheard y (ground (arith, later));
  }

  left_with-AllMindful :
      (k : ℕ) (coming : List Text) (a : Text) (i : ℕ) (f : ℕ × MeshFrame S)
      (rest : List (ℕ × MeshFrame S)) (n : Network S)
      → take_out i (n a).manager.sent ≡ some (f, rest)
      → AllMindful k coming n
      → AllMindful k coming (with_site a (left_with rest (n a)) n)
  left_with-AllMindful k coming a i f rest n taken all =
      with_site-AllMindful k coming a (left_with rest (n a)) n
        (left_with-IsMindful size k coming rest (n a)
          (λ w x there.
            ground (arith, there, has_frame-take_out w x i (n a).manager.sent f rest taken))
          (all a))
        all

  arrive-AllMindful :
      (k : ℕ) (coming : List Text) (from : Text) (f : ℕ × MeshFrame S) (n : Network S)
      → k < size
      → ((w : ℕ) (x : Text) → has_frame w x (f ∷ []) ≡ true → Set.contains x coming ≡ false)
      → AllMindful k coming n
      → AllMindful (suc k) coming (arrive far_end from f n)
  unfolding arrive has_frame
  arrive-AllMindful k coming from (w, relay_frame r) n room old all =
      let p = far_end w in
      with_site-AllMindful (suc k) coming p (receive from r (n p)) n
        (receive-IsMindful from r (n p) size k coming room
          (old w r.msg_id (ground (arith, text_eq_iff r.msg_id r.msg_id))) (all p))
        (waited k coming n all)
  arrive-AllMindful k coming from (w, session_query i j) n room old all = waited k coming n all
  arrive-AllMindful k coming from (w, session_state i j s) n room old all = waited k coming n all
  arrive-AllMindful k coming from (w, peer_hello node_id) n room old all = waited k coming n all
  arrive-AllMindful k coming from (w, ping) n room old all = waited k coming n all
  arrive-AllMindful k coming from (w, pong) n room old all = waited k coming n all

  -- What a node sends is not still to come.
  sent_old :
      (k : ℕ) (coming : List Text) (a : Text) (i : ℕ) (f : ℕ × MeshFrame S)
      (rest : List (ℕ × MeshFrame S)) (n : Network S)
      → take_out i (n a).manager.sent ≡ some (f, rest)
      → IsMindful size k coming (n a)
      → (w : ℕ) (x : Text) → has_frame w x (f ∷ []) ≡ true
      → Set.contains x coming ≡ false
  sent_old k coming a i f rest n taken h w x there = ground (
    arith,
    there,
    has_frame-take_out w x i (n a).manager.sent f rest taken,
    h.honest.sends w x,
    h.unheard x,
  )

  carried-AllMindful :
      (k : ℕ) (coming : List Text) (a : Text) (i : ℕ) (n : Network S)
      → k < size
      → AllMindful k coming n
      → AllMindful (suc k) coming (step far_end (carries a i) n)
  unfolding step carried
  carried-AllMindful k coming a i n room all = elim (Option-cases (take_out i (n a).manager.sent)) [
    | inl nothing ↦ rw nothing (waited k coming n all)
    | inr ((f, rest), taken) ↦ rw taken (
        arrive-AllMindful k coming a f (with_site a (left_with rest (n a)) n) room
          (sent_old k coming a i f rest n taken (all a))
          (left_with-AllMindful k coming a i f rest n taken all))
  ]

  lost-AllMindful :
      (k : ℕ) (coming : List Text) (a : Text) (i : ℕ) (n : Network S)
      → AllMindful k coming n
      → AllMindful k coming (step far_end (loses a i) n)
  unfolding step lost
  lost-AllMindful k coming a i n all = elim (Option-cases (take_out i (n a).manager.sent)) [
    | inl nothing ↦ rw nothing all
    | inr ((f, rest), taken) ↦ rw taken (left_with-AllMindful k coming a i f rest n taken all)
  ]

  pub run-AllMindful :
      (events : List NetEvent) (k : ℕ) (n : Network S)
      → k + length events ≤ size
      → IsUnique (minted events)
      → AllMindful k (minted events) n
      → AllMindful size [] (run far_end events n)
  unfolding run step minted
  run-AllMindful [] k n room unique all =
      λ b. wait-IsMindful size k size [] (n b) (omega arith) (all b)
  run-AllMindful (originates a r ∷ events) k n room unique all =
      let rest = minted events in
      run-AllMindful events (suc k) (step far_end (originates a r) n) (omega arith) unique.1 (
        with_site-AllMindful (suc k) rest a (originate r (n a)) n
          (originate-IsMindful r (n a) size k rest (omega arith) unique.0 (all a))
          (waited k rest n (λ b. minted-IsMindful k r.msg_id rest (n b) (all b))))
  run-AllMindful (carries a i ∷ events) k n room unique all =
      run-AllMindful events (suc k) (step far_end (carries a i) n) (omega arith) unique
        (carried-AllMindful k (minted events) a i n (omega arith) all)
  run-AllMindful (loses a i ∷ events) k n room unique all =
      run-AllMindful events k (step far_end (loses a i) n) (omega arith) unique
        (lost-AllMindful k (minted events) a i n all)
  run-AllMindful (links a p w ∷ events) k n room unique all =
      run-AllMindful events k (step far_end (links a p w) n) (omega arith) unique (
        with_site-AllMindful k (minted events) a
          (record (n a) { manager = link_up p w (n a).manager }) n
          (link_up-IsMindful size k (minted events) p w (n a) (all a)) all)
  run-AllMindful (unlinks a p w ∷ events) k n room unique all =
      run-AllMindful events k (step far_end (unlinks a p w) n) (omega arith) unique (
        with_site-AllMindful k (minted events) a
          (record (n a) { manager = link_down p w (n a).manager }) n
          (link_down-IsMindful size k (minted events) p w (n a) (all a)) all)
