-- ===== src/Node/Mesh/Network/Agreement.antt =====
-- When no frame is lost and no link changes, a message reaches every node that the links reach.
use clustertalk_githubaction.Prelude.{
  ℕ, ◌≡◌, refl, ap, arith, true, some, List, [], ◌∷◌, Text, nat_eq, list_eq, text_eq_iff,
  Option-cases, inl, inr,
}
use clustertalk_githubaction.Prelude.Dict
use clustertalk_githubaction.Prelude.Dict.{Dict}
use clustertalk_githubaction.Node.Mesh.{
  Relay, MeshFrame, relay_frame, session_query, session_state, peer_hello, ping, pong,
}
use clustertalk_githubaction.Node.Mesh.Network.{
  Site, Network, NetEvent, originates, carries, loses, links, unlinks, take_out, with_site, receive,
  originate, left_with, has_handled, has_frame, arrive, carried, step, run, IsSteady,
}
use clustertalk_githubaction.Node.Mesh.Network.Sites.{
  with_site-each, with_site_self, has_frame-take_out,
}
use clustertalk_githubaction.Node.Mesh.Network.Covering.{
  IsCovered, originate-IsCovered, left_with-IsCovered, receive-IsCovered,
}
use clustertalk_githubaction.Node.Mesh.Network.Turns.{
  IsHonest, peers-receive, receive-IsHonest, left_with-IsHonest, has_handled-left_with,
}
use clustertalk_githubaction.Node.Mesh.Network.Origins.{peers-originate, originate-IsHonest}

module _ {S : Type 0} where
  module _ (far_end : ℕ → Text) where
    -- The writer of a peer leads to that peer.
    abbrev pub IsWired : Network S → Type 0
    IsWired n =
        (b q : Text) (w : ℕ) → Dict.get q (n b).manager.peer_writers ≡ some w → far_end w ≡ q

    pub record IsSettling (n : Network S) : Type 0 where
      pub honest : (b : Text) → IsHonest (n b)
      pub wired : IsWired n
      pub covered : IsCovered [] n

    with_site-IsWired :
        (a : Text) (s : Site S) (n : Network S)
        → IsWired n
        → s.manager.peer_writers ≡ (n a).manager.peer_writers
        → IsWired (with_site a s n)
    with_site-IsWired a s n wired same =
        with_site-each
          (λ b t. (q : Text) (w : ℕ) → Dict.get q t.manager.peer_writers ≡ some w → far_end w ≡ q) a
          s n (λ q w link. wired a q w (rw (← same) link)) wired

    with_site-IsHonest :
        (a : Text) (s : Site S) (n : Network S)
        → ((b : Text) → IsHonest (n b))
        → IsHonest s
        → (b : Text) → IsHonest (with_site a s n b)
    with_site-IsHonest a s n honest here = with_site-each (λ b t. IsHonest t) a s n here honest

    originate-IsSettling :
        (a : Text) (r : Relay) (n : Network S)
        → IsSettling n
        → IsSettling (with_site a (originate r (n a)) n)
    originate-IsSettling a r n h = record {
      honest =
          with_site-IsHonest a (originate r (n a)) n h.honest
            (originate-IsHonest r (n a) (h.honest a));
      wired = with_site-IsWired a (originate r (n a)) n h.wired (peers-originate r (n a));
      covered = originate-IsCovered a r n h.covered;
    }

    arrive-IsSettling :
        (from : Text) (f : ℕ × MeshFrame S) (n : Network S)
        → ((b : Text) → IsHonest (n b))
        → IsWired n
        → IsCovered (f ∷ []) n
        → ((w : ℕ) (x : Text) → has_frame w x (f ∷ []) ≡ true → has_handled x (n from) ≡ true)
        → IsSettling (arrive far_end from f n)
    unfolding arrive has_frame
    arrive-IsSettling from (w, relay_frame r) n honest wired covered sent =
        let p = far_end w in
        record {
          honest =
              with_site-IsHonest p (receive from r (n p)) n honest
                (receive-IsHonest from r (n p) (honest p));
          wired = with_site-IsWired p (receive from r (n p)) n wired (peers-receive from r (n p));
          covered =
              receive-IsCovered from w r p n (λ b q link. wired b q w link) (honest p)
                (sent w r.msg_id (ground (arith, text_eq_iff r.msg_id r.msg_id))) covered;
        }
    arrive-IsSettling from (w, session_query i j) n honest wired covered sent = record {
      honest = honest;
      wired = wired;
      covered = covered;
    }
    arrive-IsSettling from (w, session_state i j s) n honest wired covered sent = record {
      honest = honest;
      wired = wired;
      covered = covered;
    }
    arrive-IsSettling from (w, peer_hello node_id) n honest wired covered sent = record {
      honest = honest;
      wired = wired;
      covered = covered;
    }
    arrive-IsSettling from (w, ping) n honest wired covered sent = record {
      honest = honest;
      wired = wired;
      covered = covered;
    }
    arrive-IsSettling from (w, pong) n honest wired covered sent = record {
      honest = honest;
      wired = wired;
      covered = covered;
    }

    carried-IsSettling :
        (a : Text) (i : ℕ) (f : ℕ × MeshFrame S) (rest : List (ℕ × MeshFrame S)) (n : Network S)
        → take_out i (n a).manager.sent ≡ some (f, rest)
        → IsSettling n
        → IsSettling (arrive far_end a f (with_site a (left_with rest (n a)) n))
    carried-IsSettling a i f rest n taken h =
        let s = left_with rest (n a) in
        arrive-IsSettling a f (with_site a s n)
          (with_site-IsHonest a s n h.honest (
            left_with-IsHonest rest (n a)
              (λ w x there.
                ground (arith, there, has_frame-take_out w x i (n a).manager.sent f rest taken))
              (h.honest a)))
          (with_site-IsWired a s n h.wired (unfold left_with in refl))
          (left_with-IsCovered a i f rest n taken h.covered)
          (λ w x there. ground (
            arith,
            there,
            has_frame-take_out w x i (n a).manager.sent f rest taken,
            (h.honest a).sends w x,
            ap (has_handled x) (with_site_self a s n),
            has_handled-left_with x rest (n a),
          ))

    pub run-IsSettling :
        (events : List NetEvent) (n : Network S)
        → IsSteady events
        → IsSettling n
        → IsSettling (run far_end events n)
    unfolding run step carried IsSteady
    run-IsSettling [] n steady h = h
    run-IsSettling (originates a r ∷ events) n steady h =
        run-IsSettling events (step far_end (originates a r) n) steady
          (originate-IsSettling a r n h)
    run-IsSettling (carries a i ∷ events) n steady h =
        run-IsSettling events (step far_end (carries a i) n) steady
          (elim (Option-cases (take_out i (n a).manager.sent)) [
            | inl nothing ↦ rw nothing h
            | inr ((f, rest), taken) ↦ rw taken (carried-IsSettling a i f rest n taken h)
          ])
    run-IsSettling (loses a i ∷ events) n steady h = absurd steady
    run-IsSettling (links a p w ∷ events) n steady h = absurd steady
    run-IsSettling (unlinks a p w ∷ events) n steady h = absurd steady

-- The links of a network reach a node.
pub data Reaches {S : Type 0} (n : Network S) (o : Text) : Text → Type 0 where
  starts : Reaches n o o
  link :
      {a p : Text} {w : ℕ}
      → Reaches n o a
      → Dict.get p (n a).manager.peer_writers ≡ some w
      → Reaches n o p

module _ {S : Type 0} (far_end : ℕ → Text) where
  pub handled-Reaches :
      (n : Network S)
      → IsSettling far_end n
      → ((b : Text) → (n b).manager.sent ≡ [])
      → (x o : Text) → has_handled x (n o) ≡ true
      → (b : Text) → Reaches n o b
      → has_handled x (n b) ≡ true
  unfolding has_frame
  handled-Reaches n h drained x o sent b starts = sent
  handled-Reaches n h drained x o sent b (link {a} {p} {w} there next) = ground (
    arith,
    h.covered a x b w (handled-Reaches n h drained x o sent a there) next,
    ap (has_frame w x) (drained a),
  )
