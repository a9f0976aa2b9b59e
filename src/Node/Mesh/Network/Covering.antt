-- ===== src/Node/Mesh/Network/Covering.antt =====
-- What a node has handled, its peers have handled or still get.
use clustertalk_githubaction.Prelude.{
  ℕ, ◌≡◌, ◌∙◌, ap, arith, Bool, true, ◌||◌, some, List, [], ◌∷◌, Text, nat_eq, list_eq, text_eq_iff,
  Bool-cases, inl, inr,
}
use clustertalk_githubaction.Prelude.Dict
use clustertalk_githubaction.Prelude.Dict.{Dict}
use clustertalk_githubaction.Node.Mesh.{Relay, MeshFrame, relay_frame}
use clustertalk_githubaction.Node.Mesh.Network.{
  Site, Network, take_out, with_site, receive, originate, left_with, has_handled, has_frame,
}
use clustertalk_githubaction.Node.Mesh.Network.Sites.{
  with_site-each, with_site_self, has_frame-take_out,
}
use clustertalk_githubaction.Node.Mesh.Network.Turns.{
  IsHonest, has_handled-receive_only, has_handled-receive_mono, has_handled-receive,
  has_frame-receive_mono, peers-receive, has_frame-receive, has_handled-left_with,
}
use clustertalk_githubaction.Node.Mesh.Network.Origins.{
  peers-originate, has_handled-originate, has_frame-originate_mono, has_frame-originate,
}

module _ {S : Type 0} where
  -- Whether the peer `p` behind the writer `w` has handled a message, or still gets it: from the
  -- node `s`, or by one of the loose frames
  abbrev pub reaches : Network S → List (ℕ × MeshFrame S) → Text → Text → ℕ → Site S → Bool
  reaches n loose x p w s =
      has_handled x (n p) || (has_frame w x s.manager.sent || has_frame w x loose)

  abbrev pub IsCovered : List (ℕ × MeshFrame S) → Network S → Type 0
  IsCovered loose n =
      (a x p : Text) (w : ℕ)
      → has_handled x (n a) ≡ true
      → Dict.get p (n a).manager.peer_writers ≡ some w
      → reaches n loose x p w (n a) ≡ true

  -- Replacing a node by one that has handled no less
  with_site-IsCovered :
      (loose before : List (ℕ × MeshFrame S)) (a : Text) (s : Site S) (n : Network S)
      → IsCovered before n
      → ((x : Text) → has_handled x (n a) ≡ true → has_handled x s ≡ true)
      → ((b x p : Text) (w : ℕ)
          → Dict.get p (n b).manager.peer_writers ≡ some w
          → reaches n before x p w (n b) ≡ true
          → reaches (with_site a s n) loose x p w (n b) ≡ true)
      → ((x p : Text) (w : ℕ)
          → has_handled x s ≡ true
          → Dict.get p s.manager.peer_writers ≡ some w
          → reaches (with_site a s n) loose x p w s ≡ true)
      → IsCovered loose (with_site a s n)
  with_site-IsCovered loose before a s n covered more others here b x p w =
      with_site-each
        (λ c t.
          has_handled x t ≡ true
          → Dict.get p t.manager.peer_writers ≡ some w
          → reaches (with_site a s n) loose x p w t ≡ true)
        a s n (here x p w) (λ c handled link. others c x p w link (covered c x p w handled link)) b

  pub has_handled-with_site :
      (x a : Text) (s : Site S) (n : Network S)
      → (has_handled x (n a) ≡ true → has_handled x s ≡ true)
      → (b : Text) → has_handled x (n b) ≡ true
      → has_handled x (with_site a s n b) ≡ true
  has_handled-with_site x a s n more =
      with_site-each (λ b t. has_handled x (n b) ≡ true → has_handled x t ≡ true) a s n more
        (λ b h. h)

  pub originate-IsCovered :
      (a : Text) (r : Relay) (n : Network S)
      → IsCovered [] n
      → IsCovered [] (with_site a (originate r (n a)) n)
  originate-IsCovered a r n covered =
      let s = originate r (n a) in
      let more : (x : Text) → has_handled x (n a) ≡ true → has_handled x s ≡ true =
        λ x h. ground (arith, h, has_handled-originate x r (n a)) in
      with_site-IsCovered [] [] a s n covered more
        (λ b x p w link reached. ground (arith, reached, has_handled-with_site x a s n (more x) p))
        (λ x p w handled link.
          let link' : Dict.get p (n a).manager.peer_writers ≡ some w =
            rw (← peers-originate r (n a)) link in
          ground (
            arith,
            handled,
            has_handled-originate x r (n a),
            covered a x p w,
            link',
            has_handled-with_site x a s n (more x) p,
            has_frame-originate_mono w x r (n a),
            has_frame-originate p w r (n a) link',
            text_eq_iff r.msg_id x,
          ))

  pub left_with-IsCovered :
      (a : Text) (i : ℕ) (f : ℕ × MeshFrame S) (rest : List (ℕ × MeshFrame S)) (n : Network S)
      → take_out i (n a).manager.sent ≡ some (f, rest)
      → IsCovered [] n
      → IsCovered (f ∷ []) (with_site a (left_with rest (n a)) n)
  unfolding has_frame left_with
  left_with-IsCovered a i f rest n taken covered =
      let s = left_with rest (n a) in
      let same : (x : Text) → has_handled x (n a) ≡ true → has_handled x s ≡ true =
        λ x h. has_handled-left_with x rest (n a) ∙ h in
      with_site-IsCovered (f ∷ []) [] a s n covered same
        (λ b x p w link reached. ground (arith, reached, has_handled-with_site x a s n (same x) p))
        (λ x p w handled link. ground (
          arith,
          handled,
          has_handled-left_with x rest (n a),
          covered a x p w,
          link,
          has_handled-with_site x a s n (same x) p,
          has_frame-take_out w x i (n a).manager.sent f rest taken,
        ))

  -- The frame that arrives was sent by `from`.
  pub receive-IsCovered :
      (from : Text) (w : ℕ) (r : Relay) (p : Text) (n : Network S)
      → ((b q : Text) → Dict.get q (n b).manager.peer_writers ≡ some w → p ≡ q)
      → IsHonest (n p)
      → has_handled r.msg_id (n from) ≡ true
      → IsCovered ((w, relay_frame r) ∷ []) n
      → IsCovered [] (with_site p (receive from r (n p)) n)
  unfolding has_frame
  receive-IsCovered from w r p n wired honest sent covered =
      let s = receive from r (n p) in
      let more : (x : Text) → has_handled x (n p) ≡ true → has_handled x s ≡ true =
        λ x. has_handled-receive_mono x from r (n p) in
      let arrived : has_handled r.msg_id (with_site p s n p) ≡ true =
        ap (has_handled r.msg_id) (with_site_self p s n)
        ∙ has_handled-receive from r (n p) honest in
      let settle : (b x q : Text) (v : ℕ)
          → Dict.get q (n b).manager.peer_writers ≡ some v
          → reaches n ((w, relay_frame r) ∷ []) x q v (n b) ≡ true
          → (has_handled x (with_site p s n q) || has_frame v x (n b).manager.sent) ≡ true =
        λ b x q v link reached. ground (
          arith,
          link,
          reached,
          wired b q,
          arrived,
          text_eq_iff r.msg_id x,
          has_handled-with_site x p s n (more x) q,
        ) in
      with_site-IsCovered [] ((w, relay_frame r) ∷ []) p s n covered more
        (λ b x q v link reached. ground (arith, settle b x q v link reached))
        (λ x q v handled link.
          let link' : Dict.get q (n p).manager.peer_writers ≡ some v =
            rw (← peers-receive from r (n p)) link in
          elim (Bool-cases (has_handled x (n p))) [
            | inl before ↦ ground (
              arith,
              settle p x q v link' (covered p x q v before link'),
              has_frame-receive_mono v x from r (n p),
            )
            | inr new ↦ ground (
              arith,
              new,
              handled,
              has_handled-receive_only x from r (n p) handled,
              text_eq_iff r.msg_id x,
              text_eq_iff q from,
              sent,
              has_handled-with_site x p s n (more x) from,
              has_frame-receive q v x from r (n p) link' new handled,
            )
          ])
