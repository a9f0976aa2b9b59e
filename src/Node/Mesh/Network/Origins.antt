-- ===== src/Node/Mesh/Network/Origins.antt =====
-- What a node has handled, and what it has to send, after a message of its own.
use clustertalk_githubaction.Prelude.{
  ℕ, ◌≡◌, refl, ap, arith, true, ◌||◌, none, some, ◌++◌, Text, ◌==◌, nat_eq, list_eq, text_eq_iff,
}
use clustertalk_githubaction.Prelude.Dict
use clustertalk_githubaction.Prelude.Set
use clustertalk_githubaction.Node.DedupCache.{seen_before}
use clustertalk_githubaction.Node.DedupCache.Recall.{contains-seen_before_only}
use clustertalk_githubaction.Node.Mesh.{Relay, relay_frame, flooded, flood, relay_message}
use clustertalk_githubaction.Node.Mesh.Network.{
  Site, originate, has_delivered, has_originated, has_handled, has_frame,
}
use clustertalk_githubaction.Node.Mesh.Network.Sites.{
  has_frame-append, has_frame-flooded_id, has_frame-flooded,
}
use clustertalk_githubaction.Node.Mesh.Network.Turns.{IsHonest}

module _ {S : Type 0} where
  pub dedup-originate :
      (r : Relay) (s : Site S)
      → (originate r s).manager.dedup ≡ (seen_before r.msg_id s.manager.dedup).1
  unfolding originate relay_message flood
  dedup-originate r s = refl

  pub sent-originate :
      (r : Relay) (s : Site S)
      → (originate r s).manager.sent
        ≡ s.manager.sent ++ flooded (relay_frame r) none s.manager.peer_writers
  unfolding originate relay_message flood
  sent-originate r s = refl

  pub peers-originate :
      (r : Relay) (s : Site S) → (originate r s).manager.peer_writers ≡ s.manager.peer_writers
  unfolding originate relay_message flood
  peers-originate r s = refl

  pub has_handled-originate :
      (x : Text) (r : Relay) (s : Site S)
      → has_handled x (originate r s) ≡ (has_handled x s || (r.msg_id == x))
  unfolding has_handled has_delivered has_originated originate relay_message flood Set.contains
  has_handled-originate x r s = ground arith

  has_frame-originate_only :
      (w : ℕ) (x : Text) (r : Relay) (s : Site S)
      → has_frame w x (originate r s).manager.sent ≡ true
      → (has_frame w x s.manager.sent || (r.msg_id == x)) ≡ true
  has_frame-originate_only w x r s h = ground (
    arith,
    h,
    ap (has_frame w x) (sent-originate r s),
    has_frame-append w x s.manager.sent (flooded (relay_frame r) none s.manager.peer_writers),
    has_frame-flooded_id S w x r none s.manager.peer_writers,
    text_eq_iff r.msg_id x,
  )

  pub has_frame-originate_mono :
      (w : ℕ) (x : Text) (r : Relay) (s : Site S)
      → has_frame w x s.manager.sent ≡ true
      → has_frame w x (originate r s).manager.sent ≡ true
  has_frame-originate_mono w x r s h = ground (
    arith,
    h,
    ap (has_frame w x) (sent-originate r s),
    has_frame-append w x s.manager.sent (flooded (relay_frame r) none s.manager.peer_writers),
  )

  pub has_frame-originate :
      (p : Text) (w : ℕ) (r : Relay) (s : Site S)
      → Dict.get p s.manager.peer_writers ≡ some w
      → has_frame w r.msg_id (originate r s).manager.sent ≡ true
  has_frame-originate p w r s link = ground (
    arith,
    ap (has_frame w r.msg_id) (sent-originate r s),
    has_frame-append w r.msg_id s.manager.sent
        (flooded (relay_frame r) none s.manager.peer_writers),
    has_frame-flooded S p w r s.manager.peer_writers link,
  )

  pub originate-IsHonest : (r : Relay) (s : Site S) → IsHonest s → IsHonest (originate r s)
  originate-IsHonest r s honest = record {
    recalls = λ x held. ground (
      arith,
      contains-seen_before_only x r.msg_id s.manager.dedup (rw (← dedup-originate r s) held),
      honest.recalls x,
      has_handled-originate x r s,
    );
    sends = λ w x there. ground (
      arith,
      has_frame-originate_only w x r s there,
      honest.sends w x,
      has_handled-originate x r s,
    );
  }
