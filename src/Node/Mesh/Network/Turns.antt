-- ===== src/Node/Mesh/Network/Turns.antt =====
-- What a node has handled, and what it has to send, after a frame has arrived or left.
use clustertalk_githubaction.Prelude.{
  ℕ, ◌⊎◌, ◌≡◌, refl, ◌∙◌, sym, ap, arith, true, false, ◌||◌, some, List, Text, ◌==◌, nat_eq,
  list_eq, text_eq_iff, Bool-cases, inl, inr,
}
use clustertalk_githubaction.Prelude.Dict
use clustertalk_githubaction.Prelude.Set
use clustertalk_githubaction.Node.DedupCache.{seen_before}
use clustertalk_githubaction.Node.DedupCache.Recall.{
  seen_before-contains, contains-seen_before_only,
}
use clustertalk_githubaction.Node.Mesh.{Relay, MeshFrame, relay_frame, flooded}
use clustertalk_githubaction.Node.Mesh.Network.{
  Site, left_with, receive, has_delivered, has_originated, has_handled, has_frame,
}
use clustertalk_githubaction.Node.Mesh.Network.Sites.{
  contains-ids_append, has_frame-append, has_frame-flooded_id, has_frame-flooded_other,
  receive_seen, receive_new,
}

module _ {S : Type 0} where
  -- What the cache holds, the node has handled; what the node still has to send, too.
  pub record IsHonest (s : Site S) : Type 0 where
    pub recalls : (x : Text) → Set.contains x s.manager.dedup.seen ≡ true → has_handled x s ≡ true
    pub sends : (w : ℕ) (x : Text) → has_frame w x s.manager.sent ≡ true → has_handled x s ≡ true

  pub seen_cases :
      (r : Relay) (s : Site S)
      → ((seen_before r.msg_id s.manager.dedup).0 ≡ true)
        ⊎ ((seen_before r.msg_id s.manager.dedup).0 ≡ false)
  seen_cases r s = Bool-cases (seen_before r.msg_id s.manager.dedup).0

  pub has_handled-receive_only :
      (x from : Text) (r : Relay) (s : Site S)
      → has_handled x (receive from r s) ≡ true
      → (has_handled x s || (r.msg_id == x)) ≡ true
  unfolding has_handled has_delivered has_originated
  has_handled-receive_only x from r s h = elim (seen_cases r s) [
    | inl seen ↦ ground (arith, h, ap (has_handled x) (receive_seen from r s seen))
    | inr new ↦ ground (
      arith,
      h,
      ap (has_handled x) (receive_new from r s new),
      contains-ids_append x s.manager.delivered r,
    )
  ]

  pub has_handled-receive_mono :
      (x from : Text) (r : Relay) (s : Site S)
      → has_handled x s ≡ true
      → has_handled x (receive from r s) ≡ true
  unfolding has_handled has_delivered has_originated
  has_handled-receive_mono x from r s h = elim (seen_cases r s) [
    | inl seen ↦ ground (arith, h, ap (has_handled x) (receive_seen from r s seen))
    | inr new ↦ ground (
      arith,
      h,
      ap (has_handled x) (receive_new from r s new),
      contains-ids_append x s.manager.delivered r,
    )
  ]

  pub has_handled-receive :
      (from : Text) (r : Relay) (s : Site S)
      → IsHonest s
      → has_handled r.msg_id (receive from r s) ≡ true
  unfolding has_handled has_delivered has_originated
  has_handled-receive from r s honest = elim (seen_cases r s) [
    | inl seen ↦
        has_handled-receive_mono r.msg_id from r s
          (honest.recalls r.msg_id (sym (seen_before-contains r.msg_id s.manager.dedup) ∙ seen))
    | inr new ↦ ground (
      arith,
      ap (has_handled r.msg_id) (receive_new from r s new),
      contains-ids_append r.msg_id s.manager.delivered r,
      text_eq_iff r.msg_id r.msg_id,
    )
  ]

  pub has_frame-receive_mono :
      (w : ℕ) (x from : Text) (r : Relay) (s : Site S)
      → has_frame w x s.manager.sent ≡ true
      → has_frame w x (receive from r s).manager.sent ≡ true
  has_frame-receive_mono w x from r s h = elim (seen_cases r s) [
    | inl seen ↦ rw (receive_seen from r s seen) h
    | inr new ↦ rw (receive_new from r s new) (
        rw
          (
            has_frame-append w x s.manager.sent
                (flooded (relay_frame r) (some from) s.manager.peer_writers),
            h,
          )
          refl)
  ]

  pub has_frame-receive_only :
      (w : ℕ) (x from : Text) (r : Relay) (s : Site S)
      → has_frame w x (receive from r s).manager.sent ≡ true
      → (has_frame w x s.manager.sent || (r.msg_id == x)) ≡ true
  has_frame-receive_only w x from r s h = elim (seen_cases r s) [
    | inl seen ↦
        ground (arith, h, ap (λ t. has_frame w x t.manager.sent) (receive_seen from r s seen))
    | inr new ↦ ground (
      arith,
      h,
      ap (λ t. has_frame w x t.manager.sent) (receive_new from r s new),
      has_frame-append w x s.manager.sent
          (flooded (relay_frame r) (some from) s.manager.peer_writers),
      has_frame-flooded_id S w x r (some from) s.manager.peer_writers,
      text_eq_iff r.msg_id x,
    )
  ]

  pub peers-receive :
      (from : Text) (r : Relay) (s : Site S)
      → (receive from r s).manager.peer_writers ≡ s.manager.peer_writers
  peers-receive from r s = elim (seen_cases r s) [
    | inl seen ↦ rw (receive_seen from r s seen) refl
    | inr new ↦ rw (receive_new from r s new) refl
  ]

  -- A message that a node handles for the first time goes to every peer but the one it came from.
  pub has_frame-receive :
      (p : Text) (w : ℕ) (x from : Text) (r : Relay) (s : Site S)
      → Dict.get p s.manager.peer_writers ≡ some w
      → has_handled x s ≡ false
      → has_handled x (receive from r s) ≡ true
      → (p == from) ≡ false
      → has_frame w x (receive from r s).manager.sent ≡ true
  unfolding has_handled has_delivered has_originated
  has_frame-receive p w x from r s link before after other = elim (seen_cases r s) [
    | inl seen ↦ ground (arith, before, after, ap (has_handled x) (receive_seen from r s seen))
    | inr new ↦ rw (receive_new from r s new) (
        ground (
          arith,
          before,
          after,
          has_handled-receive_only x from r s after,
          text_eq_iff r.msg_id x,
          has_frame-append w x s.manager.sent
              (flooded (relay_frame r) (some from) s.manager.peer_writers),
          has_frame-flooded_other S p w r from s.manager.peer_writers link other,
        ))
  ]

  pub dedup-receive :
      (from : Text) (r : Relay) (s : Site S)
      → (receive from r s).manager.dedup ≡ (seen_before r.msg_id s.manager.dedup).1
  dedup-receive from r s = elim (seen_cases r s) [
    | inl seen ↦ rw (receive_seen from r s seen) refl
    | inr new ↦ rw (receive_new from r s new) refl
  ]

  pub receive-IsHonest :
      (from : Text) (r : Relay) (s : Site S) → IsHonest s → IsHonest (receive from r s)
  receive-IsHonest from r s honest = record {
    recalls = λ x held. ground (
      arith,
      contains-seen_before_only x r.msg_id s.manager.dedup (rw (← dedup-receive from r s) held),
      honest.recalls x,
      has_handled-receive_mono x from r s,
      has_handled-receive from r s honest,
      text_eq_iff r.msg_id x,
    );
    sends = λ w x there. ground (
      arith,
      has_frame-receive_only w x from r s there,
      honest.sends w x,
      has_handled-receive_mono x from r s,
      has_handled-receive from r s honest,
      text_eq_iff r.msg_id x,
    );
  }

  pub has_handled-left_with :
      (x : Text) (frames : List (ℕ × MeshFrame S)) (s : Site S)
      → has_handled x (left_with frames s) ≡ has_handled x s
  unfolding left_with has_handled has_delivered has_originated
  has_handled-left_with x frames s = refl

  -- Leaving a part of the frames out keeps a node honest.
  pub left_with-IsHonest :
      (frames : List (ℕ × MeshFrame S)) (s : Site S)
      → ((w : ℕ) (x : Text) → has_frame w x frames ≡ true → has_frame w x s.manager.sent ≡ true)
      → IsHonest s
      → IsHonest (left_with frames s)
  unfolding left_with has_handled has_delivered has_originated
  left_with-IsHonest frames s fewer honest = record {
    recalls = honest.recalls;
    sends = λ w x there. honest.sends w x (fewer w x there);
  }
