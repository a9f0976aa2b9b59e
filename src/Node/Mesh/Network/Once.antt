-- ===== src/Node/Mesh/Network/Once.antt =====
-- Whatever happens in the network, a node delivers a message at most once and never its own, as
-- long as the caches have room for all that happens.
use clustertalk_githubaction.Prelude.{
  ℕ, suc, ◌<◌, ◌≤◌, ◌≡◌, refl, ◌∙◌, sym, arith, true, false, List, [], ◌∷◌, ◌++◌, length, Text,
  nat_eq, list_eq, text_eq_iff, inl, inr,
}
use clustertalk_githubaction.Prelude.Dict.{Dict}
use clustertalk_githubaction.Prelude.Set
use clustertalk_githubaction.Node.DedupCache.Window.{IsUnique}
use clustertalk_githubaction.Node.DedupCache.Recall.{
  seen_before-contains, max_size-seen_before, contains-seen_before_room, length-seen_before_room,
}
use clustertalk_githubaction.Node.Mesh.{Relay, MeshFrame, link_up, link_down, relay_message, flood}
use clustertalk_githubaction.Node.Mesh.Network.{
  Site, ids, receive, originate, left_with, has_delivered, has_originated, has_handled, has_frame,
}
use clustertalk_githubaction.Node.Mesh.Network.Sites.{
  contains-ids_append, receive_seen, receive_new,
}
use clustertalk_githubaction.Node.Mesh.Network.Turns.{
  IsHonest, seen_cases, dedup-receive, has_handled-receive_only, receive-IsHonest,
}
use clustertalk_githubaction.Node.Mesh.Network.Origins.{
  dedup-originate, has_handled-originate, originate-IsHonest,
}

ids_append-IsUnique :
    (rs : List Relay) (r : Relay)
    → IsUnique (ids rs)
    → Set.contains r.msg_id (ids rs) ≡ false
    → IsUnique (ids (rs ++ (r ∷ [])))
unfolding Set.contains
ids_append-IsUnique [] r unique new = (refl, tt)
ids_append-IsUnique (q ∷ rs) r unique new = (
  ground (
    arith,
    unique.0,
    new,
    contains-ids_append q.msg_id rs r,
    text_eq_iff q.msg_id r.msg_id,
    text_eq_iff r.msg_id q.msg_id,
  ),
  ids_append-IsUnique rs r unique.1 (ground (arith, new)),
)

module _ {S : Type 0} where
  -- After at most `k` events, with the messages `coming` still to be minted
  pub record IsMindful (size k : ℕ) (coming : List Text) (s : Site S) : Type 0 where
    pub honest : IsHonest s
    pub sized : s.manager.dedup.max_size ≡ size
    pub small : length s.manager.dedup.seen ≤ k
    pub remembers : (x : Text) → has_handled x s ≡ true → Set.contains x s.manager.dedup.seen ≡ true
    pub unique : IsUnique (ids s.manager.delivered)
    pub apart : (x : Text) → has_originated x s ≡ true → has_delivered x s ≡ false
    pub unheard : (x : Text) → Set.contains x coming ≡ true → has_handled x s ≡ false

  pub wait-IsMindful :
      (size k j : ℕ) (coming : List Text) (s : Site S)
      → k ≤ j
      → IsMindful size k coming s
      → IsMindful size j coming s
  wait-IsMindful size k j coming s more h = record {
    honest = h.honest;
    sized = h.sized;
    small = omega (arith, h.small, more);
    remembers = h.remembers;
    unique = h.unique;
    apart = h.apart;
    unheard = h.unheard;
  }

  receive-IsUnique :
      (from : Text) (r : Relay) (s : Site S) (size k : ℕ) (coming : List Text)
      → IsMindful size k coming s
      → IsUnique (ids (receive from r s).manager.delivered)
        × ((x : Text)
            → has_originated x (receive from r s) ≡ true
            → has_delivered x (receive from r s) ≡ false)
  unfolding has_handled has_delivered has_originated
  receive-IsUnique from r s size k coming h = elim (seen_cases r s) [
    | inl seen ↦ rw (receive_seen from r s seen) (h.unique, h.apart)
    | inr new ↦
        let absent : Set.contains r.msg_id s.manager.dedup.seen ≡ false =
          sym (seen_before-contains r.msg_id s.manager.dedup) ∙ new in
        rw (receive_new from r s new) (
          ids_append-IsUnique s.manager.delivered r h.unique
              (ground (arith, absent, h.remembers r.msg_id)),
          λ x own. ground (
            arith,
            own,
            h.apart x own,
            absent,
            h.remembers x,
            contains-ids_append x s.manager.delivered r,
            text_eq_iff r.msg_id x,
          ),
        )
  ]

  pub receive-IsMindful :
      (from : Text) (r : Relay) (s : Site S) (size k : ℕ) (coming : List Text)
      → k < size
      → Set.contains r.msg_id coming ≡ false
      → IsMindful size k coming s
      → IsMindful size (suc k) coming (receive from r s)
  receive-IsMindful from r s size k coming room old h =
      let (unique, apart) = receive-IsUnique from r s size k coming h in
      let fits : length s.manager.dedup.seen < s.manager.dedup.max_size =
        omega (arith, h.small, h.sized, room) in
      record {
        honest = receive-IsHonest from r s h.honest;
        sized = rw (dedup-receive from r s, max_size-seen_before r.msg_id s.manager.dedup) h.sized;
        small =
            rw (dedup-receive from r s)
              (omega (arith, h.small, length-seen_before_room r.msg_id s.manager.dedup fits));
        remembers = λ x handled. rw (dedup-receive from r s) (
            ground (
              arith,
              contains-seen_before_room x r.msg_id s.manager.dedup fits,
              has_handled-receive_only x from r s handled,
              h.remembers x,
            ));
        unique = unique;
        apart = apart;
        unheard = λ x later. ground (
          arith,
          h.unheard x later,
          later,
          old,
          has_handled-receive_only x from r s,
          text_eq_iff r.msg_id x,
        );
      }

  apart-originate :
      (x : Text) (r : Relay) (s : Site S)
      → has_handled r.msg_id s ≡ false
      → (has_originated x s ≡ true → has_delivered x s ≡ false)
      → has_originated x (originate r s) ≡ true
      → has_delivered x (originate r s) ≡ false
  unfolding has_handled has_delivered has_originated originate relay_message flood Set.contains
  apart-originate x r s new before own = ground (arith, new, before, own, text_eq_iff r.msg_id x)

  pub originate-IsMindful :
      (r : Relay) (s : Site S) (size k : ℕ) (coming : List Text)
      → k < size
      → Set.contains r.msg_id coming ≡ false
      → IsMindful size k (r.msg_id ∷ coming) s
      → IsMindful size (suc k) coming (originate r s)
  unfolding Set.contains
  originate-IsMindful r s size k coming room once h =
      let fits : length s.manager.dedup.seen < s.manager.dedup.max_size =
        omega (arith, h.small, h.sized, room) in
      let new : has_handled r.msg_id s ≡ false =
        h.unheard r.msg_id (ground (arith, text_eq_iff r.msg_id r.msg_id)) in
      record {
        honest = originate-IsHonest r s h.honest;
        sized = rw (dedup-originate r s, max_size-seen_before r.msg_id s.manager.dedup) h.sized;
        small =
            rw (dedup-originate r s)
              (omega (arith, h.small, length-seen_before_room r.msg_id s.manager.dedup fits));
        remembers = λ x handled. rw (dedup-originate r s) (
            ground (
              arith,
              contains-seen_before_room x r.msg_id s.manager.dedup fits,
              handled,
              has_handled-originate x r s,
              h.remembers x,
            ));
        unique = unfold originate relay_message flood in h.unique;
        apart = λ x own. apart-originate x r s (ground (arith, new)) (h.apart x) own;
        unheard = λ x later.
            ground (
              arith,
              h.unheard x,
              later,
              once,
              has_handled-originate x r s,
              text_eq_iff r.msg_id x,
            );
      }

  -- Other links, or fewer frames, leave a node mindful.
  rewired-IsMindful :
      (size k : ℕ) (coming : List Text) (s : Site S) (peers : Dict Text ℕ) (writers : List ℕ)
      (frames : List (ℕ × MeshFrame S))
      → ((w : ℕ) (x : Text) → has_frame w x frames ≡ true → has_frame w x s.manager.sent ≡ true)
      → IsMindful size k coming s
      → IsMindful size k coming (record s {
        manager = record s.manager { peer_writers = peers; all_writers = writers; sent = frames };
      })
  unfolding has_handled has_delivered has_originated
  rewired-IsMindful size k coming s peers writers frames fewer h = record {
    honest = record {
      recalls = h.honest.recalls;
      sends = λ w x there. h.honest.sends w x (fewer w x there);
    };
    sized = h.sized;
    small = h.small;
    remembers = h.remembers;
    unique = h.unique;
    apart = h.apart;
    unheard = h.unheard;
  }

  pub left_with-IsMindful :
      (size k : ℕ) (coming : List Text) (frames : List (ℕ × MeshFrame S)) (s : Site S)
      → ((w : ℕ) (x : Text) → has_frame w x frames ≡ true → has_frame w x s.manager.sent ≡ true)
      → IsMindful size k coming s
      → IsMindful size k coming (left_with frames s)
  unfolding left_with
  left_with-IsMindful size k coming frames s fewer h =
      rewired-IsMindful size k coming s s.manager.peer_writers s.manager.all_writers frames fewer h

  pub link_up-IsMindful :
      (size k : ℕ) (coming : List Text) (p : Text) (w : ℕ) (s : Site S)
      → IsMindful size k coming s
      → IsMindful size k coming (record s { manager = link_up p w s.manager })
  unfolding link_up
  link_up-IsMindful size k coming p w s h =
      rewired-IsMindful size k coming s _ _ s.manager.sent (λ v x there. there) h

  pub link_down-IsMindful :
      (size k : ℕ) (coming : List Text) (p : Text) (w : ℕ) (s : Site S)
      → IsMindful size k coming s
      → IsMindful size k coming (record s { manager = link_down p w s.manager })
  unfolding link_down
  link_down-IsMindful size k coming p w s h =
      rewired-IsMindful size k coming s _ _ s.manager.sent (λ v x there. there) h
