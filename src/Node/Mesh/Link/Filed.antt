-- ===== src/Node/Mesh/Link/Filed.antt =====
-- A writer on file is that of a link that is up, and `_all_writers` are those of all such links.
use clustertalk_githubaction.Prelude.{
  ℕ, ◌≡◌, refl, ◌∙◌, ap, arith, true, false, Option, none, some, List, [], ◌∷◌, if◌then◌else◌, Text,
  nat_eq, list_eq, Result, ok, err, nat_beq, nat_beq_iff, text_eq_iff, Option-cases, Bool-cases,
  inl, inr,
}
use clustertalk_githubaction.Prelude.Dict
use clustertalk_githubaction.Prelude.Dict.{Dict}
use clustertalk_githubaction.Prelude.Set
use clustertalk_githubaction.Node.Mesh.{PeerManager, link_up, link_down, is_on_file}
use clustertalk_githubaction.Node.Mesh.Link.{
  LinkError, DictKey, hashable, unhashable, Link, Callbacks, turn, write_frame,
}
use clustertalk_githubaction.Node.Mesh.Link.Connect.{Connection, do_peer_handshake}
use clustertalk_githubaction.Node.Mesh.Link.Files.{SameFiles, IsOwnTurn, turn-IsOwnTurn}
use clustertalk_githubaction.Node.Mesh.Link.Registry.{
  Hub, HubEvent, opens, happens, opened, turned, hub_step, hub_run,
}

-- The peer of a link that may be there
abbrev pub linked_peer : Option Link → Option Text
linked_peer none = none
linked_peer (some link) = some link.peer_id

has-put :
    (w v : ℕ) (link : Link) (live : Dict ℕ Link)
    → Dict.has v (Dict.put w link live) ≡ (if nat_beq w v then true else Dict.has v live)
has-put w v link live =
    ground (
      arith,
      Dict.has-get v (Dict.put w link live),
      Dict.get-put w v link live,
      Dict.has-get v live,
    )

has-remove :
    (w v : ℕ) (live : Dict ℕ Link)
    → Dict.has v (Dict.remove w live) ≡ (if nat_beq w v then false else Dict.has v live)
has-remove w v live =
    ground
      (arith, Dict.has-get v (Dict.remove w live), Dict.get-remove w v live, Dict.has-get v live)

module _ {S : Type 0} where
  -- A writer on file is that of a live link to the peer, and `_all_writers` are those of the links.
  pub record IsFiled (h : Hub S) : Type 0 where
    pub filed :
        (p : Text) (w : ℕ)
        → Dict.get p h.manager.peer_writers ≡ some w
        → linked_peer (Dict.get w h.live) ≡ some p
    pub kept : (w : ℕ) → Set.contains w h.manager.all_writers ≡ Dict.has w h.live
    pub owned : (w : ℕ) (link : Link) → Dict.get w h.live ≡ some link → link.writer ≡ w

  -- The manager changes, but not its links on file.
  same-IsFiled :
      (m m' : PeerManager S) (live : Dict ℕ Link)
      → SameFiles m' m
      → IsFiled (record { manager = m; live = live })
      → IsFiled (record { manager = m'; live = live })
  same-IsFiled m m' live same h = record {
    filed = λ p w on_file. h.filed p w (rw (← same.peers) on_file);
    kept = λ w. ap (Set.contains w) same.writers ∙ h.kept w;
    owned = h.owned;
  }

  opened-IsFiled :
      (peer : Text) (link : Link) (m : PeerManager S) (live : Dict ℕ Link)
      → link.peer_id ≡ peer
      → Dict.get link.writer live ≡ none
      → IsFiled (record { manager = m; live = live })
      → IsFiled
          (record { manager = link_up peer link.writer m; live = Dict.put link.writer link live })
  unfolding link_up
  opened-IsFiled peer link m live named new h = record {
    filed = λ p w on_file. ground (
      arith,
      on_file,
      named,
      new,
      h.filed p w,
      Dict.get-put peer p link.writer m.peer_writers,
      Dict.get-put link.writer w link live,
      text_eq_iff peer p,
      nat_beq_iff link.writer w,
    );
    kept = λ w. ground (
      arith,
      has-put link.writer w link live,
      Set.contains-add link.writer w m.all_writers,
      h.kept w,
    );
    owned = λ w other there. ground (
      arith,
      there,
      h.owned w other,
      Dict.get-put link.writer w link live,
      nat_beq_iff link.writer w,
    );
  }

  -- An event that leaves the link up
  stayed-IsFiled :
      (w : ℕ) (old link : Link) (m : PeerManager S) (live : Dict ℕ Link)
      → Dict.get w live ≡ some old
      → link.peer_id ≡ old.peer_id
      → link.writer ≡ old.writer
      → IsFiled (record { manager = m; live = live })
      → IsFiled (record { manager = m; live = Dict.put w link live })
  stayed-IsFiled w old link m live there same_peer same_writer h = record {
    filed = λ p v on_file. ground (
      arith,
      on_file,
      h.filed p v on_file,
      Dict.get-put w v link live,
      there,
      same_peer,
      nat_beq_iff w v,
    );
    kept = λ v.
        ground
          (arith, h.kept v, has-put w v link live, Dict.has-get w live, there, nat_beq_iff w v);
    owned = λ v other found. ground (
      arith,
      found,
      there,
      same_writer,
      h.owned v other,
      h.owned w old there,
      Dict.get-put w v link live,
      nat_beq_iff w v,
    );
  }

  -- An event that ends it
  ended-IsFiled :
      (w : ℕ) (old link : Link) (m : PeerManager S) (live : Dict ℕ Link)
      → Dict.get w live ≡ some old
      → link.peer_id ≡ old.peer_id
      → link.writer ≡ old.writer
      → IsFiled (record { manager = m; live = live })
      → IsFiled
          (record { manager = link_down link.peer_id link.writer m; live = Dict.remove w live })
  unfolding link_down is_on_file
  ended-IsFiled w old link m live there same_peer same_writer h = record {
    filed = λ p v on_file. ground (
      arith,
      on_file,
      there,
      same_peer,
      same_writer,
      h.filed p v,
      h.filed link.peer_id v,
      h.owned w old there,
      Dict.get-remove link.peer_id p m.peer_writers,
      Dict.get-remove w v live,
      text_eq_iff link.peer_id p,
      nat_beq_iff w v,
    );
    kept = λ v. ground (
      arith,
      h.kept v,
      has-remove w v live,
      Set.contains-discard link.writer v m.all_writers,
      h.owned w old there,
      same_writer,
    );
    owned = λ v other found. ground (arith, found, h.owned v other, Dict.get-remove w v live);
  }

module _ {S : Type 0} (callbacks : Callbacks S) (node_id : Text) where
  do_peer_handshake-SameFiles :
      (c : Connection S) (m : PeerManager S) → SameFiles (do_peer_handshake node_id c m).1 m
  unfolding do_peer_handshake write_frame
  do_peer_handshake-SameFiles c m = elim (Bool-cases c.greeted) [
    | inl sent ↦ rw sent (record { peers = refl; writers = refl })
    | inr lost ↦ rw lost (record { peers = refl; writers = refl })
  ]

  opened_as-IsFiled :
      (c : Connection S) (outcome : Result LinkError DictKey) (m : PeerManager S)
      (live : Dict ℕ Link)
      → Dict.get c.writer live ≡ none
      → IsFiled (record { manager = m; live = live })
      → IsFiled (opened callbacks node_id c (outcome, m) live)
  unfolding opened
  opened_as-IsFiled c (err e) m live new h = h
  opened_as-IsFiled c (ok unhashable) m live new h = h
  opened_as-IsFiled c (ok (hashable peer_id)) m live new h =
      opened-IsFiled peer_id
        (record { peer_id = peer_id; writer = c.writer; last_pong_at = c.since }) m live refl new h

  turned-IsFiled :
      (w : ℕ) (old : Link) (m : PeerManager S) (live : Dict ℕ Link) (outcome : Option LinkError)
      (after : Link × PeerManager S)
      → Dict.get w live ≡ some old
      → IsOwnTurn callbacks old m after
      → IsFiled (record { manager = m; live = live })
      → IsFiled (turned callbacks node_id w (outcome, after) live)
  unfolding turned
  turned-IsFiled w old m live none (link, m') there own h =
      stayed-IsFiled w old link m' live there own.same_peer own.same_writer
        (same-IsFiled m m' live own.files h)
  turned-IsFiled w old m live (some e) (link, m') there own h =
      ended-IsFiled w old link m' live there own.same_peer own.same_writer
        (same-IsFiled m m' live own.files h)

  hub_step-IsFiled :
      (event : HubEvent S) (h : Hub S) → IsFiled h → IsFiled (hub_step callbacks node_id event h)
  unfolding hub_step
  hub_step-IsFiled (opens c) h filed = elim (Option-cases (Dict.get c.writer h.live)) [
    | inl new ↦
        let (outcome, m) = do_peer_handshake node_id c h.manager in
        rw (new, hub_step)
          (opened_as-IsFiled c outcome m h.live new
            (same-IsFiled h.manager m h.live (do_peer_handshake-SameFiles c h.manager) filed))
    | inr (link, taken) ↦ rw (taken, hub_step) filed
  ]
  hub_step-IsFiled (happens w event) h filed = elim (Option-cases (Dict.get w h.live)) [
    | inl absent ↦ rw (absent, hub_step) filed
    | inr (link, there) ↦
        rw (there, hub_step)
          (let (outcome, after) = turn callbacks event link h.manager in
            turned-IsFiled w link h.manager h.live outcome after there
              (turn-IsOwnTurn callbacks event link h.manager) filed)
  ]

  -- However links come up, fail their handshake, go down and come again, with any frames and
  -- heartbeats in between: every writer on file belongs to a link that is up, to the peer it is
  -- filed under, and `_all_writers` holds exactly the writers of the links that are up, provided
  -- that it was so before.
  pub hub_run-IsFiled :
      (events : List (HubEvent S)) (h : Hub S)
      → IsFiled h
      → IsFiled (hub_run callbacks node_id events h)
  unfolding hub_run
  hub_run-IsFiled [] h filed = filed
  hub_run-IsFiled (event ∷ events) h filed =
      hub_run-IsFiled events (hub_step callbacks node_id event h) (hub_step-IsFiled event h filed)
