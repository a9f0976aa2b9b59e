-- ===== src/Node/SessionState/Replay.antt =====
-- `replay_from`: complete, exact and in order.
use clustertalk_githubaction.Prelude.{
  ℕ, ◌≡◌, refl, arith, Bool, Option, none, some, List, [], ◌∷◌, ltb, nat_eq, if◌then◌else◌, inl,
  inr, Option-cases,
}
use clustertalk_githubaction.Prelude.Dict
use clustertalk_githubaction.Prelude.Sort
use clustertalk_githubaction.Prelude.Dict.{Dict, IsDistinct}
use clustertalk_githubaction.Node.SessionState.{
  load_outbox_rows, load_rows, OutboundMessage, SessionState, filter_msgs, replay_from,
}
use clustertalk_githubaction.Node.SessionState.Outbound.{IsValid, IsNumbered, get-IsNumbered}

module _ {P : Type 0} where
  abbrev pub find : ℕ → List (OutboundMessage P) → Option (OutboundMessage P)
  find = Sort.find (λ m. m.seq)

  find-filter :
      (keep : OutboundMessage P → Bool) (next n : ℕ) (d : Dict ℕ (OutboundMessage P))
      → IsNumbered next d
      → IsDistinct d
      → find n (filter_msgs keep d)
        ≡ (elim (Dict.get n d) [ none ↦ none | some m ↦ if keep m then some m else none ])
  unfolding filter_msgs Dict.get
  find-filter keep next n [] h k = refl
  find-filter keep next n ((j, x) ∷ d) h k = ground (arith, find-filter keep next n d h.1 k.1)

  filter-IsUnique :
      (keep : OutboundMessage P → Bool) (next : ℕ) (d : Dict ℕ (OutboundMessage P))
      → IsNumbered next d
      → IsDistinct d
      → Sort.IsUnique (λ m. m.seq) (filter_msgs keep d)
  unfolding filter_msgs Dict.get
  filter-IsUnique keep next [] h k = tt
  filter-IsUnique keep next ((j, x) ∷ d) h k =
      ground (arith, filter-IsUnique keep next d h.1 k.1, find-filter keep next j d h.1 k.1)

  find-replay :
      (r : ℕ) (s : SessionState P) (n : ℕ)
      → IsValid s
      → find n (replay_from r s) ≡ (if ltb r n then Dict.get n s.outbox else none)
  unfolding replay_from
  find-replay r s n v =
      let ms = filter_msgs (λ msg. ltb r msg.seq) s.outbox in
      let found =
        find-filter (λ msg. ltb r msg.seq) s.next_send_seq n s.outbox v.numbered v.distinct in
      elim (Option-cases (Dict.get n s.outbox)) [
        | inl absent ↦
            ground (arith, Sort.find-sort_by (λ (m : OutboundMessage P). m.seq) n ms, found)
        | inr (m, here) ↦ ground (
          arith,
          Sort.find-sort_by (λ (m : OutboundMessage P). m.seq) n ms,
          found,
          get-IsNumbered s.next_send_seq n m s.outbox v.numbered here,
        )
      ]

  -- The replay of a valid session is in strictly ascending order of number, and holds, for each
  -- number above `last_received_seq`, the buffered message if there is one, and nothing else.
  pub replay_from-exact :
      (last_received_seq : ℕ) (s : SessionState P)
      → IsValid s
      → Sort.IsAscending (λ m. m.seq) (replay_from last_received_seq s)
        × ((n : ℕ)
            → find n (replay_from last_received_seq s)
              ≡ (if ltb last_received_seq n then Dict.get n s.outbox else none))
  unfolding replay_from
  replay_from-exact r s v = (
    Sort.sort_by-IsAscending (λ m. m.seq) _
        (filter-IsUnique _ s.next_send_seq s.outbox v.numbered v.distinct),
    λ n. find-replay r s n v,
  )

module _ {P : Type 0} where
  abbrev pub found_or :
      Option (OutboundMessage P) → Option (OutboundMessage P) → Option (OutboundMessage P)
  found_or none d = d
  found_or (some m) d = some m

  -- Loading rows without a repeated number: each is found under its number.
  get-load_rows :
      (n : ℕ) (ms : List (OutboundMessage P)) (d : Dict ℕ (OutboundMessage P))
      → Sort.IsUnique (λ m. m.seq) ms
      → Dict.get n (load_rows ms d) ≡ found_or (Sort.find (λ m. m.seq) n ms) (Dict.get n d)
  unfolding load_rows
  get-load_rows n [] d u = refl
  get-load_rows n (m ∷ ms) d u =
      ground (arith, get-load_rows n ms (Dict.put m.seq m d) u.1, Dict.get-put m.seq n m d)

  pub get-load_outbox_rows :
      (n : ℕ) (ms : List (OutboundMessage P)) (s : SessionState P)
      → Sort.IsUnique (λ m. m.seq) ms
      → Dict.get n (load_outbox_rows ms s).outbox
        ≡ found_or (Sort.find (λ m. m.seq) n ms) (Dict.get n s.outbox)
  unfolding load_outbox_rows
  get-load_outbox_rows n ms s u = get-load_rows n ms s.outbox u
