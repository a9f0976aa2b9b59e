-- ===== src/Node/SessionState/Outbound.antt =====
-- The outbox: what is sent stays until it is acknowledged, and a replay is complete and in order.
use clustertalk_githubaction.Prelude.{
  ℕ, ◌+◌, ◌<◌, ◌≡◌, refl, arith, some, List, [], ◌∷◌, All, nat_eq, inl, inr, Option-cases,
}
use clustertalk_githubaction.Prelude.Dict
use clustertalk_githubaction.Prelude.Dict.{Dict, IsDistinct}
use clustertalk_githubaction.Node.SessionState.{
  Text, OutboundMessage, SessionState, init, load_rows, load_outbox_rows, prepare_outbound,
  handle_ack, mark_retried,
}

module _ {P : Type 0} where
  -- Every entry stands under its own number, below `next`.
  abbrev pub IsNumbered : ℕ → Dict ℕ (OutboundMessage P) → Type 0
  IsNumbered next d = All (λ e. (e.1.seq ≡ e.0) × (e.0 < next)) d

  put-IsNumbered :
      (next k : ℕ) (m : OutboundMessage P) (d : Dict ℕ (OutboundMessage P))
      → m.seq ≡ k
      → k < next
      → IsNumbered next d
      → IsNumbered next (Dict.put k m d)
  unfolding Dict.put
  put-IsNumbered next k m [] at lt h = ground arith
  put-IsNumbered next k m ((j, x) ∷ d) at lt h = ground (arith, put-IsNumbered next k m d)

  remove-IsNumbered :
      (next k : ℕ) (d : Dict ℕ (OutboundMessage P))
      → IsNumbered next d
      → IsNumbered next (Dict.remove k d)
  unfolding Dict.remove
  remove-IsNumbered next k [] h = h
  remove-IsNumbered next k ((j, x) ∷ d) h = ground (arith, remove-IsNumbered next k d)

  IsNumbered-suc :
      (next : ℕ) (d : Dict ℕ (OutboundMessage P)) → IsNumbered next d → IsNumbered (next + 1) d
  IsNumbered-suc next [] h = h
  IsNumbered-suc next (e ∷ d) h = (ground arith, IsNumbered-suc next d h.1)

  pub get-IsNumbered :
      (next k : ℕ) (m : OutboundMessage P) (d : Dict ℕ (OutboundMessage P))
      → IsNumbered next d
      → Dict.get k d ≡ some m
      → (m.seq ≡ k) × (k < next)
  unfolding Dict.get
  get-IsNumbered next k m [] h e = ground arith
  get-IsNumbered next k m ((j, x) ∷ d) h e = ground (arith, get-IsNumbered next k m d h.1)

  -- What every operation keeps: each entry has its own number, given out before, and none twice.
  pub record IsValid (s : SessionState P) : Type 0 where
    pub numbered : IsNumbered s.next_send_seq s.outbox
    pub distinct : IsDistinct s.outbox

  pub init-IsValid : (sid : Text) (next last : ℕ) (room : Text) → IsValid (init sid next last room)
  unfolding init
  init-IsValid sid next last room = ground arith

  pub prepare_outbound-IsValid :
      (now : ℕ) (p : P) {s : SessionState P} → IsValid s → IsValid (prepare_outbound now p s).1
  unfolding prepare_outbound
  prepare_outbound-IsValid now p {s} v = record {
    numbered =
        put-IsNumbered (s.next_send_seq + 1) s.next_send_seq _ s.outbox refl (omega arith)
          (IsNumbered-suc s.next_send_seq s.outbox v.numbered);
    distinct = Dict.put-IsDistinct s.next_send_seq _ s.outbox v.distinct;
  }

  pub handle_ack-IsValid : (n : ℕ) {s : SessionState P} → IsValid s → IsValid (handle_ack n s).1
  unfolding handle_ack
  handle_ack-IsValid n {s} v = record {
    numbered = remove-IsNumbered s.next_send_seq n s.outbox v.numbered;
    distinct = Dict.remove-IsDistinct n s.outbox v.distinct;
  }

  retried-IsNumbered :
      (now next k : ℕ) (m : OutboundMessage P) (d : Dict ℕ (OutboundMessage P))
      → Dict.get k d ≡ some m
      → IsNumbered next d
      → IsNumbered next (Dict.put k (record m { sent_at = now; retry_count = m.retry_count + 1 }) d)
  retried-IsNumbered now next k m d e h =
      let (at, lt) = get-IsNumbered next k m d h e in put-IsNumbered next k _ d at lt h

  pub mark_retried-IsValid :
      (now n : ℕ) {s : SessionState P} → IsValid s → IsValid (mark_retried now n s)
  unfolding mark_retried
  mark_retried-IsValid now n {s} v = elim (Option-cases (Dict.get n s.outbox)) [
    | inl absent ↦ rw (absent, mark_retried) v
    | inr (m, here) ↦
        rw (here, mark_retried)
          (record {
            numbered = retried-IsNumbered now s.next_send_seq n m s.outbox here v.numbered;
            distinct = Dict.put-IsDistinct n _ s.outbox v.distinct;
          })
  ]

  load_rows-IsValid :
      (next : ℕ) (rows : List (OutboundMessage P)) (d : Dict ℕ (OutboundMessage P))
      → All (λ r. r.seq < next) rows
      → IsNumbered next d
      → IsDistinct d
      → IsNumbered next (load_rows rows d) × IsDistinct (load_rows rows d)
  unfolding load_rows
  load_rows-IsValid next [] d below h k = (h, k)
  load_rows-IsValid next (r ∷ rows) d below h k =
      load_rows-IsValid next rows (Dict.put r.seq r d) below.1
        (put-IsNumbered next r.seq r d refl below.0 h) (Dict.put-IsDistinct r.seq r d k)

  pub load_outbox_rows-IsValid :
      (rows : List (OutboundMessage P)) {s : SessionState P}
      → All (λ r. r.seq < s.next_send_seq) rows
      → IsValid s
      → IsValid (load_outbox_rows rows s)
  unfolding load_outbox_rows
  load_outbox_rows-IsValid rows {s} below v =
      let (n, d) = load_rows-IsValid s.next_send_seq rows s.outbox below v.numbered v.distinct in
      record { numbered = n; distinct = d }
