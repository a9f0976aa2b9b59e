-- ===== src/Node/SessionState/Inbound.antt =====
-- Inbound deduplication: a sequence number is processed once, and the watermark keeps up.
use clustertalk_githubaction.Prelude.{
  ltb, ◌<◌, if◌then◌else◌, ℕ, zero, suc, ◌+◌, ◌≤◌, ◌≡◌, refl, arith, Bool, false, ◌||◌, ◌&&◌, List,
  [], ◌∷◌, length, leb, nat_eq, Bool-cases, count, nat_beq, inl, inr,
}
use clustertalk_githubaction.Prelude.Set
use clustertalk_githubaction.Node.SessionState.{
  reset_inbound, SessionState, should_process_inbound, mark_inbound_processed, advance,
}

-- The numbers that a watermark and a set stand for.
abbrev pub covered : ℕ → List ℕ → ℕ → Bool
covered last seen n = leb n last || Set.contains n seen

-- The loop stops by its own test: the number after the watermark is not in the set.
advance-settled :
    (fuel last : ℕ) (seen : List ℕ)
    → length seen ≤ fuel
    → Set.contains ((advance fuel last seen).0 + 1) (advance fuel last seen).1 ≡ false
unfolding advance
advance-settled zero last [] h = unfold Set.contains in refl
advance-settled zero last (x ∷ xs) h = absurd (omega arith)
advance-settled (suc fuel) last seen h = elim (Bool-cases (Set.contains (last + 1) seen)) [
  | inl more ↦ rw more (
      advance-settled fuel (last + 1) (Set.discard (last + 1) seen)
        (omega (arith, Set.length-discard-lt (last + 1) seen more)))
  | inr done ↦ rw done done
]

-- The loop changes how the numbers are held, and not which they are.
covered-advance :
    (fuel last : ℕ) (seen : List ℕ) (n : ℕ)
    → covered (advance fuel last seen).0 (advance fuel last seen).1 n ≡ covered last seen n
unfolding advance
covered-advance zero last seen n = refl
covered-advance (suc fuel) last seen n = ground (
  arith,
  covered-advance fuel (last + 1) (Set.discard (last + 1) seen) n,
  Set.contains-discard (last + 1) n seen,
)

module _ {P : Type 0} where
  -- The watermark is as far as the numbers in the set allow.
  abbrev pub IsSettled : SessionState P → Type 0
  IsSettled s = Set.contains (s.last_processed_seq + 1) s.seen_inbound_seqs ≡ false

  -- Marking `seq` adds exactly `seq` to the numbers that are refused from then on.
  pub should_process-mark :
      (s : SessionState P) (seq n : ℕ)
      → should_process_inbound n (mark_inbound_processed seq s)
        ≡ (if nat_beq seq n then false else should_process_inbound n s)
  unfolding should_process_inbound mark_inbound_processed
  should_process-mark s seq n = ground (
    arith,
    covered-advance (length (Set.add seq s.seen_inbound_seqs)) s.last_processed_seq
        (Set.add seq s.seen_inbound_seqs) n,
    Set.contains-add seq n s.seen_inbound_seqs,
  )

  -- The loop of `mark_inbound_processed` never stops early: the number after the watermark has not
  -- been processed.
  pub mark-IsSettled : (s : SessionState P) (seq : ℕ) → IsSettled (mark_inbound_processed seq s)
  unfolding mark_inbound_processed
  mark-IsSettled s seq =
      advance-settled (length (Set.add seq s.seen_inbound_seqs)) s.last_processed_seq
        (Set.add seq s.seen_inbound_seqs) (omega arith)

  -- In a settled session whose numbers 1 to `k` have been processed, in whatever order, the
  -- watermark has reached `k`.
  pub watermark_complete :
      (s : SessionState P) (k : ℕ)
      → IsSettled s
      → ((n : ℕ) → n < k → should_process_inbound (n + 1) s ≡ false)
      → k ≤ s.last_processed_seq
  unfolding should_process_inbound
  watermark_complete s k settled all = elim (Bool-cases (leb k s.last_processed_seq)) [
    | inl reached ↦ ground arith
    | inr short ↦ absurd (ground (arith, all s.last_processed_seq (ground arith)))
  ]

  -- A stream of inbound numbers, each tested and marked as `receive_message` does: those that are
  -- processed.
  pub accepted : List ℕ → SessionState P → List ℕ
  accepted [] s = []
  accepted (n ∷ ns) s =
      let later = n ∷ accepted ns (mark_inbound_processed n s) in
      let rest = accepted ns s in if should_process_inbound n s then later else rest

  -- Exactly once: whatever is retransmitted and in whatever order, a number that had not been
  -- processed before is processed once if it arrives at all, and every other number never.
  pub count-accepted :
      (ns : List ℕ) (s : SessionState P) (n : ℕ)
      → count n (accepted ns s) ≡ (if should_process_inbound n s && Set.contains n ns then 1 else 0)
  unfolding accepted Set.contains
  count-accepted [] s n = ground arith
  count-accepted (m ∷ ns) s n = elim (Bool-cases (should_process_inbound m s)) [
    | inl new ↦ rw new (
        ground (arith, count-accepted ns (mark_inbound_processed m s) n, should_process-mark s m n))
    | inr old ↦ rw old (ground (arith, count-accepted ns s n))
  ]

  should_process-reset :
      (s : SessionState P) (n : ℕ) → should_process_inbound n (reset_inbound s) ≡ ltb 0 n
  unfolding should_process_inbound reset_inbound Set.contains
  should_process-reset s n = ground arith

  -- After `reset_inbound`, whatever the session had processed before, every number from 1 on that
  -- arrives is processed once, and so once more if it had been processed on an earlier connection.
  pub count-accepted_reset :
      (ns : List ℕ) (s : SessionState P) (n : ℕ)
      → count n (accepted ns (reset_inbound s)) ≡ (if ltb 0 n && Set.contains n ns then 1 else 0)
  count-accepted_reset ns s n =
      ground (arith, count-accepted ns (reset_inbound s) n, should_process-reset s n)
