-- ===== src/Node/SessionState/Delivery.antt =====
-- Zero message loss in memory: what `prepare_outbound` buffers stays, with its payload, until its
-- own number is acknowledged; what is acknowledged does not come back.
use clustertalk_githubaction.Prelude.{
  ℕ, ◌+◌, ◌≤◌, ◌<◌, ◌≡◌, refl, arith, Bool, true, false, Option, none, some, List, [], ◌∷◌, nat_beq,
  nat_eq, if◌then◌else◌, inl, inr, Option-cases,
}
use mathlib.Core.Option
use clustertalk_githubaction.Prelude.Dict
use clustertalk_githubaction.Node.SessionState.{
  SessionState, prepare_outbound, handle_ack, mark_retried,
}
use clustertalk_githubaction.Node.SessionState.Outbound.{
  IsValid, prepare_outbound-IsValid, handle_ack-IsValid, mark_retried-IsValid,
}

-- What happens to the outbox of a live session.
pub data Event (P : Type 0) : Type 0 where
  send : ℕ → P → Event P
  ack : ℕ → Event P
  retry : ℕ → ℕ → Event P

module _ {P : Type 0} where
  pub step : Event P → SessionState P → SessionState P
  step (send now p) s = (prepare_outbound now p s).1
  step (ack n) s = (handle_ack n s).1
  step (retry now n) s = mark_retried now n s

  pub run : List (Event P) → SessionState P → SessionState P
  unfolding step
  run [] s = s
  run (e ∷ es) s = run es (step e s)

  abbrev pub buffered : ℕ → SessionState P → Option P
  buffered n s = Option.map (λ m. m.payload) (Dict.get n s.outbox)

  -- Only an acknowledgement of `n` takes `n` out.
  abbrev pub acked : ℕ → List (Event P) → Bool
  acked n [] = false
  acked n (ack m ∷ es) = if nat_beq m n then true else acked n es
  acked n (e ∷ es) = acked n es

  pub step-IsValid : (e : Event P) {s : SessionState P} → IsValid s → IsValid (step e s)
  unfolding step
  step-IsValid (send now p) v = prepare_outbound-IsValid now p v
  step-IsValid (ack n) v = handle_ack-IsValid n v
  step-IsValid (retry now n) v = mark_retried-IsValid now n v

  -- Through any events the outbox stays well formed: every message stands under its own number,
  -- once, and the numbers still to be given out are larger.
  pub run-IsValid : (es : List (Event P)) (s : SessionState P) → IsValid s → IsValid (run es s)
  unfolding run
  run-IsValid [] s v = v
  run-IsValid (e ∷ es) s v = run-IsValid es (step e s) (step-IsValid e v)

  -- One event leaves the payload of another number alone, and only gives out larger numbers.
  buffered-step :
      (e : Event P) (s : SessionState P) (n : ℕ)
      → n < s.next_send_seq
      → (buffered n (step e s) ≡ (if acked n (e ∷ []) then none else buffered n s))
        × (s.next_send_seq ≤ (step e s).next_send_seq)
  unfolding step prepare_outbound handle_ack mark_retried
  buffered-step (send now p) s n lt =
      ground (arith, Dict.get-put s.next_send_seq n (prepare_outbound now p s).0 s.outbox)
  buffered-step (ack m) s n lt = ground (arith, Dict.get-remove m n s.outbox)
  buffered-step (retry now m) s n lt = elim (Option-cases (Dict.get m s.outbox)) [
    | inl absent ↦ ground (arith, absent)
    | inr (msg, here) ↦ ground (
      arith,
      here,
      Dict.get-put m n (record msg { sent_at = now; retry_count = msg.retry_count + 1 }) s.outbox,
    )
  ]

  -- A number that has been given out keeps its payload through any events, unless it is
  -- acknowledged, and then it is gone for good.
  pub buffered-run :
      (es : List (Event P)) (s : SessionState P) (n : ℕ)
      → n < s.next_send_seq
      → buffered n (run es s) ≡ (if acked n es then none else buffered n s)
  unfolding run
  buffered-run [] s n lt = refl
  buffered-run (e ∷ es) s n lt =
      ground (arith, buffered-step e s n lt, buffered-run es (step e s) n)

  buffered-send :
      (s : SessionState P) (now : ℕ) (p : P)
      → (buffered s.next_send_seq (step (send now p) s) ≡ some p)
        × (s.next_send_seq < (step (send now p) s).next_send_seq)
  unfolding step prepare_outbound
  buffered-send s now p =
      ground (arith, Dict.get-put_self s.next_send_seq (prepare_outbound now p s).0 s.outbox)

  -- What is sent is buffered under the next number, and stays with its payload through any later
  -- events until that number is acknowledged.
  pub send-buffered :
      (s : SessionState P) (now : ℕ) (p : P) (es : List (Event P))
      → buffered s.next_send_seq (run es (step (send now p) s))
        ≡ (if acked s.next_send_seq es then none else some p)
  send-buffered s now p es =
      let (here, lt) = buffered-send s now p in
      ground (arith, here, buffered-run es (step (send now p) s) s.next_send_seq lt)
