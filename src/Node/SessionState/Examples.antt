-- ===== src/Node/SessionState/Examples.antt =====
-- A concrete session: Al is live, with one message buffered.
use clustertalk_githubaction.Prelude.{
  ℕ, ◌+◌, ◌<◌, ◌≡◌, arith, false, none, some, List, [], ◌∷◌, ltb, if◌then◌else◌, Text, codes,
  nat_eq, list_eq, pair_eq, count, ◌&&◌,
}
use clustertalk_githubaction.Prelude.Dict
use clustertalk_githubaction.Prelude.Set
use clustertalk_githubaction.Prelude.Sort
use clustertalk_githubaction.Node.SessionState.{
  SessionState, OutboundMessage, replay_from, should_process_inbound, reset_inbound,
}
use clustertalk_githubaction.Node.SessionState.Inbound.{
  accepted, count-accepted, count-accepted_reset,
}
use clustertalk_githubaction.Node.SessionState.Outbound.{IsValid}
use clustertalk_githubaction.Node.SessionState.Delivery.{
  Event, send, ack, retry, step, run, buffered, acked, send-buffered,
}
use clustertalk_githubaction.Node.SessionState.Replay.{find, replay_from-exact}

abbrev pub al : Text
al = codes "al"

abbrev pub first_message : OutboundMessage Text
first_message = record { seq = 1; payload = 7 ∷ 8 ∷ []; sent_at = 50; retry_count = 0 }

abbrev pub al_session : SessionState Text
al_session = record {
  session_id = al;
  room_id = codes "general";
  next_send_seq = 2;
  outbox = (1, first_message) ∷ [];
  last_processed_seq = 0;
  seen_inbound_seqs = [];
}

pub al_IsValid : IsValid al_session
unfolding Dict.get
al_IsValid = record { numbered = ground arith; distinct = ground arith }

abbrev arrivals : List ℕ
arrivals = 2 ∷ 1 ∷ 2 ∷ []

count-accepted_example :
    count 2 (accepted arrivals al_session)
    ≡ (if should_process_inbound 2 al_session && Set.contains 2 arrivals then 1 else 0)
count-accepted_example = count-accepted arrivals al_session 2

count-accepted_reset_example :
    count 1 (accepted arrivals (reset_inbound al_session))
    ≡ (if ltb 0 1 && Set.contains 1 arrivals then 1 else 0)
count-accepted_reset_example = count-accepted_reset arrivals al_session 1

-- Al has processed 1 and 2.
abbrev al_later : SessionState Text
al_later = record al_session { last_processed_seq = 2 }

later_processed : (n : ℕ) → n < 2 → should_process_inbound (n + 1) al_later ≡ false
unfolding should_process_inbound
later_processed n lt = ground arith

abbrev some_events : List (Event Text)
some_events = retry 70 1 ∷ send 71 (4 ∷ []) ∷ ack 2 ∷ []

send-buffered_example :
    buffered 2 (run some_events (step (send 60 (9 ∷ [])) al_session))
    ≡ (if acked 2 some_events then none else some (9 ∷ []))
send-buffered_example = send-buffered al_session 60 (9 ∷ []) some_events

replay_from-exact_example :
    Sort.IsAscending (λ (m : OutboundMessage Text). m.seq) (replay_from 0 al_session)
    × ((n : ℕ)
        → find n (replay_from 0 al_session)
          ≡ (if ltb 0 n then Dict.get n al_session.outbox else none))
replay_from-exact_example = replay_from-exact 0 al_session al_IsValid
