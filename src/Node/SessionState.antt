-- ===== src/Node/SessionState.antt =====
-- node/session_state.py: sequence numbers, the outbox and inbound deduplication of one session.
-- Payloads are of any type `P`; times are counted in ticks, so that tests on them are exact.
pub mod Inbound
pub mod Outbound
pub mod Delivery
pub mod Replay
pub mod Examples
use clustertalk_githubaction.Prelude.{
  ℕ, zero, suc, ◌+◌, Bool, true, false, not, ◌&&◌, ◌||◌, Option, none, some, List, [], ◌∷◌, map,
  Text, length, ltb, leb, if◌then◌else◌, nat_eq,
}
use clustertalk_githubaction.Prelude.Dict
use clustertalk_githubaction.Prelude.Dict.{Dict}
use clustertalk_githubaction.Prelude.Set
use clustertalk_githubaction.Prelude.Sort

pub record OutboundMessage (P : Type 0) : Type 0 where
  pub seq : ℕ
  pub payload : P
  pub sent_at : ℕ
  pub retry_count : ℕ

pub record SessionState (P : Type 0) : Type 0 where
  pub session_id : Text
  pub room_id : Text
  pub next_send_seq : ℕ
  pub outbox : Dict ℕ (OutboundMessage P)
  pub last_processed_seq : ℕ
  pub seen_inbound_seqs : List ℕ

module _ {P : Type 0} where
  -- `__init__`
  unfoldable pub init : Text → ℕ → ℕ → Text → SessionState P
  init session_id next_send_seq last_processed_seq room_id = record {
    session_id = session_id;
    room_id = room_id;
    next_send_seq = next_send_seq;
    outbox = [];
    last_processed_seq = last_processed_seq;
    seen_inbound_seqs = [];
  }

  load_rows : List (OutboundMessage P) → Dict ℕ (OutboundMessage P) → Dict ℕ (OutboundMessage P)
  load_rows [] outbox = outbox
  load_rows (row ∷ rows) outbox = load_rows rows (Dict.put row.seq row outbox)

  -- A row carries the four fields of a message.
  unfoldable pub load_outbox_rows : List (OutboundMessage P) → SessionState P → SessionState P
  unfolding load_rows
  load_outbox_rows rows s = record s { outbox = load_rows rows s.outbox }

  -- `now` is `time.monotonic()`.
  unfoldable pub prepare_outbound : ℕ → P → SessionState P → OutboundMessage P × SessionState P
  prepare_outbound now payload s =
      let msg : OutboundMessage P = record {
        seq = s.next_send_seq;
        payload = payload;
        sent_at = now;
        retry_count = 0;
      } in
      (
        msg,
        record s { outbox = Dict.put msg.seq msg s.outbox; next_send_seq = s.next_send_seq + 1 },
      )

  unfoldable pub handle_ack : ℕ → SessionState P → Bool × SessionState P
  handle_ack seq s = (Dict.has seq s.outbox, record s { outbox = Dict.remove seq s.outbox })

  filter_msgs : (OutboundMessage P → Bool) → Dict ℕ (OutboundMessage P) → List (OutboundMessage P)
  filter_msgs keep [] = []
  filter_msgs keep ((k, msg) ∷ d) =
      let rest = filter_msgs keep d in if keep msg then msg ∷ rest else rest

  -- `(now - msg.sent_at) >= retry_after_seconds`, with the subtraction moved over
  unfoldable pub pending_for_retry : ℕ → ℕ → SessionState P → List (OutboundMessage P)
  unfolding filter_msgs
  pending_for_retry now retry_after s =
      filter_msgs (λ msg. leb (msg.sent_at + retry_after) now) s.outbox

  unfoldable pub mark_retried : ℕ → ℕ → SessionState P → SessionState P
  mark_retried now seq s = elim (Dict.get seq s.outbox) [
    | none ↦ s
    | some msg ↦ record s {
      outbox =
          Dict.put seq (record msg { sent_at = now; retry_count = msg.retry_count + 1 }) s.outbox;
    }
  ]

  -- `sorted(…, key=lambda m: m.seq)` over the buffered messages above the given number
  unfoldable pub replay_from : ℕ → SessionState P → List (OutboundMessage P)
  unfolding filter_msgs
  replay_from last_received_seq s =
      Sort.sort_by (λ m. m.seq) (filter_msgs (λ msg. ltb last_received_seq msg.seq) s.outbox)

  unfoldable pub should_process_inbound : ℕ → SessionState P → Bool
  should_process_inbound seq s =
      if leb seq s.last_processed_seq || Set.contains seq s.seen_inbound_seqs then false else true

  unfoldable pub reset_inbound : SessionState P → SessionState P
  reset_inbound s = record s { last_processed_seq = 0; seen_inbound_seqs = [] }

-- The `while` loop of `mark_inbound_processed`: each round takes a number out of the set.
unfoldable pub advance : ℕ → ℕ → List ℕ → ℕ × List ℕ
advance zero last seen = (last, seen)
advance (suc fuel) last seen =
    let rest = advance fuel (last + 1) (Set.discard (last + 1) seen) in
    if Set.contains (last + 1) seen then rest else (last, seen)

module _ {P : Type 0} where
  unfoldable pub mark_inbound_processed : ℕ → SessionState P → SessionState P
  mark_inbound_processed seq s =
      let seen = Set.add seq s.seen_inbound_seqs in
      let (last, left) = advance (length seen) s.last_processed_seq seen in
      record s { last_processed_seq = last; seen_inbound_seqs = left }
