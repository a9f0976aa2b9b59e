-- ===== src/Node/SessionManager/Durability.antt =====
-- The store follows the live sessions through every operation.
use clustertalk_githubaction.Prelude.{
  ◌∙◌, ◌&&◌, ℕ, ◌≡◌, arith, ap, false, none, some, nat_beq, if◌then◌else◌, Bool-cases, inl, inr,
  Text, nat_eq, list_eq, pair_eq, ok, ◌==◌, text_eq_iff,
}
use clustertalk_githubaction.Prelude.Dict
use clustertalk_githubaction.Protocol.Framing.{Orjson}
use clustertalk_githubaction.Node.SessionState
use clustertalk_githubaction.Node.SessionState.{SessionState, OutboundMessage}
use clustertalk_githubaction.Node.SessionState.Outbound.{IsValid}
use clustertalk_githubaction.Node.Persistence.{Db, delete_outbound, put}
use clustertalk_githubaction.Node.Persistence.Writer.{settled, settled-put}
use clustertalk_githubaction.Node.SessionManager.{SessionManager, send_message, handle_ack}
use clustertalk_githubaction.Node.SessionManager.Mirror.{
  payload_of, stored, dumped, Mirrors, get_or_create-live, stored-save, stored-delete, send_writes,
  outbox-send_writes, dumped-prepare, dumped-next,
}

module _ {P : Type 0} (json : Orjson P) where
  -- The manager after `send_message`, for a session that is live as `s`
  abbrev pub after_send : ℕ → Text → P → SessionState P → SessionManager P → SessionManager P
  after_send now sid p s m =
      let s' = (SessionState.prepare_outbound now p s).1 in
      record {
        store = send_writes json sid s.next_send_seq p now s' m.store;
        sessions = Dict.put sid s' m.sessions;
      }

  pub send_message-after_send :
      (now : ℕ) (sid : Text) (p : P) (s : SessionState P) (m : SessionManager P)
      → Dict.get sid m.sessions ≡ some s
      → send_message json now sid p m ≡ ok (s.next_send_seq, after_send now sid p s m)
  unfolding send_message SessionState.prepare_outbound
  send_message-after_send now sid p s m live = rw (get_or_create-live json sid _ s m live)

  pub Mirrors-after_send :
      (now : ℕ) (sid : Text) (p : P) (s : SessionState P) (m : SessionManager P)
      → IsValid s
      → Mirrors json sid s m
      → Mirrors json sid (SessionState.prepare_outbound now p s).1 (after_send now sid p s m)
  Mirrors-after_send now sid p s m v h = record {
    live = Dict.get-put_self sid _ m.sessions;
    rows = λ n. ground (
      arith,
      ap (λ o. payload_of (Dict.get (sid, n) o))
          (outbox-send_writes json sid s.next_send_seq p now
            (SessionState.prepare_outbound now p s).1 m.store),
      stored-save json sid sid s.next_send_seq n now (json.dumps p) (settled m.store)
          (h.rows s.next_send_seq ∙ dumped-next json s v),
      dumped-prepare json now p s n,
      h.rows n,
      text_eq_iff sid sid,
    );
  }

  -- The other live sessions are not touched.
  Mirrors-after_send_ne :
      (now : ℕ) (sid sid' : Text) (p : P) (s t : SessionState P) (m : SessionManager P)
      → (sid == sid') ≡ false
      → IsValid s
      → Mirrors json sid s m
      → Mirrors json sid' t m
      → Mirrors json sid' t (after_send now sid p s m)
  Mirrors-after_send_ne now sid sid' p s t m ne v h k = record {
    live = ground (
      arith,
      ne,
      k.live,
      Dict.get-put sid sid' (SessionState.prepare_outbound now p s).1 m.sessions,
    );
    rows = λ n. ground (
      arith,
      ne,
      ap (λ o. payload_of (Dict.get (sid', n) o))
          (outbox-send_writes json sid s.next_send_seq p now
            (SessionState.prepare_outbound now p s).1 m.store),
      stored-save json sid sid' s.next_send_seq n now (json.dumps p) (settled m.store)
          (h.rows s.next_send_seq ∙ dumped-next json s v),
      k.rows n,
    );
  }

  -- `send_message` to a valid live session whose outbox the store mirrors does not raise, returns
  -- the session's next number, and leaves a manager whose store mirrors the outbox with the new
  -- message in it.
  pub send_message-Mirrors :
      (now : ℕ) (sid : Text) (p : P) (s : SessionState P) (m : SessionManager P)
      → IsValid s
      → Mirrors json sid s m
      → (m' : SessionManager P) × (send_message json now sid p m ≡ ok (s.next_send_seq, m'))
        × Mirrors json sid (SessionState.prepare_outbound now p s).1 m'
  send_message-Mirrors now sid p s m v h = (
    after_send now sid p s m,
    send_message-after_send now sid p s m h.live,
    Mirrors-after_send now sid p s m v h,
  )

  -- A message sent in one session leaves what the store mirrors of another as it is.
  pub send_message-Mirrors_ne :
      (now : ℕ) (sid sid' : Text) (p : P) (s t : SessionState P) (m : SessionManager P)
      → (sid == sid') ≡ false
      → IsValid s
      → Mirrors json sid s m
      → Mirrors json sid' t m
      → (m' : SessionManager P) × (send_message json now sid p m ≡ ok (s.next_send_seq, m'))
        × Mirrors json sid' t m'
  send_message-Mirrors_ne now sid sid' p s t m ne v h k = (
    after_send now sid p s m,
    send_message-after_send now sid p s m h.live,
    Mirrors-after_send_ne now sid sid' p s t m ne v h k,
  )

  abbrev after_ack : Text → ℕ → SessionState P → SessionManager P → SessionManager P
  after_ack sid seq s m = record {
    store = if Dict.has seq s.outbox then put (delete_outbound sid seq) m.store else m.store;
    sessions = Dict.put sid (SessionState.handle_ack seq s).1 m.sessions;
  }

  handle_ack-after_ack :
      (sid : Text) (seq : ℕ) (s : SessionState P) (m : SessionManager P)
      → Dict.get sid m.sessions ≡ some s
      → handle_ack json sid seq m ≡ ok (after_ack sid seq s m)
  unfolding handle_ack SessionState.handle_ack
  handle_ack-after_ack sid seq s m live = rw (get_or_create-live json sid _ s m live) (ground arith)

  stored-after_ack :
      (sid sid' : Text) (seq n : ℕ) (s : SessionState P) (m : SessionManager P)
      → stored sid' n (settled (after_ack sid seq s m).store) ≡ (
          if Dict.has seq s.outbox && (sid == sid' && nat_beq seq n)
          then none
          else stored sid' n (settled m.store))
  stored-after_ack sid sid' seq n s m = elim (Bool-cases (Dict.has seq s.outbox)) [
    | inl here ↦ rw here (
        ap (λ (d : Db). stored sid' n d) (settled-put (delete_outbound sid seq) m.store)
        ∙ stored-delete json sid sid' seq n (settled m.store))
    | inr absent ↦ rw absent
  ]

  dumped-ack :
      (seq n : ℕ) (s : SessionState P)
      → dumped json n (SessionState.handle_ack seq s).1
        ≡ (if nat_beq seq n then none else dumped json n s)
  unfolding SessionState.handle_ack
  dumped-ack seq n s = ground (arith, Dict.get-remove seq n s.outbox)

  dumped_absent :
      (n : ℕ) (s : SessionState P) → Dict.has n s.outbox ≡ false → dumped json n s ≡ none
  dumped_absent n s h = ground (arith, Dict.has-get n s.outbox)

  -- `handle_ack` for a live session whose outbox the store mirrors does not raise, and leaves a
  -- manager whose store mirrors the outbox without that number.
  pub handle_ack-Mirrors :
      (sid : Text) (seq : ℕ) (s : SessionState P) (m : SessionManager P)
      → Mirrors json sid s m
      → (m' : SessionManager P) × (handle_ack json sid seq m ≡ ok m')
        × Mirrors json sid (SessionState.handle_ack seq s).1 m'
  handle_ack-Mirrors sid seq s m h = (
    after_ack sid seq s m,
    handle_ack-after_ack sid seq s m h.live,
    record {
      live = Dict.get-put_self sid _ m.sessions;
      rows = λ n. ground (
        arith,
        stored-after_ack sid sid seq n s m,
        dumped-ack seq n s,
        dumped_absent n s,
        h.rows n,
        text_eq_iff sid sid,
      );
    },
  )
