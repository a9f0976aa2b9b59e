-- ===== src/Node/SessionManager/Processed.antt =====
-- A number that a live session has processed stays processed, whatever the session manager is called
-- for next.
use clustertalk_githubaction.Prelude.{
  ℕ, ◌≡◌, sym, ap, ◌∙◌, arith, false, none, some, Text, nat_eq, list_eq, text_eq_iff, ◌==◌, Result,
  ok, err, ◌>>=◌, Bool-cases, Option-cases, inl, inr,
}
use mathlib.Core.Option.{some-injective}
use clustertalk_githubaction.Prelude.Dict
use clustertalk_githubaction.Protocol.Framing.{Orjson}
use clustertalk_githubaction.Node.SessionState
use clustertalk_githubaction.Node.SessionState.{
  SessionState, should_process_inbound, mark_inbound_processed, prepare_outbound, mark_retried,
}
use clustertalk_githubaction.Node.SessionState.Inbound.{should_process-mark}
use clustertalk_githubaction.Node.Persistence.Reads.{ReadError}
use clustertalk_githubaction.Node.SessionManager.{
  SessionManager, get_loaded, hold, get_or_create, set_room, send_message, handle_ack,
  receive_message, recover_or_create, general,
}

module _ {P : Type 0} (sid : Text) (seq : ℕ) where
  -- `sid` is live, and has processed `seq`.
  abbrev pub IsProcessed : SessionManager P → Type 0
  IsProcessed m =
      (s : SessionState P) × (Dict.get sid m.sessions ≡ some s)
      × (should_process_inbound seq s ≡ false)

  -- What a call of the manager leaves, if it does not raise
  abbrev pub Keeps : {A : Type 0} → Result ReadError (A × SessionManager P) → Type 0
  Keeps (err e) = Unit
  Keeps (ok (a, m)) = IsProcessed m

  -- What `handle_ack` leaves, if it does not raise
  abbrev pub KeepsAlone : Result ReadError (SessionManager P) → Type 0
  KeepsAlone (err e) = Unit
  KeepsAlone (ok m) = IsProcessed m

  -- The same for a call that finds a session
  abbrev Finds : Text → Result ReadError (SessionState P × SessionManager P) → Type 0
  Finds t (err e) = Unit
  Finds t (ok (u, m)) = IsProcessed m × (Dict.get t m.sessions ≡ some u)

  Finds-then :
      {B : Type 0} (Good : Result ReadError B → Type 0) (t : Text)
      (found : Result ReadError (SessionState P × SessionManager P))
      (next : SessionState P × SessionManager P → Result ReadError B)
      → Finds t found
      → ((e : ReadError) → Good (err e))
      → ((u : SessionState P) (m : SessionManager P)
          → IsProcessed m
          → Dict.get t m.sessions ≡ some u
          → Good (next (u, m)))
      → Good (found >>= next)
  Finds-then Good t (err e) next h raised k = raised e
  Finds-then Good t (ok (u, m)) next h raised k = k u m h.0 h.1

  -- A session is held in the place of one that has processed no more.
  hold-IsProcessed :
      (t : Text) (u u' : SessionState P) (m : SessionManager P)
      → (should_process_inbound seq u ≡ false → should_process_inbound seq u' ≡ false)
      → IsProcessed m
      → Dict.get t m.sessions ≡ some u
      → IsProcessed (hold t u' m)
  unfolding hold
  hold-IsProcessed t u u' m keeps (s, live, old) here = elim (Bool-cases (t == sid)) [
    | inl same ↦
        let eq : t ≡ sid = (text_eq_iff t sid).0 same in
        let loaded : some u ≡ some s = sym here ∙ ap (λ k. Dict.get k m.sessions) eq ∙ live in
        (
          u',
          ground (arith, same, Dict.get-put t sid u' m.sessions),
          keeps (ap (should_process_inbound seq) (some-injective u s loaded) ∙ old),
        )
    | inr other ↦ (s, ground (arith, other, live, Dict.get-put t sid u' m.sessions), old)
  ]

  -- A session comes up under an id that was not live.
  hold_new-IsProcessed :
      (t : Text) (u : SessionState P) (m : SessionManager P)
      → IsProcessed m
      → Dict.get t m.sessions ≡ none
      → IsProcessed (hold t u m)
  unfolding hold
  hold_new-IsProcessed t u m (s, live, old) absent =
      (s, ground (arith, live, absent, text_eq_iff t sid, Dict.get-put t sid u m.sessions), old)

  -- A live session that has just marked the number
  pub marked-IsProcessed :
      (s : SessionState P) (m : SessionManager P)
      → IsProcessed (hold sid (mark_inbound_processed seq s) m)
  unfolding hold
  marked-IsProcessed s m = (
    mark_inbound_processed seq s,
    Dict.get-put_self sid (mark_inbound_processed seq s) m.sessions,
    ground (arith, should_process-mark s seq seq),
  )

  -- The retry loop marks a message of a live session.
  pub marked_retried-IsProcessed :
      (now : ℕ) (t : Text) (n : ℕ) (u : SessionState P) (m : SessionManager P)
      → IsProcessed m
      → get_loaded t m ≡ some u
      → IsProcessed (hold t (mark_retried now n u) m)
  unfolding get_loaded mark_retried should_process_inbound
  marked_retried-IsProcessed now t n u m h live = elim (Option-cases (Dict.get n u.outbox)) [
    | inl absent ↦
        hold-IsProcessed t u (mark_retried now n u) m (λ k. rw (absent, mark_retried) k) h live
    | inr (msg, there) ↦
        hold-IsProcessed t u (mark_retried now n u) m (λ k. rw (there, mark_retried) k) h live
  ]

  created-Finds :
      (t : Text) (m : SessionManager P) (found : Result ReadError (SessionState P))
      → IsProcessed m
      → Dict.get t m.sessions ≡ none
      → Finds t (found >>= (λ u. ok (u, hold t u m)))
  unfolding hold
  created-Finds t m (err e) h absent = tt
  created-Finds t m (ok u) h absent =
      (hold_new-IsProcessed t u m h absent, Dict.get-put_self t u m.sessions)

  Finds-Keeps :
      (t : Text) (found : Result ReadError (SessionState P × SessionManager P))
      → Finds t found
      → Keeps found
  Finds-Keeps t (err e) h = tt
  Finds-Keeps t (ok (u, m)) h = h.0

  module _ (json : Orjson P) where
    get_or_create-Finds :
        (t room : Text) (m : SessionManager P)
        → IsProcessed m
        → Finds t (get_or_create json t room m)
    unfolding get_or_create
    get_or_create-Finds t room m h = elim (Option-cases (Dict.get t m.sessions)) [
      | inl absent ↦
          rw (absent, get_or_create)
            (created-Finds t m (recover_or_create json t room m.store) h absent)
      | inr (u, here) ↦ rw (here, get_or_create) (h, here)
    ]

    pub get_or_create-Keeps :
        (t room : Text) (m : SessionManager P) → IsProcessed m → Keeps (get_or_create json t room m)
    get_or_create-Keeps t room m h =
        Finds-Keeps t (get_or_create json t room m) (get_or_create-Finds t room m h)

    pub set_room-Keeps :
        (t room : Text) (m : SessionManager P) → IsProcessed m → Keeps (set_room json t room m)
    unfolding set_room should_process_inbound
    set_room-Keeps t room m h =
        Finds-then Keeps t (get_or_create json t general m) _ (get_or_create-Finds t general m h)
          (λ e. tt)
          (λ u m'.
            λ h' here. hold-IsProcessed t u (record u { room_id = room }) m' (λ k. k) h' here)

    pub send_message-Keeps :
        (now : ℕ) (t : Text) (p : P) (m : SessionManager P)
        → IsProcessed m
        → Keeps (send_message json now t p m)
    unfolding send_message prepare_outbound should_process_inbound
    send_message-Keeps now t p m h =
        Finds-then Keeps t (get_or_create json t general m) _ (get_or_create-Finds t general m h)
          (λ e. tt)
          (λ u m' h' here. hold-IsProcessed t u (prepare_outbound now p u).1 m' (λ k. k) h' here)

    pub receive_message-Keeps :
        (wall : ℕ) (t : Text) (n : ℕ) (p : P) (m : SessionManager P)
        → IsProcessed m
        → Keeps (receive_message json wall t n p m)
    unfolding receive_message
    receive_message-Keeps wall t n p m h =
        Finds-then Keeps t (get_or_create json t general m) _ (get_or_create-Finds t general m h)
          (λ e. tt)
          (λ u m'. λ h' here. elim (Bool-cases (should_process_inbound n u)) [
            | inl new ↦ rw new (
                hold-IsProcessed t u (mark_inbound_processed n u) m'
                  (λ old. ground (arith, old, should_process-mark u n seq)) h' here)
            | inr old ↦ rw old h'
          ])

    pub handle_ack-Keeps :
        (t : Text) (n : ℕ) (m : SessionManager P)
        → IsProcessed m
        → KeepsAlone (handle_ack json t n m)
    unfolding handle_ack SessionState.handle_ack should_process_inbound
    handle_ack-Keeps t n m h =
        Finds-then KeepsAlone t (get_or_create json t general m) _
          (get_or_create-Finds t general m h) (λ e. tt)
          (λ u m'. λ h' here.
            let held = hold-IsProcessed t u (SessionState.handle_ack n u).1 m' (λ k. k) h' here in
            elim (Bool-cases (Dict.has n u.outbox)) [
              | inl buffered ↦ rw buffered held
              | inr gone ↦ rw gone held
            ])
