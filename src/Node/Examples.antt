-- ===== src/Node/Examples.antt =====
-- Concrete stores: Al is live with one message buffered, and the row is on disk.
use clustertalk_githubaction.Prelude.{
  ℕ, ◌+◌, ◌≡◌, refl, arith, true, false, none, some, List, [], ◌∷◌, ◌++◌, nat_beq, if◌then◌else◌,
  Text, codes, nat_eq, list_eq, pair_eq, ok,
}
use clustertalk_githubaction.Prelude.Dict
use clustertalk_githubaction.Protocol.Examples.{toy_json}
use clustertalk_githubaction.Node.SessionState
use clustertalk_githubaction.Node.SessionState.{
  SessionState, OutboundMessage, replay_from, should_process_inbound, mark_inbound_processed,
  reset_inbound,
}
use clustertalk_githubaction.Node.Persistence.{
  Db, SessionRow, OutboxStore, WriteOp, start, save_outbound, delete_outbound, apply_batch,
  writer_round, run_writer,
}
use clustertalk_githubaction.Node.Persistence.Tables.{IsKeyed}
use clustertalk_githubaction.Node.Persistence.Writer.{
  settled, settled-writer_round, stopped, committing, queued, run_writer-drains,
}
use clustertalk_githubaction.Node.Persistence.Reads.{load_session}
use clustertalk_githubaction.Node.SessionManager.{
  SessionManager, init, get_or_create, send_message, handle_ack,
}
use clustertalk_githubaction.Node.SessionManager.Mirror.{stored, dumped, Mirrors}
use clustertalk_githubaction.Node.SessionManager.Durability.{
  send_message-Mirrors, handle_ack-Mirrors,
}
use clustertalk_githubaction.Node.SessionManager.Survival.{send_survives_crash}
use clustertalk_githubaction.Node.SessionManager.Recovery.{crash_recovery}
use clustertalk_githubaction.Node.SessionState.Examples.{al, al_session, al_IsValid}

abbrev al_row : SessionRow
al_row = record { next_send_seq = 2; last_processed_seq = 0; room_id = codes "general" }

abbrev al_db : Db
al_db = record {
  sessions = (al, al_row) ∷ [];
  outbox = ((al, 1), record { payload = 34 ∷ 7 ∷ 8 ∷ []; sent_at = 50; retry_count = 0 }) ∷ [];
  users = [];
  rooms = [];
  message_log = [];
}

abbrev al_store : OutboxStore
al_store = record { db = al_db; pending = []; write_queue = []; stop_event = false; running = true }

abbrev al_manager : SessionManager Text
al_manager = record { store = al_store; sessions = (al, al_session) ∷ [] }

al-stored : (n : ℕ) → stored al n (settled al_store) ≡ dumped toy_json n al_session
unfolding Dict.get apply_batch
al-stored n = ground arith

al-Mirrors : Mirrors toy_json al al_session al_manager
unfolding Dict.get
al-Mirrors = record { live = refl; rows = al-stored }

al_loaded : load_session al (settled al_store) ≡ some al_row
unfolding load_session Dict.get apply_batch
al_loaded = refl

crash_recovery_example :
    (s' : SessionState Text) × (m' : SessionManager Text) × (get_or_create toy_json al
        (codes "general")
        (init (start (settled al_store)))
      ≡ ok (s', m'))
    × (s'.next_send_seq ≡ 2)
    × ((n : ℕ) → dumped toy_json n s' ≡ dumped toy_json n al_session)
unfolding apply_batch Dict.get
crash_recovery_example =
    crash_recovery toy_json al (codes "general") al_session al_manager al_row al-Mirrors al_loaded
      refl (refl, tt) ((7 ∷ 8 ∷ [], refl), tt)

send_survives_crash_example :
    (m' : SessionManager Text) × (send_message toy_json 60 al (9 ∷ []) al_manager ≡ ok (2, m'))
    × (r : SessionState Text) × (m'' : SessionManager Text) × (get_or_create toy_json al
          (codes "general")
          (init (start (settled m'.store)))
        ≡ ok (r, m''))
    × (r.next_send_seq ≡ 2 + 1)
    × ((n : ℕ)
        → dumped toy_json n r
          ≡ (if nat_beq 2 n then some (34 ∷ 9 ∷ []) else dumped toy_json n al_session))
unfolding apply_batch Dict.get
send_survives_crash_example =
    send_survives_crash toy_json 60 (codes "general") (9 ∷ []) al_session al_manager al_IsValid
      al-Mirrors refl (refl, tt) ((7 ∷ 8 ∷ [], refl), tt)

send_message-Mirrors_example :
    (m' : SessionManager Text) × (send_message toy_json 60 al (9 ∷ []) al_manager ≡ ok (2, m'))
    × Mirrors toy_json al (SessionState.prepare_outbound 60 (9 ∷ []) al_session).1 m'
send_message-Mirrors_example =
    send_message-Mirrors toy_json 60 al (9 ∷ []) al_session al_manager al_IsValid al-Mirrors

-- Bo is live beside Al, with nothing buffered.
abbrev bo_session : SessionState Text
bo_session = record al_session { session_id = codes "bo"; next_send_seq = 1; outbox = [] }

abbrev both_manager : SessionManager Text
both_manager = record {
  store = al_store;
  sessions = (al, al_session) ∷ (codes "bo", bo_session) ∷ [];
}

al_both_Mirrors : Mirrors toy_json al al_session both_manager
unfolding Dict.get
al_both_Mirrors = record { live = refl; rows = al-stored }

bo_both_Mirrors : Mirrors toy_json (codes "bo") bo_session both_manager
unfolding Dict.get apply_batch
bo_both_Mirrors = record { live = refl; rows = λ n. refl }

handle_ack-Mirrors_example :
    (m' : SessionManager Text) × (handle_ack toy_json al 1 al_manager ≡ ok m')
    × Mirrors toy_json al (SessionState.handle_ack 1 al_session).1 m'
handle_ack-Mirrors_example = handle_ack-Mirrors toy_json al 1 al_session al_manager al-Mirrors

abbrev al_ops : List WriteOp
al_ops = save_outbound al 2 (34 ∷ []) 60 ∷ delete_outbound al 1 ∷ []

al_IsKeyed : IsKeyed al_db
unfolding Dict.get
al_IsKeyed = record {
  sessions = (refl, tt);
  outbox = (refl, tt);
  users = tt;
  rooms = tt;
  message_log = tt;
}

settled-writer_round_example : settled (writer_round true true al_store) ≡ settled al_store
settled-writer_round_example = settled-writer_round true al_store

run_writer-drains_example :
    run_writer (committing (false ∷ false ∷ [])) (stopped al_ops (none ∷ []) al_db)
    ≡ stopped [] [] (apply_batch (al_ops ++ queued (none ∷ [])) al_db)
run_writer-drains_example =
    run_writer-drains (false ∷ false ∷ []) al_ops (none ∷ []) al_db (omega arith)
