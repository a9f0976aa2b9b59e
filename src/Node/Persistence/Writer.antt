-- ===== src/Node/Persistence/Writer.antt =====
-- The writer thread: batching does not change what is stored, and a stop drains the queue.
use clustertalk_githubaction.Prelude.{
  ◌∙◌, sym, ◌<◌, ◌≡◌, refl, arith, ap, Bool, true, false, Option, none, some, List, [], ◌∷◌, ◌++◌,
  ◌&&◌, ◌||◌, length, if◌then◌else◌, append_assoc,
}
use clustertalk_githubaction.Node.Persistence.{
  has_work, nonempty, flush, run_writer, fetch, writer_round, Db, WriteOp, apply_op, apply_batch,
  OutboxStore, put,
}

-- A batch may be split anywhere.
pub apply_batch-append :
    (a b : List WriteOp) (db : Db) → apply_batch (a ++ b) db ≡ apply_batch b (apply_batch a db)
unfolding apply_batch
apply_batch-append [] b db = refl
apply_batch-append (op ∷ a) b db = apply_batch-append a b (apply_op op db)

abbrev pub queued : List (Option WriteOp) → List WriteOp
queued [] = []
queued (none ∷ queue) = queued queue
queued (some op ∷ queue) = op ∷ queued queue

-- What the database holds once every write asked for so far is in.
abbrev pub settled : OutboxStore → Db
settled store = apply_batch (store.pending ++ queued store.write_queue) store.db

queued-append : (q r : List (Option WriteOp)) → queued (q ++ r) ≡ queued q ++ queued r
queued-append [] r = refl
queued-append (none ∷ q) r = queued-append q r
queued-append (some op ∷ q) r = ap (◌∷◌ op) (queued-append q r)

-- A write asked for is applied after all that were asked for before.
pub settled-put :
    (op : WriteOp) (store : OutboxStore) → settled (put op store) ≡ apply_op op (settled store)
unfolding put
settled-put op store =
    rw
      (
        queued-append store.write_queue (some op ∷ []),
        ← append_assoc,
        apply_batch-append (store.pending ++ queued store.write_queue) (op ∷ []) store.db,
      )
      (unfold apply_batch in refl)

fetch-queued : (q : List (Option WriteOp)) → (fetch q).0 ++ queued (fetch q).1 ≡ queued q
unfolding fetch
fetch-queued [] = refl
fetch-queued (none ∷ q) = refl
fetch-queued (some op ∷ q) = refl

-- The batch that a round holds, and the queue after it, are what was pending and queued before.
round-batch :
    (p : List WriteOp) (q : List (Option WriteOp)) (db : Db)
    → apply_batch ((p ++ (fetch q).0) ++ queued (fetch q).1) db ≡ apply_batch (p ++ queued q) db
round-batch p q db =
    ap (λ ops. apply_batch ops db)
      (append_assoc p (fetch q).0 (queued (fetch q).1) ∙ ap (λ ops. p ++ ops) (fetch-queued q))

settled-if :
    (b : Bool) (x y : OutboxStore) (db : Db)
    → settled x ≡ db
    → settled y ≡ db
    → settled (if b then x else y) ≡ db
settled-if true x y db h k = h
settled-if false x y db h k = k

-- A round of the writer thread in which SQLite does not fail leaves what will be stored as it is.
pub settled-writer_round :
    (elapsed : Bool) (store : OutboxStore)
    → settled (writer_round elapsed true store) ≡ settled store
unfolding writer_round flush
settled-writer_round elapsed store =
    let (op, q) = fetch store.write_queue in
    let held = record store { pending = store.pending ++ op; write_queue = q } in
    settled-if (nonempty held.pending && (elapsed || held.stop_event)) (flush true held) held
      (settled store)
      (sym (apply_batch-append (store.pending ++ op) (queued q) store.db)
        ∙ round-batch store.pending store.write_queue store.db)
      (round-batch store.pending store.write_queue store.db)

-- A store whose writer has been told to stop.
abbrev pub stopped : List WriteOp → List (Option WriteOp) → Db → OutboxStore
stopped p q db = record { db = db; pending = p; write_queue = q; stop_event = true; running = true }

flush-stopped :
    (elapsed : Bool) (b : List WriteOp) (q : List (Option WriteOp)) (db : Db)
    → (if nonempty b && (elapsed || true) then flush true (stopped b q db) else stopped b q db)
      ≡ stopped [] q (apply_batch b db)
unfolding flush nonempty apply_batch
flush-stopped elapsed [] q db = refl
flush-stopped true (op ∷ b) q db = refl
flush-stopped false (op ∷ b) q db = refl

round_stopped :
    (elapsed : Bool) (p : List WriteOp) (q : List (Option WriteOp)) (db : Db)
    → writer_round elapsed true (stopped p q db)
      ≡ stopped [] (fetch q).1 (apply_batch (p ++ (fetch q).0) db)
unfolding writer_round
round_stopped elapsed p q db = flush-stopped elapsed (p ++ (fetch q).0) (fetch q).1 db

abbrev pub committing : List Bool → List (Bool × Bool)
committing [] = []
committing (elapsed ∷ rounds) = (elapsed, true) ∷ committing rounds

run_idle :
    (rounds : List (Bool × Bool)) (db : Db)
    → run_writer rounds (stopped [] [] db) ≡ stopped [] [] db
unfolding run_writer
run_idle [] db = refl
run_idle (r ∷ rounds) db = refl

run_step :
    (elapsed : Bool) (rounds : List (Bool × Bool)) (p : List WriteOp) (x : Option WriteOp)
    (q : List (Option WriteOp)) (db : Db)
    → run_writer ((elapsed, true) ∷ rounds) (stopped p (x ∷ q) db)
      ≡ run_writer rounds (stopped [] (fetch (x ∷ q)).1 (apply_batch (p ++ (fetch (x ∷ q)).0) db))
unfolding run_writer has_work nonempty
run_step elapsed rounds [] x q db = ap (run_writer rounds) (round_stopped elapsed [] (x ∷ q) db)
run_step elapsed rounds (op ∷ p) x q db =
    ap (run_writer rounds) (round_stopped elapsed (op ∷ p) (x ∷ q) db)

length-fetch :
    (x : Option WriteOp) (q : List (Option WriteOp)) → length (fetch (x ∷ q)).1 ≡ length q
unfolding fetch
length-fetch none q = refl
length-fetch (some op) q = refl

-- Once the writer has been told to stop, and if SQLite commits every batch, one more round than the
-- queue is long empties the queue and the pending batch into the database, and the loop ends by its
-- test. Every write asked for is then stored.
pub run_writer-drains :
    (rounds : List Bool) (p : List WriteOp) (q : List (Option WriteOp)) (db : Db)
    → length q < length rounds
    → run_writer (committing rounds) (stopped p q db)
      ≡ stopped [] [] (apply_batch (p ++ queued q) db)
unfolding run_writer
run_writer-drains [] p q db lt = absurd (omega arith)
run_writer-drains (r ∷ rounds) [] [] db lt = unfold apply_batch in refl
run_writer-drains (r ∷ rounds) (op ∷ p) [] db lt =
    rw (round_stopped r (op ∷ p) [] db) (run_idle (committing rounds) _)
run_writer-drains (r ∷ rounds) p (x ∷ q) db lt =
    let (ops, q') = fetch (x ∷ q) in
    run_step r (committing rounds) p x q db
    ∙ run_writer-drains rounds [] q' (apply_batch (p ++ ops) db) (omega (arith, length-fetch x q))
    ∙ ap (stopped [] [])
        (sym (apply_batch-append (p ++ ops) (queued q') db) ∙ round-batch p (x ∷ q) db)
