-- ===== src/Node/Persistence/Reads/Exact.antt =====
-- What the reads return, for tables whose payloads were serialised.
use clustertalk_githubaction.Prelude.{
  ◌∙◌, ℕ, ◌<◌, ◌≡◌, refl, arith, Option, none, some, List, [], ◌∷◌, leb, Bool-cases, inl, inr, Text,
  nat_eq, list_eq, pair_eq, ok, ◌==◌, All, text_eq_iff,
}
use clustertalk_githubaction.Prelude.Dict
use clustertalk_githubaction.Prelude.Dict.{Dict, IsDistinct}
use clustertalk_githubaction.Prelude.Sort
use clustertalk_githubaction.Protocol.Framing.{Orjson}
use clustertalk_githubaction.Node.SessionState.{OutboundMessage}
use clustertalk_githubaction.Node.Persistence.{Db, OutboxRow}
use clustertalk_githubaction.Node.Persistence.Reads.{
  where_session, load_outbox, outbox_rows, loaded,
}

module _ {V : Type 0} where
  abbrev pub entry : ℕ → Option V → Option (ℕ × V)
  entry n none = none
  entry n (some v) = some (n, v)

  find-where :
      (sid : Text) (n : ℕ) (d : Dict (Text × ℕ) V)
      → Sort.find (λ r. r.0) n (where_session sid d) ≡ entry n (Dict.get (sid, n) d)
  unfolding where_session Dict.get
  find-where sid n [] = refl
  find-where sid n (((s, m), v) ∷ d) = elim (Bool-cases (s == sid)) [
    | inl same ↦ ground (arith, same, find-where sid n d)
    | inr other ↦ ground (arith, other, find-where sid n d)
  ]

  where-IsUnique :
      (sid : Text) (d : Dict (Text × ℕ) V)
      → IsDistinct d
      → Sort.IsUnique (λ r. r.0) (where_session sid d)
  unfolding where_session
  where-IsUnique sid [] h = tt
  where-IsUnique sid (((s, m), v) ∷ d) h = elim (Bool-cases (s == sid)) [
    | inl same ↦
        ground (arith, same, text_eq_iff s sid, find-where sid m d, where-IsUnique sid d h.1)
    | inr other ↦ ground (arith, other, where-IsUnique sid d h.1)
  ]

module _ {P : Type 0} (json : Orjson P) where
  -- Every payload of the table was written by `orjson.dumps`.
  abbrev pub IsSerialised : Dict (Text × ℕ) OutboxRow → Type 0
  IsSerialised [] = Unit
  IsSerialised ((k, row) ∷ d) = ((p : P) × (row.payload ≡ json.dumps p)) × IsSerialised d

  abbrev pub message : ℕ → P → OutboxRow → OutboundMessage P
  message n p row = record {
    seq = n;
    payload = p;
    sent_at = row.sent_at;
    retry_count = row.retry_count;
  }

  -- The message that a row holds.
  abbrev pub decoded : ℕ → Option OutboxRow → Option (OutboundMessage P)
  decoded n none = none
  decoded n (some row) = elim (json.loads row.payload) [
    | none ↦ none
    | some p ↦ some (message n p row)
  ]

  -- The rows of one session load to these messages, one for each.
  data Decodes : List (ℕ × OutboxRow) → List (OutboundMessage P) → Type 0 where
    nil : Decodes [] []
    cons :
        {rows : List (ℕ × OutboxRow)} {ms : List (OutboundMessage P)} (n : ℕ) (row : OutboxRow)
        (p : P)
        → json.loads row.payload ≡ some p
        → Decodes rows ms
        → Decodes ((n, row) ∷ rows) (message n p row ∷ ms)

  Decodes-rows :
      {rows : List (ℕ × OutboxRow)} {ms : List (OutboundMessage P)}
      → Decodes rows ms
      → outbox_rows json rows ≡ ok ms
  unfolding outbox_rows loaded
  Decodes-rows nil = refl
  Decodes-rows (cons n row p e d) = rw (e, Decodes-rows d)

  Decodes-find :
      {rows : List (ℕ × OutboxRow)} {ms : List (OutboundMessage P)} (n : ℕ)
      → Decodes rows ms
      → (row : OutboxRow) → Sort.find (λ r. r.0) n rows ≡ some (n, row)
      → Sort.find (λ m. m.seq) n ms ≡ decoded n (some row)
  Decodes-find n nil row h = ground arith
  Decodes-find n (cons m r p e d) row h = ground (arith, e, Decodes-find n d row)

  Decodes-find-none :
      {rows : List (ℕ × OutboxRow)} {ms : List (OutboundMessage P)} (n : ℕ)
      → Decodes rows ms
      → Sort.find (λ r. r.0) n rows ≡ none
      → Sort.find (λ m. m.seq) n ms ≡ none
  Decodes-find-none n nil h = refl
  Decodes-find-none n (cons m r p e d) h = ground (arith, e, Decodes-find-none n d)

  Decodes-above :
      {rows : List (ℕ × OutboxRow)} {ms : List (OutboundMessage P)} (b : ℕ)
      → Decodes rows ms
      → All (λ r. b < r.0) rows
      → All (λ m. b < m.seq) ms
  Decodes-above b nil h = tt
  Decodes-above b (cons n row p e d) h = (h.0, Decodes-above b d h.1)

  Decodes-IsAscending :
      {rows : List (ℕ × OutboxRow)} {ms : List (OutboundMessage P)}
      → Decodes rows ms
      → Sort.IsAscending (λ r. r.0) rows
      → Sort.IsAscending (λ m. m.seq) ms
  Decodes-IsAscending nil h = tt
  Decodes-IsAscending (cons n row p e d) h = (Decodes-above n d h.0, Decodes-IsAscending d h.1)

  -- Rows that all load.
  abbrev IsLoadable : List (ℕ × OutboxRow) → Type 0
  IsLoadable [] = Unit
  IsLoadable ((n, row) ∷ rows) = ((p : P) × (json.loads row.payload ≡ some p)) × IsLoadable rows

  where-IsLoadable :
      (sid : Text) (d : Dict (Text × ℕ) OutboxRow)
      → IsSerialised d
      → IsLoadable (where_session sid d)
  unfolding where_session
  where-IsLoadable sid [] h = tt
  where-IsLoadable sid (((s, m), row) ∷ d) h = elim (Bool-cases (s == sid)) [
    | inl same ↦ rw same ((h.0.0, rw (h.0.1) (json.loads-dumps h.0.0)), where-IsLoadable sid d h.1)
    | inr other ↦ rw other (where-IsLoadable sid d h.1)
  ]

  insert-IsLoadable :
      (r : ℕ × OutboxRow) (rows : List (ℕ × OutboxRow))
      → IsLoadable (r ∷ [])
      → IsLoadable rows
      → IsLoadable (Sort.insert_by (λ x. x.0) r rows)
  unfolding Sort.insert_by
  insert-IsLoadable r [] h k = h
  insert-IsLoadable (n, row) ((m, x) ∷ rows) h k = elim (Bool-cases (leb n m)) [
    | inl le ↦ rw le (h.0, k)
    | inr gt ↦ rw gt (k.0, insert-IsLoadable (n, row) rows h k.1)
  ]

  sort-IsLoadable :
      (rows : List (ℕ × OutboxRow)) → IsLoadable rows → IsLoadable (Sort.sort_by (λ x. x.0) rows)
  unfolding Sort.sort_by
  sort-IsLoadable [] h = tt
  sort-IsLoadable ((n, row) ∷ rows) h =
      insert-IsLoadable (n, row) (Sort.sort_by (λ x. x.0) rows) (h.0, tt) (sort-IsLoadable rows h.1)

  decode :
      (rows : List (ℕ × OutboxRow))
      → IsLoadable rows
      → (ms : List (OutboundMessage P)) × Decodes rows ms
  decode [] h = ([], nil)
  decode ((n, row) ∷ rows) h =
      let (ms, d) = decode rows h.1 in (message n h.0.0 row ∷ ms, cons n row h.0.0 h.0.1 d)

  sorted_rows : Text → Db → List (ℕ × OutboxRow)
  sorted_rows sid db = Sort.sort_by (λ r. r.0) (where_session sid db.outbox)

  find-sorted_rows :
      (sid : Text) (db : Db) (n : ℕ)
      → Sort.find (λ r. r.0) n (sorted_rows sid db) ≡ entry n (Dict.get (sid, n) db.outbox)
  unfolding sorted_rows
  find-sorted_rows sid db n =
      Sort.find-sort_by (λ (r : ℕ × OutboxRow). r.0) n (where_session sid db.outbox)
      ∙ find-where sid n db.outbox

  Decodes-entry :
      {rows : List (ℕ × OutboxRow)} {ms : List (OutboundMessage P)} (n : ℕ) (o : Option OutboxRow)
      → Decodes rows ms
      → Sort.find (λ r. r.0) n rows ≡ entry n o
      → Sort.find (λ m. m.seq) n ms ≡ decoded n o
  Decodes-entry n none d e = Decodes-find-none n d e
  Decodes-entry n (some row) d e = Decodes-find n d row e

  -- From a table without a repeated key whose payloads were serialised, `load_outbox` returns, in
  -- strictly ascending order of number, exactly the session's rows, each with the payload that was
  -- dumped.
  pub load_outbox-exact :
      (sid : Text) (db : Db)
      → IsDistinct db.outbox
      → IsSerialised db.outbox
      → (ms : List (OutboundMessage P)) × (load_outbox json sid db ≡ ok ms)
        × Sort.IsAscending (λ m. m.seq) ms
        × ((n : ℕ) → Sort.find (λ m. m.seq) n ms ≡ decoded n (Dict.get (sid, n) db.outbox))
  unfolding load_outbox sorted_rows
  load_outbox-exact sid db distinct serialised =
      let rows = where_session sid db.outbox in
      let (ms, d) =
        decode (sorted_rows sid db)
          (sort-IsLoadable rows (where-IsLoadable sid db.outbox serialised)) in
      (
        ms,
        Decodes-rows d,
        Decodes-IsAscending d
            (Sort.sort_by-IsAscending (λ r. r.0) rows (where-IsUnique sid db.outbox distinct)),
        λ n. Decodes-entry n (Dict.get (sid, n) db.outbox) d (find-sorted_rows sid db n),
      )
