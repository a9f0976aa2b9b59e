-- ===== src/Ingress/LoadBalancer/Relay/Table.antt =====
-- The table of tasks as a dict by references, while no two Backend objects are equal.
use clustertalk_githubaction.Prelude.{
  ℕ, ◌≡◌, refl, arith, Bool, true, false, ◌||◌, Option, none, some, List, [], ◌∷◌, ◌++◌, nat_beq,
  if◌then◌else◌, nat_eq, Bool-cases, Option-cases, inl, inr, nat_beq_iff,
}
use clustertalk_githubaction.Prelude.Dict
use clustertalk_githubaction.Prelude.Dict.{Dict}
use clustertalk_githubaction.Prelude.Set
use clustertalk_githubaction.Ingress.LoadBalancer.{Backend, same_backend}
use clustertalk_githubaction.Ingress.LoadBalancer.Relay.{
  tasks_of, with_tasks, without_tasks, to_backend, to_client, is_key, tasks_or_none, Relays,
  start_relay, left_tasks, discard_tasks, end_relay, cancel_relay_tasks,
}

-- No two objects have the same fields.
unfoldable pub IsApart : (ℕ → Backend) → Type 0
IsApart heap = (q r : ℕ) → same_backend heap q r ≡ true → q ≡ r

is_key-eq : (heap : ℕ → Backend) (r q : ℕ) → IsApart heap → is_key heap r q ≡ nat_beq q r
unfolding is_key same_backend IsApart
is_key-eq heap r q apart = elim (Bool-cases (nat_beq q r)) [
  | inl same ↦ rw same refl
  | inr other ↦ elim (Bool-cases (same_backend heap q r)) [
    | inl equal ↦ absurd (ground (arith, other, apart q r equal))
    | inr distinct ↦ ground (arith, distinct, other)
  ]
]

-- A test of keys that is the test of references
abbrev IsTest : (ℕ → Bool) → ℕ → Type 0
IsTest same r = (q : ℕ) → same q ≡ nat_beq q r

tasks_of-get :
    (same : ℕ → Bool) (r : ℕ) (active : Dict ℕ (List ℕ))
    → IsTest same r
    → tasks_of same active ≡ Dict.get r active
unfolding tasks_of Dict.get
tasks_of-get same r [] test = refl
tasks_of-get same r ((q, tasks) ∷ active) test =
    ground (arith, test q, tasks_of-get same r active test)

with_tasks-put :
    (same : ℕ → Bool) (r : ℕ) (tasks : List ℕ) (active : Dict ℕ (List ℕ))
    → IsTest same r
    → with_tasks same r tasks active ≡ Dict.put r tasks active
unfolding with_tasks Dict.put
with_tasks-put same r tasks [] test = refl
with_tasks-put same r tasks ((q, others) ∷ active) test =
    ground (arith, test q, with_tasks-put same r tasks active test, nat_beq_iff q r)

-- In a dict with distinct keys, the first entry of a key is its only one.
get-without_tasks :
    (same : ℕ → Bool) (r j : ℕ) (active : Dict ℕ (List ℕ))
    → IsTest same r
    → Dict.IsDistinct active
    → Dict.get j (without_tasks same active) ≡ (if nat_beq r j then none else Dict.get j active)
unfolding without_tasks Dict.get
get-without_tasks same r j [] test distinct = ground arith
get-without_tasks same r j ((q, tasks) ∷ active) test distinct = ground (
  arith,
  test q,
  get-without_tasks same r j active test distinct.1,
  distinct.0,
  nat_beq_iff q r,
  nat_beq_iff q j,
  nat_beq_iff r j,
)

without_tasks-IsDistinct :
    (same : ℕ → Bool) (r : ℕ) (active : Dict ℕ (List ℕ))
    → IsTest same r
    → Dict.IsDistinct active
    → Dict.IsDistinct (without_tasks same active)
unfolding without_tasks
without_tasks-IsDistinct same r [] test distinct = distinct
without_tasks-IsDistinct same r ((q, tasks) ∷ active) test distinct = ground (
  arith,
  test q,
  distinct,
  without_tasks-IsDistinct same r active test distinct.1,
  get-without_tasks same r q active test distinct.1,
)

-- Whether a task stands in the set of a backend
abbrev pub stands_in : ℕ → Option (List ℕ) → Bool
stands_in task none = false
stands_in task (some tasks) = Set.contains task tasks

unfoldable pub tracks : Dict ℕ (List ℕ) → ℕ → ℕ → Bool
tracks active r task = stands_in task (Dict.get r active)

contains-append :
    (x : ℕ) (l m : List ℕ) → Set.contains x (l ++ m) ≡ (Set.contains x l || Set.contains x m)
unfolding Set.contains
contains-append x [] m = refl
contains-append x (y ∷ l) m = ground (arith, contains-append x l m)

module _ (heap : ℕ → Backend) (apart : IsApart heap) where
  is_test : (r : ℕ) → IsTest (is_key heap r) r
  is_test r q = is_key-eq heap r q apart

  contains-tasks_or_none :
      (task : ℕ) (o : Option (List ℕ)) → Set.contains task (tasks_or_none heap o) ≡ stands_in task o
  unfolding tasks_or_none Set.contains
  contains-tasks_or_none task none = refl
  contains-tasks_or_none task (some tasks) = refl

  pub tracks-start_relay :
      (k r q task : ℕ) (t : Relays)
      → tracks (start_relay heap k r t).active q task ≡ (
          if nat_beq r q
          then nat_beq (to_client k) task || (nat_beq (to_backend k) task || tracks t.active r task)
          else tracks t.active q task)
  unfolding start_relay tracks
  tracks-start_relay k r q task t =
      let same = is_key heap r in
      let old = tasks_or_none heap (tasks_of same t.active) in
      let tasks = Set.add (to_client k) (Set.add (to_backend k) old) in
      ground (
        arith,
        with_tasks-put same r tasks t.active (is_test r),
        Dict.get-put r q tasks t.active,
        Set.contains-add (to_client k) task (Set.add (to_backend k) old),
        Set.contains-add (to_backend k) task old,
        contains-tasks_or_none task (tasks_of same t.active),
        tasks_of-get same r t.active (is_test r),
      )

  pub tracks-cancel_relay_tasks :
      (r q task : ℕ) (t : Relays)
      → Dict.IsDistinct t.active
      → tracks (cancel_relay_tasks heap r t).active q task
        ≡ (if nat_beq r q then false else tracks t.active q task)
  unfolding cancel_relay_tasks tracks
  tracks-cancel_relay_tasks r q task t distinct =
      ground (arith, get-without_tasks (is_key heap r) r q t.active (is_test r) distinct)

  pub cancelled-cancel_relay_tasks :
      (r task : ℕ) (t : Relays)
      → Set.contains task (cancel_relay_tasks heap r t).cancelled
        ≡ (tracks t.active r task || Set.contains task t.cancelled)
  unfolding cancel_relay_tasks tracks
  cancelled-cancel_relay_tasks r task t =
      let same = is_key heap r in
      ground (
        arith,
        contains-append task (tasks_or_none heap (tasks_of same t.active)) t.cancelled,
        contains-tasks_or_none task (tasks_of same t.active),
        tasks_of-get same r t.active (is_test r),
      )

  tracks-left_tasks :
      (r q task : ℕ) (tasks : List ℕ) (active : Dict ℕ (List ℕ))
      → Dict.IsDistinct active
      → tracks (left_tasks heap r tasks active) q task
        ≡ (if nat_beq r q then Set.contains task tasks else tracks active q task)
  unfolding left_tasks tracks Set.contains
  tracks-left_tasks r q task [] active distinct =
      ground (arith, get-without_tasks (is_key heap r) r q active (is_test r) distinct)
  tracks-left_tasks r q task (p ∷ tasks) active distinct = ground (
    arith,
    with_tasks-put (is_key heap r) r (p ∷ tasks) active (is_test r),
    Dict.get-put r q (p ∷ tasks) active,
  )

  pub tracks-end_relay :
      (k r q task : ℕ) (t : Relays)
      → Dict.IsDistinct t.active
      → tracks (end_relay heap k r t).active q task ≡ (
          if nat_beq r q
          then (if nat_beq (to_client k) task
              then false
              else if nat_beq (to_backend k) task
              then false
              else tracks t.active r task)
          else tracks t.active q task)
  unfolding end_relay tracks
  tracks-end_relay k r q task t distinct =
      let same = is_key heap r in
      elim (Option-cases (tasks_of same t.active)) [
        | inl absent ↦
            rw (absent, discard_tasks)
              (ground (arith, absent, tasks_of-get same r t.active (is_test r), nat_beq_iff r q))
        | inr (tasks, there) ↦
            rw (there, discard_tasks)
              (ground (
                arith,
                there,
                tasks_of-get same r t.active (is_test r),
                tracks-left_tasks r q task
                    (Set.discard (to_client k) (Set.discard (to_backend k) tasks)) t.active
                    distinct,
                Set.contains-discard (to_client k) task (Set.discard (to_backend k) tasks),
                Set.contains-discard (to_backend k) task tasks,
              ))
      ]

  pub start_relay-IsDistinct :
      (k r : ℕ) (t : Relays)
      → Dict.IsDistinct t.active
      → Dict.IsDistinct (start_relay heap k r t).active
  unfolding start_relay
  start_relay-IsDistinct k r t distinct =
      let same = is_key heap r in
      let tasks =
        Set.add (to_client k)
          (Set.add (to_backend k) (tasks_or_none heap (tasks_of same t.active))) in
      rw (with_tasks-put same r tasks t.active (is_test r))
        (Dict.put-IsDistinct r tasks t.active distinct)

  pub cancel_relay_tasks-IsDistinct :
      (r : ℕ) (t : Relays)
      → Dict.IsDistinct t.active
      → Dict.IsDistinct (cancel_relay_tasks heap r t).active
  unfolding cancel_relay_tasks
  cancel_relay_tasks-IsDistinct r t distinct =
      without_tasks-IsDistinct (is_key heap r) r t.active (is_test r) distinct

  left_tasks-IsDistinct :
      (r : ℕ) (tasks : List ℕ) (active : Dict ℕ (List ℕ))
      → Dict.IsDistinct active
      → Dict.IsDistinct (left_tasks heap r tasks active)
  unfolding left_tasks
  left_tasks-IsDistinct r [] active distinct =
      without_tasks-IsDistinct (is_key heap r) r active (is_test r) distinct
  left_tasks-IsDistinct r (p ∷ tasks) active distinct =
      rw (with_tasks-put (is_key heap r) r (p ∷ tasks) active (is_test r))
        (Dict.put-IsDistinct r (p ∷ tasks) active distinct)

  pub end_relay-IsDistinct :
      (k r : ℕ) (t : Relays)
      → Dict.IsDistinct t.active
      → Dict.IsDistinct (end_relay heap k r t).active
  unfolding end_relay
  end_relay-IsDistinct k r t distinct = elim (Option-cases (tasks_of (is_key heap r) t.active)) [
    | inl absent ↦ rw (absent, discard_tasks) distinct
    | inr (tasks, there) ↦
        rw (there, discard_tasks)
          (left_tasks-IsDistinct r (Set.discard (to_client k) (Set.discard (to_backend k) tasks))
            t.active distinct)
  ]
