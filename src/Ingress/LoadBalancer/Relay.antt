-- ===== src/Ingress/LoadBalancer/Relay.antt =====
-- The relay of bytes between a client and its backend, ingress/lb.py: `_pump_bidirectional` with the
-- table of its tasks, and `_cancel_relay_tasks`. Connection `k` has the two tasks `2 * k` and
-- `2 * k + 1`. The table is a dict by Backend objects: a key is found by identity, or by equality of
-- all fields at the time of the lookup, which is the parameter `same`.
pub mod Table
pub mod Cut
mod Examples
use clustertalk_githubaction.Prelude.{
  ℕ, ◌+◌, ◌*◌, Bool, true, false, Option, none, some, List, [], ◌∷◌, ◌++◌, nat_beq, if◌then◌else◌,
  nat_eq,
}
use clustertalk_githubaction.Prelude.Dict
use clustertalk_githubaction.Prelude.Dict.{Dict}
use clustertalk_githubaction.Prelude.Set
use clustertalk_githubaction.Ingress.LoadBalancer.{
  Backend, Callback, invalidate_sticky, cancel_relays, same_backend,
}

-- The loop of `pump` over what its reads give, each with whether the chunk is written and drained:
-- whether the task has ended, and what the other side has got. `none` is a connection error.
unfoldable pub pump : List (Option (List ℕ) × Bool) → List ℕ → Bool × List ℕ
pump [] got = (false, got)
pump ((none, written) ∷ reads) got = (true, got)
pump ((some [], written) ∷ reads) got = (true, got)
pump ((some (b ∷ chunk), false) ∷ reads) got = (true, got)
pump ((some (b ∷ chunk), true) ∷ reads) got = pump reads (got ++ (b ∷ chunk))

-- `d.get(backend)`
unfoldable pub tasks_of : (ℕ → Bool) → Dict ℕ (List ℕ) → Option (List ℕ)
tasks_of same [] = none
tasks_of same ((q, tasks) ∷ active) = if same q then some tasks else tasks_of same active

-- `d[backend] = tasks`: a key that is there stays the object that it is.
unfoldable pub with_tasks : (ℕ → Bool) → ℕ → List ℕ → Dict ℕ (List ℕ) → Dict ℕ (List ℕ)
with_tasks same r tasks [] = (r, tasks) ∷ []
with_tasks same r tasks ((q, others) ∷ active) =
    if same q then (q, tasks) ∷ active else (q, others) ∷ with_tasks same r tasks active

-- `d.pop(backend, None)`
unfoldable pub without_tasks : (ℕ → Bool) → Dict ℕ (List ℕ) → Dict ℕ (List ℕ)
without_tasks same [] = []
without_tasks same ((q, tasks) ∷ active) =
    if same q then active else (q, tasks) ∷ without_tasks same active

abbrev pub to_backend : ℕ → ℕ
to_backend k = 2 * k

abbrev pub to_client : ℕ → ℕ
to_client k = 2 * k + 1

pub record Relays : Type 0 where
  -- `_active_relays`
  pub active : Dict ℕ (List ℕ)
  -- the connections that are being relayed, with their backends
  pub live : Dict ℕ ℕ
  -- the tasks whose `cancel` has been called
  pub cancelled : List ℕ

module _ (heap : ℕ → Backend) where
  -- The key of a table is the backend `r`.
  unfoldable pub is_key : ℕ → ℕ → Bool
  unfolding same_backend
  is_key r q = same_backend heap q r

  tasks_or_none : Option (List ℕ) → List ℕ
  tasks_or_none none = []
  tasks_or_none (some tasks) = tasks

  -- `_pump_bidirectional` up to its wait
  unfoldable pub start_relay : ℕ → ℕ → Relays → Relays
  unfolding is_key tasks_of with_tasks tasks_or_none
  start_relay k r t = record t {
    active =
        with_tasks (is_key r) r
          (Set.add (to_client k)
            (Set.add (to_backend k) (tasks_or_none (tasks_of (is_key r) t.active))))
          t.active;
    live = Dict.put k r t.live;
  }

  -- The set of the backend without the tasks of a connection; an empty set goes.
  left_tasks : ℕ → List ℕ → Dict ℕ (List ℕ) → Dict ℕ (List ℕ)
  unfolding is_key with_tasks without_tasks
  left_tasks r [] active = without_tasks (is_key r) active
  left_tasks r (task ∷ tasks) active = with_tasks (is_key r) r (task ∷ tasks) active

  discard_tasks : ℕ → ℕ → Option (List ℕ) → Dict ℕ (List ℕ) → Dict ℕ (List ℕ)
  unfolding left_tasks
  discard_tasks k r none active = active
  discard_tasks k r (some tasks) active =
      left_tasks r (Set.discard (to_client k) (Set.discard (to_backend k) tasks)) active

  -- Its `finally` block, once one of the tasks is done or the wait is cancelled
  unfoldable pub end_relay : ℕ → ℕ → Relays → Relays
  unfolding is_key tasks_of discard_tasks
  end_relay k r t = record {
    active = discard_tasks k r (tasks_of (is_key r) t.active) t.active;
    live = Dict.remove k t.live;
    cancelled = to_backend k ∷ to_client k ∷ t.cancelled;
  }

  -- `_cancel_relay_tasks`
  unfoldable pub cancel_relay_tasks : ℕ → Relays → Relays
  unfolding is_key tasks_of without_tasks tasks_or_none
  cancel_relay_tasks r t = record t {
    active = without_tasks (is_key r) t.active;
    cancelled = tasks_or_none (tasks_of (is_key r) t.active) ++ t.cancelled;
  }

  -- The callbacks that the balancer has handed to the event loop, as far as the relays go
  unfoldable pub run_callbacks : List Callback → Relays → Relays
  unfolding cancel_relay_tasks
  run_callbacks [] t = t
  run_callbacks (invalidate_sticky r ∷ callbacks) t = run_callbacks callbacks t
  run_callbacks (cancel_relays r ∷ callbacks) t = run_callbacks callbacks (cancel_relay_tasks r t)

-- What happens to the relays, with the Backend objects as they are then
pub data RelayEvent : Type 0 where
  starts : (ℕ → Backend) → ℕ → ℕ → RelayEvent
  ends : (ℕ → Backend) → ℕ → RelayEvent
  cuts : (ℕ → Backend) → ℕ → RelayEvent

-- A connection is new when it starts, and ends once.
unfoldable pub relay_step : RelayEvent → Relays → Relays
unfolding start_relay end_relay cancel_relay_tasks
relay_step (starts heap k r) t = elim (Dict.get k t.live) [
  | none ↦ start_relay heap k r t
  | some q ↦ t
]
relay_step (ends heap k) t = elim (Dict.get k t.live) [ none ↦ t | some r ↦ end_relay heap k r t ]
relay_step (cuts heap r) t = cancel_relay_tasks heap r t

unfoldable pub relay_run : List RelayEvent → Relays → Relays
unfolding relay_step
relay_run [] t = t
relay_run (event ∷ events) t = relay_run events (relay_step event t)

abbrev pub no_relays : Relays
no_relays = record { active = []; live = []; cancelled = [] }
