-- ===== src/Ingress/LoadBalancer/Relay/Cut.antt =====
-- Whoever is relayed through a backend is cut when the backend goes, and the table forgets those
-- who have left.
use clustertalk_githubaction.Prelude.{
  ℕ, ◌⊎◌, ◌/◌, ◌≡◌, refl, arith, Bool, true, ◌||◌, ◌&&◌, none, some, List, [], ◌∷◌, nat_eq, Text,
  list_eq, Option-cases, inl, inr, nat_beq_iff,
}
use clustertalk_githubaction.Prelude.Dict
use clustertalk_githubaction.Prelude.Dict.{Dict}
use clustertalk_githubaction.Prelude.Set
use clustertalk_githubaction.Ingress.LoadBalancer.{
  Backend, invalidate_sticky, cancel_relays, LoadBalancer,
}
use clustertalk_githubaction.Ingress.LoadBalancer.Admin.{admin_set_down, find_address}
use clustertalk_githubaction.Ingress.LoadBalancer.Relay.{
  to_backend, to_client, Relays, no_relays, start_relay, end_relay, cancel_relay_tasks,
  run_callbacks, RelayEvent, starts, ends, cuts, relay_step, relay_run,
}
use clustertalk_githubaction.Ingress.LoadBalancer.Relay.Table.{
  IsApart, tracks, tracks-start_relay, tracks-end_relay, tracks-cancel_relay_tasks,
  cancelled-cancel_relay_tasks, start_relay-IsDistinct, end_relay-IsDistinct,
  cancel_relay_tasks-IsDistinct,
}

pub record IsTended (t : Relays) : Type 0 where
  pub distinct : Dict.IsDistinct t.active
  -- Both tasks of a live connection are in the table, or cancelled.
  pub watched :
      (k r : ℕ)
      → Dict.get k t.live ≡ some r
      → ((tracks t.active r (to_backend k) || Set.contains (to_backend k) t.cancelled)
          && (tracks t.active r (to_client k) || Set.contains (to_client k) t.cancelled))
        ≡ true
  -- The tasks in the table are those of live connections.
  pub owned : (r task : ℕ) → tracks t.active r task ≡ true → Dict.get (task / 2) t.live ≡ some r

halves : (k : ℕ) → (to_backend k / 2 ≡ k) × (to_client k / 2 ≡ k)
halves k = (omega arith, omega arith)

-- A task is one of the two of its connection.
tasks_of_one : (k task : ℕ) → task / 2 ≡ k → (task ≡ to_backend k) ⊎ (task ≡ to_client k)
tasks_of_one k task h = ground (arith, h)

start_relay-IsTended :
    (heap : ℕ → Backend) (k r : ℕ) (t : Relays)
    → IsApart heap
    → Dict.get k t.live ≡ none
    → IsTended t
    → IsTended (start_relay heap k r t)
unfolding start_relay
start_relay-IsTended heap k r t apart new h = record {
  distinct = start_relay-IsDistinct heap apart k r t h.distinct;
  watched = λ j q live. ground (
    arith,
    live,
    h.watched j q,
    Dict.get-put k j r t.live,
    tracks-start_relay heap apart k r q (to_backend j) t,
    tracks-start_relay heap apart k r q (to_client j) t,
    nat_beq_iff k j,
    nat_beq_iff r q,
  );
  owned = λ q task there. ground (
    arith,
    there,
    new,
    h.owned q task,
    h.owned r task,
    Dict.get-put k (task / 2) r t.live,
    tracks-start_relay heap apart k r q task t,
    halves k,
    nat_beq_iff k (task / 2),
    nat_beq_iff r q,
    nat_beq_iff (to_client k) task,
    nat_beq_iff (to_backend k) task,
  );
}

end_relay-IsTended :
    (heap : ℕ → Backend) (k r : ℕ) (t : Relays)
    → IsApart heap
    → Dict.get k t.live ≡ some r
    → IsTended t
    → IsTended (end_relay heap k r t)
unfolding end_relay Set.contains
end_relay-IsTended heap k r t apart here h = record {
  distinct = end_relay-IsDistinct heap apart k r t h.distinct;
  watched = λ j q live. ground (
    arith,
    live,
    h.watched j q,
    Dict.get-remove k j t.live,
    tracks-end_relay heap apart k r q (to_backend j) t h.distinct,
    tracks-end_relay heap apart k r q (to_client j) t h.distinct,
    nat_beq_iff k j,
    nat_beq_iff r q,
    nat_beq_iff (to_client k) (to_backend j),
    nat_beq_iff (to_backend k) (to_backend j),
    nat_beq_iff (to_client k) (to_client j),
    nat_beq_iff (to_backend k) (to_client j),
  );
  owned = λ q task there. ground (
    arith,
    there,
    here,
    h.owned q task,
    Dict.get-remove k (task / 2) t.live,
    tracks-end_relay heap apart k r q task t h.distinct,
    tasks_of_one k task,
    nat_beq_iff k (task / 2),
    nat_beq_iff r q,
    nat_beq_iff (to_client k) task,
    nat_beq_iff (to_backend k) task,
  );
}

pub cancel_relay_tasks-IsTended :
    (heap : ℕ → Backend) (r : ℕ) (t : Relays)
    → IsApart heap
    → IsTended t
    → IsTended (cancel_relay_tasks heap r t)
unfolding cancel_relay_tasks
cancel_relay_tasks-IsTended heap r t apart h = record {
  distinct = cancel_relay_tasks-IsDistinct heap apart r t h.distinct;
  watched = λ j q live. ground (
    arith,
    h.watched j q live,
    tracks-cancel_relay_tasks heap apart r q (to_backend j) t h.distinct,
    tracks-cancel_relay_tasks heap apart r q (to_client j) t h.distinct,
    cancelled-cancel_relay_tasks heap apart r (to_backend j) t,
    cancelled-cancel_relay_tasks heap apart r (to_client j) t,
    nat_beq_iff r q,
  );
  owned = λ q task there.
      ground
        (arith, there, h.owned q task, tracks-cancel_relay_tasks heap apart r q task t h.distinct);
}

-- At each event, no two Backend objects are equal.
unfoldable pub AllApart : List RelayEvent → Type 0
AllApart [] = Unit
AllApart (starts heap k r ∷ events) = IsApart heap × AllApart events
AllApart (ends heap k ∷ events) = IsApart heap × AllApart events
AllApart (cuts heap r ∷ events) = IsApart heap × AllApart events

relay_run-IsTended :
    (events : List RelayEvent) (t : Relays)
    → AllApart events
    → IsTended t
    → IsTended (relay_run events t)
unfolding relay_run relay_step AllApart
relay_run-IsTended [] t apart h = h
relay_run-IsTended (starts heap k r ∷ events) t (apart, later) h =
    relay_run-IsTended events (relay_step (starts heap k r) t) later
      (elim (Option-cases (Dict.get k t.live)) [
        | inl new ↦ rw (new, relay_step) (start_relay-IsTended heap k r t apart new h)
        | inr (q, taken) ↦ rw (taken, relay_step) h
      ])
relay_run-IsTended (ends heap k ∷ events) t (apart, later) h =
    relay_run-IsTended events (relay_step (ends heap k) t) later
      (elim (Option-cases (Dict.get k t.live)) [
        | inl gone ↦ rw (gone, relay_step) h
        | inr (r, here) ↦ rw (here, relay_step) (end_relay-IsTended heap k r t apart here h)
      ])
relay_run-IsTended (cuts heap r ∷ events) t (apart, later) h =
    relay_run-IsTended events (relay_step (cuts heap r) t) later
      (cancel_relay_tasks-IsTended heap r t apart h)

no_relays-IsTended : IsTended no_relays
unfolding tracks Dict.get
no_relays-IsTended = record {
  distinct = tt;
  watched = λ k r live. absurd (ground (arith, live));
  owned = λ r task there. absurd (ground (arith, there));
}

-- Both tasks of a connection have been cancelled, which closes its two sockets.
abbrev pub is_cut : ℕ → Relays → Bool
is_cut k t = Set.contains (to_backend k) t.cancelled && Set.contains (to_client k) t.cancelled

-- A cut of a backend cancels both tasks of every connection through it.
is_cut-cancel_relay_tasks :
    (heap : ℕ → Backend) (k r : ℕ) (t : Relays)
    → IsApart heap
    → IsTended t
    → Dict.get k t.live ≡ some r
    → is_cut k (cancel_relay_tasks heap r t) ≡ true
is_cut-cancel_relay_tasks heap k r t apart h live = ground (
  arith,
  h.watched k r live,
  cancelled-cancel_relay_tasks heap apart r (to_backend k) t,
  cancelled-cancel_relay_tasks heap apart r (to_client k) t,
)

-- The table holds no task but those of connections that are still relayed through the backend, after
-- connections have started, ended and been cut in any order. No two Backend objects are equal in all
-- fields at any of these times.
pub tracks-relay_run :
    (events : List RelayEvent) (r task : ℕ)
    → AllApart events
    → tracks (relay_run events no_relays).active r task ≡ true
    → Dict.get (task / 2) (relay_run events no_relays).live ≡ some r
tracks-relay_run events r task apart there =
    (relay_run-IsTended events no_relays apart no_relays-IsTended).owned r task there

module _ {R : Type 0} where
  callbacks-admin_set_down :
      (address : Text) (r : ℕ) (lb : LoadBalancer R)
      → find_address lb.heap address lb.backends ≡ some r
      → lb.callbacks ≡ []
      → (admin_set_down address true lb).1.callbacks ≡ invalidate_sticky r ∷ cancel_relays r ∷ []
  unfolding admin_set_down
  callbacks-admin_set_down address r lb found none_yet = rw (found, admin_set_down, none_yet) refl

  -- When the operator takes a server down and the event loop has run the callbacks of that, every
  -- connection that was relayed through the server is cut, in whatever order connections have
  -- started, ended and been cut before. The address is that of a backend of the pool, whose first
  -- one is meant; no callback was waiting, and no two Backend objects are equal in all fields at any
  -- of these times.
  pub admin_set_down-is_cut :
      (events : List RelayEvent) (heap : ℕ → Backend) (address : Text) (k r : ℕ)
      (lb : LoadBalancer R)
      → AllApart events
      → IsApart heap
      → find_address lb.heap address lb.backends ≡ some r
      → lb.callbacks ≡ []
      → Dict.get k (relay_run events no_relays).live ≡ some r
      → is_cut k (
          run_callbacks heap
            (admin_set_down address true lb).1.callbacks
            (relay_run events no_relays))
        ≡ true
  unfolding run_callbacks
  admin_set_down-is_cut events heap address k r lb apart now found none_yet live =
      rw (callbacks-admin_set_down address r lb found none_yet) (
        is_cut-cancel_relay_tasks heap k r (relay_run events no_relays) now
          (relay_run-IsTended events no_relays apart no_relays-IsTended) live)
