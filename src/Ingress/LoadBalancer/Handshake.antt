-- ===== src/Ingress/LoadBalancer/Handshake.antt =====
-- `_handle_client` of ingress/lb.py up to the relay of bytes: the choice of a backend
-- that accepts a connection, and what the first answer of the backend changes. The ERROR frames that
-- tell a client that no backend is there are not recorded.
pub mod Connect
pub mod Sticky
use clustertalk_githubaction.Ingress.LoadBalancer.Admin.{record_route}
use clustertalk_githubaction.Ingress.LoadBalancer.Clients.{remember_client, migrate_client_state}
use clustertalk_githubaction.Ingress.LoadBalancer.Registration.{disconnect_backend_clients}
use clustertalk_githubaction.Protocol.MessageType.{
  register_ack, register, login, login_ack, hello_ack, hello, byte_of, MessageType,
}
use clustertalk_githubaction.Prelude.{
  [], if◌then◌else◌, ℕ, ◌||◌, ◌∷◌, ◌==◌, nat_eq, list_eq, Option, Bool, List, false, true, none,
  some, zero, suc, Text,
}
use clustertalk_githubaction.Ingress.LoadBalancer.{
  nat_beq, LoadBalancer, redis_set_sticky, pick_backend, Redis, set_at,
}

-- The client of a connection: its address, the id of the connection, and its key
pub record Caller : Type 0 where
  pub peer : Text × ℕ
  pub connection_id : Text
  pub client_key : Text

-- `if assigned_sid`
abbrev given : Option Text → Option Text
given none = none
given (some []) = none
given (some (c ∷ s)) = some (c ∷ s)

-- The answers that may carry a session id
unfoldable pub is_answer : MessageType → Bool
is_answer t =
    nat_beq (byte_of t) (byte_of hello_ack)
    || nat_beq (byte_of t) (byte_of login_ack)
    || nat_beq (byte_of t) (byte_of register_ack)

module _ {R : Type 0} where
  -- A backend that does not accept a connection
  unfoldable pub mark_failed : ℕ → LoadBalancer R → LoadBalancer R
  unfolding set_at disconnect_backend_clients
  mark_failed r lb =
      disconnect_backend_clients r
        (record lb { heap = set_at r (record (lb.heap r) { healthy = false }) lb.heap })

  tried_next :
      (ℕ → LoadBalancer R → Option ℕ × LoadBalancer R)
      → Option ℕ × LoadBalancer R
      → Option ℕ × LoadBalancer R
  tried_next next (none, lb) = (none, lb)
  tried_next next (some r, lb) = next r lb

module _ {R : Type 0} (redis : Redis R) (accepts : ℕ → Bool) where
  -- The inner loop, on fuel: backends are tried until one accepts, each but once.
  unfoldable pub try_backends :
      ℕ → Option Text → List ℕ → ℕ → LoadBalancer R → Option ℕ × LoadBalancer R
  unfolding mark_failed tried_next
  try_backends zero session attempted r lb = (none, lb)
  try_backends (suc fuel) session attempted r lb =
      let failed =
        tried_next (try_backends fuel session (r ∷ attempted))
          (pick_backend redis session (r ∷ attempted) (mark_failed r lb)) in
      if accepts r then (some r, lb) else failed

  -- The client is remembered under the backend that is picked first.
  chosen : ℕ → Caller → Option Text → Option ℕ × LoadBalancer R → Option ℕ × LoadBalancer R
  unfolding try_backends
  chosen fuel caller session (none, lb) = (none, lb)
  chosen fuel caller session (some r, lb) = try_backends fuel session [] r (
      remember_client caller.client_key r (some caller.peer) session true
        (some caller.connection_id) lb)

  -- One round of the outer loop: a frame with a session id or without
  unfoldable pub route_frame : ℕ → Caller → Option Text → LoadBalancer R → Option ℕ × LoadBalancer R
  unfolding chosen
  route_frame fuel caller session lb = chosen fuel caller session (pick_backend redis session [] lb)

  routed :
      (LoadBalancer R → Option ℕ × LoadBalancer R)
      → Option ℕ × LoadBalancer R
      → Option ℕ × LoadBalancer R
  routed next (none, lb) = next lb
  routed next (some r, lb) = (some r, record_route r lb)

  -- The outer loop over the frames that the client sends until one is routed
  unfoldable pub route_frames :
      ℕ → Caller → List (Option Text) → LoadBalancer R → Option ℕ × LoadBalancer R
  unfolding routed route_frame
  route_frames fuel caller [] lb = (none, lb)
  route_frames fuel caller (session ∷ sessions) lb =
      routed (route_frames fuel caller sessions) (route_frame fuel caller session lb)

module _ {R : Type 0} (redis : Redis R) where
  assigned : Caller → ℕ → Option Text → LoadBalancer R → Text × LoadBalancer R
  unfolding redis_set_sticky remember_client migrate_client_state
  assigned caller r none lb = (caller.client_key, lb)
  assigned caller r (some sid) lb =
      let moved =
        if sid == caller.client_key then lb else migrate_client_state caller.client_key sid lb in
      (
        sid,
        redis_set_sticky redis sid r (
            remember_client sid r (some caller.peer) (some sid) true (some caller.connection_id)
              moved),
      )

  -- The first answer of the backend: the key of the client from then on, and the sticky entry
  unfoldable pub first_answer :
      Caller → ℕ → MessageType → Option Text → LoadBalancer R → Text × LoadBalancer R
  unfolding assigned is_answer
  first_answer caller r t session lb =
      if is_answer t then assigned caller r (given session) lb else (caller.client_key, lb)
