-- ===== src/Ingress/LoadBalancer/Handshake/Sticky.antt =====
-- After the first answer of its backend a session is routed there again.
use clustertalk_githubaction.Protocol.MessageType.{MessageType}
use clustertalk_githubaction.Ingress.LoadBalancer.{Redis, LoadBalancer}
use clustertalk_githubaction.Prelude.{ℕ, ◌≡◌, some, nat_eq, list_eq, Text}
use clustertalk_githubaction.Prelude.Dict

module _ {R : Type 0} (redis : Redis R) where
  -- A balancer with the same backends, where the session is cached for this one
  abbrev Caches : Text → ℕ → LoadBalancer R → LoadBalancer R → Type 0
  Caches sid r lb lb' = (lb'.heap ≡ lb.heap) × (Dict.get sid lb'.sticky_cache ≡ some r)
