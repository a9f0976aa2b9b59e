-- ===== src/Ingress.antt =====
-- ingress/: the load balancer in front of the nodes.
pub mod Address
pub mod LoadBalancer
pub mod WsBridge
pub mod AdminServer
mod Examples
