-- ===== src/Ingress/LoadBalancer/Admin/Snapshot.antt =====
-- What the dashboard is shown, `admin_snapshot` of ingress/lb.py. The names of the algorithm and of
-- the listening address, the interval and the uptime are left out.
use clustertalk_githubaction.Prelude.{
  ℕ, suc, Bool, Option, none, some, List, [], ◌∷◌, length, if◌then◌else◌, Text, nat_eq, list_eq,
}
use clustertalk_githubaction.Prelude.Dict.{Dict}
use clustertalk_githubaction.Ingress.LoadBalancer.{
  Backend, Client, LoadBalancer, routable, address_of,
}
use clustertalk_githubaction.Ingress.LoadBalancer.Admin.{counted, increment}

-- `status`
pub data ServerStatus : Type 0 where
  paused : ServerStatus
  up : ServerStatus
  down : ServerStatus

pub record ServerRow : Type 0 where
  pub address : Text
  pub host : Text
  pub port : ℕ
  pub healthy : Bool
  pub manual_down : Bool
  pub routable : Bool
  pub status : ServerStatus
  pub dynamic : Bool
  pub requests_routed : ℕ
  pub sticky_sessions : ℕ
  pub clients : ℕ
  pub clients_home : ℕ

pub record LbSnapshot : Type 0 where
  pub total_requests : ℕ
  pub server_count : ℕ
  pub healthy_count : ℕ
  pub sticky_total : ℕ
  pub client_total : ℕ
  pub redis : Bool
  pub servers : List ServerRow

unfoldable pub status_of : Backend → ServerStatus
status_of b = if b.manual_down then paused else if b.healthy then up else down

-- A name that is there and not empty, put before others
unfoldable pub put_name : Option Text → List Text → List Text
put_name none others = others
put_name (some []) others = others
put_name (some (c ∷ cs)) others = (c ∷ cs) ∷ others

-- `client_currents` and `client_homes`
unfoldable pub active_names : (Client → Option Text) → Dict Text Client → List Text
unfolding put_name
active_names key [] = []
active_names key ((cid, c) ∷ clients) =
    let rest = active_names key clients in if c.active then put_name (key c) rest else rest

unfoldable pub sticky_names : (ℕ → Backend) → Dict Text ℕ → List Text
unfolding address_of
sticky_names heap [] = []
sticky_names heap ((sid, r) ∷ cache) = address_of (heap r) ∷ sticky_names heap cache

-- The loops that count by address
unfoldable pub tally : List Text → Dict Text ℕ → Dict Text ℕ
unfolding increment
tally [] counts = counts
tally (name ∷ names) counts = tally names (increment name counts)

unfoldable pub routable_count : (ℕ → Backend) → List ℕ → ℕ
unfolding routable
routable_count heap [] = 0
routable_count heap (r ∷ refs) =
    let rest = routable_count heap refs in if routable (heap r) then suc rest else rest

-- The row of a server, with its numbers of clients, sticky sessions and homes
unfoldable pub server_row : Backend → ℕ → ℕ → ℕ → ServerRow
unfolding routable address_of status_of
server_row b clients sticky homes = record {
  address = address_of b;
  host = b.host;
  port = b.port;
  healthy = b.healthy;
  manual_down = b.manual_down;
  routable = routable b;
  status = status_of b;
  dynamic = b.dynamic;
  requests_routed = clients;
  sticky_sessions = sticky;
  clients = clients;
  clients_home = homes;
}

unfoldable pub server_rows :
    (ℕ → Backend) → Dict Text ℕ → Dict Text ℕ → Dict Text ℕ → List ℕ → List ServerRow
unfolding server_row address_of counted
server_rows heap clients sticky homes [] = []
server_rows heap clients sticky homes (r ∷ refs) =
    let a = address_of (heap r) in
    server_row (heap r) (counted a clients) (counted a sticky) (counted a homes)
    ∷ server_rows heap clients sticky homes refs

module _ {R : Type 0} where
  -- `admin_snapshot`
  unfoldable pub admin_snapshot : LoadBalancer R → LbSnapshot
  unfolding active_names sticky_names tally routable_count server_rows
  admin_snapshot lb =
      let currents = active_names (λ c. c.current) lb.clients in
      let homes = active_names (λ c. c.home) lb.clients in
      record {
        total_requests = lb.total_routed;
        server_count = length lb.backends;
        healthy_count = routable_count lb.heap lb.backends;
        sticky_total = length lb.sticky_cache;
        client_total = length currents;
        redis = lb.redis_available;
        servers =
            server_rows lb.heap (tally currents [])
              (tally (sticky_names lb.heap lb.sticky_cache) []) (tally homes []) lb.backends;
      }
