-- ===== src/Ingress/AdminServer/Examples.antt =====
-- A dashboard that launches a node, removes it, and fails to remove another.
use clustertalk_githubaction.Prelude.{
  ℕ, ◌≡◌, refl, Option, none, some, List, [], ◌∷◌, Text, codes, nat_eq, list_eq,
}
use clustertalk_githubaction.Prelude.Dict
use clustertalk_githubaction.Prelude.Dict.{Dict}
use clustertalk_githubaction.Prelude.Set
use clustertalk_githubaction.Ingress.Examples.{some_balancer}
use clustertalk_githubaction.Ingress.Address.{address_str}
use clustertalk_githubaction.Ingress.LoadBalancer.{address_of}
use clustertalk_githubaction.Ingress.AdminServer.{
  AdminState, AdminRequest, Launch, do_post, do_posts,
}
use clustertalk_githubaction.Ingress.AdminServer.Foreign.{IsForeign, do_posts-IsForeign}

abbrev some_dashboard : AdminState (Dict Text Text)
some_dashboard = record {
  lb = some_balancer;
  spawner = some (record { register_port = some 9001; procs = []; terminated = [] });
}

abbrev no_number : Text → Option ℕ
no_number word = none

abbrev next_launch : Launch
next_launch = record { port = 5; process = some 70 }

abbrev post : Text → Text → AdminRequest × Launch
post path address = (record { path = path; query = (codes "address", address) ∷ [] }, next_launch)

abbrev some_posts : List (AdminRequest × Launch)
some_posts =
    post (codes "/api/servers/add") []
    ∷ post (codes "/api/servers/remove") (codes "127.0.0.1:5")
    ∷ post (codes "/api/servers/remove") (codes "n:2")
    ∷ post (codes "/api/servers/toggle") (codes "n:2")
    ∷ []

some_dashboard-IsForeign : IsForeign (codes "n:2") 1 some_dashboard
unfolding address_of address_str Set.contains Dict.has
some_dashboard-IsForeign = record {
  in_pool = record { pooled = refl; addressed = refl };
  foreign = refl;
}

do_posts-IsForeign_example :
    IsForeign (codes "n:2") 1 (do_posts no_number some_posts some_dashboard)
unfolding address_str
do_posts-IsForeign_example =
    do_posts-IsForeign no_number (codes "n:2") 1 some_posts some_dashboard
      (refl, (refl, (refl, (refl, tt)))) some_dashboard-IsForeign

unknown_path :
    (do_post no_number (post (codes "/api/servers") []).0 next_launch some_dashboard).0 ≡ 404
unfolding do_post
unknown_path = refl
