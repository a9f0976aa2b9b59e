-- ===== src/Ingress/LoadBalancer/Clients/Stale.antt =====
-- Connections that close late (`_drop_client`).
use clustertalk_githubaction.Prelude.{
  ℕ, ◌≡◌, ◌≢◌, refl, arith, Bool, false, Option, some, Text, ◌==◌, nat_eq, list_eq, text_eq_iff,
}
use clustertalk_githubaction.Prelude.Dict
use clustertalk_githubaction.Ingress.LoadBalancer.{Client, LoadBalancer}
use clustertalk_githubaction.Ingress.LoadBalancer.Clients.{
  or_else, is_stale, remember_client, drop_client,
}

module _ {R : Type 0} where
  connection_remembered :
      (cid : Text) (r : ℕ) (peer : Option (Text × ℕ)) (sid : Option Text) (active : Bool)
      (new : Text) (lb : LoadBalancer R)
      → (c : Client) × (Dict.get cid (remember_client cid r peer sid active (some new) lb).clients
          ≡ some c)
        × (c.connection_id ≡ some new)
  unfolding remember_client or_else
  connection_remembered cid r peer sid active new lb = (_, Dict.get-put_self cid _ lb.clients, refl)

  drop-newer :
      (cid old new : Text) (c : Client) (lb : LoadBalancer R)
      → (old ≢ new)
      → Dict.get cid lb.clients ≡ some c
      → c.connection_id ≡ some new
      → drop_client cid (some old) lb ≡ lb
  unfolding drop_client is_stale
  drop-newer cid old new c lb apart here e =
      let no : (new == old) ≡ false = ground (arith, text_eq_iff new old, apart) in
      rw (here, drop_client) (rw (e, is_stale) (rw no))

  -- The late close of an old socket does not take a client down that has come back on a new one.
  pub drop-remember_stale :
      (cid old new : Text) (r : ℕ) (peer : Option (Text × ℕ)) (sid : Option Text) (active : Bool)
      (lb : LoadBalancer R)
      → old ≢ new
      → drop_client cid (some old) (remember_client cid r peer sid active (some new) lb)
        ≡ remember_client cid r peer sid active (some new) lb
  drop-remember_stale cid old new r peer sid active lb apart =
      let (c, here, e) = connection_remembered cid r peer sid active new lb in
      drop-newer cid old new c (remember_client cid r peer sid active (some new) lb) apart here e
