-- ===== src/Ingress/LoadBalancer/Relay/Examples.antt =====
-- Two clients of one server that is taken down, and a server that has come back under its address.
use clustertalk_githubaction.Prelude.{
  ℕ, ◌≡◌, refl, arith, Bool, true, false, some, List, [], ◌∷◌, Text, nat_eq, list_eq, nat_beq,
  if◌then◌else◌,
}
use clustertalk_githubaction.Prelude.Dict
use clustertalk_githubaction.Prelude.Dict.{Dict}
use clustertalk_githubaction.Prelude.Set
use clustertalk_githubaction.Ingress.Address.{address_str}
use clustertalk_githubaction.Ingress.Examples.{node_at, some_balancer}
use clustertalk_githubaction.Ingress.LoadBalancer.{
  Backend, LoadBalancer, address_of, same_backend, bool_eq,
}
use clustertalk_githubaction.Ingress.LoadBalancer.Admin.{admin_set_down, find_address}
use clustertalk_githubaction.Ingress.LoadBalancer.Relay.{
  no_relays, run_callbacks, RelayEvent, starts, ends, cuts, relay_step, relay_run, pump,
  start_relay, cancel_relay_tasks, is_key,
}
use clustertalk_githubaction.Ingress.LoadBalancer.Relay.Table.{IsApart}
use clustertalk_githubaction.Ingress.LoadBalancer.Relay.Cut.{
  AllApart, is_cut, admin_set_down-is_cut,
}

-- A server for every port
abbrev row_of_servers : ℕ → Backend
row_of_servers r = node_at r true

row_of_servers-IsApart : IsApart row_of_servers
unfolding IsApart same_backend bool_eq
row_of_servers-IsApart q r same = ground (arith, same)

abbrev two_servers : LoadBalancer (Dict Text Text)
two_servers = record some_balancer { heap = row_of_servers; backends = 3 ∷ 4 ∷ []; callbacks = [] }

abbrev relayed : List RelayEvent
relayed =
    starts row_of_servers 7 4
    ∷ starts row_of_servers 8 3
    ∷ starts row_of_servers 9 4
    ∷ ends row_of_servers 8
    ∷ []

admin_set_down-is_cut_example :
    is_cut 9 (
      run_callbacks row_of_servers
        (admin_set_down (address_of (row_of_servers 4)) true two_servers).1.callbacks
        (relay_run relayed no_relays))
    ≡ true
unfolding AllApart find_address address_of address_str relay_run Dict.get Dict.put Dict.remove
admin_set_down-is_cut_example =
    admin_set_down-is_cut relayed row_of_servers (address_of (row_of_servers 4)) 9 4 two_servers
      (
        row_of_servers-IsApart,
        (row_of_servers-IsApart, (row_of_servers-IsApart, (row_of_servers-IsApart, tt))),
      )
      row_of_servers-IsApart refl refl refl

-- An object that equals another at first and is then marked as unhealthy
abbrev twins : Bool → ℕ → Backend
twins healthy r = if nat_beq r 1 then node_at 5 true else node_at 5 healthy

-- The relay of a client of the second object is entered under the first, and is not found once the
-- second has been marked as unhealthy.
twins_not_cut :
    is_cut 8 (
      relay_run
        (starts (twins true) 7 1 ∷ starts (twins true) 8 2 ∷ cuts (twins false) 2 ∷ [])
        no_relays)
    ≡ false
unfolding relay_run relay_step start_relay cancel_relay_tasks is_key same_backend Dict.get Dict.put
    Set.contains Set.add
twins_not_cut = refl

pump_in_order :
    pump ((some (1 ∷ 2 ∷ []), true) ∷ (some (3 ∷ []), true) ∷ (some [], true) ∷ []) []
    ≡ (true, 1 ∷ 2 ∷ 3 ∷ [])
unfolding pump
pump_in_order = refl
