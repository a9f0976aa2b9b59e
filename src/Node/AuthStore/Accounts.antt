-- ===== src/Node/AuthStore/Accounts.antt =====
-- Registration of one name from several nodes: one attempt wins, and the account is safe from the
-- later ones.
use clustertalk_githubaction.Prelude.{
  ℕ, suc, ◌≡◌, arith, Bool, false, ◌&&◌, Option, none, some, List, [], ◌∷◌, if◌then◌else◌, Text,
  ◌==◌, nat_eq, list_eq, text_eq_iff, Option-cases, inl, inr,
}
use clustertalk_githubaction.Prelude.Dict
use clustertalk_githubaction.Node.AuthStore.{User, AuthStore, is_role, find_user, create_account}

-- An attempt to register: name, password hash, role
pub record Attempt : Type 0 where
  pub username : Text
  pub password_hash : Text
  pub role : Text

abbrev pub account_of : Attempt → User
account_of a = record { password_hash = a.password_hash; role = a.role }

abbrev pub attempt : Attempt → AuthStore → Bool × AuthStore
attempt a store = create_account a.username a.password_hash a.role store

-- The store after attempts in the order in which SQLite serialises them
pub register_all : List Attempt → AuthStore → AuthStore
register_all [] store = store
register_all (a ∷ rest) store = register_all rest (attempt a store).1

-- How many of the attempts for a name are told that they succeeded
pub wins : Text → List Attempt → AuthStore → ℕ
wins name [] store = 0
wins name (a ∷ rest) store =
    let later = wins name rest (attempt a store).1 in
    if (a.username == name) && (attempt a store).0 then suc later else later

-- The first attempt for a name with a role that the schema allows
abbrev pub first_for : Text → List Attempt → Option User
first_for name [] = none
first_for name (a ∷ rest) =
    if (a.username == name) && is_role a.role then some (account_of a) else first_for name rest

abbrev pub or_first : Option User → Option User → Option User
or_first none later = later
or_first (some u) later = some u

find_user-attempt :
    (a : Attempt) (store : AuthStore) (name : Text)
    → find_user name (attempt a store).1
      ≡ or_first
          (find_user name store)
          (if (a.username == name) && is_role a.role then some (account_of a) else none)
unfolding find_user create_account
find_user-attempt a store name = elim (Option-cases (Dict.get a.username store.users)) [
  | inl absent ↦ ground (
    arith,
    absent,
    text_eq_iff a.username name,
    Dict.get-put a.username name (account_of a) store.users,
  )
  | inr (u, here) ↦ ground (arith, here, text_eq_iff a.username name)
]

-- After any attempts, from any nodes, an account that existed is as it was, and a new one is that
-- of the first attempt for its name whose role the schema allows.
pub find_user-register_all :
    (attempts : List Attempt) (store : AuthStore) (name : Text)
    → find_user name (register_all attempts store)
      ≡ or_first (find_user name store) (first_for name attempts)
unfolding register_all
find_user-register_all [] store name = ground arith
find_user-register_all (a ∷ rest) store name =
    ground
      (arith, find_user-register_all rest (attempt a store).1 name, find_user-attempt a store name)

attempt-wins :
    (a : Attempt) (store : AuthStore) (name : Text)
    → ((a.username == name) && (attempt a store).0) ≡ (elim (find_user name store) [
      | none ↦ (a.username == name) && is_role a.role
      | some u ↦ false
    ])
unfolding find_user create_account
attempt-wins a store name = elim (Option-cases (Dict.get a.username store.users)) [
  | inl absent ↦ ground (arith, absent, text_eq_iff a.username name)
  | inr (u, here) ↦ ground (arith, here, text_eq_iff a.username name)
]

abbrev pub one_winner : Option User → Option User → ℕ
one_winner (some u) first = 0
one_winner none none = 0
one_winner none (some u) = 1

-- Of all attempts to register a name, wherever they come from, exactly one is told that it
-- succeeded if the name was free and one of them has an allowed role, and none otherwise.
pub wins-one_winner :
    (name : Text) (attempts : List Attempt) (store : AuthStore)
    → wins name attempts store ≡ one_winner (find_user name store) (first_for name attempts)
unfolding wins
wins-one_winner name [] store = ground arith
wins-one_winner name (a ∷ rest) store = ground (
  arith,
  wins-one_winner name rest (attempt a store).1,
  find_user-attempt a store name,
  attempt-wins a store name,
)
