-- ===== src/Node/AuthStore.antt =====
-- node/auth_store.py: the accounts. Each call is one SQLite transaction on a shared file, so calls
-- of several nodes come one after another. `created_at` is read by nothing and is left out.
pub mod Accounts
mod Examples
use mathlib.Core.Option
use clustertalk_githubaction.Prelude.{
  ◌||◌, if◌then◌else◌, ◌==◌, Bool, true, false, Option, none, some, Text, codes, nat_eq, list_eq,
}
use clustertalk_githubaction.Prelude.Dict
use clustertalk_githubaction.Prelude.Dict.{Dict}

pub record User : Type 0 where
  pub password_hash : Text
  pub role : Text

-- The table `users` by its primary key
pub record AuthStore : Type 0 where
  pub users : Dict Text User

abbrev pub admin_role : Text
admin_role = codes "admin"

-- `_get_user`: the row, or none
unfoldable pub find_user : Text → AuthStore → Option User
find_user username store = Dict.get username store.users

-- The `CHECK` of the schema
unfoldable pub is_role : Text → Bool
is_role role = role == codes "client" || role == admin_role

-- `_create_user`: an `INSERT`, where a row that is there, and a role that is none, is an
-- IntegrityError
unfoldable pub create_account : Text → Text → Text → AuthStore → Bool × AuthStore
unfolding is_role
create_account username password_hash role store = elim (Dict.get username store.users) [
  | some user ↦ (false, store)
  | none ↦
      if is_role role
      then (
        true,
        record {
          users =
              Dict.put username (record { password_hash = password_hash; role = role }) store.users;
        },
      )
      else (false, store)
]

-- `_bootstrap_admin`: an insert, or an update of password and role
unfoldable pub bootstrap_admin : Text → Text → AuthStore → AuthStore
bootstrap_admin username password_hash store = record {
  users =
      Dict.put username (record { password_hash = password_hash; role = admin_role }) store.users;
}
