-- ===== src/Node/AuthStore/Examples.antt =====
-- Two attempts to register one name.
use clustertalk_githubaction.Prelude.{◌≡◌, List, [], ◌∷◌, codes}
use clustertalk_githubaction.Node.AuthStore.{AuthStore, find_user}
use clustertalk_githubaction.Node.AuthStore.Accounts.{
  Attempt, register_all, first_for, or_first, find_user-register_all,
}

abbrev no_users : AuthStore
no_users = record { users = [] }

abbrev two_attempts : List Attempt
two_attempts =
    record { username = codes "al"; password_hash = codes "x"; role = codes "client" }
    ∷ record { username = codes "al"; password_hash = codes "y"; role = codes "client" }
    ∷ []

find_user-register_all_example :
    find_user (codes "al") (register_all two_attempts no_users)
    ≡ or_first (find_user (codes "al") no_users) (first_for (codes "al") two_attempts)
find_user-register_all_example = find_user-register_all two_attempts no_users (codes "al")
