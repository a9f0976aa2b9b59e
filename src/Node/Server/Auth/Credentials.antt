-- ===== src/Node/Server/Auth/Credentials.antt =====
-- From the registration of an account to the logins with it.
use clustertalk_githubaction.Node.Server.Steady.{same}
use clustertalk_githubaction.Protocol.Framing.{Bytes}
use clustertalk_githubaction.Node.Password.{hash_password}
use clustertalk_githubaction.Node.Server.Auth.{
  refuse_login, password_ok, username_ok, register_valid, login_as, wrong_portal,
  setup_session_for_user, handle_register, handle_login, create_user, client_role, bad_credentials,
}
use clustertalk_githubaction.Node.Password.RoundTrip.{verify_password-hash_password, IsBytes}
use clustertalk_githubaction.Node.Server.{
  registered, ◌>>=◌, ◌>>◌, write_frame, strip, return, or_default, Services, Moment, Handler,
  ChatNode,
}
use clustertalk_githubaction.Node.AuthStore.{is_role, find_user, create_account, User, AuthStore}
use clustertalk_githubaction.Prelude.{
  refl, [], if◌then◌else◌, ℕ, ◌==◌, ◌≡◌, inr, inl, Bool-cases, Option, Bool, true, none, some,
  nat_eq, list_eq, Text,
}
use clustertalk_githubaction.Prelude.Dict

-- What a login does once its account is found, by the outcome of the two tests
abbrev pub decided : Services → Moment → ℕ → Text → Text → Bool → Bool → Handler (Option Text)
decided services moment w username role right portal =
    if right
    then (if portal
        then (do sid ← setup_session_for_user services moment username w role; return (some sid))
        else refuse_login w wrong_portal)
    else refuse_login w bad_credentials

module _ (services : Services) where
  login_as-decided :
      (moment : Moment) (w : ℕ) (username given asked salt password role : Text) (node : ChatNode)
      → IsBytes salt
      → IsBytes (services.pbkdf2 password salt)
      → login_as services moment w username given asked
          (some
            (record { password_hash = hash_password services.pbkdf2 salt password; role = role }))
          node
        ≡ decided services moment w username role
            (services.pbkdf2 given salt == services.pbkdf2 password salt)
            (asked == role)
            node
  unfolding login_as
  login_as-decided moment w username given asked salt password role node hs hk =
      let checked = verify_password-hash_password services.pbkdf2 salt password given hs hk in
      elim (Bool-cases (services.pbkdf2 given salt == services.pbkdf2 password salt)) [
        | inr wrong ↦ rw (checked, wrong)
        | inl right ↦ elim (Bool-cases (asked == role)) [
          | inl equal ↦ rw (checked, right, equal)
          | inr other ↦ rw (checked, right, other)
        ]
      ]

  abbrev account : Bytes → Text → User
  account salt password = record {
    password_hash = hash_password services.pbkdf2 salt password;
    role = client_role;
  }

  abbrev with_account : Text → User → AuthStore → AuthStore
  with_account username user store = record { users = Dict.put username user store.users }

  create_account-free :
      (username : Text) (user : User) (store : AuthStore)
      → user.role ≡ client_role
      → find_user username store ≡ none
      → create_account username user.password_hash client_role store
        ≡ (true, with_account username (record user { role = client_role }) store)
  unfolding create_account find_user is_role
  create_account-free username user store is free = rw (free, create_account)

  find_user-with_account :
      (username : Text) (user : User) (store store' : AuthStore)
      → store' ≡ with_account username user store
      → find_user username store' ≡ some user
  unfolding find_user
  find_user-with_account username user store store' same =
      rw same (Dict.get-put_self username user store.users)

  -- A registration with a free name of 3 to 32 characters and a password of 6 at least stores the
  -- account, acknowledges it and sets the session of that name up. On any node with these accounts a
  -- login with that name then sets the same name's session up if the password that it gives derives
  -- the stored key and it asks for the role `client`; it is refused as bad credentials if the keys
  -- differ, and as the wrong portal if the role is another. Salt and key consist of bytes.
  pub register_then_login :
      (moment : Moment) (w : ℕ) (name secret : Option Text) (node : ChatNode)
      → find_user (strip (or_default name [])) node.auth_store ≡ none
      → username_ok (strip (or_default name [])) ≡ true
      → password_ok (or_default secret []) ≡ true
      → IsBytes moment.salt
      → IsBytes (services.pbkdf2 (or_default secret []) moment.salt)
      → (store : AuthStore) × (handle_register services moment w name secret node
          ≡ (do
            write_frame w registered
            sid ← setup_session_for_user services moment (strip (or_default name [])) w client_role
            return (some sid))
              (record node { auth_store = store }))
        × ((moment' : Moment) (w' : ℕ) (given role : Option Text) (node' : ChatNode)
            → node'.auth_store ≡ store
            → handle_login services moment' w' name given role node'
              ≡ decided services moment' w'
                  (strip (or_default name []))
                  client_role
                  (services.pbkdf2 (or_default given []) moment.salt
                    == services.pbkdf2 (or_default secret []) moment.salt)
                  (or_default role client_role == client_role)
                  node')
  unfolding handle_register register_valid create_user handle_login
  register_then_login moment w name secret node free good long hs hk =
      let username = strip (or_default name []) in
      let password = or_default secret [] in
      let user = account moment.salt password in
      let created = create_account-free username user node.auth_store refl free in
      (
        with_account username user node.auth_store,
        rw (good, long, created),
        λ moment' w' given role node' accounts.
            rw (find_user-with_account username user node.auth_store node'.auth_store accounts) (
              login_as-decided moment' w' username (or_default given [])
                (or_default role client_role) moment.salt password client_role node' hs hk),
      )
