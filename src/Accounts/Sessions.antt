-- ===== src/Accounts/Sessions.antt =====
-- `login` of control-api/app/routers/auth.py after requests to control-api/app/routers/users.py.
use kdb_distributed_controlp.Prelude.{
  ℕ, ◌≡◌, refl, ap, sym, ◌∙◌, String, true, false, not, some, List, [], ◌∷◌, ◌++◌, arith, eq_iff,
  eq_refl, is_some, Result, ok, err, ok-injective, subst,
}
use kdb_distributed_controlp.Prelude.Exec.{
  ◌>>=◌, ◌>>◌, lift_rule, gets_rule, modify_rule, or_raise_rule, require_rule,
}
use kdb_distributed_controlp.Fleet.Store.{CurrentUser, HttpError, http}
use kdb_distributed_controlp.Fleet.Router.{Passwords}
use kdb_distributed_controlp.Accounts.Store.{User, AccountsDb, find_user, find_email, put_user}
use kdb_distributed_controlp.Accounts.Endpoints.{
  UserCreateIn, UserUpdateIn, updated, create_user, update_user, login,
}
use kdb_distributed_controlp.Accounts.Admins.{admin_scope-ok, find_user-id}
use kdb_distributed_controlp.Accounts.Emails.{IsUnique, emails, has, distinct}

find_email-append :
    (u : User) (rows : List User)
    → not (is_some (find_email u.email rows)) ≡ true
    → find_email u.email (rows ++ u ∷ []) ≡ some u
unfolding find_email
find_email-append u [] fresh = ground (arith, eq_refl u.email)
find_email-append u (v ∷ rows) fresh = ground (arith, find_email-append u rows)

has-found :
    (id : ℕ) (u : User) (rows : List User)
    → find_user id rows ≡ some u
    → has u.email (emails rows) ≡ true
unfolding find_user
has-found id u [] found = cc
has-found id u (v ∷ rows) found = ground (arith, eq_refl u.email, has-found id u rows)

-- A written row is found by its email, if no two users have the same.
find_email-put_user :
    (v u : User) (rows : List User)
    → find_user v.id rows ≡ some u
    → v.email ≡ u.email
    → distinct (emails rows) ≡ true
    → find_email v.email (put_user v rows) ≡ some v
unfolding find_email find_user put_user
find_email-put_user v u [] found same h = cc
find_email-put_user v u (w ∷ rows) found same h = ground (
  arith,
  eq_refl v.email,
  eq_iff w.email v.email,
  has-found v.id u rows,
  find_email-put_user v u rows,
)

module _ (p : Passwords) where
  open p use {hash_password, verify_password}

  -- the access token's content for a row
  abbrev pub token_of : User → CurrentUser
  token_of user = record {
    user_id = user.id;
    email = user.email;
    role = user.role;
    tenant_id = user.tenant_id;
  }

  login-found :
      (password : String) (user : User) (db : AccountsDb)
      → find_email user.email db.users ≡ some user
      → user.active ≡ true
      → verify_password password user.password_hash ≡ true
      → (login p user.email password db).0 ≡ ok (token_of user)
  unfolding login ◌>>=◌ ◌>>◌
  login-found password user db found active verified = rw (found, active, verified) refl

  login-inactive :
      (password : String) (row user : User) (db : AccountsDb)
      → row ≡ user
      → find_email row.email db.users ≡ some row
      → row.active ≡ false
      → (login p user.email password db).0 ≡ err (http 401)
  unfolding login ◌>>=◌ ◌>>◌
  login-inactive password row user db same found inactive =
      subst (λ (u : User). (login p u.email password db).0 ≡ err (http 401)) same
        (rw (found, inactive) refl)

  -- A user that an administrator has created logs in at once with the given email and password, to the
  -- role that was asked for and the administrator's tenant, if a password verifies against its hash.
  pub create_user-login :
      (body : UserCreateIn) (admin : CurrentUser) (db : AccountsDb) (user : User)
      → verify_password body.password (hash_password body.password) ≡ true
      → (create_user p body admin db).0 ≡ ok user
      → ((login p body.email body.password (create_user p body admin db).1).0 ≡ ok (token_of user))
        × (user.email ≡ body.email)
        × (user.role ≡ body.role)
        × (user.tenant_id ≡ admin.tenant_id)
  unfolding create_user
  create_user-login body admin db user verified =
      lift_rule Q _ _ db (λ e. λ done. absurd (cc))
        λ tenant scope.
          require_rule Q _ _ _ db (λ done. absurd (cc))
            λ role. gets_rule Q _ _ db (
              require_rule Q _ _ _ db (λ done. absurd (cc))
                λ fresh.
                  require_rule Q _ _ _ db (λ done. absurd (cc))
                    λ long. gets_rule Q _ _ db (
                      modify_rule Q _ _ db (
                        modify_rule Q _ _ _ λ done.
                          let same = ok-injective _ user done in
                          (
                            login-found body.password _ _ (find_email-append _ db.users fresh) refl
                                  verified
                                ∙ ap (λ (u : User). ok (token_of u)) same,
                            ap (λ (u : User). u.email) (sym same),
                            ap (λ (u : User). u.role) (sym same),
                            ap (λ (u : User). u.tenant_id) (sym same)
                                ∙ sym (admin_scope-ok admin tenant scope),
                          ))))
    where
      Q : Result HttpError User × AccountsDb → Type 0
      Q r =
          r.0 ≡ ok user
          → ((login p body.email body.password r.1).0 ≡ ok (token_of user))
            × (user.email ≡ body.email)
            × (user.role ≡ body.role)
            × (user.tenant_id ≡ admin.tenant_id)

  -- Once a user is deactivated by an accepted `update_user` request, no password logs the user in, if no
  -- two users have the same email.
  pub deactivated-login :
      (user_id : ℕ) (body : UserUpdateIn) (admin : CurrentUser) (db : AccountsDb) (user : User)
      (password : String)
      → IsUnique db.users
      → body.active ≡ some false
      → (update_user p user_id body admin db).0 ≡ ok user
      → (login p user.email password (update_user p user_id body admin db).1).0 ≡ err (http 401)
  unfolding update_user
  deactivated-login user_id body admin db user password h off =
      lift_rule Q _ _ db (λ e. λ done. absurd (cc))
        λ tenant scope. gets_rule Q _ _ db (
          or_raise_rule Q _ _ _ db (λ done. absurd (cc))
            λ row found.
              require_rule Q _ _ _ db (λ done. absurd (cc))
                λ own. gets_rule Q _ _ db (
                  require_rule Q _ _ _ db (λ done. absurd (cc))
                    λ stays.
                      require_rule Q _ _ _ db (λ done. absurd (cc))
                        λ role.
                          require_rule Q _ _ _ db (λ done. absurd (cc))
                            λ long. modify_rule Q _ _ db (
                              modify_rule Q _ _ _ λ done.
                                login-inactive password (updated p body row) user _
                                  (ok-injective _ user done)
                                  (find_email-put_user (updated p body row) row db.users
                                    (ap (λ i. find_user i db.users)
                                        (find_user-id user_id row db.users found)
                                      ∙ found)
                                    refl h.unique)
                                  (rw off refl))))
    where
      Q : Result HttpError User × AccountsDb → Type 0
      Q r = r.0 ≡ ok user → (login p user.email password r.1).0 ≡ err (http 401)
