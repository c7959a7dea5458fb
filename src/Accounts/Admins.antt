-- ===== src/Accounts/Admins.antt =====
-- `update_user` of control-api/app/routers/users.py and the administrators that a tenant keeps.
use kdb_distributed_controlp.Prelude.{
  ℕ, ◌<◌, ◌≤◌, ◌≡◌, refl, ap, sym, subst, ◌∙◌, true, false, ◌||◌, Option, none, some, List, [], ◌∷◌,
  ◌==◌, arith, Bool-cases, inl, inr, ==_iff, ◌≢◌, of_not, Result, ok,
}
use mathlib.Core.Option.{some-injective}
use kdb_distributed_controlp.Prelude.Exec.{
  lift_rule, gets_rule, modify_rule, or_raise_rule, require_rule,
}
use kdb_distributed_controlp.Fleet.Store.{CurrentUser, HttpError}
use kdb_distributed_controlp.Fleet.Router.{Passwords}
use kdb_distributed_controlp.Accounts.Store.{
  User, AccountsDb, find_user, put_user, in_tenant, administers, admin_scope, remaining_admin_count,
}
use kdb_distributed_controlp.Accounts.Endpoints.{
  UserUpdateIn, updated, locks_out, update_user, demotes, deactivates,
}

pub admin_scope-ok :
    (admin : CurrentUser) (tenant : ℕ)
    → admin_scope admin ≡ ok tenant
    → admin.tenant_id ≡ some tenant
unfolding admin_scope
admin_scope-ok admin tenant h = ground arith

module _ (p : Passwords) where
  -- The users after a request: those before it, or one row of the administrator's tenant is changed.
  pub update_user_cases :
      (P : List User → Type 0) (user_id : ℕ) (body : UserUpdateIn) (admin : CurrentUser)
      (db : AccountsDb)
      → P db.users
      → ((tenant : ℕ) (user : User)
          → admin.tenant_id ≡ some tenant
          → find_user user_id db.users ≡ some user
          → in_tenant tenant user.tenant_id ≡ true
          → locks_out p body admin tenant user db.users ≡ false
          → P (put_user (updated p body user) db.users))
      → P (update_user p user_id body admin db).1.users
  unfolding update_user
  update_user_cases P user_id body admin db kept changed =
      lift_rule Q _ _ db (λ e. kept)
        λ tenant scope. gets_rule Q _ _ db (
          or_raise_rule Q _ _ _ db kept λ user found. require_rule Q _ _ _ db kept λ own.
            gets_rule Q _ _ db (
              require_rule Q _ _ _ db kept λ stays. require_rule Q _ _ _ db kept λ role.
                require_rule Q _ _ _ db kept λ long. modify_rule Q _ _ db (
                  modify_rule Q _ _ _ (
                    changed tenant user (admin_scope-ok admin tenant scope) found own
                      (of_not _ stays)))))
    where
      Q : Result HttpError User × AccountsDb → Type 0
      Q r = P r.1.users

-- A row that is not written stays where a query finds it.
find_user-put_user :
    (v : User) (id : ℕ) (rows : List User)
    → v.id ≢ id
    → find_user id (put_user v rows) ≡ find_user id rows
unfolding find_user put_user
find_user-put_user v id [] other = refl
find_user-put_user v id (u ∷ rows) other = ground (arith, find_user-put_user v id rows other)

module _ (tenant : ℕ) where
  abbrev admins : List User → ℕ
  admins rows = remaining_admin_count tenant none rows

  find_user-admins :
      (id : ℕ) (u : User) (rows : List User)
      → find_user id rows ≡ some u
      → administers tenant u ≡ true
      → 0 < admins rows
  unfolding find_user remaining_admin_count
  find_user-admins id u [] found pass = cc
  find_user-admins id u (v ∷ rows) found pass = ground (arith, find_user-admins id u rows)

  -- A written row that is an administrator counts, if there was a row to write.
  put_user-admins :
      (v u : User) (rows : List User)
      → find_user v.id rows ≡ some u
      → administers tenant v ≡ true
      → 0 < admins (put_user v rows)
  unfolding find_user put_user remaining_admin_count
  put_user-admins v u [] found pass = cc
  put_user-admins v u (w ∷ rows) found pass = ground (arith, put_user-admins v u rows)

  remaining-admins :
      (e : Option ℕ) (rows : List User) → remaining_admin_count tenant e rows ≤ admins rows
  unfolding remaining_admin_count
  remaining-admins e [] = omega arith
  remaining-admins e (u ∷ rows) = ground (arith, remaining-admins e rows)

  -- The administrators but the one with the written id stay.
  put_user-others :
      (v : User) (rows : List User)
      → 0 < remaining_admin_count tenant (some v.id) rows
      → 0 < admins (put_user v rows)
  unfolding put_user remaining_admin_count
  put_user-others v [] left = left
  put_user-others v (w ∷ rows) left =
      ground (arith, put_user-others v rows, remaining-admins (some v.id) rows)

  -- A row of another tenant is written.
  put_user-elsewhere :
      (v u : User) (rows : List User)
      → find_user v.id rows ≡ some u
      → in_tenant tenant u.tenant_id ≡ false
      → in_tenant tenant v.tenant_id ≡ false
      → admins (put_user v rows) ≡ admins rows
  unfolding find_user put_user remaining_admin_count
  put_user-elsewhere v u [] found old fresh = refl
  put_user-elsewhere v u (w ∷ rows) found old fresh = ground (arith, put_user-elsewhere v u rows)

pub find_user-id : (id : ℕ) (u : User) (rows : List User) → find_user id rows ≡ some u → u.id ≡ id
unfolding find_user
find_user-id id u [] found = cc
find_user-id id u (v ∷ rows) found = ground (arith, find_user-id id u rows)

elsewhere :
    (t : ℕ) (at : Option ℕ) (tenant : ℕ)
    → in_tenant tenant at ≡ true
    → (tenant == t) ≡ false
    → in_tenant t at ≡ false
elsewhere t at tenant own away = ground arith

module _ (p : Passwords) where
  stays_admin :
      (body : UserUpdateIn) (tenant : ℕ) (u : User)
      → administers tenant u ≡ true
      → (demotes body.role || deactivates body.active) ≡ false
      → administers tenant (updated p body u) ≡ true
  stays_admin body tenant u pass mild = ground arith

  module _ (user_id : ℕ) (body : UserUpdateIn) (admin : CurrentUser) (tenant : ℕ)
      (users : List User) (me user : User) (mine : find_user admin.user_id users ≡ some me)
      (pass : administers tenant me ≡ true) (found : find_user user_id users ≡ some user)
      (own : in_tenant tenant user.tenant_id ≡ true)
      (open_door : locks_out p body admin tenant user users ≡ false) where
    left_over :
        user.id ≡ admin.user_id
        → (demotes body.role || deactivates body.active) ≡ true
        → 0 < remaining_admin_count tenant (some user.id) users
    left_over same harsh = rw same (ground arith)

    own_row : user.id ≡ admin.user_id → 0 < admins tenant (put_user (updated p body user) users)
    own_row same =
        let me_user : me ≡ user = some-injective _ _ (
          sym mine
          ∙ (ap (λ i. find_user i users) (sym (sym (find_user-id user_id user users found) ∙ same))
              ∙ found)) in
        elim (Bool-cases (demotes body.role || deactivates body.active)) [
          | inl harsh ↦ put_user-others tenant (updated p body user) users (left_over same harsh)
          | inr mild ↦ put_user-admins tenant (updated p body user) me users (rw same mine) (
              stays_admin body tenant user (subst (λ u. administers tenant u ≡ true) me_user pass)
                mild)
        ]

    pub after_put : 0 < admins tenant (put_user (updated p body user) users)
    after_put = elim (Bool-cases (user.id == admin.user_id)) [
      | inl same ↦ own_row ((==_iff _ _).0 same)
      | inr other ↦
          find_user-admins tenant admin.user_id me (put_user (updated p body user) users)
            (find_user-put_user (updated p body user) admin.user_id users
                (λ same. absurd (ground arith))
              ∙ mine)
            pass
    ]

  -- A tenant that has an active administrator still has one after any `update_user` request whose own
  -- caller is, in the table, an active administrator of the tenant that the request acts for.
  pub update_user_keeps_admin :
      (user_id : ℕ) (body : UserUpdateIn) (admin : CurrentUser) (tenant t : ℕ) (me : User)
      (db : AccountsDb)
      → admin.tenant_id ≡ some tenant
      → find_user admin.user_id db.users ≡ some me
      → administers tenant me ≡ true
      → 0 < remaining_admin_count t none db.users
      → 0 < remaining_admin_count t none (update_user p user_id body admin db).1.users
  update_user_keeps_admin user_id body admin tenant t me db scope mine pass some_admin =
      update_user_cases p (λ users. 0 < remaining_admin_count t none users) user_id body admin db
        some_admin
        λ tenant' user scope' found own open_door.
          let same : tenant' ≡ tenant = some-injective _ _ (sym scope' ∙ scope) in
          elim (Bool-cases (tenant == t)) [
            | inl here ↦
                subst
                  (λ k. 0 < remaining_admin_count k none (put_user (updated p body user) db.users))
                  ((==_iff tenant t).0 here)
                  (after_put user_id body admin tenant db.users me user mine pass found
                    (rw same at own) (rw same at open_door))
            | inr away ↦
                rw
                  (put_user-elsewhere t (updated p body user) user db.users
                    (ap (λ i. find_user i db.users) (find_user-id user_id user db.users found)
                      ∙ found)
                    (elsewhere t user.tenant_id tenant (rw same at own) away)
                    (elsewhere t user.tenant_id tenant (rw same at own) away))
                  some_admin
          ]
