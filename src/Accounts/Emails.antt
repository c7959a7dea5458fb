-- ===== src/Accounts/Emails.antt =====
-- Unique emails: what every endpoint of control-api/app/routers/users.py and tenants.py keeps, after any
-- history of requests.
use kdb_distributed_controlp.Prelude.{
  ℕ, ◌≡◌, refl, ap, sym, ◌∙◌, String, Bool, true, false, not, ◌&&◌, ◌||◌, some, List, [], ◌∷◌, ◌++◌,
  map, arith, str_eq, eq_iff, is_some, of_not, Result, subst,
}
use kdb_distributed_controlp.Prelude.Exec.{
  lift_rule, gets_rule, modify_rule, or_raise_rule, require_rule,
}
use kdb_distributed_controlp.Fleet.Store.{CurrentUser, HttpError}
use kdb_distributed_controlp.Fleet.Router.{Passwords}
use kdb_distributed_controlp.Accounts.Store.{
  Tenant, User, AccountsDb, find_user, find_email, put_user,
}
use kdb_distributed_controlp.Accounts.Endpoints.{
  UserCreateIn, UserUpdateIn, updated, create_user, update_user, create_tenant, suspend_tenant,
  login,
}
use kdb_distributed_controlp.Accounts.Admins.{update_user_cases, find_user-id}

abbrev pub has : String → List String → Bool
has e [] = false
has e (d ∷ es) = str_eq d e || has e es

-- no text twice
abbrev pub distinct : List String → Bool
distinct [] = true
distinct (e ∷ es) = not (has e es) && distinct es

abbrev pub emails : List User → List String
emails rows = map (λ u. u.email) rows

-- No two users have the same email.
pub record IsUnique (users : List User) : Type 0 where
  pub unique : distinct (emails users) ≡ true

pub find_email-has :
    (e : String) (rows : List User) → has e (emails rows) ≡ is_some (find_email e rows)
unfolding find_email
find_email-has e [] = refl
find_email-has e (u ∷ rows) = ground (arith, find_email-has e rows)

has-append : (d e : String) (es : List String) → has d (es ++ e ∷ []) ≡ (has d es || str_eq e d)
has-append d e [] = ground arith
has-append d e (f ∷ es) = ground (arith, has-append d e es)

distinct-append :
    (e : String) (es : List String)
    → has e es ≡ false
    → distinct es ≡ true
    → distinct (es ++ e ∷ []) ≡ true
distinct-append e [] fresh h = refl
distinct-append e (d ∷ es) fresh h =
    ground (arith, eq_iff d e, eq_iff e d, has-append d e es, distinct-append e es)

emails-append :
    (u : User) (rows : List User) → emails (rows ++ u ∷ []) ≡ emails rows ++ u.email ∷ []
emails-append u [] = refl
emails-append u (v ∷ rows) = ap (λ es. v.email ∷ es) (emails-append u rows)

emails-put_user :
    (v u : User) (rows : List User)
    → find_user v.id rows ≡ some u
    → v.email ≡ u.email
    → emails (put_user v rows) ≡ emails rows
unfolding find_user put_user
emails-put_user v u [] found same = refl
emails-put_user v u (w ∷ rows) found same = ground (arith, emails-put_user v u rows)

added-IsUnique :
    (u : User) (rows : List User)
    → not (is_some (find_email u.email rows)) ≡ true
    → IsUnique rows
    → IsUnique (rows ++ u ∷ [])
added-IsUnique u rows fresh h = record {
  unique =
      ap distinct (emails-append u rows)
      ∙ distinct-append u.email (emails rows) (find_email-has u.email rows ∙ of_not _ fresh)
          h.unique;
}

module _ (p : Passwords) where
  create_user-IsUnique :
      (body : UserCreateIn) (admin : CurrentUser) (db : AccountsDb)
      → IsUnique db.users
      → IsUnique (create_user p body admin db).1.users
  unfolding create_user
  create_user-IsUnique body admin db kept =
      lift_rule Q _ _ db (λ e. kept)
        λ tenant scope. require_rule Q _ _ _ db kept λ role. gets_rule Q _ _ db (
          require_rule Q _ _ _ db kept λ fresh. require_rule Q _ _ _ db kept λ long.
            gets_rule Q _ _ db
              (modify_rule Q _ _ db (modify_rule Q _ _ _ (added-IsUnique _ db.users fresh kept))))
    where
      Q : Result HttpError User × AccountsDb → Type 0
      Q r = IsUnique r.1.users

  update_user-IsUnique :
      (user_id : ℕ) (body : UserUpdateIn) (admin : CurrentUser) (db : AccountsDb)
      → IsUnique db.users
      → IsUnique (update_user p user_id body admin db).1.users
  update_user-IsUnique user_id body admin db kept =
      update_user_cases p IsUnique user_id body admin db kept λ tenant user scope found own stays.
        record {
          unique =
              ap distinct (
                emails-put_user (updated p body user) user db.users
                  (ap (λ i. find_user i db.users) (find_user-id user_id user db.users found)
                    ∙ found)
                  refl)
              ∙ kept.unique;
        }

  create_tenant-IsUnique :
      (name email password plan : String) (admin : CurrentUser) (db : AccountsDb)
      → IsUnique db.users
      → IsUnique (create_tenant p name email password plan admin db).1.users
  unfolding create_tenant
  create_tenant-IsUnique name email password plan admin db kept =
      require_rule Q _ _ _ db kept λ platform. gets_rule Q _ _ db (
        require_rule Q _ _ _ db kept λ slug. gets_rule Q _ _ db (
          require_rule Q _ _ _ db kept λ fresh. gets_rule Q _ _ db (
            gets_rule Q _ _ db
              (modify_rule Q _ _ db (modify_rule Q _ _ _ (added-IsUnique _ db.users fresh kept))))))
    where
      Q : Result HttpError Tenant × AccountsDb → Type 0
      Q r = IsUnique r.1.users

  login-kept : (email password : String) (db : AccountsDb) → (login p email password db).1 ≡ db
  unfolding login
  login-kept email password db = gets_rule Q _ _ db (
      or_raise_rule Q _ _ _ db refl λ user found.
        require_rule Q _ _ _ db refl λ active. require_rule Q _ _ _ db refl λ verified. refl)
    where
      Q : Result HttpError CurrentUser × AccountsDb → Type 0
      Q r = r.1 ≡ db

suspend_tenant-users :
    (tenant_id : ℕ) (admin : CurrentUser) (db : AccountsDb)
    → (suspend_tenant tenant_id admin db).1.users ≡ db.users
unfolding suspend_tenant
suspend_tenant-users tenant_id admin db = require_rule Q _ _ _ db refl λ platform.
    gets_rule Q _ _ db (or_raise_rule Q _ _ _ db refl λ tenant found. modify_rule Q _ _ db refl)
  where
    Q : Result HttpError (Unit {0}) × AccountsDb → Type 0
    Q r = r.1.users ≡ db.users

-- A request to the accounts' endpoints, with the caller that its token names.
pub data AccountRequest : Type 0 where
  creates : UserCreateIn → CurrentUser → AccountRequest
  updates : ℕ → UserUpdateIn → CurrentUser → AccountRequest
  founds : String → String → String → String → CurrentUser → AccountRequest
  suspends : ℕ → CurrentUser → AccountRequest
  logs_in : String → String → AccountRequest

module _ (p : Passwords) where
  abbrev pub serve_account : AccountRequest → AccountsDb → AccountsDb
  serve_account (creates body admin) db = (create_user p body admin db).1
  serve_account (updates user_id body admin) db = (update_user p user_id body admin db).1
  serve_account (founds name email password plan admin) db =
      (create_tenant p name email password plan admin db).1
  serve_account (suspends tenant_id admin) db = (suspend_tenant tenant_id admin db).1
  serve_account (logs_in email password) db = (login p email password db).1

  unfoldable pub serve_accounts : List AccountRequest → AccountsDb → AccountsDb
  serve_accounts [] db = db
  serve_accounts (r ∷ rs) db = serve_accounts rs (serve_account r db)

  serve_account-IsUnique :
      (r : AccountRequest) (db : AccountsDb)
      → IsUnique db.users
      → IsUnique (serve_account r db).users
  serve_account-IsUnique (creates body admin) db h = create_user-IsUnique p body admin db h
  serve_account-IsUnique (updates user_id body admin) db h =
      update_user-IsUnique p user_id body admin db h
  serve_account-IsUnique (founds name email password plan admin) db h =
      create_tenant-IsUnique p name email password plan admin db h
  serve_account-IsUnique (suspends tenant_id admin) db h =
      subst IsUnique (sym (suspend_tenant-users tenant_id admin db)) h
  serve_account-IsUnique (logs_in email password) db h =
      subst IsUnique (sym (ap (λ d. d.users) (login-kept p email password db))) h

  -- After any list of requests to create and update users, to found and suspend tenants and to log in,
  -- no two users have the same email, if no two had it before.
  pub serve_accounts-IsUnique :
      (rs : List AccountRequest) (db : AccountsDb)
      → IsUnique db.users
      → IsUnique (serve_accounts rs db).users
  unfolding serve_accounts
  serve_accounts-IsUnique [] db h = h
  serve_accounts-IsUnique (r ∷ rs) db h =
      serve_accounts-IsUnique rs (serve_account r db) (serve_account-IsUnique r db h)
