-- ===== src/Accounts/Endpoints.antt =====
-- The endpoints of control-api/app/routers/users.py and tenants.py, and `login` of auth.py.
use Prim.Native.Char.{Char, code}
use Prim.Native.String.{◌++◌ as ◌<>◌, count}
use kdb_distributed_controlp.Prelude.{
  ℕ, ◌+◌, String, Bool, true, false, not, ◌&&◌, ◌||◌, Option, none, some, List, [], ◌∷◌, ◌++◌,
  if◌then◌else◌, ◌==◌, str_eq, ltb, leb, is_some,
}
use kdb_distributed_controlp.Prelude.Text.{decimal, str_lower}
use kdb_distributed_controlp.Prelude.Exec.{
  Exec, pure, gets, or_raise, lift, modify, require, ◌>>=◌, ◌>>◌,
}
use kdb_distributed_controlp.Fleet.Store.{
  UserRole, platform_admin, tenant_admin, functional_user, quant_analyst, CurrentUser, HttpError,
  http,
}
use kdb_distributed_controlp.Fleet.Router.{Passwords}
use kdb_distributed_controlp.Accounts.Store.{
  Tenant, User, AccountsDb, find_user, find_email, put_user, find_tenant, find_slug, put_tenant,
  is_admin_role, is_platform, in_tenant, admin_scope, remaining_admin_count,
}

abbrev pub AccountHandler : Type 0 → Type 0
AccountHandler A = Exec HttpError AccountsDb A

abbrev pub role_value : UserRole → String
role_value platform_admin = "platform_admin"
role_value tenant_admin = "tenant_admin"
role_value functional_user = "functional_user"
role_value quant_analyst = "quant_analyst"

-- `role in ASSIGNABLE_ROLES`
abbrev pub assignable : UserRole → Bool
assignable platform_admin = false
assignable _ = true

-- `_DEFAULT_CAN_TRADE`
abbrev pub default_can_trade : UserRole → Bool
default_can_trade quant_analyst = false
default_can_trade _ = true

abbrev pub account_event : String → String → String → String → Option ℕ → AccountHandler (Unit {0})
account_event actor action target detail tenant = modify (λ db. record db {
  events =
      record {
        actor = actor;
        action = action;
        target = target;
        detail = detail;
        tenant_id = tenant;
      }
      ∷ db.events;
})

pub record UserCreateIn : Type 0 where
  pub email : String
  pub password : String
  pub role : UserRole
  pub can_trade : Option Bool

pub record UserUpdateIn : Type 0 where
  pub role : Option UserRole
  pub can_trade : Option Bool
  pub active : Option Bool
  pub password : Option String

abbrev pub given {ℓ} : {A : Type ℓ} → Option A → A → A
given none a = a
given (some b) a = b

-- `body.role is not None and body.role != tenant_admin`
abbrev pub demotes : Option UserRole → Bool
demotes none = false
demotes (some r) = not (is_admin_role r)

-- `body.active is False`
abbrev pub deactivates : Option Bool → Bool
deactivates none = false
deactivates (some a) = not a

abbrev pub assignable_or_none : Option UserRole → Bool
assignable_or_none none = true
assignable_or_none (some r) = assignable r

-- Python's `str` of a bool
abbrev bool_text : Bool → String
bool_text b = if b then "True" else "False"

-- A password that is given and not empty has 8 characters at least.
abbrev pub long_or_none : Option String → Bool
long_or_none none = true
long_or_none (some p) = str_eq p "" || not (ltb (count p) 8)

-- `_slugify`: a run of other characters than letters and digits becomes one dash
abbrev slug_char : Char → Bool
slug_char c = (leb b'a' (code c) && leb (code c) b'z') || (leb b'0' (code c) && leb (code c) b'9')

unfoldable pub dashed : Bool → String → String
dashed in_run String.[] = ""
dashed in_run (String.◌∷◌ c s) =
    let kept = dashed false s in
    let skipped = dashed true s in
    if slug_char c then String.◌∷◌ c kept else if in_run then skipped else "-" <> skipped

unfoldable pub strip_left : String → String
strip_left String.[] = ""
strip_left (String.◌∷◌ c s) =
    let rest = strip_left s in if code c == b'-' then rest else String.◌∷◌ c s

unfoldable pub strip_right : String → String
strip_right String.[] = ""
strip_right (String.◌∷◌ c s) =
    let rest = strip_right s in
    elim rest [
      | String.[] ↦ (if code c == b'-' then "" else String.◌∷◌ c String.[])
      | String.◌∷◌ d t ↦ String.◌∷◌ c (String.◌∷◌ d t)
    ]

unfoldable pub slugify : String → String
unfolding dashed strip_left strip_right
slugify name = strip_right (strip_left (dashed false (str_lower name)))

unfoldable pub users_of : ℕ → List User → List User
users_of tenant [] = []
users_of tenant (u ∷ rows) =
    let rest = users_of tenant rows in if in_tenant tenant u.tenant_id then u ∷ rest else rest

unfoldable pub suspend_tenant : ℕ → CurrentUser → AccountHandler (Unit {0})
suspend_tenant tenant_id admin = do
  require (is_platform admin.role) (http 403)
  found ← gets (λ db. find_tenant tenant_id db.tenants)
  tenant ← or_raise found (http 404)
  modify (λ db. record db { tenants = put_tenant (record tenant { suspended = true }) db.tenants })
  account_event admin.email "suspend_tenant" tenant.slug "" none

module _ (p : Passwords) where
  open p use {hash_password, verify_password}

  unfoldable pub create_user : UserCreateIn → CurrentUser → AccountHandler User
  create_user body admin = do
    tenant ← lift (admin_scope admin)
    require (assignable body.role) (http 400)
    users ← gets (λ db. db.users)
    require (not (is_some (find_email body.email users))) (http 409)
    require (not (ltb (count body.password) 8)) (http 400)
    id ← gets (λ db. db.next_user)
    let user : User = record {
      id = id;
      tenant_id = some tenant;
      email = body.email;
      password_hash = hash_password body.password;
      role = body.role;
      active = true;
      can_trade = given body.can_trade (default_can_trade body.role);
    }
    modify (λ db. record db { users = db.users ++ user ∷ []; next_user = db.next_user + 1 })
    account_event admin.email "user_created" ("user:" <> decimal id)
        (user.email <> " role=" <> role_value user.role) (some tenant)
    pure user

  -- the row with what the request changes
  abbrev pub updated : UserUpdateIn → User → User
  updated body user = record user {
    role = given body.role user.role;
    can_trade = given body.can_trade user.can_trade;
    active = given body.active user.active;
    password_hash = elim body.password [
      | none ↦ user.password_hash
      | some secret ↦ if str_eq secret "" then user.password_hash else hash_password secret
    ];
  }

  -- `(demoting_self or deactivating_self) and _remaining_admin_count(…) == 0`
  abbrev pub locks_out : UserUpdateIn → CurrentUser → ℕ → User → List User → Bool
  locks_out body admin tenant user users =
      (user.id == admin.user_id && (demotes body.role || deactivates body.active))
      && (remaining_admin_count tenant (some admin.user_id) users == 0)

  unfoldable pub update_user : ℕ → UserUpdateIn → CurrentUser → AccountHandler User
  update_user user_id body admin = do
    tenant ← lift (admin_scope admin)
    found ← gets (λ db. find_user user_id db.users)
    user ← or_raise found (http 404)
    require (in_tenant tenant user.tenant_id) (http 404)
    users ← gets (λ db. db.users)
    require (not (locks_out body admin tenant user users)) (http 400)
    require (assignable_or_none body.role) (http 400)
    require (long_or_none body.password) (http 400)
    modify (λ db. record db { users = put_user (updated body user) db.users })
    account_event admin.email "user_updated" ("user:" <> decimal user.id)
        (user.email
          <> " role="
          <> role_value (given body.role user.role)
          <> " active="
          <> bool_text (given body.active user.active))
        (some tenant)
    pure (updated body user)

  unfoldable pub create_tenant :
      String → String → String → String → CurrentUser → AccountHandler Tenant
  create_tenant name admin_email admin_password plan admin = do
    require (is_platform admin.role) (http 403)
    tenants ← gets (λ db. db.tenants)
    require (not (is_some (find_slug (slugify name) tenants))) (http 409)
    users ← gets (λ db. db.users)
    require (not (is_some (find_email admin_email users))) (http 409)
    id ← gets (λ db. db.next_tenant)
    user_id ← gets (λ db. db.next_user)
    let tenant : Tenant = record {
      id = id;
      name = name;
      slug = slugify name;
      plan = plan;
      suspended = false;
    }
    let user : User = record {
      id = user_id;
      tenant_id = some id;
      email = admin_email;
      password_hash = hash_password admin_password;
      role = tenant_admin;
      active = true;
      can_trade = false;
    }
    modify (λ db. record db {
      tenants = db.tenants ++ tenant ∷ [];
      users = db.users ++ user ∷ [];
      next_tenant = db.next_tenant + 1;
      next_user = db.next_user + 1;
    })
    account_event admin.email "create_tenant" tenant.slug ("admin=" <> admin_email) none
    pure tenant

  -- `login`: what the access token says
  unfoldable pub login : String → String → AccountHandler CurrentUser
  login email password = do
    found ← gets (λ db. find_email email db.users)
    user ← or_raise found (http 401)
    require user.active (http 401)
    require (verify_password password user.password_hash) (http 401)
    pure (record {
      user_id = user.id;
      email = user.email;
      role = user.role;
      tenant_id = user.tenant_id;
    })
