-- ===== src/Accounts/Store.antt =====
-- The tables of tenants and users (control-api/app/models.py), the queries made of them, and the guards
-- of control-api/app/routers/auth.py.
use kdb_distributed_controlp.Prelude.{
  ℕ, suc, String, Bool, true, false, Option, none, some, List, [], ◌∷◌, if◌then◌else◌, ◌==◌, not,
  ◌&&◌, str_eq, Result, ok, err,
}
use kdb_distributed_controlp.Fleet.Store.{
  UserRole, platform_admin, tenant_admin, CurrentUser, AuditEvent, HttpError, http,
}

pub record Tenant : Type 0 where
  pub id : ℕ
  pub name : String
  pub slug : String
  pub plan : String
  pub suspended : Bool

pub record User : Type 0 where
  pub id : ℕ
  pub tenant_id : Option ℕ
  pub email : String
  pub password_hash : String
  pub role : UserRole
  pub active : Bool
  pub can_trade : Bool

pub record AccountsDb : Type 0 where
  pub tenants : List Tenant
  pub users : List User
  pub next_tenant : ℕ
  pub next_user : ℕ
  pub events : List AuditEvent

-- `session.get(User, id)`
unfoldable pub find_user : ℕ → List User → Option User
find_user id [] = none
find_user id (u ∷ rows) = if u.id == id then some u else find_user id rows

-- `select(User).where(User.email == email)).first()`
unfoldable pub find_email : String → List User → Option User
find_email email [] = none
find_email email (u ∷ rows) = if str_eq u.email email then some u else find_email email rows

-- a changed row, written back by its id
unfoldable pub put_user : User → List User → List User
put_user v [] = []
put_user v (u ∷ rows) = if u.id == v.id then v ∷ rows else u ∷ put_user v rows

unfoldable pub find_tenant : ℕ → List Tenant → Option Tenant
find_tenant id [] = none
find_tenant id (t ∷ rows) = if t.id == id then some t else find_tenant id rows

unfoldable pub find_slug : String → List Tenant → Option Tenant
find_slug slug [] = none
find_slug slug (t ∷ rows) = if str_eq t.slug slug then some t else find_slug slug rows

unfoldable pub put_tenant : Tenant → List Tenant → List Tenant
put_tenant v [] = []
put_tenant v (t ∷ rows) = if t.id == v.id then v ∷ rows else t ∷ put_tenant v rows

abbrev pub is_admin_role : UserRole → Bool
is_admin_role tenant_admin = true
is_admin_role _ = false

abbrev pub is_platform : UserRole → Bool
is_platform platform_admin = true
is_platform _ = false

-- `user.tenant_id == tenant`
abbrev pub in_tenant : ℕ → Option ℕ → Bool
in_tenant tenant none = false
in_tenant tenant (some t) = t == tenant

-- `require_tenant_scope`, with the tenant's id
unfoldable pub tenant_scope : CurrentUser → Result HttpError ℕ
tenant_scope user = elim user.tenant_id [ none ↦ err (http 400) | some t ↦ ok t ]

-- `require_admin`
unfoldable pub admin_scope : CurrentUser → Result HttpError ℕ
unfolding tenant_scope
admin_scope user = elim user.tenant_id [
  | none ↦ err (http 400)
  | some t ↦ if is_admin_role user.role then ok t else err (http 403)
]

-- An active administrator of the tenant.
abbrev pub administers : ℕ → User → Bool
administers tenant u = in_tenant tenant u.tenant_id && (is_admin_role u.role && u.active)

-- `_remaining_admin_count`
unfoldable pub remaining_admin_count : ℕ → Option ℕ → List User → ℕ
remaining_admin_count tenant excluding [] = 0
remaining_admin_count tenant excluding (u ∷ rows) =
    let rest = remaining_admin_count tenant excluding rows in
    if administers tenant u && not (in_tenant u.id excluding) then suc rest else rest
