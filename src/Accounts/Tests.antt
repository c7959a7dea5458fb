-- ===== src/Accounts/Tests.antt =====
-- Runs of the accounts' endpoints: two administrators of tenant 7, and passwords kept as they are.
use kdb_distributed_controlp.Prelude.{
  ◌<◌, ◌≡◌, refl, true, false, none, some, [], ◌∷◌, ok, err, arith, str_eq,
}
use kdb_distributed_controlp.Prelude.Exec.{◌>>=◌, ◌>>◌}
use kdb_distributed_controlp.Fleet.Store.{
  CurrentUser, tenant_admin, quant_analyst, platform_admin, http,
}
use kdb_distributed_controlp.Fleet.Router.{Passwords}
use kdb_distributed_controlp.Accounts.Store.{
  User, AccountsDb, find_user, find_email, put_user, admin_scope, remaining_admin_count,
}
use kdb_distributed_controlp.Accounts.Endpoints.{
  UserCreateIn, UserUpdateIn, create_user, update_user, login,
}
use kdb_distributed_controlp.Accounts.Admins.{update_user_keeps_admin}
use kdb_distributed_controlp.Accounts.Emails.{
  IsUnique, creates, updates, founds, serve_accounts, serve_accounts-IsUnique,
}
use kdb_distributed_controlp.Accounts.Sessions.{token_of, create_user-login, deactivated-login}

abbrev plain : Passwords
plain = record { hash_password = λ s. s; verify_password = str_eq }

abbrev ann : User
ann = record {
  id = 1;
  tenant_id = some 7;
  email = "ann@acme.com";
  password_hash = "correct horse";
  role = tenant_admin;
  active = true;
  can_trade = true;
}

abbrev bob : User
bob = record ann { id = 2; email = "bob@acme.com" }

abbrev acme : AccountsDb
acme = record { tenants = []; users = ann ∷ bob ∷ []; next_tenant = 8; next_user = 3; events = [] }

abbrev by_ann : CurrentUser
by_ann = record { user_id = 1; email = "ann@acme.com"; role = tenant_admin; tenant_id = some 7 }

abbrev operator : CurrentUser
operator = record { user_id = 9; email = "op@saas.com"; role = platform_admin; tenant_id = none }

abbrev demote : UserUpdateIn
demote = record { role = some quant_analyst; can_trade = none; active = none; password = none }

abbrev switch_off : UserUpdateIn
switch_off = record { role = none; can_trade = none; active = some false; password = none }

abbrev new_quant : UserCreateIn
new_quant = record {
  email = "cy@acme.com";
  password = "battery staple";
  role = quant_analyst;
  can_trade = none;
}

update_user_keeps_admin_example :
    0 < remaining_admin_count 7 none (update_user plain 2 demote by_ann acme).1.users
unfolding find_user remaining_admin_count
update_user_keeps_admin_example =
    update_user_keeps_admin plain 2 demote by_ann 7 7 ann acme refl refl refl (omega arith)

serve_accounts-IsUnique_example :
    IsUnique
      (serve_accounts plain
        (creates new_quant by_ann
          ∷ updates 2 switch_off by_ann
          ∷ founds "Beta Bank" "ann@acme.com" "password" "trial" operator
          ∷ [])
        acme).users
serve_accounts-IsUnique_example =
    serve_accounts-IsUnique plain
      (creates new_quant by_ann
        ∷ updates 2 switch_off by_ann
        ∷ founds "Beta Bank" "ann@acme.com" "password" "trial" operator
        ∷ [])
      acme (record { unique = refl })

abbrev cy : User
cy = record {
  id = 3;
  tenant_id = some 7;
  email = "cy@acme.com";
  password_hash = "battery staple";
  role = quant_analyst;
  active = true;
  can_trade = false;
}

create_user-login_example :
    ((login plain "cy@acme.com" "battery staple" (create_user plain new_quant by_ann acme).1).0
      ≡ ok (token_of plain cy))
    × (cy.email ≡ new_quant.email)
    × (cy.role ≡ new_quant.role)
    × (cy.tenant_id ≡ by_ann.tenant_id)
unfolding create_user admin_scope find_email ◌>>=◌ ◌>>◌
create_user-login_example = create_user-login plain new_quant by_ann acme cy refl refl

deactivated-login_example :
    (login plain "bob@acme.com" "correct horse" (update_user plain 2 switch_off by_ann acme).1).0
    ≡ err (http 401)
unfolding update_user admin_scope find_user put_user remaining_admin_count ◌>>=◌ ◌>>◌
deactivated-login_example =
    deactivated-login plain 2 switch_off by_ann acme (record bob { active = false }) "correct horse"
      (record { unique = refl }) refl refl
