-- ===== src/Accounts.antt =====
-- Accounts: the tenants and their users (control-api/app/routers/users.py and tenants.py, the guards and
-- the login of auth.py). `hash_password` and `verify_password` (bcrypt) are parameters.
pub mod Store
pub mod Endpoints
pub mod Emails
pub mod Admins
pub mod Sessions
mod Tests
