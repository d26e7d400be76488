-- ===== src/AdminRoutes.antt =====
-- The superadmin's routes of users and deleted tenants (app/routers/superadmin.py, lines 343 to
-- 369 and 970 to 1035).
pub mod Assigned
pub mod Keys
pub mod Revoked
use webui_hub.Prelude.{
  ℕ, String, Bool, true, false, not, Option, none, some, List, [], ◌∷◌, ◌++◌, ◌==◌, if◌then◌else◌,
  keep, any,
}
use webui_hub.Disk.{Disk}
use webui_hub.Exec.{
  Exec, Result, ok, raised, http_error, return, raise, reading, look, write, ◌>>=◌, ◌>>◌,
}
use webui_hub.Codec.{Codec}
use webui_hub.Models.{User, Tenant, TenantRole, get_role}
use webui_hub.Auth.{Passwords, hash_password, require_superadmin}
use webui_hub.Store.Users.{load_users, get_user, get_user_by_id, save_user, delete_user}
use webui_hub.Store.Tenants.{
  get_tenant, restore_missing, list_tenants, delete_tenant, restore_tenant, is_deleted,
}
use webui_hub.Overrides.{found_tenant}

abbrev is_some : Option User → Bool
is_some none = false
is_some (some u) = true

abbrev pub found_user : Option User → Result User
found_user none = raised (http_error 404)
found_user (some u) = ok u

-- What a role is stored as.
abbrev pub normalized_role : String → String
normalized_role role = if role == "operator" then "viewer" else role

abbrev pub with_role : String → String → User → User
with_role tenant_id role u = record u {
  tenant_roles =
      u.tenant_roles ++ record { tenant_id = tenant_id; role = normalized_role role } ∷ [];
}

abbrev has_role_in : String → User → Bool
has_role_in tenant_id u = any (λ tr. tr.tenant_id == tenant_id) u.tenant_roles

abbrev without_role : String → User → User
without_role tenant_id u = record u {
  tenant_roles = keep (λ tr. not (tr.tenant_id == tenant_id)) u.tenant_roles;
}

module _ ⦃users : Codec User⦄ where
  unfoldable pub list_users : User → Exec (List User)
  list_users admin = do u ← reading (λ d. require_superadmin admin); look load_users

  -- The user's id and its instant are drawn.
  unfoldable pub create_user :
      ⦃passwords : Passwords⦄ → String → ℕ → String → String → User → Exec User
  create_user id now username password admin = do
    u ← reading (λ d. require_superadmin admin)
    taken ← look (λ d. is_some (get_user username d))
    if taken then raise (http_error 409) else do
      let created : User = record {
        id = id;
        username = username;
        hashed_password = hash_password password;
        is_superadmin = false;
        tenant_roles = [];
        created_at = now;
      }
      write (save_user created)
      return created

  unfoldable pub delete_user_route : String → User → Exec (Unit {0})
  delete_user_route user_id admin = do
    u ← reading (λ d. require_superadmin admin)
    found ← reading (λ d. found_user (get_user_by_id user_id d))
    write (delete_user user_id)

  unfoldable pub assign_tenant_role :
      ⦃tenants : Codec Tenant⦄ → String → String → String → User → Exec User
  assign_tenant_role user_id tenant_id role admin = do
    u ← reading (λ d. require_superadmin admin)
    found ← reading (λ d. found_user (get_user_by_id user_id d))
    write restore_missing
    tenant ← reading (λ d. found_tenant (get_tenant tenant_id d))
    write (save_user (with_role tenant_id role found))
    return (with_role tenant_id role found)

  unfoldable pub remove_tenant_role : String → String → User → Exec User
  remove_tenant_role user_id tenant_id admin = do
    u ← reading (λ d. require_superadmin admin)
    found ← reading (λ d. found_user (get_user_by_id user_id d))
    if has_role_in tenant_id found
        then (do
          write (save_user (without_role tenant_id found))
          return (without_role tenant_id found))
        else raise (http_error 404)

module _ ⦃tenants : Codec Tenant⦄ where
  unfoldable pub delete_tenant_route : ℕ → String → User → Exec (Unit {0})
  delete_tenant_route now tenant_id admin = do
    u ← reading (λ d. require_superadmin admin)
    write restore_missing
    t ← reading (λ d. found_tenant (get_tenant tenant_id d))
    if is_deleted t then raise (http_error 400) else write (delete_tenant now tenant_id)

  abbrev restored_or_404 : Bool × Disk → Result (Unit {0}) × Disk
  restored_or_404 (true, d) = (ok tt, d)
  restored_or_404 (false, d) = (raised (http_error 404), d)

  unfoldable pub restore_tenant_route : String → User → Exec (Unit {0})
  restore_tenant_route tenant_id admin = do
    u ← reading (λ d. require_superadmin admin)
    (λ d. restored_or_404 (restore_tenant tenant_id d))

  unfoldable pub get_deleted_tenants : User → Exec (List Tenant)
  get_deleted_tenants admin = do
    u ← reading (λ d. require_superadmin admin)
    write restore_missing
    look (λ d. keep is_deleted (list_tenants true d))
