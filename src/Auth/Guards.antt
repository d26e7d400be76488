-- ===== src/Auth/Guards.antt =====
-- How the guards of the routes relate.
use webui_hub.Prelude.{String, ◌≡◌, refl, true, List, [], ◌∷◌, elem, arith, eq_iff, map}
use webui_hub.Exec.{ok}
use webui_hub.Models.{User, TenantRole, role_in}
use webui_hub.Auth.{
  require_superadmin, require_tenant_access, require_tenant_admin, require_tenant_member,
  is_admin_role,
}

-- A role is found for the tenants that `tenant_ids` names.
role_in-tenant_ids :
    (t : String) (roles : List TenantRole)
    → is_admin_role (role_in t roles) ≡ true
    → elem t (map (λ r. r.tenant_id) roles) ≡ true
unfolding elem
role_in-tenant_ids t [] h = cc
role_in-tenant_ids t (r ∷ roles) h =
    ground (arith, role_in-tenant_ids t roles, eq_iff r.tenant_id t, eq_iff t r.tenant_id)

-- A superadmin passes as an admin of every tenant, and an admin of a tenant passes as its member.
pub guards_nested :
    (t : String) (user : User)
    → (require_superadmin user ≡ ok user → require_tenant_admin t user ≡ ok user)
      × (require_tenant_admin t user ≡ ok user → require_tenant_access t user ≡ ok user)
      × (require_tenant_access t user ≡ require_tenant_member t user)
unfolding require_superadmin require_tenant_admin require_tenant_access require_tenant_member
guards_nested t user = (ground arith, ground (arith, role_in-tenant_ids t user.tenant_roles), refl)
