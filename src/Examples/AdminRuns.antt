-- ===== src/Examples/AdminRuns.antt =====
-- Runs of the superadmin's routes and of the onboarding keys.
use webui_hub.Prelude.{
  String, ◌≡◌, refl, some, none, [], ◌∷◌, ◌==◌, true, false, if◌then◌else◌, elem,
}
use webui_hub.Text.{strip, lstrip, rstrip, is_space}
use webui_hub.Disk.{
  Disk, users_path, tenants_path, path_eq-kind, read_rows-same, open_file-write_ne,
}
use webui_hub.Exec.{ok}
use webui_hub.Models.{User, Tenant, get_role}
use webui_hub.Auth.{require_superadmin, require_tenant_access}
use webui_hub.Store.Users.{load_users, get_user_by_id}
use webui_hub.Store.Users.Bootstrap.{load_users-save_users}
use webui_hub.Store.Tenants.{get_tenant, save_tenants}
use webui_hub.Store.Tenants.Lifecycle.{load_tenants-save_tenants}
use webui_hub.SpokeRoutes.Fleet.{admin_of}
use webui_hub.SpokeRoutes.Registration.Pending.{is_psk}
use webui_hub.AdminRoutes.{normalized_role, assign_tenant_role}
use webui_hub.AdminRoutes.Assigned.{or_new, assign_tenant_role_lem}
use webui_hub.AdminRoutes.Keys.{revoke_onboarding_psk}
use webui_hub.AdminRoutes.Revoked.{is_stored_once, revoke_onboarding_psk_lem}
use webui_hub.Examples.Rows.{user_codec}
use webui_hub.Examples.TenantRows.{tenant_codec}
use webui_hub.Examples.Outside.{open_fernet}
use webui_hub.Examples.Data.{acme, alice, root, user_disk}

abbrev admin_disk : Disk
admin_disk = save_tenants (acme ∷ []) user_disk

acme_is_there : get_tenant "acme" admin_disk ≡ some acme
unfolding get_tenant
acme_is_there = rw load_tenants-save_tenants refl

alice_loaded : get_user_by_id "u1" user_disk ≡ some alice
unfolding get_user_by_id
alice_loaded = rw load_users-save_users refl

alice_there : get_user_by_id "u1" admin_disk ≡ some alice
unfolding get_user_by_id load_users save_tenants
alice_there =
    rw
      (read_rows-same users_path admin_disk user_disk (
        open_file-write_ne tenants_path users_path _ user_disk
          (path_eq-kind tenants_path users_path refl)))
      alice_loaded

root_superadmin : require_superadmin root ≡ ok root
unfolding require_superadmin
root_superadmin = refl

assign_tenant_role_lem_example :
    let after = assign_tenant_role "u1" "acme" "operator" root admin_disk in
    (assigned : User) × (after.0 ≡ ok assigned)
    × (get_user_by_id "u1" after.1 ≡ some assigned)
    × ((s : String)
        → get_role assigned s
          ≡ or_new
              (get_role alice s)
              (if "acme" == s then some (normalized_role "operator") else none))
assign_tenant_role_lem_example =
    assign_tenant_role_lem "u1" "acme" "operator" root admin_disk alice acme root_superadmin
      alice_there acme_is_there

-- A tenant with a key of an older record and a key of the list.
abbrev keyed : Tenant
keyed = record acme { onboarding_psk_enc = "k0"; onboarding_psks_enc = "k1" ∷ [] }

abbrev keyed_disk : Disk
keyed_disk = save_tenants (keyed ∷ []) []

keyed_there : get_tenant "acme" keyed_disk ≡ some keyed
unfolding get_tenant
keyed_there = rw load_tenants-save_tenants refl

alice_may : admin_of "acme" alice ≡ ok alice
unfolding admin_of require_tenant_access get_role elem
alice_may = refl

k1_named : (strip " k1" == "") ≡ false
unfolding strip lstrip rstrip is_space
k1_named = refl

stored_once : is_stored_once keyed ≡ true
unfolding elem
stored_once = refl

revoke_onboarding_psk_lem_example :
    (left : Tenant) × (get_tenant "acme" (revoke_onboarding_psk " k1" "acme" alice keyed_disk).1
      ≡ some left)
    × ((p : String) → is_psk p left ≡ (if strip " k1" == p then false else is_psk p keyed))
revoke_onboarding_psk_lem_example =
    revoke_onboarding_psk_lem " k1" "acme" alice keyed_disk keyed alice_may keyed_there k1_named
      stored_once
