-- ===== src/AdminRoutes/Assigned.antt =====
-- What the assignment of a role leaves (`assign_tenant_role` of app/routers/superadmin.py).
use webui_hub.Prelude.{
  String, ◌≡◌, refl, ap, ◌∙◌, Option, none, some, List, [], ◌∷◌, ◌++◌, ◌==◌, if◌then◌else◌, eq_refl,
  find-key, Bool-cases, inl, inr,
}
use webui_hub.Disk.{Disk, users_path, tenants_path, path_eq-kind, read_rows-same}
use webui_hub.Exec.{ok}
use webui_hub.Codec.{Codec}
use webui_hub.Models.{User, Tenant, TenantRole, role_in, get_role}
use webui_hub.Auth.{require_superadmin}
use webui_hub.Store.Users.{load_users, get_user_by_id, save_user}
use webui_hub.Store.Users.Bootstrap.{get_user_by_id-save_user}
use webui_hub.Store.Tenants.{restore_missing, get_tenant}
use webui_hub.Store.Tenants.Purge.{get_tenant-restore_missing, open_file-restore_missing}
use webui_hub.AdminRoutes.{normalized_role, with_role, assign_tenant_role}

abbrev pub or_new : Option String → Option String → Option String
or_new none role = role
or_new (some old) role = some old

role_in-appended :
    (t : String) (trs : List TenantRole) (tr : TenantRole)
    → role_in t (trs ++ tr ∷ [])
      ≡ or_new (role_in t trs) (if tr.tenant_id == t then some tr.role else none)
role_in-appended t [] tr = refl
role_in-appended t (x ∷ trs) tr = elim (Bool-cases (x.tenant_id == t)) [
  | inl e ↦ rw e refl
  | inr e ↦ rw e (role_in-appended t trs tr)
]

get_role-with_role :
    (t role s : String) (u : User)
    → get_role (with_role t role u) s
      ≡ or_new (get_role u s) (if t == s then some (normalized_role role) else none)
unfolding get_role
get_role-with_role t role s u = role_in-appended s u.tenant_roles _

module _ ⦃users : Codec User⦄ where
  get_user_by_id-restore_missing :
      (i : String) (d : Disk) → get_user_by_id i (restore_missing d) ≡ get_user_by_id i d
  unfolding get_user_by_id load_users
  get_user_by_id-restore_missing i d =
      rw
        (read_rows-same users_path (restore_missing d) d
          (open_file-restore_missing users_path d (path_eq-kind tenants_path users_path refl)))
        refl

  module _ ⦃tenants : Codec Tenant⦄ where
    -- A superadmin assigns a role in a tenant to a user, and both are there. The user that is answered
    -- is the one that is stored. Its roles are those of before, but that it has the new role, in the
    -- tenant, if it had none there: the role that it had in the tenant is not replaced.
    pub assign_tenant_role_lem :
        (user_id tenant_id role : String) (admin : User) (d : Disk) (u : User) (t : Tenant)
        → require_superadmin admin ≡ ok admin
        → get_user_by_id user_id d ≡ some u
        → get_tenant tenant_id d ≡ some t
        → let after = assign_tenant_role user_id tenant_id role admin d in
          (assigned : User) × (after.0 ≡ ok assigned)
          × (get_user_by_id user_id after.1 ≡ some assigned)
          × ((s : String)
              → get_role assigned s
                ≡ or_new
                    (get_role u s)
                    (if tenant_id == s then some (normalized_role role) else none))
    assign_tenant_role_lem user_id tenant_id role admin d u t allowed found there = (
      with_role tenant_id role u,
      ap (λ r. r.0) run,
      ap (λ r. get_user_by_id user_id r.1) run ∙ stored,
      λ s. get_role-with_role tenant_id role s u,
    )
      where
        here : get_tenant tenant_id (restore_missing d) ≡ some t
        here = get_tenant-restore_missing tenant_id d ∙ there

        run : assign_tenant_role user_id tenant_id role admin d ≡ (
          ok (with_role tenant_id role u),
          save_user (with_role tenant_id role u) (restore_missing d),
        )
        run = unfold assign_tenant_role in rw (allowed, found, here) refl

        named : u.id ≡ user_id
        named =
            find-key (λ (x : User). x.id) user_id (load_users d) u (unfold get_user_by_id in found)

        chosen :
            (if u.id == user_id
              then some (with_role tenant_id role u)
              else get_user_by_id user_id (restore_missing d))
            ≡ some (with_role tenant_id role u)
        chosen = rw (named, eq_refl user_id) refl

        stored :
            get_user_by_id user_id (save_user (with_role tenant_id role u) (restore_missing d))
            ≡ some (with_role tenant_id role u)
        stored =
            get_user_by_id-save_user (with_role tenant_id role u) user_id (restore_missing d)
            ∙ chosen
