-- ===== src/Overrides/Stored.antt =====
-- What a change of a simulation's flag leaves (`set_client_sim_override` of
-- app/routers/aggregate.py).
use webui_hub.Prelude.{
  String, ◌≡◌, refl, ap, sym, subst, ◌∙◌, Bool, false, some, ◌==◌, eq_refl, eq_iff, find-key,
  Bool-cases, inl, inr,
}
use webui_hub.Text.{strip}
use webui_hub.Disk.{Disk, FilePath, path_eq, tenants_path, open_file, open_file-write_ne}
use webui_hub.Exec.{ok, raised, attribute_error}
use webui_hub.Codec.{Codec}
use webui_hub.Crypto.{Fernet, JsonText}
use webui_hub.Models.{User, Tenant}
use webui_hub.Ini.{splitlines, split_from, modify_ini_content}
use webui_hub.Ini.Settings.{settings_from, settings, of_key, of_others}
use webui_hub.Ini.Names.{IsSection, IsKey}
use webui_hub.Ini.Modified.{AsAsked}
use webui_hub.Ini.Blank.{settings-blank}
use webui_hub.Ini.Content.{modify_ini_content_lem}
use webui_hub.Store.Tenants.{restore_missing, get_tenant, save_tenant, save_tenants, load_tenants}
use webui_hub.Store.Tenants.Purge.{open_file-restore_missing}
use webui_hub.Store.Tenants.Lifecycle.{get_tenant-save_tenant}
use webui_hub.SpokeRoutes.Fleet.{admin_of}
use webui_hub.Overrides.{
  GitHub, content_of, unless_blank, with_active, with_flag, github_token, set_client_sim_override,
  push_conf_overrides_to_spokes,
}

-- A text that is not stored, for it is blank, has no settings to lose.
settings-unless_blank :
    (t : String) → settings (splitlines (content_of (unless_blank t))) ≡ settings (splitlines t)
unfolding settings_from split_from
settings-unless_blank t = elim (Bool-cases (strip t == "")) [
  | inl e ↦ rw e (sym (settings-blank t ((eq_iff (strip t) "").0 e)))
  | inr e ↦ rw e refl
]

module _ ⦃tenants : Codec Tenant⦄ ⦃fernet : Fernet⦄ ⦃json : JsonText⦄ where
  abbrev pub flagged : String → String → Bool → Tenant → Tenant
  flagged hostname sim enabled t =
      with_flag hostname sim enabled (with_active hostname sim enabled t)

  -- An admin sets or removes a flag of a client, and the tenant has no token for GitHub.
  module _ (github : GitHub) (tenant_id hostname sim : String) (enabled : Bool) (user : User)
      (d : Disk) (t : Tenant) (admin : admin_of tenant_id user ≡ ok user)
      (found : get_tenant tenant_id (restore_missing d) ≡ some t)
      (no_token : github_token t.github_config_enc ≡ ok "") where
    run :
        set_client_sim_override github tenant_id hostname sim enabled user d
        ≡ (raised attribute_error, save_tenant (flagged hostname sim enabled t) (restore_missing d))
    unfolding set_client_sim_override push_conf_overrides_to_spokes
    run = rw (admin, found) (rw no_token refl)

    found_as : t.id ≡ tenant_id
    found_as =
        find-key (λ (x : Tenant). x.id) tenant_id (load_tenants (restore_missing d)) t
          (unfold get_tenant in found)

    tenant_after :
        get_tenant tenant_id (save_tenant (flagged hostname sim enabled t) (restore_missing d))
        ≡ some (flagged hostname sim enabled t)
    tenant_after =
        get_tenant-save_tenant (flagged hostname sim enabled t) tenant_id (restore_missing d)
        ∙ rw (found_as, eq_refl tenant_id) refl

    others_after :
        (p : FilePath)
        → path_eq tenants_path p ≡ false
        → open_file p (save_tenant (flagged hostname sim enabled t) (restore_missing d))
          ≡ open_file p d
    unfolding save_tenant save_tenants
    others_after p other =
        open_file-write_ne tenants_path p _ (restore_missing (restore_missing d)) other
        ∙ open_file-restore_missing p (restore_missing d) other
        ∙ open_file-restore_missing p d other

    -- An admin of a tenant without a token for GitHub sets or removes a simulation's flag of a client.
    -- The change is stored: the override of the tenant sets the flag in the client's section to
    -- nothing but "on", or not at all, and has the other settings that it had. But the route fails,
    -- and no other file than `tenants.json` has changed: no spoke is pushed to. The names of the
    -- client and the simulation are such as an INI text gives back.
    pub set_client_sim_override_lem :
        IsSection hostname
        → IsKey sim
        → let after = set_client_sim_override github tenant_id hostname sim enabled user d in
          let stored = flagged hostname sim enabled t in
          let says = λ (x : Tenant). settings (splitlines (content_of x.user_conf_override)) in
          (after.0 ≡ raised attribute_error)
          × (get_tenant tenant_id after.1 ≡ some stored)
          × AsAsked enabled (of_key hostname sim (says stored))
          × (of_others hostname sim (says stored) ≡ of_others hostname sim (says t))
          × ((p : FilePath) → path_eq tenants_path p ≡ false → open_file p after.1 ≡ open_file p d)
    set_client_sim_override_lem h k =
        let edited = modify_ini_content (content_of t.user_conf_override) hostname sim enabled in
        let (asked, others) =
          modify_ini_content_lem (content_of t.user_conf_override) hostname sim enabled h k in
        let same = settings-unless_blank edited in
        (
          ap (λ r. r.0) run,
          ap (λ r. get_tenant tenant_id r.1) run ∙ tenant_after,
          subst (λ ss. AsAsked enabled (of_key hostname sim ss)) (sym same) asked,
          ap (of_others hostname sim) same ∙ others,
          λ p other. ap (λ r. open_file p r.1) run ∙ others_after p other,
        )
