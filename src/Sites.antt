-- ===== src/Sites.antt =====
-- The routes by which users see and edit the spokes of a tenant (app/routers/sites.py).
use webui_hub.Prelude.{String, false, not, some, List, [], ◌∷◌, ◌++◌, ◌==◌, ◌+◌, keep, map}
use webui_hub.Text.{strip}
use webui_hub.Json.{Json, Dict}
use webui_hub.Disk.{Disk}
use webui_hub.Exec.{Exec, return, reading, look, write, ◌>>=◌, ◌>>◌}
use webui_hub.Codec.{Codec}
use webui_hub.Models.{User, Tenant, Spoke}
use webui_hub.Auth.{require_tenant_access}
use webui_hub.Store.Tenants.{list_tenants, restore_missing}
use webui_hub.Store.Spokes.{
  load_spokes, get_spoke, save_spoke, revoke_spoke, delete_spoke, is_approved,
}
use webui_hub.Store.Spokes.Format.{SpokeFormat, Instants}
use webui_hub.CommandRoutes.{approved_or_raise}
use webui_hub.SpokeRoutes.Fleet.{admin_of, found_spoke}

abbrev first_site : List String → String
first_site [] = ""
first_site (site ∷ sites) = site

-- The sites that are given, stripped; the legacy field is the first of them.
abbrev pub assigned : List String → Spoke → Spoke
assigned sites s =
    let named = map strip (keep (λ x. not (strip x == "")) sites) in
    record s { assigned_sites = named; assigned_site = first_site named }

module _ ⦃format : SpokeFormat⦄ ⦃times : Instants⦄ where
  unfoldable pub approved_of : List Tenant → Disk → List Spoke
  approved_of [] d = []
  approved_of (t ∷ ts) d = keep is_approved (load_spokes t.id d) ++ approved_of ts d

  -- There is no guard. Of each spoke, eight fields are shown.
  unfoldable pub list_sites_legacy : ⦃tenants : Codec Tenant⦄ → Exec (List Spoke)
  list_sites_legacy = do write restore_missing; look (λ d. approved_of (list_tenants false d) d)

  unfoldable pub list_tenant_spokes : String → User → Exec (List Spoke)
  list_tenant_spokes tenant_id user = do
    u ← reading (λ d. require_tenant_access tenant_id user)
    look (load_spokes tenant_id)

  unfoldable pub get_spoke_detail : String → String → User → Exec Spoke
  get_spoke_detail tenant_id spoke_id user = do
    u ← reading (λ d. require_tenant_access tenant_id user)
    reading (λ d. found_spoke (get_spoke tenant_id spoke_id d))

  -- The checks of the routes that change a spoke.
  abbrev pub editable : String → String → User → Exec Spoke
  editable tenant_id spoke_id user = do
    u ← reading (λ d. admin_of tenant_id user)
    reading (λ d. found_spoke (get_spoke tenant_id spoke_id d))

  unfoldable pub revoke_spoke_route : String → String → User → Exec (Unit {0})
  revoke_spoke_route tenant_id spoke_id user = do
    s ← editable tenant_id spoke_id user
    write (revoke_spoke tenant_id spoke_id)

  unfoldable pub delete_tenant_spoke : String → String → User → Exec (Unit {0})
  delete_tenant_spoke tenant_id spoke_id user = do
    s ← editable tenant_id spoke_id user
    write (delete_spoke tenant_id spoke_id)

  abbrev save_edited : Spoke → Exec Spoke
  save_edited s = do write (save_spoke s); return s

  unfoldable pub update_spoke_config : String → String → Dict Json → User → Exec Spoke
  update_spoke_config tenant_id spoke_id config user = do
    u ← reading (λ d. admin_of tenant_id user)
    found ← reading (λ d. found_spoke (get_spoke tenant_id spoke_id d))
    s ← reading (λ d. approved_or_raise (some found))
    save_edited (record s { config = config; config_version = s.config_version + 1 })

  unfoldable pub update_spoke_label : String → String → String → User → Exec Spoke
  update_spoke_label tenant_id spoke_id label user = do
    s ← editable tenant_id spoke_id user
    save_edited (record s { label = label })

  unfoldable pub update_spoke_assigned_site : String → String → List String → User → Exec Spoke
  update_spoke_assigned_site tenant_id spoke_id sites user = do
    s ← editable tenant_id spoke_id user
    save_edited (assigned sites s)
