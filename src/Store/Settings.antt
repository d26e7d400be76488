-- ===== src/Store/Settings.antt =====
-- Settings of a tenant and of the platform (app/store.py, lines 349 to 358, 800 to 812 and 852 to
-- 975), and the counts of processing modes (lines 1340 to 1354).
use webui_hub.Prelude.{
  ℕ, String, Option, none, some, List, [], ◌∷◌, ◌==◌, ◌+◌, if◌then◌else◌, update_first, keep,
  length,
}
use webui_hub.Json.{Json, Dict, arr, get, put}
use webui_hub.Disk.{Disk, table, global_config_path, read_table, write_json}
use webui_hub.Codec.{Codec}
use webui_hub.Models.{Tenant, Spoke, resolve}
use webui_hub.Store.Tenants.{get_tenant, save_tenant, load_tenants, save_tenants, restore_missing}
use webui_hub.Store.Spokes.{load_spokes, is_approved}
use webui_hub.Store.Spokes.Format.{SpokeFormat, Instants}
use webui_hub.Store.Usb.{
  dicts_of, items_of, get_global_usb_vidpids, tenant_usb_vidpids, effective_usb_vidpids_from,
}

unfoldable pub get_global_usb_ignored_vidpids : Disk → List (Dict Json)
get_global_usb_ignored_vidpids d =
    dicts_of (get "usb_ignored_vidpids" (read_table global_config_path d))

unfoldable pub set_global_usb_ignored_vidpids : List (Dict Json) → Disk → Disk
set_global_usb_ignored_vidpids devices d =
    write_json global_config_path
      (table (put "usb_ignored_vidpids" (arr (items_of devices)) (read_table global_config_path d)))
      d

module _ ⦃tenants : Codec Tenant⦄ where
  abbrev sites_of : Option Tenant → Dict Json
  sites_of none = []
  sites_of (some t) = t.central_sites_config

  unfoldable pub get_tenant_central_sites_config : String → Disk → Dict Json
  get_tenant_central_sites_config tenant_id d = sites_of (get_tenant tenant_id d)

  abbrev set_sites : Dict Json → Option Tenant → Disk → Disk
  set_sites config none d = d
  set_sites config (some t) d = save_tenant (record t { central_sites_config = config }) d

  unfoldable pub set_tenant_central_sites_config : String → Dict Json → Disk → Disk
  set_tenant_central_sites_config tenant_id config d =
      set_sites config (get_tenant tenant_id d) (restore_missing d)

  unfoldable pub get_tenant_usb_vidpids : String → Disk → List (Dict Json)
  get_tenant_usb_vidpids tenant_id d = tenant_usb_vidpids (get_tenant tenant_id d)

  unfoldable pub get_effective_usb_vidpids : String → Disk → List (Dict Json)
  get_effective_usb_vidpids tenant_id d =
      effective_usb_vidpids_from (get_global_usb_vidpids d) (get_tenant tenant_id d)

  abbrev with_usb : List (Dict Json) → Tenant → Tenant
  with_usb devices t = record t {
    usb_vidpids = devices;
    hub_config = put "usb_vidpids" (arr (items_of devices)) t.hub_config;
  }

  abbrev set_usb : List (Dict Json) → String → Option Tenant → Disk → Option Tenant × Disk
  set_usb devices tenant_id none d = (none, d)
  set_usb devices tenant_id (some t) d = (
    some (with_usb devices t),
    save_tenants (update_first (λ x. x.id == tenant_id) (with_usb devices) (load_tenants d)) d,
  )

  unfoldable pub set_tenant_usb_vidpids : String → List (Dict Json) → Disk → Option Tenant × Disk
  set_tenant_usb_vidpids tenant_id usb_vidpids d =
      set_usb usb_vidpids tenant_id (get_tenant tenant_id d) (restore_missing d)

-- The counts of the two modes of a feature. `none`: a `KeyError`, on a mode of another name.
abbrev count_mode : String → Option (ℕ × ℕ) → Option (ℕ × ℕ)
count_mode mode none = none
count_mode mode (some (c, d)) =
    if mode == "centralized"
    then some (c + 1, d)
    else if mode == "distributed"
    then some (c, d + 1)
    else none

unfoldable pub count_modes : String → List Spoke → Option (ℕ × ℕ)
count_modes feature [] = some (0, 0)
count_modes feature (s ∷ spokes) =
    count_mode (resolve s.processing_mode feature) (count_modes feature spokes)

abbrev pub features : List String
features =
    "aruba_polling" ∷ "teams_webhook" ∷ "email" ∷ "heartbeat" ∷ "gkill" ∷ "schedules" ∷ "repo_sync"
    ∷ []

abbrev add_feature : String → Option (ℕ × ℕ) → Option (Dict (ℕ × ℕ)) → Option (Dict (ℕ × ℕ))
add_feature feature (some counts) (some rest) = some ((feature, counts) ∷ rest)
add_feature feature _ _ = none

unfoldable pub by_feature : List String → List Spoke → Option (Dict (ℕ × ℕ))
by_feature [] spokes = some []
by_feature (f ∷ fs) spokes = add_feature f (count_modes f spokes) (by_feature fs spokes)

module _ ⦃format : SpokeFormat⦄ ⦃times : Instants⦄ where
  -- `total_spokes` and `by_feature`
  unfoldable pub get_processing_stats : String → Disk → ℕ × Option (Dict (ℕ × ℕ))
  get_processing_stats tenant_id d =
      let approved = keep is_approved (load_spokes tenant_id d) in
      (length approved, by_feature features approved)
