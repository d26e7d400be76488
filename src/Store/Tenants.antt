-- ===== src/Store/Tenants.antt =====
-- Tenants (app/store.py, lines 276 to 426).
pub mod Lifecycle
pub mod Purge
use webui_hub.Prelude.{
  ℕ, String, ◌≡◌, Bool, true, false, not, ◌&&◌, ◌||◌, Option, none, some, List, [], ◌∷◌, ◌++◌, ◌==◌,
  ◌+◌, ◌*◌, if◌then◌else◌, keep, find, update_first, any, map, ltb,
}
use webui_hub.Text.{lower}
use webui_hub.Json.{Json, Dict}
use webui_hub.Disk.{
  Disk, FilePath, Content, rows, tenants_path, tenants_bak_path, read_rows, write_json, exists,
  open_file,
}
use webui_hub.Codec.{Codec, validate_each, dump_all}
use webui_hub.Models.{Tenant, day}

-- `shutil.copy2(bak_path, tenants_path)` where `tenants.json` is gone and a backup is there.
abbrev copy_backup : Option Content → Disk → Disk
copy_backup none d = d
copy_backup (some c) d = write_json tenants_path c d

unfoldable pub restore_missing : Disk → Disk
restore_missing d =
    if exists tenants_path d then d else copy_backup (open_file tenants_bak_path d) d

-- `shutil.rmtree(tenant_dir)`
unfoldable pub remove_tree : String → Disk → Disk
remove_tree tenant_id [] = []
remove_tree tenant_id ((p, c) ∷ d) =
    let rest = remove_tree tenant_id d in if p.tenant == tenant_id then rest else (p, c) ∷ rest

unfoldable pub remove_trees : List String → Disk → Disk
remove_trees [] d = d
remove_trees (id ∷ ids) d = remove_trees ids (remove_tree id d)

-- `tenant.deleted_at and tenant.deleted_at < now - timedelta(days=days)`
abbrev pub is_old : ℕ → ℕ → Tenant → Bool
is_old now days t = elim t.deleted_at [ none ↦ false | some at ↦ ltb (at + days * day) now ]

abbrev pub is_deleted : Tenant → Bool
is_deleted t = elim t.deleted_at [ none ↦ false | some _ ↦ true ]

module _ ⦃tenants : Codec Tenant⦄ where
  -- `_load_tenants` returns these tenants and leaves the files as `restore_missing` does.
  unfoldable pub load_tenants : Disk → List Tenant
  load_tenants d = validate_each (read_rows tenants_path (restore_missing d))

  unfoldable pub save_tenants : List Tenant → Disk → Disk
  save_tenants ts = write_json tenants_path (rows (dump_all ts))

  unfoldable pub get_tenant : String → Disk → Option Tenant
  get_tenant tenant_id d = find (λ t. t.id == tenant_id) (load_tenants d)

  abbrev first_of_two : Option Tenant → Option Tenant → Option Tenant
  first_of_two none b = b
  first_of_two (some t) b = some t

  unfoldable pub get_tenant_by_hint : String → Disk → Option Tenant
  get_tenant_by_hint hint d =
      if hint == ""
      then none
      else first_of_two (find (λ t. lower t.id == lower hint) (load_tenants d))
          (find (λ t. lower t.name == lower hint) (load_tenants d))

  unfoldable pub list_tenants : Bool → Disk → List Tenant
  list_tenants include_deleted d =
      if include_deleted then load_tenants d else keep (λ t. not (is_deleted t)) (load_tenants d)

  unfoldable pub save_tenant : Tenant → Disk → Disk
  save_tenant tenant d =
      save_tenants (keep (λ t. not (t.id == tenant.id)) (load_tenants d) ++ tenant ∷ [])
        (restore_missing d)

  unfoldable pub delete_tenant : ℕ → String → Disk → Disk
  delete_tenant now tenant_id d =
      save_tenants
        (update_first (λ t. t.id == tenant_id) (λ t. record t { deleted_at = some now })
          (load_tenants d))
        (restore_missing d)

  unfoldable pub restore_tenant : String → Disk → Bool × Disk
  restore_tenant tenant_id d =
      let restorable = λ (t : Tenant). (t.id == tenant_id) && is_deleted t in
      if any restorable (load_tenants d)
      then (
        true,
        save_tenants
            (update_first restorable (λ t. record t { deleted_at = none }) (load_tenants d))
            (restore_missing d),
      )
      else (false, restore_missing d)

  -- The directories go first, then the file is written, if any tenant was purged.
  abbrev pub purge : List Tenant → List Tenant → Disk → List String × Disk
  purge [] remaining d = ([], d)
  purge (t ∷ ts) remaining d =
      let ids = map (λ (x : Tenant). x.id) (t ∷ ts) in
      (ids, save_tenants remaining (remove_trees ids d))

  unfoldable pub purge_old_deleted_tenants : ℕ → ℕ → Disk → List String × Disk
  purge_old_deleted_tenants now days d =
      purge (keep (is_old now days) (load_tenants d))
        (keep (λ t. not (is_old now days t)) (load_tenants d)) (restore_missing d)
