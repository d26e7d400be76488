-- ===== src/Store/Tenants/Purge.antt =====
-- What a purge of the tenants that were deleted long ago removes and keeps.
use webui_hub.Prelude.{
  ℕ, String, ◌≡◌, refl, subst, sym, ap, ◌∙◌, Bool, false, not, Option, none, some, List, [], ◌∷◌,
  ◌==◌, if◌then◌else◌, keep, arith, eq_iff, Bool-cases, inl, inr, map, elem,
}
use webui_hub.Disk.{
  Disk, tenants_path, tenants_bak_path, read_rows, exists, path_eq_refl, open_file,
  open_file-write_json, path_eq, open_file-write_ne, FilePath, Content, rows_of,
}
use webui_hub.Json.{Json}
use webui_hub.Codec.{Codec}
use webui_hub.Models.{Tenant}
use webui_hub.Store.Tenants.{
  restore_missing, load_tenants, save_tenants, get_tenant, purge, remove_tree, remove_trees,
  purge_old_deleted_tenants, is_old, copy_backup,
}
use webui_hub.Store.Tenants.Lifecycle.{load_tenants-save_tenants}

restore_missing-copy_backup :
    (o : Option Content) (d : Disk)
    → exists tenants_path d ≡ false
    → open_file tenants_bak_path d ≡ o
    → restore_missing (copy_backup o d) ≡ copy_backup o d
unfolding restore_missing
restore_missing-copy_backup none d e h = rw (e, h)
restore_missing-copy_backup (some c) d e h =
    unfold exists in rw (open_file-write_json, path_eq_refl)

pub restore_missing_idem : (d : Disk) → restore_missing (restore_missing d) ≡ restore_missing d
restore_missing_idem d = elim (Bool-cases (exists tenants_path d)) [
  | inl e ↦ unfold restore_missing in rw (e, e)
  | inr e ↦
      subst (λ r. restore_missing r ≡ r) {x = copy_backup (open_file tenants_bak_path d) d}
        (unfold restore_missing in rw e)
        (restore_missing-copy_backup (open_file tenants_bak_path d) d e refl)
]

open_file-remove_tree :
    (i : String) (p : FilePath) (d : Disk)
    → open_file p (remove_tree i d) ≡ (if p.tenant == i then none else open_file p d)
unfolding open_file remove_tree path_eq
open_file-remove_tree i p [] = ground arith
open_file-remove_tree i p ((q, c) ∷ d) = ground (
  arith,
  eq_iff q.tenant p.tenant,
  eq_iff q.tenant i,
  eq_iff p.tenant i,
  open_file-remove_tree i p d,
)

open_file-remove_trees :
    (ids : List String) (p : FilePath) (d : Disk)
    → open_file p (remove_trees ids d) ≡ (if elem p.tenant ids then none else open_file p d)
unfolding remove_trees elem
open_file-remove_trees [] p d = refl
open_file-remove_trees (i ∷ ids) p d =
    open_file-remove_trees ids p (remove_tree i d) ∙ rw open_file-remove_tree (ground arith)

keep_none :
    {A : Type 0} (test : A → Bool) (xs : List A)
    → keep test xs ≡ []
    → keep (λ x. not (test x)) xs ≡ xs
keep_none test [] h = refl
keep_none test (x ∷ xs) h = ground (arith, h, keep_none test xs)

-- The rows that a load of the tenants reads, from what the file and its backup hold.
abbrev tenant_rows : Option Content → Option Content → List Json
tenant_rows (some c) bak = rows_of (some c)
tenant_rows none bak = rows_of bak

rows-restore_missing :
    (d : Disk)
    → read_rows tenants_path (restore_missing d)
      ≡ tenant_rows (open_file tenants_path d) (open_file tenants_bak_path d)
rows-restore_missing d = go (open_file tenants_path d) refl (open_file tenants_bak_path d) refl
  where
    go :
        (o : Option Content)
        → open_file tenants_path d ≡ o
        → (b : Option Content) → open_file tenants_bak_path d ≡ b
        → read_rows tenants_path (restore_missing d) ≡ tenant_rows o b
    go (some c) e b f = unfold restore_missing exists read_rows in rw e (rw e)
    go none e none f = unfold restore_missing exists read_rows in rw (e, f) (rw e)
    go none e (some c) f =
        unfold restore_missing exists read_rows in
        rw (e, f) (rw (open_file-write_json, path_eq_refl))

-- No read but of `tenants.json` sees the restored backup.
pub open_file-restore_missing :
    (p : FilePath) (d : Disk)
    → path_eq tenants_path p ≡ false
    → open_file p (restore_missing d) ≡ open_file p d
unfolding restore_missing
open_file-restore_missing p d other = elim (Bool-cases (exists tenants_path d)) [
  | inl e ↦ rw e
  | inr e ↦ rw e (copied (open_file tenants_bak_path d))
]
  where
    copied : (o : Option Content) → open_file p (copy_backup o d) ≡ open_file p d
    copied none = refl
    copied (some c) = open_file-write_ne tenants_path p c d other

module _ ⦃tenants : Codec Tenant⦄ where
  pub get_tenant-same :
      (t : String) (d e : Disk)
      → open_file tenants_path d ≡ open_file tenants_path e
      → open_file tenants_bak_path d ≡ open_file tenants_bak_path e
      → get_tenant t d ≡ get_tenant t e
  unfolding get_tenant load_tenants
  get_tenant-same t d e a b = rw (rows-restore_missing d, rows-restore_missing e, a, b)

  pub load_tenants-restore_missing : (d : Disk) → load_tenants (restore_missing d) ≡ load_tenants d
  unfolding load_tenants
  load_tenants-restore_missing d = rw restore_missing_idem

  pub get_tenant-restore_missing :
      (t : String) (d : Disk) → get_tenant t (restore_missing d) ≡ get_tenant t d
  unfolding get_tenant
  get_tenant-restore_missing t d = rw load_tenants-restore_missing

  purge_lem :
      (old ts remaining : List Tenant) (d : Disk)
      → load_tenants d ≡ ts
      → (old ≡ [] → remaining ≡ ts)
      → ((purge old remaining d).0 ≡ map (λ t. t.id) old)
        × (load_tenants (purge old remaining d).1 ≡ remaining)
  purge_lem [] ts remaining d e h = (refl, e ∙ sym (h refl))
  purge_lem (t ∷ old) ts remaining d e h = (refl, load_tenants-save_tenants remaining _)

  open_file-purge_step :
      (old remaining : List Tenant) (d : Disk) (p : FilePath)
      → path_eq tenants_path p ≡ false
      → open_file p (purge old remaining d).1
        ≡ (if elem p.tenant (map (λ t. t.id) old) then none else open_file p d)
  open_file-purge_step [] remaining d p other = unfold elem in refl
  open_file-purge_step (t ∷ old) remaining d p other =
      unfold save_tenants in
      open_file-write_ne tenants_path p _ _ other ∙ open_file-remove_trees _ p d

module _ ⦃tenants : Codec Tenant⦄ (now days : ℕ) (d : Disk) where
  abbrev pub purged : List String
  purged = map (λ t. t.id) (keep (is_old now days) (load_tenants d))

  -- A purge answers with the ids of the tenants that were deleted more than `days` days ago, and
  -- the tenants that are left are all the others, in their order.
  pub purge_old_deleted_tenants_lem :
      ((purge_old_deleted_tenants now days d).0 ≡ purged)
      × (load_tenants (purge_old_deleted_tenants now days d).1
          ≡ keep (λ t. not (is_old now days t)) (load_tenants d))
  unfolding purge_old_deleted_tenants
  purge_old_deleted_tenants_lem =
      purge_lem (keep (is_old now days) (load_tenants d)) (load_tenants d) _ (restore_missing d)
        (load_tenants-restore_missing d) (keep_none (is_old now days) (load_tenants d))

  -- Every file of a purged tenant is gone, and no other file is touched but `tenants.json`.
  pub open_file-purge_old_deleted_tenants :
      (p : FilePath)
      → path_eq tenants_path p ≡ false
      → open_file p (purge_old_deleted_tenants now days d).1
        ≡ (if elem p.tenant purged then none else open_file p d)
  unfolding purge_old_deleted_tenants
  open_file-purge_old_deleted_tenants p other =
      open_file-purge_step _ _ (restore_missing d) p other
      ∙ ap (λ o. if elem p.tenant purged then none else o) (open_file-restore_missing p d other)
