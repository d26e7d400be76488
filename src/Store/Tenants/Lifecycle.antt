-- ===== src/Store/Tenants/Lifecycle.antt =====
-- The life of a tenant: saved, deleted softly, restored, purged.
use webui_hub.Prelude.{
  ℕ, String, ◌≡◌, refl, ap, ◌∙◌, Bool, true, ◌&&◌, Option, none, some, List, [], ◌∷◌, ◌==◌,
  if◌then◌else◌, find, update_first, any, arith, eq_iff, find-replace, any-find, Bool-cases, inl,
  inr,
}
use webui_hub.Disk.{Disk, exists, read_rows-write_rows, path_eq_refl, open_file-write_json}
use webui_hub.Codec.{Codec, validate_each-dump_all}
use webui_hub.Models.{Tenant}
use webui_hub.Store.Tenants.{
  restore_missing, load_tenants, save_tenants, get_tenant, save_tenant, delete_tenant,
  restore_tenant, is_deleted,
}

module _ ⦃tenants : Codec Tenant⦄ where
  -- What is saved is what is loaded: no backup replaces a file that is there.
  pub load_tenants-save_tenants :
      (ts : List Tenant) (d : Disk) → load_tenants (save_tenants ts d) ≡ ts
  unfolding load_tenants save_tenants restore_missing exists
  load_tenants-save_tenants ts d =
      rw (open_file-write_json, path_eq_refl)
        (rw (read_rows-write_rows, path_eq_refl, validate_each-dump_all))

  -- A saved tenant is the one found under its id, and every other id finds what it found before.
  pub get_tenant-save_tenant :
      (t : Tenant) (j : String) (d : Disk)
      → get_tenant j (save_tenant t d) ≡ (if t.id == j then some t else get_tenant j d)
  unfolding get_tenant save_tenant
  get_tenant-save_tenant t j d =
      rw load_tenants-save_tenants (find-replace (λ x. x.id) t.id j t _ refl)

  -- Python's `t.deleted_at = v` on the tenant that an id finds.
  abbrev marked : Option ℕ → Option Tenant → Option Tenant
  marked v none = none
  marked v (some t) = some (record t { deleted_at = v })

  find-mark :
      (i j : String) (v : Option ℕ) (ts : List Tenant)
      → find (λ t. t.id == j) (update_first (λ t. t.id == i) (λ t. record t { deleted_at = v }) ts)
        ≡ (if i == j then marked v (find (λ t. t.id == j) ts) else find (λ t. t.id == j) ts)
  find-mark i j v [] = ground arith
  find-mark i j v (t ∷ ts) =
      ground (arith, eq_iff t.id i, eq_iff t.id j, eq_iff i j, find-mark i j v ts)

  -- A soft delete stamps the tenant that the id finds and no other tenant.
  pub get_tenant-delete_tenant :
      (now : ℕ) (i j : String) (d : Disk)
      → get_tenant j (delete_tenant now i d)
        ≡ (if i == j then marked (some now) (get_tenant j d) else get_tenant j d)
  unfolding get_tenant delete_tenant
  get_tenant-delete_tenant now i j d = rw load_tenants-save_tenants (find-mark i j (some now) _)

  abbrev restorable : String → Tenant → Bool
  restorable i t = (t.id == i) && is_deleted t

  restore-mark :
      (now : ℕ) (i : String) (ts : List Tenant) (t : Tenant)
      → find (λ x. x.id == i) ts ≡ some t
      → t.deleted_at ≡ none
      → update_first
          (restorable i)
          (λ x. record x { deleted_at = none })
          (update_first (λ x. x.id == i) (λ x. record x { deleted_at = some now }) ts)
        ≡ ts
  restore-mark now i [] t f live = cc
  restore-mark now i (x ∷ xs) t f live = elim (Bool-cases (x.id == i)) [
    | inl e ↦ rw (e, e) (ground (arith, f, live, e))
    | inr e ↦ rw (e, e) (ap (λ r. x ∷ r) (restore-mark now i xs t (rw e at f) live))
  ]

  any-restorable-mark :
      (now : ℕ) (i : String) (ts : List Tenant)
      → any (λ x. x.id == i) ts ≡ true
      → any
          (restorable i)
          (update_first (λ x. x.id == i) (λ x. record x { deleted_at = some now }) ts)
        ≡ true
  any-restorable-mark now i [] h = h
  any-restorable-mark now i (x ∷ xs) h = elim (Bool-cases (x.id == i)) [
    | inl e ↦ rw (e, e)
    | inr e ↦ rw (e, e) (any-restorable-mark now i xs (rw e at h))
  ]

  -- A live tenant that is deleted softly is restored, and the tenants are then what they were.
  pub restore_tenant-delete_tenant :
      (now : ℕ) (i : String) (t : Tenant) (d : Disk)
      → get_tenant i d ≡ some t
      → t.deleted_at ≡ none
      → ((restore_tenant i (delete_tenant now i d)).0 ≡ true)
        × (load_tenants (restore_tenant i (delete_tenant now i d)).1 ≡ load_tenants d)
  unfolding restore_tenant delete_tenant get_tenant
  restore_tenant-delete_tenant now i t d f live = rw load_tenants-save_tenants (
      rw (any-restorable-mark now i (load_tenants d) (any-find (λ x. x.id) i (load_tenants d) t f))
        (refl, load_tenants-save_tenants _ _ ∙ restore-mark now i (load_tenants d) t f live))
