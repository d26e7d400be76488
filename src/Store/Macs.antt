-- ===== src/Store/Macs.antt =====
-- MAC profiles of the spokes and the pool of OUIs (app/store.py, lines 1730 to 1803).
use webui_hub.Prelude.{
  ℕ, String, ◌≡◌, refl, true, Option, none, some, List, [], ◌∷◌, ◌+◌, ◌==◌, if◌then◌else◌, sym,
  eq_iff, Bool-cases, inl, inr,
}
use webui_hub.Json.{Json, Dict, get, put, pop, get-put, get-pop, truthy}
use webui_hub.Disk.{
  Disk, table, rows, mac_profiles_path, oui_pool_path, read_table, read_rows, write_json,
  read_table-write_table, path_eq_refl,
}
use webui_hub.Exec.{Result, ok, raised, validation_error}
use webui_hub.Codec.{Codec, validate_each, dump_all}

pub record MacProfileEntry : Type 0 where
  pub vendor : String
  pub oui : String
  pub count : ℕ

pub record MacProfile : Type 0 where
  pub spoke_id : String
  pub tenant_id : String
  pub entries : List MacProfileEntry
  pub updated_at : ℕ
  pub updated_by : String

pub sum_counts : List MacProfileEntry → ℕ
sum_counts [] = 0
sum_counts (e ∷ es) = e.count + sum_counts es

unfoldable pub total_interfaces : MacProfile → ℕ
unfolding sum_counts
total_interfaces profile = sum_counts profile.entries

pub record OuiPoolEntry : Type 0 where
  pub vendor : String
  pub oui : String
  pub device_type : String

module _ ⦃profiles : Codec MacProfile⦄ where
  abbrev valid_or_raise : Option MacProfile → Result (Option MacProfile)
  valid_or_raise none = raised validation_error
  valid_or_raise (some p) = ok (some p)

  abbrev profile_of : Option Json → Result (Option MacProfile)
  profile_of none = ok none
  profile_of (some row) = if truthy row then valid_or_raise (profiles.validate row) else ok none

  unfoldable pub get_mac_profile : String → String → Disk → Result (Option MacProfile)
  get_mac_profile tenant_id spoke_id d =
      profile_of (get spoke_id (read_table (mac_profiles_path tenant_id) d))

  unfoldable pub save_mac_profile : String → String → MacProfile → Disk → Disk
  save_mac_profile tenant_id spoke_id profile d =
      write_json (mac_profiles_path tenant_id)
        (table (put spoke_id (profiles.dump profile) (read_table (mac_profiles_path tenant_id) d)))
        d

  abbrev add_profile : String → Option MacProfile → Dict MacProfile → Dict MacProfile
  add_profile spoke_id none rest = rest
  add_profile spoke_id (some p) rest = (spoke_id, p) ∷ rest

  unfoldable pub valid_profiles : Dict Json → Dict MacProfile
  valid_profiles [] = []
  valid_profiles ((spoke_id, row) ∷ raw) =
      add_profile spoke_id (profiles.validate row) (valid_profiles raw)

  unfoldable pub list_mac_profiles : String → Disk → Dict MacProfile
  list_mac_profiles tenant_id d = valid_profiles (read_table (mac_profiles_path tenant_id) d)

  abbrev delete_found : String → String → Option Json → Disk → Disk
  delete_found tenant_id spoke_id none d = d
  delete_found tenant_id spoke_id (some row) d =
      write_json (mac_profiles_path tenant_id)
        (table (pop spoke_id (read_table (mac_profiles_path tenant_id) d))) d

  unfoldable pub delete_mac_profile : String → String → Disk → Disk
  delete_mac_profile tenant_id spoke_id d =
      delete_found tenant_id spoke_id (get spoke_id (read_table (mac_profiles_path tenant_id) d)) d

  get_mac_profile-save_mac_profile :
      (t s v : String) (p : MacProfile) (d : Disk)
      → truthy (profiles.dump p) ≡ true
      → get_mac_profile t v (save_mac_profile t s p d)
        ≡ (if s == v then ok (some p) else get_mac_profile t v d)
  unfolding get_mac_profile save_mac_profile
  get_mac_profile-save_mac_profile t s v p d h =
      rw (read_table-write_table, path_eq_refl, get-put)
        (elim (Bool-cases (s == v)) [ inl e ↦ rw (e, h, profiles.validate-dump p) | inr e ↦ rw e ])

  get_deleted :
      (t s v : String) (o : Option Json) (d : Disk)
      → get s (read_table (mac_profiles_path t) d) ≡ o
      → get_mac_profile t v (delete_found t s o d)
        ≡ (if s == v then ok none else get_mac_profile t v d)
  unfolding get_mac_profile
  get_deleted t s v none d h = elim (Bool-cases (s == v)) [
    | inl e ↦ rw e (rw (sym ((eq_iff s v).0 e), h))
    | inr e ↦ rw e
  ]
  get_deleted t s v (some row) d h =
      rw (read_table-write_table, path_eq_refl, get-pop)
        (elim (Bool-cases (s == v)) [ inl e ↦ rw e | inr e ↦ rw e ])

  -- A saved profile whose dump is not empty is read back, a deleted one is not there, and the other
  -- spokes of the tenant keep theirs.
  pub get_mac_profile-save_and_delete :
      (t s v : String) (p : MacProfile) (d : Disk)
      → truthy (profiles.dump p) ≡ true
      → (get_mac_profile t v (save_mac_profile t s p d)
          ≡ (if s == v then ok (some p) else get_mac_profile t v d))
        × (get_mac_profile t v (delete_mac_profile t s d)
            ≡ (if s == v then ok none else get_mac_profile t v d))
  get_mac_profile-save_and_delete t s v p d h = (
    get_mac_profile-save_mac_profile t s v p d h,
    unfold delete_mac_profile in get_deleted t s v _ d refl,
  )

module _ ⦃entries : Codec OuiPoolEntry⦄ where
  unfoldable pub get_oui_pool : Disk → List OuiPoolEntry
  get_oui_pool d = validate_each (read_rows oui_pool_path d)

  unfoldable pub save_oui_pool : List OuiPoolEntry → Disk → Disk
  save_oui_pool pool = write_json oui_pool_path (rows (dump_all pool))

unfoldable pub get_oui_pool_raw : Disk → List Json
get_oui_pool_raw d = read_rows oui_pool_path d

unfoldable pub save_oui_pool_raw : List Json → Disk → Disk
save_oui_pool_raw pool = write_json oui_pool_path (rows pool)
