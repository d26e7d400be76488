-- ===== src/Store/Users.antt =====
-- Users (app/store.py, lines 118 to 273).
pub mod Bootstrap
use webui_hub.Prelude.{
  ℕ, String, ◌≡◌, Bool, true, false, not, ◌&&◌, ◌||◌, Option, none, some, List, [], ◌∷◌, ◌++◌, ◌==◌,
  if◌then◌else◌, keep, find, update_first, any,
}
use webui_hub.Disk.{
  Disk, FilePath, Content, rows, users_path, tenants_path, global_config_path, oui_pool_path,
  read_rows, write_json, exists,
}
use webui_hub.Exec.{Exec, return, look, write, ◌>>=◌, ◌>>◌}
use webui_hub.Codec.{Codec, validate_each, dump_all}
use webui_hub.Models.{User}

-- Which of the looks at the directory fail with an `OSError` (a mount that is not there).
pub record Mount : Type 0 where
  pub stat_fails : Bool
  pub scan_fails : Bool

-- A directory of a tenant: the store keeps no other but `tls`, `pending` and `tmp`.
unfoldable pub has_tenant_dir : Disk → Bool
has_tenant_dir [] = false
has_tenant_dir ((p, c) ∷ d) = not (p.tenant == "") || has_tenant_dir d

unfoldable pub prior_data_exists : Mount → Disk → Bool
prior_data_exists mount d =
    mount.scan_fails
    || (exists tenants_path d
        || (exists global_config_path d || (exists oui_pool_path d || has_tenant_dir d)))

module _ ⦃users : Codec User⦄ where
  unfoldable pub load_users : Disk → List User
  load_users d = validate_each (read_rows users_path d)

  unfoldable pub save_users : List User → Disk → Disk
  save_users us = write_json users_path (rows (dump_all us))

  unfoldable pub get_user : String → Disk → Option User
  get_user username d = find (λ u. u.username == username) (load_users d)

  unfoldable pub get_user_by_id : String → Disk → Option User
  get_user_by_id user_id d = find (λ u. u.id == user_id) (load_users d)

  unfoldable pub save_user : User → Disk → Disk
  save_user user d = save_users (keep (λ u. not (u.id == user.id)) (load_users d) ++ user ∷ []) d

  unfoldable pub delete_user : String → Disk → Disk
  delete_user user_id d = save_users (keep (λ u. not (u.id == user_id)) (load_users d)) d

  abbrev pub is_superadmin_named : String → User → Bool
  is_superadmin_named username u = (u.username == username) && u.is_superadmin

  -- The last part of `ensure_admin`: the file is written only where a user matches.
  abbrev reset_password : String → String → List User → Disk → Disk
  reset_password username hashed us d =
      if any (is_superadmin_named username) us
      then save_users
          (update_first (is_superadmin_named username) (λ u. record u { hashed_password = hashed })
            us)
          d
      else d

  abbrev bootstrap : Mount → User → Disk → Disk
  bootstrap mount admin d =
      if exists users_path d
      then d
      else if prior_data_exists mount d
      then d
      else save_users (admin ∷ []) d

  -- `User(username=…, hashed_password=…, is_superadmin=True)`
  abbrev pub new_admin : String → ℕ → String → String → User
  new_admin id now username hashed = record {
    id = id;
    username = username;
    hashed_password = hashed;
    is_superadmin = true;
    tenant_roles = [];
    created_at = now;
  }

  -- `ensure_admin`, from the users that it loads on.
  abbrev pub start : Mount → User → Bool → List User → Disk → Disk
  start mount admin force_password [] d = bootstrap mount admin d
  start mount admin force_password (u ∷ us) d =
      if force_password then reset_password admin.username admin.hashed_password (u ∷ us) d else d

  -- `admin` is the superadmin that the first start creates; its name and its password are the
  -- arguments of `ensure_admin`.
  unfoldable pub ensure_admin : Mount → User → Bool → Disk → Disk
  ensure_admin mount admin force_password d =
      if mount.stat_fails then d else start mount admin force_password (load_users d) d
