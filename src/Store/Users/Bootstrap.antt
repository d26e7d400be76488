-- ===== src/Store/Users/Bootstrap.antt =====
-- Saving, finding and deleting users, and what the bootstrap of the first superadmin leaves alone.
use webui_hub.Prelude.{
  String, ◌≡◌, refl, ap, Bool, true, false, ◌||◌, ◌&&◌, update_first, none, some, List, [], ◌∷◌,
  ◌==◌, if◌then◌else◌, any, arith, find-replace, find-remove, Bool-cases, inl, inr, ◌≢◌, map,
}
use webui_hub.Disk.{Disk, users_path, exists, read_rows-write_rows, path_eq_refl}
use webui_hub.Codec.{Codec, validate_each-dump_all}
use webui_hub.Models.{User}
use webui_hub.Store.Users.{
  Mount, load_users, save_users, save_user, delete_user, get_user_by_id, ensure_admin,
  prior_data_exists, is_superadmin_named, reset_password, start,
}

module _ ⦃users : Codec User⦄ where
  pub load_users-save_users : (us : List User) (d : Disk) → load_users (save_users us d) ≡ us
  unfolding load_users save_users
  load_users-save_users us d = rw (read_rows-write_rows, path_eq_refl, validate_each-dump_all)

  -- A saved user is the one found under its id, and every other id finds what it found before.
  pub get_user_by_id-save_user :
      (u : User) (j : String) (d : Disk)
      → get_user_by_id j (save_user u d) ≡ (if u.id == j then some u else get_user_by_id j d)
  unfolding get_user_by_id save_user
  get_user_by_id-save_user u j d =
      rw load_users-save_users (find-replace (λ x. x.id) u.id j u _ refl)

  -- A deleted id finds no user, and every other id finds what it found before.
  pub get_user_by_id-delete_user :
      (i j : String) (d : Disk)
      → get_user_by_id j (delete_user i d) ≡ (if i == j then none else get_user_by_id j d)
  unfolding get_user_by_id delete_user
  get_user_by_id-delete_user i j d = rw load_users-save_users (find-remove (λ x. x.id) i j _)

  -- A user as a start must leave it: all but the password of the superadmin of the name.
  abbrev pub kept : String → User → User
  kept name u =
      if (u.username == name) && u.is_superadmin then record u { hashed_password = "" } else u

  kept-changed :
      (name hashed : String) (u : User)
      → (u.username == name) && u.is_superadmin ≡ true
      → kept name (record u { hashed_password = hashed }) ≡ record u { hashed_password = "" }
  kept-changed name hashed u e = simp e refl

  kept-reset :
      (name hashed : String) (us : List User)
      → map
          (kept name)
          (update_first (is_superadmin_named name) (λ u. record u { hashed_password = hashed }) us)
        ≡ map (kept name) us
  kept-reset name hashed [] = refl
  kept-reset name hashed (u ∷ us) = elim (Bool-cases (is_superadmin_named name u)) [
    | inl e ↦ rw e (ap (λ r. r ∷ map (kept name) us) (kept-changed name hashed u e))
    | inr e ↦ simp e (ap (λ r. u ∷ r) (kept-reset name hashed us))
  ]

  reset_password-keeps :
      (name hashed : String) (us : List User) (d : Disk)
      → load_users d ≡ us
      → map (kept name) (load_users (reset_password name hashed us d)) ≡ map (kept name) us
  reset_password-keeps name hashed us d e = elim (Bool-cases (any (is_superadmin_named name) us)) [
    | inl t ↦ rw (t, load_users-save_users) (kept-reset name hashed us)
    | inr t ↦ rw t (ap (map (kept name)) e)
  ]

  start-keeps :
      (mount : Mount) (admin : User) (force : Bool) (us : List User) (d : Disk)
      → load_users d ≡ us
      → us ≢ []
      → (force ≡ false → start mount admin force us d ≡ d)
        × (map (kept admin.username) (load_users (start mount admin force us d))
            ≡ map (kept admin.username) us)
  start-keeps mount admin force [] d e h = absurd (h refl)
  start-keeps mount admin true (u ∷ us) d e h = (λ f. cc, reset_password-keeps _ _ (u ∷ us) d e)
  start-keeps mount admin false (u ∷ us) d e h = (λ f. refl, ap (map (kept admin.username)) e)

  -- Where users are loaded: a start that does not force the password changes no file, and after one
  -- that does, the users that load are those that loaded before, in their order, with no change but
  -- in the passwords of superadmins with the name that the start is given.
  pub ensure_admin-keeps_users :
      (mount : Mount) (admin : User) (force : Bool) (d : Disk)
      → load_users d ≢ []
      → (force ≡ false → ensure_admin mount admin force d ≡ d)
        × (map (kept admin.username) (load_users (ensure_admin mount admin force d))
            ≡ map (kept admin.username) (load_users d))
  unfolding ensure_admin
  ensure_admin-keeps_users mount admin force d h = elim (Bool-cases mount.stat_fails) [
    | inl e ↦ simp e (λ f. refl, refl)
    | inr e ↦ simp e (start-keeps mount admin force (load_users d) d refl h)
  ]

  -- Where no user is loaded, the superadmin is created exactly if nothing shows prior use: the
  -- looks at the directory succeed, there is no users file and no other data.
  pub ensure_admin-no_users :
      (mount : Mount) (admin : User) (force : Bool) (d : Disk)
      → load_users d ≡ []
      → ensure_admin mount admin force d ≡ (
          if mount.stat_fails || (exists users_path d || prior_data_exists mount d)
          then d
          else save_users (admin ∷ []) d)
  unfolding ensure_admin
  ensure_admin-no_users mount admin force d h = rw h (ground arith)
