-- ===== src/Store/Pending/Rekeyed.antt =====
-- What is read after a pending spoke is saved, deleted or renamed.
use webui_hub.Prelude.{
  String, ◌≡◌, ◌≢◌, refl, true, false, none, some, [], ◌∷◌, ◌==◌, if◌then◌else◌, arith, Bool-cases,
  inl, inr,
}
use webui_hub.Json.{Json, Dict}
use webui_hub.Disk.{
  Disk, pending_path, path_eq, read_table, read_table-write_table, open_file-unlink, exists,
}
use webui_hub.Exec.{ok, raised, value_error}
use webui_hub.Models.{PendingSpoke}
use webui_hub.Store.Pending.{
  PendingFormat, get_pending_spoke, save_pending_spoke, delete_pending_spoke, rekey_pending_spoke,
  if_raw,
}

module _ ⦃format : PendingFormat⦄ where
  if_raw_filled :
      (raw : Dict Json) (p : PendingSpoke)
      → raw ≢ []
      → format.validate raw ≡ some p
      → if_raw raw ≡ ok (some p)
  if_raw_filled [] p h e = absurd (h refl)
  if_raw_filled (x ∷ raw) p h e = rw e

  same_path : (i j : String) → path_eq (pending_path i) (pending_path j) ≡ (i == j)
  unfolding path_eq
  same_path i j = ground arith

  pub get_pending_spoke-save_pending_spoke :
      (p : PendingSpoke) (j : String) (d : Disk)
      → get_pending_spoke j (save_pending_spoke p d)
        ≡ (if p.id == j then ok (some p) else get_pending_spoke j d)
  unfolding get_pending_spoke save_pending_spoke
  get_pending_spoke-save_pending_spoke p j d =
      rw (read_table-write_table, same_path)
        (elim (Bool-cases (p.id == j)) [
          | inl e ↦
              rw e (if_raw_filled (format.dump p) p (format.dump_filled p) (format.validate-dump p))
          | inr e ↦ rw e
        ])

  get_pending_spoke-delete_pending_spoke :
      (i j : String) (d : Disk)
      → get_pending_spoke j (delete_pending_spoke i d)
        ≡ (if i == j then ok none else get_pending_spoke j d)
  unfolding get_pending_spoke delete_pending_spoke read_table
  get_pending_spoke-delete_pending_spoke i j d =
      rw (open_file-unlink, same_path) (elim (Bool-cases (i == j)) [ inl e ↦ rw e | inr e ↦ rw e ])

  -- Renaming a pending spoke to an id that has a file raises and changes nothing. To any other new
  -- id, it moves the spoke: the new id finds it under its new id, the old id finds none, and every
  -- other id finds what it found before.
  pub rekey_pending_spoke_lem :
      (old new j : String) (p : PendingSpoke) (d : Disk)
      → (old == new) ≡ false
      → get_pending_spoke old d ≡ ok (some p)
      → ((rekey_pending_spoke old new d).0
          ≡ (if exists (pending_path new) d then raised value_error else ok true))
        × (get_pending_spoke j (rekey_pending_spoke old new d).1 ≡ (
            if exists (pending_path new) d
            then get_pending_spoke j d
            else if new == j
            then ok (some (record p { id = new }))
            else if old == j
            then ok none
            else get_pending_spoke j d))
  unfolding rekey_pending_spoke
  rekey_pending_spoke_lem old new j p d other h = elim (Bool-cases (exists (pending_path new) d)) [
    | inl e ↦ rw (other, h, e) (refl, refl)
    | inr e ↦
        rw (other, h, e)
          (refl, rw (get_pending_spoke-save_pending_spoke, get_pending_spoke-delete_pending_spoke))
  ]
