-- ===== src/Store/Pending.antt =====
-- Spokes that wait for approval (app/store.py, lines 446 to 505 and 694 to 725): one file for each.
pub mod Rekeyed
use webui_hub.Prelude.{
  ℕ, String, ◌≡◌, ◌≢◌, refl, Bool, true, false, not, ◌&&◌, ◌||◌, Option, none, some, List, [], ◌∷◌,
  ◌==◌, if◌then◌else◌, find,
}
use webui_hub.Json.{Json, Dict}
use webui_hub.Disk.{
  Disk, FilePath, Content, table, pending_path, read_table, write_json, unlink, exists,
}
use webui_hub.Exec.{
  Exec, Result, ok, raised, return, raise, reading, look, write, value_error, validation_error,
  ◌>>=◌, ◌>>◌,
}
use webui_hub.Models.{PendingSpoke}
use webui_hub.Store.Spokes.{folded}

-- `PendingSpoke(**raw)` and `model_dump(mode="json")`, whose dict is not empty. `none`: it raises.
pub record PendingFormat : Type 0 where
  pub validate : Dict Json → Option PendingSpoke
  pub dump : PendingSpoke → Dict Json
  pub validate-dump : (p : PendingSpoke) → validate (dump p) ≡ some p
  pub dump_filled : (p : PendingSpoke) → dump p ≢ []

module _ ⦃format : PendingFormat⦄ where
  abbrev read_as : Option PendingSpoke → Result (Option PendingSpoke)
  read_as none = raised validation_error
  read_as (some p) = ok (some p)

  -- `PendingSpoke(**raw) if raw else None`
  abbrev pub if_raw : Dict Json → Result (Option PendingSpoke)
  if_raw [] = ok none
  if_raw (entry ∷ raw) = read_as (format.validate (entry ∷ raw))

  unfoldable pub get_pending_spoke : String → Disk → Result (Option PendingSpoke)
  get_pending_spoke spoke_id d = if_raw (read_table (pending_path spoke_id) d)

  unfoldable pub save_pending_spoke : PendingSpoke → Disk → Disk
  save_pending_spoke spoke = write_json (pending_path spoke.id) (table (format.dump spoke))

  unfoldable pub delete_pending_spoke : String → Disk → Disk
  delete_pending_spoke spoke_id = unlink (pending_path spoke_id)

  abbrev content_of : Content → Dict Json
  content_of (table raw) = raw
  content_of _ = []

  abbrev add_pending :
      Result (Option PendingSpoke) → Result (List PendingSpoke) → Result (List PendingSpoke)
  add_pending (raised e) rest = raised e
  add_pending (ok none) rest = rest
  add_pending (ok (some p)) (ok ps) = ok (p ∷ ps)
  add_pending (ok (some p)) (raised e) = raised e

  -- The files of the directory, in the order of the disk.
  unfoldable pub list_pending_spokes : Disk → Result (List PendingSpoke)
  list_pending_spokes [] = ok []
  list_pending_spokes ((p, c) ∷ d) =
      let rest = list_pending_spokes d in
      if p.kind == "pending" then add_pending (if_raw (content_of c)) rest else rest

  abbrev find_in : (PendingSpoke → Bool) → Result (List PendingSpoke) → Result (Option PendingSpoke)
  find_in test (ok ps) = ok (find test ps)
  find_in test (raised e) = raised e

  unfoldable pub get_pending_by_hostname : String → Disk → Result (Option PendingSpoke)
  get_pending_by_hostname hostname d = find_in (λ p. p.hostname == hostname) (list_pending_spokes d)

  unfoldable pub get_pending_spoke_by_name : String → Disk → Result (Option PendingSpoke)
  get_pending_spoke_by_name spoke_name d =
      if folded spoke_name == ""
      then ok none
      else find_in (λ p. folded p.spoke_name == folded spoke_name) (list_pending_spokes d)

  unfoldable pub find_pending_spoke_name_conflict :
      String → String → String → Disk → Result (Option PendingSpoke)
  find_pending_spoke_name_conflict tenant_hint spoke_name exclude_spoke_id d =
      if (tenant_hint == "") || (folded spoke_name == "")
      then ok none
      else find_in
          (λ p.
            (p.tenant_hint == tenant_hint)
            && (not
                  (not (folded exclude_spoke_id == "") && (folded p.id == folded exclude_spoke_id))
                && (folded p.spoke_name == folded spoke_name)))
          (list_pending_spokes d)

  abbrev pub rekey : String → String → Option PendingSpoke → Exec Bool
  rekey old_spoke_id new_spoke_id none d = (ok false, d)
  rekey old_spoke_id new_spoke_id (some pending) d =
      if exists (pending_path new_spoke_id) d then (raised value_error, d) else (
        ok true,
        save_pending_spoke (record pending { id = new_spoke_id })
            (delete_pending_spoke old_spoke_id d),
      )

  unfoldable pub rekey_pending_spoke : String → String → Exec Bool
  rekey_pending_spoke old_spoke_id new_spoke_id =
      if old_spoke_id == new_spoke_id then return true else do
        pending ← reading (get_pending_spoke old_spoke_id)
        rekey old_spoke_id new_spoke_id pending
