-- ===== src/Store/Spokes/Rekeyed.antt =====
-- What a renaming of a spoke leaves (app/store.py, `rekey_spoke`).
use webui_hub.Prelude.{
  String, ◌≡◌, refl, ap, ◌∙◌, true, false, Option, none, some, List, [], ◌∷◌, ◌==◌, if◌then◌else◌,
  map, any, update_first, Bool-cases, inl, inr, Option-cases,
}
use webui_hub.Disk.{
  Disk, FilePath, Content, path_eq, path_eq_refl, path_eq-kind, spoke_path, queue_path, audit_path,
  open_file, open_file-write_json, open_file-write_ne, open_file-unlink, read_rows-same,
}
use webui_hub.Exec.{ok}
use webui_hub.Models.{Spoke}
use webui_hub.Store.Spokes.{load_spokes, save_spokes, spokes_of, move_file, rekey_spoke}
use webui_hub.Store.Spokes.Format.{SpokeFormat, Instants}
use webui_hub.Store.Spokes.Saved.{stored, id-stored, spokes_of-rows, read_rows-saved}

-- The first of two contents that there is.
abbrev pub either : Option Content → Option Content → Option Content
either none other = other
either (some c) other = some c

-- A file is moved: the content of the old one, if there is one, is under the new name.
moved-here :
    (old new : FilePath) (d : Disk)
    → open_file new (move_file old new d) ≡ either (open_file old d) (open_file new d)
moved-here old new d = elim (Option-cases (open_file old d)) [
  | inl e ↦ rw (e, move_file) refl
  | inr (c, e) ↦ rw (e, move_file) (rw (open_file-write_json, path_eq_refl) refl)
]

moved-other :
    (old new p : FilePath) (d : Disk)
    → path_eq old p ≡ false
    → path_eq new p ≡ false
    → open_file p (move_file old new d) ≡ open_file p d
moved-other old new p d a b = elim (Option-cases (open_file old d)) [
  | inl e ↦ rw (e, move_file) refl
  | inr (c, e) ↦
      rw (e, move_file) (open_file-write_ne new p c _ b ∙ open_file-unlink old p d ∙ rw a refl)
]

-- A list of ids, in which the first that is `old` is replaced.
abbrev pub with_id_moved : String → String → List String → List String
with_id_moved old new [] = []
with_id_moved old new (i ∷ ids) =
    let rest = with_id_moved old new ids in if i == old then new ∷ ids else i ∷ rest

abbrev pub ids_of : List Spoke → List String
ids_of = map (λ s. s.id)

ids-update_first :
    (old new : String) (ss : List Spoke)
    → ids_of (update_first (λ s. s.id == old) (λ s. record s { id = new }) ss)
      ≡ with_id_moved old new (ids_of ss)
ids-update_first old new [] = refl
ids-update_first old new (s ∷ ss) = elim (Bool-cases (s.id == old)) [
  | inl e ↦ rw e refl
  | inr e ↦ rw e (ap (λ r. s.id ∷ r) (ids-update_first old new ss))
]

module _ ⦃format : SpokeFormat⦄ ⦃times : Instants⦄ where
  ids-stored : (t : String) (d : Disk) (ss : List Spoke) → ids_of (map (stored t d) ss) ≡ ids_of ss
  ids-stored t d [] = refl
  ids-stored t d (s ∷ ss) = rw (id-stored t d s, ids-stored t d ss) refl

  -- The ids that are loaded from a disk whose spokes file is the one that was saved.
  ids-loaded :
      (t : String) (ss : List Spoke) (d e : Disk)
      → open_file (spoke_path t) e ≡ open_file (spoke_path t) (save_spokes t ss d)
      → ids_of (load_spokes t e) ≡ ids_of ss
  unfolding load_spokes
  ids-loaded t ss d e same =
      ap (λ rows. ids_of (spokes_of t e rows))
        (read_rows-same (spoke_path t) e (save_spokes t ss d) same ∙ read_rows-saved t ss d)
      ∙ ap ids_of (spokes_of-rows t e ss)
      ∙ ids-stored t e ss

  -- The files that a renaming leaves, from the saved spokes on.
  module _ (t old new : String) (ss : List Spoke) (d : Disk) where
    abbrev saved : Disk
    saved = save_spokes t ss d

    abbrev queue_moved : Disk
    queue_moved = move_file (queue_path t old) (queue_path t new) saved

    abbrev all_moved : Disk
    all_moved = move_file (audit_path t old) (audit_path t new) queue_moved

    of_saved : (p : FilePath) → path_eq (spoke_path t) p ≡ false → open_file p saved ≡ open_file p d
    unfolding save_spokes
    of_saved p h = open_file-write_ne (spoke_path t) p _ d h

    spokes_kept : open_file (spoke_path t) all_moved ≡ open_file (spoke_path t) saved
    spokes_kept =
        moved-other (audit_path t old) (audit_path t new) (spoke_path t) queue_moved
          (path_eq-kind _ (spoke_path t) refl) (path_eq-kind _ (spoke_path t) refl)
        ∙ moved-other (queue_path t old) (queue_path t new) (spoke_path t) saved
            (path_eq-kind _ (spoke_path t) refl) (path_eq-kind _ (spoke_path t) refl)

    queue_there :
        open_file (queue_path t new) all_moved
        ≡ either (open_file (queue_path t old) d) (open_file (queue_path t new) d)
    queue_there =
        moved-other (audit_path t old) (audit_path t new) (queue_path t new) queue_moved
          (path_eq-kind _ (queue_path t new) refl) (path_eq-kind _ (queue_path t new) refl)
        ∙ moved-here (queue_path t old) (queue_path t new) saved
        ∙ rw
            (
              of_saved (queue_path t old) (path_eq-kind _ (queue_path t old) refl),
              of_saved (queue_path t new) (path_eq-kind _ (queue_path t new) refl),
            )
            refl

    log_kept : (i : String) → open_file (audit_path t i) queue_moved ≡ open_file (audit_path t i) d
    log_kept i =
        moved-other (queue_path t old) (queue_path t new) (audit_path t i) saved
          (path_eq-kind _ (audit_path t i) refl) (path_eq-kind _ (audit_path t i) refl)
        ∙ of_saved (audit_path t i) (path_eq-kind _ (audit_path t i) refl)

    log_there :
        open_file (audit_path t new) all_moved
        ≡ either (open_file (audit_path t old) d) (open_file (audit_path t new) d)
    log_there =
        moved-here (audit_path t old) (audit_path t new) queue_moved
        ∙ rw (log_kept old, log_kept new) refl

  -- A spoke that is renamed to an id that no spoke has is loaded under the new id in the place of the
  -- old one, and its command queue and its log are under the new id, if it has them.
  pub rekey_spoke_lem :
      (t old new : String) (d : Disk)
      → (old == new) ≡ false
      → any (λ s. s.id == new) (load_spokes t d) ≡ false
      → any (λ s. s.id == old) (load_spokes t d) ≡ true
      → let after = rekey_spoke t old new d in
        (after.0 ≡ ok true)
        × (ids_of (load_spokes t after.1) ≡ with_id_moved old new (ids_of (load_spokes t d)))
        × (open_file (queue_path t new) after.1
            ≡ either (open_file (queue_path t old) d) (open_file (queue_path t new) d))
        × (open_file (audit_path t new) after.1
            ≡ either (open_file (audit_path t old) d) (open_file (audit_path t new) d))
  rekey_spoke_lem t old new d other free there =
      let ss = update_first (λ s. s.id == old) (λ s. record s { id = new }) (load_spokes t d) in
      let run : rekey_spoke t old new d ≡ (ok true, all_moved t old new ss d) =
        (unfold rekey_spoke in rw other (rw free (rw there refl))) in
      (
        ap (λ r. r.0) run,
        ap (λ r. ids_of (load_spokes t r.1)) run
            ∙ ids-loaded t ss d (all_moved t old new ss d) (spokes_kept t old new ss d)
            ∙ ids-update_first old new (load_spokes t d),
        ap (λ r. open_file (queue_path t new) r.1) run ∙ queue_there t old new ss d,
        ap (λ r. open_file (audit_path t new) r.1) run ∙ log_there t old new ss d,
      )
