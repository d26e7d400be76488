-- ===== src/Store/Spokes/Frame.antt =====
-- Which files the operations on spokes read and write.
use webui_hub.Prelude.{
  String, ◌≡◌, refl, ap, ◌∙◌, false, Option, none, some, List, [], ◌∷◌, ◌==◌, Bool-cases, inl, inr,
  find,
}
use webui_hub.Json.{Json}
use webui_hub.Disk.{
  Disk, FilePath, open_file, path_eq-kind, open_file-write_ne, spoke_path, spoke_state_path,
  read_rows-same, read_table-same,
}
use webui_hub.Models.{Spoke}
use webui_hub.Store.Spokes.Format.{SpokeFormat, Instants}
use webui_hub.Store.Spokes.{
  load_spoke_state, load_spokes, save_spokes, spokes_of, save_spoke, save_spoke_state, get_spoke,
  has_state, add_loaded,
}

module _ ⦃format : SpokeFormat⦄ ⦃times : Instants⦄ where
  -- A spoke is saved to two files.
  pub open_file-save_spoke :
      (p : FilePath) (s : Spoke) (d : Disk)
      → ("spokes" == p.kind) ≡ false
      → ("spoke_state" == p.kind) ≡ false
      → open_file p (save_spoke s d) ≡ open_file p d
  unfolding save_spoke save_spokes save_spoke_state
  open_file-save_spoke p s d a b = elim (Bool-cases (has_state s)) [
    | inl e ↦ rw e (
        open_file-write_ne (spoke_state_path s.tenant_id s.id) p _ _ (path_eq-kind _ p b)
        ∙ open_file-write_ne (spoke_path s.tenant_id) p _ _ (path_eq-kind _ p a))
    | inr e ↦ rw e (open_file-write_ne (spoke_path s.tenant_id) p _ _ (path_eq-kind _ p a))
  ]

  add_loaded-same :
      (t : String) (d e : Disk) (o : Option Spoke) (xs ys : List Spoke)
      → ((i : String) → load_spoke_state t i d ≡ load_spoke_state t i e)
      → xs ≡ ys
      → add_loaded t d o xs ≡ add_loaded t e o ys
  add_loaded-same t d e none xs ys h r = r
  add_loaded-same t d e (some s) xs ys h r = rw (h s.id, r)

  spokes_of-same :
      (t : String) (d e : Disk) (raw : List Json)
      → ((i : String) → load_spoke_state t i d ≡ load_spoke_state t i e)
      → spokes_of t d raw ≡ spokes_of t e raw
  unfolding spokes_of
  spokes_of-same t d e [] h = refl
  spokes_of-same t d e (row ∷ raw) h =
      add_loaded-same t d e (format.validate row) _ _ h (spokes_of-same t d e raw h)

  -- The spokes of a tenant are read from its `spokes.json` and its state files.
  pub get_spoke-same :
      (t i : String) (d e : Disk)
      → ((p : FilePath)
          → ("queue" == p.kind) ≡ false
          → ("tenants" == p.kind) ≡ false
          → open_file p d ≡ open_file p e)
      → get_spoke t i d ≡ get_spoke t i e
  unfolding get_spoke load_spokes load_spoke_state
  get_spoke-same t i d e h = ap (find (λ s. s.id == i)) (
      rw (read_rows-same (spoke_path t) d e (h (spoke_path t) refl refl)) (
        spokes_of-same t d e _
          (λ j. read_table-same (spoke_state_path t j) d e (h (spoke_state_path t j) refl refl))))
