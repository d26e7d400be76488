-- ===== src/Store/Spokes/Saved.antt =====
-- What is loaded after spokes are saved.
use webui_hub.Prelude.{
  ℕ, String, ◌≡◌, refl, fun_ext, ap, ◌∙◌, true, not, Option, none, some, List, [], ◌∷◌, ◌++◌, map,
  ◌==◌, keep, find, arith, eq_refl, Bool-cases, inl, inr,
}
use webui_hub.Json.{Json, Dict, obj, get, truthy, to_fields, of_fields-to_fields}
use webui_hub.Disk.{
  Disk, spoke_path, spoke_state_path, read_rows, read_table, path_eq, read_rows-write_rows,
  open_file-write_ne, path_eq_refl, read_table-write_table,
}
use webui_hub.Models.{Spoke}
use webui_hub.Store.Spokes.Format.{
  SpokeFormat, Instants, config_row, migrate_assigned_site, without_state,
}
use webui_hub.Store.Spokes.{
  merge_spoke_state, load_spoke_state, load_spokes, save_spokes, spokes_of, save_spoke,
  save_spoke_state, get_spoke, has_state, shown_instant,
}

module _ ⦃format : SpokeFormat⦄ ⦃times : Instants⦄ where
  -- A spoke as the next load sees it: its saved configuration with the state file's contents.
  unfoldable pub stored : String → Disk → Spoke → Spoke
  stored t d s =
      merge_spoke_state (migrate_assigned_site (without_state s)) (load_spoke_state t s.id d)

  id-migrate : (s : Spoke) → (migrate_assigned_site s).id ≡ s.id
  unfolding migrate_assigned_site
  id-migrate s = ground arith

  pub spokes_of-rows :
      (t : String) (d : Disk) (ss : List Spoke)
      → spokes_of t d (map (λ s. config_row (format.dump s)) ss) ≡ map (stored t d) ss
  unfolding spokes_of stored
  spokes_of-rows t d [] = refl
  spokes_of-rows t d (s ∷ ss) =
      rw (format.validate-config_row s, spokes_of-rows t d ss, id-migrate (without_state s))

  state-save_spokes :
      (t u v : String) (ss : List Spoke) (d : Disk)
      → load_spoke_state u v (save_spokes t ss d) ≡ load_spoke_state u v d
  unfolding load_spoke_state save_spokes read_table path_eq
  state-save_spokes t u v ss d =
      rw (open_file-write_ne (spoke_path t) (spoke_state_path u v) _ d refl)

  pub read_rows-saved :
      (t : String) (ss : List Spoke) (d : Disk)
      → read_rows (spoke_path t) (save_spokes t ss d) ≡ map (λ s. config_row (format.dump s)) ss
  unfolding save_spokes
  read_rows-saved t ss d = rw (read_rows-write_rows, path_eq_refl)

  pub load_spokes-save_spokes :
      (t : String) (ss : List Spoke) (d : Disk)
      → load_spokes t (save_spokes t ss d) ≡ map (stored t d) ss
  load_spokes-save_spokes t ss d =
      unfold load_spokes in
      rw (read_rows-saved t ss d) (
        spokes_of-rows t (save_spokes t ss d) ss
        ∙ ap (λ f. map f ss) (fun_ext λ s. unfold stored in rw state-save_spokes))

  pub id-stored : (t : String) (d : Disk) (s : Spoke) → (stored t d s).id ≡ s.id
  unfolding stored merge_spoke_state migrate_assigned_site
  id-stored t d s = ground arith

  migrate-without_state :
      (s : Spoke)
      → migrate_assigned_site (without_state s) ≡ without_state (migrate_assigned_site s)
  unfolding migrate_assigned_site
  migrate-without_state s = ground arith

  merge-shown :
      (s : Spoke) (seen : Option ℕ)
      → merge_spoke_state
          (without_state s)
          (("last_seen", shown_instant seen) ∷ ("telemetry", obj (to_fields s.telemetry)) ∷ [])
        ≡ record s { last_seen = seen }
  unfolding merge_spoke_state get truthy
  merge-shown s none = rw of_fields-to_fields
  merge-shown s (some t) = rw (times.shown t, times.read-show t, of_fields-to_fields)

  -- The state file that `save_spoke_state` writes, merged.
  merge-saved :
      (s : Spoke)
      → migrate_assigned_site s ≡ s
      → merge_spoke_state (migrate_assigned_site (without_state s)) (
          ("last_seen", shown_instant s.last_seen)
          ∷ ("telemetry", obj (to_fields s.telemetry))
          ∷ [])
        ≡ s
  merge-saved s h = rw (migrate-without_state s ∙ ap without_state h) (merge-shown s s.last_seen)

  find-appended :
      (t : String) (d : Disk) (s : Spoke) (xs : List Spoke)
      → find (λ i. i.id == s.id) (map (stored t d) (keep (λ i. not (i.id == s.id)) xs ++ s ∷ []))
        ≡ some (stored t d s)
  find-appended t d s [] = rw (id-stored, eq_refl)
  find-appended t d s (x ∷ xs) = elim (Bool-cases (x.id == s.id)) [
    | inl e ↦ rw e (find-appended t d s xs)
    | inr e ↦ rw (e, id-stored, e) (find-appended t d s xs)
  ]

  load_spokes-save_spoke_state :
      (t u i : String) (seen : Option ℕ) (telemetry : Dict Json) (d : Disk)
      → read_rows (spoke_path t) (save_spoke_state u i seen telemetry d)
        ≡ read_rows (spoke_path t) d
  unfolding save_spoke_state read_rows path_eq
  load_spokes-save_spoke_state t u i seen telemetry d =
      rw (open_file-write_ne (spoke_state_path u i) (spoke_path t) _ d refl)

  state-saved :
      (t i : String) (seen : Option ℕ) (telemetry : Dict Json) (d : Disk)
      → load_spoke_state t i (save_spoke_state t i seen telemetry d)
        ≡ ("last_seen", shown_instant seen) ∷ ("telemetry", obj (to_fields telemetry)) ∷ []
  unfolding save_spoke_state load_spoke_state
  state-saved t i seen telemetry d = rw (read_table-write_table, path_eq_refl)

  -- A spoke that has state to save and whose site fields are migrated is read back as it was saved.
  pub get_spoke-save_spoke :
      (s : Spoke) (d : Disk)
      → has_state s ≡ true
      → migrate_assigned_site s ≡ s
      → get_spoke s.tenant_id s.id (save_spoke s d) ≡ some s
  unfolding get_spoke save_spoke load_spokes
  get_spoke-save_spoke s d h m =
      rw (h, load_spokes-save_spoke_state)
        (rw read_rows-saved (
          rw spokes_of-rows
            (find-appended _ _ s _ ∙ ap some (unfold stored in rw state-saved (merge-saved s m)))))
