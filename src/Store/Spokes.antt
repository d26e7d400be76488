-- ===== src/Store/Spokes.antt =====
-- Registered spokes (app/store.py, lines 508 to 800 and 1361 to 1430): configuration in
-- `spokes.json`, telemetry and `last_seen` in a file for each spoke.
pub mod Format
pub mod Rekeyed
pub mod Saved
pub mod Frame
use webui_hub.Prelude.{
  ℕ, String, ◌≡◌, refl, Bool, true, false, not, ◌&&◌, ◌||◌, Option, none, some, List, [], ◌∷◌, ◌++◌,
  map, ◌==◌, ltb, if◌then◌else◌, keep, find, update_first, any, arith,
}
use webui_hub.Text.{strip, lower}
use webui_hub.Json.{Json, Dict, null, str, obj, get, truthy, to_fields, dict_of}
use webui_hub.Disk.{
  Disk, FilePath, rows, table, spoke_path, spoke_state_path, queue_path, audit_path, read_rows,
  read_table, write_json, unlink, exists, open_file, Content,
}
use webui_hub.Exec.{Exec, Result, ok, raised, return, raise, look, write, value_error, ◌>>=◌, ◌>>◌}
use webui_hub.Models.{Spoke}
use Format.{SpokeFormat, Instants, config_row}

abbrev pub is_approved : Spoke → Bool
is_approved s = s.status == "approved"

-- `strip().lower()`, by which names are compared
abbrev pub folded : String → String
folded s = lower (strip s)

-- Does the spoke have volatile state to save?
abbrev pub has_state : Spoke → Bool
has_state s = elim s.last_seen [
  | some _ ↦ true
  | none ↦ elim s.telemetry [ [] ↦ false | _ ∷ _ ↦ true ]
]

-- `path.replace(other)` where the file exists
abbrev pub move_file : FilePath → FilePath → Disk → Disk
move_file old new d = elim (open_file old d) [ none ↦ d | some c ↦ write_json new c (unlink old d) ]

module _ ⦃format : SpokeFormat⦄ ⦃times : Instants⦄ where
  abbrev merge_last_seen : Option Json → Spoke → Spoke
  merge_last_seen none s = s
  merge_last_seen (some j) s =
      if truthy j
      then elim (times.read j) [ some t ↦ record s { last_seen = some t } | none ↦ s ]
      else s

  abbrev merge_telemetry : Option Json → Spoke → Spoke
  merge_telemetry none s = s
  merge_telemetry (some j) s = record s { telemetry = dict_of j }

  unfoldable pub merge_spoke_state : Spoke → Dict Json → Spoke
  merge_spoke_state s state =
      merge_telemetry (get "telemetry" state) (merge_last_seen (get "last_seen" state) s)

  unfoldable pub load_spoke_state : String → String → Disk → Dict Json
  load_spoke_state tenant_id spoke_id = read_table (spoke_state_path tenant_id spoke_id)

  abbrev pub shown_instant : Option ℕ → Json
  shown_instant none = null
  shown_instant (some t) = str (times.show t)

  unfoldable pub save_spoke_state : String → String → Option ℕ → Dict Json → Disk → Disk
  save_spoke_state tenant_id spoke_id last_seen telemetry =
      write_json (spoke_state_path tenant_id spoke_id) (
        table
          (("last_seen", shown_instant last_seen) ∷ ("telemetry", obj (to_fields telemetry)) ∷ []))

  -- A merge of an empty state changes nothing, as the test `if state:` has it.
  abbrev add_loaded : String → Disk → Option Spoke → List Spoke → List Spoke
  add_loaded tenant_id d none rest = rest
  add_loaded tenant_id d (some s) rest =
      merge_spoke_state s (load_spoke_state tenant_id s.id d) ∷ rest

  unfoldable pub spokes_of : String → Disk → List Json → List Spoke
  spokes_of tenant_id d [] = []
  spokes_of tenant_id d (row ∷ raw) =
      add_loaded tenant_id d (format.validate row) (spokes_of tenant_id d raw)

  unfoldable pub load_spokes : String → Disk → List Spoke
  load_spokes tenant_id d = spokes_of tenant_id d (read_rows (spoke_path tenant_id) d)

  unfoldable pub save_spokes : String → List Spoke → Disk → Disk
  save_spokes tenant_id spokes =
      write_json (spoke_path tenant_id) (rows (map (λ s. config_row (format.dump s)) spokes))

  unfoldable pub get_spoke : String → String → Disk → Option Spoke
  get_spoke tenant_id spoke_id d = find (λ s. s.id == spoke_id) (load_spokes tenant_id d)

  -- The first approved spoke of the tenant that has the name, but for `exclude_spoke_id`.
  unfoldable pub find_spoke_name_conflict : String → String → String → Disk → Option Spoke
  find_spoke_name_conflict tenant_id spoke_name exclude_spoke_id d =
      if (tenant_id == "") || (folded spoke_name == "")
      then none
      else find
          (λ s.
            is_approved s
            && (not
                  (not (folded exclude_spoke_id == "") && (folded s.id == folded exclude_spoke_id))
                && (folded s.spoke_name == folded spoke_name)))
          (load_spokes tenant_id d)

  -- `save_spoke`; the second write is made outside the lock.
  unfoldable pub save_spoke : Spoke → Disk → Disk
  save_spoke s d =
      let d' =
        save_spokes s.tenant_id
          (keep (λ i. not (i.id == s.id)) (load_spokes s.tenant_id d) ++ s ∷ []) d in
      if has_state s then save_spoke_state s.tenant_id s.id s.last_seen s.telemetry d' else d'

  abbrev pub mark_applied : ℕ → ℕ → Option Spoke → Disk → Disk
  mark_applied now version none d = d
  mark_applied now version (some s) d =
      save_spoke
        (record s {
          applied_config_version =
              if ltb s.applied_config_version version then version else s.applied_config_version;
          last_config_applied_at = some now;
        })
        d

  unfoldable pub mark_spoke_config_applied : ℕ → String → String → ℕ → Disk → Disk
  mark_spoke_config_applied now tenant_id spoke_id version d =
      mark_applied now version (get_spoke tenant_id spoke_id d) d

  unfoldable pub update_spoke_telemetry : ℕ → String → String → Dict Json → Disk → Disk
  update_spoke_telemetry now tenant_id spoke_id telemetry =
      save_spoke_state tenant_id spoke_id (some now) telemetry

  unfoldable pub delete_spoke : String → String → Disk → Disk
  delete_spoke tenant_id spoke_id d = unlink (audit_path tenant_id spoke_id) (
      unlink (queue_path tenant_id spoke_id)
        (save_spokes tenant_id (keep (λ i. not (i.id == spoke_id)) (load_spokes tenant_id d)) d))

  -- `approve_spoke`, given the key that `generate_api_key` draws and its ciphertext.
  unfoldable pub approve_spoke : String → String → String → String → Disk → Option String × Disk
  approve_spoke plain_key encrypted tenant_id spoke_id d =
      let spokes = load_spokes tenant_id d in
      if any (λ i. i.id == spoke_id) spokes
      then (
        some plain_key,
        save_spokes tenant_id
            (update_first (λ i. i.id == spoke_id)
              (λ i. record i { api_key_enc = some encrypted; status = "approved" }) spokes)
            d,
      )
      else (none, d)

  unfoldable pub revoke_spoke : String → String → Disk → Disk
  revoke_spoke tenant_id spoke_id d =
      save_spokes tenant_id
        (update_first (λ i. i.id == spoke_id)
          (λ i. record i { status = "revoked"; api_key_enc = none }) (load_spokes tenant_id d))
        d

  unfoldable pub rekey_spoke : String → String → String → Exec Bool
  rekey_spoke tenant_id old_spoke_id new_spoke_id d =
      let spokes = load_spokes tenant_id d in
      if old_spoke_id == new_spoke_id
      then (ok true, d)
      else if any (λ s. s.id == new_spoke_id) spokes
      then (raised value_error, d)
      else if any (λ s. s.id == old_spoke_id) spokes
      then (
        ok true,
        move_file (audit_path tenant_id old_spoke_id) (audit_path tenant_id new_spoke_id) (
            move_file (queue_path tenant_id old_spoke_id) (queue_path tenant_id new_spoke_id) (
              save_spokes tenant_id
                (update_first (λ s. s.id == old_spoke_id) (λ s. record s { id = new_spoke_id })
                  spokes)
                d)),
      )
      else (ok false, d)
