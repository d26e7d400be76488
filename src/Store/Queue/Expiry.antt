-- ===== src/Store/Queue/Expiry.antt =====
-- Removing expired commands from every queue file (app/store.py, `purge_expired_commands`).
use webui_hub.Prelude.{
  ℕ, ◌≡◌, refl, ap, sym, ◌∙◌, Bool, true, false, Option, none, some, [], ◌∷◌, ◌==◌, ◌+◌, ◌-◌,
  if◌then◌else◌, ltb, keep, length, arith, Bool-cases, inl, inr, length-keep, keep_of_length,
}
use webui_hub.Json.{Json, str, get, dict_of}
use webui_hub.Disk.{
  Disk, FilePath, Content, rows, table, corrupt, read_rows, open_file, path_eq, path_eq_iff,
  rows_of,
}
use webui_hub.Crypto.{JsonText}
use webui_hub.Store.Payload.{or_json}
use webui_hub.Store.Spokes.Format.{Instants}

module _ ⦃json : JsonText⦄ ⦃times : Instants⦄ where
  abbrev is_after : ℕ → Option ℕ → Bool
  is_after now none = false
  is_after now (some t) = ltb now t

  -- `datetime.fromisoformat(str(row.get("expires_at") or "")) > now`; a row whose text is no
  -- instant is not kept.
  abbrev pub is_unexpired : ℕ → Json → Bool
  is_unexpired now row =
      is_after now
        (times.read (str (json.str_of (or_json (get "expires_at" (dict_of row)) (str "")))))

  -- The rows that a file is left with, and how many are gone.
  abbrev pub purge_content : ℕ → Content → ℕ × Content
  purge_content now (rows raw) =
      let fresh = keep (is_unexpired now) raw in
      if ltb (length fresh) (length raw)
      then (length raw - length fresh, rows fresh)
      else (0, rows raw)
  purge_content now (table d) = (0, table d)
  purge_content now corrupt = (0, corrupt)

  unfoldable pub purge_expired_commands : ℕ → Disk → ℕ × Disk
  purge_expired_commands now [] = (0, [])
  purge_expired_commands now ((p, c) ∷ d) =
      let rest = purge_expired_commands now d in
      if p.kind == "queue"
      then ((purge_content now c).0 + rest.0, (p, (purge_content now c).1) ∷ rest.1)
      else (rest.0, (p, c) ∷ rest.1)

  rows-purge_content :
      (now : ℕ) (c : Content)
      → rows_of (some (purge_content now c).1) ≡ keep (is_unexpired now) (rows_of (some c))
  rows-purge_content now (table d) = refl
  rows-purge_content now corrupt = refl
  rows-purge_content now (rows raw) =
      elim (Bool-cases (ltb (length (keep (is_unexpired now) raw)) (length raw))) [
        | inl e ↦ rw e
        | inr e ↦ rw e (
            sym (
              keep_of_length (is_unexpired now) raw
                (ground (arith, length-keep (is_unexpired now) raw, e))))
      ]

  same_kind : (q p : FilePath) → path_eq q p ≡ true → (p.kind == "queue") ≡ (q.kind == "queue")
  same_kind q p e = ap (λ r. r.kind == "queue") (sym ((path_eq_iff q p).0 e))

  read_rows-purge_expired_commands :
      (now : ℕ) (p : FilePath) (d : Disk)
      → read_rows p (purge_expired_commands now d).1
        ≡ (if p.kind == "queue" then keep (is_unexpired now) (read_rows p d) else read_rows p d)
  unfolding purge_expired_commands read_rows open_file
  read_rows-purge_expired_commands now p [] = ground arith
  read_rows-purge_expired_commands now p ((q, c) ∷ d) = elim (Bool-cases (path_eq q p)) [
    | inl e ↦ elim (Bool-cases (q.kind == "queue")) [
      | inl k ↦ rw (same_kind q p e) (rw (k, e) (rows-purge_content now c))
      | inr k ↦ rw (same_kind q p e) (rw (k, e))
    ]
    | inr e ↦ elim (Bool-cases (q.kind == "queue")) [
      | inl k ↦ rw (k, e) (read_rows-purge_expired_commands now p d)
      | inr k ↦ rw (k, e) (read_rows-purge_expired_commands now p d)
    ]
  ]

  open_file-purge_expired_commands :
      (now : ℕ) (p : FilePath) (d : Disk)
      → (p.kind == "queue") ≡ false
      → open_file p (purge_expired_commands now d).1 ≡ open_file p d
  unfolding purge_expired_commands open_file
  open_file-purge_expired_commands now p [] h = refl
  open_file-purge_expired_commands now p ((q, c) ∷ d) h = elim (Bool-cases (q.kind == "queue")) [
    | inl k ↦ elim (Bool-cases (path_eq q p)) [
      | inl e ↦ cc (sym k ∙ sym (same_kind q p e) ∙ h)
      | inr e ↦ rw (k, e) (open_file-purge_expired_commands now p d h)
    ]
    | inr k ↦
        rw k
          (ap (λ o. if path_eq q p then some c else o) (open_file-purge_expired_commands now p d h))
  ]

  -- The purge leaves each queue file with its commands that have not expired, in their order, and
  -- the content of every other file as it was.
  pub purge_expired_commands_lem :
      (now : ℕ) (p : FilePath) (d : Disk)
      → ((p.kind == "queue") ≡ true
          → read_rows p (purge_expired_commands now d).1 ≡ keep (is_unexpired now) (read_rows p d))
        × ((p.kind == "queue") ≡ false
            → open_file p (purge_expired_commands now d).1 ≡ open_file p d)
  purge_expired_commands_lem now p d = (
    λ k. read_rows-purge_expired_commands now p d ∙ rw k refl,
    open_file-purge_expired_commands now p d,
  )
