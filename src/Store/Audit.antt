-- ===== src/Store/Audit.antt =====
-- The audit log of a spoke (app/store.py, lines 1581 to 1623): the last seven days.
use webui_hub.Prelude.{
  ℕ, String, ◌≡◌, ◌≤◌, refl, sym, ap, ◌∙◌, Bool, List, [], ◌∷◌, ◌++◌, ◌+◌, ◌*◌, ltb, keep, arith,
  keep-append,
}
use webui_hub.Disk.{
  Disk, rows, audit_path, read_rows, write_json, read_rows-write_rows, path_eq_refl,
}
use webui_hub.Exec.{Exec, Result, ok, reading, write, ◌>>=◌}
use webui_hub.Codec.{Codec, validate_all, dump_all, validate_all-dump_all}
use webui_hub.Models.{AuditEntry, day}

-- `e.timestamp > now - timedelta(days=7)`
abbrev pub is_recent : ℕ → AuditEntry → Bool
is_recent now e = ltb now (e.timestamp + 7 * day)

module _ ⦃entries : Codec AuditEntry⦄ where
  unfoldable pub load_audit : String → String → Disk → Result (List AuditEntry)
  load_audit tenant_id spoke_id d = validate_all (read_rows (audit_path tenant_id spoke_id) d)

  unfoldable pub append_audit : ℕ → AuditEntry → Exec (Unit {0})
  append_audit now entry = do
    log ← reading (load_audit entry.tenant_id entry.spoke_id)
    write (
        write_json (audit_path entry.tenant_id entry.spoke_id)
          (rows (dump_all (keep (is_recent now) (log ++ entry ∷ [])))))

  unfoldable pub get_audit : String → String → Disk → Result (List AuditEntry)
  get_audit tenant_id spoke_id d = load_audit tenant_id spoke_id d

  load_audit-append_audit :
      (now : ℕ) (e : AuditEntry) (t s : String) (log : List AuditEntry) (d : Disk)
      → e.tenant_id ≡ t
      → e.spoke_id ≡ s
      → load_audit t s d ≡ ok log
      → load_audit t s (append_audit now e d).1 ≡ ok (keep (is_recent now) (log ++ e ∷ []))
  unfolding append_audit
  load_audit-append_audit now e t s log d p q h =
      simp (p, q, h)
        (unfold load_audit in rw (read_rows-write_rows, path_eq_refl) (validate_all-dump_all _))

  keep-keep_recent :
      (at later : ℕ) (log : List AuditEntry)
      → at ≤ later
      → keep (is_recent later) (keep (is_recent at) log) ≡ keep (is_recent later) log
  keep-keep_recent at later [] h = refl
  keep-keep_recent at later (e ∷ log) h = ground (arith, keep-keep_recent at later log h)

  -- After two appends to one log, the second not before the first, the log holds what is recent at
  -- the second of the earlier entries and of the two new ones, in their order.
  pub get_audit-append_audit :
      (at later : ℕ) (e f : AuditEntry) (log : List AuditEntry) (d : Disk)
      → e.tenant_id ≡ f.tenant_id
      → e.spoke_id ≡ f.spoke_id
      → at ≤ later
      → get_audit f.tenant_id f.spoke_id d ≡ ok log
      → get_audit f.tenant_id f.spoke_id (append_audit later f (append_audit at e d).1).1
        ≡ ok (keep (is_recent later) (log ++ e ∷ f ∷ []))
  unfolding get_audit
  get_audit-append_audit at later e f log d t s order h =
      load_audit-append_audit later f f.tenant_id f.spoke_id _ (append_audit at e d).1 refl refl
        (load_audit-append_audit at e f.tenant_id f.spoke_id log d t s h)
      ∙ ap ok (
          keep-append (is_recent later) (keep (is_recent at) (log ++ e ∷ [])) (f ∷ [])
          ∙ (ap (λ xs. xs ++ keep (is_recent later) (f ∷ []))
                (keep-keep_recent at later (log ++ e ∷ []) order)
              ∙ (sym (keep-append (is_recent later) (log ++ e ∷ []) (f ∷ []))
                  ∙ ap (keep (is_recent later)) (append-assoc log))))
    where
      append-assoc : (xs : List AuditEntry) → (xs ++ e ∷ []) ++ f ∷ [] ≡ xs ++ e ∷ f ∷ []
      append-assoc [] = refl
      append-assoc (x ∷ xs) = ap (λ r. x ∷ r) (append-assoc xs)
