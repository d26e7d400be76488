-- ===== src/SpokeRoutes/Registration/Again.antt =====
-- A spoke that registers again (app/routers/spokes.py, `register_spoke`, from `if approved:` on).
use webui_hub.Prelude.{String, ◌≡◌, refl, Bool, true, false, ◌==◌, any, arith}
use webui_hub.Disk.{open_file, queue_path, audit_path}
use webui_hub.Exec.{ok, raised, http_error}
use webui_hub.Codec.{Codec}
use webui_hub.Crypto.{Fernet, JsonText}
use webui_hub.Hub.{Hub, ◌>>=◌}
use webui_hub.Models.{Tenant, Spoke, Command}
use webui_hub.Store.Spokes.{load_spokes, rekey_spoke}
use webui_hub.Store.Spokes.Format.{SpokeFormat, Instants}
use webui_hub.Store.Spokes.Rekeyed.{ids_of, with_id_moved, either, rekey_spoke_lem}
use webui_hub.Store.Pending.{PendingFormat}
use webui_hub.Store.Push.{Digest}
use webui_hub.SpokeRoutes.Registration.Names.{Given, Request, reg_log_append}
use webui_hub.SpokeRoutes.Registration.Approved.{
  reregister, take_id, check_identity, stored_key, is_refused,
}

module _ ⦃fernet : Fernet⦄ ⦃json : JsonText⦄ ⦃digest : Digest⦄ ⦃format : SpokeFormat⦄
    ⦃times : Instants⦄ ⦃commands : Codec Command⦄ ⦃tenants : Codec Tenant⦄
    ⦃pending : PendingFormat⦄ where
  -- A refusal leaves the files that the renaming leaves.
  refused_leaves :
      (g : Given) (r : Request) (t : String) (s : Spoke) (b : Bool) (h : Hub)
      → (r.spoke_id == "") ≡ false
      → (s.id == r.spoke_id) ≡ false
      → (rekey_spoke t s.id r.spoke_id h.disk).0 ≡ ok b
      → (s.spoke_name == r.spoke_name) ≡ true
      → is_refused (stored_key s) r.api_key ≡ true
      → ((reregister g r t s h).0 ≡ raised (http_error 401))
        × ((reregister g r t s h).1.disk ≡ (rekey_spoke t s.id r.spoke_id h.disk).1)
  unfolding reregister take_id check_identity reg_log_append ◌>>=◌ stored_key
  refused_leaves g r t s b h asked other renamed same refused =
      rw (asked, other) (rw renamed (rw same (rw refused (refl, refl))))

  -- A registration under the name of a spoke that is loaded, with another key than the one that the
  -- spoke has, and asking for another id, which no spoke has, is refused with 401. Yet the spoke has
  -- been renamed: it is loaded under the new id in the place of the old one, and its commands and its
  -- log are under the new id, if it has them.
  pub reregister-refused :
      (g : Given) (r : Request) (t : String) (s : Spoke) (h : Hub)
      → (r.spoke_id == "") ≡ false
      → (s.id == r.spoke_id) ≡ false
      → any (λ x. x.id == r.spoke_id) (load_spokes t h.disk) ≡ false
      → any (λ x. x.id == s.id) (load_spokes t h.disk) ≡ true
      → (s.spoke_name == r.spoke_name) ≡ true
      → (stored_key s == "") ≡ false
      → (r.api_key == "") ≡ false
      → (r.api_key == stored_key s) ≡ false
      → let after = (reregister g r t s h).1.disk in
        ((reregister g r t s h).0 ≡ raised (http_error 401))
        × (ids_of (load_spokes t after)
            ≡ with_id_moved s.id r.spoke_id (ids_of (load_spokes t h.disk)))
        × (open_file (queue_path t r.spoke_id) after
            ≡ either
                (open_file (queue_path t s.id) h.disk)
                (open_file (queue_path t r.spoke_id) h.disk))
        × (open_file (audit_path t r.spoke_id) after
            ≡ either
                (open_file (audit_path t s.id) h.disk)
                (open_file (audit_path t r.spoke_id) h.disk))
  reregister-refused g r t s h asked other free there same has given wrong =
      let (renamed, ids, queue, log) = rekey_spoke_lem t s.id r.spoke_id h.disk other free there in
      let (answer, disk) =
        refused_leaves g r t s true h asked other renamed same
          (ground (arith, has, given, wrong)) in
      rw disk (answer, ids, queue, log)
