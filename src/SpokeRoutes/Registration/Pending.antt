-- ===== src/SpokeRoutes/Registration/Pending.antt =====
-- The registration of a spoke that is not approved (app/routers/spokes.py, `register_spoke`): its
-- approval by a pre-shared key of the tenant, and its entry among the spokes that wait.
use webui_hub.Prelude.{
  ℕ, String, Bool, true, false, not, ◌&&◌, ◌||◌, Option, none, some, [], ◌∷◌, ◌==◌, if◌then◌else◌,
  any, elem, length,
}
use webui_hub.Json.{str, num, bool, same_dict}
use webui_hub.Exec.{reading, look, write}
use webui_hub.Codec.{Codec}
use webui_hub.Crypto.{Fernet, encrypt_str, decrypt_str}
use webui_hub.Hub.{Task, done, on_disk, emit, when, ◌>>=◌, ◌>>◌}
use webui_hub.Models.{Tenant, Spoke, PendingSpoke, centralized_mode}
use webui_hub.Store.Tenants.{get_tenant, save_tenant}
use webui_hub.Store.Spokes.{save_spoke}
use webui_hub.Store.Spokes.Format.{SpokeFormat, Instants}
use webui_hub.Store.Pending.{
  PendingFormat, get_pending_spoke, get_pending_by_hostname, rekey_pending_spoke,
  save_pending_spoke, delete_pending_spoke,
}
use webui_hub.SpokeRoutes.Registration.Names.{
  Given, Answer, Request, approved_as, pending_as, reg_log_append, ensure_name_available_for_tenant,
}

abbrev or_else : String → String → String
or_else t other = if t == "" then other else t

abbrev pub holds : String → Option String → Bool
holds psk none = false
holds psk (some t) = t == psk

-- A single key of an older record is put in front of the list.
abbrev pub is_migrating : Tenant → Bool
is_migrating t =
    not (t.onboarding_psk_enc == "") && not (elem t.onboarding_psk_enc t.onboarding_psks_enc)

abbrev pub migrated : Tenant → Tenant
migrated t =
    if is_migrating t
    then record t {
      onboarding_psks_enc = t.onboarding_psk_enc ∷ t.onboarding_psks_enc;
      onboarding_psk_enc = "";
    }
    else t

module _ ⦃fernet : Fernet⦄ where
  -- Does a key of the tenant decrypt to this one? A key that cannot be decrypted is passed over.
  unfoldable pub is_psk : String → Tenant → Bool
  is_psk psk t = any (λ e. holds psk (decrypt_str e)) (migrated t).onboarding_psks_enc

  -- `SpokeModel(...)`, with the defaults of the model.
  abbrev pub auto_spoke : Given → Request → Spoke
  auto_spoke g r = record {
    id = or_else r.spoke_id g.new_id;
    tenant_id = r.tenant_hint;
    hostname = r.hostname;
    label = or_else r.label r.hostname;
    spoke_name = r.spoke_name;
    assigned_site = "";
    assigned_sites = [];
    status = "approved";
    api_key_enc = some (encrypt_str g.new_key);
    proxmox_host = "";
    proxmox_token_enc = "";
    seed_config = r.config;
    config = r.config;
    processing_mode = centralized_mode;
    config_version = 0;
    applied_config_version = 0;
    last_config_applied_at = none;
    last_pushed_config_hash = none;
    last_seen = none;
    telemetry = [];
    created_at = g.now;
  }

module _ ⦃pending : PendingFormat⦄ where
  abbrev pub delete_found : Option PendingSpoke → Task (Unit {0})
  delete_found none = done tt
  delete_found (some p) = on_disk (write (delete_pending_spoke p.id))

  abbrev pub is_there : Option PendingSpoke → Bool
  is_there none = false
  is_there (some p) = true

  -- The entries that wait under the hostname or the id of a spoke that is approved now.
  unfoldable pub clean_up : Request → Task (Unit {0})
  clean_up r = do
    stale ← on_disk (reading (get_pending_by_hostname r.hostname))
    delete_found stale
    when (not (r.spoke_id == "")) (do
      leftover ← on_disk (reading (get_pending_spoke r.spoke_id))
      when (is_there leftover) (on_disk (write (delete_pending_spoke r.spoke_id))))

  module _ ⦃format : SpokeFormat⦄ ⦃times : Instants⦄ where
    module _ ⦃fernet : Fernet⦄ where
      unfoldable pub approve_by_psk : Given → Request → Task Answer
      approve_by_psk g r = do
        ensure_name_available_for_tenant g r.spoke_name r.tenant_hint r.hostname r.spoke_id
            (("spoke_id", str r.spoke_id) ∷ ("ip", str g.client_ip) ∷ [])
        on_disk (write (save_spoke (auto_spoke g r)))
        clean_up r
        reg_log_append g "psk_auto_approved" (
            ("hostname", str r.hostname)
            ∷ ("spoke_name", str r.spoke_name)
            ∷ ("spoke_id", str (auto_spoke g r).id)
            ∷ ("tenant_id", str r.tenant_hint)
            ∷ ("ip", str g.client_ip)
            ∷ [])
        emit (
            ("type", str "spoke_approved")
            ∷ ("spoke_id", str (auto_spoke g r).id)
            ∷ ("tenant_id", str r.tenant_hint)
            ∷ ("auto", bool true)
            ∷ [])
        done (approved_as (auto_spoke g r).id r.tenant_hint g.new_key)

      abbrev pub reject_psk : Given → Request → ℕ → Task (Option Answer)
      reject_psk g r configured = do
        reg_log_append g "psk_rejected" (
            ("hostname", str r.hostname)
            ∷ ("spoke_name", str r.spoke_name)
            ∷ ("tenant_hint", str r.tenant_hint)
            ∷ ("ip", str g.client_ip)
            ∷ ("psks_configured", num configured)
            ∷ [])
        done none

      module _ ⦃tenants : Codec Tenant⦄ where
        abbrev pub psk_of : Given → Request → Option Tenant → Task (Option Answer)
        psk_of g r none = reject_psk g r 0
        psk_of g r (some t) = do
          when (is_migrating t) (on_disk (write (save_tenant (migrated t))))
          (if is_psk r.psk t
              then (do answer ← approve_by_psk g r; done (some answer))
              else reject_psk g r (length (migrated t).onboarding_psks_enc))

        -- `none`: the registration goes on without a pre-shared key.
        unfoldable pub try_psk : Given → Request → Task (Option Answer)
        try_psk g r =
            if not (r.tenant_hint == "") && (not (r.spoke_name == "") && not (r.psk == ""))
            then (do tenant ← on_disk (look (get_tenant r.tenant_hint)); psk_of g r tenant)
            else done none

    -- The entry of the id, else that of the hostname, which takes the id that is asked for.
    abbrev pub take_pending_id : Request → Option PendingSpoke → Task (Option PendingSpoke)
    take_pending_id r none = done none
    take_pending_id r (some p) =
        if not (r.spoke_id == "") && not (p.id == r.spoke_id)
        then (do
          renamed ← on_disk (rekey_pending_spoke p.id r.spoke_id)
          done (some (record p { id = r.spoke_id })))
        else done (some p)

    abbrev pub or_by_hostname : Request → Option PendingSpoke → Task (Option PendingSpoke)
    or_by_hostname r (some p) = done (some p)
    or_by_hostname r none = do
      existing ← on_disk (reading (get_pending_by_hostname r.hostname))
      take_pending_id r existing

    abbrev pub found_by_id : Request → Task (Option PendingSpoke)
    found_by_id r =
        if r.spoke_id == "" then done none else on_disk (reading (get_pending_spoke r.spoke_id))

    unfoldable pub existing_pending : Request → Task (Option PendingSpoke)
    existing_pending r = do existing ← found_by_id r; or_by_hostname r existing

    abbrev hint_of : Option PendingSpoke → String
    hint_of none = ""
    hint_of (some p) = p.tenant_hint

    abbrev id_or : String → Option PendingSpoke → String
    id_or id none = id
    id_or id (some p) = p.id

    abbrev pub updated_pending : Request → PendingSpoke → PendingSpoke
    updated_pending r p = record p {
      hostname = r.hostname;
      label = or_else r.label p.label;
      spoke_name = r.spoke_name;
      tenant_hint = or_else r.tenant_hint p.tenant_hint;
      seed_config = if same_dict p.seed_config r.config then p.seed_config else r.config;
    }

    abbrev pub changes_pending : Request → PendingSpoke → Bool
    changes_pending r p =
        not (p.hostname == r.hostname)
        || ((not (r.label == "") && not (p.label == r.label))
            || (not (p.spoke_name == r.spoke_name)
                || ((not (r.tenant_hint == "") && not (p.tenant_hint == r.tenant_hint))
                    || not (same_dict p.seed_config r.config))))

    abbrev pub new_pending : Given → Request → PendingSpoke
    new_pending g r = record {
      id = or_else r.spoke_id g.new_id;
      hostname = r.hostname;
      label = r.label;
      spoke_name = r.spoke_name;
      tenant_hint = r.tenant_hint;
      seed_config = r.config;
      registered_at = g.now;
      last_seen = none;
    }

    abbrev pub save_waiting : Given → Request → Option PendingSpoke → Task Answer
    save_waiting g r (some p) = do
      let q = updated_pending r p
      when (changes_pending r p) (on_disk (write (save_pending_spoke q)))
      reg_log_append g "already_pending" (
          ("hostname", str r.hostname)
          ∷ ("spoke_name", str r.spoke_name)
          ∷ ("spoke_id", str q.id)
          ∷ ("tenant_hint", str q.tenant_hint)
          ∷ ("ip", str g.client_ip)
          ∷ [])
      done (pending_as q.id q.tenant_hint)
    save_waiting g r none = do
      let q = new_pending g r
      on_disk (write (save_pending_spoke q))
      reg_log_append g "new_pending" (
          ("hostname", str r.hostname)
          ∷ ("spoke_name", str r.spoke_name)
          ∷ ("spoke_id", str q.id)
          ∷ ("tenant_hint", str r.tenant_hint)
          ∷ ("ip", str g.client_ip)
          ∷ [])
      emit (
          ("type", str "pending_spoke_registered")
          ∷ ("hostname", str r.hostname)
          ∷ ("spoke_name", str r.spoke_name)
          ∷ ("spoke_id", str q.id)
          ∷ ("tenant_hint", str r.tenant_hint)
          ∷ [])
      done (pending_as q.id r.tenant_hint)

    unfoldable pub register_pending : Given → Request → Task Answer
    register_pending g r = do
      existing ← existing_pending r
      ensure_name_available_for_tenant g r.spoke_name (or_else r.tenant_hint (hint_of existing))
          r.hostname (id_or r.spoke_id existing)
          (("spoke_id", str (id_or r.spoke_id existing)) ∷ ("ip", str g.client_ip) ∷ [])
      save_waiting g r existing
