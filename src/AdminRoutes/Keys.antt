-- ===== src/AdminRoutes/Keys.antt =====
-- The onboarding keys of a tenant (app/routers/superadmin.py, lines 448 to 524).
use webui_hub.Prelude.{
  String, Bool, true, false, not, ◌&&◌, Option, none, some, List, [], ◌∷◌, ◌++◌, ◌==◌,
  if◌then◌else◌, keep, elem,
}
use webui_hub.Text.{strip}
use webui_hub.Exec.{Exec, return, reading, write, ◌>>=◌, ◌>>◌}
use webui_hub.Codec.{Codec}
use webui_hub.Crypto.{Fernet, encrypt_str, decrypt_str}
use webui_hub.Models.{User, Tenant}
use webui_hub.Store.Tenants.{get_tenant, restore_missing, save_tenant}
use webui_hub.SpokeRoutes.Fleet.{admin_of}
use webui_hub.SpokeRoutes.Registration.Pending.{holds}
use webui_hub.Overrides.{found_tenant}

unfoldable pub migrate_legacy_psk : Tenant → Tenant
migrate_legacy_psk t =
    if not (t.onboarding_psk_enc == "") && not (elem t.onboarding_psk_enc t.onboarding_psks_enc)
    then record t {
      onboarding_psks_enc = t.onboarding_psk_enc ∷ t.onboarding_psks_enc;
      onboarding_psk_enc = "";
    }
    else t

abbrev consed : Option String → List String → List String
consed none psks = psks
consed (some psk) psks = psk ∷ psks

abbrev is_empty : List String → Bool
is_empty [] = true
is_empty (psk ∷ psks) = false

module _ ⦃fernet : Fernet⦄ where
  abbrev decrypted_psks : List String → List String
  decrypted_psks [] = []
  decrypted_psks (enc ∷ encs) = consed (decrypt_str enc) (decrypted_psks encs)

  -- The keys of a tenant whose older key has been put among them.
  unfoldable pub get_tenant_psks : Tenant → List String
  get_tenant_psks t = decrypted_psks (migrate_legacy_psk t).onboarding_psks_enc

  unfoldable pub safe_decrypt_eq : String → String → Bool
  safe_decrypt_eq enc plain = holds plain (decrypt_str enc)

  abbrev pub with_new_psk : String → Tenant → Tenant
  with_new_psk plain_psk t = record t {
    onboarding_psks_enc = t.onboarding_psks_enc ++ encrypt_str plain_psk ∷ [];
  }

  -- All keys where none is named.
  abbrev pub without_key : String → Tenant → Tenant
  without_key psk t =
      if not (psk == "")
      then record t {
        onboarding_psks_enc = keep (λ enc. not (safe_decrypt_eq enc psk)) t.onboarding_psks_enc;
      }
      else record t { onboarding_psks_enc = []; onboarding_psk_enc = "" }

  module _ ⦃tenants : Codec Tenant⦄ where
    unfoldable pub get_onboarding_psks : String → User → Exec (List String)
    get_onboarding_psks tenant_id user = do
      u ← reading (λ d. admin_of tenant_id user)
      write restore_missing
      t ← reading (λ d. found_tenant (get_tenant tenant_id d))
      return (get_tenant_psks t)

    -- The key is drawn.
    unfoldable pub generate_onboarding_psk : String → String → User → Exec (String × List String)
    generate_onboarding_psk plain_psk tenant_id user = do
      u ← reading (λ d. admin_of tenant_id user)
      write restore_missing
      t ← reading (λ d. found_tenant (get_tenant tenant_id d))
      write (save_tenant (with_new_psk plain_psk (migrate_legacy_psk t)))
      return (plain_psk, get_tenant_psks (with_new_psk plain_psk (migrate_legacy_psk t)))

    -- `body_psk` is the key that the body names, or "". The keys that are left, and whether there
    -- are any.
    unfoldable pub revoke_onboarding_psk : String → String → User → Exec (List String × Bool)
    revoke_onboarding_psk body_psk tenant_id user = do
      u ← reading (λ d. admin_of tenant_id user)
      write restore_missing
      t ← reading (λ d. found_tenant (get_tenant tenant_id d))
      let left = without_key (strip body_psk) (migrate_legacy_psk t)
      write (save_tenant left)
      return (get_tenant_psks left, not (is_empty (migrate_legacy_psk left).onboarding_psks_enc))
