-- ===== src/Store/Lookup.antt =====
-- Finding a spoke over all tenants (app/store.py, `get_spoke_by_api_key` to `get_spoke_by_name`).
pub mod Approved
use webui_hub.Prelude.{
  ℕ, String, ◌≡◌, refl, Bool, true, false, not, ◌&&◌, ◌||◌, Option, none, some, List, [], ◌∷◌, ◌==◌,
  if◌then◌else◌, keep, find,
}
use webui_hub.Disk.{Disk}
use webui_hub.Codec.{Codec}
use webui_hub.Crypto.{Fernet, decrypt_str}
use webui_hub.Models.{Tenant, Spoke}
use webui_hub.Store.Tenants.{load_tenants, restore_missing}
use webui_hub.Store.Spokes.{load_spokes, is_approved, folded}
use webui_hub.Store.Spokes.Format.{SpokeFormat, Instants}

abbrev is_text : String → Option String → Bool
is_text key none = false
is_text key (some t) = t == key

module _ ⦃fernet : Fernet⦄ where
  abbrev opens_with : String → Option String → Bool
  opens_with key none = false
  opens_with key (some e) = not (e == "") && is_text key (decrypt_str e)

  -- Is this the plaintext of the spoke's key? A key that cannot be decrypted is passed over.
  abbrev pub has_key : String → Spoke → Bool
  has_key key s = opens_with key s.api_key_enc

  module _ ⦃format : SpokeFormat⦄ ⦃times : Instants⦄ where
    -- It does not look at the status of the spoke.
    unfoldable pub get_spoke_by_api_key : String → String → Disk → Option Spoke
    get_spoke_by_api_key tenant_id api_key d = find (has_key api_key) (load_spokes tenant_id d)

module _ ⦃format : SpokeFormat⦄ ⦃times : Instants⦄ where
  abbrev pub or_next : String → Option Spoke → Option (String × Spoke) → Option (String × Spoke)
  or_next tenant_id none next = next
  or_next tenant_id (some s) next = some (tenant_id, s)

  -- The two loops that the lookups share: the first approved spoke that passes the test.
  unfoldable pub first_approved : (Spoke → Bool) → List Tenant → Disk → Option (String × Spoke)
  first_approved test [] d = none
  first_approved test (t ∷ ts) d =
      or_next t.id (find (λ s. is_approved s && test s) (load_spokes t.id d))
        (first_approved test ts d)

  module _ ⦃tenants : Codec Tenant⦄ where
    unfoldable pub get_approved_spoke_by_hostname : String → Disk → Option (String × Spoke)
    get_approved_spoke_by_hostname hostname d =
        first_approved (λ s. s.hostname == hostname) (load_tenants d) (restore_missing d)

    unfoldable pub get_approved_spoke_by_id : String → Disk → Option (String × Spoke)
    get_approved_spoke_by_id spoke_id d =
        first_approved (λ s. s.id == spoke_id) (load_tenants d) (restore_missing d)

    unfoldable pub get_spoke_by_name : String → Disk → Option (String × Spoke)
    get_spoke_by_name spoke_name d =
        if folded spoke_name == ""
        then none
        else first_approved (λ s. folded s.spoke_name == folded spoke_name) (load_tenants d)
            (restore_missing d)

    unfoldable pub get_approved_spoke_by_api_key :
        ⦃fernet : Fernet⦄ → String → String → Disk → Option (String × Spoke)
    get_approved_spoke_by_api_key api_key tenant_id d =
        if api_key == ""
        then none
        else first_approved (has_key api_key)
            (keep (λ t. (tenant_id == "") || (t.id == tenant_id)) (load_tenants d))
            (restore_missing d)
