-- ===== src/AdminRoutes/Revoked.antt =====
-- What a revoked key may still do: the revocation of a key (`revoke_onboarding_psk` of
-- app/routers/superadmin.py) and the approval by a key (app/routers/spokes.py).
use webui_hub.Prelude.{
  String, ◌≡◌, refl, ap, ◌∙◌, Bool, true, false, not, ◌&&◌, ◌||◌, Option, none, some, List, [], ◌∷◌,
  ◌==◌, if◌then◌else◌, keep, any, elem, arith, eq_refl, eq_iff, find-key, sym, Bool-cases, inl, inr,
}
use webui_hub.Text.{strip}
use webui_hub.Disk.{Disk}
use webui_hub.Exec.{ok}
use webui_hub.Codec.{Codec}
use webui_hub.Crypto.{Fernet, decrypt_str}
use webui_hub.Models.{User, Tenant}
use webui_hub.Store.Tenants.{restore_missing, get_tenant, load_tenants, save_tenant}
use webui_hub.Store.Tenants.Purge.{get_tenant-restore_missing}
use webui_hub.Store.Tenants.Lifecycle.{get_tenant-save_tenant}
use webui_hub.SpokeRoutes.Fleet.{admin_of}
use webui_hub.SpokeRoutes.Registration.Pending.{holds, is_psk}
use webui_hub.AdminRoutes.Keys.{
  migrate_legacy_psk, safe_decrypt_eq, without_key, revoke_onboarding_psk,
}

-- Is the older key of the tenant nowhere else, if it has one?
abbrev pub is_stored_once : Tenant → Bool
is_stored_once t =
    (t.onboarding_psk_enc == "") || not (elem t.onboarding_psk_enc t.onboarding_psks_enc)

legacy-migrate_legacy_psk :
    (t : Tenant) → is_stored_once t ≡ true → (migrate_legacy_psk t).onboarding_psk_enc ≡ ""
unfolding migrate_legacy_psk
legacy-migrate_legacy_psk t h = elim (Bool-cases (t.onboarding_psk_enc == "")) [
  | inl e ↦ rw e ((eq_iff t.onboarding_psk_enc "").0 e)
  | inr e ↦ elim (Bool-cases (elem t.onboarding_psk_enc t.onboarding_psks_enc)) [
    | inl m ↦ ground (arith, h, e, m)
    | inr m ↦ rw (e, m) refl
  ]
]

id-migrate_legacy_psk : (t : Tenant) → (migrate_legacy_psk t).id ≡ t.id
unfolding migrate_legacy_psk
id-migrate_legacy_psk t =
    elim (Bool-cases
      (not (t.onboarding_psk_enc == "") && not (elem t.onboarding_psk_enc t.onboarding_psks_enc))) [
        | inl e ↦ rw e refl
        | inr e ↦ rw e refl
      ]

holds-other :
    (psk p : String) (o : Option String)
    → (not (holds psk o) && holds p o) ≡ (if psk == p then false else holds p o)
holds-other psk p none = ground arith
holds-other psk p (some t) = ground (arith, eq_iff t psk, eq_iff t p, eq_iff psk p)

module _ ⦃fernet : Fernet⦄ where
  any-keep_others :
      (psk p : String) (encs : List String)
      → any (λ e. holds p (decrypt_str e)) (keep (λ e. not (safe_decrypt_eq e psk)) encs)
        ≡ (if psk == p then false else any (λ e. holds p (decrypt_str e)) encs)
  unfolding safe_decrypt_eq
  any-keep_others psk p [] = ground arith
  any-keep_others psk p (e ∷ encs) = elim (Bool-cases (holds psk (decrypt_str e))) [
    | inl s ↦
        rw s (ground (arith, any-keep_others psk p encs, holds-other psk p (decrypt_str e), s))
    | inr s ↦
        rw s (ground (arith, any-keep_others psk p encs, holds-other psk p (decrypt_str e), s))
  ]

  keys-no_legacy :
      (t : Tenant)
      → t.onboarding_psk_enc ≡ ""
      → (migrate_legacy_psk t).onboarding_psks_enc ≡ t.onboarding_psks_enc
  unfolding migrate_legacy_psk
  keys-no_legacy t h = rw h refl

  is_psk-migrate_legacy_psk :
      (p : String) (t : Tenant)
      → is_psk p t ≡ any (λ e. holds p (decrypt_str e)) (migrate_legacy_psk t).onboarding_psks_enc
  unfolding is_psk migrate_legacy_psk
  is_psk-migrate_legacy_psk p t = refl

  abbrev without_it : String → Tenant → Tenant
  without_it psk t = record t {
    onboarding_psks_enc = keep (λ e. not (safe_decrypt_eq e psk)) t.onboarding_psks_enc;
  }

  without_key-named :
      (psk : String) (t : Tenant) → (psk == "") ≡ false → without_key psk t ≡ without_it psk t
  without_key-named psk t h = rw h refl

  is_psk-without_key :
      (psk p : String) (t : Tenant)
      → (psk == "") ≡ false
      → is_stored_once t ≡ true
      → is_psk p (without_key psk (migrate_legacy_psk t)) ≡ (if psk == p then false else is_psk p t)
  is_psk-without_key psk p t named once =
      ap (is_psk p) (without_key-named psk (migrate_legacy_psk t) named)
      ∙ is_psk-migrate_legacy_psk p (without_it psk (migrate_legacy_psk t))
      ∙ ap (any (λ e. holds p (decrypt_str e))) (
          keys-no_legacy (without_it psk (migrate_legacy_psk t)) (legacy-migrate_legacy_psk t once))
      ∙ any-keep_others psk p (migrate_legacy_psk t).onboarding_psks_enc
      ∙ ap (λ b. if psk == p then false else b) (sym (is_psk-migrate_legacy_psk p t))

  module _ ⦃tenants : Codec Tenant⦄ where
    -- An admin revokes a named key of a tenant, none of whose keys is stored both as its older key and
    -- among the others. Afterwards the key approves no spoke of the tenant, and every other key
    -- approves exactly if it did before.
    pub revoke_onboarding_psk_lem :
        (psk tenant_id : String) (user : User) (d : Disk) (t : Tenant)
        → admin_of tenant_id user ≡ ok user
        → get_tenant tenant_id d ≡ some t
        → (strip psk == "") ≡ false
        → is_stored_once t ≡ true
        → (left : Tenant) × (get_tenant tenant_id (revoke_onboarding_psk psk tenant_id user d).1
            ≡ some left)
          × ((p : String) → is_psk p left ≡ (if strip psk == p then false else is_psk p t))
    revoke_onboarding_psk_lem psk tenant_id user d t admin found named once = (
      without_key (strip psk) (migrate_legacy_psk t),
      stored,
      λ p. is_psk-without_key (strip psk) p t named once,
    )
      where
        here : get_tenant tenant_id (restore_missing d) ≡ some t
        here = get_tenant-restore_missing tenant_id d ∙ found

        run :
            (revoke_onboarding_psk psk tenant_id user d).1
            ≡ save_tenant (without_key (strip psk) (migrate_legacy_psk t)) (restore_missing d)
        run = unfold revoke_onboarding_psk in rw (admin, here) refl

        named_so : (without_key (strip psk) (migrate_legacy_psk t)).id ≡ tenant_id
        named_so =
            ap (λ (x : Tenant). x.id) (without_key-named (strip psk) (migrate_legacy_psk t) named)
            ∙ id-migrate_legacy_psk t
            ∙ find-key (λ (x : Tenant). x.id) tenant_id (load_tenants d) t
                (unfold get_tenant in found)

        stored :
            get_tenant tenant_id (revoke_onboarding_psk psk tenant_id user d).1
            ≡ some (without_key (strip psk) (migrate_legacy_psk t))
        stored =
            ap (get_tenant tenant_id) run
            ∙ get_tenant-save_tenant (without_key (strip psk) (migrate_legacy_psk t)) tenant_id
                (restore_missing d)
            ∙ chosen
          where
            chosen :
                (if (without_key (strip psk) (migrate_legacy_psk t)).id == tenant_id
                  then some (without_key (strip psk) (migrate_legacy_psk t))
                  else get_tenant tenant_id (restore_missing d))
                ≡ some (without_key (strip psk) (migrate_legacy_psk t))
            chosen = rw (named_so, eq_refl tenant_id) refl
