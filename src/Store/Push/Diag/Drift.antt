-- ===== src/Store/Push/Diag/Drift.antt =====
-- The diagnosis of a spoke agrees with the drift check of its heartbeat.
use webui_hub.Prelude.{
  ℕ, String, ◌≡◌, refl, ap, sym, Bool, true, false, not, ◌&&◌, Option, none, some, List, arith,
  Bool-cases, inl, inr,
}
use webui_hub.Disk.{Disk}
use webui_hub.Exec.{Result, ok, raised}
use webui_hub.Codec.{Codec}
use webui_hub.Models.{Tenant, Spoke, Command}
use webui_hub.Crypto.{Fernet, JsonText}
use webui_hub.Store.Tenants.{get_tenant, restore_missing}
use webui_hub.Store.Spokes.{get_spoke, is_approved}
use webui_hub.Store.Spokes.Format.{SpokeFormat, Instants}
use webui_hub.Store.Payload.Whole.{build_spoke_config_payload}
use webui_hub.Store.Push.{
  Digest, authoritative_config_hash, is_pending, same_hash, check_and_fix_config_drift, fix_drift,
}
use webui_hub.Store.Push.Diag.{SpokeConfigDiag, PendingConfig, get_spoke_config_diag, with_configs}

abbrev pub is_tenant : Option Tenant → Bool
is_tenant none = false
is_tenant (some t) = true

abbrev in_sync : Result (Option SpokeConfigDiag) → Bool
in_sync (ok (some g)) = g.config_in_sync
in_sync _ = false

abbrev is_waiting : Result (Option SpokeConfigDiag) → Bool
is_waiting (ok (some g)) = g.push_pending
is_waiting _ = false

module _ ⦃fernet : Fernet⦄ ⦃json : JsonText⦄ ⦃digest : Digest⦄ ⦃format : SpokeFormat⦄
    ⦃times : Instants⦄ ⦃commands : Codec Command⦄ ⦃tenants : Codec Tenant⦄ where
  abbrev hash_of : Option Tenant → Disk → String
  hash_of o d = authoritative_config_hash o (build_spoke_config_payload o d)

  diagnosed :
      (s : Spoke) (o : Option Tenant) (d : Disk) (r : Result (List PendingConfig))
      (g : SpokeConfigDiag)
      → with_configs s o d r ≡ ok (some g)
      → (g.config_in_sync ≡ same_hash s.last_pushed_config_hash (hash_of o d))
        × (g.push_pending ≡ is_pending s)
  diagnosed s o d (raised e) g h = cc
  diagnosed s o d (ok pending) g h = (ap in_sync (sym h), ap is_waiting (sym h))

  drifts :
      (t : String) (s : Spoke) (o : Option Tenant) (d : Disk)
      → (fix_drift t s o d).0
        ≡ ok (is_tenant o && not (same_hash s.last_pushed_config_hash (hash_of o d)))
  drifts t s none d = refl
  drifts t s (some u) d = ground arith

  -- For a spoke that is diagnosed, the drift check answers that it bumped the version exactly where
  -- the spoke is approved, the diagnosis shows no pending push and a configuration out of step, and
  -- the tenant is there.
  pub check_and_fix-get_spoke_config_diag :
      (now : ℕ) (t i : String) (s : Spoke) (g : SpokeConfigDiag) (d : Disk)
      → get_spoke t i d ≡ some s
      → get_spoke_config_diag now t i d ≡ ok (some g)
      → (check_and_fix_config_drift t i d).0
        ≡ ok (
            is_approved s
            && (not g.push_pending
                && (is_tenant (get_tenant t (restore_missing d)) && not g.config_in_sync)))
  unfolding check_and_fix_config_drift get_spoke_config_diag
  check_and_fix-get_spoke_config_diag now t i s g d found h =
      let shown = diagnosed s _ _ _ g (rw found at h) in
      rw (found, shown.0, shown.1)
        (elim (Bool-cases (is_approved s)) [
          | inl a ↦ elim (Bool-cases (is_pending s)) [
            | inl p ↦ rw (a, p)
            | inr p ↦ rw (a, p) (drifts t s _ (restore_missing d))
          ]
          | inr a ↦ rw a
        ])
