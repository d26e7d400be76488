-- ===== src/SpokeRoutes/Registration/Log.antt =====
-- The registration log stays short (app/routers/spokes.py, `_reg_log_append`, `register_spoke`).
use webui_hub.Prelude.{
  ℕ, String, ◌≤◌, ◌+◌, Bool, not, ◌&&◌, Option, none, some, List, [], ◌∷◌, ◌==◌, length, arith, ltb,
  Bool-cases, inl, inr,
}
use webui_hub.Json.{Json, Dict}
use webui_hub.Exec.{Exec}
use webui_hub.Codec.{Codec}
use webui_hub.Crypto.{Fernet, JsonText}
use webui_hub.Hub.{Hub, Frame, Keeps, on_disk, emit, quiet, bind-Keeps, if-Keeps, when-Keeps}
use webui_hub.Models.{Tenant, Spoke, PendingSpoke, Command}
use webui_hub.Store.Spokes.Format.{SpokeFormat, Instants}
use webui_hub.Store.Pending.{PendingFormat}
use webui_hub.Store.Push.{Digest, is_pending}
use webui_hub.SpokeRoutes.Registration.Names.{
  Given, Answer, Request, RegisterPayload, Uuids, reg_log_append, reg_log_max, last_entries,
}
use webui_hub.SpokeRoutes.Registration.Approved.{take_id, check_identity, settle, reregister}
use webui_hub.SpokeRoutes.Registration.Pending.{
  clean_up, is_there, delete_found, approve_by_psk, psk_of, try_psk, is_psk, is_migrating,
}
use webui_hub.SpokeRoutes.Registration.Keeps.{
  ensure_name-Keeps, register_pending-Keeps, reject-Keeps, requested_id-Keeps, resolved_hint-Keeps,
}
use webui_hub.SpokeRoutes.Registration.{register_spoke, register_as, answer_or_wait, request}

length-last_entries : {A : Type 0} (n : ℕ) (xs : List A) → length (last_entries n xs) ≤ n
unfolding last_entries
length-last_entries n [] = omega arith
length-last_entries n (x ∷ xs) = elim (Bool-cases (ltb n (1 + length xs))) [
  | inl e ↦ rw e (length-last_entries n xs)
  | inr e ↦ rw e (ground (arith, e))
]

abbrev bounded : Frame
bounded = record {
  lies = λ g h. length g.registration_log ≤ reg_log_max → length h.registration_log ≤ reg_log_max;
  stays = λ h b. b;
  chains = λ f g h k l b. l (k b);
}

logged :
    (g : Given) (event : String) (entry : Dict Json) → Keeps bounded (reg_log_append g event entry)
unfolding reg_log_append
logged g event entry = record { kept = λ h b. length-last_entries reg_log_max _ }

emitted : (event : Dict Json) → Keeps bounded (emit event)
emitted event = record { kept = λ h b. b }

stored : {A : Type 0} (m : Exec A) → Keeps bounded (on_disk m)
stored m = record { kept = λ h b. b }

module _ ⦃fernet : Fernet⦄ ⦃json : JsonText⦄ ⦃digest : Digest⦄ ⦃format : SpokeFormat⦄
    ⦃times : Instants⦄ ⦃commands : Codec Command⦄ ⦃tenants : Codec Tenant⦄
    ⦃pending : PendingFormat⦄ where
  identity_kept :
      (g : Given) (r : Request) (t : String) (s : Spoke) → Keeps bounded (check_identity g r t s)
  unfolding check_identity
  identity_kept g r t s =
      bind-Keeps _ (when-Keeps _ _ (ensure_name-Keeps _ logged emitted g _ t _ s.id _))
        (λ _. when-Keeps _ _ (bind-Keeps _ (logged g _ _) (λ _. quiet _ _)))

  settled : (g : Given) (t : String) (b : Bool) (s : Spoke) → Keeps bounded (settle g t b s)
  unfolding settle
  settled g t b s =
      bind-Keeps _ (when-Keeps _ b (stored _)) (λ _. when-Keeps _ (is_pending s) (stored _))

  taken : (r : Request) (t : String) (s : Spoke) → Keeps bounded (take_id r t s)
  unfolding take_id
  taken r t s =
      if-Keeps _ (not (r.spoke_id == "") && not (s.id == r.spoke_id))
        (bind-Keeps _ (stored _) (λ _. quiet _ _)) (quiet _ _)

  reregistered :
      (g : Given) (r : Request) (t : String) (s : Spoke) → Keeps bounded (reregister g r t s)
  unfolding reregister
  reregistered g r t s = bind-Keeps _ (taken r t s) (λ u. bind-Keeps _ (identity_kept g r t u) (λ _.
      bind-Keeps _ (stored _)
        (λ v. bind-Keeps _ (settled g t _ v) (λ _. bind-Keeps _ (logged g _ _) (λ _. quiet _ _)))))

  cleaned : (r : Request) → Keeps bounded (clean_up r)
  unfolding clean_up
  cleaned r = bind-Keeps _ (stored _) (λ stale.
      bind-Keeps _ (deleted stale)
        (λ _. when-Keeps _ _ (bind-Keeps _ (stored _) (λ l. when-Keeps _ (is_there l) (stored _)))))
    where
      deleted : (p : Option PendingSpoke) → Keeps bounded (delete_found p)
      deleted none = quiet _ _
      deleted (some p) = stored _

  approved : (g : Given) (r : Request) → Keeps bounded (approve_by_psk g r)
  unfolding approve_by_psk
  approved g r = bind-Keeps _ (ensure_name-Keeps _ logged emitted g _ _ _ _ _) (λ _.
      bind-Keeps _ (stored _) (λ _.
        bind-Keeps _ (cleaned r)
          (λ _. bind-Keeps _ (logged g _ _) (λ _. bind-Keeps _ (emitted _) (λ _. quiet _ _)))))

  psk_used : (g : Given) (r : Request) (t : Option Tenant) → Keeps bounded (psk_of g r t)
  psk_used g r none = reject-Keeps _ logged emitted g r 0
  psk_used g r (some t) = bind-Keeps _ (when-Keeps _ (is_migrating t) (stored _)) (λ _.
      if-Keeps _ (is_psk r.psk t) (bind-Keeps _ (approved g r) (λ _. quiet _ _))
        (reject-Keeps _ logged emitted g r _))

  psk_tried : (g : Given) (r : Request) → Keeps bounded (try_psk g r)
  unfolding try_psk
  psk_tried g r =
      if-Keeps _ (not (r.tenant_hint == "") && (not (r.spoke_name == "") && not (r.psk == "")))
        (bind-Keeps _ (stored _) (psk_used g r)) (quiet _ _)

  waits : (g : Given) (r : Request) (a : Option Answer) → Keeps bounded (answer_or_wait g r a)
  waits g r none = register_pending-Keeps _ logged emitted (λ p. stored _) (λ old new. stored _) g r
  waits g r (some a) = quiet _ _

  registered :
      (g : Given) (r : Request) (found : Option (String × Spoke))
      → Keeps bounded (register_as g r found)
  registered g r none = bind-Keeps _ (psk_tried g r) (waits g r)
  registered g r (some (t, s)) = reregistered g r t s

  register_spoke-Keeps :
      ⦃uuids : Uuids⦄ → (g : Given) (q : RegisterPayload) → Keeps bounded (register_spoke g q)
  unfolding register_spoke
  register_spoke-Keeps g q = bind-Keeps _ (requested_id-Keeps _ logged emitted g q) (λ i.
      bind-Keeps _ (stored _) (λ _.
        bind-Keeps _ (resolved_hint-Keeps _ logged emitted g q)
          (λ t. bind-Keeps _ (stored _) (registered g (request q i t)))))

  -- A registration, however it ends, leaves at most 100 entries in a log of at most 100 entries.
  pub length-register_spoke :
      ⦃uuids : Uuids⦄
      → (g : Given) (q : RegisterPayload) (h : Hub) → length h.registration_log ≤ reg_log_max
      → length (register_spoke g q h).1.registration_log ≤ reg_log_max
  length-register_spoke g q h b = (register_spoke-Keeps g q).kept h b
