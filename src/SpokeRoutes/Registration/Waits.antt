-- ===== src/SpokeRoutes/Registration/Waits.antt =====
-- A registration that is answered as pending (app/routers/spokes.py, `register_spoke`).
use webui_hub.Prelude.{
  String, ◌≡◌, ◌≢◌, refl, ap, ◌∙◌, Bool, true, false, Option, none, some, ◌==◌, Bool-cases, inl,
  inr, if◌then◌else◌,
}
use webui_hub.Json.{Json, Dict}
use webui_hub.Disk.{
  Disk, FilePath, pending_path, exists, open_file, open_file-write_ne, open_file-unlink,
  path_eq-kind,
}
use webui_hub.Exec.{Result, ok, raised, write, and_then}
use webui_hub.Codec.{Codec}
use webui_hub.Crypto.{Fernet, JsonText}
use webui_hub.Hub.{Hub, Task, Frame, Keeps, done, on_disk, emit, then_run, quiet, when-Keeps, ◌>>=◌}
use webui_hub.Models.{Tenant, Spoke, PendingSpoke, Command}
use webui_hub.Store.Tenants.{save_tenant, save_tenants, restore_missing}
use webui_hub.Store.Tenants.Purge.{open_file-restore_missing}
use webui_hub.Store.Spokes.Format.{SpokeFormat, Instants}
use webui_hub.Store.Pending.{
  PendingFormat, rekey, get_pending_spoke, save_pending_spoke, rekey_pending_spoke,
  delete_pending_spoke,
}
use webui_hub.Store.Push.{Digest}
use webui_hub.SpokeRoutes.Registration.Names.{
  Given, Answer, Request, RegisterPayload, Uuids, approved_as, pending_as, reg_log_append,
}
use webui_hub.SpokeRoutes.Registration.Approved.{reregister}
use webui_hub.SpokeRoutes.Registration.Pending.{
  register_pending, psk_of, try_psk, approve_by_psk, is_psk, is_migrating,
}
use webui_hub.SpokeRoutes.Registration.Keeps.{
  register_pending-Keeps, requested_id-Keeps, resolved_hint-Keeps,
}
use webui_hub.SpokeRoutes.Registration.{register_spoke, register_as, answer_or_wait, request}

-- A task that does not answer as pending.
record Never (m : Task Answer) : Type 0 where
  never : (h : Hub) (i t : String) → (m h).0 ≢ ok (pending_as i t)

then_run-Never :
    {A : Type 0} (x : Result A) (f : A → Task Answer) (h : Hub) (i t : String)
    → ((a : A) → Never (f a))
    → (then_run x f h).0 ≢ ok (pending_as i t)
then_run-Never (ok a) f h i t k e = (k a).never h i t e
then_run-Never (raised x) f h i t k e = cc e

bind-Never :
    {A : Type 0} (m : Task A) {f : A → Task Answer} → ((a : A) → Never (f a)) → Never (m >>= f)
unfolding ◌>>=◌
bind-Never m {f} k = record { never = λ h i t e. then_run-Never (m h).0 f (m h).1 i t k e }

done-Never : (i t key : String) → Never (done (approved_as i t key))
done-Never i t key = record { never = λ h j u e. cc e }

module _ ⦃fernet : Fernet⦄ ⦃json : JsonText⦄ ⦃digest : Digest⦄ ⦃format : SpokeFormat⦄
    ⦃times : Instants⦄ ⦃commands : Codec Command⦄ ⦃tenants : Codec Tenant⦄
    ⦃pending : PendingFormat⦄ where
  reregister-Never : (g : Given) (r : Request) (t : String) (s : Spoke) → Never (reregister g r t s)
  unfolding reregister
  reregister-Never g r t s = bind-Never _ (λ s.
      bind-Never _
        (λ _. bind-Never _ (λ u. bind-Never _ (λ _. bind-Never _ (λ _. done-Never s.id t _)))))

  approve_by_psk-Never : (g : Given) (r : Request) → Never (approve_by_psk g r)
  unfolding approve_by_psk
  approve_by_psk-Never g r = bind-Never _ (λ _. bind-Never _ (λ _.
      bind-Never _ (λ _. bind-Never _ (λ _. bind-Never _ (λ _. done-Never _ r.tenant_hint _)))))

-- A task whose effect lies in the relation wherever it answers as pending.
record Waits (F : Frame) (m : Task Answer) : Type 0 where
  waits : (h : Hub) (i t : String) → (m h).0 ≡ ok (pending_as i t) → F.lies h (m h).1

module _ (F : Frame) where
  Keeps-Waits : {m : Task Answer} → Keeps F m → Waits F m
  Keeps-Waits k = record { waits = λ h i t e. k.kept h }

  Never-Waits : {m : Task Answer} → Never m → Waits F m
  Never-Waits k = record { waits = λ h i t e. absurd (k.never h i t e) }

  then_run-Waits :
      {A : Type 0} (x : Result A) (f : A → Task Answer) (g h : Hub) (i t : String)
      → F.lies g h
      → ((a : A) → Waits F (f a))
      → (then_run x f h).0 ≡ ok (pending_as i t)
      → F.lies g (then_run x f h).1
  then_run-Waits (ok a) f g h i t l k e = F.chains g h _ l ((k a).waits h i t e)
  then_run-Waits (raised x) f g h i t l k e = l

  bind-Waits :
      {A : Type 0} {m : Task A} {f : A → Task Answer}
      → Keeps F m
      → ((a : A) → Waits F (f a))
      → Waits F (m >>= f)
  unfolding ◌>>=◌
  bind-Waits {m} {f} k l = record {
    waits = λ h i t e. then_run-Waits (m h).0 f h (m h).1 i t (k.kept h) l e;
  }

  if-Waits : (b : Bool) {m n : Task Answer} → Waits F m → Waits F n → Waits F (if b then m else n)
  if-Waits true k l = k
  if-Waits false k l = l

-- A step that answers, though not as pending, or whose effect lies in the relation.
record Leads (F : Frame) (m : Task (Option Answer)) : Type 0 where
  goes_on : (h : Hub) → (m h).0 ≡ ok none → F.lies h (m h).1
  settled : (h : Hub) (i t : String) → (m h).0 ≢ ok (some (pending_as i t))

module _ (F : Frame) where
  none-Leads : Leads F (done none)
  none-Leads = record { goes_on = λ h e. F.stays h; settled = λ h i t e. cc e }

  then_run-goes_on :
      {A : Type 0} (x : Result A) (f : A → Task (Option Answer)) (g h : Hub)
      → F.lies g h
      → ((a : A) → Leads F (f a))
      → (then_run x f h).0 ≡ ok none
      → F.lies g (then_run x f h).1
  then_run-goes_on (ok a) f g h l k e = F.chains g h _ l ((k a).goes_on h e)
  then_run-goes_on (raised x) f g h l k e = l

  then_run-settled :
      {A : Type 0} (x : Result A) (f : A → Task (Option Answer)) (h : Hub) (i t : String)
      → ((a : A) → Leads F (f a))
      → (then_run x f h).0 ≢ ok (some (pending_as i t))
  then_run-settled (ok a) f h i t k e = (k a).settled h i t e
  then_run-settled (raised x) f h i t k e = cc e

  bind-Leads :
      {A : Type 0} {m : Task A} {f : A → Task (Option Answer)}
      → Keeps F m
      → ((a : A) → Leads F (f a))
      → Leads F (m >>= f)
  unfolding ◌>>=◌
  bind-Leads {m} {f} k l = record {
    goes_on = λ h e. then_run-goes_on (m h).0 f h (m h).1 (k.kept h) l e;
    settled = λ h i t e. then_run-settled (m h).0 f (m h).1 i t l e;
  }

  if-Leads :
      (b : Bool) {m n : Task (Option Answer)} → Leads F m → Leads F n → Leads F (if b then m else n)
  if-Leads true k l = k
  if-Leads false k l = l

  some_of-goes_on : (x : Result Answer) (h : Hub) → (then_run x (λ a. done (some a)) h).0 ≢ ok none
  some_of-goes_on (ok a) h e = cc e
  some_of-goes_on (raised x) h e = cc e

  some_of-settled :
      (x : Result Answer) (h : Hub) (i t : String)
      → (then_run x (λ a. done (some a)) h).0 ≡ ok (some (pending_as i t))
      → x ≡ ok (pending_as i t)
  some_of-settled (ok a) h i t e = cc e
  some_of-settled (raised x) h i t e = cc e

  answer-Leads : (m : Task Answer) → Never m → Leads F (m >>= λ a. done (some a))
  unfolding ◌>>=◌
  answer-Leads m k = record {
    goes_on = λ h e. absurd (some_of-goes_on (m h).0 (m h).1 e);
    settled = λ h i t e. k.never h i t (some_of-settled (m h).0 (m h).1 i t e);
  }

  module _ ⦃fernet : Fernet⦄ ⦃json : JsonText⦄ ⦃digest : Digest⦄ ⦃format : SpokeFormat⦄
      ⦃times : Instants⦄ ⦃commands : Codec Command⦄ ⦃tenants : Codec Tenant⦄
      ⦃pending : PendingFormat⦄ where
    answer_or_wait-Waits :
        (g : Given) (r : Request) (m : Task (Option Answer))
        → Leads F m
        → Keeps F (register_pending g r)
        → Waits F (m >>= answer_or_wait g r)
    unfolding ◌>>=◌
    answer_or_wait-Waits g r m l k = record { waits = λ h i t e. go h i t (m h).0 refl e }
      where
        go :
            (h : Hub) (i t : String) (x : Result (Option Answer))
            → (m h).0 ≡ x
            → (then_run x (answer_or_wait g r) (m h).1).0 ≡ ok (pending_as i t)
            → F.lies h (then_run x (answer_or_wait g r) (m h).1).1
        go h i t (ok none) q e = F.chains h (m h).1 _ (l.goes_on h q) (k.kept (m h).1)
        go h i t (ok (some a)) q e = absurd (l.settled h i t (q ∙ ap (λ y. ok (some y)) (cc e)))
        go h i t (raised x) q e = cc e

-- The file under a path is the same afterwards.
abbrev same_file : FilePath → Frame
same_file p = record {
  lies = λ g h. open_file p h.disk ≡ open_file p g.disk;
  stays = λ h. refl;
  chains = λ f g h a b. b ∙ a;
}

write-Keeps :
    (p : FilePath) (f : Disk → Disk)
    → ((d : Disk) → open_file p (f d) ≡ open_file p d)
    → Keeps (same_file p) (on_disk (write f))
write-Keeps p f k = record { kept = λ h. k h.disk }

log-Keeps :
    (p : FilePath) (g : Given) (event : String) (entry : Dict Json)
    → Keeps (same_file p) (reg_log_append g event entry)
unfolding reg_log_append
log-Keeps p g event entry = record { kept = λ h. refl }

emit-Keeps : (p : FilePath) (event : Dict Json) → Keeps (same_file p) (emit event)
emit-Keeps p event = record { kept = λ h. refl }

module _ ⦃pending : PendingFormat⦄ (p : FilePath) (other : ("pending" == p.kind) ≡ false) where
  save_pending-Keeps :
      (q : PendingSpoke) → Keeps (same_file p) (on_disk (write (save_pending_spoke q)))
  unfolding save_pending_spoke
  save_pending-Keeps q = write-Keeps p _ (λ d. open_file-write_ne _ p _ d (path_eq-kind _ p other))

  open_file-rekey :
      (old new : String) (x : Result (Option PendingSpoke)) (d : Disk)
      → open_file p (and_then x (rekey old new) d).1 ≡ open_file p d
  unfolding save_pending_spoke delete_pending_spoke
  open_file-rekey old new (ok none) d = refl
  open_file-rekey old new (ok (some q)) d = elim (Bool-cases (exists (pending_path new) d)) [
    | inl e ↦ rw e refl
    | inr e ↦ rw e (
        open_file-write_ne _ p _ _ (path_eq-kind _ p other)
        ∙ rw (open_file-unlink, path_eq-kind (pending_path old) p other) refl)
  ]
  open_file-rekey old new (raised x) d = refl

  rekey_pending-Keeps :
      (old new : String) → Keeps (same_file p) (on_disk (rekey_pending_spoke old new))
  unfolding rekey_pending_spoke
  rekey_pending-Keeps old new = record {
    kept = λ h. elim (Bool-cases (old == new)) [
      | inl e ↦ rw e refl
      | inr e ↦ rw e (open_file-rekey old new (get_pending_spoke old h.disk) h.disk)
    ];
  }

module _ ⦃fernet : Fernet⦄ ⦃json : JsonText⦄ ⦃digest : Digest⦄ ⦃format : SpokeFormat⦄
    ⦃times : Instants⦄ ⦃commands : Codec Command⦄ ⦃tenants : Codec Tenant⦄ ⦃pending : PendingFormat⦄
    (p : FilePath) (no_tenants : ("tenants" == p.kind) ≡ false)
    (other : ("pending" == p.kind) ≡ false) where
  save_tenant-Keeps : (t : Tenant) → Keeps (same_file p) (on_disk (write (save_tenant t)))
  unfolding save_tenant save_tenants
  save_tenant-Keeps t = write-Keeps p (save_tenant t) (λ d.
      open_file-write_ne _ p _ _ (path_eq-kind _ p no_tenants)
      ∙ open_file-restore_missing p d (path_eq-kind _ p no_tenants))

  psk_of-Leads : (g : Given) (r : Request) (t : Option Tenant) → Leads (same_file p) (psk_of g r t)
  psk_of-Leads g r none = bind-Leads _ (log-Keeps p g _ _) (λ _. none-Leads _)
  psk_of-Leads g r (some t) =
      bind-Leads _ (when-Keeps _ (is_migrating t) (save_tenant-Keeps _)) (λ _.
        if-Leads _ (is_psk r.psk t) (answer-Leads _ _ (approve_by_psk-Never g r))
          (bind-Leads _ (log-Keeps p g _ _) (λ _. none-Leads _)))

  try_psk-Leads : (g : Given) (r : Request) → Leads (same_file p) (try_psk g r)
  unfolding try_psk
  try_psk-Leads g r = if-Leads _ _ (bind-Leads _ (quiet _ _) (psk_of-Leads g r)) (none-Leads _)

  register_as-Waits :
      (g : Given) (r : Request) (found : Option (String × Spoke))
      → Waits (same_file p) (register_as g r found)
  register_as-Waits g r (some (t, s)) = Never-Waits _ (reregister-Never g r t s)
  register_as-Waits g r none = answer_or_wait-Waits _ g r _ (try_psk-Leads g r) (
      register_pending-Keeps _ (log-Keeps p) (emit-Keeps p) (save_pending-Keeps p other)
        (rekey_pending-Keeps p other) g r)

  register_spoke-Waits :
      ⦃uuids : Uuids⦄ → (g : Given) (q : RegisterPayload) → Waits (same_file p) (register_spoke g q)
  unfolding register_spoke
  register_spoke-Waits g q =
      bind-Waits _ (requested_id-Keeps _ (log-Keeps p) (emit-Keeps p) g q) (λ i.
        bind-Waits _
          (write-Keeps p restore_missing
            (λ d. open_file-restore_missing p d (path_eq-kind _ p no_tenants)))
          (λ _.
            bind-Waits _ (resolved_hint-Keeps _ (log-Keeps p) (emit-Keeps p) g q)
              (λ t. bind-Waits _ (quiet _ _) (register_as-Waits g (request q i t)))))

  -- A registration that is answered as pending leaves every file as it was, but for those of the
  -- tenants and of the spokes that wait: no spoke is approved, renamed or given a key, no queue and
  -- no audit log changes.
  pub register_spoke-pending :
      ⦃uuids : Uuids⦄
      → (g : Given) (q : RegisterPayload) (h : Hub) (i t : String)
      → (register_spoke g q h).0 ≡ ok (pending_as i t)
      → open_file p (register_spoke g q h).1.disk ≡ open_file p h.disk
  register_spoke-pending g q h i t e = (register_spoke-Waits g q).waits h i t e
