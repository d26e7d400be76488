-- ===== src/Examples/StoreRuns.antt =====
-- Runs of the lookups, the audit log, the pending spokes, the QA keys and the MAC profiles.
use mathlib.Core.List.{Mem}
use webui_hub.Prelude.{
  ℕ, String, ◌≡◌, ◌≢◌, refl, ap, true, Option, none, some, [], ◌∷◌, ◌*◌, if◌then◌else◌, arith,
}
use webui_hub.Json.{Json, Dict, str, null, get, truthy, put}
use webui_hub.Codec.{Codec, validate_all, validate_each}
use webui_hub.Disk.{
  Disk, tenants_path, spoke_path, rows, pending_path, exists, open_file, path_eq, read_table,
  read_rows,
}
use webui_hub.Exec.{ok, raised, value_error}
use webui_hub.Models.{PendingSpoke, AuditEntry, Spoke, day, Tenant}
use webui_hub.Store.Spokes.{load_spokes, spokes_of, merge_spoke_state, load_spoke_state}
use webui_hub.Store.Spokes.Format.{migrate_assigned_site}
use webui_hub.Store.Queue.{load_queue, load_queue-save_queue_self}
use webui_hub.Store.Tenants.{load_tenants, restore_missing}
use webui_hub.Crypto.{decrypt_str}
use webui_hub.Store.Lookup.{get_approved_spoke_by_api_key, first_approved}
use webui_hub.Store.Lookup.Approved.{get_approved_spoke_by_api_key-IsOwned}
use webui_hub.Store.Audit.{append_audit, get_audit, get_audit-append_audit, load_audit}
use webui_hub.Store.Pending.{
  PendingFormat, get_pending_spoke, save_pending_spoke, rekey_pending_spoke,
}
use webui_hub.Store.Pending.Rekeyed.{rekey_pending_spoke_lem, get_pending_spoke-save_pending_spoke}
use webui_hub.Store.QaKeys.{
  QaApiKey, QaKeyFormat, save_qa_api_key, delete_qa_api_key, validate_qa_api_key, load_rows,
}
use webui_hub.Store.QaKeys.Validity.{validate-save_qa_api_key, is_only}
use webui_hub.Store.Macs.{MacProfile, MacProfileEntry}
use webui_hub.Examples.Codecs.{text, number, pair, list, via}
use webui_hub.Examples.Rows.{command_codec, audit_codec, pending_codec}
use webui_hub.Examples.TenantRows.{tenant_codec}
use webui_hub.Examples.SpokeRows.{spoke_format, stroke_instants}
use webui_hub.Examples.Outside.{open_fernet}
use webui_hub.Examples.Data.{reboot, edge, queue_disk, acme}

queue_here : load_queue "acme" "s1" queue_disk ≡ ok (reboot ∷ [])
queue_here = load_queue-save_queue_self "acme" "s1" (reboot ∷ []) _

abbrev entry : AuditEntry
entry = record {
  id = "a1";
  spoke_id = "s1";
  tenant_id = "acme";
  task_type = "reboot";
  execution_mode = "centralized";
  status = "ok";
  detail = "";
  initiated_by = "alice";
  result = none;
  timestamp = 5;
}

no_entries : get_audit "acme" "s1" [] ≡ ok []
unfolding get_audit load_audit validate_all read_rows open_file
no_entries = refl

get_audit-append_audit_example :
    get_audit "acme" "s1" (append_audit (8 * day) entry (append_audit 9 entry []).1).1 ≡ ok []
get_audit-append_audit_example =
    get_audit-append_audit 9 (8 * day) entry entry [] [] refl refl (omega arith) no_entries

abbrev waiting : PendingSpoke
waiting = record {
  id = "p1";
  hostname = "new";
  label = "New";
  spoke_name = "new";
  tenant_hint = "acme";
  seed_config = [];
  registered_at = 3;
  last_seen = none;
}

abbrev first_row : Dict Json → Option PendingSpoke
first_row [] = none
first_row ((k, j) ∷ d) = pending_codec.validate j

abbrev row_of : PendingSpoke → Dict Json
row_of p = ("spoke", pending_codec.dump p) ∷ []

pub one_row : (p : PendingSpoke) → row_of p ≢ []
one_row p e = cc

instance abbrev pub pending_format : PendingFormat
pending_format = record {
  validate = first_row;
  dump = row_of;
  validate-dump = λ p. pending_codec.validate-dump p;
  dump_filled = one_row;
}

rekey_pending_spoke_lem_example :
    ((rekey_pending_spoke "p1" "p2" (save_pending_spoke waiting [])).0 ≡ (
      if exists (pending_path "p2") (save_pending_spoke waiting [])
      then raised value_error
      else ok true))
    × (get_pending_spoke "p2" (rekey_pending_spoke "p1" "p2" (save_pending_spoke waiting [])).1 ≡ (
        if exists (pending_path "p2") (save_pending_spoke waiting [])
        then get_pending_spoke "p2" (save_pending_spoke waiting [])
        else ok (some (record waiting { id = "p2" }))))
rekey_pending_spoke_lem_example =
    rekey_pending_spoke_lem "p1" "p2" "p2" waiting (save_pending_spoke waiting []) refl
      (get_pending_spoke-save_pending_spoke waiting "p1" [])

abbrev profile : MacProfile
profile = record {
  spoke_id = "s1";
  tenant_id = "acme";
  entries = record { vendor = "Apple"; oui = "3c:15:c2"; count = 2 } ∷ [];
  updated_at = 4;
  updated_by = "alice";
}

abbrev mac_entry_codec : Codec MacProfileEntry
mac_entry_codec =
    via (pair text (pair text number)) (λ r. (r.vendor, (r.oui, r.count)))
      (λ p. record { vendor = p.0; oui = p.1.0; count = p.1.1 }) (λ r. refl)

instance abbrev mac_codec : Codec MacProfile
mac_codec =
    via (pair text (pair text (pair (list mac_entry_codec) (pair number text))))
      (λ r. (r.spoke_id, (r.tenant_id, (r.entries, (r.updated_at, r.updated_by)))))
      (λ p. record {
        spoke_id = p.0;
        tenant_id = p.1.0;
        entries = p.1.1.0;
        updated_at = p.1.1.1.0;
        updated_by = p.1.1.1.1;
      })
      (λ r. refl)

profile_filled : truthy (mac_codec.dump profile) ≡ true
unfolding truthy
profile_filled = refl

abbrev plain_disk : Disk
plain_disk =
    (tenants_path, rows (tenant_codec.dump acme ∷ []))
    ∷ (spoke_path "acme", rows (spoke_format.dump edge ∷ []))
    ∷ []

abbrev unseen : Spoke
unseen = record edge { last_seen = none }

edge_by_key : get_approved_spoke_by_api_key "key" "acme" plain_disk ≡ some ("acme", unseen)
unfolding get_approved_spoke_by_api_key first_approved load_tenants validate_each read_rows
    open_file restore_missing exists path_eq load_spokes spokes_of merge_spoke_state
    load_spoke_state read_table decrypt_str migrate_assigned_site get
edge_by_key = refl

get_approved_spoke_by_api_key-IsOwned_example :
    (¬ (◌≡◌ {A = String} "key" ""))
    × (unseen.status ≡ "approved")
    × ((enc : String) × (unseen.api_key_enc ≡ some enc) × (decrypt_str enc ≡ some "key"))
    × ((t : Tenant) × Mem t (load_tenants plain_disk) × (t.id ≡ "acme"))
    × (¬ (◌≡◌ {A = String} "acme" "") → ◌≡◌ {A = String} "acme" "acme")
    × Mem unseen (load_spokes "acme" (restore_missing plain_disk))
get_approved_spoke_by_api_key-IsOwned_example =
    get_approved_spoke_by_api_key-IsOwned "key" "acme" "acme" unseen plain_disk edge_by_key

no_queue : (v : String) → load_queue "acme" v [] ≡ ok []
unfolding load_queue validate_all read_rows open_file
no_queue v = refl

abbrev qa_rest : Codec (String × String × String × ℕ)
qa_rest =
    via (pair text (pair text (pair text number))) (λ r. (r.0, (r.1, (r.2, r.3))))
      (λ p. (p.0, p.1.0, p.1.1.0, p.1.1.1)) (λ r. refl)

abbrev used_to : Option ℕ → Json
used_to none = null
used_to (some t) = str (stroke_instants.show t)

abbrev used_of : Option Json → Option ℕ
used_of (some (str s)) = stroke_instants.read (str s)
used_of _ = none

abbrev qa_build :
    String → String → Option ℕ → Option (String × String × String × ℕ) → Option QaApiKey
qa_build i h u none = none
qa_build i h u (some (t, d, b, c)) = some (record {
  id = i;
  tenant_id = t;
  description = d;
  key_hash = h;
  created_by = b;
  created_at = c;
  last_used_at = u;
})

abbrev qa_fields : Option Json → Option Json → Option Json → Option Json → Option QaApiKey
qa_fields (some (str i)) (some (str h)) u (some j) = qa_build i h (used_of u) (qa_rest.validate j)
qa_fields _ _ _ _ = none

abbrev qa_of : Dict Json → Option QaApiKey
qa_of d = qa_fields (get "id" d) (get "key_hash" d) (get "last_used_at" d) (get "rest" d)

abbrev qa_to : QaApiKey → Dict Json
qa_to k =
    ("id", str k.id)
    ∷ ("key_hash", str k.key_hash)
    ∷ ("last_used_at", used_to k.last_used_at)
    ∷ ("rest", qa_rest.dump (k.tenant_id, k.description, k.created_by, k.created_at))
    ∷ []

used_of-used_to : (u : Option ℕ) → used_of (some (used_to u)) ≡ u
used_of-used_to none = refl
used_of-used_to (some t) = stroke_instants.read-show t

qa_of-qa_to : (k : QaApiKey) → qa_of (qa_to k) ≡ some k
unfolding get
qa_of-qa_to k =
    ap (λ (u : Option ℕ). Option.some (record k { last_used_at = u }))
      (used_of-used_to k.last_used_at)

qa_of-used :
    (k : QaApiKey) (now : ℕ)
    → qa_of (put "last_used_at" (str (stroke_instants.show now)) (qa_to k))
      ≡ some (record k { last_used_at = some now })
unfolding get put
qa_of-used k now =
    ap (λ (u : Option ℕ). Option.some (record k { last_used_at = u }))
      (stroke_instants.read-show now)

qa_id : (k : QaApiKey) → get "id" (qa_to k) ≡ some (str k.id)
unfolding get
qa_id k = refl

qa_hash : (k : QaApiKey) → get "key_hash" (qa_to k) ≡ some (str k.key_hash)
unfolding get
qa_hash k = refl

instance abbrev qa_format : QaKeyFormat
qa_format = record {
  validate = qa_of;
  dump = qa_to;
  sha256 = λ t. t;
  validate-dump = qa_of-qa_to;
  validate-used = qa_of-used;
  get-id = qa_id;
  get-key_hash = qa_hash;
}

abbrev qa_key : QaApiKey
qa_key = record {
  id = "k1";
  tenant_id = "acme";
  description = "";
  key_hash = "raw";
  created_by = "root";
  created_at = 2;
  last_used_at = none;
}

no_rows : is_only "k1" "raw" (load_rows []) ≡ true
unfolding load_rows read_rows open_file
no_rows = refl

validate-save_qa_api_key_example :
    ((validate_qa_api_key 9 "raw" (save_qa_api_key qa_key [])).0
      ≡ some (record qa_key { last_used_at = some 9 }))
    × ((validate_qa_api_key 9 "raw" (delete_qa_api_key "k1" (save_qa_api_key qa_key [])).1).0
        ≡ none)
validate-save_qa_api_key_example = validate-save_qa_api_key 9 qa_key "raw" [] refl no_rows
