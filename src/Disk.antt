-- ===== src/Disk.antt =====
-- The files under DATA_DIR (app/store.py, `_read_json`, `_write_json` and the `*_path` functions).
use webui_hub.Prelude.{
  String, ◌≡◌, refl, ◌↔◌, Bool, true, false, Option, none, some, List, [], ◌∷◌, arith, ◌==◌, eq_iff,
  ◌&&◌, if◌then◌else◌,
}
use webui_hub.Json.{Json, Dict}

-- A file's place: its kind, and the tenant and the spoke that its path names ("" if none).
pub record FilePath : Type 0 where
  pub kind : String
  pub tenant : String
  pub spoke : String

unfoldable pub path_eq : FilePath → FilePath → Bool
path_eq p q = (p.kind == q.kind) && ((p.tenant == q.tenant) && (p.spoke == q.spoke))

pub path_eq_iff : (p q : FilePath) → (path_eq p q ≡ true) ↔ (p ≡ q)
unfolding path_eq
path_eq_iff p q =
    ground (arith, eq_iff p.kind q.kind, eq_iff p.tenant q.tenant, eq_iff p.spoke q.spoke)

pub path_eq_refl : (p : FilePath) → path_eq p p ≡ true
path_eq_refl p = (path_eq_iff p p).1 refl

abbrev global : String → FilePath
global kind = record { kind = kind; tenant = ""; spoke = "" }

abbrev of_tenant : String → String → FilePath
of_tenant kind tenant_id = record { kind = kind; tenant = tenant_id; spoke = "" }

abbrev pub users_path : FilePath
users_path = global "users"

abbrev pub tenants_path : FilePath
tenants_path = global "tenants"

abbrev pub tenants_bak_path : FilePath
tenants_bak_path = global "tenants.bak"

abbrev pub global_config_path : FilePath
global_config_path = global "global_config"

abbrev pub oui_pool_path : FilePath
oui_pool_path = global "oui_pool"

abbrev pub qa_api_keys_path : FilePath
qa_api_keys_path = global "qa_api_keys"

abbrev pub pending_path : String → FilePath
pending_path spoke_id = record { kind = "pending"; tenant = ""; spoke = spoke_id }

abbrev pub spoke_path : String → FilePath
spoke_path tenant_id = of_tenant "spokes" tenant_id

abbrev pub mac_profiles_path : String → FilePath
mac_profiles_path tenant_id = of_tenant "mac_profiles" tenant_id

abbrev pub spoke_state_path : String → String → FilePath
spoke_state_path tenant_id spoke_id = record {
  kind = "spoke_state";
  tenant = tenant_id;
  spoke = spoke_id;
}

abbrev pub queue_path : String → String → FilePath
queue_path tenant_id spoke_id = record { kind = "queue"; tenant = tenant_id; spoke = spoke_id }

abbrev pub audit_path : String → String → FilePath
audit_path tenant_id spoke_id = record { kind = "audit"; tenant = tenant_id; spoke = spoke_id }

-- What a read finds: a list, a dict, or text that is no JSON or cannot be read.
pub data Content : Type 0 where
  rows : List Json → Content
  table : Dict Json → Content
  corrupt : Content

abbrev pub Disk : Type 0
Disk = List (FilePath × Content)

unfoldable pub open_file : FilePath → Disk → Option Content
open_file p [] = none
open_file p ((q, c) ∷ d) = let rest = open_file p d in if path_eq q p then some c else rest

unfoldable pub write_json : FilePath → Content → Disk → Disk
write_json p c [] = (p, c) ∷ []
write_json p c ((q, b) ∷ d) =
    let rest = write_json p c d in if path_eq q p then (q, c) ∷ d else (q, b) ∷ rest

-- `path.unlink()`
unfoldable pub unlink : FilePath → Disk → Disk
unlink p [] = []
unlink p ((q, b) ∷ d) = let rest = unlink p d in if path_eq q p then rest else (q, b) ∷ rest

-- `path.exists()`
abbrev found : Option Content → Bool
found none = false
found (some c) = true

unfoldable pub exists : FilePath → Disk → Bool
exists p d = found (open_file p d)

-- `_read_json(path) or []` at a file that holds a list. A file that is missing, corrupt or no list
-- (the program writes none) has no rows.
abbrev pub rows_of : Option Content → List Json
rows_of (some (rows l)) = l
rows_of _ = []

unfoldable pub read_rows : FilePath → Disk → List Json
read_rows p d = rows_of (open_file p d)

-- `_read_json(path) or {}` at a file that holds a dict.
abbrev table_of : Option Content → Dict Json
table_of (some (table t)) = t
table_of _ = []

unfoldable pub read_table : FilePath → Disk → Dict Json
read_table p d = table_of (open_file p d)

pub open_file-write_json :
    (p q : FilePath) (c : Content) (d : Disk)
    → open_file q (write_json p c d) ≡ (if path_eq p q then some c else open_file q d)
unfolding open_file write_json
open_file-write_json p q c [] = refl
open_file-write_json p q c ((r, b) ∷ d) =
    ground (arith, path_eq_iff p q, path_eq_iff r p, path_eq_iff r q, open_file-write_json p q c d)

pub open_file-unlink :
    (p q : FilePath) (d : Disk)
    → open_file q (unlink p d) ≡ (if path_eq p q then none else open_file q d)
unfolding open_file unlink
open_file-unlink p q [] = ground arith
open_file-unlink p q ((r, b) ∷ d) =
    ground (arith, path_eq_iff p q, path_eq_iff r p, path_eq_iff r q, open_file-unlink p q d)

pub read_rows-write_rows :
    (p q : FilePath) (l : List Json) (d : Disk)
    → read_rows q (write_json p (rows l) d) ≡ (if path_eq p q then l else read_rows q d)
unfolding read_rows
read_rows-write_rows p q l d = rw open_file-write_json (ground arith)

pub read_table-write_table :
    (p q : FilePath) (t : Dict Json) (d : Disk)
    → read_table q (write_json p (table t) d) ≡ (if path_eq p q then t else read_table q d)
unfolding read_table
read_table-write_table p q t d = rw open_file-write_json (ground arith)

-- Reads of other files do not see a write.
pub open_file-write_ne :
    (p q : FilePath) (c : Content) (d : Disk)
    → path_eq p q ≡ false
    → open_file q (write_json p c d) ≡ open_file q d
open_file-write_ne p q c d h = rw (open_file-write_json, h)

-- Files of two kinds are two files.
pub path_eq-kind : (p q : FilePath) → (p.kind == q.kind) ≡ false → path_eq p q ≡ false
unfolding path_eq
path_eq-kind p q h = ground (arith, h)

-- What is read of a file that is the same on two disks.
pub read_rows-same :
    (p : FilePath) (d e : Disk) → open_file p d ≡ open_file p e → read_rows p d ≡ read_rows p e
unfolding read_rows
read_rows-same p d e h = rw h

pub read_table-same :
    (p : FilePath) (d e : Disk) → open_file p d ≡ open_file p e → read_table p d ≡ read_table p e
unfolding read_table
read_table-same p d e h = rw h

-- The rewriting rules of reads after writes.
pub ruleset disk_laws = (
  open_file-write_json, open_file-unlink, read_rows-write_rows, read_table-write_table,
  path_eq_refl,
)
