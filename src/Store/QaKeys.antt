-- ===== src/Store/QaKeys.antt =====
-- API keys of the QA runner (app/store.py, lines 1806 to 1863); only a digest of a key is kept.
pub mod Validity
use webui_hub.Prelude.{
  ℕ, String, ◌≡◌, refl, Bool, true, false, not, Option, none, some, List, [], ◌∷◌, ◌++◌, ◌==◌,
  if◌then◌else◌, keep, length, eqb, find,
}
use webui_hub.Json.{Json, Dict, str, obj, get, put, to_fields, dict_of}
use webui_hub.Disk.{Disk, Content, rows, qa_api_keys_path, read_rows, write_json}
use webui_hub.Store.Spokes.Format.{Instants}

pub record QaApiKey : Type 0 where
  pub id : String
  pub tenant_id : String
  pub description : String
  pub key_hash : String
  pub created_by : String
  pub created_at : ℕ
  pub last_used_at : Option ℕ

-- The row of a file as a dict; the program writes no other rows.
abbrev pub rows_in : List Json → List (Dict Json)
rows_in [] = []
rows_in (j ∷ js) = dict_of j ∷ rows_in js

abbrev pub rows_out : List (Dict Json) → List Json
rows_out [] = []
rows_out (r ∷ rs) = obj (to_fields r) ∷ rows_out rs

-- `item.get(key) == value`
abbrev pub is_str : String → Option Json → Bool
is_str value (some (str v)) = v == value
is_str value _ = false

abbrev pub has_text : String → String → Dict Json → Bool
has_text key value r = is_str value (get key r)

-- `QaApiKey(**item)`, `model_dump(mode="json")`, and the SHA-256 digest of a key.
pub record QaKeyFormat ⦃times : Instants⦄ : Type 0 where
  pub validate : Dict Json → Option QaApiKey
  pub dump : QaApiKey → Dict Json
  pub sha256 : String → String
  pub validate-dump : (k : QaApiKey) → validate (dump k) ≡ some k
  pub validate-used :
      (k : QaApiKey) (now : ℕ)
      → validate (put "last_used_at" (str (times.show now)) (dump k))
        ≡ some (record k { last_used_at = some now })
  pub get-id : (k : QaApiKey) → get "id" (dump k) ≡ some (str k.id)
  pub get-key_hash : (k : QaApiKey) → get "key_hash" (dump k) ≡ some (str k.key_hash)

unfoldable pub load_rows : Disk → List (Dict Json)
load_rows d = rows_in (read_rows qa_api_keys_path d)

unfoldable pub save_rows : List (Dict Json) → Disk → Disk
save_rows rs = write_json qa_api_keys_path (rows (rows_out rs))

module _ ⦃times : Instants⦄ ⦃format : QaKeyFormat⦄ where
  abbrev add_listed : Option String → Option QaApiKey → List QaApiKey → List QaApiKey
  add_listed tenant_id none rest = rest
  add_listed none (some k) rest = k ∷ rest
  add_listed (some t) (some k) rest = if k.tenant_id == t then k ∷ rest else rest

  unfoldable pub listed : Option String → List (Dict Json) → List QaApiKey
  listed tenant_id [] = []
  listed tenant_id (r ∷ rs) = add_listed tenant_id (format.validate r) (listed tenant_id rs)

  unfoldable pub list_qa_api_keys : Option String → Disk → List QaApiKey
  list_qa_api_keys tenant_id d = listed tenant_id (load_rows d)

  unfoldable pub save_qa_api_key : QaApiKey → Disk → Disk
  save_qa_api_key key d =
      save_rows (keep (λ r. not (has_text "id" key.id r)) (load_rows d) ++ format.dump key ∷ []) d

  unfoldable pub delete_qa_api_key : String → Disk → Bool × Disk
  delete_qa_api_key key_id d =
      let kept = keep (λ r. not (has_text "id" key_id r)) (load_rows d) in
      if eqb (length kept) (length (load_rows d)) then (false, d) else (true, save_rows kept d)

  -- The first row with the digest, stamped.
  unfoldable pub stamped : ℕ → String → List (Dict Json) → List (Dict Json)
  stamped now hash [] = []
  stamped now hash (r ∷ rs) =
      let rest = stamped now hash rs in
      if has_text "key_hash" hash r
      then put "last_used_at" (str (times.show now)) r ∷ rs
      else r ∷ rest

  abbrev pub validated : ℕ → Option (Dict Json) → Option QaApiKey
  validated now none = none
  validated now (some r) = format.validate (put "last_used_at" (str (times.show now)) r)

  -- The file is written where a row has the digest, also if the row does not validate.
  abbrev pub stamp_found : ℕ → String → List (Dict Json) → Option (Dict Json) → Disk → Disk
  stamp_found now hash rs none d = d
  stamp_found now hash rs (some r) d = save_rows (stamped now hash rs) d

  unfoldable pub validate_qa_api_key : ℕ → String → Disk → Option QaApiKey × Disk
  validate_qa_api_key now raw_key d =
      let hash = format.sha256 raw_key in
      let matching = find (has_text "key_hash" hash) (load_rows d) in
      (validated now matching, stamp_found now hash (load_rows d) matching d)
