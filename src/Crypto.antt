-- ===== src/Crypto.antt =====
-- app/crypto.py: secrets at rest. Fernet, its key and the JSON text are parameters.
use webui_hub.Prelude.{ℕ, String, ◌≡◌, Option, none, some}
use webui_hub.Json.{Json, Dict, obj, num, str, of_fields, to_fields, of_fields-to_fields}

-- `Fernet(key)`, with the text coding on both sides. `none`: `decrypt` raises.
pub record Fernet : Type 0 where
  pub encrypt : String → String
  pub decrypt : String → Option String
  pub decrypt-encrypt : (t : String) → decrypt (encrypt t) ≡ some t

-- `json.dumps`, `json.loads`, `str(x)` and `int(x)` on JSON values. `none`: the call raises.
pub record JsonText : Type 0 where
  pub dumps : Json → String
  pub loads : String → Option Json
  pub str_of : Json → String
  pub int_of : Json → Option ℕ
  pub str_of_str : (t : String) → str_of (str t) ≡ t
  pub int_of_num : (n : ℕ) → int_of (num n) ≡ some n

module _ ⦃fernet : Fernet⦄ where
  unfoldable pub encrypt_str : String → String
  encrypt_str value = fernet.encrypt value

  unfoldable pub decrypt_str : String → Option String
  decrypt_str ciphertext = fernet.decrypt ciphertext

module _ ⦃fernet : Fernet⦄ ⦃json : JsonText⦄ where
  unfoldable pub encrypt_dict : Dict Json → String
  unfolding encrypt_str
  encrypt_dict d = encrypt_str (json.dumps (obj (to_fields d)))

  abbrev fields_of : Option Json → Option (Dict Json)
  fields_of (some (obj fs)) = some (of_fields fs)
  fields_of _ = none

  abbrev loaded : Option String → Option Json
  loaded none = none
  loaded (some t) = json.loads t

  -- `none`: the token is not of this key, or its text is no JSON dict.
  unfoldable pub decrypt_dict : String → Option (Dict Json)
  unfolding decrypt_str
  decrypt_dict ciphertext = fields_of (loaded (decrypt_str ciphertext))

  -- A dict that was encrypted is decrypted to itself.
  pub decrypt_dict-encrypt_dict :
      ((j : Json) → json.loads (json.dumps j) ≡ some j)
      → (d : Dict Json) → decrypt_dict (encrypt_dict d) ≡ some d
  unfolding decrypt_dict encrypt_dict
  decrypt_dict-encrypt_dict loads-dumps d =
      rw (fernet.decrypt-encrypt, loads-dumps, of_fields-to_fields)
