-- ===== src/Auth.antt =====
-- app/auth.py: passwords, tokens and the guards of the routes.
pub mod Tokens
pub mod Guards
use webui_hub.Prelude.{
  ℕ, String, ◌≡◌, ◌<◌, ◌≤◌, Bool, true, false, ◌&&◌, ◌||◌, not, Option, none, some, List, [], ◌∷◌,
  ◌==◌, ◌+◌, ◌*◌, elem, if◌then◌else◌, ltb,
}
use webui_hub.Disk.{Disk}
use webui_hub.Exec.{Result, ok, raised, http_error}
use webui_hub.Codec.{Codec}
use webui_hub.Models.{User, get_role, tenant_ids}
use webui_hub.Store.Users.{get_user}

-- passlib's bcrypt context, on passwords cut to 72 bytes (`plain.encode()[:72]`).
pub record Passwords : Type 0 where
  pub cut : String → String
  pub hash : String → String
  pub verify : String → String → Bool
  pub verify-hash : (p : String) → verify p (hash p) ≡ true
  pub hash_filled : (p : String) → (hash p == "") ≡ false

-- The claims that the program writes and reads; `none` is a claim that is missing.
pub record Claims : Type 0 where
  pub sub : Option String
  pub exp : ℕ
  pub bid : Option String
  pub qa_tenant : Option String
  pub qa_key_id : Option String

-- jose's tokens under the program's secret, at an instant in seconds. `none` is a `JWTError`: a
-- token of another secret, or one that has expired.
pub record Jwt (Token : Type 0) : Type 0 where
  pub encode : Claims → Token
  pub decode : ℕ → Token → Option Claims
  pub decode-encode :
      (now : ℕ) (c : Claims) → decode now (encode c) ≡ (if ltb c.exp now then none else some c)

-- What a process knows of itself: `SERVER_BOOT_ID` and `access_token_expire_minutes`.
pub record Server : Type 0 where
  pub boot_id : String
  pub expire_minutes : ℕ

abbrev pub qa_runner_sub : String
qa_runner_sub = "__qa_runner__"

abbrev pub qa_token_expire_minutes : ℕ
qa_token_expire_minutes = 120

abbrev text_of : Option String → String
text_of none = ""
text_of (some s) = s

module _ ⦃passwords : Passwords⦄ ⦃users : Codec User⦄ where
  unfoldable pub hash_password : String → String
  hash_password password = passwords.hash (passwords.cut password)

  unfoldable pub verify_password : String → String → Bool
  verify_password plain hashed =
      if hashed == "" then false else passwords.verify (passwords.cut plain) hashed

  abbrev pub checked : String → Option User → Option User
  checked password none = none
  checked password (some user) =
      if (user.hashed_password == "") || not (verify_password password user.hashed_password)
      then none
      else some user

  unfoldable pub authenticate_user : String → String → Disk → Option User
  authenticate_user username password d = checked password (get_user username d)

module _ {Token : Type 0} ⦃jwt : Jwt Token⦄ where
  -- `create_access_token(data, expires_delta)`; `minutes` is the settings' default where no delta is given.
  unfoldable pub create_access_token : Server → ℕ → Claims → ℕ → Token
  create_access_token server now data_claims minutes =
      jwt.encode (record data_claims { exp = now + 60 * minutes; bid = some server.boot_id })

  -- `{"sub": username}`, with the default life
  unfoldable pub login_token : Server → ℕ → String → Token
  unfolding create_access_token
  login_token server now username =
      create_access_token server now
        (record { sub = some username; exp = 0; bid = none; qa_tenant = none; qa_key_id = none })
        server.expire_minutes

  unfoldable pub create_qa_runner_token : Server → ℕ → String → String → Token
  unfolding create_access_token
  create_qa_runner_token server now tenant_id key_id =
      create_access_token server now
        (record {
          sub = some qa_runner_sub;
          exp = 0;
          bid = none;
          qa_tenant = some tenant_id;
          qa_key_id = some key_id;
        })
        qa_token_expire_minutes

-- The synthetic user of the QA runner.
abbrev pub qa_user : ℕ → String → User
qa_user now tenant_id = record {
  id = qa_runner_sub;
  username = qa_runner_sub;
  hashed_password = "";
  is_superadmin = false;
  tenant_roles = record { tenant_id = tenant_id; role = "admin" } ∷ [];
  created_at = now;
}

abbrev pub or_unauthorized : Option User → Result User
or_unauthorized none = raised (http_error 401)
or_unauthorized (some user) = ok user

module _ ⦃users : Codec User⦄ where
  abbrev pub user_of_claims : Server → ℕ → Disk → Option Claims → Result User
  user_of_claims server now d none = raised (http_error 401)
  user_of_claims server now d (some c) =
      if text_of c.sub == ""
      then raised (http_error 401)
      else if not (text_of c.bid == server.boot_id)
      then raised (http_error 401)
      else if text_of c.sub == qa_runner_sub
      then (if text_of c.qa_tenant == ""
          then raised (http_error 401)
          else ok (qa_user now (text_of c.qa_tenant)))
      else or_unauthorized (get_user (text_of c.sub) d)

module _ {Token : Type 0} ⦃jwt : Jwt Token⦄ ⦃users : Codec User⦄ where
  -- `_decode_token`
  unfoldable pub decode_access_token : Server → ℕ → Token → Disk → Result User
  decode_access_token server now token d = user_of_claims server now d (jwt.decode now token)

-- `Depends(require_…)`: the user goes through, or the route answers with the status code.
unfoldable pub require_superadmin : User → Result User
require_superadmin user = if user.is_superadmin then ok user else raised (http_error 403)

unfoldable pub require_tenant_access : String → User → Result User
unfolding tenant_ids
require_tenant_access tenant_id user =
    if user.is_superadmin
    then ok user
    else if elem tenant_id (tenant_ids user)
    then ok user
    else raised (http_error 403)

abbrev is_admin_role : Option String → Bool
is_admin_role none = false
is_admin_role (some role) = role == "admin"

unfoldable pub require_tenant_admin : String → User → Result User
unfolding get_role
require_tenant_admin tenant_id user =
    if user.is_superadmin
    then ok user
    else if is_admin_role (get_role user tenant_id)
    then ok user
    else raised (http_error 403)

-- It differs from `require_tenant_access` in its log and its message.
unfoldable pub require_tenant_member : String → User → Result User
unfolding tenant_ids
require_tenant_member tenant_id user =
    if user.is_superadmin
    then ok user
    else if elem tenant_id (tenant_ids user)
    then ok user
    else raised (http_error 403)
