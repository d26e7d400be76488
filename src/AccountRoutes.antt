-- ===== src/AccountRoutes.antt =====
-- The routes of accounts: logins, tokens and passwords (app/routers/auth.py, app/routers/qa.py).
pub mod Changed
use webui_hub.Prelude.{
  ℕ, String, ◌≡◌, Bool, true, false, not, ◌&&◌, ◌||◌, Option, none, some, List, [], ◌∷◌, ◌==◌,
  if◌then◌else◌, map,
}
use webui_hub.Text.{strip, lower}
use webui_hub.Disk.{Disk}
use webui_hub.Exec.{
  Exec, Result, ok, raised, http_error, return, raise, reading, look, write, ◌>>=◌, ◌>>◌,
}
use webui_hub.Codec.{Codec}
use webui_hub.Models.{User, Tenant, TenantRole}
use webui_hub.Auth.{
  Passwords, Server, Jwt, Claims, authenticate_user, verify_password, hash_password, login_token,
  create_qa_runner_token,
}
use webui_hub.Store.Users.{save_user}
use webui_hub.Store.Tenants.{get_tenant, restore_missing}
use webui_hub.Store.Spokes.Format.{Instants}
use webui_hub.Store.QaKeys.{QaApiKey, QaKeyFormat, validate_qa_api_key}

-- The clients of the outside login providers: the user that they let in, if any. A client that
-- raises lets none in.
pub record Providers : Type 0 where
  pub ldap_authenticate : String → String → Option User
  pub radius_authenticate : String → String → Option User
  pub tacacs_authenticate : String → String → Option User

abbrev pub provider_login : Providers → String → String → String → Option User
provider_login providers provider username password =
    if provider == "ldap"
    then providers.ldap_authenticate username password
    else if provider == "radius"
    then providers.radius_authenticate username password
    else if provider == "tacacs"
    then providers.tacacs_authenticate username password
    else none

abbrev or_provider : Option User → Option User → Option User
or_provider none other = other
or_provider (some u) other = some u

abbrev found_or_401 : Option User → Result User
found_or_401 none = raised (http_error 401)
found_or_401 (some u) = ok u

-- A role as `/me` shows it, with the name of its tenant.
pub record RoleResponse : Type 0 where
  pub tenant_id : String
  pub role : String
  pub tenant_name : String

abbrev name_or_id : String → Option Tenant → String
name_or_id tenant_id none = tenant_id
name_or_id tenant_id (some t) = t.name

module _ ⦃tenants : Codec Tenant⦄ where
  unfoldable pub tenant_role_response : Disk → TenantRole → RoleResponse
  tenant_role_response d tr = record {
    tenant_id = tr.tenant_id;
    role = tr.role;
    tenant_name =
        name_or_id tr.tenant_id (if tr.tenant_id == "" then none else get_tenant tr.tenant_id d);
  }

  -- The roles of the user; its other fields are shown as they are.
  unfoldable pub me : User → Exec (List RoleResponse)
  me user = do write restore_missing; look (λ d. map (tenant_role_response d) user.tenant_roles)

module _ ⦃passwords : Passwords⦄ ⦃users : Codec User⦄ where
  -- The local account, else the configured provider.
  unfoldable pub login :
      {Token : Type 0} ⦃jwt : Jwt Token⦄
      → Providers
      → Server
      → ℕ
      → String
      → String
      → String
      → Exec Token
  login providers server now auth_provider username password = do
    user ← reading (λ d. found_or_401 (
        or_provider (authenticate_user username password d)
          (provider_login providers (lower (strip auth_provider)) username password)))
    return (login_token server now user.username)

  abbrev pub with_password : String → User → User
  with_password password user = record user { hashed_password = hash_password password }

  unfoldable pub change_password : String → String → User → Exec (Unit {0})
  change_password current_password new_password user =
      if verify_password current_password user.hashed_password
      then write (save_user (with_password new_password user))
      else raise (http_error 401)

unfoldable pub refresh_token : {Token : Type 0} ⦃jwt : Jwt Token⦄ → Server → ℕ → User → Token
refresh_token server now user = login_token server now user.username

module _ {Token : Type 0} ⦃jwt : Jwt Token⦄ where
  abbrev token_for : Server → ℕ → Option QaApiKey → Result (Token × String)
  token_for server now none = raised (http_error 401)
  token_for server now (some key) =
      ok (create_qa_runner_token server now key.tenant_id key.id, key.tenant_id)

  -- A token for the tenant of the key.
  unfoldable pub qa_auth :
      ⦃times : Instants⦄ ⦃format : QaKeyFormat⦄ → Server → ℕ → String → Exec (Token × String)
  qa_auth server now qa_api_key d =
      let found = validate_qa_api_key now qa_api_key d in (token_for server now found.0, found.1)
