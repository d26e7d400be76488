-- ===== src/Overrides.antt =====
-- The routes by which users override the configuration files of their simulators
-- (app/routers/aggregate.py, lines 853 to 1026 and 1085 to 1230). The requests to GitHub are
-- parameters.
pub mod Stored
use webui_hub.Prelude.{
  ℕ, String, Bool, true, false, not, ◌&&◌, Option, none, some, List, [], ◌∷◌, ◌++◌, ◌==◌,
  if◌then◌else◌, keep, elem,
}
use webui_hub.Text.{strip}
use webui_hub.Json.{Json, Dict, str, get, put, truthy}
use webui_hub.Disk.{Disk}
use webui_hub.Exec.{
  Exec, Result, ok, raised, http_error, attribute_error, return, raise, reading, look, write, ◌>>=◌,
  ◌>>◌,
}
use webui_hub.Codec.{Codec}
use webui_hub.Crypto.{Fernet, JsonText, decrypt_dict}
use webui_hub.Models.{User, Tenant, Spoke}
use webui_hub.Ini.{modify_ini_content}
use webui_hub.Store.Payload.{or_json}
use webui_hub.Store.Tenants.{restore_missing, get_tenant, save_tenant}
use webui_hub.Store.Spokes.{load_spokes, is_approved}
use webui_hub.Store.Spokes.Format.{SpokeFormat, Instants}
use webui_hub.SpokeRoutes.Fleet.{admin_of}

-- `tenant.user_conf_override or ""`
abbrev pub content_of : Option String → String
content_of none = ""
content_of (some t) = t

-- `content if content.strip() else None`
abbrev pub unless_blank : String → Option String
unless_blank content = if strip content == "" then none else some content

-- The call of `store.get_spokes`, which app/store.py does not define.
unfoldable pub push_conf_overrides_to_spokes : String → Exec ℕ
push_conf_overrides_to_spokes tenant_id = raise attribute_error

abbrev pub found_tenant : Option Tenant → Result Tenant
found_tenant none = raised (http_error 404)
found_tenant (some t) = ok t

abbrev pub active_overrides : String → Bool → List String → List String
active_overrides sim true current = if elem sim current then current else current ++ sim ∷ []
active_overrides sim false current = keep (λ s. not (s == sim)) current

abbrev pub list_or_empty : Option (List String) → List String
list_or_empty none = []
list_or_empty (some sims) = sims

abbrev pub with_active : String → String → Bool → Tenant → Tenant
with_active hostname sim enabled t = record t {
  client_sim_overrides =
      put hostname
        (active_overrides sim enabled (list_or_empty (get hostname t.client_sim_overrides)))
        t.client_sim_overrides;
}

-- The override that is stored, under the simulation's flag of the client.
abbrev pub with_flag : String → String → Bool → Tenant → Tenant
with_flag hostname sim enabled t = record t {
  user_conf_override =
      unless_blank (modify_ini_content (content_of t.user_conf_override) hostname sim enabled);
}

-- The requests to GitHub: the contents of `configs/user-overrides.conf`, and whether a text is
-- accepted in its place.
pub record GitHub : Type 0 where
  pub fetch : Tenant → Result String
  pub accepts : Tenant → String → Bool

abbrev pub pushed_to_github : GitHub → Tenant → String → String → Bool → Result String → Bool
pushed_to_github github t hostname sim enabled (raised e) = false
pushed_to_github github t hostname sim enabled (ok content) =
    github.accepts t (modify_ini_content content hostname sim enabled)

module _ ⦃tenants : Codec Tenant⦄ where
  -- `_require_tenant_admin`, then `_get_tenant`.
  abbrev pub admins_tenant : String → User → Exec Tenant
  admins_tenant tenant_id user = do
    u ← reading (λ d. admin_of tenant_id user)
    write restore_missing
    reading (λ d. found_tenant (get_tenant tenant_id d))

  unfoldable pub get_sim_conf_override : String → User → Exec (Option String)
  get_sim_conf_override tenant_id user = do
    t ← admins_tenant tenant_id user
    return t.sim_conf_override

  unfoldable pub get_user_conf_override : String → User → Exec (Option String)
  get_user_conf_override tenant_id user = do
    t ← admins_tenant tenant_id user
    return t.user_conf_override

  unfoldable pub get_client_sim_overrides : String → User → Exec (Dict (List String))
  get_client_sim_overrides tenant_id user = do
    t ← admins_tenant tenant_id user
    return t.client_sim_overrides

  -- The tenant is saved, then its spokes are pushed to; the number of these.
  abbrev pub change_override : String → User → (Tenant → Tenant) → Exec ℕ
  change_override tenant_id user change = do
    t ← admins_tenant tenant_id user
    write (save_tenant (change t))
    push_conf_overrides_to_spokes tenant_id

  unfoldable pub save_sim_conf_override : String → String → User → Exec ℕ
  save_sim_conf_override tenant_id content user =
      change_override tenant_id user (λ t. record t { sim_conf_override = some content })

  unfoldable pub clear_sim_conf_override : String → User → Exec ℕ
  clear_sim_conf_override tenant_id user =
      change_override tenant_id user (λ t. record t { sim_conf_override = none })

  unfoldable pub save_user_conf_override : String → String → User → Exec ℕ
  save_user_conf_override tenant_id content user =
      change_override tenant_id user (λ t. record t { user_conf_override = some content })

  unfoldable pub clear_user_conf_override : String → User → Exec ℕ
  clear_user_conf_override tenant_id user =
      change_override tenant_id user (λ t. record t { user_conf_override = none })

  unfoldable pub save_user_overrides_conf : String → String → User → Exec ℕ
  save_user_overrides_conf tenant_id content user =
      change_override tenant_id user (λ t. record t { user_conf_override = unless_blank content })

  module _ ⦃fernet : Fernet⦄ ⦃json : JsonText⦄ where
    abbrev stripped_at : String → Dict Json → String
    stripped_at key cfg = strip (json.str_of (or_json (get key cfg) (str "")))

    abbrev config_token : Option (Dict Json) → Result String
    config_token none = raised (http_error 500)
    config_token (some cfg) = ok (stripped_at "github_token" cfg)

    -- `_github_repo_settings(tenant)["github_token"]`
    unfoldable pub github_token : Option String → Result String
    github_token none = ok ""
    github_token (some enc) = if enc == "" then ok "" else config_token (decrypt_dict enc)

    -- Has GitHub taken the change?
    abbrev pub github_took : GitHub → Tenant → String → String → Bool → String → Bool
    github_took github t hostname sim enabled token =
        if token == ""
        then false
        else pushed_to_github github t hostname sim enabled (github.fetch t)

    -- The number of the spokes that are pushed to.
    unfoldable pub set_client_sim_override :
        GitHub → String → String → String → Bool → User → Exec ℕ
    set_client_sim_override github tenant_id hostname sim enabled user = do
      found ← admins_tenant tenant_id user
      let t = with_active hostname sim enabled found
      token ← reading (λ d. github_token t.github_config_enc)
      write (
          save_tenant (
            if github_took github t hostname sim enabled token
            then t
            else with_flag hostname sim enabled t))
      push_conf_overrides_to_spokes tenant_id

    abbrev telemetry_content : Spoke → Json
    telemetry_content s = or_json (get "user_overrides_conf_content" s.telemetry) (str "")

    abbrev first_reported : List Spoke → Json
    first_reported [] = str ""
    first_reported (s ∷ ss) =
        let rest = first_reported ss in
        if truthy (telemetry_content s) then telemetry_content s else rest

    module _ ⦃format : SpokeFormat⦄ ⦃times : Instants⦄ where
      -- The content, or the first one that an approved spoke reports.
      abbrev or_reported : String → String → Disk → Json
      or_reported tenant_id content d =
          if content == ""
          then first_reported (keep is_approved (load_spokes tenant_id d))
          else str content

      -- The content, and whether it is the one of GitHub or of the hub.
      unfoldable pub get_user_overrides_conf : GitHub → String → User → Exec (Json × String)
      get_user_overrides_conf github tenant_id user = do
        t ← admins_tenant tenant_id user
        token ← reading (λ d. github_token t.github_config_enc)
        if token == ""
            then (do
              content ← look (or_reported tenant_id (content_of t.user_conf_override))
              return (content, "override"))
            else if not (content_of t.user_conf_override == "")
            then return (str (content_of t.user_conf_override), "override")
            else (do
              fetched ← reading (λ d. github.fetch t)
              content ← look (or_reported tenant_id fetched)
              return (content, "github"))
