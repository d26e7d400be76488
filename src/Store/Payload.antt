-- ===== src/Store/Payload.antt =====
-- The configuration that a tenant pushes to its spokes (app/store.py, lines 792 to 800 and 979 to
-- 1148).
pub mod Sorted
pub mod Whole
use webui_hub.Prelude.{
  ℕ, String, ◌≡◌, refl, Bool, true, false, ◌&&◌, ◌||◌, not, Option, none, some, List, [], ◌∷◌, ◌++◌,
  ◌==◌, map, if◌then◌else◌, elem, keep, any,
}
use Prim.Native.Nat.{Ordering}
use Prim.Native.Char.{code}
use Prim.Native.String.{compare}
use Prim.Native.String
use webui_hub.Text.{strip, lower}
use webui_hub.Json.{
  Json, Dict, Items, nil, cons, null, num, str, arr, obj, get, put, dict_of, truthy, to_fields,
  of_fields,
}
use webui_hub.Disk.{Disk, global_config_path, read_table}
use webui_hub.Models.{Tenant, text_or}
use webui_hub.Crypto.{Fernet, JsonText, decrypt_dict}
use webui_hub.Store.Usb.{
  dicts_of, items_of, effective_usb_vidpids_from, get_global_usb_vidpids, pop_source,
}

abbrev relay_config_keys : List String
relay_config_keys =
    "relay_server_url" ∷ "relay_api_key" ∷ "relay_tenant_id" ∷ "hub_tls_verify" ∷ "relay_spoke_id"
    ∷ "relay_spoke_name" ∷ []

abbrev hub_local_config_keys : List String
hub_local_config_keys = "repo_url" ∷ "sim_repo_url" ∷ "sim_repo_branch" ∷ []

abbrev is_centralized_or_distributed : String → Bool
is_centralized_or_distributed v = (v == "centralized") || (v == "distributed")

-- `str(modes.get(key, "centralized")).strip().lower()`, or the default where it names no mode.
abbrev mode_or_default : Option String → String
mode_or_default none = "centralized"
mode_or_default (some v) =
    if is_centralized_or_distributed (lower (strip v)) then lower (strip v) else "centralized"

-- `_tenant_processing_modes(tenant)[key]` at a key of `_PROCESSING_MODE_DEFAULTS`.
unfoldable pub processing_mode : Option Tenant → String → String
processing_mode none key = "centralized"
processing_mode (some t) key = mode_or_default (get key t.processing_modes)

-- `a or b`
abbrev pub or_json : Option Json → Json → Json
or_json none b = b
or_json (some a) b = if truthy a then a else b

-- `cfg.get(key, default)`
abbrev pub get_default : String → Dict Json → Json → Json
get_default key cfg default = elim (get key cfg) [ none ↦ default | some v ↦ v ]

-- `sorted(set)` of texts, in the order of their code points.
pub insert_text : String → List String → List String
insert_text t [] = t ∷ []
insert_text t (x ∷ xs) =
    let rest = insert_text t xs in
    elim (compare t x) [ Ordering.lt ↦ t ∷ x ∷ xs | Ordering.eq ↦ x ∷ xs | Ordering.gt ↦ x ∷ rest ]

unfoldable pub sorted_set : List String → List String
unfolding insert_text
sorted_set [] = []
sorted_set (t ∷ ts) = insert_text t (sorted_set ts)

pub texts : List String → Items
texts [] = nil
texts (t ∷ ts) = cons (str t) (texts ts)

-- The texts between commas, stripped, without the empty ones.
pub split_commas : String → String → List String
split_commas part String.[] = if strip part == "" then [] else strip part ∷ []
split_commas part (String.◌∷◌ c s) =
    let here = split_commas String.[] s in
    let longer = split_commas (String.◌++◌ part (String.◌∷◌ c String.[])) s in
    if String.◌∷◌ c String.[] == ","
    then (if strip part == "" then here else strip part ∷ here)
    else longer

module _ ⦃fernet : Fernet⦄ ⦃json : JsonText⦄ where
  -- `{str(v).lower() for v in l if v}`
  lowered : Items → List String
  lowered nil = []
  lowered (cons v vs) =
      let rest = lowered vs in if truthy v then lower (json.str_of v) ∷ rest else rest

  -- `{str(d.get("vidpid") or "").lower() for d in l if d.get("vidpid")}`
  lowered_vidpids : List (Dict Json) → List String
  lowered_vidpids [] = []
  lowered_vidpids (d ∷ ds) =
      let rest = lowered_vidpids ds in
      let v = get_default "vidpid" d null in if truthy v then lower (json.str_of v) ∷ rest else rest

  abbrev listed : Option Json → Items
  listed (some (arr js)) = js
  listed _ = nil

  -- The tenant's own ignored list: a list, or the text of one.
  existing_ignored : Json → Items
  existing_ignored (str t) = listed (json.loads t)
  existing_ignored (arr js) = js
  existing_ignored _ = nil

  is_pushed : String × Json → Bool
  is_pushed (key, value) =
      not (elem key relay_config_keys)
      && (not (elem key hub_local_config_keys) && not (key == "usb_vidpids"))

  abbrev add_usb : List (Dict Json) → Bool → Dict Json → Dict Json
  add_usb [] false payload = payload
  add_usb effective _ payload =
      put "usb_vidpids" (arr (items_of (map pop_source effective))) payload

  abbrev is_some : Option Json → Bool
  is_some none = false
  is_some (some j) = true

  abbrev add_ignored : List (Dict Json) → Json → Dict Json → Dict Json
  add_ignored [] existing payload = payload
  add_ignored (d ∷ ds) existing payload =
      put "usb_ignored_vidpids"
        (str (
          json.dumps (
            arr (
              texts
                (sorted_set (lowered_vidpids (d ∷ ds) ++ lowered (existing_ignored existing)))))))
        payload

  -- `_hub_core_config`
  unfoldable pub hub_core_config : Option Tenant → Disk → Dict Json
  unfolding lowered lowered_vidpids existing_ignored is_pushed texts
  hub_core_config none d = []
  hub_core_config (some t) d =
      add_ignored (dicts_of (get "usb_ignored_vidpids" (read_table global_config_path d)))
        (get_default "usb_ignored_vidpids" t.hub_config (str "[]"))
        (add_usb (effective_usb_vidpids_from (get_global_usb_vidpids d) (some t))
          (is_some (get "usb_vidpids" t.hub_config)) (keep is_pushed t.hub_config))

  abbrev decrypted : Option String → Option (Dict Json)
  decrypted none = none
  decrypted (some e) = if e == "" then none else decrypt_dict e

  abbrev pub enc_of : (Tenant → Option String) → Option Tenant → Option (Dict Json)
  enc_of field none = none
  enc_of field (some t) = decrypted (field t)

  abbrev pub stripped : Json → String
  stripped j = strip (json.str_of j)

  abbrev github_config : Option (Dict Json) → Dict Json
  github_config none = []
  github_config (some cfg) =
      ("repo_url", str (stripped (or_json (get "sim_repo_url" cfg) (str ""))))
      ∷ (
        "repo_branch",
        str (text_or (some (stripped (or_json (get "sim_repo_branch" cfg) (str "main")))) "main"),
      )
      ∷ ("github_token", str (stripped (or_json (get "github_token" cfg) (str ""))))
      ∷ []

  -- `_hub_github_config`: nothing where there is no configuration or it cannot be decrypted.
  unfoldable pub hub_github_config : Option Tenant → Dict Json
  hub_github_config tenant = github_config (enc_of (λ t. t.github_config_enc) tenant)

  abbrev text_or_null : Option String → Json
  text_or_null none = null
  text_or_null (some t) = str t

  -- `_hub_conf_overrides`
  unfoldable pub hub_conf_overrides : Option Tenant → Dict Json
  hub_conf_overrides none = ("sim_conf_override", null) ∷ ("user_conf_override", null) ∷ []
  hub_conf_overrides (some t) =
      ("sim_conf_override", text_or_null t.sim_conf_override)
      ∷ ("user_conf_override", text_or_null t.user_conf_override)
      ∷ []
