-- ===== src/Examples/OverrideRuns.antt =====
-- Runs of the changes of INI texts and of the overrides.
use webui_hub.Prelude.{List, String, ◌≡◌, some, elem, refl, true, false}
use webui_hub.Text.{strip, lstrip, rstrip, is_space}
use webui_hub.Disk.{FilePath, path_eq, tenants_path, open_file}
use webui_hub.Exec.{ok, raised, attribute_error}
use webui_hub.Models.{Tenant, get_role}
use webui_hub.Auth.{require_tenant_access}
use webui_hub.Ini.{
  modify_ini_content, splitlines, split_from, is_break, cut_at, crlf_in, ends_with, join,
  header_name, header_of, key_entry, indent, starts_entry, modify_lines, scan, scan_line,
  close_target, create_section,
}
use webui_hub.Ini.Settings.{Setting, settings, of_key, of_others}
use webui_hub.Ini.Names.{IsSection, IsKey}
use webui_hub.Ini.Modified.{AsAsked}
use webui_hub.Ini.Content.{modify_ini_content_lem}
use webui_hub.Store.Tenants.{get_tenant, restore_missing}
use webui_hub.Store.Tenants.Lifecycle.{load_tenants-save_tenants}
use webui_hub.Store.Tenants.Purge.{load_tenants-restore_missing}
use webui_hub.SpokeRoutes.Fleet.{admin_of}
use webui_hub.Overrides.{GitHub, content_of, github_token, set_client_sim_override}
use webui_hub.Overrides.Stored.{set_client_sim_override_lem, flagged}
use webui_hub.Examples.TenantRows.{tenant_codec}
use webui_hub.Examples.Outside.{open_fernet, plain_json}
use webui_hub.Examples.Data.{acme, alice, tenant_disk}

abbrev conf : String
conf = "; lab\r\n[vm-7]\r\ndhcp_fail=on\r\n dns_fail = off\r\n[vm-8]\r\nx=1"

vm-7_IsSection : IsSection "vm-7"
unfolding cut_at is_break
vm-7_IsSection = record {
  unclosed = refl;
  filled = refl;
  whole = (refl, (refl, (refl, (refl, tt))));
}

dns_fail-IsKey : IsKey "dns_fail"
unfolding cut_at is_break strip lstrip rstrip is_space
dns_fail-IsKey = record {
  unsigned = refl;
  starts = refl;
  trimmed = refl;
  whole = (refl, (refl, (refl, (refl, (refl, (refl, (refl, (refl, tt))))))));
}

-- The indented entry is replaced where it stands.
flag_replaced :
    modify_ini_content conf "vm-7" "dns_fail" true
    ≡ "; lab\r\n[vm-7]\r\ndhcp_fail=on\r\n dns_fail=on\r\n[vm-8]\r\nx=1"
unfolding modify_ini_content split_from is_break cut_at crlf_in ends_with join header_name header_of
    key_entry indent starts_entry modify_lines scan scan_line close_target create_section strip
    lstrip rstrip is_space
flag_replaced = refl

-- The section is created behind a blank line.
section_created :
    modify_ini_content conf "vm-9" "dns_fail" true
    ≡ "; lab\r\n[vm-7]\r\ndhcp_fail=on\r\n dns_fail = off\r\n[vm-8]\r\nx=1\r\n\r\n[vm-9]\r\ndns_fail=on"
unfolding modify_ini_content split_from is_break cut_at crlf_in ends_with join header_name header_of
    key_entry indent starts_entry modify_lines scan scan_line close_target create_section strip
    lstrip rstrip is_space
section_created = refl

modify_ini_content_lem_example :
    AsAsked true (
      of_key "vm-7" "dns_fail"
        (settings (splitlines (modify_ini_content conf "vm-7" "dns_fail" true))))
    × (of_others "vm-7" "dns_fail"
          (settings (splitlines (modify_ini_content conf "vm-7" "dns_fail" true)))
        ≡ of_others "vm-7" "dns_fail" (settings (splitlines conf)))
modify_ini_content_lem_example =
    modify_ini_content_lem conf "vm-7" "dns_fail" true vm-7_IsSection dns_fail-IsKey

abbrev no_github : GitHub
no_github = record { fetch = λ t. raised attribute_error; accepts = λ t content. false }

alice_admin : admin_of "acme" alice ≡ ok alice
unfolding admin_of require_tenant_access get_role elem
alice_admin = refl

acme_there : get_tenant "acme" (restore_missing tenant_disk) ≡ some acme
unfolding get_tenant
acme_there = rw (load_tenants-restore_missing, load_tenants-save_tenants) refl

no_token : github_token acme.github_config_enc ≡ ok ""
unfolding github_token
no_token = refl

abbrev pub said : Tenant → List Setting
said x = settings (splitlines (content_of x.user_conf_override))

set_client_sim_override_lem_example :
    let after = set_client_sim_override no_github "acme" "vm-7" "dns_fail" true alice tenant_disk in
    (after.0 ≡ raised attribute_error)
    × (get_tenant "acme" after.1 ≡ some (flagged "vm-7" "dns_fail" true acme))
    × AsAsked true (of_key "vm-7" "dns_fail" (said (flagged "vm-7" "dns_fail" true acme)))
    × (of_others "vm-7" "dns_fail" (said (flagged "vm-7" "dns_fail" true acme))
        ≡ of_others "vm-7" "dns_fail" (said acme))
    × ((p : FilePath)
        → path_eq tenants_path p ≡ false
        → open_file p after.1 ≡ open_file p tenant_disk)
set_client_sim_override_lem_example =
    set_client_sim_override_lem no_github "acme" "vm-7" "dns_fail" true alice tenant_disk acme
      alice_admin acme_there no_token vm-7_IsSection dns_fail-IsKey
