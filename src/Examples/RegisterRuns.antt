-- ===== src/Examples/RegisterRuns.antt =====
-- Runs of the registration of spokes.
use webui_hub.Store.Spokes.Rekeyed.{ids_of, with_id_moved, either}
use webui_hub.Prelude.{◌≡◌, refl, true, some, [], ◌∷◌, any, ◌==◌, map, false}
use webui_hub.Disk.{Disk, queue_path, open_file, read_rows, write_json, exists, audit_path}
use webui_hub.Exec.{ok, raised, http_error}
use webui_hub.Codec.{validate_each}
use webui_hub.Crypto.{decrypt_str}
use webui_hub.Hub.{Hub, ◌>>=◌}
use webui_hub.Text.{strip, lower, lstrip, rstrip}
use webui_hub.Store.Tenants.{restore_missing, load_tenants}
use webui_hub.Store.Lookup.{first_approved, get_approved_spoke_by_hostname}
use webui_hub.Store.Spokes.{save_spokes, load_spokes}
use webui_hub.Store.Spokes.Saved.{load_spokes-save_spokes, id-stored, stored}
use webui_hub.Store.Pending.{get_pending_by_hostname, list_pending_spokes, save_pending_spoke}
use webui_hub.SpokeRoutes.Registration.{register_spoke, requested_id, resolved_hint, find_approved}
use webui_hub.SpokeRoutes.Registration.Names.{
  Given, Request, RegisterPayload, Uuids, pending_as, reg_log_append, last_entries,
  ensure_name_available_for_tenant,
}
use webui_hub.SpokeRoutes.Registration.Approved.{reregister, stored_key}
use webui_hub.SpokeRoutes.Registration.Pending.{try_psk, register_pending, existing_pending}
use webui_hub.SpokeRoutes.Registration.Waits.{register_spoke-pending}
use webui_hub.SpokeRoutes.Registration.Again.{reregister-refused}
use webui_hub.Examples.Rows.{user_codec, command_codec}
use webui_hub.Examples.TenantRows.{tenant_codec}
use webui_hub.Examples.SpokeRows.{spoke_format, stroke_instants}
use webui_hub.Examples.StoreRuns.{pending_format}
use webui_hub.Examples.Outside.{open_fernet, plain_json, blank_digest}
use webui_hub.Examples.Data.{edge}

instance abbrev any_uuid : Uuids
any_uuid = record { parse = λ t. some t }

abbrev given : Given
given = record {
  now = 9;
  stamp = "1970-01-01 00:00:09 UTC";
  client_ip = "10.0.0.9";
  new_id = "n1";
  new_key = "fresh";
  command_id = "c7";
}

abbrev newcomer : RegisterPayload
newcomer = record {
  spoke_id = "";
  hostname = "far";
  label = "";
  spoke_name = "";
  tenant_id_hint = "";
  onboarding_psk = "";
  api_key = "";
  config = [];
}

abbrev empty_hub : Hub
empty_hub = record { disk = []; registration_log = []; broadcasts = [] }

newcomer_waits : (register_spoke given newcomer empty_hub).0 ≡ ok (pending_as "n1" "")
unfolding ◌>>=◌ register_spoke requested_id resolved_hint find_approved strip lstrip rstrip lower
    get_approved_spoke_by_hostname first_approved load_tenants restore_missing exists open_file
    read_rows validate_each try_psk register_pending existing_pending get_pending_by_hostname
    list_pending_spokes ensure_name_available_for_tenant save_pending_spoke write_json
    reg_log_append last_entries
newcomer_waits = refl

register_spoke-pending_example :
    open_file (queue_path "acme" "s1") (register_spoke given newcomer empty_hub).1.disk
    ≡ open_file (queue_path "acme" "s1") []
register_spoke-pending_example =
    register_spoke-pending (queue_path "acme" "s1") refl refl given newcomer empty_hub "n1" ""
      newcomer_waits

abbrev again : Request
again = record {
  spoke_id = "";
  hostname = "edge";
  label = "";
  spoke_name = "edge";
  tenant_hint = "";
  psk = "";
  api_key = "";
  config = [];
}

abbrev spoke_disk : Disk
spoke_disk = save_spokes "acme" (edge ∷ []) []

abbrev full_hub : Hub
full_hub = record { disk = spoke_disk; registration_log = []; broadcasts = [] }

abbrev stolen : Request
stolen = record again { spoke_id = "s2"; api_key = "guess" }

disk_loads : load_spokes "acme" spoke_disk ≡ map (stored "acme" []) (edge ∷ [])
disk_loads = load_spokes-save_spokes "acme" (edge ∷ []) []

s2_free : any (λ x. x.id == "s2") (load_spokes "acme" spoke_disk) ≡ false
s2_free = rw disk_loads (rw (id-stored "acme" [] edge) refl)

s1_there : any (λ x. x.id == "s1") (load_spokes "acme" spoke_disk) ≡ true
s1_there = rw disk_loads (rw (id-stored "acme" [] edge) refl)

edge_key : stored_key edge ≡ "key"
unfolding stored_key decrypt_str
edge_key = refl

reregister-refused_example :
    let after = (reregister given stolen "acme" edge full_hub).1.disk in
    ((reregister given stolen "acme" edge full_hub).0 ≡ raised (http_error 401))
    × (ids_of (load_spokes "acme" after)
        ≡ with_id_moved "s1" "s2" (ids_of (load_spokes "acme" spoke_disk)))
    × (open_file (queue_path "acme" "s2") after
        ≡ either
            (open_file (queue_path "acme" "s1") spoke_disk)
            (open_file (queue_path "acme" "s2") spoke_disk))
    × (open_file (audit_path "acme" "s2") after
        ≡ either
            (open_file (audit_path "acme" "s1") spoke_disk)
            (open_file (audit_path "acme" "s2") spoke_disk))
reregister-refused_example =
    reregister-refused given stolen "acme" edge full_hub refl refl s2_free s1_there refl
      (rw edge_key refl) refl (rw edge_key refl)
