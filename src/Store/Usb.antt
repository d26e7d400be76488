-- ===== src/Store/Usb.antt =====
-- Certified USB devices (app/store.py, `get_global_usb_vidpids` to `_effective_usb_vidpids_from`).
pub mod Merge
use webui_hub.Prelude.{
  ℕ, String, ◌≡◌, refl, Bool, true, false, ◌&&◌, ◌||◌, not, Option, none, some, List, [], ◌∷◌, ◌++◌,
  ◌==◌, map, if◌then◌else◌, elem,
}
use webui_hub.Json.{
  Json, Dict, Items, nil, cons, null, str, arr, obj, get, put, pop, dict_of, truthy, of_fields,
  to_fields,
}
use webui_hub.Disk.{Disk, global_config_path, read_table, write_json, table}
use webui_hub.Models.{Tenant}

-- `[dict(d) for d in l if isinstance(d, dict)]`
unfoldable pub dicts_in : Items → List (Dict Json)
dicts_in nil = []
dicts_in (cons (obj fs) js) = of_fields fs ∷ dicts_in js
dicts_in (cons j js) = dicts_in js

abbrev pub dicts_of : Option Json → List (Dict Json)
dicts_of (some (arr js)) = dicts_in js
dicts_of _ = []

unfoldable pub items_of : List (Dict Json) → Items
items_of [] = nil
items_of (d ∷ ds) = cons (obj (to_fields d)) (items_of ds)

unfoldable pub get_global_usb_vidpids : Disk → List (Dict Json)
unfolding dicts_in
get_global_usb_vidpids d = dicts_of (get "usb_vidpids" (read_table global_config_path d))

unfoldable pub set_global_usb_vidpids : List (Dict Json) → Disk → Disk
unfolding items_of
set_global_usb_vidpids devices d =
    write_json global_config_path
      (table (put "usb_vidpids" (arr (items_of devices)) (read_table global_config_path d))) d

-- `d.get("vidpid", "")`; a value that is no text names no device.
abbrev vidpid_of : Option Json → String
vidpid_of (some (str v)) = v
vidpid_of _ = ""

unfoldable pub vidpid : Dict Json → String
unfolding get
vidpid d = vidpid_of (get "vidpid" d)

-- The tenant's own list, or the one in `hub_config` where that is empty.
abbrev configured_or : List (Dict Json) → Option Json → List (Dict Json)
configured_or [] legacy = dicts_of legacy
configured_or (d ∷ ds) legacy = d ∷ ds

unfoldable pub tenant_usb_vidpids : Option Tenant → List (Dict Json)
unfolding dicts_in
tenant_usb_vidpids none = []
tenant_usb_vidpids (some t) = configured_or t.usb_vidpids (get "usb_vidpids" t.hub_config)

-- `{k: v for k, v in d.items() if k != "source"}`
unfoldable pub pop_source : Dict Json → Dict Json
pop_source d = pop "source" d

-- `seen` and `result` of the two loops.
pub record Merged : Type 0 where
  pub seen : List String
  pub result : List (Dict Json)

abbrev pub is_new : Merged → Dict Json → Bool
is_new m d = not (vidpid d == "") && not (elem (vidpid d) m.seen)

abbrev pub add_device : String → Merged → Dict Json → Merged
add_device source m d =
    if is_new m d
    then record { seen = vidpid d ∷ m.seen; result = m.result ++ put "source" (str source) d ∷ [] }
    else m

unfoldable pub add_devices : String → Merged → List (Dict Json) → Merged
add_devices source m [] = m
add_devices source m (d ∷ ds) = add_devices source (add_device source m d) ds

abbrev pub nothing_seen : Merged
nothing_seen = record { seen = []; result = [] }

unfoldable pub effective_usb_vidpids_from : List (Dict Json) → Option Tenant → List (Dict Json)
effective_usb_vidpids_from global_devices tenant =
    (add_devices "tenant" (add_devices "global" nothing_seen global_devices)
      (tenant_usb_vidpids tenant)).result
