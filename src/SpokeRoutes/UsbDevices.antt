-- ===== src/SpokeRoutes/UsbDevices.antt =====
-- The USB devices that a tenant certifies, as a request gives them (app/routers/spokes.py,
-- `_normalize_usb_vidpids`).
pub mod Certified
use webui_hub.Prelude.{
  String, ◌≡◌, refl, Bool, true, false, ◌&&◌, ◌||◌, Option, none, some, List, [], ◌∷◌, ◌==◌,
  if◌then◌else◌, leb, eqb, elem, map, All, Bool-cases, inl, inr,
}
use Prim.Native.Char.{Char, code}
use webui_hub.Text.{strip, lower}
use webui_hub.Json.{Json, Dict, str, get, put}
use webui_hub.Exec.{Result, ok, raised, http_error}
use webui_hub.Crypto.{JsonText}
use webui_hub.Store.Payload.{or_json, sorted_set}

pub record Device : Type 0 where
  pub vidpid : String
  pub type : String
  pub label : String

abbrev is_hex : Char → Bool
is_hex c =
    (leb 48 (code c) && leb (code c) 57)
    || ((leb 97 (code c) && leb (code c) 102) || (leb 65 (code c) && leb (code c) 70))

abbrev is_colon : Char → Bool
is_colon c = eqb (code c) 58

unfoldable fits : List (Char → Bool) → String → Bool
fits [] String.[] = true
fits [] (String.◌∷◌ c s) = false
fits (test ∷ tests) String.[] = false
fits (test ∷ tests) (String.◌∷◌ c s) = let rest = fits tests s in test c && rest

-- `^[0-9a-f]{4}:[0-9a-f]{4}$`, of either case.
unfoldable pub is_vidpid : String → Bool
unfolding fits
is_vidpid =
    fits (is_hex ∷ is_hex ∷ is_hex ∷ is_hex ∷ is_colon ∷ is_hex ∷ is_hex ∷ is_hex ∷ is_hex ∷ [])

abbrev pub device_types : List String
device_types = "wireless" ∷ "wired" ∷ "storage" ∷ "generic" ∷ []

abbrev pub or_generic : String → String
or_generic t = if elem t device_types then t else "generic"

module _ ⦃json : JsonText⦄ where
  -- `str(item.get(key) or default).strip()`
  abbrev text_of : String → String → Dict Json → String
  text_of key default item = strip (json.str_of (or_json (get key item) (str default)))

  abbrev pub item_vidpid : Dict Json → String
  item_vidpid item = lower (text_of "vidpid" "" item)

  -- A type of no or another name is generic.
  abbrev pub device_of : Dict Json → Device
  device_of item = record {
    vidpid = item_vidpid item;
    type = or_generic (lower (text_of "type" "generic" item));
    label = text_of "label" "" item;
  }

  -- The devices under their ids, of which the last counts.
  unfoldable pub deduped : List (Dict Json) → Dict Device → Result (Dict Device)
  deduped [] devices = ok devices
  deduped (item ∷ items) devices =
      let rest = deduped items (put (item_vidpid item) (device_of item) devices) in
      if is_vidpid (item_vidpid item) then rest else raised (http_error 400)

  abbrev pub add_found : Option Device → List Device → List Device
  add_found none ds = ds
  add_found (some d) ds = d ∷ ds

  unfoldable pub in_order : List String → Dict Device → List Device
  in_order [] devices = []
  in_order (key ∷ keys) devices = add_found (get key devices) (in_order keys devices)

  abbrev sorted_devices : Result (Dict Device) → Result (List Device)
  sorted_devices (raised e) = raised e
  sorted_devices (ok devices) = ok (in_order (sorted_set (map (λ e. e.0) devices)) devices)

  unfoldable pub normalize_usb_vidpids : List (Dict Json) → Result (List Device)
  normalize_usb_vidpids items = sorted_devices (deduped items [])

  abbrev pub is_device : Device → Bool
  is_device d = is_vidpid d.vidpid && elem d.type device_types

  abbrev pub AllDevices : Dict Device → Type 0
  AllDevices = All (λ e. is_device e.1 ≡ true)

  pub or_generic-elem : (t : String) → elem (or_generic t) device_types ≡ true
  or_generic-elem t = elim (Bool-cases (elem t device_types)) [
    | inl e ↦ rw e e
    | inr e ↦ rw e (unfold elem in refl)
  ]

  pub AllDevices-put :
      (key : String) (d : Device) (devices : Dict Device)
      → is_device d ≡ true
      → AllDevices devices
      → AllDevices (put key d devices)
  unfolding put
  AllDevices-put key d [] k all = (k, tt)
  AllDevices-put key d ((i, e) ∷ devices) k all = elim (Bool-cases (i == key)) [
    | inl q ↦ rw q (k, all.1)
    | inr q ↦ rw q (all.0, AllDevices-put key d devices k all.1)
  ]

  abbrev pub IsDevice : Device → Type 0
  IsDevice d = is_device d ≡ true

  add_found-All :
      (key : String) (devices : Dict Device) (ds : List Device)
      → AllDevices devices
      → All IsDevice ds
      → All IsDevice (add_found (get key devices) ds)
  unfolding get
  add_found-All key [] ds all rest = rest
  add_found-All key ((i, f) ∷ devices) ds all rest = elim (Bool-cases (i == key)) [
    | inl q ↦ rw q (all.0, rest)
    | inr q ↦ rw q (add_found-All key devices ds all.1 rest)
  ]

  pub in_order-All :
      (keys : List String) (devices : Dict Device)
      → AllDevices devices
      → All IsDevice (in_order keys devices)
  unfolding in_order
  in_order-All [] devices all = tt
  in_order-All (key ∷ keys) devices all =
      add_found-All key devices _ all (in_order-All keys devices all)
