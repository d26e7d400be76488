-- ===== src/SpokeRoutes/UsbDevices/Certified.antt =====
-- What the devices of a request are stored as (`_normalize_usb_vidpids` of app/routers/spokes.py).
use webui_hub.Prelude.{
  String, ◌≡◌, refl, ap, sym, ◌∙◌, Bool, true, false, not, Option, none, some, List, [], ◌∷◌, ◌==◌,
  if◌then◌else◌, elem, map, find, any, All, Bool-cases, Option-cases, inl, inr, eq_iff, eq_refl,
  arith,
}
use mathlib.Core.Option.{some_inj}
use webui_hub.Json.{Json, Dict, get, put, get-put}
use webui_hub.Exec.{ok, raised, http_error}
use webui_hub.Crypto.{JsonText}
use webui_hub.Store.Payload.{sorted_set}
use webui_hub.Store.Payload.Sorted.{elem-sorted_set}
use webui_hub.SpokeRoutes.UsbDevices.{
  Device, is_vidpid, item_vidpid, device_of, deduped, in_order, normalize_usb_vidpids, AllDevices,
  IsDevice, in_order-All, AllDevices-put, or_generic-elem,
}

abbrev pub or_last : Option Device → Option Device → Option Device
or_last none other = other
or_last (some d) other = some d

or_last-if :
    (o e : Option Device) (b : Bool) (d : Device)
    → or_last o (if b then some d else e) ≡ or_last (or_last o (if b then some d else none)) e
or_last-if none e true d = refl
or_last-if none e false d = refl
or_last-if (some x) e b d = refl

or_last-none : (o : Option Device) → or_last o none ≡ o
or_last-none none = refl
or_last-none (some d) = refl

-- The devices stand under their ids.
abbrev AllKeyed : Dict Device → Type 0
AllKeyed = All (λ e. e.1.vidpid ≡ e.0)

AllKeyed-put :
    (d : Device) (devices : Dict Device) → AllKeyed devices → AllKeyed (put d.vidpid d devices)
unfolding put
AllKeyed-put d [] all = (refl, tt)
AllKeyed-put d ((i, e) ∷ devices) all = elim (Bool-cases (i == d.vidpid)) [
  | inl q ↦ rw q (sym ((eq_iff i d.vidpid).0 q), all.1)
  | inr q ↦ rw q (all.0, AllKeyed-put d devices all.1)
]

vidpid-get :
    (key : String) (devices : Dict Device) (d : Device)
    → AllKeyed devices
    → get key devices ≡ some d
    → d.vidpid ≡ key
unfolding get
vidpid-get key [] d all h = cc
vidpid-get key ((i, e) ∷ devices) d all h = elim (Bool-cases (i == key)) [
  | inl q ↦
      ap (λ (x : Device). x.vidpid) (sym (some_inj.0 (rw q at h))) ∙ all.0 ∙ (eq_iff i key).0 q
  | inr q ↦ vidpid-get key devices d all.1 (rw q at h)
]

not_equal : (a b : String) → (b == a) ≡ false → (a == b) ≡ false
not_equal a b h = ground (arith, h, eq_iff a b, eq_iff b a)

if_same : (b : Bool) (o : Option Device) → (if b then o else o) ≡ o
if_same true o = refl
if_same false o = refl

-- A device that is under no key is not found.
get-elem :
    (v : String) (devices : Dict Device)
    → (if elem v (map (λ e. e.0) devices) then get v devices else none) ≡ get v devices
unfolding get elem
get-elem v [] = refl
get-elem v ((i, e) ∷ devices) = elim (Bool-cases (i == v)) [
  | inl q ↦ rw q (rw ((eq_iff i v).0 q) (rw eq_refl refl))
  | inr q ↦ rw q (rw (not_equal v i q) (get-elem v devices))
]

module _ ⦃json : JsonText⦄ where
  find-in_order :
      (v : String) (keys : List String) (devices : Dict Device)
      → AllKeyed devices
      → find (λ d. d.vidpid == v) (in_order keys devices)
        ≡ (if elem v keys then get v devices else none)
  unfolding in_order elem
  find-in_order v [] devices all = refl
  find-in_order v (key ∷ keys) devices all = elim (Bool-cases (v == key)) [
    | inl q ↦ rw ((eq_iff v key).0 q) (elim (Option-cases (get key devices)) [
      | inl e ↦ rw e (
          find-in_order key keys devices all
          ∙ rw e (if_same (elem key keys) none)
          ∙ sym (if_same _ none))
      | inr (d, e) ↦ rw e (rw (vidpid-get key devices d all e, eq_refl key) refl)
    ])
    | inr q ↦ rw q (elim (Option-cases (get key devices)) [
      | inl e ↦ rw e (find-in_order v keys devices all)
      | inr (d, e) ↦ rw e (
          rw (vidpid-get key devices d all e, not_equal key v q) (find-in_order v keys devices all))
    ])
  ]

  -- The device of the last item with this id.
  abbrev pub last_with : String → List (Dict Json) → Option Device
  last_with v [] = none
  last_with v (item ∷ items) =
      or_last (last_with v items) (if item_vidpid item == v then some (device_of item) else none)

  deduped-last :
      (items : List (Dict Json)) (devices : Dict Device)
      → AllKeyed devices
      → AllDevices devices
      → All (λ item. is_vidpid (item_vidpid item) ≡ true) items
      → (ds : Dict Device) × (deduped items devices ≡ ok ds)
        × AllKeyed ds
        × AllDevices ds
        × ((v : String) → get v ds ≡ or_last (last_with v items) (get v devices))
  unfolding deduped
  deduped-last [] devices keyed all valid = (devices, refl, keyed, all, λ v. refl)
  deduped-last (item ∷ items) devices keyed all valid =
      let (ds, e, keyed_after, all_after, last) =
        deduped-last items (put (item_vidpid item) (device_of item) devices)
          (AllKeyed-put (device_of item) devices keyed)
          (AllDevices-put _ (device_of item) devices (rw valid.0 (or_generic-elem _)) all)
          valid.1 in
      (
        ds,
        rw valid.0 e,
        keyed_after,
        all_after,
        λ v.
            last v
            ∙ rw get-put (
                or_last-if (last_with v items) (get v devices) (item_vidpid item == v)
                  (device_of item)),
      )

  deduped-refused :
      (items : List (Dict Json)) (devices : Dict Device)
      → any (λ item. not (is_vidpid (item_vidpid item))) items ≡ true
      → deduped items devices ≡ raised (http_error 400)
  unfolding deduped
  deduped-refused [] devices h = cc
  deduped-refused (item ∷ items) devices h = elim (Bool-cases (is_vidpid (item_vidpid item))) [
    | inl e ↦ rw e (deduped-refused items _ (ground (arith, h, e)))
    | inr e ↦ rw e refl
  ]

  -- Where the id of an item is not of the form XXXX:XXXX, the request is refused with 400. Else each
  -- device that is stored has an id of this form and one of the four types, and the device that is
  -- found under an id is that of the last item with it; there is none where no item has it.
  pub normalize_usb_vidpids_lem :
      (items : List (Dict Json))
      → (any (λ item. not (is_vidpid (item_vidpid item))) items ≡ true
          → normalize_usb_vidpids items ≡ raised (http_error 400))
        × (All (λ item. is_vidpid (item_vidpid item) ≡ true) items
            → (ds : List Device) × (normalize_usb_vidpids items ≡ ok ds)
              × All IsDevice ds
              × ((v : String) → find (λ d. d.vidpid == v) ds ≡ last_with v items))
  unfolding normalize_usb_vidpids get
  normalize_usb_vidpids_lem items = (
    λ h. rw (deduped-refused items [] h) refl,
    λ valid.
        let (devices, e, keyed, all, last) = deduped-last items [] tt tt valid in
        (
          in_order (sorted_set (map (λ d. d.0) devices)) devices,
          rw e refl,
          in_order-All _ devices all,
          λ v.
              find-in_order v _ devices keyed
              ∙ rw (elem-sorted_set v (map (λ d. d.0) devices))
                  (get-elem v devices ∙ last v ∙ or_last-none (last_with v items)),
        ),
  )
