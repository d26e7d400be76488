-- ===== src/Store/Usb/Merge.antt =====
-- The merged device list: every device once, and the global entry wins.
use webui_hub.Prelude.{
  String, ◌≡◌, refl, ap, ◌∙◌, true, false, ◌&&◌, ◌||◌, not, Option, some, List, [], ◌∷◌, ◌++◌, ◌==◌,
  map, if◌then◌else◌, elem, elem-append, arith, eq_iff, eq_refl, Bool-cases, inl, inr, All,
  All-append,
}
use mathlib.Core.List.{map-append}
use webui_hub.Json.{Json, Dict, str, get, put, get-put}
use webui_hub.Models.{Tenant}
use webui_hub.Store.Usb.{
  vidpid, Merged, is_new, add_device, add_devices, nothing_seen, effective_usb_vidpids_from,
  tenant_usb_vidpids,
}

abbrev pub vidpids : List (Dict Json) → List String
vidpids ds = map vidpid ds

-- No name stands twice.
abbrev pub IsDistinct : List String → Type 0
IsDistinct [] = Unit
IsDistinct (x ∷ xs) = (elem x xs ≡ false) × IsDistinct xs

IsDistinct-snoc :
    (xs : List String) (x : String) → IsDistinct xs → elem x xs ≡ false → IsDistinct (xs ++ x ∷ [])
unfolding elem
IsDistinct-snoc [] x h n = (refl, tt)
IsDistinct-snoc (y ∷ ys) x h n = (
  ground (arith, elem-append y ys (x ∷ []), h.0, eq_iff x y, eq_iff y x, n),
  IsDistinct-snoc ys x h.1 (ground (arith, n)),
)

vidpid-put_source :
    (source : String) (d : Dict Json) → vidpid (put "source" (str source) d) ≡ vidpid d
unfolding vidpid
vidpid-put_source source d = rw get-put

-- What the loops keep: `seen` holds the ids of the result, and none stands twice.
pub record IsMerged (m : Merged) : Type 0 where
  pub same : (x : String) → elem x m.seen ≡ elem x (vidpids m.result)
  pub distinct : IsDistinct (vidpids m.result)

IsMerged-add_device :
    (source : String) (m : Merged) (d : Dict Json) → IsMerged m → IsMerged (add_device source m d)
IsMerged-add_device source m d h = elim (Bool-cases (is_new m d)) [
  | inl e ↦ rw e (record {
    same = λ x.
        rw (map-append, vidpid-put_source, elem-append) (unfold elem in ground (arith, h.same x));
    distinct =
        rw (map-append, vidpid-put_source)
          (IsDistinct-snoc _ _ h.distinct (ground (arith, h.same (vidpid d), e)));
  })
  | inr e ↦ rw e h
]

IsMerged-add_devices :
    (source : String) (m : Merged) (ds : List (Dict Json))
    → IsMerged m
    → IsMerged (add_devices source m ds)
unfolding add_devices
IsMerged-add_devices source m [] h = h
IsMerged-add_devices source m (d ∷ ds) h =
    IsMerged-add_devices source (add_device source m d) ds (IsMerged-add_device source m d h)

IsMerged-nothing_seen : IsMerged nothing_seen
IsMerged-nothing_seen = record { same = λ x. refl; distinct = tt }

elem-add_device :
    (x source : String) (m : Merged) (d : Dict Json)
    → IsMerged m
    → elem x (vidpids (add_device source m d).result)
      ≡ (elem x (vidpids m.result) || (not (x == "") && (x == vidpid d)))
elem-add_device x source m d h = elim (Bool-cases (is_new m d)) [
  | inl e ↦ rw e (
      rw (map-append, vidpid-put_source, elem-append)
        (unfold elem in ground (arith, e, eq_iff x (vidpid d), eq_iff x "", eq_iff (vidpid d) "")))
  | inr e ↦
      rw e (
        ground
          (arith, e, h.same (vidpid d), eq_iff x (vidpid d), eq_iff x "", eq_iff (vidpid d) ""))
]

elem-add_devices :
    (x source : String) (m : Merged) (ds : List (Dict Json))
    → IsMerged m
    → elem x (vidpids (add_devices source m ds).result)
      ≡ (elem x (vidpids m.result) || (not (x == "") && elem x (vidpids ds)))
unfolding add_devices elem
elem-add_devices x source m [] h = ground arith
elem-add_devices x source m (d ∷ ds) h =
    elem-add_devices x source (add_device source m d) ds (IsMerged-add_device source m d h)
    ∙ rw (elem-add_device x source m d h) (ground arith)

module _ (global_devices : List (Dict Json)) (tenant : Option Tenant) where
  after_global : IsMerged (add_devices "global" nothing_seen global_devices)
  after_global = IsMerged-add_devices "global" nothing_seen global_devices IsMerged-nothing_seen

  -- The merged list names no device twice, and it names exactly the devices with an id that the
  -- platform or the tenant certified.
  pub effective_usb_vidpids_lem :
      IsDistinct (vidpids (effective_usb_vidpids_from global_devices tenant))
      × ((x : String)
          → elem x (vidpids (effective_usb_vidpids_from global_devices tenant)) ≡ (
              not (x == "")
              && (elem x (vidpids global_devices) || elem x (vidpids (tenant_usb_vidpids tenant)))))
  unfolding effective_usb_vidpids_from elem
  effective_usb_vidpids_lem = (
    (IsMerged-add_devices "tenant" _ (tenant_usb_vidpids tenant) after_global).distinct,
    λ x. rw (elem-add_devices x "tenant" _ (tenant_usb_vidpids tenant) after_global) (
        rw (elem-add_devices x "global" nothing_seen global_devices IsMerged-nothing_seen)
          (ground arith)),
  )

  -- The `source` of a device in the merged list: "global" where the platform certified it.
  abbrev pub IsSourced : Dict Json → Type 0
  IsSourced d =
      get "source" d
      ≡ some (str (if elem (vidpid d) (vidpids global_devices) then "global" else "tenant"))

  IsSourced-add :
      (source : String) (m : Merged) (d : Dict Json)
      → (is_new m d ≡ true
          → source ≡ (if elem (vidpid d) (vidpids global_devices) then "global" else "tenant"))
      → All IsSourced m.result
      → All IsSourced (add_device source m d).result
  IsSourced-add source m d named h = elim (Bool-cases (is_new m d)) [
    | inl e ↦ rw e (
        All-append IsSourced m.result _ h
          (rw (get-put, vidpid-put_source) (ap (λ s. some (str s)) (named e)), tt))
    | inr e ↦ rw e h
  ]

  IsSourced-global :
      (m : Merged) (ds : List (Dict Json))
      → ((x : String) → elem x (vidpids ds) ≡ true → elem x (vidpids global_devices) ≡ true)
      → All IsSourced m.result
      → All IsSourced (add_devices "global" m ds).result
  unfolding add_devices elem
  IsSourced-global m [] part h = h
  IsSourced-global m (d ∷ ds) part h =
      IsSourced-global (add_device "global" m d) ds (λ x e. part x (ground (arith, e)))
        (IsSourced-add "global" m d (λ _. rw (part (vidpid d) (rw eq_refl))) h)

  abbrev SeesGlobal : Merged → Type 0
  SeesGlobal m =
      (x : String)
      → (x == "") ≡ false
      → elem x (vidpids global_devices) ≡ true
      → elem x m.seen ≡ true

  SeesGlobal-add_device :
      (m : Merged) (d : Dict Json) → SeesGlobal m → SeesGlobal (add_device "tenant" m d)
  unfolding elem
  SeesGlobal-add_device m d h x filled e = elim (Bool-cases (is_new m d)) [
    | inl n ↦ rw n (ground (arith, h x filled e))
    | inr n ↦ rw n (h x filled e)
  ]

  IsSourced-tenant :
      (m : Merged) (ds : List (Dict Json))
      → SeesGlobal m
      → All IsSourced m.result
      → All IsSourced (add_devices "tenant" m ds).result
  unfolding add_devices
  IsSourced-tenant m [] sees h = h
  IsSourced-tenant m (d ∷ ds) sees h =
      IsSourced-tenant (add_device "tenant" m d) ds (SeesGlobal-add_device m d sees)
        (IsSourced-add "tenant" m d (λ n. ground (arith, n, sees (vidpid d))) h)

  -- Every device of the merged list is marked "global" where the platform certified its id, also if
  -- the tenant did too, and "tenant" elsewhere.
  pub effective_usb_vidpids-IsSourced :
      All IsSourced (effective_usb_vidpids_from global_devices tenant)
  unfolding effective_usb_vidpids_from
  effective_usb_vidpids-IsSourced =
      IsSourced-tenant (add_devices "global" nothing_seen global_devices)
        (tenant_usb_vidpids tenant)
        (λ x filled e.
          after_global.same x
          ∙ rw (elem-add_devices x "global" nothing_seen global_devices IsMerged-nothing_seen)
              (unfold elem in ground (arith, filled, e)))
        (IsSourced-global nothing_seen global_devices (λ x e. e) tt)
