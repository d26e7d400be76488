-- ===== src/Json.antt =====
-- JSON values, as `json.load` returns them (`Any` in app/data_models.py). A number that is no
-- natural is kept as its literal.
use webui_hub.Prelude.{
  ℕ, ◌+◌, ◌&&◌, ◌||◌, String, ◌≡◌, refl, ap, Bool, true, false, not, eqb, Option, none, some, List,
  [], ◌∷◌, arith, ◌==◌, eq_iff, eq_refl, if◌then◌else◌,
}

mutual
  pub data Json : Type 0 where
    null : Json
    bool : Bool → Json
    num : ℕ → Json
    literal : String → Json
    str : String → Json
    arr : Items → Json
    obj : Fields → Json

  pub data Items : Type 0 where
    nil : Items
    cons : Json → Items → Items

  pub data Fields : Type 0 where
    end : Fields
    field : String → Json → Fields → Fields

-- A Python `dict[str, V]`: a write to a key that is there keeps its place.
abbrev pub Dict {ℓ} : Type ℓ → Type ℓ
Dict V = List (String × V)

module _ {ℓ} {V : Type ℓ} where
  -- `d.get(key)`
  unfoldable pub get : String → Dict V → Option V
  get key [] = none
  get key ((k, v) ∷ d) = let rest = get key d in if k == key then some v else rest

  -- `d[key] = value`
  unfoldable pub put : String → V → Dict V → Dict V
  put key value [] = (key, value) ∷ []
  put key value ((k, v) ∷ d) =
      let rest = put key value d in if k == key then (k, value) ∷ d else (k, v) ∷ rest

  -- `d.pop(key, None)`
  unfoldable pub pop : String → Dict V → Dict V
  pop key [] = []
  pop key ((k, v) ∷ d) = let rest = pop key d in if k == key then rest else (k, v) ∷ rest

  pub get-put :
      (key j : String) (value : V) (d : Dict V)
      → get j (put key value d) ≡ (if key == j then some value else get j d)
  unfolding get put
  get-put key j value [] = refl
  get-put key j value ((k, v) ∷ d) =
      ground (arith, eq_iff key j, eq_iff k key, eq_iff k j, get-put key j value d)

  pub get-pop :
      (key j : String) (d : Dict V) → get j (pop key d) ≡ (if key == j then none else get j d)
  unfolding get pop
  get-pop key j [] = ground arith
  get-pop key j ((k, v) ∷ d) =
      ground (arith, eq_iff key j, eq_iff k key, eq_iff k j, get-pop key j d)

  pub get-put_self :
      (key : String) (value : V) (d : Dict V) → get key (put key value d) ≡ some value
  get-put_self key value d = simp (get-put, eq_refl)

-- `value` as a truth value, where it is JSON.
unfoldable pub truthy : Json → Bool
truthy null = false
truthy (bool b) = b
truthy (num n) = not (eqb n 0)
truthy (literal t) = true
truthy (str t) = not (t == "")
truthy (arr nil) = false
truthy (arr (cons j js)) = true
truthy (obj end) = false
truthy (obj (field k v fs)) = true

unfoldable pub to_fields : Dict Json → Fields
to_fields [] = end
to_fields ((k, v) ∷ d) = field k v (to_fields d)

unfoldable pub of_fields : Fields → Dict Json
of_fields end = []
of_fields (field k v fs) = (k, v) ∷ of_fields fs

pub of_fields-to_fields : (d : Dict Json) → of_fields (to_fields d) ≡ d
unfolding of_fields to_fields
of_fields-to_fields [] = refl
of_fields-to_fields ((k, v) ∷ d) = ap (λ r. (k, v) ∷ r) (of_fields-to_fields d)

-- A value where the code expects a dict; any other value counts as an empty one.
abbrev pub dict_of : Json → Dict Json
dict_of (obj fs) = of_fields fs
dict_of _ = []

abbrev same_bit : Bool → ℕ → Bool
same_bit b n = eqb n (if b then 1 else 0)

unfoldable field_of : String → Fields → Json → Json
field_of key end other = other
field_of key (field k v fs) other = let rest = field_of key fs other in if k == key then v else rest

unfoldable count_fields : Fields → ℕ
count_fields end = 0
count_fields (field k v fs) = 1 + count_fields fs

unfoldable has_field : String → Fields → Bool
has_field key end = false
has_field key (field k v fs) = (k == key) || has_field key fs

-- `==` of JSON values. Dicts are compared without their order, and `True` is 1; numbers that are no
-- naturals are compared as their literals.
unfoldable mutual
  unfolding field_of count_fields has_field

  pub same_json : Json → Json → Bool
  same_json null null = true
  same_json (bool true) (bool b) = b
  same_json (bool false) (bool b) = not b
  same_json (bool b) (num n) = same_bit b n
  same_json (num n) (bool b) = same_bit b n
  same_json (num n) (num m) = eqb n m
  same_json (literal s) (literal t) = s == t
  same_json (str s) (str t) = s == t
  same_json (arr js) (arr ks) = same_items js ks
  same_json (obj fs) (obj gs) = eqb (count_fields fs) (count_fields gs) && fields_in fs gs
  same_json _ _ = false

  same_items : Items → Items → Bool
  same_items nil nil = true
  same_items (cons j js) (cons k ks) = same_json j k && same_items js ks
  same_items _ _ = false

  fields_in : Fields → Fields → Bool
  fields_in end gs = true
  fields_in (field k v fs) gs =
      has_field k gs && (same_json v (field_of k gs null) && fields_in fs gs)

abbrev pub same_dict : Dict Json → Dict Json → Bool
same_dict d e = same_json (obj (to_fields d)) (obj (to_fields e))
