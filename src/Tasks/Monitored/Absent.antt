-- ===== src/Tasks/Monitored/Absent.antt =====
-- What a check of a monitored item keeps of it: when its user was told, and since when it is missing
-- (`_check_monitored_items` of app/tasks.py).
use webui_hub.Prelude.{
  ℕ, String, ◌≡◌, ◌≤◌, refl, ap, sym, subst, ◌∙◌, Bool, true, false, Option, none, some, ◌==◌,
  Bool-cases, inl, inr, arith,
}
use webui_hub.Json.{
  Json, Dict, num, str, put, get, get-put, get-put_self, truthy, null, bool, literal, arr, obj,
}
use webui_hub.Tasks.Monitored.{
  number_at, number_of, has, with_first, without_time, with_time, found_item, since_first,
  missed_item, is_told, told_item, check_found,
}

-- A write under another key.
pub number_at-put :
    (key j : String) (v : Json) (d : Dict Json)
    → (key == j) ≡ false
    → number_at j (put key v d) ≡ number_at j d
unfolding number_at
number_at-put key j v d h = rw get-put (rw h refl)

abbrev pub last_told : Dict Json → ℕ
last_told item = number_at "last_notified" item

-- The times that Central shows are written under two keys.
module _ (j : String) (first : ("central_first_seen" == j) ≡ false)
    (last : ("central_last_seen" == j) ≡ false) where
  get-put_other :
      (key : String) (v : Json) (d : Dict Json) → (key == j) ≡ false → get j (put key v d) ≡ get j d
  get-put_other key v d h = rw get-put (rw h refl)

  get-with_first : (seen : Json) (item : Dict Json) → get j (with_first seen item) ≡ get j item
  get-with_first seen item = elim (Bool-cases (has "central_first_seen" item)) [
    | inl e ↦ rw e refl
    | inr e ↦ rw e (get-put_other "central_first_seen" seen item first)
  ]

  get-without_time : (item : Dict Json) → get j (without_time item) ≡ get j item
  get-without_time item = elim (Bool-cases (has "central_last_seen" item)) [
    | inl e ↦ rw e (get-with_first _ item)
    | inr e ↦ rw e refl
  ]

  get-with_time :
      (seen : Option String) (item : Dict Json) → get j (with_time seen item) ≡ get j item
  get-with_time none item = get-without_time item
  get-with_time (some t) item = elim (Bool-cases (t == "")) [
    | inl e ↦ rw e (get-without_time item)
    | inr e ↦ rw e (
        get-with_first (str t) (put "central_last_seen" (str t) item)
        ∙ get-put_other "central_last_seen" (str t) item last)
  ]

pub found-last_told :
    (now : ℕ) (seen : Option String) (item : Dict Json)
    → last_told (found_item now seen item) ≡ last_told item
unfolding found_item number_at
found-last_told now seen item =
    ap number_of (get-with_time "last_notified" refl refl seen _)
    ∙ number_at-put "status" "last_notified" _ _ refl
    ∙ number_at-put "missing_since" "last_notified" _ _ refl
    ∙ number_at-put "last_seen" "last_notified" _ _ refl
    ∙ number_at-put "consecutive_failures" "last_notified" _ item refl

pub missed-last_told :
    (now : ℕ) (item : Dict Json) → last_told (missed_item now item) ≡ last_told item
unfolding missed_item
missed-last_told now item =
    number_at-put "status" "last_notified" _ _ refl
    ∙ number_at-put "consecutive_failures" "last_notified" _ item refl

pub since-last_told :
    (now : ℕ) (item : Dict Json) → last_told (since_first now item) ≡ last_told item
unfolding since_first
since-last_told now item = elim (Bool-cases (has "missing_since" item)) [
  | inl e ↦ rw e refl
  | inr e ↦ rw e (number_at-put "missing_since" "last_notified" (num now) item refl)
]

-- Since when an item has not been found, if it was not found at its last check: the first of the
-- checks at which it was not found, with no check between that found it.
abbrev pub absent_since : Option ℕ → ℕ → Option (Bool × Option String) → Option ℕ
absent_since since now none = since
absent_since since now (some (true, seen)) = none
absent_since none now (some (false, seen)) = some now
absent_since (some t) now (some (false, seen)) = some t

-- What an item keeps of it. An instant that is 0 counts as none.
abbrev pub Keeps : Option ℕ → Dict Json → Type 0
Keeps none item = has "missing_since" item ≡ false
Keeps (some t) item = t ≤ number_at "missing_since" item

abbrev IsUnset : Option Json → Type 0
IsUnset o = truthy (elim o [ none ↦ null | some v ↦ v ]) ≡ false

keeps-same :
    (since : Option ℕ) (a b : Dict Json)
    → get "missing_since" a ≡ get "missing_since" b
    → Keeps since b
    → Keeps since a
unfolding number_at
keeps-same none a b e k = subst IsUnset (sym e) k
keeps-same (some t) a b e k = subst (λ o. t ≤ number_of o) (sym e) k

zero_of : (o : Option Json) → truthy (elim o [ none ↦ null | some v ↦ v ]) ≡ false → number_of o ≡ 0
unfolding truthy
zero_of none h = refl
zero_of (some null) h = refl
zero_of (some (bool b)) h = refl
zero_of (some (num n)) h = ground (arith, h)
zero_of (some (literal t)) h = refl
zero_of (some (str t)) h = refl
zero_of (some (arr js)) h = refl
zero_of (some (obj fs)) h = refl

unset_is_zero :
    (item : Dict Json) → has "missing_since" item ≡ false → number_at "missing_since" item ≡ 0
unfolding number_at
unset_is_zero item h = zero_of (get "missing_since" item) h

get-missing_put :
    (key : String) (v : Json) (d : Dict Json)
    → (key == "missing_since") ≡ false
    → get "missing_since" (put key v d) ≡ get "missing_since" d
get-missing_put key v d h = rw get-put (rw h refl)

found-Keeps :
    (now : ℕ) (seen : Option String) (item : Dict Json) → Keeps none (found_item now seen item)
unfolding found_item
found-Keeps now seen item =
    subst IsUnset
      (sym (
        get-with_time "missing_since" refl refl seen (
          put "status" (str "ok") (
            put "missing_since" null
              (put "last_seen" (num now) (put "consecutive_failures" (num 0) item))))
        ∙ get-missing_put "status" (str "ok") _ refl
        ∙ get-put_self "missing_since" null
            (put "last_seen" (num now) (put "consecutive_failures" (num 0) item))))
      (unfold truthy in refl)

since-Keeps :
    (since : Option ℕ) (now : ℕ) (seen : Option String) (item : Dict Json)
    → Keeps since item
    → Keeps (absent_since since now (some (false, seen))) (since_first now item)
unfolding since_first
since-Keeps none now seen item k =
    rw k (unfold number_at in rw (get-put_self "missing_since" (num now) item) (omega arith))
since-Keeps (some t) now seen item k = elim (Bool-cases (has "missing_since" item)) [
  | inl e ↦ rw e k
  | inr e ↦ rw e (
      unfold number_at in
      rw (get-put_self "missing_since" (num now) item) (ground (arith, k, unset_is_zero item e)))
]

get-missed_item :
    (now : ℕ) (item : Dict Json)
    → get "missing_since" (missed_item now item) ≡ get "missing_since" item
unfolding missed_item
get-missed_item now item =
    get-missing_put "status" _ _ refl ∙ get-missing_put "consecutive_failures" _ item refl

get-told_item :
    (now : ℕ) (item : Dict Json)
    → get "missing_since" (told_item now item).0 ≡ get "missing_since" item
unfolding told_item
get-told_item now item = elim (Bool-cases (is_told now item)) [
  | inl e ↦ rw e (get-missing_put "last_notified" (num now) item refl)
  | inr e ↦ rw e refl
]

pub check_found-Keeps :
    (since : Option ℕ) (now : ℕ) (item : Dict Json) (o : Option (Bool × Option String))
    → Keeps since item
    → Keeps (absent_since since now o) (check_found now item o).0
check_found-Keeps since now item none k = k
check_found-Keeps since now item (some (true, seen)) k = found-Keeps now seen item
check_found-Keeps since now item (some (false, seen)) k =
    keeps-same (absent_since since now (some (false, seen))) _ (since_first now item)
      (get-told_item now (missed_item now (since_first now item))
        ∙ get-missed_item now (since_first now item))
      (since-Keeps since now seen item k)
