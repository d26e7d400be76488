-- ===== src/Examples/Codecs.antt =====
-- Concrete codecs: the fields of a record in a list, in their order.
use webui_hub.Prelude.{ℕ, String, ◌≡◌, refl, ap, Bool, Option, none, some, List, [], ◌∷◌, arith}
use webui_hub.Json.{Json, Items, nil, cons, num, str, arr, bool}
use webui_hub.Codec.{Codec}

abbrev pub text : Codec String
text = record {
  validate = λ j. elim j [ str s ↦ some s | _ ↦ none ];
  dump = str;
  validate-dump = λ s. refl;
}

abbrev pub number : Codec ℕ
number = record {
  validate = λ j. elim j [ num n ↦ some n | _ ↦ none ];
  dump = num;
  validate-dump = λ n. refl;
}

abbrev pub flag : Codec Bool
flag = record {
  validate = λ j. elim j [ bool b ↦ some b | _ ↦ none ];
  dump = bool;
  validate-dump = λ b. refl;
}

abbrev pub any_json : Codec Json
any_json = record { validate = λ j. some j; dump = λ j. j; validate-dump = λ j. refl }

module _ {A B : Type 0} (a : Codec A) (b : Codec B) where
  abbrev pub both : Option A → Option B → Option (A × B)
  both (some x) (some y) = some (x, y)
  both _ _ = none

  abbrev pub pair_of : Json → Option (A × B)
  pair_of (arr (cons x (cons y nil))) = both (a.validate x) (b.validate y)
  pair_of _ = none

  abbrev pub pair_to : A × B → Json
  pair_to (x, y) = arr (cons (a.dump x) (cons (b.dump y) nil))

  pub pair_law : (p : A × B) → pair_of (pair_to p) ≡ some p
  pair_law (x, y) = rw (a.validate-dump x, b.validate-dump y)

  abbrev pub pair : Codec (A × B)
  pair = record { validate = pair_of; dump = pair_to; validate-dump = pair_law }

module _ {A : Type 0} (a : Codec A) where
  abbrev pub opt_of : Json → Option (Option A)
  opt_of (arr nil) = some none
  opt_of (arr (cons x nil)) = elim (a.validate x) [ none ↦ none | some y ↦ some (some y) ]
  opt_of _ = none

  abbrev pub opt_to : Option A → Json
  opt_to none = arr nil
  opt_to (some x) = arr (cons (a.dump x) nil)

  pub opt_law : (o : Option A) → opt_of (opt_to o) ≡ some o
  opt_law none = refl
  opt_law (some x) = ground (arith, a.validate-dump x)

  abbrev pub opt : Codec (Option A)
  opt = record { validate = opt_of; dump = opt_to; validate-dump = opt_law }

  abbrev pub put_first : Option A → Option (List A) → Option (List A)
  put_first (some x) (some xs) = some (x ∷ xs)
  put_first _ _ = none

  abbrev pub items_of : Items → Option (List A)
  items_of nil = some []
  items_of (cons x xs) = put_first (a.validate x) (items_of xs)

  abbrev pub list_of : Json → Option (List A)
  list_of (arr xs) = items_of xs
  list_of _ = none

  abbrev pub items_to : List A → Items
  items_to [] = nil
  items_to (x ∷ xs) = cons (a.dump x) (items_to xs)

  pub list_law : (xs : List A) → items_of (items_to xs) ≡ some xs
  list_law [] = refl
  list_law (x ∷ xs) = rw (a.validate-dump x, list_law xs)

  abbrev pub list : Codec (List A)
  list = record { validate = list_of; dump = λ xs. arr (items_to xs); validate-dump = list_law }

module _ {A B : Type 0} (a : Codec A) (to : B → A) (of : A → B)
    (law : (b : B) → of (to b) ≡ b) where
  abbrev pub via_of : Option A → Option B
  via_of none = none
  via_of (some x) = some (of x)

  pub via_law : (b : B) → via_of (a.validate (a.dump (to b))) ≡ some b
  via_law b = rw (a.validate-dump (to b)) (ap some (law b))

  abbrev pub via : Codec B
  via = record {
    validate = λ j. via_of (a.validate j);
    dump = λ b. a.dump (to b);
    validate-dump = via_law;
  }
