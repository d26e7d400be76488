-- ===== src/Codec.antt =====
-- How a pydantic model stands in a file: `Model(**row)` and `model_dump(mode="json")`. Both are
-- pydantic's, and are parameters; what the code relies on is that a dumped model validates to itself.
use webui_hub.Prelude.{◌≡◌, refl, List, [], ◌∷◌, Option, none, some, map, arith}
use webui_hub.Json.{Json}
use webui_hub.Exec.{Result, ok, raised, validation_error}

pub record Codec (A : Type 0) : Type 0 where
  -- `none`: validation raises
  pub validate : Json → Option A
  pub dump : A → Json
  pub validate-dump : (a : A) → validate (dump a) ≡ some a

module _ {A : Type 0} ⦃c : Codec A⦄ where
  unfoldable pub dump_all : List A → List Json
  dump_all xs = map c.dump xs

  abbrev add : Option A → Result (List A) → Result (List A)
  add none rest = raised validation_error
  add (some a) (ok xs) = ok (a ∷ xs)
  add (some a) (raised e) = raised e

  -- `[Model(**row) for row in raw]`
  unfoldable pub validate_all : List Json → Result (List A)
  validate_all [] = ok []
  validate_all (row ∷ rest) = add (c.validate row) (validate_all rest)

  abbrev add_valid : Option A → List A → List A
  add_valid none xs = xs
  add_valid (some a) xs = a ∷ xs

  -- The loop that skips rows that do not validate.
  unfoldable pub validate_each : List Json → List A
  validate_each [] = []
  validate_each (row ∷ rest) = add_valid (c.validate row) (validate_each rest)

  -- What was saved is what is loaded.
  pub validate_all-dump_all : (xs : List A) → validate_all (dump_all xs) ≡ ok xs
  unfolding validate_all dump_all
  validate_all-dump_all [] = refl
  validate_all-dump_all (a ∷ xs) = ground (arith, c.validate-dump a, validate_all-dump_all xs)

  pub validate_each-dump_all : (xs : List A) → validate_each (dump_all xs) ≡ xs
  unfolding validate_each dump_all
  validate_each-dump_all [] = refl
  validate_each-dump_all (a ∷ xs) = ground (arith, c.validate-dump a, validate_each-dump_all xs)

pub ruleset codec_laws = (validate_all-dump_all, validate_each-dump_all)
