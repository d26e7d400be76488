-- ===== src/Exec.antt =====
-- Functions that read and write the files and may raise. What was written before a raise stays.
use webui_hub.Prelude.{ℕ, ◌≡◌, refl, ◌⊎◌, inl, inr, List, [], ◌∷◌}
use webui_hub.Disk.{Disk}

-- The exceptions that the modelled code raises: those of pydantic, `ValueError`, `AttributeError`,
-- and FastAPI's with its status code.
pub data Exception : Type 0 where
  validation_error : Exception
  value_error : Exception
  http_error : ℕ → Exception
  attribute_error : Exception

pub data Result {ℓ} (A : Type ℓ) : Type ℓ where
  ok : A → Result A
  raised : Exception → Result A

abbrev pub Exec : Type 0 → Type 0
Exec A = Disk → Result A × Disk

abbrev pub return : {A : Type 0} → A → Exec A
return a d = (ok a, d)

abbrev pub raise : {A : Type 0} → Exception → Exec A
raise e d = (raised e, d)

-- A read that may raise.
abbrev pub reading : {A : Type 0} → (Disk → Result A) → Exec A
reading f d = (f d, d)

-- A read that cannot raise.
abbrev pub look : {A : Type 0} → (Disk → A) → Exec A
look f d = (ok (f d), d)

abbrev pub write : (Disk → Disk) → Exec (Unit {0})
write f d = (ok tt, f d)

abbrev pub and_then : {A B : Type 0} → Result A → (A → Exec B) → Exec B
and_then (ok a) f d = f a d
and_then (raised e) f d = (raised e, d)

infixl 5 ◌>>=◌ ◌>>◌
abbrev pub ◌>>=◌ : {A B : Type 0} → Exec A → (A → Exec B) → Exec B
◌>>=◌ m f d = and_then (m d).0 f (m d).1

abbrev pub ◌>>◌ : {B : Type 0} → Exec (Unit {0}) → Exec B → Exec B
m >> n = m >>= λ _. n

-- `for x in xs: body(x)`
unfoldable pub for_each : {A : Type 0} → List A → (A → Exec (Unit {0})) → Exec (Unit {0})
for_each [] body = return tt
for_each (x ∷ xs) body = body x >> for_each xs body

pub Result-cases :
    {A : Type 0} (r : Result A) → ((a : A) × (r ≡ ok a)) ⊎ ((e : Exception) × (r ≡ raised e))
Result-cases (ok a) = inl (a, refl)
Result-cases (raised e) = inr (e, refl)
