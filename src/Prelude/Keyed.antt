-- ===== src/Prelude/Keyed.antt =====
-- Lists of records that a text field names, as the files hold them.
use Prim.Native.String.{String}
use mathlib.Core.Path.{◌≡◌, refl}
use mathlib.Core.Bool.{Bool, true, false, not, ◌||◌}
use mathlib.Core.Option.{none, some}
use mathlib.Core.List.{List, [], ◌∷◌, ◌++◌}
use native.Mathlib.Omega.{arith}
use text.Mathlib.Text.{◌==◌}
use text.Mathlib.TextEquality.{eq_iff}
use webui_hub.Prelude.Tests.{if◌then◌else◌}
use webui_hub.Prelude.Lists.{keep, find, any}

-- `x in xs`, of texts
unfoldable pub elem : String → List String → Bool
elem x [] = false
elem x (y ∷ ys) = (x == y) || elem x ys

pub elem-append : (x : String) (ys zs : List String) → elem x (ys ++ zs) ≡ (elem x ys || elem x zs)
unfolding elem
elem-append x [] zs = refl
elem-append x (y ∷ ys) zs = ground (arith, elem-append x ys zs)

module _ {ℓ} {A : Type ℓ} (key : A → String) where
  -- `save_…`: the old record of that key is dropped, and the new one is appended.
  pub find-replace :
      (i j : String) (a : A) (xs : List A)
      → key a ≡ i
      → find (λ x. key x == j) (keep (λ x. not (key x == i)) xs ++ a ∷ [])
        ≡ (if i == j then some a else find (λ x. key x == j) xs)
  find-replace i j a [] h = ground (arith, eq_iff (key a) j, eq_iff i j)
  find-replace i j a (x ∷ xs) h = ground (
    arith,
    eq_iff (key x) i,
    eq_iff (key x) j,
    eq_iff i j,
    eq_iff (key a) j,
    find-replace i j a xs h,
  )

  -- `delete_…`
  pub find-remove :
      (i j : String) (xs : List A)
      → find (λ x. key x == j) (keep (λ x. not (key x == i)) xs)
        ≡ (if i == j then none else find (λ x. key x == j) xs)
  find-remove i j [] = ground arith
  find-remove i j (x ∷ xs) =
      ground (arith, eq_iff (key x) i, eq_iff (key x) j, eq_iff i j, find-remove i j xs)

  -- A key finds a record where some record has it.
  pub any-find :
      (i : String) (xs : List A) (a : A)
      → find (λ x. key x == i) xs ≡ some a
      → any (λ x. key x == i) xs ≡ true
  any-find i [] a h = ground (arith, h)
  any-find i (x ∷ xs) a h = ground (arith, h, any-find i xs a)

  pub find-key : (i : String) (xs : List A) (a : A) → find (λ x. key x == i) xs ≡ some a → key a ≡ i
  find-key i [] a h = ground (arith, h)
  find-key i (x ∷ xs) a h = ground (arith, h, find-key i xs a, eq_iff (key x) i)
