-- ===== src/Store/Payload/Sorted.antt =====
-- What a sorted set holds (`sorted` of a set, in app/store.py and the routes).
use webui_hub.Prelude.{String, ◌≡◌, refl, ap, ◌∙◌, ◌||◌, List, [], ◌∷◌, ◌==◌, elem, eq_iff, arith}
use Prim.Native.Nat.{Ordering}
use Prim.Native.String.{compare}
use text.Mathlib.Text.{is_eq}
use webui_hub.Store.Payload.{sorted_set, insert_text}

-- Where a text is placed, from how it compares with the first one.
elem-placed :
    (v t x : String) (xs rest : List String) (o : Ordering)
    → compare t x ≡ o
    → elem v rest ≡ elem v (t ∷ xs)
    → elem v (elim o [ Ordering.lt ↦ t ∷ x ∷ xs | Ordering.eq ↦ x ∷ xs | Ordering.gt ↦ x ∷ rest ])
      ≡ elem v (t ∷ x ∷ xs)
unfolding elem
elem-placed v t x xs rest Ordering.lt e h = refl
elem-placed v t x xs rest Ordering.eq e h = rw ((eq_iff t x).0 (ap is_eq e)) (ground arith)
elem-placed v t x xs rest Ordering.gt e h = rw h (ground arith)

elem-insert_text : (v t : String) (xs : List String) → elem v (insert_text t xs) ≡ elem v (t ∷ xs)
unfolding insert_text
elem-insert_text v t [] = refl
elem-insert_text v t (x ∷ xs) =
    elem-placed v t x xs (insert_text t xs) (compare t x) refl (elem-insert_text v t xs)

pub elem-sorted_set : (v : String) (xs : List String) → elem v (sorted_set xs) ≡ elem v xs
unfolding sorted_set elem
elem-sorted_set v [] = refl
elem-sorted_set v (x ∷ xs) =
    elem-insert_text v x (sorted_set xs) ∙ ap (λ b. (v == x) || b) (elem-sorted_set v xs)
