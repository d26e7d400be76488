-- ===== src/Store/QaKeys/Validity.antt =====
-- Which keys are valid after a key is saved, used or deleted.
use webui_hub.Prelude.{
  ℕ, String, ◌≡◌, refl, ap, Bool, true, false, not, ◌&&◌, none, some, List, [], ◌∷◌, ◌++◌, keep,
  length, eqb, find, arith, eq_refl, Bool-cases, inl, inr, any, keep-append, keep-keep,
  length-append,
}
use webui_hub.Json.{Json, Dict, of_fields-to_fields}
use webui_hub.Disk.{Disk, read_rows-write_rows, path_eq_refl}
use webui_hub.Store.Spokes.Format.{Instants}
use webui_hub.Store.QaKeys.{
  QaApiKey, QaKeyFormat, load_rows, save_rows, rows_in, rows_out, has_text, save_qa_api_key,
  delete_qa_api_key, validate_qa_api_key,
}

rows_in-rows_out : (rs : List (Dict Json)) → rows_in (rows_out rs) ≡ rs
rows_in-rows_out [] = refl
rows_in-rows_out (r ∷ rs) = rw (of_fields-to_fields, rows_in-rows_out rs)

load_rows-save_rows : (rs : List (Dict Json)) (d : Disk) → load_rows (save_rows rs d) ≡ rs
unfolding load_rows save_rows
load_rows-save_rows rs d = rw (read_rows-write_rows, path_eq_refl) (rows_in-rows_out rs)

-- Has no row but that of the id the digest?
abbrev pub is_only : String → String → List (Dict Json) → Bool
is_only id hash rs = not (any (λ r. not (has_text "id" id r) && has_text "key_hash" hash r) rs)

find-kept :
    (id hash : String) (rs : List (Dict Json))
    → is_only id hash rs ≡ true
    → find (has_text "key_hash" hash) (keep (λ r. not (has_text "id" id r)) rs) ≡ none
find-kept id hash [] h = refl
find-kept id hash (r ∷ rs) h = elim (Bool-cases (has_text "id" id r)) [
  | inl e ↦ rw e (find-kept id hash rs (rw e at h))
  | inr e ↦ elim (Bool-cases (has_text "key_hash" hash r)) [
    | inl f ↦ cc (rw (e, f) at h)
    | inr f ↦ rw (e, f) (find-kept id hash rs (rw (e, f) at h))
  ]
]

find-append :
    (test : Dict Json → Bool) (rs : List (Dict Json)) (r : Dict Json)
    → find test rs ≡ none
    → test r ≡ true
    → find test (rs ++ r ∷ []) ≡ some r
find-append test [] r h e = rw e
find-append test (x ∷ rs) r h e = ground (arith, find-append test rs r, h, e)

append_nil : (rs : List (Dict Json)) → rs ++ [] ≡ rs
append_nil [] = refl
append_nil (r ∷ rs) = ap (λ x. r ∷ x) (append_nil rs)

module _ ⦃times : Instants⦄ ⦃format : QaKeyFormat⦄ where
  abbrev other_rows : QaApiKey → List (Dict Json) → List (Dict Json)
  other_rows k rs = keep (λ r. not (has_text "id" k.id r)) rs

  has_id : (k : QaApiKey) → has_text "id" k.id (format.dump k) ≡ true
  has_id k = rw format.get-id (eq_refl k.id)

  has_hash :
      (k : QaApiKey) (hash : String)
      → hash ≡ k.key_hash
      → has_text "key_hash" hash (format.dump k) ≡ true
  has_hash k hash e = rw format.get-key_hash (rw e (eq_refl k.key_hash))

  other_rows-saved :
      (k : QaApiKey) (rs : List (Dict Json))
      → other_rows k (other_rows k rs ++ format.dump k ∷ []) ≡ other_rows k rs
  other_rows-saved k rs = rw (keep-append, keep-keep, has_id k) (append_nil (other_rows k rs))

  load_rows-save_qa_api_key :
      (k : QaApiKey) (d : Disk)
      → load_rows (save_qa_api_key k d) ≡ other_rows k (load_rows d) ++ format.dump k ∷ []
  unfolding save_qa_api_key
  load_rows-save_qa_api_key k d = load_rows-save_rows _ d

  load_rows-delete_saved :
      (k : QaApiKey) (d : Disk)
      → load_rows (delete_qa_api_key k.id (save_qa_api_key k d)).1 ≡ other_rows k (load_rows d)
  unfolding delete_qa_api_key
  load_rows-delete_saved k d =
      rw (load_rows-save_qa_api_key, other_rows-saved)
        (rw shorter (load_rows-save_rows (other_rows k (load_rows d)) _))
    where
      shorter :
          eqb
            (length (other_rows k (load_rows d)))
            (length (other_rows k (load_rows d) ++ format.dump k ∷ []))
          ≡ false
      shorter = rw length-append (ground arith)

  -- A saved key whose digest no row of another id has validates, with the instant of its use. Once
  -- it is deleted, it does not validate.
  pub validate-save_qa_api_key :
      (now : ℕ) (k : QaApiKey) (raw_key : String) (d : Disk)
      → format.sha256 raw_key ≡ k.key_hash
      → is_only k.id k.key_hash (load_rows d) ≡ true
      → ((validate_qa_api_key now raw_key (save_qa_api_key k d)).0
          ≡ some (record k { last_used_at = some now }))
        × ((validate_qa_api_key now raw_key (delete_qa_api_key k.id (save_qa_api_key k d)).1).0
            ≡ none)
  unfolding validate_qa_api_key
  validate-save_qa_api_key now k raw_key d e only = (
    rw load_rows-save_qa_api_key (
        rw
          (find-append (has_text "key_hash" (format.sha256 raw_key)) (other_rows k (load_rows d))
            (format.dump k) (rw e (find-kept k.id k.key_hash (load_rows d) only))
            (has_hash k (format.sha256 raw_key) e))
          (format.validate-used k now)),
    rw load_rows-delete_saved (rw (e, find-kept k.id k.key_hash (load_rows d) only)),
  )
