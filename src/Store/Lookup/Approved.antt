-- ===== src/Store/Lookup/Approved.antt =====
-- What a lookup of an approved spoke finds.
use webui_hub.Prelude.{
  String, ◌≡◌, refl, subst, Bool, true, ◌&&◌, ◌||◌, Option, none, some, List, [], ◌∷◌, ◌==◌, arith,
  keep, find, Bool-cases, inl, inr, eq_iff, ap, sym, ◌∙◌,
}
use mathlib.Core.Option.{some_inj}
use mathlib.Core.List.{Mem, mem-cons_self, mem-cons_of_mem}
use webui_hub.Disk.{Disk}
use webui_hub.Codec.{Codec}
use webui_hub.Crypto.{Fernet, decrypt_str}
use webui_hub.Models.{Tenant, Spoke}
use webui_hub.Store.Tenants.{load_tenants, restore_missing}
use webui_hub.Store.Spokes.{load_spokes, is_approved}
use webui_hub.Store.Spokes.Format.{SpokeFormat, Instants}
use webui_hub.Store.Lookup.{
  first_approved, has_key, opens_with, is_text, get_approved_spoke_by_api_key, or_next,
}

found_passes :
    (test : Spoke → Bool) (x s : Spoke) → test x ≡ true → Option.some x ≡ some s → test s ≡ true
found_passes test x s e h = cc

find-passes :
    (test : Spoke → Bool) (xs : List Spoke) (s : Spoke) → find test xs ≡ some s → test s ≡ true
find-passes test [] s h = cc
find-passes test (x ∷ xs) s h = elim (Bool-cases (test x)) [
  | inl e ↦ found_passes test x s e (rw e at h)
  | inr e ↦ find-passes test xs s (rw e at h)
]

find-mem : (test : Spoke → Bool) (xs : List Spoke) (s : Spoke) → find test xs ≡ some s → Mem s xs
find-mem test [] s h = cc
find-mem test (x ∷ xs) s h = elim (Bool-cases (test x)) [
  | inl e ↦ subst (λ y. Mem y (x ∷ xs)) (some_inj.0 (rw e at h)) mem-cons_self
  | inr e ↦ mem-cons_of_mem x (find-mem test xs s (rw e at h))
]

module _ ⦃format : SpokeFormat⦄ ⦃times : Instants⦄ where
  -- A spoke that passes the test and is approved, of one of the tenants that are asked for.
  record Found (asked : Tenant → Bool) (test : Spoke → Bool) (ts : List Tenant) (d : Disk)
      (id : String) (s : Spoke) : Type 0 where
    approved : is_approved s ≡ true
    passes : test s ≡ true
    tenant : Tenant
    known : Mem tenant ts
    searched : asked tenant ≡ true
    named : tenant.id ≡ id
    listed : Mem s (load_spokes id d)

  later-Found :
      (asked : Tenant → Bool) (test : Spoke → Bool) (t : Tenant) (ts : List Tenant) (d : Disk)
      (id : String) (s : Spoke)
      → Found asked test ts d id s
      → Found asked test (t ∷ ts) d id s
  later-Found asked test t ts d id s r = record {
    approved = r.approved;
    passes = r.passes;
    tenant = r.tenant;
    known = mem-cons_of_mem t r.known;
    searched = r.searched;
    named = r.named;
    listed = r.listed;
  }

  first-Found :
      (asked : Tenant → Bool) (test : Spoke → Bool) (t : Tenant) (ts : List Tenant) (d : Disk)
      (id : String) (s : Spoke) (o : Option Spoke) (next : Option (String × Spoke))
      → asked t ≡ true
      → find (λ x. is_approved x && test x) (load_spokes t.id d) ≡ o
      → or_next t.id o next ≡ some (id, s)
      → (next ≡ some (id, s) → Found asked test ts d id s)
      → Found asked test (t ∷ ts) d id s
  first-Found asked test t ts d id s none next a e h rest =
      later-Found asked test t ts d id s (rest h)
  first-Found asked test t ts d id s (some x) next a e h rest =
      let q = some_inj.0 h in
      let at = ap (λ r. r.0) q in
      let found = e ∙ ap (λ r. some r.1) q in
      let ok = find-passes (λ y. is_approved y && test y) (load_spokes t.id d) s found in
      record {
        approved = ground (arith, ok);
        passes = ground (arith, ok);
        tenant = t;
        known = mem-cons_self;
        searched = a;
        named = at;
        listed =
            subst (λ i. Mem s (load_spokes i d)) at
              (find-mem (λ y. is_approved y && test y) (load_spokes t.id d) s found);
      }

  first_approved-Found :
      (asked : Tenant → Bool) (test : Spoke → Bool) (ts : List Tenant) (d : Disk) (id : String)
      (s : Spoke)
      → first_approved test (keep asked ts) d ≡ some (id, s)
      → Found asked test ts d id s
  unfolding first_approved
  first_approved-Found asked test [] d id s h = cc
  first_approved-Found asked test (t ∷ ts) d id s h = elim (Bool-cases (asked t)) [
    | inl e ↦
        first-Found asked test t ts d id s _ _ e refl (rw e at h)
          (first_approved-Found asked test ts d id s)
    | inr e ↦
        later-Found asked test t ts d id s (first_approved-Found asked test ts d id s (rw e at h))
  ]

  is_asked :
      (tenant_id id : String)
      → ¬ (tenant_id ≡ "")
      → ((tenant_id == "") || (id == tenant_id)) ≡ true
      → id ≡ tenant_id
  is_asked tenant_id id given h = ground (arith, h, eq_iff tenant_id "", eq_iff id tenant_id, given)

  text_as : (key : String) (o : Option String) → is_text key o ≡ true → o ≡ some key
  text_as key none h = cc
  text_as key (some t) h = ap some ((eq_iff t key).0 h)

  opened :
      ⦃fernet : Fernet⦄ (api_key : String) (o : Option String)
      → opens_with api_key o ≡ true
      → (enc : String) × (o ≡ some enc) × (decrypt_str enc ≡ some api_key)
  opened api_key none h = cc
  opened api_key (some enc) h = elim (Bool-cases (enc == "")) [
    | inl e ↦ cc (rw e at h)
    | inr e ↦ (enc, refl, text_as api_key (decrypt_str enc) (rw e at h))
  ]

  -- The spoke that an API key finds is an approved one in the spokes file of the tenant that is
  -- answered, which is a tenant that loads, and the one that was asked for, if one was. The key is
  -- not empty, and what the spoke has stored decrypts to it.
  pub get_approved_spoke_by_api_key-IsOwned :
      ⦃tenants : Codec Tenant⦄ ⦃fernet : Fernet⦄ (api_key tenant_id id : String) (s : Spoke)
      (d : Disk)
      → get_approved_spoke_by_api_key api_key tenant_id d ≡ some (id, s)
      → (¬ (api_key ≡ ""))
        × (s.status ≡ "approved")
        × ((enc : String) × (s.api_key_enc ≡ some enc) × (decrypt_str enc ≡ some api_key))
        × ((t : Tenant) × Mem t (load_tenants d) × (t.id ≡ id))
        × (¬ (tenant_id ≡ "") → id ≡ tenant_id)
        × Mem s (load_spokes id (restore_missing d))
  unfolding get_approved_spoke_by_api_key
  get_approved_spoke_by_api_key-IsOwned api_key tenant_id id s d h =
      elim (Bool-cases (api_key == "")) [
        | inl e ↦ cc (rw e at h)
        | inr e ↦
            let found =
              first_approved-Found (λ t. (tenant_id == "") || (t.id == tenant_id)) (has_key api_key)
                (load_tenants d) (restore_missing d) id s (rw e at h) in
            (
              λ q. ground (arith, e, eq_iff api_key "", q),
              (eq_iff s.status "approved").0 found.approved,
              opened api_key s.api_key_enc found.passes,
              (found.tenant, found.known, found.named),
              λ given. sym found.named ∙ is_asked tenant_id found.tenant.id given found.searched,
              found.listed,
            )
      ]
