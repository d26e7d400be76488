-- ===== src/Ini/Names.antt =====
-- The names of sections and keys that an INI text gives back as they were written.
use Prim.Native.Char.{Char, code}
use webui_hub.Prelude.{
  ℕ, String, ◌≡◌, refl, ap, ◌∙◌, Bool, true, false, not, ◌||◌, Option, none, some, ◌==◌, eqb, arith,
  Bool-cases, inl, inr,
}
use webui_hub.Text.{is_space, lstrip, rstrip, strip}
use webui_hub.Ini.{
  joined, in_front, cut_at, indent, header_of, header_name, starts_entry, keyed, key_entry, set_on,
}
use webui_hub.Ini.Breaks.{IsWhole}
use webui_hub.Ini.Written.{ReadsBack}

abbrev pub starts_key : String → Bool
starts_key String.[] = false
starts_key (String.◌∷◌ c s) =
    not (is_space c || (eqb (code c) b'[' || (eqb (code c) b'#' || eqb (code c) b';')))

pub record IsSection (section : String) : Type 0 where
  pub unclosed : cut_at b']' section ≡ none
  pub filled : (section == "") ≡ false
  pub whole : IsWhole section

pub record IsKey (key : String) : Type 0 where
  pub unsigned : cut_at b'=' key ≡ none
  pub starts : starts_key key ≡ true
  pub trimmed : strip key ≡ key
  pub whole : IsWhole key

in_front-none : (c : Char) (o : Option (String × String)) → in_front c o ≡ none → o ≡ none
in_front-none c none h = refl
in_front-none c (some (l, r)) h = cc

-- A text without the mark is cut off at the mark that follows it.
cut_at-joined :
    (mark : ℕ) (s : String) (c : Char) (t : String)
    → eqb (code c) mark ≡ true
    → cut_at mark s ≡ none
    → cut_at mark (joined s (String.◌∷◌ c t)) ≡ some (s, t)
unfolding cut_at
cut_at-joined mark String.[] c t e h = rw e refl
cut_at-joined mark (String.◌∷◌ a s) c t e h = elim (Bool-cases (eqb (code a) mark)) [
  | inl here ↦ cc (rw here at h)
  | inr on ↦
      rw on (
        ap (in_front a) (cut_at-joined mark s c t e (in_front-none a (cut_at mark s) (rw on at h))))
]

lstrip-indent : (line t : String) → lstrip (joined (indent line) t) ≡ lstrip t
unfolding indent lstrip
lstrip-indent String.[] t = refl
lstrip-indent (String.◌∷◌ c s) t = elim (Bool-cases (is_space c)) [
  | inl e ↦ rw e (rw e (lstrip-indent s t))
  | inr e ↦ rw e refl
]

not_space : (c : Char) → starts_key (String.◌∷◌ c "") ≡ true → is_space c ≡ false
not_space c h = ground arith

lstrip-key : (key t : String) → starts_key key ≡ true → lstrip (joined key t) ≡ joined key t
unfolding lstrip
lstrip-key String.[] t h = cc
lstrip-key (String.◌∷◌ c s) t h = rw (not_space c h) refl

header_of-key : (key t : String) → starts_key key ≡ true → header_of (joined key t) ≡ none
unfolding header_of
header_of-key String.[] t h = cc
header_of-key (String.◌∷◌ c s) t h = ground arith

starts_entry-key : (key : String) → starts_key key ≡ true → starts_entry key ≡ true
unfolding starts_entry
starts_entry-key String.[] h = h
starts_entry-key (String.◌∷◌ c s) h = ground arith

header_name-section :
    (section : String)
    → IsSection section
    → header_name (joined "[" (joined section "]")) ≡ some section
unfolding header_name header_of lstrip is_space strip rstrip
header_name-section section h = rw (cut_at-joined b']' section _ "" refl h.unclosed, h.filled) refl

pub ReadsBack-names : (section key : String) → IsSection section → IsKey key → ReadsBack section key
ReadsBack-names section key s k = record {
  header = header_name-section section s;
  no_header = λ line.
      unfold header_name in
      (ap header_of (lstrip-indent line (set_on key) ∙ lstrip-key key "=on" k.starts)
        ∙ header_of-key key "=on" k.starts);
  entry = λ line.
      unfold key_entry in
      (ap (λ s. keyed (cut_at b'=' s))
          (lstrip-indent line (set_on key) ∙ lstrip-key key "=on" k.starts)
        ∙ ap keyed (cut_at-joined b'=' key _ "on" refl k.unsigned)
        ∙ rw (starts_entry-key key k.starts, k.trimmed) refl);
}
