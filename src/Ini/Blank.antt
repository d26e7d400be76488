-- ===== src/Ini/Blank.antt =====
-- A text of blanks has no settings.
use Prim.Native.Char.{Char, code}
use webui_hub.Prelude.{
  String, ◌≡◌, refl, Bool, true, false, ◌&&◌, none, List, [], ◌∷◌, ◌==◌, eq_iff, eqb, if◌then◌else◌,
  All, Bool-cases, inl, inr,
}
use webui_hub.Text.{is_space, lstrip, rstrip, strip}
use webui_hub.Ini.{split_from, splitlines, is_break, front, header_name, header_of}
use webui_hub.Ini.Settings.{settings, settings_from, set_by}

abbrev IsBlank : String → Type 0
IsBlank String.[] = Unit
IsBlank (String.◌∷◌ c s) = (is_space c ≡ true) × IsBlank s

-- What `rstrip` decides on.
dropped :
    (c : Char) (b : Bool) (rest : String)
    → (if b && (rest == "") then String.[] else String.◌∷◌ c rest) ≡ ""
    → (b ≡ true) × (rest ≡ "")
dropped c true rest h = elim (Bool-cases (rest == "")) [
  | inl e ↦ (refl, (eq_iff rest "").0 e)
  | inr e ↦ cc (rw e at h)
]
dropped c false rest h = cc

rstrip-IsBlank : (s : String) → rstrip s ≡ "" → IsBlank s
unfolding rstrip
rstrip-IsBlank String.[] h = tt
rstrip-IsBlank (String.◌∷◌ c s) h =
    let (blank, rest) = dropped c (is_space c) (rstrip s) h in (blank, rstrip-IsBlank s rest)

lstrip-IsBlank : (s : String) → rstrip (lstrip s) ≡ "" → IsBlank s
unfolding lstrip
lstrip-IsBlank String.[] h = tt
lstrip-IsBlank (String.◌∷◌ c s) h = elim (Bool-cases (is_space c)) [
  | inl e ↦ (e, lstrip-IsBlank s (rw e at h))
  | inr e ↦ rstrip-IsBlank (String.◌∷◌ c s) (rw e at h)
]

front-IsBlank :
    (c : Char) (ls : List String) → is_space c ≡ true → All IsBlank ls → All IsBlank (front c ls)
front-IsBlank c [] e h = ((e, tt), tt)
front-IsBlank c (l ∷ ls) e h = ((e, h.0), h.1)

split-IsBlank : (cr : Bool) (s : String) → IsBlank s → All IsBlank (split_from cr s)
unfolding split_from
split-IsBlank cr String.[] h = tt
split-IsBlank cr (String.◌∷◌ c s) h =
    let rest = split-IsBlank (eqb (code c) 13) s h.1 in
    elim (Bool-cases (cr && eqb (code c) 10)) [
      | inl e ↦ rw e rest
      | inr e ↦ elim (Bool-cases (is_break c)) [
        | inl b ↦ rw (e, b) (tt, rest)
        | inr b ↦ rw (e, b) (front-IsBlank c _ h.0 rest)
      ]
    ]

lstrip-blank : (s : String) → IsBlank s → lstrip s ≡ ""
unfolding lstrip
lstrip-blank String.[] h = refl
lstrip-blank (String.◌∷◌ c s) h = rw h.0 (lstrip-blank s h.1)

no_header : (s : String) → IsBlank s → header_name s ≡ none
unfolding header_name header_of
no_header s h = rw (lstrip-blank s h) refl

settings-blank_lines : (ls : List String) → All IsBlank ls → settings ls ≡ []
unfolding settings_from set_by
settings-blank_lines [] h = refl
settings-blank_lines (l ∷ ls) h = rw (no_header l h.0) (settings-blank_lines ls h.1)

pub settings-blank : (s : String) → strip s ≡ "" → settings (splitlines s) ≡ []
unfolding strip
settings-blank s h = settings-blank_lines _ (split-IsBlank false s (lstrip-IsBlank s h))
