-- ===== src/Ini/Breaks.antt =====
-- Lines that are joined are split again (`join` and `splitlines` in app/routers/aggregate.py).
use Prim.Native.Char.{Char, code}
use webui_hub.Prelude.{
  String, ◌≡◌, ◌⊎◌, inl, inr, refl, ap, sym, ◌∙◌, Bool, true, false, not, ◌&&◌, ◌||◌, Option, none,
  some, List, [], ◌∷◌, ◌++◌, ◌==◌, eqb, All, arith, Bool-cases, All-append,
}
use mathlib.Core.List.{append-nil}
use webui_hub.Text.{is_space, lstrip}
use webui_hub.Ini.{
  is_break, joined, front, split_from, splitlines, join, indent, header_name, header_of, key_entry,
  cut_at, with_end, ends_with,
}
use webui_hub.Ini.Settings.{opened, set_by, settings_from, settings, settings-append, open_after}

-- A text without line boundaries.
abbrev pub IsWhole : String → Type 0
IsWhole String.[] = Unit
IsWhole (String.◌∷◌ c s) = (is_break c ≡ false) × IsWhole s

pub joined-IsWhole : (s t : String) → IsWhole s → IsWhole t → IsWhole (joined s t)
joined-IsWhole String.[] t h k = k
joined-IsWhole (String.◌∷◌ c s) t h k = (h.0, joined-IsWhole s t h.1 k)

pub indent-IsWhole : (s : String) → IsWhole s → IsWhole (indent s)
unfolding indent
indent-IsWhole String.[] h = tt
indent-IsWhole (String.◌∷◌ c s) h = elim (Bool-cases (is_space c)) [
  | inl e ↦ rw e (h.0, indent-IsWhole s h.1)
  | inr e ↦ rw e tt
]

front-IsWhole :
    (c : Char) (ls : List String) → is_break c ≡ false → All IsWhole ls → All IsWhole (front c ls)
front-IsWhole c [] e h = ((e, tt), tt)
front-IsWhole c (l ∷ ls) e h = ((e, h.0), h.1)

pub split-IsWhole : (cr : Bool) (s : String) → All IsWhole (split_from cr s)
unfolding split_from
split-IsWhole cr String.[] = tt
split-IsWhole cr (String.◌∷◌ c s) =
    let rest = split-IsWhole (eqb (code c) 13) s in
    elim (Bool-cases (cr && eqb (code c) 10)) [
      | inl e ↦ rw e rest
      | inr e ↦ elim (Bool-cases (is_break c)) [
        | inl b ↦ rw (e, b) (tt, rest)
        | inr b ↦ rw (e, b) (front-IsWhole c _ b rest)
      ]
    ]

-- "\n" or "\r\n"
abbrev pub IsNewline : String → Type 0
IsNewline nl = (nl ≡ "\n") ⊎ (nl ≡ "\r\n")

split-newline :
    (nl rest : String)
    → IsNewline nl
    → split_from false (joined nl rest) ≡ "" ∷ split_from false rest
unfolding split_from is_break
split-newline nl rest (inl e) = rw e refl
split-newline nl rest (inr e) = rw e refl

line_feed : (c : Char) → is_break c ≡ false → eqb (code c) 10 ≡ false
unfolding is_break
line_feed c h = ground arith

carriage_return : (c : Char) → is_break c ≡ false → eqb (code c) 13 ≡ false
unfolding is_break
carriage_return c h = ground arith

no_pair : (cr : Bool) (c : Char) → is_break c ≡ false → (cr && eqb (code c) 10) ≡ false
no_pair true c h = line_feed c h
no_pair false c h = refl

-- A character that ends no line is put in front of the lines behind it.
split-front :
    (c : Char) (s : String)
    → is_break c ≡ false
    → split_from false (String.◌∷◌ c s) ≡ front c (split_from false s)
unfolding split_from
split-front c s h = rw (no_pair false c h, h, carriage_return c h) refl

split-line :
    (nl l rest : String)
    → IsNewline nl
    → IsWhole l
    → split_from false (joined l (joined nl rest)) ≡ l ∷ split_from false rest
split-line nl String.[] rest n w = split-newline nl rest n
split-line nl (String.◌∷◌ c l) rest n w =
    split-front c _ w.0 ∙ ap (front c) (split-line nl l rest n w.1)

split-filled :
    (c : Char) (l : String)
    → IsWhole (String.◌∷◌ c l)
    → split_from false (String.◌∷◌ c l) ≡ String.◌∷◌ c l ∷ []
split-filled c String.[] w = split-front c String.[] w.0 ∙ split-empty c
  where
    split-empty : (c : Char) → front c (split_from false String.[]) ≡ String.◌∷◌ c String.[] ∷ []
    split-empty c = unfold split_from in refl
split-filled c (String.◌∷◌ e l) w =
    split-front c (String.◌∷◌ e l) w.0 ∙ ap (front c) (split-filled e l w.1)

-- An empty last line is not there when the text is split, and it sets nothing.
settings-split_last :
    (now : Option String) (l : String)
    → IsWhole l
    → settings_from now (split_from false l) ≡ settings_from now (l ∷ [])
unfolding split_from settings_from set_by header_name header_of key_entry lstrip cut_at
settings-split_last none String.[] w = refl
settings-split_last (some name) String.[] w = refl
settings-split_last now (String.◌∷◌ c l) w = ap (settings_from now) (split-filled c l w)

joined-nil : (s : String) → joined s "" ≡ s
joined-nil String.[] = refl
joined-nil (String.◌∷◌ c s) = ap (String.◌∷◌ c) (joined-nil s)

joined_assoc : (s t u : String) → joined (joined s t) u ≡ joined s (joined t u)
joined_assoc String.[] t u = refl
joined_assoc (String.◌∷◌ c s) t u = ap (String.◌∷◌ c) (joined_assoc s t u)

pub blank_line : (now : Option String) → settings_from now ("" ∷ []) ≡ []
unfolding settings_from set_by header_name header_of key_entry lstrip cut_at
blank_line none = refl
blank_line (some name) = refl

module _ (nl : String) (n : IsNewline nl) where
  settings-split_line :
      (now : Option String) (l rest : String)
      → IsWhole l
      → settings_from now (split_from false (joined l (joined nl rest)))
        ≡ set_by now l ++ settings_from (opened (header_name l) now) (split_from false rest)
  settings-split_line now l rest w =
      ap (settings_from now) (split-line nl l rest n w) ∙ unfold settings_from in refl

  -- Lines that are joined and split again have the same settings.
  pub settings-join :
      (now : Option String) (ls : List String)
      → All IsWhole ls
      → settings_from now (split_from false (join nl ls)) ≡ settings_from now ls
  unfolding join
  settings-join now [] w = unfold split_from in unfold settings_from in refl
  settings-join now (l ∷ []) w = settings-split_last now l w.0
  settings-join now (l ∷ m ∷ ls) w =
      settings-split_line now l (join nl (m ∷ ls)) w.0
      ∙ ap (λ ss. set_by now l ++ ss) (settings-join (opened (header_name l) now) (m ∷ ls) w.1)
      ∙ unfold settings_from in refl

  join-newline :
      (l : String) (ls : List String) → joined (join nl (l ∷ ls)) nl ≡ join nl (l ∷ (ls ++ "" ∷ []))
  unfolding join
  join-newline l [] = ap (joined l) (sym (joined-nil nl))
  join-newline l (m ∷ ls) =
      joined_assoc l (joined nl (join nl (m ∷ ls))) nl
      ∙ ap (joined l) (joined_assoc nl (join nl (m ∷ ls)) nl)
      ∙ ap (λ s. joined l (joined nl s)) (join-newline m ls)

  -- So they do with a line boundary at the end.
  pub settings-join_newline :
      (ls : List String)
      → All IsWhole ls
      → settings (splitlines (joined (join nl ls) nl)) ≡ settings ls
  unfolding settings_from split_from join
  settings-join_newline [] w =
      ap (λ s. settings (splitlines s)) (sym (joined-nil nl))
      ∙ ap settings (split-newline nl "" n)
      ∙ blank_line none
  settings-join_newline (l ∷ ls) w =
      ap (λ s. settings (splitlines s)) (join-newline l ls)
      ∙ settings-join none (l ∷ (ls ++ "" ∷ [])) (w.0, All-append IsWhole ls ("" ∷ []) w.1 (tt, tt))
      ∙ settings-append none (l ∷ ls) ("" ∷ [])
      ∙ ap (λ ss. settings (l ∷ ls) ++ ss) (blank_line (open_after none (l ∷ ls)))
      ∙ append-nil _

  -- The text that `_modify_ini_content` makes of lines.
  pub settings-with_end :
      (content : String) (ls : List String)
      → All IsWhole ls
      → settings (splitlines (with_end nl content (join nl ls))) ≡ settings ls
  settings-with_end content ls w =
      elim (Bool-cases (
        not (ends_with nl (join nl ls))
        && ((content == "") || (ends_with "\n" content || ends_with "\r\n" content)))) [
          | inl e ↦ rw e (settings-join_newline ls w)
          | inr e ↦ rw e (settings-join none ls w)
        ]
