-- ===== src/Ini/Written.antt =====
-- What a line that is written for a key sets (`_modify_ini_content` of app/routers/aggregate.py).
use mathlib.Core.List.{append-nil}
use webui_hub.Text.{strip, lstrip, rstrip, is_space}
use webui_hub.Prelude.{
  String, ◌≡◌, refl, ap, ◌∙◌, Bool, true, false, not, ◌&&◌, Option, none, some, List, [], ◌∷◌, ◌++◌,
  ◌==◌, eq_refl, keep-append, All, All-append,
}
use webui_hub.Ini.{header_name, key_entry, indent, joined, set_on, is_key}
use webui_hub.Ini.Settings.{
  Setting, opened, setting_in, set_by, open_after, settings_from, settings, sets, of_key, of_others,
  open_after-append, settings-append,
}

-- A line that is written for the key reads back as a setting of it.
pub record ReadsBack (section key : String) : Type 0 where
  pub header : header_name (joined "[" (joined section "]")) ≡ some section
  pub no_header : (line : String) → header_name (joined (indent line) (set_on key)) ≡ none
  pub entry : (line : String) → key_entry (joined (indent line) (set_on key)) ≡ some (key, "on")

abbrev pub is_open : String → Option String → Bool
is_open section none = false
is_open section (some name) = name == section

abbrev pub filled : List Setting → Bool
filled [] = false
filled (s ∷ ss) = true

-- What the lines that were written set the key to.
abbrev pub Ours : Bool → Bool → List Setting → Type 0
Ours true handled ss = All (λ s. s.value ≡ "on") ss × (handled ≡ true → filled ss ≡ true)
Ours false handled ss = ss ≡ []

pub settings-line :
    (ls : List String) (l : String)
    → settings (ls ++ l ∷ []) ≡ settings ls ++ set_by (open_after none ls) l
settings-line ls l =
    settings-append none ls (l ∷ [])
    ∙ ap (λ ss. settings ls ++ ss)
        (unfold settings_from in append-nil (set_by (open_after none ls) l))

pub open-line :
    (ls : List String) (l : String)
    → open_after none (ls ++ l ∷ []) ≡ opened (header_name l) (open_after none ls)
open-line ls l = open_after-append none ls (l ∷ []) ∙ unfold open_after in refl

module _ (section key : String) where
  pub key-line :
      (ls : List String) (l : String)
      → of_key section key (settings (ls ++ l ∷ []))
        ≡ of_key section key (settings ls) ++ of_key section key (set_by (open_after none ls) l)
  key-line ls l =
      ap (of_key section key) (settings-line ls l) ∙ keep-append (sets section key) (settings ls) _

  pub others-line :
      (ls : List String) (l : String)
      → of_others section key (settings (ls ++ l ∷ []))
        ≡ of_others section key (settings ls)
          ++ of_others section key (set_by (open_after none ls) l)
  others-line ls l =
      ap (of_others section key) (settings-line ls l)
      ∙ keep-append (λ s. not (sets section key s)) (settings ls) _

  -- The setting that a written line makes where the section is open.
  pub setting_of : Option String → List Setting
  setting_of now = setting_in now (some (key, "on"))

  module _ (r : ReadsBack section key) where
    pub set_by-written :
        (now : Option String) (line : String)
        → set_by now (joined (indent line) (set_on key)) ≡ setting_of now
    unfolding set_by setting_of
    set_by-written now line = rw (r.no_header line, r.entry line) refl

    pub key-written :
        (now : Option String)
        → is_open section now ≡ true
        → of_key section key (setting_of now) ≡ setting_of now
    unfolding setting_of
    key-written none h = refl
    key-written (some name) h = rw (h, eq_refl key) refl

    pub others-written :
        (now : Option String)
        → is_open section now ≡ true
        → of_others section key (setting_of now) ≡ []
    unfolding setting_of
    others-written none h = refl
    others-written (some name) h = rw (h, eq_refl key) refl

  -- A line that the loop takes for an entry of the key sets nothing else.
  pub others-entry :
      (now : Option String) (e : Option (String × String))
      → is_open section now ≡ true
      → is_key key e ≡ true
      → of_others section key (setting_in now e) ≡ []
  others-entry none e h k = refl
  others-entry (some name) none h k = refl
  others-entry (some name) (some (j, v)) h k = rw (h, k) refl

  -- A line that it takes for another one does not set the key.
  pub key-other :
      (now : Option String) (e : Option (String × String))
      → (is_open section now && is_key key e) ≡ false
      → of_key section key (setting_in now e) ≡ []
  key-other none e h = refl
  key-other (some name) none h = refl
  key-other (some name) (some (j, v)) h = rw h refl

pub filled-append : (ss ts : List Setting) → filled ts ≡ true → filled (ss ++ ts) ≡ true
filled-append [] ts h = h
filled-append (s ∷ ss) ts h = refl

pub and_left : (a b : Bool) → (a && b) ≡ true → a ≡ true
and_left true b h = refl
and_left false b h = h

pub and_right : (a b : Bool) → (a && b) ≡ true → b ≡ true
and_right true b h = h
and_right false b h = cc

pub setting_of-on :
    (section key : String) (now : Option String)
    → is_open section now ≡ true
    → All (λ s. s.value ≡ "on") (setting_of section key now)
      × (filled (setting_of section key now) ≡ true)
unfolding setting_of strip lstrip rstrip is_space
setting_of-on section key none o = cc
setting_of-on section key (some name) o = ((refl, tt), refl)

module _ (section key : String) (r : ReadsBack section key) where
  pub Ours-written :
      (h : Bool) (ss : List Setting) (now : Option String)
      → is_open section now ≡ true
      → Ours true h ss
      → Ours true true (ss ++ setting_of section key now)
  Ours-written h ss now o ours =
      let (on, there) = setting_of-on section key now o in
      (All-append (λ s. s.value ≡ "on") ss _ ours.0 on, λ _. filled-append ss _ there)

  pub open-written :
      (ls : List String) (line : String)
      → open_after none (ls ++ joined (indent line) (set_on key) ∷ []) ≡ open_after none ls
  open-written ls line = open-line ls _ ∙ ap (λ o. opened o (open_after none ls)) (r.no_header line)
