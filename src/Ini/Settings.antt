-- ===== src/Ini/Settings.antt =====
-- What an INI text says: its settings in their order, a section, a key and a value for each.
use webui_hub.Prelude.{
  String, ◌≡◌, refl, sym, Bool, Option, none, some, List, [], ◌∷◌, ◌++◌, ◌==◌, ◌&&◌, keep, not,
}
use mathlib.Core.List.{append_assoc}
use webui_hub.Text.{strip}
use webui_hub.Ini.{header_name, key_entry}

pub record Setting : Type 0 where
  pub section : String
  pub key : String
  pub value : String

-- The section that is open behind a line.
abbrev pub opened : Option String → Option String → Option String
opened (some name) now = some name
opened none now = now

abbrev pub setting_in : Option String → Option (String × String) → List Setting
setting_in (some section) (some (key, value)) =
    record { section = section; key = key; value = strip value } ∷ []
setting_in _ _ = []

-- A line that opens a section sets nothing.
abbrev pub set_under : Option String → Option String → Option (String × String) → List Setting
set_under (some name) now e = []
set_under none now e = setting_in now e

unfoldable pub set_by : Option String → String → List Setting
set_by now line = set_under (header_name line) now (key_entry line)

-- The section that is open behind the lines.
unfoldable pub open_after : Option String → List String → Option String
open_after now [] = now
open_after now (l ∷ ls) = open_after (opened (header_name l) now) ls

unfoldable pub settings_from : Option String → List String → List Setting
settings_from now [] = []
settings_from now (l ∷ ls) = set_by now l ++ settings_from (opened (header_name l) now) ls

-- The settings of lines; those in front of the first section are none.
abbrev pub settings : List String → List Setting
settings lines = settings_from none lines

abbrev pub sets : String → String → Setting → Bool
sets section key s = (s.section == section) && (s.key == key)

-- The settings of the key in the section, and all the other ones.
abbrev pub of_key : String → String → List Setting → List Setting
of_key section key ss = keep (sets section key) ss

abbrev pub of_others : String → String → List Setting → List Setting
of_others section key ss = keep (λ s. not (sets section key s)) ss

pub open_after-append :
    (now : Option String) (ls ms : List String)
    → open_after now (ls ++ ms) ≡ open_after (open_after now ls) ms
unfolding open_after
open_after-append now [] ms = refl
open_after-append now (l ∷ ls) ms = open_after-append (opened (header_name l) now) ls ms

pub settings-append :
    (now : Option String) (ls ms : List String)
    → settings_from now (ls ++ ms) ≡ settings_from now ls ++ settings_from (open_after now ls) ms
unfolding settings_from open_after
settings-append now [] ms = refl
settings-append now (l ∷ ls) ms =
    rw (settings-append (opened (header_name l) now) ls ms)
      (sym (append_assoc (set_by now l) (settings_from (opened (header_name l) now) ls) _))
