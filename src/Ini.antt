-- ===== src/Ini.antt =====
-- The INI texts by which users override the configuration of their simulators
-- (`_modify_ini_content` of app/routers/aggregate.py).
pub mod Settings
pub mod Breaks
pub mod Written
pub mod Scan
pub mod Names
pub mod Modified
pub mod Content
pub mod Blank
use Prim.Native.Char.{Char, code}
use webui_hub.Prelude.{
  ℕ, String, Bool, true, false, not, ◌&&◌, ◌||◌, Option, none, some, List, [], ◌∷◌, ◌++◌, ◌==◌,
  if◌then◌else◌, eqb, leb,
}
use webui_hub.Text.{is_space, lstrip, strip}

-- `a + b`
abbrev pub joined : String → String → String
joined String.[] t = t
joined (String.◌∷◌ c s) t = String.◌∷◌ c (joined s t)

-- The boundaries of `str.splitlines`.
unfoldable pub is_break : Char → Bool
is_break c =
    (leb 10 (code c) && leb (code c) 13)
    || ((leb 28 (code c) && leb (code c) 30)
        || (eqb (code c) 133 || (eqb (code c) 8232 || eqb (code c) 8233)))

abbrev pub front : Char → List String → List String
front c [] = String.◌∷◌ c "" ∷ []
front c (l ∷ ls) = String.◌∷◌ c l ∷ ls

-- The lines of a text, which follows a carriage return if the flag is set: then a line feed in front
-- belongs to that return.
unfoldable pub split_from : Bool → String → List String
split_from cr String.[] = []
split_from cr (String.◌∷◌ c s) =
    let rest = split_from (eqb (code c) 13) s in
    if cr && eqb (code c) 10 then rest else if is_break c then "" ∷ rest else front c rest

-- `content.splitlines()`
abbrev pub splitlines : String → List String
splitlines s = split_from false s

-- Is there a "\r\n" in the text?
unfoldable pub crlf_in : Bool → String → Bool
crlf_in cr String.[] = false
crlf_in cr (String.◌∷◌ c s) = (cr && eqb (code c) 10) || crlf_in (eqb (code c) 13) s

unfoldable pub ends_with : String → String → Bool
ends_with t String.[] = t == ""
ends_with t (String.◌∷◌ c s) = (String.◌∷◌ c s == t) || ends_with t s

-- `newline.join(lines)`
unfoldable pub join : String → List String → String
join newline [] = ""
join newline (l ∷ []) = l
join newline (l ∷ m ∷ ls) = joined l (joined newline (join newline (m ∷ ls)))

abbrev pub in_front : Char → Option (String × String) → Option (String × String)
in_front c none = none
in_front c (some (l, r)) = some (String.◌∷◌ c l, r)

-- The text before the first character with this code, and the text behind it.
unfoldable pub cut_at : ℕ → String → Option (String × String)
cut_at mark String.[] = none
cut_at mark (String.◌∷◌ c s) =
    let rest = in_front c (cut_at mark s) in if eqb (code c) mark then some ("", s) else rest

-- The blanks in front.
unfoldable pub indent : String → String
indent String.[] = ""
indent (String.◌∷◌ c s) = let rest = String.◌∷◌ c (indent s) in if is_space c then rest else ""

abbrev pub bracketed : Option (String × String) → Option String
bracketed none = none
bracketed (some (name, rest)) = if not (name == "") && (strip rest == "") then some name else none

unfoldable pub header_of : String → Option String
header_of String.[] = none
header_of (String.◌∷◌ c s) = if eqb (code c) b'[' then bracketed (cut_at b']' s) else none

-- `re.match(r"^\s*\[([^\]]+)\]\s*$", line)`: the name of the section that the line opens.
unfoldable pub header_name : String → Option String
header_name line = header_of (lstrip line)

unfoldable pub starts_entry : String → Bool
starts_entry String.[] = false
starts_entry (String.◌∷◌ c s) = not (eqb (code c) b'#' || eqb (code c) b';')

abbrev pub keyed : Option (String × String) → Option (String × String)
keyed none = none
keyed (some (name, value)) = if starts_entry name then some (strip name, value) else none

-- `re.match(r"^(\s*)([^=\s#;][^=]*?)\s*=.*$", line)`: the key, and what is behind the sign.
unfoldable pub key_entry : String → Option (String × String)
key_entry line = keyed (cut_at b'=' (lstrip line))

-- The variables of the loop.
pub record Scanner : Type 0 where
  pub updated : List String
  pub section_found : Bool
  pub in_target : Bool
  pub key_handled : Bool

abbrev pub set_on : String → String
set_on key = joined key "=on"

abbrev pub is_key : String → Option (String × String) → Bool
is_key key none = false
is_key key (some (k, value)) = k == key

-- Does the last line hold more than blanks?
abbrev pub ends_filled : List String → Bool
ends_filled [] = false
ends_filled (l ∷ []) = not (strip l == "")
ends_filled (l ∷ ls) = ends_filled ls

abbrev pub fresh : Scanner
fresh = record { updated = []; section_found = false; in_target = false; key_handled = false }

module _ (section key : String) (enabled : Bool) where
  -- The key is written at the end of its section, unless it was met there.
  unfoldable pub close_target : Scanner → Scanner
  close_target s =
      if s.in_target && (enabled && not s.key_handled)
      then record s { updated = s.updated ++ set_on key ∷ []; key_handled = true }
      else s

  abbrev pub open_section : String → String → Scanner → Scanner
  open_section line name s = record s {
    updated = s.updated ++ line ∷ [];
    section_found = s.section_found || (name == section);
    in_target = name == section;
  }

  abbrev pub replaced : String → Scanner → Scanner
  replaced line s = record s {
    updated = if enabled then s.updated ++ joined (indent line) (set_on key) ∷ [] else s.updated;
    key_handled = true;
  }

  abbrev pub kept_line : String → Scanner → Scanner
  kept_line line s = record s { updated = s.updated ++ line ∷ [] }

  abbrev pub scan_body : String → Scanner → Scanner
  scan_body line s =
      if s.in_target && is_key key (key_entry line) then replaced line s else kept_line line s

  abbrev pub scan_as : String → Scanner → Option String → Scanner
  scan_as line s (some name) = open_section line name (close_target s)
  scan_as line s none = scan_body line s

  -- One line.
  unfoldable pub scan_line : Scanner → String → Scanner
  scan_line s line = scan_as line s (header_name line)

  unfoldable pub scan : Scanner → List String → Scanner
  scan s [] = s
  scan s (l ∷ ls) = scan (scan_line s l) ls

  -- The section is put at the end if there is none.
  unfoldable pub create_section : Scanner → List String
  create_section s =
      if not s.section_found && enabled
      then (if ends_filled s.updated then s.updated ++ "" ∷ [] else s.updated)
        ++ joined "[" (joined section "]") ∷ set_on key ∷ []
      else s.updated

  unfoldable pub modify_lines : List String → List String
  modify_lines lines = create_section (close_target (scan fresh lines))

abbrev pub newline_of : String → String
newline_of content = if crlf_in false content then "\r\n" else "\n"

abbrev pub with_end : String → String → String → String
with_end newline content result =
    if not (ends_with newline result)
      && ((content == "") || (ends_with "\n" content || ends_with "\r\n" content))
    then joined result newline
    else result

unfoldable pub modify_ini_content : String → String → String → Bool → String
modify_ini_content content section key enabled =
    with_end (newline_of content) content
      (join (newline_of content) (modify_lines section key enabled (splitlines content)))
